-- ===== src/Meta/Create.antt =====
-- CuckooCreateHandle over the requests of one shard: groups of them in subtransactions, which are rolled
-- back and tried again without the request whose row is there already.
use cuckoofs.Base.{
  ℕ, zero, suc, ◌-◌, ◌^◌, Bool, true, false, Option, none, some, if◌then◌else◌, List, [], ◌∷◌, ◌++◌,
}
use cuckoofs.Errors.{ErrorCode}
use cuckoofs.Meta.{Inode}
use cuckoofs.Meta.Tables.{InodeTables}
use cuckoofs.Meta.Update.{Change, no_change, search_and_update}

abbrev pub batch_operation_group_size : ℕ
batch_operation_group_size = 8

-- MetaProcessInfo: its path, its code, and what it says of the row, where `inodeId` and `node_id` are
-- `st_ino` and `primary_nodeid`. It has no update version and no backup node.
pub record Request : Type 0 where
  pub path : Option (List ℕ)
  pub code : ErrorCode
  pub parent_id : ℕ
  pub row : Inode

abbrev pub is_success : ErrorCode → Bool
is_success ErrorCode.success = true
is_success _ = false

abbrev pub is_file_exists : ErrorCode → Bool
is_file_exists ErrorCode.file_exists = true
is_file_exists _ = false

-- The row that InsertIntoInodeTable makes for a request; -1 is a word of 32 bits.
unfoldable pub created_row : Inode → Inode
created_row r = record {
  name = r.name;
  st_ino = r.st_ino;
  parentid_partid = r.parentid_partid;
  st_dev = 0;
  st_mode = r.st_mode;
  st_nlink = 1;
  st_uid = 0;
  st_gid = 0;
  st_rdev = 0;
  st_size = r.st_size;
  st_blksize = 0;
  st_blocks = 0;
  st_atim = r.st_mtim;
  st_mtim = r.st_mtim;
  st_ctim = r.st_mtim;
  etag = r.etag;
  update_version = 0;
  primary_nodeid = 2 ^ 32 - 1;
  backup_nodeid = 2 ^ 32 - 1;
}

-- What the pointers of SearchAndUpdateInodeTableInfo fill in of a row that is there.
unfoldable pub filled : Option Inode → Request → Request
filled none q = q
filled (some r) q = record q {
  row = record q.row {
    st_ino = r.st_ino;
    st_size = r.st_size;
    st_nlink = r.st_nlink;
    st_mode = r.st_mode;
    primary_nodeid = r.primary_nodeid;
  };
}

abbrev pub mark_existing : Request → Request
mark_existing q = record q { code = ErrorCode.file_exists }

-- How a group ends: the requests that are handled, those left and the tables; or the requests in front
-- of the one whose insertion has raised an error, that one, and those behind.
pub data Attempt (T : Type 0) : Type 0 where
  committed : List Request → List Request → T → Attempt T
  caught : List Request → Request → List Request → Attempt T

abbrev pub cons_attempt : {T : Type 0} → Request → Attempt T → Attempt T
cons_attempt q (committed handled rest t) = committed (q ∷ handled) rest t
cons_attempt q (caught front f back) = caught (q ∷ front) f back

module _ (I : InodeTables) (shard_id : ℕ) where
  abbrev pub row_of : I.Tables → Request → Option Inode
  row_of t q = (search_and_update I shard_id q.row.parentid_partid q.row.name false no_change t).1

  -- A request with an error is passed over.
  unfoldable pub passed : I.Tables → Request → Request
  passed t q = if is_file_exists q.code then filled (row_of t q) q else q

  abbrev pub insert_request : I.Tables → Request → Option I.Tables
  insert_request t q = I.insert t shard_id (created_row q.row)

  -- The inner loop over the requests that are left, in their order.
  unfoldable pub inserted :
      Request → List Request → Option I.Tables → (I.Tables → Attempt I.Tables) → Attempt I.Tables
  inserted q qs none next = caught [] q qs
  inserted q qs (some t) next = cons_attempt q (next t)

  unfoldable pub attempt : ℕ → I.Tables → List Request → Attempt I.Tables
  attempt zero t qs = committed [] qs t
  attempt (suc g) t [] = committed [] [] t
  attempt (suc g) t (q ∷ qs) =
      let over = cons_attempt (passed t q) (attempt (suc g) t qs) in
      if is_success q.code
      then inserted q qs (insert_request t q) (λ (t' : I.Tables). attempt g t' qs)
      else over

  -- What PG_CATCH writes to the row, when existing files are to be updated.
  abbrev pub existing_change : Request → Change
  existing_change q = record no_change {
    new_size = some q.row.st_size;
    new_etag = some q.row.etag;
    new_mtime = some q.row.st_mtim;
  }

  abbrev pub and_handled :
      List Request → Option (List Request × I.Tables) → Option (List Request × I.Tables)
  and_handled handled none = none
  and_handled handled (some (rest, t)) = some (handled ++ rest, t)

  -- The end of a group: the subtransaction is released, or it is rolled back to `t`.
  unfoldable pub end_group :
      Bool
      → I.Tables
      → (I.Tables → List Request → Option (List Request × I.Tables))
      → Attempt I.Tables
      → Option (List Request × I.Tables)
  end_group update_existed t next (committed handled rest t') = and_handled handled (next t' rest)
  end_group false t next (caught front q back) = next t (front ++ (mark_existing q ∷ back))
  end_group true t next (caught front q back) =
      next
        (search_and_update I shard_id q.row.parentid_partid q.row.name true (existing_change q) t).0
        (front ++ (q ∷ back))

  -- The outer loop, on fuel.
  unfoldable pub create_loop : ℕ → Bool → I.Tables → List Request → Option (List Request × I.Tables)
  create_loop fuel update_existed t [] = some ([], t)
  create_loop zero update_existed t (q ∷ qs) = none
  create_loop (suc fuel) update_existed t (q ∷ qs) =
      end_group update_existed t
        (λ (t' : I.Tables) (rest : List Request). create_loop fuel update_existed t' rest)
        (attempt batch_operation_group_size t (q ∷ qs))

  -- The same requests one by one, with no groups.
  abbrev pub settle_inserted : I.Tables → Request → Option I.Tables → Request × I.Tables
  settle_inserted t q none = (passed t (mark_existing q), t)
  settle_inserted t q (some t') = (q, t')

  unfoldable pub settle_one : I.Tables → Request → Request × I.Tables
  settle_one t q =
      if is_success q.code then settle_inserted t q (insert_request t q) else (passed t q, t)

  unfoldable pub settle : I.Tables → List Request → List Request × I.Tables
  settle t [] = ([], t)
  settle t (q ∷ qs) =
      let (q', t') = settle_one t q in let (rest, t'') = settle t' qs in (q' ∷ rest, t'')
