-- ===== src/Meta/Sub.antt =====
-- The parts of Rmdir and Rename that the servers do for the one that handles the request:
-- CuckooRmdirSubRmdirHandle, CuckooRmdirSubUnlinkHandle, CuckooRenameSubRenameLocallyHandle,
-- CuckooRenameSubCreateHandle; and CuckooMkdirSubMkdirHandle.
use cuckoofs.Base.{
  ℕ, ◌-◌, ◌^◌, ◌==◌, ◌||◌, Bool, true, false, not, Option, none, some, if◌then◌else◌, List, [], ◌∷◌,
}
use cuckoofs.Errors.{ErrorCode}
use cuckoofs.DirHash.{Key, DirLock, path_not_exist}
use cuckoofs.DirHash.Table.{Dynahash}
use cuckoofs.DirHash.Cache.{State, Outcome, done, failed, raised, duplicate_row, ◌>>=◌}
use cuckoofs.DirHash.Ops.{search_directory, insert_directory, delete_directory}
use cuckoofs.Path.Tree.{Name}
use cuckoofs.Shard.{Shard}
use cuckoofs.Meta.{Inode}
use cuckoofs.Meta.Tables.{InodeTables}
use cuckoofs.Meta.Update.{Change, no_change, search_and_update}
use cuckoofs.Meta.Rows.{matching}
use cuckoofs.Meta.ReadDir.{new_shard, scan_key}
use cuckoofs.Meta.Handlers.{locate}

-- -1 as a uint64_t.
abbrev pub minus_one : ℕ
minus_one = 2 ^ 64 - 1

-- The scans of CuckooRmdirSubRmdirHandle, which stop at the first row.
abbrev pub is_empty : List Inode → Bool
is_empty [] = true
is_empty (r ∷ rs) = false

unfoldable pub has_entries : (ℕ → List Inode) → ℕ → ℕ → List Shard → Bool
has_entries rows local_server_id directory_id [] = false
has_entries rows local_server_id directory_id (s ∷ ss) =
    let rest = has_entries rows local_server_id directory_id ss in
    if s.server_id == local_server_id
    then not (
        is_empty
          (matching (scan_key (λ m n. false) directory_id [] new_shard) (rows s.range_point)))
      || rest
    else rest

-- MetaProcessInfo of a rename: the source, the destination, and whether it is a directory.
pub record RenameInfo : Type 0 where
  pub target_is_directory : Bool
  pub src_lock_order : ℕ
  pub parent_id : ℕ
  pub name : Name
  pub parentid_partid : ℕ
  pub dst_parent_id : ℕ
  pub dst_name : Name
  pub dst_parentid_partid : ℕ
  pub inode_id : ℕ

abbrev pub src_key : RenameInfo → Key
src_key m = record { parent_id = m.parent_id; name = m.name }

abbrev pub dst_key : RenameInfo → Key
dst_key m = record { parent_id = m.dst_parent_id; name = m.dst_name }

abbrev pub one_link_less : Change
one_link_less = record no_change { nlink = some minus_one }

-- CuckooRenameSubCreateHandle inserts the row of a request with no etag and as a new version.
abbrev pub arrived_row : Inode → Inode
arrived_row r = record r { etag = []; update_version = 0; backup_nodeid = 2 ^ 32 - 1 }

module _ (D : Dynahash) (hash : Key → ℕ) (start : D.Table → ℕ) (fuel tries patience : ℕ) where
  -- CuckooMkdirSubMkdirHandle, on the parent's number, the name and the number of each request.
  unfoldable pub sub_mkdir_one : ℕ → Option Name → ℕ → State D.Table → Outcome D.Table Unit
  sub_mkdir_one parent_id none inode_id s = failed s (raised ErrorCode.argument_error)
  sub_mkdir_one parent_id (some name) inode_id s =
      if parent_id == minus_one
      then failed s (raised ErrorCode.argument_error)
      else insert_directory D hash start fuel tries patience DirLock.exclusive
          (record { parent_id = parent_id; name = name }) inode_id s

  unfoldable pub mkdir_sub_mkdir : List (ℕ × Option Name × ℕ) → State D.Table → Outcome D.Table Unit
  mkdir_sub_mkdir [] s = done s tt
  mkdir_sub_mkdir ((parent_id, name, inode_id) ∷ qs) s =
      sub_mkdir_one parent_id name inode_id s >>= λ s' u. mkdir_sub_mkdir qs s'

  -- CuckooRmdirSubRmdirHandle
  unfoldable pub check_empty : Bool → State D.Table → Outcome D.Table Unit
  check_empty true s = failed s (raised ErrorCode.argument_error)
  check_empty false s = done s tt

  unfoldable pub rmdir_found :
      (ℕ → List Inode) → ℕ → List Shard → Key → State D.Table → ℕ → Outcome D.Table Unit
  rmdir_found rows local_server_id shards k s id =
      if id == path_not_exist
      then failed s (raised ErrorCode.file_not_exists)
      else delete_directory D hash start fuel tries patience DirLock.none_mode k s >>= λ s' u.
          check_empty (has_entries rows local_server_id id shards) s'

  unfoldable pub rmdir_sub_rmdir :
      (ℕ → List Inode) → ℕ → List Shard → Key → State D.Table → Outcome D.Table Unit
  rmdir_sub_rmdir rows local_server_id shards k s =
      search_directory D hash start fuel tries patience DirLock.exclusive k s >>= λ s' id.
      rmdir_found rows local_server_id shards k s' id

  -- The two steps on directories of CuckooRenameSubRenameLocallyHandle, in the order of the locks.
  unfoldable pub move_directory : RenameInfo → State D.Table → Outcome D.Table Unit
  move_directory m s =
      if m.src_lock_order == 0
      then (delete_directory D hash start fuel tries patience DirLock.exclusive (src_key m) s
          >>= λ s' u.
              insert_directory D hash start fuel tries patience DirLock.exclusive (dst_key m)
                m.inode_id s')
      else if m.src_lock_order == 1
      then (insert_directory D hash start fuel tries patience DirLock.exclusive (dst_key m)
            m.inode_id s
          >>= λ s' u.
              delete_directory D hash start fuel tries patience DirLock.exclusive (src_key m) s')
      else failed s (raised ErrorCode.argument_error)

  unfoldable pub move_if_directory : Bool → RenameInfo → State D.Table → Outcome D.Table Unit
  move_if_directory true m s = move_directory m s
  move_if_directory false m s = done s tt

  module _ (hash_bytes : ℕ → ℕ) (local_server_id : ℕ) (shards : List Shard) (I : InodeTables) where
    -- CuckooRmdirSubUnlinkHandle; `unset` is what stands in its `nlink`, which it tests first.
    unfoldable pub nlink_of : ℕ → Option Inode → ℕ
    nlink_of unset none = unset
    nlink_of unset (some r) = r.st_nlink

    unfoldable pub unlinked : ℕ → State D.Table → I.Tables × Option Inode → Outcome D.Table I.Tables
    unfolding nlink_of
    unlinked unset s (t, none) =
        if not (nlink_of unset none == 1)
        then failed s (raised ErrorCode.program_error)
        else failed s (raised ErrorCode.file_not_exists)
    unlinked unset s (t, some r) =
        if not (nlink_of unset (some r) == 1)
        then failed s (raised ErrorCode.program_error)
        else done s t

    unfoldable pub rmdir_sub_unlink :
        ℕ → ℕ → Name → State D.Table → I.Tables → Outcome D.Table I.Tables
    unfolding unlinked
    rmdir_sub_unlink unset k n s t =
        locate hash_bytes local_server_id shards ErrorCode.argument_error k s >>= λ s' shard.
        unlinked unset s' (search_and_update I shard k n true one_link_less t)

    -- A row that is inserted, or the error of the unique index.
    unfoldable pub with_row :
        State D.Table → Inode → Option I.Tables → Outcome D.Table (I.Tables × Inode)
    with_row s r none = failed s duplicate_row
    with_row s r (some t) = done s (t, r)

    -- The row of the source that is moved, or given back for another server.
    unfoldable pub move_to :
        RenameInfo → State D.Table → I.Tables → Inode → Outcome D.Table (I.Tables × Inode)
    unfolding with_row
    move_to m s t r =
        if m.dst_parentid_partid == 0
        then done s (t, r)
        else locate hash_bytes local_server_id shards ErrorCode.wrong_worker m.dst_parentid_partid s
          >>= λ s' shard. with_row s' r (
              I.insert t shard
                (record r { parentid_partid = m.dst_parentid_partid; name = m.dst_name }))

    unfoldable pub move_found :
        RenameInfo
        → State D.Table
        → I.Tables
        → ℕ
        → Option Inode
        → Outcome D.Table (I.Tables × Option Inode)
    unfolding move_to
    move_found m s t shard none = failed s (raised ErrorCode.file_not_exists)
    move_found m s t shard (some r) =
        move_to m s (I.remove t shard m.parentid_partid m.name) r >>= λ s' moved.
        done s' (moved.0, some moved.1)

    -- CuckooRenameSubRenameLocallyHandle: the tables, and the row that was at the source.
    unfoldable pub rename_row :
        RenameInfo → State D.Table → I.Tables → Outcome D.Table (I.Tables × Option Inode)
    unfolding move_found
    rename_row m s t =
        if m.parentid_partid == 0
        then done s (t, none)
        else locate hash_bytes local_server_id shards ErrorCode.wrong_worker m.parentid_partid s
          >>= λ s' shard. move_found m s' t shard (I.find t shard m.parentid_partid m.name)

    unfoldable pub rename_sub_rename_locally :
        RenameInfo → State D.Table → I.Tables → Outcome D.Table (I.Tables × Option Inode)
    unfolding rename_row
    rename_sub_rename_locally m s t =
        move_if_directory m.target_is_directory m s >>= λ s' u. rename_row m s' t

    unfoldable pub rename_sub_create :
        Inode → State D.Table → I.Tables → Outcome D.Table (I.Tables × Inode)
    unfolding with_row
    rename_sub_create r s t =
        locate hash_bytes local_server_id shards ErrorCode.wrong_worker r.parentid_partid s
        >>= λ s' shard. with_row s' r (I.insert t shard (arrived_row r))
