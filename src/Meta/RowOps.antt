-- ===== src/Meta/RowOps.antt =====
-- CuckooOpenHandle, CuckooCloseHandle, CuckooUnlinkHandle and CuckooStatHandle on one request of a
-- shard. A request that has met an error is passed over.
use cuckoofs.Base.{
  ℕ, ◌-◌, ◌^◌, ◌==◌, ◌||◌, Bool, true, false, not, Option, none, some, if◌then◌else◌, [], bit_and,
}
use cuckoofs.Errors.{ErrorCode}
use cuckoofs.Meta.{Inode}
use cuckoofs.Meta.Tables.{InodeTables}
use cuckoofs.Meta.Update.{Change, no_change, search_and_update}
use cuckoofs.Meta.Create.{Request, is_success, filled}

-- S_ISREG
abbrev pub is_regular : ℕ → Bool
is_regular mode = bit_and mode 61440 == 32768

-- What a close writes, and an unlink.
abbrev pub close_change : ℕ → Request → Change
close_change now q = record no_change {
  new_size = some q.row.st_size;
  new_mtime = some now;
  new_primary_node_id = some q.row.primary_nodeid;
}

-- The code of an unlink, by the row as it was.
unfoldable pub unlink_code : ℕ → ℕ → ErrorCode
unlink_code nlink mode =
    if not (nlink == 1) || not (is_regular mode) then ErrorCode.program_error else ErrorCode.success

abbrev pub unlink_change : Change
unlink_change = record no_change { nlink = some (2 ^ 64 - 1) }

module _ (I : InodeTables) where
  abbrev pub Handled : Type 0
  Handled = Request × I.Tables

  -- CuckooOpenHandle on one request of a shard.
  unfoldable pub opened : Request → I.Tables × Option Inode → Handled
  opened q (t, o) =
      let full = filled o q in
      (
        record full {
          code = elim o [ none ↦ ErrorCode.file_not_exists | some r ↦ ErrorCode.success ];
          row = record full.row {
            st_dev = 0;
            st_uid = 0;
            st_gid = 0;
            st_rdev = 0;
            st_blksize = 0;
            st_blocks = 0;
            st_atim = 0;
            st_mtim = 0;
            st_ctim = 0;
            etag = [];
          };
        },
        t,
      )

  unfoldable pub open_one : ℕ → I.Tables → Request → Handled
  unfolding opened
  open_one shard t q =
      if is_success q.code
      then opened q (search_and_update I shard q.row.parentid_partid q.row.name false no_change t)
      else (q, t)

  -- CuckooCloseHandle on one request, at the time `now`.
  unfoldable pub closed : Request → I.Tables × Option Inode → Handled
  closed q (t, none) = (record q { code = ErrorCode.file_not_exists }, t)
  closed q (t, some r) = (record q { code = ErrorCode.success }, t)

  unfoldable pub close_one : ℕ → ℕ → I.Tables → Request → Handled
  unfolding closed
  close_one now shard t q =
      if is_success q.code
      then closed q
          (search_and_update I shard q.row.parentid_partid q.row.name true (close_change now q) t)
      else (q, t)

  -- CuckooUnlinkHandle on one request.
  unfoldable pub unlinked_one : Request → I.Tables × Option Inode → Handled
  unfolding unlink_code
  unlinked_one q (t, none) = (record q { code = ErrorCode.file_not_exists }, t)
  unlinked_one q (t, some r) = (
    record q {
      code = unlink_code r.st_nlink r.st_mode;
      row = record q.row {
        st_ino = r.st_ino;
        st_size = r.st_size;
        primary_nodeid = r.primary_nodeid;
      };
    },
    t,
  )

  unfoldable pub unlink_one : ℕ → I.Tables → Request → Handled
  unfolding unlinked_one
  unlink_one shard t q =
      if is_success q.code
      then unlinked_one q
          (search_and_update I shard q.row.parentid_partid q.row.name true unlink_change t)
      else (q, t)

  -- CuckooStatHandle on one request.
  unfoldable pub stated : Request → Option Inode → Request
  stated q none = record q { code = ErrorCode.file_not_exists }
  stated q (some r) = record q {
    row = record r {
      name = q.row.name;
      parentid_partid = q.row.parentid_partid;
      update_version = q.row.update_version;
      primary_nodeid = q.row.primary_nodeid;
      backup_nodeid = q.row.backup_nodeid;
    };
  }

  unfoldable pub stat_one : ℕ → I.Tables → Request → Handled
  unfolding stated
  stat_one shard t q = (stated q (I.find t shard q.row.parentid_partid q.row.name), t)
