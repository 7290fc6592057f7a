-- ===== src/Meta/Handlers.antt =====
-- The handlers of one path: CuckooUtimeNsHandle, CuckooChownHandle, CuckooChmodHandle,
-- CuckooOpenDirHandle and CuckooReadDirHandle. None of them uses what VerifyPathValidity says of it. HashShard takes a hash of 32 bits
-- from PostgreSQL, `hash_bytes`.
use cuckoofs.Base.{
  ℕ, ◌%◌, ◌^◌, ◌-◌, ◌+◌, ◌==◌, ◌||◌, Bool, true, Option, none, some, if◌then◌else◌, List, bit_and,
}
use cuckoofs.Errors.{ErrorCode}
use cuckoofs.DirHash.{Key}
use cuckoofs.DirHash.Table.{Dynahash}
use cuckoofs.DirHash.Cache.{State, Outcome, done, failed, raised, no_room, ◌>>=◌}
use cuckoofs.Path.{flag_acquire_shared_lock_if_target_is_directory, flag_target_is_directory}
use cuckoofs.Path.Tree.{Name, Batch, Parsed}
use cuckoofs.Path.Target.{path_parse_tree_insert}
use cuckoofs.Shard.{Shard, Found, row, out_of_range, searching, search_shard_info}
use cuckoofs.Meta.{Inode, part_id_mask, hash_part_id, combine}
use cuckoofs.Meta.Tables.{InodeTables}
use cuckoofs.Meta.Update.{Change, no_change, search_and_update}
use cuckoofs.Meta.Create.{is_success}
use cuckoofs.Meta.ReadDir.{Cursor, DirPage, read_dir}

-- HashShard; of its number only the 13 bits of the part are taken, so that the upper half is 0.
unfoldable pub hash_shard : (ℕ → ℕ) → ℕ → ℕ
hash_shard hash_bytes k = hash_bytes (bit_and k part_id_mask) % 2 ^ 31

-- The row of a parsed path: its number and name. Both pointers are written when the code is SUCCESS.
unfoldable pub place_of : {T : Type 0} → State T → Option ℕ → Option Name → Outcome T (ℕ × Name)
place_of s none name = failed s (raised ErrorCode.program_error)
place_of s (some parent_id) none = failed s (raised ErrorCode.program_error)
place_of s (some parent_id) (some name) = done s (combine parent_id (hash_part_id name), name)

unfoldable pub parsed_place : {T : Type 0} → State T → Parsed → Outcome T (ℕ × Name)
unfolding place_of
parsed_place s p =
    if is_success p.code then place_of s p.parent_id p.file_name else failed s (raised p.code)

-- SearchShardInfoByShardValue and the test for this server; a search that has not ended within 32
-- rounds is `no_room`.
unfoldable pub local_shard : {T : Type 0} → ErrorCode → ℕ → State T → Found → Outcome T ℕ
local_shard e local_server_id s (row shard) =
    if shard.server_id == local_server_id then done s shard.range_point else failed s (raised e)
local_shard e local_server_id s out_of_range = failed s (raised ErrorCode.program_error)
local_shard e local_server_id s searching = failed s no_room

module _ (hash_bytes : ℕ → ℕ) (local_server_id : ℕ) (shards : List Shard) where
  abbrev pub search_shard : ℕ → Found
  search_shard k = search_shard_info 32 shards (hash_shard hash_bytes k)

  abbrev pub locate : {T : Type 0} → ErrorCode → ℕ → State T → Outcome T ℕ
  locate e k s = local_shard e local_server_id s (search_shard k)

  module _ (D : Dynahash) (hash : Key → ℕ) (start : D.Table → ℕ) (fuel tries patience : ℕ)
      (nextval : ℕ → ℕ) (server_id : ℕ) (I : InodeTables) where
    abbrev pub parse : List ℕ → ℕ → Option ℕ → Batch → State D.Table → Outcome D.Table Parsed
    parse path flag out b s =
        path_parse_tree_insert D hash start fuel tries patience nextval server_id path flag out b s

    -- Whether there was a row.
    unfoldable pub row_changed :
        Batch → State D.Table → I.Tables × Option Inode → Outcome D.Table (Batch × I.Tables)
    row_changed b s (t, none) = failed s (raised ErrorCode.file_not_exists)
    row_changed b s (t, some r) = done s (b, t)

    -- What the three handlers that write attributes share.
    unfoldable pub set_attributes :
        Change → List ℕ → Batch → State D.Table → I.Tables → Outcome D.Table (Batch × I.Tables)
    unfolding parsed_place local_shard row_changed
    set_attributes c path b s t =
        parse path flag_acquire_shared_lock_if_target_is_directory none b s >>= λ s' p.
        parsed_place s' p >>= λ s'' place. locate ErrorCode.wrong_worker place.0 s'' >>= λ s3 shard.
        row_changed p.batch s3 (search_and_update I shard place.0 place.1 true c t)

    -- The time in a request that stands for the current one, -1.
    abbrev pub no_time : ℕ
    no_time = 2 ^ 64 - 1

    abbrev pub times : ℕ → ℕ → ℕ → ℕ → Change
    times st_atim st_mtim now now' =
        if (st_atim == no_time) || (st_mtim == no_time)
        then record no_change { new_atime = some now; new_mtime = some now' }
        else record no_change { new_atime = some st_atim; new_mtime = some st_mtim }

    -- `now` and `now'` are the results of its two calls of GetCurrentTimestamp.
    unfoldable pub utime_ns :
        ℕ
        → ℕ
        → ℕ
        → ℕ
        → List ℕ
        → Batch
        → State D.Table
        → I.Tables
        → Outcome D.Table (Batch × I.Tables)
    utime_ns st_atim st_mtim now now' path b s t =
        set_attributes (times st_atim st_mtim now now') path b s t

    unfoldable pub chown :
        ℕ → ℕ → List ℕ → Batch → State D.Table → I.Tables → Outcome D.Table (Batch × I.Tables)
    chown st_uid st_gid path b s t =
        set_attributes (record no_change { new_uid = some st_uid; new_gid = some st_gid }) path b s
          t

    unfoldable pub chmod :
        ℕ → List ℕ → Batch → State D.Table → I.Tables → Outcome D.Table (Batch × I.Tables)
    chmod st_mode path b s t =
        set_attributes (record no_change { new_exec_mode = some (bit_and st_mode 511) }) path b s t

    -- The number of a directory, for OpenDir and ReadDir.
    unfoldable pub parsed_directory :
        State D.Table → Parsed → Option ℕ → Outcome D.Table (Batch × ℕ)
    parsed_directory s p none = failed s (raised ErrorCode.program_error)
    parsed_directory s p (some id) =
        if is_success p.code then done s (p.batch, id) else failed s (raised p.code)

    -- `unset` is what stands in the handler's `directoryId` before it is written.
    unfoldable pub open_dir : ℕ → List ℕ → Batch → State D.Table → Outcome D.Table (Batch × ℕ)
    unfolding parsed_directory
    open_dir unset path b s =
        parse path (flag_acquire_shared_lock_if_target_is_directory + flag_target_is_directory)
          (some unset) b s
        >>= λ s' p. parsed_directory s' p p.inode_id

    unfoldable pub read_dir_handle :
        (Name → Name → Bool)
        → (ℕ → List Inode)
        → ℕ
        → List ℕ
        → Option ℕ
        → Cursor
        → Batch
        → State D.Table
        → Outcome D.Table (Batch × Option DirPage)
    unfolding open_dir
    read_dir_handle before rows unset path limit c b s = open_dir unset path b s >>= λ s' opened.
        done s' (opened.0, read_dir before rows local_server_id shards limit opened.1 c)
