-- ===== src/Meta/HandlerTests.antt =====
-- The handlers over a small cache of directories and small tables.
use cuckoofs.Base.{
  length, ◌≤◌, ℕ, ◌+◌, ◌-◌, ◌^◌, ◌||◌, ◌*◌, ◌<◌, ◌==◌, ltb, true, false, none, some, if◌then◌else◌,
  List, [], ◌∷◌, ◌≡◌, refl, arith,
}
use cuckoofs.Base.Bits.{test_bit}
use cuckoofs.RwLock.{lock_free, desired_state, remove_declared}
use cuckoofs.RwLock.Ops.{
  rw_lock_declare, rw_lock_acquire, acquire_loop, rw_lock_attempt_lock, rw_lock_undeclare,
}
use cuckoofs.Errors.{ErrorCode}
use cuckoofs.DirHash.{Key, DirLock, path_not_exist, max_to_commit, set_key, same_key, same_name}
use cuckoofs.DirHash.Cache.{
  State, Outcome, done, failed, raised, to_commit_add_entry, lock_entry, lock_in,
}
use cuckoofs.DirHash.Ops.{
  ready_item, enter_loop, enter_round, enter_new, use_item, read_item, search_directory,
}
use cuckoofs.DirHash.Entries.{
  Entries, two_entries, key_hash, empty_cache, empty_cache-Inv, some_rows, dir_a, find_entry,
  remove_key,
}
use cuckoofs.Path.{path_names, split, glue, must_be_file, flag_not_root, flag_target_to_be_created}
use cuckoofs.Path.Tree.{Batch, Parsed, empty_tree, same_place, go_on, pass, walk}
use cuckoofs.Path.Target.{share_found, share_target, target, parse_from, path_parse_tree_insert}
use cuckoofs.Shard.{Shard, found_at, search_loop, search_shard_info}
use cuckoofs.Meta.{Inode, hash_loop, hash_part_id, combine}
use cuckoofs.Meta.Tables.{same_row}
use cuckoofs.Meta.Handlers.{hash_shard, chmod, chown, utime_ns}
use cuckoofs.Meta.Pages.{listing}
use cuckoofs.Meta.Create.{Request}
use cuckoofs.Meta.Listing.{new_file}
use cuckoofs.Meta.Batch.{handle_requests, create_handle}
use cuckoofs.Meta.OneByOne.{one_by_one, create_handle-eq-handle_requests}
use cuckoofs.Meta.Sub.{RenameInfo, is_empty, rmdir_sub_rmdir}
use cuckoofs.Meta.Moves.{IsLocal, IsRenamed, rename_row-IsRenamed}
use cuckoofs.Meta.Removed.{rmdir_sub_rmdir-listing}
use cuckoofs.Meta.Attributes.{parse_file, IsRewritten, chown-utime_ns, chmod-bits}
use cuckoofs.Meta.Plain.{Places, plain_tables, find_place}

abbrev state_of : {A : Type 0} → Outcome Entries A → State Entries
state_of (done s a) = s
state_of (failed s e) = s

abbrev value_of : {A : Type 0} → A → Outcome Entries A → A
value_of d (done s a) = a
value_of d (failed s e) = d

-- The root "/" has the number 1, and "/a" is directory 2.
abbrev rows : Key → ℕ
rows k =
    if same_key k (record { parent_id = 0; name = 47 ∷ [] })
    then 1
    else if same_key k (record { parent_id = 1; name = 97 ∷ [] })
    then 2
    else path_not_exist

abbrev cache : State Entries
cache = record empty_cache { rows = rows }

abbrev nextval : ℕ → ℕ
nextval i = 1 + i * 32

abbrev batch : Batch
batch = record { tree = empty_tree; numbers = record { remain = 0; current = 0; asked = 0 } }

abbrev start : Entries → ℕ
start t = 1

-- One shard, of server 1.
abbrev shards : List Shard
shards = record { range_point = 100; server_id = 1 } ∷ []

abbrev hash_bytes : ℕ → ℕ
hash_bytes k = 5

is_local : (k : ℕ) → IsLocal hash_bytes 1 shards k 100
unfolding search_shard_info search_loop found_at hash_shard
is_local k = (record { range_point = 100; server_id = 1 }, refl, refl, refl)

abbrev file : Inode
file = record {
  name = 97 ∷ [];
  st_ino = 9;
  parentid_partid = 8289;
  st_dev = 0;
  st_mode = 33188;
  st_nlink = 1;
  st_uid = 0;
  st_gid = 0;
  st_rdev = 0;
  st_size = 0;
  st_blksize = 0;
  st_blocks = 0;
  st_atim = 0;
  st_mtim = 0;
  st_ctim = 0;
  etag = [];
  update_version = 0;
  primary_nodeid = 0;
  backup_nodeid = 0;
}

-- The tables hold "a" of the root and no other row.
abbrev only_a : Places
only_a s k n = if same_row 100 8289 (97 ∷ []) s k n then some file else none

-- "/a" becomes "/ab".
abbrev move : RenameInfo
move = record {
  target_is_directory = false;
  src_lock_order = 0;
  parent_id = 1;
  name = 97 ∷ [];
  parentid_partid = 8289;
  dst_parent_id = 1;
  dst_name = 97 ∷ 98 ∷ [];
  dst_parentid_partid = 11297;
  inode_id = 9;
}

rename_row-IsRenamed_example :
    IsRenamed two_entries key_hash start 4 3 2 hash_bytes 1 shards plain_tables move cache only_a
      100 100
      (is_local 8289)
      (is_local 11297)
      (omega arith)
      (omega arith)
      (find_place only_a 100 8289 (97 ∷ []))
      none
unfolding same_name
rename_row-IsRenamed_example =
    rename_row-IsRenamed two_entries key_hash start 4 3 2 hash_bytes 1 shards plain_tables move
      cache only_a 100 100 (is_local 8289) (is_local 11297) (omega arith) (omega arith)

-- The path "/a".
abbrev path : List ℕ
path = 47 ∷ 97 ∷ []

abbrev parsing : Outcome Entries Parsed
parsing =
    parse_file hash_bytes 1 shards two_entries key_hash start 4 3 2 nextval 7 plain_tables path
      batch cache

abbrev no_parse : Parsed
no_parse = record {
  code = ErrorCode.program_error;
  batch = batch;
  parent_id = none;
  file_name = none;
  inode_id = none;
}

abbrev parsed : Parsed
parsed = value_of no_parse parsing

parse_facts :
    (parsing ≡ done (state_of parsing) parsed)
    × (parsed.code ≡ ErrorCode.success)
    × (parsed.parent_id ≡ some 1)
    × (parsed.file_name ≡ some (97 ∷ []))
unfolding path_parse_tree_insert path_names split glue walk pass go_on parse_from target
    share_target share_found same_place search_directory ready_item enter_loop enter_round enter_new
    use_item read_item to_commit_add_entry lock_entry lock_in find_entry remove_key same_key
    same_name rw_lock_declare rw_lock_acquire acquire_loop rw_lock_attempt_lock rw_lock_undeclare
    lock_free desired_state remove_declared
parse_facts = (refl, refl, refl, refl)

own_shard : IsLocal hash_bytes 1 shards (combine 1 (hash_part_id (97 ∷ []))) 100
own_shard = is_local (combine 1 (hash_part_id (97 ∷ [])))

-- An owner and a group, and times of which one is to be the current one.
chown-utime_ns_example :
    IsRewritten hash_bytes 1 shards two_entries key_hash start 4 3 2 nextval 7 plain_tables path
      batch cache only_a
      (state_of parsing)
      parsed
      1
      (97 ∷ [])
      100
      parse_facts.0
      parse_facts.1
      parse_facts.2
      parse_facts.3
      own_shard
      (chown hash_bytes 1 shards two_entries key_hash start 4 3 2 nextval 7 plain_tables 5 6 path
        batch cache only_a)
      (λ (r : Inode). record r { st_uid = 5; st_gid = 6 })
      (find_place only_a 100 (combine 1 (hash_part_id (97 ∷ []))) (97 ∷ []))
    × IsRewritten hash_bytes 1 shards two_entries key_hash start 4 3 2 nextval 7 plain_tables path
        batch cache only_a
        (state_of parsing)
        parsed
        1
        (97 ∷ [])
        100
        parse_facts.0
        parse_facts.1
        parse_facts.2
        parse_facts.3
        own_shard
        (utime_ns hash_bytes 1 shards two_entries key_hash start 4 3 2 nextval 7 plain_tables 8
          (2 ^ 64 - 1)
          20
          21
          path
          batch
          cache
          only_a)
        (λ (r : Inode).
          if (8 == 2 ^ 64 - 1) || (2 ^ 64 - 1 == 2 ^ 64 - 1)
          then record r { st_atim = 20; st_mtim = 21 }
          else record r { st_atim = 8; st_mtim = 2 ^ 64 - 1 })
        (find_place only_a 100 (combine 1 (hash_part_id (97 ∷ []))) (97 ∷ []))
chown-utime_ns_example =
    chown-utime_ns hash_bytes 1 shards two_entries key_hash start 4 3 2 nextval 7 plain_tables path
      batch cache only_a (state_of parsing) parsed 1 (97 ∷ []) 100 parse_facts.0 parse_facts.1
      parse_facts.2 parse_facts.3 own_shard 5 6 8 (2 ^ 64 - 1) 20 21

file_there : find_place only_a 100 (combine 1 (hash_part_id (97 ∷ []))) (97 ∷ []) ≡ some file
unfolding combine hash_part_id hash_loop same_name
file_there = refl

chmod-bits_example :
    (t' : Places) × (r' : Inode) × (chmod hash_bytes 1 shards two_entries key_hash start 4 3 2
        nextval 7 plain_tables 493 path batch cache only_a
      ≡ done (state_of parsing) (parsed.batch, t'))
    × (find_place t' 100 (combine 1 (hash_part_id (97 ∷ []))) (97 ∷ []) ≡ some r')
    × (r' ≡ record file { st_mode = r'.st_mode })
    × ((i : ℕ)
        → i < 32
        → test_bit r'.st_mode i ≡ (if ltb i 9 then test_bit 493 i else test_bit file.st_mode i))
chmod-bits_example =
    chmod-bits hash_bytes 1 shards two_entries key_hash start 4 3 2 nextval 7 plain_tables 493 path
      batch cache only_a (state_of parsing) parsed 1 (97 ∷ []) 100 parse_facts.0 parse_facts.1
      parse_facts.2 parse_facts.3 own_shard file file_there

-- Directory "a" of 5 has the number 9, and no entries.
abbrev searching : Outcome Entries ℕ
searching = search_directory two_entries key_hash start 4 3 2 DirLock.exclusive dir_a empty_cache

search_ends : searching ≡ done (state_of searching) 9
unfolding search_directory ready_item enter_loop enter_round enter_new use_item read_item
    to_commit_add_entry lock_entry lock_in find_entry remove_key same_key same_name rw_lock_declare
    rw_lock_acquire acquire_loop rw_lock_attempt_lock rw_lock_undeclare lock_free desired_state
    remove_declared
search_ends = refl

dir_a_row : empty_cache.rows dir_a ≡ some_rows dir_a
dir_a_row = refl

room_left : length (state_of searching).log + 2 ≤ max_to_commit
unfolding search_directory ready_item enter_loop enter_round enter_new use_item read_item
    to_commit_add_entry lock_entry lock_in find_entry remove_key same_key same_name rw_lock_declare
    rw_lock_acquire acquire_loop rw_lock_attempt_lock rw_lock_undeclare lock_free desired_state
    remove_declared
room_left = omega arith

rmdir_sub_rmdir-listing_example :
    (9 ≡ empty_cache.rows dir_a)
    × (s2 : State Entries) × ((j : Key)
        → s2.rows j ≡ (
            if 9 == path_not_exist
            then empty_cache.rows j
            else set_key empty_cache.rows dir_a path_not_exist j))
    × (rmdir_sub_rmdir two_entries key_hash start 4 3 2 (λ id. []) 1 shards dir_a empty_cache ≡ (
        if 9 == path_not_exist
        then failed s2 (raised ErrorCode.file_not_exists)
        else if is_empty (listing (λ id. []) 1 9 shards)
        then done s2 tt
        else failed s2 (raised ErrorCode.argument_error)))
rmdir_sub_rmdir-listing_example =
    rmdir_sub_rmdir-listing two_entries key_hash start 4 2 2 some_rows (λ id. []) 1 shards dir_a
      empty_cache empty_cache-Inv dir_a_row (state_of searching) 9 search_ends room_left

abbrev new_request : List Request
new_request = record { path = some path; code = ErrorCode.success; parent_id = 0; row = file } ∷ []

create_handle-eq-handle_requests_example :
    create_handle plain_tables hash_bytes 1 shards two_entries key_hash start 4 3 2 nextval 7
      (λ rs. rs)
      (λ ss. ss)
      2
      77
      false
      new_request
      batch
      cache
      only_a
    ≡ handle_requests plain_tables hash_bytes 1 shards two_entries key_hash start 4 3 2 nextval 7
        (λ rs. rs)
        (λ ss. ss)
        must_be_file
        (flag_not_root + flag_target_to_be_created)
        true
        (new_file 77)
        (one_by_one plain_tables 2)
        new_request
        batch
        cache
        only_a
create_handle-eq-handle_requests_example =
    create_handle-eq-handle_requests plain_tables 2 hash_bytes 1 shards two_entries key_hash start 4
      3 2 nextval 7 (λ rs. rs) (λ ss. ss) 77 new_request batch cache only_a (λ rs. refl)
      (omega arith)
