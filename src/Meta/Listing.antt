-- ===== src/Meta/Listing.antt =====
-- What the handlers of many requests do with a request before its rows are looked at: its path is
-- verified and parsed, and it goes to the list of its shard. A request is in the list of one shard at
-- most: it carries the shard here.
use cuckoofs.Base.{ℕ, ◌-◌, ◌^◌, ◌==◌, Bool, false, Option, none, some, if◌then◌else◌, List, [], ◌∷◌}
use cuckoofs.Errors.{ErrorCode}
use cuckoofs.DirHash.Cache.{State, Outcome, done, failed, raised, no_room}
use cuckoofs.Path.{verify_path_validity}
use cuckoofs.Path.Tree.{Parsed}
use cuckoofs.Shard.{Found, row, out_of_range, searching}
use cuckoofs.Meta.{hash_part_id, combine}
use cuckoofs.Meta.Update.{written}
use cuckoofs.Meta.Create.{Request}

-- The first loop of each handler.
unfoldable pub verify_all : ℕ → List Request → List Request
verify_all requirement [] = []
verify_all requirement (q ∷ qs) =
    record q { code = (verify_path_validity q.path requirement).0 } ∷ verify_all requirement qs

-- A request with the shard in whose list it is.
abbrev pub Listed : Type 0
Listed = Request × Option ℕ

abbrev pub path_of : Option (List ℕ) → List ℕ
path_of none = []
path_of (some path) = path

-- What PathParseTreeInsert writes through its pointers, and the number of the row.
unfoldable pub noted : Parsed → Request → Request
noted p q = record q {
  code = p.code;
  parent_id = written p.parent_id q.parent_id;
  row = record q.row {
    name = written p.file_name q.row.name;
    st_ino = written p.inode_id q.row.st_ino;
  };
}

unfoldable pub numbered : Request → Request
numbered q = record q {
  row = record q.row { parentid_partid = combine q.parent_id (hash_part_id q.row.name) };
}

-- What CuckooCreateHandle sets for a new file at the time `now`: S_IFREG | 0644, and no node.
unfoldable pub new_file : ℕ → Request → Request
new_file now q = record q {
  row = record q.row {
    st_mode = 33188;
    st_mtim = now;
    st_size = 0;
    primary_nodeid = 2 ^ 32 - 1;
    st_nlink = 1;
    etag = [];
    st_dev = 0;
    st_uid = 0;
    st_gid = 0;
    st_rdev = 0;
    st_blksize = 0;
    st_blocks = 0;
    st_atim = 0;
    st_ctim = 0;
  };
}

abbrev pub as_it_is : Request → Request
as_it_is q = q

-- Into the list of the shard, or the code WRONG_WORKER.
unfoldable pub listed_at :
    {T A : Type 0} → ℕ → A → Request → State T → Found → Outcome T (A × Listed)
listed_at local_server_id b q s (row shard) =
    if shard.server_id == local_server_id
    then done s (b, (q, some shard.range_point))
    else done s (b, (record q { code = ErrorCode.wrong_worker }, none))
listed_at local_server_id b q s out_of_range = failed s (raised ErrorCode.program_error)
listed_at local_server_id b q s searching = failed s no_room

-- The shards in the order of their first requests, and the requests of one.
unfoldable pub add_shard : ℕ → List ℕ → List ℕ
add_shard shard [] = shard ∷ []
add_shard shard (a ∷ as') =
    let rest = add_shard shard as' in if shard == a then a ∷ as' else a ∷ rest

unfoldable pub shards_of : List ℕ → List Listed → List ℕ
unfolding add_shard
shards_of known [] = known
shards_of known ((q, none) ∷ qs) = shards_of known qs
shards_of known ((q, some shard) ∷ qs) = shards_of (add_shard shard known) qs

abbrev pub in_shard : ℕ → Option ℕ → Bool
in_shard shard none = false
in_shard shard (some other) = shard == other

unfoldable pub requests_of : ℕ → List Listed → List Request
requests_of shard [] = []
requests_of shard ((q, place) ∷ qs) =
    let rest = requests_of shard qs in if in_shard shard place then q ∷ rest else rest

unfoldable pub put_back : ℕ → List Request → List Listed → List Listed
put_back shard rs [] = []
put_back shard [] (l ∷ ls) = l ∷ ls
put_back shard (r ∷ rs) ((q, place) ∷ ls) =
    let here = (r, place) ∷ put_back shard rs ls in
    let over = (q, place) ∷ put_back shard (r ∷ rs) ls in
    if in_shard shard place then here else over

abbrev pub all_requests : List Listed → List Request
all_requests [] = []
all_requests ((q, place) ∷ ls) = q ∷ all_requests ls
