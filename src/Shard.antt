-- ===== src/Shard.antt =====
-- cuckoo/metadb/shard_table.c and cuckoo/include/metadb/shard_table.h: the table that sends each hash
-- value to a server, by the upper ends of the ranges of hash values.
-- The rows are those that the catalog holds, or the cache of them in shared memory, in the order of the
-- index; all range points are nonnegative int32_t.
pub mod Search
pub mod Build
pub mod Ranges
mod Tests
use cuckoofs.Base.{
  ℕ, zero, suc, ◌+◌, ◌-◌, ◌*◌, ◌/◌, ◌%◌, ◌^◌, Bool, true, false, ◌||◌, Option, none, some, ◌==◌,
  ltb, leb, if◌then◌else◌, get_or, List, [], ◌∷◌, ◌++◌, length,
}

abbrev pub shard_count_max : ℕ
shard_count_max = 100000000

abbrev pub range_min : ℕ
range_min = 0

abbrev pub range_max : ℕ
range_max = 2 ^ 31 - 1

-- FormData_cuckoo_shard_table
pub record Shard : Type 0 where
  pub range_point : ℕ
  pub server_id : ℕ

abbrev pub no_shard : Shard
no_shard = record { range_point = 0; server_id = 0 }

-- The range point of the shard `i` that cuckoo_build_shard_table makes; the product is of 64 bits.
unfoldable pub range_point_of : ℕ → ℕ → ℕ
range_point_of shard_count i =
    if i == shard_count - 1
    then range_max
    else (range_max - range_min) * (i + 1) / shard_count + range_min

-- The loop of cuckoo_build_shard_table, from shard `i` on with `left` shards to make.
unfoldable pub build_shards : ℕ → List ℕ → ℕ → ℕ → ℕ → List Shard
build_shards shard_count servers zero i server_round = []
build_shards shard_count servers (suc left) i server_round =
    record { range_point = range_point_of shard_count i; server_id = get_or servers server_round 0 }
    ∷ build_shards shard_count servers left (i + 1) ((server_round + 1) % length servers)

-- cuckoo_build_shard_table, on an empty table and a count that is not negative; `none` is an
-- ARGUMENT_ERROR.
unfoldable pub build_shard_table : ℕ → List ℕ → Option (List Shard)
build_shard_table shard_count servers =
    if shard_count == 0 || ltb shard_count_max shard_count
    then none
    else if length servers == 0
    then none
    else some (build_shards shard_count servers shard_count 0 0)

-- The binary search of SearchShardInfoByShardValue, on fuel.
unfoldable pub search_loop : ℕ → List Shard → ℕ → ℕ → ℕ → Option ℕ
search_loop zero shards hashvalue l r = if ltb l r then none else some l
search_loop (suc fuel) shards hashvalue l r =
    let mid = (l + r) / 2 in
    let before = ltb (get_or shards mid no_shard).range_point hashvalue in
    let rest =
      search_loop fuel shards hashvalue (if before then mid + 1 else l)
        (if before then r else mid) in
    if ltb l r then rest else some l

-- SearchShardInfoByShardValue on a valid cache and the hash of the shard value: the row that is found,
-- the PROGRAM_ERROR, or a loop that has not ended.
pub data Found : Type 0 where
  row : Shard → Found
  out_of_range : Found
  searching : Found

unfoldable pub found_at : List Shard → Option ℕ → Found
found_at shards none = searching
found_at shards (some l) =
    if l == length shards then out_of_range else row (get_or shards l no_shard)

unfoldable pub search_shard_info : ℕ → List Shard → ℕ → Found
search_shard_info fuel shards hashvalue =
    found_at shards (search_loop fuel shards hashvalue 0 (length shards))

-- The ranges that cuckoo_renew_shard_table reports: the lower end, the upper end and the server.
pub record ShardInfo : Type 0 where
  pub low : ℕ
  pub high : ℕ
  pub server : ℕ

unfoldable pub shard_ranges : ℕ → List Shard → List ShardInfo
shard_ranges range_low [] = []
shard_ranges range_low (s ∷ ss) =
    record { low = range_low; high = s.range_point; server = s.server_id }
    ∷ shard_ranges (s.range_point + 1) ss

abbrev pub no_info : ShardInfo
no_info = record { low = 0; high = 0; server = 0 }
