-- ===== src/Shard/Tests.antt =====
-- Runs of the shard table.
use cuckoofs.Base.{ℕ, ◌≤◌, ◌<◌, ◌≡◌, refl, arith, some, List, [], ◌∷◌, length}
use mathlib.Core.Path.{subst}
use cuckoofs.Shard.{
  Shard, build_shard_table, build_shards, range_point_of, search_shard_info, search_loop, found_at,
  row,
}
use cuckoofs.Shard.Search.{IsOrdered, IsSearched, search_shard_info-IsSearched}
use cuckoofs.Shard.Build.{build_shard_table-covers, build_shards-IsOrdered}
use cuckoofs.Shard.Ranges.{report, search-in_range}

-- Three shards on two servers.
abbrev three : List Shard
three =
    record { range_point = 715827882; server_id = 5 }
    ∷ record { range_point = 1431655764; server_id = 6 }
    ∷ record { range_point = 2147483647; server_id = 5 }
    ∷ []

three_built : build_shard_table 3 (5 ∷ 6 ∷ []) ≡ some three
unfolding build_shard_table build_shards range_point_of
three_built = refl

three_shards : build_shards 3 (5 ∷ 6 ∷ []) 3 0 0 ≡ three
unfolding build_shards range_point_of
three_shards = refl

three-IsOrdered : IsOrdered three
three-IsOrdered = subst IsOrdered three_shards (build_shards-IsOrdered 3 (5 ∷ 6 ∷ []))

second_found :
    search_shard_info 32 three 1000000000 ≡ row (record { range_point = 1431655764; server_id = 6 })
unfolding search_shard_info search_loop found_at
second_found = refl

search_shard_info-IsSearched_example :
    IsSearched three 1000000000 (search_shard_info 32 three 1000000000)
search_shard_info-IsSearched_example =
    search_shard_info-IsSearched three 1000000000 three-IsOrdered (omega arith)

build_shard_table-covers_example :
    (shards : List Shard) × (build_shard_table 3 (5 ∷ 6 ∷ []) ≡ some shards)
    × (length shards ≡ 3)
    × IsOrdered shards
    × (s : Shard) × (search_shard_info 32 shards 1000000000 ≡ row s)
    × (1000000000 ≤ s.range_point)
build_shard_table-covers_example =
    build_shard_table-covers 3 (5 ∷ 6 ∷ []) 1000000000 (omega arith) (omega arith) (omega arith)
      (omega arith)

search-in_range_example :
    (k : ℕ) × (k < 3)
    × ((report three k).low ≤ 1000000000)
    × (1000000000 ≤ (report three k).high)
    × ((report three k).server ≡ 6)
search-in_range_example =
    search-in_range three 1000000000 (record { range_point = 1431655764; server_id = 6 })
      three-IsOrdered (omega arith) second_found
