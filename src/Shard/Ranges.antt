-- ===== src/Shard/Ranges.antt =====
-- The ranges that cuckoo_renew_shard_table reports to the clients, against the search of the server.
use cuckoofs.Base.{
  ℕ, zero, suc, ◌+◌, ◌^◌, ◌<◌, ◌≤◌, ◌≡◌, refl, ap, sym, ◌∙◌, arith, get_or, List, [], ◌∷◌, length,
}
use mathlib.Core.Path.{subst}
use cuckoofs.Shard.{
  Shard, ShardInfo, no_shard, no_info, shard_ranges, search_shard_info, row, range_min,
}
use cuckoofs.Shard.Search.{point, IsOrdered, IsSearched, search_shard_info-IsSearched}

abbrev pub report : List Shard → ℕ → ShardInfo
report shards k = get_or (shard_ranges range_min shards) k no_info

-- A range ends and leads where its row does, and starts at or below a value above the rows before it.
range_starts :
    (from : ℕ) (shards : List Shard) (hashvalue k : ℕ)
    → k < length shards
    → from ≤ hashvalue
    → ((i : ℕ) → i < k → point shards i < hashvalue)
    → (get_or (shard_ranges from shards) k no_info).low ≤ hashvalue
unfolding shard_ranges
range_starts from [] hashvalue k lt le below = absurd (omega arith)
range_starts from (s ∷ ss) hashvalue zero lt le below = le
range_starts from (s ∷ ss) hashvalue (suc k) lt le below =
    range_starts (s.range_point + 1) ss hashvalue k (omega arith)
      (omega (arith, below 0 (omega arith))) (λ i less. below (suc i) (omega arith))

range_ends :
    (from : ℕ) (shards : List Shard) (k : ℕ)
    → k < length shards
    → ((get_or (shard_ranges from shards) k no_info).high ≡ point shards k)
      × ((get_or (shard_ranges from shards) k no_info).server
          ≡ (get_or shards k no_shard).server_id)
unfolding shard_ranges
range_ends from [] k lt = absurd (omega arith)
range_ends from (s ∷ ss) zero lt = (refl, refl)
range_ends from (s ∷ ss) (suc k) lt = range_ends (s.range_point + 1) ss k (omega arith)

abbrev server_of : Shard → ℕ
server_of s = s.server_id

abbrev point_of : Shard → ℕ
point_of s = s.range_point

-- Over ordered rows, fewer than 2^32: where the search finds a row for a hash value, one of the ranges
-- that are reported to the clients has the hash value in it, and names the server of that row.
pub search-in_range :
    (shards : List Shard) (hashvalue : ℕ) (s : Shard)
    → IsOrdered shards
    → length shards < 2 ^ 32
    → search_shard_info 32 shards hashvalue ≡ row s
    → (k : ℕ) × (k < length shards)
      × ((report shards k).low ≤ hashvalue)
      × (hashvalue ≤ (report shards k).high)
      × ((report shards k).server ≡ s.server_id)
search-in_range shards hashvalue s ordered few found =
    let (k, lt, at, high, below) =
      subst (IsSearched shards hashvalue) found
        (search_shard_info-IsSearched shards hashvalue ordered few) in
    let same_point : s.range_point ≡ point shards k = ap point_of at in
    let (ends, leads) = range_ends range_min shards k lt in
    (
      k,
      lt,
      range_starts range_min shards hashvalue k lt (omega arith) below,
      omega (arith, ends, high, same_point),
      leads ∙ sym (ap server_of at),
    )
