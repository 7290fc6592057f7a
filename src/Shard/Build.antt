-- ===== src/Shard/Build.antt =====
-- The shards that cuckoo_build_shard_table makes: how many, in which order, and where they end.
use cuckoofs.Base.{
  ℕ, zero, suc, ◌+◌, ◌-◌, ◌*◌, ◌/◌, ◌%◌, ◌<◌, ◌≤◌, ◌≡◌, refl, ap, ◌∙◌, arith, some, List, length,
  dec_lt,
}
use native.Mathlib.Nat.{div-le_of_le-mul, le-div_iff_mul-le, mul-div-le}
use cuckoofs.Shard.{
  Shard, range_max, range_min, range_point_of, build_shards, build_shard_table, shard_count_max,
  search_shard_info, Found, row, out_of_range, searching,
}
use cuckoofs.Shard.Search.{point, IsOrdered, IsSearched, search_shard_info-IsSearched}

length-build_shards :
    (n : ℕ) (servers : List ℕ) (left i r : ℕ) → length (build_shards n servers left i r) ≡ left
unfolding build_shards
length-build_shards n servers zero i r = refl
length-build_shards n servers (suc left) i r =
    ap suc (length-build_shards n servers left (i + 1) ((r + 1) % length servers))

point-build_shards :
    (n : ℕ) (servers : List ℕ) (left i r j : ℕ)
    → j < left
    → point (build_shards n servers left i r) j ≡ range_point_of n (i + j)
unfolding build_shards
point-build_shards n servers zero i r j lt = absurd (omega arith)
point-build_shards n servers (suc left) i r zero lt = ap (range_point_of n) (omega arith)
point-build_shards n servers (suc left) i r (suc j) lt =
    point-build_shards n servers left (i + 1) ((r + 1) % length servers) j (omega arith)
    ∙ ap (range_point_of n) (omega arith)

range_point_of_last : (n i : ℕ) → i ≡ n - 1 → range_point_of n i ≡ range_max
unfolding range_point_of
range_point_of_last n i e = ground arith

range_point_of_inner :
    (n i : ℕ) → i < n - 1 → range_point_of n i ≡ (range_max - range_min) * (i + 1) / n + range_min
unfolding range_point_of
range_point_of_inner n i lt = ground arith

share_le : (n i : ℕ) → i < n → range_max * (i + 1) / n ≤ range_max
share_le n i lt = div-le_of_le-mul n (omega (arith, mul_le_mul i n lt))
  where
    mul_le_mul : (i n : ℕ) → i < n → range_max * (i + 1) ≤ n * range_max
    mul_le_mul i n lt = omega arith

share_mono : (n i j : ℕ) → 0 < n → i ≤ j → range_max * (i + 1) / n ≤ range_max * (j + 1) / n
share_mono n i j pos le =
    (le-div_iff_mul-le pos).1 (omega (arith, mul-div-le (range_max * (i + 1)) n))

range_point_of_mono : (n i j : ℕ) → i ≤ j → j < n → range_point_of n i ≤ range_point_of n j
range_point_of_mono n i j le fits = elim (dec_lt j (n - 1)) [
  | yes a ↦
      rw (range_point_of_inner n i (omega arith), range_point_of_inner n j a)
        (omega (arith, share_mono n i j (omega arith) le))
  | no a ↦ rw (range_point_of_last n j (omega arith)) (elim (dec_lt i (n - 1)) [
    | yes b ↦ rw (range_point_of_inner n i b) (omega (arith, share_le n i (omega arith)))
    | no b ↦ rw (range_point_of_last n i (omega arith)) (omega arith)
  ])
]

zero_add : (i : ℕ) → 0 + i ≡ i
zero_add i = omega arith

pub build_shards-IsOrdered : (n : ℕ) (servers : List ℕ) → IsOrdered (build_shards n servers n 0 0)
build_shards-IsOrdered n servers i j le lt =
    let long = length-build_shards n servers n 0 0 in
    rw
      (
        point-build_shards n servers n 0 0 i (omega arith),
        point-build_shards n servers n 0 0 j (omega arith),
      )
      (rw (zero_add i, zero_add j) (range_point_of_mono n i j le (omega arith)))

found_row :
    (shards : List Shard) (hashvalue last : ℕ) (f : Found)
    → last < length shards
    → hashvalue ≤ point shards last
    → IsSearched shards hashvalue f
    → (s : Shard) × (f ≡ row s) × (hashvalue ≤ s.range_point)
found_row shards hashvalue last (row s) lt le (k, fits, e, high, low) = (s, refl, high)
found_row shards hashvalue last out_of_range lt le below =
    let b = below last lt in absurd (omega arith)
found_row shards hashvalue last searching lt le h = absurd h

-- With a count in range and at least one server, the table is made with as many shards as asked for,
-- ordered by their range points, and the search in it finds for each hash value from 0 to 2^31 - 1 a
-- shard that ends at or above it.
pub build_shard_table-covers :
    (shard_count : ℕ) (servers : List ℕ) (hashvalue : ℕ)
    → 0 < shard_count
    → shard_count ≤ shard_count_max
    → 0 < length servers
    → hashvalue ≤ range_max
    → (shards : List Shard) × (build_shard_table shard_count servers ≡ some shards)
      × (length shards ≡ shard_count)
      × IsOrdered shards
      × (s : Shard) × (search_shard_info 32 shards hashvalue ≡ row s)
      × (hashvalue ≤ s.range_point)
unfolding build_shard_table
build_shard_table-covers n servers hashvalue pos le some_server low =
    let shards = build_shards n servers n 0 0 in
    let long = length-build_shards n servers n 0 0 in
    let ordered = build_shards-IsOrdered n servers in
    let end : point shards (n - 1) ≡ range_max =
      point-build_shards n servers n 0 0 (n - 1) (omega arith)
      ∙ range_point_of_last n (0 + (n - 1)) (omega arith) in
    let (s, found, high) =
      found_row shards hashvalue (n - 1) (search_shard_info 32 shards hashvalue) (omega arith)
        (omega arith) (search_shard_info-IsSearched shards hashvalue ordered (omega arith)) in
    (shards, ground arith, long, ordered, s, found, high)
