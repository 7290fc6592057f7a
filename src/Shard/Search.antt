-- ===== src/Shard/Search.antt =====
-- The binary search over the range points, and the ranges that the table reports.
use cuckoofs.Base.{
  ℕ, zero, suc, ◌+◌, ◌/◌, ◌^◌, ◌<◌, ◌≤◌, true, false, ◌≡◌, refl, sym, arith, ltb, some, ◌==◌,
  get_or, List, length, dec_lt,
}
use native.Mathlib.Nat.{pow-suc, le_refl}
use mathlib.Core.Path.{subst}
use cuckoofs.Shard.{
  Shard, no_shard, search_loop, search_shard_info, found_at, Found, row, out_of_range, searching,
}

abbrev pub point : List Shard → ℕ → ℕ
point shards i = (get_or shards i no_shard).range_point

-- The index orders the rows by their range points.
abbrev pub IsOrdered : List Shard → Type 0
IsOrdered shards = (i j : ℕ) → i ≤ j → j < length shards → point shards i ≤ point shards j

-- Rows below `l` end before the value, rows from `r` on do not.
abbrev pub Splits : List Shard → ℕ → ℕ → ℕ → Type 0
Splits shards hashvalue l r =
    ((i : ℕ) → i < l → point shards i < hashvalue)
    × ((i : ℕ) → r ≤ i → i < length shards → hashvalue ≤ point shards i)

search_loop-Splits :
    (fuel : ℕ) (shards : List Shard) (hashvalue l r : ℕ)
    → IsOrdered shards
    → l ≤ r
    → r ≤ length shards
    → r < l + 2 ^ fuel
    → Splits shards hashvalue l r
    → (k : ℕ) × (search_loop fuel shards hashvalue l r ≡ some k)
      × (k ≤ length shards)
      × Splits shards hashvalue k k
unfolding search_loop
search_loop-Splits zero shards hashvalue l r ord le fits short (below, above) =
    let same : r ≡ l = omega arith in
    (l, ground arith, omega arith, (below, λ i ge lt. above i (omega arith) lt))
search_loop-Splits (suc fuel) shards hashvalue l r ord le fits short (below, above) =
    elim (dec_lt l r) [
      | no empty ↦ (l, ground arith, omega arith, (below, λ i ge lt. above i (omega arith) lt))
      | yes some_left ↦
          let mid = (l + r) / 2 in
          let inside : ltb l r ≡ true = ground arith in
          elim (dec_lt (point shards mid) hashvalue) [
            | yes less ↦
                let test : ltb (point shards mid) hashvalue ≡ true = ground arith in
                let (k, runs, bound, rest) =
                  search_loop-Splits fuel shards hashvalue (mid + 1) r ord (omega arith) fits
                    (omega (arith, short, pow-suc 2 fuel))
                    (
                      (λ i lt. let o = ord i mid (omega arith) (omega arith) in omega arith),
                      above,
                    ) in
                (k, rw (inside, test) runs, bound, rest)
            | no more ↦
                let test : ltb (point shards mid) hashvalue ≡ false = ground arith in
                let (k, runs, bound, rest) =
                  search_loop-Splits fuel shards hashvalue l mid ord (omega arith) (omega arith)
                    (omega (arith, short, pow-suc 2 fuel))
                    (below, λ i ge lt. let o = ord mid i ge lt in omega arith) in
                (k, rw (inside, test) runs, bound, rest)
          ]
    ]

-- The first row whose range point is not below the hash value, or the error if there is none.
abbrev pub IsSearched : List Shard → ℕ → Found → Type 0
IsSearched shards hashvalue (row s) =
    (k : ℕ) × (k < length shards)
    × (s ≡ get_or shards k no_shard)
    × (hashvalue ≤ s.range_point)
    × ((i : ℕ) → i < k → point shards i < hashvalue)
IsSearched shards hashvalue out_of_range = (i : ℕ) → i < length shards → point shards i < hashvalue
IsSearched shards hashvalue searching = ⊥

at_end : (k n : ℕ) → k ≡ n → (k == n) ≡ true
at_end k n e = ground arith

before_end : (k n : ℕ) → k < n → (k == n) ≡ false
before_end k n lt = ground arith

found_at-IsSearched :
    (shards : List Shard) (hashvalue k : ℕ)
    → k ≤ length shards
    → Splits shards hashvalue k k
    → IsSearched shards hashvalue (found_at shards (some k))
unfolding found_at
found_at-IsSearched shards hashvalue k fits (below, above) = elim (dec_lt k (length shards)) [
  | no end ↦ rw (at_end k (length shards) (omega arith)) (λ i lt. below i (omega arith))
  | yes lt ↦ rw (before_end k (length shards) lt) ((k, lt, refl, above k (le_refl k) lt, below))
]

-- Over ordered rows, fewer than 2^32, the search ends within 32 rounds: at the first row whose range
-- point is not below the hash value, or with the error when every range point is below it.
pub search_shard_info-IsSearched :
    (shards : List Shard) (hashvalue : ℕ)
    → IsOrdered shards
    → length shards < 2 ^ 32
    → IsSearched shards hashvalue (search_shard_info 32 shards hashvalue)
unfolding search_shard_info
search_shard_info-IsSearched shards hashvalue ord few =
    let (k, runs, fits, split) =
      search_loop-Splits 32 shards hashvalue 0 (length shards) ord (omega arith) (omega arith)
        (omega arith) ((λ i lt. absurd (omega arith)), λ i ge lt. absurd (omega arith)) in
    subst (λ o. IsSearched shards hashvalue (found_at shards o)) (sym runs)
      (found_at-IsSearched shards hashvalue k fits split)
