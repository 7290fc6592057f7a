-- ===== src/Allocator/Page.antt =====
-- The search for a block in one page: what it offers is free, and it misses none.
use cuckoofs.Base.{
  ℕ, zero, suc, ◌+◌, ◌-◌, ◌*◌, ◌/◌, ◌%◌, ◌^◌, ◌≤◌, ◌<◌, bit_and, bit_or, ◌≡◌, ◌≢◌, refl, ap, ap₂,
  ◌∙◌, sym, Bool-cases, inl, inr, true, false, not, ◌&&◌, ◌||◌, arith, ◌==◌, ==_iff, eq_of_some,
  if◌then◌else◌, ltb, leb, Option, none, some, not64, u64,
}
use cuckoofs.Base.Bits.{
  test_bit, test_bit-and, test_bit-or, test_bit-shl, test_bit-shl_low, test_bit-ext, test_bit-zero,
  test_bit-complement, test_bit-mod, and-lt, or-lt,
}
use cuckoofs.Allocator.{
  ctz_below, ctz64, mask_at, occupy_at, level_bitmap, fold_levels, try_blocks, try_page, Offer,
}
use cuckoofs.Allocator.Bitmap.{used, width, mask_bit, occupy_bit, level_bitmap-Folded}
use native.Mathlib.Nat.{pow-suc}
use mathlib.Core.Path.{subst₂}

-- The lowest bit that is set.
record IsLowest (k x c : ℕ) : Type 0 where
  below : c < k
  set : test_bit x c ≡ true
  least : (i : ℕ) → i < c → test_bit x i ≡ false

ctz_below-IsLowest : (k x : ℕ) → x < 2 ^ k → x ≢ 0 → IsLowest k x (ctz_below k x)
unfolding ctz_below
ctz_below-IsLowest zero x h ne = absurd (omega arith)
ctz_below-IsLowest (suc k) x h ne = elim (Bool-cases (x % 2 == 1)) [
  | inl odd ↦
      rw odd (record { below = omega arith; set = rw odd; least = λ i lt. absurd (omega arith) })
  | inr even ↦
      let half = ctz_below-IsLowest k (x / 2) (omega (arith, pow-suc 2 k)) (ground arith) in
      rw even (record {
        below = omega (arith, half.below);
        set = half.set;
        least = λ i lt. least_suc even half i lt;
      })
]
  where
    least_suc :
        (x % 2 == 1) ≡ false
        → IsLowest k (x / 2) (ctz_below k (x / 2))
        → (i : ℕ) → i < suc (ctz_below k (x / 2))
        → test_bit x i ≡ false
    least_suc even half zero lt = rw even
    least_suc even half (suc i) lt = half.least i (omega arith)

mask_lt : (level : ℕ) → mask_at level < 2 ^ 64
mask_lt zero = omega arith
mask_lt (suc zero) = omega arith
mask_lt (suc (suc zero)) = omega arith
mask_lt (suc (suc (suc zero))) = omega arith
mask_lt (suc (suc (suc (suc zero)))) = omega arith
mask_lt (suc (suc (suc (suc (suc zero))))) = omega arith
mask_lt (suc (suc (suc (suc (suc (suc zero)))))) = omega arith
mask_lt (suc (suc (suc (suc (suc (suc (suc level))))))) = omega arith

fold_levels_lt : (rounds j shift x : ℕ) → x < 2 ^ 64 → fold_levels rounds j shift x < 2 ^ 64
unfolding fold_levels
fold_levels_lt zero j shift x h = h
fold_levels_lt (suc rounds) j shift x h =
    fold_levels_lt rounds (j - 1) (shift * 2) _ (and-lt 64 _ _ (mask_lt (j - 1)))

-- A run inside `[p, p + n)` that is not used has no bit set.
pub unused_bit : (x p n i : ℕ) → used x p n ≡ false → p ≤ i → i < p + n → test_bit x i ≡ false
unfolding used
unused_bit x p zero i h lo hi = absurd (omega arith)
unused_bit x p (suc n) i h lo hi = elim (Bool-cases (p == i)) [
  | inl here ↦ ground arith
  | inr later ↦ ground (arith, unused_bit x (p + 1) n i)
]

-- The places of the blocks of a level.
abbrev pub IsBlock : ℕ → ℕ → Type 0
IsBlock level p = (p % width level ≡ 0) × (p + width level ≤ 64)

-- What an offer of a page promises.
pub record IsOffer (level x : ℕ) (o : Offer) : Type 0 where
  pub placed : IsBlock level o.block
  pub unused : used x o.block (width level) ≡ false
  pub first : (p : ℕ) → IsBlock level p → p < o.block → used x p (width level) ≡ true
  pub stored :
      (i : ℕ)
      → i < 64
      → test_bit o.desired i ≡ (test_bit x i || (leb o.block i && ltb i (o.block + width level)))
  pub desired_lt : o.desired < 2 ^ 64

pub width_bounds : (level : ℕ) → level < 7 → (0 < width level) × (width level ≤ 64)
width_bounds zero h = omega arith
width_bounds (suc zero) h = omega arith
width_bounds (suc (suc zero)) h = omega arith
width_bounds (suc (suc (suc zero))) h = omega arith
width_bounds (suc (suc (suc (suc zero)))) h = omega arith
width_bounds (suc (suc (suc (suc (suc zero))))) h = omega arith
width_bounds (suc (suc (suc (suc (suc (suc zero)))))) h = omega arith
width_bounds (suc (suc (suc (suc (suc (suc (suc level))))))) h = absurd (omega arith)

-- On the grid of a level, a place below 64 leaves room for a block.
block_fits : (level p : ℕ) → level < 7 → p < 64 → p % width level ≡ 0 → p + width level ≤ 64
block_fits zero p h lt e = omega arith
block_fits (suc zero) p h lt e = omega arith
block_fits (suc (suc zero)) p h lt e = omega arith
block_fits (suc (suc (suc zero))) p h lt e = omega arith
block_fits (suc (suc (suc (suc zero)))) p h lt e = omega arith
block_fits (suc (suc (suc (suc (suc zero))))) p h lt e = omega arith
block_fits (suc (suc (suc (suc (suc (suc zero)))))) p h lt e = omega arith
block_fits (suc (suc (suc (suc (suc (suc (suc level))))))) p h lt e = absurd (omega arith)

module _ (level x : ℕ) (small : level < 7) (fits : x < 2 ^ 64) where
  abbrev folded : ℕ
  folded = level_bitmap level x

  -- The blocks that are free, by their first bits.
  abbrev candidates : ℕ
  candidates = bit_and (not64 folded) (mask_at level)

  candidate_bit :
      (i : ℕ)
      → i < 64
      → test_bit candidates i ≡ ((i % width level == 0) && not (used x i (width level)))
  candidate_bit i lt =
      test_bit-and i (not64 folded) (mask_at level)
      ∙ ap₂ ◌&&◌ (test_bit-complement 64 folded i (fold_levels_lt (6 - level) 6 1 x fits) lt)
          (mask_bit level i small lt)
      ∙ ground (arith, level_bitmap-Folded level x small i lt)

  candidates_lt : candidates < 2 ^ 64
  candidates_lt = and-lt 64 (not64 folded) (mask_at level) (mask_lt level)

  -- No candidates: every block is used.
  none_left : folded ≡ mask_at level → (p : ℕ) → IsBlock level p → used x p (width level) ≡ true
  none_left e p at_block =
      let lt : p < 64 = omega (arith, width_bounds level small) in
      ground (
        arith,
        ap (λ (y : ℕ). test_bit y p) e,
        mask_bit level p small lt,
        level_bitmap-Folded level x small p lt,
      )

  some_left : folded ≢ mask_at level → candidates ≢ 0
  some_left ne zero_candidates = ne (
      test_bit-ext 64 folded (mask_at level) (fold_levels_lt (6 - level) 6 1 x fits) (mask_lt level)
        (λ i lt. ground (
          arith,
          ap (λ (y : ℕ). test_bit y i) zero_candidates,
          test_bit-zero i,
          candidate_bit i lt,
          mask_bit level i small lt,
          level_bitmap-Folded level x small i lt,
        )))

-- The occupation bits of a block, moved to its place.
pub occupied_bit :
    (level first i : ℕ)
    → level < 7
    → IsBlock level first
    → i < 64
    → test_bit (u64 (occupy_at level * 2 ^ first)) i ≡ (leb first i && ltb i (first + width level))
occupied_bit level first i small placed lt =
    test_bit-mod 64 _ i lt ∙ elim (Bool-cases (ltb i first)) [
      | inl before ↦ ground (arith, test_bit-shl_low first (occupy_at level) i)
      | inr after ↦
          let split : i ≡ first + (i - first) = ground arith in
          ap (test_bit (occupy_at level * 2 ^ first)) split
          ∙ test_bit-shl first (occupy_at level) (i - first)
          ∙ occupy_bit level (i - first) small (omega arith)
          ∙ ground arith
    ]

full_bit : (i : ℕ) → i < 64 → test_bit (not64 0) i ≡ true
full_bit i lt = test_bit-complement 64 0 i (omega arith) lt ∙ ground (arith, test_bit-zero i)

zero_unused : (p n : ℕ) → used 0 p n ≡ false
unfolding used
zero_unused p zero = refl
zero_unused p (suc n) = ground (arith, test_bit-zero p, zero_unused (p + 1) n)

-- A run with no bit set leaves nothing in a word all of whose bits it covers.
unused_zero : (x : ℕ) → x < 2 ^ 64 → used x 0 64 ≡ false → x ≡ 0
unused_zero x h free =
    test_bit-ext 64 x 0 h (omega arith)
      (λ i lt. unused_bit x 0 64 i free (omega arith) (omega arith) ∙ sym (test_bit-zero i))

module _ (level x : ℕ) (small : level < 7) (fits : x < 2 ^ 64) where
  -- The offer of a page that is not at the top level.
  abbrev lowest : Offer
  lowest =
      let first = ctz64 (candidates level x small fits) in
      record { block = first; desired = bit_or x (u64 (occupy_at level * 2 ^ first)) }

  lowest-IsOffer : folded level x small fits ≢ mask_at level → IsOffer level x lowest
  lowest-IsOffer ne = record {
    placed = placed;
    unused = ground (arith, candidate_bit level x small fits lowest.block c.below, c.set);
    first = λ p at_p before. earlier p at_p before;
    stored = λ i lt.
        test_bit-or i x (u64 (occupy_at level * 2 ^ lowest.block))
        ∙ ap (λ t. test_bit x i || t) (occupied_bit level lowest.block i small placed lt);
    desired_lt = or-lt 64 x _ fits (omega arith);
  }
    where
      c : IsLowest 64 (candidates level x small fits) lowest.block
      c =
          ctz_below-IsLowest 64 (candidates level x small fits) (candidates_lt level x small fits)
            (some_left level x small fits ne)

      on_grid : lowest.block % width level ≡ 0
      on_grid = ground (arith, candidate_bit level x small fits lowest.block c.below, c.set)

      placed : IsBlock level lowest.block
      placed = (on_grid, block_fits level lowest.block small c.below on_grid)

      earlier : (p : ℕ) → IsBlock level p → p < lowest.block → used x p (width level) ≡ true
      earlier p at_p before =
          ground (arith, candidate_bit level x small fits p, c.least p before, c.below)

whole_page : IsOffer 0 0 (record { block = 0; desired = not64 0 })
whole_page = record {
  placed = omega arith;
  unused = zero_unused 0 64;
  first = λ p at_p before. absurd (omega arith);
  stored = λ i lt. ground (arith, full_bit i lt);
  desired_lt = omega arith;
}

abbrev top_offer : ℕ → Option Offer
top_offer x = if x == 0 then some (record { block = 0; desired = not64 0 }) else none

whole_page-IsOffer : (x : ℕ) {o : Offer} → top_offer x ≡ some o → IsOffer 0 x o
whole_page-IsOffer x {o} e = elim (Bool-cases (x == 0)) [
  | inl free ↦
      subst₂ (λ (x' : ℕ) (o' : Offer). IsOffer 0 x' o') (sym ((==_iff x 0).0 free))
        (eq_of_some (record { block = 0; desired = not64 0 }) o (rw free at e)) whole_page
  | inr busy ↦ cc (rw busy at e)
]

whole_page-none :
    (x : ℕ) → x < 2 ^ 64 → top_offer x ≡ none → (p : ℕ) → IsBlock 0 p → used x p 64 ≡ true
whole_page-none x fits e p placed = elim (Bool-cases (used x p 64)) [
  | inl taken ↦ taken
  | inr free ↦
      let bottom : p ≡ 0 = omega arith in
      let empty : x ≡ 0 = unused_zero x fits (rw bottom at free) in
      cc (rw ((==_iff x 0).1 empty) at e)
]

module _ (level x : ℕ) (small : level < 7) (fits : x < 2 ^ 64) where
  try_blocks-IsOffer : {o : Offer} → try_blocks level x ≡ some o → IsOffer level x o
  unfolding try_blocks
  try_blocks-IsOffer {o} e = elim (Bool-cases (folded level x small fits == mask_at level)) [
    | inl full ↦ cc (rw full at e)
    | inr left ↦
        let found : lowest level x small fits ≡ o =
          eq_of_some (lowest level x small fits) o (rw left at e) in
        rw (← found) (
          lowest-IsOffer level x small fits
            (λ q. cc (left, (==_iff (folded level x small fits) (mask_at level)).1 q)))
  ]

  try_blocks-none :
      try_blocks level x ≡ none → (p : ℕ) → IsBlock level p → used x p (width level) ≡ true
  unfolding try_blocks
  try_blocks-none e p placed = elim (Bool-cases (folded level x small fits == mask_at level)) [
    | inl full ↦ none_left level x small fits ((==_iff _ _).0 full) p placed
    | inr left ↦ cc (rw left at e)
  ]

-- What a page offers at a level is its first free block, and storing the offer sets the bits of
-- that block and no others.
pub try_page-IsOffer :
    (level x : ℕ) {o : Offer}
    → level < 7
    → x < 2 ^ 64
    → try_page level x ≡ some o
    → IsOffer level x o
unfolding try_page
try_page-IsOffer level x {o} small fits e = elim (Bool-cases (level == 0)) [
  | inl top ↦ rw ((==_iff level 0).0 top) (whole_page-IsOffer x (rw top at e))
  | inr lower ↦ try_blocks-IsOffer level x small fits (rw lower at e)
]

-- A page that offers nothing at a level has no free block there.
pub try_page-none :
    (level x : ℕ)
    → level < 7
    → x < 2 ^ 64
    → try_page level x ≡ none
    → (p : ℕ) → IsBlock level p
    → used x p (width level) ≡ true
unfolding try_page
try_page-none level x small fits e p placed = elim (Bool-cases (level == 0)) [
  | inl top ↦
      let at_top : level ≡ 0 = (==_iff level 0).0 top in
      rw at_top (whole_page-none x fits (rw top at e) p (rw at_top at placed))
  | inr lower ↦ try_blocks-none level x small fits (rw lower at e) p placed
]
