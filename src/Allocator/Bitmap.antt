-- ===== src/Allocator/Bitmap.antt =====
-- Runs of bits in a page's bitmap, and what the bitmap of a level says of them.
use cuckoofs.Base.{
  ℕ, zero, suc, ◌+◌, ◌-◌, ◌*◌, ◌/◌, ◌%◌, ◌^◌, ◌<◌, bit_and, bit_or, ◌≡◌, refl, ap, ap₂, ◌∙◌,
  Bool-cases, inl, inr, Bool, true, false, ◌&&◌, ◌||◌, arith, ◌==◌, ltb,
}
use cuckoofs.Base.Bits.{test_bit, test_bit-and, test_bit-or, test_bit-shr}
use cuckoofs.Allocator.{fold_levels, mask_at, occupy_at, level_bitmap}

-- Some bit of the `n` from `p` on is set.
unfoldable pub used : ℕ → ℕ → ℕ → Bool
used x p zero = false
used x p (suc n) = test_bit x p || used x (p + 1) n

pub used-add : (x p m n : ℕ) → used x p (m + n) ≡ (used x p m || used x (p + m) n)
unfolding used
used-add x p zero n = ground arith
used-add x p (suc m) n =
    let sum : suc m + n ≡ suc (m + n) = omega arith in
    let next : p + suc m ≡ p + 1 + m = omega arith in
    rw (sum, next) (ground (arith, used-add x (p + 1) m n))

-- Every number below `n` passes a test.
abbrev all_below : ℕ → (ℕ → Bool) → Bool
all_below zero t = true
all_below (suc n) t = t n && all_below n t

all_below_sound : (n : ℕ) (t : ℕ → Bool) (i : ℕ) → all_below n t ≡ true → i < n → t i ≡ true
all_below_sound zero t i h lt = absurd (omega arith)
all_below_sound (suc n) t i h lt = ground (arith, all_below_sound n t i)

-- The width of the blocks of a level, in bits.
abbrev pub width : ℕ → ℕ
width level = 2 ^ (6 - level)

abbrev same : Bool → Bool → Bool
same true b = b
same false true = false
same false false = true

same_sound : (a b : Bool) → same a b ≡ true → a ≡ b
same_sound a b h = ground arith

abbrev mask_row : ℕ → ℕ → Bool
mask_row level i = same (test_bit (mask_at level) i) (i % width level == 0)

-- The mask of a level has the first bit of each of its blocks.
mask_table : all_below 7 (λ level. all_below 64 (mask_row level)) ≡ true
mask_table = refl

pub mask_bit :
    (level i : ℕ) → level < 7 → i < 64 → test_bit (mask_at level) i ≡ (i % width level == 0)
mask_bit level i hl hi = same_sound (test_bit (mask_at level) i) (i % width level == 0) (
    all_below_sound 64 (mask_row level) i
      (all_below_sound 7 (λ k. all_below 64 (mask_row k)) level mask_table hl) hi)

abbrev occupy_row : ℕ → ℕ → Bool
occupy_row level i = same (test_bit (occupy_at level) i) (ltb i (width level))

-- The occupation bits of a level are those of one block at the bottom.
occupy_table : all_below 7 (λ level. all_below 64 (occupy_row level)) ≡ true
occupy_table = refl

pub occupy_bit :
    (level i : ℕ) → level < 7 → i < 64 → test_bit (occupy_at level) i ≡ ltb i (width level)
occupy_bit level i hl hi = same_sound (test_bit (occupy_at level) i) (ltb i (width level)) (
    all_below_sound 64 (occupy_row level) i
      (all_below_sound 7 (λ k. all_below 64 (occupy_row k)) level occupy_table hl) hi)

-- `b` has, at the first bit of each run of `w`, whether the run of `x` is used, and nothing else.
abbrev pub Folded : ℕ → ℕ → ℕ → Type 0
Folded x w b = (i : ℕ) → i < 64 → test_bit b i ≡ ((i % w == 0) && used x i w)

Folded-one : (x : ℕ) → Folded x 1 x
unfolding used
Folded-one x i lt = ground arith

-- Places on the grid of the next level, for a width that divides 64.
abbrev Grid : ℕ → Type 0
Grid w = (i : ℕ) → i < 64 → i % (w * 2) ≡ 0 → (i % w ≡ 0) × ((i + w) % w ≡ 0) × (i + w < 64)

-- One round of the loop: the runs join in pairs.
Folded-round :
    (x w level b : ℕ)
    → level < 7
    → width level ≡ w * 2
    → Grid w
    → Folded x w b
    → Folded x (width level) (bit_and (bit_or (b / 2 ^ w) b) (mask_at level))
Folded-round x w level b small doubled grid folded i lt =
    test_bit-and i (bit_or (b / 2 ^ w) b) (mask_at level)
    ∙ ap₂ ◌&&◌ (test_bit-or i (b / 2 ^ w) b ∙ ap (λ t. t || test_bit b i) (test_bit-shr w b i))
        (mask_bit level i small lt)
    ∙ elim (Bool-cases (i % width level == 0)) [
      | inl on_grid ↦ rw (on_grid, and_true) (joined on_grid)
      | inr off_grid ↦ rw (off_grid, and_false)
    ]
  where
    and_true : (t : Bool) → (t && true) ≡ t
    and_true t = ground arith

    and_false : (t : Bool) → (t && false) ≡ false
    and_false t = ground arith

    joined :
        (i % width level == 0) ≡ true
        → (test_bit b (w + i) || test_bit b i) ≡ used x i (width level)
    joined on_grid =
        let (here, next, fits) = grid i lt (ground (arith, doubled)) in
        let order : w + i ≡ i + w = omega arith in
        let twice : width level ≡ w + w = omega arith in
        rw (order, twice, used-add x i w w) (ground (arith, folded i lt, folded (i + w) fits))

-- At each level the loop leaves, for every block, whether any of its bits is set.
pub level_bitmap-Folded : (level x : ℕ) → level < 7 → Folded x (width level) (level_bitmap level x)
unfolding fold_levels
level_bitmap-Folded level x lt = at_level level lt
  where
    five : Folded x 2 (bit_and (bit_or (x / 2 ^ 1) x) (mask_at 5))
    five =
        Folded-round x 1 5 x (omega arith) refl (λ i h e. (omega arith, omega arith, omega arith))
          (Folded-one x)

    four : Folded x 4 (level_bitmap 4 x)
    four =
        Folded-round x 2 4 _ (omega arith) refl (λ i h e. (omega arith, omega arith, omega arith))
          five

    three : Folded x 8 (level_bitmap 3 x)
    three =
        Folded-round x 4 3 _ (omega arith) refl (λ i h e. (omega arith, omega arith, omega arith))
          four

    two : Folded x 16 (level_bitmap 2 x)
    two =
        Folded-round x 8 2 _ (omega arith) refl (λ i h e. (omega arith, omega arith, omega arith))
          three

    one : Folded x 32 (level_bitmap 1 x)
    one =
        Folded-round x 16 1 _ (omega arith) refl (λ i h e. (omega arith, omega arith, omega arith))
          two

    all : Folded x 64 (level_bitmap 0 x)
    all =
        Folded-round x 32 0 _ (omega arith) refl (λ i h e. (omega arith, omega arith, omega arith))
          one

    at_level : (k : ℕ) → k < 7 → Folded x (width k) (level_bitmap k x)
    at_level zero h = all
    at_level (suc zero) h = one
    at_level (suc (suc zero)) h = two
    at_level (suc (suc (suc zero))) h = three
    at_level (suc (suc (suc (suc zero)))) h = four
    at_level (suc (suc (suc (suc (suc zero))))) h = five
    at_level (suc (suc (suc (suc (suc (suc zero)))))) h = Folded-one x
    at_level (suc (suc (suc (suc (suc (suc (suc k))))))) h = absurd (omega arith)
