-- ===== src/Allocator/Sizes.antt =====
-- The size classes: the next power of two, and the level of a request.
use cuckoofs.Base.{
  ℕ, zero, suc, ◌+◌, ◌-◌, ◌*◌, ◌/◌, ◌^◌, ◌≤◌, ◌<◌, bit_and, ◌≡◌, ◌⊎◌, refl, ap, ap₂, ◌∙◌,
  Bool-cases, inl, inr, arith, ◌==◌, ==_iff, ltb, dec_lt,
}
use cuckoofs.Base.Bits.{and_split, and-zero, zero-and}
use cuckoofs.Allocator.{
  digits_below, ctz_below, get_next_power_of_two, required_size, level_of, hdr_size, max_alloc_size,
  min_alloc_size,
}
use native.Mathlib.Nat.{pow-suc}

-- `d` binary digits.
abbrev HasDigits : ℕ → ℕ → Type 0
HasDigits x zero = x ≡ 0
HasDigits x (suc d) = (2 ^ d ≤ x) × (x < 2 ^ suc d)

digits_below-HasDigits :
    (k x : ℕ) → x < 2 ^ k → HasDigits x (digits_below k x) × (digits_below k x ≤ k)
unfolding digits_below
digits_below-HasDigits zero x h = (omega arith, omega arith)
digits_below-HasDigits (suc k) x h = elim (Bool-cases (x == 0)) [
  | inl none ↦ rw none ((==_iff x 0).0 none, omega arith)
  | inr more ↦
      let half = digits_below-HasDigits k (x / 2) (omega (arith, pow-suc 2 k)) in
      rw more (grows (digits_below k (x / 2)) half.0 (ground arith), omega (arith, half.1))
]
  where
    grows : (d : ℕ) → HasDigits (x / 2) d → 0 < x → HasDigits x (suc d)
    grows zero e pos = (omega arith, omega arith)
    grows (suc d) e pos = omega (arith, pow-suc 2 d, pow-suc 2 (suc d))

top_bit_clear : (num : ℕ) → num < 2 ^ 63 → bit_and num (2 ^ 63) ≡ 0
top_bit_clear num h =
    ap₂ bit_and (omega arith) (omega arith)
    ∙ and_split 63 num 0 0 1 h (omega arith)
    ∙ omega (arith, and-zero num, zero-and 1)

two_pow_mono : (a b : ℕ) → a ≤ b → 2 ^ a ≤ 2 ^ b
two_pow_mono a zero h = let e : a ≡ 0 = omega arith in rw e (omega arith)
two_pow_mono a (suc b) h = elim (dec_lt b a) [
  | yes last ↦ let e : a ≡ suc b = omega arith in rw e (omega arith)
  | no below ↦ omega (arith, pow-suc 2 b, two_pow_mono a b (omega arith))
]

HasDigits-bounds : (x d : ℕ) → HasDigits x d → 0 < x → (x < 2 ^ d) × (2 ^ d ≤ 2 * x)
HasDigits-bounds x zero h pos = absurd (omega arith)
HasDigits-bounds x (suc d) h pos = omega (arith, pow-suc 2 d)

-- For every number from 1 up to below 2^63 the result is a power of two, not below the number and
-- below its double.
pub get_next_power_of_two_lem :
    (num : ℕ)
    → 0 < num
    → num < 2 ^ 63
    → (d : ℕ) × (get_next_power_of_two num ≡ 2 ^ d) × (num ≤ 2 ^ d) × (2 ^ d < 2 * num)
unfolding get_next_power_of_two
get_next_power_of_two_lem num pos h = elim (Bool-cases (num == 1)) [
  | inl one ↦ (0, ground (arith, top_bit_clear num h), ground arith, omega arith)
  | inr more ↦
      let d = digits_below 64 (num - 1) in
      let counted = digits_below-HasDigits 64 (num - 1) (omega arith) in
      let bounds = HasDigits-bounds (num - 1) d counted.0 (ground arith) in
      let shift : 64 - (64 - d) ≡ d = omega (arith, counted.1) in
      (
        d,
        rw (top_bit_clear num h, shift, more) (ground arith),
        omega (arith, bounds),
        ground (arith, bounds),
      )
]

two_pow_range : (d : ℕ) → 2 ^ 14 ≤ 2 ^ d → 2 ^ d < 2 ^ 21 → (14 ≤ d) × (d ≤ 20)
two_pow_range d lo hi = (
  elim (dec_lt d 14) [
    | yes low ↦ absurd (omega (arith, two_pow_mono d 13 (omega arith)))
    | no high ↦ omega arith
  ],
  elim (dec_lt 20 d) [
    | yes high ↦ absurd (omega (arith, two_pow_mono 21 d (omega arith)))
    | no low ↦ omega arith
  ],
)

level_table : (e : ℕ) → e < 7 → level_of (2 ^ (20 - e)) ≡ e
unfolding level_of ctz_below
level_table zero h = refl
level_table (suc zero) h = refl
level_table (suc (suc zero)) h = refl
level_table (suc (suc (suc zero))) h = refl
level_table (suc (suc (suc (suc zero)))) h = refl
level_table (suc (suc (suc (suc (suc zero))))) h = refl
level_table (suc (suc (suc (suc (suc (suc zero)))))) h = refl
level_table (suc (suc (suc (suc (suc (suc (suc e))))))) h = absurd (omega arith)

-- The block size taken for a request that is not refused.
pub record IsClass (size required level : ℕ) : Type 0 where
  pub level_lt : level < 7
  pub power : required ≡ 2 ^ (20 - level)
  pub enough : size + hdr_size ≤ required
  pub least : (required ≡ min_alloc_size) ⊎ (required < 2 * (size + hdr_size))

power-IsClass :
    (size d : ℕ)
    → 14 ≤ d
    → d ≤ 20
    → size + hdr_size ≤ 2 ^ d
    → (2 ^ d ≡ min_alloc_size) ⊎ (2 ^ d < 2 * (size + hdr_size))
    → IsClass size (2 ^ d) (level_of (2 ^ d))
power-IsClass size d lo hi enough least =
    let e : d ≡ 20 - (20 - d) = omega arith in
    let at_level : level_of (2 ^ d) ≡ 20 - d =
      ap (λ (k : ℕ). level_of (2 ^ k)) e ∙ level_table (20 - d) (omega arith) in
    record {
      level_lt = omega (arith, at_level);
      power = ap (λ (k : ℕ). 2 ^ k) (omega (arith, at_level));
      enough = enough;
      least = least;
    }

-- A request that is not refused gets the least block of 2^14 to 2^20 bytes that holds it and the
-- header: the smallest, or less than twice what is needed. Its level is from 0 to 6.
pub required_size-IsClass :
    (size : ℕ)
    → size ≤ max_alloc_size - hdr_size
    → IsClass size (required_size size) (level_of (required_size size))
unfolding required_size
required_size-IsClass size h = elim (Bool-cases (ltb (size + hdr_size) min_alloc_size)) [
  | inl small ↦
      rw small (power-IsClass size 14 (omega arith) (omega arith) (ground arith) (inl refl))
  | inr large ↦
      let (d, e, above, below) =
        get_next_power_of_two_lem (size + hdr_size) (omega arith) (omega arith) in
      let range = two_pow_range d (ground arith) (omega arith) in
      rw (large, e) (power-IsClass size d range.0 range.1 above (inr below))
]
