-- ===== src/Serialized/Grow.antt =====
-- The loop of SerializedDataEnlarge: where it ends, and where it does not.
use cuckoofs.Base.{
  ℕ, zero, suc, ◌+◌, ◌-◌, ◌*◌, ◌/◌, ◌%◌, ◌^◌, ◌<◌, ◌≤◌, ◌≡◌, refl, ap, ◌∙◌, arith, ◌⊎◌, inl, inr,
  none, some, u32, dec_lt,
}
use native.Mathlib.Nat.{pow-suc}
use cuckoofs.Base.Bits.{two_pow_pos}
use cuckoofs.Serialized.{double_until, align}
use cuckoofs.Serialized.Endian.{and_low}

-- Where the doubling of a capacity `c` ends: at the first of `c`, 2 c, 4 c, ... that holds `size`.
abbrev pub IsDoubled : ℕ → ℕ → ℕ → Type 0
IsDoubled c size n =
    (size ≤ n) × (n < 2 ^ 32) × (c ≤ n) × ((n ≡ c) ⊎ (n < 2 * size)) × (c % 4 ≡ 0 → n % 4 ≡ 0)

-- From a capacity below 2^32, and for a size of at most 2^31 that a number of doublings reaches, the
-- loop ends within that number, at a 32-bit capacity that holds the size and is the first one or less
-- than twice the size; it is a multiple of 4 if the first is.
pub double_until_ends :
    (fuel c size : ℕ)
    → size ≤ 2 ^ 31
    → c < 2 ^ 32
    → size ≤ c * 2 ^ fuel
    → (n : ℕ) × (double_until fuel c size ≡ some n) × IsDoubled c size n
unfolding double_until
double_until_ends zero c size small fits enough =
    (c, ground arith, (omega arith, fits, omega arith, inl refl, λ e. e))
double_until_ends (suc fuel) c size small fits enough = elim (dec_lt c size) [
  | no holds ↦ (c, ground arith, (omega arith, fits, omega arith, inl refl, λ e. e))
  | yes short ↦
      let twice : u32 (c * 2) ≡ c * 2 = omega arith in
      let more : size ≤ c * 2 * 2 ^ fuel =
        omega (arith, enough, ap (λ (t : ℕ). c * t) (pow-suc 2 fuel)) in
      let (n, ends, (holds, fits', grows, least, aligned)) =
        double_until_ends fuel (c * 2) size small (omega arith) more in
      (
        n,
        ground (arith, twice, ends),
        (holds, fits', omega arith, inr (ground arith), λ e. aligned (omega arith)),
      )
]

-- The values that the loop goes through from a power of two on: powers of two, then 0 for ever.
abbrev pub IsPowerOrZero : ℕ → Type 0
IsPowerOrZero c = (c ≡ 0) ⊎ ((j : ℕ) × (c * 2 ^ j ≡ 2 ^ 31))

IsPowerOrZero-le : (c : ℕ) → IsPowerOrZero c → c ≤ 2 ^ 31
IsPowerOrZero-le c (inl z) = omega arith
IsPowerOrZero-le c (inr (j, e)) = let pos = two_pow_pos j in grind arith

IsPowerOrZero-double : (c : ℕ) → IsPowerOrZero c → IsPowerOrZero (u32 (c * 2))
IsPowerOrZero-double c (inl z) = inl (omega arith)
IsPowerOrZero-double c (inr (zero, e)) = inl (omega arith)
IsPowerOrZero-double c (inr (suc j, e)) =
    let pos = two_pow_pos j in
    let whole : c * 2 * 2 ^ j ≡ 2 ^ 31 = omega (arith, e, ap (λ (t : ℕ). c * t) (pow-suc 2 j)) in
    let small : c * 2 ≤ 2 ^ 31 = grind arith in
    inr (j, ap (λ (t : ℕ). t * 2 ^ j) (omega arith) ∙ whole)

pub double_until_stuck :
    (fuel c size : ℕ) → 2 ^ 31 < size → IsPowerOrZero c → double_until fuel c size ≡ none
unfolding double_until
double_until_stuck zero c size big st = ground (arith, IsPowerOrZero-le c st)
double_until_stuck (suc fuel) c size big st = ground (
  arith,
  IsPowerOrZero-le c st,
  double_until_stuck fuel (u32 (c * 2)) size big (IsPowerOrZero-double c st),
)

-- A request of at most 2^32 - 4 bytes gets the least multiple of 4 that holds it.
pub align_lem : (size : ℕ) → size ≤ 2 ^ 32 - 4 → align size ≡ (size + 3) / 4 * 4
unfolding align
align_lem size small =
    rw (and_low 2 size, and_low 2 ((2 ^ 64 - 1 - size % 4 + 1) % 2 ^ 64)) (omega arith)
