-- ===== src/Base/Bits.antt =====
-- The bit operations at variables: one digit at a time, and split at a bit position.
use Prim.Native.Nat.{
  ℕ, zero, suc, ◌+◌, ◌-◌, ◌*◌, ◌/◌, ◌%◌, ◌^◌, ◌≤◌, ◌<◌, min, max, digits, bit_and, bit_or,
  bit_and-bitwise, bit_or-bitwise,
}
use mathlib.Core.Path.{◌≡◌, refl, sym, ap, ap₂, ◌∙◌}
use mathlib.Core.Bool.{Bool, true, false, not, ◌&&◌, ◌||◌}
use cuckoofs.Base.Tests.{◌==◌, if◌then◌else◌}
use native.Mathlib.Nat.{pow-suc, mod-lt, div-add-mod, le_refl, div-div-eq-div-mul, mul-div_cancel}
use native.Mathlib.Omega.{arith}

-- The digit recursion on fuel: any fuel that covers the first argument gives one result.
digits_steady :
    (rest : ℕ → ℕ) (join : ℕ → ℕ → ℕ) (fuel fuel' x y : ℕ)
    → x ≤ fuel
    → x ≤ fuel'
    → digits rest join fuel x y ≡ digits rest join fuel' x y
digits_steady rest join zero zero zero y h h' = refl
digits_steady rest join zero zero (suc x) y h h' = absurd (omega arith)
digits_steady rest join zero (suc fuel') zero y h h' = refl
digits_steady rest join zero (suc fuel') (suc x) y h h' = absurd (omega arith)
digits_steady rest join (suc fuel) zero zero y h h' = refl
digits_steady rest join (suc fuel) zero (suc x) y h h' = absurd (omega arith)
digits_steady rest join (suc fuel) (suc fuel') zero y h h' = refl
digits_steady rest join (suc fuel) (suc fuel') (suc x) y h h' =
    let half = suc x / 2 in
    let steady = digits_steady rest join fuel fuel' half (y / 2) (omega arith) (omega arith) in
    omega (arith, steady)

pub and_step : (a b : ℕ) → bit_and a b ≡ bit_and (a / 2) (b / 2) * 2 + min (a % 2) (b % 2)
and_step zero b = omega (arith, bit_and-bitwise 0 b, bit_and-bitwise 0 (b / 2))
and_step (suc a) b =
    let half = suc a / 2 in
    let steady = digits_steady (λ _. 0) min a half half (b / 2) (omega arith) (omega arith) in
    omega (arith, bit_and-bitwise (suc a) b, bit_and-bitwise half (b / 2), steady)

pub or_step : (a b : ℕ) → bit_or a b ≡ bit_or (a / 2) (b / 2) * 2 + max (a % 2) (b % 2)
or_step zero b = omega (arith, bit_or-bitwise 0 b, bit_or-bitwise 0 (b / 2))
or_step (suc a) b =
    let half = suc a / 2 in
    let steady = digits_steady (λ c. c) max a half half (b / 2) (omega arith) (omega arith) in
    omega (arith, bit_or-bitwise (suc a) b, bit_or-bitwise half (b / 2), steady)

-- `bit_and a 0` and `bit_or a 0`, by the fuel `n` that bounds `a`.
and_zero_below : (n a : ℕ) → a ≤ n → bit_and a 0 ≡ 0
and_zero_below n zero h = refl
and_zero_below zero (suc a) h = absurd (omega arith)
and_zero_below (suc n) (suc a) h =
    omega (arith, and_step (suc a) 0, and_zero_below n (suc a / 2) (omega arith))

or_zero_below : (n a : ℕ) → a ≤ n → bit_or a 0 ≡ a
or_zero_below n zero h = refl
or_zero_below zero (suc a) h = absurd (omega arith)
or_zero_below (suc n) (suc a) h =
    omega (arith, or_step (suc a) 0, or_zero_below n (suc a / 2) (omega arith))

pub and-zero : (a : ℕ) → bit_and a 0 ≡ 0
and-zero a = and_zero_below a a (le_refl a)

pub or-zero : (a : ℕ) → bit_or a 0 ≡ a
or-zero a = or_zero_below a a (le_refl a)

pub zero-and : (b : ℕ) → bit_and 0 b ≡ 0
zero-and b = simp bit_and-bitwise

pub zero-or : (b : ℕ) → bit_or 0 b ≡ b
zero-or b = simp bit_or-bitwise

pub two_pow_suc_mul : (k b : ℕ) → 2 ^ suc k * b ≡ 2 * (2 ^ k * b)
two_pow_suc_mul k b = omega (arith, ap (λ (t : ℕ). t * b) (pow-suc 2 k))

-- A number with `k` low bits: its half, and its lowest bit.
half_field : (k a b : ℕ) → (a + 2 ^ suc k * b) / 2 ≡ a / 2 + 2 ^ k * b
half_field k a b = omega (arith, two_pow_suc_mul k b)

odd_field : (k a b : ℕ) → (a + 2 ^ suc k * b) % 2 ≡ a % 2
odd_field k a b = omega (arith, two_pow_suc_mul k b)

-- The low `k` bits and the bits above them go their own ways.
pub and_split :
    (k a b c d : ℕ)
    → a < 2 ^ k
    → c < 2 ^ k
    → bit_and (a + 2 ^ k * b) (c + 2 ^ k * d) ≡ bit_and a c + 2 ^ k * bit_and b d
and_split zero a b c d h g = ground (arith, zero-and 0)
and_split (suc k) a b c d h g =
    rw (and_step (a + 2 ^ suc k * b) (c + 2 ^ suc k * d), half_field k a b, half_field k c d)
      (rw (odd_field k a b, odd_field k c d, and_split k (a / 2) b (c / 2) d half_lt half_lt')
        (omega (arith, two_pow_suc_mul k (bit_and b d), and_step a c)))
  where
    half_lt : a / 2 < 2 ^ k
    half_lt = omega (arith, pow-suc 2 k)

    half_lt' : c / 2 < 2 ^ k
    half_lt' = omega (arith, pow-suc 2 k)

pub or_split :
    (k a b c d : ℕ)
    → a < 2 ^ k
    → c < 2 ^ k
    → bit_or (a + 2 ^ k * b) (c + 2 ^ k * d) ≡ bit_or a c + 2 ^ k * bit_or b d
or_split zero a b c d h g = ground (arith, zero-or 0)
or_split (suc k) a b c d h g =
    rw (or_step (a + 2 ^ suc k * b) (c + 2 ^ suc k * d), half_field k a b, half_field k c d)
      (rw (odd_field k a b, odd_field k c d, or_split k (a / 2) b (c / 2) d half_lt half_lt')
        (omega (arith, two_pow_suc_mul k (bit_or b d), or_step a c)))
  where
    half_lt : a / 2 < 2 ^ k
    half_lt = omega (arith, pow-suc 2 k)

    half_lt' : c / 2 < 2 ^ k
    half_lt' = omega (arith, pow-suc 2 k)

-- Bit `i` of a word.
abbrev pub test_bit : ℕ → ℕ → Bool
test_bit x zero = if x % 2 == 1 then true else false
test_bit x (suc i) = test_bit (x / 2) i

pub test_bit-and : (i a b : ℕ) → test_bit (bit_and a b) i ≡ (test_bit a i && test_bit b i)
test_bit-and zero a b = ground (arith, and_step a b)
test_bit-and (suc i) a b = rw half_and (test_bit-and i (a / 2) (b / 2))
  where
    half_and : bit_and a b / 2 ≡ bit_and (a / 2) (b / 2)
    half_and = omega (arith, and_step a b)

pub test_bit-or : (i a b : ℕ) → test_bit (bit_or a b) i ≡ (test_bit a i || test_bit b i)
test_bit-or zero a b = ground (arith, or_step a b)
test_bit-or (suc i) a b = rw half_or (test_bit-or i (a / 2) (b / 2))
  where
    half_or : bit_or a b / 2 ≡ bit_or (a / 2) (b / 2)
    half_or = omega (arith, or_step a b)

-- `x >> s` moves bit `s + i` to bit `i`.
pub test_bit-shr : (s x i : ℕ) → test_bit (x / 2 ^ s) i ≡ test_bit x (s + i)
test_bit-shr zero x i = ap₂ test_bit div_one zero_add
  where
    div_one : x / 2 ^ 0 ≡ x
    div_one = omega arith

    zero_add : i ≡ 0 + i
    zero_add = omega arith
test_bit-shr (suc s) x i = ap (λ (y : ℕ). test_bit y i) halves ∙ test_bit-shr s (x / 2) i ∙ shift
  where
    double : 2 * 2 ^ s ≡ 2 ^ suc s
    double = omega (arith, pow-suc 2 s)

    halves : x / 2 ^ suc s ≡ x / 2 / 2 ^ s
    halves = ap (λ (y : ℕ). x / y) (sym double) ∙ sym (div-div-eq-div-mul x 2 (2 ^ s))

    add_suc : suc (s + i) ≡ suc s + i
    add_suc = omega arith

    shift : test_bit (x / 2) (s + i) ≡ test_bit x (suc s + i)
    shift = ap (test_bit x) add_suc

pub two_pow_pos : (k : ℕ) → 0 < 2 ^ k
two_pow_pos zero = omega arith
two_pow_pos (suc k) = omega (arith, pow-suc 2 k, two_pow_pos k)

-- Words that agree at each bit are one.
pub test_bit-ext :
    (n a b : ℕ) → a < 2 ^ n → b < 2 ^ n → ((i : ℕ) → i < n → test_bit a i ≡ test_bit b i) → a ≡ b
test_bit-ext zero a b h g same = omega arith
test_bit-ext (suc n) a b h g same = ground (
  arith,
  same 0 (omega arith),
  test_bit-ext n (a / 2) (b / 2) (omega (arith, pow-suc 2 n)) (omega (arith, pow-suc 2 n))
      (λ i lt. same (suc i) (omega arith)),
)

-- The bits of a sum of two fields.
pub test_bit-low : (k a b i : ℕ) → a < 2 ^ k → i < k → test_bit (a + 2 ^ k * b) i ≡ test_bit a i
test_bit-low zero a b i h lt = absurd (omega arith)
test_bit-low (suc k) a b zero h lt = rw (odd_field k a b)
test_bit-low (suc k) a b (suc i) h lt =
    rw (half_field k a b) (test_bit-low k (a / 2) b i (omega (arith, pow-suc 2 k)) (omega arith))

pub test_bit-zero : (i : ℕ) → test_bit 0 i ≡ false
test_bit-zero zero = refl
test_bit-zero (suc i) = test_bit-zero i

-- `x << s` clears the low bits and moves bit `i` to bit `s + i`.
pub test_bit-shl_low : (s x i : ℕ) → i < s → test_bit (x * 2 ^ s) i ≡ false
test_bit-shl_low s x i lt =
    ap (λ (y : ℕ). test_bit y i) fields ∙ test_bit-low s 0 x i (two_pow_pos s) lt ∙ test_bit-zero i
  where
    fields : x * 2 ^ s ≡ 0 + 2 ^ s * x
    fields = omega arith

pub test_bit-shl : (s x i : ℕ) → test_bit (x * 2 ^ s) (s + i) ≡ test_bit x i
test_bit-shl s x i = sym (test_bit-shr s (x * 2 ^ s) i) ∙ ap (λ (y : ℕ). test_bit y i) back
  where
    back : x * 2 ^ s / 2 ^ s ≡ x
    back = mul-div_cancel x (two_pow_pos s)

-- A mask of `k` ones keeps a number of `k` bits.
pub and_mask : (k a : ℕ) → a < 2 ^ k → bit_and a (2 ^ k - 1) ≡ a
and_mask zero a h = rw and-zero (omega arith)
and_mask (suc k) a h = omega (
  arith,
  pow-suc 2 k,
  two_pow_pos k,
  and_step a (2 ^ suc k - 1),
  ap (bit_and (a / 2)) half_mask,
  and_mask k (a / 2) (omega (arith, pow-suc 2 k)),
)
  where
    half_mask : (2 ^ suc k - 1) / 2 ≡ 2 ^ k - 1
    half_mask = omega (arith, pow-suc 2 k, two_pow_pos k)

-- The complement in `n` bits.
pub test_bit-complement :
    (n y i : ℕ) → y < 2 ^ n → i < n → test_bit (2 ^ n - 1 - y) i ≡ not (test_bit y i)
test_bit-complement zero y i h lt = absurd (omega arith)
test_bit-complement (suc n) y zero h lt = ground (arith, pow-suc 2 n, two_pow_pos n)
test_bit-complement (suc n) y (suc i) h lt =
    rw half (test_bit-complement n (y / 2) i (omega (arith, pow-suc 2 n)) (omega arith))
  where
    half : (2 ^ suc n - 1 - y) / 2 ≡ 2 ^ n - 1 - y / 2
    half = omega (arith, pow-suc 2 n, two_pow_pos n)

pub and-lt : (n a b : ℕ) → b < 2 ^ n → bit_and a b < 2 ^ n
and-lt zero a b h = let none : b ≡ 0 = omega arith in rw none (omega (arith, and-zero a))
and-lt (suc n) a b h =
    omega (arith, pow-suc 2 n, and_step a b, and-lt n (a / 2) (b / 2) (omega (arith, pow-suc 2 n)))

pub or-lt : (n a b : ℕ) → a < 2 ^ n → b < 2 ^ n → bit_or a b < 2 ^ n
or-lt zero a b ha hb = let none : b ≡ 0 = omega arith in rw none (omega (arith, or-zero a))
or-lt (suc n) a b ha hb = omega (
  arith,
  pow-suc 2 n,
  or_step a b,
  or-lt n (a / 2) (b / 2) (omega (arith, pow-suc 2 n)) (omega (arith, pow-suc 2 n)),
)

-- A cast to `k` bits keeps the bits below `k`.
pub test_bit-mod : (k x i : ℕ) → i < k → test_bit (x % 2 ^ k) i ≡ test_bit x i
test_bit-mod k x i lt =
    sym (test_bit-low k (x % 2 ^ k) (x / 2 ^ k) i (mod-lt x (two_pow_pos k)) lt)
    ∙ ap (λ (y : ℕ). test_bit y i) (omega (arith, div-add-mod x (2 ^ k)))
