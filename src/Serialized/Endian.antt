-- ===== src/Serialized/Endian.antt =====
-- The size field of an item: swapping the bytes of a word, and what is stored in either byte order.
use cuckoofs.Base.{
  ℕ, zero, suc, ◌+◌, ◌-◌, ◌*◌, ◌/◌, ◌%◌, ◌^◌, ◌<◌, ◌≤◌, bit_and, bit_or, Bool, true, false, ◌≡◌, ap,
  ap₂, ◌∙◌, arith, ◌⊎◌, if◌then◌else◌,
}
use cuckoofs.Base.Bits.{and_split, or_split, and_mask, and-zero, or-zero, zero-or, two_pow_pos}
use cuckoofs.Serialized.{byte, convert_endian, store32, load32, Memory, get_size, put_size}

-- A mask of `k` ones keeps the low bits of any number.
pub and_low : (k a : ℕ) → bit_and a (2 ^ k - 1) ≡ a % 2 ^ k
and_low k a =
    let pos = two_pow_pos k in
    let lt : a % 2 ^ k < 2 ^ k = omega (arith, pos) in
    let fields : a ≡ a % 2 ^ k + 2 ^ k * (a / 2 ^ k) = omega (arith, pos) in
    let mask : 2 ^ k - 1 ≡ 2 ^ k - 1 + 2 ^ k * 0 = omega arith in
    ap₂ bit_and fields mask
    ∙ and_split k (a % 2 ^ k) (a / 2 ^ k) (2 ^ k - 1) 0 lt (omega (arith, pos))
    ∙ omega (arith, and_mask k (a % 2 ^ k) lt, ap (λ (t : ℕ). 2 ^ k * t) (and-zero (a / 2 ^ k)))

-- A field of `w` bits from bit `k` on.
and_field : (k w a : ℕ) → bit_and a (0 + 2 ^ k * (2 ^ w - 1)) ≡ 2 ^ k * (a / 2 ^ k % 2 ^ w)
and_field k w a =
    let pos = two_pow_pos k in
    let lt : a % 2 ^ k < 2 ^ k = omega (arith, pos) in
    let fields : a ≡ a % 2 ^ k + 2 ^ k * (a / 2 ^ k) = omega (arith, pos) in
    ap (λ (t : ℕ). bit_and t (0 + 2 ^ k * (2 ^ w - 1))) fields
    ∙ and_split k (a % 2 ^ k) (a / 2 ^ k) 0 (2 ^ w - 1) lt pos
    ∙ omega (arith, and-zero (a % 2 ^ k), ap (λ (t : ℕ). 2 ^ k * t) (and_low w (a / 2 ^ k)))

-- Numbers with no common digit are added by an or.
or_disjoint : (k a b : ℕ) → a < 2 ^ k → bit_or a (2 ^ k * b) ≡ a + 2 ^ k * b
or_disjoint k a b lt =
    let low : a ≡ a + 2 ^ k * 0 = omega arith in
    let high : 2 ^ k * b ≡ 0 + 2 ^ k * b = omega arith in
    ap₂ bit_or low high
    ∙ or_split k a 0 0 b lt (two_pow_pos k)
    ∙ omega (arith, or-zero a, ap (λ (t : ℕ). 2 ^ k * t) (zero-or b))

-- The result of the swap, by the four bytes of the argument.
pub convert_endian_bytes :
    (v : ℕ) → convert_endian v ≡ byte v 3 + 2 ^ 8 * byte v 2 + 2 ^ 16 * byte v 1 + 2 ^ 24 * byte v 0
unfolding convert_endian
convert_endian_bytes v =
    let a : bit_and v 0xFF000000 / 2 ^ 24 ≡ byte v 3 = omega (arith, and_field 24 8 v) in
    let b : bit_and v 0x00FF0000 / 2 ^ 8 ≡ 2 ^ 8 * byte v 2 = omega (arith, and_field 16 8 v) in
    let c : bit_and v 0x0000FF00 * 2 ^ 8 % 2 ^ 32 ≡ 2 ^ 16 * byte v 1 =
      omega (arith, and_field 8 8 v) in
    let d : bit_and v 0x000000FF * 2 ^ 24 % 2 ^ 32 ≡ 2 ^ 24 * byte v 0 =
      omega (arith, and_field 0 8 v) in
    rw (a, b, c, d)
      (rw (or_disjoint 8 (byte v 3) (byte v 2) (omega arith)) (
        rw (or_disjoint 16 (byte v 3 + 2 ^ 8 * byte v 2) (byte v 1) (omega arith)) (
          or_disjoint 24 (byte v 3 + 2 ^ 8 * byte v 2 + 2 ^ 16 * byte v 1) (byte v 0)
            (omega arith))))

byte-convert_endian : (v i : ℕ) → i < 4 → byte (convert_endian v) i ≡ byte v (3 - i)
byte-convert_endian v zero lt = omega (arith, convert_endian_bytes v)
byte-convert_endian v (suc zero) lt = omega (arith, convert_endian_bytes v)
byte-convert_endian v (suc (suc zero)) lt = omega (arith, convert_endian_bytes v)
byte-convert_endian v (suc (suc (suc zero))) lt = omega (arith, convert_endian_bytes v)
byte-convert_endian v (suc (suc (suc (suc i)))) lt = absurd (omega arith)

-- Swapping the bytes of a 32-bit word twice gives the word.
pub convert_endian_involutive : (v : ℕ) → v < 2 ^ 32 → convert_endian (convert_endian v) ≡ v
convert_endian_involutive v lt = omega (
  arith,
  convert_endian_bytes (convert_endian v),
  byte-convert_endian v 0 (omega arith),
  byte-convert_endian v 1 (omega arith),
  byte-convert_endian v 2 (omega arith),
  byte-convert_endian v 3 (omega arith),
)

store32_inside :
    (little : Bool) (m : Memory) (at value i : ℕ)
    → i < 4
    → store32 little m at value (at + i) ≡ byte value (if little then i else 3 - i)
unfolding store32
store32_inside little m at value i lt =
    let offset : at + i - at ≡ i = omega arith in rw offset (ground arith)

store32_outside :
    (little : Bool) (m : Memory) (at value j : ℕ)
    → (j < at) ⊎ (at + 4 ≤ j)
    → store32 little m at value j ≡ m j
unfolding store32
store32_outside little m at value j out = ground arith

-- A machine of either byte order stores the size of an item with its least byte first, and touches
-- no other byte.
pub put_size-IsLittleEndian :
    (little : Bool) (m : Memory) (at size : ℕ)
    → ((i : ℕ) → i < 4 → put_size little m at size (at + i) ≡ byte size i)
      × ((j : ℕ) → (j < at) ⊎ (at + 4 ≤ j) → put_size little m at size j ≡ m j)
put_size-IsLittleEndian true m at size =
    ((λ i lt. store32_inside true m at size i lt), (λ j out. store32_outside true m at size j out))
put_size-IsLittleEndian false m at size = (
  (λ i lt.
      let back : 3 - (3 - i) ≡ i = omega arith in
      store32_inside false m at (convert_endian size) i lt
      ∙ byte-convert_endian size (3 - i) (omega arith)
      ∙ ap (byte size) back),
  (λ j out. store32_outside false m at (convert_endian size) j out),
)

-- A machine of either byte order reads a size that is stored with its least byte first.
pub get_size_bytes :
    (little : Bool) (m : Memory) (at size : ℕ)
    → size < 2 ^ 32
    → ((i : ℕ) → i < 4 → m (at + i) ≡ byte size i)
    → get_size little m at ≡ size
unfolding load32
get_size_bytes little m at size lt stored = elim little as (λ b. get_size b m at ≡ size) [
  | true ↦
      omega (arith, first, stored 1 (omega arith), stored 2 (omega arith), stored 3 (omega arith))
  | false ↦ ap convert_endian swapped ∙ convert_endian_involutive size lt
]
  where
    first : m at ≡ byte size 0
    first = ap m (omega arith) ∙ stored 0 (omega arith)

    swapped :
        m (at + 3) + 2 ^ 8 * m (at + 2) + 2 ^ 16 * m (at + 1) + 2 ^ 24 * m at ≡ convert_endian size
    swapped = omega (
      arith,
      convert_endian_bytes size,
      first,
      stored 1 (omega arith),
      stored 2 (omega arith),
      stored 3 (omega arith),
    )

-- What a machine of either byte order has stored as the size of an item, one of either byte order
-- reads back, for a size below 2^32.
pub get_size-put_size :
    (writer reader : Bool) (m : Memory) (at size : ℕ)
    → size < 2 ^ 32
    → get_size reader (put_size writer m at size) at ≡ size
get_size-put_size writer reader m at size lt =
    get_size_bytes reader (put_size writer m at size) at size lt
      ((put_size-IsLittleEndian writer m at size).0)
