-- ===== src/Allocator/Free.antt =====
-- CuckooShmemAllocatorFree undoes CuckooShmemAllocatorMalloc.
use cuckoofs.Base.{
  ℕ, zero, suc, ◌+◌, ◌-◌, ◌*◌, ◌/◌, ◌^◌, ◌≤◌, ◌<◌, bit_and, ◌≡◌, ◌≢◌, refl, ap, ap₂, inl, inr, ◌∙◌,
  true, false, not, ◌&&◌, ◌||◌, arith, ◌==◌, ltb, length, get_or, set, get_or-set_self, set-set,
  set-get_or, not64, u32, u64, sub64,
}
use cuckoofs.Base.Bits.{test_bit-and, test_bit-complement, test_bit-ext, and-lt}
use cuckoofs.Allocator.{
  Allocator, Offer, malloc, free, required_size, level_of, occupy_at, ctz64, max_alloc_size,
  min_alloc_size, hdr_size, page_size, min_block_size,
}
use cuckoofs.Allocator.Bitmap.{width}
use cuckoofs.Allocator.Page.{IsOffer, width_bounds, occupied_bit, unused_bit}
use cuckoofs.Allocator.Sizes.{IsClass, required_size-IsClass}
use cuckoofs.Allocator.Malloc.{IsAllocator, Given, malloc_lem}

-- Taking the bits of an offer out of the bitmap that it was stored in leaves the old bitmap.
IsOffer-undo :
    (level x : ℕ) (o : Offer)
    → level < 7
    → x < 2 ^ 64
    → IsOffer level x o
    → bit_and o.desired (not64 (u64 (occupy_at level * 2 ^ o.block))) ≡ x
IsOffer-undo level x o small fits off =
    test_bit-ext 64 _ x (and-lt 64 _ _ (omega arith)) fits (λ i lt.
      test_bit-and i o.desired _
      ∙ ap₂ ◌&&◌ (off.stored i lt) (
          test_bit-complement 64 (u64 (occupy_at level * 2 ^ o.block)) i (omega arith) lt
          ∙ ap not (occupied_bit level o.block i small off.placed lt))
      ∙ ground (arith, unused_bit x o.block (width level) i off.unused))

size_of_level :
    (level : ℕ)
    → level < 7
    → (2 ^ (20 - level) ≡ max_alloc_size / 2 ^ level)
      × (min_alloc_size ≤ 2 ^ (20 - level))
      × (2 ^ (20 - level) ≤ max_alloc_size)
size_of_level zero h = omega arith
size_of_level (suc zero) h = omega arith
size_of_level (suc (suc zero)) h = omega arith
size_of_level (suc (suc (suc zero))) h = omega arith
size_of_level (suc (suc (suc (suc zero)))) h = omega arith
size_of_level (suc (suc (suc (suc (suc zero))))) h = omega arith
size_of_level (suc (suc (suc (suc (suc (suc zero)))))) h = omega arith
size_of_level (suc (suc (suc (suc (suc (suc (suc level))))))) h = absurd (omega arith)

module _ (a : Allocator) (valid : IsAllocator a) (size : ℕ)
    (fits : size ≤ max_alloc_size - hdr_size) (a' : Allocator) (r : ℕ) (g : Given a size a' r) where
  open g use {page_no, offer, offered, place, bitmaps}

  abbrev required : ℕ
  required = required_size size

  abbrev level : ℕ
  level = level_of (required_size size)

  abbrev shift : ℕ
  shift = page_size * page_no + min_block_size * offer.block

  class : IsClass size required level
  class = required_size-IsClass size fits

  room : (offer.block < 64) × (page_no < 4096)
  room =
      omega (arith, offered.placed, width_bounds level class.level_lt, g.in_range, valid.few_pages)

  shift_eq : sub64 r hdr_size ≡ shift
  shift_eq = omega (arith, place, room)

  cap_eq : (a'.headers shift).capacity ≡ required
  cap_eq = ap (λ h. h.capacity) g.header

  level_eq : ctz64 max_alloc_size - ctz64 required ≡ level
  unfolding level_of
  level_eq = refl

  page_eq : shift / page_size ≡ page_no
  page_eq = omega (arith, room)

  block_eq : u32 (sub64 (shift / min_block_size) (page_no * 64)) ≡ offer.block
  block_eq = omega (arith, room)

  in_range : (ltb required min_alloc_size || ltb max_alloc_size required) ≡ false
  in_range = ground (arith, class.power, size_of_level level class.level_lt)

  power : (required == max_alloc_size / 2 ^ level) ≡ true
  power = ground (arith, class.power, size_of_level level class.level_lt)

  restored :
      set a'.page_cntl page_no
        (bit_and (get_or a'.page_cntl page_no 0) (not64 (u64 (occupy_at level * 2 ^ offer.block))))
      ≡ a.page_cntl
  restored = rw bitmaps (
      rw (get_or-set_self a.page_cntl page_no offer.desired 0 listed, set-set)
        (rw (IsOffer-undo level _ offer class.level_lt (valid.bitmaps_fit page_no) offered)
          (set-get_or a.page_cntl page_no 0)))
    where
      listed : page_no < length a.page_cntl
      listed = omega (arith, valid.pages_listed, g.in_range)

  free-given : (free a' r).page_cntl ≡ a.page_cntl
  unfolding free
  free-given =
      rw (shift_eq, cap_eq) (rw (level_eq, page_eq, block_eq) (rw (in_range, power) restored))

-- For an allocator of at most 4096 pages and a request of at most 2^20 - 24 bytes that got a place,
-- releasing that place at once gives every page the bitmap that it had before the request.
pub free-malloc :
    (a : Allocator)
    → IsAllocator a
    → (size : ℕ) → size ≤ max_alloc_size - hdr_size
    → (malloc a size).1 ≢ 0
    → (free (malloc a size).0 (malloc a size).1).page_cntl ≡ a.page_cntl
free-malloc a valid size fits got = elim (malloc_lem a valid size fits) [
  | inl given ↦ free-given a valid size fits (malloc a size).0 (malloc a size).1 given
  | inr (refused, full) ↦ absurd (got (ap (λ (r : Allocator × ℕ). r.1) refused))
]
