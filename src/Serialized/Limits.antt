-- ===== src/Serialized/Limits.antt =====
-- Where the 32-bit sizes of the buffer are too small, and where a load leaves it.
use cuckoofs.Base.{
  ℕ, suc, ◌+◌, ◌-◌, ◌*◌, ◌/◌, ◌^◌, ◌<◌, ◌≤◌, Bool, true, false, ◌≡◌, refl, arith, inl, inr, leb,
  Option, none, u32, Option-cases,
}
use cuckoofs.Serialized.{
  SerializedData, Memory, looping, undefined, enlarge, apply_for_segment, write_size,
  next_several_item_size, scan_items,
}
use cuckoofs.Serialized.Endian.{and_low}
use cuckoofs.Serialized.Grow.{double_until_stuck, align_lem}
use cuckoofs.Serialized.Items.{IsValid}

abbrev pub empty_buffer : SerializedData
empty_buffer = record { buffer = none; size = 0; capacity = 0; has_manager = true }

module _ (alloc : ℕ → Option Memory) (realloc : ℕ → Memory → ℕ → Option Memory) where
  -- On an empty buffer, a request that makes more than 2^31 bytes with its header, and is of at most
  -- 2^32 - 8 bytes, is not refused: the doubled capacity wraps to 0, and no number of rounds ends the loop.
  pub apply_for_segment_loops :
      (little : Bool) (fuel requested : ℕ)
      → 2 ^ 31 - 4 < requested
      → requested ≤ 2 ^ 32 - 8
      → apply_for_segment alloc realloc little fuel empty_buffer requested ≡ looping
  unfolding apply_for_segment enlarge
  apply_for_segment_loops little fuel requested more le =
      let size = (requested + 3) / 4 * 4 in
      let total : u32 (0 + 4 + size) ≡ 4 + size = omega arith in
      let lacks : leb (4 + size) 0 ≡ false = ground arith in
      let stuck = double_until_stuck fuel 128 (4 + size) (omega arith) (inr (24, refl)) in
      rw (align_lem requested (omega arith), total, lacks, stuck) refl

  -- On a full buffer, a request that with the data and its header makes 2^32 bytes or more, and is of at
  -- most 2^32 - 4 bytes, is not refused: the sum wraps, the buffer counts as large enough, and the header is stored behind its end.
  pub apply_for_segment_wraps :
      (little : Bool) (fuel : ℕ) (sd : SerializedData) (requested : ℕ)
      → IsValid sd
      → sd.size ≡ sd.capacity
      → requested ≤ 2 ^ 32 - 4
      → 2 ^ 32 - 4 - sd.size ≤ requested
      → apply_for_segment alloc realloc little fuel sd requested ≡ undefined
  unfolding apply_for_segment enlarge write_size
  apply_for_segment_wraps little fuel sd requested valid full le more =
      let size = (requested + 3) / 4 * 4 in
      let wrapped : u32 (sd.size + 4 + size) ≡ sd.size + 4 + size - 2 ^ 32 =
        omega (arith, valid.1, valid.2) in
      let enough : leb (sd.size + 4 + size - 2 ^ 32) sd.capacity ≡ true = ground (arith, valid.1) in
      let behind : leb (sd.size + 4) sd.capacity ≡ false = ground arith in
      rw (align_lem requested le, wrapped, enough)
        (elim (Option-cases sd.buffer) [
          | inl null ↦ rw null refl
          | inr (m, there) ↦ rw (there, behind) refl
        ])

-- To ask for items behind the data of a full buffer is not answered with the error value: the size of
-- the first is loaded from behind the buffer before any comparison with the end of the data.
pub next_several_item_size_outside :
    (little : Bool) (sd : SerializedData) (item_count : ℕ)
    → IsValid sd
    → sd.size ≡ sd.capacity
    → next_several_item_size little sd sd.size (suc item_count) ≡ none
unfolding next_several_item_size scan_items
next_several_item_size_outside little sd item_count valid full = elim (Option-cases sd.buffer) [
  | inl null ↦ rw null (ground (arith, and_low 2 sd.size, valid.2))
  | inr (m, there) ↦ rw there (ground (arith, and_low 2 sd.size, valid.2))
]
