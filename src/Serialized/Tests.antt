-- ===== src/Serialized/Tests.antt =====
-- Runs of the buffer of items, with an allocator that always has memory.
use cuckoofs.Base.{
  ℕ, zero, suc, ◌+◌, ◌==◌, ltb, if◌then◌else◌, ◌-◌, true, false, ◌≡◌, refl, arith, Option, none,
  some, [], ◌∷◌, ◌<◌, ◌^◌,
}
use cuckoofs.Serialized.{
  SerializedData, Memory, done, refused, looping, undefined, apply_for_segment, append, align,
  next_several_item_size, convert_endian, double_until, scan_items, enlarge, byte, write_size,
  new_buffer, store32, load32,
}
use cuckoofs.Serialized.Items.{bytes, IsValid, IsChain, next_several_item_size_lem}
use cuckoofs.Serialized.Segment.{KeepsBytes}
use cuckoofs.Serialized.Append.{IsAdded, IsAppended, apply_for_segment-IsAdded, append-IsAppended}
use cuckoofs.Serialized.Limits.{empty_buffer, apply_for_segment_loops, apply_for_segment_wraps}

abbrev always : ℕ → Option Memory
always n = some (λ j. 0)

abbrev in_place : ℕ → Memory → ℕ → Option Memory
in_place old m n = some m

in_place-KeepsBytes : KeepsBytes in_place
in_place-KeepsBytes old m n m' e j lt lt' = cc

-- A buffer that is full with one item of four bytes, each 7.
abbrev one_item : SerializedData
one_item = record {
  buffer = some (λ j. if j == 0 then 4 else if ltb j 4 then 0 else 7);
  size = 8;
  capacity = 8;
  has_manager = true;
}

one_item-IsValid : IsValid one_item
one_item-IsValid = (omega arith, omega arith, refl, λ e. absurd cc)

header_4 : (i : ℕ) → i < 4 → bytes one_item (0 + i) ≡ byte 4 i
header_4 zero lt = refl
header_4 (suc zero) lt = refl
header_4 (suc (suc zero)) lt = refl
header_4 (suc (suc (suc zero))) lt = refl
header_4 (suc (suc (suc (suc i)))) lt = absurd (omega arith)

one_item-IsChain : IsChain (bytes one_item) 0 (4 ∷ []) 8
unfolding IsChain
one_item-IsChain = (header_4, refl, omega arith, refl)

swapped : convert_endian 0x01020304 ≡ 0x04030201
unfolding convert_endian
swapped = refl

aligned_5 : align 5 ≡ 8
unfolding align
aligned_5 = refl

-- A segment in an empty buffer, and the walk over it.
abbrev after_5 : Option ℕ
after_5 = elim (apply_for_segment always in_place false 32 empty_buffer 5) [
  | done sd p ↦ next_several_item_size true sd 0 1
  | refused ↦ none
  | looping ↦ none
  | undefined ↦ none
]

after_5_lem : after_5 ≡ some 12
unfolding apply_for_segment enlarge double_until new_buffer write_size next_several_item_size
    scan_items align load32 store32 convert_endian
after_5_lem = refl

next_several_item_size_lem_example : next_several_item_size false one_item 0 1 ≡ some 8
next_several_item_size_lem_example =
    next_several_item_size_lem false one_item 0 (4 ∷ []) 8 one_item-IsValid one_item-IsChain refl
      (omega arith)

apply_for_segment-IsAdded_example :
    IsAdded always in_place one_item
      (4 ∷ [])
      8
      (apply_for_segment always in_place true 32 one_item 5)
apply_for_segment-IsAdded_example =
    apply_for_segment-IsAdded always in_place in_place-KeepsBytes true one_item (4 ∷ []) 5
      (one_item-IsValid, one_item-IsChain) (omega arith)

append-IsAppended_example :
    IsAppended always in_place one_item one_item
      (4 ∷ 4 ∷ [])
      (append always in_place 32 one_item one_item)
append-IsAppended_example =
    append-IsAppended always in_place in_place-KeepsBytes one_item one_item (4 ∷ []) (4 ∷ [])
      (one_item-IsValid, one_item-IsChain) (one_item-IsValid, one_item-IsChain) (omega arith)

apply_for_segment_loops_example :
    apply_for_segment always in_place true 1000 empty_buffer (2 ^ 31) ≡ looping
apply_for_segment_loops_example =
    apply_for_segment_loops always in_place true 1000 (2 ^ 31) (omega arith) (omega arith)

apply_for_segment_wraps_example :
    apply_for_segment always in_place true 32 one_item (2 ^ 32 - 8) ≡ undefined
apply_for_segment_wraps_example =
    apply_for_segment_wraps always in_place true 32 one_item (2 ^ 32 - 8) one_item-IsValid refl
      (omega arith) (omega arith)
