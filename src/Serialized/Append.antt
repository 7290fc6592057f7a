-- ===== src/Serialized/Append.antt =====
-- Buffers as lists of items: what SerializedDataApplyForSegment and SerializedDataAppend add to it, and
-- what SerializedDataNextSeveralItemSize finds of it.
use cuckoofs.Base.{
  ℕ, ◌+◌, ◌-◌, ◌*◌, ◌/◌, ◌^◌, ◌<◌, ◌≤◌, Bool, true, ◌≡◌, refl, ap, ◌∙◌, arith, inl, inr, leb,
  Option, some, u32, List, [], ◌∷◌, ◌++◌, length, Option-cases, ◌==◌,
}
use cuckoofs.Serialized.{
  SerializedData, Memory, Result, done, refused, looping, undefined, apply_for_segment, append,
  copy_items, copy, when_done, next_several_item_size,
}
use cuckoofs.Serialized.Items.{
  bytes, IsValid, IsChain, IsChain-shift, IsChain-append, next_several_item_size_lem,
}
use cuckoofs.Serialized.Segment.{
  KeepsBytes, CannotGrow, IsEnlarged, enlarge-IsEnlarged, IsSegment, apply_for_segment-IsSegment,
}

-- A valid buffer whose data are items of the given sizes.
abbrev pub Holds : SerializedData → List ℕ → Type 0
Holds sd ss = IsValid sd × IsChain (bytes sd) 0 ss sd.size

copy-below : (m : Memory) (at : ℕ) (src : Memory) (n j : ℕ) → j < at → copy m at src n j ≡ m j
unfolding copy
copy-below m at src n j lt = ground arith

copy-inside :
    (m : Memory) (at : ℕ) (src : Memory) (n j : ℕ) → j < n → copy m at src n (at + j) ≡ src j
unfolding copy
copy-inside m at src n j lt = let offset : at + j - at ≡ j = omega arith in rw offset (ground arith)

-- What the copy makes of the enlarged buffer.
abbrev IsCopied : SerializedData → SerializedData → SerializedData → Type 0
IsCopied larger src c =
    IsValid c
    × (c.size ≡ larger.size + src.size)
    × ((j : ℕ) → j < larger.size → bytes c j ≡ bytes larger j)
    × ((j : ℕ) → j < src.size → bytes c (larger.size + j) ≡ bytes src j)

-- Nothing is copied when there is nothing to copy.
copy-empty :
    (larger src : SerializedData) → IsValid larger → src.size ≡ 0 → IsCopied larger src larger
copy-empty larger src valid nothing =
    (valid, omega arith, (λ j lt. refl), (λ j lt. absurd (omega arith)))

copy_items_lem :
    (larger src : SerializedData)
    → IsValid larger
    → IsValid src
    → larger.size + src.size ≤ larger.capacity
    → (c : SerializedData) × (copy_items src larger ≡ done c true) × IsCopied larger src c
unfolding copy_items copy
copy_items_lem larger src valid src_valid room = elim (Option-cases larger.buffer) [
  | inl empty ↦
      let nothing : src.size ≡ 0 = omega (arith, valid.3 empty) in
      let test : (src.size == 0) ≡ true = ground arith in
      (larger, rw (empty, test), copy-empty larger src valid nothing)
  | inr (m, there) ↦ elim (Option-cases src.buffer) [
    | inl empty ↦
        let nothing : src.size ≡ 0 = omega (arith, src_valid.3 empty) in
        let test : (src.size == 0) ≡ true = ground arith in
        (larger, rw (there, empty, test), copy-empty larger src valid nothing)
    | inr (items, full) ↦
        let inside : leb (larger.size + src.size) larger.capacity ≡ true = ground arith in
        let total : u32 (larger.size + src.size) ≡ larger.size + src.size =
          omega (arith, valid.1) in
        let c = record larger {
          buffer = some (copy m larger.size items src.size);
          size = larger.size + src.size;
        } in
        (
          c,
          rw (there, full, inside, total),
          (
            (room, valid.1, omega (arith, valid.2, src_valid.2), λ e. absurd cc),
            refl,
            (λ j lt. rw there (copy-below m larger.size items src.size j lt)),
            (λ j lt. rw full (copy-inside m larger.size items src.size j lt)),
          ),
        )
  ]
]

module _ (alloc : ℕ → Option Memory) (realloc : ℕ → Memory → ℕ → Option Memory) where
  -- What a new item of a given size comes to: the place behind its header, the old bytes, and what the
  -- readers find.
  abbrev pub IsAdded : SerializedData → List ℕ → ℕ → Result ℕ → Type 0
  IsAdded sd ss size (done larger p) =
      Holds larger (ss ++ (size ∷ []))
      × (p ≡ sd.size + 4)
      × (larger.size ≡ sd.size + 4 + size)
      × ((j : ℕ) → j < sd.size → bytes larger j ≡ bytes sd j)
      × ((reader : Bool) → next_several_item_size reader larger sd.size 1 ≡ some (4 + size))
      × ((reader : Bool)
          → next_several_item_size reader larger 0 (length (ss ++ (size ∷ []))) ≡ some larger.size)
  IsAdded sd ss size refused = CannotGrow alloc realloc sd (sd.size + 4 + size)
  IsAdded sd ss size looping = ⊥
  IsAdded sd ss size undefined = ⊥

  IsSegment-IsAdded :
      (sd : SerializedData) (ss : List ℕ) (size : ℕ) (r : Result ℕ)
      → Holds sd ss
      → IsSegment alloc realloc sd size r
      → IsAdded sd ss size r
  IsSegment-IsAdded sd ss size (done larger p) (valid, chain) (larger_valid, at, grown, kept, new) =
      let old =
        IsChain-shift (bytes sd) (bytes larger) 0 0 ss sd.size chain
          (λ j from to. ap (bytes larger) (omega arith) ∙ kept j to) in
      let start : 0 + sd.size ≡ sd.size = omega arith in
      let whole =
        IsChain-append (bytes larger) 0 ss sd.size (size ∷ []) larger.size (rw start at old) new in
      (
        (larger_valid, whole),
        at,
        grown,
        kept,
        (λ reader.
            next_several_item_size_lem reader larger sd.size (size ∷ []) larger.size larger_valid
              new (valid.2) (omega arith)
            ∙ ap some (omega arith)),
        (λ reader.
            next_several_item_size_lem reader larger 0 (ss ++ (size ∷ [])) larger.size larger_valid
              whole refl (omega arith)
            ∙ ap some (omega arith)),
      )
  IsSegment-IsAdded sd ss size refused h new = new
  IsSegment-IsAdded sd ss size looping h new = new
  IsSegment-IsAdded sd ss size undefined h new = new

  -- On a buffer of items, where realloc keeps the bytes of a block, a segment that with its header and the
  -- data makes at most 2^31 bytes becomes the last item, of the least multiple of 4 that holds the
  -- request, or is refused for want of memory. The place that is returned is behind its header, and the
  -- bytes of the old data stand. A machine of either byte order then finds the extent of the new item,
  -- and of all the items.
  pub apply_for_segment-IsAdded :
      KeepsBytes realloc
      → (little : Bool) (sd : SerializedData) (ss : List ℕ) (requested : ℕ) → Holds sd ss
      → sd.size + 4 + (requested + 3) / 4 * 4 ≤ 2 ^ 31
      → IsAdded sd ss
          ((requested + 3) / 4 * 4)
          (apply_for_segment alloc realloc little 32 sd requested)
  apply_for_segment-IsAdded keeps little sd ss requested holds le =
      IsSegment-IsAdded sd ss _ _ holds
        (apply_for_segment-IsSegment alloc realloc keeps little sd requested (holds.0) le)

  abbrev pub IsAppended : SerializedData → SerializedData → List ℕ → Result Bool → Type 0
  IsAppended dest src items (done larger t) =
      Holds larger items
      × (larger.size ≡ dest.size + src.size)
      × ((j : ℕ) → j < dest.size → bytes larger j ≡ bytes dest j)
      × ((j : ℕ) → j < src.size → bytes larger (dest.size + j) ≡ bytes src j)
  IsAppended dest src items refused = CannotGrow alloc realloc dest (dest.size + src.size)
  IsAppended dest src items looping = ⊥
  IsAppended dest src items undefined = ⊥

  copy_items-IsAppended :
      (dest larger src : SerializedData) (ss ts : List ℕ)
      → Holds dest ss
      → Holds src ts
      → IsEnlarged alloc realloc dest (dest.size + src.size) (done larger true)
      → IsAppended dest src (ss ++ ts) (copy_items src larger)
  copy_items-IsAppended dest larger src ss ts (valid, chain) (src_valid, src_chain)
        (larger_valid, same, room, kept) =
      let (c, runs, (c_valid, total, old, new)) =
        copy_items_lem larger src larger_valid src_valid (omega arith) in
      let first =
        IsChain-shift (bytes dest) (bytes c) 0 0 ss dest.size chain
          (λ j from to. ap (bytes c) (omega arith) ∙ old j (omega arith) ∙ kept j to) in
      let second =
        IsChain-shift (bytes src) (bytes c) dest.size 0 ts src.size src_chain
          (λ j from to. ap (bytes c) (omega arith) ∙ new j to) in
      let start : 0 + dest.size ≡ dest.size = omega arith in
      let middle : dest.size + 0 ≡ dest.size = omega arith in
      let end : dest.size + src.size ≡ c.size = omega arith in
      rw runs (
        (
          c_valid,
          IsChain-append (bytes c) 0 ss dest.size ts c.size (rw start at first)
              (rw (middle, end) at second),
        ),
        omega arith,
        (λ j lt. old j (omega arith) ∙ kept j lt),
        (λ j lt. ap (bytes c) (omega arith) ∙ new j lt),
      )

  IsEnlarged-IsAppended :
      (dest src : SerializedData) (ss ts : List ℕ) (r : Result Bool)
      → Holds dest ss
      → Holds src ts
      → IsEnlarged alloc realloc dest (dest.size + src.size) r
      → IsAppended dest src (ss ++ ts) (when_done r (copy_items src))
  IsEnlarged-IsAppended dest src ss ts (done larger t) h k grown =
      copy_items-IsAppended dest larger src ss ts h k grown
  IsEnlarged-IsAppended dest src ss ts refused h k grown = grown
  IsEnlarged-IsAppended dest src ss ts looping h k grown = grown
  IsEnlarged-IsAppended dest src ss ts undefined h k grown = grown

  -- Of two buffers of items, with at most 2^31 bytes in all, where realloc keeps the bytes of a block, the
  -- first comes to hold its own items and behind them those of the second, byte for byte, or the
  -- operation is refused for want of memory. The loop of the growth ends within 32 doublings, and no
  -- access leaves a buffer.
  pub append-IsAppended :
      KeepsBytes realloc
      → (dest src : SerializedData) (ss ts : List ℕ) → Holds dest ss
      → Holds src ts
      → dest.size + src.size ≤ 2 ^ 31
      → IsAppended dest src (ss ++ ts) (append alloc realloc 32 dest src)
  unfolding append
  append-IsAppended keeps dest src ss ts h k le =
      let total : u32 (dest.size + src.size) ≡ dest.size + src.size = omega arith in
      rw total (
        IsEnlarged-IsAppended dest src ss ts _ h k
          (enlarge-IsEnlarged alloc realloc keeps dest (dest.size + src.size) (h.0) le))
