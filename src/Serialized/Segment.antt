-- ===== src/Serialized/Segment.antt =====
-- SerializedDataEnlarge, SerializedDataApplyForSegment and SerializedDataAppend on a valid buffer.
use cuckoofs.Base.{
  ℕ, ◌+◌, ◌*◌, ◌/◌, ◌%◌, ◌^◌, ◌<◌, ◌≤◌, Bool, true, false, ◌≡◌, refl, ap, ◌∙◌, arith, ◌⊎◌, inl, inr,
  leb, Option, none, some, u32, [], ◌∷◌, Option-cases, dec_lt, Bool-cases,
}
use cuckoofs.Serialized.{
  SerializedData, Memory, Result, done, refused, looping, undefined, enlarge, new_buffer,
  first_capacity, apply_for_segment, write_size, put_size, when_done,
}
use cuckoofs.Serialized.Endian.{put_size-IsLittleEndian}
use cuckoofs.Serialized.Grow.{double_until_ends, align_lem}
use cuckoofs.Serialized.Items.{bytes, IsValid, IsChain}

-- What the C library promises of realloc: the bytes of the old block stand in the new one.
abbrev pub KeepsBytes : (ℕ → Memory → ℕ → Option Memory) → Type 0
KeepsBytes realloc =
    (old : ℕ) (m : Memory) (n : ℕ) (m' : Memory)
    → realloc old m n ≡ some m'
    → (j : ℕ) → j < old
    → j < n
    → m' j ≡ m j

module _ (alloc : ℕ → Option Memory) (realloc : ℕ → Memory → ℕ → Option Memory) where
  -- Why an operation that needs `size` bytes leaves a buffer alone.
  abbrev pub CannotGrow : SerializedData → ℕ → Type 0
  CannotGrow sd size =
      (sd.capacity < size)
      × ((sd.has_manager ≡ false) ⊎ ((n : ℕ) × (size ≤ n) × (new_buffer alloc realloc sd n ≡ none)))

  -- A larger buffer that holds the same data.
  abbrev pub IsEnlarged : SerializedData → ℕ → Result Bool → Type 0
  IsEnlarged sd size (done larger t) =
      IsValid larger
      × (larger.size ≡ sd.size)
      × (size ≤ larger.capacity)
      × ((j : ℕ) → j < sd.size → bytes larger j ≡ bytes sd j)
  IsEnlarged sd size refused = CannotGrow sd size
  IsEnlarged sd size looping = ⊥
  IsEnlarged sd size undefined = ⊥

  new_buffer-keeps :
      KeepsBytes realloc
      → (sd : SerializedData) (n : ℕ) (m : Memory) → sd.capacity ≤ n
      → sd.size ≤ sd.capacity
      → (sd.buffer ≡ none → sd.capacity ≡ 0)
      → new_buffer alloc realloc sd n ≡ some m
      → (j : ℕ) → j < sd.size
      → m j ≡ bytes sd j
  unfolding new_buffer
  new_buffer-keeps keeps sd n m grows fits null new j lt = elim (Option-cases sd.buffer) [
    | inl empty ↦ absurd (omega (arith, null empty))
    | inr (old, there) ↦
        let moved = rw there at new in
        rw there (keeps sd.capacity old n m moved j (omega arith) (omega arith))
  ]

  pub enlarge-IsEnlarged :
      KeepsBytes realloc
      → (sd : SerializedData) (size : ℕ) → IsValid sd
      → size ≤ 2 ^ 31
      → IsEnlarged sd size (enlarge alloc realloc 32 sd size)
  unfolding enlarge new_buffer
  enlarge-IsEnlarged keeps sd size (fits, small, whole, null) le = elim (dec_lt sd.capacity size) [
    | no enough ↦
        let holds : leb size sd.capacity ≡ true = ground arith in
        rw holds ((fits, small, whole, null), refl, omega arith, (λ j lt. refl))
    | yes short ↦
        let lacks : leb size sd.capacity ≡ false = ground arith in
        let first = first_capacity sd.capacity in
        let bounds : (1 ≤ first) × (first < 2 ^ 32) × (sd.capacity ≤ first) = ground arith in
        let reach : size ≤ first * 2 ^ 32 = omega (arith, bounds) in
        let (n, ends, (holds, room, grows, least, aligned)) =
          double_until_ends 32 first size le (bounds.1) reach in
        elim (Bool-cases sd.has_manager) [
          | inr has ↦ rw (lacks, has) ((short, inl refl))
          | inl has ↦ elim (Option-cases (new_buffer alloc realloc sd n)) [
            | inl nothing ↦ rw (lacks, has, ends, nothing) ((short, inr (n, holds, nothing)))
            | inr (m, new) ↦
                let kept = new_buffer-keeps keeps sd n m (omega arith) fits null new in
                rw (lacks, has, ends, new)
                  (((omega arith, room, whole, λ e. absurd cc), refl, holds, kept))
          ]
        ]
  ]

  -- A segment behind the data: the buffer is still valid, its old data stand, the new header says how
  -- many bytes follow.
  abbrev pub IsSegment : SerializedData → ℕ → Result ℕ → Type 0
  IsSegment sd size (done larger p) =
      IsValid larger
      × (p ≡ sd.size + 4)
      × (larger.size ≡ sd.size + 4 + size)
      × ((j : ℕ) → j < sd.size → bytes larger j ≡ bytes sd j)
      × IsChain (bytes larger) sd.size (size ∷ []) larger.size
  IsSegment sd size refused = CannotGrow sd (sd.size + 4 + size)
  IsSegment sd size looping = ⊥
  IsSegment sd size undefined = ⊥

  write_size-IsSegment :
      (little : Bool) (sd larger : SerializedData) (size : ℕ)
      → IsEnlarged sd (sd.size + 4 + size) (done larger true)
      → size % 4 ≡ 0
      → size < 2 ^ 32
      → IsSegment sd size (write_size little size larger)
  unfolding write_size IsChain
  write_size-IsSegment little sd larger size ((fits, small, whole, null), same, room, kept) al lt =
      elim (Option-cases larger.buffer) [
        | inl empty ↦ absurd (omega (arith, null empty))
        | inr (m, there) ↦
            let inside : leb (larger.size + 4) larger.capacity ≡ true = ground arith in
            let total : u32 (larger.size + 4 + size) ≡ sd.size + 4 + size = omega arith in
            let (header, others) = put_size-IsLittleEndian little m larger.size size in
            let held = rw there at kept in
            rw (there, inside, total)
              (
                (omega arith, small, omega arith, λ e. absurd cc),
                omega arith,
                refl,
                (λ j below. others j (inl (omega arith)) ∙ held j below),
                (
                  (λ i below.
                      ap (put_size little m larger.size size) (omega arith) ∙ header i below),
                  al,
                  lt,
                  refl,
                ),
              )
      ]

  IsEnlarged-IsSegment :
      (little : Bool) (sd : SerializedData) (size : ℕ) (r : Result Bool)
      → IsEnlarged sd (sd.size + 4 + size) r
      → size % 4 ≡ 0
      → size < 2 ^ 32
      → IsSegment sd size (when_done r (write_size little size))
  IsEnlarged-IsSegment little sd size (done larger t) grown al lt =
      write_size-IsSegment little sd larger size grown al lt
  IsEnlarged-IsSegment little sd size refused grown al lt = grown
  IsEnlarged-IsSegment little sd size looping grown al lt = grown
  IsEnlarged-IsSegment little sd size undefined grown al lt = grown

  -- On a valid buffer, with the data, the new header and the new segment within 2^31 bytes, a segment
  -- is reserved behind the data, for the least multiple of 4 that holds the request; it is refused only
  -- when the buffer is too small and has no memory manager or gets no memory. The loop of the growth
  -- ends within 32 doublings, and no store leaves the buffer.
  pub apply_for_segment-IsSegment :
      KeepsBytes realloc
      → (little : Bool) (sd : SerializedData) (requested : ℕ) → IsValid sd
      → sd.size + 4 + (requested + 3) / 4 * 4 ≤ 2 ^ 31
      → IsSegment sd
          ((requested + 3) / 4 * 4)
          (apply_for_segment alloc realloc little 32 sd requested)
  unfolding apply_for_segment
  apply_for_segment-IsSegment keeps little sd requested valid le =
      let size = (requested + 3) / 4 * 4 in
      let aligned = align_lem requested (omega arith) in
      let total : u32 (sd.size + 4 + size) ≡ sd.size + 4 + size = omega arith in
      let whole = valid.2 in
      let grown = enlarge-IsEnlarged keeps sd (sd.size + 4 + size) valid (omega (arith, whole)) in
      rw (aligned, total) (IsEnlarged-IsSegment little sd size _ grown (omega arith) (omega arith))
