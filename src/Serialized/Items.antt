-- ===== src/Serialized/Items.antt =====
-- What a buffer holds: a chain of items, and how SerializedDataNextSeveralItemSize walks along it.
use cuckoofs.Base.{
  ℕ, ◌+◌, ◌-◌, ◌*◌, ◌%◌, ◌^◌, ◌<◌, ◌≤◌, Bool, ◌≡◌, ap, ◌∙◌, arith, inl, inr, none, some, List, [],
  ◌∷◌, ◌++◌, length, Option-cases,
}
use cuckoofs.Serialized.{SerializedData, Memory, byte, scan_items, ended, next_several_item_size}
use cuckoofs.Serialized.Endian.{and_low, get_size_bytes}

-- The bytes of a buffer; the null pointer has none.
abbrev pub bytes : SerializedData → Memory
bytes sd = elim sd.buffer [ some m ↦ m | none ↦ λ j. 0 ]

-- What every operation keeps of a buffer: its data lie in it, in whole alignment units, its length is
-- a uint32_t, and the null pointer has no length.
abbrev pub IsValid : SerializedData → Type 0
IsValid sd =
    (sd.size ≤ sd.capacity)
    × (sd.capacity < 2 ^ 32)
    × (sd.size % 4 ≡ 0)
    × (sd.buffer ≡ none → sd.capacity ≡ 0)

-- Items of the given sizes, their headers in little-endian order, from one offset to another.
unfoldable pub IsChain : Memory → ℕ → List ℕ → ℕ → Type 0
IsChain m p [] e = p ≡ e
IsChain m p (s ∷ ss) e =
    ((i : ℕ) → i < 4 → m (p + i) ≡ byte s i)
    × (s % 4 ≡ 0)
    × (s < 2 ^ 32)
    × IsChain m (p + 4 + s) ss e

pub IsChain-le : (m : Memory) (p : ℕ) (ss : List ℕ) (e : ℕ) → IsChain m p ss e → p ≤ e
unfolding IsChain
IsChain-le m p [] e h = omega arith
IsChain-le m p (s ∷ ss) e (header, aligned, small, rest) =
    omega (arith, IsChain-le m (p + 4 + s) ss e rest)

pub IsChain-length :
    (m : Memory) (p : ℕ) (ss : List ℕ) (e : ℕ) → IsChain m p ss e → p + 4 * length ss ≤ e
unfolding IsChain
IsChain-length m p [] e h = omega arith
IsChain-length m p (s ∷ ss) e (header, aligned, small, rest) =
    omega (arith, IsChain-length m (p + 4 + s) ss e rest)

pub IsChain-aligned :
    (m : Memory) (p : ℕ) (ss : List ℕ) (e : ℕ) → IsChain m p ss e → p % 4 ≡ 0 → e % 4 ≡ 0
unfolding IsChain
IsChain-aligned m p [] e h al = omega arith
IsChain-aligned m p (s ∷ ss) e (header, aligned, small, rest) al =
    IsChain-aligned m (p + 4 + s) ss e rest (omega arith)

-- A chain depends on the bytes that it covers, and may stand at another offset.
pub IsChain-shift :
    (m n : Memory) (q p : ℕ) (ss : List ℕ) (e : ℕ)
    → IsChain m p ss e
    → ((j : ℕ) → p ≤ j → j < e → n (q + j) ≡ m j)
    → IsChain n (q + p) ss (q + e)
unfolding IsChain
IsChain-shift m n q p [] e h same = omega arith
IsChain-shift m n q p (s ∷ ss) e (header, aligned, small, rest) same =
    let le = IsChain-le m (p + 4 + s) ss e rest in
    let tail = IsChain-shift m n q (p + 4 + s) ss e rest (λ j from to. same j (omega arith) to) in
    let place : q + (p + 4 + s) ≡ q + p + 4 + s = omega arith in
    (
      (λ i lt. ap n (omega arith) ∙ same (p + i) (omega arith) (omega arith) ∙ header i lt),
      aligned,
      small,
      rw place at tail,
    )

pub IsChain-append :
    (m : Memory) (p : ℕ) (ss : List ℕ) (e : ℕ) (ts : List ℕ) (f : ℕ)
    → IsChain m p ss e
    → IsChain m e ts f
    → IsChain m p (ss ++ ts) f
unfolding IsChain
IsChain-append m p [] e ts f h k = rw h k
IsChain-append m p (s ∷ ss) e ts f (header, aligned, small, rest) k =
    (header, aligned, small, IsChain-append m (p + 4 + s) ss e ts f rest k)

pub scan_items-IsChain :
    (little : Bool) (sd : SerializedData) (m : Memory) (p : ℕ) (ss : List ℕ) (e : ℕ)
    → IsChain m p ss e
    → e ≤ sd.size
    → sd.size ≤ sd.capacity
    → scan_items little sd m (length ss) p ≡ ended e
unfolding scan_items IsChain
scan_items-IsChain little sd m p [] e h le fits = ap ended h
scan_items-IsChain little sd m p (s ∷ ss) e (header, aligned, small, rest) le fits =
    let stored = get_size_bytes little m p s small header in
    let behind = IsChain-le m (p + 4 + s) ss e rest in
    let ends = scan_items-IsChain little sd m (p + 4 + s) ss e rest le fits in
    rw stored (ground (arith, and_low 2 s, ends))

-- Where a buffer holds items one behind the other, in any number, a machine of either byte order finds
-- the bytes from the first to the end of the last, and no load leaves the buffer.
pub next_several_item_size_lem :
    (little : Bool) (sd : SerializedData) (start : ℕ) (ss : List ℕ) (e : ℕ)
    → IsValid sd
    → IsChain (bytes sd) start ss e
    → start % 4 ≡ 0
    → e ≤ sd.size
    → next_several_item_size little sd start (length ss) ≡ some (e - start)
unfolding next_several_item_size scan_items
next_several_item_size_lem little sd start ss e (fits, small, whole, null) chain al le =
    elim (Option-cases sd.buffer) [
      | inl empty ↦
          let items = IsChain-length (bytes sd) start ss e chain in
          let nothing = null empty in rw empty (ground (arith, and_low 2 start, items, nothing))
      | inr (m, there) ↦
          let there_chain = rw there at chain in
          let ends = scan_items-IsChain little sd m start ss e there_chain le fits in
          let forward = IsChain-le m start ss e there_chain in
          rw (there, ends) (ground (arith, and_low 2 start, forward))
    ]
