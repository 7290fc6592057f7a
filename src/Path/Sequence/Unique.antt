-- ===== src/Path/Sequence/Unique.antt =====
-- The numbers of the sequence are all different.
use cuckoofs.Base.{
  ℕ, zero, suc, ◌+◌, ◌-◌, ◌^◌, ◌<◌, ◌≤◌, List, [], ◌∷◌, ◌≡◌, ◌⊎◌, inl, inr, refl, arith, u64,
}
use cuckoofs.Path.Sequence.{Numbers, next_of, get_next_sequence_num}

-- What the sequence is made with: an increment of 32, so that two values that a backend gets are as far
-- apart or further.
abbrev pub Increments : (ℕ → ℕ) → Type 0
Increments nextval = (i : ℕ) → nextval i + 32 ≤ nextval (suc i)

-- The state behind a number: what it gives next is above it, and stays below the next value.
record After (nextval : ℕ → ℕ) (last : ℕ) (n : Numbers) : Type 0 where
  left : n.remain ≤ 32
  above : (n.remain ≡ 0) ⊎ (last < n.current)
  below : last < nextval n.asked
  block : n.current + n.remain ≤ nextval n.asked

abbrev IsNext : (ℕ → ℕ) → ℕ → ℕ → ℕ × Numbers → Type 0
IsNext nextval last asked (x, n) = (last < x) × After nextval x n × (n.asked ≤ suc asked)

next_of-IsNext :
    (nextval : ℕ → ℕ) (last asked : ℕ) (n : Numbers) (r : ℕ)
    → n.remain ≡ suc r
    → r < 32
    → last < n.current
    → n.current + n.remain ≤ nextval n.asked
    → n.current < 2 ^ 63
    → n.asked ≤ suc asked
    → IsNext nextval last asked (next_of n)
unfolding next_of
next_of-IsNext nextval last asked n r more few later block fits calls =
    let up : u64 (n.current + 1) ≡ n.current + 1 = omega arith in
    let down : u64 (n.current + 1 + 2 ^ 64 - 1) ≡ n.current = omega arith in
    rw (up, down)
      (
        later,
        record {
          left = omega arith;
          above = inr (omega arith);
          below = omega arith;
          block = omega arith;
        },
        calls,
      )

get_next_sequence_num-IsNext :
    (nextval : ℕ → ℕ) (last remain current asked : ℕ)
    → Increments nextval
    → nextval (suc asked) < 2 ^ 63
    → After nextval last (record { remain = remain; current = current; asked = asked })
    → IsNext nextval last asked (
        get_next_sequence_num nextval
          (record { remain = remain; current = current; asked = asked }))
unfolding get_next_sequence_num
get_next_sequence_num-IsNext nextval last zero current asked steps fits after =
    let gap = steps asked in
    let below = after.below in
    next_of-IsNext nextval last asked
      (record { remain = 32; current = nextval asked; asked = suc asked }) 31 refl (omega arith)
      below gap (omega arith) (omega arith)
get_next_sequence_num-IsNext nextval last (suc r) current asked steps fits after =
    let gap = steps asked in
    let block = after.block in
    let left = after.left in
    elim after.above [
      | inl done ↦ absurd (omega arith)
      | inr later ↦
          next_of-IsNext nextval last asked
            (record { remain = suc r; current = current; asked = asked }) r refl (omega arith) later
            block (omega arith) (omega arith)
    ]

-- The numbers of so many calls.
unfoldable pub drawn : (ℕ → ℕ) → ℕ → Numbers → List ℕ
drawn nextval zero n = []
drawn nextval (suc count) n =
    let (x, n') = get_next_sequence_num nextval n in x ∷ drawn nextval count n'

-- Each number is above the one before it.
abbrev pub Ascending : ℕ → List ℕ → Type 0
Ascending last [] = Unit {0}
Ascending last (x ∷ xs) = (last < x) × Ascending x xs

further : (a b c : ℕ) → a ≤ b → b + 32 ≤ c → a ≤ c
further a b c h g = omega arith

same_value : (nextval : ℕ → ℕ) (i j : ℕ) → i ≡ j → nextval i ≤ nextval j
same_value nextval i j same = rw same (omega arith)

Increments-mono : (nextval : ℕ → ℕ) → Increments nextval → (i d : ℕ) → nextval i ≤ nextval (d + i)
Increments-mono nextval steps i zero = same_value nextval i (0 + i) (omega arith)
Increments-mono nextval steps i (suc d) =
    let same : suc d + i ≡ suc (d + i) = omega arith in
    rw same (
      further (nextval i) (nextval (d + i)) (nextval (suc (d + i)))
        (Increments-mono nextval steps i d) (steps (d + i)))

drawn-Ascending :
    (nextval : ℕ → ℕ) (count last : ℕ) (n : Numbers) (calls : ℕ)
    → Increments nextval
    → n.asked + count ≤ calls
    → nextval calls < 2 ^ 63
    → After nextval last n
    → Ascending last (drawn nextval count n)
unfolding drawn
drawn-Ascending nextval zero last n calls steps few fits after = tt
drawn-Ascending nextval (suc count) last n calls steps few fits after =
    let high = Increments-mono nextval steps (suc n.asked) (calls - suc n.asked) in
    let there : calls - suc n.asked + suc n.asked ≡ calls = omega arith in
    let high' = rw there at high in
    let (above, next, more) =
      get_next_sequence_num-IsNext nextval last n.remain n.current n.asked steps (omega arith)
        after in
    (
      above,
      drawn-Ascending nextval count (get_next_sequence_num nextval n).0
          (get_next_sequence_num nextval n).1 calls steps (omega arith) fits next,
    )

-- Over any number of calls of a new backend, where the sequence starts above 0, adds 32 or more each time
-- and stays below 2^63, each number of GetNextSequenceNum is above all those before it.
pub drawn-ascends :
    (nextval : ℕ → ℕ) (count : ℕ)
    → Increments nextval
    → 0 < nextval 0
    → nextval count < 2 ^ 63
    → Ascending 0 (drawn nextval count (record { remain = 0; current = 0; asked = 0 }))
drawn-ascends nextval count steps starts fits =
    drawn-Ascending nextval count 0 (record { remain = 0; current = 0; asked = 0 }) count steps
      (omega arith) fits
      (record { left = omega arith; above = inl refl; below = starts; block = omega arith })
