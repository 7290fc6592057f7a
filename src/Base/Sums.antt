-- ===== src/Base/Sums.antt =====
-- Families indexed by numbers: a write at one index, and the sum of the first `n` members.
use Prim.Native.Nat.{ℕ, zero, suc, ◌+◌, ◌*◌, ◌≤◌, ◌<◌}
use mathlib.Core.Path.{◌≡◌, refl}
use mathlib.Core.Logic.{◌≢◌}
use native.Mathlib.Decide.{dec_lt, ℕ_discrete}
use native.Mathlib.Omega.{arith}
use cuckoofs.Base.Tests.{◌==◌, if◌then◌else◌, ==_refl, ==_of_ne}

abbrev pub update {ℓ} : {A : Type ℓ} → (ℕ → A) → ℕ → A → ℕ → A
update f l v k = if k == l then v else f k

unfoldable pub sum_to : ℕ → (ℕ → ℕ) → ℕ
sum_to zero g = 0
sum_to (suc n) g = g n + sum_to n g

-- Sequences that agree below `n`, and that agree there but at one index.
sum_to-eq : (n : ℕ) (g h : ℕ → ℕ) → ((j : ℕ) → j < n → h j ≡ g j) → sum_to n h ≡ sum_to n g
unfolding sum_to
sum_to-eq zero g h agree = refl
sum_to-eq (suc n) g h agree =
    omega (arith, agree n (omega arith), sum_to-eq n g h (λ j lt. agree j (omega arith)))

sum_to-change :
    (n i : ℕ) (g h : ℕ → ℕ)
    → i < n
    → ((j : ℕ) → j ≢ i → h j ≡ g j)
    → sum_to n h + g i ≡ sum_to n g + h i
unfolding sum_to
sum_to-change zero i g h lt agree = absurd (omega arith)
sum_to-change (suc n) i g h lt agree = elim (ℕ_discrete i n) [
  | yes top ↦
      let below = sum_to-eq n g h (λ j below. agree j (omega arith)) in ground (arith, below)
  | no inside ↦
      omega (arith, agree n (λ e. inside (ground arith)), sum_to-change n i g h (omega arith) agree)
]

-- A member is a part of the sum, and two members at different indices are.
sum_to-member : (n i : ℕ) (g : ℕ → ℕ) → i < n → g i ≤ sum_to n g
unfolding sum_to
sum_to-member zero i g lt = absurd (omega arith)
sum_to-member (suc n) i g lt = elim (ℕ_discrete i n) [
  | yes top ↦ ground arith
  | no inside ↦ omega (arith, sum_to-member n i g (omega arith))
]

sum_to-members : (n i j : ℕ) (g : ℕ → ℕ) → i < j → j < n → g i + g j ≤ sum_to n g
unfolding sum_to
sum_to-members zero i j g below lt = absurd (omega arith)
sum_to-members (suc n) i j g below lt = elim (ℕ_discrete j n) [
  | yes top ↦ ground (arith, sum_to-member n i g (omega arith))
  | no inside ↦ omega (arith, sum_to-members n i j g below (omega arith))
]

sum_to_bound : (n k : ℕ) (g : ℕ → ℕ) → ((j : ℕ) → j < n → g j ≤ k) → sum_to n g ≤ n * k
unfolding sum_to
sum_to_bound zero k g small = omega arith
sum_to_bound (suc n) k g small =
    omega (arith, small n (omega arith), sum_to_bound n k g (λ j lt. small j (omega arith)))

sum_to_mono : (n : ℕ) (g h : ℕ → ℕ) → ((j : ℕ) → g j ≤ h j) → sum_to n g ≤ sum_to n h
unfolding sum_to
sum_to_mono zero g h le = omega arith
sum_to_mono (suc n) g h le = omega (arith, le n, sum_to_mono n g h le)

-- The sum of the shares that the members of a family have by a measure `w`.
module _ {ℓ} {A : Type ℓ} (w : A → ℕ) where
  abbrev pub total : ℕ → (ℕ → A) → ℕ
  total n f = sum_to n (λ j. w (f j))

  -- A write trades the old member's share for the new one's.
  pub total-update :
      (n : ℕ) (f : ℕ → A) (i : ℕ) (a : A)
      → i < n
      → total n f + w a ≡ w (f i) + total n (update f i a)
  total-update n f i a lt =
      let change =
        sum_to-change n i (λ j. w (f j)) (λ j. w (update f i a j)) lt
          (λ j ne. rw (==_of_ne j i ne)) in
      let new = rw ==_refl at change in omega (arith, new)

  pub member-le-total : (n : ℕ) (f : ℕ → A) (i : ℕ) → i < n → w (f i) ≤ total n f
  member-le-total n f i lt = sum_to-member n i (λ j. w (f j)) lt

  pub pair-le-total :
      (n : ℕ) (f : ℕ → A) (i j : ℕ) → i < n → j < n → i ≢ j → w (f i) + w (f j) ≤ total n f
  pair-le-total n f i j hi hj ne = elim (dec_lt i j) [
    | yes up ↦ sum_to-members n i j (λ k. w (f k)) up hj
    | no down ↦ omega (arith, sum_to-members n j i (λ k. w (f k)) (omega arith) hi)
  ]

  pub total-le : (n k : ℕ) (f : ℕ → A) → ((i : ℕ) → i < n → w (f i) ≤ k) → total n f ≤ n * k
  total-le n k f small = sum_to_bound n k (λ j. w (f j)) small

  pub total-eq-zero : (n : ℕ) (f : ℕ → A) → ((i : ℕ) → i < n → w (f i) ≡ 0) → total n f ≡ 0
  total-eq-zero n f none = omega (arith, total-le n 0 f (λ i lt. omega (arith, none i lt)))

-- Measures that are ordered at each member have ordered sums.
pub total_mono {ℓ} :
    {A : Type ℓ} (w v : A → ℕ) (n : ℕ) (f : ℕ → A)
    → ((a : A) → w a ≤ v a)
    → total w n f ≤ total v n f
total_mono w v n f le = sum_to_mono n (λ j. w (f j)) (λ j. v (f j)) (λ j. le (f j))
