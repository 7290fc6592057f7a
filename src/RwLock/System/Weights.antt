-- ===== src/RwLock/System/Weights.antt =====
-- What the handle list and the place of a backend account for in the word of one lock.
use cuckoofs.Base.{
  ℕ, ◌+◌, ◌≤◌, ◌≡◌, refl, some, List, [], ◌∷◌, arith, ◌==◌, if◌then◌else◌, Bool-cases, Option-cases,
  ◌&&◌, inl, inr,
}
use cuckoofs.RwLock.{
  Mode, exclusive, shared, declare, is_declare, Handle, remove_newest, remove_declared,
}
use cuckoofs.RwLock.System.{Pc, idle, spin, cas, unref, Backend, count}

abbrev pub mode_shared : Mode → ℕ
mode_shared shared = 1
mode_shared _ = 0

abbrev pub mode_exclusive : Mode → ℕ
mode_exclusive exclusive = 1
mode_exclusive _ = 0

module _ (l : ℕ) where
  abbrev pub shared_in : List Handle → ℕ
  shared_in [] = 0
  shared_in (h ∷ hs) = (if h.lock == l then mode_shared h.mode else 0) + shared_in hs

  abbrev pub exclusive_in : List Handle → ℕ
  exclusive_in [] = 0
  exclusive_in (h ∷ hs) = (if h.lock == l then mode_exclusive h.mode else 0) + exclusive_in hs

  abbrev pub handles_in : List Handle → ℕ
  handles_in [] = 0
  handles_in (h ∷ hs) = (if h.lock == l then 1 else 0) + handles_in hs

  -- A reference that no handle stands for: taken before the lock, or not yet given back.
  abbrev pub pc_refs : Pc → ℕ
  pc_refs idle = 0
  pc_refs (spin k m) = if k == l then 1 else 0
  pc_refs (cas k m old) = if k == l then 1 else 0
  pc_refs (unref k) = if k == l then 1 else 0

  abbrev pub shared_by : Backend → ℕ
  shared_by b = shared_in b.held

  abbrev pub exclusive_by : Backend → ℕ
  exclusive_by b = exclusive_in b.held

  abbrev pub refs_by : Backend → ℕ
  refs_by b = handles_in b.held + pc_refs b.pc

  shared_in-le : (hs : List Handle) → shared_in hs ≤ handles_in hs
  shared_in-le [] = omega arith
  shared_in-le (h ∷ hs) = ground (arith, shared_in-le hs)

  handles_in-le : (hs : List Handle) → handles_in hs ≤ count hs
  handles_in-le [] = omega arith
  handles_in-le (h ∷ hs) = ground (arith, handles_in-le hs)

  pub shared_by-le : (b : Backend) → shared_by b ≤ refs_by b
  shared_by-le b = omega (arith, shared_in-le b.held)

  pc_refs-le : (p : Pc) → pc_refs p ≤ 1
  pc_refs-le idle = omega arith
  pc_refs-le p = ground arith

  pub refs_by-le : (b : Backend) → refs_by b ≤ count b.held + 1
  refs_by-le b = omega (arith, handles_in-le b.held, pc_refs-le b.pc)

-- A list that gave up a handle of mode `m` on lock `l`.
pub record Lost (l : ℕ) (m : Mode) (hs rest : List Handle) : Type 0 where
  pub one_less : count hs ≡ count rest + 1
  pub shared_lost :
      (k : ℕ) → shared_in k hs ≡ (if l == k then mode_shared m else 0) + shared_in k rest
  pub exclusive_lost :
      (k : ℕ) → exclusive_in k hs ≡ (if l == k then mode_exclusive m else 0) + exclusive_in k rest
  pub handles_lost : (k : ℕ) → handles_in k hs ≡ (if l == k then 1 else 0) + handles_in k rest

Lost-head : (h : Handle) (hs : List Handle) → Lost h.lock h.mode (h ∷ hs) hs
Lost-head h hs = record {
  one_less = omega arith;
  shared_lost = λ k. refl;
  exclusive_lost = λ k. refl;
  handles_lost = λ k. refl;
}

Lost-tail :
    (l : ℕ) (m : Mode) (h : Handle) (hs rest : List Handle)
    → Lost l m hs rest
    → Lost l m (h ∷ hs) (h ∷ rest)
Lost-tail l m h hs rest lost = record {
  one_less = omega arith;
  shared_lost = λ k. omega (arith, lost.shared_lost k);
  exclusive_lost = λ k. omega (arith, lost.exclusive_lost k);
  handles_lost = λ k. omega (arith, lost.handles_lost k);
}

Lost-eq :
    {l k : ℕ} {m q : Mode} {hs rest left : List Handle}
    → l ≡ k
    → m ≡ q
    → rest ≡ left
    → Lost l m hs rest
    → Lost k q hs left
Lost-eq {hs} e e' e'' lost = rw (← e, ← e', ← e'') lost

pub remove_newest-Lost :
    (l : ℕ) (hs : List Handle) {m : Mode} {rest : List Handle}
    → remove_newest l hs ≡ some (m, rest)
    → Lost l m hs rest
unfolding remove_newest
remove_newest-Lost l [] e = cc
remove_newest-Lost l (h ∷ hs) {m} {rest} e = elim (Bool-cases (h.lock == l)) [
  | inl hit ↦ Lost-eq (ground arith) (ground arith) (ground arith) (Lost-head h hs)
  | inr miss ↦ elim (Option-cases (remove_newest l hs)) [
    | inl gone ↦ absurd (ground arith)
    | inr ((m', rest'), found) ↦
        Lost-eq {l = l} {m = m'} {rest = h ∷ rest'} refl (ground arith) (ground arith)
          (Lost-tail l m' h hs rest' (remove_newest-Lost l hs found))
  ]
]

pub remove_declared-Lost :
    (l : ℕ) (hs : List Handle) {rest : List Handle}
    → remove_declared l hs ≡ some rest
    → Lost l declare hs rest
unfolding remove_declared
remove_declared-Lost l [] e = cc
remove_declared-Lost l (h ∷ hs) {rest} e = elim (Bool-cases (h.lock == l && is_declare h.mode)) [
  | inl hit ↦ Lost-eq (ground arith) (ground arith) (ground arith) (Lost-head h hs)
  | inr miss ↦ elim (Option-cases (remove_declared l hs)) [
    | inl gone ↦ absurd (ground arith)
    | inr (rest', found) ↦
        Lost-eq {l = l} {m = declare} {rest = h ∷ rest'} refl refl (ground arith)
          (Lost-tail l declare h hs rest' (remove_declared-Lost l hs found))
  ]
]
