-- ===== src/Path/Resolve.antt =====
-- The directory that a path leads to by the rows of the directory table alone, and the trees of paths
-- that agree with the rows.
use cuckoofs.Base.{
  ℕ, ◌==◌, true, false, Option, none, some, List, [], ◌∷◌, ◌++◌, if◌then◌else◌, ◌≡◌, refl, ◌⊎◌, inl,
  inr, Bool-cases, eq_of_some, arith,
}
use mathlib.Core.Path.{subst}
use cuckoofs.DirHash.{Key, path_not_exist}
use cuckoofs.DirHash.Keys.{same_name→≡}
use cuckoofs.Path.{pp_exclusive}
use cuckoofs.Path.Tree.{Name, Node, Tree, set_node, same_place}

-- The number of the directory at a place, names up to the root, by the rows alone.
abbrev pub row_at : (Key → ℕ) → Name → ℕ → Option ℕ
row_at rows name parent =
    let id = rows (record { parent_id = parent; name = name }) in
    if id == path_not_exist then none else some id

abbrev pub row_under : (Key → ℕ) → Name → Option ℕ → Option ℕ
row_under rows name none = none
row_under rows name (some parent) = row_at rows name parent

abbrev pub resolved : (Key → ℕ) → List Name → Option ℕ
resolved rows [] = some 0
resolved rows (name ∷ p) = row_under rows name (resolved rows p)

-- The names behind a place, in the order of the path.
abbrev pub onto : List Name → List Name → List Name
onto [] p = p
onto (name ∷ names) p = onto names (name ∷ p)

-- Every node of a tree agrees with the rows, but those that the transaction has locked exclusively.
abbrev pub Agrees : (Key → ℕ) → Tree → Type 0
Agrees rows t =
    (p : List Name) (n : Node)
    → t p ≡ some n
    → (n.lock_acquired ≡ pp_exclusive) ⊎ (resolved rows p ≡ some n.inode_id)

pub onto-append : (ms ns p : List Name) → onto (ms ++ ns) p ≡ onto ns (onto ms p)
onto-append [] ns p = refl
onto-append (m ∷ ms) ns p = onto-append ms ns (m ∷ p)

-- On the way to a place there is a node that the transaction has locked exclusively, to make or to delete
-- its directory.
abbrev pub IsBarred : Tree → List Name → Type 0
IsBarred t goal =
    (p names : List Name) × (n : Node) × (onto names p ≡ goal)
    × (t p ≡ some n)
    × (n.lock_acquired ≡ pp_exclusive)

same_place→≡ : (p q : List Name) → same_place p q ≡ true → p ≡ q
unfolding same_place
same_place→≡ [] [] h = refl
same_place→≡ [] (m ∷ q) h = absurd cc
same_place→≡ (n ∷ p) [] h = absurd cc
same_place→≡ (n ∷ p) (m ∷ q) h = ground (arith, same_name→≡ n m, same_place→≡ p q)

pub set_node-Agrees :
    (rows : Key → ℕ) (t : Tree) (p : List Name) (new : Node)
    → (new.lock_acquired ≡ pp_exclusive) ⊎ (resolved rows p ≡ some new.inode_id)
    → Agrees rows t
    → Agrees rows (set_node t p new)
set_node-Agrees rows t p new right h q n there = elim (Bool-cases (same_place q p)) [
  | inl same ↦ written q n same there
  | inr other ↦ h q n (kept q n other there)
]
  where
    kept :
        (q : List Name) (n : Node)
        → same_place q p ≡ false
        → set_node t p new q ≡ some n
        → t q ≡ some n
    kept q n other there = let e = rw other at there in e

    written :
        (q : List Name) (n : Node)
        → same_place q p ≡ true
        → set_node t p new q ≡ some n
        → (n.lock_acquired ≡ pp_exclusive) ⊎ (resolved rows q ≡ some n.inode_id)
    written q n same there =
        let it = eq_of_some new n (rw same at there) in
        rw (same_place→≡ q p same) (
          subst
            (λ (x : Node). (x.lock_acquired ≡ pp_exclusive) ⊎ (resolved rows p ≡ some x.inode_id))
            it right)
