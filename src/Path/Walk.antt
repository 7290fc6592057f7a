-- ===== src/Path/Walk.antt =====
-- The way to the parent of a target against the rows of the directory table.
use cuckoofs.Base.{
  ℕ, ◌==◌, true, false, Option, none, some, List, [], ◌∷◌, ◌++◌, ◌≡◌, refl, ap, sym, ◌∙◌, ◌⊎◌, inl,
  inr, Bool-cases,
}
use mathlib.Core.Path.{subst}
use cuckoofs.Errors.{ErrorCode}
use cuckoofs.DirHash.{Key, DirLock, path_not_exist}
use cuckoofs.DirHash.Table.{Dynahash}
use cuckoofs.DirHash.Cache.{State, Outcome, done, failed, corrupt, ◌>>=◌}
use cuckoofs.DirHash.Coherence.{Inv}
use cuckoofs.DirHash.Coherence.Calls.{IsFound, search_directory-IsFound}
use cuckoofs.Path.{PpLockMode, pp_none, pp_shared, pp_exclusive, pp_exclusive_for_create}
use cuckoofs.Path.Tree.{
  Name, Node, Tree, set_node, Way, stopped, reached, go_on, pass_node, pass, walk,
}
use cuckoofs.Path.Resolve.{
  row_at, row_under, resolved, onto, onto-append, Agrees, IsBarred, set_node-Agrees,
}

module _ (D : Dynahash) (hash : Key → ℕ) (start : D.Table → ℕ) (fuel tries patience : ℕ)
    (committed : Key → ℕ) where
  -- How the way to place `goal` may end, where the rows are `rows`.
  abbrev pub IsWay : List Name → (Key → ℕ) → Outcome D.Table Way → Type 0
  IsWay goal rows (done s (reached t p id)) =
      (resolved rows goal ≡ some id)
      × (p ≡ goal)
      × Agrees rows t
      × Inv D hash committed s
      × (s.rows ≡ rows)
  IsWay goal rows (done s (stopped t e)) =
      (((e ≡ ErrorCode.path_is_invalid) × (resolved rows goal ≡ none))
        ⊎ ((e ≡ ErrorCode.path_lock_conflict) × IsBarred t goal))
      × Agrees rows t
      × Inv D hash committed s
      × (s.rows ≡ rows)
  IsWay goal rows (failed s e) = ¬ (e ≡ corrupt)

  -- One name further than a place that is resolved.
  go_on-IsWay :
      (t : Tree) (p : List Name) (name : Name) (parent : ℕ) (s : State D.Table) (id : ℕ)
      → resolved s.rows p ≡ some parent
      → s.rows (record { parent_id = parent; name = name }) ≡ id
      → Agrees s.rows t
      → Inv D hash committed s
      → IsWay (name ∷ p) s.rows (go_on D hash start fuel tries patience t (name ∷ p) s id)
  unfolding go_on
  go_on-IsWay t p name parent s id at_parent row agrees inv =
      elim (Bool-cases (id == path_not_exist)) [
        | inl missing ↦
            rw missing (
              inl (refl, ap (row_under s.rows name) at_parent ∙ nothing missing),
              agrees,
              inv,
              refl,
            )
        | inr there ↦ rw there (
          found there,
          refl,
          set_node-Agrees s.rows t (name ∷ p) (record { inode_id = id; lock_acquired = pp_shared })
              (inr (found there)) agrees,
          inv,
          refl,
        )
      ]
    where
      nothing : (id == path_not_exist) ≡ true → row_at s.rows name parent ≡ none
      nothing missing = rw (row, missing) refl

      found : (id == path_not_exist) ≡ false → resolved s.rows (name ∷ p) ≡ some id
      found there = ap (row_under s.rows name) at_parent ∙ (rw (row, there) refl)

  searched-IsWay :
      (t : Tree) (p : List Name) (name : Name) (parent : ℕ) (s : State D.Table)
      (o : Outcome D.Table ℕ)
      → resolved s.rows p ≡ some parent
      → Agrees s.rows t
      → IsFound D hash start fuel tries patience committed
          (s.rows (record { parent_id = parent; name = name }))
          s
          o
      → IsWay
          (name ∷ p)
          s.rows
          (o >>= λ s' id. go_on D hash start fuel tries patience t (name ∷ p) s' id)
  searched-IsWay t p name parent s (done s' id) at_parent agrees (inv, rows, same) =
      subst
        (λ (r : Key → ℕ).
          IsWay (name ∷ p) r (go_on D hash start fuel tries patience t (name ∷ p) s' id))
        rows
        (go_on-IsWay t p name parent s' id
          (subst (λ (r : Key → ℕ). resolved r p ≡ some parent) (sym rows) at_parent)
          (ap (λ (r : Key → ℕ). r (record { parent_id = parent; name = name })) rows ∙ sym same)
          (subst (λ (r : Key → ℕ). Agrees r t) (sym rows) agrees) inv)
  searched-IsWay t p name parent s (failed s' e) at_parent agrees (c, fine) = fine

  locked-IsWay :
      (t : Tree) (q : List Name) (id v : ℕ) (s : State D.Table) (o : Outcome D.Table ℕ)
      → resolved s.rows q ≡ some id
      → Agrees s.rows t
      → IsFound D hash start fuel tries patience committed v s o
      → IsWay q s.rows (
          o >>= λ s' found.
          done s'
            (reached (set_node t q (record { inode_id = id; lock_acquired = pp_shared })) q id))
  locked-IsWay t q id v s (done s' found) here agrees (inv, rows, same) = (
    here,
    refl,
    set_node-Agrees s.rows t q (record { inode_id = id; lock_acquired = pp_shared }) (inr here)
        agrees,
    inv,
    rows,
  )
  locked-IsWay t q id v s (failed s' e) here agrees (c, fine) = fine

  pass_node-IsWay :
      (t : Tree) (p : List Name) (name : Name) (n : Node) (s : State D.Table) (mode : PpLockMode)
      → n.lock_acquired ≡ mode
      → t (name ∷ p) ≡ some n
      → Agrees s.rows t
      → Inv D hash committed s
      → ((k : Key) → s.rows k ≡ committed k)
      → IsWay
          (name ∷ p)
          s.rows
          (pass_node D hash start fuel tries patience t (name ∷ p) name n.inode_id mode s)
  unfolding pass_node
  pass_node-IsWay t p name n s pp_exclusive held there agrees inv same =
      (inr (refl, (name ∷ p, [], n, refl, there, held)), agrees, inv, refl)
  pass_node-IsWay t p name n s pp_none held there agrees inv same =
      elim (agrees (name ∷ p) n there) [
        | inl deleted ↦ let e = sym held ∙ deleted in absurd cc
        | inr here ↦
            let k : Key = record { parent_id = n.inode_id; name = name } in
            locked-IsWay t (name ∷ p) n.inode_id (s.rows k) s _ here agrees (
              search_directory-IsFound D hash start fuel tries patience committed DirLock.shared k s
                inv (same k))
      ]
  pass_node-IsWay t p name n s pp_shared held there agrees inv same =
      elim (agrees (name ∷ p) n there) [
        | inl deleted ↦ let e = sym held ∙ deleted in absurd cc
        | inr here ↦ (here, refl, agrees, inv, refl)
      ]
  pass_node-IsWay t p name n s pp_exclusive_for_create held there agrees inv same =
      elim (agrees (name ∷ p) n there) [
        | inl deleted ↦ let e = sym held ∙ deleted in absurd cc
        | inr here ↦ (here, refl, agrees, inv, refl)
      ]

  pass-IsWay :
      (t : Tree) (p : List Name) (parent : ℕ) (name : Name) (s : State D.Table) (o : Option Node)
      → t (name ∷ p) ≡ o
      → resolved s.rows p ≡ some parent
      → Agrees s.rows t
      → Inv D hash committed s
      → ((k : Key) → s.rows k ≡ committed k)
      → IsWay (name ∷ p) s.rows (pass D hash start fuel tries patience t p parent name s o)
  unfolding pass
  pass-IsWay t p parent name s none missing at_parent agrees inv same =
      let k : Key = record { parent_id = parent; name = name } in
      searched-IsWay t p name parent s _ at_parent agrees (
        search_directory-IsFound D hash start fuel tries patience committed DirLock.shared k s inv
          (same k))
  pass-IsWay t p parent name s (some n) there at_parent agrees inv same =
      pass_node-IsWay t p name n s n.lock_acquired refl there agrees inv same

  nothing_behind :
      (rows : Key → ℕ) (names p : List Name)
      → resolved rows p ≡ none
      → resolved rows (onto names p) ≡ none
  nothing_behind rows [] p h = h
  nothing_behind rows (name ∷ names) p h =
      nothing_behind rows names (name ∷ p) (ap (row_under rows name) h)

  passed-IsWay :
      (names p : List Name) (rows : Key → ℕ) (o : Outcome D.Table Way)
      → IsWay p rows o
      → ((t : Tree) (id : ℕ) (s : State D.Table)
          → resolved s.rows p ≡ some id
          → Agrees s.rows t
          → Inv D hash committed s
          → s.rows ≡ rows
          → IsWay
              (onto names p)
              rows
              (walk D hash start fuel tries patience names s (reached t p id)))
      → IsWay (onto names p) rows (o >>= λ s w. walk D hash start fuel tries patience names s w)
  unfolding walk
  passed-IsWay names p rows (done s (reached t q id)) (here, place, agrees, inv, same) next =
      subst
        (λ (q : List Name).
          IsWay (onto names p) rows
            (walk D hash start fuel tries patience names s (reached t q id)))
        (sym place)
        (next t id s (subst (λ (r : Key → ℕ). resolved r p ≡ some id) (sym same) here)
          (subst (λ (r : Key → ℕ). Agrees r t) (sym same) agrees) inv same)
  passed-IsWay names p rows (done s (stopped t e)) (inl (invalid, missing), agrees, inv, same)
        next =
      (inl (invalid, nothing_behind rows names p missing), agrees, inv, same)
  passed-IsWay names p rows (done s (stopped t e))
        (inr (conflict, (q, ms, n, way, there, held)), agrees, inv, same) next =
      (
        inr (
          conflict,
          (q, ms ++ names, n, onto-append ms names q ∙ ap (onto names) way, there, held),
        ),
        agrees,
        inv,
        same,
      )
  passed-IsWay names p rows (failed s e) h next = h

  walk_from-IsWay :
      (names : List Name) (t : Tree) (p : List Name) (id : ℕ) (s : State D.Table)
      → resolved s.rows p ≡ some id
      → Agrees s.rows t
      → Inv D hash committed s
      → ((k : Key) → s.rows k ≡ committed k)
      → IsWay (onto names p) s.rows (walk D hash start fuel tries patience names s (reached t p id))
  unfolding walk
  walk_from-IsWay [] t p id s here agrees inv same = (here, refl, agrees, inv, refl)
  walk_from-IsWay (name ∷ names) t p id s here agrees inv same =
      passed-IsWay names (name ∷ p) s.rows _
        (pass-IsWay t p id name s (t (name ∷ p)) refl here agrees inv same)
        (λ t' id' s' here' agrees' inv' rows.
          subst
            (λ (r : Key → ℕ).
              IsWay (onto names (name ∷ p)) r
                (walk D hash start fuel tries patience names s' (reached t' (name ∷ p) id')))
            rows
            (walk_from-IsWay names t' (name ∷ p) id' s' here' agrees' inv'
              (λ k. ap (λ (r : Key → ℕ). r k) rows ∙ same k)))

  -- In a transaction that has changed no row, whose cache and whose tree of paths agree with the rows but
  -- for nodes that it has locked exclusively, the way through names from the root, if it ends without
  -- an error of the cache, ends as the rows say: at the directory that one looks up in the rows name
  -- by name, or with PATH_IS_INVALID when a name is missing; or it ends with PATH_LOCK_CONFLICT, and
  -- then a node on the way is one that the transaction has locked exclusively, to make or to delete its
  -- directory. The tree and the cache that it leaves agree with the rows but for such nodes.
  pub walk-IsWay :
      (names : List Name) (t : Tree) (s : State D.Table)
      → Agrees s.rows t
      → Inv D hash committed s
      → ((k : Key) → s.rows k ≡ committed k)
      → IsWay
          (onto names [])
          s.rows
          (walk D hash start fuel tries patience names s (reached t [] 0))
  walk-IsWay names t s agrees inv same = walk_from-IsWay names t [] 0 s refl agrees inv same
