-- ===== src/DirHash/Coherence/Calls.antt =====
-- Searches, insertions and deletions keep the invariant of the transaction, and a search answers what
-- the directory table holds.
use cuckoofs.Base.{
  ℕ, ◌+◌, Bool, true, false, Option, none, some, if◌then◌else◌, ◌≡◌, ◌≢◌, refl, ap, sym, ◌∙◌,
  eq_of_some, u32,
}
use mathlib.Core.Path.{subst}
use cuckoofs.RwLock.{Mode}
use cuckoofs.RwLock.Ops as Ops
use cuckoofs.RwLock.Ops.{rw_lock_declare, rw_lock_acquire, rw_lock_undeclare}
use cuckoofs.DirHash.{Key, Item, DirLock, exclusive, shared, none_mode}
use cuckoofs.DirHash.Table.{Dynahash}
use cuckoofs.DirHash.Cache.{
  State, Outcome, done, failed, corrupt, ◌>>=◌, partition, lookup, write, lock_entry, lock_in,
  with_locks,
}
use cuckoofs.DirHash.Ops.{ready_item, use_item, use_entry, read_item, search_directory}
use cuckoofs.DirHash.Coherence.{Cached, Inv, Cached-write, lookup-write}
use cuckoofs.DirHash.Coherence.Enter.{HasEntry, IsEntered, Inv-kept, ready_item-IsEntered}

module _ (D : Dynahash) (hash : Key → ℕ) (start : D.Table → ℕ) (fuel tries patience : ℕ) where
  -- A lock leaves the cache, the rows and the log alone.
  abbrev IsLocked : State D.Table → Outcome D.Table Unit → Type 0
  IsLocked s (done s' t) = (s'.tables ≡ s.tables) × (s'.rows ≡ s.rows) × (s'.log ≡ s.log)
  IsLocked s (failed s' e) = (s'.tables ≡ s.tables) × (e ≢ corrupt)

  with_locks-IsLocked :
      (s t : State D.Table) (r : Ops.Result) (next : State D.Table → Outcome D.Table Unit)
      → t.tables ≡ s.tables
      → ((c : Ops.Ctx) → IsLocked s (next (record t { locks = c })))
      → IsLocked s (with_locks r t next)
  with_locks-IsLocked s t (Ops.ok c) next same h = h c
  with_locks-IsLocked s t (Ops.err e) next same h = (same, λ e. absurd cc)

  lock_in-IsLocked : (m : Mode) (l : ℕ) (s : State D.Table) → IsLocked s (lock_in patience m l s)
  unfolding lock_in
  lock_in-IsLocked m l s =
      with_locks-IsLocked s s (rw_lock_declare l s.locks)
        (λ s₁. with_locks (rw_lock_acquire patience l m s₁.locks) s₁ (λ s₂.
          with_locks (rw_lock_undeclare l s₂.locks) s₂
            (λ s₃. done (record s₃ { last_acquired = some l }) tt)))
        refl
        (λ c.
          with_locks-IsLocked s (record s { locks = c }) (rw_lock_acquire patience l m c)
            (λ s₂.
              with_locks (rw_lock_undeclare l s₂.locks) s₂
                (λ s₃. done (record s₃ { last_acquired = some l }) tt))
            refl
            (λ c'.
              with_locks-IsLocked s (record s { locks = c' }) (rw_lock_undeclare l c')
                (λ s₃. done (record s₃ { last_acquired = some l }) tt) refl
                (λ c''. (refl, refl, refl))))

  lock_entry-IsLocked :
      (mode : DirLock) (l : ℕ) (s : State D.Table) → IsLocked s (lock_entry patience mode l s)
  unfolding lock_entry
  lock_entry-IsLocked none_mode l s = (refl, refl, refl)
  lock_entry-IsLocked shared l s = lock_in-IsLocked Mode.shared l s
  lock_entry-IsLocked exclusive l s = lock_in-IsLocked Mode.exclusive l s

  module _ (committed : Key → ℕ) where
    abbrev pub IsUsed : (ℕ → Type 0) → Key → State D.Table → Outcome D.Table Unit → Type 0
    IsUsed Good k s (done s' t) =
        Inv D hash committed s' × (s'.rows ≡ s.rows) × HasEntry D hash committed Good k s'
    IsUsed Good k s (failed s' e) = Cached D hash committed s' × (e ≢ corrupt)

    IsLocked-IsUsed :
        (Good : ℕ → Type 0) (k : Key) (s t : State D.Table) (o : Outcome D.Table Unit)
        → Inv D hash committed t
        → t.rows ≡ s.rows
        → HasEntry D hash committed Good k t
        → IsLocked t o
        → IsUsed Good k s o
    IsLocked-IsUsed Good k s t (done s' u) h rows (i, there, good) (tables, r, log) =
        let same : (l : Key) → lookup D hash s' l ≡ lookup D hash t l =
          λ l. ap (λ (f : ℕ → D.Table). D.find (f (partition D hash l)) l) tables in
        (
          Inv-kept D hash committed t s' h (λ l j here. h.cached l j (sym (same l) ∙ here)) r log,
          r ∙ rows,
          (i, same k ∙ there, good),
        )
    IsLocked-IsUsed Good k s t (failed s' e) h rows entry (same, fine) = (
      λ l j here.
          h.cached l j
            (sym (ap (λ (f : ℕ → D.Table). D.find (f (partition D hash l)) l) same) ∙ here),
      fine,
    )

    pub use_item-IsUsed :
        (mode : DirLock) (Good : ℕ → Type 0) (k : Key) (s : State D.Table)
        → Inv D hash committed s
        → HasEntry D hash committed Good k s
        → IsUsed Good k s (use_entry D hash start fuel tries patience mode k s)
    unfolding use_item
    use_item-IsUsed mode Good k s h (i, there, good) =
        let new : Item = record i { usage_count = u32 (i.usage_count + 1) } in
        let t = write D hash s k new in
        let c =
          Cached-write D hash committed committed s k new (λ l apart. refl) (h.cached k i there)
            h.cached in
        rw there (
          IsLocked-IsUsed Good k s t (lock_entry patience mode i.lock t)
            (Inv-kept D hash committed s t h c refl refl) refl
            (new, lookup-write D hash s k new, good) (lock_entry-IsLocked mode i.lock t))

    -- What a search comes to on a key with the row `v`.
    abbrev pub IsFound : ℕ → State D.Table → Outcome D.Table ℕ → Type 0
    IsFound v s (done s' n) = Inv D hash committed s' × (s'.rows ≡ s.rows) × (n ≡ v)
    IsFound v s (failed s' e) = Cached D hash committed s' × (e ≢ corrupt)

    read-IsFound :
        (k : Key) (v : ℕ) (s t : State D.Table)
        → Inv D hash committed t
        → t.rows ≡ s.rows
        → HasEntry D hash committed (λ n. n ≡ v) k t
        → (o : Option Item) → lookup D hash t k ≡ o
        → IsFound v s (read_item D hash start fuel tries patience v t o)
    unfolding read_item
    read-IsFound k v s t h rows entry none there = (h, rows, refl)
    read-IsFound k v s t h rows (i, here, good) (some j) there =
        let same = eq_of_some i j (sym here ∙ there) in
        (h, rows, subst (λ (x : Item). x.inode_id ≡ v) same good)

    used-IsFound :
        (k : Key) (v : ℕ) (s t : State D.Table) (o : Outcome D.Table Unit)
        → t.rows ≡ s.rows
        → IsUsed (λ n. n ≡ v) k t o
        → IsFound v s
            (o >>= λ s'' u. read_item D hash start fuel tries patience v s'' (lookup D hash s'' k))
    used-IsFound k v s t (done s' u) rows (h, r, entry) =
        read-IsFound k v s s' h (r ∙ rows) entry (lookup D hash s' k) refl
    used-IsFound k v s t (failed s' e) rows h = h

    entered-IsFound :
        (mode : DirLock) (k : Key) (s : State D.Table) (o : Outcome D.Table Bool)
        → IsEntered D hash committed mode (λ n. n ≡ s.rows k) k s o
        → IsFound (s.rows k) s (
            o >>= λ s' found.
            if found
            then (use_entry D hash start fuel tries patience mode k s' >>= λ s'' u.
                read_item D hash start fuel tries patience (s.rows k) s'' (lookup D hash s'' k))
            else done s' (s.rows k))
    entered-IsFound mode k s (done s' true) (h, rows, entry) =
        used-IsFound k (s.rows k) s s' (use_entry D hash start fuel tries patience mode k s') rows
          (use_item-IsUsed mode (λ n. n ≡ s.rows k) k s' h entry)
    entered-IsFound mode k s (done s' false) (h, rows, without) = (h, rows, refl)
    entered-IsFound mode k s (failed s' e) h = h

    -- In a transaction whose cache agrees with what is committed, the search of a key that the
    -- transaction itself has not changed, in any lock mode, answers the inode number in the directory
    -- table if it ends without an error, and keeps the agreement. It never finds the cache corrupt.
    pub search_directory-IsFound :
        (mode : DirLock) (k : Key) (s : State D.Table)
        → Inv D hash committed s
        → s.rows k ≡ committed k
        → IsFound (s.rows k) s (search_directory D hash start fuel tries patience mode k s)
    unfolding search_directory
    search_directory-IsFound mode k s h unchanged =
        entered-IsFound mode k s
          (ready_item D hash start fuel tries patience mode k (s.rows k) s (lookup D hash s k))
          (ready_item-IsEntered D hash committed mode start fuel tries patience k (s.rows k) s h
            unchanged (lookup D hash s k) refl)
