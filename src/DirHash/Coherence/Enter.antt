-- ===== src/DirHash/Coherence/Enter.antt =====
-- Entering a key into the cache keeps the invariant, and gives an entry that is right.
use cuckoofs.Base.{
  ℕ, zero, suc, Bool, true, false, Option, none, some, ◌==◌, ◌≡◌, ◌≢◌, refl, ap, sym, ◌∙◌, ◌⊎◌, inl,
  inr, leb, length, Bool-cases, ==_iff,
}
use cuckoofs.DirHash.{Key, Item, DirLock, is_none, path_unknown, max_to_commit}
use cuckoofs.DirHash.Table.{Dynahash}
use cuckoofs.DirHash.Cache.{
  State, Outcome, done, failed, corrupt, partition, lookup, write, to_commit_add_entry,
}
use cuckoofs.DirHash.Evict.{eliminate}
use cuckoofs.DirHash.Evict.Safety.{IsEliminated, eliminate-IsEliminated}
use cuckoofs.DirHash.Ops.{meet_entry, enter_new, enter_again, enter_round, enter_loop, ready_item}
use cuckoofs.DirHash.Coherence.{
  replay, replay-added, Cached, Inv, Cached-Frame, Cached-IsRemoval, Cached-write, lookup-write,
  Cached-new_entry,
}

module _ (D : Dynahash) (hash : Key → ℕ) (committed : Key → ℕ) where
  -- The entry of `k` is there, with an inode number that the caller accepts.
  abbrev pub HasEntry : (ℕ → Type 0) → Key → State D.Table → Type 0
  HasEntry Good k s = (i : Item) × (lookup D hash s k ≡ some i) × Good i.inode_id

  pub Inv-kept :
      (s s' : State D.Table)
      → Inv D hash committed s
      → Cached D hash committed s'
      → s'.rows ≡ s.rows
      → s'.log ≡ s.log
      → Inv D hash committed s'
  Inv-kept s s' h c rows log = record {
    cached = c;
    pending = λ k.
        ap (λ (r : Key → ℕ). r k) rows ∙ h.pending k ∙ ap (λ l. replay l committed k) (sym log);
  }

  pub eliminated-Inv :
      (p : ℕ) (s s' : State D.Table) (removed : Bool)
      → IsEliminated D p s (some (s', removed))
      → Inv D hash committed s
      → Inv D hash committed s' × (s'.rows ≡ s.rows)
  eliminated-Inv p s s' true (k, free, r) h =
      (Inv-kept s s' h (Cached-IsRemoval D hash committed p k s s' r h.cached) r.rows r.log, r.rows)
  eliminated-Inv p s s' false (f, why) h =
      (Inv-kept s s' h (Cached-Frame D hash committed s s' f h.cached) f.rows f.log, f.rows)

  -- What entering comes to: without an entry only if no lock is asked for.
  module _ (mode : DirLock) where
    abbrev pub IsEntered : (ℕ → Type 0) → Key → State D.Table → Outcome D.Table Bool → Type 0
    IsEntered Good k s (done s' true) =
        Inv D hash committed s' × (s'.rows ≡ s.rows) × HasEntry Good k s'
    IsEntered Good k s (done s' false) =
        Inv D hash committed s' × (s'.rows ≡ s.rows) × (is_none mode ≡ true)
    IsEntered Good k s (failed s' e) = Cached D hash committed s' × (e ≢ corrupt)

    enter_new-IsEntered :
        (start : D.Table → ℕ) (fuel tries patience : ℕ) (Good : ℕ → Type 0) (k : Key) (v : ℕ)
        (s : State D.Table)
        → Inv D hash committed s
        → (v ≡ path_unknown) ⊎ (v ≡ committed k)
        → Good v
        → IsEntered Good k s (enter_new D hash start fuel tries patience k v s)
    unfolding enter_new to_commit_add_entry
    enter_new-IsEntered start fuel tries patience Good k v s h right good =
        elim (Bool-cases (leb max_to_commit (length s.log))) [
          | inl full ↦
              rw full ((Cached-new_entry D hash committed s k v right h.cached, λ e. absurd cc))
          | inr room ↦ rw room (
            (record {
              cached = Cached-new_entry D hash committed s k v right h.cached;
              pending = λ j. h.pending j ∙ sym (replay-added s.log committed k j);
            }),
            refl,
            (
              record {
                inode_id = v;
                lock = (D.stale (s.tables (partition D hash k)) k).lock;
                usage_count = 0;
              },
              lookup-write D hash s k (record {
                inode_id = v;
                lock = (D.stale (s.tables (partition D hash k)) k).lock;
                usage_count = 0;
              }),
              good,
            ),
          )
        ]

    meet_entry-IsEntered :
        (start : D.Table → ℕ) (fuel tries patience : ℕ) (k : Key) (v : ℕ) (i : Item)
        (s : State D.Table)
        → Inv D hash committed s
        → v ≡ committed k
        → lookup D hash s k ≡ some i
        → IsEntered (λ n. n ≡ v) k s (meet_entry D hash start fuel tries patience k v i s)
    unfolding meet_entry
    meet_entry-IsEntered start fuel tries patience k v i s h right there =
        elim (Bool-cases (i.inode_id == path_unknown)) [
          | inl unknown ↦
              let new : Item = record i { inode_id = v } in
              let c =
                Cached-write D hash committed committed s k new (λ l apart. refl) (inr right)
                  h.cached in
              rw unknown (
                (
                  Inv-kept s (write D hash s k new) h c refl refl,
                  refl,
                  (new, lookup-write D hash s k new, refl),
                ))
          | inr known ↦ elim (h.cached k i there) [
            | inl unknown ↦
                let e = (==_iff i.inode_id path_unknown).1 unknown in
                let clash = sym e ∙ known in absurd cc
            | inr same ↦
                let equal = (==_iff i.inode_id v).1 (same ∙ sym right) in
                rw (known, equal) ((h, refl, (i, there, same ∙ sym right)))
          ]
        ]

    rows-IsEntered :
        (Good : ℕ → Type 0) (k : Key) (s t : State D.Table) (o : Outcome D.Table Bool)
        → t.rows ≡ s.rows
        → IsEntered Good k t o
        → IsEntered Good k s o
    rows-IsEntered Good k s t (done s' true) e (inv, rows, rest) = (inv, rows ∙ e, rest)
    rows-IsEntered Good k s t (done s' false) e (inv, rows, without) = (inv, rows ∙ e, without)
    rows-IsEntered Good k s t (failed s' x) e h = h

    -- Entering in a loop: what is met is right, and so is what is made.
    module _ (start : D.Table → ℕ) (fuel tries patience : ℕ) (Good : ℕ → Type 0) (k : Key)
        (v : ℕ) where
      enter_again-IsEntered :
          (again : State D.Table → Outcome D.Table Bool) (s : State D.Table)
          → Inv D hash committed s
          → ((t : State D.Table) → Inv D hash committed t → IsEntered Good k t (again t))
          → (o : Option (State D.Table × Bool)) → IsEliminated D (partition D hash k) s o
          → IsEntered Good k s (enter_again D hash start fuel tries patience again s o)
      unfolding enter_again
      enter_again-IsEntered again s h next none e = (h.cached, λ e. absurd cc)
      enter_again-IsEntered again s h next (some (s', removed)) e =
          let (inv, rows) = eliminated-Inv (partition D hash k) s s' removed e h in
          rows-IsEntered Good k s s' (again s') rows (next s' inv)

      enter_round-IsEntered :
          (meet : Item → State D.Table → Outcome D.Table Bool)
          → (again : State D.Table → Outcome D.Table Bool) (s : State D.Table)
          → Inv D hash committed s
          → (v ≡ path_unknown) ⊎ (v ≡ committed k)
          → Good v
          → ((i : Item) → lookup D hash s k ≡ some i → IsEntered Good k s (meet i s))
          → ((t : State D.Table) → Inv D hash committed t → IsEntered Good k t (again t))
          → (found : Option Item) → lookup D hash s k ≡ found
          → (room without : Bool) → is_none mode ≡ without
          → IsEntered Good k s
              (enter_round D hash start fuel tries patience meet again k v s found room without)
      unfolding enter_round
      enter_round-IsEntered meet again s h right good met next (some i) there room without w =
          met i there
      enter_round-IsEntered meet again s h right good met next none there true without w =
          enter_new-IsEntered start fuel tries patience Good k v s h right good
      enter_round-IsEntered meet again s h right good met next none there false true w =
          (h, refl, w)
      enter_round-IsEntered meet again s h right good met next none there false false w =
          enter_again-IsEntered again s h next (eliminate D start fuel (partition D hash k) s)
            (eliminate-IsEliminated D start fuel (partition D hash k) s)

      pub enter_loop-IsEntered :
          (n : ℕ) (meet : Item → State D.Table → Outcome D.Table Bool)
          → (s : State D.Table) → Inv D hash committed s
          → (v ≡ path_unknown) ⊎ (v ≡ committed k)
          → Good v
          → ((i : Item) (t : State D.Table)
              → Inv D hash committed t
              → lookup D hash t k ≡ some i
              → IsEntered Good k t (meet i t))
          → IsEntered Good k s (enter_loop D hash start fuel tries patience n mode k v meet s)
      unfolding enter_loop
      enter_loop-IsEntered zero meet s h right good met = (h.cached, λ e. absurd cc)
      enter_loop-IsEntered (suc n) meet s h right good met =
          enter_round-IsEntered meet (enter_loop D hash start fuel tries patience n mode k v meet) s
            h right good (λ i there. met i s h there)
            (λ t inv. enter_loop-IsEntered n meet t inv right good met) (lookup D hash s k) refl
            (D.has_room (s.tables (partition D hash k))) (is_none mode) refl

    -- The first search and the entering that may follow it: the entry holds what is committed.
    pub ready_item-IsEntered :
        (start : D.Table → ℕ) (fuel tries patience : ℕ) (k : Key) (v : ℕ) (s : State D.Table)
        → Inv D hash committed s
        → v ≡ committed k
        → (o : Option Item) → lookup D hash s k ≡ o
        → IsEntered (λ n. n ≡ v) k s (ready_item D hash start fuel tries patience mode k v s o)
    unfolding ready_item
    ready_item-IsEntered start fuel tries patience k v s h right none there =
        enter_loop-IsEntered start fuel tries patience (λ n. n ≡ v) k v tries
          (meet_entry D hash start fuel tries patience k v) s h (inr right) refl
          (λ i t inv there. meet_entry-IsEntered start fuel tries patience k v i t inv right there)
    ready_item-IsEntered start fuel tries patience k v s h right (some i) there =
        elim (Bool-cases (i.inode_id == path_unknown)) [
          | inl unknown ↦ rw unknown (
              enter_loop-IsEntered start fuel tries patience (λ n. n ≡ v) k v tries
                (meet_entry D hash start fuel tries patience k v) s h (inr right) refl
                (λ i t inv there.
                  meet_entry-IsEntered start fuel tries patience k v i t inv right there))
          | inr known ↦ elim (h.cached k i there) [
            | inl unknown ↦
                let e = (==_iff i.inode_id path_unknown).1 unknown in
                let clash = sym e ∙ known in absurd cc
            | inr same ↦ rw known ((h, refl, (i, there, same ∙ sym right)))
          ]
        ]
