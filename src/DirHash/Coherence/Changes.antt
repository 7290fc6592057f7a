-- ===== src/DirHash/Coherence/Changes.antt =====
-- Insertions and deletions through the cache: the row changes at once, the cache when the transaction
-- commits.
use cuckoofs.Base.{
  ℕ, Bool, true, false, Option, none, some, ◌==◌, ◌&&◌, not, if◌then◌else◌, ◌≡◌, refl, ap, sym, ◌∙◌,
  ◌⊎◌, inl, inr, leb, length, Bool-cases, eq_of_some,
}
use mathlib.Core.Path.{subst}
use cuckoofs.DirHash.{
  Key, Item, DirLock, exclusive, shared, none_mode, is_none, set_key, path_unknown, path_not_exist,
  max_to_commit,
}
use cuckoofs.DirHash.Keys.{Key-cases, set_key_self, set_key_other}
use cuckoofs.DirHash.Table.{Dynahash}
use cuckoofs.DirHash.Cache.{
  State, Outcome, done, failed, ◌>>=◌, lookup, insert_row, delete_row, to_commit_update_entry,
}
use cuckoofs.DirHash.Ops.{
  ready_item, use_entry, insert_item, insert_directory, delete_item, delete_entry, delete_directory,
}
use cuckoofs.DirHash.Coherence.{replay, replay-updated, Cached, Inv}
use cuckoofs.DirHash.Coherence.Enter.{
  HasEntry, IsEntered, enter_loop-IsEntered, ready_item-IsEntered,
}
use cuckoofs.DirHash.Coherence.Calls.{IsUsed, use_item-IsUsed}

module _ (D : Dynahash) (hash : Key → ℕ) (start : D.Table → ℕ) (fuel tries patience : ℕ)
    (committed : Key → ℕ) where
  -- What a change of the row of `k` to `v` comes to.
  abbrev pub IsChanged : Key → ℕ → State D.Table → Outcome D.Table Unit → Type 0
  IsChanged k v s (done s' t) =
      Inv D hash committed s' × ((j : Key) → s'.rows j ≡ set_key s.rows k v j)
  IsChanged k v s (failed s' e) = Cached D hash committed s'

  abbrev Any : ℕ → Type 0
  Any n = Unit {0}

  logged-IsChanged :
      (k : Key) (v : ℕ) (s t : State D.Table)
      → Inv D hash committed t
      → t.rows ≡ s.rows
      → IsChanged k v s (to_commit_update_entry k v (record t { rows = set_key t.rows k v }))
  unfolding to_commit_update_entry
  logged-IsChanged k v s t h rows = elim (Bool-cases (leb max_to_commit (length t.log))) [
    | inl full ↦ rw full h.cached
    | inr room ↦ rw room (
      record {
        cached = h.cached;
        pending = λ j. rows_after j ∙ sym (replay-updated t.log committed k v j);
      },
      λ j. ap (λ (r : Key → ℕ). set_key r k v j) rows,
    )
  ]
    where
      rows_after : (j : Key) → set_key t.rows k v j ≡ set_key (replay t.log committed) k v j
      rows_after j = elim (Key-cases j k) [
        | inl same ↦
            rw same (set_key_self t.rows k v ∙ sym (set_key_self (replay t.log committed) k v))
        | inr (other, apart) ↦
            set_key_other t.rows k v j other
            ∙ h.pending j
            ∙ sym (set_key_other (replay t.log committed) k v j other)
      ]

  inserted-IsChanged :
      (k : Key) (v : ℕ) (s t : State D.Table)
      → Inv D hash committed t
      → t.rows ≡ s.rows
      → IsChanged k v s (insert_row k v t >>= λ t' u. to_commit_update_entry k v t')
  unfolding insert_row
  inserted-IsChanged k v s t h rows = elim (Bool-cases (t.rows k == path_not_exist)) [
    | inl free ↦ rw free (logged-IsChanged k v s t h rows)
    | inr taken ↦ rw taken h.cached
  ]

  deleted-IsChanged :
      (k : Key) (s t : State D.Table)
      → Inv D hash committed t
      → t.rows ≡ s.rows
      → IsChanged k path_not_exist s
          (delete_row k t >>= λ t' u. to_commit_update_entry k path_not_exist t')
  unfolding delete_row
  deleted-IsChanged k s t h rows = elim (Bool-cases (t.rows k == path_not_exist)) [
    | inl missing ↦ rw missing h.cached
    | inr there ↦ rw there (logged-IsChanged k path_not_exist s t h rows)
  ]

  -- The change of a row under the entry of its key.
  used-IsChanged :
      (k : Key) (v : ℕ) (s t : State D.Table) (change : State D.Table → Outcome D.Table Unit)
      → ((t : State D.Table)
          → Inv D hash committed t
          → t.rows ≡ s.rows
          → IsChanged k v s (change t))
      → t.rows ≡ s.rows
      → (o : Outcome D.Table Unit) → IsUsed D hash start fuel tries patience committed Any k t o
      → IsChanged k v s (o >>= λ t' u. change t')
  used-IsChanged k v s t change h rows (done t' u) (inv, r, entry) = h t' inv (r ∙ rows)
  used-IsChanged k v s t change h rows (failed t' e) (c, fine) = c

  -- An entry is there, or a lock is asked for: then the change is logged.
  abbrev pub IsLoggable : DirLock → Key → State D.Table → Type 0
  IsLoggable mode k s =
      (is_none mode ≡ false)
      ⊎ ((i : Item) × (lookup D hash s k ≡ some i) × ((i.inode_id == path_unknown) ≡ false))

  -- The start of a change: an entry, or an error.
  abbrev IsReady : Key → State D.Table → Outcome D.Table Bool → Type 0
  IsReady k s (done s' true) =
      Inv D hash committed s' × (s'.rows ≡ s.rows) × HasEntry D hash committed Any k s'
  IsReady k s (done s' false) = ⊥
  IsReady k s (failed s' e) = Cached D hash committed s'

  IsEntered-IsReady :
      (mode : DirLock) (Good : ℕ → Type 0) (k : Key) (s : State D.Table) (o : Outcome D.Table Bool)
      → is_none mode ≡ false
      → IsEntered D hash committed mode Good k s o
      → IsReady k s o
  IsEntered-IsReady mode Good k s (done s' true) locks (h, rows, (i, there, good)) =
      (h, rows, (i, there, tt))
  IsEntered-IsReady mode Good k s (done s' false) locks (h, rows, without) =
      let e = sym locks ∙ without in absurd cc
  IsEntered-IsReady mode Good k s (failed s' e) locks (c, fine) = c

  ready-IsChanged :
      (mode : DirLock) (k : Key) (v : ℕ) (s : State D.Table)
      → (change otherwise : State D.Table → Outcome D.Table Unit)
      → ((t : State D.Table)
          → Inv D hash committed t
          → t.rows ≡ s.rows
          → IsChanged k v s (change t))
      → (o : Outcome D.Table Bool) → IsReady k s o
      → IsChanged k v s (
          o >>= λ s' found.
          if found
          then (use_entry D hash start fuel tries patience mode k s' >>= λ t u. change t)
          else otherwise s')
  ready-IsChanged mode k v s change otherwise h (done s' true) (inv, rows, entry) =
      used-IsChanged k v s s' change h rows (use_entry D hash start fuel tries patience mode k s')
        (use_item-IsUsed D hash start fuel tries patience committed mode Any k s' inv entry)
  ready-IsChanged mode k v s change otherwise h (done s' false) r = elim r [ ]
  ready-IsChanged mode k v s change otherwise h (failed s' e) r = r

  insert_item-IsReady :
      (mode : DirLock) (k : Key) (s : State D.Table)
      → Inv D hash committed s
      → s.rows k ≡ committed k
      → IsLoggable mode k s
      → (o : Option Item) → lookup D hash s k ≡ o
      → IsReady k s (insert_item D hash start fuel tries patience mode k s o)
  unfolding insert_item
  insert_item-IsReady mode k s h same (inr (i, there, known)) none missing =
      let e = sym there ∙ missing in absurd cc
  insert_item-IsReady mode k s h same (inr (i, there, known)) (some j) found =
      let it = eq_of_some i j (sym there ∙ found) in
      let known' : (j.inode_id == path_unknown) ≡ false =
        subst (λ (x : Item). (x.inode_id == path_unknown) ≡ false) it known in
      rw known' (unfold ready_item in rw known' ((h, refl, (j, found, tt))))
  insert_item-IsReady mode k s h same (inl locks) none missing =
      elim (Bool-cases (s.rows k == path_not_exist)) [
        | inl free ↦ rw free (
            IsEntered-IsReady mode (λ n. n ≡ s.rows k) k s _ locks
              (ready_item-IsEntered D hash committed mode start fuel tries patience k (s.rows k) s h
                same none missing))
        | inr taken ↦ rw taken h.cached
      ]
  insert_item-IsReady mode k s h same (inl locks) (some i) there =
      elim (Bool-cases (i.inode_id == path_unknown && not (s.rows k == path_not_exist))) [
        | inl clash ↦ rw clash h.cached
        | inr fine ↦ rw fine (
            IsEntered-IsReady mode (λ n. n ≡ s.rows k) k s _ locks
              (ready_item-IsEntered D hash committed mode start fuel tries patience k (s.rows k) s h
                same (some i) there))
      ]

  -- In a transaction whose cache agrees with what is committed, the insertion of a key that the
  -- transaction has not changed, with a lock or with an entry that knows the key, changes the row of
  -- that key and no other if it ends without an error, and logs the change; until the transaction
  -- commits, every entry of the cache still agrees with what is committed.
  pub insert_directory-IsChanged :
      (mode : DirLock) (k : Key) (v : ℕ) (s : State D.Table)
      → Inv D hash committed s
      → s.rows k ≡ committed k
      → IsLoggable mode k s
      → IsChanged k v s (insert_directory D hash start fuel tries patience mode k v s)
  unfolding insert_directory
  insert_directory-IsChanged mode k v s h same loggable =
      ready-IsChanged mode k v s (λ t. insert_row k v t >>= λ t' u. to_commit_update_entry k v t')
        (λ t. insert_row k v t) (λ t inv rows. inserted-IsChanged k v s t inv rows)
        (insert_item D hash start fuel tries patience mode k s (lookup D hash s k))
        (insert_item-IsReady mode k s h same loggable (lookup D hash s k) refl)

  delete_item-IsReady :
      (mode : DirLock) (k : Key) (s : State D.Table)
      → Inv D hash committed s
      → (is_none mode ≡ false) ⊎ ((i : Item) × (lookup D hash s k ≡ some i))
      → (o : Option Item) → lookup D hash s k ≡ o
      → IsReady k s (delete_item D hash start fuel tries patience mode k s o)
  unfolding delete_item
  delete_item-IsReady mode k s h loggable (some i) there = (h, refl, (i, there, tt))
  delete_item-IsReady mode k s h (inr (i, there)) none missing =
      let e = sym there ∙ missing in absurd cc
  delete_item-IsReady mode k s h (inl locks) none missing = IsEntered-IsReady mode Any k s _ locks (
      enter_loop-IsEntered D hash committed mode start fuel tries patience Any k path_unknown tries
        (λ i s'. done s' true) s h (inl refl) tt (λ i t inv there. (inv, refl, (i, there, tt))))

  delete_entry-IsChanged :
      (mode : DirLock) (k : Key) (s : State D.Table)
      → Inv D hash committed s
      → (is_none mode ≡ false) ⊎ ((i : Item) × (lookup D hash s k ≡ some i))
      → IsChanged k path_not_exist s (delete_entry D hash start fuel tries patience mode k s)
  unfolding delete_entry
  delete_entry-IsChanged mode k s h loggable =
      ready-IsChanged mode k path_not_exist s
        (λ t. delete_row k t >>= λ t' u. to_commit_update_entry k path_not_exist t')
        (λ t. delete_row k t) (λ t inv rows. deleted-IsChanged k s t inv rows)
        (delete_item D hash start fuel tries patience mode k s (lookup D hash s k))
        (delete_item-IsReady mode k s h loggable (lookup D hash s k) refl)

  -- In a transaction whose cache agrees with what is committed, the deletion of a key, with a lock or
  -- with an entry, changes the row of that key and no other if it ends without an error, and logs the
  -- change; until the transaction commits, every entry of the cache still agrees with what is
  -- committed.
  pub delete_directory-IsChanged :
      (mode : DirLock) (k : Key) (s : State D.Table)
      → Inv D hash committed s
      → (is_none mode ≡ false) ⊎ ((i : Item) × (lookup D hash s k ≡ some i))
      → IsChanged k path_not_exist s (delete_directory D hash start fuel tries patience mode k s)
  unfolding delete_directory
  delete_directory-IsChanged shared k s h loggable = h.cached
  delete_directory-IsChanged none_mode k s h loggable =
      delete_entry-IsChanged none_mode k s h loggable
  delete_directory-IsChanged exclusive k s h loggable =
      delete_entry-IsChanged exclusive k s h loggable
