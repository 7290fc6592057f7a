-- ===== src/DirHash/Coherence/Steps.antt =====
-- Transactions as sequences of calls that end with CommitForDirPathHash or AbortForDirPathHash.
use cuckoofs.Base.{
  ℕ, Bool, true, false, Option, none, some, List, [], ◌∷◌, ◌≡◌, ◌≢◌, refl, ap, sym, ◌∙◌, ◌⊎◌, inl,
  inr,
}
use mathlib.Core.Path.{subst}
use cuckoofs.RwLock.Ops.{Ctx, ok, rw_lock_release_all}
use cuckoofs.DirHash.{Key, Item, DirLock, Action, added, updated, set_key, path_not_exist, is_none}
use cuckoofs.DirHash.Keys.{Key-cases, set_key_self, set_key_other}
use cuckoofs.DirHash.Table.{Dynahash}
use cuckoofs.DirHash.Cache.{State, Outcome, done, failed, ◌>>=◌, partition, lookup, to_commit_clear}
use cuckoofs.DirHash.Evict.Safety.{IsEliminated, eliminate-IsEliminated}
use cuckoofs.DirHash.Ops.{
  search_directory, insert_directory, delete_directory, commit_added, commit_updated, commit_action,
  commit_actions, commit_for_dir_path_hash, abort_for_dir_path_hash,
}
use cuckoofs.DirHash.Coherence.{
  replay, Cached, Inv, Cached-Frame, Cached-IsRemoval, Cached-write, Cached-rows,
}
use cuckoofs.DirHash.Coherence.Calls.{IsFound, search_directory-IsFound}
use cuckoofs.DirHash.Coherence.Changes.{
  IsLoggable, IsChanged, insert_directory-IsChanged, delete_directory-IsChanged,
}

module _ (D : Dynahash) (hash : Key → ℕ) (start : D.Table → ℕ) (fuel tries patience : ℕ) where
  -- What a part of the commit comes to, with the rows that are committed after it.
  abbrev IsCommitted : (Key → ℕ) → State D.Table → Outcome D.Table Unit → Type 0
  IsCommitted rows s (done s' t) = Cached D hash rows s' × (s'.rows ≡ s.rows)
  IsCommitted rows s (failed s' e) = Unit {0}

  commit_added-IsCommitted :
      (rows : Key → ℕ) (p : ℕ) (s : State D.Table) (o : Option (State D.Table × Bool))
      → Cached D hash rows s
      → IsEliminated D p s o
      → IsCommitted rows s (commit_added D hash start fuel tries patience s o)
  unfolding commit_added
  commit_added-IsCommitted rows p s none h e = tt
  commit_added-IsCommitted rows p s (some (s', true)) h (k, free, r) =
      (Cached-IsRemoval D hash rows p k s s' r h, r.rows)
  commit_added-IsCommitted rows p s (some (s', false)) h (f, why) =
      (Cached-Frame D hash rows s s' f h, f.rows)

  others_stay : (rows : Key → ℕ) (k : Key) (v : ℕ) (l : Key) → l ≢ k → set_key rows k v l ≡ rows l
  others_stay rows k v l apart = elim (Key-cases l k) [
    | inl same ↦ absurd (apart same)
    | inr (other, a) ↦ set_key_other rows k v l other
  ]

  commit_updated-IsCommitted :
      (rows : Key → ℕ) (k : Key) (v : ℕ) (s : State D.Table) (o : Option Item) (room : Bool)
      → Cached D hash rows s
      → lookup D hash s k ≡ o
      → IsCommitted
          (set_key rows k v)
          s
          (commit_updated D hash start fuel tries patience k v s o room)
  unfolding commit_updated
  commit_updated-IsCommitted rows k v s (some i) room h there = (
    Cached-write D hash rows (set_key rows k v) s k (record i { inode_id = v })
        (others_stay rows k v) (inr (sym (set_key_self rows k v))) h,
    refl,
  )
  commit_updated-IsCommitted rows k v s none false h missing = (
    (λ l i there. elim (Key-cases l k) [
      | inl same ↦ let here = rw same at there in let e = sym missing ∙ here in absurd cc
      | inr (other, apart) ↦ rw (others_stay rows k v l apart) (h l i there)
    ]),
    refl,
  )
  commit_updated-IsCommitted rows k v s none true h missing = (
    Cached-write D hash rows (set_key rows k v) s k
        (record (D.stale (s.tables (partition D hash k)) k) { inode_id = v }) (others_stay rows k v)
        (inr (sym (set_key_self rows k v))) h,
    refl,
  )

  then-IsCommitted :
      (log : List Action) (rows : Key → ℕ) (s : State D.Table) (o : Outcome D.Table Unit)
      → IsCommitted rows s o
      → ((t : State D.Table)
          → Cached D hash rows t
          → IsCommitted (replay log rows) t (commit_actions D hash start fuel tries patience log t))
      → IsCommitted
          (replay log rows)
          s
          (o >>= λ s' t. commit_actions D hash start fuel tries patience log s')
  then-IsCommitted log rows s (done s' t) (c, r) next =
      after (commit_actions D hash start fuel tries patience log s') (next s' c)
    where
      after :
          (o : Outcome D.Table Unit)
          → IsCommitted (replay log rows) s' o
          → IsCommitted (replay log rows) s o
      after (done t u) (c, q) = (c, q ∙ r)
      after (failed t e) h = tt
  then-IsCommitted log rows s (failed s' e) h next = tt

  abbrev after_action : Action → (Key → ℕ) → Key → ℕ
  after_action (added k) rows = rows
  after_action (updated k v) rows = set_key rows k v

  commit_action-IsCommitted :
      (a : Action) (rows : Key → ℕ) (s : State D.Table)
      → Cached D hash rows s
      → IsCommitted (after_action a rows) s (commit_action D hash start fuel tries patience a s)
  unfolding commit_action
  commit_action-IsCommitted (added k) rows s h =
      commit_added-IsCommitted rows (partition D hash k) s _ h
        (eliminate-IsEliminated D start fuel (partition D hash k) s)
  commit_action-IsCommitted (updated k v) rows s h =
      commit_updated-IsCommitted rows k v s (lookup D hash s k)
        (D.has_room (s.tables (partition D hash k))) h refl

  commit_actions-IsCommitted :
      (log : List Action) (rows : Key → ℕ) (s : State D.Table)
      → Cached D hash rows s
      → IsCommitted (replay log rows) s (commit_actions D hash start fuel tries patience log s)
  unfolding commit_actions replay
  commit_actions-IsCommitted [] rows s h = (h, refl)
  commit_actions-IsCommitted (added k ∷ log) rows s h =
      then-IsCommitted log rows s (commit_action D hash start fuel tries patience (added k) s)
        (commit_action-IsCommitted (added k) rows s h) (commit_actions-IsCommitted log rows)
  commit_actions-IsCommitted (updated k v ∷ log) rows s h =
      then-IsCommitted log (set_key rows k v) s
        (commit_action D hash start fuel tries patience (updated k v) s)
        (commit_action-IsCommitted (updated k v) rows s h)
        (commit_actions-IsCommitted log (set_key rows k v))

  -- What the end of a transaction leaves: an empty log, and a cache that agrees with the rows.
  abbrev pub IsEnded : State D.Table → Outcome D.Table Unit → Type 0
  IsEnded s (done s' t) = Inv D hash s.rows s' × (s'.rows ≡ s.rows) × (s'.log ≡ [])
  IsEnded s (failed s' e) = Unit {0}

  commit-IsEnded :
      (rows : Key → ℕ) (s : State D.Table) (o : Outcome D.Table Unit)
      → ((k : Key) → s.rows k ≡ rows k)
      → IsCommitted rows s o
      → IsEnded s (o >>= λ s' t. done (to_commit_clear s') tt)
  unfolding to_commit_clear replay
  commit-IsEnded rows s (failed s' e) same h = tt
  commit-IsEnded rows s (done s' t) same (c, r) = (
    record {
      cached = Cached-rows D hash rows s.rows s' same c;
      pending = λ k. ap (λ (f : Key → ℕ). f k) r;
    },
    r,
    refl,
  )

  -- When a transaction, whose cache agrees with what is committed and whose log has its changes, commits
  -- without an error, every entry of the cache agrees with the rows that the changes have made, or
  -- says that it does not know its key, and the log is empty.
  pub commit_for_dir_path_hash-IsEnded :
      (committed : Key → ℕ) (s : State D.Table)
      → Inv D hash committed s
      → IsEnded s (commit_for_dir_path_hash D hash start fuel tries patience s)
  unfolding commit_for_dir_path_hash
  commit_for_dir_path_hash-IsEnded committed s h =
      commit-IsEnded (replay s.log committed) s
        (commit_actions D hash start fuel tries patience s.log s) h.pending
        (commit_actions-IsCommitted s.log committed s h.cached)

  -- One call of a backend: the rows that are committed before it and after it. An abort takes the rows
  -- of the directory table back; behind either end of a transaction RWLockReleaseAll gives back the
  -- locks.
  pub data Step : (Key → ℕ) × State D.Table → (Key → ℕ) × State D.Table → Type 0 where
    searched :
        {c : Key → ℕ} {s s' : State D.Table} {n : ℕ} (mode : DirLock) (k : Key)
        → s.rows k ≡ c k
        → search_directory D hash start fuel tries patience mode k s ≡ done s' n
        → Step (c, s) (c, s')
    inserted :
        {c : Key → ℕ} {s s' : State D.Table} (mode : DirLock) (k : Key) (v : ℕ)
        → s.rows k ≡ c k
        → IsLoggable D hash start fuel tries patience c mode k s
        → insert_directory D hash start fuel tries patience mode k v s ≡ done s' tt
        → Step (c, s) (c, s')
    deleted :
        {c : Key → ℕ} {s s' : State D.Table} (mode : DirLock) (k : Key)
        → (is_none mode ≡ false) ⊎ ((i : Item) × (lookup D hash s k ≡ some i))
        → delete_directory D hash start fuel tries patience mode k s ≡ done s' tt
        → Step (c, s) (c, s')
    aborted :
        {c : Key → ℕ} {s : State D.Table} {locks : Ctx}
        → rw_lock_release_all true s.locks ≡ some (ok locks)
        → Step
            (c, s)
            (
              c,
              record (abort_for_dir_path_hash D hash start fuel tries patience s) {
                rows = c;
                locks = locks;
              },
            )
    committed :
        {c : Key → ℕ} {s s' : State D.Table} {locks : Ctx}
        → commit_for_dir_path_hash D hash start fuel tries patience s ≡ done s' tt
        → rw_lock_release_all false s'.locks ≡ some (ok locks)
        → Step (c, s) (s.rows, record s' { locks = locks })

  pub data Steps : (Key → ℕ) × State D.Table → (Key → ℕ) × State D.Table → Type 0 where
    stop : {c : Key → ℕ} {s : State D.Table} → Steps (c, s) (c, s)
    step :
        {c c' c'' : Key → ℕ} {s s' s'' : State D.Table}
        → Step (c, s) (c', s')
        → Steps (c', s') (c'', s'')
        → Steps (c, s) (c'', s'')

  Step-Inv :
      {c c' : Key → ℕ} {s s' : State D.Table}
      → Step (c, s) (c', s')
      → Inv D hash c s
      → Inv D hash c' s'
  unfolding to_commit_clear replay
  Step-Inv {c} {c'} {s} (searched mode k same e) h =
      (subst (IsFound D hash start fuel tries patience c (s.rows k) s) e
        (search_directory-IsFound D hash start fuel tries patience c mode k s h same)).0
  Step-Inv {c} {c'} {s} (inserted mode k v same loggable e) h =
      (subst (IsChanged D hash start fuel tries patience c k v s) e (
        insert_directory-IsChanged D hash start fuel tries patience c mode k v s h same loggable)).0
  Step-Inv {c} {c'} {s} (deleted mode k loggable e) h =
      (subst (IsChanged D hash start fuel tries patience c k path_not_exist s) e
        (delete_directory-IsChanged D hash start fuel tries patience c mode k s h loggable)).0
  Step-Inv (aborted released) h = record { cached = h.cached; pending = λ k. refl }
  Step-Inv {c} {c'} {s} (committed e released) h =
      let ended = (subst (IsEnded s) e (commit_for_dir_path_hash-IsEnded c s h)).0 in
      record { cached = ended.cached; pending = ended.pending }

  -- Over any sequence of calls of one backend that end without an error, searches, insertions and
  -- deletions in transactions that commit or abort and then give back all their locks, where a search or an insertion is of a key that the
  -- transaction has not changed and a change has a lock or an entry, every entry of the cache agrees
  -- with the rows that are committed or says that it does not know its key, and the rows that the
  -- transaction sees are the committed ones changed as its log says.
  pub Steps-Inv :
      {c c' : Key → ℕ} {s s' : State D.Table}
      → Steps (c, s) (c', s')
      → Inv D hash c s
      → Inv D hash c' s'
  Steps-Inv stop h = h
  Steps-Inv (step one rest) h = Steps-Inv rest (Step-Inv one h)
