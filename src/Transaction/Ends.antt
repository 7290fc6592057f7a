-- ===== src/Transaction/Ends.antt =====
-- What is left of a transaction behind its end.
use cuckoofs.Base.{ℕ, Bool, true, false, Option, none, some, List, [], ◌∷◌, ◌≡◌, refl, sym, ◌∙◌}
use mathlib.Core.Path.{subst}
use cuckoofs.RwLock.Ops.{Ctx, rw_lock_release_all}
use cuckoofs.RwLock.System.{count}
use cuckoofs.RwLock.Ops.ReleaseAll.{Others, Accounts, Resumable, release_all_lem}
use cuckoofs.DirHash.{Key, Item, Action, added, updated}
use cuckoofs.DirHash.Table.{Dynahash}
use cuckoofs.DirHash.Cache.{State, Outcome, done, failed, ◌>>=◌, partition, to_commit_clear}
use cuckoofs.DirHash.Evict.Safety.{IsEliminated, eliminate-IsEliminated}
use cuckoofs.DirHash.Ops.{
  commit_added, commit_updated, commit_action, commit_actions, commit_for_dir_path_hash,
}
use cuckoofs.DirHash.Coherence.{Cached, Inv}
use cuckoofs.DirHash.Coherence.Steps.{IsEnded, commit_for_dir_path_hash-IsEnded}
use cuckoofs.Path.Tree.{empty_tree}
use cuckoofs.Transaction as Transaction
use cuckoofs.Transaction.{
  Explicit, nothing, begun, prepared, Answers, Session, End, ended_with, stopped_by, Event,
  clear_remote_transaction_gid, explicit_rollback, released_all, commit_cache, on_commit, roll_back,
  on_abort, transaction_callback,
}

-- Nothing of a transaction is left in a backend: no place in the tree of paths, no action in the log of
-- the cache, no lock, no transaction on other servers; each lock word has the shares of the others.
pub record IsOver {T : Type 0} (o : Others) (s : Session T) : Type 0 where
  pub no_tree : s.tree ≡ empty_tree
  pub no_log : s.cache.log ≡ []
  pub no_lock : s.cache.locks.held ≡ []
  pub no_gid : s.remote_gid ≡ []
  pub words : Accounts o s.cache.locks.words []

-- An abort rolls an explicit transaction back.
abbrev pub after_abort : Explicit → Explicit
after_abort begun = nothing
after_abort nothing = nothing
after_abort prepared = prepared

module _ (D : Dynahash) (hash : Key → ℕ) (start : D.Table → ℕ) (fuel tries patience : ℕ) where
  -- How an abort ends.
  abbrev pub IsAborted : Others → (Key → ℕ) → Explicit → End D.Table Unit → Type 0
  IsAborted o committed e (ended_with s t) =
      IsOver o s × Cached D hash committed s.cache × (s.explicit ≡ after_abort e)
  IsAborted o committed e (stopped_by s f) = ⊥

  IsOver-kept :
      (o : Others) (s : Session D.Table) (e : Explicit) (cs : List Transaction.Command)
      → IsOver o s
      → IsOver o (record s { explicit = e; commands = cs })
  IsOver-kept o s e cs over = record {
    no_tree = over.no_tree;
    no_log = over.no_log;
    no_lock = over.no_lock;
    no_gid = over.no_gid;
    words = over.words;
  }

  rolled_back-IsAborted :
      (o : Others) (committed : Key → ℕ) (s : Session D.Table) (e : Explicit)
      → s.explicit ≡ e
      → IsOver o s
      → Cached D hash committed s.cache
      → IsAborted o committed e (
          Transaction.◌>>=◌
            (roll_back D hash start fuel tries patience s e)
            (λ s' t. ended_with (Transaction.ask Transaction.quit_abort s') tt))
  unfolding roll_back explicit_rollback
  rolled_back-IsAborted o committed s begun same over c = (IsOver-kept o s nothing _ over, c, refl)
  rolled_back-IsAborted o committed s nothing same over c =
      (IsOver-kept o s s.explicit _ over, c, same)
  rolled_back-IsAborted o committed s prepared same over c =
      (IsOver-kept o s s.explicit _ over, c, same)

  -- An abort of a backend whose handles are part of each lock word, with the interrupt count
  -- below its largest value, and whose cache agrees with what is committed, always ends, and
  -- leaves nothing of the transaction behind: its tree of paths and its log are empty, it holds
  -- no lock and has taken its shares out of the lock words, an explicit transaction is rolled
  -- back, and the cache still agrees with what is committed.
  pub on_abort-IsAborted :
      (a : Answers) (o : Others) (committed : Key → ℕ) (s : Session D.Table)
      → Accounts o s.cache.locks.words s.cache.locks.held
      → Resumable true (count s.cache.locks.held) s.cache.locks.holdoff
      → Cached D hash committed s.cache
      → IsAborted o committed s.explicit
          (transaction_callback D hash start fuel tries patience a Event.abort s)
  unfolding transaction_callback on_abort to_commit_clear released_all clear_remote_transaction_gid
  on_abort-IsAborted a o committed s accounts room c =
      let (locks, ran, none_left, count_left, words) =
        release_all_lem true o s.cache.locks accounts room in
      rw ran (
        rolled_back-IsAborted o committed _ s.explicit refl
          (record {
            no_tree = refl;
            no_log = refl;
            no_lock = none_left;
            no_gid = refl;
            words = words;
          })
          c)

  -- The commit of the cache leaves the locks as they are.
  abbrev KeepsLocks : State D.Table → Outcome D.Table Unit → Type 0
  KeepsLocks s (done s' t) = s'.locks ≡ s.locks
  KeepsLocks s (failed s' e) = Unit {0}

  commit_added-KeepsLocks :
      (p : ℕ) (s : State D.Table) (o : Option (State D.Table × Bool))
      → IsEliminated D p s o
      → KeepsLocks s (commit_added D hash start fuel tries patience s o)
  unfolding commit_added
  commit_added-KeepsLocks p s none h = tt
  commit_added-KeepsLocks p s (some (s', true)) (k, free, r) = r.locks
  commit_added-KeepsLocks p s (some (s', false)) (f, why) = f.locks

  commit_updated-KeepsLocks :
      (k : Key) (v : ℕ) (s : State D.Table) (o : Option Item) (room : Bool)
      → KeepsLocks s (commit_updated D hash start fuel tries patience k v s o room)
  unfolding commit_updated
  commit_updated-KeepsLocks k v s (some i) room = refl
  commit_updated-KeepsLocks k v s none false = refl
  commit_updated-KeepsLocks k v s none true = refl

  commit_action-KeepsLocks :
      (a : Action) (s : State D.Table)
      → KeepsLocks s (commit_action D hash start fuel tries patience a s)
  unfolding commit_action
  commit_action-KeepsLocks (added k) s =
      commit_added-KeepsLocks (partition D hash k) s _
        (eliminate-IsEliminated D start fuel (partition D hash k) s)
  commit_action-KeepsLocks (updated k v) s = commit_updated-KeepsLocks k v s _ _

  then-KeepsLocks :
      (s : State D.Table) (o : Outcome D.Table Unit) (next : State D.Table → Outcome D.Table Unit)
      → KeepsLocks s o
      → ((t : State D.Table) → KeepsLocks t (next t))
      → KeepsLocks s (o >>= λ s' t. next s')
  then-KeepsLocks s (done s' t) next h kept = after (next s') (kept s')
    where
      after : (o : Outcome D.Table Unit) → KeepsLocks s' o → KeepsLocks s o
      after (done t u) e = e ∙ h
      after (failed t f) e = tt
  then-KeepsLocks s (failed s' e) next h kept = tt

  commit_actions-KeepsLocks :
      (log : List Action) (s : State D.Table)
      → KeepsLocks s (commit_actions D hash start fuel tries patience log s)
  unfolding commit_actions
  commit_actions-KeepsLocks [] s = refl
  commit_actions-KeepsLocks (a ∷ log) s =
      then-KeepsLocks s (commit_action D hash start fuel tries patience a s)
        (commit_actions D hash start fuel tries patience log) (commit_action-KeepsLocks a s)
        (commit_actions-KeepsLocks log)

  commit_for_dir_path_hash-KeepsLocks :
      (s : State D.Table)
      → KeepsLocks s (commit_for_dir_path_hash D hash start fuel tries patience s)
  unfolding commit_for_dir_path_hash to_commit_clear
  commit_for_dir_path_hash-KeepsLocks s =
      then-KeepsLocks s (commit_actions D hash start fuel tries patience s.log s)
        (λ s'. done (to_commit_clear s') tt) (commit_actions-KeepsLocks s.log s) (λ t. refl)

  -- How a commit ends: over, or stopped where the cache could not be committed.
  abbrev pub IsOverAt : Others → State D.Table → End D.Table Unit → Type 0
  IsOverAt o c (ended_with s t) = IsOver o s × Inv D hash c.rows s.cache × (s.cache.rows ≡ c.rows)
  IsOverAt o c (stopped_by s f) =
      (c' : State D.Table) × (commit_for_dir_path_hash D hash start fuel tries patience c
        ≡ failed c' f)

  committed_cache-IsOverAt :
      (o : Others) (s : Session D.Table) (r : Outcome D.Table Unit)
      → Accounts o s.cache.locks.words s.cache.locks.held
      → Resumable false (count s.cache.locks.held) s.cache.locks.holdoff
      → s.tree ≡ empty_tree
      → commit_for_dir_path_hash D hash start fuel tries patience s.cache ≡ r
      → IsEnded D hash start fuel tries patience s.cache r
      → KeepsLocks s.cache r
      → IsOverAt o s.cache (
          Transaction.◌>>=◌ (commit_cache D hash start fuel tries patience s r) (λ s₁ t.
            Transaction.◌>>=◌ (released_all s₁ (rw_lock_release_all false s₁.cache.locks)) (λ s₂ u.
              ended_with
                (Transaction.ask Transaction.clear_connection (clear_remote_transaction_gid s₂))
                tt)))
  unfolding commit_cache released_all clear_remote_transaction_gid
  committed_cache-IsOverAt o s (done c t) accounts room root ran (inv, rows, empty) locks =
      let accounts' = subst (λ (l : Ctx). Accounts o l.words l.held) (sym locks) accounts in
      let room' = subst (λ (l : Ctx). Resumable false (count l.held) l.holdoff) (sym locks) room in
      let (l, released, none_left, count_left, words) =
        release_all_lem false o c.locks accounts' room' in
      rw released (
        record {
          no_tree = root;
          no_log = empty;
          no_lock = none_left;
          no_gid = refl;
          words = words;
        },
        record { cached = inv.cached; pending = inv.pending },
        rows,
      )
  committed_cache-IsOverAt o s (failed c e) accounts room root ran h locks = (c, ran)

  -- A commit of a backend whose handles are part of each lock word, with the interrupt count as
  -- high as the handles, and whose cache agrees with what is committed and has the
  -- transaction's changes in its log, leaves nothing of the transaction behind: its tree of
  -- paths and its log are empty, it holds no lock and has taken its shares out of the lock
  -- words, and the cache agrees with the rows that the changes have made. It stops only where
  -- the commit of the cache does.
  pub on_commit-IsOverAt :
      (a : Answers) (o : Others) (committed : Key → ℕ) (s : Session D.Table)
      → Accounts o s.cache.locks.words s.cache.locks.held
      → Resumable false (count s.cache.locks.held) s.cache.locks.holdoff
      → Inv D hash committed s.cache
      → IsOverAt o s.cache (transaction_callback D hash start fuel tries patience a Event.commit s)
  unfolding transaction_callback on_commit
  on_commit-IsOverAt a o committed s accounts room inv =
      committed_cache-IsOverAt o
        (record s {
          tree = empty_tree;
          commands = (Transaction.ask Transaction.remote_commit s).commands;
        })
        (commit_for_dir_path_hash D hash start fuel tries patience s.cache) accounts room refl refl
        (commit_for_dir_path_hash-IsEnded D hash start fuel tries patience committed s.cache inv)
        (commit_for_dir_path_hash-KeepsLocks s.cache)
