-- ===== src/Transaction.antt =====
-- cuckoo/transaction/transaction.c and cuckoo/include/transaction/transaction.h: the state of an explicit
-- transaction, and what the end of a transaction does to the tree of paths, the cache of directories
-- and the locks of a backend.
-- The calls of PostgreSQL and of the remote servers are recorded in their order, and what they answer
-- is a parameter; a callback that PostgreSQL makes in one of them is an event of its own.
pub mod Ends
mod Tests
use cuckoofs.Base.{ℕ, Bool, true, false, Option, none, some, List, [], ◌∷◌, ◌++◌, if◌then◌else◌}
use cuckoofs.Errors.{ErrorCode}
use cuckoofs.RwLock.Ops as Ops
use cuckoofs.RwLock.Ops.{Ctx, rw_lock_release_all}
use cuckoofs.DirHash.{Key}
use cuckoofs.DirHash.Table.{Dynahash}
use cuckoofs.DirHash.Cache.{State, Outcome, done, failed, Failure, raised, lock_fault, no_room}
use cuckoofs.DirHash.Ops.{commit_for_dir_path_hash, abort_for_dir_path_hash}
use cuckoofs.Path.Tree.{Tree, empty_tree}

-- CuckooExplicitTransactionState
pub data Explicit : Type 0 where
  nothing begun prepared : Explicit

-- What the code asks of PostgreSQL and of the other servers.
pub data Command : Type 0 where
  begin_block commit_command set_isolation end_block abort_block : Command
  prevent_in_block enter_abort quit_abort clear_connection : Command
  remote_prepare remote_commit remote_abort warn_abort_failed : Command
  prepare_block : List ℕ → Command
  finish_prepared : List ℕ → Bool → Command
  remove_inprogress : List ℕ → Command

-- What PostgreSQL and the other servers answer.
pub record Answers : Type 0 where
  pub isolation_set : Bool
  pub ended : Bool
  pub is_prepared : Bool
  pub remote_aborted : Bool

-- A backend in a transaction; an empty `remote_gid` is no transaction on other servers.
pub record Session (T : Type 0) : Type 0 where
  pub explicit : Explicit
  pub remote_gid : List ℕ
  pub tree : Tree
  pub cache : State T
  pub commands : List Command

pub data End (T A : Type 0) : Type 0 where
  ended_with : Session T → A → End T A
  stopped_by : Session T → Failure → End T A

infixl 5 ◌>>=◌
abbrev pub ◌>>=◌ : {T A B : Type 0} → End T A → (Session T → A → End T B) → End T B
ended_with s a >>= f = f s a
stopped_by s e >>= f = stopped_by s e

abbrev pub forgotten : List ℕ → List Command
forgotten [] = []
forgotten (c ∷ cs) = remove_inprogress (c ∷ cs) ∷ []

module _ {T : Type 0} where
  abbrev pub ask : Command → Session T → Session T
  ask c s = record s { commands = s.commands ++ (c ∷ []) }

  -- ClearRemoteTransactionGid
  unfoldable pub clear_remote_transaction_gid : Session T → Session T
  clear_remote_transaction_gid s = record s {
    remote_gid = [];
    commands = s.commands ++ forgotten s.remote_gid;
  }

  abbrev pub wrong_state : {A : Type 0} → Session T → End T A
  wrong_state s = stopped_by s (raised ErrorCode.program_error)

  -- CuckooExplicitTransactionBegin
  unfoldable pub explicit_begin : Answers → Session T → Explicit → End T Unit
  explicit_begin a s nothing =
      let s' = ask set_isolation (ask commit_command (ask begin_block s)) in
      if a.isolation_set then ended_with (record s' { explicit = begun }) tt else wrong_state s'
  explicit_begin a s begun = wrong_state s
  explicit_begin a s prepared = wrong_state s

  -- CuckooExplicitTransactionCommit
  unfoldable pub explicit_commit : Answers → Session T → Explicit → End T Bool
  explicit_commit a s begun =
      ended_with (record (ask commit_command (ask end_block s)) { explicit = nothing }) a.ended
  explicit_commit a s nothing = wrong_state s
  explicit_commit a s prepared = wrong_state s

  -- CuckooExplicitTransactionRollback
  unfoldable pub explicit_rollback : Session T → Explicit → End T Unit
  explicit_rollback s begun =
      ended_with (record (ask commit_command (ask abort_block s)) { explicit = nothing }) tt
  explicit_rollback s nothing = wrong_state s
  explicit_rollback s prepared = wrong_state s

  -- CuckooExplicitTransactionPrepare
  unfoldable pub explicit_prepare : Answers → List ℕ → Session T → Explicit → End T Bool
  explicit_prepare a gid s begun =
      ended_with (record (ask commit_command (ask (prepare_block gid) s)) { explicit = nothing })
        a.is_prepared
  explicit_prepare a gid s nothing = wrong_state s
  explicit_prepare a gid s prepared = wrong_state s

  -- CuckooExplicitTransactionCommitPrepared and CuckooExplicitTransactionRollbackPrepared
  unfoldable pub explicit_finish_prepared : Bool → List ℕ → Session T → Explicit → End T Unit
  explicit_finish_prepared commits gid s prepared =
      ended_with
        (record (ask commit_command (ask (finish_prepared gid commits) (ask prevent_in_block s))) {
          explicit = nothing;
        })
        tt
  explicit_finish_prepared commits gid s nothing = wrong_state s
  explicit_finish_prepared commits gid s begun = wrong_state s

  -- RWLockReleaseAll; it takes as many rounds as there are handles, so that it always ends.
  unfoldable pub released_all : Session T → Option Ops.Result → End T Unit
  released_all s none = stopped_by s no_room
  released_all s (some (Ops.err e)) = stopped_by s (lock_fault e)
  released_all s (some (Ops.ok c)) =
      ended_with (record s { cache = record s.cache { locks = c } }) tt

-- XactEvent, of which the three for parallel workers do nothing.
pub data Event : Type 0 where
  pre_commit commit abort pre_prepare prepare parallel : Event

module _ (D : Dynahash) (hash : Key → ℕ) (start : D.Table → ℕ) (fuel tries patience : ℕ) where
  -- CommitForDirPathHash on the cache of a session
  unfoldable pub commit_cache : Session D.Table → Outcome D.Table Unit → End D.Table Unit
  commit_cache s (done c t) = ended_with (record s { cache = c }) tt
  commit_cache s (failed c e) = stopped_by (record s { cache = c }) e

  abbrev pub reset_tree : Session D.Table → Session D.Table
  reset_tree s = record s { tree = empty_tree }

  unfoldable pub on_commit : Session D.Table → End D.Table Unit
  on_commit s =
      let s' = reset_tree (ask remote_commit s) in
      commit_cache s' (commit_for_dir_path_hash D hash start fuel tries patience s'.cache)
      >>= λ s₁ t. released_all s₁ (rw_lock_release_all false s₁.cache.locks) >>= λ s₂ u.
          ended_with (ask clear_connection (clear_remote_transaction_gid s₂)) tt

  unfoldable pub roll_back : Session D.Table → Explicit → End D.Table Unit
  roll_back s begun = explicit_rollback s begun
  roll_back s nothing = ended_with s tt
  roll_back s prepared = ended_with s tt

  abbrev pub remote_aborting : Answers → Session D.Table → Session D.Table
  remote_aborting a s = record s {
    commands =
        s.commands ++ (remote_abort ∷ (if a.remote_aborted then [] else warn_abort_failed ∷ []));
  }

  unfoldable pub on_abort : Answers → Session D.Table → End D.Table Unit
  on_abort a s =
      let s' = reset_tree (ask enter_abort s) in
      let s₁ = record s' {
        cache = abort_for_dir_path_hash D hash start fuel tries patience s'.cache;
      } in
      released_all s₁ (rw_lock_release_all true s₁.cache.locks) >>= λ s₂ t.
      let s₃ = ask clear_connection (clear_remote_transaction_gid (remote_aborting a s₂)) in
      roll_back s₃ s₃.explicit >>= λ s₄ u. ended_with (ask quit_abort s₄) tt

  -- CuckooTransactionCallback
  unfoldable pub transaction_callback : Answers → Event → Session D.Table → End D.Table Unit
  transaction_callback a pre_commit s = ended_with (ask remote_prepare s) tt
  transaction_callback a commit s = on_commit s
  transaction_callback a abort s = on_abort a s
  transaction_callback a pre_prepare s = ended_with s tt
  transaction_callback a prepare s = ended_with (reset_tree s) tt
  transaction_callback a parallel s = ended_with s tt
