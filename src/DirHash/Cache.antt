-- ===== src/DirHash/Cache.antt =====
-- The operations of the cache, over the hash tables, the locks of RwLock and the rows of the directory
-- table.
use cuckoofs.Base.{
  ℕ, ◌+◌, ◌%◌, Option, none, some, ◌==◌, leb, if◌then◌else◌, List, [], ◌∷◌, ◌++◌, length, u32,
}
use cuckoofs.Base.Sums.{update}
use cuckoofs.RwLock.{Mode}
use cuckoofs.RwLock.Ops as Ops
use cuckoofs.RwLock.Ops.{
  Ctx, Fault, rw_lock_declare, rw_lock_acquire, rw_lock_undeclare, rw_lock_release,
}
use cuckoofs.Errors.{ErrorCode}
use cuckoofs.DirHash.{
  Key, Item, DirLock, exclusive, shared, none_mode, Action, added, updated, set_key, max_to_commit,
  path_not_exist, partition_size,
}
use cuckoofs.DirHash.Table.{Dynahash}

-- Why an operation ends in an error (CUCKOO_ELOG_ERROR), or does not end: `no_room` is a search for
-- room that has used up its fuel.
pub data Failure : Type 0 where
  too_many_actions target_exists corrupt wrong_mode row_missing duplicate_row no_room : Failure
  lock_fault : Fault → Failure
  -- an error that a caller of the cache raises, by its code
  raised : ErrorCode → Failure

-- The partitions and their counts, the locks of this backend, its log, and the rows of the directory
-- table as its transaction sees them.
pub record State (T : Type 0) : Type 0 where
  pub tables : ℕ → T
  pub counts : ℕ → ℕ
  pub locks : Ctx
  pub last_acquired : Option ℕ
  pub log : List Action
  pub rows : Key → ℕ

pub data Outcome (T A : Type 0) : Type 0 where
  done : State T → A → Outcome T A
  failed : State T → Failure → Outcome T A

infixl 5 ◌>>=◌
abbrev pub ◌>>=◌ : {T A B : Type 0} → Outcome T A → (State T → A → Outcome T B) → Outcome T B
done s a >>= f = f s a
failed s e >>= f = failed s e

module _ {T : Type 0} where
  -- DirPathHashToCommitAddEntry
  unfoldable pub to_commit_add_entry : Key → State T → Outcome T Unit
  to_commit_add_entry k s =
      if leb max_to_commit (length s.log)
      then failed s too_many_actions
      else done (record s { log = s.log ++ (added k ∷ []) }) tt

  -- DirPathHashToCommitUpdateEntry
  unfoldable pub to_commit_update_entry : Key → ℕ → State T → Outcome T Unit
  to_commit_update_entry k inode_id s =
      if leb max_to_commit (length s.log)
      then failed s too_many_actions
      else done (record s { log = s.log ++ (updated k inode_id ∷ []) }) tt

  -- DirPathHashToCommitClear
  unfoldable pub to_commit_clear : State T → State T
  to_commit_clear s = record s { log = [] }

  -- InsertIntoDirectoryTable, with its unique index, and DeleteFromDirectoryTable.
  unfoldable pub insert_row : Key → ℕ → State T → Outcome T Unit
  insert_row k inode_id s =
      if s.rows k == path_not_exist
      then done (record s { rows = set_key s.rows k inode_id }) tt
      else failed s duplicate_row

  unfoldable pub delete_row : Key → State T → Outcome T Unit
  delete_row k s =
      if s.rows k == path_not_exist
      then failed s row_missing
      else done (record s { rows = set_key s.rows k path_not_exist }) tt

  -- RWLockInitialize on a new entry
  abbrev pub init_lock : ℕ → State T → State T
  init_lock l s = record s { locks = record s.locks { words = update s.locks.words l 0 } }

  -- One operation of RwLock on the locks of this backend, and what follows if it ends well. The locks
  -- stay as they are where it raises an error.
  abbrev pub with_locks : Ops.Result → State T → (State T → Outcome T Unit) → Outcome T Unit
  with_locks (Ops.ok c) s next = next (record s { locks = c })
  with_locks (Ops.err e) s next = failed s (lock_fault e)

  -- The lock of an entry: declared under the lock of the partition, acquired after it, and then no longer
  -- declared. An acquisition that is not over after `patience` attempts ends with `still_busy`.
  unfoldable pub lock_in : ℕ → Mode → ℕ → State T → Outcome T Unit
  lock_in patience m l s = with_locks (rw_lock_declare l s.locks) s (λ s₁.
      with_locks (rw_lock_acquire patience l m s₁.locks) s₁ (λ s₂.
        with_locks (rw_lock_undeclare l s₂.locks) s₂
          (λ s₃. done (record s₃ { last_acquired = some l }) tt)))

  -- By the mode that is asked for.
  unfoldable pub lock_entry : ℕ → DirLock → ℕ → State T → Outcome T Unit
  unfolding lock_in
  lock_entry patience none_mode l s = done s tt
  lock_entry patience shared l s = lock_in patience Mode.shared l s
  lock_entry patience exclusive l s = lock_in patience Mode.exclusive l s

module _ (D : Dynahash) where
  abbrev pub write_in : State D.Table → ℕ → Key → Item → State D.Table
  write_in s p k i = record s { tables = update s.tables p (D.put (s.tables p) k i) }

module _ (D : Dynahash) (hash : Key → ℕ) where
  -- DIR_PATH_HASH_PARTITION_INDEX
  abbrev pub partition : Key → ℕ
  partition k = hash k % partition_size

  abbrev pub lookup : State D.Table → Key → Option Item
  lookup s k = D.find (s.tables (partition k)) k

  abbrev pub write : State D.Table → Key → Item → State D.Table
  write s k i = write_in D s (partition k) k i

  -- A new entry with its lock and count, as the three operations make it.
  abbrev pub new_entry : ℕ → Key → State D.Table → State D.Table
  new_entry inode_id k s =
      let l = (D.stale (s.tables (partition k)) k).lock in
      init_lock l (record (write s k (record { inode_id = inode_id; lock = l; usage_count = 0 })) {
        counts = update s.counts (partition k) (u32 (s.counts (partition k) + 1));
      })

  -- ReleaseDirPathHashLock, `none` being its FILE_NOT_EXISTS.
  unfoldable pub release_dir_path_hash_lock : Key → State D.Table → Option Ops.Result
  release_dir_path_hash_lock k s = elim (lookup s k) [
    | none ↦ none
    | some i ↦ some (rw_lock_release i.lock s.locks)
  ]
