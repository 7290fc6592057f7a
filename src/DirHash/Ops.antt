-- ===== src/DirHash/Ops.antt =====
-- Search, insertion and deletion through the cache, and what the end of a transaction does to it.
use cuckoofs.Base.{
  ℕ, zero, suc, ◌+◌, Bool, true, false, Option, none, some, ◌==◌, ◌&&◌, not, ltb, if◌then◌else◌,
  List, [], ◌∷◌, u32,
}
use cuckoofs.Base.Sums.{update}
use cuckoofs.DirHash.{
  Key, Item, DirLock, exclusive, shared, none_mode, is_none, Action, added, updated, path_not_exist,
  path_unknown, partition_size,
}
use cuckoofs.DirHash.Table.{Dynahash}
use cuckoofs.DirHash.Cache.{
  State, Outcome, done, failed, ◌>>=◌, corrupt, no_room, wrong_mode, target_exists,
  to_commit_add_entry, to_commit_update_entry, to_commit_clear, insert_row, delete_row, lock_entry,
  partition, lookup, write, new_entry,
}
use cuckoofs.DirHash.Evict.{eliminate}

-- `fuel` bounds the scans of an elimination, `tries` the search for room, `patience` a lock's attempts.
module _ (D : Dynahash) (hash : Key → ℕ) (start : D.Table → ℕ) (fuel tries patience : ℕ) where
  -- An entry that is met although the first search missed it or found it unknown.
  unfoldable pub meet_entry : Key → ℕ → Item → State D.Table → Outcome D.Table Bool
  meet_entry k inode_id i s =
      if i.inode_id == path_unknown
      then done (write D hash s k (record i { inode_id = inode_id })) true
      else if i.inode_id == inode_id
      then done s true
      else failed s corrupt

  unfoldable pub enter_new : Key → ℕ → State D.Table → Outcome D.Table Bool
  enter_new k inode_id s =
      to_commit_add_entry k (new_entry D hash inode_id k s) >>= λ s' t. done s' true

  -- One round of the loop that enters a key, by what the second search finds, whether there is room,
  -- and whether no lock is asked for. The result says whether there is an entry.
  unfoldable pub enter_again :
      (State D.Table → Outcome D.Table Bool)
      → State D.Table
      → Option (State D.Table × Bool)
      → Outcome D.Table Bool
  enter_again again s none = failed s no_room
  enter_again again s (some (s', removed)) = again s'

  unfoldable pub enter_round :
      (Item → State D.Table → Outcome D.Table Bool)
      → (State D.Table → Outcome D.Table Bool)
      → Key
      → ℕ
      → State D.Table
      → Option Item
      → Bool
      → Bool
      → Outcome D.Table Bool
  enter_round meet again k inode_id s (some i) room without = meet i s
  enter_round meet again k inode_id s none true without = enter_new k inode_id s
  enter_round meet again k inode_id s none false true = done s false
  enter_round meet again k inode_id s none false false =
      enter_again again s (eliminate D start fuel (partition D hash k) s)

  unfoldable pub enter_loop :
      ℕ
      → DirLock
      → Key
      → ℕ
      → (Item → State D.Table → Outcome D.Table Bool)
      → State D.Table
      → Outcome D.Table Bool
  enter_loop zero mode k inode_id meet s = failed s no_room
  enter_loop (suc n) mode k inode_id meet s =
      enter_round meet (enter_loop n mode k inode_id meet) k inode_id s (lookup D hash s k)
        (D.has_room (s.tables (partition D hash k))) (is_none mode)

  -- `item->usageCount++` and the lock of the entry.
  unfoldable pub use_item : DirLock → Key → State D.Table → Option Item → Outcome D.Table Unit
  use_item mode k s none = done s tt
  use_item mode k s (some i) =
      lock_entry patience mode i.lock
        (write D hash s k (record i { usage_count = u32 (i.usage_count + 1) }))

  abbrev pub use_entry : DirLock → Key → State D.Table → Outcome D.Table Unit
  use_entry mode k s = use_item mode k s (lookup D hash s k)

  -- The first search, under the shared lock of the partition, and the entering of what it misses.
  unfoldable pub ready_item : DirLock → Key → ℕ → State D.Table → Option Item → Outcome D.Table Bool
  ready_item mode k inode_id s none = enter_loop tries mode k inode_id (meet_entry k inode_id) s
  ready_item mode k inode_id s (some i) =
      if i.inode_id == path_unknown
      then enter_loop tries mode k inode_id (meet_entry k inode_id) s
      else done s true

  -- `item->inodeId`, read after the lock is held.
  unfoldable pub read_item : ℕ → State D.Table → Option Item → Outcome D.Table ℕ
  read_item inode_id s none = done s inode_id
  read_item inode_id s (some i) = done s i.inode_id

  -- SearchDirectoryByDirectoryHashTable
  unfoldable pub search_directory : DirLock → Key → State D.Table → Outcome D.Table ℕ
  search_directory mode k s = ready_item mode k (s.rows k) s (lookup D hash s k) >>= λ s' found.
      if found
      then (use_entry mode k s' >>= λ s'' t. read_item (s.rows k) s'' (lookup D hash s'' k))
      else done s' (s.rows k)

  -- The start of InsertDirectoryByDirectoryHashTable: a row that stands already is an error where the
  -- cache does not know the key.
  unfoldable pub insert_item : DirLock → Key → State D.Table → Option Item → Outcome D.Table Bool
  insert_item mode k s none =
      if s.rows k == path_not_exist
      then ready_item mode k (s.rows k) s none
      else failed s target_exists
  insert_item mode k s (some i) =
      if i.inode_id == path_unknown && not (s.rows k == path_not_exist)
      then failed s target_exists
      else ready_item mode k (s.rows k) s (some i)

  -- InsertDirectoryByDirectoryHashTable
  unfoldable pub insert_directory : DirLock → Key → ℕ → State D.Table → Outcome D.Table Unit
  insert_directory mode k inode_id s = insert_item mode k s (lookup D hash s k) >>= λ s' found.
      if found
      then (use_entry mode k s' >>= λ s₁ t.
          insert_row k inode_id s₁ >>= λ s₂ u. to_commit_update_entry k inode_id s₂)
      else insert_row k inode_id s'

  unfoldable pub delete_item : DirLock → Key → State D.Table → Option Item → Outcome D.Table Bool
  delete_item mode k s (some i) = done s true
  delete_item mode k s none = enter_loop tries mode k path_unknown (λ i s'. done s' true) s

  unfoldable pub delete_entry : DirLock → Key → State D.Table → Outcome D.Table Unit
  delete_entry mode k s = delete_item mode k s (lookup D hash s k) >>= λ s' found.
      if found
      then (use_entry mode k s' >>= λ s₁ t.
          delete_row k s₁ >>= λ s₂ u. to_commit_update_entry k path_not_exist s₂)
      else delete_row k s'

  -- DeleteDirectoryByDirectoryHashTable
  unfoldable pub delete_directory : DirLock → Key → State D.Table → Outcome D.Table Unit
  delete_directory shared k s = failed s wrong_mode
  delete_directory none_mode k s = delete_entry none_mode k s
  delete_directory exclusive k s = delete_entry exclusive k s

  -- The two cases of CommitForDirPathHash. An entry that an update makes keeps what stood in it.
  unfoldable pub commit_added : State D.Table → Option (State D.Table × Bool) → Outcome D.Table Unit
  commit_added s none = failed s no_room
  commit_added s (some (s', removed)) = done s' tt

  unfoldable pub commit_updated :
      Key → ℕ → State D.Table → Option Item → Bool → Outcome D.Table Unit
  commit_updated k inode_id s (some i) room =
      done (write D hash s k (record i { inode_id = inode_id })) tt
  commit_updated k inode_id s none false = done s tt
  commit_updated k inode_id s none true =
      let p = partition D hash k in
      let new = write D hash s k (record (D.stale (s.tables p) k) { inode_id = inode_id }) in
      done (record new { counts = update s.counts p (u32 (s.counts p + 1)) }) tt

  unfoldable pub commit_action : Action → State D.Table → Outcome D.Table Unit
  commit_action (added k) s = commit_added s (eliminate D start fuel (partition D hash k) s)
  commit_action (updated k inode_id) s =
      commit_updated k inode_id s (lookup D hash s k) (D.has_room (s.tables (partition D hash k)))

  unfoldable pub commit_actions : List Action → State D.Table → Outcome D.Table Unit
  commit_actions [] s = done s tt
  commit_actions (a ∷ rest) s = commit_action a s >>= λ s' t. commit_actions rest s'

  -- CommitForDirPathHash and AbortForDirPathHash
  unfoldable pub commit_for_dir_path_hash : State D.Table → Outcome D.Table Unit
  commit_for_dir_path_hash s = commit_actions s.log s >>= λ s' t. done (to_commit_clear s') tt

  abbrev pub abort_for_dir_path_hash : State D.Table → State D.Table
  abort_for_dir_path_hash s = to_commit_clear s

  -- ClearDirPathHash: the counts stay.
  unfoldable pub clear_dir_path_hash : State D.Table → State D.Table
  clear_dir_path_hash s = record s {
    tables = λ p. if ltb p partition_size then D.clear (s.tables p) else s.tables p;
  }
