-- ===== src/DirHash/Coherence/Answers.antt =====
-- A search that asks for no lock always answers.
use cuckoofs.Base.{
  ℕ, suc, Bool, true, false, Option, none, some, ◌==◌, if◌then◌else◌, ◌⊎◌, ◌≡◌, refl, leb, length,
  ◌<◌, Bool-cases, arith, leb→le, inl, inr, ap,
}
use cuckoofs.DirHash.{Key, Item, none_mode, max_to_commit, path_unknown}
use cuckoofs.DirHash.Table.{Dynahash}
use cuckoofs.DirHash.Cache.{
  State, Outcome, done, failed, ◌>>=◌, corrupt, lookup, partition, to_commit_add_entry, lock_entry,
}
use cuckoofs.DirHash.Ops.{
  meet_entry, enter_new, enter_loop, enter_round, use_item, use_entry, ready_item, read_item,
  search_directory,
}
use cuckoofs.DirHash.Coherence.{Inv}
use cuckoofs.DirHash.Coherence.Calls.{IsFound, search_directory-IsFound}

module _ (D : Dynahash) (hash : Key → ℕ) (start : D.Table → ℕ) (fuel n patience : ℕ) where
  -- No error but that of a corrupt cache.
  abbrev Ends : {A : Type 0} → Outcome D.Table A → Type 0
  Ends (done s a) = Unit {0}
  Ends (failed s e) = e ≡ corrupt

  Ends-bind :
      {A B : Type 0} (o : Outcome D.Table A) (f : State D.Table → A → Outcome D.Table B)
      → Ends o
      → ((s : State D.Table) (a : A) → Ends (f s a))
      → Ends (o >>= f)
  Ends-bind (done s a) f h next = next s a
  Ends-bind (failed s e) f h next = h

  meet_entry-Ends :
      (k : Key) (v : ℕ) (i : Item) (s : State D.Table)
      → Ends (meet_entry D hash start fuel (suc n) patience k v i s)
  unfolding meet_entry
  meet_entry-Ends k v i s = elim (Bool-cases (i.inode_id == path_unknown)) [
    | inl unknown ↦ rw unknown tt
    | inr known ↦ elim (Bool-cases (i.inode_id == v)) [
      | inl same ↦ rw (known, same) tt
      | inr other ↦ rw (known, other) refl
    ]
  ]

  enter_new-Ends :
      (k : Key) (v : ℕ) (s : State D.Table)
      → leb max_to_commit (length s.log) ≡ false
      → Ends (enter_new D hash start fuel (suc n) patience k v s)
  unfolding enter_new to_commit_add_entry
  enter_new-Ends k v s room = rw room tt

  enter_round-Ends :
      (again : State D.Table → Outcome D.Table Bool) (k : Key) (v : ℕ) (s : State D.Table)
      → leb max_to_commit (length s.log) ≡ false
      → (o : Option Item) (room : Bool)
      → Ends (
          enter_round D hash start fuel
            (suc n)
            patience
            (meet_entry D hash start fuel (suc n) patience k v)
            again
            k
            v
            s
            o
            room
            true)
  unfolding enter_round
  enter_round-Ends again k v s few (some i) room = meet_entry-Ends k v i s
  enter_round-Ends again k v s few none true = enter_new-Ends k v s few
  enter_round-Ends again k v s few none false = tt

  enter_loop-Ends :
      (m : ℕ) (k : Key) (v : ℕ) (s : State D.Table)
      → leb max_to_commit (length s.log) ≡ false
      → Ends (
          enter_loop D hash start fuel
            (suc n)
            patience
            (suc m)
            none_mode
            k
            v
            (meet_entry D hash start fuel (suc n) patience k v)
            s)
  unfolding enter_loop
  enter_loop-Ends m k v s few =
      enter_round-Ends
        (enter_loop D hash start fuel (suc n) patience m none_mode k v
          (meet_entry D hash start fuel (suc n) patience k v))
        k v s few (lookup D hash s k) (D.has_room (s.tables (partition D hash k)))

  use_item-Ends :
      (k : Key) (s : State D.Table) (o : Option Item)
      → Ends (use_item D hash start fuel (suc n) patience none_mode k s o)
  unfolding use_item lock_entry
  use_item-Ends k s none = tt
  use_item-Ends k s (some i) = tt

  read_item-Ends :
      (v : ℕ) (s : State D.Table) (o : Option Item)
      → Ends (read_item D hash start fuel (suc n) patience v s o)
  unfolding read_item
  read_item-Ends v s none = tt
  read_item-Ends v s (some i) = tt

  ready_item-Ends :
      (k : Key) (v : ℕ) (s : State D.Table) (o : Option Item)
      → leb max_to_commit (length s.log) ≡ false
      → Ends (ready_item D hash start fuel (suc n) patience none_mode k v s o)
  unfolding ready_item
  ready_item-Ends k v s none few = enter_loop-Ends n k v s few
  ready_item-Ends k v s (some i) few = elim (Bool-cases (i.inode_id == path_unknown)) [
    | inl unknown ↦ rw unknown (enter_loop-Ends n k v s few)
    | inr known ↦ rw known tt
  ]

  search_directory-Ends :
      (k : Key) (s : State D.Table)
      → leb max_to_commit (length s.log) ≡ false
      → Ends (search_directory D hash start fuel (suc n) patience none_mode k s)
  unfolding search_directory
  search_directory-Ends k s few =
      Ends-bind
        (ready_item D hash start fuel (suc n) patience none_mode k (s.rows k) s (lookup D hash s k))
        (λ s' found.
          if found
          then (use_entry D hash start fuel (suc n) patience none_mode k s' >>= λ s'' t.
              read_item D hash start fuel (suc n) patience (s.rows k) s'' (lookup D hash s'' k))
          else done s' (s.rows k))
        (ready_item-Ends k (s.rows k) s (lookup D hash s k) few) (λ s' found. found-Ends s' found)
    where
      found-Ends :
          (s' : State D.Table) (found : Bool)
          → Ends (
              if found
              then (use_entry D hash start fuel (suc n) patience none_mode k s' >>= λ s'' t.
                  read_item D hash start fuel (suc n) patience (s.rows k) s'' (lookup D hash s'' k))
              else done s' (s.rows k))
      found-Ends s' true =
          Ends-bind (use_entry D hash start fuel (suc n) patience none_mode k s')
            (λ s'' t.
              read_item D hash start fuel (suc n) patience (s.rows k) s'' (lookup D hash s'' k))
            (use_item-Ends k s' (lookup D hash s' k))
            (λ s'' t. read_item-Ends (s.rows k) s'' (lookup D hash s'' k))
      found-Ends s' false = tt

  answered :
      (committed : Key → ℕ) (v : ℕ) (s : State D.Table) (o : Outcome D.Table ℕ)
      → Ends o
      → IsFound D hash start fuel (suc n) patience committed v s o
      → (s' : State D.Table) × (o ≡ done s' v) × Inv D hash committed s' × (s'.rows ≡ s.rows)
  answered committed v s (done s' m) h (inv, rows, same) = (s', ap (done s') same, inv, rows)
  answered committed v s (failed s' e) h (c, fine) = absurd (fine h)

  -- While the log has room, the search of a key that the transaction has not changed, without a lock,
  -- ends without an error, whatever the cache holds, full or not: it answers the inode number in the
  -- directory table, and keeps the cache in agreement with what is committed.
  pub search_directory-answers :
      (committed : Key → ℕ) (k : Key) (s : State D.Table)
      → Inv D hash committed s
      → s.rows k ≡ committed k
      → length s.log < max_to_commit
      → (s' : State D.Table) × (search_directory D hash start fuel (suc n) patience none_mode k s
          ≡ done s' (s.rows k))
        × Inv D hash committed s'
        × (s'.rows ≡ s.rows)
  search_directory-answers committed k s h same few =
      answered committed (s.rows k) s
        (search_directory D hash start fuel (suc n) patience none_mode k s)
        (search_directory-Ends k s (not_full (Bool-cases (leb max_to_commit (length s.log)))))
        (search_directory-IsFound D hash start fuel (suc n) patience committed none_mode k s h same)
    where
      not_full :
          (leb max_to_commit (length s.log) ≡ true) ⊎ (leb max_to_commit (length s.log) ≡ false)
          → leb max_to_commit (length s.log) ≡ false
      not_full (inl full) = let l = leb→le max_to_commit (length s.log) full in absurd (omega arith)
      not_full (inr few) = few
