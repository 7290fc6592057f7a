-- ===== src/DirHash/Coherence/Deleted.antt =====
-- A deletion that asks for no lock ends, and deletes the row.
use cuckoofs.Base.{
  ℕ, suc, ◌+◌, Bool, true, false, Option, none, some, ◌==◌, if◌then◌else◌, [], ◌∷◌, ◌++◌, ◌≡◌, refl,
  ap, ◌∙◌, leb, length, length-append, ◌≤◌, arith,
}
use cuckoofs.DirHash.{
  Key, Item, none_mode, set_key, added, max_to_commit, path_unknown, path_not_exist,
}
use cuckoofs.DirHash.Table.{Dynahash}
use cuckoofs.DirHash.Cache.{
  State, Outcome, done, ◌>>=◌, lookup, partition, new_entry, to_commit_add_entry,
  to_commit_update_entry, delete_row, lock_entry,
}
use cuckoofs.DirHash.Ops.{
  enter_new, enter_loop, enter_round, use_item, use_entry, delete_item, delete_entry,
  delete_directory,
}

module _ (D : Dynahash) (hash : Key → ℕ) (start : D.Table → ℕ) (fuel n patience : ℕ) (k : Key)
    (s : State D.Table) (there : (s.rows k == path_not_exist) ≡ false) where
  -- It ends well, without the row of the key, and with every other row as it was.
  abbrev pub IsDeleted : Outcome D.Table Unit → Type 0
  IsDeleted o =
      (s' : State D.Table) × (o ≡ done s' tt)
      × ((j : Key) → s'.rows j ≡ set_key s.rows k path_not_exist j)

  -- The deletion of the row, and its action in the log.
  abbrev change : State D.Table → Outcome D.Table Unit
  change t = delete_row k t >>= λ t' u. to_commit_update_entry k path_not_exist t'

  row_deleted :
      (t : State D.Table)
      → t.rows ≡ s.rows
      → delete_row k t ≡ done (record t { rows = set_key t.rows k path_not_exist }) tt
  unfolding delete_row
  row_deleted t same =
      let here : (t.rows k == path_not_exist) ≡ false =
        ap (λ (r : Key → ℕ). r k == path_not_exist) same ∙ there in
      rw here refl

  change-IsDeleted :
      (t : State D.Table)
      → t.rows ≡ s.rows
      → leb max_to_commit (length t.log) ≡ false
      → IsDeleted (change t)
  unfolding to_commit_update_entry
  change-IsDeleted t same room =
      rw (row_deleted t same, room)
        ((_, refl, λ j. ap (λ (r : Key → ℕ). set_key r k path_not_exist j) same))

  used-IsDeleted :
      (t : State D.Table)
      → t.rows ≡ s.rows
      → leb max_to_commit (length t.log) ≡ false
      → (o : Option Item)
      → IsDeleted
          (use_item D hash start fuel (suc n) patience none_mode k t o >>= λ t' u. change t')
  unfolding use_item lock_entry
  used-IsDeleted t same room none = change-IsDeleted t same room
  used-IsDeleted t same room (some i) = change-IsDeleted _ same room

  -- What follows the search for an entry.
  abbrev follow : State D.Table → Bool → Outcome D.Table Unit
  follow t found =
      if found
      then (use_entry D hash start fuel (suc n) patience none_mode k t >>= λ t' u. change t')
      else delete_row k t

  entered-IsDeleted :
      (again : State D.Table → Outcome D.Table Bool) (has_room : Bool)
      → leb max_to_commit (length s.log) ≡ false
      → leb max_to_commit (length s.log + 1) ≡ false
      → IsDeleted (
          enter_round D hash start fuel
            (suc n)
            patience
            (λ i s'. done s' true)
            again
            k
            path_unknown
            s
            none
            has_room
            true
          >>= follow)
  unfolding enter_round enter_new to_commit_add_entry
  entered-IsDeleted again true room more =
      let longer : leb max_to_commit (length (s.log ++ (added k ∷ []))) ≡ false =
        ap (leb max_to_commit) (length-append s.log (added k ∷ [])) ∙ more in
      rw room (
        used-IsDeleted
          (record (new_entry D hash path_unknown k s) { log = s.log ++ (added k ∷ []) }) refl longer
          _)
  entered-IsDeleted again false room more = (_, row_deleted s refl, λ j. refl)

  item-IsDeleted :
      (o : Option Item)
      → lookup D hash s k ≡ o
      → leb max_to_commit (length s.log) ≡ false
      → leb max_to_commit (length s.log + 1) ≡ false
      → IsDeleted (delete_item D hash start fuel (suc n) patience none_mode k s o >>= follow)
  unfolding delete_item enter_loop
  item-IsDeleted (some i) found room more = used-IsDeleted s refl room (lookup D hash s k)
  item-IsDeleted none missing room more =
      rw missing (entered-IsDeleted _ (D.has_room (s.tables (partition D hash k))) room more)

  -- While the log has room for two actions, the deletion of a row that is there, without a lock, ends
  -- well, and no other row is changed.
  pub delete_directory-IsDeleted :
      length s.log + 2 ≤ max_to_commit
      → IsDeleted (delete_directory D hash start fuel (suc n) patience none_mode k s)
  unfolding delete_directory delete_entry
  delete_directory-IsDeleted few =
      item-IsDeleted (lookup D hash s k) refl (ground arith) (ground arith)
