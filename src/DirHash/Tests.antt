-- ===== src/DirHash/Tests.antt =====
-- The cache over lists of entries, and the theorems at states of it.
use cuckoofs.Base.{
  true, false, Option, none, Bool-cases, eq_of_some, ◌≤◌, ℕ, [], ◌∷◌, ◌≡◌, refl, inl, inr, some,
  arith,
}
use cuckoofs.RwLock.{lock_free, desired_state, remove_declared, remove_newest, held_value}
use cuckoofs.RwLock.Ops.{
  rw_lock_declare, rw_lock_acquire, acquire_loop, rw_lock_attempt_lock, rw_lock_undeclare, Ctx,
  Result, ok, err, rw_lock_release_all, release_all_loop, release_last, rw_lock_release,
}
use cuckoofs.DirHash.{Key, Item, exclusive, shared, none_mode, same_key, same_name, path_not_exist}
use cuckoofs.DirHash.Cache.{
  State, Outcome, done, failed, to_commit_add_entry, to_commit_update_entry, to_commit_clear,
  lock_entry, lock_in, insert_row,
}
use cuckoofs.DirHash.Evict.{eliminate}
use cuckoofs.DirHash.Evict.Ends.{IsRemoved, eliminate-IsRemoved}
use mathlib.Core.Path.{subst}
use cuckoofs.DirHash.Ops.{
  ready_item, enter_loop, enter_round, enter_new, use_item, read_item, insert_item, commit_actions,
  commit_action, commit_added, commit_updated, search_directory, insert_directory, delete_directory,
  commit_for_dir_path_hash, abort_for_dir_path_hash,
}
use cuckoofs.DirHash.Coherence.{Inv}
use cuckoofs.DirHash.Coherence.Calls.{IsFound, search_directory-IsFound}
use cuckoofs.DirHash.Coherence.Changes.{
  IsChanged, insert_directory-IsChanged, delete_directory-IsChanged,
}
use cuckoofs.DirHash.Coherence.Steps.{stop, step, searched, inserted, committed, aborted, Steps-Inv}
use cuckoofs.DirHash.Coherence.Answers.{search_directory-answers}
use cuckoofs.DirHash.Entries.{
  Entries, two_entries, dir_a, dir_b, some_rows, key_hash, empty_cache, empty_cache-Inv, find_entry,
  remove_key,
}

-- A partition that has grown past the threshold, whose two entries nobody uses.
abbrev full_cache : State Entries
full_cache = record empty_cache {
  tables = λ p.
      (dir_b, record { inode_id = path_not_exist; lock = 105; usage_count = 1 })
      ∷ (dir_a, record { inode_id = 9; lock = 106; usage_count = 2 })
      ∷ [];
  counts = λ p. 13;
}

abbrev the_start : Entries → ℕ
the_start t = 1

few_uses : (k : Key) (i : Item) → find_entry (full_cache.tables 5) k ≡ some i → i.usage_count ≤ 3
unfolding find_entry
few_uses k i there = elim (Bool-cases (same_key k dir_b)) [
  | inl first ↦
      let e = rw first at there in
      subst (λ (x : Item). x.usage_count ≤ 3) (eq_of_some _ i e) (omega arith)
  | inr other ↦ elim (Bool-cases (same_key k dir_a)) [
    | inl second ↦
        let e = rw (other, second) at there in
        subst (λ (x : Item). x.usage_count ≤ 3) (eq_of_some _ i e) (omega arith)
    | inr neither ↦ let e = rw (other, neither) at there in absurd cc
  ]
]

eliminate-IsRemoved_example :
    IsRemoved two_entries 5 full_cache (eliminate two_entries the_start 4 5 full_cache)
eliminate-IsRemoved_example = eliminate-IsRemoved two_entries 5 the_start 3 full_cache few_uses

search_directory-IsFound_example :
    IsFound two_entries key_hash the_start 4 3 2 some_rows 9 empty_cache
      (search_directory two_entries key_hash the_start 4 3 2 shared dir_a empty_cache)
unfolding same_key same_name
search_directory-IsFound_example =
    search_directory-IsFound two_entries key_hash the_start 4 3 2 some_rows shared dir_a empty_cache
      empty_cache-Inv refl

insert_directory-IsChanged_example :
    IsChanged two_entries key_hash the_start 4 3 2 some_rows dir_b 12 empty_cache
      (insert_directory two_entries key_hash the_start 4 3 2 exclusive dir_b 12 empty_cache)
insert_directory-IsChanged_example =
    insert_directory-IsChanged two_entries key_hash the_start 4 3 2 some_rows exclusive dir_b 12
      empty_cache empty_cache-Inv refl (inl refl)

delete_directory-IsChanged_example :
    IsChanged two_entries key_hash the_start 4 3 2 some_rows dir_a path_not_exist empty_cache
      (delete_directory two_entries key_hash the_start 4 3 2 exclusive dir_a empty_cache)
delete_directory-IsChanged_example =
    delete_directory-IsChanged two_entries key_hash the_start 4 3 2 some_rows exclusive dir_a
      empty_cache empty_cache-Inv (inl refl)

abbrev state_of : {A : Type 0} → Outcome Entries A → State Entries
state_of (done s a) = s
state_of (failed s e) = s

-- A transaction that looks for "b" and makes it, and one that looks for it again.
abbrev searched_cache : State Entries
searched_cache =
    state_of (search_directory two_entries key_hash the_start 4 3 2 none_mode dir_b empty_cache)

abbrev inserted_cache : State Entries
inserted_cache =
    state_of
      (insert_directory two_entries key_hash the_start 4 3 2 exclusive dir_b 12 searched_cache)

abbrev committed_cache : State Entries
committed_cache =
    state_of (commit_for_dir_path_hash two_entries key_hash the_start 4 3 2 inserted_cache)

search_ends :
    search_directory two_entries key_hash the_start 4 3 2 none_mode dir_b empty_cache
    ≡ done searched_cache path_not_exist
unfolding find_entry remove_key search_directory ready_item enter_loop enter_round enter_new
    to_commit_add_entry use_item same_key same_name lock_entry lock_in read_item
search_ends = refl

insert_ends :
    insert_directory two_entries key_hash the_start 4 3 2 exclusive dir_b 12 searched_cache
    ≡ done inserted_cache tt
unfolding find_entry remove_key search_directory ready_item enter_loop enter_round enter_new
    to_commit_add_entry use_item same_key same_name lock_entry lock_in read_item insert_directory
    insert_item insert_row to_commit_update_entry rw_lock_declare rw_lock_acquire acquire_loop
    rw_lock_attempt_lock rw_lock_undeclare lock_free desired_state remove_declared
insert_ends = refl

commit_ends :
    commit_for_dir_path_hash two_entries key_hash the_start 4 3 2 inserted_cache
    ≡ done committed_cache tt
unfolding find_entry remove_key search_directory ready_item enter_loop enter_round enter_new
    to_commit_add_entry use_item same_key same_name lock_entry lock_in read_item insert_directory
    insert_item insert_row to_commit_update_entry rw_lock_declare rw_lock_acquire acquire_loop
    rw_lock_attempt_lock rw_lock_undeclare lock_free desired_state remove_declared
    commit_for_dir_path_hash commit_actions commit_action commit_added commit_updated
    to_commit_clear eliminate
commit_ends = refl

same_row : searched_cache.rows dir_b ≡ some_rows dir_b
unfolding find_entry remove_key search_directory ready_item enter_loop enter_round enter_new
    to_commit_add_entry use_item same_key same_name lock_entry lock_in read_item
same_row = refl

-- The first transaction gives back its lock of "b", and the next one locks it again and aborts.
abbrev context_of : Ctx → Option Result → Ctx
context_of c none = c
context_of c (some (err e)) = c
context_of c (some (ok c')) = c'

abbrev free_cache : State Entries
free_cache = record committed_cache {
  locks = context_of committed_cache.locks (rw_lock_release_all false committed_cache.locks);
}

abbrev again_cache : State Entries
again_cache =
    state_of (search_directory two_entries key_hash the_start 4 3 2 exclusive dir_b free_cache)

release_ends : rw_lock_release_all false committed_cache.locks ≡ some (ok free_cache.locks)
unfolding find_entry remove_key search_directory ready_item enter_loop enter_round enter_new
    to_commit_add_entry use_item same_key same_name lock_entry lock_in read_item insert_directory
    insert_item insert_row to_commit_update_entry rw_lock_declare rw_lock_acquire acquire_loop
    rw_lock_attempt_lock rw_lock_undeclare lock_free desired_state remove_declared
    commit_for_dir_path_hash commit_actions commit_action commit_added commit_updated
    to_commit_clear eliminate rw_lock_release_all release_all_loop release_last rw_lock_release
    remove_newest held_value
release_ends = refl

again_ends :
    search_directory two_entries key_hash the_start 4 3 2 exclusive dir_b free_cache
    ≡ done again_cache 12
unfolding find_entry remove_key search_directory ready_item enter_loop enter_round enter_new
    to_commit_add_entry use_item same_key same_name lock_entry lock_in read_item insert_directory
    insert_item insert_row to_commit_update_entry rw_lock_declare rw_lock_acquire acquire_loop
    rw_lock_attempt_lock rw_lock_undeclare lock_free desired_state remove_declared
    commit_for_dir_path_hash commit_actions commit_action commit_added commit_updated
    to_commit_clear eliminate rw_lock_release_all release_all_loop release_last rw_lock_release
    remove_newest held_value
again_ends = refl

last_locks :
    rw_lock_release_all true again_cache.locks
    ≡ some (ok (context_of again_cache.locks (rw_lock_release_all true again_cache.locks)))
unfolding find_entry remove_key search_directory ready_item enter_loop enter_round enter_new
    to_commit_add_entry use_item same_key same_name lock_entry lock_in read_item insert_directory
    insert_item insert_row to_commit_update_entry rw_lock_declare rw_lock_acquire acquire_loop
    rw_lock_attempt_lock rw_lock_undeclare lock_free desired_state remove_declared
    commit_for_dir_path_hash commit_actions commit_action commit_added commit_updated
    to_commit_clear eliminate rw_lock_release_all release_all_loop release_last rw_lock_release
    remove_newest held_value
last_locks = refl

row_kept : free_cache.rows dir_b ≡ inserted_cache.rows dir_b
unfolding find_entry remove_key search_directory ready_item enter_loop enter_round enter_new
    to_commit_add_entry use_item same_key same_name lock_entry lock_in read_item insert_directory
    insert_item insert_row to_commit_update_entry rw_lock_declare rw_lock_acquire acquire_loop
    rw_lock_attempt_lock rw_lock_undeclare lock_free desired_state remove_declared
    commit_for_dir_path_hash commit_actions commit_action commit_added commit_updated
    to_commit_clear eliminate rw_lock_release_all release_all_loop release_last rw_lock_release
    remove_newest held_value
row_kept = refl

Steps-Inv_example :
    Inv two_entries key_hash inserted_cache.rows
      (record (abort_for_dir_path_hash two_entries key_hash the_start 4 3 2 again_cache) {
        rows = inserted_cache.rows;
        locks = context_of again_cache.locks (rw_lock_release_all true again_cache.locks);
      })
Steps-Inv_example =
    Steps-Inv two_entries key_hash the_start 4 3 2
      (step (searched none_mode dir_b refl search_ends) (
        step (inserted exclusive dir_b 12 same_row (inl refl) insert_ends) (
          step (committed commit_ends release_ends) (
            step (searched exclusive dir_b row_kept again_ends) (step (aborted last_locks) stop)))))
      empty_cache-Inv

search_directory-answers_example :
    (s : State Entries) × (search_directory two_entries key_hash the_start 4 3 2 none_mode dir_a
        empty_cache
      ≡ done s (some_rows dir_a))
    × Inv two_entries key_hash some_rows s
    × (s.rows ≡ some_rows)
search_directory-answers_example =
    search_directory-answers two_entries key_hash the_start 4 2 2 some_rows dir_a empty_cache
      empty_cache-Inv refl (omega arith)

-- A transaction that makes "b", at its end.
searched_cache-Inv : Inv two_entries key_hash some_rows searched_cache
searched_cache-Inv =
    Steps-Inv two_entries key_hash the_start 4 3 2
      (step (searched none_mode dir_b refl search_ends) stop) empty_cache-Inv
