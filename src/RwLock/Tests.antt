-- ===== src/RwLock/Tests.antt =====
-- The lock at work: two backends step by step, and the theorems at states that they reach.
use cuckoofs.Base.{
  ℕ, ◌+◌, ◌<◌, ◌≤◌, ◌≡◌, ◌↔◌, ◌⊎◌, ◌≢◌, refl, true, false, some, [], ◌∷◌, arith, bit_and,
  if◌then◌else◌, ◌==◌,
}
use cuckoofs.Base.Sums.{update}
use cuckoofs.RwLock.{
  exclusive, shared, declare, Words, lock_free, check_destroyable, flag_has_exclusive_waiter,
  desired_state, held_value, val_ref_count, fetch_add, fetch_sub, remove_newest,
}
use cuckoofs.RwLock.Fields.{encode}
use cuckoofs.RwLock.Ops.{Ctx, ok, rw_lock_acquire, rw_lock_release, rw_lock_release_all, ◌>>=◌}
use cuckoofs.RwLock.Ops.ReleaseAll.{Others, Accounts, release_all_lem, release-of_declared}
use cuckoofs.RwLock.System.{
  System, init, Reach, start, later, pick, acquire, read, cas_win, cas_busy, at, handle, idle, spin,
  Step, cas, unref, release, Backend, Move, IsProper,
}
use cuckoofs.RwLock.System.Weights.{shared_by, exclusive_by, refs_by}
use cuckoofs.RwLock.System.Invariant.{readers, writers}
use cuckoofs.RwLock.System.Safety.{
  mutual_exclusion, check_destroyable-iff_unused, lock_free-iff_unheld, writer_priority,
  unheld_lock_taken,
}

abbrev moved : System → Words → ℕ → Backend → System
moved s w i b = record { words = w; backend = update s.backend i b }

exclusive-ne-declare : exclusive ≢ declare
exclusive-ne-declare e = cc

-- Backend 0 asks for lock 7 for writing, and gets it.
abbrev asked_state : System
asked_state = moved init (fetch_add (λ _. 0) 7 val_ref_count) 0 (at [] (spin 7 exclusive))

abbrev tried_state : System
tried_state = moved asked_state asked_state.words 0 (at [] (cas 7 exclusive val_ref_count))

abbrev taken_state : System
taken_state =
    moved tried_state (update tried_state.words 7 (desired_state exclusive val_ref_count)) 0
      (at (handle 7 exclusive ∷ []) idle)

abbrev asked : Reach 2 asked_state
asked = later start (pick 0 (omega arith) (acquire 7 exclusive exclusive-ne-declare (omega arith)))

abbrev tried : Reach 2 tried_state
tried = later asked (pick 0 (omega arith) read)

abbrev taken : Reach 2 taken_state
unfolding lock_free
taken = later tried (pick 0 (omega arith) (cas_win refl refl))

taken-IsProper : IsProper taken
unfolding taken
taken-IsProper = (((tt, tt), tt), tt)

mutual_exclusion_example :
    (◌≡◌ {A = ℕ} 0 0)
    × (exclusive_by 7 (taken_state.backend 0) ≡ 1)
    × (shared_by 7 (taken_state.backend 0) ≡ 0)
mutual_exclusion_example =
    mutual_exclusion {n = 2} {s = taken_state} (omega arith) taken taken-IsProper 7 0 0
      (omega arith) (omega arith) (omega arith) (omega arith)

check_destroyable-iff_unused_example :
    (check_destroyable (asked_state.words 7) ≡ true)
    ↔ ((i : ℕ) → i < 2 → refs_by 7 (asked_state.backend i) ≡ 0)
check_destroyable-iff_unused_example =
    check_destroyable-iff_unused {n = 2} {s = asked_state} (omega arith) asked (tt, tt) 7

lock_free-iff_unheld_example : (lock_free exclusive (taken_state.words 7) ≡ true) ↔ (
    (i : ℕ)
    → i < 2
    → (shared_by 7 (taken_state.backend i) ≡ 0) × (exclusive_by 7 (taken_state.backend i) ≡ 0))
lock_free-iff_unheld_example =
    lock_free-iff_unheld {n = 2} {s = taken_state} (omega arith) taken taken-IsProper 7

unheld :
    (j : ℕ)
    → j < 2
    → (shared_by 7 (asked_state.backend j) ≡ 0) × (exclusive_by 7 (asked_state.backend j) ≡ 0)
unheld j lt = ground arith

unheld_lock_taken_example :
    (w : Words) × (b : Backend) × (w' : Words) × Move asked_state.words (asked_state.backend 0) w b
    × Move w b w' (at (handle 7 exclusive ∷ []) idle)
unheld_lock_taken_example =
    unheld_lock_taken {n = 2} {s = asked_state} (omega arith) asked (tt, tt) 7 0 [] refl unheld

-- Backend 1 asks for the same lock, is refused, and has set the flag.
abbrev queued_state : System
queued_state =
    moved taken_state (fetch_add taken_state.words 7 val_ref_count) 1 (at [] (spin 7 exclusive))

abbrev refused_state : System
refused_state =
    moved queued_state queued_state.words 1 (at [] (cas 7 exclusive (queued_state.words 7)))

abbrev flagged_state : System
flagged_state =
    moved refused_state
      (update refused_state.words 7 (desired_state exclusive (refused_state.words 7))) 1
      (at [] (spin 7 exclusive))

abbrev flagged : Reach 2 flagged_state
unfolding lock_free desired_state
flagged =
    later
      (later
        (later taken
          (pick 1 (omega arith) (acquire 7 exclusive exclusive-ne-declare (omega arith))))
        (pick 1 (omega arith) read))
      (pick 1 (omega arith) (cas_busy refl refl))

flagged-IsProper : IsProper flagged
unfolding flagged
flagged-IsProper = (((taken-IsProper, tt), tt), tt)

-- Backend 0 gives the lock back; the flag stays.
abbrev freed_state : System
freed_state =
    moved flagged_state (fetch_sub flagged_state.words 7 (held_value exclusive)) 0 (at [] (unref 7))

abbrev freeing : Step 2 flagged_state freed_state
unfolding remove_newest
freeing = pick 0 (omega arith) (release {m = exclusive} 7 refl)

writer_priority_example :
    (readers 7 2 freed_state.backend ≤ readers 7 2 flagged_state.backend)
    × ((bit_and (freed_state.words 7) flag_has_exclusive_waiter ≡ flag_has_exclusive_waiter)
        ⊎ ((readers 7 2 flagged_state.backend + writers 7 2 flagged_state.backend ≡ 0)
            × (writers 7 2 freed_state.backend ≡ 1)))
unfolding desired_state freeing
writer_priority_example =
    writer_priority {n = 2} {s = flagged_state} (omega arith) flagged flagged-IsProper 7
      {t = freed_state} refl freeing (λ e. cc)

-- A backend that holds lock 7 twice for reading and has declared lock 8.
abbrev busy_backend : Ctx
busy_backend = record {
  words = λ k. if k == 7 then encode 2 0 2 0 else (if k == 8 then encode 0 0 1 0 else 0);
  held = handle 8 declare ∷ handle 7 shared ∷ handle 7 shared ∷ [];
  holdoff = 3;
}

abbrev nobody : Others
nobody = record { shared_of = λ k. 0; exclusive_of = λ k. 0; refs_of = λ k. 0; flag_of = λ k. 0 }

busy-Accounts : Accounts nobody busy_backend.words busy_backend.held
busy-Accounts = record {
  fits = λ k. record {
    shared_fits = ground arith;
    exclusive_fits = ground arith;
    refs_fit = ground arith;
    flag_fits = omega arith;
  };
  word = λ k. ground arith;
}

release_all_lem_example :
    (c' : Ctx) × (rw_lock_release_all false busy_backend ≡ some (ok c'))
    × (c'.held ≡ [])
    × (c'.holdoff ≡ 0)
    × Accounts nobody c'.words []
release_all_lem_example = release_all_lem false nobody busy_backend busy-Accounts (omega arith)

-- The lock of a reader elsewhere, declared here.
abbrev declared_only : Ctx
declared_only = record { words = λ k. encode 1 0 2 0; held = handle 7 declare ∷ []; holdoff = 1 }

release-of_declared_example :
    (c' : Ctx) × (rw_lock_release 7 declared_only ≡ ok c')
    × (c'.words 7 ≡ encode 0 0 1 0)
    × (lock_free exclusive (c'.words 7) ≡ true)
release-of_declared_example = release-of_declared 7 [] declared_only 1 0 refl refl (record {
  shared_fits = omega arith;
  exclusive_fits = omega arith;
  refs_fit = omega arith;
  flag_fits = omega arith;
})

-- Taking a free lock and giving it back leaves no trace.
round_trip :
    (rw_lock_acquire 1 7 shared (record { words = λ k. 0; held = []; holdoff = 0 })
      >>= (λ c. ok (record c { words = λ k. c.words 7 })))
    ≡ ok (record { words = λ k. encode 1 0 1 0; held = handle 7 shared ∷ []; holdoff = 1 })
unfolding rw_lock_acquire
round_trip = refl
