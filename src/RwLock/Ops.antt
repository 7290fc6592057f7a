-- ===== src/RwLock/Ops.antt =====
-- The operations of rwlock.c as one backend runs them while no other interferes, and the release of
-- all locks at the end of a transaction.
pub mod ReleaseAll
use cuckoofs.Base.{
  ℕ, zero, suc, ◌+◌, ◌-◌, ◌%◌, ◌^◌, ◌≤◌, ◌<◌, ◌≡◌, refl, Bool, true, false, Option, none, some,
  List, [], ◌∷◌, leb, ltb, if◌then◌else◌, u32, ◌==◌,
}
use cuckoofs.RwLock.{
  Mode, declare, is_declare, Handle, Words, lock_free, desired_state, remove_newest,
  remove_declared, held_value, val_ref_count, max_simul_rwlocks, fetch_add, fetch_sub,
}
use cuckoofs.Base.Sums.{update}
use cuckoofs.RwLock.System.{handle, count}

-- The lock words, the handles of the backend, and InterruptHoldoffCount (a uint32).
pub record Ctx : Type 0 where
  pub words : Words
  pub held : List Handle
  pub holdoff : ℕ

-- CUCKOO_ELOG_ERROR with PROGRAM_ERROR, by its message, and a lock that stays busy.
pub data Fault : Type 0 where
  too_many_locks not_declared not_held unsupported_mode still_busy : Fault

pub data Result : Type 0 where
  ok : Ctx → Result
  err : Fault → Result

infixl 5 ◌>>=◌
abbrev pub ◌>>=◌ : Result → (Ctx → Result) → Result
ok c >>= f = f c
err e >>= f = err e

abbrev pub hold_interrupts : Ctx → Ctx
hold_interrupts c = record c { holdoff = u32 (c.holdoff + 1) }

abbrev pub resume_interrupts : Ctx → Ctx
resume_interrupts c = record c { holdoff = u32 (c.holdoff + 2 ^ 32 - 1) }

-- RWLockDeclare
unfoldable pub rw_lock_declare : ℕ → Ctx → Result
rw_lock_declare l c =
    if leb max_simul_rwlocks (count c.held)
    then err too_many_locks
    else let c' = hold_interrupts c in
      ok (record c' {
        words = fetch_add c'.words l val_ref_count;
        held = handle l declare ∷ c'.held;
      })

-- RWLockUndeclare
unfoldable pub rw_lock_undeclare : ℕ → Ctx → Result
unfolding remove_declared
rw_lock_undeclare l c = elim (remove_declared l c.held) [
  | none ↦ err not_declared
  | some rest ↦
      ok (resume_interrupts (record c { words = fetch_sub c.words l val_ref_count; held = rest }))
]

-- RWLockRelease
unfoldable pub rw_lock_release : ℕ → Ctx → Result
unfolding remove_newest held_value
rw_lock_release l c = elim (remove_newest l c.held) [
  | none ↦ err not_held
  | some (m, rest) ↦
      let w = fetch_sub c.words l (held_value m) in
      ok (resume_interrupts (record c { words = fetch_sub w l val_ref_count; held = rest }))
]

-- RWLockAttemptLock with no other access in between: the compare-exchange succeeds.
unfoldable pub rw_lock_attempt_lock : Words → ℕ → Mode → Words × Bool
unfolding lock_free desired_state
rw_lock_attempt_lock w l m = (update w l (desired_state m (w l)), lock_free m (w l))

-- The loop of RWLockAcquire, for so many attempts.
unfoldable pub acquire_loop : ℕ → Words → ℕ → Mode → Option Words
unfolding rw_lock_attempt_lock
acquire_loop zero w l m = none
acquire_loop (suc n) w l m =
    let rest = acquire_loop n (rw_lock_attempt_lock w l m).0 l m in
    if (rw_lock_attempt_lock w l m).1 then some (rw_lock_attempt_lock w l m).0 else rest

-- RWLockAcquire
unfoldable pub rw_lock_acquire : ℕ → ℕ → Mode → Ctx → Result
unfolding acquire_loop
rw_lock_acquire attempts l m c =
    if is_declare m
    then err unsupported_mode
    else (if leb max_simul_rwlocks (count c.held)
        then err too_many_locks
        else let c' = hold_interrupts c in
          elim (acquire_loop attempts (fetch_add c'.words l val_ref_count) l m) [
            | none ↦ err still_busy
            | some w ↦ ok (record c' { words = w; held = handle l m ∷ c'.held })
          ])

-- One round of the loop of RWLockReleaseAll, on its last handle `h`.
unfoldable pub release_last : Bool → Handle → Ctx → Result
unfolding rw_lock_undeclare rw_lock_release
release_last keep h c =
    let c' = (if keep then hold_interrupts c else c) in
    if is_declare h.mode then rw_lock_undeclare h.lock c' else rw_lock_release h.lock c'

-- RWLockReleaseAll, on fuel; `none` if the fuel ends before the list.
unfoldable pub release_all_loop : ℕ → Bool → Ctx → Option Result
unfolding release_last
release_all_loop zero keep c = elim c.held [ [] ↦ some (ok c) | h ∷ hs ↦ none ]
release_all_loop (suc n) keep c = elim c.held [
  | [] ↦ some (ok c)
  | h ∷ hs ↦ elim (release_last keep h c) [
    | ok c' ↦ release_all_loop n keep c'
    | err e ↦ some (err e)
  ]
]

-- A round takes a handle off, so as many rounds as there are handles.
unfoldable pub rw_lock_release_all : Bool → Ctx → Option Result
unfolding release_all_loop
rw_lock_release_all keep c = release_all_loop (count c.held) keep c
