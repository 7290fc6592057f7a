-- ===== src/RwLock.antt =====
-- cuckoo/utils/rwlock.c and cuckoo/include/utils/rwlock.h: a spinning reader-writer lock in one
-- 64-bit word, with the list of the handles that a backend holds.
-- The pieces of the operations are defined here; `Ops` has the operations of one backend with no
-- other at work, `System` the interleaving of `n` backends, one atomic access at a time.
pub mod Fields
pub mod Ops
pub mod System
mod Tests
use cuckoofs.Base.Sums.{update}
use cuckoofs.Base.{
  ℕ, zero, suc, ◌+◌, ◌-◌, ◌*◌, ◌^◌, ◌≤◌, ◌<◌, bit_and, bit_or, ◌≡◌, Bool, true, false, ◌&&◌, Option,
  none, some, List, [], ◌∷◌, ◌==◌, if◌then◌else◌, add64, sub64, not64,
}

-- RWLockMode
pub data Mode : Type 0 where
  exclusive shared declare : Mode

abbrev pub is_exclusive : Mode → Bool
is_exclusive exclusive = true
is_exclusive _ = false

abbrev pub is_declare : Mode → Bool
is_declare declare = true
is_declare _ = false

abbrev pub bit_count_for_shared : ℕ
bit_count_for_shared = 24

abbrev pub flag_has_exclusive_waiter : ℕ
flag_has_exclusive_waiter = 2 ^ 62

abbrev pub val_exclusive : ℕ
val_exclusive = 2 ^ bit_count_for_shared

abbrev pub val_shared : ℕ
val_shared = 1

abbrev pub val_ref_count : ℕ
val_ref_count = 2 ^ (bit_count_for_shared + 1)

abbrev pub lock_mask : ℕ
lock_mask = 2 ^ (bit_count_for_shared + 1) - 1

abbrev pub ref_count_mask : ℕ
ref_count_mask = bit_and (2 ^ (bit_count_for_shared * 2 + 2) - 1) (not64 lock_mask)

abbrev pub max_simul_rwlocks : ℕ
max_simul_rwlocks = 8196

-- RWLockHandle; a lock is named by its address. The array `held_rwlocks` is a list with its last
-- element first, so that a search from the end is a search from the head.
pub record Handle : Type 0 where
  pub lock : ℕ
  pub mode : Mode

-- The test of RWLockAttemptLock on the word that it read.
unfoldable pub lock_free : Mode → ℕ → Bool
lock_free m old =
    if is_exclusive m
    then bit_and old lock_mask == 0
    else bit_and old (bit_or val_exclusive flag_has_exclusive_waiter) == 0

-- The word that RWLockAttemptLock tries to store.
unfoldable pub desired_state : Mode → ℕ → ℕ
unfolding lock_free
desired_state m old =
    if is_exclusive m
    then (if lock_free m old
        then bit_and (bit_or old val_exclusive) (not64 flag_has_exclusive_waiter)
        else bit_or old flag_has_exclusive_waiter)
    else (if lock_free m old then add64 old val_shared else old)

-- RWLockCheckDestroyable
unfoldable pub check_destroyable : ℕ → Bool
check_destroyable state = bit_and state ref_count_mask == 0

-- The search of RWLockRelease from the last handle down, and the shift that closes the gap.
unfoldable pub remove_newest : ℕ → List Handle → Option (Mode × List Handle)
remove_newest l [] = none
remove_newest l (h ∷ hs) =
    if h.lock == l
    then some (h.mode, hs)
    else elim (remove_newest l hs) [ none ↦ none | some (m, rest) ↦ some (m, h ∷ rest) ]

-- The same in RWLockUndeclare, which takes declarations only.
unfoldable pub remove_declared : ℕ → List Handle → Option (List Handle)
remove_declared l [] = none
remove_declared l (h ∷ hs) =
    if h.lock == l && is_declare h.mode
    then some hs
    else elim (remove_declared l hs) [ none ↦ none | some rest ↦ some (h ∷ rest) ]

-- What RWLockRelease subtracts first.
unfoldable pub held_value : Mode → ℕ
held_value m = if is_exclusive m then val_exclusive else val_shared

-- A store of lock words, by address.
abbrev pub Words : Type 0
Words = ℕ → ℕ

abbrev pub fetch_add : Words → ℕ → ℕ → Words
fetch_add w l v = update w l (add64 (w l) v)

abbrev pub fetch_sub : Words → ℕ → ℕ → Words
fetch_sub w l v = update w l (sub64 (w l) v)
