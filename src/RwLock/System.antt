-- ===== src/RwLock/System.antt =====
-- `n` backends over one store of lock words. Each atomic access to a word is a step of its own;
-- what a backend does to its own handle list and interrupt count is done with the next access.
pub mod Weights
pub mod Effect
pub mod Invariant
pub mod Safety
use cuckoofs.Base.{ℕ, suc, ◌<◌, ◌≡◌, ◌≢◌, Bool, true, false, some, List, [], ◌∷◌}
use cuckoofs.Base.Sums.{update}
use cuckoofs.RwLock.{
  Mode, declare, Handle, Words, lock_free, desired_state, remove_newest, remove_declared,
  held_value, val_ref_count, max_simul_rwlocks, fetch_add, fetch_sub,
}

-- Where a backend stands in RWLockAcquire or RWLockRelease.
pub data Pc : Type 0 where
  idle : Pc
  spin : (l : ℕ) (m : Mode) → Pc  -- before the read of RWLockAttemptLock
  cas : (l : ℕ) (m : Mode) (old : ℕ) → Pc  -- before its compare-exchange
  unref : (l : ℕ) → Pc  -- RWLockRelease, before the second subtraction

pub record Backend : Type 0 where
  pub held : List Handle
  pub pc : Pc

abbrev pub at : List Handle → Pc → Backend
at hs p = record { held = hs; pc = p }

abbrev pub handle : ℕ → Mode → Handle
handle l m = record { lock = l; mode = m }

abbrev pub count : List Handle → ℕ
count [] = 0
count (h ∷ hs) = suc (count hs)

-- One step of one backend. Errors (too many locks, a lock that is not held) leave the state alone
-- and are no steps.
pub data Move (w : Words) : Backend → Words → Backend → Type 0 where
  begin_declare :
      {hs : List Handle} (l : ℕ)
      → count hs < max_simul_rwlocks
      → Move w (at hs idle) (fetch_add w l val_ref_count) (at (handle l declare ∷ hs) idle)
  undeclare :
      {hs rest : List Handle} (l : ℕ)
      → remove_declared l hs ≡ some rest
      → Move w (at hs idle) (fetch_sub w l val_ref_count) (at rest idle)
  acquire :
      {hs : List Handle} (l : ℕ) (m : Mode)
      → m ≢ declare
      → count hs < max_simul_rwlocks
      → Move w (at hs idle) (fetch_add w l val_ref_count) (at hs (spin l m))
  read : {hs : List Handle} {l : ℕ} {m : Mode} → Move w (at hs (spin l m)) w (at hs (cas l m (w l)))
  cas_lose :
      {hs : List Handle} {l : ℕ} {m : Mode} {old : ℕ}
      → w l ≢ old
      → Move w (at hs (cas l m old)) w (at hs (cas l m (w l)))
  cas_win :
      {hs : List Handle} {l : ℕ} {m : Mode} {old : ℕ}
      → w l ≡ old
      → lock_free m old ≡ true
      → Move w (at hs (cas l m old)) (update w l (desired_state m old)) (at (handle l m ∷ hs) idle)
  cas_busy :
      {hs : List Handle} {l : ℕ} {m : Mode} {old : ℕ}
      → w l ≡ old
      → lock_free m old ≡ false
      → Move w (at hs (cas l m old)) (update w l (desired_state m old)) (at hs (spin l m))
  release :
      {hs rest : List Handle} {m : Mode} (l : ℕ)
      → remove_newest l hs ≡ some (m, rest)
      → Move w (at hs idle) (fetch_sub w l (held_value m)) (at rest (unref l))
  drop_ref :
      {hs : List Handle} {l : ℕ}
      → Move w (at hs (unref l)) (fetch_sub w l val_ref_count) (at hs idle)

-- RWLockRelease is called where the last handle on the lock is a hold, which the code does not test.
abbrev pub IsProperMove : {w w' : Words} {b b' : Backend} → Move w b w' b' → Type 0
IsProperMove (begin_declare l h) = Unit
IsProperMove (undeclare l e) = Unit
IsProperMove (acquire l m ne h) = Unit
IsProperMove read = Unit
IsProperMove (cas_lose ne) = Unit
IsProperMove (cas_win e f) = Unit
IsProperMove (cas_busy e f) = Unit
IsProperMove (release {m} l e) = m ≢ declare
IsProperMove drop_ref = Unit

pub record System : Type 0 where
  pub words : Words
  pub backend : ℕ → Backend

pub data Step (n : ℕ) (s : System) : System → Type 0 where
  pick :
      (i : ℕ) {w : Words} {b : Backend}
      → i < n
      → Move s.words (s.backend i) w b
      → Step n s (record { words = w; backend = update s.backend i b })

-- RWLockInitialize on every lock, and backends that hold nothing.
abbrev pub init : System
init = record { words = λ _. 0; backend = λ _. at [] idle }

pub data Reach (n : ℕ) : System → Type 0 where
  start : Reach n init
  later : {s t : System} → Reach n s → Step n s t → Reach n t

-- A run with no call of RWLockRelease where the last handle on the lock is a declaration.
abbrev pub IsProperStep : {n : ℕ} {s t : System} → Step n s t → Type 0
IsProperStep (pick i lt mv) = IsProperMove mv

abbrev pub IsProper : {n : ℕ} {s : System} → Reach n s → Type 0
IsProper start = Unit
IsProper (later r st) = IsProper r × IsProperStep st
