-- ===== src/RwLock/System/Effect.antt =====
-- What a step of one backend does at one lock: the word and the shares of that backend.
use cuckoofs.Base.{ℕ, ◌+◌, ◌≤◌, ◌<◌, ◌≡◌, ◌≢◌, refl, true, false, arith, add64, sub64, ℕ_discrete}
use cuckoofs.RwLock.{
  Mode, declare, Words, val_ref_count, held_value, lock_free, desired_state, max_simul_rwlocks,
}
use cuckoofs.RwLock.System.{
  Pc, idle, spin, cas, unref, Backend, count, Move, begin_declare, undeclare, acquire, read,
  cas_lose, cas_win, cas_busy, release, drop_ref, IsProperMove,
}
use cuckoofs.RwLock.System.Weights.{
  shared_by, exclusive_by, refs_by, mode_shared, mode_exclusive, remove_newest-Lost,
  remove_declared-Lost,
}

-- Before an acquisition there is room for one more handle, and it is for a real mode.
abbrev pub PcSound : ℕ → Pc → Type 0
PcSound n (spin l m) = (n < max_simul_rwlocks) × (m ≢ declare)
PcSound n (cas l m old) = (n < max_simul_rwlocks) × (m ≢ declare)
PcSound n idle = Unit
PcSound n (unref l) = Unit

pub record Sound (b : Backend) : Type 0 where
  pub room : count b.held ≤ max_simul_rwlocks
  pub pending : PcSound (count b.held) b.pc

pub data Effect (v v' : ℕ) (s x r s' x' r' : ℕ) : Type 0 where
  none_here : v' ≡ v → s' ≡ s → x' ≡ x → r' ≡ r → Effect v v' s x r s' x' r'
  ref_added : v' ≡ add64 v val_ref_count → s' ≡ s → x' ≡ x → r' ≡ r + 1 → Effect v v' s x r s' x' r'
  ref_dropped :
      v' ≡ sub64 v val_ref_count → s' ≡ s → x' ≡ x → r ≡ r' + 1 → Effect v v' s x r s' x' r'
  unlocked :
      (m : Mode)
      → m ≢ declare
      → v' ≡ sub64 v (held_value m)
      → s ≡ s' + mode_shared m
      → x ≡ x' + mode_exclusive m
      → r' ≡ r
      → Effect v v' s x r s' x' r'
  locked :
      (m : Mode)
      → m ≢ declare
      → lock_free m v ≡ true
      → v' ≡ desired_state m v
      → s' ≡ s + mode_shared m
      → x' ≡ x + mode_exclusive m
      → r' ≡ r
      → Effect v v' s x r s' x' r'
  refused :
      (m : Mode)
      → m ≢ declare
      → lock_free m v ≡ false
      → v' ≡ desired_state m v
      → s' ≡ s
      → x' ≡ x
      → r' ≡ r
      → Effect v v' s x r s' x' r'

abbrev pub EffectAt : ℕ → Words → Words → Backend → Backend → Type 0
EffectAt k w w' b b' =
    Effect (w k) (w' k) (shared_by k b) (exclusive_by k b) (refs_by k b) (shared_by k b')
      (exclusive_by k b') (refs_by k b')

pub Move-Sound : {w w' : Words} {b b' : Backend} → Move w b w' b' → Sound b → Sound b'
Move-Sound (begin_declare l h) s = record { room = omega arith; pending = tt }
Move-Sound (undeclare {hs} l e) s = record {
  room = omega (arith, s.room, (remove_declared-Lost l hs e).one_less);
  pending = tt;
}
Move-Sound (acquire l m ne h) s = record { room = s.room; pending = (h, ne) }
Move-Sound read s = record { room = s.room; pending = s.pending }
Move-Sound (cas_lose ne) s = record { room = s.room; pending = s.pending }
Move-Sound (cas_win e f) s = record { room = omega (arith, s.pending.0); pending = tt }
Move-Sound (cas_busy e f) s = record { room = s.room; pending = s.pending }
Move-Sound (release {hs} l e) s = record {
  room = omega (arith, s.room, (remove_newest-Lost l hs e).one_less);
  pending = tt;
}
Move-Sound drop_ref s = record { room = s.room; pending = tt }

pub Move-Effect :
    {w w' : Words} {b b' : Backend} (mv : Move w b w' b')
    → IsProperMove mv
    → Sound b
    → (k : ℕ) → EffectAt k w w' b b'
Move-Effect (begin_declare l h) proper s k = elim (ℕ_discrete k l) [
  | yes e ↦ ref_added (ground arith) (ground arith) (ground arith) (ground arith)
  | no ne ↦ none_here (ground arith) (ground arith) (ground arith) (ground arith)
]
Move-Effect (undeclare {hs} l e) proper s k =
    let lost = remove_declared-Lost l hs e in
    elim (ℕ_discrete k l) [
      | yes eq ↦
          ref_dropped (ground arith) (ground (arith, lost.shared_lost k))
            (ground (arith, lost.exclusive_lost k)) (ground (arith, lost.handles_lost k))
      | no ne ↦
          none_here (ground arith) (ground (arith, lost.shared_lost k))
            (ground (arith, lost.exclusive_lost k)) (ground (arith, lost.handles_lost k))
    ]
Move-Effect (acquire l m ne' h) proper s k = elim (ℕ_discrete k l) [
  | yes e ↦ ref_added (ground arith) (ground arith) (ground arith) (ground arith)
  | no ne ↦ none_here (ground arith) (ground arith) (ground arith) (ground arith)
]
Move-Effect read proper s k = none_here refl refl refl refl
Move-Effect (cas_lose ne) proper s k = none_here refl refl refl refl
Move-Effect (cas_win {l} {m} e f) proper s k = elim (ℕ_discrete k l) [
  | yes eq ↦
      locked m s.pending.1 (ground arith) (ground arith) (ground arith) (ground arith)
        (ground arith)
  | no ne ↦ none_here (ground arith) (ground arith) (ground arith) (ground arith)
]
Move-Effect (cas_busy {l} {m} e f) proper s k = elim (ℕ_discrete k l) [
  | yes eq ↦ refused m s.pending.1 (ground arith) (ground arith) refl refl refl
  | no ne ↦ none_here (ground arith) refl refl refl
]
Move-Effect (release {hs} {m} l e) proper s k =
    let lost = remove_newest-Lost l hs e in
    elim (ℕ_discrete k l) [
      | yes eq ↦
          unlocked m proper (ground arith) (ground (arith, lost.shared_lost k))
            (ground (arith, lost.exclusive_lost k)) (ground (arith, lost.handles_lost k))
      | no ne ↦
          none_here (ground arith) (ground (arith, lost.shared_lost k))
            (ground (arith, lost.exclusive_lost k)) (ground (arith, lost.handles_lost k))
    ]
Move-Effect (drop_ref {l}) proper s k = elim (ℕ_discrete k l) [
  | yes e ↦ ref_dropped (ground arith) refl refl (ground arith)
  | no ne ↦ none_here (ground arith) refl refl (ground arith)
]
