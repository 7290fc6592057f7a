-- ===== src/RwLock/System/Safety.antt =====
-- What the invariant gives for every state that the backends can reach.
use cuckoofs.Base.{
  ℕ, ◌+◌, ◌^◌, bit_and, ◌≤◌, ◌<◌, ◌≡◌, ◌↔◌, ◌⊎◌, inl, inr, refl, true, arith, ℕ_discrete, List, ◌∷◌,
}
use cuckoofs.Base.Sums.{update, member-le-total, pair-le-total, total-eq-zero}
use cuckoofs.RwLock.{
  Words, exclusive, Handle, lock_free, flag_has_exclusive_waiter, desired_state, check_destroyable,
}
use cuckoofs.RwLock.Fields.{Fits, lock_free-exclusive, waiter_fields, check_destroyable_iff}
use cuckoofs.RwLock.System.{
  Backend, System, Reach, Move, Step, pick, Backend, at, handle, spin, cas, idle, read, cas_win,
  IsProper, IsProperStep,
}
use cuckoofs.RwLock.System.Weights.{shared_by, exclusive_by, refs_by}
use cuckoofs.RwLock.System.Invariant.{
  max_backends, Word, Word-Fits, Inv, Reach-Inv, readers, writers, refs, readers-le, refs-lt,
  Effect-waiting, Move-total, Move-Inv,
}

module _ {n : ℕ} {s : System} (few : n ≤ max_backends) (r : Reach n s) (proper : IsProper r)
    (k : ℕ) where
  inv : Inv n s
  inv = Reach-Inv few r proper

  word : Word (s.words k) (readers k n s.backend) (writers k n s.backend) (refs k n s.backend)
  word = inv.word k

  fits : Fits (readers k n s.backend) (writers k n s.backend) (refs k n s.backend) word.flag
  fits =
      Word-Fits _ _ _ _ word (readers-le n few s.backend inv.sound k)
        (refs-lt n few s.backend inv.sound k)

  -- In every state that at most 2046 backends reach with no call of RWLockRelease where the last handle
  -- on the lock is a declaration: if backend `i` holds lock `k` exclusively and backend `j` holds it in
  -- any mode, `i` and `j` are one, and it holds the lock once and not shared.
  pub mutual_exclusion :
      (i j : ℕ)
      → i < n
      → j < n
      → 0 < exclusive_by k (s.backend i)
      → 0 < exclusive_by k (s.backend j) + shared_by k (s.backend j)
      → (i ≡ j) × (exclusive_by k (s.backend i) ≡ 1) × (shared_by k (s.backend i) ≡ 0)
  mutual_exclusion i j hi hj wi wj = elim (ℕ_discrete i j) [
    | yes same ↦ (same, omega (arith, one), omega (arith, none))
    | no other ↦ absurd (
        omega (
          arith,
          one,
          none,
          word.one_writer,
          word.apart,
          pair-le-total (exclusive_by k) n s.backend i j hi hj other,
          member-le-total (shared_by k) n s.backend j hj,
        ))
  ]
    where
      one : (exclusive_by k (s.backend i) ≤ 1)
      one = omega (arith, word.one_writer, member-le-total (exclusive_by k) n s.backend i hi)

      none : shared_by k (s.backend i) ≡ 0
      none = omega (
        arith,
        word.apart,
        member-le-total (exclusive_by k) n s.backend i hi,
        member-le-total (shared_by k) n s.backend i hi,
      )

  -- In every state that at most 2046 backends reach with no call of RWLockRelease where the last handle
  -- on the lock is a declaration, RWLockCheckDestroyable answers true on a lock exactly when no backend
  -- declares it, waits for it, holds it or is still giving it back.
  pub check_destroyable-iff_unused :
      (check_destroyable (s.words k) ≡ true) ↔ ((i : ℕ) → i < n → refs_by k (s.backend i) ≡ 0)
  check_destroyable-iff_unused = rw word.fields (
    λ d i lt. omega (
      arith,
      (check_destroyable_iff _ _ _ _ fits).0 d,
      member-le-total (refs_by k) n s.backend i lt,
    ),
    λ unused. (check_destroyable_iff _ _ _ _ fits).1 (total-eq-zero (refs_by k) n s.backend unused),
  )

  -- In such a state, an attempt of a writer that reads the current word succeeds exactly when no backend holds the lock in any mode.
  pub lock_free-iff_unheld :
      (lock_free exclusive (s.words k) ≡ true)
      ↔ ((i : ℕ) → i < n → (shared_by k (s.backend i) ≡ 0) × (exclusive_by k (s.backend i) ≡ 0))
  lock_free-iff_unheld = (
    λ free i lt.
        let sum : readers k n s.backend + writers k n s.backend ≡ 0 =
          ground (arith, word.fields, lock_free-exclusive _ _ _ _ fits) in
        omega (
          arith,
          member-le-total (shared_by k) n s.backend i lt,
          member-le-total (exclusive_by k) n s.backend i lt,
        ),
    λ unheld. ground (
      arith,
      word.fields,
      lock_free-exclusive _ _ _ _ fits,
      total-eq-zero (shared_by k) n s.backend (λ i lt. (unheld i lt).0),
      total-eq-zero (exclusive_by k) n s.backend (λ i lt. (unheld i lt).1),
    ),
  )

  -- In every state that at most 2046 backends reach, if a writer is flagged as waiting for lock `k`, no
  -- step of any backend raises the number of readers, and the flag stays set but for a step by which a
  -- writer takes the lock, which nobody held. No call of RWLockRelease is made, before or in the step,
  -- where the last handle on the lock is a declaration.
  pub writer_priority :
      {t : System}
      → bit_and (s.words k) flag_has_exclusive_waiter ≡ flag_has_exclusive_waiter
      → (st : Step n s t) → IsProperStep st
      → (readers k n t.backend ≤ readers k n s.backend)
        × ((bit_and (t.words k) flag_has_exclusive_waiter ≡ flag_has_exclusive_waiter)
            ⊎ ((readers k n s.backend + writers k n s.backend ≡ 0) × (writers k n t.backend ≡ 1)))
  writer_priority flagged (pick i {w = w'} {b = b'} lt mv) now =
      let (fewer, after) =
        Effect-waiting _ _ _ _ _ _ _ _ word le lt_max le' lt_max' set
          (Move-total few inv i lt mv now k) in
      (
        fewer,
        elim after [
          | inl stays ↦ inl (ground (arith, stays, waiter_fields _ _ _ 1 flag_fits))
          | inr taken ↦ inr taken
        ],
      )
    where
      le : readers k n s.backend ≤ refs k n s.backend
      le = readers-le n few s.backend inv.sound k

      lt_max : refs k n s.backend < 2 ^ 24
      lt_max = refs-lt n few s.backend inv.sound k

      next : Inv n (record { words = w'; backend = update s.backend i b' })
      next = Move-Inv few inv i lt mv now

      le' : readers k n (update s.backend i b') ≤ refs k n (update s.backend i b')
      le' = readers-le n few _ next.sound k

      lt_max' : refs k n (update s.backend i b') < 2 ^ 24
      lt_max' = refs-lt n few _ next.sound k

      flag_fits :
          Fits
            (readers k n (update s.backend i b'))
            (writers k n (update s.backend i b'))
            (refs k n (update s.backend i b'))
            1
      flag_fits = record {
        shared_fits = omega (arith, le', lt_max');
        exclusive_fits = omega (arith, (next.word k).one_writer);
        refs_fit = lt_max';
        flag_fits = omega arith;
      }

      set : word.flag ≡ 1
      set = ground (arith, word.fields, waiter_fields _ _ _ _ fits)

  -- In every state that at most 2046 backends reach with no call of RWLockRelease where the last handle
  -- on the lock is a declaration: a backend that is about to try for the exclusive lock `k`, which no
  -- backend holds, has it after two steps of its own, if no other backend takes one between them.
  pub unheld_lock_taken :
      (i : ℕ) (hs : List Handle)
      → s.backend i ≡ at hs (spin k exclusive)
      → ((j : ℕ) → j < n → (shared_by k (s.backend j) ≡ 0) × (exclusive_by k (s.backend j) ≡ 0))
      → (w : Words) × (b : Backend) × (w' : Words) × Move s.words (s.backend i) w b
        × Move w b w' (at (handle k exclusive ∷ hs) idle)
  unheld_lock_taken i hs e unheld =
      let free : lock_free exclusive (s.words k) ≡ true = lock_free-iff_unheld.1 unheld in
      (
        s.words,
        at hs (cas k exclusive (s.words k)),
        update s.words k (desired_state exclusive (s.words k)),
        rw e read,
        cas_win refl free,
      )
