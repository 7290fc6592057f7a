-- ===== src/RwLock/System/Invariant.antt =====
-- What every reachable state keeps: each lock word is the sum of what the backends account for.
use cuckoofs.Base.{ℕ, ◌+◌, ◌^◌, ◌≤◌, ◌<◌, ◌≡◌, ◌⊎◌, inl, inr, refl, arith, ◌==◌, Bool-cases}
use cuckoofs.Base.Sums.{update, total, total-update, total-le, total-eq-zero, total_mono}
use cuckoofs.RwLock.{exclusive, shared, declare, Words, held_value}
use cuckoofs.RwLock.Fields.{
  encode, Fits, lock_free-exclusive, lock_free-shared, desired_state-win, desired_state-wait,
  desired_state-read, desired_state-busy, add_ref, sub_ref, sub_shared, sub_exclusive,
}
use cuckoofs.RwLock.System.{
  Backend, Move, System, Step, pick, init, Reach, start, later, IsProperMove, IsProperStep,
  IsProper,
}
use cuckoofs.RwLock.System.Weights.{shared_by, exclusive_by, refs_by, shared_by-le, refs_by-le}
use cuckoofs.RwLock.System.Effect.{
  Sound, Effect, EffectAt, none_here, ref_added, ref_dropped, unlocked, locked, refused, Move-Sound,
  Move-Effect,
}

-- At most so many backends keep a field of the word from running over: each has at most 8196
-- handles, and one reference on its way in or out.
abbrev pub max_backends : ℕ
max_backends = 2046

-- A word that stands for `s` readers, `x` writers and `r` references.
pub record Word (v s x r : ℕ) : Type 0 where
  pub flag : ℕ
  pub flag_fits : flag < 2
  pub one_writer : x ≤ 1
  pub apart : (s ≡ 0) ⊎ (x ≡ 0)
  pub fields : v ≡ encode s x r flag

pub Word-Fits : (v s x r : ℕ) (w : Word v s x r) → s ≤ r → r < 2 ^ 24 → Fits s x r w.flag
Word-Fits v s x r w le h = record {
  shared_fits = omega arith;
  exclusive_fits = omega (arith, w.one_writer);
  refs_fit = h;
  flag_fits = w.flag_fits;
}

module _ (v v' s x r s' x' r' : ℕ) (w : Word v s x r) (le : s ≤ r) (h : r < 2 ^ 24) (le' : s' ≤ r')
    (h' : r' < 2 ^ 24) where
  old_fits : Fits s x r w.flag
  old_fits = Word-Fits v s x r w le h

  -- Each effect of a step keeps the word in step with the shares.
  pub Effect-Word : Effect v v' s x r s' x' r' → Word v' s' x' r'
  unfolding held_value
  Effect-Word (none_here ev es ex er) = record {
    flag = w.flag;
    flag_fits = w.flag_fits;
    one_writer = omega (arith, w.one_writer);
    apart = ground (arith, w.apart);
    fields = omega (arith, w.fields);
  }
  Effect-Word (ref_added ev es ex er) = record {
    flag = w.flag;
    flag_fits = w.flag_fits;
    one_writer = omega (arith, w.one_writer);
    apart = ground (arith, w.apart);
    fields = ground (arith, w.fields, add_ref s x r w.flag old_fits);
  }
  Effect-Word (ref_dropped ev es ex er) = record {
    flag = w.flag;
    flag_fits = w.flag_fits;
    one_writer = omega (arith, w.one_writer);
    apart = ground (arith, w.apart);
    fields = ground (arith, w.fields, sub_ref s x r w.flag old_fits);
  }
  Effect-Word (unlocked exclusive ne ev es ex er) = record {
    flag = w.flag;
    flag_fits = w.flag_fits;
    one_writer = omega (arith, w.one_writer);
    apart = ground (arith, w.apart);
    fields = ground (arith, w.fields, sub_exclusive s x r w.flag old_fits);
  }
  Effect-Word (unlocked shared ne ev es ex er) = record {
    flag = w.flag;
    flag_fits = w.flag_fits;
    one_writer = omega (arith, w.one_writer);
    apart = ground (arith, w.apart);
    fields = ground (arith, w.fields, sub_shared s x r w.flag old_fits);
  }
  Effect-Word (unlocked declare ne ev es ex er) = absurd (ne refl)
  Effect-Word (locked exclusive ne free ev es ex er) =
      let z : s + x ≡ 0 = ground (arith, w.fields, lock_free-exclusive s x r w.flag old_fits) in
      record {
        flag = 0;
        flag_fits = omega arith;
        one_writer = omega arith;
        apart = inl (omega arith);
        fields = ground (arith, w.fields, desired_state-win s x r w.flag old_fits z);
      }
  Effect-Word (locked shared ne free ev es ex er) =
      let z : x + w.flag ≡ 0 = ground (arith, w.fields, lock_free-shared s x r w.flag old_fits) in
      record {
        flag = w.flag;
        flag_fits = w.flag_fits;
        one_writer = omega arith;
        apart = inr (omega arith);
        fields = ground (arith, w.fields, desired_state-read s x r w.flag old_fits z (omega arith));
      }
  Effect-Word (locked declare ne free ev es ex er) = absurd (ne refl)
  Effect-Word (refused exclusive ne busy ev es ex er) =
      let z : 0 < s + x = ground (arith, w.fields, lock_free-exclusive s x r w.flag old_fits) in
      record {
        flag = 1;
        flag_fits = omega arith;
        one_writer = omega (arith, w.one_writer);
        apart = ground (arith, w.apart);
        fields = ground (arith, w.fields, desired_state-wait s x r w.flag old_fits z);
      }
  Effect-Word (refused shared ne busy ev es ex er) =
      let z : 0 < x + w.flag = ground (arith, w.fields, lock_free-shared s x r w.flag old_fits) in
      record {
        flag = w.flag;
        flag_fits = w.flag_fits;
        one_writer = omega (arith, w.one_writer);
        apart = ground (arith, w.apart);
        fields = ground (arith, w.fields, desired_state-busy s x r w.flag old_fits z);
      }
  Effect-Word (refused declare ne busy ev es ex er) = absurd (ne refl)

  -- While a writer waits, a step lets no reader in, and the flag stays unless a writer takes the lock,
  -- which nobody held.
  pub Effect-waiting :
      w.flag ≡ 1
      → Effect v v' s x r s' x' r'
      → (s' ≤ s) × ((v' ≡ encode s' x' r' 1) ⊎ ((s + x ≡ 0) × (x' ≡ 1)))
  unfolding held_value
  Effect-waiting f1 (none_here ev es ex er) = (omega arith, inl (ground (arith, w.fields)))
  Effect-waiting f1 (ref_added ev es ex er) =
      (omega arith, inl (ground (arith, w.fields, add_ref s x r w.flag old_fits)))
  Effect-waiting f1 (ref_dropped ev es ex er) =
      (omega arith, inl (ground (arith, w.fields, sub_ref s x r w.flag old_fits)))
  Effect-waiting f1 (unlocked exclusive ne ev es ex er) =
      (omega arith, inl (ground (arith, w.fields, sub_exclusive s x r w.flag old_fits)))
  Effect-waiting f1 (unlocked shared ne ev es ex er) =
      (omega arith, inl (ground (arith, w.fields, sub_shared s x r w.flag old_fits)))
  Effect-waiting f1 (unlocked declare ne ev es ex er) = absurd (ne refl)
  Effect-waiting f1 (locked exclusive ne free ev es ex er) =
      let z : s + x ≡ 0 = ground (arith, w.fields, lock_free-exclusive s x r w.flag old_fits) in
      (omega arith, inr (z, omega arith))
  Effect-waiting f1 (locked shared ne free ev es ex er) =
      absurd (ground (arith, w.fields, lock_free-shared s x r w.flag old_fits))
  Effect-waiting f1 (locked declare ne free ev es ex er) = absurd (ne refl)
  Effect-waiting f1 (refused exclusive ne busy ev es ex er) =
      let z : 0 < s + x = ground (arith, w.fields, lock_free-exclusive s x r w.flag old_fits) in
      (omega arith, inl (ground (arith, w.fields, desired_state-wait s x r w.flag old_fits z)))
  Effect-waiting f1 (refused shared ne busy ev es ex er) = (
    omega arith,
    inl (ground (arith, w.fields, desired_state-busy s x r w.flag old_fits (omega arith))),
  )
  Effect-waiting f1 (refused declare ne busy ev es ex er) = absurd (ne refl)

-- The shares of all backends at one lock.
abbrev pub readers : ℕ → ℕ → (ℕ → Backend) → ℕ
readers k n bs = total (shared_by k) n bs

abbrev pub writers : ℕ → ℕ → (ℕ → Backend) → ℕ
writers k n bs = total (exclusive_by k) n bs

abbrev pub refs : ℕ → ℕ → (ℕ → Backend) → ℕ
refs k n bs = total (refs_by k) n bs

pub record Inv (n : ℕ) (s : System) : Type 0 where
  pub sound : (i : ℕ) → Sound (s.backend i)
  pub word :
      (k : ℕ)
      → Word (s.words k) (readers k n s.backend) (writers k n s.backend) (refs k n s.backend)

module _ (n : ℕ) (few : n ≤ max_backends) (bs : ℕ → Backend) (sound : (i : ℕ) → Sound (bs i))
    (k : ℕ) where
  pub readers-le : readers k n bs ≤ refs k n bs
  readers-le = total_mono (shared_by k) (refs_by k) n bs (shared_by-le k)

  pub refs-lt : refs k n bs < 2 ^ 24
  refs-lt = grind (
    arith,
    total-le (refs_by k) n 8197 bs (λ i lt. omega (arith, refs_by-le k (bs i), (sound i).room)),
  )

module _ {n : ℕ} (few : n ≤ max_backends) {s : System} (inv : Inv n s) (i : ℕ) (lt : i < n) where
  -- What one backend does changes the sums by what it does to its own shares.
  Effect-total :
      (k : ℕ) (w' : Words) (b' : Backend)
      → EffectAt k s.words w' (s.backend i) b'
      → (s' x' r' : ℕ) → s' + shared_by k (s.backend i) ≡ readers k n s.backend + shared_by k b'
      → x' + exclusive_by k (s.backend i) ≡ writers k n s.backend + exclusive_by k b'
      → r' + refs_by k (s.backend i) ≡ refs k n s.backend + refs_by k b'
      → Effect
          (s.words k)
          (w' k)
          (readers k n s.backend)
          (writers k n s.backend)
          (refs k n s.backend)
          s'
          x'
          r'
  Effect-total k w' b' (none_here ev es ex er) s' x' r' ps px pr =
      none_here ev (omega arith) (omega arith) (omega arith)
  Effect-total k w' b' (ref_added ev es ex er) s' x' r' ps px pr =
      ref_added ev (omega arith) (omega arith) (omega arith)
  Effect-total k w' b' (ref_dropped ev es ex er) s' x' r' ps px pr =
      ref_dropped ev (omega arith) (omega arith) (omega arith)
  Effect-total k w' b' (unlocked m ne ev es ex er) s' x' r' ps px pr =
      unlocked m ne ev (omega arith) (omega arith) (omega arith)
  Effect-total k w' b' (locked m ne free ev es ex er) s' x' r' ps px pr =
      locked m ne free ev (omega arith) (omega arith) (omega arith)
  Effect-total k w' b' (refused m ne busy ev es ex er) s' x' r' ps px pr =
      refused m ne busy ev (omega arith) (omega arith) (omega arith)

  pub Move-total :
      {w' : Words} {b' : Backend} (mv : Move s.words (s.backend i) w' b')
      → IsProperMove mv
      → (k : ℕ)
      → Effect
          (s.words k)
          (w' k)
          (readers k n s.backend)
          (writers k n s.backend)
          (refs k n s.backend)
          (readers k n (update s.backend i b'))
          (writers k n (update s.backend i b'))
          (refs k n (update s.backend i b'))
  Move-total {w'} {b'} mv proper k =
      Effect-total k w' b' (Move-Effect mv proper (inv.sound i) k)
        (readers k n (update s.backend i b')) (writers k n (update s.backend i b'))
        (refs k n (update s.backend i b'))
        (omega (arith, total-update (shared_by k) n s.backend i b' lt))
        (omega (arith, total-update (exclusive_by k) n s.backend i b' lt))
        (omega (arith, total-update (refs_by k) n s.backend i b' lt))

  pub Move-Inv :
      {w' : Words} {b' : Backend} (mv : Move s.words (s.backend i) w' b')
      → IsProperMove mv
      → Inv n (record { words = w'; backend = update s.backend i b' })
  Move-Inv {w'} {b'} mv proper = record {
    sound = sound';
    word = λ k.
        Effect-Word (s.words k) (w' k) _ _ _ _ _ _ (inv.word k)
          (readers-le n few s.backend inv.sound k) (refs-lt n few s.backend inv.sound k)
          (readers-le n few _ sound' k) (refs-lt n few _ sound' k) (Move-total mv proper k);
  }
    where
      sound' : (j : ℕ) → Sound (update s.backend i b' j)
      sound' j = elim (Bool-cases (j == i)) [
        | inl here ↦ rw here (Move-Sound mv (inv.sound i))
        | inr other ↦ rw other (inv.sound j)
      ]

Inv-init : (n : ℕ) → Inv n init
Inv-init n = record {
  sound = λ i. record { room = omega arith; pending = tt };
  word = λ k. record {
    flag = 0;
    flag_fits = omega arith;
    one_writer = omega (arith, none_held k);
    apart = inl (no_readers k);
    fields = omega (arith, none_held k, no_readers k, no_refs k);
  };
}
  where
    none_held : (k : ℕ) → writers k n init.backend ≡ 0
    none_held k = total-eq-zero (exclusive_by k) n init.backend (λ i lt. refl)

    no_readers : (k : ℕ) → readers k n init.backend ≡ 0
    no_readers k = total-eq-zero (shared_by k) n init.backend (λ i lt. refl)

    no_refs : (k : ℕ) → refs k n init.backend ≡ 0
    no_refs k = total-eq-zero (refs_by k) n init.backend (λ i lt. refl)

pub Step-Inv :
    {n : ℕ} {s t : System}
    → n ≤ max_backends
    → Inv n s
    → (st : Step n s t) → IsProperStep st
    → Inv n t
Step-Inv few inv (pick i lt mv) proper = Move-Inv few inv i lt mv proper

pub Reach-Inv : {n : ℕ} {s : System} → n ≤ max_backends → (r : Reach n s) → IsProper r → Inv n s
Reach-Inv {n} few start proper = Inv-init n
Reach-Inv few (later r st) (before, now) = Step-Inv few (Reach-Inv few r before) st now
