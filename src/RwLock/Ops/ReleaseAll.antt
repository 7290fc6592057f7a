-- ===== src/RwLock/Ops/ReleaseAll.antt =====
-- RWLockReleaseAll gives back all that the backend holds and nothing else.
use cuckoofs.Base.{
  ℕ, ◌+◌, ◌-◌, ◌%◌, ◌^◌, ◌≤◌, ◌<◌, ◌≡◌, refl, Bool, true, false, some, List, [], ◌∷◌, arith,
  if◌then◌else◌, ◌==◌, sub64, ◌∙◌,
}
use cuckoofs.RwLock.{
  Mode, exclusive, shared, declare, is_declare, Handle, Words, val_ref_count, held_value, lock_free,
  fetch_sub,
}
use cuckoofs.RwLock.Fields.{encode, Fits, lock_free-exclusive}
use cuckoofs.RwLock.System.{count, handle}
use cuckoofs.RwLock.System.Weights.{
  shared_in, exclusive_in, handles_in, mode_shared, mode_exclusive,
}
use cuckoofs.RwLock.Ops.{
  Ctx, ok, release_last, release_all_loop, rw_lock_release_all, rw_lock_release,
}

-- What other backends account for in the word of each lock.
pub record Others : Type 0 where
  pub shared_of : ℕ → ℕ
  pub exclusive_of : ℕ → ℕ
  pub refs_of : ℕ → ℕ
  pub flag_of : ℕ → ℕ

-- Each word is the others' shares and those of the handles `hs`.
pub record Accounts (o : Others) (w : Words) (hs : List Handle) : Type 0 where
  pub fits :
      (k : ℕ)
      → Fits
          (o.shared_of k + shared_in k hs)
          (o.exclusive_of k + exclusive_in k hs)
          (o.refs_of k + handles_in k hs)
          (o.flag_of k)
  pub word :
      (k : ℕ)
      → w k
        ≡ encode
            (o.shared_of k + shared_in k hs)
            (o.exclusive_of k + exclusive_in k hs)
            (o.refs_of k + handles_in k hs)
            (o.flag_of k)

-- The word of a lock after one of its handles is given back.
abbrev pub given_back : Mode → ℕ → ℕ
given_back declare v = sub64 v val_ref_count
given_back exclusive v = sub64 (sub64 v (2 ^ 24)) val_ref_count
given_back shared v = sub64 (sub64 v 1) val_ref_count

-- `own` says whether the handle given back is one on the lock at hand.
given_back_lem :
    (own : Bool) (m : Mode) (v s s' x x' r r' f : ℕ)
    → Fits
        (s + ((if own then mode_shared m else 0) + s'))
        (x + ((if own then mode_exclusive m else 0) + x'))
        (r + ((if own then 1 else 0) + r'))
        f
    → v
      ≡ encode
          (s + ((if own then mode_shared m else 0) + s'))
          (x + ((if own then mode_exclusive m else 0) + x'))
          (r + ((if own then 1 else 0) + r'))
          f
    → (if own then given_back m v else v) ≡ encode (s + s') (x + x') (r + r') f
given_back_lem true exclusive v s s' x x' r r' f h e =
    omega (arith, h.shared_fits, h.exclusive_fits, h.refs_fit, h.flag_fits)
given_back_lem true shared v s s' x x' r r' f h e =
    omega (arith, h.shared_fits, h.exclusive_fits, h.refs_fit, h.flag_fits)
given_back_lem true declare v s s' x x' r r' f h e =
    omega (arith, h.shared_fits, h.exclusive_fits, h.refs_fit, h.flag_fits)
given_back_lem false m v s s' x x' r r' f h e = omega arith

-- The interrupt count after a round.
abbrev pub resumed : Bool → ℕ → ℕ
resumed keep n = if keep then n else n - 1

abbrev next_ctx : Bool → Mode → ℕ → List Handle → Ctx → Ctx
next_ctx keep m l hs c =
    let held_back = (λ (w : Words). fetch_sub w l (held_value m)) in
    record {
      words = fetch_sub (if is_declare m then c.words else held_back c.words) l val_ref_count;
      held = hs;
      holdoff = resumed keep c.holdoff;
    }

-- One round takes the last handle off and its shares out of the word of its lock.
release_last_lem :
    (keep : Bool) (m : Mode) (l : ℕ) (hs : List Handle) (c : Ctx)
    → c.held ≡ handle l m ∷ hs
    → c.holdoff + 1 < 2 ^ 32
    → 0 < c.holdoff + (if keep then 1 else 0)
    → release_last keep (handle l m) c ≡ ok (next_ctx keep m l hs c)
unfolding release_last
release_last_lem true exclusive l hs c e below some_held = ground arith
release_last_lem true shared l hs c e below some_held = ground arith
release_last_lem true declare l hs c e below some_held = ground arith
release_last_lem false exclusive l hs c e below some_held = ground arith
release_last_lem false m l hs c e below some_held = ground arith

next_ctx-words :
    (keep : Bool) (m : Mode) (l k : ℕ) (hs : List Handle) (c : Ctx)
    → (next_ctx keep m l hs c).words k ≡ (if l == k then given_back m (c.words k) else c.words k)
unfolding held_value
next_ctx-words keep exclusive l k hs c = ground arith
next_ctx-words keep m l k hs c = ground arith

-- A round keeps the accounts, for the handles that are left.
next_ctx-Accounts :
    (keep : Bool) (m : Mode) (l : ℕ) (hs : List Handle) (c : Ctx) (o : Others)
    → Accounts o c.words (handle l m ∷ hs)
    → Accounts o (next_ctx keep m l hs c).words hs
next_ctx-Accounts keep m l hs c o a = record {
  fits = λ k.
      let f = a.fits k in
      record {
        shared_fits = omega (arith, f.shared_fits);
        exclusive_fits = omega (arith, f.exclusive_fits);
        refs_fit = omega (arith, f.refs_fit);
        flag_fits = f.flag_fits;
      };
  word = λ k.
      next_ctx-words keep m l k hs c
      ∙ given_back_lem (l == k) m (c.words k) (o.shared_of k) (shared_in k hs) (o.exclusive_of k)
          (exclusive_in k hs) (o.refs_of k) (handles_in k hs) (o.flag_of k) (a.fits k) (a.word k);
}

-- The interrupt count allows the rounds that are left.
abbrev pub Resumable : Bool → ℕ → ℕ → Type 0
Resumable keep rounds holdoff = (holdoff + 1 < 2 ^ 32) × ((if keep then 0 else rounds) ≤ holdoff)

abbrev pub after : Bool → ℕ → ℕ → ℕ
after keep rounds holdoff = if keep then holdoff else holdoff - rounds

release_all_loop_lem :
    (keep : Bool) (o : Others) (hs : List Handle) (c : Ctx)
    → c.held ≡ hs
    → Accounts o c.words hs
    → Resumable keep (count hs) c.holdoff
    → (c' : Ctx) × (release_all_loop (count hs) keep c ≡ some (ok c'))
      × (c'.held ≡ [])
      × (c'.holdoff ≡ after keep (count hs) c.holdoff)
      × Accounts o c'.words []
unfolding release_all_loop
release_all_loop_lem keep o [] c e a h = (c, ground arith, e, ground arith, a)
release_all_loop_lem keep o (h ∷ hs) c e a room =
    let c1 = next_ctx keep h.mode h.lock hs c in
    let one_round = release_last_lem keep h.mode h.lock hs c e room.0 (ground arith) in
    let left : Resumable keep (count hs) c1.holdoff = ground arith in
    let (c', ran, none_left, count_left, accounts) =
      release_all_loop_lem keep o hs c1 refl (next_ctx-Accounts keep h.mode h.lock hs c o a) left in
    (c', ground (arith, one_round, ran), none_left, ground (arith, count_left), accounts)

-- RWLockReleaseAll on a backend whose handles are part of each lock word, with the interrupt count
-- as high as the handles to give back if it is to fall, ends without a fault and without handles,
-- leaves in each word exactly the shares of the others, and lowers the interrupt count by the
-- number of handles, or not at all if it is to be kept.
pub release_all_lem :
    (keep : Bool) (o : Others) (c : Ctx)
    → Accounts o c.words c.held
    → Resumable keep (count c.held) c.holdoff
    → (c' : Ctx) × (rw_lock_release_all keep c ≡ some (ok c'))
      × (c'.held ≡ [])
      × (c'.holdoff ≡ after keep (count c.held) c.holdoff)
      × Accounts o c'.words []
unfolding rw_lock_release_all
release_all_lem keep o c a room = release_all_loop_lem keep o c.held c refl a room

-- RWLockRelease does not ask whether the handle that it finds is a hold. Called by a backend whose
-- last handle on a lock is a declaration, while one other backend reads under that lock, it takes
-- the other's share out of the word, and the next attempt of a writer succeeds.
pub release-of_declared :
    (l : ℕ) (hs : List Handle) (c : Ctx) (r f : ℕ)
    → c.held ≡ handle l declare ∷ hs
    → c.words l ≡ encode 1 0 (r + 1) f
    → Fits 1 0 (r + 1) f
    → (c' : Ctx) × (rw_lock_release l c ≡ ok c')
      × (c'.words l ≡ encode 0 0 r f)
      × (lock_free exclusive (c'.words l) ≡ true)
unfolding rw_lock_release
release-of_declared l hs c r f e w fits =
    (c', ground arith, left, rw left (ground (arith, lock_free-exclusive 0 0 r f small)))
  where
    c' : Ctx
    c' = record {
      words = fetch_sub (fetch_sub c.words l 1) l val_ref_count;
      held = hs;
      holdoff = (c.holdoff + 2 ^ 32 - 1) % 2 ^ 32;
    }

    small : Fits 0 0 r f
    small = record {
      shared_fits = omega arith;
      exclusive_fits = omega arith;
      refs_fit = omega (arith, fits.refs_fit);
      flag_fits = fits.flag_fits;
    }

    left : c'.words l ≡ encode 0 0 r f
    left = ground (arith, fits.refs_fit, fits.flag_fits)
