-- ===== src/RwLock/Fields.antt =====
-- The fields of a lock word, and what the bit operations of the lock do to them.
use cuckoofs.Base.{
  ℕ, zero, suc, ◌+◌, ◌-◌, ◌*◌, ◌^◌, ◌<◌, bit_and, bit_or, ◌≡◌, ◌↔◌, refl, ap, ap₂, ◌∙◌, true, ◌==◌,
  arith, add64, sub64, not64,
}
use cuckoofs.Base.Bits.{and_split, or_split, and_mask, and-zero, or-zero, zero-and}
use cuckoofs.RwLock.{
  exclusive, shared, lock_mask, ref_count_mask, val_exclusive, flag_has_exclusive_waiter,
  val_ref_count, val_shared, lock_free, desired_state, check_destroyable,
}

-- `s` shared holders, `x` exclusive holders, `r` references, `f` the flag of a waiting writer.
abbrev pub encode : (s x r f : ℕ) → ℕ
encode s x r f = s + x * 2 ^ 24 + r * 2 ^ 25 + f * 2 ^ 62

-- Sizes at which the fields do not run into one another.
pub record Fits (s x r f : ℕ) : Type 0 where
  pub shared_fits : s < 2 ^ 24
  pub exclusive_fits : x < 2
  pub refs_fit : r < 2 ^ 24
  pub flag_fits : f < 2

and_one : (x : ℕ) → x < 2 → bit_and x 1 ≡ x
and_one x h = and_mask 1 x h

or_one : (x : ℕ) → x < 2 → bit_or x 1 ≡ 1
or_one zero h = refl
or_one (suc zero) h = refl
or_one (suc (suc x)) h = absurd (omega arith)

and_two : (x : ℕ) → x < 2 → bit_and x 2 ≡ 0
and_two zero h = refl
and_two (suc zero) h = refl
and_two (suc (suc x)) h = absurd (omega arith)

nested : (s x r f : ℕ) → encode s x r f ≡ s + 2 ^ 24 * (x + 2 ^ 1 * (r + 2 ^ 37 * f))
nested s x r f = omega arith

module _ (s x r f s' x' r' f' : ℕ) (fits : (s < 2 ^ 24) × (x < 2) × (r < 2 ^ 37))
    (fits' : (s' < 2 ^ 24) × (x' < 2) × (r' < 2 ^ 37)) where
  -- One bit operation acts on each field: a mask is given by its fields too.
  and_fields :
      bit_and (encode s x r f) (encode s' x' r' f')
      ≡ encode (bit_and s s') (bit_and x x') (bit_and r r') (bit_and f f')
  and_fields =
      ap₂ bit_and (nested s x r f) (nested s' x' r' f')
      ∙ and_split 24 s _ s' _ fits.0 fits'.0
      ∙ ap (λ (t : ℕ). bit_and s s' + 2 ^ 24 * t)
          (and_split 1 x (r + 2 ^ 37 * f) x' (r' + 2 ^ 37 * f') fits.1 fits'.1)
      ∙ omega (arith, and_split 37 r f r' f' fits.2 fits'.2)

  or_fields :
      bit_or (encode s x r f) (encode s' x' r' f')
      ≡ encode (bit_or s s') (bit_or x x') (bit_or r r') (bit_or f f')
  or_fields =
      ap₂ bit_or (nested s x r f) (nested s' x' r' f')
      ∙ or_split 24 s _ s' _ fits.0 fits'.0
      ∙ ap (λ (t : ℕ). bit_or s s' + 2 ^ 24 * t)
          (or_split 1 x (r + 2 ^ 37 * f) x' (r' + 2 ^ 37 * f') fits.1 fits'.1)
      ∙ omega (arith, or_split 37 r f r' f' fits.2 fits'.2)

module _ (s x r f : ℕ) (fits : Fits s x r f) where
  widths : (s < 2 ^ 24) × (x < 2) × (r < 2 ^ 37)
  widths = omega (arith, fits.shared_fits, fits.exclusive_fits, fits.refs_fit)

  -- The masks of the source, field by field.
  lock_fields : bit_and (encode s x r f) lock_mask ≡ encode s x 0 0
  lock_fields =
      and_fields s x r f (2 ^ 24 - 1) 1 0 0 widths (omega arith)
      ∙ omega (
        arith,
        and_mask 24 s fits.shared_fits,
        and_one x fits.exclusive_fits,
        and-zero r,
        and-zero f,
      )

  holder_fields :
      bit_and (encode s x r f) (bit_or val_exclusive flag_has_exclusive_waiter) ≡ encode 0 x 0 f
  holder_fields =
      and_fields s x r f 0 1 0 1 widths (omega arith)
      ∙ omega
          (arith, and-zero s, and_one x fits.exclusive_fits, and-zero r, and_one f fits.flag_fits)

  ref_fields : bit_and (encode s x r f) ref_count_mask ≡ encode 0 0 r 0
  ref_fields =
      and_fields s x r f 0 0 (2 ^ 25 - 1) 0 widths (omega arith)
      ∙ omega
          (arith, and-zero s, and-zero x, and_mask 25 r (omega (arith, fits.refs_fit)), and-zero f)

  -- A free word is marked as held by a writer, and the flag goes.
  take_fields :
      s ≡ 0
      → x ≡ 0
      → bit_and (bit_or (encode s x r f) val_exclusive) (not64 flag_has_exclusive_waiter)
        ≡ encode 0 1 r 0
  take_fields s0 x0 =
      ap (λ (t : ℕ). bit_and t (not64 flag_has_exclusive_waiter)) held
      ∙ and_fields 0 1 r f (2 ^ 24 - 1) 1 (2 ^ 37 - 1) 2 (omega (arith, widths)) (omega arith)
      ∙ omega (
        arith,
        zero-and (2 ^ 24 - 1),
        and_one 1 (omega arith),
        and_mask 37 r widths.2,
        and_two f fits.flag_fits,
      )
    where
      held : bit_or (encode s x r f) val_exclusive ≡ encode 0 1 r f
      held =
          or_fields s x r f 0 1 0 0 widths (omega arith)
          ∙ omega (arith, s0, or-zero s, or_one x fits.exclusive_fits, or-zero r, or-zero f)

  flag_fields : bit_or (encode s x r f) flag_has_exclusive_waiter ≡ encode s x r 1
  flag_fields =
      or_fields s x r f 0 0 0 1 widths (omega arith)
      ∙ omega (arith, or-zero s, or-zero x, or-zero r, or_one f fits.flag_fits)

  -- What an attempt of a writer reads and stores.
  pub lock_free-exclusive : lock_free exclusive (encode s x r f) ≡ (s + x == 0)
  unfolding lock_free
  lock_free-exclusive = rw lock_fields (ground arith)

  pub lock_free-shared : lock_free shared (encode s x r f) ≡ (x + f == 0)
  unfolding lock_free
  lock_free-shared = rw holder_fields (ground arith)

  pub desired_state-win : s + x ≡ 0 → desired_state exclusive (encode s x r f) ≡ encode 0 1 r 0
  unfolding desired_state
  desired_state-win z = rw (lock_fields) (ground (arith, take_fields (omega arith) (omega arith)))

  pub desired_state-wait : 0 < s + x → desired_state exclusive (encode s x r f) ≡ encode s x r 1
  unfolding desired_state
  desired_state-wait z = rw (lock_fields) (ground (arith, flag_fields))

  pub desired_state-read :
      x + f ≡ 0 → s + 1 < 2 ^ 24 → desired_state shared (encode s x r f) ≡ encode (s + 1) x r f
  unfolding desired_state
  desired_state-read z room = rw (holder_fields) (ground (arith, fits.refs_fit))

  pub waiter_fields :
      bit_and (encode s x r f) flag_has_exclusive_waiter ≡ f * flag_has_exclusive_waiter
  waiter_fields =
      and_fields s x r f 0 0 0 1 widths (omega arith)
      ∙ omega (arith, and-zero s, and-zero x, and-zero r, and_one f fits.flag_fits)

  pub check_destroyable_iff : (check_destroyable (encode s x r f) ≡ true) ↔ (r ≡ 0)
  unfolding check_destroyable
  check_destroyable_iff = rw ref_fields (ground arith)

  -- Sums and differences do not leave their field.
  pub add_ref : r + 1 < 2 ^ 24 → add64 (encode s x r f) val_ref_count ≡ encode s x (r + 1) f
  add_ref h = omega (arith, fits.shared_fits, fits.exclusive_fits, fits.flag_fits)

  pub sub_ref : 0 < r → sub64 (encode s x r f) val_ref_count ≡ encode s x (r - 1) f
  sub_ref h = omega (arith, fits.shared_fits, fits.exclusive_fits, fits.refs_fit, fits.flag_fits)

  pub sub_shared : 0 < s → sub64 (encode s x r f) val_shared ≡ encode (s - 1) x r f
  sub_shared h = omega (arith, fits.shared_fits, fits.exclusive_fits, fits.refs_fit, fits.flag_fits)

  pub sub_exclusive : 0 < x → sub64 (encode s x r f) val_exclusive ≡ encode s (x - 1) r f
  sub_exclusive h =
      omega (arith, fits.shared_fits, fits.exclusive_fits, fits.refs_fit, fits.flag_fits)

  pub desired_state-busy : 0 < x + f → desired_state shared (encode s x r f) ≡ encode s x r f
  unfolding desired_state
  desired_state-busy z = rw (holder_fields) (ground arith)
