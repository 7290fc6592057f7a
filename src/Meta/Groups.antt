-- ===== src/Meta/Groups.antt =====
-- The groups of CuckooCreateHandle do what the same requests do one by one.
use cuckoofs.Base.{
  ℕ, zero, suc, ◌+◌, ◌<◌, ◌≤◌, true, false, Option, none, some, if◌then◌else◌, List, [], ◌∷◌, ◌++◌,
  length, ◌≡◌, refl, ap, arith, Bool-cases, inl, inr,
}
use cuckoofs.Meta.{Inode}
use cuckoofs.Meta.Tables.{InodeTables}
use cuckoofs.Meta.Create.{
  batch_operation_group_size, Request, is_success, is_file_exists, filled, mark_existing, Attempt,
  committed, caught, cons_attempt, row_of, passed, insert_request, inserted, attempt, end_group,
  create_loop, settle_one, settle,
}

-- A request counts twice as long as it may still be inserted.
unfoldable pub weight : List Request → ℕ
weight [] = 0
weight (q ∷ qs) = (if is_success q.code then 2 else 1) + weight qs

weight-le-double : (qs : List Request) → weight qs ≤ length qs + length qs
unfolding weight
weight-le-double [] = omega arith
weight-le-double (q ∷ qs) = let ih = weight-le-double qs in ground arith

module _ (I : InodeTables) (shard_id : ℕ) where
  settle_one-over :
      (t : I.Tables) (q : Request)
      → is_success q.code ≡ false
      → is_file_exists q.code ≡ false
      → settle_one I shard_id t q ≡ (q, t)
  unfolding settle_one passed
  settle_one-over t q over plain = rw (over, plain) refl

  -- Passing over a request twice changes no more than once.
  settle_one-filled :
      (t : I.Tables) (q : Request) (o : Option Inode)
      → row_of I shard_id t q ≡ o
      → is_success q.code ≡ false
      → is_file_exists q.code ≡ true
      → settle_one I shard_id t (filled o q) ≡ (filled o q, t)
  unfolding settle_one passed filled
  settle_one-filled t q none e over marked = rw (over, marked, e) refl
  settle_one-filled t q (some r) e over marked = rw (over, marked, e) refl

  passed-passed :
      (t : I.Tables) (q : Request)
      → is_success q.code ≡ false
      → settle_one I shard_id t (passed I shard_id t q) ≡ (passed I shard_id t q, t)
  unfolding passed
  passed-passed t q over = elim (Bool-cases (is_file_exists q.code)) [
    | inl marked ↦ rw marked (settle_one-filled t q (row_of I shard_id t q) refl over marked)
    | inr plain ↦ rw plain (settle_one-over t q over plain)
  ]

  settle_one-fails :
      (t : I.Tables) (q : Request)
      → insert_request I shard_id t q ≡ none
      → is_success q.code ≡ true
      → settle_one I shard_id t q ≡ settle_one I shard_id t (mark_existing q)
  unfolding settle_one
  settle_one-fails t q taken live = rw (live, taken) refl

  settle_one-passes :
      (t : I.Tables) (q : Request)
      → is_success q.code ≡ false
      → settle_one I shard_id t q ≡ (passed I shard_id t q, t)
  unfolding settle_one
  settle_one-passes t q over = rw over refl

  abbrev IsAttempt : I.Tables → List Request → Attempt I.Tables → Type 0
  IsAttempt t qs (committed handled rest t') =
      (settle I shard_id t qs
        ≡ (handled ++ (settle I shard_id t' rest).0, (settle I shard_id t' rest).1))
      × (weight rest + length handled ≤ weight qs)
  IsAttempt t qs (caught front f back) =
      (settle I shard_id t qs ≡ settle I shard_id t (front ++ (mark_existing f ∷ back)))
      × (weight (front ++ (mark_existing f ∷ back)) < weight qs)

  -- One more request in front, which ends as `q'` and leaves `t1`.
  cons-IsAttempt :
      (t t1 : I.Tables) (q q' : Request) (qs : List Request) (a : Attempt I.Tables)
      → settle_one I shard_id t q ≡ (q', t1)
      → settle_one I shard_id t q' ≡ (q', t1)
      → is_success q'.code ≡ is_success q.code
      → IsAttempt t1 qs a
      → IsAttempt t (q ∷ qs) (cons_attempt q' a)
  unfolding settle weight
  cons-IsAttempt t t1 q q' qs (committed handled rest t') one again same (sum, less) =
      (rw (one, sum) refl, ground arith)
  cons-IsAttempt t t1 q q' qs (caught front f back) one again same (sum, less) =
      (rw (one, again, sum) refl, rw same (ground arith))

  code-filled : (o : Option Inode) (q : Request) → (filled o q).code ≡ q.code
  unfolding filled
  code-filled none q = refl
  code-filled (some r) q = refl

  pub code-passed : (t : I.Tables) (q : Request) → (passed I shard_id t q).code ≡ q.code
  unfolding passed
  code-passed t q = elim (Bool-cases (is_file_exists q.code)) [
    | inl marked ↦ rw marked (code-filled (row_of I shard_id t q) q)
    | inr plain ↦ rw plain refl
  ]

  settle-head :
      (t : I.Tables) (q q' : Request) (qs : List Request)
      → settle_one I shard_id t q ≡ settle_one I shard_id t q'
      → settle I shard_id t (q ∷ qs) ≡ settle I shard_id t (q' ∷ qs)
  unfolding settle
  settle-head t q q' qs e = rw e refl

  lighter :
      (q : Request) (qs : List Request)
      → is_success q.code ≡ true
      → weight (mark_existing q ∷ qs) < weight (q ∷ qs)
  unfolding weight
  lighter q qs live = rw live (omega arith)

  -- A request that is inserted into `t1`, by the group that follows it.
  inserted-IsAttempt :
      (t : I.Tables) (q : Request) (qs : List Request) (o : Option I.Tables)
      (next : I.Tables → Attempt I.Tables)
      → insert_request I shard_id t q ≡ o
      → is_success q.code ≡ true
      → ((t1 : I.Tables) → IsAttempt t1 qs (next t1))
      → IsAttempt t (q ∷ qs) (inserted I shard_id q qs o next)
  unfolding inserted settle_one
  inserted-IsAttempt t q qs (some t1) next e live goes_on =
      let one : settle_one I shard_id t q ≡ (q, t1) = rw (live, e) refl in
      cons-IsAttempt t t1 q q qs (next t1) one one refl (goes_on t1)
  inserted-IsAttempt t q qs none next e live goes_on =
      (settle-head t q (mark_existing q) qs (settle_one-fails t q e live), lighter q qs live)

  attempt-IsAttempt :
      (g : ℕ) (t : I.Tables) (qs : List Request) → IsAttempt t qs (attempt I shard_id g t qs)
  unfolding attempt
  attempt-IsAttempt zero t qs = (refl, omega arith)
  attempt-IsAttempt (suc g) t [] = (refl, omega arith)
  attempt-IsAttempt (suc g) t (q ∷ qs) = elim (Bool-cases (is_success q.code)) [
    | inl live ↦ rw live (
        inserted-IsAttempt t q qs (insert_request I shard_id t q)
          (λ (t' : I.Tables). attempt I shard_id g t' qs) refl live
          (λ t1. attempt-IsAttempt g t1 qs))
    | inr over ↦ rw over (
        cons-IsAttempt t t q (passed I shard_id t q) qs (attempt I shard_id (suc g) t qs)
          (settle_one-passes t q over) (passed-passed t q over) (ap is_success (code-passed t q))
          (attempt-IsAttempt (suc g) t qs))
  ]

  -- A group handles one request at least.
  abbrev Handles : Attempt I.Tables → Type 0
  Handles (committed handled rest t) = 0 < length handled
  Handles (caught front f back) = Unit

  cons-Handles : (q : Request) (a : Attempt I.Tables) → Handles (cons_attempt q a)
  cons-Handles q (committed handled rest t) = omega arith
  cons-Handles q (caught front f back) = tt

  attempt-Handles :
      (g : ℕ) (t : I.Tables) (q : Request) (qs : List Request)
      → Handles (attempt I shard_id (suc g) t (q ∷ qs))
  unfolding attempt inserted
  attempt-Handles g t q qs = elim (Bool-cases (is_success q.code)) [
    | inl live ↦ rw live (inserted-Handles (insert_request I shard_id t q))
    | inr over ↦ rw over (cons-Handles (passed I shard_id t q) (attempt I shard_id (suc g) t qs))
  ]
    where
      inserted-Handles :
          (o : Option I.Tables)
          → Handles (inserted I shard_id q qs o (λ (t' : I.Tables). attempt I shard_id g t' qs))
      inserted-Handles none = tt
      inserted-Handles (some t') = cons-Handles q (attempt I shard_id g t' qs)

  -- The next rounds of the loop give what one by one gives.
  end_group-settle :
      (fuel : ℕ) (t : I.Tables) (qs : List Request)
      (next : I.Tables → List Request → Option (List Request × I.Tables)) (a : Attempt I.Tables)
      → weight qs ≤ suc fuel
      → Handles a
      → IsAttempt t qs a
      → ((t' : I.Tables) (rest : List Request)
          → weight rest ≤ fuel
          → next t' rest ≡ some (settle I shard_id t' rest))
      → end_group I shard_id false t next a ≡ some (settle I shard_id t qs)
  unfolding end_group
  end_group-settle fuel t qs next (committed handled rest t') fits some_one (sum, less) goes_on =
      rw (goes_on t' rest (omega arith), sum) refl
  end_group-settle fuel t qs next (caught front f back) fits some_one (same, less) goes_on =
      rw same (goes_on t (front ++ (mark_existing f ∷ back)) (omega arith))

  create_loop-eq-settle :
      (fuel : ℕ) (t : I.Tables) (qs : List Request)
      → weight qs ≤ fuel
      → create_loop I shard_id fuel false t qs ≡ some (settle I shard_id t qs)
  unfolding create_loop settle weight
  create_loop-eq-settle fuel t [] fits = refl
  create_loop-eq-settle zero t (q ∷ qs) fits = absurd (ground arith)
  create_loop-eq-settle (suc fuel) t (q ∷ qs) fits =
      end_group-settle fuel t (q ∷ qs)
        (λ (t' : I.Tables) (rest : List Request). create_loop I shard_id fuel false t' rest)
        (attempt I shard_id batch_operation_group_size t (q ∷ qs)) fits (attempt-Handles 7 t q qs)
        (attempt-IsAttempt batch_operation_group_size t (q ∷ qs))
        (λ t' rest fits'. create_loop-eq-settle fuel t' rest fits')

  -- With two rounds for each request the loop ends, and its groups do what the requests do one by one.
  pub create_loop-settle :
      (fuel : ℕ) (t : I.Tables) (qs : List Request)
      → length qs + length qs ≤ fuel
      → create_loop I shard_id fuel false t qs ≡ some (settle I shard_id t qs)
  create_loop-settle fuel t qs fits =
      create_loop-eq-settle fuel t qs (omega (arith, weight-le-double qs))
