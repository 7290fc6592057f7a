-- ===== src/Meta/Created.antt =====
-- What CuckooCreateHandle leaves: the code of each request, and the rows of the tables.
use cuckoofs.Base.{
  ℕ, ◌+◌, ◌≤◌, Bool, true, false, ◌||◌, ◌&&◌, Option, none, some, if◌then◌else◌, List, [], ◌∷◌,
  length, ◌≡◌, refl, ap, ap₂, sym, ◌∙◌, Bool-cases, Option-cases, inl, inr,
}
use cuckoofs.Errors.{ErrorCode}
use cuckoofs.Path.Tree.{Name}
use cuckoofs.Meta.{Inode}
use cuckoofs.Meta.Tables.{InodeTables, same_row}
use cuckoofs.Meta.Update.{given}
use cuckoofs.Meta.Effects.{same_row→≡}
use cuckoofs.Meta.Create.{
  Request, is_success, created_row, mark_existing, insert_request, create_loop, settle_inserted,
  settle_one, settle,
}
use cuckoofs.Meta.Groups.{code-passed, create_loop-settle}

abbrev pub codes : List Request → List ErrorCode
codes [] = []
codes (q ∷ qs) = q.code ∷ codes qs

abbrev pub or_else : {A : Type 0} → Option A → Option A → Option A
or_else none o = o
or_else (some a) o = some a

or_else-if :
    {A : Type 0} (o c : Option A) (b : Bool) (a : A)
    → or_else (or_else o (if b then some a else none)) c ≡ or_else o (if b then some a else c)
or_else-if none c true a = refl
or_else-if none c false a = refl
or_else-if (some x) c true a = refl
or_else-if (some x) c false a = refl

or_else-none : {A : Type 0} (o : Option A) → or_else o none ≡ o
or_else-none none = refl
or_else-none (some a) = refl

module _ (shard_id : ℕ) where
  -- The request stands at a place, and is to be inserted.
  abbrev pub creates : Request → ℕ → ℕ → Name → Bool
  creates q s k n = is_success q.code && same_row shard_id q.row.parentid_partid q.row.name s k n

  -- The row of the first request for a place.
  unfoldable pub created_at : List Request → ℕ → ℕ → Name → Option Inode
  created_at [] s k n = none
  created_at (q ∷ qs) s k n =
      let later = created_at qs s k n in if creates q s k n then some (created_row q.row) else later

  -- The codes that the requests end with, by the places that are taken before the first.
  unfoldable pub final_codes : (ℕ → Name → Bool) → List Request → List ErrorCode
  final_codes taken [] = []
  final_codes taken (q ∷ qs) =
      (if is_success q.code && taken q.row.parentid_partid q.row.name
        then ErrorCode.file_exists
        else q.code)
      ∷ final_codes (λ k n. taken k n || creates q shard_id k n) qs

module _ (I : InodeTables) (shard_id : ℕ) where
  -- A request that is to be inserted, by the row at its place.
  inserts-when-free :
      (t : I.Tables) (q : Request)
      → insert_request I shard_id t q ≡ none
      → (r : Inode) × (I.find t shard_id q.row.parentid_partid q.row.name ≡ some r)
  unfolding created_row
  inserts-when-free t q fails =
      elim (Option-cases (I.find t shard_id q.row.parentid_partid q.row.name)) [
        | inl free ↦ absurd (let (t', e) = I.insert-free t shard_id (created_row q.row) free in cc)
        | inr found ↦ found
      ]

  free-when-inserts :
      (t t' : I.Tables) (q : Request)
      → insert_request I shard_id t q ≡ some t'
      → I.find t shard_id q.row.parentid_partid q.row.name ≡ none
  unfolding created_row
  free-when-inserts t t' q works =
      elim (Option-cases (I.find t shard_id q.row.parentid_partid q.row.name)) [
        | inl free ↦ free
        | inr (r, at) ↦ absurd (let e = I.insert-taken t shard_id (created_row q.row) r at in cc)
      ]

  at_place :
      (t : I.Tables) (q : Request) (o : Option Inode) (s k : ℕ) (n : Name)
      → same_row shard_id q.row.parentid_partid q.row.name s k n ≡ true
      → I.find t shard_id q.row.parentid_partid q.row.name ≡ o
      → I.find t s k n ≡ o
  at_place t q o s k n same at =
      let (es, ek, en) = same_row→≡ shard_id q.row.parentid_partid q.row.name s k n same in
      rw (← es, ← ek, ← en) at

  -- One request: its row is added, if there was none.
  settle_inserted-find :
      (t : I.Tables) (q : Request) (o : Option I.Tables)
      → insert_request I shard_id t q ≡ o
      → (s k : ℕ) (n : Name)
      → I.find (settle_inserted I shard_id t q o).1 s k n
        ≡ or_else (I.find t s k n) (
            if same_row shard_id q.row.parentid_partid q.row.name s k n
            then some (created_row q.row)
            else none)
  unfolding created_row
  settle_inserted-find t q none e s k n =
      let (r, at) = inserts-when-free t q e in
      elim (Bool-cases (same_row shard_id q.row.parentid_partid q.row.name s k n)) [
        | inl same ↦ rw (same, at_place t q (some r) s k n same at) refl
        | inr other ↦ rw other (sym (or_else-none (I.find t s k n)))
      ]
  settle_inserted-find t q (some t') e s k n =
      let after = I.find-insert t t' shard_id (created_row q.row) e s k n in
      elim (Bool-cases (same_row shard_id q.row.parentid_partid q.row.name s k n)) [
        | inl same ↦
            let free = at_place t q none s k n same (free-when-inserts t t' q e) in
            let here = rw same at after in rw (same, free) here
        | inr other ↦
            let there = rw other at after in rw other (there ∙ sym (or_else-none (I.find t s k n)))
      ]

  settle_one-find :
      (t : I.Tables) (q : Request) (s k : ℕ) (n : Name)
      → I.find (settle_one I shard_id t q).1 s k n
        ≡ or_else
            (I.find t s k n)
            (if creates shard_id q s k n then some (created_row q.row) else none)
  unfolding settle_one
  settle_one-find t q s k n = elim (Bool-cases (is_success q.code)) [
    | inl live ↦ rw live (settle_inserted-find t q (insert_request I shard_id t q) refl s k n)
    | inr over ↦ rw over (sym (or_else-none (I.find t s k n)))
  ]

  pub settle-find :
      (t : I.Tables) (qs : List Request) (s k : ℕ) (n : Name)
      → I.find (settle I shard_id t qs).1 s k n
        ≡ or_else (I.find t s k n) (created_at shard_id qs s k n)
  unfolding settle created_at
  settle-find t [] s k n = sym (or_else-none (I.find t s k n))
  settle-find t (q ∷ qs) s k n =
      settle-find (settle_one I shard_id t q).1 qs s k n
      ∙ ap (λ (o : Option Inode). or_else o (created_at shard_id qs s k n))
          (settle_one-find t q s k n)
      ∙ or_else-if (I.find t s k n) (created_at shard_id qs s k n) (creates shard_id q s k n)
          (created_row q.row)

  -- The codes
  given-or_else :
      (o : Option Inode) (b : Bool) (a : Inode)
      → given (or_else o (if b then some a else none)) ≡ (given o || b)
  given-or_else none true a = refl
  given-or_else none false a = refl
  given-or_else (some r) true a = refl
  given-or_else (some r) false a = refl

  settle_inserted-code :
      (t : I.Tables) (q : Request) (o : Option I.Tables)
      → insert_request I shard_id t q ≡ o
      → (settle_inserted I shard_id t q o).0.code ≡ (
          if given (I.find t shard_id q.row.parentid_partid q.row.name)
          then ErrorCode.file_exists
          else q.code)
  settle_inserted-code t q none e =
      let (r, at) = inserts-when-free t q e in rw at (code-passed I shard_id t (mark_existing q))
  settle_inserted-code t q (some t') e = rw (free-when-inserts t t' q e) refl

  settle_one-code :
      (t : I.Tables) (q : Request) (b : Bool)
      → b ≡ given (I.find t shard_id q.row.parentid_partid q.row.name)
      → (settle_one I shard_id t q).0.code
        ≡ (if is_success q.code && b then ErrorCode.file_exists else q.code)
  unfolding settle_one
  settle_one-code t q b known = elim (Bool-cases (is_success q.code)) [
    | inl live ↦ rw (live, known) (settle_inserted-code t q (insert_request I shard_id t q) refl)
    | inr over ↦ rw over (code-passed I shard_id t q)
  ]

  pub codes-settle :
      (t : I.Tables) (taken : ℕ → Name → Bool) (qs : List Request)
      → ((k : ℕ) (n : Name) → taken k n ≡ given (I.find t shard_id k n))
      → codes (settle I shard_id t qs).0 ≡ final_codes shard_id taken qs
  unfolding settle final_codes
  codes-settle t taken [] known = refl
  codes-settle t taken (q ∷ qs) known =
      ap₂ (λ (c : ErrorCode) (cs : List ErrorCode). c ∷ cs)
        (settle_one-code t q (taken q.row.parentid_partid q.row.name)
          (known q.row.parentid_partid q.row.name))
        (codes-settle (settle_one I shard_id t q).1
          (λ k n. taken k n || creates shard_id q shard_id k n) qs
          (λ k n.
            ap (λ (b : Bool). b || creates shard_id q shard_id k n) (known k n)
            ∙ sym (
                given-or_else (I.find t shard_id k n) (creates shard_id q shard_id k n)
                  (created_row q.row))
            ∙ ap given (sym (settle_one-find t q shard_id k n))))

  -- The loop ends. A request that was to be inserted ends with FILE_EXISTS when there was a row at its
  -- place or an earlier request has created one, and with SUCCESS else; every other keeps its code. Each
  -- row that was there is left as it was, and each free place has the row of the first request for it.
  pub create_loop-codes-find :
      (fuel : ℕ) (t : I.Tables) (qs : List Request)
      → length qs + length qs ≤ fuel
      → (rs : List Request) × (t' : I.Tables) × (create_loop I shard_id fuel false t qs
          ≡ some (rs, t'))
        × (codes rs ≡ final_codes shard_id (λ k n. given (I.find t shard_id k n)) qs)
        × ((s k : ℕ) (n : Name)
            → I.find t' s k n ≡ or_else (I.find t s k n) (created_at shard_id qs s k n))
  create_loop-codes-find fuel t qs fits = (
    (settle I shard_id t qs).0,
    (settle I shard_id t qs).1,
    create_loop-settle I shard_id fuel t qs fits,
    codes-settle t (λ k n. given (I.find t shard_id k n)) qs (λ k n. refl),
    λ s k n. settle-find t qs s k n,
  )
