-- ===== src/Meta/Pages.antt =====
-- One page of a directory: the loop of CuckooReadDirHandle reads what is left of it, or a part of that
-- that fills the page.
use cuckoofs.Base.{
  ℕ, zero, suc, ◌+◌, ◌^◌, ◌<◌, ◌≤◌, ◌==◌, leb, Bool, true, false, ◌&&◌, some, if◌then◌else◌, List,
  [], ◌∷◌, ◌++◌, ◌≡◌, refl, ap, sym, ◌∙◌, arith, Bool-cases, leb→le, inl, inr, ◌⊎◌,
}
use mathlib.Core.List.{append_assoc, append-nil}
use cuckoofs.Path.Tree.{Name}
use cuckoofs.Shard.{Shard}
use cuckoofs.Meta.{Inode, part_id_mask, combine}
use cuckoofs.Meta.Rows.{matching, All, IsOrdered}
use cuckoofs.Meta.Resume.{IsPlaced, IsAsymmetric, matching-resume}
use cuckoofs.Meta.ReadDir.{
  StreamSearchState, same_id_greater_name, greater_id, new_shard, scan_key, Reading, read_rows,
  in_front, next_round, scan, read_new, read_greater, read_same, last_name, shards_from,
}

last_name-append :
    (xs ys : List Inode) (n : Name) → last_name ys ≡ some n → last_name (xs ++ ys) ≡ some n
unfolding last_name
last_name-append [] ys n h = h
last_name-append (x ∷ []) [] n h = absurd cc
last_name-append (x ∷ []) (y ∷ ys) n h = h
last_name-append (x ∷ z ∷ xs) ys n h = last_name-append (z ∷ xs) ys n h

last_name-last : (xs : List Inode) (r : Inode) → last_name (xs ++ (r ∷ [])) ≡ some r.name
unfolding last_name
last_name-last [] r = refl
last_name-last (x ∷ []) r = refl
last_name-last (x ∷ z ∷ xs) r = last_name-last (z ∷ xs) r

-- Rows that are read up to the end, or up to one of them with the page full.
abbrev Cut : ℕ → List Inode → List Inode × ℕ → Type 0
Cut max rows (found, count) =
    ((count < max) × (found ≡ rows))
    ⊎ ((a : List Inode) × (r : Inode) × (b : List Inode) × (max ≤ count)
        × (found ≡ a ++ (r ∷ []))
        × (rows ≡ a ++ (r ∷ b)))

Cut-cons :
    (max : ℕ) (q : Inode) (rows : List Inode) (p : List Inode × ℕ)
    → Cut max rows p
    → Cut max (q ∷ rows) (q ∷ p.0, p.1)
Cut-cons max q rows (found, count) (inl (few, all)) = inl (few, ap (λ (l : List Inode). q ∷ l) all)
Cut-cons max q rows (found, count) (inr (a, r, b, full, f, e)) =
    inr (q ∷ a, r, b, full, ap (λ (l : List Inode). q ∷ l) f, ap (λ (l : List Inode). q ∷ l) e)

read_rows-Cut :
    (max count : ℕ) (rows : List Inode) → count < max → Cut max rows (read_rows max count rows)
unfolding read_rows
read_rows-Cut max count [] few = inl (few, refl)
read_rows-Cut max count (q ∷ rows) few = elim (Bool-cases (leb max (count + 1))) [
  | inl full ↦ rw full (inr ([], q, rows, leb→le max (count + 1) full, refl, refl))
  | inr more ↦ rw more (
      Cut-cons max q rows (read_rows max (count + 1) rows)
        (read_rows-Cut max (count + 1) rows (ground arith)))
]

-- The entries of a directory in the shards of this server, in their order.
module _ (directory_id : ℕ) where
  abbrev pub is_entry : Inode → Bool
  is_entry r =
      leb (combine directory_id 0) r.parentid_partid
      && leb r.parentid_partid (combine directory_id part_id_mask)

module _ (rows : ℕ → List Inode) (local_server_id directory_id : ℕ) where
  abbrev pub entries : Shard → List Inode
  entries s = matching (is_entry directory_id) (rows s.range_point)

  unfoldable pub listing : List Shard → List Inode
  listing [] = []
  listing (s ∷ ss) =
      let rest = listing ss in if s.server_id == local_server_id then entries s ++ rest else rest

  -- `todo` is what follows a row of the given name in the shard at an index.
  abbrev pub Left : List Shard → ℕ → Name → List Inode → Type 0
  Left [] k n todo = ⊥
  Left (s ∷ ss) zero n todo =
      ((s.server_id == local_server_id) ≡ true)
      × ((xs : List Inode) × (r : Inode) × (ys : List Inode) × (entries s ≡ xs ++ (r ∷ ys))
          × (n ≡ r.name)
          × (todo ≡ ys ++ listing ss))
  Left (s ∷ ss) (suc k) n todo = Left ss k n todo

  -- A reading of `todo` from the shards at `index`: all of it, or a part that fills the page.
  abbrev pub IsPage : ℕ → ℕ → List Shard → List Inode → Reading → Type 0
  IsPage max index ss todo q =
      ((q.read_count < max) × (q.found ≡ todo))
      ⊎ ((k : ℕ) × (n : Name) × (rest : List Inode) × (max ≤ q.read_count)
          × (last_name q.found ≡ some n)
          × (q.found ++ rest ≡ todo)
          × (q.shard_index ≡ index + k)
          × Left ss k n rest)

  in_front-IsPage :
      (max index : ℕ) (ss : List Shard) (c todo : List Inode) (q : Reading)
      → IsPage max index ss todo q
      → IsPage max index ss (c ++ todo) (in_front c q)
  in_front-IsPage max index ss c todo q (inl (few, all)) =
      inl (few, ap (λ (l : List Inode). c ++ l) all)
  in_front-IsPage max index ss c todo q (inr (k, n, rest, full, last, sum, at, left)) = inr (
    k,
    n,
    rest,
    full,
    last_name-append c q.found n last,
    append_assoc c q.found rest ∙ ap (λ (l : List Inode). c ++ l) sum,
    at,
    left,
  )

  later-IsPage :
      (max index : ℕ) (s : Shard) (ss : List Shard) (todo : List Inode) (q : Reading)
      → IsPage max (index + 1) ss todo q
      → IsPage max index (s ∷ ss) todo q
  later-IsPage max index s ss todo q (inl whole) = inl whole
  later-IsPage max index s ss todo q (inr (k, n, rest, full, last, sum, at, left)) =
      inr (suc k, n, rest, full, last, sum, omega arith, left)

  -- One round over rows `c` that stand in the shard behind `pre` and in front of `more`.
  round-IsPage :
      (max index : ℕ) (s : Shard) (ss : List Shard) (pre c more : List Inode) (p : List Inode × ℕ)
      (next : ℕ → Reading)
      → (s.server_id == local_server_id) ≡ true
      → entries s ≡ pre ++ (c ++ more)
      → Cut max c p
      → ((n : ℕ) → n < max → IsPage max index (s ∷ ss) (more ++ listing ss) (next n))
      → IsPage max index (s ∷ ss) (c ++ (more ++ listing ss)) (next_round max index p next)
  unfolding next_round
  round-IsPage max index s ss pre c more (found, count) next own at (inl (few, all)) goes_on =
      let open' : leb max count ≡ false = ground arith in
      rw (open', all)
        (in_front-IsPage max index (s ∷ ss) c (more ++ listing ss) (next count) (goes_on count few))
  round-IsPage max index s ss pre c more (found, count) next own at (inr (a, r, b, full, f, e))
        goes_on =
      let shut : leb max count ≡ true = ground arith in
      rw shut (
        inr (
          zero,
          r.name,
          b ++ (more ++ listing ss),
          full,
          rw f (last_name-last a r),
          rw (f, e) (simp append_assoc),
          omega arith,
          (own, (pre ++ a, r, b ++ more, rw (at, e) (simp append_assoc), refl, simp append_assoc)),
        ))

  module _ (before : Name → Name → Bool) (max : ℕ) where
    scan-new :
        (last : Name) (s : Shard)
        → scan before rows local_server_id max directory_id last new_shard s ≡ entries s
    unfolding scan scan_key
    scan-new last s = refl

    pub read_new-IsPage :
        (last : Name) (index count : ℕ) (ss : List Shard)
        → count < max
        → IsPage max index ss
            (listing ss)
            (read_new before rows local_server_id max directory_id last index count ss)
    unfolding read_new listing
    read_new-IsPage last index count [] few = inl (few, refl)
    read_new-IsPage last index count (s ∷ ss) few =
        elim (Bool-cases (s.server_id == local_server_id)) [
          | inl own ↦
              rw (own, scan-new last s)
                (round-IsPage max index s ss [] (entries s) [] (read_rows max count (entries s))
                  (λ (n : ℕ).
                    read_new before rows local_server_id max directory_id last (index + 1) n ss)
                  own (simp append-nil) (read_rows-Cut max count (entries s) few)
                  (λ n lt.
                    later-IsPage max index s ss (listing ss) _
                      (read_new-IsPage last (index + 1) n ss lt)))
          | inr foreign ↦ rw foreign (
              later-IsPage max index s ss (listing ss) _
                (read_new-IsPage last (index + 1) count ss few))
        ]

    -- The rows behind a name in its shard, in the two scans.
    abbrev scan_of : StreamSearchState → Name → Shard → List Inode
    scan_of state last s = scan before rows local_server_id max directory_id last state s

    read_greater-IsPage :
        (last : Name) (index count : ℕ) (s : Shard) (ss : List Shard) (pre : List Inode)
        → (s.server_id == local_server_id) ≡ true
        → entries s ≡ pre ++ scan_of greater_id last s
        → count < max
        → IsPage max index
            (s ∷ ss)
            (scan_of greater_id last s ++ listing ss)
            (read_greater before rows local_server_id max directory_id last index count (s ∷ ss))
    unfolding read_greater
    read_greater-IsPage last index count s ss pre own at few = rw own (
        round-IsPage max index s ss pre (scan_of greater_id last s) []
          (read_rows max count (scan_of greater_id last s))
          (λ (n : ℕ). read_new before rows local_server_id max directory_id last (index + 1) n ss)
          own (rw (append-nil (scan_of greater_id last s)) at)
          (read_rows-Cut max count (scan_of greater_id last s) few)
          (λ n lt.
            later-IsPage max index s ss (listing ss) _ (read_new-IsPage last (index + 1) n ss lt)))

    read_same-IsPage :
        (last : Name) (index count : ℕ) (s : Shard) (ss : List Shard) (pre : List Inode)
        → (s.server_id == local_server_id) ≡ true
        → entries s ≡ pre ++ (scan_of same_id_greater_name last s ++ scan_of greater_id last s)
        → count < max
        → IsPage max index
            (s ∷ ss)
            (scan_of same_id_greater_name last s ++ (scan_of greater_id last s ++ listing ss))
            (read_same before rows local_server_id max directory_id last index count (s ∷ ss))
    unfolding read_same
    read_same-IsPage last index count s ss pre own at few = rw own (
        round-IsPage max index s ss pre (scan_of same_id_greater_name last s)
          (scan_of greater_id last s) (read_rows max count (scan_of same_id_greater_name last s))
          (λ (n : ℕ).
            read_greater before rows local_server_id max directory_id last index n (s ∷ ss))
          own at (read_rows-Cut max count (scan_of same_id_greater_name last s) few)
          (λ n lt.
            read_greater-IsPage last index n s ss (pre ++ scan_of same_id_greater_name last s) own
              (at
                ∙ sym (
                    append_assoc pre (scan_of same_id_greater_name last s)
                      (scan_of greater_id last s)))
              lt))

    module _ (asym : IsAsymmetric before) (small : directory_id < 2 ^ 51)
        (sorted : (id : ℕ) → IsOrdered before (rows id))
        (placed : (id : ℕ) → All IsPlaced (rows id)) where
      scans :
          (s : Shard) (xs : List Inode) (r : Inode) (ys : List Inode)
          → entries s ≡ xs ++ (r ∷ ys)
          → scan_of same_id_greater_name r.name s ++ scan_of greater_id r.name s ≡ ys
      unfolding scan scan_key
      scans s xs r ys cut =
          matching-resume before asym directory_id small (rows s.range_point) xs r ys
            (sorted s.range_point) (placed s.range_point) cut

      pub resume-IsPage :
          (index j k : ℕ) (ss : List Shard) (n : Name) (todo : List Inode)
          → 0 < max
          → j ≡ index + k
          → Left ss k n todo
          → IsPage max index ss todo
              (read_same before rows local_server_id max directory_id n j 0 (shards_from k ss))
      unfolding shards_from
      resume-IsPage index j zero [] n todo pos at left = elim left [ ]
      resume-IsPage index j (suc k) [] n todo pos at left = elim left [ ]
      resume-IsPage index j (suc k) (s ∷ ss) n todo pos at left =
          later-IsPage max index s ss todo _
            (resume-IsPage (index + 1) j k ss n todo pos (omega arith) left)
      resume-IsPage index j zero (s ∷ ss) n todo pos at (own, (xs, r, ys, cut, named, rest)) =
          let here : j ≡ index = omega arith in
          let both = scans s xs r ys cut in
          rw (here, named, rest, ← both, append_assoc)
            (read_same-IsPage r.name index 0 s ss (xs ++ (r ∷ [])) own
              (cut
                ∙ ap (λ (l : List Inode). xs ++ (r ∷ l)) (sym both)
                ∙ sym (
                    append_assoc xs (r ∷ [])
                      (scan_of same_id_greater_name r.name s ++ scan_of greater_id r.name s)))
              pos)
