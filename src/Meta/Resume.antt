-- ===== src/Meta/Resume.antt =====
-- The scans by which a reading goes on behind the last name of a page: together they give the rest of
-- the directory in that shard.
use cuckoofs.Base.{
  ℕ, ◌^◌, ◌<◌, ◌≤◌, ◌==◌, Bool, true, false, List, [], ◌∷◌, ◌++◌, ◌≡◌, refl, ap, ap₂, sym, ◌∙◌,
  arith, Bool-cases, inl, inr, ◌⊎◌,
}
use mathlib.Core.Path.{subst}
use cuckoofs.Path.Tree.{Name}
use cuckoofs.Meta.{Inode, part_id_mask, hash_part_id, combine}
use cuckoofs.Meta.Ids.{hash_part_id-lt, combine-between}
use cuckoofs.Meta.Rows.{
  matching, All, All-map, All-append, All-matching, matching-holds, matching-eq_self, matching-none,
  matching-append, matching-matching, Follows, IsOrdered, matching-IsOrdered, IsOrdered-around,
}
use cuckoofs.Meta.ReadDir.{same_id_greater_name, greater_id, new_shard, scan_key}

-- A row stands under its directory's number and the hash of its name.
abbrev pub IsPlaced : Inode → Type 0
IsPlaced r = (p : ℕ) × (p < 2 ^ 51) × (r.parentid_partid ≡ combine p (hash_part_id r.name))

-- No two names stand before each other.
abbrev pub IsAsymmetric : (Name → Name → Bool) → Type 0
IsAsymmetric before = (m n : Name) → before m n ≡ true → before n m ≡ false

module _ (before : Name → Name → Bool) (asym : IsAsymmetric before) (directory_id : ℕ)
    (small : directory_id < 2 ^ 51) where
  abbrev upper : ℕ
  upper = combine directory_id part_id_mask

  abbrev within : Inode → Bool
  within = scan_key before directory_id [] new_shard

  abbrev same : Name → Inode → Bool
  same last = scan_key before directory_id last same_id_greater_name

  abbrev greater : Name → Inode → Bool
  greater last = scan_key before directory_id last greater_id

  abbrev Stands : Inode → Type 0
  Stands r = r.parentid_partid ≡ combine directory_id (hash_part_id r.name)

  own_bounds :
      (n : Name)
      → (combine directory_id 0 ≤ combine directory_id (hash_part_id n))
        × (combine directory_id (hash_part_id n) ≤ upper)
  own_bounds n =
      let (f, g) =
        combine-between directory_id directory_id (hash_part_id n) small small
          (hash_part_id-lt n) in
      g refl

  stands : (r : Inode) → IsPlaced r → within r ≡ true → Stands r
  unfolding scan_key
  stands r (p, fits, at) inside =
      let (f, g) =
        combine-between directory_id p (hash_part_id r.name) small fits (hash_part_id-lt r.name) in
      let bounds : (combine directory_id 0 ≤ r.parentid_partid) × (r.parentid_partid ≤ upper) =
        ground arith in
      let own = f (rw at at bounds) in at ∙ ap (λ (d : ℕ). combine d (hash_part_id r.name)) own

  same-within : (n : Name) (q : Inode) → same n q ≡ true → within q ≡ true
  unfolding scan_key
  same-within n q h = let (a, b) = own_bounds n in ground arith

  greater-within : (n : Name) (q : Inode) → greater n q ≡ true → within q ≡ true
  unfolding scan_key
  greater-within n q h = let (a, b) = own_bounds n in ground arith

  -- At the last row `r` of a page: the rows in front of it, itself, and those behind it.
  module _ (r : Inode) (here : Stands r) where
    front-same : (q : Inode) → Follows before q r → same r.name q ≡ false
    unfolding scan_key
    front-same q h =
        let back = asym q.name r.name in
        elim (Bool-cases (before r.name q.name)) [
          | inl ahead ↦ let b = asym r.name q.name ahead in ground (arith, here)
          | inr no' ↦ ground (arith, here)
        ]

    front-greater : (q : Inode) → Follows before q r → greater r.name q ≡ false
    unfolding scan_key
    front-greater q h = ground (arith, here)

    self-same : same r.name r ≡ false
    unfolding scan_key
    self-same = elim (Bool-cases (before r.name r.name)) [
      | inl ahead ↦ let b = asym r.name r.name ahead in absurd cc
      | inr no' ↦ rw no' (ground arith)
    ]

    self-greater : greater r.name r ≡ false
    unfolding scan_key
    self-greater = ground (arith, here)

    same-later :
        (p q : Inode)
        → same r.name p ≡ false
        → Follows before r p
        → Follows before p q
        → same r.name q ≡ false
    unfolding scan_key
    same-later p q apart behind next = ground (arith, here)

    -- A row behind it is in the one scan or in the other.
    behind-cases :
        (q : Inode)
        → Follows before r q
        → within q ≡ true
        → ((same r.name q ≡ true) × (greater r.name q ≡ false))
          ⊎ ((same r.name q ≡ false) × (greater r.name q ≡ true))
    unfolding scan_key
    behind-cases q h inside = elim (Bool-cases (q.parentid_partid == r.parentid_partid)) [
      | inl level ↦ inl (ground (arith, here), ground (arith, here))
      | inr above ↦ inr (ground (arith, here), ground (arith, here))
    ]

    none-later :
        (p : Inode) (qs : List Inode)
        → same r.name p ≡ false
        → Follows before r p
        → All (Follows before p) qs
        → matching (same r.name) qs ≡ []
    none-later p qs apart behind next = matching-none (same r.name) qs (
        All-map (Follows before p) (λ q. same r.name q ≡ false) qs
          (λ q h. same-later p q apart behind h) next)

    greater-later :
        (p : Inode) (qs : List Inode)
        → same r.name p ≡ false
        → Follows before r p
        → All (Follows before p) qs
        → All (Follows before r) qs
        → All (λ q. within q ≡ true) qs
        → All (λ q. greater r.name q ≡ true) qs
    greater-later p [] apart behind next h inside = tt
    greater-later p (q ∷ qs) apart behind (next, nexts) (h, hs) (i, inside) = (
      elim (behind-cases q h i) [
        | inl (level, x) ↦ absurd (let e = same-later p q apart behind next in cc)
        | inr (x, above) ↦ above
      ],
      greater-later p qs apart behind nexts hs inside,
    )

    behind :
        (qs : List Inode)
        → All (Follows before r) qs
        → IsOrdered before qs
        → All (λ q. within q ≡ true) qs
        → matching (same r.name) qs ++ matching (greater r.name) qs ≡ qs
    unfolding matching
    behind [] h sorted inside = refl
    behind (q ∷ qs) (h, hs) (next, sorted) (i, inside) = elim (behind-cases q h i) [
      | inl (level, x) ↦ rw (level, x) (ap (λ (l : List Inode). q ∷ l) (behind qs hs sorted inside))
      | inr (apart, above) ↦
          rw (apart, above, none-later q qs apart h next)
            (ap (λ (l : List Inode). q ∷ l)
              (matching-eq_self (greater r.name) qs (greater-later q qs apart h next hs inside)))
    ]

  -- The two scans over the rows of a directory, cut behind one of them.
  around :
      (r : Inode) (xs ys : List Inode)
      → Stands r
      → IsOrdered before (xs ++ (r ∷ ys))
      → All (λ q. within q ≡ true) ys
      → matching (same r.name) (xs ++ (r ∷ ys)) ++ matching (greater r.name) (xs ++ (r ∷ ys)) ≡ ys
  unfolding matching
  around r xs ys here sorted inside =
      let (front, back, tail) = IsOrdered-around before xs r ys sorted in
      let none_same = matching-none (same r.name) xs (
        All-map (λ q. Follows before q r) (λ q. same r.name q ≡ false) xs
          (λ q h. front-same r here q h) front) in
      let none_greater = matching-none (greater r.name) xs (
        All-map (λ q. Follows before q r) (λ q. greater r.name q ≡ false) xs
          (λ q h. front-greater r here q h) front) in
      rw
        (
          matching-append (same r.name) xs (r ∷ ys),
          matching-append (greater r.name) xs (r ∷ ys),
          none_same,
          none_greater,
          self-same r here,
          self-greater r here,
        )
        (behind r here ys back tail inside)

  -- Behind any row of a directory the two scans give the rows of the directory that follow it.
  pub matching-resume :
      (rs xs : List Inode) (r : Inode) (ys : List Inode)
      → IsOrdered before rs
      → All IsPlaced rs
      → matching within rs ≡ xs ++ (r ∷ ys)
      → matching (same r.name) rs ++ matching (greater r.name) rs ≡ ys
  matching-resume rs xs r ys sorted placed cut =
      let sorted' = matching-IsOrdered before within rs sorted in
      let inside = matching-holds within rs in
      let placed' = All-matching IsPlaced within rs placed in
      let narrow_same =
        matching-matching (same r.name) within rs (each rs (λ q. same-within r.name q)) in
      let narrow_greater =
        matching-matching (greater r.name) within rs (each rs (λ q. greater-within r.name q)) in
      let (p1, (p2, p3)) = All-append IsPlaced xs (r ∷ ys) (subst (All IsPlaced) cut placed') in
      let (i1, (i2, i3)) =
        All-append (λ q. within q ≡ true) xs (r ∷ ys)
          (subst (All (λ q. within q ≡ true)) cut inside) in
      ap₂ (λ (a b : List Inode). a ++ b) (sym narrow_same ∙ ap (matching (same r.name)) cut)
        (sym narrow_greater ∙ ap (matching (greater r.name)) cut)
      ∙ around r xs ys (stands r p2 i2) (subst (IsOrdered before) cut sorted') i3
    where
      each : {P : Inode → Type 0} (qs : List Inode) → ((q : Inode) → P q) → All P qs
      each [] f = tt
      each (q ∷ qs) f = (f q, each qs f)
