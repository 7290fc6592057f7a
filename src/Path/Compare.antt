-- ===== src/Path/Compare.antt =====
-- cuckoo/utils/utils_standalone.c: pathcmp, by which the requests of a batch are sorted.
use cuckoofs.Base.{
  ℕ, ◌==◌, ltb, Bool, true, false, List, [], ◌∷◌, ◌++◌, ◌≡◌, refl, arith, if◌then◌else◌, Bool-cases,
  inl, inr, ==_refl,
}
use cuckoofs.Path.{slash}

-- The sign of its result.
pub data Sign : Type 0 where
  negative same positive : Sign

abbrev sign_of : ℕ → ℕ → Sign
sign_of c d = if c == d then same else if ltb c d then negative else positive

-- The end of pathcmp, at two bytes that differ.
unfoldable pub differ : ℕ → ℕ → Sign
differ c d = if d == slash then positive else if c == slash then negative else sign_of c d

-- On paths without the NUL at their end.
unfoldable pub pathcmp : List ℕ → List ℕ → Sign
pathcmp [] [] = same
pathcmp [] (d ∷ q) = negative
pathcmp (c ∷ p) [] = positive
pathcmp (c ∷ p) (d ∷ q) = let rest = pathcmp p q in if c == d then rest else differ c d

abbrev flip : Sign → Sign
flip negative = positive
flip same = same
flip positive = negative

differ-flip : (c d : ℕ) → (c == d) ≡ false → flip (differ c d) ≡ differ d c
unfolding differ
differ-flip c d apart = ground arith

-- The order is antisymmetric and total: the result for the paths in the other order is the other one.
pathcmp-flip : (p q : List ℕ) → flip (pathcmp p q) ≡ pathcmp q p
unfolding pathcmp
pathcmp-flip [] [] = refl
pathcmp-flip [] (d ∷ q) = refl
pathcmp-flip (c ∷ p) [] = refl
pathcmp-flip (c ∷ p) (d ∷ q) = elim (Bool-cases (c == d)) [
  | inl level ↦ let back : (d == c) ≡ true = ground arith in rw (level, back) (pathcmp-flip p q)
  | inr apart ↦
      let back : (d == c) ≡ false = ground arith in rw (apart, back) (differ-flip c d apart)
]

pathcmp-eq : (p q : List ℕ) → pathcmp p q ≡ same → p ≡ q
unfolding pathcmp differ
pathcmp-eq [] [] h = refl
pathcmp-eq [] (d ∷ q) h = absurd cc
pathcmp-eq (c ∷ p) [] h = absurd cc
pathcmp-eq (c ∷ p) (d ∷ q) h = elim (Bool-cases (c == d)) [
  | inl level ↦ let h' = rw level at h in let e = pathcmp-eq p q h' in ground (arith, e)
  | inr apart ↦ absurd (ground arith)
]

differ_trans :
    (c d e : ℕ)
    → (c == d) ≡ false
    → (d == e) ≡ false
    → differ c d ≡ negative
    → differ d e ≡ negative
    → ((c == e) ≡ false) × (differ c e ≡ negative)
unfolding differ
differ_trans c d e x y h g = (ground arith, ground arith)

pathcmp_trans :
    (p q r : List ℕ) → pathcmp p q ≡ negative → pathcmp q r ≡ negative → pathcmp p r ≡ negative
unfolding pathcmp
pathcmp_trans [] [] r h g = absurd cc
pathcmp_trans [] (d ∷ q) [] h g = absurd cc
pathcmp_trans [] (d ∷ q) (e ∷ r) h g = refl
pathcmp_trans (c ∷ p) [] r h g = absurd cc
pathcmp_trans (c ∷ p) (d ∷ q) [] h g = absurd cc
pathcmp_trans (c ∷ p) (d ∷ q) (e ∷ r) h g = elim (Bool-cases (c == d)) [
  | inl cd ↦ elim (Bool-cases (d == e)) [
    | inl de ↦
        let ce : (c == e) ≡ true = ground arith in
        let h' = rw cd at h in let g' = rw de at g in rw ce (pathcmp_trans p q r h' g')
    | inr de ↦ let ce : c ≡ d = ground arith in rw (ce, de) (let g' = rw de at g in g')
  ]
  | inr cd ↦ elim (Bool-cases (d == e)) [
    | inl de ↦ let ed : e ≡ d = ground arith in rw (ed, cd) (let h' = rw cd at h in h')
    | inr de ↦
        let h' = rw cd at h in
        let g' = rw de at g in let (ce, less) = differ_trans c d e cd de h' g' in rw ce less
  ]
]

-- A path below another one.
unfoldable pub is_below : List ℕ → List ℕ → Bool
is_below [] [] = false
is_below [] (d ∷ q) = d == slash
is_below (c ∷ p) [] = false
is_below (c ∷ p) (d ∷ q) = let rest = is_below p q in if c == d then rest else false

-- For a path p and a path q that is behind p by pathcmp and is not below p, each path below p is behind p
-- and in front of q by pathcmp.
pub pathcmp_contiguous :
    (p q x : List ℕ)
    → pathcmp p q ≡ negative
    → is_below p q ≡ false
    → (pathcmp p (p ++ (slash ∷ x)) ≡ negative) × (pathcmp (p ++ (slash ∷ x)) q ≡ negative)
unfolding pathcmp is_below differ
pathcmp_contiguous [] [] x h apart = absurd cc
pathcmp_contiguous [] (d ∷ q) x h apart = (refl, ground arith)
pathcmp_contiguous (c ∷ p) [] x h apart = absurd cc
pathcmp_contiguous (c ∷ p) (d ∷ q) x h apart = elim (Bool-cases (c == d)) [
  | inl cd ↦
      let h' = rw cd at h in
      let apart' = rw cd at apart in
      let (a, b) = pathcmp_contiguous p q x h' apart' in (rw (==_refl c) a, rw cd b)
  | inr cd ↦ (rw (==_refl c) (first p x), rw cd (let h' = rw cd at h in h'))
]
  where
    first : (p x : List ℕ) → pathcmp p (p ++ (slash ∷ x)) ≡ negative
    first [] x = refl
    first (c ∷ p) x = rw (==_refl c) (first p x)
