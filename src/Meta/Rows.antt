-- ===== src/Meta/Rows.antt =====
-- The rows of an inode table in the order of its index, by the number of the row and then by the name,
-- and the scans over them by a scan key.
use cuckoofs.Base.{
  ◌==◌, ltb, Bool, true, false, ◌&&◌, ◌||◌, if◌then◌else◌, List, [], ◌∷◌, ◌++◌, ◌≡◌, refl, ap,
  Bool-cases, inl, inr,
}
use cuckoofs.Path.Tree.{Name}
use cuckoofs.Meta.{Inode}

-- The rows for which a scan key holds.
unfoldable pub matching : (Inode → Bool) → List Inode → List Inode
matching p [] = []
matching p (r ∷ rs) = let rest = matching p rs in if p r then r ∷ rest else rest

abbrev pub All : (Inode → Type 0) → List Inode → Type 0
All P [] = Unit {0}
All P (r ∷ rs) = P r × All P rs

pub All-append : (P : Inode → Type 0) (xs ys : List Inode) → All P (xs ++ ys) → All P xs × All P ys
All-append P [] ys h = (tt, h)
All-append P (x ∷ xs) ys (here, later) =
    let (left, right) = All-append P xs ys later in ((here, left), right)

pub All-map :
    (P Q : Inode → Type 0) (rs : List Inode) → ((r : Inode) → P r → Q r) → All P rs → All Q rs
All-map P Q [] f h = tt
All-map P Q (r ∷ rs) f (here, later) = (f r here, All-map P Q rs f later)

-- What a scan keeps.
All-cons-if :
    (P : Inode → Type 0) (b : Bool) (r : Inode) (rs : List Inode)
    → P r
    → All P rs
    → All P (if b then r ∷ rs else rs)
All-cons-if P true r rs here later = (here, later)
All-cons-if P false r rs here later = later

pub All-matching :
    (P : Inode → Type 0) (p : Inode → Bool) (rs : List Inode) → All P rs → All P (matching p rs)
unfolding matching
All-matching P p [] h = tt
All-matching P p (r ∷ rs) (here, later) =
    All-cons-if P (p r) r (matching p rs) here (All-matching P p rs later)

All-kept :
    (p : Inode → Bool) (b : Bool) (r : Inode) (rs : List Inode)
    → p r ≡ b
    → All (λ q. p q ≡ true) rs
    → All (λ q. p q ≡ true) (if b then r ∷ rs else rs)
All-kept p true r rs here later = (here, later)
All-kept p false r rs here later = later

pub matching-holds : (p : Inode → Bool) (rs : List Inode) → All (λ q. p q ≡ true) (matching p rs)
unfolding matching
matching-holds p [] = tt
matching-holds p (r ∷ rs) = All-kept p (p r) r (matching p rs) refl (matching-holds p rs)

pub matching-eq_self :
    (p : Inode → Bool) (rs : List Inode) → All (λ q. p q ≡ true) rs → matching p rs ≡ rs
unfolding matching
matching-eq_self p [] h = refl
matching-eq_self p (r ∷ rs) (here, later) =
    rw here (ap (λ (l : List Inode). r ∷ l) (matching-eq_self p rs later))

pub matching-none :
    (p : Inode → Bool) (rs : List Inode) → All (λ q. p q ≡ false) rs → matching p rs ≡ []
unfolding matching
matching-none p [] h = refl
matching-none p (r ∷ rs) (here, later) = rw here (matching-none p rs later)

pub matching-append :
    (p : Inode → Bool) (xs ys : List Inode) → matching p (xs ++ ys) ≡ matching p xs ++ matching p ys
unfolding matching
matching-append p [] ys = refl
matching-append p (x ∷ xs) ys = elim (Bool-cases (p x)) [
  | inl yes' ↦ rw yes' (ap (λ (l : List Inode). x ∷ l) (matching-append p xs ys))
  | inr no' ↦ rw no' (matching-append p xs ys)
]

-- A scan within a wider one.
pub matching-matching :
    (p q : Inode → Bool) (rs : List Inode)
    → All (λ r. p r ≡ true → q r ≡ true) rs
    → matching p (matching q rs) ≡ matching p rs
unfolding matching
matching-matching p q [] h = refl
matching-matching p q (r ∷ rs) (here, later) = elim (Bool-cases (q r)) [
  | inl in_q ↦ elim (Bool-cases (p r)) [
    | inl in_p ↦ rw (in_q, in_p) (ap (λ (l : List Inode). r ∷ l) (matching-matching p q rs later))
    | inr out ↦ rw (in_q, out) (matching-matching p q rs later)
  ]
  | inr out ↦ elim (Bool-cases (p r)) [
    | inl in_p ↦ absurd (let e = here in_p in cc)
    | inr out_p ↦ rw (out, out_p) (matching-matching p q rs later)
  ]
]

-- `before` is the order of the names by the collation of the database.
module _ (before : Name → Name → Bool) where
  -- The second row stands behind the first.
  abbrev pub Follows : Inode → Inode → Type 0
  Follows r q =
      (ltb r.parentid_partid q.parentid_partid
        || ((q.parentid_partid == r.parentid_partid) && before r.name q.name))
      ≡ true

  -- The unique index: the rows ascend strictly.
  abbrev pub IsOrdered : List Inode → Type 0
  IsOrdered [] = Unit {0}
  IsOrdered (r ∷ rs) = All (Follows r) rs × IsOrdered rs

  IsOrdered-cons-if :
      (b : Bool) (r : Inode) (rs : List Inode)
      → All (Follows r) rs
      → IsOrdered rs
      → IsOrdered (if b then r ∷ rs else rs)
  IsOrdered-cons-if true r rs here later = (here, later)
  IsOrdered-cons-if false r rs here later = later

  pub matching-IsOrdered :
      (p : Inode → Bool) (rs : List Inode) → IsOrdered rs → IsOrdered (matching p rs)
  unfolding matching
  matching-IsOrdered p [] h = tt
  matching-IsOrdered p (r ∷ rs) (here, later) =
      IsOrdered-cons-if (p r) r (matching p rs) (All-matching (Follows r) p rs here)
        (matching-IsOrdered p rs later)

  -- Around one row: those in front of it, and those behind it.
  pub IsOrdered-around :
      (xs : List Inode) (r : Inode) (ys : List Inode)
      → IsOrdered (xs ++ (r ∷ ys))
      → All (λ q. Follows q r) xs × All (Follows r) ys × IsOrdered ys
  IsOrdered-around [] r ys (here, later) = (tt, here, later)
  IsOrdered-around (x ∷ xs) r ys (here, later) =
      let (front, behind, sorted) = IsOrdered-around xs r ys later in
      let (a, (b, c)) = All-append (Follows x) xs (r ∷ ys) here in ((b, front), behind, sorted)
