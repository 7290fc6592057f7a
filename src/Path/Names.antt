-- ===== src/Path/Names.antt =====
-- The names of a path.
use cuckoofs.Base.{
  ℕ, ◌==◌, Bool, false, List, [], ◌∷◌, ◌++◌, ◌≡◌, refl, ap, sym, ◌∙◌, Bool-cases, ==_iff, inl, inr,
  ◌||◌,
}
use cuckoofs.Path.{slash, glue, split, path_names}

abbrev contains_slash : List ℕ → Bool
contains_slash [] = false
contains_slash (c ∷ cs) = c == slash || contains_slash cs

-- The text of names, each with its slash, and a last one.
abbrev joined : List (List ℕ) → List ℕ → List ℕ
joined [] last = last
joined (name ∷ names) last = name ++ (slash ∷ joined names last)

abbrev Slashless : List (List ℕ) → Type 0
Slashless [] = Unit {0}
Slashless (name ∷ names) = (contains_slash name ≡ false) × Slashless names

abbrev IsSplit : List ℕ → List (List ℕ) × List ℕ → Type 0
IsSplit cs (names, last) =
    (joined names last ≡ cs) × Slashless names × (contains_slash last ≡ false)

glue-IsSplit :
    (c : ℕ) (cs : List ℕ) (r : List (List ℕ) × List ℕ)
    → (c == slash) ≡ false
    → IsSplit cs r
    → IsSplit (c ∷ cs) (glue c r)
unfolding glue
glue-IsSplit c cs ([], last) other (text, tt, free) =
    (ap (λ (x : List ℕ). c ∷ x) text, tt, rw other free)
glue-IsSplit c cs (name ∷ names, last) other (text, (clean, rest), free) =
    (ap (λ (x : List ℕ). c ∷ x) text, (rw other clean, rest), free)

split-IsSplit : (cs : List ℕ) → IsSplit cs (split cs)
unfolding split
split-IsSplit [] = (refl, tt, refl)
split-IsSplit (c ∷ cs) = elim (Bool-cases (c == slash)) [
  | inl same ↦
      let (text, clean, free) = split-IsSplit cs in
      rw same (
        ap (λ (x : List ℕ). slash ∷ x) text
            ∙ ap (λ (x : ℕ). x ∷ cs) (sym ((==_iff c slash).0 same)),
        (refl, clean),
        free,
      )
  | inr other ↦ rw other (glue-IsSplit c cs (split cs) other (split-IsSplit cs))
]

-- What the names of a path that starts with a slash come to: the root alone, or the root and names.
abbrev IsNamed : List ℕ → List (List ℕ) × List ℕ → Type 0
IsNamed cs ([], last) = last ≡ slash ∷ cs
IsNamed cs (root ∷ names, last) = (root ≡ slash ∷ []) × IsSplit cs (names, last)

-- The names of a path that starts with a slash are, of the root alone, a slash as the target, and of
-- any other path the root, which is named by the slash, and then names without a slash that, each
-- with a slash behind it, and the target make the rest of the path.
pub path_names-IsNamed : (cs : List ℕ) → IsNamed cs (path_names (slash ∷ cs))
unfolding path_names
path_names-IsNamed [] = refl
path_names-IsNamed (d ∷ cs) = (refl, split-IsSplit (d ∷ cs))
