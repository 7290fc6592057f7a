-- ===== src/DirHash/Keys.antt =====
-- Equality of the keys of the cache.
use cuckoofs.Base.{
  ℕ, true, false, ◌≡◌, ◌≢◌, refl, arith, List, [], ◌∷◌, ==_refl, Bool-cases, inl, inr, ◌⊎◌,
}
use cuckoofs.DirHash.{Key, same_name, same_key, set_key}

pub same_name_refl : (xs : List ℕ) → same_name xs xs ≡ true
unfolding same_name
same_name_refl [] = refl
same_name_refl (x ∷ xs) = ground (arith, ==_refl x, same_name_refl xs)

pub same_name→≡ : (xs ys : List ℕ) → same_name xs ys ≡ true → xs ≡ ys
unfolding same_name
same_name→≡ [] [] h = refl
same_name→≡ [] (y ∷ ys) h = absurd cc
same_name→≡ (x ∷ xs) [] h = absurd cc
same_name→≡ (x ∷ xs) (y ∷ ys) h = ground (arith, same_name→≡ xs ys)

pub same_key_refl : (k : Key) → same_key k k ≡ true
unfolding same_key
same_key_refl k = ground (arith, ==_refl k.parent_id, same_name_refl k.name)

pub same_key→≡ : (k l : Key) → same_key k l ≡ true → k ≡ l
unfolding same_key
same_key→≡ k l h = ground (arith, same_name→≡ k.name l.name)

pub Key-cases : (k l : Key) → (k ≡ l) ⊎ ((same_key k l ≡ false) × (k ≢ l))
Key-cases k l = elim (Bool-cases (same_key k l)) [
  | inl same ↦ inl (same_key→≡ k l same)
  | inr other ↦ inr (other, λ e. different k l other e)
]
  where
    different : (k l : Key) → same_key k l ≡ false → k ≡ l → ⊥
    different k l other e = let self = same_key_refl l in let back = rw e at other in absurd cc

pub set_key_self : (f : Key → ℕ) (k : Key) (v : ℕ) → set_key f k v k ≡ v
set_key_self f k v = rw (same_key_refl k) refl

pub set_key_other :
    (f : Key → ℕ) (k : Key) (v : ℕ) (j : Key) → same_key j k ≡ false → set_key f k v j ≡ f j
set_key_other f k v j other = rw other refl
