-- ===== src/DirHash/Evict/Spent.antt =====
-- A scan that chooses nothing lowers the count of use of every entry that can be destroyed.
use cuckoofs.Base.{
  ℕ, ◌≤◌, ◌<◌, Bool, true, false, Option, none, some, List, [], ◌∷◌, ◌≡◌, refl, ap, sym, ◌∙◌, ◌⊎◌,
  inl, inr, arith, eq_of_some, Bool-cases,
}
use mathlib.Core.Path.{subst}
use cuckoofs.RwLock.{check_destroyable}
use cuckoofs.DirHash.{Key, Item, same_key}
use cuckoofs.DirHash.Keys.{same_key_refl}
use cuckoofs.DirHash.Table.{Dynahash, listed}
use cuckoofs.DirHash.Cache.{State, write_in}
use cuckoofs.DirHash.Evict.{use_less, is_spent, visit, visit_free, spend, find_next_item, Scanned}
use cuckoofs.DirHash.Evict.Laws.{
  entry, Frame, CanDestroy, CanDestroy-Frame, entry-write_self, entry-write_ne, place-cases,
  write-Frame, listed-cases,
}
use cuckoofs.DirHash.Evict.Safety.{Frame-sym}

abbrev pub uses : Option Item → ℕ
uses none = 0
uses (some i) = i.usage_count

use_less-lt : (n : ℕ) → is_spent (use_less n) ≡ false → use_less n < n
use_less-lt n more = ground arith

use_less-le : (n : ℕ) → is_spent (use_less n) ≡ false → use_less n ≤ n
use_less-le n more = omega (arith, use_less-lt n more)

module _ (D : Dynahash) (p : ℕ) where
  -- What a scan that chooses nothing does to the counts of use.
  pub record IsSpent (ks : List Key) (s s' : State D.Table) (r : Scanned) : Type 0 where
    pub falls : r.chosen ≡ none → (k : Key) → uses (entry D s' p k) ≤ uses (entry D s p k)
    pub lower :
        r.chosen ≡ none
        → (k : Key) → listed ks k ≡ true
        → CanDestroy D s p k
        → uses (entry D s' p k) < uses (entry D s p k)
    pub met : (r.destroyable ≡ 0) ⊎ ((k : Key) × (listed ks k ≡ true) × CanDestroy D s p k)

  abbrev pub Spends : List Key → (State D.Table → State D.Table × Scanned) → Type 0
  Spends ks next = (s : State D.Table) → IsSpent ks s (next s).0 (next s).1

  abbrev pub SpendsFrom : List Key → State D.Table → State D.Table × Scanned → Type 0
  SpendsFrom ks s result = IsSpent ks s result.0 result.1

  listed_self : (k : Key) (ks : List Key) → listed (k ∷ ks) k ≡ true
  listed_self k ks = rw (same_key_refl k) refl

  listed_later : (l k : Key) (ks : List Key) → listed ks k ≡ true → listed (l ∷ ks) k ≡ true
  listed_later l k ks h = elim (Bool-cases (same_key l k)) [
    | inl same ↦ rw same refl
    | inr other ↦ rw other h
  ]

  skip-IsSpent :
      (k : Key) (ks : List Key) (s s' : State D.Table) (r : Scanned)
      → ¬ CanDestroy D s p k
      → IsSpent ks s s' r
      → IsSpent (k ∷ ks) s s' r
  skip-IsSpent k ks s s' r held h = record {
    falls = h.falls;
    lower = λ e l here free. elim (listed-cases D k ks l here) [
      | inl same ↦ absurd (held (subst (CanDestroy D s p) same free))
      | inr later ↦ h.lower e l later free
    ];
    met = elim h.met [
      | inl z ↦ inl z
      | inr (l, here, free) ↦ inr (l, listed_later k l ks here, free)
    ];
  }

  -- The write that takes one off the count of an entry.
  spent_falls :
      (k : Key) (i : Item) (s : State D.Table)
      → entry D s p k ≡ some i
      → is_spent (use_less i.usage_count) ≡ false
      → (l : Key)
      → uses (entry D (write_in D s p k (record i { usage_count = use_less i.usage_count })) p l)
        ≤ uses (entry D s p l)
  spent_falls k i s there more l = elim (place-cases D p k p l) [
    | inl (here, same) ↦
        rw
          (
            same,
            entry-write_self D s p k (record i { usage_count = use_less i.usage_count }),
            there,
          )
          (use_less-le i.usage_count more)
    | inr other ↦
        rw (entry-write_ne D s p k (record i { usage_count = use_less i.usage_count }) p l other)
          (omega arith)
  ]

  spend-IsSpent :
      (k : Key) (ks : List Key) (s spent : State D.Table) (n : ℕ)
      → Frame D s spent
      → CanDestroy D s p k
      → (is_spent (use_less n) ≡ false
          → (l : Key) → uses (entry D spent p l) ≤ uses (entry D s p l))
      → uses (entry D s p k) ≡ n
      → uses (entry D spent p k) ≡ use_less n
      → (last : Bool) → is_spent (use_less n) ≡ last
      → (rest : State D.Table × Scanned) → SpendsFrom ks spent rest
      → SpendsFrom (k ∷ ks) s (spend D last k spent rest)
  unfolding spend
  spend-IsSpent k ks s spent n f free falls before after true zero_left rest h = record {
    falls = λ e. absurd cc;
    lower = λ e. absurd cc;
    met = inr (k, listed_self k ks, free);
  }
  spend-IsSpent k ks s spent n f free falls before after false more (s', r) h = record {
    falls = λ e l. let a = falls more l in let b = h.falls e l in omega arith;
    lower = λ e l here can. elim (listed-cases D k ks l here) [
      | inl same ↦ let low = h.falls e k in let less = use_less-lt n more in rw same (omega arith)
      | inr later ↦
          let a = falls more l in
          let b = h.lower e l later (CanDestroy-Frame D p l (Frame-sym D f) can) in omega arith
    ];
    met = inr (k, listed_self k ks, free);
  }

  visit_free-IsSpent :
      (k : Key) (ks : List Key) (s : State D.Table)
      → (next : State D.Table → State D.Table × Scanned) → Spends ks next
      → (i : Item) → entry D s p k ≡ some i
      → (free : Bool) → check_destroyable (s.locks.words i.lock) ≡ free
      → SpendsFrom (k ∷ ks) s (visit_free D p k i free next s)
  unfolding visit_free
  visit_free-IsSpent k ks s next h i there false held =
      skip-IsSpent k ks s (next s).0 (next s).1
        (λ c.
          let same = eq_of_some i (c.0) (sym there ∙ c.1) in
          let free = rw (← same) at c.2 in absurd cc)
        (h s)
  visit_free-IsSpent k ks s next h i there true free =
      let new : Item = record i { usage_count = use_less i.usage_count } in
      let spent = write_in D s p k new in
      spend-IsSpent k ks s spent i.usage_count (write-Frame D s p k i new there refl)
        (i, there, free) (spent_falls k i s there) (ap uses there)
        (ap uses (entry-write_self D s p k new)) (is_spent (use_less i.usage_count)) refl
        (next spent) (h spent)

  visit-IsSpent :
      (k : Key) (ks : List Key) (s : State D.Table)
      → (next : State D.Table → State D.Table × Scanned) → Spends ks next
      → (o : Option Item) → entry D s p k ≡ o
      → SpendsFrom (k ∷ ks) s (visit D p k o next s)
  unfolding visit
  visit-IsSpent k ks s next h none missing =
      skip-IsSpent k ks s (next s).0 (next s).1 (λ c. let e = sym missing ∙ c.1 in absurd cc) (h s)
  visit-IsSpent k ks s next h (some i) there =
      visit_free-IsSpent k ks s next h i there (check_destroyable (s.locks.words i.lock)) refl

  pub find_next_item-IsSpent : (ks : List Key) → Spends ks (find_next_item D p ks)
  unfolding find_next_item
  find_next_item-IsSpent [] s = record {
    falls = λ e k. omega arith;
    lower = λ e k here. absurd cc;
    met = inl refl;
  }
  find_next_item-IsSpent (k ∷ ks) s =
      visit-IsSpent k ks s (find_next_item D p ks) (find_next_item-IsSpent ks) (entry D s p k) refl
