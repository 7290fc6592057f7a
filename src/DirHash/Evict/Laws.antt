-- ===== src/DirHash/Evict/Laws.antt =====
-- What a scan for an entry to remove leaves alone, and which entry it chooses.
use cuckoofs.Base.{
  ℕ, Bool, true, false, Option, none, some, List, [], ◌∷◌, ◌≡◌, ◌≢◌, refl, ap, ap₂, sym, ◌∙◌, ◌⊎◌,
  inl, inr, arith, eq_of_some, Bool-cases, ==_refl, ==_of_ne, ℕ_discrete,
}
use cuckoofs.Base.Sums.{update}
use mathlib.Core.Path.{subst}
use cuckoofs.RwLock.{check_destroyable}
use cuckoofs.RwLock.Ops.{Ctx}
use cuckoofs.DirHash.{Key, Item, same_key}
use cuckoofs.DirHash.Keys.{Key-cases, same_key→≡}
use cuckoofs.DirHash.Table.{Dynahash, listed}
use cuckoofs.DirHash.Cache.{State, write_in}
use cuckoofs.DirHash.Evict.{use_less, is_spent, visit, visit_free, spend, find_next_item, Scanned}

-- What a scan keeps of an entry: its inode number and the place of its lock.
abbrev pub core : Option Item → Option (ℕ × ℕ)
core none = none
core (some i) = some (i.inode_id, i.lock)

some_injective : (k l : Key) → some k ≡ some l → k ≡ l
some_injective k l e = cc

pub core-some :
    (o : Option Item) (inode l : ℕ)
    → core o ≡ some (inode, l)
    → (i : Item) × (o ≡ some i) × (i.inode_id ≡ inode) × (i.lock ≡ l)
core-some none inode l e = absurd cc
core-some (some i) inode l e = (i, refl, cc, cc)

module _ (D : Dynahash) where
  abbrev pub entry : State D.Table → ℕ → Key → Option Item
  entry s p k = D.find (s.tables p) k

  -- The state but for the counts of use.
  pub record Frame (s s' : State D.Table) : Type 0 where
    pub counts : s'.counts ≡ s.counts
    pub locks : s'.locks ≡ s.locks
    pub log : s'.log ≡ s.log
    pub rows : s'.rows ≡ s.rows
    pub cores : (q : ℕ) (k : Key) → core (entry s' q k) ≡ core (entry s q k)

  pub Frame-refl : (s : State D.Table) → Frame s s
  Frame-refl s = record {
    counts = refl;
    locks = refl;
    log = refl;
    rows = refl;
    cores = λ q k. refl;
  }

  pub Frame-trans : {a b c : State D.Table} → Frame a b → Frame b c → Frame a c
  Frame-trans f g = record {
    counts = g.counts ∙ f.counts;
    locks = g.locks ∙ f.locks;
    log = g.log ∙ f.log;
    rows = g.rows ∙ f.rows;
    cores = λ q k. g.cores q k ∙ f.cores q k;
  }

  pub table_self : (f : ℕ → D.Table) (p : ℕ) (t : D.Table) → update f p t p ≡ t
  table_self f p t = rw (==_refl p) refl

  pub table_other : (f : ℕ → D.Table) (p : ℕ) (t : D.Table) (q : ℕ) → q ≢ p → update f p t q ≡ f q
  table_other f p t q other = rw (==_of_ne q p other) refl

  -- A write in partition `p`, at its key and elsewhere.
  pub entry-write_self :
      (s : State D.Table) (p : ℕ) (k : Key) (i : Item) → entry (write_in D s p k i) p k ≡ some i
  entry-write_self s p k i =
      ap (λ (t : D.Table). D.find t k) (table_self s.tables p (D.put (s.tables p) k i))
      ∙ D.find-put_self (s.tables p) k i

  pub entry-write_ne :
      (s : State D.Table) (p : ℕ) (k : Key) (i : Item) (q : ℕ) (l : Key)
      → (q ≢ p) ⊎ (l ≢ k)
      → entry (write_in D s p k i) q l ≡ entry s q l
  entry-write_ne s p k i q l (inl other) =
      ap (λ (t : D.Table). D.find t l) (table_other s.tables p (D.put (s.tables p) k i) q other)
  entry-write_ne s p k i q l (inr other) = elim (ℕ_discrete q p) [
    | no away ↦
        ap (λ (t : D.Table). D.find t l) (table_other s.tables p (D.put (s.tables p) k i) q away)
    | yes here ↦ rw here (
        ap (λ (t : D.Table). D.find t l) (table_self s.tables p (D.put (s.tables p) k i))
        ∙ D.find-put_ne (s.tables p) k l i other)
  ]

  -- Either a place is the one written, or the write leaves it alone.
  pub place-cases : (p : ℕ) (k : Key) (q : ℕ) (l : Key) → ((q ≡ p) × (l ≡ k)) ⊎ ((q ≢ p) ⊎ (l ≢ k))
  place-cases p k q l = elim (ℕ_discrete q p) [
    | no away ↦ inr (inl away)
    | yes here ↦ elim (Key-cases l k) [
      | inl same ↦ inl (here, same)
      | inr other ↦ inr (inr (other.1))
    ]
  ]

  pub write-Frame :
      (s : State D.Table) (p : ℕ) (k : Key) (i new : Item)
      → entry s p k ≡ some i
      → core (some new) ≡ core (some i)
      → Frame s (write_in D s p k new)
  write-Frame s p k i new there same = record {
    counts = refl;
    locks = refl;
    log = refl;
    rows = refl;
    cores = λ q l. elim (place-cases p k q l) [
      | inl (here, this) ↦
          rw (here, this) (ap core (entry-write_self s p k new) ∙ same ∙ sym (ap core there))
      | inr other ↦ ap core (entry-write_ne s p k new q l other)
    ];
  }

  -- An entry that RWLockCheckDestroyable lets go.
  abbrev pub CanDestroy : State D.Table → ℕ → Key → Type 0
  CanDestroy s p k =
      (i : Item) × (entry s p k ≡ some i) × (check_destroyable (s.locks.words i.lock) ≡ true)

  pub CanDestroy-Frame :
      {s s' : State D.Table} (p : ℕ) (k : Key) → Frame s s' → CanDestroy s' p k → CanDestroy s p k
  CanDestroy-Frame {s} {s'} p k f (i, there, free) =
      let (j, here, inode, lock) =
        core-some (entry s p k) i.inode_id i.lock (sym (f.cores p k) ∙ ap core there) in
      (j, here, ap₂ (λ (c : Ctx) l. check_destroyable (c.words l)) (sym f.locks) lock ∙ free)

  -- What FindNextItem does: it changes counts of use only, chooses an entry that can be destroyed, and
  -- has met one if its count of them is not 0.
  pub record IsScan (p : ℕ) (ks : List Key) (s s' : State D.Table) (r : Scanned) : Type 0 where
    pub frame : Frame s s'
    pub free : (k : Key) → r.chosen ≡ some k → CanDestroy s p k
    pub none_free :
        r.destroyable ≡ 0
        → (r.chosen ≡ none) × ((k : Key) → listed ks k ≡ true → ¬ CanDestroy s p k)

  pub listed-cases :
      (l : Key) (ls : List Key) (k : Key)
      → listed (l ∷ ls) k ≡ true
      → (k ≡ l) ⊎ (listed ls k ≡ true)
  listed-cases l ls k h = elim (Bool-cases (same_key l k)) [
    | inl same ↦ inl (sym (same_key→≡ l k same))
    | inr other ↦ inr (let rest = rw other at h in rest)
  ]

  skip-IsScan :
      (p : ℕ) (k : Key) (ks : List Key) (s s' : State D.Table) (r : Scanned)
      → ¬ CanDestroy s p k
      → IsScan p ks s s' r
      → IsScan p (k ∷ ks) s s' r
  skip-IsScan p k ks s s' r held h = record {
    frame = h.frame;
    free = h.free;
    none_free = λ z. (
      (h.none_free z).0,
      λ l here. elim (listed-cases k ks l here) [
        | inl same ↦ rw same held
        | inr later ↦ (h.none_free z).1 l later
      ],
    );
  }

  -- What the rest of a scan, `next`, is known to do from any state.
  abbrev pub Scans : ℕ → List Key → (State D.Table → State D.Table × Scanned) → Type 0
  Scans p ks next = (s : State D.Table) → IsScan p ks s (next s).0 (next s).1

  abbrev pub ScansFrom : ℕ → List Key → State D.Table → State D.Table × Scanned → Type 0
  ScansFrom p ks s result = IsScan p ks s result.0 result.1

  spend-IsScan :
      (p : ℕ) (k : Key) (ks : List Key) (s spent : State D.Table)
      → Frame s spent
      → CanDestroy s p k
      → (last : Bool) (rest : State D.Table × Scanned) → ScansFrom p ks spent rest
      → ScansFrom p (k ∷ ks) s (spend D last k spent rest)
  unfolding spend
  spend-IsScan p k ks s spent f free true rest h = record {
    frame = f;
    free = λ l e. subst (CanDestroy s p) (some_injective k l e) free;
    none_free = λ z. absurd (omega arith);
  }
  spend-IsScan p k ks s spent f free false (s', r) h = record {
    frame = Frame-trans f h.frame;
    free = λ l e. CanDestroy-Frame p l f (h.free l e);
    none_free = λ z. absurd (omega arith);
  }

  visit_free-IsScan :
      (p : ℕ) (k : Key) (ks : List Key) (s : State D.Table)
      → (next : State D.Table → State D.Table × Scanned) → Scans p ks next
      → (i : Item) → entry s p k ≡ some i
      → (free : Bool) → check_destroyable (s.locks.words i.lock) ≡ free
      → ScansFrom p (k ∷ ks) s (visit_free D p k i free next s)
  unfolding visit_free
  visit_free-IsScan p k ks s next h i there false held =
      skip-IsScan p k ks s (next s).0 (next s).1
        (λ c.
          let same = eq_of_some i (c.0) (sym there ∙ c.1) in
          let free = rw (← same) at c.2 in absurd cc)
        (h s)
  visit_free-IsScan p k ks s next h i there true free =
      let new : Item = record i { usage_count = use_less i.usage_count } in
      let spent = write_in D s p k new in
      spend-IsScan p k ks s spent (write-Frame s p k i new there refl) (i, there, free)
        (is_spent (use_less i.usage_count)) (next spent) (h spent)

  visit-IsScan :
      (p : ℕ) (k : Key) (ks : List Key) (s : State D.Table)
      → (next : State D.Table → State D.Table × Scanned) → Scans p ks next
      → (o : Option Item) → entry s p k ≡ o
      → ScansFrom p (k ∷ ks) s (visit D p k o next s)
  unfolding visit
  visit-IsScan p k ks s next h none missing =
      skip-IsScan p k ks s (next s).0 (next s).1 (λ c. let e = sym missing ∙ c.1 in absurd cc) (h s)
  visit-IsScan p k ks s next h (some i) there =
      visit_free-IsScan p k ks s next h i there (check_destroyable (s.locks.words i.lock)) refl

  pub find_next_item-IsScan :
      (p : ℕ) (ks : List Key) (s : State D.Table) → ScansFrom p ks s (find_next_item D p ks s)
  unfolding find_next_item
  find_next_item-IsScan p [] s = record {
    frame = Frame-refl s;
    free = λ k e. absurd cc;
    none_free = λ z. (refl, λ k e. absurd cc);
  }
  find_next_item-IsScan p (k ∷ ks) s =
      visit-IsScan p k ks s (find_next_item D p ks) (λ t. find_next_item-IsScan p ks t)
        (entry s p k) refl
