-- ===== src/DirHash/Evict/Safety.antt =====
-- What EliminateDirPathHashByLRU removes, and what it leaves alone.
use cuckoofs.Base.{
  ℕ, zero, suc, ◌+◌, ◌-◌, ◌/◌, ◌^◌, ◌≤◌, Bool, true, false, Option, none, some, ◌==◌, leb, u32,
  List, ◌≡◌, ◌≢◌, refl, ap, sym, ◌∙◌, ◌⊎◌, inl, inr, Bool-cases, ℕ_discrete, leb→le, ==_iff,
  ==_refl,
}
use cuckoofs.Base.Sums.{update}
use cuckoofs.DirHash.{Key, partition_size, lru_clear_begin}
use cuckoofs.DirHash.Table.{Dynahash, listed}
use cuckoofs.DirHash.Cache.{State}
use cuckoofs.DirHash.Evict.{
  pick, find_next_item, scan_again, remove_entry, choose, remove_chosen, eliminate, Scanned, drop,
}
use cuckoofs.DirHash.Evict.Laws.{
  core, entry, Frame, Frame-refl, Frame-trans, table_self, table_other, CanDestroy,
  CanDestroy-Frame, IsScan, find_next_item-IsScan,
}

module _ (D : Dynahash) where
  -- What the scans may come to, `none` being those that the fuel does not end.
  abbrev Chooses : ℕ → List Key → State D.Table → Option (State D.Table × Option Key) → Type 0
  Chooses p ks s none = Unit {0}
  Chooses p ks s (some (s', some k)) = Frame D s s' × CanDestroy D s p k
  Chooses p ks s (some (s', none)) =
      Frame D s s' × ((k : Key) → listed ks k ≡ true → ¬ CanDestroy D s p k)

  Chooses-Frame :
      (p : ℕ) (ks : List Key) (s t : State D.Table) (o : Option (State D.Table × Option Key))
      → Frame D s t
      → Frame D t s
      → Chooses p ks t o
      → Chooses p ks s o
  Chooses-Frame p ks s t none f back h = h
  Chooses-Frame p ks s t (some (s', some k)) f back (g, c) =
      (Frame-trans D f g, CanDestroy-Frame D p k f c)
  Chooses-Frame p ks s t (some (s', none)) f back (g, c) =
      (Frame-trans D f g, λ k l d. c k l (CanDestroy-Frame D p k back d))

  pub Frame-sym : {s t : State D.Table} → Frame D s t → Frame D t s
  Frame-sym f = record {
    counts = sym f.counts;
    locks = sym f.locks;
    log = sym f.log;
    rows = sym f.rows;
    cores = λ q k. sym (f.cores q k);
  }

  -- The answer of the first scan, of part of the keys, and of a scan of all of them.
  pick-Chooses :
      (p : ℕ) (part ks : List Key) (s s' : State D.Table) (r : Scanned)
      → (again : Option (State D.Table × Option Key)) → IsScan D p part s s' r
      → Chooses p ks s again
      → (chosen : Option Key) → r.chosen ≡ chosen
      → (none_free : Bool)
      → (none_free ≡ true → (k : Key) → listed ks k ≡ true → ¬ CanDestroy D s p k)
      → Chooses p ks s (pick D chosen none_free s' again)
  unfolding pick
  pick-Chooses p part ks s s' r again scan h (some k) e b held = (scan.frame, scan.free k e)
  pick-Chooses p part ks s s' r again scan h none e true held = (scan.frame, held refl)
  pick-Chooses p part ks s s' r again scan h none e false held = h

  scan_again-Chooses :
      (fuel p : ℕ) (ks : List Key) (s : State D.Table) → Chooses p ks s (scan_again D fuel p ks s)
  unfolding scan_again
  scan_again-Chooses zero p ks s = tt
  scan_again-Chooses (suc n) p ks s =
      let scan = find_next_item-IsScan D p ks s in
      let s' = (find_next_item D p ks s).0 in
      let r = (find_next_item D p ks s).1 in
      pick-Chooses p ks ks s s' r (scan_again D n p ks s') scan
        (Chooses-Frame p ks s s' (scan_again D n p ks s') scan.frame (Frame-sym scan.frame)
          (scan_again-Chooses n p ks s'))
        r.chosen refl (r.destroyable == 0) (λ z. (scan.none_free ((==_iff r.destroyable 0).0 z)).1)

  choose-Chooses :
      (fuel p : ℕ) (part ks : List Key) (s : State D.Table)
      → Chooses p ks s (choose D fuel p ks (find_next_item D p part s))
  unfolding choose
  choose-Chooses fuel p part ks s =
      let scan = find_next_item-IsScan D p part s in
      let s' = (find_next_item D p part s).0 in
      let r = (find_next_item D p part s).1 in
      pick-Chooses p part ks s s' r (scan_again D fuel p ks s') scan
        (Chooses-Frame p ks s s' (scan_again D fuel p ks s') scan.frame (Frame-sym scan.frame)
          (scan_again-Chooses fuel p ks s'))
        r.chosen refl false (λ e. absurd cc)

  -- What is left when the entry of `k` is removed from partition `p`.
  pub record IsRemoval (p : ℕ) (k : Key) (s s' : State D.Table) : Type 0 where
    pub counts : s'.counts p ≡ u32 (s.counts p + 2 ^ 32 - 1)
    pub locks : s'.locks ≡ s.locks
    pub log : s'.log ≡ s.log
    pub rows : s'.rows ≡ s.rows
    pub gone : entry D s' p k ≡ none
    pub others :
        (q : ℕ) (l : Key) → (q ≢ p) ⊎ (l ≢ k) → core (entry D s' q l) ≡ core (entry D s q l)

  -- What the elimination may come to: nothing removed, or one entry.
  abbrev pub IsEliminated : ℕ → State D.Table → Option (State D.Table × Bool) → Type 0
  IsEliminated p s none = Unit {0}
  IsEliminated p s (some (s', true)) = (k : Key) × CanDestroy D s p k × IsRemoval p k s s'
  IsEliminated p s (some (s', false)) =
      Frame D s s'
      × ((s.counts p ≤ lru_clear_begin / partition_size) ⊎ ((k : Key) → ¬ CanDestroy D s p k))

  remove_entry-IsRemoval :
      (p : ℕ) (k : Key) (s s' : State D.Table)
      → Frame D s s'
      → IsRemoval p k s (remove_entry D p k s')
  unfolding remove_entry
  remove_entry-IsRemoval p k s s' f = record {
    counts = count_self s'.counts p ∙ ap (λ (c : ℕ → ℕ). u32 (c p + 2 ^ 32 - 1)) f.counts;
    locks = f.locks;
    log = f.log;
    rows = f.rows;
    gone =
        ap (λ (t : D.Table). D.find t k) (table_self D s'.tables p (D.remove (s'.tables p) k))
        ∙ D.find-remove_self (s'.tables p) k;
    others = λ q l other. ap core (elsewhere q l other) ∙ f.cores q l;
  }
    where
      count_self :
          (c : ℕ → ℕ) (p : ℕ) → update c p (u32 (c p + 2 ^ 32 - 1)) p ≡ u32 (c p + 2 ^ 32 - 1)
      count_self c p = rw (==_refl p) refl

      elsewhere :
          (q : ℕ) (l : Key)
          → (q ≢ p) ⊎ (l ≢ k)
          → entry D (remove_entry D p k s') q l ≡ entry D s' q l
      elsewhere q l other = elim (ℕ_discrete q p) [
        | no away ↦
            ap (λ (t : D.Table). D.find t l)
              (table_other D s'.tables p (D.remove (s'.tables p) k) q away)
        | yes here ↦ elim other [
          | inl away ↦ absurd (away here)
          | inr apart ↦ rw here (
              ap (λ (t : D.Table). D.find t l) (table_self D s'.tables p (D.remove (s'.tables p) k))
              ∙ D.find-remove_ne (s'.tables p) k l apart)
        ]
      ]

  remove_chosen-IsEliminated :
      (p : ℕ) (s : State D.Table) (o : Option (State D.Table × Option Key))
      → Chooses p (D.keys (s.tables p)) s o
      → IsEliminated p s (remove_chosen D p o)
  unfolding remove_chosen
  remove_chosen-IsEliminated p s none h = tt
  remove_chosen-IsEliminated p s (some (s', some k)) (f, c) =
      (k, c, remove_entry-IsRemoval p k s s' f)
  remove_chosen-IsEliminated p s (some (s', none)) (f, held) =
      (f, inr (λ k c. held k (D.keys-find (s.tables p) k c.0 c.1) c))

  -- Where the fuel lasts, an elimination removes at most one entry, of the partition that it is called on, whose lock nobody
  -- declares, waits for or holds, and lowers the count of the partition by one; of every other entry
  -- it keeps the inode number and the lock. It removes none only if the count is at or below the
  -- threshold or every entry of the partition is in use.
  pub eliminate-IsEliminated :
      (start : D.Table → ℕ) (fuel p : ℕ) (s : State D.Table)
      → IsEliminated p s (eliminate D start fuel p s)
  unfolding eliminate
  eliminate-IsEliminated start fuel p s = elim (Bool-cases (leb (s.counts p) 12)) [
    | inl few ↦ rw few ((Frame-refl D s, inl (leb→le (s.counts p) 12 few)))
    | inr many ↦ rw many (
        remove_chosen-IsEliminated p s _ (
          choose-Chooses fuel p (drop (D.keys (s.tables p)) (start (s.tables p)))
            (D.keys (s.tables p)) s))
  ]
