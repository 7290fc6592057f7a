-- ===== src/DirHash/Evict/Ends.antt =====
-- An elimination ends, and what it comes to.
use cuckoofs.Base.{
  ℕ, zero, suc, ◌/◌, ◌≤◌, ◌<◌, Bool, true, false, Option, none, some, ◌==◌, leb, List, ◌≡◌, refl,
  inl, inr, arith, Bool-cases, ==_iff,
}
use cuckoofs.DirHash.{Key, Item, partition_size, lru_clear_begin}
use cuckoofs.DirHash.Table.{Dynahash, listed}
use cuckoofs.DirHash.Cache.{State}
use cuckoofs.DirHash.Evict.{
  find_next_item, pick, scan_again, choose, remove_chosen, eliminate, drop,
}
use cuckoofs.DirHash.Evict.Laws.{entry, CanDestroy, CanDestroy-Frame, find_next_item-IsScan}
use cuckoofs.DirHash.Evict.Safety.{IsEliminated, eliminate-IsEliminated}
use cuckoofs.DirHash.Evict.Spent.{uses, find_next_item-IsSpent}

module _ (D : Dynahash) (p : ℕ) where
  -- Every entry that can be destroyed has been used fewer times.
  abbrev Low : ℕ → List Key → State D.Table → Type 0
  Low n ks s = (k : Key) → listed ks k ≡ true → CanDestroy D s p k → uses (entry D s p k) < n

  abbrev Ended : {A : Type 0} → Option A → Type 0
  Ended none = ⊥
  Ended (some x) = Unit {0}

  pick-Ended :
      (chosen : Option Key) (none_free : Bool) (s : State D.Table)
      (again : Option (State D.Table × Option Key))
      → (chosen ≡ none → none_free ≡ false → Ended again)
      → Ended (pick D chosen none_free s again)
  unfolding pick
  pick-Ended (some k) b s again h = tt
  pick-Ended none true s again h = tt
  pick-Ended none false s again h = h refl refl

  lower-Low :
      (n : ℕ) (ks : List Key) (s : State D.Table)
      → (find_next_item D p ks s).1.chosen ≡ none
      → Low (suc n) ks s
      → Low n ks (find_next_item D p ks s).0
  lower-Low n ks s none_chosen low k here can =
      let scan = find_next_item-IsScan D p ks s in
      let can' = CanDestroy-Frame D p k scan.frame can in
      let less = (find_next_item-IsSpent D p ks s).lower none_chosen k here can' in
      let few = low k here can' in omega arith

  last_scan :
      (ks : List Key) (s : State D.Table)
      → (find_next_item D p ks s).1.chosen ≡ none
      → ((find_next_item D p ks s).1.destroyable == 0) ≡ false
      → Low 1 ks s
      → ⊥
  last_scan ks s none_chosen some_free low = elim (find_next_item-IsSpent D p ks s).met [
    | inl z ↦ let t = (==_iff (find_next_item D p ks s).1.destroyable 0).1 z in absurd cc
    | inr (k, here, can) ↦
        let less = (find_next_item-IsSpent D p ks s).lower none_chosen k here can in
        let few = low k here can in absurd (omega arith)
  ]

  scan_again-Ended :
      (n : ℕ) (ks : List Key) (s : State D.Table)
      → Low (suc n) ks s
      → Ended (scan_again D (suc n) p ks s)
  unfolding scan_again
  scan_again-Ended zero ks s low =
      pick-Ended (find_next_item D p ks s).1.chosen ((find_next_item D p ks s).1.destroyable == 0)
        (find_next_item D p ks s).0 none
        (λ none_chosen some_free. last_scan ks s none_chosen some_free low)
  scan_again-Ended (suc n) ks s low =
      pick-Ended (find_next_item D p ks s).1.chosen ((find_next_item D p ks s).1.destroyable == 0)
        (find_next_item D p ks s).0 (scan_again D (suc n) p ks (find_next_item D p ks s).0)
        (λ none_chosen some_free.
          scan_again-Ended n ks (find_next_item D p ks s).0
            (lower-Low (suc n) ks s none_chosen low))

  choose-Ended :
      (n : ℕ) (part ks : List Key) (s : State D.Table)
      → Low (suc n) ks s
      → Ended (choose D (suc n) p ks (find_next_item D p part s))
  unfolding choose
  choose-Ended n part ks s low =
      pick-Ended (find_next_item D p part s).1.chosen false (find_next_item D p part s).0 _
        (λ none_chosen more.
          scan_again-Ended n ks (find_next_item D p part s).0 (still_low none_chosen))
    where
      still_low :
          (find_next_item D p part s).1.chosen ≡ none → Low (suc n) ks (find_next_item D p part s).0
      still_low none_chosen k here can =
          let scan = find_next_item-IsScan D p part s in
          let few = low k here (CanDestroy-Frame D p k scan.frame can) in
          let falls = (find_next_item-IsSpent D p part s).falls none_chosen k in omega arith

  remove_chosen-Ended :
      (o : Option (State D.Table × Option Key)) → Ended o → Ended (remove_chosen D p o)
  unfolding remove_chosen
  remove_chosen-Ended none h = h
  remove_chosen-Ended (some (s, none)) h = tt
  remove_chosen-Ended (some (s, some k)) h = tt

  eliminate-Ended :
      (start : D.Table → ℕ) (n : ℕ) (s : State D.Table)
      → ((k : Key) (i : Item) → entry D s p k ≡ some i → i.usage_count ≤ n)
      → Ended (eliminate D start (suc n) p s)
  unfolding eliminate
  eliminate-Ended start n s few =
      elim (Bool-cases (leb (s.counts p) (lru_clear_begin / partition_size))) [
        | inl below ↦ rw below tt
        | inr many ↦ rw many (
            remove_chosen-Ended _ (
              choose-Ended n (drop (D.keys (s.tables p)) (start (s.tables p))) (D.keys (s.tables p))
                s low))
      ]
    where
      low : Low (suc n) (D.keys (s.tables p)) s
      low k here (i, there, free) = let l = few k i there in rw there (omega arith)

  -- What an elimination comes to: it ends, and has removed nothing, or one entry.
  abbrev pub IsRemoved : State D.Table → Option (State D.Table × Bool) → Type 0
  IsRemoved s o =
      (s' : State D.Table) × (removed : Bool) × (o ≡ some (s', removed))
      × IsEliminated D p s (some (s', removed))

  Ended-IsRemoved :
      (s : State D.Table) (o : Option (State D.Table × Bool))
      → Ended o
      → IsEliminated D p s o
      → IsRemoved s o
  Ended-IsRemoved s none h e = absurd h
  Ended-IsRemoved s (some (s', removed)) h e = (s', removed, refl, e)

  -- With more fuel than any count of use in the partition, an elimination ends. It removes at most one
  -- entry, of the partition that it is called on, whose lock nobody declares, waits for or holds, and
  -- lowers the count of the partition by one; of every other entry it keeps the inode number and the
  -- lock. It removes none only if the count is at or below the threshold or every entry of the
  -- partition is in use.
  pub eliminate-IsRemoved :
      (start : D.Table → ℕ) (n : ℕ) (s : State D.Table)
      → ((k : Key) (i : Item) → entry D s p k ≡ some i → i.usage_count ≤ n)
      → IsRemoved s (eliminate D start (suc n) p s)
  eliminate-IsRemoved start n s few =
      Ended-IsRemoved s (eliminate D start (suc n) p s) (eliminate-Ended start n s few)
        (eliminate-IsEliminated D start (suc n) p s)
