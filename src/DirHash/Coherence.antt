-- ===== src/DirHash/Coherence.antt =====
-- The cache against the directory table: what is committed, what is pending in the log, and how single
-- changes of the cache keep them in step.
pub mod Enter
pub mod Calls
pub mod Changes
pub mod Steps
pub mod Answers
pub mod Deleted
use cuckoofs.Base.{
  ℕ, zero, suc, ◌+◌, ◌%◌, ◌^◌, Bool, true, false, Option, none, some, ◌==◌, if◌then◌else◌, List, [],
  ◌∷◌, ◌++◌, ◌≡◌, ◌≢◌, refl, ap, sym, ◌∙◌, ◌⊎◌, inl, inr, eq_of_some,
}
use cuckoofs.Base.Sums.{update}
use mathlib.Core.Path.{subst}
use cuckoofs.DirHash.{Key, Item, Action, added, updated, set_key, same_key, path_unknown}
use cuckoofs.DirHash.Keys.{Key-cases, set_key_self, set_key_other}
use cuckoofs.DirHash.Table.{Dynahash}
use cuckoofs.DirHash.Cache.{State, partition, lookup, write, write_in, new_entry}
use cuckoofs.DirHash.Evict.Laws.{
  core, core-some, entry, Frame, entry-write_self, entry-write_ne, place-cases,
}
use cuckoofs.DirHash.Evict.Safety.{IsRemoval}

-- The rows that a log makes of those that it starts from.
unfoldable pub replay : List Action → (Key → ℕ) → Key → ℕ
replay [] rows = rows
replay (added k ∷ rest) rows = replay rest rows
replay (updated k v ∷ rest) rows = replay rest (set_key rows k v)

pub replay-added :
    (log : List Action) (rows : Key → ℕ) (k j : Key)
    → replay (log ++ (added k ∷ [])) rows j ≡ replay log rows j
unfolding replay
replay-added [] rows k j = refl
replay-added (added l ∷ log) rows k j = replay-added log rows k j
replay-added (updated l v ∷ log) rows k j = replay-added log (set_key rows l v) k j

pub replay-updated :
    (log : List Action) (rows : Key → ℕ) (k : Key) (v : ℕ) (j : Key)
    → replay (log ++ (updated k v ∷ [])) rows j ≡ set_key (replay log rows) k v j
unfolding replay
replay-updated [] rows k v j = refl
replay-updated (added l ∷ log) rows k v j = replay-updated log rows k v j
replay-updated (updated l w ∷ log) rows k v j = replay-updated log (set_key rows l w) k v j

module _ (D : Dynahash) (hash : Key → ℕ) where
  -- An entry holds what is committed, or says that it does not know.
  abbrev pub Cached : (Key → ℕ) → State D.Table → Type 0
  Cached rows s =
      (k : Key) (i : Item)
      → lookup D hash s k ≡ some i
      → (i.inode_id ≡ path_unknown) ⊎ (i.inode_id ≡ rows k)

  -- The invariant of a transaction: its own changes stand in its log.
  pub record Inv (committed : Key → ℕ) (s : State D.Table) : Type 0 where
    pub cached : Cached committed s
    pub pending : (k : Key) → s.rows k ≡ replay s.log committed k

  pub Cached-Frame :
      (rows : Key → ℕ) (s s' : State D.Table) → Frame D s s' → Cached rows s → Cached rows s'
  Cached-Frame rows s s' f h k i there =
      let (j, here, inode, lock) =
        core-some (lookup D hash s k) i.inode_id i.lock
          (sym (f.cores (partition D hash k) k) ∙ ap core there) in
      subst (λ n. (n ≡ path_unknown) ⊎ (n ≡ rows k)) inode (h k j here)

  pub Cached-IsRemoval :
      (rows : Key → ℕ) (p : ℕ) (k : Key) (s s' : State D.Table)
      → IsRemoval D p k s s'
      → Cached rows s
      → Cached rows s'
  Cached-IsRemoval rows p k s s' r h l i there = elim (place-cases D p k (partition D hash l) l) [
    | inl (here, same) ↦
        let gone : D.find (s'.tables (partition D hash l)) l ≡ none = rw (here, same) r.gone in
        let e = sym there ∙ gone in absurd cc
    | inr other ↦
        let (j, here, inode, lock) =
          core-some (lookup D hash s l) i.inode_id i.lock
            (sym (r.others (partition D hash l) l other) ∙ ap core there) in
        subst (λ n. (n ≡ path_unknown) ⊎ (n ≡ rows l)) inode (h l j here)
  ]

  -- A write of an entry that is right for its key.
  pub Cached-write :
      (rows rows' : Key → ℕ) (s : State D.Table) (k : Key) (new : Item)
      → ((l : Key) → l ≢ k → rows' l ≡ rows l)
      → (new.inode_id ≡ path_unknown) ⊎ (new.inode_id ≡ rows' k)
      → Cached rows s
      → Cached rows' (write D hash s k new)
  Cached-write rows rows' s k new others right h l i there = elim (Key-cases l k) [
    | inl same ↦
        let here = rw same at there in
        let it = eq_of_some new i (sym (entry-write_self D s (partition D hash k) k new) ∙ here) in
        rw same
          (subst (λ (n : Item). (n.inode_id ≡ path_unknown) ⊎ (n.inode_id ≡ rows' k)) it right)
    | inr (other, apart) ↦
        let before =
          sym (entry-write_ne D s (partition D hash k) k new (partition D hash l) l (inr apart))
          ∙ there in
        rw (others l apart) (h l i before)
  ]

  pub lookup-write :
      (s : State D.Table) (k : Key) (i : Item) → lookup D hash (write D hash s k i) k ≡ some i
  lookup-write s k i = entry-write_self D s (partition D hash k) k i

  -- A cache with rows that agree at each key.
  pub Cached-rows :
      (rows rows' : Key → ℕ) (s : State D.Table)
      → ((k : Key) → rows' k ≡ rows k)
      → Cached rows s
      → Cached rows' s
  Cached-rows rows rows' s same h k i there = rw (same k) (h k i there)

  pub Cached-new_entry :
      (rows : Key → ℕ) (s : State D.Table) (k : Key) (v : ℕ)
      → (v ≡ path_unknown) ⊎ (v ≡ rows k)
      → Cached rows s
      → Cached rows (new_entry D hash v k s)
  Cached-new_entry rows s k v right h =
      Cached-write rows rows s k
        (record {
          inode_id = v;
          lock = (D.stale (s.tables (partition D hash k)) k).lock;
          usage_count = 0;
        })
        (λ l apart. refl) right h
