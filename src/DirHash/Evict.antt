-- ===== src/DirHash/Evict.antt =====
-- FindNextItem and EliminateDirPathHashByLRU.
pub mod Laws
pub mod Safety
pub mod Spent
pub mod Ends
use cuckoofs.Base.{
  ℕ, zero, suc, ◌+◌, ◌-◌, ◌/◌, ◌^◌, Bool, true, false, not, ◌||◌, Option, none, some, ◌==◌, leb,
  if◌then◌else◌, List, [], ◌∷◌, u32,
}
use cuckoofs.Base.Sums.{update}
use cuckoofs.RwLock.{check_destroyable}
use cuckoofs.DirHash.{Key, Item, partition_size, lru_clear_begin}
use cuckoofs.DirHash.Table.{Dynahash}
use cuckoofs.DirHash.Cache.{State, write_in}

abbrev pub drop : List Key → ℕ → List Key
drop ks zero = ks
drop [] (suc n) = []
drop (k ∷ ks) (suc n) = drop ks n

-- What a scan comes to: the key that it chose, and the number of entries met that can be destroyed.
pub record Scanned : Type 0 where
  pub chosen : Option Key
  pub destroyable : ℕ

-- `entry->usageCount--`, and the test of the signed word against 0.
abbrev pub use_less : ℕ → ℕ
use_less n = u32 (n + 2 ^ 32 - 1)

abbrev pub is_spent : ℕ → Bool
is_spent n = n == 0 || leb (2 ^ 31) n

module _ (D : Dynahash) where
  -- One entry of a scan of partition `p`, and what follows it.
  unfoldable pub spend :
      Bool → Key → State D.Table → State D.Table × Scanned → State D.Table × Scanned
  spend true k spent rest = (spent, record { chosen = some k; destroyable = 1 })
  spend false k spent (s, r) = (s, record r { destroyable = suc r.destroyable })

  unfoldable pub visit_free :
      ℕ
      → Key
      → Item
      → Bool
      → (State D.Table → State D.Table × Scanned)
      → State D.Table
      → State D.Table × Scanned
  visit_free p k i false next s = next s
  visit_free p k i true next s =
      let spent = write_in D s p k (record i { usage_count = use_less i.usage_count }) in
      spend (is_spent (use_less i.usage_count)) k spent (next spent)

  unfoldable pub visit :
      ℕ
      → Key
      → Option Item
      → (State D.Table → State D.Table × Scanned)
      → State D.Table
      → State D.Table × Scanned
  visit p k none next s = next s
  visit p k (some i) next s = visit_free p k i (check_destroyable (s.locks.words i.lock)) next s

  -- FindNextItem over the keys that are left of the scan.
  unfoldable pub find_next_item : ℕ → List Key → State D.Table → State D.Table × Scanned
  find_next_item p [] s = (s, record { chosen = none; destroyable = 0 })
  find_next_item p (k ∷ ks) s = visit p k (D.find (s.tables p) k) (find_next_item p ks) s

  -- The inner loop of EliminateDirPathHashByLRU, on fuel: scans of the whole partition until one
  -- chooses an entry or meets none that can be destroyed.
  unfoldable pub pick :
      Option Key
      → Bool
      → State D.Table
      → Option (State D.Table × Option Key)
      → Option (State D.Table × Option Key)
  pick (some k) none_free s again = some (s, some k)
  pick none true s again = some (s, none)
  pick none false s again = again

  unfoldable pub scan_again : ℕ → ℕ → List Key → State D.Table → Option (State D.Table × Option Key)
  scan_again zero p ks s = none
  scan_again (suc n) p ks s =
      let (s', r) = find_next_item p ks s in
      pick r.chosen (r.destroyable == 0) s' (scan_again n p ks s')

  unfoldable pub remove_entry : ℕ → Key → State D.Table → State D.Table
  remove_entry p k s = record s {
    tables = update s.tables p (D.remove (s.tables p) k);
    counts = update s.counts p (u32 (s.counts p + 2 ^ 32 - 1));
  }

  -- The first scan starts at a random place; where it chooses nothing, the whole is scanned.
  unfoldable pub choose :
      ℕ → ℕ → List Key → State D.Table × Scanned → Option (State D.Table × Option Key)
  choose fuel p ks (s, r) = pick r.chosen false s (scan_again fuel p ks s)

  unfoldable pub remove_chosen :
      ℕ → Option (State D.Table × Option Key) → Option (State D.Table × Bool)
  remove_chosen p none = none
  remove_chosen p (some (s, none)) = some (s, false)
  remove_chosen p (some (s, some k)) = some (remove_entry p k s, true)

  -- EliminateDirPathHashByLRU on partition `p`, with what rand gives as the start of the first scan;
  -- nothing comes between the scan and the removal, so the entry is still there and can be destroyed.
  unfoldable pub eliminate : (D.Table → ℕ) → ℕ → ℕ → State D.Table → Option (State D.Table × Bool)
  eliminate start fuel p s =
      if leb (s.counts p) (lru_clear_begin / partition_size)
      then some (s, false)
      else remove_chosen p (
          choose fuel p (D.keys (s.tables p))
            (find_next_item p (drop (D.keys (s.tables p)) (start (s.tables p))) s))
