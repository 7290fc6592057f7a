-- ===== src/DirHash/Table.antt =====
-- What the cache uses of PostgreSQL's hash tables in shared memory (dynahash), as documented: a table
-- of items by key, that an entry may find full, with a sequential scan over all its keys.
use cuckoofs.Base.{Bool, Option, none, some, ◌≡◌, ◌≢◌, List, [], ◌∷◌, true, false, ◌||◌}
use cuckoofs.DirHash.{Key, Item, same_key}

abbrev pub listed : List Key → Key → Bool
listed [] k = false
listed (l ∷ ls) k = same_key l k || listed ls k

pub record Dynahash : Type 1 where
  pub Table : Type 0
  -- HASH_FIND
  pub find : Table → Key → Option Item
  -- whether HASH_ENTER_NULL of a new key gives an entry
  pub has_room : Table → Bool
  -- what stands in a new entry
  pub stale : Table → Key → Item
  -- HASH_ENTER_NULL with room, or a found entry, and a write through the pointer that it gives
  pub put : Table → Key → Item → Table
  -- HASH_REMOVE
  pub remove : Table → Key → Table
  -- hash_seq_search
  pub keys : Table → List Key
  -- hash_clear
  pub clear : Table → Table
  pub find-put_self : (t : Table) (k : Key) (i : Item) → find (put t k i) k ≡ some i
  pub find-put_ne : (t : Table) (k l : Key) (i : Item) → l ≢ k → find (put t k i) l ≡ find t l
  pub find-remove_self : (t : Table) (k : Key) → find (remove t k) k ≡ none
  pub find-remove_ne : (t : Table) (k l : Key) → l ≢ k → find (remove t k) l ≡ find t l
  pub keys-find : (t : Table) (k : Key) (i : Item) → find t k ≡ some i → listed (keys t) k ≡ true
  pub find-clear : (t : Table) (k : Key) → find (clear t) k ≡ none
