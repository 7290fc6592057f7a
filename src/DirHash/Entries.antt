-- ===== src/DirHash/Entries.antt =====
-- A hash table as a list of entries: it has the laws that the cache relies on. With it, a cache that is
-- empty.
use cuckoofs.Base.{
  ℕ, ◌+◌, true, false, Option, none, some, ltb, if◌then◌else◌, List, [], ◌∷◌, length, ◌≡◌, ◌≢◌,
  refl, ap, sym, ◌∙◌, inl, inr, Bool-cases,
}
use cuckoofs.RwLock.Ops.{Ctx}
use cuckoofs.DirHash.{Key, Item, same_key, path_not_exist}
use cuckoofs.DirHash.Keys.{same_key_refl, same_key→≡}
use cuckoofs.DirHash.Table.{Dynahash, listed}
use cuckoofs.DirHash.Cache.{State}
use cuckoofs.DirHash.Coherence.{Inv, replay}

-- A table as its entries, with room for two.
abbrev pub Entries : Type 0
Entries = List (Key × Item)

unfoldable pub find_entry : Entries → Key → Option Item
find_entry [] k = none
find_entry ((l, i) ∷ t) k = if same_key k l then some i else find_entry t k

unfoldable pub remove_key : Entries → Key → Entries
remove_key [] k = []
remove_key ((l, i) ∷ t) k =
    let rest = remove_key t k in if same_key k l then rest else (l, i) ∷ rest

unfoldable pub all_keys : Entries → List Key
all_keys [] = []
all_keys ((l, i) ∷ t) = l ∷ all_keys t

pub find_entry-remove_self : (t : Entries) (k : Key) → find_entry (remove_key t k) k ≡ none
unfolding find_entry remove_key
find_entry-remove_self [] k = refl
find_entry-remove_self ((l, i) ∷ t) k = elim (Bool-cases (same_key k l)) [
  | inl same ↦ rw same (find_entry-remove_self t k)
  | inr other ↦ rw other (rw other (find_entry-remove_self t k))
]

pub find_entry-remove_ne :
    (t : Entries) (k l : Key) → l ≢ k → find_entry (remove_key t k) l ≡ find_entry t l
unfolding find_entry remove_key
find_entry-remove_ne [] k l apart = refl
find_entry-remove_ne ((j, i) ∷ t) k l apart = elim (Bool-cases (same_key k j)) [
  | inl same ↦ elim (Bool-cases (same_key l j)) [
    | inl also ↦ absurd (apart (same_key→≡ l j also ∙ sym (same_key→≡ k j same)))
    | inr other ↦ rw (same, other) (find_entry-remove_ne t k l apart)
  ]
  | inr other ↦ rw other (
      ap (λ (o : Option Item). if same_key l j then some i else o)
        (find_entry-remove_ne t k l apart))
]

pub find_entry-put_self :
    (t : Entries) (k : Key) (i : Item) → find_entry ((k, i) ∷ remove_key t k) k ≡ some i
unfolding find_entry
find_entry-put_self t k i = rw (same_key_refl k) refl

pub find_entry-put_ne :
    (t : Entries) (k l : Key) (i : Item)
    → l ≢ k
    → find_entry ((k, i) ∷ remove_key t k) l ≡ find_entry t l
unfolding find_entry
find_entry-put_ne t k l i apart = elim (Bool-cases (same_key l k)) [
  | inl same ↦ absurd (apart (same_key→≡ l k same))
  | inr other ↦ rw other (find_entry-remove_ne t k l apart)
]

later :
    (l k : Key) (i j : Item) (t : Entries)
    → same_key k l ≡ false
    → find_entry ((l, j) ∷ t) k ≡ some i
    → find_entry t k ≡ some i
unfolding find_entry
later l k i j t other there = let e = rw other at there in e

pub all_keys-find_entry :
    (t : Entries) (k : Key) (i : Item) → find_entry t k ≡ some i → listed (all_keys t) k ≡ true
unfolding find_entry all_keys
all_keys-find_entry [] k i there = absurd cc
all_keys-find_entry ((l, j) ∷ t) k i there = elim (Bool-cases (same_key k l)) [
  | inl same ↦ rw (sym (same_key→≡ k l same), same_key_refl k) refl
  | inr other ↦ elim (Bool-cases (same_key l k)) [
    | inl back ↦ rw back refl
    | inr apart ↦ rw apart (all_keys-find_entry t k i (later l k i j t other there))
  ]
]

pub find_entry-clear : (k : Key) → find_entry [] k ≡ none
unfolding find_entry
find_entry-clear k = refl

abbrev pub two_entries : Dynahash
two_entries = record {
  Table = Entries;
  find = find_entry;
  has_room = λ t. ltb (length t) 2;
  stale = λ t k. record { inode_id = 0; lock = 100 + k.parent_id; usage_count = 0 };
  put = λ t k i. (k, i) ∷ remove_key t k;
  remove = remove_key;
  keys = all_keys;
  clear = λ t. [];
  find-put_self = find_entry-put_self;
  find-put_ne = λ t k l i apart. find_entry-put_ne t k l i apart;
  find-remove_self = find_entry-remove_self;
  find-remove_ne = λ t k l apart. find_entry-remove_ne t k l apart;
  keys-find = all_keys-find_entry;
  find-clear = λ t k. find_entry-clear k;
}

-- Directory 5 holds "a", whose number is 9, and nothing else.
abbrev pub dir_a : Key
dir_a = record { parent_id = 5; name = 97 ∷ [] }

abbrev pub dir_b : Key
dir_b = record { parent_id = 5; name = 98 ∷ [] }

abbrev pub some_rows : Key → ℕ
some_rows k = if same_key k dir_a then 9 else path_not_exist

abbrev pub key_hash : Key → ℕ
key_hash k = k.parent_id

abbrev no_locks : Ctx
no_locks = record { words = λ l. 0; held = []; holdoff = 0 }

abbrev pub empty_cache : State Entries
empty_cache = record {
  tables = λ p. [];
  counts = λ p. 0;
  locks = no_locks;
  last_acquired = none;
  log = [];
  rows = some_rows;
}

pub empty_cache-Inv : Inv two_entries key_hash some_rows empty_cache
unfolding find_entry replay
empty_cache-Inv = record { cached = λ k i there. absurd cc; pending = λ k. refl }
