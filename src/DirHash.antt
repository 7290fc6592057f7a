-- ===== src/DirHash.antt =====
-- cuckoo/dir_path_shmem/dir_path_hash.c and its header: the cache of directories in shared memory, 128
-- partitions by the hash of a parent's number and a name, in front of the directory table.
-- The hash tables are PostgreSQL's (`Dynahash`), and so are the hash function and the rows of the
-- directory table. The operations are those of one backend while no other is at work.
pub mod Keys
pub mod Table
pub mod Cache
pub mod Evict
pub mod Ops
pub mod Coherence
pub mod Entries
mod Tests
use cuckoofs.Base.{
  ℕ, zero, suc, ◌+◌, ◌-◌, ◌*◌, ◌/◌, ◌%◌, ◌^◌, Bool, true, false, ◌||◌, ◌&&◌, not, Option, none,
  some, ◌==◌, ltb, leb, if◌then◌else◌, List, [], ◌∷◌, ◌++◌, length, ◌≡◌, ◌≢◌, u32,
}
use cuckoofs.Base.Sums.{update}

abbrev pub max_to_commit : ℕ
max_to_commit = 4096

-- DIR_HASH_TABLE_PATH_NOT_EXIST and DIR_HASH_TABLE_PATH_UNKNOWN, as uint64_t.
abbrev pub path_not_exist : ℕ
path_not_exist = 2 ^ 64 - 1

abbrev pub path_unknown : ℕ
path_unknown = 2 ^ 64 - 2

abbrev pub partition_size : ℕ
partition_size = 128

abbrev pub max_capacity : ℕ
max_capacity = 2048

abbrev pub lru_clear_begin : ℕ
lru_clear_begin = max_capacity / 4 * 3

-- DirPathHashKey; a name is its bytes without the NUL.
pub record Key : Type 0 where
  pub parent_id : ℕ
  pub name : List ℕ

-- DirPathHashItem without its key; `lock` is the address of its lock word, and `usage_count`, an int32_t,
-- is the word of 32 bits that it stands in, with the wrap of -fwrapv.
pub record Item : Type 0 where
  pub inode_id : ℕ
  pub lock : ℕ
  pub usage_count : ℕ

pub data DirLock : Type 0 where
  exclusive shared none_mode : DirLock

abbrev pub is_none : DirLock → Bool
is_none none_mode = true
is_none _ = false

-- The result 0 of strcmp, and of dir_path_compare.
unfoldable pub same_name : List ℕ → List ℕ → Bool
same_name [] [] = true
same_name [] (y ∷ ys) = false
same_name (x ∷ xs) [] = false
same_name (x ∷ xs) (y ∷ ys) = x == y && same_name xs ys

unfoldable pub same_key : Key → Key → Bool
same_key k l = k.parent_id == l.parent_id && same_name k.name l.name

-- The entries of DirPathHashToCommitAction and DirPathHashToCommitActionInfo.
pub data Action : Type 0 where
  added : Key → Action
  updated : Key → ℕ → Action

-- A map from keys to inode numbers, such as the directory table.
abbrev pub set_key : (Key → ℕ) → Key → ℕ → Key → ℕ
set_key f k v j = if same_key j k then v else f j
