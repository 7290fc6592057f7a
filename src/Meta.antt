-- ===== src/Meta.antt =====
-- cuckoo/metadb/meta_handle.c and cuckoo/include/metadb/inode_table.h: the operations on files and
-- directories, over the rows of the inode tables.
-- The tables and their unique indexes are PostgreSQL's (`Tables.InodeTables`); all columns of a row are
-- words of their width, a name is its bytes without the NUL.
pub mod Ids
pub mod Rows
pub mod ReadDir
pub mod Resume
pub mod Pages
pub mod Paging
pub mod Tables
pub mod Update
pub mod Create
pub mod Groups
pub mod Effects
pub mod Created
pub mod Handlers
pub mod Attributes
pub mod Sub
pub mod Moves
pub mod Removed
pub mod Listing
pub mod RowOps
pub mod Batch
pub mod Unlinked
pub mod OneByOne
pub mod Plain
mod Tests
mod HandlerTests
use cuckoofs.Base.{
  ℕ, zero, suc, ◌+◌, ◌-◌, ◌*◌, ◌%◌, ◌^◌, bit_and, bit_or, ltb, if◌then◌else◌, List, [], ◌∷◌, u64,
  ◌<<<◌,
}
use cuckoofs.Path.Tree.{Name}

abbrev pub filename_length : ℕ
filename_length = 256

-- PART_ID_MASK and PART_ID_BIT_COUNT
abbrev pub part_id_mask : ℕ
part_id_mask = 8191

abbrev pub part_id_bit_count : ℕ
part_id_bit_count = 13

-- FormData_dfs_inode_table
pub record Inode : Type 0 where
  pub name : Name
  pub st_ino : ℕ
  pub parentid_partid : ℕ
  pub st_dev : ℕ
  pub st_mode : ℕ
  pub st_nlink : ℕ
  pub st_uid : ℕ
  pub st_gid : ℕ
  pub st_rdev : ℕ
  pub st_size : ℕ
  pub st_blksize : ℕ
  pub st_blocks : ℕ
  pub st_atim : ℕ
  pub st_mtim : ℕ
  pub st_ctim : ℕ
  pub etag : List ℕ
  pub update_version : ℕ
  pub primary_nodeid : ℕ
  pub backup_nodeid : ℕ

-- A `char` that is signed, as the uint16_t that the sum of HashPartId takes.
abbrev char_value : ℕ → ℕ
char_value c = if ltb c 128 then c else 2 ^ 16 - 256 + c

-- The loop of HashPartId over the bytes that strnlen counts.
unfoldable pub hash_loop : ℕ → ℕ → Name → ℕ
hash_loop zero h cs = h
hash_loop (suc left) h [] = h
hash_loop (suc left) h (c ∷ cs) = hash_loop left ((h * 31 + char_value c) % 2 ^ 16) cs

unfoldable pub hash_part_id : Name → ℕ
unfolding hash_loop
hash_part_id name = bit_and (hash_loop filename_length 0 name) part_id_mask

-- CombineParentIdWithPartId
unfoldable pub combine : ℕ → ℕ → ℕ
combine parent_id part_id = bit_or (u64 (parent_id <<< part_id_bit_count)) part_id
