-- ===== src/Meta/Update.antt =====
-- SearchAndUpdateInodeTableInfo and InsertIntoInodeTable.
use cuckoofs.Base.{
  ℕ, ◌-◌, ◌^◌, ◌==◌, Bool, true, false, Option, none, some, if◌then◌else◌, List, bit_and, bit_or,
  add64, ◌||◌, ◌&&◌, not,
}
use cuckoofs.Path.Tree.{Name}
use cuckoofs.Meta.{Inode}
use cuckoofs.Meta.Tables.{InodeTables}

-- The pointers by which SearchAndUpdateInodeTableInfo is told what to write, `none` being NULL:
-- `version` and `nlink` say that `updateVersion` and `nlink` are given, the latter with
-- `nlinkChangeNum` as a word of 64 bits.
pub record Change : Type 0 where
  pub new_size : Option ℕ
  pub version : Bool
  pub nlink : Option ℕ
  pub new_exec_mode : Option ℕ
  pub new_uid : Option ℕ
  pub new_gid : Option ℕ
  pub new_etag : Option (List ℕ)
  pub new_atime : Option ℕ
  pub new_mtime : Option ℕ
  pub new_primary_node_id : Option ℕ

abbrev pub no_change : Change
no_change = record {
  new_size = none;
  version = false;
  nlink = none;
  new_exec_mode = none;
  new_uid = none;
  new_gid = none;
  new_etag = none;
  new_atime = none;
  new_mtime = none;
  new_primary_node_id = none;
}

abbrev pub written : {A : Type 0} → Option A → A → A
written none old = old
written (some new) old = new

abbrev pub given : {A : Type 0} → Option A → Bool
given none = false
given (some a) = true

-- `~0x1FFu` on 32 bits.
abbrev pub not_exec_mask : ℕ
not_exec_mask = 2 ^ 32 - 1 - 511

-- The new number of links, unless it is 0.
abbrev pub new_nlink : Option ℕ → ℕ → ℕ
new_nlink none old = old
new_nlink (some change) old = if add64 old change == 0 then old else add64 old change

abbrev pub new_mode : Option ℕ → ℕ → ℕ
new_mode none old = old
new_mode (some exec) old = bit_or (bit_and old not_exec_mask) exec

abbrev pub drops : Option ℕ → ℕ → Bool
drops none old = false
drops (some change) old = add64 old change == 0

-- heap_modify_tuple with the columns that are to be written.
unfoldable pub modified : Change → Inode → Inode
modified c r = record r {
  st_size = written c.new_size r.st_size;
  update_version = if c.version then add64 r.update_version 1 else r.update_version;
  st_nlink = new_nlink c.nlink r.st_nlink;
  st_mode = new_mode c.new_exec_mode r.st_mode;
  st_uid = written c.new_uid r.st_uid;
  st_gid = written c.new_gid r.st_gid;
  etag = written c.new_etag r.etag;
  st_atim = written c.new_atime r.st_atim;
  st_mtim = written c.new_mtime r.st_mtim;
  primary_nodeid = written c.new_primary_node_id r.primary_nodeid;
}

-- needCatalogTupleUpdate
unfoldable pub needs_update : Change → Inode → Bool
needs_update c r =
    given c.new_size
    || (c.version
        || ((given c.nlink && not (drops c.nlink r.st_nlink))
            || (given c.new_uid
                || (given c.new_gid
                    || (given c.new_exec_mode
                        || (given c.new_etag
                            || (given c.new_atime
                                || (given c.new_mtime || given c.new_primary_node_id))))))))

module _ (I : InodeTables) where
  -- The row at hand, deleted when its last link goes, and then written if a column is to be.
  unfoldable pub delete_or_keep : ℕ → Inode → Bool → I.Tables → I.Tables
  delete_or_keep s r true t = I.remove t s r.parentid_partid r.name
  delete_or_keep s r false t = t

  unfoldable pub update_or_keep : ℕ → Inode → Bool → I.Tables → I.Tables
  update_or_keep s r true t = I.replace t s r
  update_or_keep s r false t = t

  unfoldable pub update_row : ℕ → Bool → Change → Inode → I.Tables → I.Tables
  unfolding delete_or_keep update_or_keep
  update_row s false c r t = t
  update_row s true c r t =
      update_or_keep s (modified c r) (needs_update c r)
        (delete_or_keep s r (drops c.nlink r.st_nlink) t)

  unfoldable pub updated_at : ℕ → Bool → Change → I.Tables → Option Inode → I.Tables × Option Inode
  updated_at s do_update c t none = (t, none)
  updated_at s do_update c t (some r) = (update_row s do_update c r t, some r)

  -- SearchAndUpdateInodeTableInfo: the tables, and the row as it was, which its pointers are filled from;
  -- `none` is its result false.
  unfoldable pub search_and_update :
      ℕ → ℕ → Name → Bool → Change → I.Tables → I.Tables × Option Inode
  unfolding updated_at
  search_and_update s k n do_update c t = updated_at s do_update c t (I.find t s k n)
