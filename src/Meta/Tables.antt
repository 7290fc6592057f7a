-- ===== src/Meta/Tables.antt =====
-- The inode tables of the shards of this server with their unique indexes, as a transaction sees them:
-- what PostgreSQL promises of them.
use cuckoofs.Base.{ℕ, ◌==◌, Bool, ◌&&◌, Option, none, some, if◌then◌else◌, ◌≡◌}
use cuckoofs.DirHash.{same_name}
use cuckoofs.Path.Tree.{Name}
use cuckoofs.Meta.{Inode}

-- Two places of rows: shard, number and name.
abbrev pub same_row : ℕ → ℕ → Name → ℕ → ℕ → Name → Bool
same_row s k n s' k' n' = s == s' && (k == k' && same_name n n')

pub record InodeTables : Type 1 where
  pub Tables : Type 0
  pub find : Tables → ℕ → ℕ → Name → Option Inode
  -- CatalogTupleInsert, `none` being the error of the unique index; CatalogTupleUpdate; and
  -- CatalogTupleDelete
  pub insert : Tables → ℕ → Inode → Option Tables
  pub replace : Tables → ℕ → Inode → Tables
  pub remove : Tables → ℕ → ℕ → Name → Tables
  pub insert-taken :
      (t : Tables) (s : ℕ) (r q : Inode)
      → find t s r.parentid_partid r.name ≡ some q
      → insert t s r ≡ none
  pub insert-free :
      (t : Tables) (s : ℕ) (r : Inode)
      → find t s r.parentid_partid r.name ≡ none
      → (t' : Tables) × (insert t s r ≡ some t')
  pub find-insert :
      (t t' : Tables) (s : ℕ) (r : Inode)
      → insert t s r ≡ some t'
      → (s' k' : ℕ) (n' : Name)
      → find t' s' k' n'
        ≡ (if same_row s r.parentid_partid r.name s' k' n' then some r else find t s' k' n')
  pub find-replace :
      (t : Tables) (s : ℕ) (r q : Inode)
      → find t s r.parentid_partid r.name ≡ some q
      → (s' k' : ℕ) (n' : Name)
      → find (replace t s r) s' k' n'
        ≡ (if same_row s r.parentid_partid r.name s' k' n' then some r else find t s' k' n')
  pub find-remove :
      (t : Tables) (s k : ℕ) (n : Name) (s' k' : ℕ) (n' : Name)
      → find (remove t s k n) s' k' n' ≡ (if same_row s k n s' k' n' then none else find t s' k' n')
  -- a row stands under its own number and name
  pub find-own :
      (t : Tables) (s k : ℕ) (n : Name) (r : Inode)
      → find t s k n ≡ some r
      → (r.parentid_partid ≡ k) × (r.name ≡ n)
