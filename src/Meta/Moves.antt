-- ===== src/Meta/Moves.antt =====
-- What renaming a row comes to, on a server that does its part of it.
use cuckoofs.Base.{
  ℕ, Bool, Option, none, some, if◌then◌else◌, List, ◌≡◌, ◌≢◌, refl, ap, ◌∙◌, ==_of_ne, ==_refl,
}
use cuckoofs.Errors.{ErrorCode}
use cuckoofs.DirHash.{Key}
use cuckoofs.DirHash.Table.{Dynahash}
use cuckoofs.DirHash.Cache.{State, Outcome, done, failed, raised, duplicate_row, ◌>>=◌}
use cuckoofs.Path.Tree.{Name}
use cuckoofs.Shard.{Shard, row}
use cuckoofs.Meta.{Inode}
use cuckoofs.Meta.Tables.{InodeTables, same_row}
use cuckoofs.Meta.Handlers.{local_shard, search_shard, locate}
use cuckoofs.Meta.Sub.{RenameInfo, with_row, move_to, move_found, rename_row}

-- The server has the shard of a number.
abbrev pub IsLocal : (ℕ → ℕ) → ℕ → List Shard → ℕ → ℕ → Type 0
IsLocal hash_bytes local_server_id shards k shard =
    (s : Shard) × (search_shard hash_bytes local_server_id shards k ≡ row s)
    × (s.server_id ≡ local_server_id)
    × (s.range_point ≡ shard)

pub locate-IsLocal :
    {T : Type 0} (hash_bytes : ℕ → ℕ) (local_server_id : ℕ) (shards : List Shard) (e : ErrorCode)
    (k shard : ℕ) (s : State T)
    → IsLocal hash_bytes local_server_id shards k shard
    → locate hash_bytes local_server_id shards e k s ≡ done s shard
unfolding local_shard
locate-IsLocal hash_bytes local_server_id shards e k shard s (at, found, own, point) =
    rw (found, own, ==_refl local_server_id, point) refl

module _ (D : Dynahash) (hash : Key → ℕ) (start : D.Table → ℕ) (fuel tries patience : ℕ)
    (hash_bytes : ℕ → ℕ) (local_server_id : ℕ) (shards : List Shard) (I : InodeTables) where
  -- The row under its new number and name.
  abbrev pub moved_row : RenameInfo → Inode → Inode
  moved_row m r = record r { parentid_partid = m.dst_parentid_partid; name = m.dst_name }

  module _ (m : RenameInfo) (s : State D.Table) (t : I.Tables) (a b : ℕ)
      (src_own : IsLocal hash_bytes local_server_id shards m.parentid_partid a)
      (dst_own : IsLocal hash_bytes local_server_id shards m.dst_parentid_partid b)
      (src_set : m.parentid_partid ≢ 0) (dst_set : m.dst_parentid_partid ≢ 0) where
    abbrev rename : Outcome D.Table (I.Tables × Option Inode)
    rename = rename_row D hash start fuel tries patience hash_bytes local_server_id shards I m s t

    -- The two places of the rename are one.
    abbrev pub is_self : Bool
    is_self = same_row a m.parentid_partid m.name b m.dst_parentid_partid m.dst_name

    abbrev without : I.Tables
    without = I.remove t a m.parentid_partid m.name

    abbrev insertion : Inode → Option I.Tables
    insertion r = I.insert without b (moved_row m r)

    to_source :
        rename
        ≡ move_found D hash start fuel tries patience hash_bytes local_server_id shards I m s t a
            (I.find t a m.parentid_partid m.name)
    unfolding rename_row
    to_source =
        rw
          (
            ==_of_ne m.parentid_partid 0 src_set,
            locate-IsLocal hash_bytes local_server_id shards ErrorCode.wrong_worker
                m.parentid_partid a s src_own,
          )
          refl

    to_target :
        (r : Inode)
        → move_to D hash start fuel tries patience hash_bytes local_server_id shards I m s without r
          ≡ with_row D hash start fuel tries patience hash_bytes local_server_id shards I s r
              (insertion r)
    unfolding move_to
    to_target r =
        rw
          (
            ==_of_ne m.dst_parentid_partid 0 dst_set,
            locate-IsLocal hash_bytes local_server_id shards ErrorCode.wrong_worker
                m.dst_parentid_partid b s dst_own,
          )
          refl

    to_insertion :
        (r : Inode) (o : Option I.Tables)
        → I.find t a m.parentid_partid m.name ≡ some r
        → insertion r ≡ o
        → rename ≡ (
            with_row D hash start fuel tries patience hash_bytes local_server_id shards I s r o
            >>= λ s' moved. done s' (moved.0, some moved.1))
    unfolding move_found
    to_insertion r o at inserts = to_source ∙ rw (at, to_target r, inserts) refl

    at_target :
        I.find without b m.dst_parentid_partid m.dst_name
        ≡ (if is_self then none else I.find t b m.dst_parentid_partid m.dst_name)
    at_target = I.find-remove t a m.parentid_partid m.name b m.dst_parentid_partid m.dst_name

    -- What stands in the way at the target.
    abbrev pub in_the_way : Option Inode
    in_the_way = if is_self then none else I.find t b m.dst_parentid_partid m.dst_name

    -- What the rename comes to, by the row at the source and what is in the way.
    abbrev pub IsRenamed : Option Inode → Option Inode → Type 0
    IsRenamed none way = rename ≡ failed s (raised ErrorCode.file_not_exists)
    IsRenamed (some r) (some q) = rename ≡ failed s duplicate_row
    IsRenamed (some r) none =
        (t' : I.Tables) × (rename ≡ done s (t', some r))
        × ((s' k' : ℕ) (n' : Name)
            → I.find t' s' k' n' ≡ (
                if same_row b m.dst_parentid_partid m.dst_name s' k' n'
                then some (moved_row m r)
                else if same_row a m.parentid_partid m.name s' k' n'
                then none
                else I.find t s' k' n'))

    moved :
        (r : Inode)
        → I.find t a m.parentid_partid m.name ≡ some r
        → (t' : I.Tables) × (insertion r ≡ some t')
        → IsRenamed (some r) none
    unfolding with_row
    moved r at (t', inserts) = (
      t',
      to_insertion r (some t') at inserts,
      λ s' k' n'.
          I.find-insert without t' b (moved_row m r) inserts s' k' n'
          ∙ ap
              (λ (o : Option Inode).
                if same_row b m.dst_parentid_partid m.dst_name s' k' n'
                then some (moved_row m r)
                else o)
              (I.find-remove t a m.parentid_partid m.name s' k' n'),
    )

    rename-IsRenamed :
        (src way : Option Inode)
        → I.find t a m.parentid_partid m.name ≡ src
        → in_the_way ≡ way
        → IsRenamed src way
    unfolding move_found with_row
    rename-IsRenamed none way missing over = to_source ∙ rw missing refl
    rename-IsRenamed (some r) (some q) at taken =
        to_insertion r none at (I.insert-taken without b (moved_row m r) q (at_target ∙ taken))
    rename-IsRenamed (some r) none at free =
        moved r at (I.insert-free without b (moved_row m r) (at_target ∙ free))

    -- The part of a rename on a server that has both places, each with a number other than 0. Without a
    -- row at the source it ends with FILE_NOT_EXISTS, and with a row at another target with the error of
    -- the unique index. Else the row stands at the target under its new number and name, all else in it
    -- as it was, no row at the source unless that is the target, and every other row as before.
    pub rename_row-IsRenamed : IsRenamed (I.find t a m.parentid_partid m.name) in_the_way
    rename_row-IsRenamed =
        rename-IsRenamed (I.find t a m.parentid_partid m.name) in_the_way refl refl
