-- ===== src/Meta/ReadDir.antt =====
-- CuckooReadDirHandle behind the parsing of its path: the entries of a directory, page by page, over the
-- shards of this server.
use cuckoofs.Base.{
  ℕ, zero, suc, ◌+◌, ◌-◌, ◌^◌, ◌==◌, ltb, leb, Bool, ◌&&◌, Option, none, some, if◌then◌else◌, List,
  [], ◌∷◌, ◌++◌,
}
use cuckoofs.Path.Tree.{Name}
use cuckoofs.Shard.{Shard}
use cuckoofs.Meta.{Inode, part_id_mask, hash_part_id, combine}
use cuckoofs.Meta.Rows.{matching}

pub data StreamSearchState : Type 0 where
  same_id_greater_name greater_id new_shard : StreamSearchState

-- What the loop over the shards leaves: the rows of the result list, `readCount` and `shardIndex`.
pub record Reading : Type 0 where
  pub found : List Inode
  pub read_count : ℕ
  pub shard_index : ℕ

-- One row after the other, until the page is full.
unfoldable pub read_rows : ℕ → ℕ → List Inode → List Inode × ℕ
read_rows max count [] = ([], count)
read_rows max count (r ∷ rs) =
    let (more, total) = read_rows max (count + 1) rs in
    if leb max (count + 1) then (r ∷ [], count + 1) else (r ∷ more, total)

abbrev pub in_front : List Inode → Reading → Reading
in_front rows q = record q { found = rows ++ q.found }

-- The end of one round of the loop.
unfoldable pub next_round : ℕ → ℕ → List Inode × ℕ → (ℕ → Reading) → Reading
next_round max index (rows, count) next =
    if leb max count
    then record { found = rows; read_count = count; shard_index = index }
    else in_front rows (next count)

-- The scan keys, by the state.
unfoldable pub scan_key : (Name → Name → Bool) → ℕ → Name → StreamSearchState → Inode → Bool
scan_key before directory_id last same_id_greater_name r =
    (r.parentid_partid == combine directory_id (hash_part_id last)) && before last r.name
scan_key before directory_id last greater_id r =
    ltb (combine directory_id (hash_part_id last)) r.parentid_partid
    && leb r.parentid_partid (combine directory_id part_id_mask)
scan_key before directory_id last new_shard r =
    leb (combine directory_id 0) r.parentid_partid
    && leb r.parentid_partid (combine directory_id part_id_mask)

-- `rows` are the rows of each shard in the order of its index, as the snapshot shows them.
module _ (before : Name → Name → Bool) (rows : ℕ → List Inode) (local_server_id max : ℕ)
    (directory_id : ℕ) (last : Name) where
  unfoldable pub scan : StreamSearchState → Shard → List Inode
  scan state s = matching (scan_key before directory_id last state) (rows s.range_point)

  -- The loop from one shard on, in each of its states.
  unfoldable pub read_new : ℕ → ℕ → List Shard → Reading
  read_new index count [] = record { found = []; read_count = count; shard_index = index }
  read_new index count (s ∷ ss) =
      let skipped = read_new (index + 1) count ss in
      if s.server_id == local_server_id
      then next_round max index (read_rows max count (scan new_shard s))
          (λ (n : ℕ). read_new (index + 1) n ss)
      else skipped

  unfoldable pub read_greater : ℕ → ℕ → List Shard → Reading
  read_greater index count [] = record { found = []; read_count = count; shard_index = index }
  read_greater index count (s ∷ ss) =
      let skipped = read_greater (index + 1) count ss in
      if s.server_id == local_server_id
      then next_round max index (read_rows max count (scan greater_id s))
          (λ (n : ℕ). read_new (index + 1) n ss)
      else skipped

  unfoldable pub read_same : ℕ → ℕ → List Shard → Reading
  read_same index count [] = record { found = []; read_count = count; shard_index = index }
  read_same index count (s ∷ ss) =
      let skipped = read_same (index + 1) count ss in
      if s.server_id == local_server_id
      then next_round max index (read_rows max count (scan same_id_greater_name s))
          (λ (n : ℕ). read_greater index n (s ∷ ss))
      else skipped

-- readDirMaxReadCount, `none` being -1. Another negative number acts as 0.
abbrev pub read_limit : Option ℕ → ℕ
read_limit none = 2 ^ 31 - 1
read_limit (some n) = n

-- Where a reading goes on: readDirLastShardIndex and readDirLastFileName, `none` being -1.
abbrev pub Cursor : Type 0
Cursor = Option (ℕ × Name)

pub record DirPage : Type 0 where
  pub results : List Inode
  pub last : Cursor

unfoldable pub last_name : List Inode → Option Name
last_name [] = none
last_name (r ∷ []) = some r.name
last_name (r ∷ q ∷ rs) = last_name (q ∷ rs)

-- The end of the handler; `none` is the last cell of an empty list, which it would read.
unfoldable pub cut_page : List Inode → ℕ → Option Name → Option DirPage
cut_page results index none = none
cut_page results index (some name) = some (record { results = results; last = some (index, name) })

unfoldable pub page_of : ℕ → Reading → Option DirPage
page_of max q =
    if ltb q.read_count max
    then some (record { results = q.found; last = none })
    else cut_page q.found q.shard_index (last_name q.found)

-- `list_nth` from an index on
unfoldable pub shards_from : ℕ → List Shard → List Shard
shards_from zero ss = ss
shards_from (suc n) [] = []
shards_from (suc n) (s ∷ ss) = shards_from n ss

-- A page, and those that follow it.
unfoldable pub and_more : List Inode → Option (List Inode) → Option (List Inode)
and_more rows none = none
and_more rows (some more) = some (rows ++ more)

unfoldable pub after_page :
    List Inode → Cursor → (ℕ × Name → Option (List Inode)) → Option (List Inode)
unfolding and_more
after_page rows none next = some rows
after_page rows (some d) next = and_more rows (next d)

unfoldable pub next_page : Option DirPage → (ℕ × Name → Option (List Inode)) → Option (List Inode)
unfolding after_page
next_page none next = none
next_page (some p) next = after_page p.results p.last next

module _ (before : Name → Name → Bool) (rows : ℕ → List Inode) (local_server_id : ℕ)
    (shards : List Shard) where
  unfoldable pub read_dir : Option ℕ → ℕ → Cursor → Option DirPage
  read_dir limit directory_id none =
      page_of (read_limit limit)
        (read_new before rows local_server_id (read_limit limit) directory_id [] 0 0 shards)
  read_dir limit directory_id (some (index, name)) = page_of (read_limit limit) (
      read_same before rows local_server_id (read_limit limit) directory_id name index 0
        (shards_from index shards))

  -- A client that asks for page after page, on fuel.
  unfoldable pub read_all : ℕ → Option ℕ → ℕ → Cursor → Option (List Inode)
  unfolding next_page after_page
  read_all zero limit directory_id c = none
  read_all (suc fuel) limit directory_id c =
      next_page (read_dir limit directory_id c)
        (λ (d : ℕ × Name). read_all fuel limit directory_id (some d))
