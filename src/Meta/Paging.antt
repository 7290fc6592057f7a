-- ===== src/Meta/Paging.antt =====
-- A directory read page by page: every entry comes once, whatever the size of the pages.
use cuckoofs.Base.{
  ℕ, zero, suc, ◌^◌, ◌<◌, ◌≤◌, ltb, Bool, true, false, Option, none, some, List, [], ◌∷◌, ◌++◌,
  length, length-append, ◌≡◌, refl, ap, arith, inl, inr,
}
use cuckoofs.Path.Tree.{Name}
use cuckoofs.Shard.{Shard}
use cuckoofs.Meta.{Inode}
use cuckoofs.Meta.Rows.{All, IsOrdered}
use cuckoofs.Meta.Pages.{listing, IsPage, read_new-IsPage, resume-IsPage}
use cuckoofs.Meta.Resume.{IsPlaced, IsAsymmetric}
use cuckoofs.Meta.ReadDir.{
  Reading, read_new, read_same, read_limit, Cursor, last_name, cut_page, page_of, shards_from,
  read_dir, read_all,
}

page_of-last :
    (max : ℕ) (q : Reading) (todo : List Inode)
    → q.read_count < max
    → q.found ≡ todo
    → page_of max q ≡ some (record { results = todo; last = none })
unfolding page_of
page_of-last max q todo few all =
    let open' : ltb q.read_count max ≡ true = ground arith in rw (open', all) refl

page_of-more :
    (max : ℕ) (q : Reading) (n : Name)
    → max ≤ q.read_count
    → last_name q.found ≡ some n
    → page_of max q ≡ some (record { results = q.found; last = some (q.shard_index, n) })
unfolding page_of cut_page
page_of-more max q n full last =
    let shut : ltb q.read_count max ≡ false = ground arith in rw (shut, last) refl

shorter :
    (found rest todo : List Inode) (n : Name) (fuel : ℕ)
    → last_name found ≡ some n
    → found ++ rest ≡ todo
    → length todo < suc fuel
    → length rest < fuel
unfolding last_name
shorter [] rest todo n fuel last sum lt = absurd cc
shorter (r ∷ found) rest todo n fuel last sum lt =
    omega (arith, length-append found rest, ap (λ (l : List Inode). length l) sum)

module _ (before : Name → Name → Bool) (asym : IsAsymmetric before) (rows : ℕ → List Inode)
    (sorted : (id : ℕ) → IsOrdered before (rows id)) (placed : (id : ℕ) → All IsPlaced (rows id))
    (local_server_id : ℕ) (shards : List Shard) (directory_id : ℕ) (small : directory_id < 2 ^ 51)
    (limit : Option ℕ) (pos : 0 < read_limit limit) where
  abbrev reading : Cursor → Reading
  reading none = read_new before rows local_server_id (read_limit limit) directory_id [] 0 0 shards
  reading (some (index, name)) =
      read_same before rows local_server_id (read_limit limit) directory_id name index 0
        (shards_from index shards)

  read_dir-eq :
      (c : Cursor)
      → read_dir before rows local_server_id shards limit directory_id c
        ≡ page_of (read_limit limit) (reading c)
  unfolding read_dir
  read_dir-eq none = refl
  read_dir-eq (some (index, name)) = refl

  all-from :
      (fuel : ℕ) (c : Cursor) (todo : List Inode)
      → length todo < fuel
      → IsPage rows local_server_id directory_id (read_limit limit) 0 shards todo (reading c)
      → read_all before rows local_server_id shards fuel limit directory_id c ≡ some todo
  unfolding read_all
  all-from zero c todo lt page = elim lt [ ]
  all-from (suc fuel) c todo lt (inl (few, all)) =
      rw (read_dir-eq c, page_of-last (read_limit limit) (reading c) todo few all) refl
  all-from (suc fuel) c todo lt (inr (k, n, rest, full, last, sum, at, left)) =
      let e : (reading c).shard_index ≡ k = omega (arith, at) in
      let next =
        all-from fuel (some (k, n)) rest (shorter (reading c).found rest todo n fuel last sum lt) (
          resume-IsPage rows local_server_id directory_id before (read_limit limit) asym small
            sorted placed 0 k k shards n rest pos (omega arith) left) in
      rw (read_dir-eq c, page_of-more (read_limit limit) (reading c) n full last, e, next, sum) refl

  -- With the rows of each shard in the strict order of its index, each under the number of its directory,
  -- below 2^51, and the hash of its name, with the number of the directory that is read below 2^51 too,
  -- and with pages of positive size: a client that asks for page after page gets every entry of the
  -- directory in the shards of this server, once each and in their order, in at most one call more than
  -- there are entries.
  pub read_all-listing :
      (fuel : ℕ)
      → length (listing rows local_server_id directory_id shards) < fuel
      → read_all before rows local_server_id shards fuel limit directory_id none
        ≡ some (listing rows local_server_id directory_id shards)
  read_all-listing fuel lt =
      all-from fuel none (listing rows local_server_id directory_id shards) lt (
        read_new-IsPage rows local_server_id directory_id before (read_limit limit) [] 0 0 shards
          pos)
