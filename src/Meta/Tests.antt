-- ===== src/Meta/Tests.antt =====
-- The theorems on the operations at small tables, directories and requests.
use cuckoofs.Base.{
  ℕ, ◌<◌, ◌≤◌, ◌==◌, ltb, Bool, true, false, none, some, if◌then◌else◌, List, [], ◌∷◌, length, ◌≡◌,
  ◌↔◌, refl, arith, inl, inr, Bool-cases,
}
use cuckoofs.Errors.{ErrorCode}
use cuckoofs.Path.Tree.{Name}
use cuckoofs.Shard.{Shard}
use cuckoofs.Meta.{Inode, part_id_mask, hash_loop, hash_part_id, combine}
use cuckoofs.Meta.Ids.{combine-between}
use cuckoofs.Meta.Tables.{same_row}
use cuckoofs.Meta.Update.{no_change, search_and_update, given}
use cuckoofs.Meta.Effects.{place_after, search_and_update-find}
use cuckoofs.DirHash.{same_name}
use cuckoofs.Meta.Rows.{matching, All, IsOrdered}
use cuckoofs.Meta.ReadDir.{read_all}
use cuckoofs.Meta.Resume.{IsPlaced, IsAsymmetric}
use cuckoofs.Meta.Pages.{listing}
use cuckoofs.Meta.Paging.{read_all-listing}
use cuckoofs.Meta.Create.{Request, create_loop}
use cuckoofs.Meta.Created.{codes, or_else, created_at, final_codes, create_loop-codes-find}
use cuckoofs.Meta.Unlinked.{IsUnlinked, unlink_one-IsUnlinked}
use cuckoofs.Meta.RowOps.{unlink_one}
use cuckoofs.Meta.Plain.{Places, plain_tables, find_place}

combine-between_example :
    ((combine 7 0 ≤ combine 7 97) × (combine 7 97 ≤ combine 7 part_id_mask)) ↔ (◌≡◌ {A = ℕ} 7 7)
combine-between_example = combine-between 7 7 97 (omega arith) (omega arith) (omega arith)

-- "a" and "ab" in directory 7, in the shard that ends at 100.
abbrev row_at : ℕ → Name → Inode
row_at key name = record {
  name = name;
  st_ino = 9;
  parentid_partid = key;
  st_dev = 0;
  st_mode = 33188;
  st_nlink = 1;
  st_uid = 0;
  st_gid = 0;
  st_rdev = 0;
  st_size = 0;
  st_blksize = 0;
  st_blocks = 0;
  st_atim = 0;
  st_mtim = 0;
  st_ctim = 0;
  etag = [];
  update_version = 0;
  primary_nodeid = 0;
  backup_nodeid = 0;
}

abbrev name_a : Name
name_a = 97 ∷ []

abbrev name_ab : Name
name_ab = 97 ∷ 98 ∷ []

abbrev two_rows : List Inode
two_rows = row_at 57441 name_a ∷ row_at 60449 name_ab ∷ []

abbrev rows_of : ℕ → List Inode
rows_of id = if id == 100 then two_rows else []

abbrev shorter : Name → Name → Bool
shorter m n = ltb (length m) (length n)

shorter-IsAsymmetric : IsAsymmetric shorter
shorter-IsAsymmetric m n h = ground arith

sorted : (id : ℕ) → IsOrdered shorter (rows_of id)
sorted id = elim (Bool-cases (id == 100)) [
  | inl here ↦ rw here ((refl, tt), (tt, tt))
  | inr other ↦ rw other tt
]

rows_of-IsPlaced : (id : ℕ) → All IsPlaced (rows_of id)
unfolding combine hash_part_id hash_loop
rows_of-IsPlaced id = elim (Bool-cases (id == 100)) [
  | inl here ↦ rw here ((7, omega arith, refl), ((7, omega arith, refl), tt))
  | inr other ↦ rw other tt
]

abbrev two_shards : List Shard
two_shards =
    record { range_point = 50; server_id = 2 } ∷ record { range_point = 100; server_id = 1 } ∷ []

few_entries : length (listing rows_of 1 7 two_shards) < 3
unfolding listing combine matching
few_entries = omega arith

-- In pages of one entry.
read_all-listing_example :
    read_all shorter rows_of 1 two_shards 3 (some 1) 7 none ≡ some (listing rows_of 1 7 two_shards)
read_all-listing_example =
    read_all-listing shorter shorter-IsAsymmetric rows_of sorted rows_of-IsPlaced 1 two_shards 7
      (omega arith) (some 1) (omega arith) 3 few_entries

-- Tables that hold "a" in directory 7 and no other row.
abbrev only_a : Places
only_a s k n = if same_row 100 57441 name_a s k n then some (row_at 57441 name_a) else none

abbrev request : Name → ℕ → Request
request name key = record {
  path = none;
  code = ErrorCode.success;
  parent_id = 7;
  row = row_at key name;
}

abbrev two_requests : List Request
two_requests = request name_a 57441 ∷ request name_ab 60449 ∷ []

create_loop-codes-find_example :
    (rs : List Request) × (t' : Places) × (create_loop plain_tables 100 4 false only_a two_requests
      ≡ some (rs, t'))
    × (codes rs ≡ final_codes 100 (λ k n. given (find_place only_a 100 k n)) two_requests)
    × ((s k : ℕ) (n : Name)
        → find_place t' s k n
          ≡ or_else (find_place only_a s k n) (created_at 100 two_requests s k n))
create_loop-codes-find_example =
    create_loop-codes-find plain_tables 100 4 only_a two_requests (omega arith)

search_and_update-find_example :
    ((search_and_update plain_tables 100 57441 name_a true
        (record no_change { new_uid = some 5 })
        only_a).1
      ≡ find_place only_a 100 57441 name_a)
    × ((s' k' : ℕ) (n' : Name)
        → find_place
            (search_and_update plain_tables 100 57441 name_a true
              (record no_change { new_uid = some 5 })
              only_a).0
            s'
            k'
            n'
          ≡ (if same_row 100 57441 name_a s' k' n'
              then place_after true
                  (record no_change { new_uid = some 5 })
                  (find_place only_a 100 57441 name_a)
              else find_place only_a s' k' n'))
unfolding same_name
search_and_update-find_example =
    search_and_update-find plain_tables only_a 100 57441 name_a true
      (record no_change { new_uid = some 5 }) (inl refl)

unlink_one-IsUnlinked_example :
    IsUnlinked plain_tables 100 only_a
      (request name_a 57441)
      (find_place only_a 100 57441 name_a)
      (unlink_one plain_tables 100 only_a (request name_a 57441))
unfolding same_name
unlink_one-IsUnlinked_example =
    unlink_one-IsUnlinked plain_tables 100 only_a (request name_a 57441) refl
      (omega arith, omega arith)
