-- ===== src/Meta/Removed.antt =====
-- What removing a directory comes to, on a server that does its part of it.
use cuckoofs.Base.{
  ℕ, suc, ◌+◌, ◌≤◌, length, sym, ◌∙◌, ◌==◌, ◌||◌, Bool, true, false, not, ◌&&◌, if◌then◌else◌, List,
  [], ◌∷◌, ◌++◌, ◌≡◌, refl, ap, Bool-cases, inl, inr,
}
use cuckoofs.Errors.{ErrorCode}
use cuckoofs.DirHash.{Key, DirLock, path_not_exist, set_key, max_to_commit}
use cuckoofs.DirHash.Table.{Dynahash}
use cuckoofs.DirHash.Cache.{State, Outcome, done, failed, raised, ◌>>=◌}
use cuckoofs.DirHash.Ops.{search_directory, delete_directory}
use cuckoofs.DirHash.Coherence.{Inv}
use cuckoofs.DirHash.Coherence.Calls.{IsFound, search_directory-IsFound}
use cuckoofs.DirHash.Coherence.Deleted.{delete_directory-IsDeleted}
use cuckoofs.Shard.{Shard}
use cuckoofs.Meta.{Inode}
use cuckoofs.Meta.ReadDir.{scan_key}
use cuckoofs.Meta.Pages.{entries, listing}
use cuckoofs.Meta.Sub.{is_empty, has_entries, check_empty, rmdir_found, rmdir_sub_rmdir}

-- A directory has entries when reading it would give some.
is_empty-append : (xs ys : List Inode) → is_empty (xs ++ ys) ≡ (is_empty xs && is_empty ys)
is_empty-append [] ys = refl
is_empty-append (x ∷ xs) ys = refl

not-and : (x y : Bool) → (not x || not y) ≡ not (x && y)
not-and true y = refl
not-and false y = refl

has_entries-listing :
    (rows : ℕ → List Inode) (local_server_id directory_id : ℕ) (shards : List Shard)
    → has_entries rows local_server_id directory_id shards
      ≡ not (is_empty (listing rows local_server_id directory_id shards))
unfolding has_entries listing scan_key
has_entries-listing rows local_server_id directory_id [] = refl
has_entries-listing rows local_server_id directory_id (s ∷ ss) =
    let ih = has_entries-listing rows local_server_id directory_id ss in
    elim (Bool-cases (s.server_id == local_server_id)) [
      | inl own ↦
          rw
            (
              own,
              ih,
              is_empty-append (entries rows local_server_id directory_id s)
                  (listing rows local_server_id directory_id ss),
            )
            (not-and (is_empty (entries rows local_server_id directory_id s))
              (is_empty (listing rows local_server_id directory_id ss)))
      | inr foreign ↦ rw foreign ih
    ]

module _ (D : Dynahash) (hash : Key → ℕ) (start : D.Table → ℕ) (fuel n patience : ℕ)
    (committed : Key → ℕ) (rows : ℕ → List Inode) (local_server_id : ℕ) (shards : List Shard)
    (k : Key) (s : State D.Table) where
  abbrev rmdir : Outcome D.Table Unit
  rmdir = rmdir_sub_rmdir D hash start fuel (suc n) patience rows local_server_id shards k s

  abbrev delete : State D.Table → Outcome D.Table Unit
  delete s1 = delete_directory D hash start fuel (suc n) patience DirLock.none_mode k s1

  abbrev search_exclusive : Outcome D.Table ℕ
  search_exclusive = search_directory D hash start fuel (suc n) patience DirLock.exclusive k s

  found-row :
      (o : Outcome D.Table ℕ) (s1 : State D.Table) (id : ℕ)
      → o ≡ done s1 id
      → IsFound D hash start fuel (suc n) patience committed (s.rows k) s o
      → (id ≡ s.rows k) × (s1.rows ≡ s.rows)
  found-row (done s2 m) s1 id e (inv, same, found) =
      let row : id ≡ s.rows k = cc in
      let state : s2 ≡ s1 = cc in (row, sym (ap (λ (x : State D.Table). x.rows) state) ∙ same)
  found-row (failed s2 f) s1 id e h = absurd cc

  check_empty-eq :
      (x : Bool) (s2 : State D.Table)
      → check_empty D hash start fuel (suc n) patience (not x) s2
        ≡ (if x then done s2 tt else failed s2 (raised ErrorCode.argument_error))
  unfolding check_empty
  check_empty-eq true s2 = refl
  check_empty-eq false s2 = refl

  checked :
      (o : Outcome D.Table Unit) (id : ℕ)
      → (o >>= λ s2 u.
          check_empty D hash start fuel
            (suc n)
            patience
            (has_entries rows local_server_id id shards)
            s2)
        ≡ (o >>= λ s2 u.
            if is_empty (listing rows local_server_id id shards)
            then done s2 tt
            else failed s2 (raised ErrorCode.argument_error))
  checked (done s2 u) id =
      rw (has_entries-listing rows local_server_id id shards)
        (check_empty-eq (is_empty (listing rows local_server_id id shards)) s2)
  checked (failed s2 e) id = refl

  -- What it comes to behind the search, which has found `id` in the state `s1`.
  abbrev IsOver : State D.Table → ℕ → Outcome D.Table Unit → Type 0
  IsOver s1 id o =
      (s2 : State D.Table) × ((j : Key)
        → s2.rows j
          ≡ (if id == path_not_exist then s.rows j else set_key s.rows k path_not_exist j))
      × (o ≡ (
          if id == path_not_exist
          then failed s2 (raised ErrorCode.file_not_exists)
          else if is_empty (listing rows local_server_id id shards)
          then done s2 tt
          else failed s2 (raised ErrorCode.argument_error)))

  found-IsOver :
      (s1 : State D.Table) (id : ℕ)
      → id ≡ s.rows k
      → s1.rows ≡ s.rows
      → length s1.log + 2 ≤ max_to_commit
      → IsOver s1 id
          (rmdir_found D hash start fuel (suc n) patience rows local_server_id shards k s1 id)
  unfolding rmdir_found
  found-IsOver s1 id row same few = elim (Bool-cases (id == path_not_exist)) [
    | inl missing ↦ rw missing ((s1, (λ j. ap (λ (r : Key → ℕ). r j) same), refl))
    | inr there ↦
        let there' : (s1.rows k == path_not_exist) ≡ false =
          ap (λ (r : Key → ℕ). r k == path_not_exist) same
          ∙ ap (λ (m : ℕ). m == path_not_exist) (sym row)
          ∙ there in
        let (s2, ends, after) =
          delete_directory-IsDeleted D hash start fuel n patience k s1 there' few in
        rw there (
          s2,
          (λ j. after j ∙ ap (λ (r : Key → ℕ). set_key r k path_not_exist j) same),
          checked (delete s1) id ∙ rw ends refl,
        )
  ]

  -- The part of Rmdir on each server, in a transaction whose cache agrees with what is committed and that
  -- has not changed the directory's row, once the search under the directory's lock has ended, with
  -- room for two actions more in the log. The number that it has found is that of the row. A directory
  -- that has no row ends it with FILE_NOT_EXISTS, and no row is changed. Of one that has, the row is
  -- deleted, and no other, and it ends well exactly when reading the directory would give no entry, and
  -- with ARGUMENT_ERROR else.
  pub rmdir_sub_rmdir-listing :
      Inv D hash committed s
      → s.rows k ≡ committed k
      → (s1 : State D.Table) (id : ℕ) → search_exclusive ≡ done s1 id
      → length s1.log + 2 ≤ max_to_commit
      → (id ≡ s.rows k)
        × (s2 : State D.Table) × ((j : Key)
            → s2.rows j
              ≡ (if id == path_not_exist then s.rows j else set_key s.rows k path_not_exist j))
        × (rmdir ≡ (
            if id == path_not_exist
            then failed s2 (raised ErrorCode.file_not_exists)
            else if is_empty (listing rows local_server_id id shards)
            then done s2 tt
            else failed s2 (raised ErrorCode.argument_error)))
  unfolding rmdir_sub_rmdir
  rmdir_sub_rmdir-listing inv same s1 id found few =
      let (row, kept) = found-row search_exclusive s1 id found (
        search_directory-IsFound D hash start fuel (suc n) patience committed DirLock.exclusive k s
          inv same) in
      let (s2, after, ends) = found-IsOver s1 id row kept few in (row, s2, after, rw found ends)
