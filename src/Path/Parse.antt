-- ===== src/Path/Parse.antt =====
-- What a successful PathParseTreeInsert says of a directory that is to be made or deleted.
use cuckoofs.Base.{
  ℕ, true, false, ◌&&◌, Option, none, some, List, [], ◌∷◌, ◌≡◌, ◌≢◌, refl, ap, ◌∙◌, ◌⊎◌, inl, inr,
  Bool-cases,
}
use mathlib.Core.Path.{subst}
use cuckoofs.Errors.{ErrorCode}
use cuckoofs.DirHash.{Key, path_not_exist}
use cuckoofs.DirHash.Table.{Dynahash}
use cuckoofs.DirHash.Cache.{State, Outcome, done, failed, ◌>>=◌}
use cuckoofs.DirHash.Coherence.{Inv}
use cuckoofs.Path.{
  has, flag_not_root, flag_target_is_directory, flag_target_to_be_created,
  flag_target_to_be_deleted, path_names,
}
use cuckoofs.Path.Tree.{Name, Batch, Way, stopped, reached, Parsed}
use cuckoofs.Path.Target.{
  Result, create_target, delete_target, target, parse_from, is_root, path_parse_tree_insert,
}
use cuckoofs.Path.Resolve.{resolved, onto, Agrees}
use cuckoofs.Path.Walk.{IsWay, walk-IsWay}
use cuckoofs.Path.Permission.{
  IsCreated, IsDeleted, create_directory-IsCreated, delete_free-IsDeleted,
}

module _ (D : Dynahash) (hash : Key → ℕ) (start : D.Table → ℕ) (fuel tries patience : ℕ)
    (nextval : ℕ → ℕ) (server_id : ℕ) (committed : Key → ℕ) where
  -- What the flags ask for: a directory that is made, or one that is deleted.
  abbrev pub Purpose : ℕ → Type 0
  Purpose flag =
      ((has flag flag_target_to_be_created ≡ true) × (has flag flag_target_is_directory ≡ true))
      ⊎ ((has flag flag_target_to_be_created ≡ false)
          × (has flag flag_target_to_be_deleted ≡ true)
          × (has flag flag_target_is_directory ≡ true))

  -- What a success then says of the row `v` of the target, and of the inode number in the answer.
  abbrev Allowed : (flag : ℕ) → Purpose flag → ℕ → Option ℕ → Type 0
  Allowed flag (inl making) v out = v ≡ path_not_exist
  Allowed flag (inr deleting) v out = (v ≢ path_not_exist) × (out ≡ some v)

  abbrev IsTarget : (flag : ℕ) → Purpose flag → ℕ → Outcome D.Table Result → Type 0
  IsTarget flag why v (done s r) = r.code ≡ ErrorCode.success → Allowed flag why v r.inode_id
  IsTarget flag why v (failed s e) = Unit {0}

  IsCreated-IsTarget :
      (flag : ℕ) (c : has flag flag_target_to_be_created ≡ true)
      (d : has flag flag_target_is_directory ≡ true)
      → (v : ℕ) (o : Outcome D.Table Result)
      → IsCreated D hash start fuel tries patience nextval server_id committed v o
      → IsTarget flag (inl (c, d)) v o
  IsCreated-IsTarget flag c d v (done s r) h = h
  IsCreated-IsTarget flag c d v (failed s e) h = tt

  IsDeleted-IsTarget :
      (flag : ℕ) (c : has flag flag_target_to_be_created ≡ false)
      → (x : has flag flag_target_to_be_deleted ≡ true)
        (d : has flag flag_target_is_directory ≡ true)
      → (v : ℕ) (o : Outcome D.Table Result)
      → IsDeleted D hash start fuel tries patience nextval server_id committed v o
      → IsTarget flag (inr (c, x, d)) v o
  IsDeleted-IsTarget flag c x d v (done s r) h = h
  IsDeleted-IsTarget flag c x d v (failed s e) h = tt

  create_target-IsCreated :
      (flag : ℕ) (p : List Name) (parent : ℕ) (name : Name) (out : Option ℕ) (b : Batch)
      (s : State D.Table)
      → has flag flag_target_is_directory ≡ true
      → Inv D hash committed s
      → ((k : Key) → s.rows k ≡ committed k)
      → IsCreated D hash start fuel tries patience nextval server_id committed
          (s.rows (record { parent_id = parent; name = name }))
          (create_target D hash start fuel tries patience nextval server_id flag p parent name out b
            s)
  unfolding create_target
  create_target-IsCreated flag p parent name none b s d inv same = tt
  create_target-IsCreated flag p parent name (some given) b s d inv same = rw d (
      create_directory-IsCreated D hash start fuel tries patience nextval server_id committed flag p
        parent name given b s (b.tree p) inv same)

  delete_target-IsDeleted :
      (p : List Name) (parent : ℕ) (name : Name) (out : Option ℕ) (b : Batch) (s : State D.Table)
      → Inv D hash committed s
      → ((k : Key) → s.rows k ≡ committed k)
      → IsDeleted D hash start fuel tries patience nextval server_id committed
          (s.rows (record { parent_id = parent; name = name }))
          (delete_target D hash start fuel tries patience nextval server_id p parent name out b s)
  unfolding delete_target
  delete_target-IsDeleted p parent name none b s inv same = tt
  delete_target-IsDeleted p parent name (some given) b s inv same =
      delete_free-IsDeleted D hash start fuel tries patience nextval server_id committed p parent
        name given b s (b.tree p) _ inv same

  target-IsTarget :
      (flag : ℕ) (why : Purpose flag) (p : List Name) (parent : ℕ) (name : Name) (out : Option ℕ)
      → (b : Batch) (s : State D.Table) → Inv D hash committed s
      → ((k : Key) → s.rows k ≡ committed k)
      → IsTarget flag why
          (s.rows (record { parent_id = parent; name = name }))
          (target D hash start fuel tries patience nextval server_id flag p parent name out b s)
  unfolding target
  target-IsTarget flag (inl (c, d)) p parent name out b s inv same = rw c (
      IsCreated-IsTarget flag c d (s.rows (record { parent_id = parent; name = name })) _
        (create_target-IsCreated flag (name ∷ p) parent name out b s d inv same))
  target-IsTarget flag (inr (c, x, d)) p parent name out b s inv same =
      rw (c, x, d)
        (IsDeleted-IsTarget flag c x d (s.rows (record { parent_id = parent; name = name })) _
          (delete_target-IsDeleted (name ∷ p) parent name out b s inv same))

  -- What a success of PathParseTreeInsert says: the answer names the parent that the rows lead to, and
  -- the last name of the path, and the row of the two allows what is asked for.
  abbrev pub IsParsed :
      (flag : ℕ) → Purpose flag → (Key → ℕ) → List ℕ → Outcome D.Table Parsed → Type 0
  IsParsed flag why rows path (done s r) =
      r.code ≡ ErrorCode.success
      → (id : ℕ) × (resolved rows (onto (path_names path).0 []) ≡ some id)
        × (r.parent_id ≡ some id)
        × (r.file_name ≡ some (path_names path).1)
        × Allowed flag why (rows (record { parent_id = id; name = (path_names path).1 })) r.inode_id
  IsParsed flag why rows path (failed s e) = Unit {0}

  parse_from-IsParsed :
      (flag : ℕ) (why : Purpose flag) (rows : Key → ℕ) (path : List ℕ) (out : Option ℕ) (b : Batch)
      → ((k : Key) → rows k ≡ committed k)
      → (o : Outcome D.Table Way)
      → IsWay D hash start fuel tries patience committed (onto (path_names path).0 []) rows o
      → IsParsed flag why rows path (
          o >>= λ s w.
          parse_from D hash start fuel tries patience nextval server_id flag
            (path_names path).1
            out
            b
            s
            w)
  unfolding parse_from
  parse_from-IsParsed flag why rows path out b same (done s (stopped t e))
        (inl (invalid, missing), agrees, inv, r) =
      λ ok. absurd cc
  parse_from-IsParsed flag why rows path out b same (done s (stopped t e))
        (inr (conflict, there), agrees, inv, r) =
      λ ok. absurd cc
  parse_from-IsParsed flag why rows path out b same (done s (reached t p id))
        (here, place, agrees, inv, r) =
      after _ (
        subst
          (λ (rs : Key → ℕ).
            IsTarget flag why (rs (record { parent_id = id; name = (path_names path).1 })) (
              target D hash start fuel tries patience nextval server_id flag p id
                (path_names path).1 out (record b { tree = t }) s))
          r
          (target-IsTarget flag why p id (path_names path).1 out (record b { tree = t }) s inv
            (λ k. ap (λ (f : Key → ℕ). f k) r ∙ same k)))
    where
      after :
          (o : Outcome D.Table Result)
          → IsTarget flag why (rows (record { parent_id = id; name = (path_names path).1 })) o
          → IsParsed flag why rows path (
              o >>= λ s' r'. done s' (record {
                code = r'.code;
                batch = r'.batch;
                parent_id = some id;
                file_name = some (path_names path).1;
                inode_id = r'.inode_id;
              }))
      after (done s' r') h = λ ok. (id, here, refl, refl, h ok)
      after (failed s' e) h = tt
  parse_from-IsParsed flag why rows path out b same (failed s e) h = tt

  -- In a transaction that has changed no row, whose cache and whose tree of paths agree with the rows but
  -- for nodes that it has locked exclusively: when PathParseTreeInsert succeeds for a directory that is
  -- to be made or deleted, its answer has the number of the directory that the names of the path lead
  -- to in the rows, and the last name; and in the rows that directory has no entry of that name, if it
  -- is to be made, or has one, whose number is in the answer, if it is to be deleted.
  pub path_parse_tree_insert-IsParsed :
      (path : List ℕ) (flag : ℕ) (why : Purpose flag) (out : Option ℕ) (b : Batch)
      (s : State D.Table)
      → Agrees s.rows b.tree
      → Inv D hash committed s
      → ((k : Key) → s.rows k ≡ committed k)
      → IsParsed flag why s.rows path (
          path_parse_tree_insert D hash start fuel tries patience nextval server_id path flag out b
            s)
  unfolding path_parse_tree_insert
  path_parse_tree_insert-IsParsed path flag why out b s agrees inv same =
      elim (Bool-cases (
        is_root D hash start fuel tries patience nextval server_id path
        && has flag flag_not_root)) [
          | inl root ↦ rw root (λ ok. absurd cc)
          | inr inside ↦ rw inside (
              parse_from-IsParsed flag why s.rows path out b same _ (
                walk-IsWay D hash start fuel tries patience committed (path_names path).0 b.tree s
                  agrees inv same))
        ]
