-- ===== src/Path/Permission.antt =====
-- When the target of a path may be made or deleted.
use cuckoofs.Base.{
  ℕ, ◌==◌, Bool, true, false, Option, none, some, List, ◌≡◌, ◌≢◌, ap, sym, ◌∙◌, inl, inr,
  Bool-cases, ==_iff,
}
use cuckoofs.Errors.{ErrorCode}
use cuckoofs.DirHash.{Key, DirLock, path_not_exist}
use cuckoofs.DirHash.Table.{Dynahash}
use cuckoofs.DirHash.Cache.{State, Outcome, done, failed, ◌>>=◌}
use cuckoofs.DirHash.Coherence.{Inv}
use cuckoofs.DirHash.Coherence.Calls.{IsFound, search_directory-IsFound}
use cuckoofs.Path.{has, flag_inode_id_for_input}
use cuckoofs.Path.Tree.{Name, Node, Batch}
use cuckoofs.Path.Target.{Result, created_id, created, create_directory, delete_found, delete_free}

module _ (D : Dynahash) (hash : Key → ℕ) (start : D.Table → ℕ) (fuel tries patience : ℕ)
    (nextval : ℕ → ℕ) (server_id : ℕ) (committed : Key → ℕ) where
  -- Where a directory may be made, by the row `v` of its key.
  abbrev pub IsCreated : ℕ → Outcome D.Table Result → Type 0
  IsCreated v (done s r) = r.code ≡ ErrorCode.success → v ≡ path_not_exist
  IsCreated v (failed s e) = Unit {0}

  -- Where a directory may be deleted.
  abbrev pub IsDeleted : ℕ → Outcome D.Table Result → Type 0
  IsDeleted v (done s r) = r.code ≡ ErrorCode.success → (v ≢ path_not_exist) × (r.inode_id ≡ some v)
  IsDeleted v (failed s e) = Unit {0}

  created-IsCreated :
      (flag : ℕ) (p : List Name) (v : ℕ) (s : State D.Table) (id : ℕ) (new : ℕ × Batch)
      → id ≡ v
      → IsCreated v (created D hash start fuel tries patience nextval server_id flag p s id new)
  unfolding created
  created-IsCreated flag p v s id (new, b) same ok = elim (Bool-cases (id == path_not_exist)) [
    | inl missing ↦ sym same ∙ (==_iff id path_not_exist).0 missing
    | inr there ↦ let bad = rw there at ok in absurd cc
  ]

  delete_found-IsDeleted :
      (p : List Name) (b : Batch) (o : Option Node) (v : ℕ) (s : State D.Table) (id : ℕ)
      → id ≡ v
      → IsDeleted v (delete_found D hash start fuel tries patience nextval server_id p b o s id)
  unfolding delete_found
  delete_found-IsDeleted p b o v s id same = elim (Bool-cases (id == path_not_exist)) [
    | inl missing ↦ rw missing (λ ok. absurd cc)
    | inr there ↦ rw there (λ ok. (λ gone. apart (same ∙ gone) there, ap some same))
  ]
    where
      apart : id ≡ path_not_exist → (id == path_not_exist) ≡ false → ⊥
      apart e there = let t = (==_iff id path_not_exist).1 e in absurd cc

  pub create_directory-IsCreated :
      (flag : ℕ) (p : List Name) (parent : ℕ) (name : Name) (given : ℕ) (b : Batch)
      (s : State D.Table)
      → (o : Option Node) → Inv D hash committed s
      → ((k : Key) → s.rows k ≡ committed k)
      → IsCreated (s.rows (record { parent_id = parent; name = name })) (
          create_directory D hash start fuel tries patience nextval server_id flag p parent name
            given b s o)
  unfolding create_directory
  create_directory-IsCreated flag p parent name given b s (some n) inv same = λ ok. absurd cc
  create_directory-IsCreated flag p parent name given b s none inv same = after _ (
      search_directory-IsFound D hash start fuel tries patience committed DirLock.exclusive k s inv
        (same k))
    where
      k : Key
      k = record { parent_id = parent; name = name }

      after :
          (o : Outcome D.Table ℕ)
          → IsFound D hash start fuel tries patience committed
              (s.rows (record { parent_id = parent; name = name }))
              s
              o
          → IsCreated (s.rows (record { parent_id = parent; name = name })) (
              o >>= λ s' id.
              created D hash start fuel tries patience nextval server_id flag p s' id (
                created_id nextval server_id
                  (has flag flag_inode_id_for_input)
                  (id == path_not_exist)
                  given
                  id
                  b))
      after (done s' id) (inv', rows, found) =
          created-IsCreated flag p (s.rows (record { parent_id = parent; name = name })) s' id _
            found
      after (failed s' e) h = tt

  pub delete_free-IsDeleted :
      (p : List Name) (parent : ℕ) (name : Name) (given : ℕ) (b : Batch) (s : State D.Table)
      → (o : Option Node) (free : Bool) → Inv D hash committed s
      → ((k : Key) → s.rows k ≡ committed k)
      → IsDeleted (s.rows (record { parent_id = parent; name = name })) (
          delete_free D hash start fuel tries patience nextval server_id p parent name given b s o
            free)
  unfolding delete_free
  delete_free-IsDeleted p parent name given b s o false inv same = λ ok. absurd cc
  delete_free-IsDeleted p parent name given b s o true inv same = after _ (
      search_directory-IsFound D hash start fuel tries patience committed DirLock.exclusive k s inv
        (same k))
    where
      k : Key
      k = record { parent_id = parent; name = name }

      after :
          (r : Outcome D.Table ℕ)
          → IsFound D hash start fuel tries patience committed
              (s.rows (record { parent_id = parent; name = name }))
              s
              r
          → IsDeleted (s.rows (record { parent_id = parent; name = name })) (
              r >>= λ s' id.
              delete_found D hash start fuel tries patience nextval server_id p b o s' id)
      after (done s' id) (inv', rows, found) =
          delete_found-IsDeleted p b o (s.rows (record { parent_id = parent; name = name })) s' id
            found
      after (failed s' e) h = tt
