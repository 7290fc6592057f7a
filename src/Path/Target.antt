-- ===== src/Path/Target.antt =====
-- What PathParseTreeInsert does at the target of a path.
use cuckoofs.Base.{
  ℕ, ◌==◌, Bool, true, false, ◌&&◌, Option, none, some, List, [], ◌∷◌, if◌then◌else◌,
}
use cuckoofs.Errors.{ErrorCode}
use cuckoofs.RwLock.Ops as Ops
use cuckoofs.RwLock.Ops.{rw_lock_release}
use cuckoofs.DirHash.{Key, DirLock, path_not_exist}
use cuckoofs.DirHash.Table.{Dynahash}
use cuckoofs.DirHash.Cache.{State, Outcome, done, failed, lock_fault, raised, ◌>>=◌}
use cuckoofs.Path.{
  slash, has, flag_not_root, flag_target_is_directory, flag_target_to_be_created,
  flag_inode_id_for_input, flag_target_to_be_deleted, flag_allow_operation_under_created_directory,
  flag_acquire_shared_lock_if_target_is_directory, PpLockMode, pp_none, pp_shared, pp_exclusive,
  pp_exclusive_for_create, path_names,
}
use cuckoofs.Path.Sequence.{get_next_sequence_num, generate_inode_id}
use cuckoofs.Path.Tree.{Name, Node, set_node, Batch, Way, stopped, reached, Parsed, search, walk}

-- The code, the batch and what stands in `*inodeId`.
pub record Result : Type 0 where
  pub code : ErrorCode
  pub batch : Batch
  pub inode_id : Option ℕ

abbrev pub with_node : Batch → List Name → ℕ → PpLockMode → Batch
with_node b p id mode = record b {
  tree = set_node b.tree p (record { inode_id = id; lock_acquired = mode });
}

module _ (nextval : ℕ → ℕ) (server_id : ℕ) where
  unfoldable pub generate : Batch → ℕ × Batch
  generate b =
      let (seq, numbers) = get_next_sequence_num nextval b.numbers in
      (generate_inode_id seq server_id, record b { numbers = numbers })

  -- The inode number of a directory that is created, by whether it is given and whether there is a row.
  unfoldable pub created_id : Bool → Bool → ℕ → ℕ → Batch → ℕ × Batch
  created_id true missing given id b = (given, b)
  created_id false false given id b = (id, b)
  created_id false true given id b = generate b

module _ (D : Dynahash) (hash : Key → ℕ) (start : D.Table → ℕ) (fuel tries patience : ℕ)
    (nextval : ℕ → ℕ) (server_id : ℕ) where
  abbrev lock_of : ℕ → PpLockMode
  lock_of flag =
      if has flag flag_allow_operation_under_created_directory
      then pp_exclusive_for_create
      else pp_exclusive

  unfoldable pub created : ℕ → List Name → State D.Table → ℕ → ℕ × Batch → Outcome D.Table Result
  created flag p s id (new, b) = done s (record {
    code = if id == path_not_exist then ErrorCode.success else ErrorCode.path_exists;
    batch = with_node b p new (lock_of flag);
    inode_id = some new;
  })

  unfoldable pub create_directory :
      ℕ → List Name → ℕ → Name → ℕ → Batch → State D.Table → Option Node → Outcome D.Table Result
  create_directory flag p parent name given b s (some n) =
      done s (record { code = ErrorCode.path_exists; batch = b; inode_id = some given })
  create_directory flag p parent name given b s none =
      search D hash start fuel tries patience DirLock.exclusive parent name s >>= λ s' id.
      created flag p s' id (
        created_id nextval server_id (has flag flag_inode_id_for_input) (id == path_not_exist) given
          id b)

  unfoldable pub create_file : Bool → ℕ → Batch → State D.Table → Outcome D.Table Result
  create_file true given b s =
      done s (record { code = ErrorCode.success; batch = b; inode_id = some given })
  create_file false given b s =
      let (new, b') = generate nextval server_id b in
      done s (record { code = ErrorCode.success; batch = b'; inode_id = some new })

  unfoldable pub create_target :
      ℕ → List Name → ℕ → Name → Option ℕ → Batch → State D.Table → Outcome D.Table Result
  create_target flag p parent name none b s = failed s (raised ErrorCode.program_error)
  create_target flag p parent name (some given) b s =
      if has flag flag_target_is_directory
      then create_directory flag p parent name given b s (b.tree p)
      else create_file (has flag flag_inode_id_for_input) given b s

  -- The node of a directory that is deleted keeps its inode number where there is one already.
  abbrev taken_id : Option Node → ℕ → ℕ
  taken_id none id = id
  taken_id (some n) id = n.inode_id

  unfoldable pub delete_found :
      List Name → Batch → Option Node → State D.Table → ℕ → Outcome D.Table Result
  delete_found p b o s id =
      if id == path_not_exist
      then done s (record { code = ErrorCode.path_not_exists; batch = b; inode_id = some id })
      else done s (record {
        code = ErrorCode.success;
        batch = with_node b p (taken_id o id) pp_exclusive;
        inode_id = some id;
      })

  abbrev pub is_free : Option Node → Bool
  is_free none = true
  is_free (some n) = elim n.lock_acquired [
    | pp_none ↦ true
    | pp_shared ↦ false
    | pp_exclusive ↦ false
    | pp_exclusive_for_create ↦ false
  ]

  unfoldable pub delete_free :
      List Name → ℕ → Name → ℕ → Batch → State D.Table → Option Node → Bool → Outcome D.Table Result
  delete_free p parent name given b s o false =
      done s (record { code = ErrorCode.path_lock_conflict; batch = b; inode_id = some given })
  delete_free p parent name given b s o true =
      search D hash start fuel tries patience DirLock.exclusive parent name s >>= λ s' id.
      delete_found p b o s' id

  unfoldable pub delete_target :
      List Name → ℕ → Name → Option ℕ → Batch → State D.Table → Outcome D.Table Result
  delete_target p parent name none b s = failed s (raised ErrorCode.program_error)
  delete_target p parent name (some given) b s =
      delete_free p parent name given b s (b.tree p) (is_free (b.tree p))

  -- RWLockRelease(DirectoryHashTableLastAcquiredLock), a pointer that the search before it has set.
  abbrev released : State D.Table → Ops.Result → Outcome D.Table Unit
  released s (Ops.ok c) = done (record s { locks = c }) tt
  released s (Ops.err e) = failed s (lock_fault e)

  unfoldable pub release_last : Option ℕ → State D.Table → Outcome D.Table Unit
  release_last none s = failed s (lock_fault Ops.not_held)
  release_last (some l) s = released s (rw_lock_release l s.locks)

  abbrev shared_result : Batch → List Name → Option ℕ → ℕ → PpLockMode → Result
  shared_result b p out id mode = record {
    code = ErrorCode.success;
    batch = with_node b p id mode;
    inode_id = elim out [ none ↦ none | some v ↦ some id ];
  }

  unfoldable pub share_found :
      Bool → List Name → Option ℕ → Batch → State D.Table → ℕ → Bool → Outcome D.Table Result
  share_found is_directory p out b s id false = done s (shared_result b p out id pp_shared)
  share_found true p out b s id true =
      done s (record { code = ErrorCode.path_not_exists; batch = b; inode_id = out })
  share_found false p out b s id true =
      release_last s.last_acquired s >>= λ s' t. done s' (shared_result b p out id pp_none)

  unfoldable pub share_node :
      List Name
      → Name
      → Option ℕ
      → Batch
      → State D.Table
      → Node
      → PpLockMode
      → Outcome D.Table Result
  share_node p name out b s n pp_exclusive =
      done s (record { code = ErrorCode.path_lock_conflict; batch = b; inode_id = out })
  share_node p name out b s n pp_none =
      if n.inode_id == path_not_exist
      then done s (shared_result b p out n.inode_id pp_none)
      else search D hash start fuel tries patience DirLock.shared n.inode_id name s >>= λ s' found.
          done s' (shared_result b p out n.inode_id pp_shared)
  share_node p name out b s n pp_shared = done s (shared_result b p out n.inode_id pp_shared)
  share_node p name out b s n pp_exclusive_for_create =
      done s (shared_result b p out n.inode_id pp_exclusive_for_create)

  unfoldable pub share_target :
      Bool
      → List Name
      → ℕ
      → Name
      → Option ℕ
      → Batch
      → State D.Table
      → Option Node
      → Outcome D.Table Result
  share_target is_directory p parent name out b s (some n) =
      share_node p name out b s n n.lock_acquired
  share_target is_directory p parent name out b s none =
      search D hash start fuel tries patience DirLock.shared parent name s >>= λ s' id.
      share_found is_directory p out b s' id (id == path_not_exist)

  unfoldable pub target :
      ℕ → List Name → ℕ → Name → Option ℕ → Batch → State D.Table → Outcome D.Table Result
  target flag p parent name out b s =
      if has flag flag_target_to_be_created
      then create_target flag (name ∷ p) parent name out b s
      else if has flag flag_target_to_be_deleted && has flag flag_target_is_directory
      then delete_target (name ∷ p) parent name out b s
      else if has flag flag_acquire_shared_lock_if_target_is_directory
      then share_target (has flag flag_target_is_directory) (name ∷ p) parent name out b s
          (b.tree (name ∷ p))
      else done s (record { code = ErrorCode.success; batch = b; inode_id = out })

  unfoldable pub parse_from :
      ℕ → Name → Option ℕ → Batch → State D.Table → Way → Outcome D.Table Parsed
  parse_from flag name out b s (stopped t e) = done s (record {
    code = e;
    batch = record b { tree = t };
    parent_id = none;
    file_name = none;
    inode_id = out;
  })
  parse_from flag name out b s (reached t p id) =
      target flag p id name out (record b { tree = t }) s >>= λ s' r. done s' (record {
        code = r.code;
        batch = r.batch;
        parent_id = some id;
        file_name = some name;
        inode_id = r.inode_id;
      })

  abbrev pub is_root : List ℕ → Bool
  is_root (c ∷ []) = c == slash
  is_root _ = false

  -- PathParseTreeInsert with a tree of the transaction, `out` being what `inodeId` points to.
  unfoldable pub path_parse_tree_insert :
      List ℕ → ℕ → Option ℕ → Batch → State D.Table → Outcome D.Table Parsed
  path_parse_tree_insert path flag out b s =
      if is_root path && has flag flag_not_root
      then done s (record {
        code = ErrorCode.path_is_root;
        batch = b;
        parent_id = none;
        file_name = none;
        inode_id = out;
      })
      else walk D hash start fuel tries patience (path_names path).0 s (reached b.tree [] 0)
        >>= λ s' w. parse_from flag (path_names path).1 out b s' w
