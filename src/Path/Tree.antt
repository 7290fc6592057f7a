-- ===== src/Path/Tree.antt =====
-- PathParseTreeInsert and the tree of directories of a transaction, over the cache of directories.
-- A node of the tree stands at the names from it up to the root, so that the red-black tree of its
-- children has the entries one name above it.
use cuckoofs.Base.{
  ℕ, ◌==◌, Bool, true, false, ◌&&◌, Option, none, some, List, [], ◌∷◌, ◌++◌, if◌then◌else◌,
}
use cuckoofs.Errors.{ErrorCode}
use cuckoofs.DirHash.{Key, DirLock, path_not_exist, same_name}
use cuckoofs.DirHash.Table.{Dynahash}
use cuckoofs.DirHash.Cache.{State, Outcome, done, failed, raised, ◌>>=◌}
use cuckoofs.DirHash.Ops.{search_directory}
use cuckoofs.Path.{
  slash, PpLockMode, pp_none, pp_shared, pp_exclusive, pp_exclusive_for_create, path_names,
}
use cuckoofs.Path.Sequence.{Numbers}

abbrev pub Name : Type 0
Name = List ℕ

-- PathParseRBTreeNode without its name and its children.
pub record Node : Type 0 where
  pub inode_id : ℕ
  pub lock_acquired : PpLockMode

-- TransactionLevelPathParseRoot; the root itself is in no tree of children.
abbrev pub Tree : Type 0
Tree = List Name → Option Node

unfoldable pub same_place : List Name → List Name → Bool
same_place [] [] = true
same_place [] (m ∷ q) = false
same_place (n ∷ p) [] = false
same_place (n ∷ p) (m ∷ q) = same_name n m && same_place p q

-- rbt_insert, or a write to a node
abbrev pub set_node : Tree → List Name → Node → Tree
set_node t p n q = if same_place q p then some n else t q

-- PathParseTreeInit and TransactionLevelPathParseReset
abbrev pub empty_tree : Tree
empty_tree p = none

-- The tree and the numbers of this backend.
pub record Batch : Type 0 where
  pub tree : Tree
  pub numbers : Numbers

-- How the way to the target's parent ends, with the tree that it leaves: at a node, or with an error
-- code.
pub data Way : Type 0 where
  stopped : Tree → ErrorCode → Way
  reached : Tree → List Name → ℕ → Way

-- What PathParseTreeInsert gives back: its code, and what it writes through its pointers.
pub record Parsed : Type 0 where
  pub code : ErrorCode
  pub batch : Batch
  pub parent_id : Option ℕ
  pub file_name : Option Name
  pub inode_id : Option ℕ

module _ (D : Dynahash) (hash : Key → ℕ) (start : D.Table → ℕ) (fuel tries patience : ℕ) where
  abbrev pub search : DirLock → ℕ → Name → State D.Table → Outcome D.Table ℕ
  search mode parent name s =
      search_directory D hash start fuel tries patience mode
        (record { parent_id = parent; name = name }) s

  -- One name on the way, by the node that stands at it.
  unfoldable pub go_on : Tree → List Name → State D.Table → ℕ → Outcome D.Table Way
  go_on t p s id =
      if id == path_not_exist
      then done s (stopped t ErrorCode.path_is_invalid)
      else done s
          (reached (set_node t p (record { inode_id = id; lock_acquired = pp_shared })) p id)

  unfoldable pub pass_node :
      Tree → List Name → Name → ℕ → PpLockMode → State D.Table → Outcome D.Table Way
  pass_node t p name id pp_exclusive s = done s (stopped t ErrorCode.path_lock_conflict)
  pass_node t p name id pp_none s = search DirLock.shared id name s >>= λ s' found.
      done s' (reached (set_node t p (record { inode_id = id; lock_acquired = pp_shared })) p id)
  pass_node t p name id pp_shared s = done s (reached t p id)
  pass_node t p name id pp_exclusive_for_create s = done s (reached t p id)

  unfoldable pub pass :
      Tree → List Name → ℕ → Name → State D.Table → Option Node → Outcome D.Table Way
  pass t p parent name s none =
      search DirLock.shared parent name s >>= λ s' id. go_on t (name ∷ p) s' id
  pass t p parent name s (some n) = pass_node t (name ∷ p) name n.inode_id n.lock_acquired s

  -- The way through the names, from a node.
  unfoldable pub walk : List Name → State D.Table → Way → Outcome D.Table Way
  walk names s (stopped t e) = done s (stopped t e)
  walk [] s (reached t p id) = done s (reached t p id)
  walk (name ∷ names) s (reached t p id) =
      pass t p id name s (t (name ∷ p)) >>= λ s' w. walk names s' w

  -- CheckWhetherPathExistsInDirectoryTable, which visits the last name too, unless it is empty.
  unfoldable pub look_up : List Name → ℕ → State D.Table → Outcome D.Table ℕ
  look_up [] parent s = done s parent
  look_up (name ∷ names) parent s = search DirLock.none_mode parent name s >>= λ s' id.
      if id == path_not_exist then done s' path_not_exist else look_up names id s'

  abbrev pub all_names : List Name × Name → List Name
  all_names (names, []) = names
  all_names (names, c ∷ cs) = names ++ ((c ∷ cs) ∷ [])

  unfoldable pub check_whether_path_exists : Option Name → State D.Table → Outcome D.Table ℕ
  check_whether_path_exists none s = failed s (raised ErrorCode.argument_error)
  check_whether_path_exists (some []) s = failed s (raised ErrorCode.argument_error)
  check_whether_path_exists (some (c ∷ cs)) s =
      if c == slash
      then look_up (all_names (path_names (c ∷ cs))) 0 s
      else failed s (raised ErrorCode.argument_error)
