-- ===== src/Path.antt =====
-- cuckoo/utils/path_parse.c and cuckoo/include/utils/path_parse.h: the paths of a batch of requests, and
-- the tree of the directories that the batch has locked. A path is its bytes without the NUL at its end.
pub mod Names
pub mod Sequence
pub mod Tree
pub mod Target
pub mod Resolve
pub mod Walk
pub mod Permission
pub mod Parse
pub mod Compare
mod Tests
use cuckoofs.Base.{
  ℕ, ◌+◌, ◌==◌, Bool, true, false, ◌&&◌, not, Option, none, some, List, [], ◌∷◌, ◌++◌, bit_and,
  if◌then◌else◌, zero, suc,
}
use cuckoofs.Errors.{ErrorCode}

-- '/'
abbrev pub slash : ℕ
slash = 47

-- The flags of PathParseTreeInsert, of which `has` is the test.
abbrev pub flag_not_root : ℕ
flag_not_root = 1

abbrev pub flag_target_is_directory : ℕ
flag_target_is_directory = 2

abbrev pub flag_target_to_be_created : ℕ
flag_target_to_be_created = 4

abbrev pub flag_inode_id_for_input : ℕ
flag_inode_id_for_input = 8

abbrev pub flag_target_to_be_deleted : ℕ
flag_target_to_be_deleted = 16

abbrev pub flag_allow_operation_under_created_directory : ℕ
flag_allow_operation_under_created_directory = 32

abbrev pub flag_acquire_shared_lock_if_target_is_directory : ℕ
flag_acquire_shared_lock_if_target_is_directory = 64

abbrev pub has : ℕ → ℕ → Bool
has flag bit = not (bit_and flag bit == 0)

-- PPLockMode, without its last member.
pub data PpLockMode : Type 0 where
  pp_none pp_shared pp_exclusive pp_exclusive_for_create : PpLockMode

-- The part of a path behind its first byte, at the slashes: the names that end at one, and the last.
unfoldable pub glue : ℕ → List (List ℕ) × List ℕ → List (List ℕ) × List ℕ
glue c ([], last) = ([], c ∷ last)
glue c (name ∷ names, last) = ((c ∷ name) ∷ names, last)

unfoldable pub split : List ℕ → List (List ℕ) × List ℕ
split [] = ([], [])
split (c ∷ cs) =
    let (names, last) = split cs in if c == slash then ([] ∷ names, last) else glue c (names, last)

-- The names that PathParseTreeInsert goes through, from the first byte on, and the one that is left for
-- the target. Of an empty path the code reads beyond the end: here its target is empty.
unfoldable pub path_names : List ℕ → List (List ℕ) × List ℕ
path_names [] = ([], [])
path_names (c ∷ []) = ([], c ∷ [])
path_names (c ∷ d ∷ cs) = let (names, last) = split (d ∷ cs) in ((c ∷ []) ∷ names, last)

-- VERIFY_PATH_VALIDITY_REQUIREMENT_ and _PROPERTY_
abbrev pub must_be_directory : ℕ
must_be_directory = 1

abbrev pub must_be_file : ℕ
must_be_file = 2

abbrev pub can_be_directory : ℕ
can_be_directory = 1

abbrev pub can_be_file : ℕ
can_be_file = 2

unfoldable pub ends_with_slash : List ℕ → Bool
ends_with_slash [] = false
ends_with_slash (c ∷ []) = c == slash
ends_with_slash (c ∷ d ∷ cs) = ends_with_slash (d ∷ cs)

-- VerifyPathValidity, `none` being NULL, with the property.
unfoldable pub verify_property : ℕ → ℕ → ErrorCode × ℕ
verify_property requirement property =
    if has requirement must_be_directory && not (has property can_be_directory)
    then (ErrorCode.path_verify_failed, property)
    else if has requirement must_be_file && not (has property can_be_file)
    then (ErrorCode.path_verify_failed, property)
    else (ErrorCode.success, property)

unfoldable pub verify_path_validity : Option (List ℕ) → ℕ → ErrorCode × ℕ
verify_path_validity none requirement = (ErrorCode.path_is_invalid, 0)
verify_path_validity (some []) requirement = (ErrorCode.path_is_invalid, 0)
verify_path_validity (some (c ∷ cs)) requirement =
    if c == slash
    then verify_property requirement
        (if ends_with_slash (c ∷ cs) then can_be_directory else can_be_directory + can_be_file)
    else (ErrorCode.path_is_invalid, 0)
