-- ===== src/Path/Tests.antt =====
-- The parsing of paths over a cache that is empty, and the theorems on it.
use cuckoofs.Base.{ℕ, ◌+◌, ◌*◌, [], ◌∷◌, ◌++◌, ◌≡◌, some, false, refl, inl, arith, if◌then◌else◌}
use cuckoofs.Path.{slash}
use cuckoofs.Path.Compare.{pathcmp, negative, differ, is_below, pathcmp_contiguous}
use cuckoofs.DirHash.{Key, path_not_exist, same_key}
use cuckoofs.DirHash.Cache.{State}
use cuckoofs.DirHash.Coherence.{Inv, replay}
use cuckoofs.DirHash.Entries.{Entries, two_entries, key_hash, empty_cache, find_entry}
use cuckoofs.Path.Sequence.Unique.{drawn, Ascending, drawn-ascends}
use cuckoofs.Path.Tree.{Name, Batch, walk, reached, empty_tree}
use cuckoofs.Path.Target.{path_parse_tree_insert}
use cuckoofs.Path.Resolve.{onto, Agrees}
use cuckoofs.Path.Walk.{IsWay, walk-IsWay}
use cuckoofs.Path.Parse.{IsParsed, path_parse_tree_insert-IsParsed}

-- The root "/" has the number 1, and "/a" is directory 2.
abbrev root_name : Name
root_name = 47 ∷ []

abbrev name_a : Name
name_a = 97 ∷ []

abbrev name_b : Name
name_b = 98 ∷ []

abbrev rows : Key → ℕ
rows k =
    if same_key k (record { parent_id = 0; name = root_name })
    then 1
    else if same_key k (record { parent_id = 1; name = name_a })
    then 2
    else path_not_exist

abbrev cache : State Entries
cache = record empty_cache { rows = rows }

cache-Inv : Inv two_entries key_hash rows cache
unfolding find_entry replay
cache-Inv = record { cached = λ k i there. absurd cc; pending = λ k. refl }

abbrev nextval : ℕ → ℕ
nextval i = 1 + i * 32

abbrev batch : Batch
batch = record { tree = empty_tree; numbers = record { remain = 0; current = 0; asked = 0 } }

abbrev start : Entries → ℕ
start t = 1

nothing_there : Agrees rows empty_tree
nothing_there p n there = absurd cc

walk-IsWay_example :
    IsWay two_entries key_hash start 4 3 2 rows (onto (root_name ∷ name_a ∷ []) []) rows (
      walk two_entries key_hash start 4 3 2
        (root_name ∷ name_a ∷ [])
        cache
        (reached empty_tree [] 0))
walk-IsWay_example =
    walk-IsWay two_entries key_hash start 4 3 2 rows (root_name ∷ name_a ∷ []) empty_tree cache
      nothing_there cache-Inv (λ k. refl)

-- "/a/b" is to be made: the flags are PATH_PARSE_FLAG_TARGET_IS_DIRECTORY and _TARGET_TO_BE_CREATED.
path_parse_tree_insert-IsParsed_example :
    IsParsed two_entries key_hash start 4 3 2 nextval 7 rows 6
      (inl (refl, refl))
      rows
      (47 ∷ 97 ∷ 47 ∷ 98 ∷ [])
      (path_parse_tree_insert two_entries key_hash start 4 3 2 nextval 7
        (47 ∷ 97 ∷ 47 ∷ 98 ∷ [])
        6
        (some 0)
        batch
        cache)
path_parse_tree_insert-IsParsed_example =
    path_parse_tree_insert-IsParsed two_entries key_hash start 4 3 2 nextval 7 rows
      (47 ∷ 97 ∷ 47 ∷ 98 ∷ []) 6 (inl (refl, refl)) (some 0) batch cache nothing_there cache-Inv
      (λ k. refl)

drawn-ascends_example :
    Ascending 0 (drawn nextval 40 (record { remain = 0; current = 0; asked = 0 }))
drawn-ascends_example = drawn-ascends nextval 40 (λ i. omega arith) (omega arith) (omega arith)

-- "/a" and "/b", with "/a/c" below the first.
a_before_b : pathcmp (47 ∷ 97 ∷ []) (47 ∷ 98 ∷ []) ≡ negative
unfolding pathcmp differ
a_before_b = refl

b_not_below_a : is_below (47 ∷ 97 ∷ []) (47 ∷ 98 ∷ []) ≡ false
unfolding is_below
b_not_below_a = refl

pathcmp_contiguous_example :
    (pathcmp (47 ∷ 97 ∷ []) ((47 ∷ 97 ∷ []) ++ (slash ∷ 99 ∷ [])) ≡ negative)
    × (pathcmp ((47 ∷ 97 ∷ []) ++ (slash ∷ 99 ∷ [])) (47 ∷ 98 ∷ []) ≡ negative)
pathcmp_contiguous_example =
    pathcmp_contiguous (47 ∷ 97 ∷ []) (47 ∷ 98 ∷ []) (99 ∷ []) a_before_b b_not_below_a
