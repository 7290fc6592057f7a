-- ===== src/Meta/Unlinked.antt =====
-- What CuckooUnlinkHandle comes to on one request.
use cuckoofs.Base.{
  ℕ, ◌-◌, ◌^◌, ◌<◌, ◌==◌, ◌||◌, ◌&&◌, not, Bool, true, false, Option, none, some, if◌then◌else◌,
  ◌≡◌, refl, ap, ◌∙◌, arith, inl, inr, Bool-cases, eq_of_some, add64,
}
use cuckoofs.Errors.{ErrorCode}
use cuckoofs.Path.Tree.{Name}
use cuckoofs.Meta.{Inode}
use cuckoofs.Meta.Tables.{InodeTables, same_row}
use cuckoofs.Meta.Update.{drops, needs_update, modified, search_and_update}
use cuckoofs.Meta.Effects.{IsQuiet, place_after, search_and_update-find}
use cuckoofs.Meta.Create.{Request, is_success}
use cuckoofs.Meta.RowOps.{Handled, is_regular, unlink_code, unlink_change, unlinked_one, unlink_one}

-- The row that Unlink leaves of one.
abbrev pub less_one : Inode → Option Inode
less_one r = if r.st_nlink == 1 then none else some (record r { st_nlink = r.st_nlink - 1 })

-- A row that is there has some links, and no more than its column holds.
abbrev pub IsCounted : Option Inode → Type 0
IsCounted none = Unit {0}
IsCounted (some r) = (0 < r.st_nlink) × (r.st_nlink < 2 ^ 64)

unlink-IsQuiet : (o : Option Inode) → IsQuiet unlink_change o
unfolding needs_update
unlink-IsQuiet none = tt
unlink-IsQuiet (some r) = elim (Bool-cases (drops unlink_change.nlink r.st_nlink)) [
  | inl gone ↦ inr (rw gone refl)
  | inr kept ↦ inl kept
]

less_one-eq :
    (r : Inode)
    → 0 < r.st_nlink
    → r.st_nlink < 2 ^ 64
    → place_after true unlink_change (some r) ≡ less_one r
unfolding modified
less_one-eq r pos word = elim (Bool-cases (r.st_nlink == 1)) [
  | inl one ↦
      let gone : (add64 r.st_nlink (2 ^ 64 - 1) == 0) ≡ true = ground arith in rw (one, gone) refl
  | inr more ↦
      let kept : (add64 r.st_nlink (2 ^ 64 - 1) == 0) ≡ false = ground arith in
      let less : add64 r.st_nlink (2 ^ 64 - 1) ≡ r.st_nlink - 1 = ground arith in
      rw (more, kept, less) refl
]

code_when :
    (x y : Bool)
    → (if not x || not y then ErrorCode.program_error else ErrorCode.success)
      ≡ (if x && y then ErrorCode.success else ErrorCode.program_error)
code_when true true = refl
code_when true false = refl
code_when false y = refl

module _ (I : InodeTables) (shard : ℕ) (t : I.Tables) (q : Request) where
  abbrev pub at_row : Option Inode
  at_row = I.find t shard q.row.parentid_partid q.row.name

  abbrev pub LeavesRow : Option Inode → I.Tables → Type 0
  LeavesRow left t' =
      (s k : ℕ) (n : Name)
      → I.find t' s k n
        ≡ (if same_row shard q.row.parentid_partid q.row.name s k n then left else I.find t s k n)

  -- What an unlink answers and leaves, by the row that was there.
  abbrev pub IsUnlinked : Option Inode → Handled I → Type 0
  IsUnlinked none (q', t') = (q'.code ≡ ErrorCode.file_not_exists) × LeavesRow none t'
  IsUnlinked (some r) (q', t') =
      (q'.code ≡ (
        if (r.st_nlink == 1) && is_regular r.st_mode
        then ErrorCode.success
        else ErrorCode.program_error))
      × LeavesRow (less_one r) t'

  unlinked_one-IsUnlinked :
      (o : Option Inode) (x : I.Tables × Option Inode)
      → x.1 ≡ o
      → IsCounted o
      → LeavesRow (place_after true unlink_change o) x.0
      → IsUnlinked o (unlinked_one I q x)
  unfolding unlinked_one unlink_code
  unlinked_one-IsUnlinked none (t', none) was counted leaves = (refl, leaves)
  unlinked_one-IsUnlinked none (t', some r) was counted leaves = absurd cc
  unlinked_one-IsUnlinked (some r) (t', none) was counted leaves = absurd cc
  unlinked_one-IsUnlinked (some r) (t', some p) was (pos, word) leaves =
      let same = eq_of_some p r was in
      (
        rw same (code_when (r.st_nlink == 1) (is_regular r.st_mode)),
        λ s k n.
            leaves s k n
            ∙ ap
                (λ (o : Option Inode).
                  if same_row shard q.row.parentid_partid q.row.name s k n
                  then o
                  else I.find t s k n)
                (less_one-eq r pos word),
      )

  -- CuckooUnlinkHandle on a request that has met no error. Without a row it answers FILE_NOT_EXISTS.
  -- With a row of some links it takes one link, and the row itself with the last, and leaves every other
  -- row as it was; it answers SUCCESS for the only link of a regular file, and PROGRAM_ERROR else,
  -- although the link is gone then too.
  pub unlink_one-IsUnlinked :
      is_success q.code ≡ true → IsCounted at_row → IsUnlinked at_row (unlink_one I shard t q)
  unfolding unlink_one
  unlink_one-IsUnlinked live counted =
      let (was, after) =
        search_and_update-find I t shard q.row.parentid_partid q.row.name true unlink_change
          (unlink-IsQuiet at_row) in
      rw live (
        unlinked_one-IsUnlinked at_row
          (search_and_update I shard q.row.parentid_partid q.row.name true unlink_change t) was
          counted after)
