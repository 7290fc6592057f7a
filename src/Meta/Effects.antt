-- ===== src/Meta/Effects.antt =====
-- What SearchAndUpdateInodeTableInfo leaves in the tables.
use cuckoofs.Base.{
  ℕ, Bool, true, false, ◌&&◌, not, Option, none, some, if◌then◌else◌, ◌≡◌, refl, ap, ap₂, sym, ◌∙◌,
  arith, Bool-cases, inl, inr, ◌⊎◌, ==_refl,
}
use cuckoofs.DirHash.Keys.{same_name_refl, same_name→≡}
use cuckoofs.Path.Tree.{Name}
use cuckoofs.Meta.{Inode}
use cuckoofs.Meta.Tables.{InodeTables, same_row}
use cuckoofs.Meta.Update.{
  Change, written, given, new_nlink, new_mode, drops, modified, needs_update, delete_or_keep,
  update_or_keep, update_row, updated_at, search_and_update,
}

pub same_row_refl : (s k : ℕ) (n : Name) → same_row s k n s k n ≡ true
same_row_refl s k n = rw (==_refl s, ==_refl k, same_name_refl n) refl

pub same_row→≡ :
    (s k : ℕ) (n : Name) (s' k' : ℕ) (n' : Name)
    → same_row s k n s' k' n' ≡ true
    → (s ≡ s') × (k ≡ k') × (n ≡ n')
same_row→≡ s k n s' k' n' same = (ground arith, ground arith, same_name→≡ n n' (ground arith))

given-false : {A : Type 0} (o : Option A) (old : A) → given o ≡ false → written o old ≡ old
given-false none old h = refl
given-false (some a) old h = absurd cc

nlink-kept :
    (o : Option ℕ) (old : ℕ) → (given o && not (drops o old)) ≡ false → new_nlink o old ≡ old
nlink-kept none old h = refl
nlink-kept (some c) old h = ground arith

mode-kept : (o : Option ℕ) (old : ℕ) → given o ≡ false → new_mode o old ≡ old
mode-kept none old h = refl
mode-kept (some c) old h = absurd cc

-- With no column to write the row is as it was.
modified-same : (c : Change) (r : Inode) → needs_update c r ≡ false → modified c r ≡ r
unfolding modified needs_update
modified-same c r h =
    let h1 : given c.new_size ≡ false = ground arith in
    let h2 : c.version ≡ false = ground arith in
    let h3 : (given c.nlink && not (drops c.nlink r.st_nlink)) ≡ false = ground arith in
    let h4 : given c.new_uid ≡ false = ground arith in
    let h5 : given c.new_gid ≡ false = ground arith in
    let h6 : given c.new_exec_mode ≡ false = ground arith in
    let h7 : given c.new_etag ≡ false = ground arith in
    let h8 : given c.new_atime ≡ false = ground arith in
    let h9 : given c.new_mtime ≡ false = ground arith in
    let h10 : given c.new_primary_node_id ≡ false = ground arith in
    rw
      (
        given-false c.new_size r.st_size h1,
        h2,
        nlink-kept c.nlink r.st_nlink h3,
        given-false c.new_uid r.st_uid h4,
        given-false c.new_gid r.st_gid h5,
        mode-kept c.new_exec_mode r.st_mode h6,
        given-false c.new_etag r.etag h7,
        given-false c.new_atime r.st_atim h8,
        given-false c.new_mtime r.st_mtim h9,
        given-false c.new_primary_node_id r.primary_nodeid h10,
      )
      refl

-- The row that is left of one: none when its last link has gone.
abbrev pub row_after : Change → Inode → Option Inode
row_after c r = if drops c.nlink r.st_nlink then none else some (modified c r)

-- What a call leaves at a place, by the row that was at its own.
abbrev pub place_after : Bool → Change → Option Inode → Option Inode
place_after do_update c none = none
place_after false c (some r) = some r
place_after true c (some r) = row_after c r

abbrev pub IsQuiet : Change → Option Inode → Type 0
IsQuiet c none = Unit
IsQuiet c (some r) = (drops c.nlink r.st_nlink ≡ false) ⊎ (needs_update c r ≡ false)

module _ (I : InodeTables) where
  unchanged :
      (t : I.Tables) (s k : ℕ) (n : Name) (r : Inode)
      → I.find t s k n ≡ some r
      → (s' k' : ℕ) (n' : Name)
      → I.find t s' k' n' ≡ (if same_row s k n s' k' n' then some r else I.find t s' k' n')
  unchanged t s k n r at s' k' n' = elim (Bool-cases (same_row s k n s' k' n')) [
    | inl same ↦ let (es, ek, en) = same_row→≡ s k n s' k' n' same in rw (same, ← es, ← ek, ← en) at
    | inr other ↦ rw other refl
  ]

  module _ (t : I.Tables) (s k : ℕ) (n : Name) (r : Inode) (c : Change)
      (at : I.find t s k n ≡ some r) where
    own : I.find t s r.parentid_partid r.name ≡ some r
    own =
        let (ek, en) = I.find-own t s k n r at in
        ap₂ (λ (j : ℕ) (m : Name). I.find t s j m) ek en ∙ at

    same_place :
        (s' k' : ℕ) (n' : Name)
        → same_row s r.parentid_partid r.name s' k' n' ≡ same_row s k n s' k' n'
    same_place s' k' n' =
        let (ek, en) = I.find-own t s k n r at in
        ap₂ (λ (j : ℕ) (m : Name). same_row s j m s' k' n') ek en

    kept-find :
        (b : Bool)
        → needs_update c r ≡ b
        → (s' k' : ℕ) (n' : Name)
        → I.find (update_or_keep I s (modified c r) b t) s' k' n'
          ≡ (if same_row s k n s' k' n' then some (modified c r) else I.find t s' k' n')
    unfolding update_or_keep modified
    kept-find true writes s' k' n' =
        I.find-replace t s (modified c r) r own s' k' n'
        ∙ ap (λ (b : Bool). if b then some (modified c r) else I.find t s' k' n')
            (same_place s' k' n')
    kept-find false quiet s' k' n' =
        unchanged t s k n r at s' k' n'
        ∙ ap (λ (x : Inode). if same_row s k n s' k' n' then some x else I.find t s' k' n')
            (sym (modified-same c r quiet))

    -- A row that is there: it is written, or deleted with its last link; no other row changes.
    update_row-find :
        (drops c.nlink r.st_nlink ≡ false) ⊎ (needs_update c r ≡ false)
        → (s' k' : ℕ) (n' : Name)
        → I.find (update_row I s true c r t) s' k' n'
          ≡ (if same_row s k n s' k' n' then row_after c r else I.find t s' k' n')
    unfolding update_row delete_or_keep
    update_row-find (inl kept) s' k' n' = rw kept (kept-find (needs_update c r) refl s' k' n')
    update_row-find (inr quiet) s' k' n' = elim (Bool-cases (drops c.nlink r.st_nlink)) [
      | inl gone ↦ rw (gone, quiet) (removed-find s' k' n')
      | inr kept ↦ rw kept (kept-find (needs_update c r) refl s' k' n')
    ]
      where
        removed-find :
            (s' k' : ℕ) (n' : Name)
            → I.find
                (update_or_keep I s (modified c r) false (I.remove t s r.parentid_partid r.name))
                s'
                k'
                n'
              ≡ (if same_row s k n s' k' n' then none else I.find t s' k' n')
        removed-find s' k' n' =
            I.find-remove t s r.parentid_partid r.name s' k' n'
            ∙ ap (λ (b : Bool). if b then none else I.find t s' k' n') (same_place s' k' n')

  pub nothing-find :
      (t : I.Tables) (s k : ℕ) (n : Name) (s' k' : ℕ) (n' : Name)
      → I.find t s k n ≡ none
      → I.find t s' k' n' ≡ (if same_row s k n s' k' n' then none else I.find t s' k' n')
  nothing-find t s k n s' k' n' at = elim (Bool-cases (same_row s k n s' k' n')) [
    | inl same ↦ let (es, ek, en) = same_row→≡ s k n s' k' n' same in rw (same, ← es, ← ek, ← en) at
    | inr other ↦ rw other refl
  ]

  updated_at-find :
      (t : I.Tables) (s k : ℕ) (n : Name) (do_update : Bool) (c : Change) (o : Option Inode)
      → I.find t s k n ≡ o
      → IsQuiet c o
      → ((updated_at I s do_update c t o).1 ≡ o)
        × ((s' k' : ℕ) (n' : Name)
            → I.find (updated_at I s do_update c t o).0 s' k' n'
              ≡ (if same_row s k n s' k' n' then place_after do_update c o else I.find t s' k' n'))
  unfolding updated_at update_row
  updated_at-find t s k n do_update c none at quiet =
      (refl, λ s' k' n'. nothing-find t s k n s' k' n' at)
  updated_at-find t s k n false c (some r) at quiet = (refl, unchanged t s k n r at)
  updated_at-find t s k n true c (some r) at quiet = (refl, update_row-find t s k n r c at quiet)

  -- SearchAndUpdateInodeTableInfo gives back the row as it was. Of that row it leaves what the change
  -- makes of it, nothing if its last link goes, and every other row of every shard as it was; when the
  -- last link goes, no other column may be asked for.
  pub search_and_update-find :
      (t : I.Tables) (s k : ℕ) (n : Name) (do_update : Bool) (c : Change)
      → IsQuiet c (I.find t s k n)
      → ((search_and_update I s k n do_update c t).1 ≡ I.find t s k n)
        × ((s' k' : ℕ) (n' : Name)
            → I.find (search_and_update I s k n do_update c t).0 s' k' n' ≡ (
                if same_row s k n s' k' n'
                then place_after do_update c (I.find t s k n)
                else I.find t s' k' n'))
  unfolding search_and_update
  search_and_update-find t s k n do_update c quiet =
      updated_at-find t s k n do_update c (I.find t s k n) refl quiet
