-- ===== src/Meta/Attributes.antt =====
-- What the handlers of times, owners and modes leave of the row of a path.
use cuckoofs.Base.{
  ℕ, ◌+◌, ◌-◌, ◌<◌, ltb, lt→ltb, dec_lt, not, ◌||◌, ◌&&◌, Bool, true, false, Option, none, some,
  if◌then◌else◌, List, ◌≡◌, refl, ap, ap₂, sym, ◌∙◌, arith, inl, inr, Bool-cases, bit_and, ◌==◌,
  ◌^◌,
}
use cuckoofs.Base.Bits.{
  test_bit, test_bit-and, test_bit-or, test_bit-shr, test_bit-zero, test_bit-complement,
}
use cuckoofs.Errors.{ErrorCode}
use cuckoofs.DirHash.{Key}
use cuckoofs.DirHash.Table.{Dynahash}
use cuckoofs.DirHash.Cache.{State, Outcome, done, failed, raised}
use cuckoofs.Path.{flag_acquire_shared_lock_if_target_is_directory}
use cuckoofs.Path.Tree.{Name, Batch, Parsed}
use cuckoofs.Shard.{Shard}
use cuckoofs.Meta.{Inode, hash_part_id, combine}
use cuckoofs.Meta.Tables.{InodeTables, same_row}
use cuckoofs.Meta.Update.{Change, no_change, modified, new_mode, not_exec_mask, search_and_update}
use cuckoofs.Meta.Effects.{same_row_refl, IsQuiet, place_after, search_and_update-find}
use cuckoofs.Meta.Handlers.{
  place_of, parsed_place, parse, row_changed, set_attributes, chmod, chown, utime_ns,
}
use cuckoofs.Meta.Moves.{IsLocal, locate-IsLocal}

-- The bits of a mode that chmod gives: the nine of the permissions from the request, the others from
-- the row.
exec_bits : (i : ℕ) → i < 32 → test_bit 511 i ≡ ltb i 9
exec_bits i lt = elim (dec_lt i 9) [
  | yes low ↦
      test_bit-complement 9 0 i (omega arith) low ∙ rw (test_bit-zero i, lt→ltb i 9 low) refl
  | no high ↦
      let split : i ≡ 9 + (i - 9) = omega arith in
      let test : ltb i 9 ≡ false = ground arith in
      ap (λ (j : ℕ). test_bit 511 j) split
      ∙ sym (test_bit-shr 9 511 (i - 9))
      ∙ test_bit-zero (i - 9)
      ∙ sym test
]

mode_bits :
    (mode old i : ℕ)
    → i < 32
    → test_bit (new_mode (some (bit_and mode 511)) old) i
      ≡ (if ltb i 9 then test_bit mode i else test_bit old i)
mode_bits mode old i lt =
    test_bit-or i (bit_and old not_exec_mask) (bit_and mode 511)
    ∙ ap₂ (λ (x y : Bool). x || y) (test_bit-and i old not_exec_mask) (test_bit-and i mode 511)
    ∙ ap₂ (λ (x y : Bool). (test_bit old i && x) || (test_bit mode i && y))
        (test_bit-complement 32 511 i (omega arith) lt ∙ ap not (exec_bits i lt)) (exec_bits i lt)
    ∙ pick (ltb i 9) (test_bit old i) (test_bit mode i)
  where
    pick : (x o m : Bool) → ((o && not x) || (m && x)) ≡ (if x then m else o)
    pick true true true = refl
    pick true true false = refl
    pick true false true = refl
    pick true false false = refl
    pick false true true = refl
    pick false true false = refl
    pick false false true = refl
    pick false false false = refl

module _ (hash_bytes : ℕ → ℕ) (local_server_id : ℕ) (shards : List Shard) (D : Dynahash)
    (hash : Key → ℕ) (start : D.Table → ℕ) (fuel tries patience : ℕ) (nextval : ℕ → ℕ)
    (server_id : ℕ) (I : InodeTables) where
  abbrev pub parse_file : List ℕ → Batch → State D.Table → Outcome D.Table Parsed
  parse_file path b s =
      parse hash_bytes local_server_id shards D hash start fuel tries patience nextval server_id I
        path flag_acquire_shared_lock_if_target_is_directory none b s

  module _ (c : Change) (no_links : c.nlink ≡ none) (path : List ℕ) (b : Batch) (s : State D.Table)
      (t : I.Tables) where
    abbrev set : Outcome D.Table (Batch × I.Tables)
    set =
        set_attributes hash_bytes local_server_id shards D hash start fuel tries patience nextval
          server_id I c path b s t

    abbrev change_of : ℕ → ℕ → Name → I.Tables × Option Inode
    change_of shard k n = search_and_update I shard k n true c t

    module _ (s' : State D.Table) (p : Parsed) (parent_id : ℕ) (name : Name) (shard : ℕ)
        (parsed : parse_file path b s ≡ done s' p) (well : p.code ≡ ErrorCode.success)
        (parent : p.parent_id ≡ some parent_id) (named : p.file_name ≡ some name)
        (own : IsLocal hash_bytes local_server_id shards
          (combine parent_id (hash_part_id name))
          shard) where
      abbrev key : ℕ
      key = combine parent_id (hash_part_id name)

      abbrev changed : I.Tables × Option Inode → Outcome D.Table (Batch × I.Tables)
      changed =
          row_changed hash_bytes local_server_id shards D hash start fuel tries patience nextval
            server_id I p.batch s'

      to_row : set ≡ changed (change_of shard key name)
      unfolding set_attributes parsed_place place_of
      to_row =
          rw
            (
              parsed,
              well,
              parent,
              named,
              locate-IsLocal hash_bytes local_server_id shards ErrorCode.wrong_worker key shard s'
                  own,
            )
            refl

      quiet : (o : Option Inode) → IsQuiet c o
      quiet none = tt
      quiet (some r) = inl (rw no_links refl)

      -- What the handler comes to, by the row of the path.
      abbrev IsAssigned : Option Inode → Type 0
      IsAssigned none = set ≡ failed s' (raised ErrorCode.file_not_exists)
      IsAssigned (some r) =
          (t' : I.Tables) × (set ≡ done s' (p.batch, t'))
          × ((s2 k2 : ℕ) (n2 : Name)
              → I.find t' s2 k2 n2 ≡ (
                  if same_row shard key name s2 k2 n2
                  then some (modified c r)
                  else I.find t s2 k2 n2))

      set-IsAssigned : (o : Option Inode) → I.find t shard key name ≡ o → IsAssigned o
      unfolding row_changed
      set-IsAssigned none missing =
          let (was, after) =
            search_and_update-find I t shard key name true c (quiet (I.find t shard key name)) in
          to_row ∙ rw (was, missing) refl
      set-IsAssigned (some r) at =
          let (was, after) =
            search_and_update-find I t shard key name true c (quiet (I.find t shard key name)) in
          (
            (change_of shard key name).0,
            to_row ∙ rw (was, at) refl,
            λ s2 k2 n2.
                after s2 k2 n2
                ∙ ap
                    (λ (o : Option Inode).
                      if same_row shard key name s2 k2 n2 then o else I.find t s2 k2 n2)
                    (ap (place_after true c) at ∙ rw no_links refl),
          )

  module _ (path : List ℕ) (b : Batch) (s : State D.Table) (t : I.Tables) (s' : State D.Table)
      (p : Parsed) (parent_id : ℕ) (name : Name) (shard : ℕ)
      (parsed : parse_file path b s ≡ done s' p) (well : p.code ≡ ErrorCode.success)
      (parent : p.parent_id ≡ some parent_id) (named : p.file_name ≡ some name)
      (own : IsLocal hash_bytes local_server_id shards
        (combine parent_id (hash_part_id name))
        shard) where
    -- What a handler comes to that is to make `f r` of the row `r` of the path: without the row it ends
    -- with FILE_NOT_EXISTS; with it it ends well, and leaves every other row as it was.
    abbrev pub IsRewritten :
        Outcome D.Table (Batch × I.Tables) → (Inode → Inode) → Option Inode → Type 0
    IsRewritten o f none = o ≡ failed s' (raised ErrorCode.file_not_exists)
    IsRewritten o f (some r) =
        (t' : I.Tables) × (o ≡ done s' (p.batch, t'))
        × ((s2 k2 : ℕ) (n2 : Name)
            → I.find t' s2 k2 n2 ≡ (
                if same_row shard (combine parent_id (hash_part_id name)) name s2 k2 n2
                then some (f r)
                else I.find t s2 k2 n2))

    rewritten :
        (c : Change) (no_links : c.nlink ≡ none) (f : Inode → Inode)
        → ((r : Inode) → modified c r ≡ f r)
        → (o : Option Inode) → I.find t shard (combine parent_id (hash_part_id name)) name ≡ o
        → IsRewritten (set c no_links path b s t) f o
    rewritten c no_links f same none missing =
        set-IsAssigned c no_links path b s t s' p parent_id name shard parsed well parent named own
          none missing
    rewritten c no_links f same (some r) at =
        let (t', ends, after) =
          set-IsAssigned c no_links path b s t s' p parent_id name shard parsed well parent named
            own (some r) at in
        (
          t',
          ends,
          λ s2 k2 n2.
              after s2 k2 n2
              ∙ ap
                  (λ (x : Inode).
                    if same_row shard (combine parent_id (hash_part_id name)) name s2 k2 n2
                    then some x
                    else I.find t s2 k2 n2)
                  (same r),
        )

    -- chown and utime_ns on a path that is parsed, for which this server is the one of the row. Without the
    -- row they end with FILE_NOT_EXISTS. With it they end well; the row then has the owner and the group
    -- of the request, or its two times, which are the current ones if either is -1, and all else in it
    -- and every other row is as it was.
    pub chown-utime_ns :
        (st_uid st_gid st_atim st_mtim now now' : ℕ)
        → IsRewritten
            (chown hash_bytes local_server_id shards D hash start fuel tries patience nextval
              server_id I st_uid st_gid path b s t)
            (λ (r : Inode). record r { st_uid = st_uid; st_gid = st_gid })
            (I.find t shard (combine parent_id (hash_part_id name)) name)
          × IsRewritten
              (utime_ns hash_bytes local_server_id shards D hash start fuel tries patience nextval
                server_id I st_atim st_mtim now now' path b s t)
              (λ (r : Inode).
                if (st_atim == 2 ^ 64 - 1) || (st_mtim == 2 ^ 64 - 1)
                then record r { st_atim = now; st_mtim = now' }
                else record r { st_atim = st_atim; st_mtim = st_mtim })
              (I.find t shard (combine parent_id (hash_part_id name)) name)
    unfolding chown utime_ns modified
    chown-utime_ns st_uid st_gid st_atim st_mtim now now' = (
      rewritten (record no_change { new_uid = some st_uid; new_gid = some st_gid }) refl
          (λ (r : Inode). record r { st_uid = st_uid; st_gid = st_gid }) (λ r. refl) _ refl,
      elim (Bool-cases ((st_atim == 2 ^ 64 - 1) || (st_mtim == 2 ^ 64 - 1))) [
        | inl current ↦ rw current (
            rewritten (record no_change { new_atime = some now; new_mtime = some now' }) refl
              (λ (r : Inode). record r { st_atim = now; st_mtim = now' }) (λ r. refl) _ refl)
        | inr asked ↦ rw asked (
            rewritten (record no_change { new_atime = some st_atim; new_mtime = some st_mtim }) refl
              (λ (r : Inode). record r { st_atim = st_atim; st_mtim = st_mtim }) (λ r. refl) _ refl)
      ],
    )

  module _ (mode : ℕ) (path : List ℕ) (b : Batch) (s : State D.Table) (t : I.Tables)
      (s' : State D.Table) (p : Parsed) (parent_id : ℕ) (name : Name) (shard : ℕ)
      (parsed : parse_file path b s ≡ done s' p) (well : p.code ≡ ErrorCode.success)
      (parent : p.parent_id ≡ some parent_id) (named : p.file_name ≡ some name)
      (own : IsLocal hash_bytes local_server_id shards
        (combine parent_id (hash_part_id name))
        shard) where
    -- chmod on a path that is parsed, whose row this server has, ends well. In the row then the nine bits
    -- of the permissions are those of the request, the type and the other bits of the mode are as they
    -- were, and so are all its other columns.
    pub chmod-bits :
        (r : Inode)
        → I.find t shard (combine parent_id (hash_part_id name)) name ≡ some r
        → (t' : I.Tables) × (r' : Inode) × (chmod hash_bytes local_server_id shards D hash start
              fuel tries patience nextval server_id I mode path b s t
            ≡ done s' (p.batch, t'))
          × (I.find t' shard (combine parent_id (hash_part_id name)) name ≡ some r')
          × (r' ≡ record r { st_mode = r'.st_mode })
          × ((i : ℕ)
              → i < 32
              → test_bit r'.st_mode i ≡ (if ltb i 9 then test_bit mode i else test_bit r.st_mode i))
    unfolding chmod modified
    chmod-bits r at =
        let (t', ends, after) =
          set-IsAssigned (record no_change { new_exec_mode = some (bit_and mode 511) }) refl path b
            s t s' p parent_id name shard parsed well parent named own (some r) at in
        (
          t',
          modified (record no_change { new_exec_mode = some (bit_and mode 511) }) r,
          ends,
          after shard (combine parent_id (hash_part_id name)) name
              ∙ rw (same_row_refl shard (combine parent_id (hash_part_id name)) name) refl,
          refl,
          λ i lt. mode_bits mode r.st_mode i lt,
        )
