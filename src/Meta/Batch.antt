-- ===== src/Meta/Batch.antt =====
-- The handlers of many requests at once: CuckooCreateHandle, CuckooStatHandle, CuckooOpenHandle,
-- CuckooCloseHandle and CuckooUnlinkHandle. They verify and sort the paths, parse them one after the
-- other, and then go over the requests of each shard. `sort` is pg_qsort with pathcmp, and `visit` the
-- order in which hash_seq_search gives the shards.
use cuckoofs.Base.{ℕ, ◌+◌, Bool, true, false, Option, none, some, if◌then◌else◌, List, [], ◌∷◌}
use cuckoofs.DirHash.{Key}
use cuckoofs.DirHash.Table.{Dynahash}
use cuckoofs.DirHash.Cache.{State, Outcome, done, ◌>>=◌}
use cuckoofs.Path.{
  must_be_file, flag_not_root, flag_target_to_be_created,
  flag_acquire_shared_lock_if_target_is_directory,
}
use cuckoofs.Path.Tree.{Batch, Parsed}
use cuckoofs.Path.Target.{path_parse_tree_insert}
use cuckoofs.Shard.{Shard}
use cuckoofs.Meta.Tables.{InodeTables}
use cuckoofs.Meta.Create.{Request, is_success, create_loop}
use cuckoofs.Meta.Handlers.{search_shard}
use cuckoofs.Meta.Listing.{
  Listed, path_of, verify_all, noted, numbered, new_file, as_it_is, listed_at, shards_of,
  requests_of, put_back,
}
use cuckoofs.Meta.RowOps.{Handled, open_one, close_one, unlink_one, stat_one}

module _ (I : InodeTables) where
  -- The requests of one shard, and those of each.
  unfoldable pub run_requests :
      (I.Tables → Request → Handled I) → I.Tables → List Request → List Request × I.Tables
  run_requests op t [] = ([], t)
  run_requests op t (q ∷ qs) =
      let (q', t') = op t q in let (rest, t'') = run_requests op t' qs in (q' ∷ rest, t'')

  abbrev pub and_then :
      Option (List Request × I.Tables)
      → (List Request → I.Tables → Option (List Listed × I.Tables))
      → Option (List Listed × I.Tables)
  and_then none next = none
  and_then (some (rs, t)) next = next rs t

  unfoldable pub run_shards :
      (ℕ → I.Tables → List Request → Option (List Request × I.Tables))
      → List ℕ
      → I.Tables
      → List Listed
      → Option (List Listed × I.Tables)
  run_shards op [] t ls = some (ls, t)
  run_shards op (shard ∷ shards) t ls =
      and_then (op shard t (requests_of shard ls))
        (λ (rs : List Request) (t' : I.Tables). run_shards op shards t' (put_back shard rs ls))

  -- An operation on single requests, over those of a shard.
  abbrev pub each :
      (ℕ → I.Tables → Request → Handled I)
      → ℕ
      → I.Tables
      → List Request
      → Option (List Request × I.Tables)
  each op shard t qs = some (run_requests (op shard) t qs)

  abbrev pub Answer : Type 0
  Answer = Batch × Option (List Listed × I.Tables)

  module _ (hash_bytes : ℕ → ℕ) (local_server_id : ℕ) (shards : List Shard) (D : Dynahash)
      (hash : Key → ℕ) (start : D.Table → ℕ) (fuel tries patience : ℕ) (nextval : ℕ → ℕ)
      (server_id : ℕ) (sort : List Request → List Request) (visit : List ℕ → List ℕ) where
    abbrev pub place_of_number : Batch → Request → State D.Table → Outcome D.Table (Batch × Listed)
    place_of_number b q s =
        listed_at local_server_id b q s
          (search_shard hash_bytes local_server_id shards q.row.parentid_partid)

    -- A request with its parsed path.
    unfoldable pub after_parsing :
        (Request → Request) → Request → State D.Table → Parsed → Outcome D.Table (Batch × Listed)
    after_parsing prepare q s p =
        if is_success p.code
        then place_of_number p.batch (prepare (numbered (noted p q))) s
        else done s (p.batch, (noted p q, none))

    -- `out` says whether the number of the inode is asked for.
    unfoldable pub parse_one :
        ℕ
        → Bool
        → (Request → Request)
        → Batch
        → State D.Table
        → Request
        → Outcome D.Table (Batch × Listed)
    parse_one flag out prepare b s q =
        if is_success q.code
        then (path_parse_tree_insert D hash start fuel tries patience nextval server_id
              (path_of q.path) flag (if out then some q.row.st_ino else none) b s
            >>= λ s' p. after_parsing prepare q s' p)
        else done s (b, (q, none))

    unfoldable pub parse_all :
        ℕ
        → Bool
        → (Request → Request)
        → Batch
        → State D.Table
        → List Request
        → Outcome D.Table (Batch × List Listed)
    parse_all flag out prepare b s [] = done s (b, [])
    parse_all flag out prepare b s (q ∷ qs) = parse_one flag out prepare b s q >>= λ s' one.
        parse_all flag out prepare one.0 s' qs >>= λ s'' rest. done s'' (rest.0, one.1 ∷ rest.1)

    unfoldable pub handle_requests :
        ℕ
        → ℕ
        → Bool
        → (Request → Request)
        → (ℕ → I.Tables → List Request → Option (List Request × I.Tables))
        → List Request
        → Batch
        → State D.Table
        → I.Tables
        → Outcome D.Table Answer
    handle_requests requirement flag out prepare op qs b s t =
        parse_all flag out prepare b s (sort (verify_all requirement qs)) >>= λ s' listed.
        done s' (listed.0, run_shards op (visit (shards_of [] listed.1)) t listed.1)

    -- The handlers; `rounds` is the fuel of the groups of a shard.
    unfoldable pub create_handle :
        ℕ → ℕ → Bool → List Request → Batch → State D.Table → I.Tables → Outcome D.Table Answer
    create_handle rounds now update_existed qs b s t =
        handle_requests must_be_file (flag_not_root + flag_target_to_be_created) true (new_file now)
          (λ shard t' rs. create_loop I shard rounds update_existed t' rs) qs b s t

    unfoldable pub stat_handle :
        List Request → Batch → State D.Table → I.Tables → Outcome D.Table Answer
    stat_handle qs b s t = handle_requests 0 0 false as_it_is (each (stat_one I)) qs b s t

    unfoldable pub open_handle :
        List Request → Batch → State D.Table → I.Tables → Outcome D.Table Answer
    open_handle qs b s t =
        handle_requests 0 flag_acquire_shared_lock_if_target_is_directory false as_it_is
          (each (open_one I)) qs b s t

    unfoldable pub close_handle :
        ℕ → List Request → Batch → State D.Table → I.Tables → Outcome D.Table Answer
    close_handle now qs b s t =
        handle_requests 0 flag_acquire_shared_lock_if_target_is_directory false as_it_is
          (each (close_one I now)) qs b s t

    unfoldable pub unlink_handle :
        List Request → Batch → State D.Table → I.Tables → Outcome D.Table Answer
    unlink_handle qs b s t =
        handle_requests must_be_file 0 false as_it_is (each (unlink_one I)) qs b s t
