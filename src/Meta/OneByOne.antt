-- ===== src/Meta/OneByOne.antt =====
-- CuckooCreateHandle as a whole: its groups do what the requests do one by one.
use cuckoofs.Base.{
  ℕ, suc, ◌+◌, ◌≤◌, Bool, true, false, Option, some, List, [], ◌∷◌, length, ◌≡◌, refl, ap, arith,
  inl, inr, Bool-cases,
}
use cuckoofs.DirHash.{Key}
use cuckoofs.DirHash.Table.{Dynahash}
use cuckoofs.DirHash.Cache.{State, Outcome, done, failed, ◌>>=◌}
use cuckoofs.Path.{must_be_file, flag_not_root, flag_target_to_be_created}
use cuckoofs.Path.Tree.{Batch}
use cuckoofs.Shard.{Shard}
use cuckoofs.Meta.Tables.{InodeTables}
use cuckoofs.Meta.Create.{Request, create_loop, settle}
use cuckoofs.Meta.Groups.{create_loop-settle}
use cuckoofs.Meta.Listing.{Listed, verify_all, new_file, shards_of, in_shard, requests_of, put_back}
use cuckoofs.Meta.Batch.{run_shards, Answer, parse_one, parse_all, handle_requests, create_handle}

length-put_back :
    (shard : ℕ) (rs : List Request) (ls : List Listed) → length (put_back shard rs ls) ≡ length ls
unfolding put_back
length-put_back shard rs [] = refl
length-put_back shard [] (l ∷ ls) = refl
length-put_back shard (r ∷ rs) ((q, place) ∷ ls) = elim (Bool-cases (in_shard shard place)) [
  | inl here ↦ rw here (ap suc (length-put_back shard rs ls))
  | inr over ↦ rw over (ap suc (length-put_back shard (r ∷ rs) ls))
]

length-requests_of : (shard : ℕ) (ls : List Listed) → length (requests_of shard ls) ≤ length ls
unfolding requests_of
length-requests_of shard [] = omega arith
length-requests_of shard ((q, place) ∷ ls) =
    let ih = length-requests_of shard ls in
    elim (Bool-cases (in_shard shard place)) [
      | inl here ↦ rw here (omega (arith, ih))
      | inr over ↦ rw over (omega (arith, ih))
    ]

length-verify_all :
    (requirement : ℕ) (qs : List Request) → length (verify_all requirement qs) ≡ length qs
unfolding verify_all
length-verify_all requirement [] = refl
length-verify_all requirement (q ∷ qs) = ap suc (length-verify_all requirement qs)

module _ (I : InodeTables) (rounds : ℕ) where
  -- The groups of a shard, and its requests one by one.
  abbrev by_groups : ℕ → I.Tables → List Request → Option (List Request × I.Tables)
  by_groups shard t qs = create_loop I shard rounds false t qs

  abbrev pub one_by_one : ℕ → I.Tables → List Request → Option (List Request × I.Tables)
  one_by_one shard t qs = some (settle I shard t qs)

  run_shards-eq :
      (shards : List ℕ) (t : I.Tables) (ls : List Listed)
      → length ls + length ls ≤ rounds
      → run_shards I by_groups shards t ls ≡ run_shards I one_by_one shards t ls
  unfolding run_shards
  run_shards-eq [] t ls fits = refl
  run_shards-eq (shard ∷ shards) t ls fits =
      let few = length-requests_of shard ls in
      let ends = create_loop-settle I shard rounds t (requests_of shard ls) (omega arith) in
      rw ends (
        run_shards-eq shards (settle I shard t (requests_of shard ls)).1
          (put_back shard (settle I shard t (requests_of shard ls)).0 ls)
          (omega (arith, length-put_back shard (settle I shard t (requests_of shard ls)).0 ls)))

  module _ (hash_bytes : ℕ → ℕ) (local_server_id : ℕ) (shards : List Shard) (D : Dynahash)
      (hash : Key → ℕ) (start : D.Table → ℕ) (fuel tries patience : ℕ) (nextval : ℕ → ℕ)
      (server_id : ℕ) (sort : List Request → List Request) (visit : List ℕ → List ℕ) where
    abbrev parsed :
        ℕ
        → Bool
        → (Request → Request)
        → Batch
        → State D.Table
        → List Request
        → Outcome D.Table (Batch × List Listed)
    parsed flag out prepare b s qs =
        parse_all I hash_bytes local_server_id shards D hash start fuel tries patience nextval
          server_id sort visit flag out prepare b s qs

    -- As many requests are parsed as there are.
    abbrev IsWhole : ℕ → Outcome D.Table (Batch × List Listed) → Type 0
    IsWhole n (done s (b, ls)) = length ls ≡ n
    IsWhole n (failed s e) = Unit {0}

    cons-IsWhole :
        (n : ℕ) (l : Listed) (o : Outcome D.Table (Batch × List Listed))
        → IsWhole n o
        → IsWhole (suc n) (o >>= λ s'' rest. done s'' (rest.0, l ∷ rest.1))
    cons-IsWhole n l (done s (b, ls)) h = ap suc h
    cons-IsWhole n l (failed s e) h = tt

    one-IsWhole :
        (n : ℕ) (o : Outcome D.Table (Batch × Listed))
        (rest_of : State D.Table → Batch → Outcome D.Table (Batch × List Listed))
        → ((s : State D.Table) (b : Batch) → IsWhole n (rest_of s b))
        → IsWhole
            (suc n)
            (o >>= λ s' one. rest_of s' one.0 >>= λ s'' rest. done s'' (rest.0, one.1 ∷ rest.1))
    one-IsWhole n (done s (b, l)) rest_of h = cons-IsWhole n l (rest_of s b) (h s b)
    one-IsWhole n (failed s e) rest_of h = tt

    parse_all-IsWhole :
        (flag : ℕ) (out : Bool) (prepare : Request → Request) (b : Batch) (s : State D.Table)
        (qs : List Request)
        → IsWhole (length qs) (parsed flag out prepare b s qs)
    unfolding parse_all
    parse_all-IsWhole flag out prepare b s [] = refl
    parse_all-IsWhole flag out prepare b s (q ∷ qs) =
        one-IsWhole (length qs)
          (parse_one I hash_bytes local_server_id shards D hash start fuel tries patience nextval
            server_id sort visit flag out prepare b s q)
          (λ s' b'. parsed flag out prepare b' s' qs)
          (λ s' b'. parse_all-IsWhole flag out prepare b' s' qs)

    abbrev over_shards :
        (ℕ → I.Tables → List Request → Option (List Request × I.Tables))
        → I.Tables
        → Outcome D.Table (Batch × List Listed)
        → Outcome D.Table (Answer I)
    over_shards op t o = o >>= λ s' listed.
        done s' (listed.0, run_shards I op (visit (shards_of [] listed.1)) t listed.1)

    over_shards-eq :
        (n : ℕ) (t : I.Tables) (o : Outcome D.Table (Batch × List Listed))
        → n + n ≤ rounds
        → IsWhole n o
        → over_shards by_groups t o ≡ over_shards one_by_one t o
    over_shards-eq n t (done s (b, ls)) fits all =
        ap (λ (x : Option (List Listed × I.Tables)). done s (b, x))
          (run_shards-eq (visit (shards_of [] ls)) t ls (omega (arith, all)))
    over_shards-eq n t (failed s e) fits all = refl

    -- CuckooCreateHandle without the update of existing files, with two rounds for each request and a
    -- sort that keeps their number, is the handler that inserts the requests of each shard one by one:
    -- the groups, their subtransactions and the attempts after a roll-back change no answer, no code and
    -- no row, and they end.
    pub create_handle-eq-handle_requests :
        (now : ℕ) (qs : List Request) (b : Batch) (s : State D.Table) (t : I.Tables)
        → ((rs : List Request) → length (sort rs) ≡ length rs)
        → length qs + length qs ≤ rounds
        → create_handle I hash_bytes local_server_id shards D hash start fuel tries patience nextval
            server_id sort visit rounds now false qs b s t
          ≡ handle_requests I hash_bytes local_server_id shards D hash start fuel tries patience
              nextval server_id sort visit must_be_file
              (flag_not_root + flag_target_to_be_created)
              true
              (new_file now)
              one_by_one
              qs
              b
              s
              t
    unfolding create_handle handle_requests
    create_handle-eq-handle_requests now qs b s t keeps fits =
        over_shards-eq (length (sort (verify_all must_be_file qs))) t
          (parsed (flag_not_root + flag_target_to_be_created) true (new_file now) b s
            (sort (verify_all must_be_file qs)))
          (omega (arith, keeps (verify_all must_be_file qs), length-verify_all must_be_file qs))
          (parse_all-IsWhole (flag_not_root + flag_target_to_be_created) true (new_file now) b s
            (sort (verify_all must_be_file qs)))
