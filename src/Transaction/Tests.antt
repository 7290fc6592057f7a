-- ===== src/Transaction/Tests.antt =====
-- The end of a transaction that holds a lock for reading and has an entry in its log.
use cuckoofs.Base.{ℕ, true, false, [], ◌∷◌, refl, arith, ◌==◌, if◌then◌else◌}
use cuckoofs.RwLock.{shared}
use cuckoofs.RwLock.Fields.{encode}
use cuckoofs.RwLock.System.{handle}
use cuckoofs.RwLock.Ops.{Ctx}
use cuckoofs.RwLock.Ops.ReleaseAll.{Others, Accounts}
use cuckoofs.DirHash.{added}
use cuckoofs.DirHash.Cache.{State}
use cuckoofs.DirHash.Coherence.{Inv, replay}
use cuckoofs.DirHash.Entries.{
  Entries, two_entries, key_hash, some_rows, dir_b, empty_cache, find_entry,
}
use cuckoofs.Path.Tree.{empty_tree}
use cuckoofs.Transaction.{begun, Answers, Session, Event, transaction_callback}
use cuckoofs.Transaction.Ends.{IsAborted, IsOverAt, on_abort-IsAborted, on_commit-IsOverAt}

abbrev reading : Ctx
reading = record {
  words = λ k. if k == 7 then encode 1 0 1 0 else 0;
  held = handle 7 shared ∷ [];
  holdoff = 1;
}

abbrev nobody : Others
nobody = record { shared_of = λ k. 0; exclusive_of = λ k. 0; refs_of = λ k. 0; flag_of = λ k. 0 }

reading-Accounts : Accounts nobody reading.words reading.held
reading-Accounts = record {
  fits = λ k. record {
    shared_fits = ground arith;
    exclusive_fits = ground arith;
    refs_fit = ground arith;
    flag_fits = omega arith;
  };
  word = λ k. ground arith;
}

abbrev cache : State Entries
cache = record empty_cache { locks = reading; log = added dir_b ∷ [] }

cache-Inv : Inv two_entries key_hash some_rows cache
unfolding find_entry replay
cache-Inv = record { cached = λ k i there. absurd cc; pending = λ k. refl }

abbrev session : Session Entries
session = record {
  explicit = begun;
  remote_gid = 49 ∷ [];
  tree = empty_tree;
  cache = cache;
  commands = [];
}

abbrev answers : Answers
answers = record { isolation_set = true; ended = true; is_prepared = true; remote_aborted = false }

abbrev start : Entries → ℕ
start t = 0

on_abort-IsAborted_example :
    IsAborted two_entries key_hash start 4 3 2 nobody some_rows begun
      (transaction_callback two_entries key_hash start 4 3 2 answers Event.abort session)
on_abort-IsAborted_example =
    on_abort-IsAborted two_entries key_hash start 4 3 2 answers nobody some_rows session
      reading-Accounts (omega arith) cache-Inv.cached

on_commit-IsOverAt_example :
    IsOverAt two_entries key_hash start 4 3 2 nobody cache
      (transaction_callback two_entries key_hash start 4 3 2 answers Event.commit session)
on_commit-IsOverAt_example =
    on_commit-IsOverAt two_entries key_hash start 4 3 2 answers nobody some_rows session
      reading-Accounts (omega arith) cache-Inv
