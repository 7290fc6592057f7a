-- ===== src/Errors/RoundTrip.antt =====
-- An error code survives the way from the server that logs it to the one that reads the message.
use cuckoofs.Base.{
  ℕ, zero, suc, ◌+◌, ◌-◌, ◌<◌, ◌≡◌, ◌≢◌, refl, sym, arith, true, ◌&&◌, some, ltb, get_elem?, get_or,
  List, [], ◌∷◌, ◌++◌, length, ◌⊎◌, inl, inr,
}
use mathlib.Core.Path.{subst}
use cuckoofs.Errors.{
  ErrorCode, all_codes, number_of, elog_text, drop, error_msg_analyse, decode, success,
  path_is_invalid, path_is_root, path_exists, path_not_exists, path_lock_conflict,
  path_verify_failed, remote_transfer_failed, wrong_worker, obsolete_shard, remote_query_failed,
  argument_error, inode_row_type_error, file_exists, file_not_exists, out_of_memory, stream_error,
  program_error, smart_route_error, undefined, mkdir_duplicate, xkey_exists, xkey_not_exists,
  version_out_of_date, invalid_parameter, unknown, server_fault, zk_not_connect,
  zk_fetch_result_failed, transaction_fault, pooled_fault, not_found_fd, get_all_worker_conn_failed,
  io_error, readdir_renew_conn,
}

number_of-lt : (code : ErrorCode) → number_of code < 35
number_of-lt success = omega arith
number_of-lt path_is_invalid = omega arith
number_of-lt path_is_root = omega arith
number_of-lt path_exists = omega arith
number_of-lt path_not_exists = omega arith
number_of-lt path_lock_conflict = omega arith
number_of-lt path_verify_failed = omega arith
number_of-lt remote_transfer_failed = omega arith
number_of-lt wrong_worker = omega arith
number_of-lt obsolete_shard = omega arith
number_of-lt remote_query_failed = omega arith
number_of-lt argument_error = omega arith
number_of-lt inode_row_type_error = omega arith
number_of-lt file_exists = omega arith
number_of-lt file_not_exists = omega arith
number_of-lt out_of_memory = omega arith
number_of-lt stream_error = omega arith
number_of-lt program_error = omega arith
number_of-lt smart_route_error = omega arith
number_of-lt undefined = omega arith
number_of-lt mkdir_duplicate = omega arith
number_of-lt xkey_exists = omega arith
number_of-lt xkey_not_exists = omega arith
number_of-lt version_out_of_date = omega arith
number_of-lt invalid_parameter = omega arith
number_of-lt unknown = omega arith
number_of-lt server_fault = omega arith
number_of-lt zk_not_connect = omega arith
number_of-lt zk_fetch_result_failed = omega arith
number_of-lt transaction_fault = omega arith
number_of-lt pooled_fault = omega arith
number_of-lt not_found_fd = omega arith
number_of-lt get_all_worker_conn_failed = omega arith
number_of-lt io_error = omega arith
number_of-lt readdir_renew_conn = omega arith

get_or-number_of : (code : ErrorCode) → get_or all_codes (number_of code) unknown ≡ code
get_or-number_of success = refl
get_or-number_of path_is_invalid = refl
get_or-number_of path_is_root = refl
get_or-number_of path_exists = refl
get_or-number_of path_not_exists = refl
get_or-number_of path_lock_conflict = refl
get_or-number_of path_verify_failed = refl
get_or-number_of remote_transfer_failed = refl
get_or-number_of wrong_worker = refl
get_or-number_of obsolete_shard = refl
get_or-number_of remote_query_failed = refl
get_or-number_of argument_error = refl
get_or-number_of inode_row_type_error = refl
get_or-number_of file_exists = refl
get_or-number_of file_not_exists = refl
get_or-number_of out_of_memory = refl
get_or-number_of stream_error = refl
get_or-number_of program_error = refl
get_or-number_of smart_route_error = refl
get_or-number_of undefined = refl
get_or-number_of mkdir_duplicate = refl
get_or-number_of xkey_exists = refl
get_or-number_of xkey_not_exists = refl
get_or-number_of version_out_of_date = refl
get_or-number_of invalid_parameter = refl
get_or-number_of unknown = refl
get_or-number_of server_fault = refl
get_or-number_of zk_not_connect = refl
get_or-number_of zk_fetch_result_failed = refl
get_or-number_of transaction_fault = refl
get_or-number_of pooled_fault = refl
get_or-number_of not_found_fd = refl
get_or-number_of get_all_worker_conn_failed = refl
get_or-number_of io_error = refl
get_or-number_of readdir_renew_conn = refl

number_of_zero : (code : ErrorCode) → number_of code ≡ 0 → code ≡ success
number_of_zero success e = refl
number_of_zero path_is_invalid e = absurd (omega arith)
number_of_zero path_is_root e = absurd (omega arith)
number_of_zero path_exists e = absurd (omega arith)
number_of_zero path_not_exists e = absurd (omega arith)
number_of_zero path_lock_conflict e = absurd (omega arith)
number_of_zero path_verify_failed e = absurd (omega arith)
number_of_zero remote_transfer_failed e = absurd (omega arith)
number_of_zero wrong_worker e = absurd (omega arith)
number_of_zero obsolete_shard e = absurd (omega arith)
number_of_zero remote_query_failed e = absurd (omega arith)
number_of_zero argument_error e = absurd (omega arith)
number_of_zero inode_row_type_error e = absurd (omega arith)
number_of_zero file_exists e = absurd (omega arith)
number_of_zero file_not_exists e = absurd (omega arith)
number_of_zero out_of_memory e = absurd (omega arith)
number_of_zero stream_error e = absurd (omega arith)
number_of_zero program_error e = absurd (omega arith)
number_of_zero smart_route_error e = absurd (omega arith)
number_of_zero undefined e = absurd (omega arith)
number_of_zero mkdir_duplicate e = absurd (omega arith)
number_of_zero xkey_exists e = absurd (omega arith)
number_of_zero xkey_not_exists e = absurd (omega arith)
number_of_zero version_out_of_date e = absurd (omega arith)
number_of_zero invalid_parameter e = absurd (omega arith)
number_of_zero unknown e = absurd (omega arith)
number_of_zero server_fault e = absurd (omega arith)
number_of_zero zk_not_connect e = absurd (omega arith)
number_of_zero zk_fetch_result_failed e = absurd (omega arith)
number_of_zero transaction_fault e = absurd (omega arith)
number_of_zero pooled_fault e = absurd (omega arith)
number_of_zero not_found_fd e = absurd (omega arith)
number_of_zero get_all_worker_conn_failed e = absurd (omega arith)
number_of_zero io_error e = absurd (omega arith)
number_of_zero readdir_renew_conn e = absurd (omega arith)

read_behind :
    (prefix : List ℕ) (n c : ℕ) (rest tail : List ℕ)
    → length prefix ≡ n
    → get_elem? ((prefix ++ (c ∷ rest)) ++ tail) n ≡ some c
read_behind [] zero c rest tail e = refl
read_behind [] (suc n) c rest tail e = absurd (omega arith)
read_behind (p ∷ ps) zero c rest tail e = absurd (omega arith)
read_behind (p ∷ ps) (suc n) c rest tail e = read_behind ps n c rest tail (omega arith)

drop_behind :
    (prefix : List ℕ) (n c : ℕ) (rest : List ℕ)
    → length prefix ≡ n
    → drop (suc n) (prefix ++ (c ∷ rest)) ≡ rest
drop_behind [] zero c rest e = refl
drop_behind [] (suc n) c rest e = absurd (omega arith)
drop_behind (p ∷ ps) zero c rest e = absurd (omega arith)
drop_behind (p ∷ ps) (suc n) c rest e = drop_behind ps n c rest (omega arith)

number_cases : (n : ℕ) → (n ≡ 0) ⊎ (0 < n)
number_cases zero = inl refl
number_cases (suc n) = inr (omega arith)

in_range :
    (n : ℕ)
    → 0 < n
    → n < 35
    → (ltb (n + 64) 128 && (ltb 64 (n + 64) && ltb (n + 64) (64 + 35))) ≡ true
in_range n pos lt = ground arith

-- A message of any code but SUCCESS, with eight characters put before it, is read back as that code and
-- the text behind its character.
pub error_msg_analyse-elog_text :
    (prefix : List ℕ) (code : ErrorCode) (text : List ℕ)
    → length prefix ≡ 8
    → code ≢ success
    → error_msg_analyse (some (prefix ++ elog_text code text)) ≡ some (code, some (32 ∷ text))
unfolding error_msg_analyse decode
error_msg_analyse-elog_text prefix code text eight other =
    let n = number_of code in
    let pos : 0 < n = elim (number_cases n) [
      | inl z ↦ absurd (other (number_of_zero code z))
      | inr p ↦ p
    ] in
    let inside : (ltb (n + 64) 128 && (ltb 64 (n + 64) && ltb (n + 64) (64 + 35))) ≡ true =
      in_range n pos (number_of-lt code) in
    let back : n + 64 - 64 ≡ n = omega arith in
    rw
      (
        read_behind prefix 8 (n + 64) (32 ∷ text) (0 ∷ []) eight,
        inside,
        back,
        get_or-number_of code,
        drop_behind prefix 8 (n + 64) (32 ∷ text) eight,
      )
      refl

-- A message of SUCCESS, with eight characters put before it, is read back as UNKNOWN, and whole.
pub error_msg_analyse-success :
    (prefix text : List ℕ)
    → length prefix ≡ 8
    → error_msg_analyse (some (prefix ++ elog_text success text))
      ≡ some (unknown, some (prefix ++ elog_text success text))
unfolding error_msg_analyse decode
error_msg_analyse-success prefix text eight =
    let msg = prefix ++ elog_text success text in
    subst (λ o. decode msg o ≡ some (unknown, some msg))
      (sym (read_behind prefix 8 64 (32 ∷ text) (0 ∷ []) eight)) refl
