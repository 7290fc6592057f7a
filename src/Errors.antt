-- ===== src/Errors.antt =====
-- cuckoo/utils/error_code.c, cuckoo/include/utils/error_log.h and
-- remote_connection_def/remote_connection_utils/error_code_def.h: an error code travels as one character of
-- the message that a server logs, and is read back from the message that the caller receives.
-- A message is its characters, as unsigned bytes, without the NUL at its end.
pub mod RoundTrip
mod Tests
use cuckoofs.Base.{
  ℕ, zero, suc, ◌+◌, ◌-◌, Bool, true, false, ◌&&◌, Option, none, some, ltb, if◌then◌else◌,
  get_elem?, get_or, List, [], ◌∷◌, ◌++◌,
}

-- CuckooErrorCode, without its last member, which counts the others.
pub data ErrorCode : Type 0 where
  success : ErrorCode
  path_is_invalid : ErrorCode
  path_is_root : ErrorCode
  path_exists : ErrorCode
  path_not_exists : ErrorCode
  path_lock_conflict : ErrorCode
  path_verify_failed : ErrorCode
  remote_transfer_failed : ErrorCode
  wrong_worker : ErrorCode
  obsolete_shard : ErrorCode
  remote_query_failed : ErrorCode
  argument_error : ErrorCode
  inode_row_type_error : ErrorCode
  file_exists : ErrorCode
  file_not_exists : ErrorCode
  out_of_memory : ErrorCode
  stream_error : ErrorCode
  program_error : ErrorCode
  smart_route_error : ErrorCode
  undefined : ErrorCode
  mkdir_duplicate : ErrorCode
  xkey_exists : ErrorCode
  xkey_not_exists : ErrorCode
  version_out_of_date : ErrorCode
  invalid_parameter : ErrorCode
  unknown : ErrorCode
  server_fault : ErrorCode
  zk_not_connect : ErrorCode
  zk_fetch_result_failed : ErrorCode
  transaction_fault : ErrorCode
  pooled_fault : ErrorCode
  not_found_fd : ErrorCode
  get_all_worker_conn_failed : ErrorCode
  io_error : ErrorCode
  readdir_renew_conn : ErrorCode

-- The numbers that the enumeration gives them.
abbrev pub all_codes : List ErrorCode
all_codes =
    success ∷ path_is_invalid ∷ path_is_root ∷ path_exists ∷ path_not_exists ∷ path_lock_conflict
    ∷ path_verify_failed ∷ remote_transfer_failed ∷ wrong_worker ∷ obsolete_shard
    ∷ remote_query_failed ∷ argument_error ∷ inode_row_type_error ∷ file_exists ∷ file_not_exists
    ∷ out_of_memory ∷ stream_error ∷ program_error ∷ smart_route_error ∷ undefined ∷ mkdir_duplicate
    ∷ xkey_exists ∷ xkey_not_exists ∷ version_out_of_date ∷ invalid_parameter ∷ unknown
    ∷ server_fault ∷ zk_not_connect ∷ zk_fetch_result_failed ∷ transaction_fault ∷ pooled_fault
    ∷ not_found_fd ∷ get_all_worker_conn_failed ∷ io_error ∷ readdir_renew_conn ∷ []

abbrev pub last_cuckoo_error_code : ℕ
last_cuckoo_error_code = 35

abbrev pub number_of : ErrorCode → ℕ
number_of success = 0
number_of path_is_invalid = 1
number_of path_is_root = 2
number_of path_exists = 3
number_of path_not_exists = 4
number_of path_lock_conflict = 5
number_of path_verify_failed = 6
number_of remote_transfer_failed = 7
number_of wrong_worker = 8
number_of obsolete_shard = 9
number_of remote_query_failed = 10
number_of argument_error = 11
number_of inode_row_type_error = 12
number_of file_exists = 13
number_of file_not_exists = 14
number_of out_of_memory = 15
number_of stream_error = 16
number_of program_error = 17
number_of smart_route_error = 18
number_of undefined = 19
number_of mkdir_duplicate = 20
number_of xkey_exists = 21
number_of xkey_not_exists = 22
number_of version_out_of_date = 23
number_of invalid_parameter = 24
number_of unknown = 25
number_of server_fault = 26
number_of zk_not_connect = 27
number_of zk_fetch_result_failed = 28
number_of transaction_fault = 29
number_of pooled_fault = 30
number_of not_found_fd = 31
number_of get_all_worker_conn_failed = 32
number_of io_error = 33
number_of readdir_renew_conn = 34

-- What CUCKOO_ELOG_ERROR hands to PostgreSQL, with a text that ends in the place in the code, and what
-- CUCKOO_ELOG_ERROR_EXTENDED does.
abbrev pub elog_text : ErrorCode → List ℕ → List ℕ
elog_text code text = (number_of code + 64) ∷ 32 ∷ text

abbrev pub drop : {A : Type 0} → ℕ → List A → List A
drop zero xs = xs
drop (suc n) [] = []
drop (suc n) (x ∷ xs) = drop n xs

-- The test of CuckooErrorMsgAnalyse on the ninth character, a signed char; `none` is a message of fewer
-- than eight characters, behind whose end it reads.
unfoldable pub decode : List ℕ → Option ℕ → Option (ErrorCode × Option (List ℕ))
decode msg none = none
decode msg (some c) =
    if ltb c 128 && (ltb 64 c && ltb c (64 + last_cuckoo_error_code))
    then some (get_or all_codes (c - 64) unknown, some (drop 9 msg))
    else some (unknown, some msg)

-- CuckooErrorMsgAnalyse. The first eight characters are those that the client library of PostgreSQL
-- puts before a message.
unfoldable pub error_msg_analyse : Option (List ℕ) → Option (ErrorCode × Option (List ℕ))
error_msg_analyse none = some (program_error, none)
error_msg_analyse (some msg) = decode msg (get_elem? (msg ++ (0 ∷ [])) 8)
