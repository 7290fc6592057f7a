-- ===== src/Errors/Tests.antt =====
-- Runs of the reading of error messages.
use cuckoofs.Base.{ℕ, ◌≡◌, ◌≢◌, refl, some, List, [], ◌∷◌, ◌++◌}
use cuckoofs.Errors.{elog_text, error_msg_analyse, path_exists, success}
use cuckoofs.Errors.RoundTrip.{error_msg_analyse-elog_text}

-- "ERROR:  "
abbrev error_prefix : List ℕ
error_prefix = 69 ∷ 82 ∷ 82 ∷ 79 ∷ 82 ∷ 58 ∷ 32 ∷ 32 ∷ []

path_exists-not_success : path_exists ≢ success
path_exists-not_success e = absurd cc

error_msg_analyse-elog_text_example :
    error_msg_analyse (some (error_prefix ++ elog_text path_exists (97 ∷ [])))
    ≡ some (path_exists, some (32 ∷ 97 ∷ []))
error_msg_analyse-elog_text_example =
    error_msg_analyse-elog_text error_prefix path_exists (97 ∷ []) refl path_exists-not_success
