-- ===== src/SignIn/ErrorType.antt =====
-- The values of ErrorType (src/protocol.h) that signing in and the dispatch answer with.
use shad_net.Prelude.{ℕ}

abbrev pub no_error : ℕ
no_error = 0

abbrev pub malformed : ℕ
malformed = 1

abbrev pub invalid : ℕ
invalid = 2

abbrev pub invalid_input : ℕ
invalid_input = 3

abbrev pub too_soon : ℕ
too_soon = 4

abbrev pub login_error : ℕ
login_error = 5

abbrev pub login_already_logged_in : ℕ
login_already_logged_in = 6

abbrev pub login_invalid_password : ℕ
login_invalid_password = 8

abbrev pub unauthorized : ℕ
unauthorized = 23

abbrev pub db_fail : ℕ
db_fail = 24
