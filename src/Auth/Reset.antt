-- ===== src/Auth/Reset.antt =====
-- A forgotten password, from the request to the next login.
use clutch_d_backend.Base.{ℕ, String, true}
use clutch_d_backend.Schema.{User}
use clutch_d_backend.Redis.{Redis, CounterKind, count_up, set_code, delete_count, delete_code}
use clutch_d_backend.Session.{World, Result}
use clutch_d_backend.Auth.Tokens.{Jwt, AuthSettings}
use clutch_d_backend.Auth.Calls.{at}
use clutch_d_backend.Auth.Login.{Passwords, login, forgot_password_request, forgot_password_reset}

module _ (jwt : Jwt) (settings : AuthSettings) (passwords : Passwords)
    (address code password : String) (u : User) (now soon later : ℕ) (w : World) where
  abbrev email : String
  email = passwords.lower address

  abbrev pub requested : World
  requested = (forgot_password_request (at jwt settings now true) passwords address code w).1

  abbrev pub changed : Result (Unit {0}) × World
  changed =
      forgot_password_reset (at jwt settings soon true) passwords address code password requested

  abbrev pub entered : Result (String × ℕ) × World
  entered = login (at jwt settings later true) passwords address password changed.1

  abbrev asked_for : Redis → Redis
  asked_for redis =
      delete_count CounterKind.reset_attempts email
        (set_code now 600 email code (count_up now 3600 CounterKind.reset_rate email redis))

  abbrev reset_done : Redis → Redis
  reset_done redis =
      delete_count CounterKind.reset_rate email
        (delete_count CounterKind.reset_attempts email (delete_code email redis))

  abbrev changed_user : User
  changed_user = record u { password_hash = passwords.hash password }
