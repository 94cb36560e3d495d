-- ===== src/Redis.antt =====
-- What the code keeps in Redis (backend/app/core/redis_client.py): the set of revoked token ids, and
-- counters and texts under a key, each with the time at which it expires. A key that has expired is not
-- there.
use clutch_d_backend.Base.{
  ℕ, suc, ◌+◌, String, Bool, true, false, not, ◌&&◌, Option, none, some, List, [], ◌∷◌, str_eq,
  if◌then◌else◌, ltb, find?, select,
}

-- `login_fails:`, `reset_rate:` and `reset_attempts:` with an email
pub data CounterKind : Type 0 where
  login_fails reset_rate reset_attempts : CounterKind

abbrev kind_eq : CounterKind → CounterKind → Bool
kind_eq CounterKind.login_fails CounterKind.login_fails = true
kind_eq CounterKind.reset_rate CounterKind.reset_rate = true
kind_eq CounterKind.reset_attempts CounterKind.reset_attempts = true
kind_eq _ _ = false

pub record Counter : Type 0 where
  pub kind : CounterKind
  pub email : String
  pub count : ℕ
  pub ends : ℕ

-- `reset:` with an email
pub record ResetCode : Type 0 where
  pub email : String
  pub code : String
  pub ends : ℕ

pub record Redis : Type 0 where
  -- `token_blacklist`
  pub revoked : List ℕ
  pub revoked_ends : ℕ
  pub counters : List Counter
  pub codes : List ResetCode

abbrev pub is_counter : CounterKind → String → Counter → Bool
is_counter kind email c = kind_eq c.kind kind && str_eq c.email email

-- `int(get(key))`, 0 for a key that is not there
abbrev live_count : ℕ → Option Counter → ℕ
live_count now none = 0
live_count now (some c) = if ltb now c.ends then c.count else 0

unfoldable pub count_of : ℕ → CounterKind → String → Redis → ℕ
count_of now kind email redis = live_count now (find? (is_counter kind email) redis.counters)

-- `delete(key)`
abbrev pub without : CounterKind → String → List Counter → List Counter
without kind email = select (λ c. not (is_counter kind email c))

unfoldable pub delete_count : CounterKind → String → Redis → Redis
delete_count kind email redis = record redis { counters = without kind email redis.counters }

-- `incr(key)` and `expire(key, ttl)`
unfoldable pub count_up : ℕ → ℕ → CounterKind → String → Redis → Redis
unfolding count_of
count_up now ttl kind email redis = record redis {
  counters =
      record {
        kind = kind;
        email = email;
        count = suc (count_of now kind email redis);
        ends = now + ttl;
      }
      ∷ without kind email redis.counters;
}

abbrev live_code : ℕ → Option ResetCode → Option String
live_code now none = none
live_code now (some c) = if ltb now c.ends then some c.code else none

unfoldable pub code_of : ℕ → String → Redis → Option String
code_of now email redis = live_code now (find? (λ c. str_eq c.email email) redis.codes)

unfoldable pub delete_code : String → Redis → Redis
delete_code email redis = record redis {
  codes = select (λ c. not (str_eq c.email email)) redis.codes;
}

-- `setex(key, ttl, code)`
unfoldable pub set_code : ℕ → ℕ → String → String → Redis → Redis
unfolding delete_code
set_code now ttl email code redis = record redis {
  codes = record { email = email; code = code; ends = now + ttl } ∷ (delete_code email redis).codes;
}

-- The members of the set, none after it has expired.
unfoldable pub revoked_at : ℕ → Redis → List ℕ
revoked_at now redis = if ltb now redis.revoked_ends then redis.revoked else []

-- `sadd` and `expire` of the set, which restarts the time of the whole set
unfoldable pub revoke : ℕ → ℕ → ℕ → Redis → Redis
unfolding revoked_at
revoke now ttl jti redis = record redis {
  revoked = jti ∷ revoked_at now redis;
  revoked_ends = now + ttl;
}
