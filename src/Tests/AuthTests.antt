-- ===== src/Tests/AuthTests.antt =====
-- Sessions and logins in a context that is a list, over the store of the tests of the throttle.
use go_mutuals.Prelude.{
  arith, ℕ, ◌+◌, ◌*◌, ◌≡◌, ◌≢◌, ◌≤◌, ◌<◌, refl, sym, Bool, false, Option, none, some, List, [], ◌∷◌,
  ltb, lt→ltb, if◌then◌else◌, inl, inr, Outcome, ok, err, panics,
}
use go_mutuals.Cursor.Bytes.{eq_bytes_apart, Bytes, eq_bytes, eq_bytes_self}
use go_mutuals.Numerals.{write_ℤ, write_ℕ, write_digits, digit}
use go_mutuals.Throttle.{ClientError, Cache, prefixed_key}
use go_mutuals.Tests.ThrottleTests.{Store, read, client}
use go_mutuals.Auth.{AuthFailure, second, Settings}
use go_mutuals.Auth.Context.{ContextValue, flag, Gin, GinLaws, write_session_state}
use go_mutuals.Auth.Cookies.{cookie_value}
use go_mutuals.Auth.Claims.{
  Jwt, AuthTokenClaims, RefreshTokenClaims, numeric_date, token_type_auth, token_type_refresh,
  token_type_one_time_login,
}
use go_mutuals.Auth.Tables.{Session}
use go_mutuals.Auth.Refresh.{
  Scripts, ScriptLaws, unix, force_auth_token_refresh, set_time, must_refresh_auth_token,
}
use go_mutuals.Auth.Issuing.{Server, Call, AuthWorld}
use go_mutuals.Auth.Sessions.{continue_session, continue_session_handler}
use go_mutuals.Auth.States.{Served, continue_session-Served}
use go_mutuals.Auth.Ended.{SessionMove, invalidate}
use go_mutuals.Auth.Forced.{IsStamped, force_auth_token_refresh-Kept}

-- The context: the last value of a key stands first.
abbrev pub Ctx : Type 0
Ctx = List (Bytes × ContextValue)

abbrev pub lookup_key : Bytes → Ctx → Outcome AuthFailure ContextValue
lookup_key key [] = panics
lookup_key key ((k, v) ∷ c) = let rest = lookup_key key c in if eq_bytes key k then ok v else rest

abbrev pub is_true : Outcome AuthFailure ContextValue → Bool
is_true (ok (flag b)) = b
is_true (ok v) = false
is_true (err e) = false
is_true panics = false

abbrev pub gin : Gin Ctx
gin = record {
  set = λ key v c. (key, v) ∷ c;
  must_get = lookup_key;
  get_bool = λ key c. is_true (lookup_key key c);
}

pub gin-GinLaws : GinLaws Ctx gin
gin-GinLaws = record {
  must_get_set = λ key v c. rw (eq_bytes_self key) refl;
  must_get_other = λ key other v c differs. rw differs refl;
  get_bool_set = λ key b c. rw (eq_bytes_self key) refl;
  get_bool_other = λ key other v c differs. rw differs refl;
}

-- The calls of a script.
abbrev pub found_text : Outcome ClientError Bytes → Option Bytes
found_text (ok text) = some text
found_text (err e) = none
found_text panics = none

abbrev pub expire : Bytes → ℕ → Store → Store
expire key until [] = []
expire key until ((k, text, old) ∷ s) =
    let rest = expire key until s in
    if eq_bytes k key then (k, text, until * second) ∷ s else (k, text, old) ∷ rest

abbrev pub scripts : Scripts Store
scripts = record {
  call_get = λ t key s. found_text (read t key s);
  call_set = λ key text s. (key, text, 0) ∷ s;
  call_expire_at = expire;
  run_fault = λ now s. none;
}

found_text-some :
    (o : Outcome ClientError Bytes) (text : Bytes) → found_text o ≡ some text → o ≡ ok text
found_text-some (ok found) text h = cc
found_text-some (err e) text h = cc
found_text-some panics text h = cc

pub scripts-ScriptLaws : ScriptLaws Store client scripts
scripts-ScriptLaws = record {
  call_get_some = λ t key text s h. found_text-some (read t key s) text h;
  set_kept = λ t until key text s before.
      rw (eq_bytes_self key) (rw (eq_bytes_self key) (rw (lt→ltb t (until * second) before) refl));
  set_others = λ t until key text key' s other.
      let differs = eq_bytes_apart key key' (λ e. other (sym e)) in
      rw (eq_bytes_self key) (rw differs refl);
}

pub read-returns : (t : ℕ) (key : Bytes) (s : Store) → read t key s ≢ panics
read-returns t key [] h = cc
read-returns t key ((k, text, until) ∷ s) h = ground (arith, read-returns t key s)

-- A user, a session of the user, and a server whose tokens are all the user's from the 50th second.
abbrev pub user : Bytes
user = b'u' ∷ []

abbrev pub session : Bytes
session = b's' ∷ []

abbrev pub settings : Settings
settings = record {
  env = b'l' ∷ b'o' ∷ b'c' ∷ b'a' ∷ b'l' ∷ [];
  auth_jwt_secret = 1 ∷ [];
  refresh_jwt_secret = 2 ∷ [];
  one_time_login_jwt_secret = 3 ∷ [];
  email_verification_jwt_secret = 4 ∷ [];
  auth_jwt_ttl = 300;
  refresh_jwt_ttl = 3000;
  email_verification_jwt_ttl = 3000;
}

abbrev pub auth_claims : AuthTokenClaims
auth_claims = record {
  user_id = user;
  session_id = session;
  refresh_id = [];
  roles = [];
  registered = record {
    token_type = token_type_auth;
    expires_at = some (350 * second);
    issuer = [];
    issued_at = some (numeric_date (50 * second));
  };
}

abbrev pub refresh_claims : RefreshTokenClaims
refresh_claims = record {
  id = b'r' ∷ [];
  parent_id = [];
  user_id = user;
  session_id = session;
  registered = record {
    token_type = token_type_refresh;
    expires_at = some (3050 * second);
    issuer = [];
    issued_at = some (50 * second);
  };
}

abbrev pub jwt : Jwt
jwt = record {
  auth_signer = record {
    signed_string = λ claims secret. inl (b'a' ∷ []);
    parse_with_claims = λ now token secret. some auth_claims;
  };
  refresh_signer = record {
    signed_string = λ claims secret. inl (b'r' ∷ []);
    parse_with_claims = λ now token secret. some refresh_claims;
  };
  one_time_login_signer = record {
    signed_string = λ claims secret. inl (b'o' ∷ []);
    parse_with_claims = λ now token secret. some (record {
      user_id = user;
      source = [];
      registered = record {
        token_type = token_type_one_time_login;
        expires_at = some (400 * second);
        issuer = [];
        issued_at = some (50 * second);
      };
    });
  };
  email_verification_signer = record {
    signed_string = λ claims secret. inr 0;
    parse_with_claims = λ now token secret. none;
  };
}

abbrev pub cache : Cache Store
cache = record { client = client; key_prefix = [] }

abbrev pub server : Server Ctx Store
server = record {
  gin = gin;
  settings = settings;
  jwt = jwt;
  auth_refresh_cache = cache;
  scripts = scripts;
}

abbrev pub call_at : ℕ → Call
call_at now = record {
  request = record { header = λ name. []; cookie = λ name. cookie_value (b'c' ∷ []) };
  now = now;
  session_id = b'n' ∷ [];
  refresh_id = b'f' ∷ [];
  user_roles = [];
  roles_fault = none;
  upsert_fault = none;
  invalidate_fault = none;
}

abbrev pub session_row : Session
session_row = record {
  id = session;
  user_id = user;
  created_at = 0;
  created_with_user_agent = [];
  created_with_platform = [];
  created_with_os = [];
  last_refreshed = 0;
  last_user_agent = [];
  last_platform = [];
  last_os = [];
  current_refresh_id = [];
  active_until = 3050 * second;
  invalidated = false;
  last_updated = 0;
  deleted = false;
}

abbrev pub world : AuthWorld Ctx Store
world = record {
  ctx = write_session_state gin user session [] [];
  cookies = [];
  sessions = session_row ∷ [];
  store = [];
}

-- What a logout at 100 leaves in the cache, until a minute after the tokens have expired.
abbrev pub forced : Store
forced = (user, b'1' ∷ b'0' ∷ b'0' ∷ [], 460 * second) ∷ []

pub forced_at_100 :
    force_auth_token_refresh cache scripts settings (100 * second) user [] ≡ (forced, ok tt)
unfolding force_auth_token_refresh set_time prefixed_key write_ℤ write_ℕ write_digits digit
forced_at_100 = refl

continue_session-Served_example :
    Served server
      (call_at (200 * second))
      (continue_session server (call_at (200 * second)) world)
      (continue_session_handler server (call_at (200 * second)) world)
continue_session-Served_example =
    continue_session-Served server (call_at (200 * second)) gin-GinLaws read-returns world

-- Nothing stands in the cache before.
nothing-IsStamped : IsStamped cache scripts settings user (100 * second) []
unfolding prefixed_key
nothing-IsStamped text h = cc

force_auth_token_refresh-Kept_example :
    ((t issued_at : ℕ)
      → t < (unix (100 * second) + 300 + 60) * second
      → must_refresh_auth_token cache scripts t user (numeric_date issued_at) forced
        ≡ ok (ltb (unix issued_at) (unix (100 * second))))
    × ((t : ℕ)
        → 100 * second ≤ t
        → t < (unix (100 * second) + 300 + 60) * second
        → IsStamped cache scripts settings user t forced)
force_auth_token_refresh-Kept_example =
    force_auth_token_refresh-Kept cache scripts settings user scripts-ScriptLaws (100 * second) []
      forced nothing-IsStamped refl forced_at_100

abbrev logout_call : Call
logout_call = call_at (100 * second)

abbrev next_call : Call
next_call = call_at (200 * second)

abbrev moves : List SessionMove
moves = invalidate (150 * second) (b'o' ∷ []) ∷ []
