-- ===== src/Tests/LoginTests.antt =====
-- Logins with nonces and tokens, and a session that is resumed, on the server of the other tests.
use go_mutuals.Prelude.{
  arith, ℕ, ◌+◌, ◌*◌, ◌≡◌, ◌≢◌, ◌<◌, refl, sym, ap, ◌∙◌, subst, Bool, true, false, Option, none,
  some, List, [], ◌∷◌, ◌++◌, lt→ltb, ◌==◌, if◌then◌else◌, inl, inr, Bool-cases, Outcome, ok, err,
  panics,
}
use go_mutuals.Cursor.Bytes.{Bytes, eq_bytes, eq_bytes→eq, eq_bytes_self}
use go_mutuals.Numerals.{digit}
use go_mutuals.Throttle.{ClientError, prefixed_key}
use go_mutuals.Tests.ThrottleTests.{Store, read, client}
use go_mutuals.Tests.AuthTests.{gin-GinLaws, user, settings, jwt, cache, server, call_at, world}
use go_mutuals.Wallets.{chain_eth, chain_base, to_lower}
use go_mutuals.Slices.{contains}
use go_mutuals.Auth.{second, User}
use go_mutuals.Auth.Context.{get_user_authed_from_ctx, get_user_id_from_ctx, write_session_state}
use go_mutuals.Auth.Cookies.{contains_text, has_prefix}
use go_mutuals.Auth.Claims.{parse_one_time_login_token}
use go_mutuals.Auth.Tables.{
  Nonce, consume_nonce, consume_rows, any_consumable, is_consumable, insert_nonce, has_value,
  has_nonce_id,
}
use go_mutuals.Auth.Signatures.{Crypto, wallet_type_eoa}
use go_mutuals.Auth.Directory.{
  AuthResult, Directory, find_user, has_wallet, get_user_by_id, get_user_by_address_and_l1,
}
use go_mutuals.Auth.NonceLogin.{
  NonceAuthenticator, NonceTry, nonce_authenticate, generate_auth_nonce, generate_nonce, nonce_loop,
  nonce_prepend, encode_to_string,
}
use go_mutuals.Auth.Login.{SetNx, one_time_login_authenticate, cache_set_nx, login}
use go_mutuals.Auth.Bypass.{base, address_on, nonce_authenticate_unverified}
use go_mutuals.Auth.Spent.{NonceMove, insert, consume, play_nonces}
use go_mutuals.Auth.Once.{nonce_authenticate-Once}
use go_mutuals.Auth.Nonces.{IsFresh, generate_auth_nonce-IsFresh}
use go_mutuals.Auth.LogsIn.{LogsIn, login-LogsIn}
use go_mutuals.Auth.LoginTokens.{NxLaws, play_logins, one_time_login_authenticate-Once}

-- No signature is right, and no contract answers.
abbrev crypto : Crypto
crypto = record {
  decode = λ s. none;
  keccak256 = λ s. [];
  sig_to_pub = λ hash sig. none;
  pubkey_to_address_hex = λ key. [];
  compress_pubkey = λ key. [];
  verify_signature = λ key hash sig. false;
  new_validator_fails = λ address. true;
  is_valid_signature = λ address hash sig. none;
}

abbrev owner : User
owner = record {
  id = user;
  universal = false;
  wallets = (b'w' ∷ []) ∷ [];
  verified_email = none;
  deleted = false;
}

abbrev directory : Directory
directory = record {
  users = owner ∷ [];
  wallets =
      (record { id = b'w' ∷ []; address = b'a' ∷ []; l1_chain = chain_eth; deleted = false }) ∷ [];
  user_fault = none;
  nonce_fault = none;
}

abbrev attacker : NonceAuthenticator
attacker = record {
  chain_pub_key = record {
    pub_key_set = true;
    chain_set = true;
    pub_key = b'A' ∷ [];
    chain = chain_base;
  };
  nonce = b'n' ∷ [];
  message = b'n' ∷ [];
  signature = [];
  wallet_type = wallet_type_eoa;
}

abbrev fresh : List Nonce
fresh = (record { id = []; value = b'n' ∷ []; created_at = 0; consumed = false }) ∷ []

abbrev used : List Nonce
used = (record { id = []; value = b'n' ∷ []; created_at = 0; consumed = true }) ∷ []

consumed : consume_nonce (2 * second) (b'n' ∷ []) fresh ≡ ok used
unfolding consume_nonce consume_rows any_consumable is_consumable
consumed = refl

in_message : contains_text (b'n' ∷ []) (b'n' ∷ []) ≡ true
unfolding contains_text has_prefix
in_message = refl

owner_found : get_user_by_address_and_l1 directory (to_lower (b'A' ∷ [])) chain_eth ≡ ok owner
unfolding get_user_by_address_and_l1 find_user has_wallet contains to_lower
owner_found = refl

abbrev as_owner : AuthResult
as_owner = record {
  user = some owner;
  addresses =
      (record { chain_address = address_on attacker.chain_pub_key; wallet_type = wallet_type_eoa })
      ∷ [];
  email = none;
}

nonce_authenticate_unverified_example :
    nonce_authenticate crypto directory (2 * second) attacker fresh ≡ (used, ok as_owner)
nonce_authenticate_unverified_example =
    nonce_authenticate_unverified crypto directory (2 * second) attacker fresh used base owner refl
      in_message refl consumed owner_found

abbrev nonce_moves : List NonceMove
nonce_moves = insert (3 * second) (b'2' ∷ []) (b'n' ∷ []) ∷ consume (3 * second) (b'm' ∷ []) ∷ []

fresh_authenticates :
    nonce_authenticate crypto directory (2 * second) attacker fresh ≡ (used, ok as_owner)
fresh_authenticates =
    nonce_authenticate_unverified crypto directory (2 * second) attacker fresh used base owner refl
      in_message refl consumed owner_found

has_value_none : has_value (b'n' ∷ []) [] ≡ false
unfolding has_value
has_value_none = refl

nonce_authenticate-Once_example :
    nonce_authenticate crypto directory (4 * second) attacker (play_nonces nonce_moves used)
    ≢ (used, ok as_owner)
nonce_authenticate-Once_example =
    nonce_authenticate-Once crypto directory directory (2 * second) (4 * second) attacker attacker
      fresh used used nonce_moves as_owner as_owner (has_value_none, tt) fresh_authenticates refl

-- The second try gives a nonce, since there is a row of the first one's id.
abbrev tries : ℕ → NonceTry
tries i = record {
  random_read = ok ((if i == 0 then 1 else 18) ∷ []);
  at_time = 5 * second;
  row_id = if i == 0 then [] else b'i' ∷ [];
  insert_fault = none;
}

abbrev with_nonce : List Nonce
with_nonce =
    (record { id = b'i' ∷ []; value = b'1' ∷ b'2' ∷ []; created_at = 5 * second; consumed = false })
    ∷ fresh

given :
    generate_auth_nonce tries fresh
    ≡ (with_nonce, ok (b'1' ∷ b'2' ∷ [], nonce_prepend ++ b'1' ∷ b'2' ∷ []))
unfolding generate_auth_nonce nonce_loop generate_nonce encode_to_string digit insert_nonce
    has_nonce_id has_value
given = refl

generate_auth_nonce-IsFresh_example :
    (j : ℕ) × (j < 4)
    × IsFresh (tries j) with_nonce (b'1' ∷ b'2' ∷ []) (nonce_prepend ++ b'1' ∷ b'2' ∷ [])
generate_auth_nonce-IsFresh_example =
    generate_auth_nonce-IsFresh tries fresh with_nonce (has_value_none, tt) (b'1' ∷ b'2' ∷ [])
      (nonce_prepend ++ b'1' ∷ b'2' ∷ []) given

-- The user is logged in already, and goes on.
named : (u : User) → ◌≡◌ {A = Option User} (some owner) (some u) → u.id ≢ []
named u h e = let same : owner ≡ u = cc in cc (subst (λ (z : User). z.id ≡ []) (sym same) e)

stays_in : login server (call_at (200 * second)) [] (ok as_owner) world ≡ (world, ok user)
unfolding login get_user_authed_from_ctx get_user_id_from_ctx write_session_state
stays_in = refl

login-LogsIn_example :
    (u : User) × (◌≡◌ {A = Option User} (some owner) (some u))
    × (u.universal ≡ false)
    × LogsIn server (call_at (200 * second)) user u.id world world
login-LogsIn_example =
    login-LogsIn server (call_at (200 * second)) gin-GinLaws (λ e. cc) [] as_owner world world user
      named stays_in

-- SET with NX over the store.
abbrev nx_by :
    Outcome ClientError Bytes → ℕ → Bytes → Bytes → ℕ → Store → Store × Outcome ClientError Bool
nx_by (ok there) now key value ttl s = (s, ok false)
nx_by (err e) now key value ttl s = ((key, value, now + ttl) ∷ s, ok true)
nx_by panics now key value ttl s = ((key, value, now + ttl) ∷ s, ok true)

abbrev set_nx : SetNx Store
set_nx now key value ttl s = nx_by (read now key s) now key value ttl s

read_first :
    (t until : ℕ) (key value : Bytes) (s : Store)
    → t < until
    → read t key ((key, value, until) ∷ s) ≡ ok value
read_first t until key value s before = rw (eq_bytes_self key) (rw (lt→ltb t until before) refl)

nx_by_set :
    (o : Outcome ClientError Bytes) (now ttl t : ℕ) (key value : Bytes) (s s' : Store)
    → nx_by o now key value ttl s ≡ (s', ok true)
    → t < now + ttl
    → read t key s' ≡ ok value
nx_by_set (ok there) now ttl t key value s s' h before = cc
nx_by_set (err e) now ttl t key value s s' h before =
    subst (λ (z : Store). read t key z ≡ ok value) (ap (λ a. a.0) h)
      (read_first t (now + ttl) key value s before)
nx_by_set panics now ttl t key value s s' h before =
    subst (λ (z : Store). read t key z ≡ ok value) (ap (λ a. a.0) h)
      (read_first t (now + ttl) key value s before)

read_others :
    (t until : ℕ) (key value other : Bytes) (s : Store)
    → eq_bytes key other ≡ false
    → read t other ((key, value, until) ∷ s) ≡ read t other s
read_others t until key value other s differs = rw differs refl

nx_by_kept :
    (o : Outcome ClientError Bytes) (now ttl t : ℕ) (key value other kept : Bytes) (s : Store)
    → read now key s ≡ o
    → read now other s ≡ ok kept
    → read t other s ≡ ok kept
    → read t other (nx_by o now key value ttl s).0 ≡ ok kept
nx_by_kept (ok there) now ttl t key value other kept s is h k = k
nx_by_kept (err e) now ttl t key value other kept s is h k =
    elim (Bool-cases (eq_bytes key other)) [
      | inl same ↦
          let there = subst (λ (b : Bytes). read now b s ≡ err e) (eq_bytes→eq key other same) is in
          absurd cc
      | inr differs ↦ read_others t (now + ttl) key value other s differs ∙ k
    ]
nx_by_kept panics now ttl t key value other kept s is h k = elim (Bool-cases (eq_bytes key other)) [
  | inl same ↦
      let there = subst (λ (b : Bytes). read now b s ≡ panics) (eq_bytes→eq key other same) is in
      absurd cc
  | inr differs ↦ read_others t (now + ttl) key value other s differs ∙ k
]

set_nx-NxLaws : NxLaws Store client set_nx
set_nx-NxLaws = record {
  nx_set = λ now ttl t key value s s' h before.
      nx_by_set (read now key s) now ttl t key value s s' h before;
  nx_there = λ now ttl key value there s s' done h k. let found = rw h at k in cc;
  nx_kept = λ now ttl t key value other kept s h k.
      nx_by_kept (read now key s) now ttl t key value other kept s refl h k;
}

abbrev login_token : Bytes
login_token = b'o' ∷ []

abbrev by_token : AuthResult
by_token = record { user = some owner; addresses = []; email = none }

abbrev used_tokens : Store
used_tokens = (login_token, 1 ∷ [], 460 * second) ∷ []

token_parsed :
    parse_one_time_login_token settings jwt (100 * second) login_token ≡ ok (user, 400 * second)
unfolding parse_one_time_login_token
token_parsed = refl

token_used :
    one_time_login_authenticate cache set_nx settings jwt directory (100 * second) login_token []
    ≡ (used_tokens, ok by_token)
unfolding one_time_login_authenticate parse_one_time_login_token cache_set_nx prefixed_key
    get_user_by_id find_user
token_used = refl

abbrev other_logins : List (ℕ × Bytes × Directory)
other_logins = (150 * second, b'p' ∷ [], directory) ∷ []

one_time_login_authenticate-Once_example :
    one_time_login_authenticate cache set_nx settings jwt directory
      (200 * second)
      login_token
      (play_logins cache set_nx settings jwt other_logins used_tokens)
    ≢ (used_tokens, ok by_token)
one_time_login_authenticate-Once_example =
    one_time_login_authenticate-Once cache set_nx settings jwt set_nx-NxLaws directory directory
      (100 * second) (200 * second) (400 * second) login_token user [] used_tokens used_tokens
      other_logins by_token by_token token_parsed token_used (omega arith, tt) (omega arith)
