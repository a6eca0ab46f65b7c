-- ===== src/Auth/Cookies.antt =====
-- service/auth/auth.go: the cookies of a session. A request is its headers and what net/http reads of its
-- cookies; what is set is a list, in order.
use go_mutuals.Prelude.{
  ℕ, ◌+◌, Bool, true, false, not, ◌&&◌, ◌||◌, List, [], ◌∷◌, ◌++◌, ◌==◌, if◌then◌else◌, Outcome, ok,
  err,
}
use go_mutuals.Cursor.Bytes.{Bytes, eq_bytes}
use go_mutuals.Auth.{AuthFailure, no_cookie, reading_failed, hour, Settings}

-- `http.ErrNoCookie`, and the other errors of `c.Cookie`.
pub data CookieRead : Type 0 where
  cookie_value : Bytes → CookieRead
  err_no_cookie : CookieRead
  cookie_error : ℕ → CookieRead

pub record Request : Type 0 where
  pub header : Bytes → Bytes
  pub cookie : Bytes → CookieRead

pub data SameSite : Type 0 where
  strict none_mode : SameSite

pub record Cookie : Type 0 where
  pub name : Bytes
  pub value : Bytes
  pub expires : ℕ
  pub path : Bytes
  pub secure : Bool
  pub http_only : Bool
  pub same_site : SameSite
  pub domain : Bytes

abbrev pub cookie_expires : ℕ
cookie_expires = hour

abbrev pub auth_cookie_key : Bytes
auth_cookie_key = b'S' ∷ b'P' ∷ b'L' ∷ b'I' ∷ b'T' ∷ b'F' ∷ b'I' ∷ b'_' ∷ b'J' ∷ b'W' ∷ b'T' ∷ []

abbrev pub refresh_cookie_key : Bytes
refresh_cookie_key =
    b'S' ∷ b'P' ∷ b'L' ∷ b'I' ∷ b'T' ∷ b'F' ∷ b'I' ∷ b'_' ∷ b'R' ∷ b'E' ∷ b'F' ∷ b'R' ∷ b'E' ∷ b'S'
    ∷ b'H' ∷ b'_' ∷ b'J' ∷ b'W' ∷ b'T' ∷ []

-- `strings.HasPrefix` and `strings.Contains`
unfoldable pub has_prefix : Bytes → Bytes → Bool
has_prefix s [] = true
has_prefix [] (c ∷ prefix) = false
has_prefix (d ∷ s) (c ∷ prefix) = d == c && has_prefix s prefix

unfoldable pub contains_text : Bytes → Bytes → Bool
contains_text [] text = has_prefix [] text
contains_text (c ∷ s) text = has_prefix (c ∷ s) text || contains_text s text

module _ (settings : Settings) (request : Request) where
  -- `env.GetString("ENV") != "production" || clientIsLocalhost`
  unfoldable pub is_relaxed : Bool
  is_relaxed =
      not (
        eq_bytes settings.env
          (b'p' ∷ b'r' ∷ b'o' ∷ b'd' ∷ b'u' ∷ b'c' ∷ b't' ∷ b'i' ∷ b'o' ∷ b'n' ∷ []))
      || eq_bytes (request.header (b'O' ∷ b'r' ∷ b'i' ∷ b'g' ∷ b'i' ∷ b'n' ∷ [])) (
          b'h' ∷ b't' ∷ b't' ∷ b'p' ∷ b':' ∷ b'/' ∷ b'/' ∷ b'l' ∷ b'o' ∷ b'c' ∷ b'a' ∷ b'l' ∷ b'h'
          ∷ b'o' ∷ b's' ∷ b't' ∷ b':' ∷ b'3' ∷ b'0' ∷ b'0' ∷ b'0' ∷ [])

  -- The two tests of the user agent.
  unfoldable pub is_insecure_agent : Bytes → Bool
  is_insecure_agent user_agent =
      (contains_text user_agent
          (b'S' ∷ b'p' ∷ b'l' ∷ b'i' ∷ b't' ∷ b'F' ∷ b'i' ∷ b'L' ∷ b'a' ∷ b'b' ∷ b's' ∷ [])
        && contains_text user_agent (b'D' ∷ b'a' ∷ b'r' ∷ b'w' ∷ b'i' ∷ b'n' ∷ []))
      || (contains_text user_agent (b'S' ∷ b'a' ∷ b'f' ∷ b'a' ∷ b'r' ∷ b'i' ∷ [])
          && (not (contains_text user_agent (b'C' ∷ b'h' ∷ b'r' ∷ b'o' ∷ b'm' ∷ b'e' ∷ []))
              && not (
                  contains_text user_agent
                    (b'C' ∷ b'h' ∷ b'r' ∷ b'o' ∷ b'm' ∷ b'i' ∷ b'u' ∷ b'm' ∷ []))))

  -- `setCookie` and `clearCookie`
  unfoldable pub set_cookie : ℕ → Bytes → Bytes → List Cookie → List Cookie
  set_cookie now name value cookies =
      cookies
      ++ record {
        name = name;
        value = value;
        expires = now + cookie_expires;
        path = b'/' ∷ [];
        secure = not (
            eq_bytes settings.env (b'l' ∷ b'o' ∷ b'c' ∷ b'a' ∷ b'l' ∷ [])
            && is_insecure_agent (
                request.header
                  (b'U' ∷ b's' ∷ b'e' ∷ b'r' ∷ b'-' ∷ b'A' ∷ b'g' ∷ b'e' ∷ b'n' ∷ b't' ∷ [])));
        http_only = not is_relaxed;
        same_site = if is_relaxed then none_mode else strict;
        domain =
            if is_relaxed
            then []
            else b'.' ∷ b's' ∷ b'p' ∷ b'l' ∷ b'i' ∷ b't' ∷ b'f' ∷ b'i' ∷ b'.' ∷ b'c' ∷ b'o' ∷ b'm'
              ∷ [];
      }
        ∷ []

  unfoldable pub clear_cookie : ℕ → Bytes → List Cookie → List Cookie
  clear_cookie now name cookies = set_cookie now name [] cookies

  unfoldable pub set_session_cookies : ℕ → Bytes → Bytes → List Cookie → List Cookie
  set_session_cookies now auth_token refresh_token cookies =
      set_cookie now refresh_cookie_key refresh_token
        (set_cookie now auth_cookie_key auth_token cookies)

  unfoldable pub clear_session_cookies : ℕ → List Cookie → List Cookie
  clear_session_cookies now cookies =
      clear_cookie now refresh_cookie_key (clear_cookie now auth_cookie_key cookies)

-- `getCookie`: an empty cookie is a missing one.
abbrev pub cookie_or_error : CookieRead → Outcome AuthFailure Bytes
cookie_or_error (cookie_value []) = err no_cookie
cookie_or_error (cookie_value (c ∷ s)) = ok (c ∷ s)
cookie_or_error err_no_cookie = err no_cookie
cookie_or_error (cookie_error n) = err (reading_failed n)

unfoldable pub get_cookie : Request → Bytes → Outcome AuthFailure Bytes
get_cookie request name = cookie_or_error (request.cookie name)
