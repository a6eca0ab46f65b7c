-- ===== src/Auth/Forced.antt =====
-- service/auth/auth.go: which tokens ForceAuthTokenRefresh forces to be refreshed.
use go_mutuals.Prelude.{
  arith, ℕ, ◌+◌, ◌*◌, ◌≡◌, ◌≤◌, ◌<◌, refl, sym, ap, ◌∙◌, subst, Bool, true, Option, none, some, ltb,
  inl, inr, Bool-cases, Option-cases, pos, ltb_ℤ, ok, ok_cancel,
}
use go_mutuals.Cursor.Bytes.{Bytes}
use go_mutuals.Numerals.{write_ℤ, atoi, in_int64}
use go_mutuals.Numerals.RoundTrip.{atoi-write_ℤ}
use go_mutuals.Throttle.{Cache, prefixed_key, cache_get}
use go_mutuals.Auth.{second, minute, Settings}
use go_mutuals.Auth.Claims.{numeric_date}
use go_mutuals.Auth.Refresh.{
  Scripts, ScriptLaws, unix, script_write, script_compare, script_after_get, set_time, get_time,
  force_auth_token_refresh, must_refresh_auth_token,
}

before_scaled : (a b : ℕ) → ltb (a * second) (b * second) ≡ ltb a b
before_scaled a b = ground arith

module _ {Store : Type 0} (cache : Cache Store) (scripts : Scripts Store) (settings : Settings)
    (user_id : Bytes) where
  -- A time that stands under the user's key was written by a call that is not later than `now`, and stands
  -- there as long as that call had it kept.
  abbrev pub Kept : ℕ → Bytes → Store → Type 0
  Kept u text s =
      (t : ℕ)
      → t < (u + settings.auth_jwt_ttl + 60) * second
      → cache.client.get t (prefixed_key cache user_id) s ≡ ok text

  abbrev pub IsStamped : ℕ → Store → Type 0
  IsStamped now s =
      (text : Bytes)
      → cache.client.get now (prefixed_key cache user_id) s ≡ ok text
      → (u : ℕ) × (text ≡ write_ℤ 10 (pos u))
        × (u ≤ unix now)
        × (in_int64 (pos u) ≡ true)
        × Kept u text s

  module _ (laws : ScriptLaws Store cache.client scripts) (now : ℕ) (s s' : Store) where
    abbrev Stamp : Type 0
    Stamp = Kept (unix now) (write_ℤ 10 (pos (unix now))) s'

    until_unix :
        unix (now + (settings.auth_jwt_ttl * second + minute))
        ≡ unix now + settings.auth_jwt_ttl + 60
    until_unix = omega arith

    written :
        (let until = unix (now + (settings.auth_jwt_ttl * second + minute)) in
          script_write cache scripts (prefixed_key cache user_id) (unix now) until s ≡ (s', ok tt)
          → Stamp)
    written h t before =
        let after = ap (λ a. a.0) h in
        subst
          (λ (z : Store).
            cache.client.get t (prefixed_key cache user_id) z ≡ ok (write_ℤ 10 (pos (unix now))))
          after
          (laws.set_kept t (unix (now + (settings.auth_jwt_ttl * second + minute)))
            (prefixed_key cache user_id) (write_ℤ 10 (pos (unix now))) s
            (omega (arith, until_unix)))

    compared :
        (u : ℕ)
        → u ≤ unix now
        → Kept u (write_ℤ 10 (pos u)) s
        → (let until = unix (now + (settings.auth_jwt_ttl * second + minute)) in
            script_compare cache scripts
              (prefixed_key cache user_id)
              (unix now)
              until
              (some (pos u))
              s
            ≡ (s', ok tt))
        → Stamp
    compared u past kept h = elim (Bool-cases (ltb_ℤ (pos u) (pos (unix now)))) [
      | inl earlier ↦ written (rw earlier at h)
      | inr same ↦
          let stays : s ≡ s' = ap (λ a. a.0) (rw same at h) in
          let at_once : u ≡ unix now = ground (arith, same, past) in
          subst (λ (z : Store). Kept (unix now) (write_ℤ 10 (pos (unix now))) z) stays
            (subst (λ (v : ℕ). Kept v (write_ℤ 10 (pos v)) s) at_once kept)
    ]

    ran :
        (o : Option Bytes)
        → scripts.call_get now (prefixed_key cache user_id) s ≡ o
        → IsStamped now s
        → (let until = unix (now + (settings.auth_jwt_ttl * second + minute)) in
            script_after_get cache scripts (prefixed_key cache user_id) (unix now) until o s
            ≡ (s', ok tt))
        → Stamp
    ran none reads stamped h = written h
    ran (some text) reads stamped h =
        let stamp =
          stamped text (laws.call_get_some now (prefixed_key cache user_id) text s reads) in
        let number : atoi text ≡ some (pos stamp.0) =
          ap atoi stamp.1 ∙ atoi-write_ℤ (pos stamp.0) stamp.3 in
        compared stamp.0 stamp.2 (subst (λ (b : Bytes). Kept stamp.0 b s) stamp.1 stamp.4)
          (rw number at h)

    pub force_auth_token_refresh-stamps :
        IsStamped now s
        → force_auth_token_refresh cache scripts settings now user_id s ≡ (s', ok tt)
        → Stamp
    unfolding force_auth_token_refresh set_time
    force_auth_token_refresh-stamps stamped h = elim (Option-cases (scripts.run_fault now s)) [
      | inl runs ↦
          ran (scripts.call_get now (prefixed_key cache user_id) s) refl stamped (rw runs at h)
      | inr failed ↦ let refused = rw failed.1 at h in cc
    ]

    must_refresh-stamp :
        in_int64 (pos (unix now)) ≡ true
        → Stamp
        → (t issued_at : ℕ) → t < (unix now + settings.auth_jwt_ttl + 60) * second
        → must_refresh_auth_token cache scripts t user_id (numeric_date issued_at) s'
          ≡ ok (ltb (unix issued_at) (unix now))
    unfolding must_refresh_auth_token get_time cache_get numeric_date
    must_refresh-stamp in_range stamp t issued_at before = rw (stamp t before) (
        rw (atoi-write_ℤ (pos (unix now)) in_range)
          (ap (λ (b : Bool). ok b) (before_scaled (unix issued_at) (unix now))))

  -- Once ForceAuthTokenRefresh has succeeded, an auth token of the user must be refreshed if and only if it
  -- was issued in an earlier second; one that was issued in the same second is let through. This holds for
  -- as long as a token issued until then is valid, and a minute more; and so long what stands in the cache
  -- is a time that such a call wrote, which it has to be before the call. The time must fit an int64.
  pub force_auth_token_refresh-Kept :
      ScriptLaws Store cache.client scripts
      → (now : ℕ) (s s' : Store) → IsStamped now s
      → in_int64 (pos (unix now)) ≡ true
      → force_auth_token_refresh cache scripts settings now user_id s ≡ (s', ok tt)
      → ((t issued_at : ℕ)
          → t < (unix now + settings.auth_jwt_ttl + 60) * second
          → must_refresh_auth_token cache scripts t user_id (numeric_date issued_at) s'
            ≡ ok (ltb (unix issued_at) (unix now)))
        × ((t : ℕ)
            → now ≤ t
            → t < (unix now + settings.auth_jwt_ttl + 60) * second
            → IsStamped t s')
  force_auth_token_refresh-Kept laws now s s' stamped in_range forced =
      let stamp = force_auth_token_refresh-stamps laws now s s' stamped forced in
      (
        must_refresh-stamp laws now s s' in_range stamp,
        λ t after before text reads.
            let same : text ≡ write_ℤ 10 (pos (unix now)) =
              ok_cancel (sym reads ∙ stamp t before) in
            (
              unix now,
              same,
              omega arith,
              in_range,
              subst (λ (b : Bytes). Kept (unix now) b s') (sym same) stamp,
            ),
      )
