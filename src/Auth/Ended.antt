-- ===== src/Auth/Ended.antt =====
-- service/auth/auth.go: a session that was ended stays ended.
use go_mutuals.Prelude.{
  arith, ℕ, ◌≡◌, refl, true, false, List, [], ◌∷◌, if◌then◌else◌, inl, inr, Bool-cases, Outcome, ok,
  err, panics,
}
use go_mutuals.Cursor.Bytes.{Bytes, eq_bytes}
use go_mutuals.Auth.{AuthFailure}
use go_mutuals.Auth.Tables.{Session, SessionParams, refreshed, upsert_session, invalidate_session}

-- A row of the session is there, and it is invalidated and not deleted.
abbrev pub IsEnded : Bytes → List Session → Type 0
IsEnded id [] = ⊥
IsEnded id (s ∷ rows) =
    if eq_bytes s.id id then (s.invalidated ≡ true) × (s.deleted ≡ false) else IsEnded id rows

-- What happens to the table: an upsert, or the end of a session.
pub data SessionMove : Type 0 where
  upsert : ℕ → SessionParams → SessionMove
  invalidate : ℕ → Bytes → SessionMove

abbrev rows_after : List Session → Outcome AuthFailure (Session × List Session) → List Session
rows_after rows (ok upserted) = upserted.1
rows_after rows (err e) = rows
rows_after rows panics = rows

abbrev pub play_sessions : List SessionMove → List Session → List Session
play_sessions [] rows = rows
play_sessions (upsert now p ∷ moves) rows =
    play_sessions moves (rows_after rows (upsert_session now p rows))
play_sessions (invalidate now id ∷ moves) rows =
    play_sessions moves (invalidate_session now id rows)

module _ (id : Bytes) where
  upsert_session-IsEnded :
      (now : ℕ) (p : SessionParams) (rows : List Session)
      → IsEnded id rows
      → IsEnded id (rows_after rows (upsert_session now p rows))
  unfolding upsert_session refreshed
  upsert_session-IsEnded now p [] h = absurd h
  upsert_session-IsEnded now p (s ∷ rows) h = ground (arith, upsert_session-IsEnded now p rows)

  invalidate_session-IsEnded :
      (now : ℕ) (other : Bytes) (rows : List Session)
      → IsEnded id rows
      → IsEnded id (invalidate_session now other rows)
  unfolding invalidate_session
  invalidate_session-IsEnded now other [] h = h
  invalidate_session-IsEnded now other (s ∷ rows) h =
      ground (arith, invalidate_session-IsEnded now other rows)

  pub play_sessions-IsEnded :
      (moves : List SessionMove) (rows : List Session)
      → IsEnded id rows
      → IsEnded id (play_sessions moves rows)
  play_sessions-IsEnded [] rows h = h
  play_sessions-IsEnded (upsert now p ∷ moves) rows h =
      play_sessions-IsEnded moves (rows_after rows (upsert_session now p rows))
        (upsert_session-IsEnded now p rows h)
  play_sessions-IsEnded (invalidate now other ∷ moves) rows h =
      play_sessions-IsEnded moves (invalidate_session now other rows)
        (invalidate_session-IsEnded now other rows h)

  -- An upsert of a session that was ended gives its row, which says so.
  pub upsert_session-ended :
      (now : ℕ) (p : SessionParams) (rows : List Session)
      → p.id ≡ id
      → IsEnded id rows
      → (row : Session) × (rows' : List Session) × (upsert_session now p rows ≡ ok (row, rows'))
        × (row.invalidated ≡ true)
  unfolding upsert_session refreshed
  upsert_session-ended now p [] same h = absurd h
  upsert_session-ended now p (s ∷ rows) same h = elim (Bool-cases (eq_bytes s.id id)) [
    | inl hit ↦
        let ended : (s.invalidated ≡ true) × (s.deleted ≡ false) = rw hit at h in
        (refreshed now p s, refreshed now p s ∷ rows, rw same (rw hit (rw ended.1 refl)), ended.0)
    | inr miss ↦
        let later : IsEnded id rows = rw miss at h in
        let found = upsert_session-ended now p rows same later in
        (found.0, s ∷ found.1, rw same (rw miss (rw found.2 refl)), found.3)
  ]

  -- A session that has a row which is not deleted is ended by `InvalidateSession`.
  abbrev pub IsPresent : List Session → Type 0
  IsPresent [] = ⊥
  IsPresent (s ∷ rows) = if eq_bytes s.id id then s.deleted ≡ false else IsPresent rows

  pub invalidate_session-ends :
      (now : ℕ) (rows : List Session) → IsPresent rows → IsEnded id (invalidate_session now id rows)
  unfolding invalidate_session
  invalidate_session-ends now [] h = h
  invalidate_session-ends now (s ∷ rows) h = ground (arith, invalidate_session-ends now rows)
