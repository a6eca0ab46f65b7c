-- ===== src/Auth/Nonces.antt =====
-- service/auth/auth.go: what GenerateAuthNonce gives.
use go_mutuals.Prelude.{
  arith, ℕ, zero, suc, ◌+◌, ◌≡◌, ◌<◌, refl, sym, subst, true, Option, none, some, List, [], ◌∷◌,
  ◌++◌, lt→ltb, inl, inr, Bool-cases, Outcome, ok, err, panics, ok_cancel,
}
use go_mutuals.Cursor.Bytes.{Bytes, eq_bytes_self}
use go_mutuals.Auth.{AuthFailure, hour}
use go_mutuals.Auth.Cookies.{has_prefix, contains_text}
use go_mutuals.Auth.Tables.{
  Nonce, has_value, has_nonce_id, insert_nonce, is_consumable, consume_rows, any_consumable,
  consume_nonce,
}
use go_mutuals.Auth.Issuing.{unless_fault}
use go_mutuals.Auth.NonceLogin.{
  NonceTry, NonceGiven, nonce_prepend, generate_nonce, inserted_or_next, generated_or_next,
  nonce_loop, generate_auth_nonce,
}
use go_mutuals.Auth.Spent.{IsUnique}

has_prefix_self : (s : Bytes) → has_prefix s s ≡ true
unfolding has_prefix
has_prefix_self [] = refl
has_prefix_self (c ∷ s) = ground (arith, has_prefix_self s)

contains_text_self : (s : Bytes) → contains_text s s ≡ true
unfolding contains_text has_prefix
contains_text_self [] = refl
contains_text_self (c ∷ s) = ground (arith, has_prefix_self s)

contains_text_cons :
    (c : ℕ) (t s : Bytes) → contains_text t s ≡ true → contains_text (c ∷ t) s ≡ true
unfolding contains_text
contains_text_cons c t s h = elim (Bool-cases (has_prefix (c ∷ t) s)) [
  | inl begins ↦ rw begins refl
  | inr other ↦ rw other h
]

contains_text-append : (p s : Bytes) → contains_text (p ++ s) s ≡ true
contains_text-append [] s = contains_text_self s
contains_text-append (c ∷ p) s = contains_text_cons c (p ++ s) s (contains_text-append p s)

unless_fault_ok :
    {A : Type 0} (fault : Option ℕ) (o : Outcome AuthFailure A) (a : A)
    → unless_fault fault o ≡ ok a
    → o ≡ ok a
unless_fault_ok none o a h = h
unless_fault_ok (some n) o a h = cc

-- A nonce that can be consumed for an hour from when its row was made, in a message that contains it.
abbrev pub IsFresh : NonceTry → List Nonce → Bytes → Bytes → Type 0
IsFresh attempt rows' nonce message =
    (generate_nonce attempt.random_read ≡ ok nonce)
    × (message ≡ nonce_prepend ++ nonce)
    × (contains_text message nonce ≡ true)
    × IsUnique rows'
    × ((t : ℕ)
        → t < attempt.at_time + hour
        → consume_nonce t nonce rows' ≡ ok (consume_rows t nonce rows'))

insert_nonce_fresh :
    (now : ℕ) (id nonce : Bytes) (rows rows' : List Nonce)
    → IsUnique rows
    → insert_nonce now id nonce rows ≡ ok rows'
    → IsUnique rows'
      × ((t : ℕ) → t < now + hour → consume_nonce t nonce rows' ≡ ok (consume_rows t nonce rows'))
unfolding insert_nonce consume_nonce any_consumable is_consumable
insert_nonce_fresh now id nonce rows rows' unique h = elim (Bool-cases (has_value nonce rows)) [
  | inl old ↦ let refused = rw old at h in cc
  | inr new ↦ elim (Bool-cases (has_nonce_id id rows)) [
    | inl taken ↦ let refused = rw (new, taken) at h in cc
    | inr free ↦
        subst
          (λ (z : List Nonce).
            IsUnique z
            × ((t : ℕ) → t < now + hour → consume_nonce t nonce z ≡ ok (consume_rows t nonce z)))
          (ok_cancel (rw (new, free) at h))
          (
            (new, unique),
            λ t before. rw (eq_bytes_self nonce) (rw (lt→ltb t (now + hour) before) refl),
          )
  ]
]

module _ (attempts : ℕ → NonceTry) (rows rows' : List Nonce) (unique : IsUnique rows)
    (nonce message : Bytes) where
  abbrev Found : ℕ → Type 0
  Found bound = (j : ℕ) × (j < bound) × IsFresh (attempts j) rows' nonce message

  module _ (i bound : ℕ) (below : i < bound) (next : NonceGiven)
      (later : next ≡ (rows', ok (nonce, message)) → Found bound) where
    by_insert :
        (v : Bytes) (o : Outcome AuthFailure (List Nonce))
        → unless_fault
            (attempts i).insert_fault
            (insert_nonce (attempts i).at_time (attempts i).row_id v rows)
          ≡ o
        → generate_nonce (attempts i).random_read ≡ ok v
        → inserted_or_next v rows o next ≡ (rows', ok (nonce, message))
        → Found bound
    by_insert v panics is made h = cc
    by_insert v (err e) is made h = later h
    by_insert v (ok z) is made h =
        let inserted : insert_nonce (attempts i).at_time (attempts i).row_id v rows ≡ ok z =
          unless_fault_ok (attempts i).insert_fault
            (insert_nonce (attempts i).at_time (attempts i).row_id v rows) z is in
        let same : v ≡ nonce = cc in
        let fresh =
          insert_nonce_fresh (attempts i).at_time (attempts i).row_id nonce rows rows' unique cc in
        let text : message ≡ nonce_prepend ++ nonce = cc in
        (
          i,
          below,
          (
            cc,
            text,
            subst (λ (m : Bytes). contains_text m nonce ≡ true) (sym text)
                (contains_text-append nonce_prepend nonce),
            fresh.0,
            fresh.1,
          ),
        )

    by_generated :
        (g : Outcome AuthFailure Bytes)
        → generate_nonce (attempts i).random_read ≡ g
        → generated_or_next (attempts i) g rows next ≡ (rows', ok (nonce, message))
        → Found bound
    by_generated panics is h = cc
    by_generated (err e) is h = later h
    by_generated (ok v) is h =
        by_insert v
          (unless_fault (attempts i).insert_fault
            (insert_nonce (attempts i).at_time (attempts i).row_id v rows))
          refl is h

  nonce_loop_fresh :
      (n i : ℕ) → nonce_loop n attempts i rows ≡ (rows', ok (nonce, message)) → Found (i + n)
  unfolding nonce_loop
  nonce_loop_fresh zero i h = cc
  nonce_loop_fresh (suc n) i h =
      by_generated i (i + suc n) (omega arith) (nonce_loop n attempts (i + 1) rows)
        (λ k.
          let found = nonce_loop_fresh n (i + 1) k in (found.0, omega (arith, found.1), found.2))
        (generate_nonce (attempts i).random_read) refl h

  -- A nonce that GenerateAuthNonce gives is that of one of its four tries. Its message contains it, its
  -- value stays unique among the rows if they were unique, and it can be consumed for an hour from when
  -- its row was made.
  pub generate_auth_nonce-IsFresh :
      generate_auth_nonce attempts rows ≡ (rows', ok (nonce, message))
      → (j : ℕ) × (j < 4) × IsFresh (attempts j) rows' nonce message
  unfolding generate_auth_nonce
  generate_auth_nonce-IsFresh h = nonce_loop_fresh 4 0 h
