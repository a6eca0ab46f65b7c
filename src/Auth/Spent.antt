-- ===== src/Auth/Spent.antt =====
-- service/auth/auth.go: what the statements do to a nonce that was consumed.
use go_mutuals.Prelude.{
  arith, ℕ, ◌≡◌, ◌≢◌, refl, ◌∙◌, subst, true, false, List, [], ◌∷◌, inl, inr, Bool-cases, Outcome,
  ok, err, panics, ok_cancel,
}
use go_mutuals.Cursor.Bytes.{Bytes, eq_bytes, eq_bytes→eq, eq_bytes_self}
use go_mutuals.Auth.{AuthFailure, no_rows}
use go_mutuals.Auth.Tables.{
  Nonce, has_value, has_nonce_id, insert_nonce, is_consumable, consume_rows, any_consumable,
  consume_nonce,
}

-- The nonce has a row, and no row that is not consumed.
abbrev pub IsConsumed : Bytes → List Nonce → Type 0
IsConsumed value [] = Unit
IsConsumed value (n ∷ rows) = ((n.value ≡ value) → n.consumed ≡ true) × IsConsumed value rows

abbrev pub IsSpent : Bytes → List Nonce → Type 0
IsSpent value rows = (has_value value rows ≡ true) × IsConsumed value rows

pub data NonceMove : Type 0 where
  insert : ℕ → Bytes → Bytes → NonceMove
  consume : ℕ → Bytes → NonceMove

abbrev rows_or : List Nonce → Outcome AuthFailure (List Nonce) → List Nonce
rows_or rows (ok rows') = rows'
rows_or rows (err e) = rows
rows_or rows panics = rows

abbrev pub play_nonces : List NonceMove → List Nonce → List Nonce
play_nonces [] rows = rows
play_nonces (insert now id value ∷ moves) rows =
    play_nonces moves (rows_or rows (insert_nonce now id value rows))
play_nonces (consume now value ∷ moves) rows =
    play_nonces moves (rows_or rows (consume_nonce now value rows))

module _ (value : Bytes) where
  has_value-consume_rows :
      (now : ℕ) (other : Bytes) (rows : List Nonce)
      → has_value value (consume_rows now other rows) ≡ has_value value rows
  unfolding has_value consume_rows
  has_value-consume_rows now other [] = refl
  has_value-consume_rows now other (n ∷ rows) =
      ground (arith, has_value-consume_rows now other rows)

  consume_rows-IsConsumed :
      (now : ℕ) (other : Bytes) (rows : List Nonce)
      → IsConsumed value rows
      → IsConsumed value (consume_rows now other rows)
  unfolding consume_rows
  consume_rows-IsConsumed now other [] h = tt
  consume_rows-IsConsumed now other (n ∷ rows) h = elim (Bool-cases (is_consumable now other n)) [
    | inl taken ↦ rw taken (λ e. refl, consume_rows-IsConsumed now other rows h.1)
    | inr left ↦ rw left (h.0, consume_rows-IsConsumed now other rows h.1)
  ]

  has_value_absent : (rows : List Nonce) → has_value value rows ≡ false → IsConsumed value rows
  unfolding has_value
  has_value_absent [] h = tt
  has_value_absent (n ∷ rows) h = elim (Bool-cases (eq_bytes n.value value)) [
    | inl same ↦ let taken = rw same at h in cc
    | inr other ↦ (
      λ e.
          let same = subst (λ (b : Bytes). eq_bytes b value ≡ false) e other in
          absurd (cc (eq_bytes_self value)),
      has_value_absent rows (rw other at h),
    )
  ]

  -- A row of another value, or of a value that has one, does not matter.
  insert_nonce-IsSpent :
      (now : ℕ) (id other : Bytes) (rows : List Nonce)
      → IsSpent value rows
      → IsSpent value (rows_or rows (insert_nonce now id other rows))
  unfolding insert_nonce has_value
  insert_nonce-IsSpent now id other rows (there, spent) = elim (Bool-cases (has_value other rows)) [
    | inl old ↦ rw old (there, spent)
    | inr new ↦ elim (Bool-cases (has_nonce_id id rows)) [
      | inl taken ↦ rw (new, taken) (there, spent)
      | inr free ↦
          rw (new, free)
            (
              ground (arith, there),
              (λ e. absurd (cc (subst (λ (b : Bytes). has_value b rows ≡ false) e new)), spent),
            )
    ]
  ]

  consume_nonce-IsSpent :
      (now : ℕ) (other : Bytes) (rows : List Nonce)
      → IsSpent value rows
      → IsSpent value (rows_or rows (consume_nonce now other rows))
  unfolding consume_nonce
  consume_nonce-IsSpent now other rows (there, spent) =
      elim (Bool-cases (any_consumable now other rows)) [
        | inl taken ↦ rw taken (
          has_value-consume_rows now other rows ∙ there,
          consume_rows-IsConsumed now other rows spent,
        )
        | inr none_left ↦ rw none_left (there, spent)
      ]

  pub play_nonces-IsSpent :
      (moves : List NonceMove) (rows : List Nonce)
      → IsSpent value rows
      → IsSpent value (play_nonces moves rows)
  play_nonces-IsSpent [] rows h = h
  play_nonces-IsSpent (insert now id other ∷ moves) rows h =
      play_nonces-IsSpent moves (rows_or rows (insert_nonce now id other rows))
        (insert_nonce-IsSpent now id other rows h)
  play_nonces-IsSpent (consume now other ∷ moves) rows h =
      play_nonces-IsSpent moves (rows_or rows (consume_nonce now other rows))
        (consume_nonce-IsSpent now other rows h)

  any_consumable-has_value :
      (now : ℕ) (rows : List Nonce)
      → any_consumable now value rows ≡ true
      → has_value value rows ≡ true
  unfolding any_consumable has_value is_consumable
  any_consumable-has_value now [] h = cc
  any_consumable-has_value now (n ∷ rows) h = ground (arith, any_consumable-has_value now rows)

-- The index on `value` is unique.
abbrev pub IsUnique : List Nonce → Type 0
IsUnique [] = Unit
IsUnique (n ∷ rows) = (has_value n.value rows ≡ false) × IsUnique rows

module _ (value : Bytes) (now : ℕ) where
  consumed_row : (n : Nonce) → is_consumable now value n ≡ true → n.value ≡ value
  unfolding is_consumable
  consumed_row n h = eq_bytes→eq n.value value (ground (arith, h))

  consume_rows-all :
      (rows : List Nonce)
      → IsUnique rows
      → any_consumable now value rows ≡ true
      → IsConsumed value (consume_rows now value rows)
  unfolding consume_rows any_consumable
  consume_rows-all [] unique h = cc
  consume_rows-all (n ∷ rows) (alone, unique) h = elim (Bool-cases (is_consumable now value n)) [
    | inl taken ↦ rw taken (
      λ e. refl,
      consume_rows-IsConsumed value now value rows (
          has_value_absent value rows
            (subst (λ (b : Bytes). has_value b rows ≡ false) (consumed_row n taken) alone)),
    )
    | inr left ↦
        let later = rw left at h in
        rw left (
          λ e.
              let missing = subst (λ (b : Bytes). has_value b rows ≡ false) e alone in
              let present = any_consumable-has_value value now rows later in absurd cc,
          consume_rows-all rows unique later,
        )
  ]

  pub consume_nonce-spends :
      (rows rows' : List Nonce)
      → IsUnique rows
      → consume_nonce now value rows ≡ ok rows'
      → IsSpent value rows'
  unfolding consume_nonce
  consume_nonce-spends rows rows' unique h = elim (Bool-cases (any_consumable now value rows)) [
    | inl taken ↦
        subst (λ (z : List Nonce). IsSpent value z) (ok_cancel (rw taken at h))
          (
            has_value-consume_rows value now value rows
                ∙ any_consumable-has_value value now rows taken,
            consume_rows-all rows unique taken,
          )
    | inr none_left ↦ let refused = rw none_left at h in cc
  ]

  not_consumable :
      (n : Nonce) → (n.value ≡ value → n.consumed ≡ true) → is_consumable now value n ≢ true
  unfolding is_consumable
  not_consumable n consumed taken = ground (arith, consumed (consumed_row n taken))

  any_consumable-spent :
      (rows : List Nonce) → IsConsumed value rows → any_consumable now value rows ≡ false
  unfolding any_consumable
  any_consumable-spent [] h = refl
  any_consumable-spent (n ∷ rows) (consumed, h) = elim (Bool-cases (is_consumable now value n)) [
    | inl taken ↦ absurd (not_consumable n consumed taken)
    | inr left ↦ rw left (any_consumable-spent rows h)
  ]

  pub consume_nonce-spent :
      (rows : List Nonce) → IsSpent value rows → consume_nonce now value rows ≡ err no_rows
  unfolding consume_nonce
  consume_nonce-spent rows spent = rw (any_consumable-spent rows spent.1) refl
