-- ===== src/Tokens/Ids.antt =====
-- service/persist/token.go and util/numbers.go: the ids of tokens in GraphQL.
use go_mutuals.Prelude.{
  ℕ, ◌≡◌, ◌≢◌, refl, sym, false, ◌⊎◌, inl, inr, [], ◌∷◌, arith, ◌==◌, ok, Bool-cases, subst,
}
use go_mutuals.Cursor.Bytes.{Bytes, eq_bytes}
use go_mutuals.Wallets.{lower, to_lower}
use go_mutuals.Wallets.Formats.{a_string}
use go_mutuals.Tokens.{
  has_prefix_0x, trim_prefix_0x, zero_text, without_zeros, from_first_digit,
  remove_left_padded_zeros, hex_id_string, hex_id_marshal_gql, hex_id_unmarshal_gql,
}

-- A zero alone, or a text that begins with another byte.
abbrev pub IsTrimmed : Bytes → Type 0
IsTrimmed [] = ⊥
IsTrimmed (c ∷ s) = (c ∷ s ≡ zero_text) ⊎ (c ≢ b'0')

from_first_digit-IsTrimmed :
    (str s : Bytes) → eq_bytes (without_zeros s) [] ≡ false → IsTrimmed (from_first_digit str s)
unfolding from_first_digit without_zeros
from_first_digit-IsTrimmed str [] h = cc
from_first_digit-IsTrimmed str (c ∷ s) h = elim (Bool-cases (c == 48)) [
  | inl nought ↦ rw nought (from_first_digit-IsTrimmed str s (rw nought at h))
  | inr other ↦ rw other (inr (ground arith))
]

removed-IsTrimmed : (str : Bytes) → IsTrimmed (remove_left_padded_zeros str)
unfolding remove_left_padded_zeros
removed-IsTrimmed str = elim (Bool-cases (eq_bytes str (48 ∷ 120 ∷ []))) [
  | inl bare ↦ rw bare (inl refl)
  | inr other ↦ elim (Bool-cases (eq_bytes (without_zeros (trim_prefix_0x str)) [])) [
    | inl zeros ↦ rw (other, zeros) (inl refl)
    | inr digits ↦
        rw (other, digits)
          (from_first_digit-IsTrimmed (trim_prefix_0x str) (trim_prefix_0x str) digits)
  ]
]

to_lower-IsTrimmed : (s : Bytes) → IsTrimmed s → IsTrimmed (to_lower s)
unfolding to_lower
to_lower-IsTrimmed [] h = h
to_lower-IsTrimmed (c ∷ s) (inl nought) =
    subst (λ l. IsTrimmed (to_lower l)) (sym nought) (inl refl)
to_lower-IsTrimmed (c ∷ s) (inr other) = inr (λ e. other (ground arith))

lower_twice : (c : ℕ) → lower (lower c) ≡ lower c
lower_twice c = ground arith

to_lower_twice : (s : Bytes) → to_lower (to_lower s) ≡ to_lower s
unfolding to_lower
to_lower_twice [] = refl
to_lower_twice (c ∷ s) = rw (lower_twice c, to_lower_twice s) refl

-- A trimmed text is left as it is, and so it is after a prefix.
record Kept (s : Bytes) : Type 0 where
  alone : remove_left_padded_zeros s ≡ s
  prefixed : remove_left_padded_zeros (48 ∷ 120 ∷ s) ≡ s

nonzero_digits :
    (c : ℕ) (s : Bytes) → (c == 48) ≡ false → eq_bytes (without_zeros (c ∷ s)) [] ≡ false
unfolding without_zeros
nonzero_digits c s h = rw h refl

nonzero_first :
    (str : Bytes) (c : ℕ) (s : Bytes) → (c == 48) ≡ false → from_first_digit str (c ∷ s) ≡ c ∷ s
unfolding from_first_digit
nonzero_first str c s h = rw h refl

nonzero-Kept : (c : ℕ) (s : Bytes) → (c == 48) ≡ false → Kept (c ∷ s)
unfolding remove_left_padded_zeros trim_prefix_0x
nonzero-Kept c [] h = record {
  alone = rw (h, nonzero_digits c [] h) (nonzero_first _ c [] h);
  prefixed = rw (nonzero_digits c [] h) (nonzero_first _ c [] h);
}
nonzero-Kept c (d ∷ s) h = record {
  alone = rw (h, nonzero_digits c (d ∷ s) h) (nonzero_first _ c (d ∷ s) h);
  prefixed = rw (nonzero_digits c (d ∷ s) h) (nonzero_first _ c (d ∷ s) h);
}

trimmed-Kept : (s : Bytes) → IsTrimmed s → Kept s
unfolding remove_left_padded_zeros from_first_digit trim_prefix_0x without_zeros
trimmed-Kept [] h = absurd h
trimmed-Kept (c ∷ s) (inl nought) =
    subst (λ l. Kept l) (sym nought) (record { alone = refl; prefixed = refl })
trimmed-Kept (c ∷ s) (inr other) = nonzero-Kept c s (ground arith)

-- What `MarshalGQL` writes of any id is read by `UnmarshalGQL` as the string of the id, which is its
-- own string, and which never begins with a zero unless it is "0".
pub hex_id_unmarshal_gql-hex_id_marshal_gql :
    (id old : Bytes)
    → (hex_id_unmarshal_gql (a_string (hex_id_marshal_gql id)) old ≡ ok (hex_id_string id))
      × (hex_id_string (hex_id_string id) ≡ hex_id_string id)
      × IsTrimmed (hex_id_string id)
unfolding hex_id_unmarshal_gql hex_id_marshal_gql hex_id_string has_prefix_0x
hex_id_unmarshal_gql-hex_id_marshal_gql id old =
    let removed = remove_left_padded_zeros id in
    let trimmed = to_lower-IsTrimmed removed (removed-IsTrimmed id) in
    let kept = trimmed-Kept (to_lower removed) trimmed in
    (
      rw (kept.prefixed, to_lower_twice removed) refl,
      rw (kept.alone, to_lower_twice removed) refl,
      trimmed,
    )
