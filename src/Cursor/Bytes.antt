-- ===== src/Cursor/Bytes.antt =====
-- Bytes of the cursor formats, and the ways in which decoding a cursor fails.
use go_mutuals.Prelude.{
  ℕ, ◌<◌, ◌≡◌, ◌≢◌, inl, inr, Bool-cases, refl, Bool, true, false, ◌&&◌, List, [], ◌∷◌, arith, ◌==◌,
  Eq, subst,
}

abbrev pub Bytes : Type 0
Bytes = List ℕ

abbrev pub IsByte : ℕ → Type 0
IsByte b = b < 256

-- Errors of the standard library that the decoder returns, its own "only read %d bytes", and the
-- refusals of a time by `MarshalBinary` and `UnmarshalBinary`.
pub data Error : Type 0 where
  corrupt_base64 eof unexpected_eof varint_overflow bad_zone bad_time : Error
  short_read : ℕ → ℕ → Error

-- The comparison of two strings.
abbrev pub eq_bytes : Bytes → Bytes → Bool
eq_bytes [] [] = true
eq_bytes [] (d ∷ t) = false
eq_bytes (c ∷ s) [] = false
eq_bytes (c ∷ s) (d ∷ t) = c == d && eq_bytes s t

pub eq_bytes→eq : (s t : Bytes) → eq_bytes s t ≡ true → s ≡ t
eq_bytes→eq [] [] h = refl
eq_bytes→eq [] (d ∷ t) h = cc
eq_bytes→eq (c ∷ s) [] h = cc
eq_bytes→eq (c ∷ s) (d ∷ t) h = ground (arith, eq_bytes→eq s t)

pub eq_bytes_self : (s : Bytes) → eq_bytes s s ≡ true
eq_bytes_self [] = refl
eq_bytes_self (c ∷ s) = ground (arith, eq_bytes_self s)

pub eq_bytes_apart : (s t : Bytes) → s ≢ t → eq_bytes s t ≡ false
eq_bytes_apart s t h = elim (Bool-cases (eq_bytes s t)) [
  | inl same ↦ absurd (h (eq_bytes→eq s t same))
  | inr apart ↦ apart
]

instance abbrev pub bytes_eq : Eq Bytes
bytes_eq = record {
  beq = eq_bytes;
  beq_iff = λ s t. (eq_bytes→eq s t, λ e. subst (λ t'. eq_bytes s t' ≡ true) e (eq_bytes_self s));
}
