-- ===== src/Numerals/RoundTrip.antt =====
-- Numbers written as text and read back.
use go_mutuals.Prelude.{
  ℕ, zero, suc, ◌+◌, ◌*◌, ◌/◌, ◌%◌, ◌≤◌, ◌<◌, ◌≡◌, ◌≢◌, refl, ap, ◌∙◌, true, false, some, [], ◌∷◌,
  ◌++◌, arith, ltb, ◌==◌, All, ℤ, pos, negsuc, Bool-cases, inl, inr, min, length, subst,
}
use go_mutuals.Cursor.Bytes.{Bytes}
use go_mutuals.Numerals.{
  digit, digit_value, write_digits, read_digits, write_ℕ, write_ℤ, read_ℕ, read_ℤ, in_int64, atoi,
  split,
}

-- A base whose digits there are.
pub record IsBase (base : ℕ) : Type 0 where
  at_most : base ≤ 16
  apart : (n : ℕ) → n / base * base + n % base ≡ n
  below : (n : ℕ) → n % base < base
  less : (n : ℕ) → base ≤ n → n / base < n

pub decimal : IsBase 10
decimal = record {
  at_most = omega arith;
  apart = λ n. omega arith;
  below = λ n. omega arith;
  less = λ n h. omega arith;
}

pub hexadecimal : IsBase 16
hexadecimal = record {
  at_most = omega arith;
  apart = λ n. omega arith;
  below = λ n. omega arith;
  less = λ n h. omega arith;
}

-- The bytes that digits are written with: neither a sign nor an upper-case letter, nor an x.
abbrev pub IsDigit : ℕ → Type 0
IsDigit c = (48 ≤ c) × (c ≤ 102) × (57 < c → 97 ≤ c)

digit-IsDigit : (d : ℕ) → d < 16 → IsDigit (digit d) × (digit_value (digit d) ≡ some d)
unfolding digit digit_value
digit-IsDigit d h = ground arith

module _ (base : ℕ) where
  write_last :
      (fuel n : ℕ) (text : Bytes)
      → ltb n base ≡ true
      → write_digits base (suc fuel) n text ≡ digit n ∷ text
  unfolding write_digits
  write_last fuel n text h = rw (h, write_digits) refl

  write_more :
      (fuel n : ℕ) (text : Bytes)
      → ltb n base ≡ false
      → write_digits base (suc fuel) n text
        ≡ write_digits base fuel (n / base) (digit (n % base) ∷ text)
  unfolding write_digits
  write_more fuel n text h = rw (h, write_digits) refl

  read_digit :
      (d n : ℕ) (text : Bytes)
      → d < 16
      → ltb d base ≡ true
      → read_digits base (digit d ∷ text) n ≡ read_digits base text (n * base + d)
  unfolding read_digits
  read_digit d n text small h = rw ((digit-IsDigit d small).1, h, read_digits) refl

module _ (base : ℕ) (law : IsBase base) where
  read_digits-write_digits :
      (fuel n : ℕ) (text : Bytes)
      → n < fuel
      → read_digits base (write_digits base fuel n text) 0 ≡ read_digits base text n
  read_digits-write_digits zero n text h = absurd (omega arith)
  read_digits-write_digits (suc fuel) n text h = elim (Bool-cases (ltb n base)) [
    | inl last ↦ rw (write_last base fuel n text last) (
        read_digit base n 0 text (ground (arith, law.at_most)) last
        ∙ ap (λ m. read_digits base text m) {x = 0 * base + n} (omega arith))
    | inr more ↦ rw (write_more base fuel n text more) (
        read_digits-write_digits fuel (n / base) (digit (n % base) ∷ text)
          (ground (arith, law.less n))
        ∙ read_digit base (n % base) (n / base) text (omega (arith, law.at_most, law.below n))
            (ground (arith, law.below n))
        ∙ ap (λ m. read_digits base text m) (law.apart n))
  ]

  write_digits-IsDigit :
      (fuel n : ℕ) (text : Bytes) → All IsDigit text → All IsDigit (write_digits base fuel n text)
  unfolding write_digits
  write_digits-IsDigit zero n text h = h
  write_digits-IsDigit (suc fuel) n text h = elim (Bool-cases (ltb n base)) [
    | inl last ↦
        rw (write_last base fuel n text last) ((digit-IsDigit n (ground (arith, law.at_most))).0, h)
    | inr more ↦ rw (write_more base fuel n text more) (
        write_digits-IsDigit fuel (n / base) (digit (n % base) ∷ text)
          ((digit-IsDigit (n % base) (omega (arith, law.at_most, law.below n))).0, h))
  ]

  -- What is written has a first digit.
  pub record Written (n : ℕ) (text : Bytes) : Type 0 where
    pub first : ℕ
    pub others : Bytes
    pub is : text ≡ first ∷ others
    pub digits : All IsDigit text
    pub reads : read_ℕ base text ≡ some n

  written :
      (n : ℕ) (text : Bytes)
      → All IsDigit text
      → read_digits base text 0 ≡ some n
      → 0 < length text
      → Written n text
  unfolding read_ℕ read_digits
  written n [] digits reads some_digit = absurd (omega arith)
  written n (c ∷ s) digits reads some_digit = record {
    first = c;
    others = s;
    is = refl;
    digits = digits;
    reads = reads;
  }

  length-write_digits :
      (fuel n : ℕ) (text : Bytes)
      → min fuel 1 + length text ≤ length (write_digits base fuel n text)
  unfolding write_digits
  length-write_digits zero n text = omega arith
  length-write_digits (suc fuel) n text = elim (Bool-cases (ltb n base)) [
    | inl last ↦ rw (write_last base fuel n text last) (omega arith)
    | inr more ↦
        rw (write_more base fuel n text more)
          (omega (arith, length-write_digits fuel (n / base) (digit (n % base) ∷ text)))
  ]

  pub write_ℕ-Written : (n : ℕ) → Written n (write_ℕ base n)
  unfolding write_ℕ read_digits
  write_ℕ-Written n =
      written n (write_digits base (n + 1) n []) (write_digits-IsDigit (n + 1) n [] tt)
        (read_digits-write_digits (n + 1) n [] (omega arith))
        (omega (arith, length-write_digits (n + 1) n []))

  -- An integer that is written is read back.
  pub read_ℤ-write_ℤ : (z : ℤ) → read_ℤ base (write_ℤ base z) ≡ some z
  unfolding read_ℤ write_ℤ
  read_ℤ-write_ℤ (pos n) =
      let w = write_ℕ-Written n in
      let digits : All IsDigit (w.first ∷ w.others) = subst (λ t. All IsDigit t) w.is w.digits in
      let reads : read_ℕ base (w.first ∷ w.others) ≡ some n =
        subst (λ t. read_ℕ base t ≡ some n) w.is w.reads in
      let not_minus : (w.first == 45) ≡ false = ground (arith, digits.0) in
      let not_plus : (w.first == 43) ≡ false = ground (arith, digits.0) in
      rw (w.is, read_ℤ, not_minus, not_plus, reads) refl
  read_ℤ-write_ℤ (negsuc n) = let w = write_ℕ-Written (suc n) in rw (w.reads) refl

-- `%d` read by `strconv.Atoi`.
pub atoi-write_ℤ : (z : ℤ) → in_int64 z ≡ true → atoi (write_ℤ 10 z) ≡ some z
unfolding atoi
atoi-write_ℤ z h = rw (read_ℤ-write_ℤ 10 decimal z, atoi, h) refl

-- A string of two pieces around a separator.
pub split-piece : (sep : ℕ) (s : Bytes) → All (λ c. c ≢ sep) s → split sep s ≡ s ∷ []
unfolding split
split-piece sep [] h = refl
split-piece sep (c ∷ s) (other, h) =
    let differs : (c == sep) ≡ false = ground arith in rw (differs, split-piece sep s h) refl

pub split-append :
    (sep : ℕ) (s t : Bytes)
    → All (λ c. c ≢ sep) s
    → All (λ c. c ≢ sep) t
    → split sep (s ++ sep ∷ t) ≡ s ∷ t ∷ []
unfolding split
split-append sep [] t hs ht =
    let same : (sep == sep) ≡ true = ground arith in rw (same, split-piece sep t ht) refl
split-append sep (c ∷ s) t (other, hs) ht =
    let differs : (c == sep) ≡ false = ground arith in rw (differs, split-append sep s t hs ht) refl
