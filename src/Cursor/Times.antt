-- ===== src/Cursor/Times.antt =====
-- `MarshalBinary` and `UnmarshalBinary` of Go's `time.Time`, which `appendTime` and `readTime` of
-- publicapi/pagination.go call.
use go_mutuals.Prelude.{
  ℕ, zero, suc, ◌+◌, ◌*◌, ◌/◌, ◌%◌, ◌^◌, ◌<◌, ◌≡◌, refl, ◌&&◌, ◌||◌, Option, none, some, List, [],
  ◌∷◌, ◌++◌, arith, ◌==◌, if◌then◌else◌, All, All-append, length, length-append, take, drop,
  Outcome, ok, err, Bool-cases, Option-cases, inl, inr, append-nil,
}
use native.Mathlib.Nat.{pow-suc}
use go_mutuals.Cursor.Bytes.{Bytes, IsByte, Error, bad_zone, bad_time}

-- The parts of a time that are written: the seconds as a 64-bit pattern, the nanoseconds, the
-- zone's offset in minutes as a 16-bit pattern (0xffff for UTC) with the byte of the seconds that
-- are left. `none` is an offset that does not fit.
pub record Time : Type 0 where
  pub sec : ℕ
  pub nsec : ℕ
  pub zone : Option ℕ
  pub zone_sec : ℕ

pub record IsTime (t : Time) : Type 0 where
  pub sec_word : t.sec < 2 ^ 64
  pub nsec_word : t.nsec < 2 ^ 32
  pub zone_word : (z : ℕ) → t.zone ≡ some z → z < 2 ^ 16
  pub zone_byte : t.zone_sec < 256

-- The last `k` bytes of a number, the highest first.
unfoldable pub be_bytes : ℕ → ℕ → Bytes
be_bytes zero x = []
be_bytes (suc k) x = be_bytes k (x / 256) ++ (x % 256) ∷ []

unfoldable pub from_be : ℕ → Bytes → ℕ
from_be x [] = x
from_be x (b ∷ s) = from_be (x * 256 + b) s

-- The zone takes version 1 of the format if it is whole minutes; version 2 has one more byte.
unfoldable pub words : Time → ℕ → Bytes
words t z = be_bytes 8 t.sec ++ (be_bytes 4 t.nsec ++ be_bytes 2 z)

unfoldable pub marshal_zone : Time → ℕ → Bytes
marshal_zone t z = if t.zone_sec == 0 then 1 ∷ words t z else 2 ∷ (words t z ++ t.zone_sec ∷ [])

unfoldable pub marshal : Time → Outcome Error Bytes
marshal t = elim t.zone [ none ↦ err bad_zone | some z ↦ ok (marshal_zone t z) ]

unfoldable pub parse : Bytes → Time
parse s = record {
  sec = from_be 0 (take 8 s);
  nsec = from_be 0 (take 4 (drop 8 s));
  zone = some (from_be 0 (take 2 (drop 12 s)));
  zone_sec = from_be 0 (drop 14 s);
}

unfoldable pub unmarshal : Bytes → Outcome Error Time
unmarshal [] = err bad_time
unmarshal (v ∷ s) =
    if (v == 1 && length s == 14) || (v == 2 && length s == 15) then ok (parse s) else err bad_time

length-be_bytes : (k x : ℕ) → length (be_bytes k x) ≡ k
unfolding be_bytes
length-be_bytes zero x = refl
length-be_bytes (suc k) x =
    omega
      (arith, length-append (be_bytes k (x / 256)) ((x % 256) ∷ []), length-be_bytes k (x / 256))

from_be-append : (x : ℕ) (s : Bytes) (b : ℕ) → from_be x (s ++ b ∷ []) ≡ from_be x s * 256 + b
unfolding from_be
from_be-append x [] b = refl
from_be-append x (c ∷ s) b = from_be-append (x * 256 + c) s b

from_be-be_bytes : (k x : ℕ) → x < 256 ^ k → from_be 0 (be_bytes k x) ≡ x
unfolding be_bytes from_be
from_be-be_bytes zero x h = omega arith
from_be-be_bytes (suc k) x h =
    rw (from_be-append, from_be-be_bytes k (x / 256) (omega (arith, pow-suc 256 k))) (omega arith)

be_bytes-IsByte : (k x : ℕ) → All IsByte (be_bytes k x)
unfolding be_bytes
be_bytes-IsByte zero x = tt
be_bytes-IsByte (suc k) x =
    All-append IsByte (be_bytes k (x / 256)) _ (be_bytes-IsByte k (x / 256)) (omega arith)

take-append {ℓ} : {A : Type ℓ} (n : ℕ) (xs ys : List A) → length xs ≡ n → take n (xs ++ ys) ≡ xs
take-append zero [] ys h = refl
take-append zero (x ∷ xs) ys h = absurd (omega arith)
take-append (suc n) [] ys h = absurd (omega arith)
take-append (suc n) (x ∷ xs) ys h = rw (take-append n xs ys (omega arith))

drop-append {ℓ} : {A : Type ℓ} (n : ℕ) (xs ys : List A) → length xs ≡ n → drop n (xs ++ ys) ≡ ys
drop-append zero [] ys h = refl
drop-append zero (x ∷ xs) ys h = absurd (omega arith)
drop-append (suc n) [] ys h = absurd (omega arith)
drop-append (suc n) (x ∷ xs) ys h = drop-append n xs ys (omega arith)

length-words : (t : Time) (z : ℕ) → length (words t z) ≡ 14
unfolding words be_bytes
length-words t z = refl

parse-words :
    (t : Time) (z : ℕ) (rest : Bytes)
    → t.sec < 2 ^ 64
    → t.nsec < 2 ^ 32
    → z < 2 ^ 16
    → parse (words t z ++ rest) ≡ record t { zone = some z; zone_sec = from_be 0 rest }
unfolding words parse be_bytes
parse-words t z rest hs hn hz = λ i. record {
  sec = from_be-be_bytes 8 t.sec (omega arith) i;
  nsec = from_be-be_bytes 4 t.nsec (omega arith) i;
  zone = some (from_be-be_bytes 2 z (omega arith) i);
  zone_sec = from_be 0 rest;
}

unmarshal_short : (s : Bytes) → length s ≡ 14 → unmarshal (1 ∷ s) ≡ ok (parse s)
unfolding unmarshal
unmarshal_short s h = rw h

unmarshal_long : (s : Bytes) → length s ≡ 15 → unmarshal (2 ∷ s) ≡ ok (parse s)
unfolding unmarshal
unmarshal_long s h = rw h

unmarshal-marshal_zone :
    (t : Time) (z : ℕ) → IsTime t → t.zone ≡ some z → unmarshal (marshal_zone t z) ≡ ok t
unfolding marshal_zone from_be
unmarshal-marshal_zone t z v e = elim (Bool-cases (t.zone_sec == 0)) [
  | inl whole ↦
      rw (whole, unmarshal_short (words t z) (length-words t z), ← append-nil (words t z))
        (rw (parse-words t z [] v.sec_word v.nsec_word (v.zone_word z e)) (ground arith))
  | inr odd ↦
      rw
        (
          odd,
          unmarshal_long (words t z ++ t.zone_sec ∷ [])
              (omega (arith, length-append (words t z) (t.zone_sec ∷ []), length-words t z)),
        )
        (rw (parse-words t z (t.zone_sec ∷ []) v.sec_word v.nsec_word (v.zone_word z e))
          (ground arith))
]

-- Reading what `MarshalBinary` wrote gives the time back.
pub unmarshal-marshal : (t : Time) {s : Bytes} → IsTime t → marshal t ≡ ok s → unmarshal s ≡ ok t
unfolding marshal
unmarshal-marshal t {s} v e = elim (Option-cases t.zone) [
  | inl h ↦ ground arith
  | inr (z, h) ↦ ground (arith, unmarshal-marshal_zone t z v h)
]

words-IsByte : (t : Time) (z : ℕ) → All IsByte (words t z)
unfolding words
words-IsByte t z =
    All-append IsByte (be_bytes 8 t.sec) _ (be_bytes-IsByte 8 t.sec)
      (All-append IsByte (be_bytes 4 t.nsec) _ (be_bytes-IsByte 4 t.nsec) (be_bytes-IsByte 2 z))

marshal_zone_bytes :
    (t : Time) (z : ℕ)
    → t.zone_sec < 256
    → All IsByte (marshal_zone t z)
      × (0 < length (marshal_zone t z))
      × (length (marshal_zone t z) < 17)
unfolding marshal_zone
marshal_zone_bytes t z h =
    let wide = All-append IsByte (words t z) (t.zone_sec ∷ []) (words-IsByte t z) (h, tt) in
    ground
      (arith, words-IsByte t z, wide, length-words t z, length-append (words t z) (t.zone_sec ∷ []))

-- A time takes fifteen or sixteen bytes.
pub marshal_bytes :
    (t : Time) {s : Bytes}
    → IsTime t
    → marshal t ≡ ok s
    → All IsByte s × (0 < length s) × (length s < 17)
unfolding marshal
marshal_bytes t {s} v e = elim (Option-cases t.zone) [
  | inl h ↦ ground arith
  | inr (z, h) ↦
      let written : marshal_zone t z ≡ s = ground arith in
      rw (← written) (marshal_zone_bytes t z v.zone_byte)
]
