-- ===== src/Cursor/Varint.antt =====
-- `binary.PutUvarint`, `binary.PutVarint`, `binary.ReadUvarint` and `binary.ReadVarint` of Go's
-- standard library, which the cursor encoder and decoder of publicapi/pagination.go call. A reader
-- is the list of the bytes not yet read.
use go_mutuals.Prelude.{
  ℕ, zero, suc, ◌+◌, ◌*◌, ◌/◌, ◌%◌, ◌^◌, ◌<◌, ◌≡◌, refl, ap, Bool, true, false, ◌&&◌, [], ◌∷◌, ◌++◌,
  arith, ltb, ◌==◌, if◌then◌else◌, All, ℤ, pos, negsuc, length, Outcome, ok, err,
}
use go_mutuals.Cursor.Bytes.{Bytes, IsByte, Error, eof, unexpected_eof, varint_overflow}

-- The loop of `PutUvarint`: seven bits a byte, the last byte below 128.
unfoldable pub put_loop : ℕ → ℕ → Bytes
put_loop zero x = []
put_loop (suc f) x =
    let more = (x % 128 + 128) ∷ put_loop f (x / 128) in if ltb x 128 then x ∷ [] else more

-- Ten bytes hold every number of 64 bits.
unfoldable pub put_uvarint : ℕ → Bytes
unfolding put_loop
put_uvarint x = put_loop 10 x

-- The loop of `ReadUvarint` with the rounds left, whether a byte was read, the number so far and
-- the weight `2 ^ s` of the next group. The bits of the groups do not overlap, so `|` adds.
unfoldable pub read_loop : ℕ → Bool → ℕ → ℕ → Bytes → Outcome Error (ℕ × Bytes)
read_loop zero started x weight s = err varint_overflow
read_loop (suc f) started x weight [] = err (if started then unexpected_eof else eof)
read_loop (suc f) started x weight (b ∷ s) =
    let more = read_loop f true (x + b % 128 * weight) (weight * 128) s in
    if ltb b 128
    then (if f == 0 && ltb 1 b then err varint_overflow else ok (x + b * weight, s))
    else more

unfoldable pub read_uvarint : Bytes → Outcome Error (ℕ × Bytes)
unfolding read_loop
read_uvarint s = read_loop 10 false 0 1 s

-- A signed number as an unsigned one: its absolute value doubled, and the sign in the last bit.
unfoldable pub zigzag : ℤ → ℕ
zigzag (pos n) = 2 * n
zigzag (negsuc n) = 2 * n + 1

unfoldable pub unzigzag : ℕ → ℤ
unzigzag u = if u % 2 == 0 then pos (u / 2) else negsuc (u / 2)

-- The bound for the numbers that `f` rounds hold: only one bit is left for the tenth byte.
abbrev limit : ℕ → ℕ
limit zero = 0
limit (suc zero) = 2
limit (suc (suc f)) = 128 * limit (suc f)

regroup : (x t weight : ℕ) → t + x % 128 * weight + x / 128 * (weight * 128) ≡ t + x * weight
regroup x t weight =
    let split : x ≡ x / 128 * 128 + x % 128 = omega arith in
    omega (arith, ap (λ (n : ℕ). n * weight) split)

read_loop-put_loop :
    (f : ℕ) (started : Bool) (x t weight : ℕ) (rest : Bytes)
    → x < limit f
    → read_loop f started t weight (put_loop f x ++ rest) ≡ ok (t + x * weight, rest)
unfolding read_loop put_loop
read_loop-put_loop zero started x t weight rest h = absurd (omega arith)
read_loop-put_loop (suc zero) started x t weight rest h = ground arith
read_loop-put_loop (suc (suc f)) started x t weight rest h = ground (
  arith,
  read_loop-put_loop (suc f) true (x / 128) (t + x % 128 * weight) (weight * 128) rest,
  regroup x t weight,
)

put_uvarint_lem : (x : ℕ) → put_uvarint x ≡ put_loop 10 x
unfolding put_uvarint
put_uvarint_lem x = refl

read_uvarint_lem : (s : Bytes) → read_uvarint s ≡ read_loop 10 false 0 1 s
unfolding read_uvarint
read_uvarint_lem s = refl

-- Reading what `PutUvarint` wrote gives the number back, whatever follows.
pub read_uvarint-put_uvarint :
    (x : ℕ) (rest : Bytes) → x < 2 ^ 64 → read_uvarint (put_uvarint x ++ rest) ≡ ok (x, rest)
read_uvarint-put_uvarint x rest h =
    rw (put_uvarint_lem, read_uvarint_lem, read_loop-put_loop 10 false x 0 1 rest (omega arith))
      (ap (λ (n : ℕ). ok (n, rest)) (omega arith))

pub unzigzag-zigzag : (z : ℤ) → unzigzag (zigzag z) ≡ z
unfolding unzigzag zigzag
unzigzag-zigzag (pos n) = ground arith
unzigzag-zigzag (negsuc n) = ground arith

put_loop-IsByte : (f x : ℕ) → All IsByte (put_loop f x)
unfolding put_loop
put_loop-IsByte zero x = tt
put_loop-IsByte (suc f) x = ground (arith, put_loop-IsByte f (x / 128))

put_loop-pos : (f x : ℕ) → 0 < length (put_loop (suc f) x)
unfolding put_loop
put_loop-pos f x = ground arith

pub put_uvarint-IsByte : (x : ℕ) → All IsByte (put_uvarint x)
put_uvarint-IsByte x = rw put_uvarint_lem (put_loop-IsByte 10 x)

-- Every number takes a byte at least.
pub put_uvarint-pos : (x : ℕ) → 0 < length (put_uvarint x)
put_uvarint-pos x = rw put_uvarint_lem (put_loop-pos 9 x)
