-- ===== src/Cursor/Base64.antt =====
-- `base64.RawStdEncoding` of Go's standard library, which `AsBase64` and `setReader` of
-- publicapi/pagination.go call. A string is the list of its bytes.
use go_mutuals.Prelude.{
  ℕ, ◌+◌, ◌-◌, ◌*◌, ◌/◌, ◌%◌, ◌<◌, ◌≡◌, refl, ◌&&◌, ◌||◌, Bool, List, [], ◌∷◌, Option, none, some,
  arith, ltb, leb, ◌==◌, if◌then◌else◌, All,
}
use go_mutuals.Cursor.Bytes.{Bytes, IsByte}

-- The character of a group of six bits.
digit : ℕ → ℕ
digit v =
    if ltb v 26
    then b'A' + v
    else if ltb v 52
    then b'a' + v - 26
    else if ltb v 62
    then b'0' + v - 52
    else if v == 62
    then b'+'
    else b'/'

value : ℕ → Option ℕ
value c =
    if leb b'A' c && leb c b'Z'
    then some (c - b'A')
    else if leb b'a' c && leb c b'z'
    then some (c - b'a' + 26)
    else if leb b'0' c && leb c b'9'
    then some (c - b'0' + 52)
    else if c == b'+'
    then some 62
    else if c == b'/'
    then some 63
    else none

-- The groups of six bits of the bytes, with no padding at the end.
groups : Bytes → List ℕ
groups [] = []
groups (a ∷ []) = (a / 4) ∷ (a % 4 * 16) ∷ []
groups (a ∷ b ∷ []) = (a / 4) ∷ (a % 4 * 16 + b / 16) ∷ (b % 16 * 4) ∷ []
groups (a ∷ b ∷ c ∷ s) =
    (a / 4) ∷ (a % 4 * 16 + b / 16) ∷ (b % 16 * 4 + c / 64) ∷ (c % 64) ∷ groups s

write : List ℕ → Bytes
write [] = []
write (v ∷ vs) = digit v ∷ write vs

unfoldable pub encode : Bytes → Bytes
unfolding groups write digit
encode s = write (groups s)

is_newline : ℕ → Bool
is_newline c = c == 10 || c == 13

-- The values of the characters. Line breaks are skipped, any other character is refused.
values : Bytes → Option (List ℕ)
values [] = some []
values (c ∷ s) =
    let rest = values s in
    if is_newline c then rest else elim (value c) [
      | none ↦ none
      | some v ↦ elim rest [ none ↦ none | some vs ↦ some (v ∷ vs) ]
    ]

-- One group of six bits is no byte, and is refused; spare bits are dropped.
join : List ℕ → Option Bytes
join [] = some []
join (v ∷ []) = none
join (v ∷ w ∷ []) = some ((v * 4 + w / 16) ∷ [])
join (v ∷ w ∷ x ∷ []) = some ((v * 4 + w / 16) ∷ (w % 16 * 16 + x / 4) ∷ [])
join (v ∷ w ∷ x ∷ y ∷ s) = elim (join s) [
  | none ↦ none
  | some bs ↦ some ((v * 4 + w / 16) ∷ (w % 16 * 16 + x / 4) ∷ (x % 4 * 64 + y) ∷ bs)
]

-- `none` is a `CorruptInputError`.
unfoldable pub decode : Bytes → Option Bytes
unfolding values is_newline value join
decode s = elim (values s) [ none ↦ none | some vs ↦ join vs ]

abbrev IsSextet : ℕ → Type 0
IsSextet v = v < 64

-- Every group has a character of its own, which is no line break.
digit_table :
    (v : ℕ) → IsSextet v → (value (digit v) ≡ some v) × (is_newline (digit v) ≡ Bool.false)
unfolding digit value is_newline
digit_table v h = ground arith

values-write : (vs : List ℕ) → All IsSextet vs → values (write vs) ≡ some vs
unfolding values write
values-write [] h = refl
values-write (v ∷ vs) (h, hs) = rw ((digit_table v h).1, (digit_table v h).0, values-write vs hs)

groups-IsSextet : (s : Bytes) → All IsByte s → All IsSextet (groups s)
unfolding groups
groups-IsSextet [] h = tt
groups-IsSextet (a ∷ []) h = omega arith
groups-IsSextet (a ∷ b ∷ []) h = omega arith
groups-IsSextet (a ∷ b ∷ c ∷ s) (ha, (hb, (hc, hs))) =
    (omega arith, (omega arith, (omega arith, (omega arith, groups-IsSextet s hs))))

join-groups : (s : Bytes) → All IsByte s → join (groups s) ≡ some s
unfolding groups join
join-groups [] h = refl
join-groups (a ∷ []) h = ground arith
join-groups (a ∷ b ∷ []) h = ground arith
join-groups (a ∷ b ∷ c ∷ s) (ha, (hb, (hc, hs))) = rw (join-groups s hs) (ground arith)

-- Decoding undoes encoding.
pub decode-encode : (s : Bytes) → All IsByte s → decode (encode s) ≡ some s
unfolding encode decode
decode-encode s h = rw (values-write (groups s) (groups-IsSextet s h), decode) (join-groups s h)
