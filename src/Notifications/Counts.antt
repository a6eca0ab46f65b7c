-- ===== src/Notifications/Counts.antt =====
-- How often an id stands among the viewers of notifications.
use go_mutuals.Prelude.{
  sym, subst, ℕ, ◌+◌, ◌≤◌, ◌≡◌, refl, Bool, true, false, List, [], ◌∷◌, ◌++◌, map, arith, ltb,
  if◌then◌else◌, Bool-cases, inl, inr,
}
use go_mutuals.Cursor.Bytes.{Bytes, eq_bytes, eq_bytes→eq, bytes_eq}
use go_mutuals.Slices.{contains, keep, mark, unseen, see}
use go_mutuals.Slices.Compact.{keep_taken, keep_passed}
use go_mutuals.Notifications.Data.{unique_strings}
use go_mutuals.Notifications.Store.{Notification, insert_newest, newest_first}
use go_mutuals.Notifications.Handlers.{in_any, new_viewers}

abbrev pub count : Bytes → List Bytes → ℕ
count v [] = 0
count v (id ∷ ids) = let rest = count v ids in if eq_bytes id v then 1 + rest else rest

pub count-append : (v : Bytes) (s t : List Bytes) → count v (s ++ t) ≡ count v s + count v t
count-append v [] t = omega arith
count-append v (id ∷ s) t = ground (arith, count-append v s t)

contains-count : (v : Bytes) (ids : List Bytes) → contains ids v ≡ false → count v ids ≡ 0
unfolding contains
contains-count v [] h = refl
contains-count v (id ∷ ids) h = ground (arith, contains-count v ids)

abbrev keep_unique : (Bytes → Bool) → List Bytes → List Bytes
keep_unique seen ids = keep (unseen (λ str. str)) (see (λ str. str)) seen ids

seen_same : (seen : Bytes → Bool) (id v : Bytes) → id ≡ v → seen id ≡ false → seen v ≡ true → ⊥
seen_same seen id v e new old = cc

count-keep :
    (v : Bytes) (seen : Bytes → Bool) (ids : List Bytes)
    → (count v (keep_unique seen ids) ≤ count v ids)
      × (count v (keep_unique seen ids) ≤ 1)
      × (seen v ≡ true → count v (keep_unique seen ids) ≡ 0)
unfolding keep
count-keep v seen [] = (omega arith, omega arith, λ h. refl)
count-keep v seen (id ∷ ids) = elim (Bool-cases (seen id)) [
  | inl old ↦
      let rest = count-keep v seen ids in
      rw (keep_passed (unseen (λ str. str)) (see (λ str. str)) id ids seen (rw old))
        (ground (arith, rest.0), rest.1, rest.2)
  | inr new ↦
      let rest = count-keep v (mark seen id) ids in
      rw (keep_taken (unseen (λ str. str)) (see (λ str. str)) id ids seen (rw new))
        (elim (Bool-cases (eq_bytes id v)) [
          | inl same ↦
              let later : count v (keep_unique (mark seen id) ids) ≡ 0 = rest.2 (rw same) in
              rw (same, later)
                (
                  omega arith,
                  omega arith,
                  λ h. absurd (seen_same seen id v (eq_bytes→eq id v same) new h),
                )
          | inr other ↦ rw other (rest.0, rest.1, λ h. rest.2 (rw other h))
        ])
]

pub count-unique_strings :
    (v : Bytes) (ids : List Bytes)
    → (count v (unique_strings ids) ≤ count v ids) × (count v (unique_strings ids) ≤ 1)
unfolding unique_strings
count-unique_strings v ids = let kept = count-keep v (λ str. false) ids in (kept.0, kept.1)

pub count-new_viewers :
    (v : Bytes) (lists : List (List Bytes)) (ids : List Bytes)
    → (count v (new_viewers lists ids) ≤ count v ids)
      × (in_any lists v ≡ true → count v (new_viewers lists ids) ≡ 0)
unfolding new_viewers
count-new_viewers v lists [] = (omega arith, λ h. refl)
count-new_viewers v lists (id ∷ ids) =
    let rest = count-new_viewers v lists ids in
    elim (Bool-cases (in_any lists id)) [
      | inl old ↦ rw old (ground (arith, rest.0), rest.1)
      | inr new ↦ rw new (elim (Bool-cases (eq_bytes id v)) [
        | inl same ↦ rw same (
          omega (arith, rest.0),
          λ h. absurd (seen_same (in_any lists) id v (eq_bytes→eq id v same) new h),
        )
        | inr other ↦ rw other (rest.0, rest.1)
      ])
    ]

bools_differ : true ≡ false → ⊥
bools_differ h = cc

module _ (ids_of : Notification → List Bytes) (v : Bytes) where
  abbrev pub total : List Notification → ℕ
  total [] = 0
  total (n ∷ rows) = count v (ids_of n) + total rows

  pub total_none : (rows : List Notification) → in_any (map ids_of rows) v ≡ false → total rows ≡ 0
  unfolding in_any
  total_none [] h = refl
  total_none (n ∷ rows) h = elim (Bool-cases (contains (ids_of n) v)) [
    | inl held ↦ absurd (bools_differ (rw held at h))
    | inr missing ↦
        omega (arith, contains-count v (ids_of n) missing, total_none rows (rw missing at h))
  ]

  total-insert_newest :
      (n : Notification) (rows : List Notification)
      → total (insert_newest n rows) ≡ count v (ids_of n) + total rows
  unfolding insert_newest
  total-insert_newest n [] = refl
  total-insert_newest n (m ∷ rows) = elim (Bool-cases (ltb n.created_at m.created_at)) [
    | inl older ↦ rw older (omega (arith, total-insert_newest n rows))
    | inr newer ↦ rw newer refl
  ]

  pub total-newest_first : (rows : List Notification) → total (newest_first rows) ≡ total rows
  unfolding newest_first
  total-newest_first [] = refl
  total-newest_first (n ∷ rows) =
      omega (arith, total-insert_newest n (newest_first rows), total-newest_first rows)

contains-found : (v : Bytes) (ids : List Bytes) → contains ids v ≡ true → 1 ≤ count v ids
unfolding contains
contains-found v [] h = cc
contains-found v (id ∷ ids) h = ground (arith, contains-found v ids)

pub total_some :
    (ids_of : Notification → List Bytes) (v : Bytes) (rows : List Notification)
    → in_any (map ids_of rows) v ≡ true
    → 1 ≤ total ids_of v rows
unfolding in_any
total_some ids_of v [] h = cc
total_some ids_of v (n ∷ rows) h = elim (Bool-cases (contains (ids_of n) v)) [
  | inl held ↦ omega (arith, contains-found v (ids_of n) held)
  | inr missing ↦ omega (arith, total_some ids_of v rows (rw missing at h))
]

pub new_viewers_all :
    (v : Bytes) (lists : List (List Bytes)) (ids : List Bytes)
    → in_any lists v ≡ false
    → count v ids ≤ count v (new_viewers lists ids)
unfolding new_viewers
new_viewers_all v lists [] h = omega arith
new_viewers_all v lists (id ∷ ids) h = elim (Bool-cases (in_any lists id)) [
  | inl old ↦ elim (Bool-cases (eq_bytes id v)) [
    | inl same ↦ absurd (seen_same (in_any lists) v id (sym (eq_bytes→eq id v same)) h old)
    | inr other ↦ rw (old, other) (new_viewers_all v lists ids h)
  ]
  | inr new ↦ rw new (ground (arith, new_viewers_all v lists ids h))
]

keep_some :
    (v : Bytes) (seen : Bytes → Bool) (ids : List Bytes)
    → seen v ≡ false
    → 1 ≤ count v ids
    → 1 ≤ count v (keep_unique seen ids)
unfolding keep
keep_some v seen [] h some_id = absurd (omega arith)
keep_some v seen (id ∷ ids) h some_id = elim (Bool-cases (eq_bytes id v)) [
  | inl same ↦
      let new : seen id ≡ false =
        subst (λ (i : Bytes). seen i ≡ false) (sym (eq_bytes→eq id v same)) h in
      rw (keep_taken (unseen (λ str. str)) (see (λ str. str)) id ids seen (rw new))
        (rw same (omega arith))
  | inr other ↦
      let some_later : 1 ≤ count v ids = rw other at some_id in
      elim (Bool-cases (seen id)) [
        | inl old ↦
            rw (keep_passed (unseen (λ str. str)) (see (λ str. str)) id ids seen (rw old))
              (keep_some v seen ids h some_later)
        | inr new ↦
            rw (keep_taken (unseen (λ str. str)) (see (λ str. str)) id ids seen (rw new))
              (rw other (keep_some v (mark seen id) ids (rw (other, h)) some_later))
      ]
]

pub unique_strings_some :
    (v : Bytes) (ids : List Bytes) → 1 ≤ count v ids → 1 ≤ count v (unique_strings ids)
unfolding unique_strings
unique_strings_some v ids h = keep_some v (λ str. false) ids refl h
