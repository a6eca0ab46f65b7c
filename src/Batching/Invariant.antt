-- ===== src/Batching/Invariant.antt =====
-- util/batch/batch.go: what holds of the batches whatever the order of the goroutines' steps.
use go_mutuals.Prelude.{
  get_elem?, ℕ, ◌+◌, ◌≤◌, ◌<◌, ◌≡◌, sym, Bool, true, false, Option, some, List, [], ◌∷◌, ◌++◌,
  arith, ◌==◌, ==_iff, length, All, Bool-cases, inl, inr, subst,
}
use go_mutuals.Batching.{
  Status, opened, closed, Batch, Batcher, Thread, calling, joining, locking, moving, submitting,
  swapping, returned, sleeping, timed_out, ended, put,
}

abbrev pub bit : Bool → ℕ
bit true = 1
bit false = 0

abbrev pub closed_bit : Status → ℕ
closed_bit opened = 0
closed_bit closed = 1

-- Whether the goroutine is about to submit the batch.
abbrev pub submits : {P : Type 0} → ℕ → Thread P → ℕ
submits id (submitting p i index) = bit (id == i)
submits id (timed_out i) = bit (id == i)
submits id (calling p) = 0
submits id (joining p i) = 0
submits id (locking p i) = 0
submits id (moving p i) = 0
submits id (swapping p i index) = 0
submits id (returned p i index) = 0
submits id (sleeping i) = 0
submits id ended = 0

abbrev pub submitters : {P : Type 0} → ℕ → List (Thread P) → ℕ
submitters id [] = 0
submitters id (t ∷ ts) = submits id t + submitters id ts

pub submitters-append :
    {P : Type 0} (id : ℕ) (ts us : List (Thread P))
    → submitters id (ts ++ us) ≡ submitters id ts + submitters id us
submitters-append id [] us = omega arith
submitters-append id (t ∷ ts) us = ground (arith, submitters-append id ts us)

module _ {P R E : Type 0} where
  -- The parameter at the index is the caller's own.
  abbrev pub Holds : Batcher P R E → P → ℕ → ℕ → Type 0
  Holds d p id index = get_elem? (d.batches id).params index ≡ some p

  abbrev pub Knows : Batcher P R E → Thread P → Type 0
  Knows d (submitting p id index) = Holds d p id index
  Knows d (swapping p id index) = Holds d p id index
  Knows d (returned p id index) = Holds d p id index
  Knows d (calling p) = Unit
  Knows d (joining p id) = Unit
  Knows d (locking p id) = Unit
  Knows d (moving p id) = Unit
  Knows d (sleeping id) = Unit
  Knows d (timed_out id) = Unit
  Knows d ended = Unit

  -- Nothing is taken out of a batch or moved in it.
  abbrev pub Extends : Batcher P R E → Batcher P R E → Type 0
  Extends d d' =
      (id index : ℕ) (p : P)
      → get_elem? (d.batches id).params index ≡ some p
      → get_elem? (d'.batches id).params index ≡ some p

  pub Knows-Extends : (d d' : Batcher P R E) (t : Thread P) → Extends d d' → Knows d t → Knows d' t
  Knows-Extends d d' (submitting p id index) h k = h id index p k
  Knows-Extends d d' (swapping p id index) h k = h id index p k
  Knows-Extends d d' (returned p id index) h k = h id index p k
  Knows-Extends d d' (calling p) h k = tt
  Knows-Extends d d' (joining p id) h k = tt
  Knows-Extends d d' (locking p id) h k = tt
  Knows-Extends d d' (moving p id) h k = tt
  Knows-Extends d d' (sleeping id) h k = tt
  Knows-Extends d d' (timed_out id) h k = tt
  Knows-Extends d d' ended h k = tt

  pub All-Knows-Extends :
      (d d' : Batcher P R E) (ts : List (Thread P))
      → Extends d d'
      → All (Knows d) ts
      → All (Knows d') ts
  All-Knows-Extends d d' [] h ks = tt
  All-Knows-Extends d d' (t ∷ ts) h (k, ks) =
      (Knows-Extends d d' t h k, All-Knows-Extends d d' ts h ks)

  pub put-Extends :
      (d : Batcher P R E) (id : ℕ) (b : Batch P R E)
      → ((index : ℕ) (p : P)
          → get_elem? (d.batches id).params index ≡ some p
          → get_elem? b.params index ≡ some p)
      → Extends d (put id b d)
  unfolding put
  put-Extends d id b h j index p e = elim (Bool-cases (j == id)) [
    | inl same ↦ rw same (
        h index p
          (subst (λ i. get_elem? (d.batches i).params index ≡ some p) ((==_iff j id).0 same) e))
    | inr other ↦ rw other e
  ]

module _ {P R E : Type 0} (max_batch_size : ℕ)
    (batch_func : List P → List R × Option (List (Option E))) where
  -- A batch with so many goroutines about to submit it: the parameters fit, an open batch has room,
  -- it is submitted once and only when it is closed, and then has the answer to its parameters.
  pub record IsBatch (b : Batch P R E) (n : ℕ) : Type 0 where
    pub fits : length b.params ≤ max_batch_size
    pub room : b.status ≡ opened → length b.params < max_batch_size
    pub once : n + bit b.done ≡ closed_bit b.status
    pub answered : b.done ≡ true → (b.results, b.errors) ≡ batch_func b.params

  abbrev pub AllBatches : Batcher P R E → (ℕ → ℕ) → Type 0
  AllBatches d m = (id : ℕ) → IsBatch (d.batches id) (m id)

  -- The batch that is put in place, and all the others as they were.
  pub put-AllBatches :
      (d : Batcher P R E) (m m' : ℕ → ℕ) (id : ℕ) (b : Batch P R E)
      → AllBatches d m
      → IsBatch b (m' id)
      → ((j : ℕ) → (j == id) ≡ false → m' j ≡ m j)
      → AllBatches (put id b d) m'
  unfolding put
  put-AllBatches d m m' id b all ok_b same j = elim (Bool-cases (j == id)) [
    | inl e ↦ rw e (subst (λ i. IsBatch b (m' i)) (sym ((==_iff j id).0 e)) ok_b)
    | inr e ↦ rw (e, same j e) (all j)
  ]
