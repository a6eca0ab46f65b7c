-- ===== src/Batching.antt =====
-- util/batch/batch.go: callers that share batches of parameters. A goroutine is a `Thread`, which says
-- where it stands, and `run` is its next atomic step: a load, a counter, a locked region, a
-- compare-and-swap or the call of the batch function. Parameters are comparable, and results are
-- not cached.
pub mod Params
pub mod Invariant
pub mod Steps
pub mod Answers
use go_mutuals.Prelude.{
  ℕ, get_elem?, zero, suc, ◌+◌, ◌%◌, ◌^◌, ◌≡◌, Bool, true, false, Option, none, some, List, [], ◌∷◌,
  ◌++◌, ltb, ◌==◌, if◌then◌else◌, ℤ, pos, ltb_ℤ, length, Outcome, ok, err, panics, ◌>>=◌,
}
use go_mutuals.Paging.{to_int32}

pub data Status : Type 0 where
  opened closed : Status

pub record Batch (P R E : Type 0) : Type 0 where
  pub params : List P
  pub results : List R
  pub errors : Option (List (Option E))
  pub status : Status
  pub done : Bool
  pub num_callers : ℕ

-- The batcher's map gives a batch for each id: one that is not stored yet is the one that
-- `newBatch` makes, which `LoadOrStore` stores before anything is read of it.
pub record Batcher (P R E : Type 0) : Type 0 where
  pub current_batch_id : ℕ
  pub batches : ℕ → Batch P R E
  pub published : List R

-- Where a goroutine stands: in `addParamToBatch`, behind it with the batch and the index that it
-- returned, or in `closeAfterTimeout`.
pub data Thread (P : Type 0) : Type 0 where
  calling : P → Thread P
  joining locking moving : P → ℕ → Thread P
  submitting swapping returned : P → ℕ → ℕ → Thread P
  sleeping timed_out : ℕ → Thread P
  ended : Thread P

unfoldable pub new_batch : {P R E : Type 0} → Batch P R E
new_batch = record {
  params = [];
  results = [];
  errors = none;
  status = opened;
  done = false;
  num_callers = 0;
}

unfoldable pub new_batcher : {P R E : Type 0} → Batcher P R E
new_batcher = record { current_batch_id = 0; batches = λ id. new_batch; published = [] }

unfoldable pub put : {P R E : Type 0} → ℕ → Batch P R E → Batcher P R E → Batcher P R E
put id b d = record d { batches = λ j. if j == id then b else d.batches j }

-- CompareAndSwapInt32(&d.currentBatchID, currentID, currentID+1), by the bits of the ids.
unfoldable pub next_batch : {P R E : Type 0} → ℕ → Batcher P R E → Batcher P R E
next_batch id d = record d {
  current_batch_id = if d.current_batch_id == id then (id + 1) % 2 ^ 32 else d.current_batch_id;
}

-- The index of an item, none for -1.
unfoldable pub index_of : {A : Type 0} → (A → A → Bool) → List A → A → Option ℕ
index_of eq [] item = none
index_of eq (existing ∷ slice) item =
    let rest = index_of eq slice item in
    if eq item existing then some 0 else elim rest [ none ↦ none | some i ↦ some (suc i) ]

-- `publishToSubscribers`: the results that the subscribers see. `errors[i]` is out of range where
-- the errors are fewer than the results, nil among them.
unfoldable pub publish : {R E X : Type 0} → List R → List (Option X) → Outcome E (List R)
publish [] errors = ok []
publish (result ∷ results) [] = panics
publish (result ∷ results) (none ∷ errors) = do rest ← publish results errors; ok (result ∷ rest)
publish (result ∷ results) (some e ∷ errors) = publish results errors

abbrev pub or_nil : {A : Type 0} → Option (List A) → List A
or_nil none = []
or_nil (some xs) = xs

-- A new call comes in, or the goroutine of the number runs.
pub data Move (P : Type 0) : Type 0 where
  arrives : P → Move P
  runs : ℕ → Move P

module _ {P R E : Type 0} (eq : P → P → Bool) (max_batch_size : ℕ) (publish_results : Bool)
    (batch_func : List P → List R × Option (List (Option E))) where
  -- `submitBatch`. To close a channel again panics.
  unfoldable pub submit_batch : ℕ → Batcher P R E → Outcome E (Batcher P R E)
  submit_batch id d =
      let b = d.batches id in
      let answer = batch_func b.params in
      do
        seen ← if publish_results then publish answer.0 (or_nil answer.1) else ok []
        if b.done
            then panics
            else ok (
                put id (record b { results = answer.0; errors = answer.1; done = true })
                  (record d { published = d.published ++ seen }))

  -- The part behind the check that the parameter is new.
  unfoldable pub append_param :
      P → ℕ → Batch P R E → Batcher P R E → Batcher P R E × Thread P × List (Thread P)
  append_param param id b d =
      let index = length b.params in
      let full = index + 1 == max_batch_size in
      let params = b.params ++ param ∷ [] in
      (
        put id (record b { params = params; status = if full then closed else opened }) d,
        if full then submitting param id index else returned param id index,
        if index == 0 then sleeping id ∷ [] else [],
      )

  -- The locked region of `addParamToBatch`.
  unfoldable pub add_param_locked :
      P → ℕ → Batch P R E → Status → Batcher P R E → Batcher P R E × Thread P × List (Thread P)
  add_param_locked param id b closed d = (d, moving param id, [])
  add_param_locked param id b opened d = elim (index_of eq b.params param) [
    | some index ↦ (d, returned param id index, [])
    | none ↦ append_param param id b d
  ]

  -- The locked region of `closeAfterTimeout`.
  unfoldable pub close_after_timeout :
      ℕ → Batch P R E → Status → Batcher P R E → Batcher P R E × Thread P × List (Thread P)
  close_after_timeout id b opened d = (put id (record b { status = closed }) d, timed_out id, [])
  close_after_timeout id b closed d = (d, ended, [])

  -- The next step of a goroutine, with the goroutines that it starts.
  unfoldable pub run :
      Thread P → Batcher P R E → Outcome E (Batcher P R E × Thread P × List (Thread P))
  run (calling param) d = ok (d, joining param d.current_batch_id, [])
  run (joining param id) d =
      let b = d.batches id in
      let num_assigned = (b.num_callers + 1) % 2 ^ 32 in
      ok (
        put id (record b { num_callers = num_assigned }) d,
        if ltb_ℤ (to_int32 (pos max_batch_size)) (to_int32 (pos num_assigned))
            then moving param id
            else locking param id,
        [],
      )
  run (moving param id) d = ok (next_batch id d, calling param, [])
  run (locking param id) d = ok (add_param_locked param id (d.batches id) (d.batches id).status d)
  run (submitting param id index) d = do
    d' ← submit_batch id d
    ok (d', swapping param id index, [])
  run (swapping param id index) d = ok (next_batch id d, returned param id index, [])
  run (returned param id index) d = ok (d, returned param id index, [])
  run (sleeping id) d = ok (close_after_timeout id (d.batches id) (d.batches id).status d)
  run (timed_out id) d = do d' ← submit_batch id d; ok (d', ended, [])
  run ended d = ok (d, ended, [])

  -- One goroutine of those that there are takes its next step.
  unfoldable pub run_nth :
      ℕ → List (Thread P) → Batcher P R E → Outcome E (Batcher P R E × List (Thread P))
  run_nth n [] d = ok (d, [])
  run_nth zero (t ∷ ts) d = do (d', t', started) ← run t d; ok (d', t' ∷ (started ++ ts))
  run_nth (suc n) (t ∷ ts) d = do (d', ts') ← run_nth n ts d; ok (d', t ∷ ts')

  unfoldable pub play :
      List (Move P) → List (Thread P) → Batcher P R E → Outcome E (Batcher P R E × List (Thread P))
  play [] ts d = ok (d, ts)
  play (arrives param ∷ moves) ts d = play moves (calling param ∷ ts) d
  play (runs n ∷ moves) ts d = do (d', ts') ← run_nth n ts d; play moves ts' d'

-- What a caller's thunk gives behind `<-b.done`; `zero_result` is the zero value of a result.
unfoldable pub thunk_error : {E : Type 0} → Option (List (Option E)) → ℕ → Outcome E (Option E)
thunk_error none index = ok none
thunk_error (some (e ∷ [])) index = ok e
thunk_error (some []) index = panics
thunk_error (some (e ∷ e' ∷ es)) index = elim (get_elem? (e ∷ e' ∷ es) index) [
  | none ↦ panics
  | some e'' ↦ ok e''
]

unfoldable pub thunk : {P R E : Type 0} → R → Batch P R E → ℕ → Outcome E (R × Option E)
thunk zero_result b index = do
  e ← thunk_error b.errors index
  elim (get_elem? b.results index) [ none ↦ ok (zero_result, e) | some result ↦ ok (result, e) ]
