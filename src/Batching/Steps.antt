-- ===== src/Batching/Steps.antt =====
-- util/batch/batch.go: every step of a goroutine keeps the batches well formed.
use go_mutuals.Prelude.{
  get_elem?, get_elem?-append, get_elem?-append_length, ℕ, ◌+◌, ◌≤◌, ◌≡◌, refl, sym, ap, ◌∙◌, Bool,
  true, false, Option, some, List, [], ◌∷◌, ◌++◌, arith, ◌==◌, ==_iff, if◌then◌else◌, length,
  length-append, All, Outcome, ok, ◌>>=◌, Bool-cases, Option-cases, inl, inr, subst,
}
use go_mutuals.Batching.{
  Status, opened, closed, Batch, Batcher, Thread, calling, joining, locking, moving, submitting,
  swapping, returned, sleeping, timed_out, ended, put, next_batch, index_of, publish, or_nil,
  submit_batch, append_param, add_param_locked, close_after_timeout, run,
}
use go_mutuals.Batching.Params.{get_elem?-index_of, publish_total}
use go_mutuals.Batching.Invariant.{
  bit, closed_bit, submits, submitters, IsBatch, Holds, Knows, Extends, AllBatches, put-AllBatches,
  put-Extends,
}

module _ {P R E : Type 0} (eq : P → P → Bool) (eq→path : (p q : P) → eq p q ≡ true → p ≡ q)
    (max_batch_size : ℕ) (publish_results : Bool)
    (batch_func : List P → List R × Option (List (Option E)))
    (paired : (ps : List P) → length (batch_func ps).0 ≤ length (or_nil (batch_func ps).1)) where
  -- The outcome of a step, beside goroutines that account for `k`, is no panic and keeps all.
  pub record Sound (k : ℕ → ℕ) (d : Batcher P R E)
      (outcome : Outcome E (Batcher P R E × Thread P × List (Thread P))) : Type 0 where
    pub after : Batcher P R E
    pub thread : Thread P
    pub started : List (Thread P)
    pub runs_on : outcome ≡ ok (after, thread, started)
    pub batches_ok :
        AllBatches max_batch_size batch_func after
          (λ id. k id + (submits id thread + submitters id started))
    pub knows : Knows after thread
    pub all_know : All (Knows after) started
    pub extends : Extends d after

  abbrev Before : (ℕ → ℕ) → Batcher P R E → Thread P → Type 0
  Before k d t = AllBatches max_batch_size batch_func d (λ id. k id + submits id t)

  -- A step that leaves the batches alone, between threads that submit nothing.
  Sound-still :
      (k : ℕ → ℕ) (d d' : Batcher P R E) (t t' : Thread P)
      → d'.batches ≡ d.batches
      → ((id : ℕ) → submits id t ≡ 0)
      → ((id : ℕ) → submits id t' ≡ 0)
      → Before k d t
      → Knows d' t'
      → Sound k d (ok (d', t', []))
  Sound-still k d d' t t' same quiet quiet' h know = record {
    after = d';
    thread = t';
    started = [];
    runs_on = refl;
    batches_ok = λ id.
        subst
          (λ (bs : ℕ → Batch P R E).
            IsBatch max_batch_size batch_func (bs id) (k id + (submits id t' + 0)))
          (sym same)
          (subst (λ n. IsBatch max_batch_size batch_func (d.batches id) n)
            (omega (arith, quiet id, quiet' id)) (h id));
    knows = know;
    all_know = tt;
    extends = λ id index p e.
        subst (λ (bs : ℕ → Batch P R E). get_elem? (bs id).params index ≡ some p) (sym same) e;
  }

  -- A step that puts one batch in place.
  Sound-put :
      (k : ℕ → ℕ) (d d₀ : Batcher P R E) (t t' : Thread P) (started : List (Thread P)) (id : ℕ)
      (b : Batch P R E)
      → d₀.batches ≡ d.batches
      → Before k d t
      → IsBatch max_batch_size batch_func b (k id + (submits id t' + submitters id started))
      → ((j : ℕ) → (j == id) ≡ false → submits j t' + submitters j started ≡ submits j t)
      → ((index : ℕ) (p : P)
          → get_elem? (d.batches id).params index ≡ some p
          → get_elem? b.params index ≡ some p)
      → Knows (put id b d₀) t'
      → All (Knows (put id b d₀)) started
      → Sound k d (ok (put id b d₀, t', started))
  Sound-put k d d₀ t t' started id b same h here others kept know knows =
      let kept₀ : (index : ℕ) (p : P)
          → get_elem? (d₀.batches id).params index ≡ some p
          → get_elem? b.params index ≡ some p =
        λ index p e.
          kept index p
            (subst (λ (bs : ℕ → Batch P R E). get_elem? (bs id).params index ≡ some p) same e) in
      record {
        after = put id b d₀;
        thread = t';
        started = started;
        runs_on = refl;
        batches_ok =
            put-AllBatches max_batch_size batch_func d₀ (λ j. k j + submits j t) _ id b
              (subst
                (λ (bs : ℕ → Batch P R E).
                  (j : ℕ) → IsBatch max_batch_size batch_func (bs j) (k j + submits j t))
                (sym same) h)
              here (λ j e. omega (arith, others j e));
        knows = know;
        all_know = knows;
        extends = λ j index p e.
            put-Extends d₀ id b kept₀ j index p (
              subst (λ (bs : ℕ → Batch P R E). get_elem? (bs j).params index ≡ some p) (sym same)
                e);
      }

  open_bit :
      (b : Batch P R E) (n : ℕ)
      → IsBatch max_batch_size batch_func b n
      → b.status ≡ opened
      → (n ≡ 0) × (b.done ≡ false)
  open_bit b n h e =
      let counted : n + bit b.done ≡ 0 = h.once ∙ ap closed_bit e in
      elim (Bool-cases b.done) [
        | inl d ↦ absurd (omega (arith, counted, ap bit d))
        | inr d ↦ (omega (arith, counted), d)
      ]

  self_bit : (id : ℕ) → bit (id == id) ≡ 1
  self_bit id = ap bit ((==_iff id id).1 refl)

  counted :
      (k : ℕ → ℕ) (d : Batcher P R E) (p : P) (id n : ℕ)
      → Before k d (joining p id)
      → IsBatch max_batch_size batch_func
          (record (d.batches id) { num_callers = n })
          (k id + (0 + 0))
  counted k d p id n h = record {
    fits = (h id).fits;
    room = (h id).room;
    once = omega (arith, (h id).once);
    answered = (h id).answered;
  }

  join-Sound :
      (k : ℕ → ℕ) (d : Batcher P R E) (p : P) (id n : ℕ) (over : Bool)
      → Before k d (joining p id)
      → Sound k d (
          ok (
            put id (record (d.batches id) { num_callers = n }) d,
            if over then moving p id else locking p id,
            [],
          ))
  join-Sound k d p id n true h =
      Sound-put k d d (joining p id) (moving p id) [] id (record (d.batches id) { num_callers = n })
        refl h (counted k d p id n h) (λ j other. omega arith) (λ i q e. e) tt tt
  join-Sound k d p id n false h =
      Sound-put k d d (joining p id) (locking p id) [] id
        (record (d.batches id) { num_callers = n }) refl h (counted k d p id n h)
        (λ j other. omega arith) (λ i q e. e) tt tt

  put_self : (id : ℕ) (b : Batch P R E) (d : Batcher P R E) → (put id b d).batches id ≡ b
  unfolding put
  put_self id b d = rw ((==_iff id id).1 refl)

  appended-Holds :
      (d : Batcher P R E) (p : P) (id : ℕ) (status : Status)
      → Holds
          (put id
            (record (d.batches id) { params = (d.batches id).params ++ p ∷ []; status = status })
            d)
          p
          id
          (length (d.batches id).params)
  appended-Holds d p id status =
      rw (put_self id _ d) (get_elem?-append_length (d.batches id).params p [])

  timer : Bool → ℕ → List (Thread P)
  timer first id = if first then sleeping id ∷ [] else []

  submitters-timer : (first : Bool) (id j : ℕ) → submitters j (timer first id) ≡ 0
  unfolding timer
  submitters-timer true id j = omega arith
  submitters-timer false id j = refl

  timer-Knows : (d : Batcher P R E) (first : Bool) (id : ℕ) → All (Knows d) (timer first id)
  unfolding timer
  timer-Knows d true id = (tt, tt)
  timer-Knows d false id = tt

  abbrev Appended : (ℕ → ℕ) → Batcher P R E → P → ℕ → Bool → Bool → Type 0
  Appended k d p id full first =
      let index = length (d.batches id).params in
      Sound k d (
        ok (
          put id
              (record (d.batches id) {
                params = (d.batches id).params ++ p ∷ [];
                status = if full then closed else opened;
              })
              d,
          if full then submitting p id index else returned p id index,
          timer first id,
        ))

  append-Sound :
      (k : ℕ → ℕ) (d : Batcher P R E) (p : P) (id : ℕ) (full first : Bool)
      → Before k d (locking p id)
      → (d.batches id).status ≡ opened
      → (length (d.batches id).params + 1 == max_batch_size) ≡ full
      → Appended k d p id full first
  append-Sound k d p id true first h e f =
      let b = d.batches id in
      let b' = record b { params = b.params ++ p ∷ []; status = closed } in
      let (none_left, undone) = open_bit b _ (h id) e in
      Sound-put k d d (locking p id) (submitting p id (length b.params)) (timer first id) id b' refl
        h
        (record {
          fits = omega (arith, (h id).room e, length-append b.params (p ∷ []));
          room = λ e'. cc;
          once = omega (arith, none_left, self_bit id, ap bit undone, submitters-timer first id id);
          answered = λ done. cc;
        })
        (λ j other. omega (arith, ap bit other, submitters-timer first id j))
        (λ i q e'. get_elem?-append b.params (p ∷ []) i e') (appended-Holds d p id closed)
        (timer-Knows (put id b' d) first id)
  append-Sound k d p id false first h e f =
      let b = d.batches id in
      let b' = record b { params = b.params ++ p ∷ []; status = opened } in
      let (none_left, undone) = open_bit b _ (h id) e in
      Sound-put k d d (locking p id) (returned p id (length b.params)) (timer first id) id b' refl h
        (record {
          fits = omega (arith, (h id).room e, length-append b.params (p ∷ []));
          room = λ e'. ground (arith, (h id).room e, length-append b.params (p ∷ []));
          once = omega (arith, none_left, ap bit undone, submitters-timer first id id);
          answered = λ done. cc;
        })
        (λ j other. omega (arith, submitters-timer first id j))
        (λ i q e'. get_elem?-append b.params (p ∷ []) i e') (appended-Holds d p id opened)
        (timer-Knows (put id b' d) first id)

  append_param-Sound :
      (k : ℕ → ℕ) (d : Batcher P R E) (p : P) (id : ℕ)
      → Before k d (locking p id)
      → (d.batches id).status ≡ opened
      → Sound k d
          (ok (append_param eq max_batch_size publish_results batch_func p id (d.batches id) d))
  unfolding append_param timer
  append_param-Sound k d p id h e =
      append-Sound k d p id (length (d.batches id).params + 1 == max_batch_size)
        (length (d.batches id).params == 0) h e refl

  seen_by :
      (ps : List P) (publishes : Bool)
      → (seen : List R) × ((if publishes
            then publish {E = E} (batch_func ps).0 (or_nil (batch_func ps).1)
            else ok [])
          ≡ ok seen)
  seen_by ps true = publish_total {E = E} _ _ (paired ps)
  seen_by ps false = ([], refl)

  closed_bit-bound : (s : Status) → closed_bit s ≤ 1
  closed_bit-bound opened = omega arith
  closed_bit-bound closed = omega arith

  closed_bit-closed : (s : Status) → closed_bit s ≡ 1 → s ≡ closed
  closed_bit-closed opened e = absurd (omega (arith, e))
  closed_bit-closed closed e = refl

  last_submit :
      (b : Batch P R E) (n m : ℕ)
      → IsBatch max_batch_size batch_func b (n + m)
      → m ≡ 1
      → (n ≡ 0) × (b.done ≡ false) × (b.status ≡ closed)
  last_submit b n m h e = elim (Bool-cases b.done) [
    | inl d ↦ absurd (omega (arith, h.once, ap bit d, closed_bit-bound b.status))
    | inr d ↦
        let c : closed_bit b.status ≡ 1 = omega (arith, h.once, closed_bit-bound b.status) in
        (omega (arith, h.once, closed_bit-bound b.status), d, closed_bit-closed b.status c)
  ]

  submit_batch-Sound :
      (k : ℕ → ℕ) (d : Batcher P R E) (id : ℕ) (t t' : Thread P)
      → Before k d t
      → ((j : ℕ) → submits j t ≡ bit (j == id))
      → ((j : ℕ) → submits j t' ≡ 0)
      → ((d' : Batcher P R E) → Extends d d' → Knows d' t')
      → Sound k d
          (submit_batch eq max_batch_size publish_results batch_func id d >>= λ d'. ok (d', t', []))
  unfolding submit_batch
  submit_batch-Sound k d id t t' h submits_id quiet know =
      let b = d.batches id in
      let answer = batch_func b.params in
      let b' = record b { results = answer.0; errors = answer.1; done = true } in
      let (seen, saw) = seen_by b.params publish_results in
      let (alone, undone, shut) =
        last_submit b (k id) (submits id t) (h id) (submits_id id ∙ self_bit id) in
      let d₀ = record d { published = d.published ++ seen } in
      rw (saw, undone)
        (Sound-put k d d₀ t t' [] id b' refl h
          (record {
            fits = (h id).fits;
            room = (h id).room;
            once = omega (arith, alone, quiet id, ap closed_bit shut);
            answered = λ done. refl;
          })
          (λ j other. omega (arith, quiet j, submits_id j, ap bit other)) (λ i q e. e)
          (know (put id b' d₀) (put-Extends d₀ id b' (λ i q e. e))) tt)

  joins-Sound :
      (k : ℕ → ℕ) (d : Batcher P R E) (p : P) (id : ℕ)
      → Before k d (joining p id)
      → Sound k d (run eq max_batch_size publish_results batch_func (joining p id) d)
  unfolding run
  joins-Sound k d p id h = join-Sound k d p id _ _ h

  add_param-Sound :
      (k : ℕ → ℕ) (d : Batcher P R E) (p : P) (id : ℕ) (status : Status)
      → (d.batches id).status ≡ status
      → Before k d (locking p id)
      → Sound k d (
          ok (
            add_param_locked eq max_batch_size publish_results batch_func p id
              (d.batches id)
              status
              d))
  unfolding add_param_locked
  add_param-Sound k d p id closed e h =
      Sound-still k d d (locking p id) (moving p id) refl (λ j. refl) (λ j. refl) h tt
  add_param-Sound k d p id opened e h = elim (Option-cases (index_of eq (d.batches id).params p)) [
    | inl missing ↦ rw (missing, add_param_locked) (append_param-Sound k d p id h e)
    | inr (i, found) ↦
        rw (found, add_param_locked)
          (Sound-still k d d (locking p id) (returned p id i) refl (λ j. refl) (λ j. refl) h
            (get_elem?-index_of eq eq→path _ p i found))
  ]

  close_after_timeout-Sound :
      (k : ℕ → ℕ) (d : Batcher P R E) (id : ℕ) (status : Status)
      → (d.batches id).status ≡ status
      → Before k d (sleeping id)
      → Sound k d (
          ok (
            close_after_timeout eq max_batch_size publish_results batch_func id
              (d.batches id)
              status
              d))
  unfolding close_after_timeout
  close_after_timeout-Sound k d id closed e h =
      Sound-still k d d (sleeping id) ended refl (λ j. refl) (λ j. refl) h tt
  close_after_timeout-Sound k d id opened e h =
      let b = d.batches id in
      let (none_left, undone) = open_bit b _ (h id) e in
      Sound-put k d d (sleeping id) (timed_out id) [] id (record b { status = closed }) refl h
        (record {
          fits = (h id).fits;
          room = λ e'. cc;
          once = omega (arith, none_left, self_bit id, ap bit undone);
          answered = (h id).answered;
        })
        (λ j other. omega (arith, ap bit other)) (λ i q e'. e') tt tt

  same_batches : (id : ℕ) (d : Batcher P R E) → (next_batch id d).batches ≡ d.batches
  unfolding next_batch
  same_batches id d = refl

  next_batch-Holds :
      (d : Batcher P R E) (p : P) (id index : ℕ)
      → Holds d p id index
      → Holds (next_batch id d) p id index
  unfolding next_batch
  next_batch-Holds d p id index know = know

  -- Every step of a goroutine.
  pub run-Sound :
      (k : ℕ → ℕ) (d : Batcher P R E) (t : Thread P)
      → Before k d t
      → Knows d t
      → Sound k d (run eq max_batch_size publish_results batch_func t d)
  unfolding run
  run-Sound k d (calling p) h know =
      Sound-still k d d (calling p) (joining p d.current_batch_id) refl (λ j. refl) (λ j. refl) h tt
  run-Sound k d (joining p id) h know = joins-Sound k d p id h
  run-Sound k d (moving p id) h know =
      Sound-still k d (next_batch id d) (moving p id) (calling p) (same_batches id d) (λ j. refl)
        (λ j. refl) h tt
  run-Sound k d (locking p id) h know = add_param-Sound k d p id (d.batches id).status refl h
  run-Sound k d (submitting p id index) h know =
      submit_batch-Sound k d id (submitting p id index) (swapping p id index) h (λ j. refl)
        (λ j. refl) (λ d' more. more id index p know)
  run-Sound k d (swapping p id index) h know =
      Sound-still k d (next_batch id d) (swapping p id index) (returned p id index)
        (same_batches id d) (λ j. refl) (λ j. refl) h (next_batch-Holds d p id index know)
  run-Sound k d (returned p id index) h know =
      Sound-still k d d (returned p id index) (returned p id index) refl (λ j. refl) (λ j. refl) h
        know
  run-Sound k d (sleeping id) h know = close_after_timeout-Sound k d id (d.batches id).status refl h
  run-Sound k d (timed_out id) h know =
      submit_batch-Sound k d id (timed_out id) ended h (λ j. refl) (λ j. refl) (λ d' more. tt)
  run-Sound k d ended h know = Sound-still k d d ended ended refl (λ j. refl) (λ j. refl) h tt
