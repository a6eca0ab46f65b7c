-- ===== src/Batching/Answers.antt =====
-- util/batch/batch.go: every order of the goroutines' steps, and what a caller's thunk gives.
use go_mutuals.Prelude.{
  get_elem?, ℕ, zero, suc, ◌+◌, ◌≤◌, ◌<◌, ◌≡◌, refl, sym, ap, ◌∙◌, Bool, true, Option, some, List,
  [], ◌∷◌, ◌++◌, map, arith, length-map, length, All, All-append, Outcome, ok, ok_cancel, subst,
}
use go_mutuals.Batching.{
  Batch, Batcher, Thread, calling, joining, locking, moving, submitting, swapping, returned,
  sleeping, timed_out, ended, new_batch, new_batcher, or_nil, run_nth, Move, arrives, runs, play,
  thunk, thunk_error,
}
use go_mutuals.Batching.Invariant.{
  submits, submitters, submitters-append, IsBatch, Knows, Extends, AllBatches, All-Knows-Extends,
  Knows-Extends,
}
use go_mutuals.Batching.Steps.{run-Sound}

module _ {P R E : Type 0} (eq : P → P → Bool) (eq→path : (p q : P) → eq p q ≡ true → p ≡ q)
    (max_batch_size : ℕ) (publish_results : Bool)
    (batch_func : List P → List R × Option (List (Option E)))
    (paired : (ps : List P) → length (batch_func ps).0 ≤ length (or_nil (batch_func ps).1)) where
  -- A run of moves ends, without a panic, in well-formed batches, and every goroutine's parameter
  -- stands where it knows it to.
  pub record Survives (k : ℕ → ℕ) (d : Batcher P R E)
      (outcome : Outcome E (Batcher P R E × List (Thread P))) : Type 0 where
    pub after : Batcher P R E
    pub threads : List (Thread P)
    pub runs_on : outcome ≡ ok (after, threads)
    pub batches_ok : AllBatches max_batch_size batch_func after (λ id. k id + submitters id threads)
    pub know : All (Knows after) threads
    pub extends : Extends d after

  recount :
      (d : Batcher P R E) (m m' : ℕ → ℕ)
      → ((id : ℕ) → m id ≡ m' id)
      → AllBatches max_batch_size batch_func d m
      → AllBatches max_batch_size batch_func d m'
  recount d m m' same h id =
      subst (λ n. IsBatch max_batch_size batch_func (d.batches id) n) (same id) (h id)

  run_nth-Survives :
      (k : ℕ → ℕ) (n : ℕ) (ts : List (Thread P)) (d : Batcher P R E)
      → AllBatches max_batch_size batch_func d (λ id. k id + submitters id ts)
      → All (Knows d) ts
      → Survives k d (run_nth eq max_batch_size publish_results batch_func n ts d)
  unfolding run_nth
  run_nth-Survives k n [] d h know = record {
    after = d;
    threads = [];
    runs_on = refl;
    batches_ok = h;
    know = tt;
    extends = λ id index p e. e;
  }
  run_nth-Survives k zero (t ∷ ts) d h (know, knows) =
      let step =
        run-Sound eq eq→path max_batch_size publish_results batch_func paired
          (λ id. k id + submitters id ts) d t (recount d _ _ (λ id. omega arith) h) know in
      record {
        after = step.after;
        threads = step.thread ∷ (step.started ++ ts);
        runs_on = rw step.runs_on;
        batches_ok =
            recount step.after _ _ (λ id. omega (arith, submitters-append id step.started ts))
              step.batches_ok;
        know = (
          step.knows,
          All-append (Knows step.after) step.started ts step.all_know
              (All-Knows-Extends d step.after ts step.extends knows),
        );
        extends = step.extends;
      }
  run_nth-Survives k (suc n) (t ∷ ts) d h (know, knows) =
      let rest =
        run_nth-Survives (λ id. k id + submits id t) n ts d (recount d _ _ (λ id. omega arith) h)
          knows in
      record {
        after = rest.after;
        threads = t ∷ rest.threads;
        runs_on = rw rest.runs_on;
        batches_ok = recount rest.after _ _ (λ id. omega arith) rest.batches_ok;
        know = (Knows-Extends d rest.after t rest.extends know, rest.know);
        extends = rest.extends;
      }

  play-Survives :
      (moves : List (Move P)) (ts : List (Thread P)) (d : Batcher P R E)
      → AllBatches max_batch_size batch_func d (λ id. submitters id ts)
      → All (Knows d) ts
      → Survives (λ id. 0) d (play eq max_batch_size publish_results batch_func moves ts d)
  unfolding play
  play-Survives [] ts d h know = record {
    after = d;
    threads = ts;
    runs_on = refl;
    batches_ok = recount d _ _ (λ id. omega arith) h;
    know = know;
    extends = λ id index p e. e;
  }
  play-Survives (arrives p ∷ moves) ts d h know =
      play-Survives moves (calling p ∷ ts) d (recount d _ _ (λ id. omega arith) h) (tt, know)
  play-Survives (runs n ∷ moves) ts d h know =
      let first = run_nth-Survives (λ id. 0) n ts d (recount d _ _ (λ id. omega arith) h) know in
      let rest =
        play-Survives moves first.threads first.after
          (recount first.after _ _ (λ id. omega arith) first.batches_ok) first.know in
      record {
        after = rest.after;
        threads = rest.threads;
        runs_on = rw first.runs_on rest.runs_on;
        batches_ok = rest.batches_ok;
        know = rest.know;
        extends = λ id index p e. rest.extends id index p (first.extends id index p e);
      }

  new_batcher-AllBatches :
      0 < max_batch_size
      → AllBatches {P = P} {R = R} {E = E} max_batch_size batch_func new_batcher (λ id. 0)
  unfolding new_batcher new_batch
  new_batcher-AllBatches h id = record {
    fits = omega arith;
    room = λ e. omega arith;
    once = omega arith;
    answered = λ e. cc;
  }

  -- Whatever calls come in and in whatever order the goroutines run, nothing panics, no batch has
  -- more than the maximum of parameters, every batch is submitted at most once, when it is closed,
  -- the answer of a submitted batch is that of all its parameters, and every caller's index is
  -- that of its own parameter. The maximum is not 0, the comparison of parameters finds only equal
  -- ones, and the batch function gives an error value for each result.
  pub play-Survives_all :
      0 < max_batch_size
      → (moves : List (Move P))
      → Survives
          (λ id. 0)
          new_batcher
          (play eq max_batch_size publish_results batch_func moves [] new_batcher)
  play-Survives_all h moves = play-Survives moves [] new_batcher (new_batcher-AllBatches h) tt

get_elem?-map :
    {A B : Type 0} (f : A → B) (xs : List A) (i : ℕ) {x : A}
    → get_elem? xs i ≡ some x
    → get_elem? (map f xs) i ≡ some (f x)
unfolding get_elem?
get_elem?-map f [] i h = cc
get_elem?-map f (x ∷ xs) zero h = cc
get_elem?-map f (x ∷ xs) (suc i) h = get_elem?-map f xs i h

some-map-error :
    {P E : Type 0} (g : P → Option E) (ps : List P) (index : ℕ) {p : P}
    → get_elem? ps index ≡ some p
    → thunk_error {E = E} (some (map g ps)) index ≡ ok (g p)
unfolding thunk_error get_elem?
some-map-error g [] index h = cc
some-map-error g (q ∷ []) zero h = cc
some-map-error g (q ∷ []) (suc index) h = cc
some-map-error g (q ∷ r ∷ ps) index h = rw (get_elem?-map g (q ∷ r ∷ ps) index h, thunk_error)

-- The batch function that answers each parameter by itself.
abbrev pub each :
    {P R E : Type 0} → (P → R) → (P → Option E) → List P → List R × Option (List (Option E))
each f g ps = (map f ps, some (map g ps))

pub each-paired :
    {P R E : Type 0} (f : P → R) (g : P → Option E) (ps : List P)
    → length (each f g ps).0 ≤ length (or_nil (each f g ps).1)
each-paired f g ps = omega (arith, length-map f ps, length-map g ps)

module _ {P R E : Type 0} (eq : P → P → Bool) (eq→path : (p q : P) → eq p q ≡ true → p ≡ q)
    (max_batch_size : ℕ) (publish_results : Bool) (f : P → R) (g : P → Option E)
    (zero_result : R) where
  -- A caller whose batch is done gets the answer to its own parameter.
  abbrev pub OwnAnswer : Batcher P R E → Thread P → Type 0
  OwnAnswer d (returned p id index) =
      (d.batches id).done ≡ true → thunk zero_result (d.batches id) index ≡ ok (f p, g p)
  OwnAnswer d (submitting p id index) = Unit
  OwnAnswer d (swapping p id index) = Unit
  OwnAnswer d (calling p) = Unit
  OwnAnswer d (joining p id) = Unit
  OwnAnswer d (locking p id) = Unit
  OwnAnswer d (moving p id) = Unit
  OwnAnswer d (sleeping id) = Unit
  OwnAnswer d (timed_out id) = Unit
  OwnAnswer d ended = Unit

  thunk-own :
      (b : Batch P R E) (p : P) (index : ℕ)
      → b.results ≡ map f b.params
      → b.errors ≡ some (map g b.params)
      → get_elem? b.params index ≡ some p
      → thunk zero_result b index ≡ ok (f p, g p)
  unfolding thunk
  thunk-own b p index r e h =
      rw (r, e, some-map-error g b.params index h, get_elem?-map f b.params index h)

  done-OwnAnswer :
      (d : Batcher P R E) (m : ℕ → ℕ) (ts : List (Thread P))
      → AllBatches max_batch_size (each f g) d m
      → All (Knows d) ts
      → All (OwnAnswer d) ts
  done-OwnAnswer d m [] h know = tt
  done-OwnAnswer d m (t ∷ ts) h (know, knows) = (own t know, done-OwnAnswer d m ts h knows)
    where
      own : (t : Thread P) → Knows d t → OwnAnswer d t
      own (returned p id index) k = λ done.
          let answer = (h id).answered done in
          thunk-own (d.batches id) p index (ap (λ q. q.0) answer) (ap (λ q. q.1) answer) k
      own (submitting p id index) k = tt
      own (swapping p id index) k = tt
      own (calling p) k = tt
      own (joining p id) k = tt
      own (locking p id) k = tt
      own (moving p id) k = tt
      own (sleeping id) k = tt
      own (timed_out id) k = tt
      own ended k = tt

  -- Where the batch function answers each parameter by itself, the maximum is not 0 and the
  -- comparison of parameters finds only equal ones: whatever calls come in and in whatever order
  -- the goroutines run, every caller that has returned gets, once its batch is done, the result
  -- and the error of its own parameter.
  pub thunk-OwnAnswer :
      0 < max_batch_size
      → (moves : List (Move P)) {d : Batcher P R E} {ts : List (Thread P)}
      → play eq max_batch_size publish_results (each f g) moves [] new_batcher ≡ ok (d, ts)
      → All (OwnAnswer d) ts
  thunk-OwnAnswer h moves {d} {ts} e =
      let s =
        play-Survives_all eq eq→path max_batch_size publish_results (each f g) (each-paired f g) h
          moves in
      let same : (s.after, s.threads) ≡ (d, ts) = ok_cancel (sym s.runs_on ∙ e) in
      subst (λ (w : Batcher P R E × List (Thread P)). All (OwnAnswer w.0) w.1) same
        (done-OwnAnswer s.after _ s.threads s.batches_ok s.know)
