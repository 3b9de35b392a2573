-- ===== src/Jobs/Keep.antt =====
-- The queue of services/api/jobs.py between any two events: the table, and the row that runs.
use android_farm.Prelude.{
  ℕ, Text, text_eq_iff, ◌≡◌, refl, sym, ap, ◌∙◌, Bool, true, false, List, [], ◌∷◌, find, All,
  Option, none, some, arith, Bool-cases, inl, inr, ◌⊎◌,
}
use android_farm.Prelude.Dict.{Dict}
use android_farm.Json.{Json}
use android_farm.Jobs.{
  Job, is_queued, is_running, update_where, has_id, Request, Outcome, submit, cancel, claim,
  complete, ended, verdict, interrupt, recover,
}
use android_farm.Jobs.Rows.{All-update_where, All-append, All-map}
use android_farm.Jobs.Table.{
  IsTable, recover-IsTable, interrupt-IsTable, complete-IsTable, cancel-IsTable, claim-IsTable,
  submit_cases, submit-IsTable,
}
use android_farm.Jobs.Service.{
  Service, empty, Event, submitted, cancelled, claimed, completed, write_fails, repaired, restarted,
  start_next, end_current, repair, handle, run,
}

-- the row that runs is the executor's, unless a write of the executor has failed
abbrev pub Owned : Option Text → Bool → List Job → Type 0
Owned executing degraded =
    All (λ j. is_running j.state ≡ true → (executing ≡ some j.id) ⊎ (degraded ≡ true))

pub record IsSound (max_pending : ℕ) (s : Service) : Type 0 where
  pub table : IsTable max_pending s.jobs
  pub owned : Owned s.executing s.degraded s.jobs

-- with no executor at work and no failed write, nothing runs
idle : (jobs : List Job) → Owned none false jobs → All (λ j. is_running j.state ≡ false) jobs
idle jobs h = All-map jobs (λ j o. stopped j o (is_running j.state) refl) h
  where
    stopped :
        (j : Job)
        → (is_running j.state ≡ true → (none ≡ some j.id) ⊎ (false ≡ true))
        → (b : Bool) → is_running j.state ≡ b
        → is_running j.state ≡ false
    stopped j o false e = e
    stopped j o true e = elim (o e) [ inl p ↦ cc p | inr p ↦ cc p ]

-- An update that ends rows leaves the owner of the others.
end-Owned :
    (x y : Option Text) (d e : Bool) (test : Job → Bool) (change : Job → Job) (jobs : List Job)
    → ((j : Job) → is_running (change j).state ≡ false)
    → ((j : Job) → test j ≡ false → (x ≡ some j.id) ⊎ (d ≡ true) → (y ≡ some j.id) ⊎ (e ≡ true))
    → Owned x d jobs
    → Owned y e (update_where test change jobs)
end-Owned x y d e test change jobs stops keeps h =
    All-update_where test change jobs (λ j o t r. cc (r, stops j)) (λ j o t r. keeps j t (o r)) h

All-Owned :
    (x : Option Text) (d : Bool) (jobs : List Job)
    → All (λ j. is_running j.state ≡ false) jobs
    → Owned x d jobs
All-Owned x d jobs h = All-map jobs (λ j e r. cc (e, r)) h

-- after `UPDATE … WHERE state='running'` nothing runs
interrupt_idle :
    (now : ℕ) (jobs : List Job) → All (λ j. is_running j.state ≡ false) (interrupt now jobs)
unfolding interrupt
interrupt_idle now jobs =
    All-update_where {P = λ j. Unit {0}} _ _ jobs (λ j _ e. refl) (λ j _ e. e) (trivial jobs)
  where
    trivial : (jobs : List Job) → All (λ j. Unit {0}) jobs
    trivial [] = tt
    trivial (j ∷ jobs) = (tt, trivial jobs)

recover_idle :
    (now : ℕ) (jobs : List Job) → All (λ j. is_running j.state ≡ false) (recover now jobs)
unfolding recover
recover_idle now jobs =
    All-update_where {P = λ j. Unit {0}} _ _ jobs (λ j _ e. refl) (λ j _ e. ground (arith, e))
      (trivial jobs)
  where
    trivial : (jobs : List Job) → All (λ j. Unit {0}) jobs
    trivial [] = tt
    trivial (j ∷ jobs) = (tt, trivial jobs)

module _ (dumps : Dict Json → Text) (digest : Text → Text) (max_pending : ℕ) where
  submit-Owned :
      (r : Request) (x : Option Text) (d : Bool) (jobs : List Job)
      → IsTable max_pending jobs
      → Owned x d jobs
      → Owned x d (submit dumps digest max_pending r jobs).1
  submit-Owned r x d jobs t h = elim (submit_cases dumps digest max_pending jobs t r) [
    | inl a ↦ rw a.outcome (
        All-append (λ j. is_running j.state ≡ true → (x ≡ some j.id) ⊎ (d ≡ true)) jobs _ h
          ((λ e. cc e), tt))
    | inr n ↦ rw n.same h
  ]

  cancel-Owned :
      (now : ℕ) (id : Text) (x : Option Text) (d : Bool) (jobs : List Job)
      → Owned x d jobs
      → Owned x d (cancel now id jobs).1
  unfolding cancel
  cancel-Owned now id x d jobs h = go (find (has_id id) jobs) refl
    where
      go : (o : Option Job) → find (has_id id) jobs ≡ o → Owned x d (cancel now id jobs).1
      go none e = rw (e, cancel) h
      go (some j) e =
          rw (e, cancel)
            (elim (Bool-cases (is_queued j.state)) [
              | inl q ↦ rw q (end-Owned x x d d (has_id id) _ jobs (λ j. refl) (λ j t o. o) h)
              | inr q ↦ rw q h
            ])

  claim-IsSound :
      (now : ℕ) (s : Service)
      → IsSound max_pending s
      → s.executing ≡ none
      → s.degraded ≡ false
      → IsSound max_pending (start_next now s none false)
  unfolding start_next
  claim-IsSound now s h x d = record {
    table = claim-IsTable max_pending s.jobs h.table now quiet;
    owned = go (find (λ k. is_queued k.state) s.jobs) refl;
  }
    where
      quiet : All (λ j. is_running j.state ≡ false) s.jobs
      quiet = idle s.jobs (rw (x, d) at h.owned)

      chosen :
          (j : Job)
          → find (λ k. is_queued k.state) s.jobs ≡ some j
          → (start_next now s none false).executing ≡ some j.id
      chosen j e = unfold claim in ground (arith, e)

      go :
          (o : Option Job)
          → find (λ k. is_queued k.state) s.jobs ≡ o
          → Owned (start_next now s none false).executing s.degraded (claim now s.jobs).1
      go none e = unfold claim in rw (e, claim) (All-Owned _ _ s.jobs quiet)
      go (some j) e =
          unfold claim in
          rw (e, claim)
            (All-update_where (has_id j.id) _ s.jobs
              (λ k _ t _. inl (chosen j e ∙ ap some (sym ((text_eq_iff k.id j.id).0 t))))
              (λ k q t r. cc (q, r)) quiet)

  complete-IsSound :
      (now : ℕ) (outcome : Outcome) (s : Service) (id : Text)
      → IsSound max_pending s
      → s.executing ≡ some id
      → IsSound max_pending (end_current now outcome s (some id))
  unfolding end_current
  complete-IsSound now outcome s id h x = record {
    table = complete-IsTable max_pending s.jobs h.table now id outcome;
    owned =
        unfold complete in
        end-Owned (some id) none s.degraded s.degraded (has_id id) (ended now outcome) s.jobs
          (λ j. stops outcome) (λ j. other j) (rw x at h.owned);
  }
    where
      stops : (o : Outcome) → is_running (verdict o).0 ≡ false
      stops o = unfold verdict in ground arith

      other :
          (j : Job)
          → has_id id j ≡ false
          → (some id ≡ some j.id) ⊎ (s.degraded ≡ true)
          → (none ≡ some j.id) ⊎ (s.degraded ≡ true)
      other j t (inr d) = inr d
      other j t (inl e) = absurd (ground (arith, text_eq_iff j.id id))

  -- Every event keeps the service sound.
  pub handle-IsSound :
      (e : Event) (s : Service)
      → IsSound max_pending s
      → IsSound max_pending (handle dumps digest max_pending e s)
  unfolding handle
  handle-IsSound (submitted r) s h = record {
    table = submit-IsTable dumps digest max_pending s.jobs h.table r;
    owned = submit-Owned r s.executing s.degraded s.jobs h.table h.owned;
  }
  handle-IsSound (cancelled now id) s h = record {
    table = cancel-IsTable max_pending s.jobs h.table now id;
    owned = cancel-Owned now id s.executing s.degraded s.jobs h.owned;
  }
  handle-IsSound (claimed now) s h = ready s.executing refl s.degraded refl
    where
      ready :
          (x : Option Text)
          → s.executing ≡ x
          → (d : Bool) → s.degraded ≡ d
          → IsSound max_pending (start_next now s x d)
      ready none a false b = claim-IsSound now s h a b
      ready none a true b = h
      ready (some id) a d b = h
  handle-IsSound (completed now outcome) s h = busy s.executing refl
    where
      busy : (x : Option Text) → s.executing ≡ x → IsSound max_pending (end_current now outcome s x)
      busy none a = h
      busy (some id) a = complete-IsSound now outcome s id h a
  handle-IsSound write_fails s h = record {
    table = h.table;
    owned = All-map s.jobs (λ j _ _. inr refl) h.owned;
  }
  handle-IsSound (repaired now) s h = broken s.executing s.degraded
    where
      broken : (x : Option Text) (d : Bool) → IsSound max_pending (repair now s x d)
      broken none true = record {
        table = interrupt-IsTable max_pending s.jobs h.table now;
        owned = All-Owned s.executing false (interrupt now s.jobs) (interrupt_idle now s.jobs);
      }
      broken none false = h
      broken (some id) d = h
  handle-IsSound (restarted now) s h = record {
    table = recover-IsTable max_pending s.jobs h.table now;
    owned = All-Owned none false (recover now s.jobs) (recover_idle now s.jobs);
  }

  pub run-IsSound :
      (es : List Event) (s : Service)
      → IsSound max_pending s
      → IsSound max_pending (run dumps digest max_pending es s)
  unfolding run
  run-IsSound [] s h = h
  run-IsSound (e ∷ es) s h =
      run-IsSound es (handle dumps digest max_pending e s) (handle-IsSound e s h)

  pub empty-IsSound : IsSound max_pending empty
  empty-IsSound = record {
    table = record {
      ids = tt;
      keys = tt;
      bounded = omega arith;
      payloads = tt;
      single = omega arith;
    };
    owned = tt;
  }

  -- After any history of requests, executions, failed writes, repairs and restarts: identifiers
  -- and idempotency keys are unique, no more rows are pending than the limit allows, a row keeps
  -- its payload exactly while it is pending, at most one row runs, and a row that runs is the one
  -- that the executor holds, unless a write has failed.
  pub history-IsSound :
      (es : List Event) → IsSound max_pending (run dumps digest max_pending es empty)
  history-IsSound es = run-IsSound es empty empty-IsSound
