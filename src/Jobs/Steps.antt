-- ===== src/Jobs/Steps.antt =====
-- How one event of the queue of services/api/jobs.py changes the rows.
use android_farm.Prelude.{
  ℕ, Text, text_eq_iff, ◌≡◌, refl, Bool, true, false, List, [], ◌∷◌, any, find, All, Option, none,
  some, arith, Bool-cases, inl, inr,
}
use android_farm.Prelude.Dict.{Dict}
use android_farm.Json.{Json}
use android_farm.Jobs.{
  Job, running, cancelled as cancelled_state, is_queued, is_running, update_where, has_id, Outcome,
  cancel, claim, complete, ended, verdict, interrupt, recover,
}
use android_farm.Jobs.Rows.{All-map, find-In}
use android_farm.Jobs.Table.{IsTable, submit_cases}
use android_farm.Jobs.Keep.{IsSound}
use android_farm.Jobs.Service.{
  Service, Event, submitted, cancelled, claimed, completed, write_fails, repaired, restarted,
  start_next, end_current, repair, handle,
}
use android_farm.Jobs.Life.{Follows, Evolves, Evolves-refl, Evolves-append, Evolves-update_where}
use android_farm.Jobs.Held.{held_row, IsHeld, any-In, named_alone}

module _ (dumps : Dict Json → Text) (digest : Text → Text) (max_pending : ℕ) where
  cancel-Evolves :
      (now : ℕ) (c : Text) (js : List Job) → IsTable max_pending js → Evolves js (cancel now c js).1
  unfolding cancel
  cancel-Evolves now c js t = go (find (has_id c) js) refl
    where
      waits :
          (k : Job)
          → is_queued k.state ≡ true
          → Follows k (record k { state = cancelled_state; payload = none; updated_at = now })
      waits k q = record {
        id = refl;
        key = refl;
        fingerprint = refl;
        action = refl;
        device = refl;
        actor = refl;
        created = refl;
        state = ground arith;
        final = λ p. absurd (ground arith);
      }

      go : (o : Option Job) → find (has_id c) js ≡ o → Evolves js (cancel now c js).1
      go none e = rw (e, cancel) (Evolves-refl js)
      go (some j) e =
          rw (e, cancel)
            (elim (Bool-cases (is_queued j.state)) [
              | inl q ↦
                  let f = find-In (has_id c) js j e in
                  let same : j.id ≡ c = (text_eq_iff j.id c).0 f.0 in
                  rw q (
                    Evolves-update_where (has_id c) _ js (
                      All-map js (λ k w x. waits k (w (rw same x)))
                        (named_alone max_pending js (λ k. is_queued k.state) j t f.1 q)))
              | inr q ↦ rw q (Evolves-refl js)
            ])

  pub claim-Evolves :
      (now : ℕ) (js : List Job) → IsTable max_pending js → Evolves js (claim now js).1
  unfolding claim
  claim-Evolves now js t = go (find (λ k. is_queued k.state) js) refl
    where
      waits :
          (k : Job)
          → is_queued k.state ≡ true
          → Follows k (record k { state = running; updated_at = now })
      waits k q = record {
        id = refl;
        key = refl;
        fingerprint = refl;
        action = refl;
        device = refl;
        actor = refl;
        created = refl;
        state = ground arith;
        final = λ p. absurd (ground arith);
      }

      go : (o : Option Job) → find (λ k. is_queued k.state) js ≡ o → Evolves js (claim now js).1
      go none e = rw (e, claim) (Evolves-refl js)
      go (some j) e =
          let f = find-In (λ k. is_queued k.state) js j e in
          rw (e, claim)
            (Evolves-update_where (has_id j.id) _ js (
              All-map js (λ k w x. waits k (w x))
                (named_alone max_pending js (λ k. is_queued k.state) j t f.1 f.0)))

  ended-Follows :
      (now : ℕ) (o : Outcome) (k : Job) → is_running k.state ≡ true → Follows k (ended now o k)
  ended-Follows now o k q = record {
    id = refl;
    key = refl;
    fingerprint = refl;
    action = refl;
    device = refl;
    actor = refl;
    created = refl;
    state = unfold verdict in ground arith;
    final = λ p. absurd (ground arith);
  }

  complete-Evolves :
      (now : ℕ) (o : Outcome) (id : Text) (js : List Job)
      → IsTable max_pending js
      → any (held_row id) js ≡ true
      → Evolves js (complete now id o js)
  unfolding complete
  complete-Evolves now o id js t h =
      let (j, i, e) = any-In (held_row id) js h in
      let same : j.id ≡ id = (text_eq_iff j.id id).0 (ground arith) in
      Evolves-update_where (has_id id) (ended now o) js (
        All-map js (λ k w x. ended-Follows now o k (w (rw same x)))
          (named_alone max_pending js (λ k. is_running k.state) j t i (ground arith)))

  pending_ends :
      (test : Job → Bool) (change : Job → Job) (js : List Job)
      → ((j : Job) → test j ≡ true → Follows j (change j))
      → Evolves js (update_where test change js)
  pending_ends test change js f = Evolves-update_where test change js (every js)
    where
      every : (js : List Job) → All (λ j. test j ≡ true → Follows j (change j)) js
      every [] = tt
      every (j ∷ js) = (f j, every js)

  recover-Evolves : (now : ℕ) (js : List Job) → Evolves js (recover now js)
  unfolding recover
  recover-Evolves now js = pending_ends _ _ js (λ j q. record {
    id = refl;
    key = refl;
    fingerprint = refl;
    action = refl;
    device = refl;
    actor = refl;
    created = refl;
    state = ground arith;
    final = λ p. absurd (ground arith);
  })

  interrupt-Evolves : (now : ℕ) (js : List Job) → Evolves js (interrupt now js)
  unfolding interrupt
  interrupt-Evolves now js = pending_ends _ _ js (λ j q. record {
    id = refl;
    key = refl;
    fingerprint = refl;
    action = refl;
    device = refl;
    actor = refl;
    created = refl;
    state = ground arith;
    final = λ p. absurd (ground arith);
  })

  pub handle-Evolves :
      (e : Event) (s : Service)
      → IsSound max_pending s
      → IsHeld s
      → Evolves s.jobs (handle dumps digest max_pending e s).jobs
  unfolding handle
  handle-Evolves (submitted r) s h k =
      elim (submit_cases dumps digest max_pending s.jobs h.table r) [
        | inl a ↦ rw a.outcome (Evolves-append s.jobs _)
        | inr n ↦ rw n.same (Evolves-refl s.jobs)
      ]
  handle-Evolves (cancelled now c) s h k = cancel-Evolves now c s.jobs h.table
  handle-Evolves (claimed now) s h k = ready s.executing s.degraded
    where
      ready : (x : Option Text) (d : Bool) → Evolves s.jobs (start_next now s x d).jobs
      ready none false = claim-Evolves now s.jobs h.table
      ready none true = Evolves-refl s.jobs
      ready (some id) d = Evolves-refl s.jobs
  handle-Evolves (completed now outcome) s h k = busy s.executing refl
    where
      busy : (x : Option Text) → s.executing ≡ x → Evolves s.jobs (end_current now outcome s x).jobs
      busy none e = Evolves-refl s.jobs
      busy (some id) e = complete-Evolves now outcome id s.jobs h.table (k id e)
  handle-Evolves write_fails s h k = Evolves-refl s.jobs
  handle-Evolves (repaired now) s h k = broken s.executing s.degraded
    where
      broken : (x : Option Text) (d : Bool) → Evolves s.jobs (repair now s x d).jobs
      broken none true = interrupt-Evolves now s.jobs
      broken none false = Evolves-refl s.jobs
      broken (some id) d = Evolves-refl s.jobs
  handle-Evolves (restarted now) s h k = recover-Evolves now s.jobs
