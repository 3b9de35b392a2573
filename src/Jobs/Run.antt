-- ===== src/Jobs/Run.antt =====
-- Whole histories of the queue of services/api/jobs.py: how often a row is started, and how it
-- changes.
use android_farm.Prelude.{
  ℕ, ◌+◌, ◌≤◌, Text, text_eq_iff, text_eq_refl, ◌≡◌, refl, Bool, true, false, not, ◌&&◌, List, [],
  ◌∷◌, any, find, All, Option, none, some, arith, if◌then◌else◌, Bool-cases, inl, inr,
}
use android_farm.Prelude.Dict.{Dict}
use android_farm.Json.{Json}
use android_farm.Jobs.{Job, is_queued, has_id, claim}
use android_farm.Jobs.Rows.{All-map, find-In}
use android_farm.Jobs.Table.{IsTable}
use android_farm.Jobs.Keep.{IsSound, handle-IsSound}
use android_farm.Jobs.Service.{
  Service, Event, submitted, cancelled, claimed, completed, write_fails, repaired, restarted,
  start_next, handle, run, empty,
}
use android_farm.Jobs.Life.{Follows, Evolves, Evolves-refl, Evolves-trans}
use android_farm.Jobs.Held.{IsHeld, named_alone, any-updated, handle-IsHeld}
use android_farm.Jobs.Steps.{handle-Evolves, claim-Evolves}
use android_farm.Jobs.Keep.{empty-IsSound, run-IsSound}

-- how often an event starts the row with an identifier
abbrev claim_counts : Text → Option Job → Option Text → Bool → ℕ
claim_counts id (some j) none false = if has_id id j then 1 else 0
claim_counts id _ _ _ = 0

abbrev starts : Text → Event → Service → ℕ
starts id (claimed now) s = claim_counts id (claim now s.jobs).0 s.executing s.degraded
starts id _ s = 0

-- A row that has left the state `queued` cannot be started any more.
abbrev was_started : Text → Job → Bool
was_started id j = has_id id j && not (is_queued j.state)

abbrev credit : Text → List Job → ℕ
credit id js = if any (was_started id) js then 0 else 1

was_started-Follows :
    (id : Text) (j k : Job) → Follows j k → was_started id j ≡ true → was_started id k ≡ true
was_started-Follows id j k f h =
    ground (arith, f.id, f.state, text_eq_iff j.id id, text_eq_iff k.id id)

any-Evolves :
    (id : Text) (js ks : List Job)
    → Evolves js ks
    → any (was_started id) js ≡ true
    → any (was_started id) ks ≡ true
any-Evolves id [] ks e h = cc
any-Evolves id (j ∷ js) [] e h = absurd e
any-Evolves id (j ∷ js) (k ∷ ks) e h =
    ground (arith, was_started-Follows id j k e.0, any-Evolves id js ks e.1)

credit-Evolves : (id : Text) (js ks : List Job) → Evolves js ks → credit id ks ≤ credit id js
credit-Evolves id js ks e = ground (arith, any-Evolves id js ks e)

any-All :
    (p q : Job → Bool) (js : List Job)
    → All (λ j. q j ≡ true → p j ≡ false) js
    → any (λ j. q j && p j) js ≡ false
any-All p q [] h = refl
any-All p q (j ∷ js) h = ground (arith, h.0, any-All p q js h.1)

module _ (dumps : Dict Json → Text) (digest : Text → Text) (max_pending : ℕ) where
  abbrev after : Event → Service → Service
  after = handle dumps digest max_pending

  claim-credit :
      (id : Text) (now : ℕ) (js : List Job)
      → IsTable max_pending js
      → Evolves js (claim now js).1
      → claim_counts id (claim now js).0 none false + credit id (claim now js).1 ≤ credit id js
  claim-credit id now js t v = go (find (λ k. is_queued k.state) js) refl
    where
      go :
          (o : Option Job)
          → find (λ k. is_queued k.state) js ≡ o
          → claim_counts id (claim now js).0 none false + credit id (claim now js).1 ≤ credit id js
      go none e =
          let c = credit-Evolves id js (claim now js).1 v in unfold claim in ground (arith, e, c)
      go (some j) e = elim (Bool-cases (has_id id j)) [
        | inl here ↦
            let f = find-In (λ k. is_queued k.state) js j e in
            let same : j.id ≡ id = (text_eq_iff j.id id).0 here in
            let before : any (was_started id) js ≡ false =
              any-All (λ k. not (is_queued k.state)) (has_id id) js
                (All-map js (λ k w x. ground (arith, w (rw same x)))
                  (named_alone max_pending js (λ k. is_queued k.state) j t f.1 f.0)) in
            let later : any (was_started id) (claim now js).1 ≡ true =
              unfold claim in
              rw (e, claim)
                (any-updated (was_started id) (has_id j.id) _ js j f.1 (text_eq_refl j.id)
                  (ground (arith, here))) in
            unfold claim in ground (arith, e, before, later, here)
        | inr there ↦
            let c = credit-Evolves id js (claim now js).1 v in
            unfold claim in ground (arith, e, c, there)
      ]

  keep :
      (id : Text) (e : Event) (s : Service)
      → IsSound max_pending s
      → IsHeld s
      → credit id (after e s).jobs ≤ credit id s.jobs
  keep id e s h k =
      credit-Evolves id s.jobs (after e s).jobs (handle-Evolves dumps digest max_pending e s h k)

  step-credit :
      (id : Text) (e : Event) (s : Service)
      → IsSound max_pending s
      → IsHeld s
      → starts id e s + credit id (after e s).jobs ≤ credit id s.jobs
  unfolding handle start_next
  step-credit id (claimed now) s h k = ready s.executing s.degraded
    where
      still : credit id s.jobs ≤ credit id s.jobs
      still = omega arith

      ready :
          (x : Option Text) (d : Bool)
          → claim_counts id (claim now s.jobs).0 x d + credit id (start_next now s x d).jobs
            ≤ credit id s.jobs
      ready none false =
          claim-credit id now s.jobs h.table
            (claim-Evolves dumps digest max_pending now s.jobs h.table)
      ready none true = moot (claim now s.jobs).0
        where
          moot :
              (o : Option Job) → claim_counts id o none true + credit id s.jobs ≤ credit id s.jobs
          moot none = omega arith
          moot (some j) = omega arith
      ready (some x) d = moot (claim now s.jobs).0
        where
          moot :
              (o : Option Job) → claim_counts id o (some x) d + credit id s.jobs ≤ credit id s.jobs
          moot none = omega arith
          moot (some j) = omega arith
  step-credit id (submitted r) s h k = omega (arith, keep id (submitted r) s h k)
  step-credit id (cancelled now c) s h k = omega (arith, keep id (cancelled now c) s h k)
  step-credit id (completed now o) s h k = omega (arith, keep id (completed now o) s h k)
  step-credit id write_fails s h k = omega arith
  step-credit id (repaired now) s h k = omega (arith, keep id (repaired now) s h k)
  step-credit id (restarted now) s h k = omega (arith, keep id (restarted now) s h k)

  -- how often a history starts the row with an identifier
  pub total_starts : Text → List Event → Service → ℕ
  total_starts id [] s = 0
  total_starts id (e ∷ es) s = starts id e s + total_starts id es (after e s)

  starts-le-credit :
      (id : Text) (es : List Event) (s : Service)
      → IsSound max_pending s
      → IsHeld s
      → total_starts id es s ≤ credit id s.jobs
  unfolding total_starts
  starts-le-credit id [] s h k = omega arith
  starts-le-credit id (e ∷ es) s h k = omega (
    arith,
    step-credit id e s h k,
    starts-le-credit id es (after e s) (handle-IsSound dumps digest max_pending e s h)
        (handle-IsHeld dumps digest max_pending e s h k),
  )

  empty-IsHeld : IsHeld empty
  empty-IsHeld id x = cc x

  -- In every history, through cancellations, failed writes, repairs and restarts, a row is handed
  -- to the executor at most once: no operation is replayed.
  pub starts_once : (es : List Event) (id : Text) → total_starts id es empty ≤ 1
  starts_once es id =
      starts-le-credit id es empty (empty-IsSound dumps digest max_pending) empty-IsHeld

  run-Evolves :
      (es : List Event) (s : Service)
      → IsSound max_pending s
      → IsHeld s
      → Evolves s.jobs (run dumps digest max_pending es s).jobs
  unfolding run
  run-Evolves [] s h k = Evolves-refl s.jobs
  run-Evolves (e ∷ es) s h k =
      Evolves-trans s.jobs (after e s).jobs (run dumps digest max_pending es (after e s)).jobs
        (handle-Evolves dumps digest max_pending e s h k)
        (run-Evolves es (after e s) (handle-IsSound dumps digest max_pending e s h)
          (handle-IsHeld dumps digest max_pending e s h k))

  run-IsHeld :
      (es : List Event) (s : Service)
      → IsSound max_pending s
      → IsHeld s
      → IsHeld (run dumps digest max_pending es s)
  unfolding run
  run-IsHeld [] s h k = k
  run-IsHeld (e ∷ es) s h k =
      run-IsHeld es (after e s) (handle-IsSound dumps digest max_pending e s h)
        (handle-IsHeld dumps digest max_pending e s h k)

  -- Between two points of a history every row stays at its place with its identifier, key,
  -- fingerprint, action, device, actor and time of creation; its state moves only along
  -- `can_become`, so a running row is never queued or cancelled; and a row that has ended is not
  -- changed at all.
  pub history-Evolves :
      (es later : List Event)
      → let s = run dumps digest max_pending es empty in
        Evolves s.jobs (run dumps digest max_pending later s).jobs
  history-Evolves es later =
      run-Evolves later (run dumps digest max_pending es empty)
        (run-IsSound dumps digest max_pending es empty (empty-IsSound dumps digest max_pending))
        (run-IsHeld es empty (empty-IsSound dumps digest max_pending) empty-IsHeld)
