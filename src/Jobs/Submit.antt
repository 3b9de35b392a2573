-- ===== src/Jobs/Submit.antt =====
-- Idempotency keys of services/api/jobs.py, over whole histories.
use android_farm.Prelude.{
  ℕ, Text, text_eq, text_eq_iff, text_eq_refl, ◌≡◌, ◌≢◌, refl, sym, ap, ◌∙◌, Bool, true, false, not,
  ◌||◌, List, [], ◌∷◌, ◌++◌, find, In, some, arith, if◌then◌else◌, inl, inr, Result, ok, err,
  queue_conflict,
}
use android_farm.Prelude.Dict.{Dict}
use android_farm.Json.{Json}
use android_farm.Jobs.{Job, Request, has_key, is_uuid, submit, replay, fingerprint_of}
use android_farm.Jobs.Rows.{All-in, Unique}
use android_farm.Jobs.Table.{IsTable, submit_cases, request_job}
use android_farm.Jobs.Keep.{IsSound, run-IsSound, empty-IsSound}
use android_farm.Jobs.Life.{Follows, Evolves}
use android_farm.Jobs.Run.{history-Evolves}
use android_farm.Jobs.Service.{Service, Event, submitted, handle, run, empty}

Evolves-In :
    (js ks : List Job) (j : Job) → Evolves js ks → In j js → (k : Job) × In k ks × Follows j k
Evolves-In [] ks j e i = absurd i
Evolves-In (x ∷ js) [] j e i = absurd e
Evolves-In (x ∷ js) (y ∷ ks) j e (inl p) = (y, inl refl, rw p e.0)
Evolves-In (x ∷ js) (y ∷ ks) j e (inr i) = let (k, h, f) = Evolves-In js ks j e.1 i in (k, inr h, f)

find-key :
    (js : List Job) (k : Job) → Unique (λ j. j.key) js → In k js → find (has_key k.key) js ≡ some k
find-key [] k u i = absurd i
find-key (j ∷ js) k u (inl e) = rw (← e) (rw (text_eq_refl k.key) refl)
find-key (j ∷ js) k u (inr i) =
    let n = All-in (λ x. x.key ≢ j.key) js k u.0 i in
    ground (arith, find-key js k u.1 i, text_eq_iff j.key k.key, n)

In-last : (js : List Job) (j : Job) → In j (js ++ j ∷ [])
In-last [] j = inl refl
In-last (x ∷ js) j = inr (In-last js j)

module _ (dumps : Dict Json → Text) (digest : Text → Text) (max_pending : ℕ) where
  run-last :
      (es : List Event) (e : Event) (s : Service)
      → run dumps digest max_pending (es ++ e ∷ []) s
        ≡ handle dumps digest max_pending e (run dumps digest max_pending es s)
  unfolding run
  run-last [] e s = refl
  run-last (x ∷ es) e s = run-last es e (handle dumps digest max_pending x s)

  -- what a second request with a used key gets
  abbrev pub answer : Request → Job → Result (Job × Bool)
  answer r k =
      if not (text_eq k.fingerprint (fingerprint_of dumps digest max_pending r))
        || not (text_eq k.actor r.actor)
      then err (queue_conflict "the key was used for another operation")
      else ok (k, false)

  -- Once a request has been queued, a request with its key never adds a row again, whatever
  -- happens in between: it is answered with the later version of the first one's row if the payload
  -- has the same digest and the actor is the same, and refused otherwise.
  pub submit_idempotent :
      (es later : List Event) (r r' : Request) (j : Job) (jobs' : List Job)
      → submit dumps digest max_pending r (run dumps digest max_pending es empty).jobs
        ≡ (ok (j, true), jobs')
      → r'.key ≡ r.key
      → let s =
          run dumps digest max_pending later
            (run dumps digest max_pending (es ++ submitted r ∷ []) empty) in
        (k : Job) × Follows j k
        × (submit dumps digest max_pending r' s.jobs ≡ (answer r' k, s.jobs))
  submit_idempotent es later r r' j jobs' h same =
      elim (submit_cases dumps digest max_pending s₀.jobs t₀ r) [
        | inr n ↦ absurd (n.not_new j jobs' h)
        | inl a ↦
            let e : (j ≡ request_job dumps digest max_pending s₀.jobs t₀ r a.action)
                × (jobs'
                    ≡ s₀.jobs ++ request_job dumps digest max_pending s₀.jobs t₀ r a.action ∷ []) =
              ground (arith, a.outcome) in
            let i : In j s₁.jobs = rw after_first (rw h (rw (e.1, ← e.0) (In-last s₀.jobs j))) in
            let (k, here, f) =
              Evolves-In s₁.jobs s₂.jobs j
                (history-Evolves dumps digest max_pending (es ++ submitted r ∷ []) later) i in
            let key : k.key ≡ r'.key = f.key ∙ ap (λ (x : Job). x.key) e.0 ∙ sym same in
            let found : find (has_key r'.key) s₂.jobs ≡ some k = rw (← key) (
              find-key s₂.jobs k (run-IsSound dumps digest max_pending later s₁ sound₁).table.keys
                here) in
            (k, f, second k found (rw same a.valid))
      ]
    where
      s₀ : Service
      s₀ = run dumps digest max_pending es empty

      s₁ : Service
      s₁ = run dumps digest max_pending (es ++ submitted r ∷ []) empty

      s₂ : Service
      s₂ = run dumps digest max_pending later s₁

      t₀ : IsTable max_pending s₀.jobs
      t₀ =
          (run-IsSound dumps digest max_pending es empty
            (empty-IsSound dumps digest max_pending)).table

      sound₁ : IsSound max_pending s₁
      sound₁ =
          run-IsSound dumps digest max_pending (es ++ submitted r ∷ []) empty
            (empty-IsSound dumps digest max_pending)

      after_first : s₁.jobs ≡ (submit dumps digest max_pending r s₀.jobs).1
      after_first = rw (run-last es (submitted r) empty) (unfold handle in refl)

      second :
          (k : Job)
          → find (has_key r'.key) s₂.jobs ≡ some k
          → is_uuid r'.key ≡ true
          → submit dumps digest max_pending r' s₂.jobs ≡ (answer r' k, s₂.jobs)
      second k found valid = unfold submit in rw (valid, found) (split _ refl)
        where
          split :
              (c : Bool)
              → (not (text_eq k.fingerprint (fingerprint_of dumps digest max_pending r'))
                  || not (text_eq k.actor r'.actor))
                ≡ c
              → replay dumps digest max_pending r' k s₂.jobs ≡ (answer r' k, s₂.jobs)
          split true c = unfold replay in rw c refl
          split false c = unfold replay in rw c refl
