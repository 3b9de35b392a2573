-- ===== src/Jobs/Held.antt =====
-- The row that the executor of services/api/jobs.py holds.
use android_farm.Prelude.{
  ℕ, Text, text_eq_iff, text_eq_refl, ◌≡◌, refl, Bool, true, false, ◌&&◌, List, [], ◌∷◌, ◌++◌, any,
  find, All, In, Option, none, some, arith, Bool-cases, inl, inr,
}
use android_farm.Prelude.Dict.{Dict}
use android_farm.Json.{Json}
use android_farm.Jobs.{
  Job, is_queued, is_running, update_where, has_id, Request, submit, cancel, claim,
}
use android_farm.Jobs.Rows.{All-map, find-In, Unique-In}
use android_farm.Jobs.Table.{IsTable, submit_cases}
use android_farm.Jobs.Keep.{IsSound}
use android_farm.Jobs.Service.{
  Service, Event, submitted, cancelled, claimed, completed, write_fails, repaired, restarted,
  start_next, end_current, repair, handle,
}

-- the row of the executor
abbrev pub held_row : Text → Job → Bool
held_row id j = has_id id j && is_running j.state

-- The row that the executor holds is there, and runs.
abbrev pub IsHeld : Service → Type 0
IsHeld s = (id : Text) → s.executing ≡ some id → any (held_row id) s.jobs ≡ true

any-append : (p : Job → Bool) (js ks : List Job) → any p js ≡ true → any p (js ++ ks) ≡ true
any-append p [] ks h = cc
any-append p (j ∷ js) ks h = ground (arith, any-append p js ks)

pub any-In : (p : Job → Bool) (js : List Job) → any p js ≡ true → (j : Job) × In j js × (p j ≡ true)
any-In p [] h = absurd (ground arith)
any-In p (j ∷ js) h = elim (Bool-cases (p j)) [
  | inl e ↦ (j, inl refl, e)
  | inr e ↦ let (k, i, f) = any-In p js (ground arith) in (k, inr i, f)
]

any-update_where :
    (p test : Job → Bool) (change : Job → Job) (js : List Job)
    → All (λ j. test j ≡ true → p j ≡ false) js
    → any p js ≡ true
    → any p (update_where test change js) ≡ true
unfolding update_where
any-update_where p test change [] h a = cc
any-update_where p test change (j ∷ js) h a =
    ground (arith, h.0, any-update_where p test change js h.1)

pub any-updated :
    (p test : Job → Bool) (change : Job → Job) (js : List Job) (j : Job)
    → In j js
    → test j ≡ true
    → p (change j) ≡ true
    → any p (update_where test change js) ≡ true
unfolding update_where
any-updated p test change [] j i t c = absurd i
any-updated p test change (k ∷ js) j (inl e) t c = ground arith
any-updated p test change (k ∷ js) j (inr i) t c =
    ground (arith, any-updated p test change js j i t c)

-- the identifier of a found row names that row alone
pub named_alone :
    (max_pending : ℕ) (js : List Job) (p : Job → Bool) (j : Job)
    → IsTable max_pending js
    → In j js
    → p j ≡ true
    → All (λ k. has_id j.id k ≡ true → p k ≡ true) js
named_alone m js p j t i q =
    All-map js (λ k same e. rw (same ((text_eq_iff k.id j.id).0 e)) q)
      (Unique-In (λ k. k.id) js j t.ids i)

module _ (dumps : Dict Json → Text) (digest : Text → Text) (max_pending : ℕ) where
  submit-IsHeld :
      (r : Request) (id : Text) (js : List Job)
      → IsTable max_pending js
      → any (held_row id) js ≡ true
      → any (held_row id) (submit dumps digest max_pending r js).1 ≡ true
  submit-IsHeld r id js t h = elim (submit_cases dumps digest max_pending js t r) [
    | inl a ↦ rw a.outcome (any-append (held_row id) js _ h)
    | inr n ↦ rw n.same h
  ]

  cancel-IsHeld :
      (now : ℕ) (c id : Text) (js : List Job)
      → IsTable max_pending js
      → any (held_row id) js ≡ true
      → any (held_row id) (cancel now c js).1 ≡ true
  unfolding cancel
  cancel-IsHeld now c id js t h = go (find (has_id c) js) refl
    where
      waits : (k : Job) → is_queued k.state ≡ true → held_row id k ≡ false
      waits k q = ground arith

      go : (o : Option Job) → find (has_id c) js ≡ o → any (held_row id) (cancel now c js).1 ≡ true
      go none e = rw (e, cancel) h
      go (some j) e =
          rw (e, cancel)
            (elim (Bool-cases (is_queued j.state)) [
              | inl q ↦
                  let f = find-In (has_id c) js j e in
                  let same : j.id ≡ c = (text_eq_iff j.id c).0 f.0 in
                  rw q (
                    any-update_where (held_row id) (has_id c) _ js
                      (All-map js (λ k w x. waits k (w (rw same x)))
                        (named_alone max_pending js (λ k. is_queued k.state) j t f.1 q))
                      h)
              | inr q ↦ rw q h
            ])

  claim-IsHeld : (now : ℕ) (s : Service) → IsHeld (start_next now s none false)
  unfolding start_next claim
  claim-IsHeld now s id = go (find (λ k. is_queued k.state) s.jobs) refl
    where
      go :
          (o : Option Job)
          → find (λ k. is_queued k.state) s.jobs ≡ o
          → (start_next now s none false).executing ≡ some id
          → any (held_row id) (claim now s.jobs).1 ≡ true
      go none e x = absurd (ground (arith, e))
      go (some j) e x =
          let same : j.id ≡ id = ground (arith, e) in
          rw (e, claim)
            (any-updated (held_row id) (has_id j.id) _ s.jobs j
              (find-In (λ k. is_queued k.state) s.jobs j e).1 (text_eq_refl j.id)
              (ground (arith, text_eq_iff j.id id)))

  -- every event keeps the executor's row
  pub handle-IsHeld :
      (e : Event) (s : Service)
      → IsSound max_pending s
      → IsHeld s
      → IsHeld (handle dumps digest max_pending e s)
  unfolding handle
  handle-IsHeld (submitted r) s h k = λ id x. submit-IsHeld r id s.jobs h.table (k id x)
  handle-IsHeld (cancelled now c) s h k = λ id x. cancel-IsHeld now c id s.jobs h.table (k id x)
  handle-IsHeld (claimed now) s h k = ready s.executing s.degraded
    where
      ready : (x : Option Text) (d : Bool) → IsHeld (start_next now s x d)
      ready none false = claim-IsHeld now s
      ready none true = k
      ready (some id) d = k
  handle-IsHeld (completed now outcome) s h k = busy s.executing
    where
      busy : (x : Option Text) → IsHeld (end_current now outcome s x)
      busy none = k
      busy (some id) = λ i x. cc x
  handle-IsHeld write_fails s h k = λ id x. cc x
  handle-IsHeld (repaired now) s h k = broken s.executing refl s.degraded
    where
      broken : (x : Option Text) → s.executing ≡ x → (d : Bool) → IsHeld (repair now s x d)
      broken none e true = λ id x. cc (e, x)
      broken none e false = k
      broken (some id) e d = k
  handle-IsHeld (restarted now) s h k = λ id x. cc x
