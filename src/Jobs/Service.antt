-- ===== src/Jobs/Service.antt =====
-- The service around the queue of services/api/jobs.py: the requests, the executor thread of
-- `_loop` and the restarts of the process, as the events of one history.
use android_farm.Prelude.{ℕ, Text, Bool, true, false, List, [], ◌∷◌, Option, none, some}
use android_farm.Prelude.Dict.{Dict}
use android_farm.Json.{Json}
use android_farm.Jobs.{Job, Request, Outcome, submit, cancel, claim, complete, interrupt, recover}

-- `executing` is the row that the executor has claimed and not yet completed.
pub record Service : Type 0 where
  pub jobs : List Job
  pub executing : Option Text
  pub degraded : Bool

abbrev pub empty : Service
empty = record { jobs = []; executing = none; degraded = false }

-- `write_fails` is an error of the executor's transaction in hand, which is rolled back. A restart
-- may come at any point, also in the middle of an execution.
pub data Event : Type 0 where
  submitted : Request → Event
  cancelled : ℕ → Text → Event
  claimed : ℕ → Event
  completed : ℕ → Outcome → Event
  write_fails : Event
  repaired : ℕ → Event
  restarted : ℕ → Event

-- `run_one`, up to the execution; a degraded or busy executor claims nothing
unfoldable pub start_next : ℕ → Service → Option Text → Bool → Service
start_next now s none false =
    let r = claim now s.jobs in
    record s { jobs = r.1; executing = elim r.0 [ none ↦ none | some j ↦ some j.id ] }
start_next now s _ _ = s

-- `run_one`, from the execution on
unfoldable pub end_current : ℕ → Outcome → Service → Option Text → Service
end_current now outcome s (some id) = record s {
  jobs = complete now id outcome s.jobs;
  executing = none;
}
end_current now outcome s none = s

-- the repair at the top of `_loop`
unfoldable pub repair : ℕ → Service → Option Text → Bool → Service
repair now s none true = record s { jobs = interrupt now s.jobs; degraded = false }
repair now s _ _ = s

module _ (dumps : Dict Json → Text) (digest : Text → Text) (max_pending : ℕ) where
  unfoldable pub handle : Event → Service → Service
  unfolding start_next end_current repair
  handle (submitted r) s = record s { jobs = (submit dumps digest max_pending r s.jobs).1 }
  handle (cancelled now id) s = record s { jobs = (cancel now id s.jobs).1 }
  handle (claimed now) s = start_next now s s.executing s.degraded
  handle (completed now outcome) s = end_current now outcome s s.executing
  handle write_fails s = record s { executing = none; degraded = true }
  handle (repaired now) s = repair now s s.executing s.degraded
  handle (restarted now) s = record {
    jobs = recover now s.jobs;
    executing = none;
    degraded = false;
  }

  unfoldable pub run : List Event → Service → Service
  run [] s = s
  run (e ∷ es) s = run es (handle e s)
