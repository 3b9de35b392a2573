-- ===== src/Tests/Jobs.antt =====
-- The theorems on the job queue (services/api/jobs.py) at concrete histories.
use mathlib.Core.List.{Perm}
use android_farm.Prelude.{
  ◌≤◌, ◌≡◌, refl, Text, codes, text_eq, true, List, [], ◌∷◌, ◌++◌, ok, map, All, length, min,
}
use android_farm.Prelude.Dict.{Dict, lookup}
use android_farm.Json.{Json, str, or_null}
use android_farm.Jobs.{
  Job, Request, submit, enqueue, public, list_jobs, list_limit, new_job, is_uuid,
}
use android_farm.Jobs.Service.{
  Event, submitted, claimed, write_fails, repaired, restarted, run, empty,
}
use android_farm.Jobs.Keep.{IsSound, history-IsSound}
use android_farm.Jobs.Life.{Follows, Evolves}
use android_farm.Jobs.Run.{starts_once, history-Evolves, total_starts}
use android_farm.Jobs.Submit.{submit_idempotent, answer}
use android_farm.Jobs.Listing.{list_jobs-newest, IsNewestFirst}

-- serialisation and digest for the examples
abbrev dumps : Dict Json → Text
dumps d = codes "{}"

abbrev digest : Text → Text
digest s = s

abbrev loads : Text → Json
loads s = str s

abbrev key : Text
key = codes "6f1d2c3b-0000-4000-8000-0123456789ab"

abbrev request : Request
request = record {
  now = 5;
  job_id = codes "j1";
  key = key;
  payload = (codes "action", str (codes "up")) ∷ [];
  actor = codes "operator";
}

abbrev story : List Event
story =
    submitted request
    ∷ claimed 6
    ∷ write_fails
    ∷ claimed 7
    ∷ repaired 8
    ∷ claimed 9
    ∷ restarted 10
    ∷ []

history-IsSound_example : IsSound 50 (run dumps digest 50 story empty)
history-IsSound_example = history-IsSound dumps digest 50 story

starts_once_example : total_starts dumps digest 50 (codes "j1") story empty ≤ 1
starts_once_example = starts_once dumps digest 50 story (codes "j1")

history-Evolves_example :
    Evolves
      (run dumps digest 50 story empty).jobs
      (run dumps digest 50 (claimed 11 ∷ []) (run dumps digest 50 story empty)).jobs
history-Evolves_example = history-Evolves dumps digest 50 story (claimed 11 ∷ [])

abbrev job : Job
job =
    new_job (codes "j1") key (codes "{}") (str (codes "up")) Json.null (codes "operator") 5
      (codes "{}")

queued_first :
    submit dumps digest 50 request (run dumps digest 50 [] empty).jobs ≡ (ok (job, true), job ∷ [])
unfolding submit enqueue run lookup text_eq or_null is_uuid
queued_first = refl

submit_idempotent_example :
    let s = run dumps digest 50 story (run dumps digest 50 (submitted request ∷ []) empty) in
    (k : Job) × Follows job k
    × (submit dumps digest 50 request s.jobs ≡ (answer dumps digest 50 request k, s.jobs))
submit_idempotent_example =
    submit_idempotent dumps digest 50 [] story request request job (job ∷ []) queued_first refl

list_jobs-newest_example :
    (shown : List Job) × (rest : List Job) × (list_jobs loads (job ∷ []) ≡ map (public loads) shown)
    × Perm (shown ++ rest) (job ∷ [])
    × (length shown ≡ min list_limit (length (shown ++ rest)))
    × IsNewestFirst shown
    × All (λ (k : Job). All (λ (j : Job). k.created_at ≤ j.created_at) shown) rest
list_jobs-newest_example = list_jobs-newest loads (job ∷ [])
