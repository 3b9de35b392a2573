-- ===== src/Server/Handler.antt =====
-- `Application.__call__` and `upload` of services/api/server.py: what they answer, and what becomes
-- of the table of jobs.
use android_farm.Prelude.{
  mem, ℕ, ◌*◌, ◌^◌, Text, codes, text_eq, Bool, false, not, ◌&&◌, ◌||◌, List, length, Option, none,
  some, ltb, leb, ◌==◌, if◌then◌else◌, String, Result, ok, err,
}
use android_farm.Prelude.Dict.{Dict, lookup}
use android_farm.Json.{Json, obj, fields}
use android_farm.Jobs
use android_farm.Jobs.{submit, cancel}
use android_farm.Operations.Request.{Host, Job}
use android_farm.Operations.Validate.{validate_job}
use android_farm.Server.{
  Answer, refuse, of_error, is_length, number_from, job_route, is_some, queued, asks_secret,
  as_fields, password_of, upload_payload, upload_types, Site, Call, sent, failed,
}

module _ (h : Host) (site : Site) (dumps : Dict Json → Text) (digest : Text → Text)
    (max_pending : ℕ) where
  unfoldable pub of_submit : Result (Jobs.Job × Bool) × List Jobs.Job → Answer
  of_submit (err e, jobs) = (of_error e, jobs)
  of_submit (ok (j, created), jobs) = (sent (if created then 202 else 200), jobs)

  unfoldable pub of_cancel : Result Jobs.Job × List Jobs.Job → Answer
  of_cancel (err e, jobs) = (of_error e, jobs)
  of_cancel (ok j, jobs) = (sent 200, jobs)

  -- the end of both ways into the queue
  unfoldable pub put : Call → Text → Result Job → List Jobs.Job → Answer
  unfolding of_submit
  put q user (err e) jobs = (of_error e, jobs)
  put q user (ok j) jobs = of_submit (
      submit dumps digest max_pending
        (record {
          now = q.now;
          job_id = q.job_id;
          key = q.key;
          payload = queued j q.revision;
          actor = user;
        })
        jobs)

  -- the second check of the password, for the actions that need it
  unfoldable pub is_same_user : Text → Option Text → Bool
  is_same_user user none = false
  is_same_user user (some u) = text_eq u user

  unfoldable pub reauthenticate : Call → Text → Option Text → List Jobs.Job → Answer → Answer
  reauthenticate q user none jobs rest = (failed 403 "reauthentication_required", jobs)
  reauthenticate q user (some password) jobs rest =
      refuse
        (not (is_same_user user (site.verify user password))
          || not (text_eq q.revision q.later_revision))
        403 "reauthentication_failed" jobs rest

  unfoldable pub post_job : Call → Text → Dict Json → List Jobs.Job → Answer
  unfolding put reauthenticate
  post_job q user value jobs =
      let accepted = put q user (validate_job h false (obj (fields value))) jobs in
      if asks_secret value
      then reauthenticate q user (password_of (as_fields (lookup (codes "params") value))) jobs
          accepted
      else accepted

  unfoldable pub post_route : Call → Text → Dict Json → Option Text → List Jobs.Job → Answer
  unfolding post_job of_cancel
  post_route q user value none jobs = post_job q user value jobs
  post_route q user value (some id) jobs =
      refuse (not (leb (length value) 0)) 400 "invalid_request" jobs
        (of_cancel (cancel q.now id jobs))

  unfoldable pub post_value : Call → Text → Option (Dict Json) → List Jobs.Job → Answer
  unfolding post_route
  post_value q user none jobs = (failed 400 "invalid_request", jobs)
  post_value q user (some value) jobs = post_route q user value (job_route q.path) jobs

  -- the body of a request that is no upload
  unfoldable pub post_body : Call → Text → List Jobs.Job → Answer
  unfolding post_value
  post_body q user jobs =
      refuse (not (text_eq q.content_type (codes "application/json"))) 415 "json_required" jobs (
        refuse (not (is_length 8 q.content_length)) 400 "invalid_length" jobs (
          refuse (ltb 32768 (number_from 0 q.content_length)) 413 "body_too_large" jobs (
            refuse (not (q.received == number_from 0 q.content_length)) 400 "incomplete_body" jobs (
              refuse (not (is_some q.body)) 400 "invalid_json" jobs
                (post_value q user (as_fields q.body) jobs)))))

  -- `upload`
  unfoldable pub put_upload : Call → Text → Result Text → List Jobs.Job → Answer
  unfolding put
  put_upload q user (err e) jobs = (of_error e, jobs)
  put_upload q user (ok token) jobs =
      put q user (validate_job h false (upload_payload q token)) jobs

  unfoldable pub post_upload : Call → Text → List Jobs.Job → Answer
  unfolding put_upload
  post_upload q user jobs = refuse (not (mem q.content_type upload_types)) 415 "apk_required" jobs (
      refuse (not (is_length 10 q.content_length)) 400 "invalid_length" jobs (
        refuse (ltb (256 * 1024 ^ 2) (number_from 0 q.content_length)) 413 "body_too_large" jobs
          (put_upload q user q.staged jobs)))

  abbrev pub is_upload : Call → Bool
  is_upload q = text_eq q.path (codes "/api/v1/artifacts/upload")

  unfoldable pub is_post : Call → Bool
  is_post q =
      text_eq q.method (codes "POST")
      && (text_eq q.path (codes "/api/v1/jobs") || is_upload q || is_some (job_route q.path))

  unfoldable pub is_allowed : Option Text → Bool
  is_allowed none = false
  is_allowed (some origin) = mem origin site.origins

  unfoldable pub is_forged : Call → Bool
  is_forged q =
      not (is_allowed q.origin)
      || text_eq q.fetch_site (codes "cross-site")
      || not (text_eq q.csrf site.csrf)

  unfoldable pub is_get : Call → String → Bool
  is_get q path = text_eq q.method (codes "GET") && text_eq q.path (codes path)

  unfoldable pub post : Call → Text → List Jobs.Job → Answer
  unfolding post_body post_upload
  post q user jobs = refuse (not (is_post q)) 404 "not_found" jobs (
      refuse (not site.healthy) 503 "queue_unavailable" jobs (
        refuse (is_forged q) 403 "csrf_rejected" jobs
          (if is_upload q then post_upload q user jobs else post_body q user jobs)))

  unfoldable pub route : Call → Text → List Jobs.Job → Answer
  unfolding post
  route q user jobs = refuse (not (leb (length q.query) 0)) 400 "invalid_query" jobs (
      if is_get q "/api/v1/health"
      then (sent (if site.healthy then 200 else 503), jobs)
      else if is_get q "/api/v1/snapshot"
      then (sent 200, jobs)
      else post q user jobs)

  unfoldable pub respond_to : Option Text → Call → List Jobs.Job → Answer
  unfolding route
  respond_to none q jobs = (failed 401 "authentication_required", jobs)
  respond_to (some user) q jobs = route q user jobs

  -- `__call__`, for a header and a snapshot that can be read; what the snapshot shows is left out
  unfoldable pub respond : Call → List Jobs.Job → Answer
  unfolding respond_to
  respond q jobs = respond_to q.user q jobs
