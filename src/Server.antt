-- ===== src/Server.antt =====
-- `Application.__call__` and `upload` of services/api/server.py: a request is answered, and may change
-- the table of jobs. What a library reads out of the request is part of the `Call`.
pub mod Handler
pub mod Guards
pub mod Stable
pub mod Again
use android_farm.Prelude.{
  mem, ℕ, ◌+◌, ◌*◌, ◌^◌, ◌-◌, Text, codes, text_eq, Bool, true, false, not, ◌&&◌, ◌||◌, List, [],
  ◌∷◌, ◌++◌, map, all, length, Option, none, some, ltb, leb, ◌==◌, if◌then◌else◌, String, Exception,
  value_error, runtime_error, key_error, type_error, os_error, queue_conflict, integrity_error,
  Result, ok, err,
}
use android_farm.Prelude.Dict
use android_farm.Prelude.Dict.{Dict, lookup}
use android_farm.Json.{Json, null, bool, str, arr, obj, Items, nil, cons, entries, fields, eq_str}
use android_farm.Jobs
use android_farm.Jobs.{submit, cancel}
use android_farm.Operations.Request.{
  Action, life, proxy, provision, resume, proxy_add, credential_rotate, proxy_credentials,
  core_activate, artifact_import, artifact_remove, remove, action_name, Host, Job, param,
}
use android_farm.Operations.Validate.{validate_job, device_field}

-- what the application knows when the request comes: the origins, its token, whether the executor
-- lives, and whom a name and a password authenticate
pub record Site : Type 0 where
  pub origins : List Text
  pub csrf : Text
  pub healthy : Bool
  pub verify : Text → Text → Option Text

-- the request: whom its header authenticates, its route and headers, what its body is, the decoded
-- headers of an upload with the result of staging its body, and the readings of the clock, of the
-- new identifier and of the state of the password file, before and after the second check
pub record Call : Type 0 where
  pub user : Option Text
  pub method : Text
  pub path : Text
  pub query : Text
  pub origin : Option Text
  pub fetch_site : Text
  pub csrf : Text
  pub content_type : Text
  pub content_length : Text
  pub received : ℕ
  pub body : Option Json
  pub key : Text
  pub label : Option Text
  pub filename : Option Text
  pub identifier : Text
  pub permissions : List Text
  pub allow_signer_change : Bool
  pub staged : Result Text
  pub revision : Text
  pub later_revision : Text
  pub now : ℕ
  pub job_id : Text

-- an answer with its status, or an error with its code
pub data Response : Type 0 where
  sent : ℕ → Response
  failed : ℕ → String → Response

abbrev pub Answer : Type 0
Answer = Response × List Jobs.Job

-- an early return
unfoldable pub refuse : Bool → ℕ → String → List Jobs.Job → Answer → Answer
refuse true status code jobs rest = (failed status code, jobs)
refuse false status code jobs rest = rest

-- the handlers of exceptions
unfoldable pub of_error : Exception → Response
of_error (queue_conflict s) = failed 409 "conflict"
of_error (key_error s) = failed 404 "not_found"
of_error (value_error s) = failed 400 "invalid_request"
of_error _ = failed 503 "host_unavailable"

abbrev is_digit : ℕ → Bool
is_digit c = leb b'0' c && leb c b'9'

-- `[0-9]{1,maximum}`
unfoldable pub is_length : ℕ → Text → Bool
is_length maximum s = leb 1 (length s) && leb (length s) maximum && all is_digit s

-- `int` of such a text
unfoldable pub number_from : ℕ → Text → ℕ
number_from n [] = n
number_from n (c ∷ s) = number_from (n * 10 + (c - b'0')) s

-- the rest of a path after a prefix
unfoldable pub after : Text → Text → Option Text
after [] s = some s
after (c ∷ p) [] = none
after (c ∷ p) (d ∷ s) = if c == d then after p s else none

-- `([0-9a-f-]{36})/cancel\Z`, with the characters read so far
unfoldable pub cancelled_id : Text → Text → Option Text
cancelled_id read [] = none
cancelled_id read (c ∷ s) =
    let more = cancelled_id (read ++ c ∷ []) s in
    if c == b'/'
    then (if length read == 36 && text_eq s (codes "cancel") then some read else none)
    else if is_digit c || leb b'a' c && leb c b'f' || c == b'-'
    then more
    else none

-- JOB_ROUTE
unfoldable pub job_route : Text → Option Text
job_route path = elim (after (codes "/api/v1/jobs/") path) [
  | none ↦ none
  | some s ↦ cancelled_id [] s
]

unfoldable pub is_some {ℓ} : {A : Type ℓ} → Option A → Bool
is_some none = false
is_some (some a) = true

unfoldable pub is_secret : Action → Bool
is_secret credential_rotate = true
is_secret proxy_credentials = true
is_secret _ = false

abbrev pub current_password : Text
current_password = codes "current_password"

-- the job as it is put into the queue: without the current password, and with the state of the
-- password file
unfoldable pub kept_params : Action → Dict Json → Dict Json
kept_params a params = if is_secret a then Dict.remove current_password params else params

unfoldable pub revision_field : Action → Text → Dict Json
revision_field a revision = if is_secret a then (codes "auth_revision", str revision) ∷ [] else []

unfoldable pub queued : Job → Text → Dict Json
queued j revision =
    (codes "action", str (action_name j.action))
    ∷ (codes "params", obj (fields (kept_params j.action j.params)))
    ∷ (device_field j.device ++ revision_field j.action revision)

-- `value.get('action') in ('credential-rotate', 'proxy-credentials')`
unfoldable pub asks_secret : Dict Json → Bool
asks_secret value =
    eq_str (param "action" value) (codes "credential-rotate")
    || eq_str (param "action" value) (codes "proxy-credentials")

unfoldable pub as_fields : Option Json → Option (Dict Json)
as_fields (some (obj fs)) = some (entries fs)
as_fields _ = none

-- the current password of the request, if it is a text that may be one
unfoldable pub given_password : Option Json → Option Text
given_password (some (str s)) =
    if not (leb (length s) 0) && leb (length s) 4096 then some s else none
given_password _ = none

unfoldable pub password_of : Option (Dict Json) → Option Text
password_of none = none
password_of (some params) = given_password (lookup current_password params)

-- the fields of an upload that are set
unfoldable pub set_text : String → Option Text → Dict Json
set_text name none = []
set_text name (some []) = []
set_text name (some (c ∷ s)) = (codes name, str (c ∷ s)) ∷ []

unfoldable pub items : List Text → Items
items [] = nil
items (s ∷ ss) = cons (str s) (items ss)

unfoldable pub set_list : String → List Text → Dict Json
set_list name [] = []
set_list name (s ∷ ss) = (codes name, arr (items (s ∷ ss))) ∷ []

unfoldable pub upload_params : Call → Text → Dict Json
upload_params q token =
    set_text "label" q.label
    ++ (set_text "filename" q.filename
        ++ (set_text "id" (some q.identifier)
            ++ (set_list "permissions" q.permissions
                ++ ((if q.allow_signer_change
                      then (codes "allow_signer_change", bool true) ∷ []
                      else [])
                    ++ (codes "upload", str token) ∷ []))))

unfoldable pub upload_payload : Call → Text → Json
upload_payload q token = obj (
    fields (
      (codes "action", str (codes "artifact-import"))
      ∷ (codes "params", obj (fields (upload_params q token)))
      ∷ []))

unfoldable pub upload_types : List Text
upload_types =
    codes "application/vnd.android.package-archive" ∷ codes "application/octet-stream" ∷ []
