-- ===== src/Tests/Server.antt =====
-- The theorems on the API (services/api/server.py, services/api/operations.py) at concrete requests.
use android_farm.Prelude.{
  ◌≡◌, refl, ap, Text, codes, text_eq, mem, leb, ◌==◌, Bool, true, false, List, [], ◌∷◌, none, some,
  ok,
}
use android_farm.Prelude.Dict.{Dict, lookup}
use android_farm.Json.{Json, str, obj, entries, fields, or_null, eq_str}
use android_farm.Proxy
use android_farm.Jobs
use android_farm.Operations.Request.{
  credential_rotate, action_name, read_action, find_action, check_fields, as_object, is_text,
  check_text, optional, Settings, Host, Job, param,
}
use android_farm.Operations.Secrets.{
  check_secret_fields, is_username, check_username, utf8_length, is_trimmed, check_target,
  check_rotation,
}
use android_farm.Operations.Validate.{
  checked, check_no_device, check_action, params_of, payload_fields, validate_job,
}
use android_farm.Jobs.{cancel}
use android_farm.Server.{
  Site, Call, queued, kept_params, refuse, job_route, cancelled_id, after, is_some, is_length,
  number_from, as_fields,
}
use android_farm.Server.Handler.{
  is_post, is_forged, is_allowed, is_get, respond_to, route, post, post_body, post_value,
  post_route, of_cancel, respond,
}
use android_farm.Server.Guards.{IsGuarded, respond-IsGuarded}
use android_farm.Server.Again.{validate_job-queued}
use android_farm.Tests.Ascii.{ascii}

abbrev settings : Settings
settings = record {
  inventory = none;
  proxies = record { registry = []; secrets = [] };
  has_trust_file = true;
  staged = λ s. ok tt;
}

abbrev host : Host
host = record {
  unicode = ascii;
  is_space = λ c. leb c 32;
  proxy_env = record { unicode = ascii; public_ipv4 = λ s. none; session_digest = λ a b c d. a };
  config = ok settings;
  catalog = ok [];
}

abbrev params : Dict Json
params =
    (codes "target", str (codes "web"))
    ∷ (codes "username", str (codes "operator"))
    ∷ (codes "password", str (codes "correct horse"))
    ∷ (codes "current_password", str (codes "old"))
    ∷ []

abbrev rotation : Json
rotation = obj (
    fields (
      (codes "action", str (codes "credential-rotate"))
      ∷ (codes "params", obj (fields params))
      ∷ []))

abbrev rotation_job : Job
rotation_job = record { action = credential_rotate; device = none; params = params }

accepted : validate_job host false rotation ≡ ok rotation_job
unfolding validate_job as_object entries fields check_fields payload_fields params_of param or_null
    lookup read_action find_action action_name check_action check_no_device check_rotation
    check_secret_fields check_target eq_str check_username is_username check_text is_text
    utf8_length is_trimmed Proxy.last_of optional mem text_eq checked
accepted = refl

validate_job-queued_example :
    validate_job host true (obj (fields (queued rotation_job (codes "r1"))))
    ≡ ok (record rotation_job { params = kept_params credential_rotate params })
validate_job-queued_example = validate_job-queued host rotation rotation_job (codes "r1") accepted

abbrev site : Site
site = record {
  origins = codes "https://farm" ∷ [];
  csrf = codes "token";
  healthy = true;
  verify = λ u p. none;
}

abbrev job_id : Text
job_id = codes "6f1d2c3b-0000-4000-8000-0123456789ab"

-- the cancellation of a job
abbrev call : Call
call = record {
  user = some (codes "operator");
  method = codes "POST";
  path = codes "/api/v1/jobs/6f1d2c3b-0000-4000-8000-0123456789ab/cancel";
  query = [];
  origin = some (codes "https://farm");
  fetch_site = codes "same-origin";
  csrf = codes "token";
  content_type = codes "application/json";
  content_length = codes "2";
  received = 2;
  body = some (obj (fields []));
  key = [];
  label = none;
  filename = none;
  identifier = [];
  permissions = [];
  allow_signer_change = false;
  staged = ok [];
  revision = [];
  later_revision = [];
  now = 20;
  job_id = [];
}

abbrev waiting : Jobs.Job
waiting = record {
  id = job_id;
  key = codes "k";
  fingerprint = codes "f";
  action = str (codes "up");
  device = str (codes "num07");
  actor = codes "operator";
  state = Jobs.queued;
  created_at = 10;
  updated_at = 10;
  payload = some (codes "{}");
  result = none;
  error = none;
}

-- the table has changed
is_cancelled : List Jobs.Job → Bool
is_cancelled [] = false
is_cancelled (j ∷ jobs) = j.updated_at == 20

changed : is_cancelled (respond host site (λ fs. []) (λ s. s) 50 call (waiting ∷ [])).1 ≡ true
unfolding is_cancelled respond respond_to route post post_body post_value post_route refuse is_post
    is_forged is_allowed is_get job_route cancelled_id after is_some is_length number_from as_fields
    entries fields mem text_eq of_cancel cancel Jobs.update_where
changed = refl

unchanged : is_cancelled (waiting ∷ []) ≡ false
unfolding is_cancelled
unchanged = refl

respond-IsGuarded_example : IsGuarded host site (λ fs. []) (λ s. s) 50 call
respond-IsGuarded_example =
    respond-IsGuarded host site (λ fs. []) (λ s. s) 50 call (waiting ∷ [])
      (λ e. cc (changed, ap is_cancelled e, unchanged))
