-- ===== src/Server/Again.antt =====
-- The job that services/api/server.py puts into the queue, when it is checked again before it runs.
use android_farm.Prelude.{
  Text, codes, text_eq, mem, ◌≡◌, refl, sym, ap, ◌∙◌, Bool, true, false, [], ◌∷◌, ◌++◌, Option,
  none, some, if◌then◌else◌, ok, >>=-ok, >>-ok,
}
use android_farm.Prelude.Dict.{Dict, lookup}
use android_farm.Json.{Json, str, obj, fields, or_null}
use android_farm.Intent.Last.{entries-fields}
use android_farm.Operations.Request.{
  up, down, restart, check, check_ip, backup, release, life_name, test, enable, disable, Action,
  life, proxy, provision, Settings, Host, Job, param, check_fields, read_action, find_action,
  action_name, as_object,
}
use android_farm.Operations.Validate.{
  check_action, validate_job, payload_fields, params_of, device_field,
}
use android_farm.Server.{kept_params, revision_field, queued, is_secret}
use android_farm.Server.Stable.{device_value, IsStable, check-IsStable}

-- every action is read back from its name
read_action-name : (a : Action) → read_action (str (action_name a)) ≡ ok a
unfolding read_action find_action action_name text_eq life_name
read_action-name (life up) = refl
read_action-name (life down) = refl
read_action-name (life restart) = refl
read_action-name (life check) = refl
read_action-name (life check_ip) = refl
read_action-name (life backup) = refl
read_action-name (life release) = refl
read_action-name (proxy test) = refl
read_action-name (proxy enable) = refl
read_action-name (proxy disable) = refl
read_action-name provision = refl
read_action-name _ = refl

-- the payload of a job, field by field
abbrev payload : Text → Json → Option Text → Bool → Text → Dict Json
payload name params device secret revision =
    (codes "action", str name)
    ∷ (codes "params", params)
    ∷ (device_field device ++ (if secret then (codes "auth_revision", str revision) ∷ [] else []))

payload-read :
    (name : Text) (params : Json) (device : Option Text) (secret : Bool) (revision : Text)
    → (check_fields
          (codes "action" ∷ [])
          (payload_fields true)
          (payload name params device secret revision)
        ≡ ok tt)
      × (lookup (codes "action") (payload name params device secret revision) ≡ some (str name))
      × (lookup (codes "params") (payload name params device secret revision) ≡ some params)
      × (lookup (codes "device") (payload name params device secret revision) ≡ device_value device)
unfolding check_fields payload_fields device_field mem text_eq lookup
payload-read name params none true revision = (refl, refl, refl, refl)
payload-read name params none false revision = (refl, refl, refl, refl)
payload-read name params (some d) true revision = (refl, refl, refl, refl)
payload-read name params (some d) false revision = (refl, refl, refl, refl)

validate-queued :
    (h : Host) (c : Settings) (j : Job) (revision : Text)
    → h.config ≡ ok c
    → validate_job h true (obj (fields (queued j revision)))
      ≡ check_action h c true j.action (device_value j.device) (kept_params j.action j.params)
unfolding validate_job as_object queued revision_field params_of param or_null kept_params
validate-queued h c j revision e =
    let params = obj (fields (kept_params j.action j.params)) in
    let (fine, named, given, device) =
      payload-read (action_name j.action) params j.device (is_secret j.action) revision in
    rw
      (
        entries-fields
            (payload (action_name j.action) params j.device (is_secret j.action) revision),
        fine,
        named,
        given,
        device,
        read_action-name j.action,
        entries-fields (kept_params j.action j.params),
        e,
      )
      refl

own-action :
    (h : Host) (c : Settings) (a : Action) (j : Job)
    → IsStable h c a j
    → check_action h c true j.action (device_value j.device) (kept_params j.action j.params)
      ≡ ok (record j { params = kept_params j.action j.params })
own-action h c a j s =
    ap (λ b. check_action h c true b (device_value j.device) (kept_params b j.params)) s.action
    ∙ s.again
    ∙ ap (λ b. ok (record j { params = kept_params b j.params })) (sym s.action)

-- A job that the gate of the API passes is put into the queue in a form that the executor's own check
-- passes, too, on a host that has not changed: with the same action, device and parameters, but for
-- the current password, which is not in the queue.
pub validate_job-queued :
    (h : Host) (v : Json) (j : Job) (revision : Text)
    → validate_job h false v ≡ ok j
    → validate_job h true (obj (fields (queued j revision)))
      ≡ ok (record j { params = kept_params j.action j.params })
unfolding validate_job
validate_job-queued h v j revision e =
    let (d, a, e1) = >>=-ok (as_object "unsupported request fields" v) _ j e in
    let e2 = >>-ok (check_fields (codes "action" ∷ []) (payload_fields false) d) _ j e1 in
    let (action, b, e3) = >>=-ok (read_action (param "action" d)) _ j e2 in
    let (params, p, e4) = >>=-ok (params_of (lookup (codes "params") d)) _ j e3 in
    let (c, q, e5) = >>=-ok h.config _ j e4 in
    let s = check-IsStable h c action (lookup (codes "device") d) params j e5 in
    validate-queued h c j revision q ∙ own-action h c action j s
