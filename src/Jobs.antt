-- ===== src/Jobs.antt =====
-- services/api/jobs.py: the durable queue of web operations. The table `jobs` is the list of its
-- rows in the order of `rowid`; each method is one transaction, or two with the execution between.
pub mod Rows
pub mod Service
pub mod Submit
pub mod Table
pub mod Keep
pub mod Life
pub mod Held
pub mod Steps
pub mod Run
pub mod Listing
use android_farm.Prelude.{
  ℕ, zero, suc, ◌+◌, Text, codes, text_eq, Bool, true, false, not, ◌&&◌, ◌||◌, List, [], ◌∷◌, ◌++◌,
  map, any, all, find, count_if, take, length, Option, none, some, leb, ltb, ◌==◌, if◌then◌else◌,
  Result, ok, err, value_error, key_error, queue_conflict, integrity_error, ◌>>=◌, ◌>>◌, raise_if,
}
use android_farm.Prelude.Dict.{Dict, lookup}
use android_farm.Json.{Json, or_null}

pub data State : Type 0 where
  queued running succeeded failed cancelled interrupted : State

-- The messages of the column `error`.
pub data Message : Type 0 where
  restarted not_stored failed_on_host : Message
  operation_error : Text → Message

pub record Job : Type 0 where
  pub id : Text
  pub key : Text
  pub fingerprint : Text
  pub action : Json
  pub device : Json
  pub actor : Text
  pub state : State
  pub created_at : ℕ
  pub updated_at : ℕ
  pub payload : Option Text
  pub result : Option Text
  pub error : Option Message

-- `state IN ('queued','running')`
abbrev pub is_pending : State → Bool
is_pending queued = true
is_pending running = true
is_pending _ = false

abbrev pub is_queued : State → Bool
is_queued queued = true
is_queued _ = false

abbrev pub is_running : State → Bool
is_running running = true
is_running _ = false

-- `UPDATE jobs SET … WHERE …`
unfoldable pub update_where : (Job → Bool) → (Job → Job) → List Job → List Job
update_where test change [] = []
update_where test change (j ∷ jobs) =
    (if test j then change j else j) ∷ update_where test change jobs

abbrev pub has_id : Text → Job → Bool
has_id id j = text_eq j.id id

abbrev pub has_key : Text → Job → Bool
has_key key j = text_eq j.key key

-- the update of the constructor: what was pending when the service stopped is interrupted
unfoldable pub recover : ℕ → List Job → List Job
recover now =
    update_where (λ j. is_pending j.state)
      (λ j. record j {
        state = interrupted;
        payload = none;
        updated_at = now;
        error = some restarted;
      })

-- What a client is shown of a row: no key, fingerprint or payload.
pub record PublicJob : Type 0 where
  pub id : Text
  pub action : Json
  pub device : Json
  pub actor : Text
  pub state : State
  pub created_at : ℕ
  pub updated_at : ℕ
  pub result : Option Json
  pub error : Option Message

-- `json.loads(row['result'])`, unless that is NULL or empty
unfoldable pub shown_result : (Text → Json) → Option Text → Option Json
shown_result loads none = none
shown_result loads (some []) = some (Json.str [])
shown_result loads (some (c ∷ s)) = some (loads (c ∷ s))

unfoldable pub public : (Text → Json) → Job → PublicJob
unfolding shown_result
public loads j = record {
  id = j.id;
  action = j.action;
  device = j.device;
  actor = j.actor;
  state = j.state;
  created_at = j.created_at;
  updated_at = j.updated_at;
  result = shown_result loads j.result;
  error = j.error;
}

-- `str(uuid.UUID(key)) == key`: groups of 8, 4, 4, 4 and 12 lower-case hexadecimal digits
unfoldable pub is_hex : ℕ → Bool
is_hex c = leb b'0' c && leb c b'9' || leb b'a' c && leb c b'f'

unfoldable pub hex_group : ℕ → Text → Option Text
hex_group zero s = some s
hex_group (suc n) [] = none
hex_group (suc n) (c ∷ s) = let rest = hex_group n s in if is_hex c then rest else none

unfoldable pub dash : Option Text → Option Text
dash (some (c ∷ s)) = if c == b'-' then some s else none
dash _ = none

unfoldable pub group : ℕ → Option Text → Option Text
group n none = none
group n (some s) = hex_group n s

unfoldable pub is_uuid : Text → Bool
unfolding dash group hex_group is_hex
is_uuid s =
    elim (group 12 (dash (group 4 (dash (group 4 (dash (group 4 (dash (group 8 (some s)))))))))) [
      | some [] ↦ true
      | _ ↦ false
    ]

-- the row that `INSERT` adds
abbrev pub new_job : Text → Text → Text → Json → Json → Text → ℕ → Text → Job
new_job id key fingerprint action device actor now serialized = record {
  id = id;
  key = key;
  fingerprint = fingerprint;
  action = action;
  device = device;
  actor = actor;
  state = queued;
  created_at = now;
  updated_at = now;
  payload = some serialized;
  result = none;
  error = none;
}

-- A request as the methods see it: the clock, the identifier that `uuid4` gives, and the caller's
-- arguments.
pub record Request : Type 0 where
  pub now : ℕ
  pub job_id : Text
  pub key : Text
  pub payload : Dict Json
  pub actor : Text

-- `dumps` serialises a payload with sorted keys, and `digest` is SHA-256 in hexadecimal.
module _ (dumps : Dict Json → Text) (digest : Text → Text) (max_pending : ℕ) where
  abbrev pub fingerprint_of : Request → Text
  fingerprint_of r = digest (dumps r.payload)

  -- the key is new: the request is queued if there is room
  unfoldable pub enqueue : Request → List Job → Result (Job × Bool) × List Job
  enqueue r jobs =
      if leb max_pending (count_if (λ j. is_pending j.state) jobs)
      then (err (queue_conflict "the queue is full"), jobs)
      else elim (lookup (codes "action") r.payload) [
        | none ↦ (err (key_error "action"), jobs)
        | some action ↦
            if any (has_id r.job_id) jobs
            then (err (integrity_error "UNIQUE constraint failed: jobs.id"), jobs)
            else let j =
                new_job r.job_id r.key (fingerprint_of r) action
                  (or_null (lookup (codes "device") r.payload)) r.actor r.now (dumps r.payload) in
              (ok (j, true), jobs ++ j ∷ [])
      ]

  -- the key is known: the request must be the one that it was used for
  unfoldable pub replay : Request → Job → List Job → Result (Job × Bool) × List Job
  replay r j jobs =
      if not (text_eq j.fingerprint (fingerprint_of r)) || not (text_eq j.actor r.actor)
      then (err (queue_conflict "the key was used for another operation"), jobs)
      else (ok (j, false), jobs)

  -- The row, which the caller is shown through `public`, whether it is new, and the table; an error leaves the table as it was.
  unfoldable pub submit : Request → List Job → Result (Job × Bool) × List Job
  unfolding enqueue replay
  submit r jobs =
      if not (is_uuid r.key)
      then (err (value_error "Idempotency-Key must be a valid UUID"), jobs)
      else elim (find (has_key r.key) jobs) [ some j ↦ replay r j jobs | none ↦ enqueue r jobs ]

unfoldable pub cancel : ℕ → Text → List Job → Result Job × List Job
cancel now id jobs = elim (find (has_id id) jobs) [
  | none ↦ (err (key_error "the job was not found"), jobs)
  | some j ↦
      if not (is_queued j.state)
      then (err (queue_conflict "only a queued job can be cancelled"), jobs)
      else let change =
          λ (j : Job). record j { state = cancelled; payload = none; updated_at = now } in
        (ok (change j), update_where (has_id id) change jobs)
]

-- The first transaction of `run_one`: the oldest queued row is marked as running.
unfoldable pub claim : ℕ → List Job → Option Job × List Job
claim now jobs = elim (find (λ j. is_queued j.state) jobs) [
  | none ↦ (none, jobs)
  | some j ↦ (
    some j,
    update_where (has_id j.id) (λ j. record j { state = running; updated_at = now }) jobs,
  )
]

-- How `execute` and the encoding of its result end.
pub data Outcome : Type 0 where
  returned : Text → Outcome
  raised_operation : Text → Outcome
  raised : Outcome

abbrev pub max_result : ℕ
max_result = 16384

-- the columns that an outcome gives: state, result and error
unfoldable pub verdict : Outcome → State × Option Text × Option Message
verdict (returned encoded) =
    if ltb max_result (length encoded)
    then (failed, none, some failed_on_host)
    else (succeeded, some encoded, none)
verdict (raised_operation message) = (failed, none, some (operation_error (take 400 message)))
verdict raised = (failed, none, some failed_on_host)

-- the row after the execution
abbrev pub ended : ℕ → Outcome → Job → Job
ended now outcome j =
    let v = verdict outcome in
    record j { state = v.0; result = v.1; error = v.2; payload = none; updated_at = now }

-- The second transaction of `run_one`.
unfoldable pub complete : ℕ → Text → Outcome → List Job → List Job
complete now id outcome = update_where (has_id id) (ended now outcome)

-- the first branch of `_loop`, after a write that failed
unfoldable pub interrupt : ℕ → List Job → List Job
interrupt now =
    update_where (λ j. is_running j.state)
      (λ j. record j {
        state = interrupted;
        payload = none;
        updated_at = now;
        error = some not_stored;
      })

-- `ORDER BY created_at DESC, rowid DESC`: a row goes before the older ones.
unfoldable pub insert_newest : Job → List Job → List Job
insert_newest j [] = j ∷ []
insert_newest j (k ∷ jobs) =
    if leb k.created_at j.created_at then j ∷ k ∷ jobs else k ∷ insert_newest j jobs

unfoldable pub newest_first : List Job → List Job → List Job
newest_first sorted [] = sorted
newest_first sorted (j ∷ jobs) = newest_first (insert_newest j sorted) jobs

abbrev pub list_limit : ℕ
list_limit = 200

unfoldable pub list_jobs : (Text → Json) → List Job → List PublicJob
list_jobs loads jobs = map (public loads) (take list_limit (newest_first [] jobs))
