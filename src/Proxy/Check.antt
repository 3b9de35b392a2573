-- ===== src/Proxy/Check.antt =====
-- `check_health` and `_record_health` of ops/proxy_store.py. The probe runs without the lock, so the
-- store may change between the two transactions.
use android_farm.Prelude.{
  ℕ, Text, text_eq, true, false, not, Option, none, some, ◌==◌, if◌then◌else◌, Exception, Result,
  ok, err, runtime_error, ◌>>=◌, ◌>>◌, raise_if,
}
use android_farm.Prelude.Dict.{lookup, insert}
use android_farm.Proxy.{
  Env, Proxy, Store, Health, public_ipv4, load_registry, read_secret, Writes, or_undo,
}
use android_farm.Proxy.Ops.{is_enabled, find_record}

-- How `curl` ended: it did not run or its configuration was refused, it returned an exit code, or
-- it printed a text (without the white space around it).
pub data Probe : Type 0 where
  not_run curl_failed : Probe
  printed : Text → Probe

pub record Report : Type 0 where
  pub id : Text
  pub expected_egress_ip : Text
  pub observed_egress_ip : Text
  pub checked_at : ℕ

-- what the probe shows: the evidence, and the report or the exception that follows its recording
unfoldable pub unhealthy : ℕ → Option Text → Health
unhealthy now observed = record { healthy = false; checked_at = now; observed_egress_ip = observed }

abbrev pub curl_error : Exception
curl_error = runtime_error "curl proxy health check failed"

abbrev pub check_error : Exception
check_error = runtime_error "proxy health check failed"

abbrev pub egress_error : Exception
egress_error = runtime_error "proxy egress does not match expected pinned IP"

module _ (env : Env) where
  -- an address that was printed, against the expected one
  unfoldable pub judge_address : ℕ → Text → Text → Result Text → Health × Result Report
  judge_address now id expected (err e) = (unhealthy now none, err check_error)
  judge_address now id expected (ok observed) =
      if text_eq observed expected
      then (
        record { healthy = true; checked_at = now; observed_egress_ip = some observed },
        ok (record {
          id = id;
          expected_egress_ip = expected;
          observed_egress_ip = observed;
          checked_at = now;
        }),
      )
      else (unhealthy now (some observed), err egress_error)

  unfoldable pub judge : ℕ → Text → Text → Probe → Health × Result Report
  unfolding judge_address
  judge now id expected not_run = (unhealthy now none, err check_error)
  judge now id expected curl_failed = (unhealthy now none, err curl_error)
  judge now id expected (printed s) = judge_address now id expected (public_ipv4 env s)

  -- `_record_health`
  unfoldable pub prepare_health : ℕ → Text → ℕ → Health → Store → Result Proxy
  prepare_health now id version evidence s = do
    registry ← load_registry env s
    r ← elim (lookup id registry) [
      | none ↦ err (runtime_error "proxy changed during health check; result was not recorded")
      | some r ↦ ok r
    ]
    raise_if (not (r.secret_version == version))
        (runtime_error "proxy changed during health check; result was not recorded")
    ok (record r { last_health = some evidence; updated_at = now })

  unfoldable pub write_health : Writes → Text → Store → Result Proxy → Result (Unit {0}) × Store
  unfolding or_undo
  write_health w id s (err e) = (err e, s)
  write_health w id s (ok r) =
      or_undo w.first tt s (record s { registry = insert id r s.registry }) (λ t. t)

  unfoldable pub record_health : Writes → ℕ → Text → ℕ → Health → Store → Result (Unit {0}) × Store
  unfolding write_health
  record_health w now id version evidence s =
      write_health w id s (prepare_health now id version evidence s)

  -- the first transaction of `check_health`
  unfoldable pub begin_check : Text → Store → Result Proxy
  begin_check id s = do
    r ← find_record env id s
    raise_if (not (is_enabled r.state)) (runtime_error "disabled proxy cannot be health-checked")
    _ ← read_secret env s id r
    ok r

  -- `later` is the store that the second transaction finds.
  unfoldable pub finish_check : Writes → ℕ → Text → Probe → Proxy → Store → Result Report × Store
  finish_check w now id probe r later =
      let (evidence, verdict) = judge now id r.expected_egress_ip probe in
      let (recorded, s) = record_health w now id r.secret_version evidence later in
      (recorded >> verdict, s)

  unfoldable pub check_health :
      Writes → ℕ → Text → Probe → (Store → Store) → Store → Result Report × Store
  check_health w now id probe between s = elim (begin_check id s) [
    | err e ↦ (err e, s)
    | ok r ↦ finish_check w now id probe r (between s)
  ]
