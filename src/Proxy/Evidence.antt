-- ===== src/Proxy/Evidence.antt =====
-- What a health check of ops/proxy_store.py shows and records.
use android_farm.Prelude.{
  ℕ, Text, text_eq_iff, ◌≡◌, ◌≢◌, refl, sym, ap, ◌∙◌, true, some, arith, Exception, Result, ok, err,
  >>-ok, >>-first, ◌>>◌,
}
use android_farm.Prelude.Dict.{lookup, insert, lookup-insert}
use android_farm.Proxy.{
  Env, Proxy, Store, Health, Writes, public_ipv4, Write, written, lost, late, or_undo,
}
use android_farm.Proxy.Check.{
  Probe, printed, not_run, curl_failed, Report, record_health, prepare_health, write_health, judge,
  judge_address, unhealthy, begin_check, finish_check, check_health,
}
use android_farm.Proxy.Keep.{prepare_health-ok}

-- what a report says of the proxy that was probed, and of the store after it
pub record Reported (env : Env) (id : Text) (probe : Probe) (report : Report) (s later t : Store)
    : Type 0 where
  pub probed : Proxy
  pub begun : begin_check env id s ≡ ok probed
  -- curl ran and printed the address
  pub output : Text
  pub seen : probe ≡ printed output
  pub observed : public_ipv4 env output ≡ ok report.observed_egress_ip
  pub address : report.observed_egress_ip ≡ probed.expected_egress_ip
  pub current : Proxy
  pub here : lookup id later.registry ≡ some current
  pub version : current.secret_version ≡ probed.secret_version
  pub recorded :
      (r : Proxy) × (h : Health) × (lookup id t.registry ≡ some r)
      × (r.last_health ≡ some h)
      × (h.healthy ≡ true)
      × (h.observed_egress_ip ≡ some probed.expected_egress_ip)

-- evidence and verdict of a probe that found the expected address
record Confirmed (expected : Text) (m : Result Text) (found : Health × Result Report)
    (report : Report) : Type 0 where
  healthy : found.0.healthy ≡ true
  evidence : found.0.observed_egress_ip ≡ some expected
  reported : report.observed_egress_ip ≡ expected
  same : m ≡ ok report.observed_egress_ip

stored-lookup :
    (id : Text) (q : Proxy) (s t : Store)
    → t ≡ record s { registry = insert id q s.registry }
    → lookup id t.registry ≡ some q
stored-lookup id q s t e =
    rw e (ground (arith, lookup-insert id id q s.registry, text_eq_iff id id))

module _ (env : Env) where
  judge_address-ok :
      (now : ℕ) (id expected : Text) (m : Result Text) (report : Report)
      → (judge_address env now id expected m).1 ≡ ok report
      → Confirmed expected m (judge_address env now id expected m) report
  unfolding judge_address unhealthy
  judge_address-ok now id expected (err e) report h = cc h
  judge_address-ok now id expected (ok observed) report h = record {
    healthy = ground (arith, h);
    evidence = ground (arith, h, text_eq_iff observed expected);
    reported = ground (arith, h, text_eq_iff observed expected);
    same = ground (arith, h, text_eq_iff observed expected);
  }

  judge-ok :
      (now : ℕ) (id expected : Text) (probe : Probe) (report : Report)
      → (judge env now id expected probe).1 ≡ ok report
      → (s : Text) × (probe ≡ printed s)
        × Confirmed expected (public_ipv4 env s) (judge env now id expected probe) report
  unfolding judge
  judge-ok now id expected not_run report e = cc e
  judge-ok now id expected curl_failed report e = cc e
  judge-ok now id expected (printed s) report e =
      (s, refl, judge_address-ok now id expected (public_ipv4 env s) report e)

  write_health-ok :
      (w : Writes) (id : Text) (s : Store) (q : Proxy) (u : Unit {0})
      → (write_health env w id s (ok q)).0 ≡ ok u
      → (write_health env w id s (ok q)).1 ≡ record s { registry = insert id q s.registry }
  unfolding write_health or_undo
  write_health-ok w id s q u h = go w.first h
    where
      made : Store
      made = record s { registry = insert id q s.registry }

      go :
          (b : Write)
          → (or_undo {0} b tt s made (λ t. t)).0 ≡ ok u
          → (or_undo {0} b tt s made (λ t. t)).1 ≡ made
      go written h = refl
      go lost h = cc
      go late h = cc

  -- what was recorded, when recording returned
  record_health-ok :
      (w : Writes) (now : ℕ) (id : Text) (version : ℕ) (evidence : Health) (s : Store)
      (u : Unit {0})
      → (record_health env w now id version evidence s).0 ≡ ok u
      → (r : Proxy) × (lookup id s.registry ≡ some r)
        × (r.secret_version ≡ version)
        × ((record_health env w now id version evidence s).1 ≡ record s {
          registry =
              insert id (record r { last_health = some evidence; updated_at = now }) s.registry;
        })
  unfolding record_health write_health
  record_health-ok w now id version evidence s u e =
      go (prepare_health env now id version evidence s) refl e
    where
      go :
          (m : Result Proxy)
          → prepare_health env now id version evidence s ≡ m
          → (write_health env w id s m).0 ≡ ok u
          → (r : Proxy) × (lookup id s.registry ≡ some r)
            × (r.secret_version ≡ version)
            × ((write_health env w id s m).1 ≡ record s {
              registry =
                  insert id (record r { last_health = some evidence; updated_at = now }) s.registry;
            })
      go (err x) p h = cc h
      go (ok q) p h =
          let (r, here, same, made) = prepare_health-ok env now id version evidence s q p in
          (r, here, same, rw (sym made) (write_health-ok w id s q u h))

  check_health-begun :
      (w : Writes) (now : ℕ) (id : Text) (probe : Probe) (between : Store → Store) (s : Store)
      (r : Proxy)
      → begin_check env id s ≡ ok r
      → check_health env w now id probe between s ≡ finish_check env w now id probe r (between s)
  unfolding check_health
  check_health-begun w now id probe between s r p = rw (check_health, p) refl

  check_health-refused :
      (w : Writes) (now : ℕ) (id : Text) (probe : Probe) (between : Store → Store) (s : Store)
      (x : Exception)
      → begin_check env id s ≡ err x
      → check_health env w now id probe between s ≡ (err x, s)
  unfolding check_health
  check_health-refused w now id probe between s x p = rw (check_health, p) refl

  -- A check that returns a report ran curl, which printed the address that the report names and that
  -- the proxy was expected to have; it was finished under the version of the secret that it was begun with, and is recorded as healthy.
  pub check_health-report :
      (w : Writes) (now : ℕ) (id : Text) (probe : Probe) (between : Store → Store) (s : Store)
      (report : Report)
      → (check_health env w now id probe between s).0 ≡ ok report
      → Reported env id probe report s (between s) (check_health env w now id probe between s).1
  unfolding finish_check
  check_health-report w now id probe between s report e = go (begin_check env id s) refl
    where
      go :
          (m : Result Proxy)
          → begin_check env id s ≡ m
          → Reported env id probe report s (between s) (check_health env w now id probe between s).1
      go (err x) p = cc (e, check_health-refused w now id probe between s x p)
      go (ok r) p =
          let begun = check_health-begun w now id probe between s r p in
          let (h, v) = judge env now id r.expected_egress_ip probe in
          let e' : ((record_health env w now id r.secret_version h (between s)).0 >> v)
              ≡ ok report =
            ap (λ (x : Result Report × Store). x.0) (sym begun) ∙ e in
          let (u, did) =
            >>-first (record_health env w now id r.secret_version h (between s)).0 v report e' in
          let (output, seen, found) =
            judge-ok now id r.expected_egress_ip probe report (>>-ok _ v report e') in
          let (q, here, version, made) =
            record_health-ok w now id r.secret_version h (between s) u did in
          record {
            probed = r;
            begun = p;
            output = output;
            seen = seen;
            observed = found.same;
            address = found.reported;
            current = q;
            here = here;
            version = version;
            recorded = (
              record q { last_health = some h; updated_at = now },
              h,
              stored-lookup id _ (between s) _
                  (ap (λ (x : Result Report × Store). x.1) begun ∙ made),
              refl,
              found.healthy,
              found.evidence,
            );
          }

  -- If the record is gone by the second transaction, or its secret has another version, the check
  -- raises and changes nothing.
  pub finish_check-stale :
      (w : Writes) (now : ℕ) (id : Text) (probe : Probe) (r : Proxy) (later : Store)
      → ((q : Proxy) → lookup id later.registry ≡ some q → q.secret_version ≢ r.secret_version)
      → (e : Exception) × (finish_check env w now id probe r later ≡ (err e, later))
  unfolding finish_check record_health write_health
  finish_check-stale w now id probe r later stale =
      go (prepare_health env now id r.secret_version h later) refl
    where
      h : Health
      h = (judge env now id r.expected_egress_ip probe).0

      go :
          (m : Result Proxy)
          → prepare_health env now id r.secret_version h later ≡ m
          → (e : Exception) × (finish_check env w now id probe r later ≡ (err e, later))
      go (err e) p = (e, rw p refl)
      go (ok q) p =
          let (x, here, version, made) =
            prepare_health-ok env now id r.secret_version h later q p in
          elim (stale x here version) [ ]
