-- ===== src/Tests/Proxy.antt =====
-- The theorems on the proxies (ops/proxy_store.py) at concrete inputs.
use android_farm.Prelude.{
  ◌≡◌, ◌≢◌, refl, Text, codes, text_eq, some, [], ◌∷◌, ok, err, Exception, mem, List,
}
use android_farm.Prelude.Dict.{lookup, insert}
use android_farm.Proxy.{
  Env, Proxy, Store, written, lost, Writes, left, after_write, or_undo, NewProxy, matches_proxy_id,
  proxy_id, text, kind, port, last_of, username_hint, is_digest, public_ipv4, check_assigned,
  check_proxy, check_proxies, load_registry, require, find_secret, check_secret, read_secret,
}
use android_farm.Proxy.Ops.{
  find_record, check_arguments, check_new, new_proxy, new_secret, prepare_add, write_add, add,
}
use android_farm.Proxy.Check.{
  printed, Report, judge, judge_address, prepare_health, write_health, record_health, begin_check,
  finish_check, check_health,
}
use android_farm.Proxy.Consistent.{IsConsistent}
use android_farm.Proxy.History.{
  adding, assigning, rotating, deleting, request, check, Step, run, empty_store,
  empty_store-IsConsistent, run-IsConsistent,
}
use android_farm.Proxy.Evidence.{Reported, check_health-report, finish_check-stale}
use android_farm.Tests.Ascii.{ascii}

abbrev digest : Text
digest = codes "0123456789abcdef0123456789abcdef0123456789abcdef0123456789abcdef"

abbrev env : Env
env = record {
  unicode = ascii;
  public_ipv4 = λ s. some s;
  session_digest = λ type server number username. digest;
}

abbrev all_written : Writes
all_written = record { first = written; second = written; third = written; fourth = written }

abbrev second_lost : Writes
second_lost = record { first = written; second = lost; third = written; fourth = written }

abbrev arguments : NewProxy
arguments = record {
  id = codes "lon-1";
  label = codes "London";
  type = codes "socks5";
  server = codes "1.1.1.1";
  server_port = 1080;
  username = codes "user";
  password = codes "pass";
  expected_egress_ip = codes "2.2.2.2";
}

abbrev steps : List Step
steps =
    request (record { operation = adding arguments; now = 1; writes = all_written })
    ∷ request (record {
      operation = assigning (codes "lon-1") (codes "num01");
      now = 2;
      writes = all_written;
    })
    ∷ check all_written 3 (codes "lon-1") (printed (codes "2.2.2.2")) (
        record { operation = rotating (codes "lon-1") (codes "new"); now = 4; writes = second_lost }
        ∷ [])
    ∷ request (record { operation = deleting (codes "lon-1"); now = 5; writes = all_written })
    ∷ []

run-IsConsistent_example : IsConsistent env (run env steps empty_store)
run-IsConsistent_example =
    run-IsConsistent env steps empty_store (empty_store-IsConsistent env) refl

abbrev one_proxy : Store
one_proxy = (add env all_written 1 arguments empty_store).1

abbrev found : Report
found = record {
  id = codes "lon-1";
  expected_egress_ip = codes "2.2.2.2";
  observed_egress_ip = codes "2.2.2.2";
  checked_at = 3;
}

reported :
    (check_health env all_written 3
      (codes "lon-1")
      (printed (codes "2.2.2.2"))
      (λ s. s)
      one_proxy).0
    ≡ ok found
unfolding check_health begin_check finish_check judge judge_address prepare_health write_health
    record_health after_write or_undo left find_record check_arguments check_new new_proxy
    new_secret prepare_add write_add add matches_proxy_id proxy_id text kind port last_of
    username_hint is_digest public_ipv4 check_assigned check_proxy check_proxies load_registry
    require find_secret check_secret read_secret lookup insert text_eq mem
reported = refl

check_health-report_example :
    Reported env
      (codes "lon-1")
      (printed (codes "2.2.2.2"))
      found
      one_proxy
      one_proxy
      (check_health env all_written 3
        (codes "lon-1")
        (printed (codes "2.2.2.2"))
        (λ s. s)
        one_proxy).1
check_health-report_example =
    check_health-report env all_written 3 (codes "lon-1") (printed (codes "2.2.2.2")) (λ s. s)
      one_proxy found reported

abbrev probed : Proxy
probed = new_proxy env 1 arguments

gone :
    (q : Proxy)
    → lookup (codes "lon-1") empty_store.registry ≡ some q
    → q.secret_version ≢ probed.secret_version
unfolding lookup
gone q e = cc e

finish_check-stale_example :
    (e : Exception) × (finish_check env all_written 3
        (codes "lon-1")
        (printed (codes "2.2.2.2"))
        probed
        empty_store
      ≡ (err e, empty_store))
finish_check-stale_example =
    finish_check-stale env all_written 3 (codes "lon-1") (printed (codes "2.2.2.2")) probed
      empty_store gone
