-- ===== src/Limit/Tests.antt =====
-- Runs and instances of the theorems on the connection limiter.
use x_server.Prelude.{◌≤◌, ◌≡◌, refl, ◌∙◌, true, some, List, [], ◌∷◌, arith}
use x_server.Text.{Bytes, codes, strcmp_eq_iff}
use x_server.Limit.Table.{ip_hash, table_insert, empty_table, table_find, find}
use x_server.Limit.Table.Laws.{table_find-insert, table_insert-IsTable}
use x_server.Limit.{
  Limits, IpRate, Times, init_limits, rate_key, check_rate_limit, cleanup_expired_records,
}
use x_server.Limit.Counts.{IsValid, count, init_limits-IsValid}
use x_server.Limit.Refine.{Call, opens, closes, run, run_counter, run_refines}
use x_server.Limit.Rates.{Rated, rate_of, check_rate_limit-Rated, burst_never_decays}

abbrev client : Bytes
client = codes "10.0.0.7"

abbrev at_100 : Times
at_100 = record { cleanup = 100; created = 100; window = 100; now = 100 }

hash_example : ip_hash (codes "ab") ≡ 808
unfolding ip_hash
hash_example = refl

abbrev history : List Call
history = opens client at_100 ∷ closes client 130 ∷ opens client at_100 ∷ []

run_refines_example :
    run init_limits history
    ≡ run_counter init_limits.max_connections_per_ip (count init_limits) history
unfolding init_limits
run_refines_example = run_refines init_limits history init_limits-IsValid refl (omega arith)

abbrev busy_rate : IpRate
busy_rate = record {
  ip = client;
  request_count = 12;
  burst_count = 5;
  last_request = 90;
  window_start = 90;
}

abbrev busy : Limits
busy = record init_limits { rates = table_insert init_limits.rates client busy_rate }

busy_rate_found : rate_of busy client ≡ some busy_rate
busy_rate_found =
    table_find-insert rate_key init_limits.rates init_limits-IsValid.rates busy_rate client client
      refl
    ∙ rw ((strcmp_eq_iff client client).1 refl)

busy-IsValid : IsValid busy
unfolding init_limits empty_table table_find find ip_hash
busy-IsValid = record {
  connections = init_limits-IsValid.connections;
  rates =
      table_insert-IsTable rate_key init_limits.rates init_limits-IsValid.rates busy_rate client
        refl refl;
}

check_rate_limit_example :
    Rated
      (cleanup_expired_records busy 100)
      client
      at_100
      (check_rate_limit busy (some client) true at_100)
unfolding init_limits
check_rate_limit_example = check_rate_limit-Rated busy client at_100 busy-IsValid refl (omega arith)

burst_never_decays_example :
    (q : IpRate) × (rate_of (check_rate_limit busy (some client) true at_100).0 client ≡ some q)
    × (5 ≤ q.burst_count)
unfolding init_limits
burst_never_decays_example =
    burst_never_decays busy client at_100 busy_rate busy-IsValid refl (omega arith) busy_rate_found
      refl
