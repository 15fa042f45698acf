-- ===== src/Limit/Rates.antt =====
-- The request rate of an address: the two bounds, and the burst that never comes down.
use x_server.Prelude.{
  ℕ, ◌+◌, ◌≤◌, ◌≡◌, refl, sym, ◌∙◌, ap, subst, Bool, true, false, ◌&&◌, ◌||◌, Option, some, arith,
  ltb, leb, take_all, if◌then◌else◌,
}
use x_server.Text.{Bytes, strcmp_eq, strcmp_eq_iff}
use x_server.Limit.Table.{table_find, Slot}
use x_server.Limit.Table.Laws.{table_find-sweep}
use x_server.Limit.Table.Slots.{IsSlot, or_fresh, get_or_create-IsSlot}
use x_server.Limit.{
  Limits, LimitConfig, IpRate, rate_key, Times, stored_ip, get_or_create_ip_rate, is_idle_rate,
  cleanup_expired_records, admit_rate, admit_request, check_rate_limit,
}
use x_server.Limit.Counts.{IsValid, Fits, cleanup-IsValid}

-- What the limits promise of a record: the burst within its bound, and the requests of the current
-- window within the rate and the burst.
pub record IsBounded (c : LimitConfig) (r : IpRate) : Type 0 where
  pub burst : r.burst_count ≤ c.max_requests_burst
  pub window : r.request_count ≤ c.max_requests_per_second + r.burst_count

-- The requests that are counted at time `now`: in a new second the window restarts.
abbrev pub used_at : ℕ → IpRate → ℕ
used_at now r = if ltb r.window_start now then 0 else r.request_count

-- The rule for one request at time `now`, from the record `r` to the record `q`. The request is
-- refused exactly if the window and the burst are both used up. One above the rate raises the burst,
-- and nothing lowers it.
pub record Admits (c : LimitConfig) (now : ℕ) (r q : IpRate) (reply : Bool) : Type 0 where
  pub answer :
      reply
      ≡ (ltb (used_at now r) c.max_requests_per_second || ltb r.burst_count c.max_requests_burst)
  pub requests : q.request_count ≡ (if reply then used_at now r + 1 else used_at now r)
  pub burst : q.burst_count ≡ (
      if reply && leb c.max_requests_per_second (used_at now r)
      then r.burst_count + 1
      else r.burst_count)
  pub window : q.window_start ≡ (if ltb r.window_start now then now else r.window_start)
  pub last : q.last_request ≡ (if reply then now else r.last_request)
  pub address : q.ip ≡ r.ip

admit_rate-Admits :
    (c : LimitConfig) (now : ℕ) (r : IpRate)
    → Admits c now r (admit_rate c now r).0 (admit_rate c now r).1
unfolding admit_rate
admit_rate-Admits c now r = record {
  answer = ground arith;
  requests = ground arith;
  burst = ground arith;
  window = ground arith;
  last = ground arith;
  address = ground arith;
}

admit_rate-IsBounded :
    (c : LimitConfig) (now : ℕ) (r : IpRate) → IsBounded c r → IsBounded c (admit_rate c now r).0
unfolding admit_rate
admit_rate-IsBounded c now r b = ground (arith, b)

abbrev pub rate_of : Limits → Bytes → Option IpRate
rate_of s ip = table_find rate_key s.rates ip

unfoldable pub fresh_rate : Bytes → Times → IpRate
fresh_rate ip t = record {
  ip = stored_ip ip;
  request_count = 0;
  burst_count = 0;
  last_request = t.created;
  window_start = t.window;
}

get_or_create_rate :
    (s : Limits) (ip : Bytes) (t : Times)
    → IsValid s
    → Fits ip
    → (slot : Slot IpRate) × (get_or_create_ip_rate s.rates ip true t.created t.window ≡ some slot)
      × IsSlot rate_key s.rates ip (fresh_rate ip t) slot
unfolding get_or_create_ip_rate fresh_rate
get_or_create_rate s ip t v fits =
    get_or_create-IsSlot rate_key s.rates v.rates ip (fresh_rate ip t) (take_all 45 ip fits)

-- What a call of check_rate_limit does to the record of each address, after the clean-up.
pub record Rated (s : Limits) (ip : Bytes) (t : Times) (out : Limits × Bool) : Type 0 where
  pub written : IpRate
  pub rule : Admits s.config t.now (or_fresh (fresh_rate ip t) (rate_of s ip)) written out.1
  pub records :
      (j : Bytes) → rate_of out.0 j ≡ (if strcmp_eq ip j then some written else rate_of s j)
  pub valid : IsValid out.0

admit-Rated :
    (s : Limits) (ip : Bytes) (t : Times)
    → IsValid s
    → Fits ip
    → Rated s ip t
        (admit_request s (get_or_create_ip_rate s.rates ip true t.created t.window) t.now)
unfolding admit_request
admit-Rated s ip t v fits =
    let (slot, e, is) = get_or_create_rate s ip t v fits in
    let old = or_fresh (fresh_rate ip t) (rate_of s ip) in
    let same = λ (r : IpRate). (admit_rate-Admits s.config t.now r).address in
    rw (e, admit_request)
      (record {
        written = (admit_rate s.config t.now old).0;
        rule =
            subst (λ b. Admits s.config t.now old (admit_rate s.config t.now old).0 b)
              (sym (ap (λ r. (admit_rate s.config t.now r).1) is.shows))
              (admit_rate-Admits s.config t.now old);
        records = λ j.
            is.finds (λ q. (admit_rate s.config t.now q).0) j same
            ∙ ap (λ r. if strcmp_eq ip j then some (admit_rate s.config t.now r).0 else rate_of s j)
                is.shows;
        valid = record {
          connections = v.connections;
          rates = is.valid (λ q. (admit_rate s.config t.now q).0) same;
        };
      })

rate_enabled :
    (s : Limits) (ip : Bytes) (t : Times)
    → s.enable_rate_limit ≡ true
    → check_rate_limit s (some ip) true t ≡ (
        let s' = cleanup_expired_records s t.cleanup in
        admit_request s' (get_or_create_ip_rate s'.rates ip true t.created t.window) t.now)
unfolding check_rate_limit
rate_enabled s ip t on = simp on

-- check_rate_limit cleans up, then treats the record of its address, or a new record, by this rule, and
-- touches no other. In a new second the count of requests starts again at 0. The request is refused
-- exactly if the count has reached the rate and the burst count its bound. An allowed request is
-- counted and its time written, and one above the rate raises the burst count; a refused one is not
-- counted. The limit is enabled, the address fits its field, and memory is not exhausted.
pub check_rate_limit-Rated :
    (s : Limits) (ip : Bytes) (t : Times)
    → IsValid s
    → s.enable_rate_limit ≡ true
    → Fits ip
    → Rated (cleanup_expired_records s t.cleanup) ip t (check_rate_limit s (some ip) true t)
check_rate_limit-Rated s ip t v on fits =
    rw (rate_enabled s ip t on)
      (admit-Rated (cleanup_expired_records s t.cleanup) ip t (cleanup-IsValid s t.cleanup v) fits)

kept_rate :
    (s : Limits) (ip : Bytes) (now : ℕ) (r : IpRate)
    → IsValid s
    → rate_of s ip ≡ some r
    → is_idle_rate now r ≡ false
    → rate_of (cleanup_expired_records s now) ip ≡ some r
unfolding cleanup_expired_records
kept_rate s ip now r v e live =
    ground (arith, table_find-sweep rate_key s.rates v.rates (is_idle_rate now) ip)

burst_grows :
    {c : LimitConfig} {now : ℕ} {r q : IpRate} {reply : Bool}
    → Admits c now r q reply
    → r.burst_count ≤ q.burst_count
burst_grows a = ground (arith, a.burst)

-- The burst count of an address never comes down while its record lives, however long it waits
-- between two requests: the decay in check_rate_limit has no effect.
pub burst_never_decays :
    (s : Limits) (ip : Bytes) (t : Times) (r : IpRate)
    → IsValid s
    → s.enable_rate_limit ≡ true
    → Fits ip
    → rate_of s ip ≡ some r
    → is_idle_rate t.cleanup r ≡ false
    → (q : IpRate) × (rate_of (check_rate_limit s (some ip) true t).0 ip ≡ some q)
      × (r.burst_count ≤ q.burst_count)
burst_never_decays s ip t r v on fits e live =
    let s' = cleanup_expired_records s t.cleanup in
    let kept = kept_rate s ip t.cleanup r v e live in
    let out = check_rate_limit-Rated s ip t v on fits in
    (
      out.written,
      out.records ip ∙ rw ((strcmp_eq_iff ip ip).1 refl) refl,
      burst_grows (
          subst
            (λ o.
              Admits s'.config t.now (or_fresh (fresh_rate ip t) o) out.written
                (check_rate_limit s (some ip) true t).1)
            kept out.rule),
    )
