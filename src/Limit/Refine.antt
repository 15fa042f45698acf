-- ===== src/Limit/Refine.antt =====
-- The connection limiter against its specification: a counter for each address.
use x_server.Prelude.{
  ℕ, ◌+◌, ◌-◌, ◌≡◌, refl, sym, ◌∙◌, ap, ap₂, Bool, true, false, ◌&&◌, some, List, [], ◌∷◌, arith,
  ltb, if◌then◌else◌, Bool-cases, inl, inr,
}
use x_server.Text.{Bytes, strcmp_eq}
use x_server.Limit.{Limits, LimitConfig, Times, check_connection_limit, release_connection}
use x_server.Limit.Counts.{
  IsValid, Fits, count, check_connection_limit-Admits, release_connection_lem, check-config,
  release-config,
}

-- The counts of open connections.
abbrev pub Counter : Type 0
Counter = Bytes → ℕ

abbrev pub put : Counter → Bytes → ℕ → Counter
put m ip n = λ j. if strcmp_eq ip j then n else m j

unfoldable pub acquire : ℕ → Counter → Bytes → Counter × Bool
acquire limit m ip = if ltb (m ip) limit then (put m ip (m ip + 1), true) else (m, false)

unfoldable pub give_back : Counter → Bytes → Counter
give_back m ip = put m ip (m ip - 1)

-- A client of the limiter: the accept callback, and the end of a connection.
pub data Call : Type 0 where
  opens : Bytes → Times → Call
  closes : Bytes → ℕ → Call

abbrev pub CallFits : Call → Type 0
CallFits (opens ip t) = Fits ip
CallFits (closes ip now) = Unit

abbrev pub CallsFit : List Call → Type 0
CallsFit [] = Unit
CallsFit (c ∷ cs) = CallFits c × CallsFit cs

-- The replies to the calls, in order.
pub run : Limits → List Call → List Bool
run s [] = []
run s (opens ip t ∷ cs) =
    let (s', reply) = check_connection_limit s (some ip) true t in reply ∷ run s' cs
run s (closes ip now ∷ cs) = run (release_connection s (some ip) now) cs

pub run_counter : ℕ → Counter → List Call → List Bool
unfolding acquire give_back
run_counter limit m [] = []
run_counter limit m (opens ip t ∷ cs) =
    let (m', reply) = acquire limit m ip in reply ∷ run_counter limit m' cs
run_counter limit m (closes ip now ∷ cs) = run_counter limit (give_back m ip) cs

-- The tables hold the counts `m` under the configuration `c`.
record Holds (c : LimitConfig) (m : Counter) (s : Limits) : Type 0 where
  valid : IsValid s
  settings : s.config ≡ c
  counts : (j : Bytes) → count s j ≡ m j

acquire_reply : (limit : ℕ) (m : Counter) (ip : Bytes) → (acquire limit m ip).1 ≡ ltb (m ip) limit
unfolding acquire
acquire_reply limit m ip = ground arith

acquire_count :
    (limit : ℕ) (m : Counter) (ip j : Bytes)
    → (acquire limit m ip).0 j ≡ (if ltb (m ip) limit && strcmp_eq ip j then m ip + 1 else m j)
unfolding acquire
acquire_count limit m ip j = elim (Bool-cases (ltb (m ip) limit)) [
  | inl h ↦ rw (h, acquire)
  | inr h ↦ rw (h, acquire)
]

opens-Holds :
    (c : LimitConfig) (m : Counter) (s : Limits) (ip : Bytes) (t : Times)
    → Holds c m s
    → c.enable_connection_limit ≡ true
    → Fits ip
    → ((check_connection_limit s (some ip) true t).1 ≡ (acquire c.max_connections_per_ip m ip).1)
      × Holds c
          (acquire c.max_connections_per_ip m ip).0
          (check_connection_limit s (some ip) true t).0
opens-Holds c m s ip t h on fits =
    let (reply, counts, valid) =
      check_connection_limit-Admits s ip t h.valid
        (ap (λ (k : LimitConfig). k.enable_connection_limit) h.settings ∙ on) fits in
    let said : (check_connection_limit s (some ip) true t).1 ≡ ltb (m ip) c.max_connections_per_ip =
      reply
      ∙ ap₂ ltb (h.counts ip) (ap (λ (k : LimitConfig). k.max_connections_per_ip) h.settings) in
    (
      said ∙ sym (acquire_reply c.max_connections_per_ip m ip),
      record {
        valid = valid;
        settings = check-config s ip true t ∙ h.settings;
        counts = λ j.
            counts j
            ∙ ap₂ (λ a b. if a && strcmp_eq ip j then b + 1 else count s j) said (h.counts ip)
            ∙ ap
                (λ b. if ltb (m ip) c.max_connections_per_ip && strcmp_eq ip j then m ip + 1 else b)
                (h.counts j)
            ∙ sym (acquire_count c.max_connections_per_ip m ip j);
      },
    )

closes-Holds :
    (c : LimitConfig) (m : Counter) (s : Limits) (ip : Bytes) (now : ℕ)
    → Holds c m s
    → c.enable_connection_limit ≡ true
    → Holds c (give_back m ip) (release_connection s (some ip) now)
unfolding give_back
closes-Holds c m s ip now h on =
    let (counts, valid) =
      release_connection_lem s ip now h.valid
        (ap (λ (k : LimitConfig). k.enable_connection_limit) h.settings ∙ on) in
    record {
      valid = valid;
      settings = release-config s ip now ∙ h.settings;
      counts = λ j.
          counts j ∙ ap₂ (λ a b. if strcmp_eq ip j then a - 1 else b) (h.counts ip) (h.counts j);
    }

run-Holds :
    (c : LimitConfig) (m : Counter) (s : Limits) (cs : List Call)
    → Holds c m s
    → c.enable_connection_limit ≡ true
    → CallsFit cs
    → run s cs ≡ run_counter c.max_connections_per_ip m cs
unfolding run run_counter
run-Holds c m s [] h on fits = refl
run-Holds c m s (opens ip t ∷ cs) h on fits =
    let (reply, h') = opens-Holds c m s ip t h on fits.0 in
    ap₂ ◌∷◌ reply (
      run-Holds c (acquire c.max_connections_per_ip m ip).0
        (check_connection_limit s (some ip) true t).0 cs h' on fits.1)
run-Holds c m s (closes ip now ∷ cs) h on fits =
    run-Holds c (give_back m ip) (release_connection s (some ip) now) cs
      (closes-Holds c m s ip now h on) on fits.1

-- Whatever the hash table does with records, chains and clean-ups, a client that opens and closes
-- connections gets the replies of a counter for each address. The limit is enabled, the addresses
-- fit their fields, and memory is not exhausted.
pub run_refines :
    (s : Limits) (cs : List Call)
    → IsValid s
    → s.enable_connection_limit ≡ true
    → CallsFit cs
    → run s cs ≡ run_counter s.max_connections_per_ip (count s) cs
run_refines s cs v on fits =
    run-Holds s.config (count s) s cs (record { valid = v; settings = refl; counts = λ j. refl }) on
      fits
