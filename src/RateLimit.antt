-- ===== src/RateLimit.antt =====
-- The token buckets of internal/server/rate_limit.go.
-- Time is in nanoseconds. A bucket's float64 tokens are counted in units of which a token has
-- 6 000 000 000, so that one nanosecond refills one unit (10 tokens per minute); the rounding of
-- float64 is not modelled.
pub mod Invariant
pub mod Rate
pub mod Audit
pub mod Eviction
use archer.Prelude.{
  ℕ, ◌+◌, ◌-◌, ◌≤◌, Bool, true, false, Option, none, some, List, [], ◌∷◌, ◌++◌, Text, codes, ltb,
  leb, if◌then◌else◌, text_eq,
}
use archer.Net.{Net}

abbrev pub token : ℕ
token = 6_000_000_000

-- rateLimitBucketCapacity: 10 tokens
abbrev pub capacity : ℕ
capacity = 60_000_000_000

-- rateLimitIdleEviction: 10 minutes
abbrev pub idle_eviction : ℕ
idle_eviction = 600_000_000_000

pub record Bucket : Type 0 where
  pub tokens : ℕ
  pub last_fill : ℕ
  pub last_seen : ℕ
  pub trip_audited : Bool

-- the map `buckets`
abbrev pub Buckets : Type 0
Buckets = Text → Option Bucket

-- what allow returns
pub record Verdict : Type 0 where
  pub allowed : Bool
  pub should_audit : Bool

unfoldable pub fresh : ℕ → Bucket
fresh now = record { tokens = capacity; last_fill = now; last_seen = 0; trip_audited = false }

abbrev pub capped : ℕ → ℕ
capped n = if ltb capacity n then capacity else n

-- `if elapsed > 0 { … }` and the stamp of last_seen
unfoldable pub refill : ℕ → Bucket → Bucket
refill now b =
    if ltb b.last_fill now
    then record b {
      tokens = capped (b.tokens + (now - b.last_fill));
      last_fill = now;
      last_seen = now;
    }
    else record b { last_seen = now }

-- the decision on a refilled bucket
unfoldable pub spend : Bucket → Bucket × Verdict
spend b =
    if ltb b.tokens token
    then (
      record b { trip_audited = true },
      record { allowed = false; should_audit = if b.trip_audited then false else true },
    )
    else (
      record b { tokens = b.tokens - token; trip_audited = false },
      record { allowed = true; should_audit = false },
    )

-- one request on its bucket, which is made if there is none
unfoldable pub use_bucket : ℕ → Option Bucket → Bucket × Verdict
unfolding refill spend fresh
use_bucket now none = spend (refill now (fresh now))
use_bucket now (some b) = spend (refill now b)

unfoldable pub update : Buckets → Text → Bucket → Buckets
update m k b j = if text_eq k j then some b else m j

module _ (net : Net) where
  open net use {Ip, parse_ip, show_ip, to4, mask64}

  abbrev pub key_of_v4 : Ip → Option Ip → Text
  key_of_v4 ip (some ip4) = show_ip ip4
  key_of_v4 ip none = show_ip (mask64 ip) ++ codes "/64"

  abbrev pub key_of : Text → Option Ip → Text
  key_of src none = src
  key_of src (some ip) = key_of_v4 ip (to4 ip)

  -- bucketKey
  unfoldable pub bucket_key : Text → Text
  bucket_key src = if text_eq src [] then [] else key_of src (parse_ip src)

  abbrev pub pass : Verdict
  pass = record { allowed = true; should_audit = false }

  -- allow, at the time `now`
  unfoldable pub allow : ℕ → Buckets → Text → Buckets × Verdict
  unfolding update
  allow now m src =
      let k = bucket_key src in
      if text_eq k [] then (m, pass) else let (b, v) = use_bucket now (m k) in (update m k b, v)

  -- a nil limiter allows everything
  unfoldable pub allow_nil_safe : ℕ → Option Buckets → Text → Option Buckets × Verdict
  unfolding allow
  allow_nil_safe now none src = (none, pass)
  allow_nil_safe now (some m) src = let (m', v) = allow now m src in (some m', v)

  -- A log of requests, each a source and a time, and the verdicts in their order.
  unfoldable pub serve : Buckets → List (Text × ℕ) → List Verdict
  serve m [] = []
  serve m ((src, now) ∷ rest) = let (m', v) = allow now m src in v ∷ serve m' rest

abbrev pub unless_idle : ℕ → Option Bucket → Option Bucket
unless_idle now none = none
unless_idle now (some b) = if ltb b.last_seen (now - idle_eviction) then none else some b

-- evictIdle
unfoldable pub evict_idle : ℕ → Buckets → Buckets
evict_idle now m k = unless_idle now (m k)

-- The times of a log do not go back, and begin no earlier than `start`.
abbrev pub Chronological : ℕ → List (Text × ℕ) → Type 0
Chronological start [] = Unit
Chronological start ((src, now) ∷ rest) = (start ≤ now) × Chronological now rest

-- the time of the last request
unfoldable pub end_time : ℕ → List (Text × ℕ) → ℕ
end_time start [] = start
end_time start ((src, now) ∷ rest) = end_time now rest
