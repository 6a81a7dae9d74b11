-- ===== src/Examples/Limits.antt =====
-- The rate limiter at concrete requests: two from one address, in seconds of nanoseconds.
use archer.Prelude.{ℕ, ◌+◌, ◌-◌, ◌*◌, ◌≤◌, ◌≡◌, refl, arith, none, List, [], ◌∷◌, Text, codes}
use archer.Examples.Instances.{small_net}
use archer.RateLimit.{token, Buckets, serve, evict_idle, Chronological, end_time}
use archer.RateLimit.Rate.{admitted, serve_rate}
use archer.RateLimit.Eviction.{serve-evict_idle}

abbrev no_buckets : Buckets
no_buckets k = none

abbrev requests : List (Text × ℕ)
requests = (codes "10.0.0.5", 1000) ∷ (codes "10.0.0.5", 2000) ∷ []

in_order : Chronological 500 requests
in_order = (omega arith, (omega arith, tt))

serve-evict_idle_example :
    serve small_net (evict_idle 500 no_buckets) requests ≡ serve small_net no_buckets requests
serve-evict_idle_example = serve-evict_idle small_net 500 no_buckets requests (λ k b e. cc) in_order

serve_rate_example :
    token * admitted small_net (codes "10.0.0.5") requests (serve small_net no_buckets requests)
    ≤ 10 * token + (end_time 500 requests - 500)
serve_rate_example =
    serve_rate small_net 500 no_buckets requests (codes "10.0.0.5") (λ j. tt) refl in_order
