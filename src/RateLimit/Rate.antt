-- ===== src/RateLimit/Rate.antt =====
-- How many requests of one source bucket are allowed.
use archer.Prelude.{
  ℕ, ◌+◌, ◌-◌, ◌*◌, ◌≤◌, ◌≡◌, Bool, true, false, ◌&&◌, Option, none, some, List, [], ◌∷◌, Text,
  text_eq, text_eq_sound, text_eq_refl, arith, Bool-cases, inl, inr,
}
use archer.Net.{Net}
use archer.RateLimit.{
  token, capacity, Bucket, Buckets, Verdict, use_bucket, bucket_key, allow, serve, Chronological,
  end_time, capped,
}

-- The units that a bucket would hold at the time `now`.
pub credit : ℕ → Option Bucket → ℕ
credit now none = capacity
credit now (some b) = capped (b.tokens + (now - b.last_fill))

abbrev pub count : Bool → ℕ
count true = 1
count false = 0

-- A bucket never holds more than its capacity.
abbrev pub IsCapped : Option Bucket → Type 0
IsCapped none = Unit
IsCapped (some b) = b.tokens ≤ capacity

use_bucket-IsCapped :
    (now : ℕ) (o : Option Bucket) → IsCapped o → IsCapped (some (use_bucket now o).0)
unfolding use_bucket
use_bucket-IsCapped now none h = ground arith
use_bucket-IsCapped now (some b) h = ground arith

-- An allowed request costs one token of credit; none is ever overdrawn.
use_bucket-credit :
    (now : ℕ) (o : Option Bucket)
    → IsCapped o
    → token * count (use_bucket now o).1.allowed + credit now (some (use_bucket now o).0)
      ≤ credit now o
unfolding use_bucket credit
use_bucket-credit now none h = ground arith
use_bucket-credit now (some b) h = ground arith

-- Credit grows by one unit per nanosecond at most.
credit-later : (t u : ℕ) (o : Option Bucket) → t ≤ u → credit u o ≤ credit t o + (u - t)
unfolding credit
credit-later t u none h = omega arith
credit-later t u (some b) h = ground arith

credit-le : (t : ℕ) (o : Option Bucket) → credit t o ≤ capacity
unfolding credit
credit-le t none = omega arith
credit-le t (some b) = ground arith

end_time-le :
    (start : ℕ) (reqs : List (Text × ℕ)) → Chronological start reqs → start ≤ end_time start reqs
unfolding end_time
end_time-le start [] c = omega arith
end_time-le start ((src, now) ∷ rest) c = omega (arith, end_time-le now rest c.1)

module _ (net : Net) where
  -- how many requests of the source bucket k were allowed
  unfoldable pub admitted : Text → List (Text × ℕ) → List Verdict → ℕ
  admitted k [] vs = 0
  admitted k (r ∷ rs) [] = 0
  admitted k ((src, now) ∷ rs) (v ∷ vs) =
      count (text_eq (bucket_key net src) k && v.allowed) + admitted k rs vs

  allow-IsCapped :
      (now : ℕ) (m : Buckets) (src k : Text)
      → ((j : Text) → IsCapped (m j))
      → IsCapped ((allow net now m src).0 k)
  unfolding allow
  allow-IsCapped now m src k h =
      ground (arith, h k, use_bucket-IsCapped now (m (bucket_key net src)) (h (bucket_key net src)))

  allow-credit :
      (now : ℕ) (m : Buckets) (src k : Text)
      → IsCapped (m k)
      → text_eq k [] ≡ false
      → token * count (text_eq (bucket_key net src) k && (allow net now m src).1.allowed)
          + credit now ((allow net now m src).0 k)
        ≤ credit now (m k)
  unfolding allow
  allow-credit now m src k h n = elim (Bool-cases (text_eq (bucket_key net src) k)) [
    | inl e ↦
        let same = text_eq_sound (bucket_key net src) k e in
        rw (same, n, text_eq_refl k) (use_bucket-credit now (m k) h)
    | inr e ↦ rw e (ground (arith, e))
  ]

  -- From a limiter whose buckets are within capacity: the tokens of the allowed requests of a source
  -- bucket are paid by what it held at the start and by one unit per nanosecond since.
  serve-credit :
      (start : ℕ) (m : Buckets) (reqs : List (Text × ℕ)) (k : Text)
      → ((j : Text) → IsCapped (m j))
      → text_eq k [] ≡ false
      → Chronological start reqs
      → token * admitted k reqs (serve net m reqs)
        ≤ credit start (m k) + (end_time start reqs - start)
  unfolding serve admitted end_time
  serve-credit start m [] k h n c = omega arith
  serve-credit start m ((src, now) ∷ rest) k h n c =
      let (m', v) = allow net now m src in
      omega (
        arith,
        allow-credit now m src k (h k) n,
        credit-later start now (m k) c.0,
        end_time-le now rest c.1,
        serve-credit now m' rest k (λ j. allow-IsCapped now m src j h) n c.1,
      )

  -- For a limiter whose buckets hold at most their capacity, a source bucket with a key, and a
  -- log in the order of its times: at most ten requests of the bucket are allowed, and one more
  -- for every six seconds that the log lasts.
  pub serve_rate :
      (start : ℕ) (m : Buckets) (reqs : List (Text × ℕ)) (k : Text)
      → ((j : Text) → IsCapped (m j))
      → text_eq k [] ≡ false
      → Chronological start reqs
      → token * admitted k reqs (serve net m reqs) ≤ 10 * token + (end_time start reqs - start)
  serve_rate start m reqs k h n c =
      omega (arith, serve-credit start m reqs k h n c, credit-le start (m k))
