-- ===== src/RateLimit/Eviction.antt =====
-- The eviction of idle buckets changes no verdict.
use archer.Prelude.{
  ℕ, ◌+◌, ◌-◌, ◌≤◌, ◌≡◌, inl, inr, refl, sym, ◌∙◌, ap, Option, none, some, List, [], ◌∷◌, Text, ltb,
  text_eq, arith, Bool-cases,
}
use archer.Net.{Net}
use archer.RateLimit.{
  capacity, idle_eviction, Bucket, Buckets, Verdict, use_bucket, bucket_key, allow, serve,
  Chronological, unless_idle, evict_idle,
}

-- A bucket that by the time `now` has refilled whatever it held.
abbrev Stale : ℕ → Option Bucket → Type 0
Stale now none = Unit
Stale now (some b) = b.last_fill + capacity ≤ now

-- Two entries that no request from `now` on can tell apart.
data Alike (now : ℕ) (o p : Option Bucket) : Type 0 where
  same : o ≡ p → Alike now o p
  gone : o ≡ none → Stale now p → Alike now o p

-- A full bucket and no bucket answer the next request alike, and leave the same bucket.
use_bucket-Stale :
    (now : ℕ) (p : Option Bucket) → Stale now p → use_bucket now p ≡ use_bucket now none
unfolding use_bucket
use_bucket-Stale now none h = refl
use_bucket-Stale now (some b) h = ground arith

use_bucket-Alike :
    (now : ℕ) (o p : Option Bucket) → Alike now o p → use_bucket now o ≡ use_bucket now p
use_bucket-Alike now o p (same e) = ap (use_bucket now) e
use_bucket-Alike now o p (gone e h) = ap (use_bucket now) e ∙ sym (use_bucket-Stale now p h)

Alike-later : (t u : ℕ) (o p : Option Bucket) → t ≤ u → Alike t o p → Alike u o p
Alike-later t u o p l (same e) = same e
Alike-later t u o none l (gone e h) = gone e tt
Alike-later t u o (some b) l (gone e h) = gone e (omega arith)

module _ (net : Net) where
  allow-verdict :
      (now : ℕ) (m n : Buckets) (src : Text)
      → ((k : Text) → Alike now (m k) (n k))
      → (allow net now m src).1 ≡ (allow net now n src).1
  unfolding allow
  allow-verdict now m n src h = ground (arith, use_bucket-Alike now _ _ (h (bucket_key net src)))

  allow-Alike :
      (now : ℕ) (m n : Buckets) (src k : Text)
      → ((k : Text) → Alike now (m k) (n k))
      → Alike now ((allow net now m src).0 k) ((allow net now n src).0 k)
  unfolding allow
  allow-Alike now m n src k h = elim (Bool-cases (text_eq (bucket_key net src) [])) [
    | inl e ↦ rw e (h k)
    | inr e ↦ elim (Bool-cases (text_eq (bucket_key net src) k)) [
      | inl f ↦
          rw (e, f)
            (same (
              ap (λ (r : Bucket × Verdict). some r.0)
                (use_bucket-Alike now _ _ (h (bucket_key net src)))))
      | inr f ↦ rw (e, f) (h k)
    ]
  ]

  serve-Alike :
      (start : ℕ) (m n : Buckets) (reqs : List (Text × ℕ))
      → ((k : Text) → Alike start (m k) (n k))
      → Chronological start reqs
      → serve net m reqs ≡ serve net n reqs
  unfolding serve
  serve-Alike start m n [] h c = refl
  serve-Alike start m n ((src, now) ∷ rest) h c =
      let later = λ (k : Text). Alike-later start now (m k) (n k) c.0 (h k) in
      let after = λ (k : Text). allow-Alike now m n src k later in
      cc (
        allow-verdict now m n src later,
        serve-Alike now (allow net now m src).0 (allow net now n src).0 rest after c.1,
      )

  -- For a limiter whose buckets were last filled no later than they were last seen, and a log of
  -- requests in the order of their times, none before the eviction: evicting the idle buckets
  -- changes no verdict.
  pub serve-evict_idle :
      (now : ℕ) (m : Buckets) (reqs : List (Text × ℕ))
      → ((k : Text) (b : Bucket) → m k ≡ some b → b.last_fill ≤ b.last_seen)
      → Chronological now reqs
      → serve net (evict_idle now m) reqs ≡ serve net m reqs
  unfolding evict_idle
  serve-evict_idle now m reqs h c =
      serve-Alike now (evict_idle now m) m reqs (λ k. idle (m k) (h k)) c
    where
      idle :
          (o : Option Bucket)
          → ((b : Bucket) → o ≡ some b → b.last_fill ≤ b.last_seen)
          → Alike now (unless_idle now o) o
      idle none f = same refl
      idle (some b) f = elim (Bool-cases (ltb b.last_seen (now - idle_eviction))) [
        | inl e ↦ gone (rw e) (ground (arith, f b refl))
        | inr e ↦ same (rw e)
      ]
