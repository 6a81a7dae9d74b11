-- ===== src/RateLimit/Audit.antt =====
-- How many refusals of one source bucket are audited.
use archer.Prelude.{
  ℕ, ◌+◌, ◌≤◌, ◌≡◌, Bool, true, false, ◌&&◌, Option, none, some, List, [], ◌∷◌, Text, text_eq,
  text_eq_sound, text_eq_refl, arith, Bool-cases, inl, inr,
}
use archer.Net.{Net}
use archer.RateLimit.{Bucket, Buckets, Verdict, use_bucket, bucket_key, allow, serve}
use archer.RateLimit.Rate.{admitted, count}

-- The bucket has been refused a request, and audited, since it last allowed one.
abbrev pub tripped : Option Bucket → Bool
tripped none = false
tripped (some b) = b.trip_audited

-- An audit trips the bucket, and only an allowed request clears it.
use_bucket-trip :
    (now : ℕ) (o : Option Bucket)
    → count (use_bucket now o).1.should_audit + count (tripped o)
      ≤ count (tripped (some (use_bucket now o).0)) + count (use_bucket now o).1.allowed
unfolding use_bucket
use_bucket-trip now none = ground arith
use_bucket-trip now (some b) = ground arith

count-le : (b : Bool) → count b ≤ 1
count-le true = omega arith
count-le false = omega arith

module _ (net : Net) where
  -- how many requests of the source bucket k are to be audited
  pub audited : Text → List (Text × ℕ) → List Verdict → ℕ
  audited k [] vs = 0
  audited k (r ∷ rs) [] = 0
  audited k ((src, now) ∷ rs) (v ∷ vs) =
      count (text_eq (bucket_key net src) k && v.should_audit) + audited k rs vs

  allow-trip :
      (now : ℕ) (m : Buckets) (src k : Text)
      → text_eq k [] ≡ false
      → count (text_eq (bucket_key net src) k && (allow net now m src).1.should_audit)
          + count (tripped (m k))
        ≤ count (tripped ((allow net now m src).0 k))
          + count (text_eq (bucket_key net src) k && (allow net now m src).1.allowed)
  unfolding allow
  allow-trip now m src k n = elim (Bool-cases (text_eq (bucket_key net src) k)) [
    | inl e ↦
        let same = text_eq_sound (bucket_key net src) k e in
        rw (same, n, text_eq_refl k) (use_bucket-trip now (m k))
    | inr e ↦ rw e (ground (arith, e))
  ]

  -- For a source bucket with a key and any log: there is at most one audit more than allowed
  -- requests, and no more than allowed requests if a trip has been audited before.
  pub serve_audits :
      (m : Buckets) (reqs : List (Text × ℕ)) (k : Text)
      → text_eq k [] ≡ false
      → audited k reqs (serve net m reqs) + count (tripped (m k))
        ≤ 1 + admitted net k reqs (serve net m reqs)
  unfolding serve audited admitted
  serve_audits m [] k n = omega (arith, count-le (tripped (m k)))
  serve_audits m ((src, now) ∷ rest) k n =
      let (m', v) = allow net now m src in
      omega (arith, allow-trip now m src k n, serve_audits m' rest k n)
