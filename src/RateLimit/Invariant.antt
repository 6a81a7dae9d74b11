-- ===== src/RateLimit/Invariant.antt =====
-- What holds of every bucket between two calls.
use archer.Prelude.{ℕ, ◌≤◌, Option, none, some, Text, arith}
use archer.Net.{Net}
use archer.RateLimit.{
  capacity, Bucket, Buckets, use_bucket, bucket_key, allow, evict_idle, unless_idle,
}

-- A bucket is within its capacity, was last filled no later than last seen, and last seen by `now`.
abbrev pub IsSound : ℕ → Option Bucket → Type 0
IsSound now none = Unit
IsSound now (some b) = (b.tokens ≤ capacity) × (b.last_fill ≤ b.last_seen) × (b.last_seen ≤ now)

use_bucket-IsSound :
    (t now : ℕ) (o : Option Bucket)
    → t ≤ now
    → IsSound t o
    → IsSound now (some (use_bucket now o).0)
unfolding use_bucket
use_bucket-IsSound t now none l h = ground arith
use_bucket-IsSound t now (some b) l h = ground arith

IsSound-later : (t now : ℕ) (o : Option Bucket) → t ≤ now → IsSound t o → IsSound now o
IsSound-later t now none l h = tt
IsSound-later t now (some b) l h = omega arith

-- If at a time every bucket is sound (it holds at most its capacity, was filled no later than
-- seen, and was not seen later than that time), every bucket is so after a request at that time
-- or later.
pub allow-IsSound :
    (net : Net) (t now : ℕ) (m : Buckets) (src k : Text)
    → t ≤ now
    → ((j : Text) → IsSound t (m j))
    → IsSound now ((allow net now m src).0 k)
unfolding allow
allow-IsSound net t now m src k l h = ground (
  arith,
  IsSound-later t now (m k) l (h k),
  use_bucket-IsSound t now (m (bucket_key net src)) l (h (bucket_key net src)),
)

-- So does an eviction, which drops exactly the buckets that were not seen for ten minutes.
pub evict_idle-IsSound :
    (t now : ℕ) (m : Buckets) (k : Text)
    → t ≤ now
    → ((j : Text) → IsSound t (m j))
    → IsSound now (evict_idle now m k)
unfolding evict_idle
evict_idle-IsSound t now m k l h = kept (m k) (h k)
  where
    kept : (o : Option Bucket) → IsSound t o → IsSound now (unless_idle now o)
    kept none g = tt
    kept (some b) g = ground arith
