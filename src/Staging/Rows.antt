-- ===== src/Staging/Rows.antt =====
-- The rows of computeStaging and detectStaging of internal/analysis/stage.go.
use archer.Prelude.{
  ℕ, Bool, true, false, not, Option, none, some, List, [], ◌∷◌, ◌++◌, Text, codes, ltb,
  if◌then◌else◌, text_eq, any, length,
}
use archer.Net.{Times, Floats}
use archer.Finding.{Finding, zero_finding}
use archer.Query.Term.Vocabulary.{is_beacon_type}
use archer.Correlate.{history}
use archer.Correlate.Rows.{Analyzer, add_finding, sort_ints}
use archer.Staging.{
  StagingParams, ClusterKey, Participant, Clusters, gathered, staging_corroboration, sort_clusters,
  sort_participants, last_onset, fresh_ids, staging_detail,
}

-- the types that isStagingCorroborationType accepts
abbrev pub staging_corroboration_types : List Text
staging_corroboration_types =
    codes "Lateral Movement"
    ∷ codes "TI Hit (IP)"
    ∷ codes "Malicious JA3"
    ∷ codes "Malicious JA4"
    ∷ []

unfoldable pub is_staging_corroboration_type : Text → Bool
is_staging_corroboration_type t = any (text_eq t) staging_corroboration_types

abbrev pub is_some : Option Text → Bool
is_some none = false
is_some (some t) = true

abbrev pub severity_by : Bool → Text
severity_by corrob = if corrob then codes "CRITICAL" else codes "HIGH"

-- A participant's host, as a key of participantSet.
unfoldable pub is_host : List Participant → Text → Bool
is_host ps t = any (λ (p : Participant). text_eq p.src t) ps

module _ (times : Times) (floats : Floats) where
  open times use {Time, utc, parse_datetime}
  open floats use {Float, lt, of_int}

  abbrev pub hours_from : (Time → Time → Float) → Option Time → Option Time → Option Float
  hours_from hours none l = none
  hours_from hours (some e) none = none
  hours_from hours (some e) (some l) = some (hours e l)

  -- onsetSpreadHours; `hours` is `l.Sub(e).Hours()`
  unfoldable pub onset_spread_hours : (Time → Time → Float) → Text → Text → Option Float
  onset_spread_hours hours earliest latest =
      hours_from hours (parse_datetime earliest utc) (parse_datetime latest utc)

  abbrev pub in_window : StagingParams Float → Option Float → Bool
  in_window p none = false
  in_window p (some spread) = not (lt p.window_hours spread)

  -- the finding of a cluster whose ordered participants are the seed and others
  unfoldable pub staging_row :
      Float
      → StagingParams Float
      → ClusterKey
      → Participant
      → List Participant
      → Option Text
      → Finding Float
  staging_row zero_float p k seed others reason = record (zero_finding zero_float) {
    type = codes "Multi-Stage Beacon";
    severity = severity_by (is_some reason);
    score = if is_some reason then p.score_corrob else p.score;
    sensor = k.sensor;
    src_ip = seed.src;
    dst_ip = k.dst;
    timestamp = seed.onset;
    detail = staging_detail k.dst (seed ∷ others) reason;
    correlations = sort_ints (fresh_ids (seed ∷ others));
  }

  -- one turn of the loop over the clusters; no cluster is empty
  abbrev pub ordered_row :
      (Time → Time → Float)
      → Float
      → StagingParams Float
      → List (Finding Float)
      → ClusterKey
      → List Participant
      → Option (Finding Float)
  ordered_row hours zero_float p related k [] = none
  ordered_row hours zero_float p related k (seed ∷ others) =
      if in_window p (onset_spread_hours hours seed.onset (last_onset seed others))
      then some (
          staging_row zero_float p k seed others
            (staging_corroboration k.sensor k.dst (is_host (seed ∷ others)) related))
      else none

  unfoldable pub cluster_row :
      (Time → Time → Float)
      → Float
      → (Text → Text → ℕ)
      → StagingParams Float
      → List (Finding Float)
      → ClusterKey × List Participant
      → Option (Finding Float)
  cluster_row hours zero_float dst_sources p related (k, ps) =
      if ltb (length ps) p.min_hosts
      then none
      else if ltb p.max_dst_sources (dst_sources k.sensor k.dst)
      then none
      else ordered_row hours zero_float p related k (sort_participants ps)

  abbrev pub and_row : Option (Finding Float) → List (Finding Float) → List (Finding Float)
  and_row none fs = fs
  and_row (some f) fs = f ∷ fs

  unfoldable pub cluster_rows :
      (Time → Time → Float)
      → Float
      → (Text → Text → ℕ)
      → StagingParams Float
      → List (Finding Float)
      → Clusters
      → List (Finding Float)
  cluster_rows hours zero_float dst_sources p related [] = []
  cluster_rows hours zero_float dst_sources p related (c ∷ m) =
      and_row (cluster_row hours zero_float dst_sources p related c)
        (cluster_rows hours zero_float dst_sources p related m)

  unfoldable pub compute_staging :
      (Time → Time → Float)
      → Float
      → List (Finding Float)
      → List (Finding Float)
      → List (Finding Float)
      → (Text → Text → ℕ)
      → StagingParams Float
      → List (Finding Float)
  compute_staging hours zero_float fresh hist related dst_sources p =
      cluster_rows hours zero_float dst_sources p related
        (sort_clusters (gathered fresh hist).clusters)

  -- defaultStagingParams
  abbrev pub default_staging_params : StagingParams Float
  default_staging_params = record {
    min_hosts = 2;
    max_dst_sources = 6;
    window_hours = of_int 48;
    score = 80;
    score_corrob = 96;
  }

  -- the beacons of some findings, and those that corroborate and are none
  unfoldable pub beacons_of : List (Finding Float) → List (Finding Float)
  beacons_of [] = []
  beacons_of (f ∷ fs) = let rest = beacons_of fs in if is_beacon_type f.type then f ∷ rest else rest

  unfoldable pub related_of : List (Finding Float) → List (Finding Float)
  related_of [] = []
  related_of (f ∷ fs) =
      let rest = related_of fs in
      if is_beacon_type f.type
      then rest
      else if is_staging_corroboration_type f.type
      then f ∷ rest
      else rest

  unfoldable pub add_all : (Text → Text) → List (Finding Float) → Analyzer Float → Analyzer Float
  add_all sensor_of [] a = a
  add_all sensor_of (f ∷ fs) a = add_all sensor_of fs (add_finding sensor_of f a)

  -- detectStaging; `dst_sources` counts the sources in the prevalence map of a sensor
  unfoldable pub detect_staging :
      (Time → Time → Float)
      → Float
      → (Text → Text)
      → (Text → Text → ℕ)
      → Analyzer Float
      → Analyzer Float
  detect_staging hours zero_float sensor_of dst_sources a =
      let old = history a.findings_provider in
      add_all sensor_of
        (compute_staging hours zero_float (beacons_of a.findings) (beacons_of old)
          (related_of a.findings ++ related_of old) dst_sources default_staging_params)
        a
