-- ===== src/Staging/Convergence.antt =====
-- What stands behind a finding of computeStaging in internal/analysis/stage.go.
use archer.Prelude.{
  ℕ, Bool, true, false, Option, none, some, List, [], ◌∷◌, ◌++◌, Text, ltb, ◌≡◌, refl, ap, ◌∙◌,
  if◌then◌else◌, length, All, All-map, All-zip, Some, Some-left, Some-right, Bool-cases, inl, inr,
}
use archer.Net.{Times, Floats}
use archer.Finding.{Finding}
use archer.Staging.{
  StagingParams, ClusterKey, Participant, Clusters, gathered, staging_corroboration, sort_clusters,
  sort_participants, last_onset, cluster_of,
}
use archer.Staging.Rows.{
  is_some, in_window, onset_spread_hours, is_host, staging_row, ordered_row, cluster_row, and_row,
  cluster_rows, compute_staging,
}
use archer.Staging.Seed.{
  IsOrdered, DistinctHosts, sort_participants-IsOrdered, sort_participants-All,
  length-sort_participants, sort_participants-DistinctHosts,
}
use archer.Staging.Hosts.{IsCluster, Allowed, gathered-IsCluster, sort_clusters-All, CountsFor}
use archer.Staging.Onsets.Earliest.{first_beacons}
use archer.Staging.Onsets.Members.{HasHosts, sort_participants-HasHosts, gathered-HasHosts}

abbrev HasHost : {Float : Type 0} → List (Finding Float) → ClusterKey → Text → Type 0
HasHost all k src = Some (CountsFor k src) all

-- Each finding counts for its own host.
own_host :
    {Float : Type 0} (all fs : List (Finding Float))
    → ((P : Finding Float → Type 0) → Some P fs → Some P all)
    → All (Allowed (HasHost all)) fs
unfolding cluster_of
own_host all [] k = tt
own_host all (f ∷ fs) k = (
  λ h. k (CountsFor (cluster_of f) f.src_ip) (inl (h, refl, refl, refl)),
  own_host all fs (λ P s. k P (inr s)),
)

module _ (times : Times) (floats : Floats) where
  open times use {Time}
  open floats use {Float}

  module _ (hours : Time → Time → Float) (zero_float : Float)
      (fresh hist related : List (Finding Float)) (dst_sources : Text → Text → ℕ)
      (p : StagingParams Float) where
    -- Different hosts, as many as are asked for, have external beacons to the destination, which is
    -- rare; they are all the hosts with a counted beacon to it, each with the earliest timestamp of
    -- its counted beacons as its onset, in the order of the onsets. The source is the first, the first
    -- and the last onset are not further apart than the window, and the score is that of corroboration
    -- where a related finding corroborates, the plain one elsewhere.
    pub record Converges (f : Finding Float) : Type 0 where
      pub seed : Participant
      pub others : List Participant
      pub enough : ltb (length (seed ∷ others)) p.min_hosts ≡ false
      pub distinct : DistinctHosts (seed ∷ others)
      pub hosts :
          All
            (λ (q : Participant).
              Some (CountsFor (record { sensor = f.sensor; dst = f.dst_ip }) q.src) (fresh ++ hist))
            (seed ∷ others)
      pub rare : ltb p.max_dst_sources (dst_sources f.sensor f.dst_ip) ≡ false
      pub source : (f.src_ip ≡ seed.src) × (f.timestamp ≡ seed.onset)
      pub ordered : IsOrdered (seed ∷ others)
      pub onsets :
          HasHosts
            (first_beacons fresh hist)
            (record { sensor = f.sensor; dst = f.dst_ip })
            (seed ∷ others)
      pub window :
          in_window times floats p
            (onset_spread_hours times floats hours seed.onset (last_onset seed others))
          ≡ true
      pub tier : f.score ≡ (
          if is_some (staging_corroboration f.sensor f.dst_ip (is_host (seed ∷ others)) related)
          then p.score_corrob
          else p.score)

    abbrev AllConverge : Option (Finding Float) → Type 0
    AllConverge none = Unit
    AllConverge (some f) = Converges f

    if_some :
        (b : Bool) (f : Finding Float)
        → (b ≡ true → Converges f)
        → AllConverge (if b then some f else none)
    if_some true f h = h refl
    if_some false f h = tt

    ordered_row-Converges :
        (k : ClusterKey) (ps : List Participant)
        → ltb (length ps) p.min_hosts ≡ false
        → ltb p.max_dst_sources (dst_sources k.sensor k.dst) ≡ false
        → IsCluster (HasHost (fresh ++ hist)) (k, ps)
        → HasHosts (first_beacons fresh hist) k ps
        → IsOrdered ps
        → AllConverge (ordered_row times floats hours zero_float p related k ps)
    unfolding staging_row
    ordered_row-Converges k [] n r c h o = tt
    ordered_row-Converges k (seed ∷ others) n r c h o =
        if_some
          (in_window times floats p
            (onset_spread_hours times floats hours seed.onset (last_onset seed others)))
          (staging_row times floats zero_float p k seed others
            (staging_corroboration k.sensor k.dst (is_host (seed ∷ others)) related))
          λ w. record {
            seed = seed;
            others = others;
            enough = n;
            distinct = c.1;
            hosts = c.0;
            rare = r;
            source = (refl, refl);
            ordered = o;
            onsets = h;
            window = w;
            tier = refl;
          }

    abbrev IsFull : ClusterKey × List Participant → Type 0
    IsFull c = IsCluster (HasHost (fresh ++ hist)) c × HasHosts (first_beacons fresh hist) c.0 c.1

    cluster_row-Converges :
        (c : ClusterKey × List Participant)
        → IsFull c
        → AllConverge (cluster_row times floats hours zero_float dst_sources p related c)
    unfolding cluster_row
    cluster_row-Converges (k, ps) (h, hosts) = elim (Bool-cases (ltb (length ps) p.min_hosts)) [
      | inl a ↦ rw a tt
      | inr a ↦ rw a (elim (Bool-cases (ltb p.max_dst_sources (dst_sources k.sensor k.dst))) [
        | inl b ↦ rw b tt
        | inr b ↦ rw b (
            ordered_row-Converges k (sort_participants ps)
              (ap (λ n. ltb n p.min_hosts) (length-sort_participants ps) ∙ a) b
              (
                sort_participants-All (λ (q : Participant). HasHost (fresh ++ hist) k q.src) ps h.0,
                sort_participants-DistinctHosts ps h.1,
              )
              (sort_participants-HasHosts (first_beacons fresh hist) k ps hosts)
              (sort_participants-IsOrdered ps))
      ])
    ]

    and_row-Converges :
        (o : Option (Finding Float)) (fs : List (Finding Float))
        → AllConverge o
        → All Converges fs
        → All Converges (and_row times floats o fs)
    and_row-Converges none fs h a = a
    and_row-Converges (some f) fs h a = (h, a)

    cluster_rows-Converges :
        (m : Clusters)
        → All IsFull m
        → All Converges (cluster_rows times floats hours zero_float dst_sources p related m)
    unfolding cluster_rows
    cluster_rows-Converges [] a = tt
    cluster_rows-Converges (c ∷ m) (h, a) =
        and_row-Converges _ _ (cluster_row-Converges c h) (cluster_rows-Converges m a)

    gathered-IsFull : All IsFull (gathered fresh hist).clusters
    gathered-IsFull =
        let m = (gathered fresh hist).clusters in
        let are =
          gathered-IsCluster (HasHost (fresh ++ hist)) fresh hist
            (own_host (fresh ++ hist) fresh (λ P s. Some-left P fresh hist s))
            (own_host (fresh ++ hist) hist (λ P s. Some-right P fresh hist s)) in
        All-zip (IsCluster (HasHost (fresh ++ hist)))
          (λ (c : ClusterKey × List Participant). HasHosts (first_beacons fresh hist) c.0 c.1)
          IsFull m (λ c h k. (h, k)) are
          (gathered-HasHosts fresh hist (
            All-map (IsCluster (HasHost (fresh ++ hist)))
              (λ (c : ClusterKey × List Participant). DistinctHosts c.1) m (λ c h. h.1) are))

    -- For any findings, thresholds and counts of sources: behind each finding of computeStaging stand
    -- different hosts, at least as many as the threshold, each with an external beacon to the
    -- finding's destination among the findings given. A beacon counts if it is external and none
    -- before it, in the run and then in the set before, has its fingerprint. The hosts are all those
    -- with a beacon to the destination that counts, the onset of each is the earliest timestamp of
    -- these beacons of the host, and they stand in the order of their onsets. The destination has no
    -- more sources than allowed, the finding's source and time are those of the first host, the spread
    -- from the first to the last onset is within the window, and the score is that of corroboration
    -- where a related finding corroborates, the plain one elsewhere.
    pub compute_staging-Converges :
        All Converges
          (compute_staging times floats hours zero_float fresh hist related dst_sources p)
    unfolding compute_staging
    compute_staging-Converges =
        cluster_rows-Converges (sort_clusters (gathered fresh hist).clusters)
          (sort_clusters-All IsFull (gathered fresh hist).clusters gathered-IsFull)
