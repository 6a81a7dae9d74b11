-- ===== src/Examples/Stages.antt =====
-- Two hosts that converge on one destination.
use archer.Prelude.{ℕ, ◌≡◌, refl, List, [], ◌∷◌, codes, All, length}
use archer.Examples.Instances.{small_floats, small_times}
use archer.Examples.Sets.{scan}
use archer.Finding.{Finding}
use archer.Staging.{
  gathered, add_beacons, add_beacon, is_external_beacon, is_private_ip, put_cluster, put_host,
  with_beacon, cluster_of, same_cluster, sort_clusters, insert_cluster, sort_participants,
  insert_participant, participant_lt, last_onset,
}
use archer.Staging.Rows.{
  compute_staging, cluster_rows, cluster_row, onset_spread_hours, default_staging_params,
}
use archer.Staging.Convergence.{Converges, compute_staging-Converges}
use archer.Query.Term.Vocabulary.{is_beacon_type}
use archer.Finding.Identity.{fingerprint, same}
use archer.Correlate.{text_lt}

abbrev first_host : Finding ℕ
first_host = record (scan 1 (codes "east")) {
  type = codes "Beacon";
  timestamp = codes "1970-01-02 12:00:00";
}

abbrev beacons : List (Finding ℕ)
beacons = first_host ∷ record first_host { id = 2; src_ip = codes "10.0.0.6" } ∷ []

compute_staging-Converges_example :
    All
      (Converges small_times small_floats
        (λ e l. 0)
        0
        beacons
        []
        []
        (λ sensor dst. 2)
        (default_staging_params small_times small_floats))
      (compute_staging small_times small_floats
        (λ e l. 0)
        0
        beacons
        []
        []
        (λ sensor dst. 2)
        (default_staging_params small_times small_floats))
compute_staging-Converges_example =
    compute_staging-Converges small_times small_floats (λ e l. 0) 0 beacons [] [] (λ sensor dst. 2)
      (default_staging_params small_times small_floats)

-- The two give one finding.
one_finding :
    length (
      compute_staging small_times small_floats
        (λ e l. 0)
        0
        beacons
        []
        []
        (λ sensor dst. 2)
        (default_staging_params small_times small_floats))
    ≡ 1
unfolding compute_staging cluster_rows cluster_row onset_spread_hours gathered add_beacons
    add_beacon is_external_beacon is_private_ip put_cluster put_host with_beacon cluster_of
    same_cluster sort_clusters insert_cluster sort_participants insert_participant participant_lt
    last_onset is_beacon_type fingerprint same text_lt
one_finding = refl
