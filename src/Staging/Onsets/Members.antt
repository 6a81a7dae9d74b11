-- ===== src/Staging/Onsets/Members.antt =====
-- The hosts of a cluster of computeStaging in internal/analysis/stage.go, and their onsets.
use archer.Prelude.{
  some, List, [], ◌∷◌, Text, ◌≡◌, sym, ap, ◌∙◌, text_eq, text_eq_sound, All, All-map, All-zip, Some,
  arith, Bool-cases, inl, inr,
}
use archer.Finding.{Finding}
use archer.Staging.{ClusterKey, Participant, Clusters, gathered, sort_participants}
use archer.Staging.Seed.{DistinctHosts, sort_participants-All, sort_participants-Some}
use archer.Staging.Onsets.{hosts_at, onset_at, hosts_at_each, onset_at_each}
use archer.Staging.Onsets.Earliest.{
  first_beacons, earliest, earliest_each, IsOnset, earliest-IsOnset, gathered-Follows,
}

is_listed :
    (src onset : Text) (ps : List Participant)
    → onset_at src ps ≡ some onset
    → Some (λ (p : Participant). p.src ≡ src) ps
unfolding onset_at
is_listed src onset [] h = absurd (cc)
is_listed src onset (p ∷ ps) h = elim (Bool-cases (text_eq p.src src)) [
  | inl e ↦ inl (text_eq_sound p.src src e)
  | inr e ↦ inr (is_listed src onset ps (ground (arith, e, h)))
]

module _ {Float : Type 0} where
  -- Each host has its onset, and each beacon to the destination has its host.
  abbrev pub HasHosts : List (Finding Float) → ClusterKey → List Participant → Type 0
  HasHosts fs k ps =
      All (λ (p : Participant). IsOnset k p.src p.onset fs) ps
      × All
          (λ (f : Finding Float).
            f.sensor ≡ k.sensor
            → f.dst_ip ≡ k.dst
            → Some (λ (p : Participant). p.src ≡ f.src_ip) ps)
          fs

  pub sort_participants-HasHosts :
      (fs : List (Finding Float)) (k : ClusterKey) (ps : List Participant)
      → HasHosts fs k ps
      → HasHosts fs k (sort_participants ps)
  sort_participants-HasHosts fs k ps (a, b) = (
    sort_participants-All (λ (p : Participant). IsOnset k p.src p.onset fs) ps a,
    All-map
        (λ (f : Finding Float).
          f.sensor ≡ k.sensor → f.dst_ip ≡ k.dst → Some (λ (p : Participant). p.src ≡ f.src_ip) ps)
        (λ (f : Finding Float).
          f.sensor ≡ k.sensor
          → f.dst_ip ≡ k.dst
          → Some (λ (p : Participant). p.src ≡ f.src_ip) (sort_participants ps))
        fs (λ f h s d. sort_participants-Some (λ (p : Participant). p.src ≡ f.src_ip) ps (h s d)) b,
  )

  module _ (m : Clusters) (fs : List (Finding Float))
      (onsets : (k : ClusterKey) (src : Text)
        → onset_at src (hosts_at k m) ≡ earliest k src fs) where
    cluster_hosts :
        (k : ClusterKey) (ps : List Participant)
        → DistinctHosts ps
        → hosts_at k m ≡ ps
        → HasHosts fs k ps
    cluster_hosts k ps d e = (
      All-map (λ (p : Participant). onset_at p.src ps ≡ some p.onset)
          (λ (p : Participant). IsOnset k p.src p.onset fs) ps
          (λ p h.
            earliest-IsOnset k p.src p.onset fs (sym (onsets k p.src) ∙ ap (onset_at p.src) e ∙ h))
          (onset_at_each ps d),
      All-map
          (λ (f : Finding Float).
            f.sensor ≡ k.sensor → f.dst_ip ≡ k.dst → (o : Text) × (earliest k f.src_ip fs ≡ some o))
          (λ (f : Finding Float).
            f.sensor ≡ k.sensor
            → f.dst_ip ≡ k.dst
            → Some (λ (p : Participant). p.src ≡ f.src_ip) ps)
          fs
          (λ f h s c.
            let (o, r) = h s c in
            is_listed f.src_ip o ps (sym (ap (onset_at f.src_ip) e) ∙ onsets k f.src_ip ∙ r))
          (earliest_each k fs),
    )

  pub gathered-HasHosts :
      (fresh hist : List (Finding Float))
      → All
          (λ (c : ClusterKey × List Participant). DistinctHosts c.1)
          (gathered fresh hist).clusters
      → All
          (λ (c : ClusterKey × List Participant). HasHosts (first_beacons fresh hist) c.0 c.1)
          (gathered fresh hist).clusters
  gathered-HasHosts fresh hist d =
      let g = gathered-Follows fresh hist in
      let m = (gathered fresh hist).clusters in
      All-zip (λ (c : ClusterKey × List Participant). DistinctHosts c.1)
        (λ (c : ClusterKey × List Participant). hosts_at c.0 m ≡ c.1)
        (λ (c : ClusterKey × List Participant). HasHosts (first_beacons fresh hist) c.0 c.1) m
        (λ c d e. cluster_hosts m (first_beacons fresh hist) g.onsets c.0 c.1 d e) d
        (hosts_at_each m g.keys)
