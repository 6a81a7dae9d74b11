-- ===== src/Staging/Onsets/Earliest.antt =====
-- The beacons that computeStaging of internal/analysis/stage.go counts, and the earliest of a host.
use archer.Prelude.{
  Bool, true, false, ◌&&◌, Option, none, some, List, [], ◌∷◌, map, Text, ◌≡◌, refl, subst, ap, ◌∙◌,
  if◌then◌else◌, text_eq, text_eq_sound, text_eq_refl, any, All, All-map, Some, arith, Bool-cases,
  Option-cases, inl, inr,
}
use archer.Finding.{Finding}
use archer.Finding.Identity.{same, fingerprint}
use archer.Correlate.{text_lt}
use archer.Staging.{
  ClusterKey, Clusters, Gathered, same_cluster, cluster_of, is_external_beacon, add_beacon,
  add_beacons, gathered, put_cluster,
}
use archer.Correlate.Order.{text_lt_irrefl, text_lt_asym, text_lt_chain}
use archer.Staging.Hosts.{same_cluster-eq}
use archer.Staging.Onsets.{
  hosts_at, onset_at, sooner, onset_at-put_host, hosts_at-put_cluster, DistinctKeys,
  put_cluster-DistinctKeys,
}

module _ {Float : Type 0} where
  -- The external beacons of a list and of those before it, the latest first: of the beacons with one
  -- fingerprint the one that came first.
  pub counted : List (Finding Float) → List (Finding Float) → List (Finding Float)
  counted before [] = before
  counted before (f ∷ fs) =
      counted
        (if is_external_beacon f
          then (if any (λ g. same (fingerprint f) (fingerprint g)) before
              then before
              else f ∷ before)
          else before)
        fs

  -- The findings of the run come before those of the set before.
  pub first_beacons : List (Finding Float) → List (Finding Float) → List (Finding Float)
  first_beacons fresh hist = counted (counted [] fresh) hist

  abbrev pub IsAt : ClusterKey → Text → Finding Float → Type 0
  IsAt k src f = (f.sensor ≡ k.sensor) × (f.dst_ip ≡ k.dst) × (f.src_ip ≡ src)

  abbrev is_at : ClusterKey → Text → Finding Float → Bool
  is_at k src f = same_cluster (cluster_of f) k && text_eq f.src_ip src

  is_at-IsAt :
      (k : ClusterKey) (src : Text) (f : Finding Float) → is_at k src f ≡ true → IsAt k src f
  unfolding cluster_of
  is_at-IsAt k src f h =
      let e : cluster_of f ≡ k = same_cluster-eq (cluster_of f) k (ground arith) in
      (
        ap (λ (j : ClusterKey). j.sensor) e,
        ap (λ (j : ClusterKey). j.dst) e,
        text_eq_sound f.src_ip src (ground arith),
      )

  IsAt-is_at :
      (k : ClusterKey) (src : Text) (f : Finding Float) → IsAt k src f → is_at k src f ≡ true
  unfolding cluster_of same_cluster
  IsAt-is_at k src f (a, b, c) =
      ground (arith, a, b, c, text_eq_refl k.sensor, text_eq_refl k.dst, text_eq_refl src)

  pub earliest : ClusterKey → Text → List (Finding Float) → Option Text
  earliest k src [] = none
  earliest k src (f ∷ fs) =
      let rest = earliest k src fs in if is_at k src f then some (sooner f.timestamp rest) else rest

  -- The onset is the timestamp of a beacon of the host, and none of the host's is earlier.
  abbrev pub IsOnset : ClusterKey → Text → Text → List (Finding Float) → Type 0
  IsOnset k src onset fs =
      Some (λ (f : Finding Float). IsAt k src f × (f.timestamp ≡ onset)) fs
      × All (λ (f : Finding Float). IsAt k src f → text_lt f.timestamp onset ≡ false) fs

  earliest-none :
      (k : ClusterKey) (src : Text) (fs : List (Finding Float))
      → earliest k src fs ≡ none
      → All (λ (f : Finding Float). is_at k src f ≡ false) fs
  unfolding earliest
  earliest-none k src [] h = tt
  earliest-none k src (f ∷ fs) h = elim (Bool-cases (is_at k src f)) [
    | inl e ↦ absurd (ground (arith, e, h))
    | inr e ↦ (e, earliest-none k src fs (ground (arith, e, h)))
  ]

  away :
      (k : ClusterKey) (src : Text) (f : Finding Float) → is_at k src f ≡ false → IsAt k src f → ⊥
  away k src f e h = cc (e, IsAt-is_at k src f h)

  pub earliest-IsOnset :
      (k : ClusterKey) (src onset : Text) (fs : List (Finding Float))
      → earliest k src fs ≡ some onset
      → IsOnset k src onset fs
  unfolding earliest
  earliest-IsOnset k src onset [] h = cc
  earliest-IsOnset k src onset (f ∷ fs) h = elim (Bool-cases (is_at k src f)) [
    | inr e ↦
        let (a, b) = earliest-IsOnset k src onset fs (ground (arith, e, h)) in
        (inr a, ((λ x. absurd (away k src f e x)), b))
    | inl e ↦ elim (Option-cases (earliest k src fs)) [
      | inl n ↦
          let t : f.timestamp ≡ onset = ground (arith, e, n, h) in
          (
            inl (is_at-IsAt k src f e, t),
            (
              λ x. subst (λ o. text_lt f.timestamp o ≡ false) t (text_lt_irrefl f.timestamp),
              All-map (λ (g : Finding Float). is_at k src g ≡ false)
                  (λ (g : Finding Float). IsAt k src g → text_lt g.timestamp onset ≡ false) fs
                  (λ g r x. absurd (away k src g r x)) (earliest-none k src fs n),
            ),
          )
      | inr (o, n) ↦
          let (a, b) = earliest-IsOnset k src o fs n in
          elim (Bool-cases (text_lt f.timestamp o)) [
            | inl l ↦
                let t : f.timestamp ≡ onset = ground (arith, e, n, l, h) in
                (
                  inl (is_at-IsAt k src f e, t),
                  (
                    λ x. subst (λ o. text_lt f.timestamp o ≡ false) t (text_lt_irrefl f.timestamp),
                    All-map (λ (g : Finding Float). IsAt k src g → text_lt g.timestamp o ≡ false)
                        (λ (g : Finding Float). IsAt k src g → text_lt g.timestamp onset ≡ false) fs
                        (λ g r x.
                          subst (λ u. text_lt g.timestamp u ≡ false) t
                            (text_lt_chain g.timestamp o f.timestamp (r x)
                              (text_lt_asym f.timestamp o l)))
                        b,
                  ),
                )
            | inr l ↦
                let t : o ≡ onset = ground (arith, e, n, l, h) in
                subst (λ u. IsOnset k src u (f ∷ fs)) t (inr a, ((λ x. l), b))
          ]
    ]
  ]

  -- Each finding of a list has an earliest one.
  pub earliest_each :
      (k : ClusterKey) (fs : List (Finding Float))
      → All
          (λ (f : Finding Float).
            f.sensor ≡ k.sensor → f.dst_ip ≡ k.dst → (o : Text) × (earliest k f.src_ip fs ≡ some o))
          fs
  unfolding earliest
  earliest_each k [] = tt
  earliest_each k (f ∷ fs) = (
    λ s d. (
      sooner f.timestamp (earliest k f.src_ip fs),
      rw (IsAt-is_at k f.src_ip f (s, d, refl)) refl,
    ),
    All-map
        (λ (g : Finding Float).
          g.sensor ≡ k.sensor → g.dst_ip ≡ k.dst → (o : Text) × (earliest k g.src_ip fs ≡ some o))
        (λ (g : Finding Float).
          g.sensor ≡ k.sensor
          → g.dst_ip ≡ k.dst
          → (o : Text) × (earliest k g.src_ip (f ∷ fs) ≡ some o))
        fs
        (λ g h s d. elim (Bool-cases (is_at k g.src_ip f)) [
          | inl e ↦ (sooner f.timestamp (earliest k g.src_ip fs), rw e refl)
          | inr e ↦ let (o, r) = h s d in (o, rw e r)
        ])
        (earliest_each k fs),
  )

  -- What has been gathered is what these beacons make.
  pub record Follows (g : Gathered) (done : List (Finding Float)) : Type 0 where
    pub seen : g.seen ≡ map fingerprint done
    pub keys : DistinctKeys g.clusters
    pub onsets :
        (k : ClusterKey) (src : Text) → onset_at src (hosts_at k g.clusters) ≡ earliest k src done

  any-map :
      (f : Finding Float) (done : List (Finding Float))
      → any (same (fingerprint f)) (map fingerprint done)
        ≡ any (λ g. same (fingerprint f) (fingerprint g)) done
  any-map f [] = refl
  any-map f (g ∷ done) = rw (any-map f done) refl

  put_cluster-onsets :
      (is_fresh : Bool) (f : Finding Float) (m : Clusters) (done : List (Finding Float))
      (k : ClusterKey) (src : Text)
      → onset_at src (hosts_at k m) ≡ earliest k src done
      → onset_at src (hosts_at k (put_cluster is_fresh f m)) ≡ earliest k src (f ∷ done)
  unfolding earliest
  put_cluster-onsets is_fresh f m done k src h =
      rw (hosts_at-put_cluster is_fresh f k m) (elim (Bool-cases (same_cluster (cluster_of f) k)) [
        | inl e ↦ rw e (onset_at-put_host is_fresh f src (hosts_at k m) ∙ rw h refl)
        | inr e ↦ rw e h
      ])

  add_beacons-Follows :
      (is_fresh : Bool) (fs : List (Finding Float)) (g : Gathered) (done : List (Finding Float))
      → Follows g done
      → Follows (add_beacons is_fresh fs g) (counted done fs)
  unfolding add_beacons add_beacon counted
  add_beacons-Follows is_fresh [] g done h = h
  add_beacons-Follows is_fresh (f ∷ fs) g done h = elim (Bool-cases (is_external_beacon f)) [
    | inr e ↦ rw e (add_beacons-Follows is_fresh fs g done h)
    | inl e ↦
        let tests : any (same (fingerprint f)) g.seen
            ≡ any (λ y. same (fingerprint f) (fingerprint y)) done =
          ap (any (same (fingerprint f))) h.seen ∙ any-map f done in
        rw (e, tests)
          (elim (Bool-cases (any (λ y. same (fingerprint f) (fingerprint y)) done)) [
            | inl r ↦ rw r (add_beacons-Follows is_fresh fs g done h)
            | inr r ↦ rw r (
                add_beacons-Follows is_fresh fs
                  (record {
                    seen = fingerprint f ∷ g.seen;
                    clusters = put_cluster is_fresh f g.clusters;
                  })
                  (f ∷ done)
                  (record {
                    seen = ap (λ s. fingerprint f ∷ s) h.seen;
                    keys = put_cluster-DistinctKeys is_fresh f g.clusters h.keys;
                    onsets = λ k src.
                        put_cluster-onsets is_fresh f g.clusters done k src (h.onsets k src);
                  }))
          ])
  ]

  pub gathered-Follows :
      (fresh hist : List (Finding Float)) → Follows (gathered fresh hist) (first_beacons fresh hist)
  unfolding gathered first_beacons hosts_at onset_at earliest
  gathered-Follows fresh hist =
      add_beacons-Follows false hist (add_beacons true fresh (record { seen = []; clusters = [] }))
        (counted [] fresh)
        (add_beacons-Follows true fresh (record { seen = []; clusters = [] }) []
          (record { seen = refl; keys = tt; onsets = λ k src. refl }))
