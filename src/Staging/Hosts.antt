-- ===== src/Staging/Hosts.antt =====
-- The hosts of the clusters of computeStaging in internal/analysis/stage.go.
use archer.Prelude.{
  Bool, true, false, List, [], ◌∷◌, Text, ◌≡◌, sym, subst, text_eq, text_eq_sound, any, All, arith,
  Bool-cases, inl, inr,
}
use archer.Finding.{Finding}
use archer.Finding.Identity.{same, fingerprint}
use archer.Staging.{
  ClusterKey, Participant, Clusters, Gathered, same_cluster, cluster_lt, with_beacon, put_host,
  cluster_of, put_cluster, is_external_beacon, add_beacon, add_beacons, gathered, insert_cluster,
  sort_clusters,
}
use archer.Staging.Seed.{DistinctHosts, flip_false}

pub same_cluster-eq : (a b : ClusterKey) → same_cluster a b ≡ true → a ≡ b
unfolding same_cluster
same_cluster-eq a b h =
    cc (text_eq_sound a.sensor b.sensor (ground arith), text_eq_sound a.dst b.dst (ground arith))

module _ (Q : ClusterKey → Text → Type 0) where
  -- The hosts of a cluster have the property, and are different.
  abbrev pub IsCluster : ClusterKey × List Participant → Type 0
  IsCluster c = All (λ (p : Participant). Q c.0 p.src) c.1 × DistinctHosts c.1

module _ (P : ClusterKey × List Participant → Type 0) where
  insert_cluster-All :
      (c : ClusterKey × List Participant) (m : Clusters)
      → P c
      → All P m
      → All P (insert_cluster c m)
  unfolding insert_cluster
  insert_cluster-All c [] h a = (h, tt)
  insert_cluster-All c (d ∷ m) h (k, a) = elim (Bool-cases (cluster_lt d.0 c.0)) [
    | inl e ↦ rw e (k, insert_cluster-All c m h a)
    | inr e ↦ rw e (h, (k, a))
  ]

  pub sort_clusters-All : (m : Clusters) → All P m → All P (sort_clusters m)
  unfolding sort_clusters
  sort_clusters-All [] a = tt
  sort_clusters-All (c ∷ m) (h, a) =
      insert_cluster-All c (sort_clusters m) h (sort_clusters-All m a)

module _ {Float : Type 0} where
  put_host-All :
      (P : Text → Type 0) (is_fresh : Bool) (f : Finding Float) (ps : List Participant)
      → P f.src_ip
      → All (λ (p : Participant). P p.src) ps
      → All (λ (p : Participant). P p.src) (put_host is_fresh f ps)
  unfolding put_host with_beacon
  put_host-All P is_fresh f [] h a = (h, tt)
  put_host-All P is_fresh f (p ∷ ps) h (k, a) = elim (Bool-cases (text_eq p.src f.src_ip)) [
    | inl e ↦ rw e (k, a)
    | inr e ↦ rw e (k, put_host-All P is_fresh f ps h a)
  ]

  put_host-DistinctHosts :
      (is_fresh : Bool) (f : Finding Float) (ps : List Participant)
      → DistinctHosts ps
      → DistinctHosts (put_host is_fresh f ps)
  unfolding put_host with_beacon
  put_host-DistinctHosts is_fresh f [] d = (tt, tt)
  put_host-DistinctHosts is_fresh f (p ∷ ps) (a, d) = elim (Bool-cases (text_eq p.src f.src_ip)) [
    | inl e ↦ rw e (a, d)
    | inr e ↦ rw e (
      put_host-All (λ t. text_eq t p.src ≡ false) is_fresh f ps (flip_false p.src f.src_ip e) a,
      put_host-DistinctHosts is_fresh f ps d,
    )
  ]

module _ {Float : Type 0} (Q : ClusterKey → Text → Type 0) where
  put_cluster-IsCluster :
      (is_fresh : Bool) (f : Finding Float) (m : Clusters)
      → Q (cluster_of f) f.src_ip
      → All (IsCluster Q) m
      → All (IsCluster Q) (put_cluster is_fresh f m)
  unfolding put_cluster
  put_cluster-IsCluster is_fresh f [] h a = (
    (put_host-All (Q (cluster_of f)) is_fresh f [] h tt, put_host-DistinctHosts is_fresh f [] tt),
    tt,
  )
  put_cluster-IsCluster is_fresh f ((k, ps) ∷ m) h (c, a) =
      elim (Bool-cases (same_cluster k (cluster_of f))) [
        | inr e ↦ rw e (c, put_cluster-IsCluster is_fresh f m h a)
        | inl e ↦
            let own = subst (λ j. Q j f.src_ip) (sym (same_cluster-eq k (cluster_of f) e)) h in
            rw e (
              (put_host-All (Q k) is_fresh f ps own c.0, put_host-DistinctHosts is_fresh f ps c.1),
              a,
            )
      ]

  abbrev pub Allowed : Finding Float → Type 0
  Allowed f = is_external_beacon f ≡ true → Q (cluster_of f) f.src_ip

  add_beacon-IsCluster :
      (is_fresh : Bool) (f : Finding Float) (g : Gathered)
      → Allowed f
      → All (IsCluster Q) g.clusters
      → All (IsCluster Q) (add_beacon is_fresh f g).clusters
  unfolding add_beacon
  add_beacon-IsCluster is_fresh f g h a = elim (Bool-cases (is_external_beacon f)) [
    | inr e ↦ rw e a
    | inl e ↦ rw e (elim (Bool-cases (any (same (fingerprint f)) g.seen)) [
      | inl k ↦ rw k a
      | inr k ↦ rw k (put_cluster-IsCluster is_fresh f g.clusters (h e) a)
    ])
  ]

  add_beacons-IsCluster :
      (is_fresh : Bool) (fs : List (Finding Float)) (g : Gathered)
      → All Allowed fs
      → All (IsCluster Q) g.clusters
      → All (IsCluster Q) (add_beacons is_fresh fs g).clusters
  unfolding add_beacons
  add_beacons-IsCluster is_fresh [] g h a = a
  add_beacons-IsCluster is_fresh (f ∷ fs) g (k, h) a =
      add_beacons-IsCluster is_fresh fs (add_beacon is_fresh f g) h
        (add_beacon-IsCluster is_fresh f g k a)

  pub gathered-IsCluster :
      (fresh hist : List (Finding Float))
      → All Allowed fresh
      → All Allowed hist
      → All (IsCluster Q) (gathered fresh hist).clusters
  unfolding gathered
  gathered-IsCluster fresh hist a b =
      add_beacons-IsCluster false hist _ b
        (add_beacons-IsCluster true fresh (record { seen = []; clusters = [] }) a tt)

-- A finding that counts for a host of a cluster.
abbrev pub CountsFor : {Float : Type 0} → ClusterKey → Text → Finding Float → Type 0
CountsFor k src f =
    (is_external_beacon f ≡ true) × (f.sensor ≡ k.sensor) × (f.dst_ip ≡ k.dst) × (f.src_ip ≡ src)
