-- ===== src/Staging/Onsets.antt =====
-- The onsets of the hosts in computeStaging of internal/analysis/stage.go.
pub mod Earliest
pub mod Members
use archer.Prelude.{
  Bool, true, false, ◌&&◌, Option, none, some, List, [], ◌∷◌, map, Text, ◌≡◌, refl, sym, subst, ap,
  ◌∙◌, if◌then◌else◌, text_eq, text_eq_sound, text_eq_refl, any, All, All-map, All-zip, arith,
  Bool-cases, inl, inr,
}
use archer.Finding.{Finding}
use archer.Finding.Identity.{same, fingerprint}
use archer.Correlate.{text_lt}
use archer.Staging.{
  ClusterKey, Participant, Clusters, same_cluster, with_beacon, put_host, cluster_of, put_cluster,
}
use archer.Staging.Seed.{DistinctHosts, flip_false}
use archer.Staging.Hosts.{same_cluster-eq}

-- The hosts of a cluster, none if it is not there, and the onset of a host.
pub hosts_at : ClusterKey → Clusters → List Participant
hosts_at k [] = []
hosts_at k ((j, ps) ∷ m) = let rest = hosts_at k m in if same_cluster j k then ps else rest

pub onset_at : Text → List Participant → Option Text
onset_at src [] = none
onset_at src (p ∷ ps) =
    let rest = onset_at src ps in if text_eq p.src src then some p.onset else rest

-- the earlier of two
abbrev pub sooner : Text → Option Text → Text
sooner t none = t
sooner t (some o) = if text_lt t o then t else o

pub same_cluster_self : (k : ClusterKey) → same_cluster k k ≡ true
unfolding same_cluster
same_cluster_self k = ground (arith, text_eq_refl k.sensor, text_eq_refl k.dst)

either_way : (b : Bool) (t : Text) → (if b then t else t) ≡ t
either_way true t = refl
either_way false t = refl

module _ {Float : Type 0} (is_fresh : Bool) (f : Finding Float) where
  pub onset_at-put_host :
      (src : Text) (ps : List Participant)
      → onset_at src (put_host is_fresh f ps) ≡ (
          if text_eq f.src_ip src
          then some (sooner f.timestamp (onset_at src ps))
          else onset_at src ps)
  unfolding onset_at put_host with_beacon
  onset_at-put_host src [] = rw (either_way (text_lt f.timestamp f.timestamp) f.timestamp) refl
  onset_at-put_host src (p ∷ ps) = elim (Bool-cases (text_eq p.src f.src_ip)) [
    | inl e ↦
        let eq : p.src ≡ f.src_ip = text_eq_sound p.src f.src_ip e in
        rw e (elim (Bool-cases (text_eq f.src_ip src)) [
          | inl h ↦
              let r : text_eq p.src src ≡ true = subst (λ x. text_eq x src ≡ true) (sym eq) h in
              rw (h, r) refl
          | inr h ↦
              let r : text_eq p.src src ≡ false = subst (λ x. text_eq x src ≡ false) (sym eq) h in
              rw (h, r) refl
        ])
    | inr e ↦ rw e (elim (Bool-cases (text_eq p.src src)) [
      | inr h ↦ rw h (onset_at-put_host src ps)
      | inl h ↦
          let eq : p.src ≡ src = text_eq_sound p.src src h in
          rw h (elim (Bool-cases (text_eq f.src_ip src)) [
            | inr r ↦ rw r refl
            | inl r ↦
                let eq' : p.src ≡ f.src_ip = eq ∙ sym (text_eq_sound f.src_ip src r) in
                absurd (cc (e, ap (text_eq p.src) eq', text_eq_refl p.src))
          ])
    ])
  ]

  pub hosts_at-put_cluster :
      (k : ClusterKey) (m : Clusters)
      → hosts_at k (put_cluster is_fresh f m) ≡ (
          if same_cluster (cluster_of f) k
          then put_host is_fresh f (hosts_at k m)
          else hosts_at k m)
  unfolding hosts_at put_cluster
  hosts_at-put_cluster k [] = refl
  hosts_at-put_cluster k ((j, ps) ∷ m) = elim (Bool-cases (same_cluster j (cluster_of f))) [
    | inl e ↦
        let eq : j ≡ cluster_of f = same_cluster-eq j (cluster_of f) e in
        rw e (elim (Bool-cases (same_cluster (cluster_of f) k)) [
          | inl h ↦
              let r : same_cluster j k ≡ true = subst (λ x. same_cluster x k ≡ true) (sym eq) h in
              rw (h, r) refl
          | inr h ↦
              let r : same_cluster j k ≡ false = subst (λ x. same_cluster x k ≡ false) (sym eq) h in
              rw (h, r) refl
        ])
    | inr e ↦ rw e (elim (Bool-cases (same_cluster j k)) [
      | inr h ↦ rw h (hosts_at-put_cluster k m)
      | inl h ↦
          let eq : j ≡ k = same_cluster-eq j k h in
          rw h (elim (Bool-cases (same_cluster (cluster_of f) k)) [
            | inr r ↦ rw r refl
            | inl r ↦
                let eq' : j ≡ cluster_of f = eq ∙ sym (same_cluster-eq (cluster_of f) k r) in
                absurd (cc (e, ap (same_cluster j) eq', same_cluster_self j))
          ])
    ])
  ]

-- The keys of the clusters are different.
abbrev pub DistinctKeys : Clusters → Type 0
DistinctKeys [] = Unit
DistinctKeys (c ∷ m) =
    All (λ (d : ClusterKey × List Participant). same_cluster c.0 d.0 ≡ false) m × DistinctKeys m

module _ {Float : Type 0} (is_fresh : Bool) (f : Finding Float) where
  put_cluster-All :
      (P : ClusterKey → Type 0) (m : Clusters)
      → P (cluster_of f)
      → All (λ (c : ClusterKey × List Participant). P c.0) m
      → All (λ (c : ClusterKey × List Participant). P c.0) (put_cluster is_fresh f m)
  unfolding put_cluster
  put_cluster-All P [] h a = (h, tt)
  put_cluster-All P ((k, ps) ∷ m) h (c, a) = elim (Bool-cases (same_cluster k (cluster_of f))) [
    | inl e ↦ rw e (c, a)
    | inr e ↦ rw e (c, put_cluster-All P m h a)
  ]

  pub put_cluster-DistinctKeys :
      (m : Clusters) → DistinctKeys m → DistinctKeys (put_cluster is_fresh f m)
  unfolding put_cluster
  put_cluster-DistinctKeys [] d = (tt, tt)
  put_cluster-DistinctKeys ((k, ps) ∷ m) (a, d) =
      elim (Bool-cases (same_cluster k (cluster_of f))) [
        | inl e ↦ rw e (a, d)
        | inr e ↦
            rw e
              (put_cluster-All (λ j. same_cluster k j ≡ false) m e a, put_cluster-DistinctKeys m d)
      ]

-- Each cluster, and each host, is what is found under its key.
pub hosts_at_each :
    (m : Clusters)
    → DistinctKeys m
    → All (λ (c : ClusterKey × List Participant). hosts_at c.0 m ≡ c.1) m
unfolding hosts_at
hosts_at_each [] d = tt
hosts_at_each ((k, ps) ∷ m) (a, d) = (
  rw (same_cluster_self k) refl,
  All-zip (λ (c : ClusterKey × List Participant). same_cluster k c.0 ≡ false)
      (λ (c : ClusterKey × List Participant). hosts_at c.0 m ≡ c.1)
      (λ (c : ClusterKey × List Participant). hosts_at c.0 ((k, ps) ∷ m) ≡ c.1) m (λ c e h. rw e h)
      a (hosts_at_each m d),
)

pub onset_at_each :
    (ps : List Participant)
    → DistinctHosts ps
    → All (λ (p : Participant). onset_at p.src ps ≡ some p.onset) ps
unfolding onset_at
onset_at_each [] d = tt
onset_at_each (p ∷ ps) (a, d) = (
  rw (text_eq_refl p.src) refl,
  All-zip (λ (q : Participant). text_eq q.src p.src ≡ false)
      (λ (q : Participant). onset_at q.src ps ≡ some q.onset)
      (λ (q : Participant). onset_at q.src (p ∷ ps) ≡ some q.onset) ps
      (λ q e h. rw (flip_false q.src p.src e) h) a (onset_at_each ps d),
)
