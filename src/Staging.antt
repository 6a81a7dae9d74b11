-- ===== src/Staging.antt =====
-- computeStaging of internal/analysis/stage.go, with isPrivateIP of types.go. A Go map is a list of
-- its entries, the first made first.
pub mod Rows
pub mod Seed
pub mod Hosts
pub mod Onsets
pub mod Convergence
use archer.Prelude.{
  ℕ, zero, suc, ◌+◌, Bool, true, false, not, ◌&&◌, ◌||◌, Option, none, some, List, [], ◌∷◌, ◌++◌,
  map, Text, codes, ltb, leb, ◌==◌, if◌then◌else◌, text_eq, any, length, decimal, has_prefix,
  contains, ℤ, pos,
}
use archer.Net.{Times, Floats}
use archer.Finding.{Finding}
use archer.Finding.Identity.{Fingerprint, same, fingerprint}
use archer.Query.Term.Vocabulary.{is_beacon_type}
use archer.Correlate.{text_lt}
use archer.Correlate.Rows.{sort_ints}

abbrev pub private_prefixes : List Text
private_prefixes =
    codes "10."
    ∷ codes "192.168."
    ∷ codes "172.16."
    ∷ codes "172.17."
    ∷ codes "172.18."
    ∷ codes "172.19."
    ∷ codes "172.20."
    ∷ codes "172.21."
    ∷ codes "172.22."
    ∷ codes "172.23."
    ∷ codes "172.24."
    ∷ codes "172.25."
    ∷ codes "172.26."
    ∷ codes "172.27."
    ∷ codes "172.28."
    ∷ codes "172.29."
    ∷ codes "172.30."
    ∷ codes "172.31."
    ∷ codes "127."
    ∷ codes "169.254."
    ∷ []

unfoldable pub is_private_ip : Text → Bool
is_private_ip ip =
    if text_eq ip []
    then false
    else if contains ip (codes ":")
    then text_eq ip (codes "::1") || (has_prefix ip (codes "fc") || has_prefix ip (codes "fd"))
    else any (has_prefix ip) private_prefixes

pub record StagingParams (Float : Type 0) : Type 0 where
  pub min_hosts : ℕ
  pub max_dst_sources : ℕ
  pub window_hours : Float
  pub score : ℕ
  pub score_corrob : ℕ

pub record ClusterKey : Type 0 where
  pub sensor : Text
  pub dst : Text

unfoldable pub same_cluster : ClusterKey → ClusterKey → Bool
same_cluster a b = text_eq a.sensor b.sensor && text_eq a.dst b.dst

unfoldable pub cluster_lt : ClusterKey → ClusterKey → Bool
cluster_lt a b =
    if not (text_eq a.sensor b.sensor) then text_lt a.sensor b.sensor else text_lt a.dst b.dst

-- stagingParticipant
pub record Participant : Type 0 where
  pub src : Text
  pub onset : Text
  pub fresh_id : ℕ

abbrev pub Clusters : Type 0
Clusters = List (ClusterKey × List Participant)

pub record Gathered : Type 0 where
  pub seen : List Fingerprint
  pub clusters : Clusters

abbrev pub or_else : Option Text → Option Text → Option Text
or_else none o = o
or_else (some t) o = some t

module _ {Float : Type 0} where
  -- the participant with a finding of its host
  unfoldable pub with_beacon : Bool → Finding Float → Participant → Participant
  with_beacon is_fresh f p = record p {
    onset = if text_lt f.timestamp p.onset then f.timestamp else p.onset;
    fresh_id = if is_fresh && p.fresh_id == 0 then f.id else p.fresh_id;
  }

  unfoldable pub put_host : Bool → Finding Float → List Participant → List Participant
  put_host is_fresh f [] =
      with_beacon is_fresh f (record { src = f.src_ip; onset = f.timestamp; fresh_id = 0 }) ∷ []
  put_host is_fresh f (p ∷ ps) =
      if text_eq p.src f.src_ip then with_beacon is_fresh f p ∷ ps else p ∷ put_host is_fresh f ps

  unfoldable pub cluster_of : Finding Float → ClusterKey
  cluster_of f = record { sensor = f.sensor; dst = f.dst_ip }

  unfoldable pub put_cluster : Bool → Finding Float → Clusters → Clusters
  put_cluster is_fresh f [] = (cluster_of f, put_host is_fresh f []) ∷ []
  put_cluster is_fresh f ((k, ps) ∷ m) =
      if same_cluster k (cluster_of f)
      then (k, put_host is_fresh f ps) ∷ m
      else (k, ps) ∷ put_cluster is_fresh f m

  -- the guards of add but the last
  unfoldable pub is_external_beacon : Finding Float → Bool
  is_external_beacon f =
      if not (is_beacon_type f.type)
        || (text_eq f.src_ip [] || (text_eq f.dst_ip [] || text_eq f.timestamp []))
      then false
      else not (is_private_ip f.dst_ip)

  unfoldable pub add_beacon : Bool → Finding Float → Gathered → Gathered
  add_beacon is_fresh f g =
      if not (is_external_beacon f)
      then g
      else if any (same (fingerprint f)) g.seen
      then g
      else record { seen = fingerprint f ∷ g.seen; clusters = put_cluster is_fresh f g.clusters }

  unfoldable pub add_beacons : Bool → List (Finding Float) → Gathered → Gathered
  add_beacons is_fresh [] g = g
  add_beacons is_fresh (f ∷ fs) g = add_beacons is_fresh fs (add_beacon is_fresh f g)

  unfoldable pub gathered : List (Finding Float) → List (Finding Float) → Gathered
  gathered fresh hist =
      add_beacons false hist (add_beacons true fresh (record { seen = []; clusters = [] }))

  -- what one related finding says of a cluster, `none` if nothing
  abbrev pub corroborates : Text → Text → (Text → Bool) → Finding Float → Option Text
  corroborates sensor dst participants r =
      if text_eq r.type (codes "Lateral Movement")
      then (if text_eq r.sensor sensor && (participants r.src_ip && participants r.dst_ip)
          then some (codes "lateral movement " ++ (r.src_ip ++ (226 ∷ 134 ∷ 146 ∷ r.dst_ip)))
          else none)
      else if text_eq r.type (codes "TI Hit (IP)")
      then (if text_eq r.dst_ip dst || text_eq r.src_ip dst
          then some (codes "TI hit on C2 destination")
          else none)
      else if text_eq r.type (codes "Malicious JA3") || text_eq r.type (codes "Malicious JA4")
      then (if text_eq r.dst_ip dst then some (r.type ++ codes " on C2 destination") else none)
      else none

  -- stagingCorroboration
  unfoldable pub staging_corroboration :
      Text → Text → (Text → Bool) → List (Finding Float) → Option Text
  staging_corroboration sensor dst participants [] = none
  staging_corroboration sensor dst participants (r ∷ rs) =
      or_else (corroborates sensor dst participants r)
        (staging_corroboration sensor dst participants rs)

unfoldable pub insert_cluster : ClusterKey × List Participant → Clusters → Clusters
insert_cluster c [] = c ∷ []
insert_cluster c (d ∷ m) =
    let rest = insert_cluster c m in if cluster_lt d.0 c.0 then d ∷ rest else c ∷ d ∷ m

unfoldable pub sort_clusters : Clusters → Clusters
sort_clusters [] = []
sort_clusters (c ∷ m) = insert_cluster c (sort_clusters m)

unfoldable pub participant_lt : Participant → Participant → Bool
participant_lt a b =
    if not (text_eq a.onset b.onset) then text_lt a.onset b.onset else text_lt a.src b.src

unfoldable pub insert_participant : Participant → List Participant → List Participant
insert_participant p [] = p ∷ []
insert_participant p (q ∷ qs) =
    let rest = insert_participant p qs in if participant_lt q p then q ∷ rest else p ∷ q ∷ qs

unfoldable pub sort_participants : List Participant → List Participant
sort_participants [] = []
sort_participants (p ∷ ps) = insert_participant p (sort_participants ps)

unfoldable pub last_onset : Participant → List Participant → Text
last_onset p [] = p.onset
last_onset p (q ∷ qs) = last_onset q qs

unfoldable pub fresh_ids : List Participant → List ℤ
fresh_ids [] = []
fresh_ids (p ∷ ps) =
    let rest = fresh_ids ps in if not (p.fresh_id == 0) then pos p.fresh_id ∷ rest else rest

-- ` src@onset` for each participant
unfoldable pub show_participants : List Participant → Text
show_participants [] = []
show_participants (p ∷ ps) =
    codes " " ++ (p.src ++ (codes "@" ++ (p.onset ++ show_participants ps)))

abbrev pub show_reason : Option Text → Text
show_reason none = []
show_reason (some reason) = codes " | corroboration: " ++ reason

unfoldable pub staging_detail : Text → List Participant → Option Text → Text
staging_detail dst ps reason =
    decimal (length ps)
    ++ (codes " internal hosts converging on external "
        ++ (dst
            ++ (codes " "
                ++ (226
                    ∷ 128
                    ∷ 148
                    ∷ (codes " staged beacon onsets:"
                        ++ (show_participants ps ++ show_reason reason))))))
