-- ===== src/Filter/Apply.antt =====
-- The loop of filterFindings in internal/server/findings_filter.go over the findings.
use archer.Prelude.{
  ℕ, Bool, true, false, not, ◌&&◌, ◌||◌, Option, none, some, List, [], ◌∷◌, ◌++◌, Text, codes, ltb,
  if◌then◌else◌, text_eq, any, contains, to_lower, equal_fold, ℤ, pos, negsuc,
}
use archer.Net.{Net, Floats, Times}
use archer.Finding.{Finding}
use archer.Finding.Identity.{is_threat_intel_type}
use archer.Matcher.{Matcher, matches}
use archer.Query.Term.Vocabulary.{is_beacon_type}
use archer.Query.Token.{Result, ok, ◌>>=◌}
use archer.Query.Eval.{match_query}
use archer.Query.Parse.{Node}
use archer.Store.Bell.{Store}
use archer.Store.Snapshot.{new_filter_snapshot, snapshot_suppresses, snapshot_allows_pair}
use archer.Filter.{Request, read_request, parse_finding_time}

abbrev pub below_min : ℕ → ℤ → Bool
below_min score (pos m) = ltb score m
below_min score (negsuc m) = false

abbrev pub is_unset : Text → Bool
is_unset s = text_eq s []

-- a predicate that may be nil
abbrev passes {ℓ} : {A : Type ℓ} → Option (A → Bool) → A → Bool
passes none a = true
passes (some p) a = p a

abbrev in_set : Option (List Text) → Text → Bool
in_set none p = true
in_set (some ps) p = any (λ q. text_eq q p) ps

abbrev some_range {ℓ} : {A : Type ℓ} → Option A → Bool
some_range none = false
some_range (some p) = true

-- FingerprintAllowSnapshot, on the set of keys
unfoldable pub is_benign : List Text → Text → Text → Bool
is_benign keys kind fp = not (text_eq fp []) && any (text_eq (kind ++ (0 ∷ fp))) keys

-- the first list that flags a finding
pub data Flag : Type 0 where
  clear : Flag
  flagged : Text → Flag

module _ (net : Net) (floats : Floats) (times : Times) where
  open floats use {Float}
  open times use {Time, Location, utc, before}

  -- what the loop reads besides the request
  pub record Listing : Type 0 where
    pub store : Store net Float
    pub now : ℕ
    pub benign_keys : List Text
    pub ioc_sources : List (Text × Option (Matcher net))
    pub delta_since : ℕ
    pub op_loc : Location

  -- the checks in the order of the loop
  unfoldable pub type_passes : Request floats times → Finding Float → Bool
  type_passes q f =
      if text_eq q.type_f (codes "beacons")
      then is_beacon_type f.type
      else is_unset q.type_f || (text_eq q.type_f (codes "All") || text_eq f.type q.type_f)

  unfoldable pub severity_passes : Request floats times → Finding Float → Bool
  severity_passes q f =
      is_unset q.sev_f || (text_eq q.sev_f (codes "All") || text_eq f.severity q.sev_f)

  unfoldable pub sub_scores_pass : Request floats times → Finding Float → Bool
  sub_scores_pass q f =
      if some_range q.ss_ts || (some_range q.ss_ds || (some_range q.ss_hist || some_range q.ss_dur))
      then is_beacon_type f.type
        && (passes q.ss_ts f.ts_score
            && (passes q.ss_ds f.ds_score
                && (passes q.ss_hist f.hist_score && passes q.ss_dur f.dur_score)))
      else true

  unfoldable pub fingerprints_pass : Request floats times → Finding Float → Bool
  fingerprints_pass q f =
      (is_unset q.ja3_f || text_eq f.ja3 q.ja3_f) && (is_unset q.ja4_f || text_eq f.ja4 q.ja4_f)

  -- the exclusions that no request undoes
  unfoldable pub is_excluded : Listing → Finding Float → Bool
  is_excluded l f =
      let hidden = new_filter_snapshot net l.now l.store in
      matches net l.store.allowlist_m f.src_ip
      || matches net l.store.allowlist_m f.dst_ip
      || (snapshot_suppresses net hidden f.src_ip
          || snapshot_suppresses net hidden f.dst_ip
          || snapshot_allows_pair net hidden f.src_ip f.dst_ip f.dst_port f.type f.sensor)

  unfoldable pub place_passes : Request floats times → Listing → Finding Float → Bool
  place_passes q l f =
      (not q.delta || ltb l.delta_since f.detected_at)
      && ((is_unset q.sensor_f || text_eq f.sensor q.sensor_f)
          && (passes q.src_matcher f.src_ip
              && (passes q.dst_matcher f.dst_ip && in_set q.port_set f.dst_port)))

  abbrev from_passes : Option Time → Time → Bool
  from_passes none ft = true
  from_passes (some t) ft = not (before ft t)

  abbrev to_passes : Option Time → Time → Bool
  to_passes none ft = true
  to_passes (some t) ft = not (before t ft)

  abbrev stamp_passes : Option Time → Option Time → Option Time → Bool
  stamp_passes from to none = false
  stamp_passes from to (some ft) = from_passes from ft && to_passes to ft

  unfoldable pub time_passes : Request floats times → Finding Float → Bool
  time_passes q f =
      if some_range q.from || some_range q.to
      then stamp_passes q.from q.to (parse_finding_time times f.timestamp utc)
      else true

  unfoldable pub search_text : Finding Float → Text
  search_text f =
      f.type
      ++ (b' '
          ∷ (f.src_ip
              ++ (b' '
                  ∷ (f.dst_ip
                      ++ (b' '
                          ∷ (f.dst_port
                              ++ (b' '
                                  ∷ (f.detail
                                      ++ (b' ' ∷ (f.timestamp ++ (b' ' ∷ f.severity)))))))))))

  unfoldable pub search_passes : Request floats times → Finding Float → Bool
  search_passes q f =
      if is_unset q.search
      then true
      else if q.search_is_ip
      then equal_fold f.src_ip q.search || equal_fold f.dst_ip q.search
      else contains (to_lower (search_text f)) q.search

  unfoldable pub status_passes : Request floats times → Finding Float → Bool
  status_passes q f =
      if not (is_unset q.status_f)
      then if text_eq q.status_f (codes "open")
        then is_unset f.status
        else text_eq f.status q.status_f
      else q.include_dismissed || not (text_eq f.status (codes "dismissed"))

  unfoldable pub flag_of : List (Text × Option (Matcher net)) → Finding Float → Flag
  flag_of [] f = clear
  flag_of ((source, m) ∷ sources) f =
      let rest = flag_of sources f in
      if matches net m f.dst_ip || matches net m f.src_ip then flagged source else rest

  abbrev pub stamped_with : Bool → Flag → Finding Float → Finding Float
  stamped_with true clear f = record f { ioc_match = true; ioc_source = codes "Threat Intel" }
  stamped_with true (flagged []) f = record f {
    ioc_match = true;
    ioc_source = codes "Threat Intel";
  }
  stamped_with true (flagged (c ∷ s)) f = record f { ioc_match = true; ioc_source = c ∷ s }
  stamped_with false clear f = record f { ioc_match = false; ioc_source = [] }
  stamped_with false (flagged s) f = record f { ioc_match = true; ioc_source = s }

  -- the finding with IOCMatch and IOCSource
  unfoldable pub stamp : Listing → Finding Float → Finding Float
  stamp l f = stamped_with (is_threat_intel_type f.type) (flag_of l.ioc_sources f) f

  unfoldable pub flags_pass : Request floats times → Finding Float → Bool
  flags_pass q f = (not q.ioc_only || f.ioc_match) && (not q.spectral_only || f.spectral_rescued)

  unfoldable pub passes_checks : Request floats times → Listing → Finding Float → Bool
  passes_checks q l f =
      type_passes q f
      && (severity_passes q f
          && (not (below_min f.score q.min_score)
              && (sub_scores_pass q f
                  && (fingerprints_pass q f
                      && (not (is_excluded l f)
                          && (place_passes q l f
                              && (time_passes q f
                                  && (search_passes q f
                                      && (status_passes q f && flags_pass q (stamp l f))))))))))

  abbrev pub with_benign : Listing → Finding Float → Finding Float
  with_benign l f = record f {
    tls_allowlisted =
        is_benign l.benign_keys (codes "ja4") f.ja4 || is_benign l.benign_keys (codes "ja3") f.ja3;
  }

  abbrev pub if_matching : Bool → Finding Float → Option (Finding Float)
  if_matching b f = if b then some f else none

  abbrev pub queried : Option Node → Listing → Finding Float → Option (Finding Float)
  queried none l f = some f
  queried (some root) l f =
      if_matching (match_query net floats times root (with_benign l f) (some l.op_loc))
        (with_benign l f)

  -- one finding in the loop: the row that is appended, or none
  unfoldable pub row : Request floats times → Listing → Finding Float → Option (Finding Float)
  row q l f = if passes_checks q l f then queried q.lucene l (stamp l f) else none

  abbrev pub and_row : Option (Finding Float) → List (Finding Float) → List (Finding Float)
  and_row none rest = rest
  and_row (some f) rest = f ∷ rest

  unfoldable pub rows : Request floats times → Listing → List (Finding Float) → List (Finding Float)
  rows q l [] = []
  rows q l (f ∷ fs) = let rest = rows q l fs in and_row (row q l f) rest

  -- filterFindings
  unfoldable pub filter_findings :
      (Text → ℤ × Bool)
      → (Text → Text)
      → Listing
      → List (Finding Float)
      → Result (List (Finding Float))
  filter_findings atoi get l fs =
      read_request net floats times atoi get l.op_loc >>= λ q. ok (rows q l fs)
