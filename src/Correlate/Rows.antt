-- ===== src/Correlate/Rows.antt =====
-- The rows and the annotations of correlateFindings of internal/analysis/correlate.go, and add of
-- internal/analysis/analyzer.go.
use archer.Prelude.{
  ℕ, suc, ◌+◌, ◌-◌, ◌*◌, Bool, true, false, not, ◌&&◌, Option, none, some, List, [], ◌∷◌, ◌++◌, map,
  Text, codes, ltb, leb, ◌==◌, if◌then◌else◌, text_eq, any, length, join, decimal, ℤ, pos, negsuc,
}
use archer.Finding.{Finding, zero_finding}
use archer.Finding.Identity.{Fingerprint}
use archer.Correlate.{type_correlated_activity, PairKey, PairData, Pairs, key_lt, text_lt, pairs_of}

unfoldable pub insert_pair : PairKey × PairData → Pairs → Pairs
insert_pair p [] = p ∷ []
insert_pair p (q ∷ m) = let rest = insert_pair p m in if key_lt q.0 p.0 then q ∷ rest else p ∷ q ∷ m

unfoldable pub sort_pairs : Pairs → Pairs
sort_pairs [] = []
sort_pairs (p ∷ m) = insert_pair p (sort_pairs m)

unfoldable pub insert_text : Text → List Text → List Text
insert_text t [] = t ∷ []
insert_text t (s ∷ ts) = let rest = insert_text t ts in if text_lt s t then s ∷ rest else t ∷ s ∷ ts

-- sort.Strings
unfoldable pub sort_texts : List Text → List Text
sort_texts [] = []
sort_texts (t ∷ ts) = insert_text t (sort_texts ts)

unfoldable pub int_lt : ℤ → ℤ → Bool
int_lt (pos a) (pos b) = ltb a b
int_lt (pos a) (negsuc b) = false
int_lt (negsuc a) (pos b) = true
int_lt (negsuc a) (negsuc b) = ltb b a

unfoldable pub int_eq : ℤ → ℤ → Bool
int_eq (pos a) (pos b) = a == b
int_eq (pos a) (negsuc b) = false
int_eq (negsuc a) (pos b) = false
int_eq (negsuc a) (negsuc b) = a == b

abbrev pub magnitude : ℤ → ℕ
magnitude (pos n) = n
magnitude (negsuc n) = suc n

unfoldable pub insert_int : ℤ → List ℤ → List ℤ
insert_int i [] = i ∷ []
insert_int i (j ∷ is) = let rest = insert_int i is in if int_lt j i then j ∷ rest else i ∷ j ∷ is

-- sort.Ints
unfoldable pub sort_ints : List ℤ → List ℤ
sort_ints [] = []
sort_ints (i ∷ is) = insert_int i (sort_ints is)

unfoldable pub pair_score : ℕ → PairData → ℕ
pair_score min_types d =
    let score = d.max_score + 5 * (length d.types - min_types) in if ltb 99 score then 99 else score

unfoldable pub severity_of : ℕ → Text
severity_of score =
    if leb 80 score
    then codes "CRITICAL"
    else if leb 60 score
    then codes "HIGH"
    else if leb 40 score
    then codes "MEDIUM"
    else codes "LOW"

-- the arrow and the dash of the format, in UTF-8
abbrev pub arrow : Text
arrow = 226 ∷ 134 ∷ 146 ∷ []

abbrev pub dash : Text
dash = 226 ∷ 128 ∷ 148 ∷ []

unfoldable pub detail_of : PairKey → PairData → Text
detail_of k d =
    let ids = sort_ints (map (λ (e : Fingerprint × ℤ). pos (magnitude e.1)) d.ids_by_fingerprint) in
    codes "Multi-stage activity on ("
    ++ (k.src
        ++ (codes " "
            ++ (arrow
                ++ (codes " "
                    ++ (k.dst
                        ++ (codes ") "
                            ++ (dash
                                ++ (codes " "
                                    ++ (join (sort_texts d.types) (codes ", ")
                                        ++ (codes " | Contributing finding IDs: "
                                            ++ join (map (λ i. decimal (magnitude i)) ids)
                                                (codes ", ")))))))))))

-- the annotations of a run: for a contributor the siblings that a pair gives it, an entry for each pair
abbrev pub Annotations : Type 0
Annotations = List (ℤ × List ℤ)

-- the others of a pair and the id of its row
unfoldable pub siblings_in : ℤ → List ℤ → ℤ → List ℤ
siblings_in id [] row = row ∷ []
siblings_in id (other ∷ ids) row =
    let rest = siblings_in id ids row in if int_eq other id then rest else other ∷ rest

-- the entries of one pair
unfoldable pub annotate : List ℤ → List ℤ → ℤ → Annotations
annotate [] all row = []
annotate (id ∷ ids) all row = (id, siblings_in id all row) ∷ annotate ids all row

-- `annotations[id]`, `none` for nil
abbrev pub join_siblings : List ℤ → Option (List ℤ) → Option (List ℤ)
join_siblings s none = some s
join_siblings s (some t) = some (s ++ t)

unfoldable pub siblings_of : ℤ → Annotations → Option (List ℤ)
siblings_of id [] = none
siblings_of id ((j, s) ∷ m) =
    let rest = siblings_of id m in if int_eq j id then join_siblings s rest else rest

-- the loop with `seen`
unfoldable pub dedup : List ℤ → List ℤ → List ℤ
dedup seen [] = []
dedup seen (i ∷ is) =
    let old = any (int_eq i) seen in
    let rest = dedup (if old then seen else i ∷ seen) is in if old then rest else i ∷ rest

abbrev pub correlations_of : Option (List ℤ) → List ℤ
correlations_of none = []
correlations_of (some s) = sort_ints (dedup [] s)

-- the fields of Analyzer that the phase reads or changes
pub record Analyzer (Float : Type 0) : Type 0 where
  pub findings : List (Finding Float)
  pub next_id : ℕ
  pub default_sensor : Text
  pub correlation_min_types : ℕ
  pub findings_provider : Option (List (Finding Float))

module _ {Float : Type 0} where
  -- The sensor of a finding that is added; `sensor_of` is sensorOf.
  unfoldable pub resolve_sensor : (Text → Text) → Text → Finding Float → Text
  resolve_sensor sensor_of default f =
      if not (text_eq f.sensor [])
      then f.sensor
      else if not (text_eq f.source_file []) && not (text_eq (sensor_of f.source_file) [])
      then sensor_of f.source_file
      else default

  unfoldable pub add_finding : (Text → Text) → Finding Float → Analyzer Float → Analyzer Float
  add_finding sensor_of f a = record a {
    findings =
        a.findings
        ++ (record f { id = suc a.next_id; sensor = resolve_sensor sensor_of a.default_sensor f }
            ∷ []);
    next_id = suc a.next_id;
  }

  -- the row of a pair, whose other fields are zero
  unfoldable pub pair_row : Float → ℕ → PairKey → PairData → Finding Float
  pair_row zero_float min_types k d = record (zero_finding zero_float) {
    type = type_correlated_activity;
    severity = severity_of (pair_score min_types d);
    score = pair_score min_types d;
    src_ip = k.src;
    dst_ip = k.dst;
    detail = detail_of k d;
    timestamp = d.earliest_ts;
    sensor = k.sensor;
    correlations = map (λ (e : Fingerprint × ℤ). e.1) d.ids_by_fingerprint;
  }

  -- The loop over the sorted pairs: the analyzer with the rows, and the annotations.
  unfoldable pub emit_pairs :
      (Text → Text)
      → Float
      → ℕ
      → Pairs
      → Analyzer Float
      → Annotations
      → Analyzer Float × Annotations
  emit_pairs sensor_of zero_float min_types [] a m = (a, m)
  emit_pairs sensor_of zero_float min_types ((k, d) ∷ ps) a m =
      let ids = map (λ (e : Fingerprint × ℤ). e.1) d.ids_by_fingerprint in
      let a' = add_finding sensor_of (pair_row zero_float min_types k d) a in
      let quiet = ltb (length d.types) min_types in
      emit_pairs sensor_of zero_float min_types ps (if quiet then a else a')
        (if quiet then m else m ++ annotate ids ids (pos a'.next_id))

  -- the last loop
  unfoldable pub with_siblings : Annotations → Finding Float → Finding Float
  with_siblings m f =
      if text_eq f.type type_correlated_activity
      then f
      else record f { correlations = correlations_of (siblings_of (pos f.id) m) }

  unfoldable pub correlate_findings : (Text → Text) → Float → Analyzer Float → Analyzer Float
  correlate_findings sensor_of zero_float a =
      if ltb a.correlation_min_types 2
      then a
      else let r =
          emit_pairs sensor_of zero_float a.correlation_min_types
            (sort_pairs (pairs_of a.findings a.findings_provider)) a [] in
        record r.0 { findings = map (with_siblings r.1) r.0.findings }
