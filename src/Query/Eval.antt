-- ===== src/Query/Eval.antt =====
-- Evaluation of a parsed query on a finding: `eval` of the nodes in internal/query/query.go and of
-- the leaves in internal/query/term.go.
pub mod Scope
use archer.Prelude.{
  Bool, true, false, not, ◌&&◌, ◌||◌, Option, none, some, List, [], ◌∷◌, ◌++◌, Text, codes, ◌==◌,
  if◌then◌else◌, any, text_eq, to_lower, equal_fold, contains, lookup_text,
}
use archer.Net.{Net, Floats, Times}
use archer.Finding.{Finding}
use archer.Attack.{techniques_for}
use archer.Query.Term.{Term}
use archer.Query.Term.Vocabulary.{is_beacon_type}
use archer.Query.Match.{
  string_pattern_match, port_match, bool_match, parse_ip_literal, dir_match, ip_field_match,
  is_plain, numeric_match, ts_match, ts_match_time,
}
use archer.Query.Parse.{Node, match_all, and_node, or_node, not_node, leaf}

-- attackMatch
unfoldable pub attack_match : Text → Text → Bool
attack_match finding_type val =
    any
      (λ t.
        string_pattern_match t.id val
        || string_pattern_match t.tactic val
        || string_pattern_match t.name val)
      (techniques_for finding_type)

abbrev pub service_query_aliases : List (Text × Text)
service_query_aliases =
    (codes "vnc", codes "rfb")
    ∷ (codes "tls", codes "ssl")
    ∷ (codes "https", codes "ssl")
    ∷ (codes "kerberos", codes "krb")
    ∷ (codes "cifs", codes "smb")
    ∷ (codes "microsoft-ds", codes "smb")
    ∷ []

abbrev pub aliased : Text → Option Text → Bool
aliased service none = false
aliased service (some alias) = string_pattern_match service alias

-- the case "service" of eval
unfoldable pub service_match : Text → Text → Bool
service_match service value =
    string_pattern_match service value
    || aliased service (lookup_text (to_lower value) service_query_aliases)

-- model.AuthorAITriage
abbrev pub author_ai_triage : Text
author_ai_triage = codes "AI Triage"

module _ (net : Net) (floats : Floats) (times : Times) where
  open floats use {Float, of_int, quotient, infinity}
  open times use {Location, of_unix}

  -- subScore; 0 for any other field
  unfoldable pub sub_score : Finding Float → Text → Float
  sub_score f field =
      if text_eq field (codes "tscore")
      then f.ts_score
      else if text_eq field (codes "dscore")
      then f.ds_score
      else if text_eq field (codes "hist")
      then f.hist_score
      else if text_eq field (codes "dur")
      then f.dur_score
      else of_int 0

  -- beaconMetric
  unfoldable pub beacon_metric : Finding Float → Text → Float
  beacon_metric f field =
      if text_eq field (codes "conns")
      then of_int f.sample_size
      else if text_eq field (codes "meanint")
      then f.mean_interval
      else if text_eq field (codes "medint")
      then f.median_interval
      else if text_eq field (codes "jitter")
      then f.jitter
      else of_int 0

  -- the text that a bare term is looked for in
  unfoldable pub haystack : Finding Float → Text
  haystack f =
      f.type
      ++ (b' ' ∷ f.src_ip
          ++ (b' ' ∷ f.dst_ip
              ++ (b' ' ∷ f.dst_port
                  ++ (b' ' ∷ f.detail ++ (b' ' ∷ f.timestamp ++ (b' ' ∷ f.severity))))))

  -- evalBare
  unfoldable pub eval_bare : Finding Float → Term → Bool
  eval_bare f t =
      if not t.phrase && parse_ip_literal net t.value
      then equal_fold f.src_ip t.value || equal_fold f.dst_ip t.value
      else contains (to_lower (haystack f)) (to_lower t.value)

  -- the case "outratio"
  unfoldable pub out_ratio_match : Finding Float → Term → Bool
  out_ratio_match f t =
      if f.orig_bytes == 0 && f.resp_bytes == 0
      then false
      else if f.resp_bytes == 0
      then numeric_match floats infinity t
      else numeric_match floats (quotient (of_int f.orig_bytes) (of_int f.resp_bytes)) t

  abbrev pub is_one_of : Text → List Text → Bool
  is_one_of field = any (text_eq field)

  -- the cases of the switch whose value is text
  unfoldable pub eval_text : Finding Float → Term → Text → Option Bool
  eval_text f t field =
      if text_eq field (codes "type")
      then some (
          if equal_fold t.value (codes "beacons")
          then is_beacon_type f.type
          else equal_fold f.type t.value)
      else if text_eq field (codes "severity")
      then some (equal_fold f.severity t.value)
      else if text_eq field (codes "sensor")
      then some (text_eq f.sensor t.value)
      else if text_eq field (codes "status")
      then some (
          if equal_fold t.value (codes "open")
          then text_eq f.status []
          else equal_fold f.status t.value)
      else if text_eq field (codes "detail")
      then some (string_pattern_match f.detail t.value)
      else if text_eq field (codes "hostname")
      then some (string_pattern_match f.hostname t.value)
      else if text_eq field (codes "file")
      then some (string_pattern_match f.source_file t.value)
      else if text_eq field (codes "service")
      then some (service_match f.service t.value)
      else if text_eq field (codes "attack")
      then some (attack_match f.type t.value)
      else if text_eq field (codes "uri")
      then some (string_pattern_match f.uri t.value)
      else if text_eq field (codes "note")
      then some (string_pattern_match f.analyst_note t.value)
      else if text_eq field (codes "analyst")
      then some (string_pattern_match f.analyst t.value)
      else if text_eq field (codes "ja3")
      then some (equal_fold f.ja3 t.value)
      else if text_eq field (codes "ja4")
      then some (equal_fold f.ja4 t.value)
      else none

  -- the cases about addresses and ports
  unfoldable pub eval_network : Finding Float → Term → Text → Option Bool
  eval_network f t field =
      if text_eq field (codes "dir")
      then some (dir_match net f.src_ip f.dst_ip t.value)
      else if text_eq field (codes "src")
      then some (ip_field_match net f.src_ip t)
      else if text_eq field (codes "dst")
      then some (ip_field_match net f.dst_ip t)
      else if text_eq field (codes "port")
      then some (is_plain t.op && port_match f.dst_port t.value)
      else none

  -- the cases about numbers
  unfoldable pub eval_number : Finding Float → Term → Text → Option Bool
  eval_number f t field =
      if text_eq field (codes "id")
      then some (numeric_match floats (of_int f.id) t)
      else if text_eq field (codes "score")
      then some (numeric_match floats (of_int f.score) t)
      else if is_one_of field (codes "tscore" ∷ codes "dscore" ∷ codes "hist" ∷ codes "dur" ∷ [])
      then some (is_beacon_type f.type && numeric_match floats (sub_score f field) t)
      else if is_one_of field
          (codes "conns" ∷ codes "meanint" ∷ codes "medint" ∷ codes "jitter" ∷ [])
      then some (is_beacon_type f.type && numeric_match floats (beacon_metric f field) t)
      else if text_eq field (codes "outratio")
      then some (out_ratio_match f t)
      else none

  -- the cases about flags
  unfoldable pub eval_flag : Finding Float → Term → Text → Option Bool
  eval_flag f t field =
      if text_eq field (codes "ioc")
      then some (bool_match f.ioc_match t.value)
      else if text_eq field (codes "spectral")
      then some (bool_match f.spectral_rescued t.value)
      else if text_eq field (codes "channel")
      then some (bool_match (not (text_eq f.channel [])) t.value)
      else if text_eq field (codes "benign")
      then some (bool_match f.tls_allowlisted t.value)
      else if text_eq field (codes "ai")
      then some (bool_match (any (λ n. text_eq n.author author_ai_triage) f.notes) t.value)
      else none

  -- the cases about times, and the end of the function
  unfoldable pub eval_time : Finding Float → Term → Location → Text → Bool
  eval_time f t loc field =
      if text_eq field (codes "ts")
      then ts_match times f.timestamp t loc
      else if text_eq field (codes "detected")
      then (if f.detected_at == 0 then false else ts_match_time times (of_unix f.detected_at) t loc)
      else false

  abbrev pub or_next : Option Bool → Bool → Bool
  or_next none rest = rest
  or_next (some b) rest = b

  -- term.eval: the switch on the field, whose cases exclude one another
  unfoldable pub eval_term : Finding Float → Term → Location → Bool
  unfolding eval_text eval_network eval_number eval_flag eval_time
  eval_term f t loc =
      if text_eq t.field []
      then eval_bare f t
      else or_next (eval_text f t t.field) (
          or_next (eval_network f t t.field) (
            or_next (eval_number f t t.field)
              (or_next (eval_flag f t t.field) (eval_time f t loc t.field))))

  -- node.eval
  unfoldable pub eval : Finding Float → Location → Node → Bool
  eval f loc match_all = true
  eval f loc (and_node l r) = eval f loc l && eval f loc r
  eval f loc (or_node l r) = eval f loc l || eval f loc r
  eval f loc (not_node n) = not (eval f loc n)
  eval f loc (leaf t) = eval_term f t loc

  -- (*Query).Match: no location is UTC
  unfoldable pub match_query : Node → Finding Float → Option Location → Bool
  match_query root f none = eval f times.utc root
  match_query root f (some loc) = eval f loc root
