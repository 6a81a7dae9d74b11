-- ===== src/Cef.antt =====
-- The CEF lines of internal/siem/cef.go.
pub mod Escape
pub mod Truncate
pub mod Line
use archer.Prelude.{
  ℕ, zero, suc, ◌+◌, ◌-◌, ◌*◌, ◌/◌, ◌^◌, Bool, true, false, not, ◌&&◌, Option, none, some, List, [],
  ◌∷◌, ◌++◌, map, Text, codes, ltb, leb, ◌==◌, if◌then◌else◌, text_eq, length, take, decimal, split,
  trim_space, last_index_byte, replace_byte, join,
}
use archer.Net.{Net}
use archer.Finding.{Finding}
use archer.Attack.{Technique, techniques_for}

-- maxMsgLen
abbrev pub max_msg_len : ℕ
max_msg_len = 600

pub record TriageData : Type 0 where
  pub verdict : Text
  pub confidence : Text
  pub reason : Text
  pub provider : Text

-- cefSeverity, of a score that is not negative
unfoldable pub cef_severity : ℕ → ℕ
cef_severity score = let s = (score + 5) / 10 in if ltb 10 s then 10 else s

unfoldable pub cef_header_escape : Text → Text
cef_header_escape s =
    replace_byte b'|' (b'\\' ∷ b'|' ∷ []) (replace_byte b'\\' (b'\\' ∷ b'\\' ∷ []) s)

unfoldable pub cef_value_escape : Text → Text
cef_value_escape s = replace_byte b'\n' (b'\\' ∷ b'n' ∷ []) (
    replace_byte b'\r' []
      (replace_byte b'=' (b'\\' ∷ b'=' ∷ []) (replace_byte b'\\' (b'\\' ∷ b'\\' ∷ []) s)))

-- strconv.Atoi, as far as it tells a number from an error: a sign if any, then digits, in the range
-- of an int
unfoldable pub number : ℕ → Text → Option ℕ
number n [] = some n
number n (c ∷ s) =
    let rest = number (n * 10 + (c - b'0')) s in if leb b'0' c && leb c b'9' then rest else none

abbrev within : ℕ → Option ℕ → Bool
within bound none = false
within bound (some n) = leb n bound

abbrev pub atoi_ok : ℕ → Text → Bool
atoi_ok bound [] = false
atoi_ok bound (c ∷ s) = within bound (number 0 (c ∷ s))

unfoldable pub is_numeric : Text → Bool
is_numeric [] = false
is_numeric (c ∷ s) =
    if c == b'-'
    then atoi_ok (2 ^ 63) s
    else if c == b'+'
    then atoi_ok (2 ^ 63 - 1) s
    else atoi_ok (2 ^ 63 - 1) (c ∷ s)

-- the loop of truncateDetail over the segments
unfoldable pub keep_segments : ℕ → Text → List Text → Text
keep_segments max out [] = out
keep_segments max out (seg ∷ segs) =
    let trimmed = trim_space seg in
    let cand = if text_eq out [] then trimmed else out ++ (codes " | " ++ trimmed) in
    let skipped = keep_segments max out segs in
    let taken = keep_segments max cand segs in
    if text_eq trimmed [] then skipped else if ltb max (length cand) then out else taken

abbrev pub cut_at : Text → Option ℕ → Text
cut_at head none = head
cut_at head (some i) = if ltb 0 i then take i head else head

unfoldable pub truncate_detail : Text → ℕ → Text
truncate_detail s max =
    if leb (length s) max
    then s
    else let out = keep_segments max [] (split b'|' s) in
      if not (text_eq out [])
      then out
      else let head = take max s in cut_at head (last_index_byte head b' ')

-- the closure `add`: the builder after it
unfoldable pub add : Text → Text → Text → Text
add key val b =
    if text_eq val []
    then b
    else (if ltb 0 (length b) then b ++ (b' ' ∷ []) else b)
      ++ (key ++ (b'=' ∷ cef_value_escape val))

-- the closure `cs`
unfoldable pub cs : ℕ → Text → Text → Text → Text
cs n label val b =
    if text_eq val []
    then b
    else add (codes "cs" ++ decimal n) val
        (add (codes "cs" ++ (decimal n ++ codes "Label")) label b)

unfoldable pub ids_of : List Technique → List Text
ids_of [] = []
ids_of (t ∷ ts) = t.id ∷ ids_of ts

-- the header of a line, from its version, class, name and score
unfoldable pub header : Text → Text → Text → ℕ → Text
header version class name score =
    join
      (codes "CEF:0"
        ∷ codes "Archer"
        ∷ codes "Archer"
        ∷ cef_header_escape version
        ∷ class
        ∷ name
        ∷ decimal (cef_severity score)
        ∷ [])
      (codes "|")

-- attackIDs
unfoldable pub attack_ids : Text → Text
attack_ids type = join (ids_of (techniques_for type)) (codes ",")

-- The verdict in front of the detail, if there is one.
abbrev pub verdict_prefix : TriageData → Text
verdict_prefix t =
    codes "AI: "
    ++ (t.verdict
        ++ (if text_eq t.confidence [] then [] else codes " (" ++ (t.confidence ++ codes ")")))

unfoldable pub with_verdict : Option TriageData → Text → Text
with_verdict none detail = detail
with_verdict (some t) detail =
    if text_eq t.verdict []
    then detail
    else if text_eq detail []
    then verdict_prefix t
    else verdict_prefix t ++ (codes " | " ++ detail)

-- the verdict line of an AI Triage event; the dash is U+2014
unfoldable pub verdict_line : TriageData → Text
verdict_line t =
    t.verdict
    ++ ((if text_eq t.confidence [] then [] else codes " (" ++ (t.confidence ++ codes ")"))
        ++ (if text_eq t.reason [] then [] else b' ' ∷ 226 ∷ 128 ∷ 148 ∷ b' ' ∷ t.reason))

-- isIP
unfoldable pub is_ip : (net : Net) → Text → Bool
is_ip net s = if text_eq s [] then false else elim (net.parse_ip s) [ none ↦ false | some p ↦ true ]

module _ (net : Net) {Float : Type 0} where
  -- the address and port fields
  unfoldable pub add_endpoints : Finding Float → Text → Text
  add_endpoints f b =
      let b = if is_ip net f.src_ip then add (codes "src") f.src_ip b else b in
      let b = if is_ip net f.dst_ip then add (codes "dst") f.dst_ip b else b in
      if is_numeric f.dst_port then add (codes "dpt") f.dst_port b else b

  -- the last fields, the techniques and the time
  unfoldable pub add_trailer : Finding Float → Text → Text
  add_trailer f b =
      let ids = attack_ids f.type in
      let b =
        if text_eq ids []
        then b
        else add (codes "flexString1") ids (add (codes "flexString1Label") (codes "ATT&CK") b) in
      if text_eq f.timestamp []
      then b
      else add (codes "flexString2") f.timestamp
          (add (codes "flexString2Label") (codes "ArcherEventTime") b)

  abbrev pub ioc_reason : Finding Float → Text
  ioc_reason f = if text_eq f.ioc_source [] then codes "IOC/TI match" else f.ioc_source

  unfoldable pub build_extensions : Finding Float → Option TriageData → Text → Text
  build_extensions f triage deep_link =
      let b = add (codes "externalId") (decimal f.id) [] in
      let b = add_endpoints f b in
      let b = add (codes "app") f.service b in
      let b = add (codes "msg") (with_verdict triage (truncate_detail f.detail max_msg_len)) b in
      let b = cs 1 (codes "ArcherScore") (decimal f.score) b in
      let b = cs 2 (codes "ArcherSensor") f.sensor b in
      let b = cs 3 (codes "ArcherUrl") deep_link b in
      let b = cs 4 (codes "ArcherAnalyst") f.analyst b in
      let b = cs 5 (codes "ja3") f.ja3 b in
      let b = cs 6 (codes "ja4") f.ja4 b in
      let b = add (codes "dhost") f.hostname b in
      let b = add (codes "request") f.uri b in
      let b = if f.ioc_match then add (codes "reason") (ioc_reason f) b else b in add_trailer f b

  -- FormatCEFEnriched; FormatCEF is the case of no triage
  unfoldable pub format_cef : Finding Float → Option TriageData → Text → Text → Text
  format_cef f triage version deep_link =
      header version (cef_header_escape f.type) (cef_header_escape f.type) f.score
      ++ (b'|' ∷ build_extensions f triage deep_link)

  -- the extensions of FormatAITriageCEF
  unfoldable pub triage_extensions : Finding Float → TriageData → Text → Text
  triage_extensions f triage deep_link =
      let b = add (codes "externalId") (decimal f.id) [] in
      let b = add_endpoints f b in
      let b = add (codes "msg") (truncate_detail (verdict_line triage) max_msg_len) b in
      let b = cs 1 (codes "ArcherScore") (decimal f.score) b in
      let b = cs 2 (codes "AIVerdict") triage.verdict b in
      let b = cs 3 (codes "AIConfidence") triage.confidence b in
      let b = cs 4 (codes "ArcherUrl") deep_link b in
      let b = cs 5 (codes "AIProvider") triage.provider b in
      let b = cs 6 (codes "FindingType") f.type b in add_trailer f b

  -- FormatAITriageCEF
  unfoldable pub format_ai_triage_cef : Finding Float → TriageData → Text → Text → Text
  format_ai_triage_cef f triage version deep_link =
      header version (codes "ai_triage")
        (cef_header_escape
          (codes "AI Triage #" ++ (decimal f.id ++ (codes ": " ++ triage.verdict))))
        f.score
      ++ (b'|' ∷ triage_extensions f triage deep_link)
