-- ===== src/Cef/Line.antt =====
-- A CEF line as a whole: its header is read back field by field, and its extensions are one line.
use mathlib.Core.List.{append_assoc}
use archer.Prelude.{
  ℕ, zero, suc, ◌≡◌, refl, Bool, true, false, Option, none, some, List, [], ◌∷◌, ◌++◌, Text, codes,
  ltb, ◌==◌, if◌then◌else◌, text_eq, length, arith, All, is_digit, decimal, decimal-is_digit, join,
}
use archer.Net.{Net}
use archer.Finding.{Finding}
use archer.Cef.{
  TriageData, cef_severity, cef_header_escape, cef_value_escape, header, format_cef,
  format_ai_triage_cef, build_extensions, triage_extensions, add, cs, add_endpoints, add_trailer,
  is_ip, is_numeric, attack_ids, ioc_reason, truncate_detail, with_verdict, max_msg_len,
  verdict_line,
}
use archer.Cef.Escape.{
  is_line, is_line-IsLine, digits-IsLine, IsLine, IsLine-append, cef_value_escape-IsLine, read_from,
  read_field, read_field-cef_header_escape,
}

if-IsLine : (t : Bool) (x y : Text) → IsLine x → IsLine y → IsLine (if t then x else y)
if-IsLine true x y h k = h
if-IsLine false x y h k = k

add-IsLine : (key val b : Text) → IsLine key → IsLine b → IsLine (add key val b)
unfolding add
add-IsLine key val b k l =
    let value : IsLine (b'=' ∷ cef_value_escape val) = (refl, cef_value_escape-IsLine val) in
    let spaced : IsLine (if ltb 0 (length b) then b ++ (b' ' ∷ []) else b) =
      if-IsLine (ltb 0 (length b)) _ _ (IsLine-append b (b' ' ∷ []) l (refl, tt)) l in
    if-IsLine (text_eq val []) _ _ l (
      IsLine-append _ (key ++ (b'=' ∷ cef_value_escape val)) spaced
        (IsLine-append key (b'=' ∷ cef_value_escape val) k value))

-- the same for a key that is known
known-IsLine : (key val b : Text) → is_line key ≡ true → IsLine b → IsLine (add key val b)
known-IsLine key val b k l = add-IsLine key val b (is_line-IsLine key k) l

cs-IsLine :
    (n : ℕ) (label val b : Text) → is_line label ≡ true → IsLine b → IsLine (cs n label val b)
unfolding cs
cs-IsLine n label val b k l =
    let number : IsLine (decimal n) = digits-IsLine (decimal n) (decimal-is_digit n) in
    let name : IsLine (codes "cs" ++ decimal n) =
      IsLine-append (codes "cs") (decimal n) (is_line-IsLine (codes "cs") refl) number in
    let label_name : IsLine (codes "cs" ++ (decimal n ++ codes "Label")) =
      IsLine-append (codes "cs") (decimal n ++ codes "Label") (is_line-IsLine (codes "cs") refl)
        (IsLine-append (decimal n) (codes "Label") number (is_line-IsLine (codes "Label") refl)) in
    if-IsLine (text_eq val []) _ _ l (
      add-IsLine (codes "cs" ++ decimal n) val _ name
        (add-IsLine (codes "cs" ++ (decimal n ++ codes "Label")) label b label_name l))

module _ (net : Net) {Float : Type 0} (f : Finding Float) where
  add_endpoints-IsLine : (b : Text) → IsLine b → IsLine (add_endpoints net f b)
  unfolding add_endpoints
  add_endpoints-IsLine b l =
      let src =
        if-IsLine (is_ip net f.src_ip) _ _ (known-IsLine (codes "src") f.src_ip b refl l) l in
      let dst =
        if-IsLine (is_ip net f.dst_ip) _ _ (known-IsLine (codes "dst") f.dst_ip _ refl src) src in
      if-IsLine (is_numeric f.dst_port) _ _ (known-IsLine (codes "dpt") f.dst_port _ refl dst) dst

  add_trailer-IsLine : (b : Text) → IsLine b → IsLine (add_trailer net f b)
  unfolding add_trailer
  add_trailer-IsLine b l =
      let ids = attack_ids f.type in
      let labelled = if-IsLine (text_eq ids []) _ _ l (
        known-IsLine (codes "flexString1") ids _ refl
          (known-IsLine (codes "flexString1Label") (codes "ATT&CK") b refl l)) in
      if-IsLine (text_eq f.timestamp []) _ _ labelled (
        known-IsLine (codes "flexString2") f.timestamp _ refl
          (known-IsLine (codes "flexString2Label") (codes "ArcherEventTime") _ refl labelled))

  -- For every finding, triage data and link: the extensions that buildExtensions writes have no line
  -- break.
  pub build_extensions-IsLine :
      (triage : Option TriageData) (deep_link : Text)
      → IsLine (build_extensions net f triage deep_link)
  unfolding build_extensions
  build_extensions-IsLine triage deep_link =
      let l = known-IsLine (codes "externalId") (decimal f.id) [] refl tt in
      let l = add_endpoints-IsLine _ l in
      let l = known-IsLine (codes "app") f.service _ refl l in
      let l =
        known-IsLine (codes "msg") (with_verdict triage (truncate_detail f.detail max_msg_len)) _
          refl l in
      let l = cs-IsLine 1 (codes "ArcherScore") (decimal f.score) _ refl l in
      let l = cs-IsLine 2 (codes "ArcherSensor") f.sensor _ refl l in
      let l = cs-IsLine 3 (codes "ArcherUrl") deep_link _ refl l in
      let l = cs-IsLine 4 (codes "ArcherAnalyst") f.analyst _ refl l in
      let l = cs-IsLine 5 (codes "ja3") f.ja3 _ refl l in
      let l = cs-IsLine 6 (codes "ja4") f.ja4 _ refl l in
      let l = known-IsLine (codes "dhost") f.hostname _ refl l in
      let l = known-IsLine (codes "request") f.uri _ refl l in
      let l =
        if-IsLine f.ioc_match _ _ (known-IsLine (codes "reason") (ioc_reason net f) _ refl l) l in
      add_trailer-IsLine _ l

  -- For every finding, triage data and link: the extensions of an AI Triage event have no line
  -- break.
  pub triage_extensions-IsLine :
      (triage : TriageData) (deep_link : Text) → IsLine (triage_extensions net f triage deep_link)
  unfolding triage_extensions
  triage_extensions-IsLine triage deep_link =
      let l = known-IsLine (codes "externalId") (decimal f.id) [] refl tt in
      let l = add_endpoints-IsLine _ l in
      let l =
        known-IsLine (codes "msg") (truncate_detail (verdict_line triage) max_msg_len) _ refl l in
      let l = cs-IsLine 1 (codes "ArcherScore") (decimal f.score) _ refl l in
      let l = cs-IsLine 2 (codes "AIVerdict") triage.verdict _ refl l in
      let l = cs-IsLine 3 (codes "AIConfidence") triage.confidence _ refl l in
      let l = cs-IsLine 4 (codes "ArcherUrl") deep_link _ refl l in
      let l = cs-IsLine 5 (codes "AIProvider") triage.provider _ refl l in
      let l = cs-IsLine 6 (codes "FindingType") f.type _ refl l in add_trailer-IsLine _ l

abbrev in_front : Text → Option (List Text × Text) → Option (List Text × Text)
in_front x none = none
in_front x (some q) = some (x ∷ q.0, q.1)

abbrev and_then :
    Option (Text × Text) → (Text → Option (List Text × Text)) → Option (List Text × Text)
and_then none more = none
and_then (some r) more = in_front r.0 (more r.1)

-- The texts of `n` fields that a bar ends each, and what is left after them.
unfoldable pub read_fields : ℕ → Text → Option (List Text × Text)
read_fields zero s = some ([], s)
read_fields (suc n) s = and_then (read_field s) (λ rest. read_fields n rest)

read_fields-suc :
    (n : ℕ) (s x rest last : Text) (xs : List Text)
    → read_field s ≡ some (x, rest)
    → read_fields n rest ≡ some (xs, last)
    → read_fields (suc n) s ≡ some (x ∷ xs, last)
unfolding read_fields
read_fields-suc n s x rest last xs p q = rw p (rw q refl)

-- a text without the bytes that the header escapes is a field as it is
read_field-digits :
    (s rest : Text)
    → All (λ c. is_digit c ≡ true) s
    → read_field (s ++ (b'|' ∷ rest)) ≡ some (s, rest)
unfolding read_from
read_field-digits [] rest h = refl
read_field-digits (c ∷ s) rest h =
    let not_backslash : (c == b'\\') ≡ false = ground (arith, h.0) in
    let not_bar : (c == b'|') ≡ false = ground (arith, h.0) in
    rw not_backslash (rw not_bar (rw (read_field-digits s rest h.1) refl))

header_fields :
    (version class name : Text) (score : ℕ) (extensions : Text)
    → header version class name score ++ (b'|' ∷ extensions)
      ≡ codes "CEF:0|Archer|Archer|"
        ++ (cef_header_escape version
            ++ (b'|'
                ∷ (class
                    ++ (b'|'
                        ∷ (name
                            ++ (b'|' ∷ (decimal (cef_severity score) ++ (b'|' ∷ extensions))))))))
unfolding header join
header_fields version class name score extensions = simp append_assoc

-- How a header is read, if its class and name are.
read_fields-header :
    (version class name class_text name_text : Text) (score : ℕ) (extensions : Text)
    → ((rest : Text) → read_field (class ++ (b'|' ∷ rest)) ≡ some (class_text, rest))
    → ((rest : Text) → read_field (name ++ (b'|' ∷ rest)) ≡ some (name_text, rest))
    → read_fields 7 (header version class name score ++ (b'|' ∷ extensions))
      ≡ some (
        codes "CEF:0"
            ∷ codes "Archer"
            ∷ codes "Archer"
            ∷ version
            ∷ class_text
            ∷ name_text
            ∷ decimal (cef_severity score)
            ∷ [],
        extensions,
      )
unfolding read_fields read_from
read_fields-header version class name class_text name_text score extensions p q =
    rw (header_fields version class name score extensions) (
      rw (read_field-cef_header_escape version _) (
        rw p (
          rw q (
            rw
              (read_field-digits (decimal (cef_severity score)) extensions
                (decimal-is_digit (cef_severity score)))
              refl))))

module _ (net : Net) {Float : Type 0} (f : Finding Float) where
  -- For every finding, triage data, version and link: the line that FormatCEFEnriched writes reads
  -- back as the seven header fields, the severity among them, and the extensions, whatever bars and
  -- backslashes the version and the type hold.
  pub read_fields-format_cef :
      (triage : Option TriageData) (version deep_link : Text)
      → read_fields 7 (format_cef net f triage version deep_link)
        ≡ some (
          codes "CEF:0"
              ∷ codes "Archer"
              ∷ codes "Archer"
              ∷ version
              ∷ f.type
              ∷ f.type
              ∷ decimal (cef_severity f.score)
              ∷ [],
          build_extensions net f triage deep_link,
        )
  unfolding format_cef
  read_fields-format_cef triage version deep_link =
      read_fields-header version _ _ f.type f.type f.score _ (read_field-cef_header_escape f.type)
        (read_field-cef_header_escape f.type)

  -- For every finding, triage data, version and link: the line of an AI Triage event reads back
  -- as its seven header fields, with the class `ai_triage` and a name of the id and the verdict,
  -- and its extensions, whatever bars and backslashes the version and the verdict hold.
  pub read_fields-format_ai_triage_cef :
      (triage : TriageData) (version deep_link : Text)
      → read_fields 7 (format_ai_triage_cef net f triage version deep_link)
        ≡ some (
          codes "CEF:0"
              ∷ codes "Archer"
              ∷ codes "Archer"
              ∷ version
              ∷ codes "ai_triage"
              ∷ (codes "AI Triage #" ++ (decimal f.id ++ (codes ": " ++ triage.verdict)))
              ∷ decimal (cef_severity f.score)
              ∷ [],
          triage_extensions net f triage deep_link,
        )
  unfolding format_ai_triage_cef read_from
  read_fields-format_ai_triage_cef triage version deep_link =
      read_fields-header version _ _ (codes "ai_triage") _ f.score _ (λ rest. refl)
        (read_field-cef_header_escape _)
