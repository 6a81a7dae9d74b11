-- ===== src/Query/Term/Vocabulary.antt =====
-- The closed vocabularies of the query language: the field tables of internal/query/term.go, and
-- the finding types of internal/model/finding.go.
use archer.Prelude.{
  ℕ, Bool, ◌&&◌, ◌||◌, List, [], ◌∷◌, Text, codes, text_eq, ◌==◌, leb, any, equal_fold,
}

abbrev pub field_alias : List (Text × Text)
field_alias =
    (codes "src_ip", codes "src")
    ∷ (codes "dst_ip", codes "dst")
    ∷ (codes "dst_port", codes "port")
    ∷ (codes "timestamp", codes "ts")
    ∷ (codes "connections", codes "conns")
    ∷ (codes "mean_interval", codes "meanint")
    ∷ (codes "median_interval", codes "medint")
    ∷ (codes "direction", codes "dir")
    ∷ (codes "analyst_note", codes "note")
    ∷ (codes "detected_at", codes "detected")
    ∷ []

abbrev pub known_fields : List Text
known_fields =
    codes "id"
    ∷ codes "type"
    ∷ codes "severity"
    ∷ codes "score"
    ∷ codes "src"
    ∷ codes "dst"
    ∷ codes "port"
    ∷ codes "detail"
    ∷ codes "hostname"
    ∷ codes "sensor"
    ∷ codes "status"
    ∷ codes "ts"
    ∷ codes "ioc"
    ∷ codes "spectral"
    ∷ codes "ja3"
    ∷ codes "ja4"
    ∷ codes "file"
    ∷ codes "tscore"
    ∷ codes "dscore"
    ∷ codes "hist"
    ∷ codes "dur"
    ∷ codes "conns"
    ∷ codes "meanint"
    ∷ codes "medint"
    ∷ codes "jitter"
    ∷ codes "uri"
    ∷ codes "note"
    ∷ codes "analyst"
    ∷ codes "dir"
    ∷ codes "detected"
    ∷ codes "channel"
    ∷ codes "benign"
    ∷ codes "service"
    ∷ codes "attack"
    ∷ codes "outratio"
    ∷ codes "ai"
    ∷ []

-- the cases of the switch on a direction
abbrev pub directions : List Text
directions =
    codes "outbound" ∷ codes "inbound" ∷ codes "internal" ∷ codes "lateral" ∷ codes "external" ∷ []

-- the byte class that a field name is made of
abbrev pub is_name_byte : ℕ → Bool
is_name_byte c =
    leb b'a' c && leb c b'z' || leb b'A' c && leb c b'Z' || leb b'0' c && leb c b'9' || c == b'_'

unfoldable pub known_finding_types : List Text
known_finding_types =
    codes "Beacon"
    ∷ codes "HTTP Beacon"
    ∷ codes "DNS Beacon"
    ∷ codes "Port-Hopping Beacon"
    ∷ codes "Strobe"
    ∷ codes "Long Connection"
    ∷ codes "Data Exfiltration"
    ∷ codes "Off-Hours Transfer"
    ∷ codes "Lateral Movement"
    ∷ codes "DNS Tunneling"
    ∷ codes "DNS NXDOMAIN Flood"
    ∷ codes "DNS Subdomain DGA"
    ∷ codes "C2 Port"
    ∷ codes "C2 URI Pattern"
    ∷ codes "Protocol on Unexpected Port"
    ∷ codes "Admin Protocol Egress"
    ∷ codes "Database Protocol Egress"
    ∷ codes "Cobalt Strike URI"
    ∷ codes "Domain Fronting"
    ∷ codes "DoH Bypass"
    ∷ codes "Malicious JA3"
    ∷ codes "Malicious JA4"
    ∷ codes "SSL No-SNI"
    ∷ codes "SSL No-SNI on C2 Port"
    ∷ codes "Suspicious Certificate"
    ∷ codes "Suspicious File Download"
    ∷ codes "Suspicious TLD"
    ∷ codes "Suspicious UA"
    ∷ codes "Zeek Notice"
    ∷ codes "Suspicious URL"
    ∷ codes "TI Hit (IP)"
    ∷ codes "TI Hit (Domain)"
    ∷ codes "TI Hit (Hash)"
    ∷ codes "Threat Intel Hit"
    ∷ codes "Host Risk Score"
    ∷ codes "Correlated Activity"
    ∷ codes "Multi-Stage Beacon"
    ∷ codes "Weak TLS"
    ∷ codes "Protocol Anomaly"
    ∷ []

-- model.IsKnownFindingType: the map's own key, or any key up to case
unfoldable pub is_known_finding_type : Text → Bool
is_known_finding_type t =
    any (text_eq t) known_finding_types || any (λ k. equal_fold k t) known_finding_types

-- model.IsBeaconType
unfoldable pub is_beacon_type : Text → Bool
is_beacon_type t =
    text_eq t (codes "Beacon")
    || text_eq t (codes "HTTP Beacon")
    || text_eq t (codes "DNS Beacon")
    || text_eq t (codes "Port-Hopping Beacon")
