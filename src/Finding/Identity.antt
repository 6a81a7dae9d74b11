-- ===== src/Finding/Identity.antt =====
-- The identities of a finding, and its families of types, in internal/model/finding.go.
pub mod HistoryKey
use archer.Prelude.{
  ◌≡◌, sym, ap, ◌∙◌, inl, inr, Bool-cases, false≢true, Bool, true, false, ◌&&◌, List, [], ◌∷◌, map,
  Text, codes, if◌then◌else◌, text_eq, text_eq_sound, text_eq_refl, any, arith, replace_byte, join,
}
use archer.Finding.{Finding}

pub record Fingerprint : Type 0 where
  pub type : Text
  pub src_ip : Text
  pub dst_ip : Text
  pub dst_port : Text
  pub sensor : Text
  pub hostname : Text
  pub uri : Text
  pub channel : Text

-- equality of two fingerprints as map keys
unfoldable pub same : Fingerprint → Fingerprint → Bool
same a b =
    text_eq a.type b.type
    && (text_eq a.src_ip b.src_ip
        && (text_eq a.dst_ip b.dst_ip
            && (text_eq a.dst_port b.dst_port
                && (text_eq a.sensor b.sensor
                    && (text_eq a.hostname b.hostname
                        && (text_eq a.uri b.uri && text_eq a.channel b.channel))))))

pub same-eq : (a b : Fingerprint) → same a b ≡ true → a ≡ b
unfolding same
same-eq a b h = cc (
  text_eq_sound a.type b.type (ground arith),
  text_eq_sound a.src_ip b.src_ip (ground arith),
  text_eq_sound a.dst_ip b.dst_ip (ground arith),
  text_eq_sound a.dst_port b.dst_port (ground arith),
  text_eq_sound a.sensor b.sensor (ground arith),
  text_eq_sound a.hostname b.hostname (ground arith),
  text_eq_sound a.uri b.uri (ground arith),
  text_eq_sound a.channel b.channel (ground arith),
)

pub same_refl : (a : Fingerprint) → same a a ≡ true
unfolding same
same_refl a = ground (
  arith,
  text_eq_refl a.type,
  text_eq_refl a.src_ip,
  text_eq_refl a.dst_ip,
  text_eq_refl a.dst_port,
  text_eq_refl a.sensor,
  text_eq_refl a.hostname,
  text_eq_refl a.uri,
  text_eq_refl a.channel,
)

-- A fingerprint that is one of two that differ is not the other.
pub same_apart : (a b c : Fingerprint) → same a b ≡ false → same c b ≡ true → same c a ≡ false
same_apart a b c h k = elim (Bool-cases (same c a)) [
  | inl p ↦
      let ab : a ≡ b = sym (same-eq c a p) ∙ same-eq c b k in
      absurd (false≢true (sym h ∙ ap (λ x. same a x) (sym ab) ∙ same_refl a))
  | inr p ↦ p
]

-- Finding.Fingerprint; a channel that is not set is the empty text
unfoldable pub fingerprint : {Float : Type 0} → Finding Float → Fingerprint
fingerprint f =
    let http = text_eq f.type (codes "HTTP Beacon") in
    record {
      type = f.type;
      src_ip = f.src_ip;
      dst_ip = f.dst_ip;
      dst_port = f.dst_port;
      sensor = f.sensor;
      hostname = if http then f.hostname else [];
      uri = if http then f.uri else [];
      channel = f.channel;
    }

unfoldable pub scrub_separator : Text → Text
scrub_separator s = replace_byte 31 (30 ∷ []) s

-- BeaconHistoryKey
unfoldable pub beacon_history_key : {Float : Type 0} → Finding Float → Text
beacon_history_key f =
    join
      (map scrub_separator (
        f.type
        ∷ f.src_ip
        ∷ f.dst_ip
        ∷ f.dst_port
        ∷ f.hostname
        ∷ f.uri
        ∷ f.sensor
        ∷ (if text_eq f.channel [] then [] else f.channel ∷ [])))
      (31 ∷ [])

abbrev pub rollup_types : List Text
rollup_types =
    codes "Host Risk Score" ∷ codes "Correlated Activity" ∷ codes "Multi-Stage Beacon" ∷ []

-- IsRollupType
unfoldable pub is_rollup_type : Text → Bool
is_rollup_type t = any (text_eq t) rollup_types

-- IsThreatIntelType
unfoldable pub is_threat_intel_type : Text → Bool
is_threat_intel_type t = any (text_eq t) (
    codes "TI Hit (IP)"
    ∷ codes "TI Hit (Domain)"
    ∷ codes "TI Hit (Hash)"
    ∷ codes "Suspicious URL"
    ∷ codes "Threat Intel Hit"
    ∷ [])
