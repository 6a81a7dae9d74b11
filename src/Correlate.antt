-- ===== src/Correlate.antt =====
-- The pairs of correlateFindings of internal/analysis/correlate.go. A Go map is a list of its
-- entries, the first made first; where the code ranges over a map, the model goes in that order.
pub mod Order
pub mod Rows
pub mod Pairs
pub mod Links
use archer.Prelude.{
  ℕ, zero, suc, ◌+◌, ◌-◌, ◌*◌, Bool, true, false, not, ◌&&◌, ◌||◌, Option, none, some, List, [],
  ◌∷◌, ◌++◌, map, Text, codes, ltb, leb, ◌==◌, if◌then◌else◌, text_eq, any, length, join, decimal,
  ℤ, pos, negsuc, negate,
}
use archer.Finding.{Finding}
use archer.Finding.Identity.{Fingerprint, same, fingerprint}

abbrev pub type_correlated_activity : Text
type_correlated_activity = codes "Correlated Activity"

-- the types that correlationEligibleType refuses
abbrev pub ineligible_types : List Text
ineligible_types =
    codes "Host Risk Score"
    ∷ type_correlated_activity
    ∷ codes "Multi-Stage Beacon"
    ∷ codes "Zeek Notice"
    ∷ codes "Long Connection"
    ∷ []

unfoldable pub correlation_eligible_type : Text → Bool
correlation_eligible_type t = not (any (text_eq t) ineligible_types)

pub record PairKey : Type 0 where
  pub sensor : Text
  pub src : Text
  pub dst : Text

unfoldable pub same_key : PairKey → PairKey → Bool
same_key a b = text_eq a.sensor b.sensor && (text_eq a.src b.src && text_eq a.dst b.dst)

-- `s < t` of two strings
unfoldable pub text_lt : Text → Text → Bool
text_lt s [] = false
text_lt [] (d ∷ t) = true
text_lt (c ∷ s) (d ∷ t) = if c == d then text_lt s t else ltb c d

-- the order of sort.Slice
unfoldable pub key_lt : PairKey → PairKey → Bool
key_lt a b =
    if not (text_eq a.sensor b.sensor)
    then text_lt a.sensor b.sensor
    else if not (text_eq a.src b.src)
    then text_lt a.src b.src
    else text_lt a.dst b.dst

-- pairData; `types` holds a type once
pub record PairData : Type 0 where
  pub types : List Text
  pub max_score : ℕ
  pub earliest_ts : Text
  pub ids_by_fingerprint : List (Fingerprint × ℤ)

abbrev pub Pairs : Type 0
Pairs = List (PairKey × PairData)

abbrev pub no_data : PairData
no_data = record { types = []; max_score = 0; earliest_ts = []; ids_by_fingerprint = [] }

-- `m[t] = true`
unfoldable pub add_type : Text → List Text → List Text
add_type t ts = if any (text_eq t) ts then ts else ts ++ (t ∷ [])

unfoldable pub is_seen : Fingerprint → List (Fingerprint × ℤ) → Bool
is_seen fp m = any (λ (e : Fingerprint × ℤ). same fp e.0) m

unfoldable pub earlier : Text → Text → Text
earlier t best = if not (text_eq t []) && (text_eq best [] || text_lt t best) then t else best

-- `pairs[key]`, made if it is not there, with the finding
unfoldable pub put_pair : PairKey → (PairData → PairData) → Pairs → Pairs
put_pair k g [] = (k, g no_data) ∷ []
put_pair k g ((j, d) ∷ m) = if same_key j k then (j, g d) ∷ m else (j, d) ∷ put_pair k g m

module _ {Float : Type 0} where
  -- What contribute does with the pair's data. The id of a historical finding is negated.
  unfoldable pub with_finding : Bool → Finding Float → PairData → PairData
  with_finding historical f d = record {
    types = add_type f.type d.types;
    max_score = if ltb d.max_score f.score then f.score else d.max_score;
    earliest_ts = earlier f.timestamp d.earliest_ts;
    ids_by_fingerprint =
        if is_seen (fingerprint f) d.ids_by_fingerprint
        then d.ids_by_fingerprint
        else d.ids_by_fingerprint
          ++ ((fingerprint f, if historical then negate f.id else pos f.id) ∷ []);
  }

  unfoldable pub key_of : Finding Float → PairKey
  key_of f = record { sensor = f.sensor; src = f.src_ip; dst = f.dst_ip }

  -- the guards of contribute
  unfoldable pub contributes : Finding Float → Bool
  contributes f =
      if not (correlation_eligible_type f.type)
      then false
      else if text_eq f.src_ip [] || text_eq f.dst_ip []
      then false
      else not (
          text_eq f.dst_ip (codes "(network)")
          || (text_eq f.src_ip (codes "(cert)")
              || (text_eq f.src_ip (codes "(escalation)") || text_eq f.src_ip (codes "(TI)"))))

  unfoldable pub contribute : Bool → Finding Float → Pairs → Pairs
  contribute historical f m =
      if contributes f then put_pair (key_of f) (with_finding historical f) m else m

  unfoldable pub collect : Bool → List (Finding Float) → Pairs → Pairs
  collect historical [] m = m
  collect historical (f ∷ fs) m = collect historical fs (contribute historical f m)

  abbrev pub history : Option (List (Finding Float)) → List (Finding Float)
  history none = []
  history (some fs) = fs

  -- the pairs of a run: its findings first, then those of the provider
  unfoldable pub pairs_of : List (Finding Float) → Option (List (Finding Float)) → Pairs
  pairs_of fs provider = collect true (history provider) (collect false fs [])
