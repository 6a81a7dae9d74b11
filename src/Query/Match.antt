-- ===== src/Query/Match.antt =====
-- The field matchers of internal/query/match.go. globFold is Glob.glob_fold.
pub mod Pattern
pub mod Direction
pub mod Order
use archer.Prelude.{
  ℕ, ◌+◌, Bool, true, false, not, ◌&&◌, ◌||◌, Option, none, some, List, [], ◌∷◌, ◌++◌, Text, codes,
  ◌==◌, if◌then◌else◌, any, text_eq, to_lower, equal_fold, contains, trim_space, split,
}
use archer.Glob.{glob_fold}
use archer.Net.{Net, Floats, Times}
use archer.Query.Term.{Op, plain, ge, le, gt, lt, eq, range, Term}

-- strings.ContainsAny(pattern, "*?")
abbrev pub is_wild : Text → Bool
is_wild = any (λ c. c == b'*' || c == b'?')

unfoldable pub string_pattern_match : Text → Text → Bool
string_pattern_match s pattern =
    if is_wild pattern
    then glob_fold (b'*' ∷ pattern ++ (b'*' ∷ [])) s
    else contains (to_lower s) (to_lower pattern)

unfoldable pub port_match : Text → Text → Bool
port_match port value = any (λ p. text_eq (trim_space p) port) (split b',' value)

unfoldable pub bool_match : Bool → Text → Bool
bool_match actual value =
    let v = to_lower (trim_space value) in
    if text_eq v (codes "true")
    then actual
    else if text_eq v (codes "false")
    then not actual
    else false

abbrev pub is_some {ℓ} : {A : Type ℓ} → Option A → Bool
is_some none = false
is_some (some _) = true

abbrev pub is_plain : Op → Bool
is_plain plain = true
is_plain _ = false

module _ (net : Net) where
  open net use {
    Ip, Block, parse_ip, parse_cidr, covers, is_private, is_loopback, is_link_local_unicast,
  }

  -- parseIPLiteral
  unfoldable pub parse_ip_literal : Text → Bool
  parse_ip_literal s = is_some (parse_ip s)

  abbrev pub internal : Option Ip → Option Bool
  internal none = none
  internal (some ip) = some (is_private ip || is_loopback ip || is_link_local_unicast ip)

  -- isInternalIP: `none` where the address does not parse
  unfoldable pub is_internal_ip : Text → Option Bool
  is_internal_ip s = internal (parse_ip s)

  -- the switch of dirMatch, for two placed endpoints
  unfoldable pub direction_match : Bool → Bool → Text → Bool
  direction_match si di v =
      if text_eq v (codes "outbound")
      then si && not di
      else if text_eq v (codes "inbound")
      then not si && di
      else if text_eq v (codes "internal") || text_eq v (codes "lateral")
      then si && di
      else if text_eq v (codes "external")
      then not si && not di
      else false

  abbrev pub placed : Option Bool → Option Bool → Text → Bool
  placed (some si) (some di) v = direction_match si di v
  placed _ _ v = false

  unfoldable pub dir_match : Text → Text → Text → Bool
  dir_match src dst value = placed (is_internal_ip src) (is_internal_ip dst) (to_lower value)

  abbrev pub holds : Option Bool → (Bool → Bool) → Bool
  holds none p = false
  holds (some b) p = p b

  abbrev pub covered : Option Block → Text → Bool → Bool
  covered none ip otherwise = otherwise
  covered (some block) ip otherwise = elim (parse_ip ip) [ none ↦ false | some p ↦ covers block p ]

  unfoldable pub ip_field_match : Text → Term → Bool
  ip_field_match ip t =
      let v = to_lower t.value in
      if not (is_plain t.op)
      then false
      else if text_eq v (codes "rfc1918") || text_eq v (codes "private")
      then holds (is_internal_ip ip) (λ b. b)
      else if text_eq v (codes "public") || text_eq v (codes "external")
      then holds (is_internal_ip ip) (λ b. not b)
      else covered (parse_cidr t.value) ip (
          if parse_ip_literal t.value
          then equal_fold ip t.value
          else string_pattern_match ip t.value)

module _ (floats : Floats) where
  open floats use {Float, parse_float}

  unfoldable pub parse_num : Text → Option Float
  parse_num s = parse_float (trim_space s)

  -- the switch of numericMatch; `a >= b` is `b <= a`
  unfoldable pub compare_num : Op → Float → Float → Bool
  compare_num ge v n = floats.le n v
  compare_num le v n = floats.le v n
  compare_num gt v n = floats.lt n v
  compare_num lt v n = floats.lt v n
  compare_num eq v n = floats.eq v n
  compare_num plain v n = floats.eq v n
  compare_num range v n = false

  abbrev pub between : Float → Option Float → Option Float → Bool
  between v (some lo) (some hi) = floats.le lo v && floats.le v hi
  between v _ _ = false

  abbrev pub compared : Op → Float → Option Float → Bool
  compared op v none = false
  compared op v (some n) = compare_num op v n

  abbrev pub numeric_cases : Op → Float → Term → Bool
  numeric_cases range v t = between v (parse_num t.lo) (parse_num t.hi)
  numeric_cases op v t = compared op v (parse_num t.value)

  unfoldable pub numeric_match : Float → Term → Bool
  numeric_match v t = numeric_cases t.op v t

module _ (times : Times) where
  open times use {
    Time, Location, utc, before, same_instant, parse_datetime, parse_rfc3339, parse_date, next_day,
  }

  abbrev pub dated : Option Time → Option (Time × Bool)
  dated none = none
  dated (some t) = some (t, true)

  abbrev pub or_else : Option Time → Option (Time × Bool) → Option (Time × Bool)
  or_else none rest = rest
  or_else (some t) rest = some (t, false)

  -- parseTimeFlexible: the time, and whether the text is a date only
  unfoldable pub parse_time_flexible : Text → Location → Option (Time × Bool)
  parse_time_flexible text loc =
      let s = trim_space text in
      or_else (parse_datetime s loc) (or_else (parse_rfc3339 s loc) (dated (parse_date s loc)))

  -- the switch of tsMatchTime
  unfoldable pub compare_time : Op → Time → Time → Bool → Bool
  compare_time ge ft v date_only = not (before ft v)
  compare_time gt ft v date_only = if date_only then not (before ft (next_day v)) else before v ft
  compare_time le ft v date_only = if date_only then before ft (next_day v) else not (before v ft)
  compare_time lt ft v date_only = before ft v
  compare_time _ ft v date_only =
      if date_only then not (before ft v) && before ft (next_day v) else same_instant ft v

  abbrev pub within : Time → Option (Time × Bool) → Option (Time × Bool) → Bool
  within ft (some (from, _)) (some (hi, hi_date_only)) =
      not (before ft from) && before ft (if hi_date_only then next_day hi else hi)
  within ft _ _ = false

  abbrev pub compared_time : Op → Time → Option (Time × Bool) → Bool
  compared_time op ft none = false
  compared_time op ft (some (v, date_only)) = compare_time op ft v date_only

  abbrev pub time_cases : Op → Time → Term → Location → Bool
  time_cases range ft t loc =
      within ft (parse_time_flexible t.lo loc) (parse_time_flexible t.hi loc)
  time_cases op ft t loc = compared_time op ft (parse_time_flexible t.value loc)

  -- tsMatchTime
  unfoldable pub ts_match_time : Time → Term → Location → Bool
  ts_match_time ft t loc = time_cases t.op ft t loc

  abbrev pub stamped : Option (Time × Bool) → Term → Location → Bool
  stamped none t loc = false
  stamped (some (ft, _)) t loc = ts_match_time ft t loc

  -- tsMatch
  unfoldable pub ts_match : Text → Term → Location → Bool
  ts_match stamp t loc = stamped (parse_time_flexible stamp utc) t loc
