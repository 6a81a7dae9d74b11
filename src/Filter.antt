-- ===== src/Filter.antt =====
-- The parameters of internal/server/findings_filter.go, which decide what of the finding set a
-- request lists. q.Get is a function from keys; what strconv.Atoi returns is its value and whether
-- there was no error.
pub mod Apply
pub mod Listing
pub mod Partition
use archer.Prelude.{
  ℕ, Bool, true, false, not, ◌&&◌, ◌||◌, Option, none, some, List, [], ◌∷◌, ◌++◌, map, Text, codes,
  leb, ltb, if◌then◌else◌, text_eq, any, contains, to_lower, trim_space, split, decimal, ℤ, pos,
  negsuc,
}
use archer.Net.{Net, Floats, Times}
use archer.Query.Token.{Result, ok, err, fuel_out, ◌>>=◌}
use archer.Query.Parse.{Node, parse}

abbrev pub or_else {ℓ} : {A : Type ℓ} → Option A → Option A → Option A
or_else (some a) other = some a
or_else none other = other

abbrev has_letter : Text → Bool
has_letter s = any (λ c. leb b'a' c && leb c b'z' || leb b'A' c && leb c b'Z') s

abbrev is_port : ℤ × Bool → Bool
is_port (pos n, valid) = valid && leb n 65535
is_port (negsuc n, valid) = false

abbrev port_text : ℤ × Bool → Text
port_text (pos n, valid) = decimal n
port_text (negsuc n, valid) = []

-- the loop of parsePortSet
unfoldable pub port_tokens : (Text → ℤ × Bool) → List Text → List Text
port_tokens atoi [] = []
port_tokens atoi (raw ∷ toks) =
    let tok = trim_space raw in
    let rest = port_tokens atoi toks in
    if text_eq tok []
    then rest
    else if is_port (atoi tok)
    then port_text (atoi tok) ∷ rest
    else rest

abbrev unless_empty : List Text → Option (List Text)
unless_empty [] = none
unless_empty (p ∷ ps) = some (p ∷ ps)

-- parsePortSet: nil is `none`
unfoldable pub parse_port_set : (Text → ℤ × Bool) → Text → Option (List Text)
parse_port_set atoi s =
    if text_eq (trim_space s) []
    then none
    else unless_empty (port_tokens atoi (split b',' (trim_space s)))

module _ (net : Net) where
  open net use {Ip, Block, parse_ip, parse_cidr, covers, show_ip}

  abbrev covered : Block → Option Ip → Bool
  covered b none = false
  covered b (some ip) = covers b ip

  abbrev shown_as : Text → Option Ip → Bool
  shown_as target none = false
  shown_as target (some ip) = text_eq (show_ip ip) target

  abbrev host_matcher : Text → Option (Text → Bool)
  host_matcher s =
      if has_letter s then some (λ candidate. contains (to_lower candidate) (to_lower s)) else none

  abbrev ip_matcher : Text → Option Ip → Option (Text → Bool)
  ip_matcher s (some ip) = some (λ candidate. shown_as (show_ip ip) (parse_ip candidate))
  ip_matcher s none = host_matcher s

  abbrev cidr_matcher : Text → Option Block → Option (Text → Bool)
  cidr_matcher s (some b) = some (λ candidate. covered b (parse_ip candidate))
  cidr_matcher s none = ip_matcher s (parse_ip s)

  -- parseIPMatcher: nil is `none`
  unfoldable pub parse_ip_matcher : Text → Option (Text → Bool)
  parse_ip_matcher text =
      let s = trim_space text in if text_eq s [] then none else cidr_matcher s (parse_cidr s)

module _ (floats : Floats) where
  open floats use {Float, parse_float, lt}

  unfoldable pub parse_float_bound : Text → Option Float
  parse_float_bound text = let s = trim_space text in if text_eq s [] then none else parse_float s

  abbrev above : Option Float → Float → Bool
  above none v = true
  above (some lo) v = not (lt v lo)

  abbrev below : Option Float → Float → Bool
  below none v = true
  below (some hi) v = not (lt hi v)

  abbrev in_range : Option Float → Option Float → Option (Float → Bool)
  in_range none none = none
  in_range (some lo) hi = some (λ v. above (some lo) v && below hi v)
  in_range none (some hi) = some (below (some hi))

  -- parseScoreRange: nil is `none`
  unfoldable pub parse_score_range : Text → Text → Option (Float → Bool)
  parse_score_range lo hi = in_range (parse_float_bound lo) (parse_float_bound hi)

module _ (times : Times) where
  open times use {
    Time, Location, parse_datetime, parse_local, parse_minute, parse_rfc3339, parse_date,
  }

  -- parseFindingTime, with a location
  unfoldable pub parse_finding_time : Text → Location → Option Time
  parse_finding_time text loc =
      let s = trim_space text in
      if text_eq s []
      then none
      else or_else (parse_datetime s loc) (
          or_else (parse_local s loc)
            (or_else (parse_minute s loc) (or_else (parse_rfc3339 s loc) (parse_date s loc))))

-- What a request asks for.
pub record Request (floats : Floats) (times : Times) : Type 0 where
  pub lucene : Option Node
  pub search : Text
  pub search_is_ip : Bool
  pub type_f : Text
  pub sev_f : Text
  pub min_score : ℤ
  pub delta : Bool
  pub sensor_f : Text
  pub status_f : Text
  pub ioc_only : Bool
  pub spectral_only : Bool
  pub include_dismissed : Bool
  pub src_matcher : Option (Text → Bool)
  pub dst_matcher : Option (Text → Bool)
  pub port_set : Option (List Text)
  pub ss_ts : Option (floats.Float → Bool)
  pub ss_ds : Option (floats.Float → Bool)
  pub ss_hist : Option (floats.Float → Bool)
  pub ss_dur : Option (floats.Float → Bool)
  pub ja3_f : Text
  pub ja4_f : Text
  pub from : Option times.Time
  pub to : Option times.Time

unfoldable pub read_query : Text → Result (Option Node)
read_query q =
    let raw = trim_space q in if text_eq raw [] then ok none else parse raw >>= λ n. ok (some n)

abbrev is_set {ℓ} : {A : Type ℓ} → Option A → Bool
is_set none = false
is_set (some a) = true

module _ (net : Net) (floats : Floats) (times : Times) (atoi : Text → ℤ × Bool) where
  -- the head of filterFindings
  unfoldable pub read_request : (Text → Text) → times.Location → Result (Request floats times)
  read_request get loc = read_query (get (codes "q")) >>= λ lucene.
      let search = to_lower (trim_space (get (codes "search"))) in
      ok (record {
        lucene = lucene;
        search = search;
        search_is_ip = not (text_eq search []) && is_set (net.parse_ip search);
        type_f = get (codes "type");
        sev_f = get (codes "severity");
        min_score = (atoi (get (codes "min_score"))).0;
        delta = text_eq (get (codes "delta")) (codes "true");
        sensor_f = get (codes "sensor");
        status_f = get (codes "status");
        ioc_only = text_eq (get (codes "ioc_only")) (codes "true");
        spectral_only = text_eq (get (codes "spectral_only")) (codes "true");
        include_dismissed = text_eq (get (codes "include_dismissed")) (codes "true");
        src_matcher = parse_ip_matcher net (get (codes "src_ip"));
        dst_matcher = parse_ip_matcher net (get (codes "dst_ip"));
        port_set = parse_port_set atoi (get (codes "dst_port"));
        ss_ts = parse_score_range floats (get (codes "ts_min")) (get (codes "ts_max"));
        ss_ds = parse_score_range floats (get (codes "ds_min")) (get (codes "ds_max"));
        ss_hist = parse_score_range floats (get (codes "hist_min")) (get (codes "hist_max"));
        ss_dur = parse_score_range floats (get (codes "dur_min")) (get (codes "dur_max"));
        ja3_f = to_lower (trim_space (get (codes "ja3")));
        ja4_f = to_lower (trim_space (get (codes "ja4")));
        from = parse_finding_time times (get (codes "from")) loc;
        to = parse_finding_time times (get (codes "to")) loc;
      })
