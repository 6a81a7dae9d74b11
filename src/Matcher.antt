-- ===== src/Matcher.antt =====
-- The compiled list matcher of internal/match/match.go. The set `exact` is the list of its members;
-- a nil *Matcher is `none`.
pub mod Tiers
use archer.Prelude.{
  Bool, true, false, ◌||◌, Option, none, some, List, [], ◌∷◌, ◌++◌, Text, ◌==◌, if◌then◌else◌, any,
  text_eq, trim_space,
}
use archer.Net.{Net}
use archer.Glob.{glob_match}
use archer.Query.Match.{is_wild}

-- `e == "" || e[0] == '#'`
abbrev pub is_comment : Text → Bool
is_comment [] = true
is_comment (c ∷ e) = c == b'#'

module _ (net : Net) where
  open net use {Ip, Block, parse_ip, parse_cidr, covers, show_ip}

  pub record Matcher : Type 0 where
    pub exact : List Text
    pub cidrs : List Block
    pub globs : List Text

  unfoldable pub empty : Matcher
  empty = record { exact = []; cidrs = []; globs = [] }

  abbrev pub shown : Text → Option Ip → Text
  shown e none = e
  shown e (some ip) = show_ip ip

  -- an IP literal in its canonical form, and any other text as it is
  unfoldable pub canonical_key : Text → Text
  canonical_key e = shown e (parse_ip e)

  abbrev pub add_trimmed : Matcher → Text → Option Block → Matcher
  add_trimmed m e (some block) = record m { cidrs = m.cidrs ++ (block ∷ []) }
  add_trimmed m e none =
      if is_wild e
      then record m { globs = m.globs ++ (e ∷ []) }
      else record m { exact = canonical_key e ∷ m.exact }

  -- the body of Compile's loop
  unfoldable pub add_entry : Matcher → Text → Matcher
  add_entry m raw =
      let e = trim_space raw in if is_comment e then m else add_trimmed m e (parse_cidr e)

  unfoldable pub compile_from : Matcher → List Text → Matcher
  compile_from m [] = m
  compile_from m (raw ∷ entries) = compile_from (add_entry m raw) entries

  -- Compile
  unfoldable pub compile : List Text → Matcher
  unfolding compile_from empty
  compile entries = compile_from empty entries

  abbrev pub any_covers : List Block → Option Ip → Bool
  any_covers cidrs none = false
  any_covers cidrs (some ip) = any (λ n. covers n ip) cidrs

  -- Matches, after its guard; with no CIDR at all the last step finds none
  unfoldable pub matches_key : Matcher → Text → Bool
  matches_key m candidate =
      any (λ e. text_eq e (canonical_key candidate)) m.exact
      || any (λ g. glob_match g candidate) m.globs
      || any_covers m.cidrs (parse_ip candidate)

  -- (*Matcher).Matches
  unfoldable pub matches : Option Matcher → Text → Bool
  matches none candidate = false
  matches (some m) [] = false
  matches (some m) (c ∷ s) = matches_key m (c ∷ s)
