-- ===== src/Store/Pairs.antt =====
-- The pair allowlist of internal/store/store.go, a filter of what is shown: the index and the scan
-- rules that are made from its rules, and the lookup. A Go map is the list of its entries.
pub mod Lookup
use archer.Prelude.{
  ℕ, Bool, true, false, ◌&&◌, ◌||◌, Option, none, some, List, [], ◌∷◌, ◌++◌, Text, codes, ltb,
  if◌then◌else◌, text_eq, any, contains, has_prefix, has_suffix, to_lower, length, drop,
}
use archer.Net.{Net}

-- model.PairAllowEntry
pub record PairAllowEntry : Type 0 where
  pub id : ℕ
  pub src : Text
  pub dst : Text
  pub port : Text
  pub finding_type : Text
  pub sensor : Text
  pub detail : Text
  pub created_by : Text
  pub created_at : ℕ

-- pairAllowRule
pub record PairAllowRule : Type 0 where
  pub sensor : Text
  pub ftype : Text

-- pairAllowIdx
abbrev pub PairIndex : Type 0
PairIndex = List (Text × List PairAllowRule)

unfoldable pub rules_at : Text → PairIndex → List PairAllowRule
rules_at k [] = []
rules_at k ((j, rs) ∷ m) = let rest = rules_at k m in if text_eq j k then rs else rest

-- `idx[k] = append(idx[k], r)`
unfoldable pub index_add : Text → PairAllowRule → PairIndex → PairIndex
index_add k r [] = (k, r ∷ []) ∷ []
index_add k r ((j, rs) ∷ m) =
    let rest = index_add k r m in if text_eq j k then (j, rs ++ (r ∷ [])) ∷ m else (j, rs) ∷ rest

unfoldable pub pair_allow_key : Text → Text → Text → Text
pair_allow_key src dst port = src ++ (0 ∷ (dst ++ (0 ∷ port)))

-- isRanged
unfoldable pub is_ranged : Text → Bool
is_ranged v = contains v (codes "/") || has_prefix v (codes "*.")

-- a rule's field that is empty or the value
abbrev pub empty_or : Text → Text → Bool
empty_or r v = text_eq r [] || text_eq r v

module _ (net : Net) where
  open net use {Block, Ip, parse_ip, parse_cidr, covers}

  -- pairAllowScanRule
  pub record PairAllowScanRule : Type 0 where
    pub src_net : Option Block
    pub dst_net : Option Block
    pub src_suffix : Text
    pub dst_suffix : Text
    pub src : Text
    pub dst : Text
    pub port : Text
    pub sensor : Text
    pub ftype : Text

  abbrev pub block_covers : Block → Option Ip → Bool
  block_covers n none = false
  block_covers n (some ip) = covers n ip

  -- sideMatches
  unfoldable pub side_matches : Option Block → Text → Text → Text → Bool
  side_matches (some n) suffix exact v = block_covers n (parse_ip v)
  side_matches none (c ∷ rest) exact v =
      has_suffix (to_lower v) (c ∷ rest) || text_eq (to_lower v) rest
  side_matches none [] exact v = text_eq exact v

  unfoldable pub scan_matches : PairAllowScanRule → Text → Text → Text → Text → Text → Bool
  scan_matches r src dst port ftype sensor =
      text_eq r.port port
      && (empty_or r.sensor sensor
          && (empty_or r.ftype ftype
              && (side_matches r.src_net r.src_suffix r.src src
                  && side_matches r.dst_net r.dst_suffix r.dst dst)))

  abbrev pub with_block : Option Block → Option (Option Block × Text)
  with_block none = none
  with_block (some n) = some (some n, [])

  -- one side of a ranged rule: its block and its suffix, none for `ok = false`
  unfoldable pub scan_side : Text → Option (Option Block × Text)
  scan_side v =
      if contains v (codes "/")
      then with_block (parse_cidr v)
      else if has_prefix v (codes "*.")
      then if ltb 2 (length v) then some (none, to_lower (drop 1 v)) else none
      else some (none, [])

  abbrev pub with_sides :
      PairAllowEntry
      → Option (Option Block × Text)
      → Option (Option Block × Text)
      → List PairAllowScanRule
      → List PairAllowScanRule
  with_sides e (some (n, s)) (some (m, t)) ranged =
      ranged
      ++ (record {
        src_net = n;
        dst_net = m;
        src_suffix = s;
        dst_suffix = t;
        src = e.src;
        dst = e.dst;
        port = e.port;
        sensor = e.sensor;
        ftype = e.finding_type;
      }
          ∷ [])
  with_sides e (some x) none ranged = ranged
  with_sides e none o ranged = ranged

  -- pairAllowIdx and pairAllowScan
  pub record PairIdx : Type 0 where
    pub exact : PairIndex
    pub ranged : List PairAllowScanRule

  -- one rule of rebuildPairAllowIdxLocked's loop
  unfoldable pub index_rule : PairIdx → PairAllowEntry → PairIdx
  index_rule x e =
      if is_ranged e.src || is_ranged e.dst
      then record x { ranged = with_sides e (scan_side e.src) (scan_side e.dst) x.ranged }
      else record x {
        exact =
            index_add (pair_allow_key e.src e.dst e.port)
              (record { sensor = e.sensor; ftype = e.finding_type }) x.exact;
      }

  unfoldable pub index_rules : PairIdx → List PairAllowEntry → PairIdx
  index_rules x [] = x
  index_rules x (e ∷ es) = index_rules (index_rule x e) es

  -- rebuildPairAllowIdxLocked
  unfoldable pub rebuild_pair_allow_idx : List PairAllowEntry → PairIdx
  rebuild_pair_allow_idx es = index_rules (record { exact = []; ranged = [] }) es

  -- isPairAllowedLocked
  unfoldable pub is_pair_allowed : PairIdx → Text → Text → Text → Text → Text → Bool
  is_pair_allowed x src dst port ftype sensor =
      any (λ (r : PairAllowRule). empty_or r.sensor sensor && empty_or r.ftype ftype)
        (rules_at (pair_allow_key src dst port) x.exact)
      || any (λ (r : PairAllowScanRule). scan_matches r src dst port ftype sensor) x.ranged
