-- ===== src/Store/Pairs/Lookup.antt =====
-- The lookup in the pair allowlist of internal/store/store.go, and a scan of its rules.
use archer.Prelude.{
  ◌≡◌, inl, inr, refl, sym, ◌∙◌, ap, subst, Bool, true, false, ◌&&◌, ◌||◌, Option, none, some, List,
  [], ◌∷◌, ◌++◌, Text, codes, ltb, ◌==◌, if◌then◌else◌, text_eq, text_eq_sound, text_eq_refl, any,
  contains, has_prefix, has_suffix, to_lower, length, drop, arith, Bool-cases, All, false≢true,
}
use archer.Net.{Net}
use archer.Store.Pairs.{
  PairAllowEntry, PairAllowRule, PairIndex, rules_at, index_add, pair_allow_key, is_ranged,
  empty_or, block_covers, side_matches, scan_matches, with_block, scan_side, with_sides, PairIdx,
  PairAllowScanRule, index_rule, index_rules, rebuild_pair_allow_idx, is_pair_allowed,
}

-- A text without the byte 0, which separates the parts of a key.
abbrev pub NoNul : Text → Type 0
NoNul s = All (λ c. (c == 0) ≡ false) s

-- The two fields of a rule that make a key have no byte 0.
abbrev pub CleanRule : PairAllowEntry → Type 0
CleanRule e = NoNul e.src × NoNul e.dst

text_eq-nul :
    (s t x y : Text)
    → NoNul s
    → NoNul t
    → text_eq (s ++ (0 ∷ x)) (t ++ (0 ∷ y)) ≡ (text_eq s t && text_eq x y)
text_eq-nul [] [] x y h k = refl
text_eq-nul [] (b ∷ t) x y h (p, k) = ground arith
text_eq-nul (a ∷ s) [] x y (p, h) k = ground arith
text_eq-nul (a ∷ s) (b ∷ t) x y (p, h) (q, k) = ground (arith, text_eq-nul s t x y h k)

-- keys are equal when their parts are
text_eq-pair_allow_key :
    (s d p s' d' p' : Text)
    → NoNul s
    → NoNul s'
    → NoNul d
    → NoNul d'
    → text_eq (pair_allow_key s d p) (pair_allow_key s' d' p')
      ≡ (text_eq s s' && (text_eq d d' && text_eq p p'))
unfolding pair_allow_key
text_eq-pair_allow_key s d p s' d' p' a b c e =
    text_eq-nul s s' _ _ a b ∙ ap (λ x. text_eq s s' && x) (text_eq-nul d d' p p' c e)

any-append :
    {A : Type 0} (p : A → Bool) (us vs : List A) → any p (us ++ vs) ≡ (any p us || any p vs)
any-append p [] vs = refl
any-append p (u ∷ us) vs = ground (arith, any-append p us vs)

text_eq_apart : (j k q : Text) → text_eq j k ≡ false → text_eq j q ≡ true → text_eq k q ≡ false
text_eq_apart j k q h w = elim (Bool-cases (text_eq k q)) [
  | inl p ↦
      let e : k ≡ q = text_eq_sound k q p in absurd (false≢true (sym h ∙ ap (text_eq j) e ∙ w))
  | inr p ↦ p
]

rules_at-here :
    (q j : Text) (r : PairAllowRule) (rs : List PairAllowRule) (m : PairIndex)
    → rules_at q (index_add j r ((j, rs) ∷ m))
      ≡ (if text_eq j q then rules_at q ((j, rs) ∷ m) ++ (r ∷ []) else rules_at q ((j, rs) ∷ m))
unfolding rules_at index_add
rules_at-here q j r rs m =
    rw (text_eq_refl j) (elim (Bool-cases (text_eq j q)) [ inl w ↦ rw w refl | inr w ↦ rw w refl ])

added :
    {A : Type 0} (p : A → Bool) (r : A) (rs : List A) (b : Bool)
    → any p (if b then rs ++ (r ∷ []) else rs) ≡ (any p rs || (b && p r))
added p r rs true = any-append p rs (r ∷ []) ∙ ground arith
added p r rs false = ground arith

rules_at-index_add :
    (q k : Text) (r : PairAllowRule) (m : PairIndex)
    → rules_at q (index_add k r m)
      ≡ (if text_eq k q then rules_at q m ++ (r ∷ []) else rules_at q m)
unfolding rules_at index_add
rules_at-index_add q k r [] = refl
rules_at-index_add q k r ((j, rs) ∷ m) = elim (Bool-cases (text_eq j k)) [
  | inl p ↦
      let e = text_eq_sound j k p in
      subst
        (λ x. rules_at q (index_add x r ((j, rs) ∷ m)) ≡ (
          if text_eq x q then rules_at q ((j, rs) ∷ m) ++ (r ∷ []) else rules_at q ((j, rs) ∷ m)))
        e (rules_at-here q j r rs m)
  | inr p ↦ elim (Bool-cases (text_eq j q)) [
    | inl w ↦ rw (p, w, text_eq_apart j k q p w) refl
    | inr w ↦ rw p (rw w (rules_at-index_add q k r m))
  ]
]

module _ (net : Net) where
  open net use {Block, Ip, parse_ip, parse_cidr, covers}

  abbrev pub covered_by : Option Block → Text → Bool
  covered_by none v = false
  covered_by (some n) v = block_covers net n (parse_ip v)

  -- What one side of a rule says of an address or a name: a CIDR covers it, `*.name` is a domain
  -- that it is in or is, without regard to case, and any other text is it.
  unfoldable pub side_hides : Text → Text → Bool
  side_hides r v =
      if contains r (codes "/")
      then covered_by (parse_cidr r) v
      else if has_prefix r (codes "*.")
      then ltb 2 (length r)
        && (has_suffix (to_lower v) (to_lower (drop 1 r))
            || text_eq (to_lower v) (to_lower (drop 2 r)))
      else text_eq r v

  -- What a rule says of a finding.
  unfoldable pub rule_hides : Text → Text → Text → Text → Text → PairAllowEntry → Bool
  rule_hides src dst port ftype sensor e =
      text_eq e.port port
      && (empty_or e.sensor sensor
          && (empty_or e.finding_type ftype && (side_hides e.src src && side_hides e.dst dst)))

  -- what the parsed side says
  abbrev parsed_hides : Option (Option Block × Text) → Text → Text → Bool
  parsed_hides none r v = false
  parsed_hides (some (n, s)) r v = side_matches net n s r v

  parsed_hides-with_block :
      (o : Option Block) (r v : Text) → parsed_hides (with_block net o) r v ≡ covered_by o v
  unfolding side_matches
  parsed_hides-with_block none r v = refl
  parsed_hides-with_block (some n) r v = refl

  parsed_hides-suffix :
      (r v : Text)
      → has_prefix r (codes "*.") ≡ true
      → parsed_hides (if ltb 2 (length r) then some (none, to_lower (drop 1 r)) else none) r v ≡ (
          ltb 2 (length r)
          && (has_suffix (to_lower v) (to_lower (drop 1 r))
              || text_eq (to_lower v) (to_lower (drop 2 r))))
  unfolding side_matches to_lower
  parsed_hides-suffix [] v h = ground arith
  parsed_hides-suffix (a ∷ []) v h = ground arith
  parsed_hides-suffix (a ∷ b ∷ []) v h = refl
  parsed_hides-suffix (a ∷ b ∷ c ∷ r) v h =
      let long : ltb 2 (length (a ∷ b ∷ c ∷ r)) ≡ true = ground arith in rw long refl

  parsed_hides-scan_side : (r v : Text) → parsed_hides (scan_side net r) r v ≡ side_hides r v
  unfolding scan_side side_hides side_matches
  parsed_hides-scan_side r v = elim (Bool-cases (contains r (codes "/"))) [
    | inl p ↦ rw p (parsed_hides-with_block (parse_cidr r) r v)
    | inr p ↦ elim (Bool-cases (has_prefix r (codes "*."))) [
      | inl w ↦ rw (p, w) (parsed_hides-suffix r v w)
      | inr w ↦ rw (p, w) refl
    ]
  ]

  -- what scan rules say, one more among them
  module _ (src dst port ftype sensor : Text) where
    abbrev scanned : List (PairAllowScanRule net) → Bool
    scanned rs = any (λ r. scan_matches net r src dst port ftype sensor) rs

    scanned-with_sides :
        (e : PairAllowEntry) (o p : Option (Option Block × Text))
        (rs : List (PairAllowScanRule net))
        → scanned (with_sides net e o p rs) ≡ (
            scanned rs
            || (text_eq e.port port
                && (empty_or e.sensor sensor
                    && (empty_or e.finding_type ftype
                        && (parsed_hides o e.src src && parsed_hides p e.dst dst)))))
    unfolding scan_matches
    scanned-with_sides e none p rs = ground arith
    scanned-with_sides e (some x) none rs = ground arith
    scanned-with_sides e (some (n, s)) (some (m, t)) rs = any-append _ rs _ ∙ ground arith

    abbrev indexed : PairIndex → Bool
    indexed m =
        any (λ (r : PairAllowRule). empty_or r.sensor sensor && empty_or r.ftype ftype)
          (rules_at (pair_allow_key src dst port) m)

    side_hides-exact : (r v : Text) → is_ranged r ≡ false → side_hides r v ≡ text_eq r v
    unfolding is_ranged side_hides
    side_hides-exact r v h =
        let a : contains r (codes "/") ≡ false = ground arith in
        let b : has_prefix r (codes "*.") ≡ false = ground arith in rw (a, b) refl

    scanned-rule :
        (e : PairAllowEntry) (rs : List (PairAllowScanRule net))
        → scanned (with_sides net e (scan_side net e.src) (scan_side net e.dst) rs)
          ≡ (scanned rs || rule_hides src dst port ftype sensor e)
    unfolding rule_hides
    scanned-rule e rs =
        rw (sym (parsed_hides-scan_side e.src src), sym (parsed_hides-scan_side e.dst dst))
          (scanned-with_sides e (scan_side net e.src) (scan_side net e.dst) rs)

    -- What the index and the scan say of one rule: for a rule with no range, by its key.
    unfoldable pub entry_hides : PairAllowEntry → Bool
    entry_hides e =
        if is_ranged e.src || is_ranged e.dst
        then rule_hides src dst port ftype sensor e
        else text_eq (pair_allow_key e.src e.dst e.port) (pair_allow_key src dst port)
          && (empty_or e.sensor sensor && empty_or e.finding_type ftype)

    entry_hides-rule_hides :
        (e : PairAllowEntry)
        → NoNul src
        → NoNul dst
        → CleanRule e
        → entry_hides e ≡ rule_hides src dst port ftype sensor e
    unfolding entry_hides rule_hides
    entry_hides-rule_hides e a b (c, d) = elim (Bool-cases (is_ranged e.src || is_ranged e.dst)) [
      | inl p ↦ rw p refl
      | inr p ↦
          rw
            (
              p,
              text_eq-pair_allow_key e.src e.dst e.port src dst port c a d b,
              side_hides-exact e.src src (ground arith),
              side_hides-exact e.dst dst (ground arith),
            )
            (ground arith)
    ]

    indexed-index_add :
        (e : PairAllowEntry) (m : PairIndex)
        → indexed (
            index_add
              (pair_allow_key e.src e.dst e.port)
              (record { sensor = e.sensor; ftype = e.finding_type })
              m)
          ≡ (indexed m
              || (text_eq (pair_allow_key e.src e.dst e.port) (pair_allow_key src dst port)
                  && (empty_or e.sensor sensor && empty_or e.finding_type ftype)))
    indexed-index_add e m =
        let r : PairAllowRule = record { sensor = e.sensor; ftype = e.finding_type } in
        let one = λ (r : PairAllowRule). empty_or r.sensor sensor && empty_or r.ftype ftype in
        let key = pair_allow_key src dst port in
        ap (any one) (rules_at-index_add key (pair_allow_key e.src e.dst e.port) r m)
        ∙ added one r (rules_at key m) (text_eq (pair_allow_key e.src e.dst e.port) key)

    is_pair_allowed-index_rule :
        (x : PairIdx net) (e : PairAllowEntry)
        → is_pair_allowed net (index_rule net x e) src dst port ftype sensor
          ≡ (is_pair_allowed net x src dst port ftype sensor || entry_hides e)
    unfolding is_pair_allowed index_rule entry_hides
    is_pair_allowed-index_rule x e = elim (Bool-cases (is_ranged e.src || is_ranged e.dst)) [
      | inl p ↦ rw (p, scanned-rule e x.ranged) (ground arith)
      | inr p ↦ rw (p, indexed-index_add e x.exact) (ground arith)
    ]

    is_pair_allowed-index_rules :
        (x : PairIdx net) (es : List PairAllowEntry)
        → is_pair_allowed net (index_rules net x es) src dst port ftype sensor
          ≡ (is_pair_allowed net x src dst port ftype sensor || any entry_hides es)
    unfolding index_rules
    is_pair_allowed-index_rules x [] = ground arith
    is_pair_allowed-index_rules x (e ∷ es) =
        is_pair_allowed-index_rules (index_rule net x e) es
        ∙ rw (is_pair_allowed-index_rule x e) (ground arith)

    pub is_pair_allowed-any :
        (es : List PairAllowEntry)
        → is_pair_allowed net (rebuild_pair_allow_idx net es) src dst port ftype sensor
          ≡ any entry_hides es
    unfolding rebuild_pair_allow_idx is_pair_allowed rules_at
    is_pair_allowed-any es = is_pair_allowed-index_rules (record { exact = []; ranged = [] }) es

    any-rule_hides :
        (es : List PairAllowEntry)
        → NoNul src
        → NoNul dst
        → All CleanRule es
        → any entry_hides es ≡ any (rule_hides src dst port ftype sensor) es
    any-rule_hides [] a b c = refl
    any-rule_hides (e ∷ es) a b (c, cs) =
        rw (entry_hides-rule_hides e a b c, any-rule_hides es a b cs) refl

    -- Where neither the addresses of the rules nor those of the finding have a byte 0, the lookup in
    -- the index made from the rules finds a rule exactly when one of the rules hides the finding.
    pub is_pair_allowed-rebuild_pair_allow_idx :
        (es : List PairAllowEntry)
        → NoNul src
        → NoNul dst
        → All CleanRule es
        → is_pair_allowed net (rebuild_pair_allow_idx net es) src dst port ftype sensor
          ≡ any (rule_hides src dst port ftype sensor) es
    is_pair_allowed-rebuild_pair_allow_idx es a b c =
        is_pair_allowed-any es ∙ any-rule_hides es a b c
