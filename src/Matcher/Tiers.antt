-- ===== src/Matcher/Tiers.antt =====
-- What a compiled matcher accepts, entry by entry.
use archer.Prelude.{
  Bool-cases, inl, inr, ◌≡◌, refl, Bool, false, ◌||◌, Option, none, some, List, [], ◌∷◌, ◌++◌, Text,
  if◌then◌else◌, any, not, ◌&&◌, text_eq, trim_space, arith,
}
use archer.Net.{Net}
use archer.Glob.{glob_match}
use archer.Query.Match.{is_wild}
use archer.Matcher.{
  is_comment, Matcher, empty, canonical_key, add_trimmed, add_entry, compile_from, compile,
  any_covers, matches_key, matches,
}

any-append {ℓ} :
    {A : Type ℓ} (p : A → Bool) (xs ys : List A) → any p (xs ++ ys) ≡ (any p xs || any p ys)
any-append p [] ys = refl
any-append p (x ∷ xs) ys = ground (arith, any-append p xs ys)

module _ (net : Net) where
  open net use {Ip, Block, parse_ip, parse_cidr, covers}

  abbrev block_accepts : Block → Option Ip → Bool
  block_accepts block none = false
  block_accepts block (some ip) = covers block ip

  abbrev trimmed_accepts : Text → Text → Option Block → Bool
  trimmed_accepts e candidate (some block) = block_accepts block (parse_ip candidate)
  trimmed_accepts e candidate none =
      if is_wild e
      then glob_match e candidate
      else text_eq (canonical_key net e) (canonical_key net candidate)

  -- What one line of a list says of a candidate: a comment or blank line nothing, a CIDR block that
  -- it contains the candidate's address, a wildcard entry that it matches the candidate, and any
  -- other entry that it is the candidate, up to the spelling of an address.
  pub entry_accepts : Text → Text → Bool
  entry_accepts raw candidate =
      let e = trim_space raw in
      if is_comment e then false else trimmed_accepts e candidate (parse_cidr e)

  any_covers-append :
      (blocks : List Block) (block : Block) (ip : Option Ip)
      → any_covers net (blocks ++ (block ∷ [])) ip
        ≡ (any_covers net blocks ip || block_accepts block ip)
  any_covers-append blocks block none = refl
  any_covers-append blocks block (some ip) =
      ground (arith, any-append (λ n. covers n ip) blocks (block ∷ []))

  matches_key-add_trimmed :
      (m : Matcher net) (e candidate : Text) (block : Option Block)
      → matches_key net (add_trimmed net m e block) candidate
        ≡ (matches_key net m candidate || trimmed_accepts e candidate block)
  unfolding matches_key
  matches_key-add_trimmed m e candidate (some block) =
      ground (arith, any_covers-append m.cidrs block (parse_ip candidate))
  matches_key-add_trimmed m e candidate none = elim (Bool-cases (is_wild e)) [
    | inl h ↦ rw h (ground (arith, any-append (λ g. glob_match g candidate) m.globs (e ∷ [])))
    | inr h ↦ rw h (ground arith)
  ]

  matches_key-add_entry :
      (m : Matcher net) (raw candidate : Text)
      → matches_key net (add_entry net m raw) candidate
        ≡ (matches_key net m candidate || entry_accepts raw candidate)
  unfolding matches_key add_entry entry_accepts
  matches_key-add_entry m raw candidate = elim (Bool-cases (is_comment (trim_space raw))) [
    | inl h ↦ rw h (ground arith)
    | inr h ↦
        rw h (matches_key-add_trimmed m (trim_space raw) candidate (parse_cidr (trim_space raw)))
  ]

  matches_key-compile_from :
      (entries : List Text) (m : Matcher net) (candidate : Text)
      → matches_key net (compile_from net m entries) candidate
        ≡ (matches_key net m candidate || any (λ e. entry_accepts e candidate) entries)
  unfolding compile_from
  matches_key-compile_from [] m candidate = ground arith
  matches_key-compile_from (raw ∷ entries) m candidate = ground (
    arith,
    matches_key-compile_from entries (add_entry net m raw) candidate,
    matches_key-add_entry m raw candidate,
  )

  matches_key-empty : (candidate : Text) → matches_key net (empty net) candidate ≡ false
  unfolding matches_key empty
  matches_key-empty candidate = ground arith

  -- A compiled list covers a candidate exactly if the candidate is not empty and some line covers it.
  pub matches-compile :
      (entries : List Text) (candidate : Text)
      → matches net (some (compile net entries)) candidate
        ≡ (not (text_eq candidate []) && any (λ e. entry_accepts e candidate) entries)
  unfolding matches compile
  matches-compile entries [] = refl
  matches-compile entries (c ∷ s) =
      ground
        (arith, matches_key-compile_from entries (empty net) (c ∷ s), matches_key-empty (c ∷ s))
