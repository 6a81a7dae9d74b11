-- ===== src/Examples/Sets.antt =====
-- The merge of a run, and the pair allowlist, at concrete findings.
use archer.Prelude.{
  ℕ, ◌≡◌, refl, ◌==◌, true, false, List, [], ◌∷◌, map, Text, codes, take, any, Some, arith, pos,
  negsuc, ◌++◌, length, All,
}
use archer.Examples.Instances.{small_net}
use archer.Examples.Lines.{sample}
use archer.Finding.{Finding}
use archer.Finding.Identity.{fingerprint, same, is_rollup_type}
use archer.Store.Merge.{
  merge, entry, index_findings, dedupe, legacy, keeps, best_by_fp, dedupe_from,
}
use archer.Store.Merge.Keep.{WorkOf, merge-WorkOf}
use archer.Store.Merge.Entries.{Fresh, id_of}
use archer.Store.Merge.Ids.{merge-Fresh}
use archer.Store.Merge.Clash.{merge-same_id}
use archer.Store.Merge.References.{RefersTo, merge-RefersTo}
use archer.Store.Pairs.{PairAllowEntry, is_pair_allowed, rebuild_pair_allow_idx}
use archer.Store.Pairs.Lookup.{NoNul, rule_hides, is_pair_allowed-rebuild_pair_allow_idx}

abbrev pub scan : ℕ → Text → Finding ℕ
scan i s = record sample { id = i; type = codes "Strobe"; sensor = s }

-- A set with one finding that an analyst has acknowledged, and a run that makes it again.
abbrev acknowledged : Finding ℕ
acknowledged = record (scan 7 []) { status = codes "acknowledged"; analyst = codes "kim" }

merge-WorkOf_example :
    Some
      (WorkOf acknowledged)
      (merge 1000 true true (acknowledged ∷ []) (scan 1 [] ∷ scan 2 (codes "east") ∷ []))
unfolding entry index_findings is_rollup_type same fingerprint
merge-WorkOf_example =
    merge-WorkOf 1000 true true (acknowledged ∷ []) (scan 1 [] ∷ scan 2 (codes "east") ∷ [])
      acknowledged refl refl

merge-Fresh_example : Fresh [] (
    map id_of (
      merge 1000 true true
        (acknowledged ∷ [])
        (scan 1 (codes "east") ∷ scan 2 (codes "west") ∷ [])))
unfolding dedupe dedupe_from keeps best_by_fp legacy same fingerprint
merge-Fresh_example =
    merge-Fresh 1000 true true (acknowledged ∷ [])
      (scan 1 (codes "east") ∷ scan 2 (codes "west") ∷ []) (tt, tt) ((refl, tt), ((refl, tt), tt))

merge-same_id_example :
    take 2 (
      map id_of (merge 1000 true true (acknowledged ∷ []) (scan 1 [] ∷ scan 2 (codes "east") ∷ [])))
    ≡ 7 ∷ 7 ∷ []
unfolding fingerprint
merge-same_id_example =
    merge-same_id acknowledged (scan 1 []) (scan 2 (codes "east")) (codes "east") 1000 true true
      refl refl refl refl refl

-- A run with a reference to its other finding, to the stored one, and to none.
abbrev referring : List (Finding ℕ)
referring =
    record (scan 1 []) { correlations = pos 2 ∷ negsuc 6 ∷ pos 44 ∷ [] }
    ∷ scan 2 (codes "east")
    ∷ []

merge-RefersTo_example :
    (made : List (Finding ℕ)) × (kept : List (Finding ℕ)) × (merge 1000 true true
        (acknowledged ∷ [])
        referring
      ≡ made ++ kept)
    × (length made ≡ length (dedupe referring))
    × All (RefersTo (acknowledged ∷ []) made) made
merge-RefersTo_example = merge-RefersTo 1000 true true (acknowledged ∷ []) referring

-- A rule for a block, one sensor and each type, and one for a pair.
abbrev pub rules : List PairAllowEntry
rules =
    record {
      id = 1;
      src = codes "10.0.0.0/24";
      dst = codes "*.example.org";
      port = codes "443";
      finding_type = [];
      sensor = codes "east";
      detail = [];
      created_by = [];
      created_at = 0;
    }
    ∷ record {
      id = 2;
      src = codes "1.1.1.1";
      dst = codes "2.2.2.2";
      port = codes "53";
      finding_type = codes "Strobe";
      sensor = [];
      detail = [];
      created_by = [];
      created_at = 0;
    }
    ∷ []

no_nul : (s : Text) → any (λ c. c == 0) s ≡ false → NoNul s
no_nul [] h = tt
no_nul (c ∷ s) h = (ground arith, no_nul s (ground arith))

is_pair_allowed-rebuild_pair_allow_idx_example :
    is_pair_allowed small_net
      (rebuild_pair_allow_idx small_net rules)
      (codes "10.0.0.5")
      (codes "WWW.example.org")
      (codes "443")
      (codes "Beacon")
      (codes "east")
    ≡ any
        (rule_hides small_net
          (codes "10.0.0.5")
          (codes "WWW.example.org")
          (codes "443")
          (codes "Beacon")
          (codes "east"))
        rules
is_pair_allowed-rebuild_pair_allow_idx_example =
    is_pair_allowed-rebuild_pair_allow_idx small_net (codes "10.0.0.5") (codes "WWW.example.org")
      (codes "443") (codes "Beacon") (codes "east") rules (no_nul (codes "10.0.0.5") refl)
      (no_nul (codes "WWW.example.org") refl)
      (
        (no_nul (codes "10.0.0.0/24") refl, no_nul (codes "*.example.org") refl),
        ((no_nul (codes "1.1.1.1") refl, no_nul (codes "2.2.2.2") refl), tt),
      )
