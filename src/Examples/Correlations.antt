-- ===== src/Examples/Correlations.antt =====
-- The correlation of three findings of one pair, one of them historical.
use archer.Prelude.{
  ℕ, ◌≤◌, ◌≡◌, ◌⊎◌, ◌||◌, refl, arith, true, false, Option, some, List, [], ◌∷◌, ◌++◌, codes, any,
  text_eq, All,
}
use archer.Examples.Sets.{scan}
use archer.Finding.{Finding}
use archer.Correlate.{
  PairKey, PairData, no_data, pairs_of, history, collect, contribute, contributes, put_pair,
  same_key, key_of, with_finding, correlation_eligible_type,
}
use archer.Correlate.Rows.{Analyzer, correlate_findings, pair_row}
use archer.Correlate.Pairs.{lookup_pair, own}
use archer.Correlate.Pairs.Summary.{given, SummaryOf}
use archer.Correlate.Pairs.Summary.Table.{lookup_pair-SummaryOf}
use archer.Correlate.Pairs.Score.{has_type, DistinctTypes, pairs_of-types, pair_row-score}
use archer.Correlate.Links.Siblings.{Linked, correlate_findings-Linked}

abbrev pair : PairKey
pair = record { sensor = codes "east"; src = codes "10.0.0.5"; dst = codes "192.0.2.1" }

abbrev tunnel : Finding ℕ
tunnel = record (scan 2 (codes "east")) { type = codes "DNS Tunneling" }

abbrev fresh_two : List (Finding ℕ)
fresh_two = scan 1 (codes "east") ∷ tunnel ∷ []

abbrev old : Finding ℕ
old = record (scan 7 (codes "east")) { type = codes "Beacon" }

abbrev stored : Option (List (Finding ℕ))
stored = some (old ∷ [])

abbrev analyzer : Analyzer ℕ
analyzer = record {
  findings = fresh_two;
  next_id = 2;
  default_sensor = codes "local";
  correlation_min_types = 2;
  findings_provider = stored;
}

lookup_pair-SummaryOf_example :
    SummaryOf pair (given fresh_two stored) (lookup_pair pair (pairs_of fresh_two stored))
lookup_pair-SummaryOf_example = lookup_pair-SummaryOf pair fresh_two stored

correlate_findings-Linked_example :
    All Linked (correlate_findings (λ file. codes "east") 0 analyzer).findings
correlate_findings-Linked_example =
    correlate_findings-Linked (λ file. codes "east") 0 analyzer refl
      (omega arith, (omega arith, tt))

abbrev pair_data : PairData
pair_data =
    with_finding true old
      (with_finding false tunnel (with_finding false (scan 1 (codes "east")) no_data))

held : lookup_pair pair (pairs_of fresh_two stored) ≡ some pair_data
unfolding lookup_pair pairs_of collect contribute contributes put_pair same_key key_of
    correlation_eligible_type
held = refl

pairs_of-types_example :
    (any (text_eq (codes "Beacon")) pair_data.types ≡ (
      has_type (codes "Beacon") (own pair fresh_two)
      || has_type (codes "Beacon") (own pair (history stored))))
    × DistinctTypes pair_data.types
pairs_of-types_example = pairs_of-types pair fresh_two stored pair_data (codes "Beacon") held

pair_row-score_example :
    ((pair_row {Float = ℕ} 0 2 pair pair_data).score ≤ 99)
    × All
        (λ (f : Finding ℕ).
          (f.score ≤ (pair_row {Float = ℕ} 0 2 pair pair_data).score)
          ⊎ ((pair_row {Float = ℕ} 0 2 pair pair_data).score ≡ 99))
        (own pair fresh_two ++ own pair (history stored))
pair_row-score_example = pair_row-score 0 2 pair fresh_two stored pair_data held
