-- ===== src/Correlate/Pairs/Summary/Table.antt =====
-- The table of correlateFindings in internal/analysis/correlate.go, for one pair.
use archer.Prelude.{
  ◌≤◌, Bool, true, false, Option, none, some, List, [], ◌∷◌, ◌++◌, map, ◌≡◌, refl, sym, subst, inl,
  inr, All, All-map, arith, Bool-cases, ℤ,
}
use mathlib.Core.List.{append-nil, append_assoc}
use archer.Finding.{Finding}
use archer.Finding.Identity.{fingerprint}
use archer.Correlate.{
  PairKey, PairData, Pairs, same_key, no_data, with_finding, key_of, contributes, contribute,
  collect, history, pairs_of, is_seen,
}
use archer.Correlate.Pairs.{lookup_pair, or_no_data, lookup_pair-put_pair}
use archer.Correlate.Pairs.Summary.{
  id_for, given, IsOf, NotBefore, Summary, SummaryOf, is_of-IsOf, IsOf-is_of,
  Contributor-contributes,
}
use archer.Correlate.Pairs.Summary.Fields.{
  more, skipped, next_bound, next_first, next-IsLinked, next_covered, next_attained, next_timed,
}

module _ {Float : Type 0} where
  module _ (k : PairKey) (es : List (ℤ × Finding Float)) (historical : Bool)
      (f : Finding Float) where
    vacuous :
        (P : ℤ × Finding Float → Type 0)
        → SummaryOf k es none
        → All (λ (e : ℤ × Finding Float). IsOf k e.1 → P e) es
    vacuous P s =
        All-map (λ (e : ℤ × Finding Float). IsOf k e.1 → ⊥)
          (λ (e : ℤ × Finding Float). IsOf k e.1 → P e) es (λ e n x. absurd (n x)) s

    added :
        (o : Option PairData)
        → IsOf k f
        → SummaryOf k es o
        → Summary k (more k es historical f) (with_finding historical f (or_no_data o))
    added none h s = record {
      bound = next_bound k es historical f no_data (vacuous (λ e. e.1.score ≤ 0) s);
      attained = next_attained k es historical f no_data h (inr refl);
      first = next_first k es historical f no_data (vacuous (λ e. NotBefore e.1.timestamp []) s);
      timed = next_timed k es historical f no_data h (inr refl);
      linked = next-IsLinked k es historical f no_data h tt;
      covered =
          next_covered k es historical f no_data
            (vacuous (λ e. is_seen (fingerprint e.1) [] ≡ true) s);
    }
    added (some d) h s = record {
      bound = next_bound k es historical f d s.bound;
      attained = next_attained k es historical f d h (inl s.attained);
      first = next_first k es historical f d s.first;
      timed = next_timed k es historical f d h (inl s.timed);
      linked = next-IsLinked k es historical f d h s.linked;
      covered = next_covered k es historical f d s.covered;
    }

    contribute-SummaryOf :
        (m : Pairs)
        → SummaryOf k es (lookup_pair k m)
        → SummaryOf k (more k es historical f) (lookup_pair k (contribute historical f m))
    unfolding contribute
    contribute-SummaryOf m s = elim (Bool-cases (contributes f)) [
      | inr p ↦ rw p (
          skipped k es historical f (lookup_pair k m) (λ h. cc (Contributor-contributes f h.0, p))
            s)
      | inl p ↦
          rw (p, lookup_pair-put_pair (key_of f) k (with_finding historical f) m)
            (elim (Bool-cases (same_key (key_of f) k)) [
              | inl q ↦ rw q (added (lookup_pair k m) (is_of-IsOf k f (ground (arith, p, q))) s)
              | inr q ↦ rw q (
                  skipped k es historical f (lookup_pair k m)
                    (λ h. let r = IsOf-is_of k f h in absurd (ground (arith, p, q, r))) s)
            ])
    ]

  collect-SummaryOf :
      (k : PairKey) (historical : Bool) (fs : List (Finding Float)) (es : List (ℤ × Finding Float))
      (m : Pairs)
      → SummaryOf k es (lookup_pair k m)
      → SummaryOf k
          (es ++ map (λ f. (id_for historical f, f)) fs)
          (lookup_pair k (collect historical fs m))
  unfolding collect
  collect-SummaryOf k historical [] es m s =
      subst (λ l. SummaryOf k l (lookup_pair k m)) (sym (append-nil es)) s
  collect-SummaryOf k historical (f ∷ fs) es m s =
      subst (λ l. SummaryOf k l (lookup_pair k (collect historical fs (contribute historical f m))))
        (append_assoc es ((id_for historical f, f) ∷ []) (map (λ g. (id_for historical g, g)) fs))
        (collect-SummaryOf k historical fs (es ++ ((id_for historical f, f) ∷ []))
          (contribute historical f m) (contribute-SummaryOf k es historical f m s))

  -- For any pair and any findings: the table has nothing for the pair if no finding of the run or of
  -- the provider is a contributor with the sensor and the addresses of the pair. Otherwise its score
  -- is the highest of these contributors', its timestamp that of one of them and not after that of
  -- any which has one, each of its links is the fingerprint and the id, negated for the provider, of
  -- one of them, and the fingerprint of each of them has a link.
  pub lookup_pair-SummaryOf :
      (k : PairKey) (fs : List (Finding Float)) (provider : Option (List (Finding Float)))
      → SummaryOf k (given fs provider) (lookup_pair k (pairs_of fs provider))
  unfolding pairs_of lookup_pair
  lookup_pair-SummaryOf k fs provider =
      collect-SummaryOf k true (history provider) (map (λ f. (id_for false f, f)) fs)
        (collect false fs []) (collect-SummaryOf k false fs [] [] tt)
