-- ===== src/Filter/Partition.antt =====
-- filterFindings of internal/server/findings_filter.go with a query and with its negation.
use archer.Prelude.{
  suc, ◌+◌, ◌≡◌, refl, inl, inr, Bool, true, false, not, Option, none, some, List, [], ◌∷◌, length,
  arith, Bool-cases,
}
use archer.Net.{Net, Floats, Times}
use archer.Finding.{Finding}
use archer.Query.Eval.{match_query, eval}
use archer.Query.Parse.{Node, not_node}
use archer.Filter.{Request}
use archer.Filter.Apply.{
  Listing, and_row, if_matching, with_benign, row, rows, passes_checks, type_passes,
  severity_passes, sub_scores_pass, fingerprints_pass, place_passes, time_passes, search_passes,
  status_passes, flags_pass, stamp,
}

module _ (net : Net) (floats : Floats) (times : Times) where
  abbrev pub asking : Request floats times → Option Node → Request floats times
  asking q root = record q { lucene = root }

  divided :
      (b : Bool) (g : Finding floats.Float) (xs ys zs : List (Finding floats.Float))
      → length xs + length ys ≡ length zs
      → length (and_row net floats times (if_matching net floats times b g) xs)
          + length (and_row net floats times (if_matching net floats times (not b) g) ys)
        ≡ suc (length zs)
  divided true g xs ys zs e = omega (arith, e)
  divided false g xs ys zs e = omega (arith, e)

  -- For any request and any query in place of its own, the rows that the query lists and those that
  -- its negation lists are together as many as the rows that the request lists without a query.
  pub rows-not_node :
      (q : Request floats times) (root : Node) (l : Listing net floats times)
      (fs : List (Finding floats.Float))
      → length (rows net floats times (asking q (some root)) l fs)
          + length (rows net floats times (asking q (some (not_node root))) l fs)
        ≡ length (rows net floats times (asking q none) l fs)
  unfolding rows row passes_checks type_passes severity_passes sub_scores_pass fingerprints_pass
      place_passes time_passes search_passes status_passes flags_pass match_query eval
  rows-not_node q root l [] = refl
  rows-not_node q root l (f ∷ fs) =
      let ih = rows-not_node q root l fs in
      elim (Bool-cases (passes_checks net floats times (asking q none) l f)) [
        | inl p ↦ rw p (
            divided
              (match_query net floats times root
                (with_benign net floats times l (stamp net floats times l f)) (some l.op_loc))
              (with_benign net floats times l (stamp net floats times l f)) _ _ _ ih)
        | inr p ↦ rw p ih
      ]
