-- ===== src/Correlate/Pairs.antt =====
-- What the pairs of correlateFindings hold, in internal/analysis/correlate.go.
pub mod Score
pub mod Summary
use archer.Prelude.{
  ℕ, suc, ◌+◌, ◌-◌, ◌*◌, ◌≤◌, Bool, true, false, not, ◌&&◌, ◌||◌, Option, none, some, List, [], ◌∷◌,
  ◌++◌, Text, ltb, leb, ◌==◌, ◌≡◌, refl, sym, subst, ap, ◌∙◌, if◌then◌else◌, text_eq, text_eq_sound,
  text_eq_refl, any, length, All, All-append, All-map, arith, Bool-cases, inl, inr, ℤ,
}
use archer.Finding.{Finding}
use archer.Correlate.{
  PairKey, PairData, Pairs, same_key, no_data, add_type, with_finding, put_pair, key_of,
  contributes, contribute, collect, history, pairs_of,
}
use archer.Correlate.Rows.{pair_score, pair_row}

pub same_key-eq : (a b : PairKey) → same_key a b ≡ true → a ≡ b
unfolding same_key
same_key-eq a b h = cc (
  text_eq_sound a.sensor b.sensor (ground arith),
  text_eq_sound a.src b.src (ground arith),
  text_eq_sound a.dst b.dst (ground arith),
)

same_key_self : (a : PairKey) → same_key a a ≡ true
unfolding same_key
same_key_self a = ground (arith, text_eq_refl a.sensor, text_eq_refl a.src, text_eq_refl a.dst)

-- `pairs[k]`, `none` for nil
unfoldable pub lookup_pair : PairKey → Pairs → Option PairData
lookup_pair k [] = none
lookup_pair k ((j, d) ∷ m) = let rest = lookup_pair k m in if same_key j k then some d else rest

abbrev pub or_no_data : Option PairData → PairData
or_no_data none = no_data
or_no_data (some d) = d

pub lookup_pair-put_pair :
    (k j : PairKey) (g : PairData → PairData) (m : Pairs)
    → lookup_pair j (put_pair k g m)
      ≡ (if same_key k j then some (g (or_no_data (lookup_pair j m))) else lookup_pair j m)
unfolding lookup_pair put_pair
lookup_pair-put_pair k j g [] = refl
lookup_pair-put_pair k j g ((i, d) ∷ m) = elim (Bool-cases (same_key i k)) [
  | inl p ↦
      let e : i ≡ k = same_key-eq i k p in
      rw p (elim (Bool-cases (same_key k j)) [
        | inl q ↦
            let r : same_key i j ≡ true = subst (λ x. same_key x j ≡ true) (sym e) q in
            rw (q, r) refl
        | inr q ↦
            let r : same_key i j ≡ false = subst (λ x. same_key x j ≡ false) (sym e) q in
            rw (q, r) refl
      ])
  | inr p ↦ rw p (elim (Bool-cases (same_key i j)) [
    | inr q ↦ rw q (lookup_pair-put_pair k j g m)
    | inl q ↦ let r : same_key k j ≡ false = apart i j k p q in rw (q, r) refl
  ])
]
  where
    apart : (i j k : PairKey) → same_key i k ≡ false → same_key i j ≡ true → same_key k j ≡ false
    apart i j k p q = elim (Bool-cases (same_key k j)) [
      | inr r ↦ r
      | inl r ↦
          let e : i ≡ k = same_key-eq i j q ∙ sym (same_key-eq k j r) in
          absurd (cc (p, same_key_self i, ap (same_key i) e))
    ]

module _ {Float : Type 0} where
  -- the findings that contribute to a pair
  pub own : PairKey → List (Finding Float) → List (Finding Float)
  own k [] = []
  own k (f ∷ fs) =
      let rest = own k fs in if contributes f && same_key (key_of f) k then f ∷ rest else rest

  -- One after the other, with no test.
  pub gather : Bool → List (Finding Float) → Option PairData → Option PairData
  gather historical [] o = o
  gather historical (f ∷ fs) o =
      gather historical fs (some (with_finding historical f (or_no_data o)))

  lookup_pair-collect :
      (k : PairKey) (historical : Bool) (fs : List (Finding Float)) (m : Pairs)
      → lookup_pair k (collect historical fs m) ≡ gather historical (own k fs) (lookup_pair k m)
  unfolding collect contribute own gather
  lookup_pair-collect k historical [] m = refl
  lookup_pair-collect k historical (f ∷ fs) m = elim (Bool-cases (contributes f)) [
    | inr p ↦ rw p (lookup_pair-collect k historical fs m)
    | inl p ↦ rw p (elim (Bool-cases (same_key (key_of f) k)) [
      | inl q ↦
          let put = lookup_pair-put_pair (key_of f) k (with_finding historical f) m in
          rw q (
            lookup_pair-collect k historical fs (put_pair (key_of f) (with_finding historical f) m)
            ∙ ap (gather historical (own k fs)) (put ∙ rw q refl))
      | inr q ↦
          let put = lookup_pair-put_pair (key_of f) k (with_finding historical f) m in
          rw q (
            lookup_pair-collect k historical fs (put_pair (key_of f) (with_finding historical f) m)
            ∙ ap (gather historical (own k fs)) (put ∙ rw q refl))
    ])
  ]

  -- What the table has for a pair is what its own contributors make.
  pub lookup_pair-pairs_of :
      (k : PairKey) (fs : List (Finding Float)) (provider : Option (List (Finding Float)))
      → lookup_pair k (pairs_of fs provider)
        ≡ gather true (own k (history provider)) (gather false (own k fs) none)
  unfolding pairs_of lookup_pair
  lookup_pair-pairs_of k fs provider =
      lookup_pair-collect k true (history provider) (collect false fs [])
      ∙ ap (gather true (own k (history provider))) (lookup_pair-collect k false fs [])
