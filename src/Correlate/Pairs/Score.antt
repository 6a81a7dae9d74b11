-- ===== src/Correlate/Pairs/Score.antt =====
-- The score and the types of a pair in internal/analysis/correlate.go.
use archer.Prelude.{
  ℕ, ◌+◌, ◌-◌, ◌*◌, ◌≤◌, Bool, true, false, ◌||◌, Option, none, some, List, [], ◌∷◌, ◌++◌, Text,
  ltb, ◌≡◌, ◌⊎◌, refl, sym, subst, ap, ◌∙◌, text_eq, text_eq_sound, any, length, All, All-append,
  All-map, arith, Bool-cases, inl, inr,
}
use archer.Finding.{Finding}
use archer.Correlate.{PairKey, PairData, add_type, with_finding, history, pairs_of}
use archer.Correlate.Rows.{pair_score, pair_row}
use archer.Correlate.Pairs.{lookup_pair, or_no_data, own, gather, lookup_pair-pairs_of}

-- No type stands twice.
abbrev pub DistinctTypes : List Text → Type 0
DistinctTypes [] = Unit
DistinctTypes (t ∷ ts) = All (λ u. text_eq u t ≡ false) ts × DistinctTypes ts

append-DistinctTypes :
    (t : Text) (ts : List Text)
    → any (text_eq t) ts ≡ false
    → DistinctTypes ts
    → DistinctTypes (ts ++ (t ∷ []))
append-DistinctTypes t [] h d = (tt, tt)
append-DistinctTypes t (u ∷ ts) h (a, d) = (
  All-append (λ v. text_eq v u ≡ false) ts (t ∷ []) a (ground (arith, h), tt),
  append-DistinctTypes t ts (ground (arith, h)) d,
)

add_type-DistinctTypes :
    (t : Text) (ts : List Text) → DistinctTypes ts → DistinctTypes (add_type t ts)
unfolding add_type
add_type-DistinctTypes t ts d = elim (Bool-cases (any (text_eq t) ts)) [
  | inl p ↦ rw p d
  | inr p ↦ rw p (append-DistinctTypes t ts p d)
]

any-append_one :
    (t u : Text) (ts : List Text)
    → any (text_eq t) (ts ++ (u ∷ [])) ≡ (any (text_eq t) ts || text_eq t u)
any-append_one t u [] = ground arith
any-append_one t u (v ∷ ts) = ground (arith, any-append_one t u ts)

any-same :
    (t u : Text) (ts : List Text) → text_eq t u ≡ true → any (text_eq u) ts ≡ any (text_eq t) ts
any-same t u ts h = ap (λ v. any (text_eq v) ts) (sym (text_eq_sound t u h))

any-add_type :
    (t u : Text) (ts : List Text)
    → any (text_eq t) (add_type u ts) ≡ (any (text_eq t) ts || text_eq t u)
unfolding add_type
any-add_type t u ts = elim (Bool-cases (any (text_eq u) ts)) [
  | inr p ↦ rw p (any-append_one t u ts)
  | inl p ↦ rw p (elim (Bool-cases (text_eq t u)) [
    | inr q ↦ ground (arith, q)
    | inl q ↦ ground (arith, q, p, any-same t u ts q)
  ])
]

score_case :
    (min_types score : ℕ) (d : PairData)
    → score ≤ d.max_score
    → (score ≤ pair_score min_types d) ⊎ (pair_score min_types d ≡ 99)
unfolding pair_score
score_case min_types score d h =
    elim (Bool-cases (ltb 99 (d.max_score + 5 * (length d.types - min_types)))) [
      | inl p ↦ inr (rw p refl)
      | inr p ↦ inl (rw p (omega (arith, h)))
    ]

pair_score-le : (min_types : ℕ) (d : PairData) → pair_score min_types d ≤ 99
unfolding pair_score
pair_score-le min_types d = ground arith

module _ {Float : Type 0} where
  abbrev pub has_type : Text → List (Finding Float) → Bool
  has_type t fs = any (λ (f : Finding Float). text_eq t f.type) fs

  gather-types :
      (t : Text) (historical : Bool) (fs : List (Finding Float)) (o : Option PairData)
      → any (text_eq t) (or_no_data (gather historical fs o)).types
        ≡ (any (text_eq t) (or_no_data o).types || has_type t fs)
  unfolding gather with_finding
  gather-types t historical [] o = ground arith
  gather-types t historical (f ∷ fs) o = ground (
    arith,
    gather-types t historical fs (some (with_finding historical f (or_no_data o))),
    any-add_type t f.type (or_no_data o).types,
  )

  gather-DistinctTypes :
      (historical : Bool) (fs : List (Finding Float)) (o : Option PairData)
      → DistinctTypes (or_no_data o).types
      → DistinctTypes (or_no_data (gather historical fs o)).types
  unfolding gather with_finding
  gather-DistinctTypes historical [] o d = d
  gather-DistinctTypes historical (f ∷ fs) o d =
      gather-DistinctTypes historical fs (some (with_finding historical f (or_no_data o)))
        (add_type-DistinctTypes f.type (or_no_data o).types d)

  gather-max_score :
      (historical : Bool) (fs : List (Finding Float)) (o : Option PairData)
      → ((or_no_data o).max_score ≤ (or_no_data (gather historical fs o)).max_score)
        × All (λ f. f.score ≤ (or_no_data (gather historical fs o)).max_score) fs
  unfolding gather with_finding
  gather-max_score historical [] o = (omega arith, tt)
  gather-max_score historical (f ∷ fs) o =
      let (a, b) =
        gather-max_score historical fs (some (with_finding historical f (or_no_data o))) in
      (ground (arith, a), (ground (arith, a), b))

  -- For the data of a pair: its types are those of its contributors, each once.
  pub pairs_of-types :
      (k : PairKey) (fs : List (Finding Float)) (provider : Option (List (Finding Float)))
      (d : PairData) (t : Text)
      → lookup_pair k (pairs_of fs provider) ≡ some d
      → (any (text_eq t) d.types ≡ (has_type t (own k fs) || has_type t (own k (history provider))))
        × DistinctTypes d.types
  pairs_of-types k fs provider d t h =
      let o = gather false (own k fs) none in
      let e = ap or_no_data (sym (lookup_pair-pairs_of k fs provider) ∙ h) in
      (
        ap (λ (x : PairData). any (text_eq t) x.types) (sym e)
            ∙ gather-types t true (own k (history provider)) o
            ∙ ap (λ b. b || has_type t (own k (history provider)))
                (gather-types t false (own k fs) none),
        subst (λ (x : PairData). DistinctTypes x.types) e
            (gather-DistinctTypes true (own k (history provider)) o
              (gather-DistinctTypes false (own k fs) none tt)),
      )

  -- The score of a pair's row is at most 99, and if it is less, no contributor's score is above it.
  pub pair_row-score :
      (zero_float : Float) (min_types : ℕ) (k : PairKey) (fs : List (Finding Float))
      (provider : Option (List (Finding Float))) (d : PairData)
      → lookup_pair k (pairs_of fs provider) ≡ some d
      → ((pair_row zero_float min_types k d).score ≤ 99)
        × All
            (λ (f : Finding Float).
              (f.score ≤ (pair_row zero_float min_types k d).score)
              ⊎ ((pair_row zero_float min_types k d).score ≡ 99))
            (own k fs ++ own k (history provider))
  unfolding pair_row
  pair_row-score zero_float min_types k fs provider d h =
      let o = gather false (own k fs) none in
      let e = ap or_no_data (sym (lookup_pair-pairs_of k fs provider) ∙ h) in
      let Q =
        λ (f : Finding Float). (f.score ≤ pair_score min_types d) ⊎ (pair_score min_types d ≡ 99) in
      let old = gather-max_score true (own k (history provider)) o in
      let new = gather-max_score false (own k fs) none in
      let top : (or_no_data o).max_score ≤ d.max_score =
        subst (λ (x : PairData). (or_no_data o).max_score ≤ x.max_score) e old.0 in
      (
        pair_score-le min_types d,
        All-append Q (own k fs) (own k (history provider))
            (All-map (λ (f : Finding Float). f.score ≤ (or_no_data o).max_score) Q (own k fs)
              (λ f a. score_case min_types f.score d (omega (arith, a, top))) new.1)
            (All-map (λ (f : Finding Float). f.score ≤ d.max_score) Q (own k (history provider))
              (λ f a. score_case min_types f.score d a)
              (subst
                (λ (x : PairData).
                  All (λ (f : Finding Float). f.score ≤ x.max_score) (own k (history provider)))
                e old.1)),
      )
