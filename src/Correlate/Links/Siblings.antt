-- ===== src/Correlate/Links/Siblings.antt =====
-- The siblings that correlateFindings of internal/analysis/correlate.go gives to the findings of a run.
use archer.Prelude.{
  ℕ, zero, suc, ◌≤◌, ◌<◌, Bool, true, false, Option, none, some, List, [], ◌∷◌, ◌++◌, map, Text,
  ltb, ◌≡◌, ◌⊎◌, refl, subst, ◌∙◌, if◌then◌else◌, if_intro, text_eq, length, All, All-append,
  All-map, arith, Bool-cases, inl, inr, ℤ, pos, negsuc, negate,
}
use archer.Finding.{Finding}
use archer.Finding.Identity.{Fingerprint, fingerprint}
use archer.Correlate.{
  type_correlated_activity, PairKey, PairData, Pairs, same_key, no_data, with_finding, put_pair,
  key_of, contributes, contribute, collect, history, pairs_of, is_seen, key_lt,
}
use archer.Correlate.Rows.{
  insert_pair, sort_pairs, int_eq, siblings_in, annotate, Annotations, siblings_of, join_siblings,
  correlations_of, Analyzer, add_finding, pair_row, emit_pairs, with_siblings, correlate_findings,
}
use archer.Correlate.Links.{
  Increasing, Without, int_eq_sound, int_eq_sym, correlations_of-Increasing, correlations_of-All,
}

abbrev pos_part : ℤ → ℕ
pos_part (pos n) = n
pos_part (negsuc n) = 0

-- The ids of the findings that contribute to a pair are those of a run, or negated.
abbrev Below : ℕ → PairKey × PairData → Type 0
Below b p = All (λ (e : Fingerprint × ℤ). pos_part e.1 ≤ b) p.1.ids_by_fingerprint

above : (b n : ℕ) (i : ℤ) → pos_part i ≤ b → b < n → int_eq i (pos n) ≡ false
unfolding int_eq
above b n (pos a) h k = ground (arith, h, k)
above b n (negsuc a) h k = refl

negate-le : (b n : ℕ) → pos_part (negate n) ≤ b
negate-le b zero = omega arith
negate-le b (suc n) = omega arith

insert_pair-All :
    (P : PairKey × PairData → Type 0) (p : PairKey × PairData) (m : Pairs)
    → P p
    → All P m
    → All P (insert_pair p m)
unfolding insert_pair
insert_pair-All P p [] h a = (h, tt)
insert_pair-All P p (q ∷ m) h (k, a) = elim (Bool-cases (key_lt q.0 p.0)) [
  | inl e ↦ rw e (k, insert_pair-All P p m h a)
  | inr e ↦ rw e (h, (k, a))
]

sort_pairs-All : (P : PairKey × PairData → Type 0) (m : Pairs) → All P m → All P (sort_pairs m)
unfolding sort_pairs
sort_pairs-All P [] a = tt
sort_pairs-All P (p ∷ m) (h, a) = insert_pair-All P p (sort_pairs m) h (sort_pairs-All P m a)

put_pair-Below :
    (b : ℕ) (k : PairKey) (g : PairData → PairData) (m : Pairs)
    → ((j : PairKey) (d : PairData) → Below b (j, d) → Below b (j, g d))
    → All (Below b) m
    → All (Below b) (put_pair k g m)
unfolding put_pair
put_pair-Below b k g [] h a = (h k no_data tt, tt)
put_pair-Below b k g ((j, d) ∷ m) h (p, a) = elim (Bool-cases (same_key j k)) [
  | inl e ↦ rw e (h j d p, a)
  | inr e ↦ rw e (p, put_pair-Below b k g m h a)
]

siblings_in-Without :
    (id row : ℤ) (ids : List ℤ) → int_eq id row ≡ false → Without id (siblings_in id ids row)
unfolding siblings_in
siblings_in-Without id row [] h = (h, tt)
siblings_in-Without id row (j ∷ ids) h = elim (Bool-cases (int_eq j id)) [
  | inl e ↦ rw e (siblings_in-Without id row ids h)
  | inr e ↦ rw e (int_eq_sym id j ∙ e, siblings_in-Without id row ids h)
]

-- No annotation names the finding that it is for.
abbrev NoSelf : Annotations → Type 0
NoSelf m = All (λ (e : ℤ × List ℤ). Without e.0 e.1) m

annotate-NoSelf :
    (ids all : List ℤ) (row : ℤ)
    → All (λ i. int_eq i row ≡ false) ids
    → NoSelf (annotate ids all row)
unfolding annotate
annotate-NoSelf [] all row a = tt
annotate-NoSelf (i ∷ ids) all row (h, a) =
    (siblings_in-Without i row all h, annotate-NoSelf ids all row a)

abbrev WithoutIn : ℤ → Option (List ℤ) → Type 0
WithoutIn i none = Unit
WithoutIn i (some s) = Without i s

join_siblings-WithoutIn :
    (i : ℤ) (s : List ℤ) (o : Option (List ℤ))
    → Without i s
    → WithoutIn i o
    → WithoutIn i (join_siblings s o)
join_siblings-WithoutIn i s none w h = w
join_siblings-WithoutIn i s (some t) w h = All-append (λ j. int_eq i j ≡ false) s t w h

siblings_of-WithoutIn : (i : ℤ) (m : Annotations) → NoSelf m → WithoutIn i (siblings_of i m)
unfolding siblings_of
siblings_of-WithoutIn i [] n = tt
siblings_of-WithoutIn i ((j, s) ∷ m) (w, n) = elim (Bool-cases (int_eq j i)) [
  | inr e ↦ rw e (siblings_of-WithoutIn i m n)
  | inl e ↦
      let same : j ≡ i = int_eq_sound j i e in
      rw e (
        join_siblings-WithoutIn i s (siblings_of i m) (subst (λ k. Without k s) same w)
          (siblings_of-WithoutIn i m n))
]

correlations_of-Without :
    (i : ℤ) (o : Option (List ℤ)) → WithoutIn i o → Without i (correlations_of o)
correlations_of-Without i none w = tt
correlations_of-Without i (some s) w = correlations_of-All (λ j. int_eq i j ≡ false) s w

ids-above :
    (b n : ℕ) (es : List (Fingerprint × ℤ))
    → b < n
    → All (λ (e : Fingerprint × ℤ). pos_part e.1 ≤ b) es
    → All (λ i. int_eq i (pos n) ≡ false) (map (λ (e : Fingerprint × ℤ). e.1) es)
ids-above b n [] h a = tt
ids-above b n (e ∷ es) h (p, a) = (above b n e.1 p h, ids-above b n es h a)

module _ {Float : Type 0} where
  with_finding-Below :
      (b : ℕ) (historical : Bool) (f : Finding Float) (j : PairKey) (d : PairData)
      → (historical ≡ false → f.id ≤ b)
      → Below b (j, d)
      → Below b (j, with_finding historical f d)
  unfolding with_finding
  with_finding-Below b historical f j d h a =
      elim (Bool-cases (is_seen (fingerprint f) d.ids_by_fingerprint)) [
        | inl e ↦ rw e a
        | inr e ↦ rw e (
            All-append (λ (x : Fingerprint × ℤ). pos_part x.1 ≤ b) d.ids_by_fingerprint _ a
              (elim (Bool-cases historical) [
                | inl p ↦ rw p (negate-le b f.id, tt)
                | inr p ↦ rw p (h p, tt)
              ]))
      ]

  old_ids :
      (b : ℕ) (fs : List (Finding Float)) → All (λ (f : Finding Float). true ≡ false → f.id ≤ b) fs
  old_ids b [] = tt
  old_ids b (f ∷ fs) = ((λ e. cc), old_ids b fs)

  collect-Below :
      (b : ℕ) (historical : Bool) (fs : List (Finding Float)) (m : Pairs)
      → All (λ (f : Finding Float). historical ≡ false → f.id ≤ b) fs
      → All (Below b) m
      → All (Below b) (collect historical fs m)
  unfolding collect contribute
  collect-Below b historical [] m h a = a
  collect-Below b historical (f ∷ fs) m (p, h) a = elim (Bool-cases (contributes f)) [
    | inl e ↦ rw e (
        collect-Below b historical fs _ h (
          put_pair-Below b (key_of f) (with_finding historical f) m
            (λ j d k. with_finding-Below b historical f j d p k) a))
    | inr e ↦ rw e (collect-Below b historical fs m h a)
  ]

  emit_pairs-NoSelf :
      (sensor_of : Text → Text) (zero_float : Float) (min_types b : ℕ) (ps : Pairs)
      (a : Analyzer Float) (m : Annotations)
      → b ≤ a.next_id
      → All (Below b) ps
      → NoSelf m
      → NoSelf (emit_pairs sensor_of zero_float min_types ps a m).1
  unfolding emit_pairs add_finding
  emit_pairs-NoSelf sensor_of zero_float min_types b [] a m h l n = n
  emit_pairs-NoSelf sensor_of zero_float min_types b ((k, d) ∷ ps) a m h (p, l) n =
      let ids = map (λ (e : Fingerprint × ℤ). e.1) d.ids_by_fingerprint in
      let quiet = ltb (length d.types) min_types in
      let a' = add_finding sensor_of (pair_row zero_float min_types k d) a in
      emit_pairs-NoSelf sensor_of zero_float min_types b ps (if quiet then a else a')
        (if quiet then m else m ++ annotate ids ids (pos (suc a.next_id)))
        (if_intro (λ (x : Analyzer Float). b ≤ x.next_id) quiet {x = a} {y = a'} (λ q. h)
          (λ q. omega (arith, h)))
        l
        (if_intro NoSelf quiet {x = m} {y = m ++ annotate ids ids (pos (suc a.next_id))} (λ q. n)
          (λ q.
            All-append (λ (e : ℤ × List ℤ). Without e.0 e.1) m _ n
              (annotate-NoSelf ids ids (pos (suc a.next_id))
                (ids-above b (suc a.next_id) d.ids_by_fingerprint (omega (arith, h)) p))))

  -- What the phase writes into a finding: ids in increasing order, and not its own.
  abbrev pub Linked : Finding Float → Type 0
  Linked f =
      (text_eq f.type type_correlated_activity ≡ true)
      ⊎ (Increasing f.correlations × Without (pos f.id) f.correlations)

  with_siblings-Linked :
      (m : Annotations) (f : Finding Float) → NoSelf m → Linked (with_siblings m f)
  unfolding with_siblings
  with_siblings-Linked m f n = elim (Bool-cases (text_eq f.type type_correlated_activity)) [
    | inl p ↦ rw p (inl p)
    | inr p ↦ rw p (
        inr (
          correlations_of-Increasing (siblings_of (pos f.id) m),
          correlations_of-Without (pos f.id) (siblings_of (pos f.id) m)
              (siblings_of-WithoutIn (pos f.id) m n),
        ))
  ]

  map-Linked :
      (m : Annotations) (fs : List (Finding Float))
      → NoSelf m
      → All Linked (map (with_siblings m) fs)
  map-Linked m [] n = tt
  map-Linked m (f ∷ fs) n = (with_siblings-Linked m f n, map-Linked m fs n)

  -- If the phase runs (two types at least are asked for) and no finding of the run has an id above the
  -- last one given, then each finding that is no row of a pair gets ids in increasing order, its own
  -- not among them.
  pub correlate_findings-Linked :
      (sensor_of : Text → Text) (zero_float : Float) (a : Analyzer Float)
      → ltb a.correlation_min_types 2 ≡ false
      → All (λ (f : Finding Float). f.id ≤ a.next_id) a.findings
      → All Linked (correlate_findings sensor_of zero_float a).findings
  unfolding correlate_findings pairs_of
  correlate_findings-Linked sensor_of zero_float a h l =
      let ps = collect true (history a.findings_provider) (collect false a.findings []) in
      let below =
        collect-Below a.next_id true (history a.findings_provider) (collect false a.findings [])
          (old_ids a.next_id (history a.findings_provider))
          (collect-Below a.next_id false a.findings [] (All-map _ _ a.findings (λ f k e. k) l)
            tt) in
      rw h (
        map-Linked _ _ (
          emit_pairs-NoSelf sensor_of zero_float a.correlation_min_types a.next_id (sort_pairs ps) a
            [] (omega arith) (sort_pairs-All (Below a.next_id) ps below) tt))
