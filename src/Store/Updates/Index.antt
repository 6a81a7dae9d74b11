-- ===== src/Store/Updates/Index.antt =====
-- findingsIdx of internal/store/store.go: the places that it has for ids.
use archer.Prelude.{
  ℕ, suc, ◌+◌, ◌≡◌, ◌⊎◌, inl, inr, refl, sym, ◌∙◌, ap, subst, true, false, some, List, [], ◌∷◌,
  ◌++◌, map, ◌==◌, if◌then◌else◌, length, arith, Bool-cases, All, ==_iff,
}
use archer.Finding.{Finding}
use archer.Store.Merge.{lookup_id}
use archer.Store.Merge.Entries.{DistinctIds}
use archer.Store.Updates.{index_from, rebuild_findings_idx, at, set_at}

module _ {Float : Type 0} where
  -- None of the findings has the id.
  abbrev pub Without : ℕ → List (Finding Float) → Type 0
  Without id fs = All (λ f. (f.id == id) ≡ false) fs

  pub lookup_id-Without :
      (id i : ℕ) (fs : List (Finding Float)) (m : List (ℕ × ℕ))
      → Without id fs
      → lookup_id id (index_from i fs m) ≡ lookup_id id m
  unfolding index_from lookup_id
  lookup_id-Without id i [] m w = refl
  lookup_id-Without id i (f ∷ fs) m (h, w) =
      lookup_id-Without id (suc i) fs ((f.id, i) ∷ m) w ∙ rw h refl

  pub lookup_id-index_from :
      (i : ℕ) (us : List (Finding Float)) (f : Finding Float) (vs : List (Finding Float))
      (m : List (ℕ × ℕ))
      → Without f.id vs
      → lookup_id f.id (index_from i (us ++ (f ∷ vs)) m) ≡ some (i + length us)
  unfolding index_from lookup_id
  lookup_id-index_from i [] f vs m w =
      let self : (f.id == f.id) ≡ true = ground arith in
      let zero_length : i ≡ i + 0 = omega arith in
      lookup_id-Without f.id (suc i) vs ((f.id, i) ∷ m) w ∙ rw self (ap (λ k. some k) zero_length)
  lookup_id-index_from i (u ∷ us) f vs m w =
      let shift : suc i + length us ≡ i + suc (length us) = omega arith in
      lookup_id-index_from (suc i) us f vs ((u.id, i) ∷ m) w ∙ ap (λ k. some k) shift

  pub lookup_id-rebuild_findings_idx :
      (us : List (Finding Float)) (f : Finding Float) (vs : List (Finding Float))
      → Without f.id vs
      → lookup_id f.id (rebuild_findings_idx (us ++ (f ∷ vs))) ≡ some (length us)
  unfolding rebuild_findings_idx
  lookup_id-rebuild_findings_idx us f vs w =
      let start : 0 + length us ≡ length us = omega arith in
      lookup_id-index_from 0 us f vs [] w ∙ ap (λ k. some k) start

  pub at-length :
      (us : List (Finding Float)) (f : Finding Float) (vs : List (Finding Float))
      → at (length us) (us ++ (f ∷ vs)) ≡ some f
  unfolding at
  at-length [] f vs = refl
  at-length (u ∷ us) f vs = at-length us f vs

  pub set_at-length :
      (g : Finding Float → Finding Float) (us : List (Finding Float)) (f : Finding Float)
      (vs : List (Finding Float))
      → set_at (length us) g (us ++ (f ∷ vs)) ≡ us ++ (g f ∷ vs)
  unfolding set_at
  set_at-length g [] f vs = refl
  set_at-length g (u ∷ us) f vs = ap (λ fs. u ∷ fs) (set_at-length g us f vs)

  -- The findings, with the one of an id changed.
  abbrev pub map_id :
      ℕ → (Finding Float → Finding Float) → List (Finding Float) → List (Finding Float)
  map_id id g fs = map (λ (f : Finding Float). if f.id == id then g f else f) fs

  pub map_id-Without :
      (id : ℕ) (g : Finding Float → Finding Float) (fs : List (Finding Float))
      → Without id fs
      → map_id id g fs ≡ fs
  map_id-Without id g [] w = refl
  map_id-Without id g (f ∷ fs) (h, w) = rw h (ap (λ fs. f ∷ fs) (map_id-Without id g fs w))

  -- the set divided at the finding of an id
  pub record Found (id : ℕ) (fs : List (Finding Float)) : Type 0 where
    pub before : List (Finding Float)
    pub here : Finding Float
    pub after : List (Finding Float)
    pub fs_eq : fs ≡ before ++ (here ∷ after)
    pub id_eq : here.id ≡ id
    pub before_ok : Without id before
    pub after_ok : Without id after

  pub find : (id : ℕ) (fs : List (Finding Float)) → DistinctIds fs → Without id fs ⊎ Found id fs
  find id [] d = inl tt
  find id (f ∷ fs) (h, d) = elim (Bool-cases (f.id == id)) [
    | inl p ↦
        let e : f.id ≡ id = (==_iff f.id id).0 p in
        inr (record {
          before = [];
          here = f;
          after = fs;
          fs_eq = refl;
          id_eq = e;
          before_ok = tt;
          after_ok = subst (λ i. All (λ (g : Finding Float). (g.id == i) ≡ false) fs) e h;
        })
    | inr p ↦ elim (find id fs d) [
      | inl w ↦ inl (p, w)
      | inr k ↦ inr (record {
        before = f ∷ k.before;
        here = k.here;
        after = k.after;
        fs_eq = ap (λ fs. f ∷ fs) k.fs_eq;
        id_eq = k.id_eq;
        before_ok = (p, k.before_ok);
        after_ok = k.after_ok;
      })
    ]
  ]

  -- The place that the map has for the finding's id is the finding's.
  abbrev pub Located : List (Finding Float) → Finding Float → Type 0
  Located fs f = (i : ℕ) × (lookup_id f.id (rebuild_findings_idx fs) ≡ some i) × (at i fs ≡ some f)

  append_one :
      (us : List (Finding Float)) (f : Finding Float) (vs : List (Finding Float))
      → (us ++ (f ∷ [])) ++ vs ≡ us ++ (f ∷ vs)
  append_one [] f vs = refl
  append_one (u ∷ us) f vs = ap (λ fs. u ∷ fs) (append_one us f vs)

  pub All-Located : (us vs : List (Finding Float)) → DistinctIds vs → All (Located (us ++ vs)) vs
  All-Located us [] d = tt
  All-Located us (f ∷ vs) (h, d) = (
    (length us, lookup_id-rebuild_findings_idx us f vs h, at-length us f vs),
    subst (λ fs. All (Located fs) vs) (append_one us f vs) (All-Located (us ++ (f ∷ [])) vs d),
  )

  -- What keeps the ids keeps the map, and that they are distinct.
  module _ (g : Finding Float → Finding Float) (k : (f : Finding Float) → (g f).id ≡ f.id) where
    index_from-map :
        (i : ℕ) (fs : List (Finding Float)) (m : List (ℕ × ℕ))
        → index_from i (map g fs) m ≡ index_from i fs m
    unfolding index_from
    index_from-map i [] m = refl
    index_from-map i (f ∷ fs) m =
        index_from-map (suc i) fs (((g f).id, i) ∷ m)
        ∙ ap (λ j. index_from (suc i) fs ((j, i) ∷ m)) (k f)

    pub rebuild_findings_idx-map :
        (fs : List (Finding Float)) → rebuild_findings_idx (map g fs) ≡ rebuild_findings_idx fs
    unfolding rebuild_findings_idx
    rebuild_findings_idx-map fs = index_from-map 0 fs []

    Without-map : (id : ℕ) (fs : List (Finding Float)) → Without id fs → Without id (map g fs)
    Without-map id [] w = tt
    Without-map id (f ∷ fs) (h, w) = (ap (λ j. j == id) (k f) ∙ h, Without-map id fs w)

    pub DistinctIds-map : (fs : List (Finding Float)) → DistinctIds fs → DistinctIds (map g fs)
    DistinctIds-map [] d = tt
    DistinctIds-map (f ∷ fs) (h, d) = (
      subst (λ j. All (λ (u : Finding Float). (u.id == j) ≡ false) (map g fs)) (sym (k f))
          (Without-map f.id fs h),
      DistinctIds-map fs d,
    )
