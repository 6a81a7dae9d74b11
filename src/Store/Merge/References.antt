-- ===== src/Store/Merge/References.antt =====
-- The references between findings after setFindingsImpl of internal/store/store.go.
use archer.Prelude.{
  ℕ, suc, Bool, true, ◌||◌, Option, none, some, List, [], ◌∷◌, ◌++◌, ◌==◌, ◌≡◌, ◌⊎◌, inl, inr, refl,
  sym, subst, ap, ◌∙◌, length, All, arith, Bool-cases, Option-cases, ℤ, pos, negsuc,
}
use archer.Finding.{Finding}
use archer.Finding.Identity.{Fingerprint, fingerprint}
use archer.Store.Merge.{
  lookup_id, legacy, dedupe, dropped_from, entry, has_id, first_entry, Progress, claim,
  claim_legacy, assign_one, assign, carried, numbered, extend_persisted, translate_one,
  or_historical, if_historical, translate, translated, preserved, start, merge,
}

abbrev Values : (ℕ → Type 0) → List (ℕ × ℕ) → Type 0
Values Q m = All (λ (e : ℕ × ℕ). Q e.1) m

lookup_id-Values :
    (Q : ℕ → Type 0) (k i : ℕ) (m : List (ℕ × ℕ)) → Values Q m → lookup_id k m ≡ some i → Q i
unfolding lookup_id
lookup_id-Values Q k i [] v e = cc
lookup_id-Values Q k i ((j, w) ∷ m) (h, v) e = elim (Bool-cases (j == k)) [
  | inl p ↦ subst Q (ground (arith, p, e)) h
  | inr p ↦ lookup_id-Values Q k i m v (ground (arith, p, e))
]

extend_persisted-Values :
    (Q : ℕ → Type 0) (ds m : List (ℕ × ℕ)) → Values Q m → Values Q (extend_persisted ds m)
unfolding extend_persisted
extend_persisted-Values Q [] m v = v
extend_persisted-Values Q ((d, w) ∷ ds) m v = elim (Option-cases (lookup_id w m)) [
  | inl e ↦ rw e (extend_persisted-Values Q ds m v)
  | inr (i, e) ↦ rw e (extend_persisted-Values Q ds ((d, i) ∷ m) (lookup_id-Values Q w i m v e, v))
]

-- A reference names a finding of the set before, or has the property.
abbrev Resolves : (ℕ → Type 0) → (ℕ → Bool) → ℤ → Type 0
Resolves Q historical (pos i) = (historical i ≡ true) ⊎ Q i
Resolves Q historical (negsuc n) = ⊥

if_historical-Resolves :
    (Q : ℕ → Type 0) (historical : ℕ → Bool) (n i : ℕ)
    → if_historical (historical n) n ≡ some i
    → Resolves Q historical (pos i)
if_historical-Resolves Q historical n i e = elim (Bool-cases (historical n)) [
  | inl p ↦ let same : n ≡ i = ground (arith, p, e) in inl (subst (λ k. historical k ≡ true) same p)
  | inr p ↦ absurd (ground (arith, p, e))
]

translate_one-Resolves :
    (Q : ℕ → Type 0) (historical : ℕ → Bool) (m : List (ℕ × ℕ)) (r : ℤ) (i : ℕ)
    → Values Q m
    → translate_one historical m r ≡ some i
    → Resolves Q historical (pos i)
unfolding translate_one
translate_one-Resolves Q historical m (negsuc n) i v e =
    if_historical-Resolves Q historical (suc n) i e
translate_one-Resolves Q historical m (pos n) i v e = elim (Option-cases (lookup_id n m)) [
  | inl p ↦
      if_historical-Resolves Q historical n i
        (sym (ap (λ o. or_historical o (historical n) n) p) ∙ e)
  | inr (w, p) ↦
      let same : w ≡ i = ground (arith, p, e) in inr (subst Q same (lookup_id-Values Q n w m v p))
]

translate-Resolves :
    (Q : ℕ → Type 0) (historical : ℕ → Bool) (m : List (ℕ × ℕ)) (rs : List ℤ)
    → Values Q m
    → All (Resolves Q historical) (translate historical m rs)
unfolding translate
translate-Resolves Q historical m [] v = tt
translate-Resolves Q historical m (r ∷ rs) v = elim (Option-cases (translate_one historical m r)) [
  | inl e ↦ rw e (translate-Resolves Q historical m rs v)
  | inr (i, e) ↦
      rw e (translate_one-Resolves Q historical m r i v e, translate-Resolves Q historical m rs v)
]

module _ {Float : Type 0} where
  -- What the loop adds to freshToPersisted is the id that it gives to the finding.
  claim-persisted :
      (now : ℕ) (emit : Bool) (f : Finding Float) (p : Progress Float) (o : Option (Finding Float))
      → (claim now emit f p o).1.persisted ≡ (f.id, (claim now emit f p o).0.id) ∷ p.persisted
  unfolding carried numbered
  claim-persisted now emit f p (some old) = refl
  claim-persisted now emit f p none =
      claim_legacy-persisted (first_entry (legacy (fingerprint f)) p.existing)
    where
      claim_legacy-persisted :
          (o : Option (Fingerprint × Finding Float))
          → (claim_legacy now emit f p o).1.persisted
            ≡ (f.id, (claim_legacy now emit f p o).0.id) ∷ p.persisted
      claim_legacy-persisted none = refl
      claim_legacy-persisted (some (fp, old)) = refl

  assign-Values :
      (now : ℕ) (emit : Bool) (Q : ℕ → Type 0) (fs : List (Finding Float)) (p : Progress Float)
      → Values Q p.persisted
      → All (λ (g : Finding Float). Q g.id) (assign now emit fs p).0
      → Values Q (assign now emit fs p).1.persisted
  unfolding assign assign_one
  assign-Values now emit Q [] p v a = v
  assign-Values now emit Q (f ∷ fs) p v (h, a) =
      let o = entry (fingerprint f) p.existing in
      assign-Values now emit Q fs (claim now emit f p o).1
        (subst (Values Q) (sym (claim-persisted now emit f p o)) (h, v)) a

  length-assign :
      (now : ℕ) (emit : Bool) (fs : List (Finding Float)) (p : Progress Float)
      → length (assign now emit fs p).0 ≡ length fs
  unfolding assign
  length-assign now emit [] p = refl
  length-assign now emit (f ∷ fs) p = ap suc (length-assign now emit fs (assign_one now emit f p).1)

  All-has_id :
      (us fs : List (Finding Float))
      → ((i : ℕ) → has_id i fs ≡ true → has_id i us ≡ true)
      → All (λ (g : Finding Float). has_id g.id us ≡ true) fs
  unfolding has_id
  All-has_id us [] k = tt
  All-has_id us (f ∷ fs) k =
      (k f.id (ground arith), All-has_id us fs (λ i h. k i (ground (arith, h))))

  -- Each reference of the finding is the id of one of some findings.
  abbrev pub RefersTo : List (Finding Float) → List (Finding Float) → Finding Float → Type 0
  RefersTo old made f =
      All (Resolves (λ i. has_id i made ≡ true) (λ i. has_id i old)) f.correlations

  translated-RefersTo :
      (old made : List (Finding Float)) (m : List (ℕ × ℕ)) (fs : List (Finding Float))
      → Values (λ i. has_id i made ≡ true) m
      → All (RefersTo old made) (translated (λ i. has_id i old) m fs)
  unfolding translated
  translated-RefersTo old made m [] v = tt
  translated-RefersTo old made m (f ∷ fs) v = (
    translate-Resolves (λ i. has_id i made ≡ true) (λ i. has_id i old) m f.correlations v,
    translated-RefersTo old made m fs v,
  )

  translated-has_id :
      (historical : ℕ → Bool) (m : List (ℕ × ℕ)) (fs : List (Finding Float)) (i : ℕ)
      → has_id i (translated historical m fs) ≡ has_id i fs
  unfolding translated has_id
  translated-has_id historical m [] i = refl
  translated-has_id historical m (f ∷ fs) i =
      ap (λ b. (f.id == i) || b) (translated-has_id historical m fs i)

  length-translated :
      (historical : ℕ → Bool) (m : List (ℕ × ℕ)) (fs : List (Finding Float))
      → length (translated historical m fs) ≡ length fs
  unfolding translated
  length-translated historical m [] = refl
  length-translated historical m (f ∷ fs) = ap suc (length-translated historical m fs)

  -- The merged set begins with as many findings as deduplication keeps of the batch, and each
  -- reference of these is the id of one of them or of a finding of the set before, whatever numbers
  -- and negative sentinels the batch had for references.
  pub merge-RefersTo :
      (now : ℕ) (purge emit : Bool) (old batch : List (Finding Float))
      → (made : List (Finding Float)) × (kept : List (Finding Float)) × (merge now purge emit old
            batch
          ≡ made ++ kept)
        × (length made ≡ length (dedupe batch))
        × All (RefersTo old made) made
  unfolding merge
  merge-RefersTo now purge emit old batch =
      let r = assign now emit (dedupe batch) (start old) in
      let persisted = extend_persisted (dropped_from batch 0 batch) r.1.persisted in
      let made = translated (λ i. has_id i old) persisted r.0 in
      let own = λ (i : ℕ). has_id i made ≡ true in
      let ids =
        All-has_id made r.0 (λ i h. translated-has_id (λ i. has_id i old) persisted r.0 i ∙ h) in
      let values =
        extend_persisted-Values own (dropped_from batch 0 batch) r.1.persisted
          (assign-Values now emit own (dedupe batch) (start old) tt ids) in
      (
        made,
        preserved purge r.1.new_fps r.1.existing,
        refl,
        length-translated (λ i. has_id i old) persisted r.0
            ∙ length-assign now emit (dedupe batch) (start old),
        translated-RefersTo old made persisted r.0 values,
      )
