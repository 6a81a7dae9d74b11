-- ===== src/Store/Merge/Entries.antt =====
-- The entries of `existing` in setFindingsImpl of internal/store/store.go: lookups, deletions, ids.
use archer.Prelude.{
  ℕ, ◌≡◌, inl, inr, refl, sym, ◌∙◌, ap, subst, true, false, not, ◌&&◌, Option, none, some, List, [],
  ◌∷◌, ◌==◌, if◌then◌else◌, any, arith, Bool-cases, All, All-map,
}
use archer.Finding.{Finding}
use archer.Finding.Identity.{Fingerprint, same, fingerprint}
use archer.Store.Merge.{entry, delete, legacy, first_entry}

-- No number of the list is among those before it.
abbrev pub Fresh : List ℕ → List ℕ → Type 0
Fresh used [] = Unit
Fresh used (i ∷ is) = (any (λ u. u == i) used ≡ false) × Fresh (i ∷ used) is

module _ {Float : Type 0} where
  abbrev pub id_of : Finding Float → ℕ
  id_of f = f.id

  -- The ids of the findings are distinct.
  abbrev pub DistinctIds : List (Finding Float) → Type 0
  DistinctIds [] = Unit
  DistinctIds (f ∷ fs) = All (λ g. (g.id == f.id) ≡ false) fs × DistinctIds fs

  -- No finding has an older form of its fingerprint that a finding before it has as its fingerprint.
  abbrev pub NoClash : List Fingerprint → List (Finding Float) → Type 0
  NoClash before [] = Unit
  NoClash before (f ∷ fs) =
      All (λ fp. any (same fp) before ≡ false) (legacy (fingerprint f))
      × NoClash (fingerprint f ∷ before) fs

  pub entry-All :
      (P : Finding Float → Type 0) (fp : Fingerprint) (es : List (Finding Float))
      (e : Finding Float)
      → entry fp es ≡ some e
      → All P es
      → P e × (same (fingerprint e) fp ≡ true)
  unfolding entry
  entry-All P fp [] e h a = cc
  entry-All P fp (x ∷ es) e h a = elim (Bool-cases (same (fingerprint x) fp)) [
    | inl k ↦
        let both : some x ≡ some e = sym (ap (λ b. if b then some x else entry fp es) k) ∙ h in
        let one : x ≡ e = cc both in
        (subst P one a.0, subst (λ z. same (fingerprint z) fp ≡ true) one k)
    | inr k ↦ entry-All P fp es e (sym (ap (λ b. if b then some x else entry fp es) k) ∙ h) a.1
  ]

  pub first_entry-All :
      (P : Fingerprint → Type 0) (fps : List Fingerprint) (es : List (Finding Float))
      (fp : Fingerprint) (e : Finding Float)
      → first_entry fps es ≡ some (fp, e)
      → All P fps
      → P fp × (entry fp es ≡ some e)
  unfolding first_entry
  first_entry-All P [] es fp e h a = cc
  first_entry-All P (gp ∷ fps) es fp e h a =
      found (entry gp es) refl h (λ k. first_entry-All P fps es fp e k a.1)
    where
      found :
          (o : Option (Finding Float))
          → entry gp es ≡ o
          → elim o as (λ x. Option (Fingerprint × Finding Float)) [
            | none ↦ first_entry fps es
            | some x ↦ some (gp, x)
          ]
            ≡ some (fp, e)
          → (first_entry fps es ≡ some (fp, e) → P fp × (entry fp es ≡ some e))
          → P fp × (entry fp es ≡ some e)
      found none q k ih = ih k
      found (some x) q k ih =
          let same_fp : gp ≡ fp = ground (arith, k) in
          let same_e : x ≡ e = ground (arith, k) in
          (subst P same_fp a.0, ap (λ z. entry z es) (sym same_fp) ∙ q ∙ ap (λ z. some z) same_e)

  pub delete-All :
      (P : Finding Float → Type 0) (fp : Fingerprint) (es : List (Finding Float))
      → All P es
      → All P (delete fp es)
  unfolding delete
  delete-All P fp [] a = tt
  delete-All P fp (x ∷ es) a = elim (Bool-cases (same (fingerprint x) fp)) [
    | inl k ↦ rw k (delete-All P fp es a.1)
    | inr k ↦ rw k (a.0, delete-All P fp es a.1)
  ]

  pub delete-apart :
      (fp : Fingerprint) (es : List (Finding Float))
      → All (λ x. same (fingerprint x) fp ≡ false) (delete fp es)
  unfolding delete
  delete-apart fp [] = tt
  delete-apart fp (x ∷ es) = elim (Bool-cases (same (fingerprint x) fp)) [
    | inl k ↦ rw k (delete-apart fp es)
    | inr k ↦ rw k (k, delete-apart fp es)
  ]

  pub delete-DistinctIds :
      (fp : Fingerprint) (es : List (Finding Float)) → DistinctIds es → DistinctIds (delete fp es)
  unfolding delete
  delete-DistinctIds fp [] d = tt
  delete-DistinctIds fp (x ∷ es) d = elim (Bool-cases (same (fingerprint x) fp)) [
    | inl k ↦ rw k (delete-DistinctIds fp es d.1)
    | inr k ↦
        rw k (delete-All (λ g. (g.id == x.id) ≡ false) fp es d.0, delete-DistinctIds fp es d.1)
  ]

  -- Whoever has the id of the entry of a fingerprint has that fingerprint.
  pub entry-only :
      (fp : Fingerprint) (es : List (Finding Float)) (e : Finding Float)
      → DistinctIds es
      → entry fp es ≡ some e
      → All (λ x. (x.id == e.id && not (same (fingerprint x) fp)) ≡ false) es
  unfolding entry
  entry-only fp [] e d h = tt
  entry-only fp (x ∷ es) e d h = elim (Bool-cases (same (fingerprint x) fp)) [
    | inl k ↦
        let both : some x ≡ some e = sym (ap (λ b. if b then some x else entry fp es) k) ∙ h in
        let one : x ≡ e = cc both in
        (ground (arith, k), All-map _ _ es (λ u q. ground (arith, q, ap id_of one)) d.0)
    | inr k ↦
        let tail : entry fp es ≡ some e = sym (ap (λ b. if b then some x else entry fp es) k) ∙ h in
        let other = (entry-All (λ g. (g.id == x.id) ≡ false) fp es e tail d.0).0 in
        (ground (arith, other), entry-only fp es e d.1 tail)
  ]
