-- ===== src/Correlate/Pairs/Summary/Fields.antt =====
-- One contribution to a pair, field by field, in internal/analysis/correlate.go.
use archer.Prelude.{
  ◌≤◌, Bool, true, Option, none, some, List, [], ◌∷◌, ◌++◌, ltb, ◌≡◌, refl, sym, subst, ap, ◌∙◌,
  ◌⊎◌, inl, inr, if◌then◌else◌, All, All-append, All-map, Some, Some-left, Some-right, arith,
  Bool-cases, ℤ,
}
use archer.Finding.{Finding}
use archer.Finding.Identity.{Fingerprint, same, same_refl, fingerprint}
use archer.Correlate.{PairKey, PairData, with_finding, earlier, is_seen}
use archer.Correlate.Pairs.Summary.{
  id_for, IsOf, NotBefore, SummaryOf, earlier_cases, NotBefore-self, earlier-none, NotBefore-trans,
  is_seen-append,
}

module _ {Float : Type 0} where
  module _ (k : PairKey) (es : List (ℤ × Finding Float)) (historical : Bool)
      (f : Finding Float) where
    abbrev pub more : List (ℤ × Finding Float)
    more = es ++ ((id_for historical f, f) ∷ [])

    abbrev pub IsLinked : Fingerprint × ℤ → ℤ × Finding Float → Type 0
    IsLinked x e = IsOf k e.1 × (fingerprint e.1 ≡ x.0) × (e.0 ≡ x.1)

    pub still-IsLinked :
        (xs : List (Fingerprint × ℤ))
        → All (λ (x : Fingerprint × ℤ). Some (IsLinked x) es) xs
        → All (λ (x : Fingerprint × ℤ). Some (IsLinked x) more) xs
    still-IsLinked xs =
        All-map (λ (x : Fingerprint × ℤ). Some (IsLinked x) es)
          (λ (x : Fingerprint × ℤ). Some (IsLinked x) more) xs
          (λ x h. Some-left (IsLinked x) es _ h)

    pub skipped : (o : Option PairData) → (IsOf k f → ⊥) → SummaryOf k es o → SummaryOf k more o
    skipped none n s = All-append _ es _ s (n, tt)
    skipped (some d) n s = record {
      bound = All-append _ es _ s.bound (λ h. absurd (n h), tt);
      attained = Some-left _ es _ s.attained;
      first = All-append _ es _ s.first (λ h. absurd (n h), tt);
      timed = Some-left _ es _ s.timed;
      linked = still-IsLinked d.ids_by_fingerprint s.linked;
      covered = All-append _ es _ s.covered (λ h. absurd (n h), tt);
    }

    pub next_bound :
        (d : PairData)
        → All (λ (e : ℤ × Finding Float). IsOf k e.1 → e.1.score ≤ d.max_score) es
        → All
            (λ (e : ℤ × Finding Float).
              IsOf k e.1 → e.1.score ≤ (with_finding historical f d).max_score)
            more
    unfolding with_finding
    next_bound d a =
        All-append _ es _
          (All-map (λ (e : ℤ × Finding Float). IsOf k e.1 → e.1.score ≤ d.max_score)
            (λ (e : ℤ × Finding Float).
              IsOf k e.1 → e.1.score ≤ (if ltb d.max_score f.score then f.score else d.max_score))
            es (λ e h x. let b = h x in ground arith) a)
          (λ x. ground arith, tt)

    pub next_first :
        (d : PairData)
        → All (λ (e : ℤ × Finding Float). IsOf k e.1 → NotBefore e.1.timestamp d.earliest_ts) es
        → All
            (λ (e : ℤ × Finding Float).
              IsOf k e.1 → NotBefore e.1.timestamp (with_finding historical f d).earliest_ts)
            more
    unfolding with_finding
    next_first d a = elim (earlier_cases f.timestamp d.earliest_ts) [
      | inl (e, n) ↦ rw e (
          All-append _ es _
            (All-map (λ (e : ℤ × Finding Float). IsOf k e.1 → NotBefore e.1.timestamp d.earliest_ts)
              (λ (e : ℤ × Finding Float). IsOf k e.1 → NotBefore e.1.timestamp f.timestamp) es
              (λ e h x. NotBefore-trans e.1.timestamp d.earliest_ts f.timestamp (h x) n) a)
            (λ x. NotBefore-self f.timestamp, tt))
      | inr (e, n) ↦ rw e (All-append _ es _ a (λ x. n, tt))
    ]

    pub next-IsLinked :
        (d : PairData)
        → IsOf k f
        → All (λ (x : Fingerprint × ℤ). Some (IsLinked x) es) d.ids_by_fingerprint
        → All
            (λ (x : Fingerprint × ℤ). Some (IsLinked x) more)
            (with_finding historical f d).ids_by_fingerprint
    unfolding with_finding
    next-IsLinked d h a = elim (Bool-cases (is_seen (fingerprint f) d.ids_by_fingerprint)) [
      | inl e ↦ rw e (still-IsLinked d.ids_by_fingerprint a)
      | inr e ↦ rw e (
          All-append (λ (x : Fingerprint × ℤ). Some (IsLinked x) more) d.ids_by_fingerprint _
            (still-IsLinked d.ids_by_fingerprint a)
            (
              Some-right (IsLinked (fingerprint f, id_for historical f)) es _ (inl (h, refl, refl)),
              tt,
            ))
    ]

    next_seen :
        (d : PairData) (fp : Fingerprint)
        → (is_seen fp d.ids_by_fingerprint ≡ true) ⊎ (fp ≡ fingerprint f)
        → is_seen fp (with_finding historical f d).ids_by_fingerprint ≡ true
    unfolding with_finding is_seen
    next_seen d fp h = elim (Bool-cases (is_seen (fingerprint f) d.ids_by_fingerprint)) [
      | inl e ↦ rw e (elim h [
        | inl a ↦ a
        | inr a ↦ subst (λ x. is_seen x d.ids_by_fingerprint ≡ true) (sym a) e
      ])
      | inr e ↦ rw e (
          is_seen-append fp d.ids_by_fingerprint ((fingerprint f, id_for historical f) ∷ [])
          ∙ (elim h [
            | inl a ↦ rw a refl
            | inr a ↦ ground (arith, same_refl (fingerprint f), ap (λ x. same x (fingerprint f)) a)
          ]))
    ]

    pub next_covered :
        (d : PairData)
        → All
            (λ (e : ℤ × Finding Float).
              IsOf k e.1 → is_seen (fingerprint e.1) d.ids_by_fingerprint ≡ true)
            es
        → All
            (λ (e : ℤ × Finding Float).
              IsOf k e.1
              → is_seen (fingerprint e.1) (with_finding historical f d).ids_by_fingerprint ≡ true)
            more
    next_covered d a =
        All-append _ es _
          (All-map
            (λ (e : ℤ × Finding Float).
              IsOf k e.1 → is_seen (fingerprint e.1) d.ids_by_fingerprint ≡ true)
            (λ (e : ℤ × Finding Float).
              IsOf k e.1
              → is_seen (fingerprint e.1) (with_finding historical f d).ids_by_fingerprint ≡ true)
            es (λ e h x. next_seen d (fingerprint e.1) (inl (h x))) a)
          (λ x. next_seen d (fingerprint f) (inr refl), tt)

    pub next_attained :
        (d : PairData)
        → IsOf k f
        → Some (λ (e : ℤ × Finding Float). IsOf k e.1 × (e.1.score ≡ d.max_score)) es
          ⊎ (d.max_score ≡ 0)
        → Some
            (λ (e : ℤ × Finding Float).
              IsOf k e.1 × (e.1.score ≡ (with_finding historical f d).max_score))
            more
    unfolding with_finding
    next_attained d h a = elim (Bool-cases (ltb d.max_score f.score)) [
      | inl e ↦ rw e (Some-right _ es _ (inl (h, refl)))
      | inr e ↦ rw e (elim a [
        | inl b ↦ Some-left _ es _ b
        | inr b ↦ Some-right _ es _ (inl (h, ground (arith, e, b)))
      ])
    ]

    pub next_timed :
        (d : PairData)
        → IsOf k f
        → Some (λ (e : ℤ × Finding Float). IsOf k e.1 × (e.1.timestamp ≡ d.earliest_ts)) es
          ⊎ (d.earliest_ts ≡ [])
        → Some
            (λ (e : ℤ × Finding Float).
              IsOf k e.1 × (e.1.timestamp ≡ (with_finding historical f d).earliest_ts))
            more
    unfolding with_finding
    next_timed d h (inr b) =
        Some-right _ es _ (inl (h, sym (ap (earlier f.timestamp) b ∙ earlier-none f.timestamp)))
    next_timed d h (inl b) = elim (earlier_cases f.timestamp d.earliest_ts) [
      | inl (e, n) ↦ rw e (Some-right _ es _ (inl (h, refl)))
      | inr (e, n) ↦ rw e (Some-left _ es _ b)
    ]
