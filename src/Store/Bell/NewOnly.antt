-- ===== src/Store/Bell/NewOnly.antt =====
-- What setFindingsImpl of internal/store/store.go rings for, against the ids that the set had.
use archer.Prelude.{
  ℕ, suc, ◌/◌, ◌≤◌, ◌≡◌, inl, inr, refl, Bool, true, false, ◌&&◌, ◌||◌, Option, none, some, List,
  [], ◌∷◌, leb, ltb, any, arith, Bool-cases, All, All-append,
}
use archer.Net.{Net}
use archer.Finding.{Finding}
use archer.Finding.Identity.{Fingerprint, fingerprint, same, is_rollup_type}
use archer.Store.Merge.{
  entry, carried, numbered, first_entry, legacy, Progress, claim, claim_legacy, assign_one, assign,
  dedupe, start, max_id, translated, preserved, merge,
}
use archer.Store.Bell.{Store, rings, emit, set_findings_impl}

module _ {Float : Type 0} where
  -- A finding is marked as new only if its id is above m.
  abbrev NewAbove : ℕ → Finding Float → Type 0
  NewAbove m f = (f.is_new && leb f.id m) ≡ false

  assign_one-NewAbove :
      (now : ℕ) (emitting : Bool) (m : ℕ) (f : Finding Float) (p : Progress Float)
      → m ≤ p.next_id
      → NewAbove m (assign_one now emitting f p).0 × (m ≤ (assign_one now emitting f p).1.next_id)
  unfolding assign_one carried numbered
  assign_one-NewAbove now emitting m f p le = by_entry (entry (fingerprint f) p.existing)
    where
      by_legacy :
          (o : Option (Fingerprint × Finding Float))
          → NewAbove m (claim_legacy now emitting f p o).0
            × (m ≤ (claim_legacy now emitting f p o).1.next_id)
      by_legacy none = (ground arith, ground arith)
      by_legacy (some (fp, old)) = (refl, le)

      by_entry :
          (o : Option (Finding Float))
          → NewAbove m (claim now emitting f p o).0 × (m ≤ (claim now emitting f p o).1.next_id)
      by_entry none = by_legacy (first_entry (legacy (fingerprint f)) p.existing)
      by_entry (some old) = (refl, le)

  assign-NewAbove :
      (now : ℕ) (emitting : Bool) (m : ℕ) (fs : List (Finding Float)) (p : Progress Float)
      → m ≤ p.next_id
      → All (NewAbove m) (assign now emitting fs p).0
  unfolding assign
  assign-NewAbove now emitting m [] p le = tt
  assign-NewAbove now emitting m (f ∷ fs) p le =
      let (h, next) = assign_one-NewAbove now emitting m f p le in
      (h, assign-NewAbove now emitting m fs (assign_one now emitting f p).1 next)

  translated-NewAbove :
      (historical : ℕ → Bool) (persisted : List (ℕ × ℕ)) (m : ℕ) (fs : List (Finding Float))
      → All (NewAbove m) fs
      → All (NewAbove m) (translated historical persisted fs)
  unfolding translated
  translated-NewAbove historical persisted m [] a = tt
  translated-NewAbove historical persisted m (f ∷ fs) (h, a) =
      (h, translated-NewAbove historical persisted m fs a)

  preserved-NewAbove :
      (purge : Bool) (fps : List Fingerprint) (m : ℕ) (es : List (Finding Float))
      → All (NewAbove m) (preserved purge fps es)
  unfolding preserved
  preserved-NewAbove purge fps m [] = tt
  preserved-NewAbove purge fps m (e ∷ es) =
      elim (Bool-cases (any (same (fingerprint e)) fps || purge && is_rollup_type e.type)) [
        | inl p ↦ rw p (preserved-NewAbove purge fps m es)
        | inr p ↦ rw p (refl, preserved-NewAbove purge fps m es)
      ]

  merge-NewAbove :
      (now : ℕ) (purge emitting : Bool) (old batch : List (Finding Float))
      → All (NewAbove (max_id old)) (merge now purge emitting old batch)
  unfolding merge
  merge-NewAbove now purge emitting old batch =
      All-append _ _ _
        (translated-NewAbove _ _ _ _
          (assign-NewAbove now emitting (max_id old) (dedupe batch) (start old) (omega arith)))
        (preserved-NewAbove purge _ (max_id old) _)

module _ (net : Net) {Float : Type 0} where
  emit-NewAbove :
      (now m : ℕ) (s : Store net Float) (fs : List (Finding Float)) (c : ℕ)
      → All (NewAbove m) fs
      → All (λ n. ltb m n.finding_id ≡ true) (emit net Float now s fs c).1
  unfolding emit rings
  emit-NewAbove now m s [] c a = tt
  emit-NewAbove now m s (f ∷ fs) c (h, a) = elim (Bool-cases (rings net Float now s f)) [
    | inl p ↦ rw p (ground arith, emit-NewAbove now m s fs (suc c) a)
    | inr p ↦ rw p (emit-NewAbove now m s fs c a)
  ]

  -- Each notification that a run adds is about a finding with an id above all ids of the set before
  -- the run, so a finding that is made again does not ring again; an import adds none.
  pub set_findings_impl-new_only :
      (now : ℕ) (purge emitting : Bool) (batch : List (Finding Float)) (s : Store net Float)
      → All
          (λ n. (emitting && ltb (max_id s.findings) n.finding_id) ≡ true)
          (set_findings_impl net Float now purge emitting batch s).1
  unfolding set_findings_impl
  set_findings_impl-new_only now purge false batch s = tt
  set_findings_impl-new_only now purge true batch s =
      let fs = merge (now / 1000000000) purge true s.findings batch in
      emit-NewAbove now (max_id s.findings) (record s { findings = fs }) fs s.notif_counter
        (merge-NewAbove (now / 1000000000) purge true s.findings batch)
