-- ===== src/Store/Merge/Keep.antt =====
-- What becomes of an analyst's work in setFindingsImpl of internal/store/store.go.
use archer.Prelude.{
  ℕ, ◌≡◌, ◌⊎◌, inl, inr, refl, sym, ◌∙◌, ap, subst, Bool, true, false, ◌&&◌, ◌||◌, Option, none,
  some, List, [], ◌∷◌, if◌then◌else◌, any, arith, Bool-cases, Some, Some-left, Some-right, Some-map,
}
use archer.Finding.{Finding}
use archer.Finding.Identity.{Fingerprint, same, same-eq, same_apart, fingerprint, is_rollup_type}
use archer.Store.Merge.{
  entry, delete, index_findings, carried, legacy, first_entry, Progress, claim, claim_legacy,
  assign_one, assign, start, dedupe, translated, preserved, extend_persisted, dropped_from, has_id,
  merge,
}

module _ {Float : Type 0} where
  -- A finding that has the id of another and all that an analyst has put on it.
  pub record WorkOf (e g : Finding Float) : Type 0 where
    pub id_eq : g.id ≡ e.id
    pub status_eq : g.status ≡ e.status
    pub analyst_eq : g.analyst ≡ e.analyst
    pub note_eq : g.analyst_note ≡ e.analyst_note
    pub status_ts_eq : g.status_ts ≡ e.status_ts
    pub notes_eq : g.notes ≡ e.notes

  carried-WorkOf : (now : ℕ) (e f : Finding Float) → WorkOf e (carried now e f)
  unfolding carried
  carried-WorkOf now e f = record {
    id_eq = refl;
    status_eq = refl;
    analyst_eq = refl;
    note_eq = refl;
    status_ts_eq = refl;
    notes_eq = refl;
  }

  entry-delete :
      (fp gp : Fingerprint) (es : List (Finding Float))
      → same fp gp ≡ false
      → entry fp (delete gp es) ≡ entry fp es
  unfolding entry delete
  entry-delete fp gp [] h = refl
  entry-delete fp gp (e ∷ es) h = elim (Bool-cases (same (fingerprint e) gp)) [
    | inl p ↦
        let other : same (fingerprint e) fp ≡ false = same_apart fp gp (fingerprint e) h p in
        rw p (rw other (entry-delete fp gp es h))
    | inr p ↦
        rw p
          (ap (λ rest. if same (fingerprint e) fp then some e else rest) (entry-delete fp gp es h))
  ]

  first_entry_lem :
      (fps : List Fingerprint) (es : List (Finding Float)) (fp : Fingerprint) (old : Finding Float)
      → first_entry fps es ≡ some (fp, old)
      → entry fp es ≡ some old
  unfolding first_entry
  first_entry_lem [] es fp old h = cc
  first_entry_lem (gp ∷ fps) es fp old h =
      found (entry gp es) refl h (first_entry_lem fps es fp old)
    where
      found :
          (o : Option (Finding Float))
          → entry gp es ≡ o
          → elim o as (λ x. Option (Fingerprint × Finding Float)) [
            | none ↦ first_entry fps es
            | some e ↦ some (gp, e)
          ]
            ≡ some (fp, old)
          → (first_entry fps es ≡ some (fp, old) → entry fp es ≡ some old)
          → entry fp es ≡ some old
      found none q k ih = ih k
      found (some e) q k ih =
          let same_fp : gp ≡ fp = ground (arith, k) in
          let same_e : e ≡ old = ground (arith, k) in
          ap (λ x. entry x es) (sym same_fp) ∙ q ∙ ap (λ x. some x) same_e

  -- the entry of a fingerprint is still there, and the run has not made it again
  abbrev Live : Finding Float → Progress Float → Type 0
  Live e p =
      (entry (fingerprint e) p.existing ≡ some e) × (any (same (fingerprint e)) p.new_fps ≡ false)

  module _ (now : ℕ) (emit : Bool) (e : Finding Float) where
    assign_one-Live :
        (f : Finding Float) (p : Progress Float)
        → Live e p
        → WorkOf e (assign_one now emit f p).0 ⊎ Live e (assign_one now emit f p).1
    unfolding assign_one
    assign_one-Live f p l = go (entry (fingerprint f) p.existing) refl
      where
        taken :
            (fp : Fingerprint) (old : Finding Float)
            → same (fingerprint e) fp ≡ true
            → entry fp p.existing ≡ some old
            → WorkOf e (carried now old f)
        taken fp old k at =
            let both : some e ≡ some old =
              sym l.0 ∙ ap (λ x. entry x p.existing) (same-eq (fingerprint e) fp k) ∙ at in
            let one : e ≡ old = cc both in
            subst (λ x. WorkOf e (carried now x f)) one (carried-WorkOf now e f)

        elsewhere :
            entry (fingerprint f) p.existing ≡ none → same (fingerprint e) (fingerprint f) ≡ false
        elsewhere q = elim (Bool-cases (same (fingerprint e) (fingerprint f))) [
          | inl k ↦
              let both : some e ≡ none =
                sym l.0
                ∙ ap (λ x. entry x p.existing) (same-eq (fingerprint e) (fingerprint f) k)
                ∙ q in
              cc both
          | inr k ↦ k
        ]

        by_legacy :
            (o : Option (Fingerprint × Finding Float))
            → first_entry (legacy (fingerprint f)) p.existing ≡ o
            → same (fingerprint e) (fingerprint f) ≡ false
            → WorkOf e (claim_legacy now emit f p o).0 ⊎ Live e (claim_legacy now emit f p o).1
        by_legacy none q s = inr (l.0, ground (arith, l.1))
        by_legacy (some (fp, old)) q s = elim (Bool-cases (same (fingerprint e) fp)) [
          | inl k ↦
              let at : entry fp p.existing ≡ some old =
                first_entry_lem (legacy (fingerprint f)) p.existing fp old q in
              inl (taken fp old k at)
          | inr k ↦ inr (entry-delete (fingerprint e) fp p.existing k ∙ l.0, ground (arith, l.1))
        ]

        go :
            (o : Option (Finding Float))
            → entry (fingerprint f) p.existing ≡ o
            → WorkOf e (claim now emit f p o).0 ⊎ Live e (claim now emit f p o).1
        go none q = by_legacy (first_entry (legacy (fingerprint f)) p.existing) refl (elsewhere q)
        go (some old) q = elim (Bool-cases (same (fingerprint e) (fingerprint f))) [
          | inl k ↦ inl (taken (fingerprint f) old k q)
          | inr k ↦ inr (l.0, ground (arith, l.1))
        ]

    assign-Live :
        (fs : List (Finding Float)) (p : Progress Float)
        → Live e p
        → Some (WorkOf e) (assign now emit fs p).0 ⊎ Live e (assign now emit fs p).1
    unfolding assign
    assign-Live [] p l = inr l
    assign-Live (f ∷ fs) p l = elim (assign_one-Live f p l) [
      | inl w ↦ inl (inl w)
      | inr l' ↦ elim (assign-Live fs (assign_one now emit f p).1 l') [
        | inl w ↦ inl (inr w)
        | inr m ↦ inr m
      ]
    ]

  preserved-WorkOf :
      (purge : Bool) (e : Finding Float) (fps : List Fingerprint) (es : List (Finding Float))
      → entry (fingerprint e) es ≡ some e
      → any (same (fingerprint e)) fps ≡ false
      → (purge && is_rollup_type e.type) ≡ false
      → Some (WorkOf e) (preserved purge fps es)
  unfolding entry preserved
  preserved-WorkOf purge e fps [] h n r = cc
  preserved-WorkOf purge e fps (x ∷ es) h n r =
      elim (Bool-cases (same (fingerprint x) (fingerprint e))) [
        | inl k ↦
            let both : some x ≡ some e =
              sym (ap (λ b. if b then some x else entry (fingerprint e) es) k) ∙ h in
            let one : e ≡ x = cc both in head x one
        | inr k ↦
            let tail : entry (fingerprint e) es ≡ some e =
              sym (ap (λ b. if b then some x else entry (fingerprint e) es) k) ∙ h in
            behind x (preserved-WorkOf purge e fps es tail n r)
      ]
    where
      head :
          (y : Finding Float)
          → e ≡ y
          → Some (WorkOf e) (
              if any (same (fingerprint y)) fps || purge && is_rollup_type y.type
              then preserved purge fps es
              else record y { is_new = false } ∷ preserved purge fps es)
      head y q =
          subst
            (λ z. Some (WorkOf e) (
              if any (same (fingerprint z)) fps || purge && is_rollup_type z.type
              then preserved purge fps es
              else record z { is_new = false } ∷ preserved purge fps es))
            q
            (rw (n, r)
              (inl record {
                id_eq = refl;
                status_eq = refl;
                analyst_eq = refl;
                note_eq = refl;
                status_ts_eq = refl;
                notes_eq = refl;
              }))

      behind :
          (y : Finding Float)
          → Some (WorkOf e) (preserved purge fps es)
          → Some (WorkOf e) (
              if any (same (fingerprint y)) fps || purge && is_rollup_type y.type
              then preserved purge fps es
              else record y { is_new = false } ∷ preserved purge fps es)
      behind y s =
          elim (Bool-cases (any (same (fingerprint y)) fps || purge && is_rollup_type y.type)) [
            | inl c ↦ rw c s
            | inr c ↦ rw c (inr s)
          ]

  translated-WorkOf :
      (e : Finding Float) (historical : ℕ → Bool) (persisted : List (ℕ × ℕ))
      (fs : List (Finding Float))
      → Some (WorkOf e) fs
      → Some (WorkOf e) (translated historical persisted fs)
  unfolding translated
  translated-WorkOf e historical persisted fs s =
      Some-map (WorkOf e) _ fs
        (λ u w. record {
          id_eq = w.id_eq;
          status_eq = w.status_eq;
          analyst_eq = w.analyst_eq;
          note_eq = w.note_eq;
          status_ts_eq = w.status_ts_eq;
          notes_eq = w.notes_eq;
        })
        s

  -- For a merge at any time, with or without the purge and the bell, of any batch into any set: a
  -- finding of the set that is the last of its fingerprint, and no roll-up if roll-ups are purged,
  -- has a finding in the result with its id, status, analyst, analyst's note, time of the status and
  -- notes.
  pub merge-WorkOf :
      (now : ℕ) (purge emit : Bool) (old batch : List (Finding Float)) (e : Finding Float)
      → entry (fingerprint e) (index_findings old) ≡ some e
      → (purge && is_rollup_type e.type) ≡ false
      → Some (WorkOf e) (merge now purge emit old batch)
  unfolding merge
  merge-WorkOf now purge emit old batch e h r =
      let run = assign now emit (dedupe batch) (start old) in
      let persisted = extend_persisted (dropped_from batch 0 batch) run.1.persisted in
      let new = translated (λ i. has_id i old) persisted run.0 in
      let rest = preserved purge run.1.new_fps run.1.existing in
      elim (assign-Live now emit e (dedupe batch) (start old) (h, refl)) [
        | inl w ↦ Some-left (WorkOf e) new rest (translated-WorkOf e _ persisted run.0 w)
        | inr l ↦
            Some-right (WorkOf e) new rest
              (preserved-WorkOf purge e run.1.new_fps run.1.existing l.0 l.1 r)
      ]
