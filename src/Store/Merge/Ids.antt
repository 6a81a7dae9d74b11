-- ===== src/Store/Merge/Ids.antt =====
-- The ids that setFindingsImpl of internal/store/store.go gives.
use archer.Prelude.{
  ℕ, suc, ◌≤◌, ◌≡◌, inl, inr, refl, sym, ◌∙◌, ap, subst, Bool, true, false, not, ◌&&◌, ◌||◌, Option,
  none, some, List, [], ◌∷◌, ◌++◌, map, ◌==◌, any, arith, Bool-cases, false≢true, All, All-zip,
  All-map,
}
use archer.Finding.{Finding}
use archer.Finding.Identity.{Fingerprint, same, same-eq, same_refl, fingerprint, is_rollup_type}
use archer.Store.Merge.{
  entry, delete, index_findings, max_id, carried, numbered, legacy, first_entry, Progress, claim,
  claim_legacy, assign_one, assign, start, dedupe, translated, preserved, extend_persisted,
  dropped_from, has_id, merge,
}
use archer.Store.Merge.Dedupe.{FreshFps, dedupe-FreshFps}
use archer.Store.Merge.Entries.{
  Fresh, id_of, DistinctIds, NoClash, entry-All, first_entry-All, delete-All, delete-apart,
  delete-DistinctIds, entry-only,
}

recorded-cons :
    (gp : Fingerprint) (fps before : List Fingerprint)
    → All (λ q. any (same q) fps ≡ true) before
    → All (λ q. any (same q) (gp ∷ fps) ≡ true) before
recorded-cons gp fps before a = All-map _ _ before (λ q h. ground (arith, h)) a

not_used : (n : ℕ) (used : List ℕ) → All (λ u. u ≤ n) used → any (λ u. u == suc n) used ≡ false
not_used n [] a = refl
not_used n (u ∷ used) a = ground (arith, a.0, not_used n used a.1)

recorded_any :
    (fp : Fingerprint) (before fps : List Fingerprint)
    → All (λ q. any (same q) fps ≡ true) before
    → any (same fp) fps ≡ false
    → any (same fp) before ≡ false
recorded_any fp [] fps a h = refl
recorded_any fp (q ∷ before) fps a h = elim (Bool-cases (same fp q)) [
  | inl k ↦ absurd (false≢true (sym h ∙ ap (λ z. any (same z) fps) (same-eq fp q k) ∙ a.0))
  | inr k ↦ rw k (recorded_any fp before fps a.1 h)
]

module _ {Float : Type 0} where
  -- Between two findings of the batch: what ids and fingerprints the findings before have.
  record Inv (used : List ℕ) (before : List Fingerprint) (p : Progress Float) : Type 0 where
    distinct : DistinctIds p.existing
    entries_le : All (λ e. e.id ≤ p.next_id) p.existing
    used_le : All (λ u. u ≤ p.next_id) used
    claimed :
        All
          (λ e. (any (λ u. u == e.id) used && not (any (same (fingerprint e)) before)) ≡ false)
          p.existing
    recorded : All (λ q. any (same q) p.new_fps ≡ true) before

  module _ (now : ℕ) (emit : Bool) (f : Finding Float) where
    abbrev Step : List ℕ → List Fingerprint → Finding Float × Progress Float → Type 0
    Step used before r =
        (any (λ u. u == r.0.id) used ≡ false) × Inv (r.0.id ∷ used) (fingerprint f ∷ before) r.1

    claim-Step :
        (used : List ℕ) (before : List Fingerprint) (p : Progress Float) (old : Finding Float)
        → Inv used before p
        → any (same (fingerprint f)) before ≡ false
        → entry (fingerprint f) p.existing ≡ some old
        → Step used before (claim now emit f p (some old))
    unfolding carried
    claim-Step used before p old i n h =
        let at = entry-All _ (fingerprint f) p.existing old h i.claimed in
        let le = (entry-All _ (fingerprint f) p.existing old h i.entries_le).0 in
        let eq = same-eq (fingerprint old) (fingerprint f) at.1 in
        let only = entry-only (fingerprint f) p.existing old i.distinct h in
        let free : any (same (fingerprint old)) before ≡ false =
          ap (λ q. any (same q) before) eq ∙ n in
        (
          ground (arith, at.0, free),
          record {
            distinct = i.distinct;
            entries_le = i.entries_le;
            used_le = (le, i.used_le);
            claimed = All-zip _ _ _ p.existing (λ x a b. ground (arith, a, b)) i.claimed only;
            recorded = (
              ground (arith, same_refl (fingerprint f)),
              recorded-cons (fingerprint f) p.new_fps before i.recorded,
            );
          },
        )

    legacy-Step :
        (used : List ℕ) (before : List Fingerprint) (p : Progress Float) (fp : Fingerprint)
        (old : Finding Float)
        → Inv used before p
        → any (same fp) before ≡ false
        → entry fp p.existing ≡ some old
        → Step used before (claim_legacy now emit f p (some (fp, old)))
    unfolding carried
    legacy-Step used before p fp old i n h =
        let at = entry-All _ fp p.existing old h i.claimed in
        let le = (entry-All _ fp p.existing old h i.entries_le).0 in
        let eq = same-eq (fingerprint old) fp at.1 in
        let only = entry-only fp p.existing old i.distinct h in
        let free : any (same (fingerprint old)) before ≡ false =
          ap (λ q. any (same q) before) eq ∙ n in
        let rest = delete fp p.existing in
        let lone =
          All-zip _ _ (λ x. (x.id == old.id) ≡ false) rest (λ x a b. ground (arith, a, b))
            (delete-All _ fp p.existing only) (delete-apart fp p.existing) in
        (
          ground (arith, at.0, free),
          record {
            distinct = delete-DistinctIds fp p.existing i.distinct;
            entries_le = delete-All _ fp p.existing i.entries_le;
            used_le = (le, i.used_le);
            claimed =
                All-zip _ _ _ rest (λ x a b. ground (arith, a, b))
                  (delete-All _ fp p.existing i.claimed) lone;
            recorded = (
              ground (arith, same_refl (fingerprint f)),
              recorded-cons fp (fingerprint f ∷ p.new_fps) before
                  (recorded-cons (fingerprint f) p.new_fps before i.recorded),
            );
          },
        )

    new-Step :
        (used : List ℕ) (before : List Fingerprint) (p : Progress Float)
        → Inv used before p
        → Step used before (claim_legacy now emit f p none)
    unfolding numbered
    new-Step used before p i = (
      not_used p.next_id used i.used_le,
      record {
        distinct = i.distinct;
        entries_le = All-map _ _ p.existing (λ e h. omega (arith, h)) i.entries_le;
        used_le = (omega arith, All-map _ _ used (λ u h. omega (arith, h)) i.used_le);
        claimed = All-zip _ _ _ p.existing (λ x a b. ground (arith, a, b)) i.claimed i.entries_le;
        recorded = (
          ground (arith, same_refl (fingerprint f)),
          recorded-cons (fingerprint f) p.new_fps before i.recorded,
        );
      },
    )

    assign_one-Step :
        (used : List ℕ) (before : List Fingerprint) (p : Progress Float)
        → Inv used before p
        → any (same (fingerprint f)) before ≡ false
        → All (λ fp. any (same fp) before ≡ false) (legacy (fingerprint f))
        → Step used before (assign_one now emit f p)
    unfolding assign_one
    assign_one-Step used before p i n l = direct (entry (fingerprint f) p.existing) refl
      where
        older :
            (o : Option (Fingerprint × Finding Float))
            → first_entry (legacy (fingerprint f)) p.existing ≡ o
            → Step used before (claim_legacy now emit f p o)
        older none q = new-Step used before p i
        older (some (fp, old)) q =
            let r = first_entry-All _ (legacy (fingerprint f)) p.existing fp old q l in
            legacy-Step used before p fp old i r.0 r.1

        direct :
            (o : Option (Finding Float))
            → entry (fingerprint f) p.existing ≡ o
            → Step used before (claim now emit f p o)
        direct none q = older (first_entry (legacy (fingerprint f)) p.existing) refl
        direct (some old) q = claim-Step used before p old i n q

  preserved-Fresh :
      (purge : Bool) (fps : List Fingerprint) (used : List ℕ) (es : List (Finding Float))
      → DistinctIds es
      → All (λ e. (any (λ u. u == e.id) used && not (any (same (fingerprint e)) fps)) ≡ false) es
      → Fresh used (map id_of (preserved purge fps es))
  unfolding preserved
  preserved-Fresh purge fps used [] d a = tt
  preserved-Fresh purge fps used (e ∷ es) d a =
      elim (Bool-cases (any (same (fingerprint e)) fps || purge && is_rollup_type e.type)) [
        | inl k ↦ rw k (preserved-Fresh purge fps used es d.1 a.1)
        | inr k ↦ rw k (
          ground (arith, a.0, k),
          preserved-Fresh purge fps (e.id ∷ used) es d.1
              (All-zip _ _ _ es (λ x b c. ground (arith, b, c)) a.1 d.0),
        )
      ]

  -- All of a run: the ids of what it assigns, and of what is preserved after it.
  assign-Fresh :
      (now : ℕ) (emit purge : Bool) (used : List ℕ) (before : List Fingerprint)
      (fs : List (Finding Float)) (p : Progress Float)
      → Inv used before p
      → FreshFps before fs
      → NoClash before fs
      → let r = assign now emit fs p in
        Fresh used (map id_of r.0 ++ map id_of (preserved purge r.1.new_fps r.1.existing))
  unfolding assign
  assign-Fresh now emit purge used before [] p i d n =
      preserved-Fresh purge p.new_fps used p.existing i.distinct
        (All-map _ _ p.existing weaker i.claimed)
    where
      weaker :
          (e : Finding Float)
          → (any (λ u. u == e.id) used && not (any (same (fingerprint e)) before)) ≡ false
          → (any (λ u. u == e.id) used && not (any (same (fingerprint e)) p.new_fps)) ≡ false
      weaker e h = elim (Bool-cases (any (same (fingerprint e)) p.new_fps)) [
        | inl k ↦ ground (arith, k)
        | inr k ↦ ground (arith, h, recorded_any (fingerprint e) before p.new_fps i.recorded k)
      ]
  assign-Fresh now emit purge used before (f ∷ fs) p i d n =
      let s = assign_one-Step now emit f used before p i d.0 n.0 in
      (
        s.0,
        assign-Fresh now emit purge ((assign_one now emit f p).0.id ∷ used) (fingerprint f ∷ before)
            fs (assign_one now emit f p).1 s.1 d.1 n.1,
      )

  index_findings-All :
      (P : Finding Float → Type 0) (fs : List (Finding Float))
      → All P fs
      → All P (index_findings fs)
  unfolding index_findings
  index_findings-All P [] a = tt
  index_findings-All P (f ∷ fs) a =
      elim (Bool-cases (any (λ g. same (fingerprint g) (fingerprint f)) fs)) [
        | inl k ↦ rw k (index_findings-All P fs a.1)
        | inr k ↦ rw k (a.0, index_findings-All P fs a.1)
      ]

  index_findings-DistinctIds :
      (fs : List (Finding Float)) → DistinctIds fs → DistinctIds (index_findings fs)
  unfolding index_findings
  index_findings-DistinctIds [] d = tt
  index_findings-DistinctIds (f ∷ fs) d =
      elim (Bool-cases (any (λ g. same (fingerprint g) (fingerprint f)) fs)) [
        | inl k ↦ rw k (index_findings-DistinctIds fs d.1)
        | inr k ↦ rw k (index_findings-All _ fs d.0, index_findings-DistinctIds fs d.1)
      ]

  max_id-le : (fs : List (Finding Float)) → All (λ f. f.id ≤ max_id fs) fs
  unfolding max_id
  max_id-le [] = tt
  max_id-le (f ∷ fs) = (ground arith, All-map _ _ fs (λ g h. ground (arith, h)) (max_id-le fs))

  pub map_append :
      (g : Finding Float → ℕ) (us vs : List (Finding Float))
      → map g (us ++ vs) ≡ map g us ++ map g vs
  map_append g [] vs = refl
  map_append g (u ∷ us) vs = ap (λ is. g u ∷ is) (map_append g us vs)

  pub translated_ids :
      (historical : ℕ → Bool) (persisted : List (ℕ × ℕ)) (fs : List (Finding Float))
      → map id_of (translated historical persisted fs) ≡ map id_of fs
  unfolding translated
  translated_ids historical persisted [] = refl
  translated_ids historical persisted (f ∷ fs) =
      ap (λ is. f.id ∷ is) (translated_ids historical persisted fs)

  -- For a set whose ids are distinct, and a batch of which, once its repetitions are dropped, no
  -- finding comes after one whose fingerprint is an older form of its own: the ids of the merged set
  -- are distinct.
  pub merge-Fresh :
      (now : ℕ) (purge emit : Bool) (old batch : List (Finding Float))
      → DistinctIds old
      → NoClash [] (dedupe batch)
      → Fresh [] (map id_of (merge now purge emit old batch))
  unfolding merge
  merge-Fresh now purge emit old batch d n =
      let run = assign now emit (dedupe batch) (start old) in
      let persisted = extend_persisted (dropped_from batch 0 batch) run.1.persisted in
      let historical = λ (i : ℕ). has_id i old in
      let rest = preserved purge run.1.new_fps run.1.existing in
      let inv : Inv [] [] (start old) = record {
        distinct = index_findings-DistinctIds old d;
        entries_le = index_findings-All _ old (max_id-le old);
        used_le = tt;
        claimed =
            All-map _ _ (index_findings old) (λ e h. refl)
              (index_findings-All _ old (max_id-le old));
        recorded = tt;
      } in
      let fresh =
        assign-Fresh now emit purge [] [] (dedupe batch) (start old) inv (dedupe-FreshFps batch)
          n in
      let ids =
        map_append id_of (translated historical persisted run.0) rest
        ∙ ap (λ is. is ++ map id_of rest) (translated_ids historical persisted run.0) in
      subst (λ is. Fresh [] is) (sym ids) fresh
