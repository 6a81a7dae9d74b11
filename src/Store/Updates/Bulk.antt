-- ===== src/Store/Updates/Bulk.antt =====
-- UpdateFinding and BulkUpdateStatus of internal/store/store.go, and what they do to each finding.
use archer.Prelude.{
  ℕ, ◌≡◌, inl, inr, refl, sym, ◌∙◌, ap, subst, Bool, true, false, not, ◌&&◌, ◌||◌, Option, none,
  some, List, [], ◌∷◌, ◌++◌, map, ◌==◌, if◌then◌else◌, any, text_eq, length, arith, Bool-cases, All,
  All-map, ==_iff,
}
use archer.Finding.{Finding}
use archer.Store.Merge.{lookup_id}
use archer.Store.Merge.Entries.{DistinctIds}
use archer.Store.Updates.{
  Memory, Change, rebuild_findings_idx, at, set_at, changed, update_at, update_finding,
  has_other_status, wanted, and_place, places, set_all, bulk_update_status,
}
use archer.Store.Updates.Index.{
  Without, find, map_id, map_id-Without, lookup_id-Without, lookup_id-rebuild_findings_idx,
  set_at-length, Located, All-Located, rebuild_findings_idx-map, DistinctIds-map,
}

abbrev is_some : Option ℕ → Bool
is_some none = false
is_some (some i) = true

module _ {Float : Type 0} where
  abbrev set_found :
      Option ℕ → (Finding Float → Finding Float) → List (Finding Float) → List (Finding Float)
  set_found none g fs = fs
  set_found (some i) g fs = set_at i g fs

  -- Where the map is the one made from the findings, a change at the place of an id is a change of
  -- the finding that has it.
  set_found-map_id :
      (id : ℕ) (g : Finding Float → Finding Float) (fs : List (Finding Float))
      → DistinctIds fs
      → set_found (lookup_id id (rebuild_findings_idx fs)) g fs ≡ map_id id g fs
  unfolding rebuild_findings_idx lookup_id
  set_found-map_id id g fs d = elim (find id fs d) [
    | inl w ↦
        ap (λ o. set_found o g fs) (lookup_id-Without id 0 fs [] w) ∙ sym (map_id-Without id g fs w)
    | inr k ↦
        let here : lookup_id id (rebuild_findings_idx (k.before ++ (k.here ∷ k.after)))
            ≡ some (length k.before) =
          subst
            (λ i.
              Without i k.after
              → lookup_id i (rebuild_findings_idx (k.before ++ (k.here ∷ k.after)))
                ≡ some (length k.before))
            k.id_eq (λ w. lookup_id-rebuild_findings_idx k.before k.here k.after w) k.after_ok in
        let set =
          ap (λ o. set_found o g (k.before ++ (k.here ∷ k.after))) here
          ∙ set_at-length g k.before k.here k.after in
        subst (λ fs. set_found (lookup_id id (rebuild_findings_idx fs)) g fs ≡ map_id id g fs)
          (sym k.fs_eq)
          (set ∙ sym (map_id-Found id g k.before k.here k.after k.id_eq k.before_ok k.after_ok))
  ]
    where
      map_id-Found :
          (id : ℕ) (g : Finding Float → Finding Float) (us : List (Finding Float))
          (f : Finding Float) (vs : List (Finding Float))
          → f.id ≡ id
          → Without id us
          → Without id vs
          → map_id id g (us ++ (f ∷ vs)) ≡ us ++ (g f ∷ vs)
      map_id-Found id g [] f vs e w v =
          let self : (f.id == id) ≡ true = (==_iff f.id id).1 e in
          rw self (ap (λ fs. g f ∷ fs) (map_id-Without id g vs v))
      map_id-Found id g (u ∷ us) f vs e (h, w) v =
          rw h (ap (λ fs. u ∷ fs) (map_id-Found id g us f vs e w v))

  map_ext :
      (g h : Finding Float → Finding Float) (fs : List (Finding Float))
      → All (λ f. g f ≡ h f) fs
      → map g fs ≡ map h fs
  map_ext g h [] e = refl
  map_ext g h (f ∷ fs) (e, es) = ap (λ x. x ∷ map g fs) e ∙ ap (λ xs. h f ∷ xs) (map_ext g h fs es)

  map_pointwise :
      {g h : Finding Float → Finding Float}
      → ((f : Finding Float) → g f ≡ h f)
      → (fs : List (Finding Float)) → map g fs ≡ map h fs
  map_pointwise e [] = refl
  map_pointwise {g} {h} e (f ∷ fs) =
      ap (λ x. x ∷ map g fs) (e f) ∙ ap (λ xs. h f ∷ xs) (map_pointwise e fs)

  map_twice :
      (g h : Finding Float → Finding Float) (fs : List (Finding Float))
      → map g (map h fs) ≡ map (λ f. g (h f)) fs
  map_twice g h [] = refl
  map_twice g h (f ∷ fs) = ap (λ xs. g (h f) ∷ xs) (map_twice g h fs)

  module _ (c : Change) (fs : List (Finding Float)) where
    abbrev memory : Memory Float
    memory = record { findings = fs; idx = rebuild_findings_idx fs }

    abbrev wants : ℕ → Option ℕ
    wants id = wanted c.status fs (lookup_id id (rebuild_findings_idx fs))

    -- the finding is one of the ids that remain, none that was seen, and its status changes
    abbrev due : List ℕ → List ℕ → ℕ → Bool
    due ids seen id =
        any (λ k. k == id) ids && (not (any (λ k. k == id) seen) && is_some (wants id))

    abbrev change_if : (ℕ → Bool) → Finding Float → Finding Float
    change_if p f = if p f.id then changed c f else f

    -- one more id in the loop, for a finding
    change_if-step :
        (id i : ℕ) (ids seen : List ℕ) (f : Finding Float)
        → any (λ k. k == id) seen ≡ false
        → wants id ≡ some i
        → change_if (due ids (id ∷ seen)) (if f.id == id then changed c f else f)
          ≡ change_if (due (id ∷ ids) seen) f
    unfolding changed
    change_if-step id i ids seen f n w = elim (Bool-cases (f.id == id)) [
      | inl p ↦
          let e : id ≡ f.id = sym ((==_iff f.id id).0 p) in
          let back : (id == f.id) ≡ true = ground arith in
          let after : due ids (id ∷ seen) f.id ≡ false = rw back (ground arith) in
          let before : due (id ∷ ids) seen f.id ≡ true =
            subst (λ j. due (id ∷ ids) seen j ≡ true) e (ground (arith, n, ap is_some w)) in
          ap (λ b. change_if (due ids (id ∷ seen)) (if b then changed c f else f)) p
          ∙ ap (λ b. if b then changed c (changed c f) else changed c f) after
          ∙ ap (λ b. if b then changed c f else f) (sym before)
      | inr p ↦
          let back : (id == f.id) ≡ false = ground arith in
          let same_due : due ids (id ∷ seen) f.id ≡ due (id ∷ ids) seen f.id = rw back refl in
          ap (λ b. change_if (due ids (id ∷ seen)) (if b then changed c f else f)) p
          ∙ ap (λ b. if b then changed c f else f) same_due
    ]

    -- an id that the loop skips
    due-skip :
        (id : ℕ) (ids seen : List ℕ) (j : ℕ)
        → (any (λ k. k == id) seen || not (is_some (wants id))) ≡ true
        → due (id ∷ ids) seen j ≡ due ids seen j
    due-skip id ids seen j h = elim (Bool-cases (id == j)) [
      | inl p ↦
          let e : id ≡ j = (==_iff id j).0 p in
          subst (λ j. due (id ∷ ids) seen j ≡ due ids seen j) e (ground (arith, h))
      | inr p ↦ rw p refl
    ]

    wanted-place : (o : Option ℕ) (i : ℕ) → wanted c.status fs o ≡ some i → o ≡ some i
    wanted-place none i h = h
    wanted-place (some j) i h = elim (Bool-cases (has_other_status c.status (at j fs))) [
      | inl p ↦ sym (ap (λ b. if b then some j else none) p) ∙ h
      | inr p ↦ absurd (none≢some (sym (ap (λ b. if b then some j else none) p) ∙ h))
    ]
      where
        none≢some : ¬ (none ≡ some i)
        none≢some q = cc

    change-id : (b : Bool) (f : Finding Float) → (if b then changed c f else f).id ≡ f.id
    unfolding changed
    change-id true f = refl
    change-id false f = refl

    set_all-places :
        (ids seen : List ℕ) (now : List (Finding Float))
        → rebuild_findings_idx now ≡ rebuild_findings_idx fs
        → DistinctIds now
        → set_all (places c.status memory ids seen) (changed c) now
          ≡ map (change_if (due ids seen)) now
    unfolding set_all places
    set_all-places [] seen now e d = sym (nothing now)
      where
        nothing : (us : List (Finding Float)) → map (change_if (due [] seen)) us ≡ us
        nothing [] = refl
        nothing (u ∷ us) = ap (λ us. u ∷ us) (nothing us)
    set_all-places (id ∷ ids) seen now e d = elim (Bool-cases (any (λ k. k == id) seen)) [
      | inl p ↦ rw p (set_all-places ids seen now e d ∙ skip (ground (arith, p)))
      | inr p ↦ rw p (by_place (wants id) refl p (set_all-places ids))
    ]
      where
        skip :
            (any (λ k. k == id) seen || not (is_some (wants id))) ≡ true
            → map (change_if (due ids seen)) now ≡ map (change_if (due (id ∷ ids) seen)) now
        skip h =
            map_pointwise
              (λ f. ap (λ b. if b then changed c f else f) (sym (due-skip id ids seen f.id h))) now

        by_place :
            (o : Option ℕ)
            → wants id ≡ o
            → any (λ k. k == id) seen ≡ false
            → ((seen : List ℕ) (now : List (Finding Float))
                → rebuild_findings_idx now ≡ rebuild_findings_idx fs
                → DistinctIds now
                → set_all (places c.status memory ids seen) (changed c) now
                  ≡ map (change_if (due ids seen)) now)
            → set_all (and_place id (wants id) (places c.status memory ids) seen) (changed c) now
              ≡ map (change_if (due (id ∷ ids) seen)) now
        by_place none w n ih =
            ap (λ o. set_all (and_place id o (places c.status memory ids) seen) (changed c) now) w
            ∙ ih seen now e d
            ∙ skip (ground (arith, n, ap is_some w))
        by_place (some i) w n ih =
            let place =
              ap (lookup_id id) e ∙ wanted-place (lookup_id id (rebuild_findings_idx fs)) i w in
            let set : set_at i (changed c) now ≡ map_id id (changed c) now =
              ap (λ o. set_found o (changed c) now) (sym place)
              ∙ set_found-map_id id (changed c) now d in
            let keeps = λ (f : Finding Float). change-id (f.id == id) f in
            let h = λ (f : Finding Float). if f.id == id then changed c f else f in
            ap (λ o. set_all (and_place id o (places c.status memory ids) seen) (changed c) now) w
            ∙ ap (λ us. set_all (places c.status memory ids (id ∷ seen)) (changed c) us) set
            ∙ ih (id ∷ seen) (map_id id (changed c) now) (rebuild_findings_idx-map h keeps now ∙ e)
                (DistinctIds-map h keeps now d)
            ∙ map_twice (change_if (due ids (id ∷ seen))) h now
            ∙ map_pointwise (λ f. change_if-step id i ids seen f n w) now

    wants-Located :
        (f : Finding Float) → Located fs f → is_some (wants f.id) ≡ not (text_eq f.status c.status)
    wants-Located f (i, place, here) =
        ap (λ o. is_some (wanted c.status fs o)) place
        ∙ ap (λ o. is_some (if has_other_status c.status o then some i else none)) here
        ∙ chosen (not (text_eq f.status c.status))
      where
        chosen : (b : Bool) → is_some (if b then some i else none) ≡ b
        chosen true = refl
        chosen false = refl

    -- For a set with distinct ids and the map made from it: a bulk update whose transaction is
    -- committed changes just the findings whose id is in the request, however often, and that do not
    -- have the status yet; one that fails changes none.
    pub bulk_update_status-map :
        (committed : Bool) (ids : List ℕ)
        → DistinctIds fs
        → (bulk_update_status committed ids c
            (record { findings = fs; idx = rebuild_findings_idx fs })).0.findings
          ≡ map
              (λ (f : Finding Float).
                if committed && (any (λ k. k == f.id) ids && not (text_eq f.status c.status))
                then changed c f
                else f)
              fs
    unfolding bulk_update_status
    bulk_update_status-map false ids d = sym (unchanged fs)
      where
        unchanged : (us : List (Finding Float)) → map (λ (f : Finding Float). f) us ≡ us
        unchanged [] = refl
        unchanged (u ∷ us) = ap (λ us. u ∷ us) (unchanged us)
    bulk_update_status-map true ids d =
        set_all-places ids [] fs refl d
        ∙ map_ext _ _ fs (
            All-map _ _ fs
              (λ f h.
                ap (λ b. if any (λ k. k == f.id) ids && b then changed c f else f)
                  (wants-Located f h))
              (All-Located [] fs d))

    -- For a set with distinct ids and the map made from it, an update of one finding that the database
    -- makes is a change of the finding with that id alone, and of none if there is none.
    pub update_finding-map_id :
        (id : ℕ)
        → DistinctIds fs
        → (update_finding true id c
            (record { findings = fs; idx = rebuild_findings_idx fs })).0.findings
          ≡ map (λ (f : Finding Float). if f.id == id then changed c f else f) fs
    unfolding update_finding
    update_finding-map_id id d =
        updated (lookup_id id (rebuild_findings_idx fs)) ∙ set_found-map_id id (changed c) fs d
      where
        updated :
            (o : Option ℕ) → (update_at true c o memory).0.findings ≡ set_found o (changed c) fs
        updated none = refl
        updated (some i) = refl
