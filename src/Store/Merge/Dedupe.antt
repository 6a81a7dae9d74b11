-- ===== src/Store/Merge/Dedupe.antt =====
-- The batch of setFindingsImpl of internal/store/store.go after its repetitions are dropped.
use archer.Prelude.{
  ℕ, suc, ◌<◌, ◌≡◌, inl, inr, refl, sym, ◌∙◌, ap, true, false, Option, none, some, List, [], ◌∷◌,
  any, arith, Bool-cases, All,
}
use archer.Finding.{Finding}
use archer.Finding.Identity.{Fingerprint, same, same-eq, fingerprint}
use archer.Store.Merge.{best_by_fp, is_place, keeps, dedupe_from, dedupe}

module _ {Float : Type 0} where
  -- No fingerprint of the list is among those before it.
  abbrev pub FreshFps : List Fingerprint → List (Finding Float) → Type 0
  FreshFps before [] = Unit
  FreshFps before (f ∷ fs) =
      (any (same (fingerprint f)) before ≡ false) × FreshFps (fingerprint f ∷ before) fs

  module _ (batch : List (Finding Float)) where
    -- The winner of a fingerprint stands before place i.
    record Placed (i : ℕ) (fp : Fingerprint) : Type 0 where
      place : ℕ
      winner : Finding Float
      best_eq : best_by_fp 0 none fp batch ≡ some (place, winner)
      place_lt : place < i

    keeps-Placed :
        (i : ℕ) (f : Finding Float) → keeps batch i f ≡ true → Placed (suc i) (fingerprint f)
    unfolding keeps
    keeps-Placed i f h = go (best_by_fp 0 none (fingerprint f) batch) refl h
      where
        go :
            (o : Option (ℕ × Finding Float))
            → best_by_fp 0 none (fingerprint f) batch ≡ o
            → is_place i o ≡ true
            → Placed (suc i) (fingerprint f)
        go none q k = cc
        go (some (j, g)) q k = record {
          place = j;
          winner = g;
          best_eq = q;
          place_lt = ground (arith, k);
        }

    not_before :
        (i : ℕ) (f : Finding Float) (fps : List Fingerprint)
        → keeps batch i f ≡ true
        → All (Placed i) fps
        → any (same (fingerprint f)) fps ≡ false
    unfolding keeps
    not_before i f [] h a = refl
    not_before i f (fp ∷ fps) h a = elim (Bool-cases (same (fingerprint f) fp)) [
      | inl k ↦
          let best = λ (q : Fingerprint). best_by_fp 0 none q batch in
          let here : is_place i (some (a.0.place, a.0.winner)) ≡ true =
            ap (λ o. is_place i o) (sym (ap best (same-eq (fingerprint f) fp k) ∙ a.0.best_eq))
            ∙ h in
          absurd (ground (arith, here, a.0.place_lt))
      | inr k ↦ rw k (not_before i f fps h a.1)
    ]

    Placed-suc : (i : ℕ) (fps : List Fingerprint) → All (Placed i) fps → All (Placed (suc i)) fps
    Placed-suc i [] a = tt
    Placed-suc i (fp ∷ fps) a = (
      record {
        place = a.0.place;
        winner = a.0.winner;
        best_eq = a.0.best_eq;
        place_lt = omega (arith, a.0.place_lt);
      },
      Placed-suc i fps a.1,
    )

    dedupe_from-FreshFps :
        (i : ℕ) (fps : List Fingerprint) (fs : List (Finding Float))
        → All (Placed i) fps
        → FreshFps fps (dedupe_from batch i fs)
    unfolding dedupe_from
    dedupe_from-FreshFps i fps [] a = tt
    dedupe_from-FreshFps i fps (f ∷ fs) a = elim (Bool-cases (keeps batch i f)) [
      | inl k ↦ rw k (
        not_before i f fps k a,
        dedupe_from-FreshFps (suc i) (fingerprint f ∷ fps) fs
            (keeps-Placed i f k, Placed-suc i fps a),
      )
      | inr k ↦ rw k (dedupe_from-FreshFps (suc i) fps fs (Placed-suc i fps a))
    ]

  pub dedupe-FreshFps : (batch : List (Finding Float)) → FreshFps [] (dedupe batch)
  unfolding dedupe
  dedupe-FreshFps batch = dedupe_from-FreshFps batch 0 [] batch tt
