-- ===== src/Store/Retention.antt =====
-- PruneFindingsBefore and CountFindingsBefore of internal/store/store.go.
use archer.Prelude.{
  ℕ, suc, ◌+◌, Bool, true, false, not, Option, none, some, List, [], ◌∷◌, Text, ltb, if◌then◌else◌,
  length, refl, ◌≡◌, sym, ap, arith, Bool-cases, Option-cases, text_eq, inl, inr,
}
use archer.Net.{Net, Times}
use archer.Finding.{Finding}
use archer.Store.Bell.{Store, dismiss_orphaned}
use archer.Store.Bell.Orphans.{Anchored, dismiss_orphaned-Anchored}

module _ (times : Times) where
  open times use {Time, utc, before, parse_datetime}

  abbrev is_late : Time → Option Time → Bool
  is_late cutoff none = false
  is_late cutoff (some t) = not (before t cutoff)

  -- What a finding's timestamp says: it is kept if it is read and is not before the cutoff.
  abbrev pub is_kept : Time → Text → Bool
  is_kept cutoff [] = false
  is_kept cutoff (c ∷ s) = is_late cutoff (parse_datetime (c ∷ s) utc)

  -- the conditions of the preview
  abbrev is_early : Time → Option Time → Bool
  is_early cutoff none = true
  is_early cutoff (some t) = before t cutoff

  abbrev pub is_counted : Time → Text → Bool
  is_counted cutoff [] = true
  is_counted cutoff (c ∷ s) = is_early cutoff (parse_datetime (c ∷ s) utc)

  -- A timestamp that is not empty and reads as a time that is not before the cutoff.
  abbrev pub Recent : Time → Text → Type 0
  Recent cutoff s =
      (text_eq s [] ≡ false)
      × (t : Time) × (parse_datetime s utc ≡ some t)
      × (before t cutoff ≡ false)

  is_kept-Recent : (cutoff : Time) (s : Text) → is_kept cutoff s ≡ true → Recent cutoff s
  is_kept-Recent cutoff [] h = cc
  is_kept-Recent cutoff (c ∷ s) h = elim (Option-cases (parse_datetime (c ∷ s) utc)) [
    | inl e ↦ absurd (ground (arith, ap (is_late cutoff) e, h))
    | inr (t, e) ↦ (refl, t, e, ground (arith, ap (is_late cutoff) e, h))
  ]

  is_kept-not_Recent : (cutoff : Time) (s : Text) → is_kept cutoff s ≡ false → ¬ Recent cutoff s
  is_kept-not_Recent cutoff [] h (n, t, e, b) = cc
  is_kept-not_Recent cutoff (c ∷ s) h (n, t, e, b) = ground (arith, ap (is_late cutoff) e, h, b)

  is_counted-not : (cutoff : Time) (s : Text) → is_counted cutoff s ≡ not (is_kept cutoff s)
  is_counted-not cutoff [] = refl
  is_counted-not cutoff (c ∷ s) = elim (Option-cases (parse_datetime (c ∷ s) utc)) [
    | inl e ↦ rw e refl
    | inr (t, e) ↦ rw e (ground arith)
  ]

  -- The second list is the first without the findings whose timestamp is not recent; the others stay
  -- as they are, in their order.
  pub data Retains {Float : Type 0} (cutoff : Time)
      : List (Finding Float) → List (Finding Float) → Type 0 where
    done : Retains cutoff [] []
    keep :
        {f : Finding Float} {fs ks : List (Finding Float)}
        → Recent cutoff f.timestamp
        → Retains cutoff fs ks
        → Retains cutoff (f ∷ fs) (f ∷ ks)
    leave :
        {f : Finding Float} {fs ks : List (Finding Float)}
        → ¬ Recent cutoff f.timestamp
        → Retains cutoff fs ks
        → Retains cutoff (f ∷ fs) ks

  module _ {Float : Type 0} where
    unfoldable pub count_before : Time → List (Finding Float) → ℕ
    count_before cutoff [] = 0
    count_before cutoff (f ∷ fs) =
        let rest = count_before cutoff fs in
        if is_counted cutoff f.timestamp then suc rest else rest

    -- the findings that the loop keeps, and how many it drops
    unfoldable pub prune_loop : Time → List (Finding Float) → List (Finding Float) × ℕ
    prune_loop cutoff [] = ([], 0)
    prune_loop cutoff (f ∷ fs) =
        let rest = prune_loop cutoff fs in
        if is_kept cutoff f.timestamp then (f ∷ rest.0, rest.1) else (rest.0, suc rest.1)

    module _ (net : Net) where
      unfoldable pub count_findings_before : Time → Store net Float → ℕ
      count_findings_before cutoff s = count_before cutoff s.findings

      unfoldable pub prune_findings_before : Time → Store net Float → ℕ × Store net Float
      prune_findings_before cutoff s =
          let r = prune_loop cutoff s.findings in
          (r.1, if ltb 0 r.1 then dismiss_orphaned net Float (record s { findings = r.0 }) else s)

      prune_loop-Retains :
          (cutoff : Time) (fs : List (Finding Float)) → Retains cutoff fs (prune_loop cutoff fs).0
      unfolding prune_loop
      prune_loop-Retains cutoff [] = Retains.done
      prune_loop-Retains cutoff (f ∷ fs) = elim (Bool-cases (is_kept cutoff f.timestamp)) [
        | inl p ↦
            rw p (Retains.keep (is_kept-Recent cutoff f.timestamp p) (prune_loop-Retains cutoff fs))
        | inr p ↦
            rw p (
              Retains.leave (is_kept-not_Recent cutoff f.timestamp p)
                (prune_loop-Retains cutoff fs))
      ]

      prune_loop-count_before :
          (cutoff : Time) (fs : List (Finding Float))
          → (prune_loop cutoff fs).1 ≡ count_before cutoff fs
      unfolding prune_loop count_before
      prune_loop-count_before cutoff [] = refl
      prune_loop-count_before cutoff (f ∷ fs) =
          let rest = prune_loop-count_before cutoff fs in
          elim (Bool-cases (is_kept cutoff f.timestamp)) [
            | inl p ↦ rw (is_counted-not cutoff f.timestamp, p) rest
            | inr p ↦ rw (is_counted-not cutoff f.timestamp, p) (ap suc rest)
          ]

      count_before-kept :
          (cutoff : Time) (fs : List (Finding Float))
          → count_before cutoff (prune_loop cutoff fs).0 ≡ 0
      unfolding prune_loop count_before
      count_before-kept cutoff [] = refl
      count_before-kept cutoff (f ∷ fs) = elim (Bool-cases (is_kept cutoff f.timestamp)) [
        | inl p ↦ rw (p, is_counted-not cutoff f.timestamp, p) (count_before-kept cutoff fs)
        | inr p ↦ rw p (count_before-kept cutoff fs)
      ]

      length-prune_loop :
          (cutoff : Time) (fs : List (Finding Float))
          → count_before cutoff fs + length (prune_loop cutoff fs).0 ≡ length fs
      unfolding prune_loop count_before
      length-prune_loop cutoff [] = refl
      length-prune_loop cutoff (f ∷ fs) =
          let rest = length-prune_loop cutoff fs in
          elim (Bool-cases (is_kept cutoff f.timestamp)) [
            | inl p ↦ rw (is_counted-not cutoff f.timestamp, p) (omega (arith, rest))
            | inr p ↦ rw (is_counted-not cutoff f.timestamp, p) (omega (arith, rest))
          ]

      prune_findings_before-dropped :
          (cutoff : Time) (s : Store net Float)
          → (prune_findings_before cutoff s).0 ≡ count_findings_before cutoff s
      unfolding prune_findings_before count_findings_before
      prune_findings_before-dropped cutoff s = prune_loop-count_before cutoff s.findings

      none_dropped :
          (cutoff : Time) (fs : List (Finding Float))
          → (prune_loop cutoff fs).1 ≡ 0
          → (prune_loop cutoff fs).0 ≡ fs
      unfolding prune_loop
      none_dropped cutoff [] h = refl
      none_dropped cutoff (f ∷ fs) h = elim (Bool-cases (is_kept cutoff f.timestamp)) [
        | inl p ↦ rw p (ap (λ ks. f ∷ ks) (none_dropped cutoff fs (ground (arith, p, h))))
        | inr p ↦ absurd (ground (arith, p, h))
      ]

      prune_findings_before-findings :
          (cutoff : Time) (s : Store net Float)
          → (prune_findings_before cutoff s).1.findings ≡ (prune_loop cutoff s.findings).0
      unfolding prune_findings_before dismiss_orphaned
      prune_findings_before-findings cutoff s =
          elim (Bool-cases (ltb 0 (prune_loop cutoff s.findings).1)) [
            | inl p ↦ rw p refl
            | inr p ↦ rw p (sym (none_dropped cutoff s.findings (ground arith)))
          ]

      -- After a prune the set holds, unchanged and in their order, exactly those findings whose
      -- timestamp is not empty and reads as a time that is not before the cutoff. The prune returns
      -- the number of the others, which is what the preview for the cutoff counts, and a second
      -- preview counts nothing.
      pub prune_findings_before-Retains :
          (cutoff : Time) (s : Store net Float)
          → Retains cutoff s.findings (prune_findings_before cutoff s).1.findings
            × ((prune_findings_before cutoff s).0 ≡ count_findings_before cutoff s)
            × (count_findings_before cutoff s + length (prune_findings_before cutoff s).1.findings
                ≡ length s.findings)
            × (count_findings_before cutoff (prune_findings_before cutoff s).1 ≡ 0)
      unfolding count_findings_before
      prune_findings_before-Retains cutoff s =
          let e = prune_findings_before-findings cutoff s in
          rw e (
            prune_loop-Retains cutoff s.findings,
            prune_findings_before-dropped cutoff s,
            length-prune_loop cutoff s.findings,
            count_before-kept cutoff s.findings,
          )

      -- If each notification in the bell that is about a finding has its finding in the set, then so it
      -- is when findings have been pruned.
      pub prune_findings_before-Anchored :
          (cutoff : Time) (s : Store net Float)
          → Anchored net Float s
          → Anchored net Float (prune_findings_before cutoff s).1
      unfolding prune_findings_before
      prune_findings_before-Anchored cutoff s h =
          elim (Bool-cases (ltb 0 (prune_loop cutoff s.findings).1)) [
            | inl p ↦ rw p (dismiss_orphaned-Anchored net Float _)
            | inr p ↦ rw p h
          ]
