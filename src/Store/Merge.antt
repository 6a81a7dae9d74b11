-- ===== src/Store/Merge.antt =====
-- setFindingsImpl of internal/store/store.go: how the findings of a run are merged into the set.
-- `existing` is the list of its entries, one for each fingerprint; what is put back from it stands
-- in that order, where Go's iteration over the map has none.
pub mod Dedupe
pub mod Keep
pub mod Entries
pub mod Ids
pub mod Clash
pub mod References
use archer.Prelude.{
  ℕ, zero, suc, ◌+◌, ◌-◌, Bool, true, false, not, ◌&&◌, ◌||◌, Option, none, some, List, [], ◌∷◌,
  ◌++◌, map, Text, codes, ltb, leb, ◌==◌, if◌then◌else◌, text_eq, any, ℤ, pos, negsuc,
}
use archer.Finding.{Finding}
use archer.Finding.Identity.{Fingerprint, same, fingerprint, is_rollup_type}

-- a map with numbers as keys, the latest entry first
unfoldable pub lookup_id : ℕ → List (ℕ × ℕ) → Option ℕ
lookup_id k [] = none
lookup_id k ((i, v) ∷ m) = let rest = lookup_id k m in if i == k then some v else rest

-- The fingerprints of older versions that a fingerprint is tried under, in order.
unfoldable pub legacy : Fingerprint → List Fingerprint
legacy fp =
    if text_eq fp.type (codes "HTTP Beacon")
      && (not (text_eq fp.hostname []) || not (text_eq fp.uri []))
    then record fp { hostname = []; uri = [] }
      ∷ record fp { hostname = []; uri = []; sensor = [] }
      ∷ []
    else if not (text_eq fp.sensor [])
    then record fp { sensor = [] } ∷ []
    else []

module _ {Float : Type 0} where
  -- The winner of a fingerprint in a batch and its place: the highest score, the first of equals.
  abbrev pub beats : Finding Float → Option (ℕ × Finding Float) → Bool
  beats f none = true
  beats f (some (j, g)) = not (leb f.score g.score)

  unfoldable pub best_by_fp :
      ℕ
      → Option (ℕ × Finding Float)
      → Fingerprint
      → List (Finding Float)
      → Option (ℕ × Finding Float)
  best_by_fp i best fp [] = best
  best_by_fp i best fp (f ∷ fs) =
      best_by_fp (suc i) (if same (fingerprint f) fp && beats f best then some (i, f) else best) fp
        fs

  abbrev pub is_place : ℕ → Option (ℕ × Finding Float) → Bool
  is_place i none = false
  is_place i (some (j, g)) = j == i

  -- `keep[i]` for the finding at place i of the batch
  unfoldable pub keeps : List (Finding Float) → ℕ → Finding Float → Bool
  keeps batch i f = is_place i (best_by_fp 0 none (fingerprint f) batch)

  unfoldable pub dedupe_from :
      List (Finding Float) → ℕ → List (Finding Float) → List (Finding Float)
  dedupe_from batch i [] = []
  dedupe_from batch i (f ∷ fs) =
      let rest = dedupe_from batch (suc i) fs in if keeps batch i f then f ∷ rest else rest

  unfoldable pub dedupe : List (Finding Float) → List (Finding Float)
  dedupe batch = dedupe_from batch 0 batch

  abbrev pub dropped_entry :
      Finding Float → Option (ℕ × Finding Float) → List (ℕ × ℕ) → List (ℕ × ℕ)
  dropped_entry f none m = m
  dropped_entry f (some (j, g)) m =
      if any (λ (e : ℕ × ℕ). e.0 == f.id) m then m else (f.id, g.id) ∷ m

  -- droppedToWinner: the last finding that is dropped with an id makes its entry
  unfoldable pub dropped_from : List (Finding Float) → ℕ → List (Finding Float) → List (ℕ × ℕ)
  dropped_from batch i [] = []
  dropped_from batch i (f ∷ fs) =
      let rest = dropped_from batch (suc i) fs in
      if keeps batch i f
      then rest
      else dropped_entry f (best_by_fp 0 none (fingerprint f) batch) rest

  -- The entry of a fingerprint, and the entries without it.
  unfoldable pub entry : Fingerprint → List (Finding Float) → Option (Finding Float)
  entry fp [] = none
  entry fp (e ∷ es) = let rest = entry fp es in if same (fingerprint e) fp then some e else rest

  unfoldable pub delete : Fingerprint → List (Finding Float) → List (Finding Float)
  delete fp [] = []
  delete fp (e ∷ es) = let rest = delete fp es in if same (fingerprint e) fp then rest else e ∷ rest

  -- `existing`: the last finding of a fingerprint is its entry
  unfoldable pub index_findings : List (Finding Float) → List (Finding Float)
  index_findings [] = []
  index_findings (f ∷ fs) =
      let rest = index_findings fs in
      if any (λ g. same (fingerprint g) (fingerprint f)) fs then rest else f ∷ rest

  unfoldable pub has_id : ℕ → List (Finding Float) → Bool
  has_id i fs = any (λ f. f.id == i) fs

  unfoldable pub max_id : List (Finding Float) → ℕ
  max_id [] = 0
  max_id (f ∷ fs) = let rest = max_id fs in if ltb rest f.id then f.id else rest

  -- carryDetectedAt
  unfoldable pub carry_detected_at : ℕ → Finding Float → ℕ
  carry_detected_at now old = if ltb 0 old.detected_at then old.detected_at else now

  -- A finding that takes over the id and the analyst's work of an old one; one that is new.
  unfoldable pub carried : ℕ → Finding Float → Finding Float → Finding Float
  carried now old f = record f {
    id = old.id;
    status = old.status;
    analyst = old.analyst;
    analyst_note = old.analyst_note;
    status_ts = old.status_ts;
    notes = old.notes;
    is_new = false;
    detected_at = carry_detected_at now old;
  }

  unfoldable pub numbered : ℕ → Bool → ℕ → Finding Float → Finding Float
  numbered now emit id f = record f { id = id; is_new = emit; detected_at = now }

  -- The first of some fingerprints that has an entry, and the entry.
  unfoldable pub first_entry :
      List Fingerprint → List (Finding Float) → Option (Fingerprint × Finding Float)
  first_entry [] es = none
  first_entry (fp ∷ fps) es =
      let rest = first_entry fps es in elim (entry fp es) [ none ↦ rest | some e ↦ some (fp, e) ]

-- What the loop over the batch carries: `existing`, newFPSet, nextNewID, and freshToPersisted.
pub record Progress (Float : Type 0) : Type 0 where
  pub existing : List (Finding Float)
  pub new_fps : List Fingerprint
  pub next_id : ℕ
  pub persisted : List (ℕ × ℕ)

module _ {Float : Type 0} (now : ℕ) (emit : Bool) where
  -- one finding of the batch, and the progress after it
  abbrev pub claim_legacy :
      Finding Float
      → Progress Float
      → Option (Fingerprint × Finding Float)
      → Finding Float × Progress Float
  claim_legacy f p none = (
    numbered now emit (suc p.next_id) f,
    record p {
      new_fps = fingerprint f ∷ p.new_fps;
      next_id = suc p.next_id;
      persisted = (f.id, suc p.next_id) ∷ p.persisted;
    },
  )
  claim_legacy f p (some (fp, old)) = (
    carried now old f,
    record p {
      existing = delete fp p.existing;
      new_fps = fp ∷ fingerprint f ∷ p.new_fps;
      persisted = (f.id, old.id) ∷ p.persisted;
    },
  )

  abbrev pub claim :
      Finding Float → Progress Float → Option (Finding Float) → Finding Float × Progress Float
  claim f p none = claim_legacy f p (first_entry (legacy (fingerprint f)) p.existing)
  claim f p (some old) = (
    carried now old f,
    record p { new_fps = fingerprint f ∷ p.new_fps; persisted = (f.id, old.id) ∷ p.persisted },
  )

  unfoldable pub assign_one : Finding Float → Progress Float → Finding Float × Progress Float
  assign_one f p = claim f p (entry (fingerprint f) p.existing)

  unfoldable pub assign :
      List (Finding Float) → Progress Float → List (Finding Float) × Progress Float
  assign [] p = ([], p)
  assign (f ∷ fs) p = let r = assign_one f p in let rest = assign fs r.1 in (r.0 ∷ rest.0, rest.1)

-- The dropped findings are mapped to the persisted id of their winner.
abbrev extended : Option ℕ → ℕ → List (ℕ × ℕ) → List (ℕ × ℕ)
extended none d m = m
extended (some i) d m = (d, i) ∷ m

unfoldable pub extend_persisted : List (ℕ × ℕ) → List (ℕ × ℕ) → List (ℕ × ℕ)
extend_persisted [] m = m
extend_persisted ((d, w) ∷ ds) m = extend_persisted ds (extended (lookup_id w m) d m)

-- one reference of a correlation: its persisted id, or none if it is dropped
abbrev pub if_historical : Bool → ℕ → Option ℕ
if_historical h i = if h then some i else none

abbrev pub or_historical : Option ℕ → Bool → ℕ → Option ℕ
or_historical (some p) h i = some p
or_historical none h i = if_historical h i

unfoldable pub translate_one : (ℕ → Bool) → List (ℕ × ℕ) → ℤ → Option ℕ
translate_one historical persisted (negsuc n) = if_historical (historical (suc n)) (suc n)
translate_one historical persisted (pos i) = or_historical (lookup_id i persisted) (historical i) i

abbrev pub and_ref : Option ℕ → List ℤ → List ℤ
and_ref none rest = rest
and_ref (some i) rest = pos i ∷ rest

unfoldable pub translate : (ℕ → Bool) → List (ℕ × ℕ) → List ℤ → List ℤ
translate historical persisted [] = []
translate historical persisted (r ∷ rs) =
    and_ref (translate_one historical persisted r) (translate historical persisted rs)

module _ {Float : Type 0} where
  unfoldable pub translated :
      (ℕ → Bool) → List (ℕ × ℕ) → List (Finding Float) → List (Finding Float)
  translated historical persisted fs =
      map
        (λ (f : Finding Float). record f {
          correlations = translate historical persisted f.correlations;
        })
        fs

  -- the old findings that the run did not make again
  unfoldable pub preserved : Bool → List Fingerprint → List (Finding Float) → List (Finding Float)
  preserved purge new_fps [] = []
  preserved purge new_fps (e ∷ es) =
      let rest = preserved purge new_fps es in
      if any (same (fingerprint e)) new_fps || purge && is_rollup_type e.type
      then rest
      else record e { is_new = false } ∷ rest

  abbrev pub start : List (Finding Float) → Progress Float
  start old = record {
    existing = index_findings old;
    new_fps = [];
    next_id = max_id old;
    persisted = [];
  }

  -- the set after setFindingsImpl
  unfoldable pub merge :
      ℕ → Bool → Bool → List (Finding Float) → List (Finding Float) → List (Finding Float)
  merge now purge emit old batch =
      let r = assign now emit (dedupe batch) (start old) in
      let persisted = extend_persisted (dropped_from batch 0 batch) r.1.persisted in
      translated (λ i. has_id i old) persisted r.0 ++ preserved purge r.1.new_fps r.1.existing
