-- ===== src/Store/Updates.antt =====
-- The updates of single findings in internal/store/store.go, through the map findingsIdx from ids to
-- places. A database that is there answers each write; the answer is an argument.
pub mod Index
pub mod Bulk
pub mod Notes
use archer.Prelude.{
  ℕ, zero, suc, ◌+◌, Bool, true, false, not, ◌&&◌, ◌||◌, Option, none, some, List, [], ◌∷◌, ◌++◌,
  Text, ◌==◌, if◌then◌else◌, text_eq, any, length,
}
use archer.Finding.{Finding, Note}
use archer.Store.Merge.{lookup_id}

-- A change of status as an analyst makes it.
pub record Change : Type 0 where
  pub status : Text
  pub analyst : Text
  pub note : Text
  pub status_ts : Text

-- what UpdateFinding returns: the finding as it was, or that there is none, or the database's error
pub data Outcome (Float : Type 0) : Type 0 where
  updated : Option (Finding Float) → Outcome Float
  missing unsaved : Outcome Float

-- findings and findingsIdx
pub record Memory (Float : Type 0) : Type 0 where
  pub findings : List (Finding Float)
  pub idx : List (ℕ × ℕ)

abbrev pub and_place : ℕ → Option ℕ → (List ℕ → List ℕ) → List ℕ → List ℕ
and_place id none rest seen = rest seen
and_place id (some i) rest seen = i ∷ rest (id ∷ seen)

module _ {Float : Type 0} where
  unfoldable pub index_from : ℕ → List (Finding Float) → List (ℕ × ℕ) → List (ℕ × ℕ)
  index_from i [] m = m
  index_from i (f ∷ fs) m = index_from (suc i) fs ((f.id, i) ∷ m)

  -- rebuildFindingsIdx
  unfoldable pub rebuild_findings_idx : List (Finding Float) → List (ℕ × ℕ)
  rebuild_findings_idx fs = index_from 0 fs []

  -- s.findings[i], and an assignment to it
  unfoldable pub at : ℕ → List (Finding Float) → Option (Finding Float)
  at i [] = none
  at zero (f ∷ fs) = some f
  at (suc i) (f ∷ fs) = at i fs

  unfoldable pub set_at :
      ℕ → (Finding Float → Finding Float) → List (Finding Float) → List (Finding Float)
  set_at i g [] = []
  set_at zero g (f ∷ fs) = g f ∷ fs
  set_at (suc i) g (f ∷ fs) = f ∷ set_at i g fs

  unfoldable pub changed : Change → Finding Float → Finding Float
  changed c f = record f {
    status = c.status;
    analyst = c.analyst;
    analyst_note = c.note;
    status_ts = c.status_ts;
  }

  abbrev pub update_at : Bool → Change → Option ℕ → Memory Float → Memory Float × Outcome Float
  update_at saved c none s = (s, missing)
  update_at true c (some i) s =
      (record s { findings = set_at i (changed c) s.findings }, updated (at i s.findings))
  update_at false c (some i) s = (s, unsaved)

  -- UpdateFinding
  unfoldable pub update_finding : Bool → ℕ → Change → Memory Float → Memory Float × Outcome Float
  update_finding saved id c s = update_at saved c (lookup_id id s.idx) s

  abbrev pub has_other_status : Text → Option (Finding Float) → Bool
  has_other_status status none = false
  has_other_status status (some f) = not (text_eq f.status status)

  -- the place of an id that BulkUpdateStatus does not skip
  abbrev pub wanted : Text → List (Finding Float) → Option ℕ → Option ℕ
  wanted status fs none = none
  wanted status fs (some i) = if has_other_status status (at i fs) then some i else none

  -- the first loop of BulkUpdateStatus: the places to change
  unfoldable pub places : Text → Memory Float → List ℕ → List ℕ → List ℕ
  places status s [] seen = []
  places status s (id ∷ ids) seen =
      and_place id
        (if any (λ k. k == id) seen then none else wanted status s.findings (lookup_id id s.idx))
        (places status s ids) seen

  -- the last loop
  unfoldable pub set_all :
      List ℕ → (Finding Float → Finding Float) → List (Finding Float) → List (Finding Float)
  set_all [] g fs = fs
  set_all (i ∷ is) g fs = set_all is g (set_at i g fs)

  -- BulkUpdateStatus, with whether the transaction is committed: the memory, and the count
  unfoldable pub bulk_update_status : Bool → List ℕ → Change → Memory Float → Memory Float × ℕ
  bulk_update_status committed ids c s =
      let is = places c.status s ids [] in
      if committed
      then (record s { findings = set_all is (changed c) s.findings }, length is)
      else (s, 0)

  unfoldable pub with_note : Note → Finding Float → Finding Float
  with_note n f = record f { notes = f.notes ++ (n ∷ []) }

  abbrev pub note_at : Bool → Note → Option ℕ → Memory Float → Memory Float
  note_at saved n none s = s
  note_at true n (some i) s = record s { findings = set_at i (with_note n) s.findings }
  note_at false n (some i) s = s

  -- AddNote, whose result says only whether the finding is there and the write was made
  unfoldable pub add_note : Bool → ℕ → Note → Memory Float → Memory Float
  add_note saved id n s = note_at saved n (lookup_id id s.idx) s

  unfoldable pub has_note : Note → Option (Finding Float) → Bool
  has_note n none = false
  has_note n (some f) =
      any (λ (m : Note). text_eq m.author n.author && text_eq m.text n.text) f.notes

  abbrev pub absent_at : Bool → Note → Option ℕ → Memory Float → Memory Float
  absent_at saved n none s = s
  absent_at saved n (some i) s =
      if has_note n (at i s.findings) then s else note_at saved n (some i) s

  -- AddNoteIfAbsent
  unfoldable pub add_note_if_absent : Bool → ℕ → Note → Memory Float → Memory Float
  add_note_if_absent saved id n s = absent_at saved n (lookup_id id s.idx) s
