-- ===== src/Query/Eval/Scope.antt =====
-- The predicates that only a beacon can satisfy.
use archer.Prelude.{◌≡◌, refl, true, false, Text, codes}
use archer.Net.{Net, Floats, Times}
use archer.Finding.{Finding}
use archer.Query.Term.{Term}
use archer.Query.Term.Vocabulary.{is_beacon_type}
use archer.Query.Parse.{not_node, leaf}
use archer.Query.Eval.{eval_term, eval_text, eval_network, eval_number, eval}

-- the sub-scores and the timing metrics
pub data BeaconField : Text → Type 0 where
  tscore : BeaconField (codes "tscore")
  dscore : BeaconField (codes "dscore")
  hist : BeaconField (codes "hist")
  dur : BeaconField (codes "dur")
  conns : BeaconField (codes "conns")
  meanint : BeaconField (codes "meanint")
  medint : BeaconField (codes "medint")
  jitter : BeaconField (codes "jitter")

module _ (net : Net) (floats : Floats) (times : Times) where
  open floats use {Float}
  open times use {Location}

  eval_term-beacon :
      (f : Finding Float) (t : Term) (loc : Location) (field : Text)
      → is_beacon_type f.type ≡ false
      → BeaconField field
      → eval_term net floats times f (record t { field = field }) loc ≡ false
  unfolding eval_term eval_text eval_network eval_number
  eval_term-beacon f t loc field h tscore = rw h refl
  eval_term-beacon f t loc field h dscore = rw h refl
  eval_term-beacon f t loc field h hist = rw h refl
  eval_term-beacon f t loc field h dur = rw h refl
  eval_term-beacon f t loc field h conns = rw h refl
  eval_term-beacon f t loc field h meanint = rw h refl
  eval_term-beacon f t loc field h medint = rw h refl
  eval_term-beacon f t loc field h jitter = rw h refl

  -- For a finding whose type is not in the beacon family and a sub-score or timing field, whatever
  -- the comparison or range: the leaf does not match the finding, and its negation does.
  pub eval-BeaconField :
      (f : Finding Float) (t : Term) (loc : Location) (field : Text)
      → is_beacon_type f.type ≡ false
      → BeaconField field
      → (eval net floats times f loc (leaf (record t { field = field })) ≡ false)
        × (eval net floats times f loc (not_node (leaf (record t { field = field }))) ≡ true)
  unfolding eval
  eval-BeaconField f t loc field h b = let e = eval_term-beacon f t loc field h b in (e, rw e refl)
