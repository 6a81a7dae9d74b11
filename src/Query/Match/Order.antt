-- ===== src/Query/Match/Order.antt =====
-- The comparisons of a number and of a time with a literal form one order.
use archer.Prelude.{◌≡◌, Bool, false, not, ◌&&◌, ◌||◌, some, arith, if◌then◌else◌}
use archer.Net.{Floats, Times}
use archer.Query.Term.{Term, Op, plain, ge, le, gt, lt, eq, range}
use archer.Query.Match.{
  compare_num, numeric_match, parse_num, compare_time, ts_match_time, parse_time_flexible,
}

module _ (floats : Floats) where
  open floats use {Float}

  -- `>=` is `>` or `=`, `<=` is `<` or `=`, and no number satisfies two of `<`, `=` and `>`; it
  -- satisfies none of the three if it or the literal is not comparable (a NaN). A plain number is `=`.
  pub compare_num_order :
      (v n : Float)
      → (compare_num floats le v n ≡ (compare_num floats lt v n || compare_num floats eq v n))
        × (compare_num floats ge v n ≡ (compare_num floats gt v n || compare_num floats eq v n))
        × ((compare_num floats lt v n && compare_num floats gt v n) ≡ false)
        × ((compare_num floats lt v n && compare_num floats eq v n) ≡ false)
        × ((compare_num floats gt v n && compare_num floats eq v n) ≡ false)
        × (compare_num floats plain v n ≡ compare_num floats eq v n)
  unfolding compare_num
  compare_num_order v n = ground (
    arith,
    floats.le_lem v n,
    floats.le_lem n v,
    floats.lt_asym v n,
    floats.lt_irrefl v n,
    floats.lt_irrefl n v,
    floats.eq_sym v n,
    floats.eq_sym n v,
  )

module _ (times : Times) where
  open times use {Time, Location}

  -- For every literal, date or instant: of `<`, `=` and `>` a time satisfies exactly one; `<=` is
  -- `<` or `=`; `>=` is `>` or `=`. A plain value is `=`.
  pub compare_time_order :
      (ft v : Time) (date_only : Bool)
      → (compare_time times le ft v date_only
          ≡ (compare_time times lt ft v date_only || compare_time times eq ft v date_only))
        × (compare_time times ge ft v date_only
            ≡ (compare_time times gt ft v date_only || compare_time times eq ft v date_only))
        × (compare_time times gt ft v date_only ≡ not (compare_time times le ft v date_only))
        × (compare_time times lt ft v date_only ≡ not (compare_time times ge ft v date_only))
        × ((compare_time times lt ft v date_only && compare_time times gt ft v date_only) ≡ false)
        × (compare_time times plain ft v date_only ≡ compare_time times eq ft v date_only)
  unfolding compare_time
  compare_time_order ft v date_only = ground (
    arith,
    times.before_next_day v,
    times.before_trans ft v (times.next_day v),
    times.before_asym ft v,
    times.same_iff ft v,
  )

  -- a leaf with its operator replaced
  abbrev pub at_time : Time → Term → Location → Op → Bool
  at_time ft t loc op = ts_match_time times ft (record t { op = op }) loc

  -- For every leaf whose value is a date or an instant: of `<`, `=` and `>` a time satisfies exactly
  -- one; `<=` is `<` or `=`; `>=` is `>` or `=`; a plain value is `=`.
  pub ts_match_time_order :
      (ft : Time) (t : Term) (loc : Location) (v : Time) (date_only : Bool)
      → parse_time_flexible times t.value loc ≡ some (v, date_only)
      → (at_time ft t loc le ≡ (at_time ft t loc lt || at_time ft t loc eq))
        × (at_time ft t loc ge ≡ (at_time ft t loc gt || at_time ft t loc eq))
        × (at_time ft t loc gt ≡ not (at_time ft t loc le))
        × (at_time ft t loc lt ≡ not (at_time ft t loc ge))
        × ((at_time ft t loc lt && at_time ft t loc gt) ≡ false)
        × (at_time ft t loc plain ≡ at_time ft t loc eq)
  unfolding ts_match_time
  ts_match_time_order ft t loc v date_only e = rw e (compare_time_order ft v date_only)

  -- For a range whose bounds are dates or instants: a time is in it exactly if both bounds hold
  -- as comparisons, `>=` for the lower one, and for the upper one `<=` if it is a date and `<`
  -- if it is an instant.
  pub ts_match_time-range :
      (ft : Time) (t : Term) (loc : Location) (from hi : Time) (from_date hi_date : Bool)
      → t.op ≡ range
      → parse_time_flexible times t.lo loc ≡ some (from, from_date)
      → parse_time_flexible times t.hi loc ≡ some (hi, hi_date)
      → ts_match_time times ft t loc ≡ (
          at_time ft (record t { value = t.lo }) loc ge
          && at_time ft (record t { value = t.hi }) loc (if hi_date then le else lt))
  unfolding ts_match_time compare_time
  ts_match_time-range ft t loc from hi from_date hi_date o p q = rw (o, p, q) (ground (arith, p, q))

-- A number outside every comparison: the operand is no number.
module _ (floats : Floats) where
  open floats use {Float}

  abbrev pub at_number : Float → Term → Op → Bool
  at_number v t op = numeric_match floats v (record t { op = op })

  -- For every leaf whose value is a number: `>=` is `>` or `=`, `<=` is `<` or `=`, and no two of
  -- `<`, `=` and `>` hold together; a plain value is `=`.
  pub numeric_match_order :
      (v : Float) (t : Term) (n : Float)
      → parse_num floats t.value ≡ some n
      → (at_number v t le ≡ (at_number v t lt || at_number v t eq))
        × (at_number v t ge ≡ (at_number v t gt || at_number v t eq))
        × ((at_number v t lt && at_number v t gt) ≡ false)
        × ((at_number v t lt && at_number v t eq) ≡ false)
        × ((at_number v t gt && at_number v t eq) ≡ false)
        × (at_number v t plain ≡ at_number v t eq)
  unfolding numeric_match
  numeric_match_order v t n e = rw e (compare_num_order floats v n)

  -- For every range: it holds exactly if `>=` its lower and `<=` its upper bound hold, also
  -- where a bound is no number.
  pub numeric_match-range :
      (v : Float) (t : Term)
      → t.op ≡ range
      → numeric_match floats v t
        ≡ (at_number v (record t { value = t.lo }) ge && at_number v (record t { value = t.hi }) le)
  unfolding numeric_match compare_num
  numeric_match-range v t o = rw o (ground arith)
