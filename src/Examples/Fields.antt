-- ===== src/Examples/Fields.antt =====
-- The typed predicates at concrete values.
use archer.Prelude.{◌≡◌, refl, none, some, Bool, true, false, [], Text, codes, trim_space}
use archer.Cef.{number}
use archer.Examples.Instances.{small_net, small_floats, small_times}
use archer.Query.Term.{Term, Op, ge, range}
use archer.Query.Match.{is_internal_ip, parse_num, parse_time_flexible}
use archer.Query.Match.Direction.{address_is}
use archer.Query.Match.Order.{at_number, at_time}

abbrev score_leaf : Term
score_leaf = record {
  field = codes "score";
  op = ge;
  value = codes "80";
  lo = [];
  hi = [];
  phrase = false;
}

abbrev range_leaf : Term
range_leaf = record {
  field = codes "ts";
  op = range;
  value = [];
  lo = codes "1970-01-02";
  hi = codes "1970-01-02 12:00:00";
  phrase = false;
}

abbrev ts_leaf : Term
ts_leaf = record {
  field = codes "ts";
  op = ge;
  value = codes "1970-01-02";
  lo = [];
  hi = [];
  phrase = false;
}

src_placed : is_internal_ip small_net (codes "10.0.0.5") ≡ some true
unfolding is_internal_ip
src_placed = refl

dst_placed : is_internal_ip small_net (codes "192.0.2.1") ≡ some false
unfolding is_internal_ip
dst_placed = refl

host_unplaced : is_internal_ip small_net (codes "host") ≡ none
unfolding is_internal_ip
host_unplaced = refl

eighty : parse_num small_floats (codes "80") ≡ some 80
unfolding parse_num number trim_space
eighty = refl

the_date : parse_time_flexible small_times (codes "1970-01-02") tt ≡ some (86400, true)
unfolding parse_time_flexible trim_space
the_date = refl

noon : parse_time_flexible small_times (codes "1970-01-02 12:00:00") tt ≡ some (129600, false)
unfolding parse_time_flexible trim_space
noon = refl

abbrev src : Text → Bool
src v = address_is small_net (codes "10.0.0.5") v

abbrev dst : Text → Bool
dst v = address_is small_net (codes "192.0.2.1") v

abbrev score_is : Op → Bool
score_is op = at_number small_floats 85 score_leaf op

abbrev scores : Term
scores = record {
  field = codes "score";
  op = range;
  value = [];
  lo = codes "80";
  hi = codes "90";
  phrase = false;
}

abbrev time_is : Op → Bool
time_is op = at_time small_times 90000 ts_leaf tt op
