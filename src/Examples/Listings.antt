-- ===== src/Examples/Listings.antt =====
-- The listing at a concrete set.
use archer.Prelude.{
  ℕ, ◌+◌, ◌≡◌, refl, Bool, true, false, text_eq, lookup_text, if◌then◌else◌, none, some, List, [],
  ◌∷◌, ◌++◌, Text, codes, length, All, Some, ℤ, pos,
}
use archer.Examples.Instances.{small_net, small_floats, small_times}
use archer.Examples.Bells.{loud, fresh_store}
use archer.Finding.{Finding}
use archer.Matcher.{matches}
use archer.Query.Token.{Returns, ok}
use archer.Query.Term.{Term, Op}
use archer.Query.Parse.{leaf, not_node}
use archer.Store.Bell.{hides, rings, is_hidden, is_suppressed}
use archer.Store.Pairs.{is_pair_allowed, rules_at, rebuild_pair_allow_idx, index_rules}
use archer.Cef.{number}
use archer.Filter.Apply.{Listing, rows, filter_findings}
use archer.Filter.Listing.{
  filter_findings-Visible, filter_findings-rings, plain_request, no_parameters,
}
use archer.Filter.Partition.{rows-not_node, asking}

abbrev atoi : Text → ℤ × Bool
atoi s = elim (number 0 s) [ none ↦ (pos 0, false) | some n ↦ (pos n, true) ]

abbrev page : Listing small_net small_floats small_times
page = record {
  store = record fresh_store {
    suppressions = (codes "9.9.9.9", record { expiry = 50; detail = [] }) ∷ [];
  };
  now = 10;
  benign_keys = [];
  ioc_sources = [];
  delta_since = 0;
  op_loc = tt;
}

abbrev fresh_loud : Finding ℕ
fresh_loud = record loud { is_new = true }

abbrev muted : Finding ℕ
muted = record loud { id = 2; src_ip = codes "9.9.9.9" }

-- a request for the scores above 90
abbrev asked : Text → Text
asked k = if text_eq k (codes "q") then codes "score:>90" else []

filter_findings-Visible_example :
    Returns
      (All (λ (f : Finding ℕ).
        hides small_net ℕ page.now page.store f.src_ip f.dst_ip f.dst_port f.type f.sensor ≡ false))
      (filter_findings small_net small_floats small_times atoi asked page (fresh_loud ∷ muted ∷ []))
filter_findings-Visible_example =
    filter_findings-Visible small_net small_floats small_times atoi asked page
      (fresh_loud ∷ muted ∷ [])

filter_findings-rings_example :
    (shown : List (Finding ℕ)) × (filter_findings small_net small_floats small_times atoi
        no_parameters page
        ((muted ∷ []) ++ (fresh_loud ∷ []))
      ≡ ok shown)
    × Some (λ r. r.id ≡ fresh_loud.id) shown
unfolding rings hides is_hidden is_suppressed is_pair_allowed number matches lookup_text rules_at
    rebuild_pair_allow_idx index_rules
filter_findings-rings_example =
    filter_findings-rings small_net small_floats small_times atoi page fresh_loud (muted ∷ []) []
      refl refl refl

abbrev loud_scores : Term
loud_scores = record {
  field = codes "score";
  op = Op.gt;
  value = codes "90";
  lo = [];
  hi = [];
  phrase = false;
}

rows-not_node_example :
    length (
        rows small_net small_floats small_times
          (asking small_net small_floats small_times
            (plain_request small_net small_floats small_times)
            (some (leaf loud_scores)))
          page
          (fresh_loud ∷ muted ∷ []))
      + length (
          rows small_net small_floats small_times
            (asking small_net small_floats small_times
              (plain_request small_net small_floats small_times)
              (some (not_node (leaf loud_scores))))
            page
            (fresh_loud ∷ muted ∷ []))
    ≡ length (
        rows small_net small_floats small_times
          (asking small_net small_floats small_times
            (plain_request small_net small_floats small_times)
            none)
          page
          (fresh_loud ∷ muted ∷ []))
rows-not_node_example =
    rows-not_node small_net small_floats small_times
      (plain_request small_net small_floats small_times) (leaf loud_scores) page
      (fresh_loud ∷ muted ∷ [])
