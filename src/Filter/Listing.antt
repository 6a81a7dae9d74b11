-- ===== src/Filter/Listing.antt =====
-- The listing of internal/server/findings_filter.go, and what the bell of the store rings for.
use archer.Prelude.{
  ◌≡◌, inl, inr, refl, sym, ◌∙◌, ap, Bool, true, false, Option, none, some, List, [], ◌∷◌, ◌++◌,
  Text, codes, text_eq, trim_space, to_lower, ltb, arith, Bool-cases, All, Some, ℤ, pos,
}
use archer.Net.{Net, Floats, Times}
use archer.Finding.{Finding}
use archer.Finding.Identity.{is_threat_intel_type}
use archer.Store.Bell.{is_hidden, hides, rings}
use archer.Store.Snapshot.{snapshot_suppresses-is_suppressed, snapshot_allows_pair-is_pair_allowed}
use archer.Query.Eval.{match_query}
use archer.Query.Parse.{Node, parse}
use archer.Query.Token.{ok, Returns, bind-Returns, ◌>>=◌}
use archer.Query.Parse.Sound.{Understood, parse-Returns}
use archer.Filter.{
  Request, read_request, read_query, parse_ip_matcher, parse_port_set, parse_score_range,
  parse_float_bound, parse_finding_time,
}
use archer.Filter.Apply.{
  Listing, Flag, and_row, queried, if_matching, with_benign, stamped_with, flag_of, row, rows,
  passes_checks, type_passes, severity_passes, sub_scores_pass, fingerprints_pass, is_excluded,
  place_passes, time_passes, search_passes, status_passes, flags_pass, stamp, filter_findings,
}
use archer.Filter.Apply.Flag.{clear, flagged}

-- the request with no parameters
abbrev pub no_parameters : Text → Text
no_parameters k = []

read_query-Returns : (s : Text) → Returns (λ n. Unit) (read_query s)
unfolding read_query
read_query-Returns s = elim (Bool-cases (text_eq (trim_space s) [])) [
  | inl p ↦ rw p tt
  | inr p ↦ rw p (
      bind-Returns (Understood (trim_space s)) _ (parse (trim_space s)) _
        (parse-Returns (trim_space s)) (λ n u. tt))
]

module _ (net : Net) (floats : Floats) (times : Times) where
  open floats use {Float}

  stamped_with-excluded :
      (b : Bool) (w : Flag) (l : Listing net floats times) (f : Finding Float)
      → is_excluded net floats times l (stamped_with net floats times b w f)
        ≡ is_excluded net floats times l f
  unfolding is_excluded
  stamped_with-excluded true clear l f = refl
  stamped_with-excluded true (flagged []) l f = refl
  stamped_with-excluded true (flagged (c ∷ s)) l f = refl
  stamped_with-excluded false clear l f = refl
  stamped_with-excluded false (flagged s) l f = refl

  stamped_with-id :
      (b : Bool) (w : Flag) (f : Finding Float) → (stamped_with net floats times b w f).id ≡ f.id
  stamped_with-id true clear f = refl
  stamped_with-id true (flagged []) f = refl
  stamped_with-id true (flagged (c ∷ s)) f = refl
  stamped_with-id false clear f = refl
  stamped_with-id false (flagged s) f = refl

  is_excluded-hides :
      (l : Listing net floats times) (f : Finding Float)
      → is_excluded net floats times l f
        ≡ hides net Float l.now l.store f.src_ip f.dst_ip f.dst_port f.type f.sensor
  unfolding is_excluded hides is_hidden
  is_excluded-hides l f =
      rw
        (
          snapshot_suppresses-is_suppressed net l.now l.store f.src_ip,
          snapshot_suppresses-is_suppressed net l.now l.store f.dst_ip,
          snapshot_allows_pair-is_pair_allowed net l.now l.store f.src_ip f.dst_ip f.dst_port f.type
              f.sensor,
        )
        (ground arith)

  abbrev Visible : Listing net floats times → Finding Float → Type 0
  Visible l f = hides net Float l.now l.store f.src_ip f.dst_ip f.dst_port f.type f.sensor ≡ false

  queried-Visible :
      (root : Option Node) (l : Listing net floats times) (g : Finding Float)
      (rest : List (Finding Float))
      → Visible l g
      → All (Visible l) rest
      → All (Visible l) (and_row net floats times (queried net floats times root l g) rest)
  queried-Visible none l g rest v a = (v, a)
  queried-Visible (some root) l g rest v a =
      matched (match_query net floats times root (with_benign net floats times l g) (some l.op_loc))
    where
      matched :
          (b : Bool)
          → All (Visible l) (
              and_row net floats times
                (if_matching net floats times b (with_benign net floats times l g))
                rest)
      matched true = (v, a)
      matched false = a

  rows-Visible :
      (q : Request floats times) (l : Listing net floats times) (fs : List (Finding Float))
      → All (Visible l) (rows net floats times q l fs)
  unfolding rows row passes_checks stamp
  rows-Visible q l [] = tt
  rows-Visible q l (f ∷ fs) = elim (Bool-cases (passes_checks net floats times q l f)) [
    | inl p ↦
        let shown : is_excluded net floats times l f ≡ false = ground (arith, p) in
        let w = flag_of net floats times l.ioc_sources f in
        let b = is_threat_intel_type f.type in
        let v =
          sym (is_excluded-hides l (stamped_with net floats times b w f))
          ∙ stamped_with-excluded b w l f
          ∙ shown in
        rw p (
          queried-Visible q.lucene l (stamped_with net floats times b w f)
            (rows net floats times q l fs) v (rows-Visible q l fs))
    | inr p ↦ rw p (rows-Visible q l fs)
  ]

  read_request-Returns :
      (atoi : Text → ℤ × Bool) (get : Text → Text) (loc : times.Location)
      → Returns (λ q. Unit) (read_request net floats times atoi get loc)
  unfolding read_request
  read_request-Returns atoi get loc =
      bind-Returns (λ n. Unit) _ (read_query (get (codes "q"))) _
        (read_query-Returns (get (codes "q"))) (λ n u. tt)

  -- For any parameters of a request, whatever filterFindings lists is hidden by no allowlist entry,
  -- no suppression and no pair rule at the instant of the request.
  pub filter_findings-Visible :
      (atoi : Text → ℤ × Bool) (get : Text → Text) (l : Listing net floats times)
      (fs : List (Finding Float))
      → Returns
          (All (λ (f : Finding Float).
            hides net Float l.now l.store f.src_ip f.dst_ip f.dst_port f.type f.sensor ≡ false))
          (filter_findings net floats times atoi get l fs)
  unfolding filter_findings
  filter_findings-Visible atoi get l fs =
      bind-Returns (λ q. Unit) _ (read_request net floats times atoi get l.op_loc) _
        (read_request-Returns atoi get l.op_loc) (λ q u. rows-Visible q l fs)

  -- what is read from it
  abbrev pub plain_request : Request floats times
  plain_request = record {
    lucene = none;
    search = [];
    search_is_ip = false;
    type_f = [];
    sev_f = [];
    min_score = pos 0;
    delta = false;
    sensor_f = [];
    status_f = [];
    ioc_only = false;
    spectral_only = false;
    include_dismissed = false;
    src_matcher = none;
    dst_matcher = none;
    port_set = none;
    ss_ts = none;
    ss_ds = none;
    ss_hist = none;
    ss_dur = none;
    ja3_f = [];
    ja4_f = [];
    from = none;
    to = none;
  }

  plain_row :
      (l : Listing net floats times) (f : Finding Float)
      → is_excluded net floats times l f ≡ false
      → text_eq f.status (codes "dismissed") ≡ false
      → row net floats times plain_request l f ≡ some (stamp net floats times l f)
  unfolding row passes_checks type_passes severity_passes sub_scores_pass fingerprints_pass
      place_passes time_passes search_passes status_passes flags_pass
  plain_row l f e d = let low : ltb f.score 0 ≡ false = ground arith in rw (e, d, low) refl

  read_request_plain :
      (atoi : Text → ℤ × Bool) (loc : times.Location)
      → (atoi []).0 ≡ pos 0
      → read_request net floats times atoi no_parameters loc ≡ ok plain_request
  unfolding read_request read_query parse_ip_matcher parse_port_set parse_score_range
      parse_float_bound parse_finding_time trim_space to_lower
  read_request_plain atoi loc h = ap (λ m. ok (record plain_request { min_score = m })) h

  rows-plain :
      (l : Listing net floats times) (f : Finding Float) (us vs : List (Finding Float))
      → is_excluded net floats times l f ≡ false
      → text_eq f.status (codes "dismissed") ≡ false
      → Some (λ r. r.id ≡ f.id) (rows net floats times plain_request l (us ++ (f ∷ vs)))
  unfolding rows stamp
  rows-plain l f [] vs e d = rw (plain_row l f e d) (
      inl (
        stamped_with-id (is_threat_intel_type f.type) (flag_of net floats times l.ioc_sources f) f))
  rows-plain l f (u ∷ us) vs e d =
      later (row net floats times plain_request l u) (rows-plain l f us vs e d)
    where
      later :
          (o : Option (Finding Float))
          → Some (λ r. r.id ≡ f.id) (rows net floats times plain_request l (us ++ (f ∷ vs)))
          → Some
              (λ r. r.id ≡ f.id)
              (and_row net floats times o (rows net floats times plain_request l (us ++ (f ∷ vs))))
      later none h = h
      later (some r) h = inr h

  -- If a finding rings the bell in a run at some instant, no analyst has dismissed it, and Atoi gives
  -- 0 for the empty text, then a request with no parameters at that instant returns a listing that
  -- has a row with the id of the finding.
  pub filter_findings-rings :
      (atoi : Text → ℤ × Bool) (l : Listing net floats times) (f : Finding Float)
      (us vs : List (Finding Float))
      → (atoi []).0 ≡ pos 0
      → rings net Float l.now l.store f ≡ true
      → text_eq f.status (codes "dismissed") ≡ false
      → (shown : List (Finding Float)) × (filter_findings net floats times atoi no_parameters l
            (us ++ (f ∷ vs))
          ≡ ok shown)
        × Some (λ r. r.id ≡ f.id) shown
  unfolding filter_findings rings
  filter_findings-rings atoi l f us vs z r d =
      let e : is_excluded net floats times l f ≡ false =
        is_excluded-hides l f ∙ ground (arith, r) in
      (
        rows net floats times plain_request l (us ++ (f ∷ vs)),
        ap (λ q. q >>= λ q. ok (rows net floats times q l (us ++ (f ∷ vs))))
            (read_request_plain atoi l.op_loc z),
        rows-plain l f us vs e d,
      )
