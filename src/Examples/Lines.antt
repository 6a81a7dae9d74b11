-- ===== src/Examples/Lines.antt =====
-- The CEF lines and the evaluation of a query at concrete findings.
use archer.Prelude.{refl, ℕ, ◌≡◌, true, false, some, [], ◌∷◌, codes, decimal}
use archer.Examples.Instances.{small_net}
use archer.Query.Term.{Term, Op}
use archer.Query.Term.Vocabulary.{is_beacon_type}
use archer.Finding.{Finding}
use archer.Cef.{TriageData, cef_severity, build_extensions, format_cef}
use archer.Cef.Escape.{IsLine}
use archer.Cef.Line.{build_extensions-IsLine, read_fields, read_fields-format_cef}

abbrev pub sample : Finding ℕ
sample = record {
  id = 7;
  type = codes "Beacon|x";
  severity = codes "HIGH";
  score = 85;
  src_ip = codes "10.0.0.5";
  dst_ip = codes "192.0.2.1";
  dst_port = codes "443";
  detail = codes "a=b";
  timestamp = codes "1970-01-02 12:00:00";
  source_file = [];
  status = [];
  analyst = [];
  analyst_note = [];
  status_ts = [];
  is_new = false;
  correlations = [];
  ioc_match = true;
  ioc_source = [];
  detected_at = 0;
  sensor = codes "lab";
  notes = [];
  hostname = codes "evil.com";
  uri = [];
  ts_score = 0;
  ds_score = 0;
  hist_score = 0;
  dur_score = 0;
  mean_interval = 0;
  median_interval = 0;
  jitter = 0;
  sample_size = 0;
  orig_bytes = 0;
  resp_bytes = 0;
  ja3 = [];
  ja4 = [];
  channel = [];
  service = codes "ssl";
  tls_allowlisted = false;
  spectral_rescued = false;
}

abbrev verdict : TriageData
verdict = record {
  verdict = codes "INVESTIGATE";
  confidence = codes "low";
  reason = [];
  provider = codes "local";
}

build_extensions-IsLine_example :
    IsLine (build_extensions small_net sample (some verdict) (codes "http://x"))
build_extensions-IsLine_example =
    build_extensions-IsLine small_net sample (some verdict) (codes "http://x")

read_fields-format_cef_example :
    read_fields 7 (format_cef small_net sample (some verdict) (codes "1.0") (codes "http://x"))
    ≡ some (
      codes "CEF:0"
          ∷ codes "Archer"
          ∷ codes "Archer"
          ∷ codes "1.0"
          ∷ codes "Beacon|x"
          ∷ codes "Beacon|x"
          ∷ decimal (cef_severity 85)
          ∷ [],
      build_extensions small_net sample (some verdict) (codes "http://x"),
    )
read_fields-format_cef_example =
    read_fields-format_cef small_net sample (some verdict) (codes "1.0") (codes "http://x")

abbrev mean_leaf : Term
mean_leaf = record { field = []; op = Op.lt; value = codes "10"; lo = []; hi = []; phrase = false }

sample_scope : is_beacon_type sample.type ≡ false
unfolding is_beacon_type
sample_scope = refl
