-- ===== src/Finding.antt =====
-- model.Finding of internal/model/finding.go: the fields that the modelled code reads.
pub mod Identity
use archer.Prelude.{ℤ, ℕ, Bool, false, List, [], Text}

-- model.Note, as far as it is read
pub record Note : Type 0 where
  pub author : Text
  pub text : Text
  pub timestamp : Text

-- Integer fields hold counts, scores, ids and epoch seconds, which the program never makes negative.
pub record Finding (Float : Type 0) : Type 0 where
  pub id : ℕ
  pub type : Text
  pub severity : Text
  pub score : ℕ
  pub src_ip : Text
  pub dst_ip : Text
  pub dst_port : Text
  pub detail : Text
  pub timestamp : Text
  pub source_file : Text
  pub status : Text
  pub analyst : Text
  pub analyst_note : Text
  pub status_ts : Text
  pub ioc_match : Bool
  pub ioc_source : Text
  pub is_new : Bool
  pub detected_at : ℕ
  pub sensor : Text
  pub notes : List Note
  -- ids of siblings; between the correlation phase and the merge, a negative one is the negation of
  -- a persisted id
  pub correlations : List ℤ
  pub hostname : Text
  pub uri : Text
  pub ts_score : Float
  pub ds_score : Float
  pub hist_score : Float
  pub dur_score : Float
  pub mean_interval : Float
  pub median_interval : Float
  pub jitter : Float
  pub sample_size : ℕ
  pub orig_bytes : ℕ
  pub resp_bytes : ℕ
  pub ja3 : Text
  pub ja4 : Text
  pub channel : Text
  pub service : Text
  pub tls_allowlisted : Bool
  pub spectral_rescued : Bool

-- the zero value of the struct
abbrev pub zero_finding : {Float : Type 0} → Float → Finding Float
zero_finding zero_float = record {
  id = 0;
  type = [];
  severity = [];
  score = 0;
  src_ip = [];
  dst_ip = [];
  dst_port = [];
  detail = [];
  timestamp = [];
  source_file = [];
  status = [];
  analyst = [];
  analyst_note = [];
  status_ts = [];
  ioc_match = false;
  ioc_source = [];
  is_new = false;
  detected_at = 0;
  sensor = [];
  notes = [];
  correlations = [];
  hostname = [];
  uri = [];
  ts_score = zero_float;
  ds_score = zero_float;
  hist_score = zero_float;
  dur_score = zero_float;
  mean_interval = zero_float;
  median_interval = zero_float;
  jitter = zero_float;
  sample_size = 0;
  orig_bytes = 0;
  resp_bytes = 0;
  ja3 = [];
  ja4 = [];
  channel = [];
  service = [];
  tls_allowlisted = false;
  spectral_rescued = false;
}
