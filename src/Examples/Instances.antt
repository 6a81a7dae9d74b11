-- ===== src/Examples/Instances.antt =====
-- Small instances of the packages that the model has as parameters.
use archer.Prelude.{
  ◌∷◌, [], ◌&&◌, ℕ, true, ◌+◌, ◌/◌, ◌^◌, Bool, false, none, some, Text, codes, ltb, leb, ◌==◌,
  if◌then◌else◌, text_eq, text_eq_refl, has_prefix, arith, ◌≡◌, subst,
}
use archer.Net.{Net, Floats, Times, Platform}
use archer.Cef.{number}

-- An address is any text that begins with a digit; a block is a prefix of addresses.
abbrev pub starts_with_digit : Text → Bool
starts_with_digit [] = false
starts_with_digit (c ∷ s) = leb b'0' c && leb c b'9'

abbrev pub small_net : Net
small_net = record {
  Ip = Text;
  Block = Text;
  parse_ip = λ s. if starts_with_digit s then some s else none;
  parse_cidr = λ s. if text_eq s (codes "10.0.0.0/24") then some (codes "10.0.0.") else none;
  covers = λ b ip. has_prefix ip b;
  show_ip = λ ip. ip;
  is_private = λ ip. has_prefix ip (codes "10.");
  is_loopback = λ ip. has_prefix ip (codes "127.");
  is_link_local_unicast = λ ip. has_prefix ip (codes "169.254.");
  to4 = λ ip. some ip;
  mask64 = λ ip. ip;
}

-- Numbers without a fraction.
abbrev pub small_floats : Floats
small_floats = record {
  Float = ℕ;
  parse_float = λ s. number 0 s;
  of_int = λ n. n;
  quotient = λ a b. a / b;
  infinity = 2 ^ 60;
  lt = ltb;
  eq = λ a b. a == b;
  le = leb;
  le_lem = λ a b. ground arith;
  lt_asym = λ a b h. ground arith;
  lt_irrefl = λ a b h. ground arith;
  eq_sym = λ a b h. ground arith;
}

-- Times are epoch seconds; two texts are read, an instant and a date.
abbrev pub small_times : Times
small_times = record {
  Time = ℕ;
  Location = Unit;
  utc = tt;
  before = ltb;
  same_instant = λ t u. t == u;
  parse_datetime = λ s l. if text_eq s (codes "1970-01-02 12:00:00") then some 129600 else none;
  parse_rfc3339 = λ s l. none;
  parse_date = λ s l. if text_eq s (codes "1970-01-02") then some 86400 else none;
  parse_local = λ s l. none;
  parse_minute = λ s l. if text_eq s (codes "1970-01-02T12:00") then some 129600 else none;
  next_day = λ t. t + 86400;
  of_unix = λ n. n;
  before_asym = λ t u h. ground arith;
  same_iff = λ t u. ground arith;
  before_next_day = λ t. ground arith;
  before_trans = λ t u v h k. ground arith;
}

pub same_text :
    (salt : ℕ) (password hash : Text) → some password ≡ some hash → text_eq hash password ≡ true
same_text salt password hash e =
    subst (λ (t : Text). text_eq t password ≡ true) {x = password} {y = hash} (cc)
      (text_eq_refl password)

-- A hash is the password.
abbrev pub small_platform : Platform
small_platform = record {
  generate = λ salt password. some password;
  agrees = text_eq;
  agrees-generate = same_text;
  nfc = λ s. s;
  url_host = λ s. some s;
  show_time = λ n. codes "1970-01-01 00:00:00 UTC";
}
