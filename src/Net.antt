-- ===== src/Net.antt =====
-- What the program uses of the packages net, net/url, strconv, time, unicode/norm and bcrypt, which
-- are not part of the repository: parameters of the model, with the documented behaviour that a proof
-- relies on as laws.
use archer.Prelude.{ℕ, ◌≡◌, Bool, true, false, ◌||◌, not, Option, some, Text}

-- package net
pub record Net : Type 1 where
  pub Ip : Type 0
  pub Block : Type 0
  -- net.ParseIP, `none` for nil
  pub parse_ip : Text → Option Ip
  -- net.ParseCIDR, `none` for an error
  pub parse_cidr : Text → Option Block
  -- (*IPNet).Contains
  pub covers : Block → Ip → Bool
  -- IP.String
  pub show_ip : Ip → Text
  pub is_private : Ip → Bool
  pub is_loopback : Ip → Bool
  pub is_link_local_unicast : Ip → Bool
  -- IP.To4, `none` for nil
  pub to4 : Ip → Option Ip
  -- IP.Mask(net.CIDRMask(64, 128))
  pub mask64 : Ip → Ip

-- float64, as far as it is read from text, made from an integer and compared
pub record Floats : Type 1 where
  pub Float : Type 0
  -- strconv.ParseFloat
  pub parse_float : Text → Option Float
  pub of_int : ℕ → Float
  pub quotient : Float → Float → Float
  -- math.Inf(1)
  pub infinity : Float
  pub lt : Float → Float → Bool
  pub eq : Float → Float → Bool
  -- `a <= b` is `a < b || a == b` for every pair, a NaN among them or not
  pub le : Float → Float → Bool
  pub le_lem : (a b : Float) → le a b ≡ (lt a b || eq a b)
  pub lt_asym : (a b : Float) → lt a b ≡ true → lt b a ≡ false
  pub lt_irrefl : (a b : Float) → eq a b ≡ true → lt a b ≡ false
  pub eq_sym : (a b : Float) → eq a b ≡ true → eq b a ≡ true

-- package time
pub record Times : Type 1 where
  pub Time : Type 0
  pub Location : Type 0
  pub utc : Location
  -- t.Before(u)
  pub before : Time → Time → Bool
  -- t.Equal(u)
  pub same_instant : Time → Time → Bool
  -- time.ParseInLocation with the layout "2006-01-02 15:04:05", with RFC3339 and with "2006-01-02"
  pub parse_datetime : Text → Location → Option Time
  pub parse_rfc3339 : Text → Location → Option Time
  pub parse_date : Text → Location → Option Time
  -- time.ParseInLocation with the layouts "2006-01-02T15:04:05" and "2006-01-02T15:04"
  pub parse_local : Text → Location → Option Time
  pub parse_minute : Text → Location → Option Time
  -- t.AddDate(0, 0, 1)
  pub next_day : Time → Time
  -- time.Unix(s, 0).UTC()
  pub of_unix : ℕ → Time
  pub before_asym : (t u : Time) → before t u ≡ true → before u t ≡ false
  pub same_iff : (t u : Time) → same_instant t u ≡ (not (before t u || before u t))
  pub before_next_day : (t : Time) → before t (next_day t) ≡ true
  pub before_trans : (t u v : Time) → before t u ≡ true → before u v ≡ true → before t v ≡ true

-- What the accounts use.
pub record Platform : Type 0 where
  -- bcrypt.GenerateFromPassword, with the salt that it draws; `none` for an error
  pub generate : ℕ → Text → Option Text
  -- bcrypt.CompareHashAndPassword of a hash and a password returns nil
  pub agrees : Text → Text → Bool
  pub agrees-generate :
      (salt : ℕ) (password hash : Text)
      → generate salt password ≡ some hash
      → agrees hash password ≡ true
  -- norm.NFC.String
  pub nfc : Text → Text
  -- the Host of url.Parse, `none` for an error
  pub url_host : Text → Option Text
  -- Format of an instant with the layout "2006-01-02 15:04:05 UTC"
  pub show_time : ℕ → Text
