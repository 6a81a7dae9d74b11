-- ===== src/Prelude/Strings.antt =====
-- Text as the list of its bytes. The model is about ASCII text, where the bytes of a Go string are
-- its runes and the case mappings of package strings act byte by byte.
use Prim.Native.Nat.{zero, suc, ℕ, ◌+◌, ◌-◌, ◌/◌, ◌%◌}
use Prim.Native.Char.{code}
use Prim.Native.String.{String}
use mathlib.Core.Path.{◌≡◌, refl, sym, subst, ap, ap₂}
use mathlib.Core.Logic.{inl, inr}
use mathlib.Core.Bool.{Bool, true, false, ◌&&◌, ◌||◌}
use mathlib.Core.List.{List, [], ◌∷◌, ◌++◌, map}
use mathlib.Core.Option
use mathlib.Core.Option.{Option, none, some}
use native.Mathlib.Omega.{arith}
use archer.Prelude.Lists.{All, All-append, length, drop}
use archer.Prelude.Tests.{Bool-cases, ltb, leb, ◌==◌, if◌then◌else◌, ==_iff, and-eq_true}

abbrev pub Text : Type 0
Text = List ℕ

abbrev pub codes : String → Text
codes String.[] = []
codes (String.◌∷◌ c s) = code c ∷ codes s

abbrev pub text_eq : Text → Text → Bool
text_eq [] [] = true
text_eq (x ∷ xs) (y ∷ ys) = x == y && text_eq xs ys
text_eq _ _ = false

-- strings.ToLower and strings.ToUpper, one byte at a time
unfoldable pub to_lower_byte : ℕ → ℕ
to_lower_byte c = if leb b'A' c && leb c b'Z' then c + 32 else c

unfoldable pub to_upper_byte : ℕ → ℕ
to_upper_byte c = if leb b'a' c && leb c b'z' then c - 32 else c

unfoldable pub to_lower : Text → Text
unfolding to_lower_byte
to_lower s = map to_lower_byte s

unfoldable pub to_upper : Text → Text
unfolding to_upper_byte
to_upper s = map to_upper_byte s

-- strings.EqualFold
unfoldable pub equal_fold : Text → Text → Bool
unfolding to_lower
equal_fold s t = text_eq (to_lower s) (to_lower t)

-- strings.HasPrefix
abbrev pub has_prefix : Text → Text → Bool
has_prefix s [] = true
has_prefix [] (p ∷ ps) = false
has_prefix (c ∷ s) (p ∷ ps) = c == p && has_prefix s ps

-- strings.Contains
abbrev pub contains : Text → Text → Bool
contains [] p = has_prefix [] p
contains (c ∷ s) p = has_prefix (c ∷ s) p || contains s p

pub text_eq_sound : (s t : Text) → text_eq s t ≡ true → s ≡ t
text_eq_sound [] [] h = refl
text_eq_sound [] (y ∷ t) h = ground arith
text_eq_sound (x ∷ s) [] h = ground arith
text_eq_sound (x ∷ s) (y ∷ t) h =
    let (p, q) = and-eq_true (x == y) (text_eq s t) h in
    ap₂ ◌∷◌ ((==_iff x y).0 p) (text_eq_sound s t q)

pub text_eq_refl : (s : Text) → text_eq s s ≡ true
text_eq_refl [] = refl
text_eq_refl (x ∷ s) = ground (arith, text_eq_refl s)

pub text_eq_ne : (s t : Text) → text_eq s t ≡ false → ¬ (s ≡ t)
text_eq_ne s t h e = cc (text_eq_refl t, ap (λ (u : Text). text_eq u t) e)

pub text_eq_flip : (s t : Text) → text_eq s t ≡ true → text_eq t s ≡ true
text_eq_flip s t h = subst (λ u. text_eq t u ≡ true) (sym (text_eq_sound s t h)) (text_eq_refl t)

pub to_lower_byte_idem : (c : ℕ) → to_lower_byte (to_lower_byte c) ≡ to_lower_byte c
unfolding to_lower_byte
to_lower_byte_idem c = ground arith

pub to_lower_idem : (s : Text) → to_lower (to_lower s) ≡ to_lower s
unfolding to_lower
to_lower_idem [] = refl
to_lower_idem (c ∷ s) = ap₂ ◌∷◌ (to_lower_byte_idem c) (to_lower_idem s)

-- strings.HasSuffix
abbrev pub has_suffix : Text → Text → Bool
has_suffix s p = leb (length p) (length s) && text_eq (drop (length s - length p) s) p

-- the space bytes of strings.TrimSpace
abbrev pub is_white : ℕ → Bool
is_white c = c == b' ' || leb 9 c && leb c 13

unfoldable pub trim_left : Text → Text
trim_left [] = []
trim_left (c ∷ s) = if is_white c then trim_left s else c ∷ s

abbrev pub unless_blank : ℕ → Text → Text
unless_blank c [] = if is_white c then [] else c ∷ []
unless_blank c (d ∷ s) = c ∷ d ∷ s

unfoldable pub trim_right : Text → Text
trim_right [] = []
trim_right (c ∷ s) = unless_blank c (trim_right s)

-- strings.TrimSpace
unfoldable pub trim_space : Text → Text
unfolding trim_left trim_right
trim_space s = trim_right (trim_left s)

-- strings.IndexByte and strings.Index
unfoldable pub index_byte : Text → ℕ → Option ℕ
index_byte [] b = none
index_byte (c ∷ s) b = if c == b then some 0 else Option.map suc (index_byte s b)

unfoldable pub index_of : Text → Text → Option ℕ
index_of [] p = if has_prefix [] p then some 0 else none
index_of (c ∷ s) p = if has_prefix (c ∷ s) p then some 0 else Option.map suc (index_of s p)

-- strings.Split by one byte
abbrev pub split_cons : ℕ → List Text → List Text
split_cons c [] = (c ∷ []) ∷ []
split_cons c (p ∷ ps) = (c ∷ p) ∷ ps

unfoldable pub split : ℕ → Text → List Text
split b [] = [] ∷ []
split b (c ∷ s) = let rest = split b s in if c == b then [] ∷ rest else split_cons c rest

-- A Go map from strings, as the list of its entries.
unfoldable pub lookup_text {ℓ} : {V : Type ℓ} → Text → List (Text × V) → Option V
lookup_text k [] = none
lookup_text k ((j, v) ∷ m) = if text_eq j k then some v else lookup_text k m

-- strconv.Itoa of a number that is not negative: an int has at most 19 digits
unfoldable digits : ℕ → ℕ → Text
digits zero n = []
digits (suc f) n =
    let rest = digits f (n / 10) in
    if ltb n 10 then (b'0' + n) ∷ [] else rest ++ ((b'0' + n % 10) ∷ [])

unfoldable pub decimal : ℕ → Text
unfolding digits
decimal n = digits 20 n

-- strings.LastIndex of one byte
abbrev later_index : Option ℕ → Bool → Option ℕ
later_index (some i) here = some (suc i)
later_index none here = if here then some 0 else none

unfoldable pub last_index_byte : Text → ℕ → Option ℕ
last_index_byte [] b = none
last_index_byte (c ∷ s) b = later_index (last_index_byte s b) (c == b)

-- strings.ReplaceAll of one byte
unfoldable pub replace_byte : ℕ → Text → Text → Text
replace_byte b r [] = []
replace_byte b r (c ∷ s) = let rest = replace_byte b r s in if c == b then r ++ rest else c ∷ rest

-- strings.Join
unfoldable pub join : List Text → Text → Text
join [] sep = []
join (x ∷ []) sep = x
join (x ∷ y ∷ xs) sep = x ++ (sep ++ join (y ∷ xs) sep)

abbrev pub is_digit : ℕ → Bool
is_digit c = leb b'0' c && leb c b'9'

digits-is_digit : (f n : ℕ) → All (λ c. is_digit c ≡ true) (digits f n)
unfolding digits
digits-is_digit zero n = tt
digits-is_digit (suc f) n = elim (Bool-cases (ltb n 10)) [
  | inl p ↦ rw p (ground arith, tt)
  | inr p ↦ rw p (
      All-append (λ c. is_digit c ≡ true) (digits f (n / 10)) _ (digits-is_digit f (n / 10))
        (ground arith, tt))
]

pub decimal-is_digit : (n : ℕ) → All (λ c. is_digit c ≡ true) (decimal n)
unfolding decimal
decimal-is_digit n = digits-is_digit 20 n
