-- ===== src/Cef/Escape.antt =====
-- What the escapes write can be read back.
use archer.Prelude.{
  ℕ, ◌≡◌, ◌⊎◌, inl, inr, refl, Bool, true, false, ◌||◌, ◌&&◌, not, is_digit, Option, none, some, [],
  ◌∷◌, ◌++◌, Text, ◌==◌, if◌then◌else◌, arith, Bool-cases, All, All-append, replace_byte,
}
use archer.Cef.{cef_header_escape, cef_value_escape}

-- A reader of one header field: a backslash stands for the byte after it, and a bar ends the field.
abbrev before : ℕ → Option (Text × Text) → Option (Text × Text)
before c none = none
before c (some r) = some (c ∷ r.0, r.1)

unfoldable pub read_from : Bool → Text → Option (Text × Text)
read_from quoted [] = none
read_from true (c ∷ s) = before c (read_from false s)
read_from false (c ∷ s) =
    let escaped = read_from true s in
    let rest = before c (read_from false s) in
    if c == b'\\' then escaped else if c == b'|' then some ([], s) else rest

abbrev pub read_field : Text → Option (Text × Text)
read_field s = read_from false s

unfoldable header_byte : ℕ → Text
header_byte c =
    if c == b'\\' then b'\\' ∷ b'\\' ∷ [] else if c == b'|' then b'\\' ∷ b'|' ∷ [] else c ∷ []

header_cons : (c : ℕ) (s : Text) → cef_header_escape (c ∷ s) ≡ header_byte c ++ cef_header_escape s
unfolding cef_header_escape replace_byte header_byte
header_cons c s = elim (Bool-cases (c == b'\\')) [
  | inl p ↦ rw p refl
  | inr p ↦ rw p (elim (Bool-cases (c == b'|')) [ inl q ↦ rw q refl | inr q ↦ rw q refl ])
]

-- For every text and what follows it: the escaped text and a bar are read back as the text.
pub read_field-cef_header_escape :
    (s rest : Text) → read_field (cef_header_escape s ++ (b'|' ∷ rest)) ≡ some (s, rest)
unfolding read_from cef_header_escape header_byte replace_byte
read_field-cef_header_escape [] rest = refl
read_field-cef_header_escape (c ∷ s) rest =
    rw (header_cons c s)
      (one (Bool-cases (c == b'\\')) (Bool-cases (c == b'|')) (read_field-cef_header_escape s rest))
  where
    one :
        (c == b'\\') ≡ true ⊎ (c == b'\\') ≡ false
        → (c == b'|') ≡ true ⊎ (c == b'|') ≡ false
        → read_field (cef_header_escape s ++ (b'|' ∷ rest)) ≡ some (s, rest)
        → read_field ((header_byte c ++ cef_header_escape s) ++ (b'|' ∷ rest)) ≡ some (c ∷ s, rest)
    one (inl p) q tail = let same : c ≡ b'\\' = ground arith in rw same (rw tail refl)
    one (inr p) (inl q) tail = let same : c ≡ b'|' = ground arith in rw same (rw tail refl)
    one (inr p) (inr q) tail = rw p (rw q (rw p (rw q (rw tail refl))))

-- A reader of a value: a backslash and an `n` stand for a line feed, a backslash and another byte
-- for that byte.
unfoldable pub unescape_from : Bool → Text → Text
unescape_from quoted [] = []
unescape_from true (c ∷ s) = (if c == b'n' then b'\n' else c) ∷ unescape_from false s
unescape_from false (c ∷ s) =
    let escaped = unescape_from true s in
    let rest = c ∷ unescape_from false s in if c == b'\\' then escaped else rest

unfoldable value_byte : ℕ → Text
value_byte c =
    if c == b'\\'
    then b'\\' ∷ b'\\' ∷ []
    else if c == b'='
    then b'\\' ∷ b'=' ∷ []
    else if c == b'\r'
    then []
    else if c == b'\n'
    then b'\\' ∷ b'n' ∷ []
    else c ∷ []

-- What a byte is to the escape of a value.
data Kind (c : ℕ) : Type 0 where
  backslash : c ≡ b'\\' → Kind c
  equals : c ≡ b'=' → Kind c
  return : c ≡ b'\r' → Kind c
  feed : c ≡ b'\n' → Kind c
  plain :
      (c == b'\\') ≡ false
      → (c == b'=') ≡ false
      → (c == b'\r') ≡ false
      → (c == b'\n') ≡ false
      → Kind c

kind : (c : ℕ) → Kind c
kind c = elim (Bool-cases (c == b'\\')) [
  | inl p ↦ backslash (ground arith)
  | inr p ↦ elim (Bool-cases (c == b'=')) [
    | inl q ↦ equals (ground arith)
    | inr q ↦ elim (Bool-cases (c == b'\r')) [
      | inl r ↦ return (ground arith)
      | inr r ↦ elim (Bool-cases (c == b'\n')) [
        | inl t ↦ feed (ground arith)
        | inr t ↦ plain p q r t
      ]
    ]
  ]
]

value_cons : (c : ℕ) (s : Text) → cef_value_escape (c ∷ s) ≡ value_byte c ++ cef_value_escape s
unfolding cef_value_escape replace_byte value_byte
value_cons c s = elim (kind c) [
  | backslash e ↦ rw e refl
  | equals e ↦ rw e refl
  | return e ↦ rw e refl
  | feed e ↦ rw e refl
  | plain p q r t ↦ rw p (rw q (rw r (rw t refl)))
]

-- A text without its carriage returns.
unfoldable pub without_returns : Text → Text
without_returns [] = []
without_returns (c ∷ s) = let rest = without_returns s in if c == b'\r' then rest else c ∷ rest

-- For every text: what the escape of a value writes is read back as the text without its carriage
-- returns.
pub unescape_from-cef_value_escape :
    (s : Text) → unescape_from false (cef_value_escape s) ≡ without_returns s
unfolding unescape_from cef_value_escape without_returns value_byte replace_byte
unescape_from-cef_value_escape [] = refl
unescape_from-cef_value_escape (c ∷ s) =
    let tail = unescape_from-cef_value_escape s in
    rw (value_cons c s) (elim (kind c) [
      | backslash e ↦ rw e (rw tail refl)
      | equals e ↦ rw e (rw tail refl)
      | return e ↦ rw e tail
      | feed e ↦ rw e (rw tail refl)
      | plain p q r t ↦ rw p (rw q (rw r (rw t (rw p (rw tail refl)))))
    ])

-- a text with no line feed and no carriage return
abbrev pub IsLine : Text → Type 0
IsLine s = All (λ c. (c == b'\n' || c == b'\r') ≡ false) s

pub IsLine-append : (s t : Text) → IsLine s → IsLine t → IsLine (s ++ t)
IsLine-append s t a b = All-append (λ c. (c == b'\n' || c == b'\r') ≡ false) s t a b

-- For every text: its escape as a value has no line break.
pub cef_value_escape-IsLine : (s : Text) → IsLine (cef_value_escape s)
unfolding cef_value_escape value_byte replace_byte
cef_value_escape-IsLine [] = tt
cef_value_escape-IsLine (c ∷ s) =
    let tail = cef_value_escape-IsLine s in
    rw (value_cons c s) (elim (kind c) [
      | backslash e ↦ rw e (refl, (refl, tail))
      | equals e ↦ rw e (refl, (refl, tail))
      | return e ↦ rw e tail
      | feed e ↦ rw e (refl, (refl, tail))
      | plain p q r t ↦ rw p (rw q (rw r (rw t (ground arith, tail))))
    ])

-- the same as a test
abbrev pub is_line : Text → Bool
is_line [] = true
is_line (c ∷ s) = not (c == b'\n' || c == b'\r') && is_line s

pub is_line-IsLine : (s : Text) → is_line s ≡ true → IsLine s
is_line-IsLine [] h = tt
is_line-IsLine (c ∷ s) h = (ground arith, is_line-IsLine s (ground arith))

pub digits-IsLine : (s : Text) → All (λ c. is_digit c ≡ true) s → IsLine s
digits-IsLine [] h = tt
digits-IsLine (c ∷ s) h = (ground (arith, h.0), digits-IsLine s h.1)
