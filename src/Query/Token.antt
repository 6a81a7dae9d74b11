-- ===== src/Query/Token.antt =====
-- Tokens, errors and fallible results of internal/query/query.go and term.go.
use archer.Prelude.{ℕ, ◌≡◌, ◌≢◌, Text, codes}

-- tokKind, with the text that only a term token carries
pub data Token : Type 0 where
  term : Text → Token
  and_tok or_tok not_tok lparen rparen : Token

-- `t.text`: the zero string on all but term tokens
unfoldable pub token_text : Token → Text
token_text (term s) = s
token_text _ = codes ""

-- One constructor for each `fmt.Errorf` of the package, with the values that it prints.
pub data Error : Type 0 where
  unterminated_quote unterminated_range : ℕ → Error
  unexpected_token missing_operator : Text → Error
  trailing_or trailing_and unexpected_end unbalanced unexpected_operator : Error
  unknown_field malformed_range missing_value missing_field_value : Text → Error
  unknown_finding_type unknown_direction : Text → Error

-- `fuel_out` belongs to the model only: Lex/Total and Parse/Sound show that it is never returned.
pub data Result {ℓ} (A : Type ℓ) : Type ℓ where
  ok : A → Result A
  err : Error → Result A
  fuel_out : Result A

module _ {ℓ κ} {A : Type ℓ} {B : Type κ} where
  infixl 5 ◌>>=◌
  abbrev pub ◌>>=◌ : Result A → (A → Result B) → Result B
  ok value >>= next = next value
  err what >>= next = err what
  fuel_out >>= next = fuel_out

-- The run ends, and what it returns satisfies P.
abbrev pub Returns {ℓ} : {A : Type ℓ} → (A → Type 0) → Result A → Type 0
Returns P (ok a) = P a
Returns P (err e) = Unit
Returns P fuel_out = ⊥

pub bind-Returns {ℓ κ} :
    {A : Type ℓ} {B : Type κ} (P : A → Type 0) (Q : B → Type 0) (m : Result A) (f : A → Result B)
    → Returns P m
    → ((a : A) → P a → Returns Q (f a))
    → Returns Q (m >>= f)
bind-Returns P Q (ok a) f d k = k a d
bind-Returns P Q (err e) f d k = tt
bind-Returns P Q fuel_out f d k = d

pub Returns-mono {ℓ} :
    {A : Type ℓ} (P Q : A → Type 0) (m : Result A)
    → ((a : A) → P a → Q a)
    → Returns P m
    → Returns Q m
Returns-mono P Q (ok a) k d = k a d
Returns-mono P Q (err e) k d = tt
Returns-mono P Q fuel_out k d = d

pub Returns-ok {ℓ} :
    {A : Type ℓ} (P : A → Type 0) (m : Result A) {a : A} → m ≡ ok a → Returns P m → P a
Returns-ok P m e d = rw e at d

-- A run that ends is not the one that ran out of fuel.
pub Returns-ne {ℓ} : {A : Type ℓ} (P : A → Type 0) (m : Result A) → Returns P m → m ≢ fuel_out
Returns-ne P m d e = rw e at d

infixl 5 ◌>>◌
abbrev pub ◌>>◌ {ℓ} : {B : Type ℓ} → Result (Unit {0}) → Result B → Result B
m >> k = m >>= λ _. k
