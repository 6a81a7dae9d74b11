-- ===== src/Glob/Spec.antt =====
-- What a wildcard pattern means: `*` stands for any run of bytes, `?` for one byte, any other
-- byte for itself.
use archer.Prelude.{ℕ, ◌≡◌, ◌≢◌, ◌⊎◌, inl, inr, [], ◌∷◌, Text, All}

pub data Globs : Text → Text → Type 0 where
  end : Globs [] []
  one : {x c : ℕ} {p s : Text} → (x ≡ b'?') ⊎ (x ≡ c) → x ≢ b'*' → Globs p s → Globs (x ∷ p) (c ∷ s)
  leave : {x : ℕ} {p s : Text} → x ≡ b'*' → Globs p s → Globs (x ∷ p) s
  take : {x c : ℕ} {p s : Text} → x ≡ b'*' → Globs (x ∷ p) s → Globs (x ∷ p) (c ∷ s)

-- No byte of the text is a star.
abbrev pub StarFree : Text → Type 0
StarFree = All (λ c. c ≢ b'*')

-- What a first byte that is no star says of the subject.
pub Globs-one_inv :
    {x c : ℕ} {p s : Text} → Globs (x ∷ p) (c ∷ s) → x ≢ b'*' → ((x ≡ b'?') ⊎ (x ≡ c)) × Globs p s
Globs-one_inv (one t h g) n = (t, g)
Globs-one_inv (leave e g) n = absurd (n e)
Globs-one_inv (take e g) n = absurd (n e)

-- A star stands for nothing, or takes a byte.
pub Globs-star_inv :
    {x c : ℕ} {p s : Text} → Globs (x ∷ p) (c ∷ s) → x ≡ b'*' → Globs p (c ∷ s) ⊎ Globs (x ∷ p) s
Globs-star_inv (one t h g) e = absurd (h e)
Globs-star_inv (leave e g) _ = inl g
Globs-star_inv (take e g) _ = inr g

pub Globs-star_nil : {x : ℕ} {p : Text} → Globs (x ∷ p) [] → Globs p []
Globs-star_nil (leave e g) = g

pub Globs-cons_nil : {x : ℕ} {p : Text} → Globs (x ∷ p) [] → x ≡ b'*'
Globs-cons_nil (leave e g) = e

-- The byte that an item took can be left to the star in front of it.
pub Globs-absorb :
    {x y : ℕ} {p s : Text} → x ≡ b'*' → y ≢ b'*' → Globs (x ∷ y ∷ p) s → Globs (x ∷ p) s
Globs-absorb e n (one t h g) = absurd (h e)
Globs-absorb e n (leave d (one t h g)) = take e (leave e g)
Globs-absorb e n (leave d (leave k g)) = absurd (n k)
Globs-absorb e n (leave d (take k g)) = absurd (n k)
Globs-absorb e n (take d g) = take e (Globs-absorb e n g)

pub Globs-drop_one :
    {x y c : ℕ} {p s : Text} → x ≡ b'*' → y ≢ b'*' → Globs (x ∷ y ∷ p) (c ∷ s) → Globs (x ∷ p) s
Globs-drop_one e n (one t h g) = absurd (h e)
Globs-drop_one e n (leave d (one t h g)) = leave e g
Globs-drop_one e n (leave d (leave k g)) = absurd (n k)
Globs-drop_one e n (leave d (take k g)) = absurd (n k)
Globs-drop_one e n (take d g) = Globs-absorb e n g

-- Two stars in a row are one.
pub Globs-two_stars :
    {x y : ℕ} {p s : Text} → x ≡ b'*' → y ≡ b'*' → Globs (x ∷ y ∷ p) s → Globs (y ∷ p) s
Globs-two_stars e d (one t h g) = absurd (h e)
Globs-two_stars e d (leave _ g) = g
Globs-two_stars e d (take _ g) = take d (Globs-two_stars e d g)
