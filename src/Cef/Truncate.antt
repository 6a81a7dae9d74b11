-- ===== src/Cef/Truncate.antt =====
-- The length of the detail that a CEF line carries.
use archer.Prelude.{
  ℕ, zero, suc, ◌+◌, ◌*◌, ◌≤◌, ◌<◌, ◌≡◌, inl, inr, Option, none, some, List, [], ◌∷◌, ◌++◌, Text,
  codes, ltb, if◌then◌else◌, text_eq, length, take, arith, Bool-cases, trim_space, split,
  last_index_byte,
}
use archer.Cef.{keep_segments, cut_at, truncate_detail, cef_severity}

length-take {ℓ} : {A : Type ℓ} (n : ℕ) (xs : List A) → length (take n xs) ≤ n
length-take zero xs = omega arith
length-take (suc n) [] = omega arith
length-take (suc n) (x ∷ xs) = omega (arith, length-take n xs)

length-take_le {ℓ} : {A : Type ℓ} (n : ℕ) (xs : List A) → length (take n xs) ≤ length xs
length-take_le zero xs = omega arith
length-take_le (suc n) [] = omega arith
length-take_le (suc n) (x ∷ xs) = omega (arith, length-take_le n xs)

cut_at_short : (head : Text) (o : Option ℕ) → length (cut_at head o) ≤ length head
cut_at_short head none = omega arith
cut_at_short head (some i) = ground (arith, length-take_le i head)

keep_segments_short :
    (max : ℕ) (out : Text) (segs : List Text)
    → length out ≤ max
    → length (keep_segments max out segs) ≤ max
unfolding keep_segments
keep_segments_short max out [] h = h
keep_segments_short max out (seg ∷ segs) h =
    let trimmed = trim_space seg in
    let cand = if text_eq out [] then trimmed else out ++ (codes " | " ++ trimmed) in
    elim (Bool-cases (text_eq trimmed [])) [
      | inl p ↦ rw p (keep_segments_short max out segs h)
      | inr p ↦ elim (Bool-cases (ltb max (length cand))) [
        | inl q ↦ rw p (rw q h)
        | inr q ↦ rw p (rw q (keep_segments_short max cand segs (ground arith)))
      ]
    ]

-- For every detail and bound: the truncated detail is no longer than the bound, and a detail that
-- is not longer is kept as it is.
pub length-truncate_detail :
    (s : Text) (max : ℕ)
    → (length (truncate_detail s max) ≤ max) × (length s ≤ max → truncate_detail s max ≡ s)
unfolding truncate_detail
length-truncate_detail s max =
    let out = keep_segments max [] (split b'|' s) in
    let head = take max s in
    let kept : length out ≤ max = keep_segments_short max [] (split b'|' s) (omega arith) in
    let cut = cut_at_short head (last_index_byte head b' ') in
    (ground (arith, kept, cut, length-take max s), λ h. ground arith)

-- For all scores a ≤ b up to 100: their severities are in that order, at most 10, and each is its
-- score over ten, rounded half up.
pub cef_severity_scale :
    (a b : ℕ)
    → a ≤ b
    → b ≤ 100
    → (cef_severity a ≤ cef_severity b)
      × (cef_severity b ≤ 10)
      × (10 * cef_severity b ≤ b + 5)
      × (b + 5 < 10 * cef_severity b + 10)
unfolding cef_severity
cef_severity_scale a b h k = (ground arith, ground arith, ground arith, ground arith)
