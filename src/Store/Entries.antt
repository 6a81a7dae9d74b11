-- ===== src/Store/Entries.antt =====
-- The lines that an operator gives for a list: sanitizeListEntries and sanitizeFingerprintEntries of
-- internal/store/store.go. The set `seen` is the list of its members.
use mathlib.Core.Option
use archer.Prelude.{
  ℕ, Bool, ◌&&◌, ◌||◌, Option, none, some, List, [], ◌∷◌, Text, ◌==◌, if◌then◌else◌, text_eq, any,
  trim_space, to_lower,
}

abbrev pub is_blank : ℕ → Bool
is_blank c = c == b' ' || c == 9

-- What stands before the first blank that `#` follows, if there is one.
unfoldable pub before_tail : Text → Option Text
before_tail [] = none
before_tail (c ∷ []) = none
before_tail (c ∷ d ∷ s) =
    let rest = before_tail (d ∷ s) in
    if is_blank c && d == b'#' then some [] else Option.map (λ (t : Text). c ∷ t) rest

abbrev pub trimmed_or : Option Text → Text → Text
trimmed_or none e = e
trimmed_or (some t) e = trim_space t

-- a line as it is kept, empty if it is not
abbrev pub clean_trimmed : Text → Text
clean_trimmed [] = []
clean_trimmed (c ∷ s) = if c == b'#' then c ∷ s else trimmed_or (before_tail (c ∷ s)) (c ∷ s)

unfoldable pub clean_line : Text → Text
clean_line raw = clean_trimmed (trim_space raw)

-- the loop over the lines with `seen`
unfoldable pub sanitize_from : (Text → Text) → List Text → List Text → List Text
sanitize_from clean seen [] = []
sanitize_from clean seen (raw ∷ lines) =
    let e = clean raw in
    let skipped = text_eq e [] || any (text_eq e) seen in
    let rest = sanitize_from clean (if skipped then seen else e ∷ seen) lines in
    if skipped then rest else e ∷ rest

unfoldable pub sanitize_list_entries : List Text → List Text
sanitize_list_entries lines = sanitize_from clean_line [] lines

-- the first token of a line
unfoldable pub first_token : Text → Text
first_token [] = []
first_token (c ∷ s) = let rest = first_token s in if is_blank c then [] else c ∷ rest

abbrev pub clean_fingerprint_trimmed : Text → Text
clean_fingerprint_trimmed [] = []
clean_fingerprint_trimmed (c ∷ s) = if c == b'#' then [] else to_lower (first_token (c ∷ s))

unfoldable pub clean_fingerprint : Text → Text
clean_fingerprint raw = clean_fingerprint_trimmed (trim_space raw)

unfoldable pub sanitize_fingerprint_entries : List Text → List Text
sanitize_fingerprint_entries lines = sanitize_from clean_fingerprint [] lines
