-- ===== src/Finding/Identity/HistoryKey.antt =====
-- BeaconHistoryKey of internal/model/finding.go, and the fields that it is made of.
use archer.Prelude.{
  ◌≡◌, refl, ◌∙◌, ap, inl, inr, false, List, [], ◌∷◌, ◌++◌, map, Text, ◌==◌, if◌then◌else◌, text_eq,
  split, split_cons, join, replace_byte, All, Bool-cases,
}
use archer.Finding.{Finding}
use archer.Finding.Identity.{scrub_separator, beacon_history_key}

-- A text without the separator.
abbrev NoSeparator : Text → Type 0
NoSeparator s = All (λ c. (c == 31) ≡ false) s

split-last : (s : Text) → NoSeparator s → split 31 s ≡ s ∷ []
unfolding split
split-last [] h = refl
split-last (c ∷ s) (h, k) = rw h (ap (split_cons c) (split-last s k))

split-next : (s t : Text) → NoSeparator s → split 31 (s ++ (31 ∷ t)) ≡ s ∷ split 31 t
unfolding split
split-next [] t h = refl
split-next (c ∷ s) t (h, k) = rw h (ap (split_cons c) (split-next s t k))

split-join :
    (x : Text) (xs : List Text)
    → NoSeparator x
    → All NoSeparator xs
    → split 31 (join (x ∷ xs) (31 ∷ [])) ≡ x ∷ xs
unfolding join
split-join x [] h k = split-last x h
split-join x (y ∷ ys) h (k, ks) =
    split-next x (join (y ∷ ys) (31 ∷ [])) h ∙ ap (λ ps. x ∷ ps) (split-join y ys k ks)

scrub_separator-NoSeparator : (s : Text) → NoSeparator (scrub_separator s)
unfolding scrub_separator replace_byte
scrub_separator-NoSeparator [] = tt
scrub_separator-NoSeparator (c ∷ s) = elim (Bool-cases (c == 31)) [
  | inl p ↦ rw p (refl, scrub_separator-NoSeparator s)
  | inr p ↦ rw p (p, scrub_separator-NoSeparator s)
]

scrubbed : (ss : List Text) → All NoSeparator (map scrub_separator ss)
scrubbed [] = tt
scrubbed (s ∷ ss) = (scrub_separator-NoSeparator s, scrubbed ss)

-- A history key divided at its separator is the list of the finding's fields, each scrubbed: the
-- seven of every beacon, and the channel where there is one.
pub split-beacon_history_key :
    {Float : Type 0} (f : Finding Float)
    → split 31 (beacon_history_key f)
      ≡ map scrub_separator (
          f.type
          ∷ f.src_ip
          ∷ f.dst_ip
          ∷ f.dst_port
          ∷ f.hostname
          ∷ f.uri
          ∷ f.sensor
          ∷ (if text_eq f.channel [] then [] else f.channel ∷ []))
unfolding beacon_history_key
split-beacon_history_key f =
    let rest : List Text =
      f.src_ip
      ∷ f.dst_ip
      ∷ f.dst_port
      ∷ f.hostname
      ∷ f.uri
      ∷ f.sensor
      ∷ (if text_eq f.channel [] then [] else f.channel ∷ []) in
    split-join (scrub_separator f.type) (map scrub_separator rest)
      (scrub_separator-NoSeparator f.type) (scrubbed rest)
