-- ===== src/Glob.antt =====
-- The wildcard matcher, which the repository has twice: globMatch (internal/match/match.go) and
-- globFold (internal/query/match.go). Both lower the case of pattern and subject and run one loop.
pub mod Spec
pub mod Correct
pub mod StarSubject
use archer.Prelude.{
  ℕ, zero, suc, ◌+◌, ◌*◌, Bool, true, false, ◌&&◌, ◌||◌, Option, some, none, [], ◌∷◌, Text, length,
  ◌==◌, if◌then◌else◌, to_lower,
}

-- `for ip < len(p) && p[ip] == '*' { ip++ }; return ip == len(p)`
unfoldable pub only_stars : Text → Bool
only_stars [] = true
only_stars (x ∷ p) = x == b'*' && only_stars p

-- The saved star: `none` while `star == -1`, else the parts p[star+1:] and str[match:].
abbrev pub Saved : Type 0
Saved = Option (Text × Text)

-- `if star != -1 { ip = star + 1; match++; is = match; continue }; return false`
unfoldable pub retry : (Text → Text → Saved → Option Bool) → Saved → Option Bool
retry next none = some false
retry next (some (bp, [])) = next bp [] (some (bp, []))
retry next (some (bp, _ ∷ bs)) = next bp bs (some (bp, bs))

-- One round per unit of fuel. The cursors are the unread parts p[ip:] and str[is:]; `none` means
-- that the fuel ran out.
unfoldable pub glob_loop : ℕ → Text → Text → Saved → Option Bool
unfolding only_stars retry
glob_loop zero p s saved = none
glob_loop (suc f) p [] saved = some (only_stars p)
glob_loop (suc f) [] (c ∷ s) saved = retry (glob_loop f) saved
glob_loop (suc f) (x ∷ p) (c ∷ s) saved =
    let onward = glob_loop f p s saved in
    let starred = glob_loop f p (c ∷ s) (some (p, c ∷ s)) in
    let retried = retry (glob_loop f) saved in
    if x == b'?' || x == c then onward else if x == b'*' then starred else retried

abbrev pub glob_fuel : Text → Text → ℕ
glob_fuel p s = length s * (length p + 1) + length p + 1

unfoldable pub answer : Option Bool → Bool
answer none = false
answer (some b) = b

-- the loop from its initial state, on texts whose case is lowered already
unfoldable pub glob_run : Text → Text → Option Bool
unfolding glob_loop
glob_run p s = glob_loop (glob_fuel p s) p s none

-- globMatch
unfoldable pub glob_match : Text → Text → Bool
unfolding glob_run answer
glob_match pattern subject = answer (glob_run (to_lower pattern) (to_lower subject))

-- globFold
unfoldable pub glob_fold : Text → Text → Bool
unfolding glob_run answer
glob_fold pattern subject = answer (glob_run (to_lower pattern) (to_lower subject))
