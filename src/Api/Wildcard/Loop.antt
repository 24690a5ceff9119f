-- ===== src/Api/Wildcard/Loop.antt =====
-- The loop of `MatchesWildcard` (source/api/api_blocklist.cpp), on fuel.
use radeon_developer_panel.Common.{
  ℕ, zero, suc, ◌+◌, ◌*◌, Bool, true, false, [], ◌∷◌, Option, none, some, ◌==◌, if◌then◌else◌,
  Bytes, length,
}
use radeon_developer_panel.Api.Wildcard.Token.{Token, stop, star, one, token, accepts}

-- `overrun`: `star_n` was moved past the terminator. `out_of_fuel` belongs to the model.
pub data Outcome : Type 0 where
  answer : Bool → Outcome
  overrun out_of_fuel : Outcome

-- `star_p` and `star_n`, which are null together.
abbrev pub StarAt : Type 0
StarAt = Option (Bytes × Bytes)

-- A round of the loop, from the pointers `p` and `n`.
abbrev pub Round : Type 0
Round = Bytes → Bytes → StarAt → Outcome

-- `if (star_p == nullptr) return false; p = star_p; n = ++star_n; continue;`
unfoldable pub retry : StarAt → Round → Outcome
retry none next = answer false
retry (some (star_p, [])) next = overrun
retry (some (star_p, c ∷ star_n)) next = next star_p star_n (some (star_p, star_n))

-- `while (*p == '*') ++p; return *p == '\0';`
unfoldable pub only_stars : Bytes → Bool
only_stars [] = true
only_stars (c ∷ p) = let rest = only_stars p in if c == b'*' then rest else false

-- The body of `while (*n != '\0')`, by what `p` stands at; `next` goes on with the loop.
unfoldable pub match_step : Token → ℕ → Bytes → StarAt → Round → Outcome
match_step stop c n back next = retry back next
match_step (star p) c n back next = next p (c ∷ n) (some (p, c ∷ n))
match_step (one t p) c n back next = if accepts t c then next p n back else retry back next

unfoldable pub match_loop : ℕ → Round
match_loop zero p n back = out_of_fuel
match_loop (suc fuel) p [] back = answer (only_stars p)
match_loop (suc fuel) p (c ∷ n) back = match_step (token p) c n back (match_loop fuel)

unfoldable pub matches_wildcard : Bytes → Bytes → Outcome
unfolding match_loop match_step retry only_stars token accepts
matches_wildcard name pattern =
    match_loop ((length name + 1) * (length pattern + 1)) pattern name none
