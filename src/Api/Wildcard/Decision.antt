-- ===== src/Api/Wildcard/Decision.antt =====
-- The loop of `MatchesWildcard` (source/api/api_blocklist.cpp) goes back to the last star only, and
-- still decides the relation.
use radeon_developer_panel.Common.{
  ℕ, zero, suc, ◌+◌, ◌*◌, ◌≤◌, ◌<◌, ◌≡◌, refl, Bool, true, false, ◌↔◌, [], ◌∷◌, none, some, Bytes,
  length, arith, inl, inr, Bool-cases, subst,
}
use radeon_developer_panel.Api.Wildcard.Token.{
  Test, Token, stop, star, one, token, accepts, token-Shrinks, Shrinks,
}
use radeon_developer_panel.Api.Wildcard.Loop.{
  Outcome, answer, overrun, out_of_fuel, StarAt, Round, retry, match_step, only_stars, match_loop,
  matches_wildcard,
}
use radeon_developer_panel.Api.Wildcard.Relation.{
  Matches, single, run, Later, meaning, Later-star, Later-one, Later-skip, Later-add, later_nil,
  only_stars_iff,
}

-- The loop ended with an answer, and the answer is right about `G`.
abbrev pub Decides : Type 0 → Outcome → Type 0
Decides G (answer true) = G
Decides G (answer false) = ¬ G
Decides G overrun = ⊥
Decides G out_of_fuel = ⊥

answer-Decides : {G : Type 0} (b : Bool) → (b ≡ true) ↔ G → Decides G (answer b)
answer-Decides true e = e.0 refl
answer-Decides false e = λ g. cc (e.1 g)

-- `G` is the question that the loop was entered with; `k` is more than the length of any pattern
-- that is left.
module _ (G : Type 0) (k : ℕ) where
  -- Without a star the question is still the same; with one it is about the pattern behind it.
  abbrev Saved : ℕ → Bytes → Bytes → StarAt → Type 0
  Saved m n p none = G → Matches p n
  Saved m n p (some (star_p, star_n)) =
      (Later star_p star_n → G)
      × (G → Later star_p star_n)
      × (Matches star_p star_n → Matches p n)
      × (length n ≤ length star_n)
      × (length star_n ≤ m)
      × (length star_p < k)

  record Inv (fuel m : ℕ) (n p : Bytes) (back : StarAt) : Type 0 where
    sound : Matches p n → G
    complete : G → Later p n
    saved : Saved m n p back
    name_bound : length n ≤ m
    pattern_bound : length p < k
    enough : m * k + length p < fuel

  Inv-star :
      {fuel m : ℕ} {n p rest : Bytes} {back : StarAt}
      → token p ≡ star rest
      → length rest < length p
      → Inv (suc fuel) m n p back
      → Inv fuel m n rest (some (rest, n))
  Inv-star {n = n} e shrinks i = record {
    sound = λ d. i.sound (run e [] refl d);
    complete = λ g. Later-star e refl (i.complete g);
    saved = (
      λ (xs, after, cut, d). i.sound (run e xs cut d),
      λ g. Later-star e refl (i.complete g),
      λ d. d,
      omega arith,
      i.name_bound,
      omega arith,
    );
    name_bound = i.name_bound;
    pattern_bound = omega arith;
    enough = omega arith;
  }

  Saved-one :
      (m c : ℕ) (n p : Bytes) {rest : Bytes} {t : Test} (back : StarAt)
      → token p ≡ one t rest
      → Saved m (c ∷ n) p back
      → Saved m n rest back
  Saved-one m c n p none e h = λ g. (meaning e (h g)).1
  Saved-one m c n p (some (star_p, star_n)) e (to_goal, from_goal, down, shorter, bound, bound_p) =
      (to_goal, from_goal, λ d. (meaning e (down d)).1, omega arith, bound, bound_p)

  Inv-one :
      {fuel m c : ℕ} {n p rest : Bytes} {t : Test} {back : StarAt}
      → token p ≡ one t rest
      → length rest < length p
      → accepts t c ≡ true
      → Inv (suc fuel) m (c ∷ n) p back
      → Inv fuel m n rest back
  Inv-one {m = m} {c = c} {n = n} {p = p} {back = back} e shrinks h i = record {
    sound = λ d. i.sound (single e h d);
    complete = λ g. Later-one e (i.complete g);
    saved = Saved-one m c n p back e i.saved;
    name_bound = omega arith;
    pattern_bound = omega arith;
    enough = omega arith;
  }

  Inv-retry :
      {fuel m : ℕ} {star_p star_n : Bytes}
      → (Later star_p star_n → G)
      → (G → Later star_p star_n)
      → length star_n ≤ m
      → length star_p < k
      → m * k + length star_p < fuel
      → Inv fuel m star_n star_p (some (star_p, star_n))
  Inv-retry to_goal from_goal bound bound_p fits = record {
    sound = λ d. to_goal ([], _, refl, d);
    complete = from_goal;
    saved = (to_goal, from_goal, λ d. d, omega arith, bound, bound_p);
    name_bound = bound;
    pattern_bound = bound_p;
    enough = fits;
  }

  -- After a mismatch the star has to take one byte more, which lowers `m`.
  retry-Decides :
      {fuel c : ℕ} {n p : Bytes} (m : ℕ) (back : StarAt) (next : Round)
      → ((m' : ℕ) (p' n' : Bytes) (b : StarAt) → Inv fuel m' n' p' b → Decides G (next p' n' b))
      → Inv (suc fuel) m (c ∷ n) p back
      → ¬ Matches p (c ∷ n)
      → Decides G (retry back next)
  unfolding retry
  retry-Decides m none next go i differs = λ g. differs (i.saved g)
  retry-Decides m (some (star_p, [])) next go i differs = omega arith
  retry-Decides zero (some (star_p, x ∷ star_n)) next go i differs = absurd (omega arith)
  retry-Decides (suc m) (some (star_p, x ∷ star_n)) next go i differs =
      let (to_goal, from_goal, down, shorter, bound, bound_p) = i.saved in
      go m star_p star_n (some (star_p, star_n)) (
        Inv-retry (λ l. to_goal (Later-add x l))
          (λ g. Later-skip (from_goal g) (λ d. differs (down d))) (omega arith) bound_p
          (omega arith))

  module _ {fuel c : ℕ} {n p : Bytes} (m : ℕ) (back : StarAt) (next : Round) where
    match_step-Decides :
        ((m' : ℕ) (p' n' : Bytes) (b : StarAt) → Inv fuel m' n' p' b → Decides G (next p' n' b))
        → Inv (suc fuel) m (c ∷ n) p back
        → (t : Token) → token p ≡ t
        → Decides G (match_step t c n back next)
    unfolding match_step
    match_step-Decides go i stop e = retry-Decides m back next go i (λ d. cc (meaning e d))
    match_step-Decides go i (star rest) e =
        go m rest (c ∷ n) (some (rest, c ∷ n))
          (Inv-star e (subst (Shrinks p) e (token-Shrinks p)) i)
    match_step-Decides go i (one t rest) e = elim (Bool-cases (accepts t c)) [
      | inl h ↦ rw h (go m rest n back (Inv-one e (subst (Shrinks p) e (token-Shrinks p)) h i))
      | inr h ↦ rw h (retry-Decides m back next go i (λ d. cc (h, (meaning e d).0)))
    ]

  match_loop-Decides :
      (fuel m : ℕ) (p n : Bytes) (back : StarAt)
      → Inv fuel m n p back
      → Decides G (match_loop fuel p n back)
  unfolding match_loop
  match_loop-Decides zero m p n back i = omega arith
  match_loop-Decides (suc fuel) m p [] back i =
      let (from, to) = only_stars_iff p in
      answer-Decides (only_stars p) (λ h. i.sound (from h), λ g. to (later_nil (i.complete g)))
  match_loop-Decides (suc fuel) m p (c ∷ n) back i =
      match_step-Decides m back (match_loop fuel) (match_loop-Decides fuel) i (token p) refl

-- `MatchesWildcard` ends within its fuel, never moves past the terminator of the name, and returns
-- true exactly on the names that the pattern means.
pub matches_wildcard-Decides :
    (name pattern : Bytes) → Decides (Matches pattern name) (matches_wildcard name pattern)
unfolding matches_wildcard
matches_wildcard-Decides name pattern =
    match_loop-Decides (Matches pattern name) (length pattern + 1) _ (length name) pattern name none
      (record {
        sound = λ d. d;
        complete = λ d. ([], name, refl, d);
        saved = λ d. d;
        name_bound = omega arith;
        pattern_bound = omega arith;
        enough = omega arith;
      })
