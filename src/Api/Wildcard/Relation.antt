-- ===== src/Api/Wildcard/Relation.antt =====
-- What a wildcard pattern of source/api/api_blocklist.cpp means, with no order of search in it.
use mathlib.Core.List.{append_assoc, tail}
use radeon_developer_panel.Common.{
  ℕ, ◌≡◌, refl, sym, ap, ◌∙◌, subst, true, ◌↔◌, [], ◌∷◌, ◌++◌, Bytes, arith, inl, inr, ◌==◌, ==_iff,
  Bool-cases,
}
use radeon_developer_panel.Api.Wildcard.Token.{
  Test, Token, stop, star, one, token, accepts, IsTest, token-IsTest,
}
use radeon_developer_panel.Api.Wildcard.Loop.{only_stars}

-- The whole name is used up by the tests of the pattern, a star standing for any run of bytes.
pub data Matches : Bytes → Bytes → Type 0 where
  finish : {p : Bytes} → token p ≡ stop → Matches p []
  single :
      {p rest name : Bytes} {t : Test} {c : ℕ}
      → token p ≡ one t rest
      → accepts t c ≡ true
      → Matches rest name
      → Matches p (c ∷ name)
  run :
      {p rest name after : Bytes}
      → token p ≡ star rest
      → (skipped : Bytes) → name ≡ skipped ++ after
      → Matches rest after
      → Matches p name

-- The pattern matches some end piece of the name.
abbrev pub Later : Bytes → Bytes → Type 0
Later p name = (skipped : Bytes) × (after : Bytes) × (name ≡ skipped ++ after) × Matches p after

abbrev pub Eats : Test → Bytes → Bytes → Type 0
Eats t rest [] = ⊥
Eats t rest (c ∷ s) = (accepts t c ≡ true) × Matches rest s

-- The same, told by the token at the front of the pattern.
abbrev pub Meaning : Token → Bytes → Type 0
Meaning stop name = name ≡ []
Meaning (star rest) name = Later rest name
Meaning (one t rest) name = Eats t rest name

Matches→Meaning : {p name : Bytes} → Matches p name → Meaning (token p) name
Matches→Meaning (finish e) = rw e refl
Matches→Meaning (single e h d) = rw e (h, d)
Matches→Meaning (run {after = after} e skipped q d) = rw e (skipped, after, q, d)

module _ {p : Bytes} {k : Token} (e : token p ≡ k) where
  pub meaning : {name : Bytes} → Matches p name → Meaning k name
  meaning {name} d = subst (λ t. Meaning t name) e (Matches→Meaning d)

  -- A pattern that is found later in the name, told by its token.
  pub Later-star : {rest name : Bytes} → k ≡ star rest → Later p name → Later rest name
  Later-star {rest} {name} q (xs, after, cut, d) =
      let (ys, last, cut', d') = subst (λ t. Meaning t after) q (meaning d) in
      (xs ++ ys, last, cut ∙ ap (λ t. xs ++ t) cut' ∙ sym (append_assoc xs ys last), d')

Later-eat : (t : Test) (rest xs after : Bytes) → Eats t rest after → Later rest (tail (xs ++ after))
Later-eat t rest [] [] h = absurd h
Later-eat t rest [] (c ∷ s) h = ([], s, refl, h.1)
Later-eat t rest (x ∷ xs) [] h = absurd h
Later-eat t rest (x ∷ xs) (c ∷ s) h = (xs ++ c ∷ [], s, sym (append_assoc xs (c ∷ []) s), h.1)

-- Past a test, wherever it is passed, the rest of the pattern is found after the first byte.
pub Later-one :
    {p rest s : Bytes} {t : Test} {c : ℕ} → token p ≡ one t rest → Later p (c ∷ s) → Later rest s
Later-one {rest} e (xs, after, cut, d) =
    subst (λ name. Later rest (tail name)) (sym cut) (Later-eat _ rest xs after (meaning e d))

-- What is not matched at once is matched after the first byte.
pub Later-skip : {p s : Bytes} {c : ℕ} → Later p (c ∷ s) → ¬ Matches p (c ∷ s) → Later p s
Later-skip {p} ([], after, cut, d) n = absurd (n (subst (Matches p) (sym cut) d))
Later-skip (x ∷ xs, after, cut, d) n = (xs, after, ap tail cut, d)

pub Later-add : {p s : Bytes} (c : ℕ) → Later p s → Later p (c ∷ s)
Later-add c (xs, after, cut, d) = (c ∷ xs, after, ap (λ t. c ∷ t) cut, d)

-- At the end of the name nothing is left to skip.
pub later_nil : {p : Bytes} → Later p [] → Matches p []
later_nil {p} ([], after, cut, d) = subst (Matches p) (sym cut) d
later_nil (x ∷ xs, after, cut, d) = cc cut

star_token : (p : Bytes) → token (b'*' ∷ p) ≡ star p
unfolding token
star_token [] = refl
star_token (x ∷ p) = refl

needs_byte : (k : Token) → IsTest k → Meaning k [] → ⊥
needs_byte stop h m = h
needs_byte (star rest) h m = h
needs_byte (one t rest) h m = m

only_stars→Matches : (p : Bytes) → only_stars p ≡ true → Matches p []
unfolding only_stars
only_stars→Matches [] h = finish {p = []} (unfold token in refl)
only_stars→Matches (c ∷ p) h = elim (Bool-cases (c == b'*')) [
  | inl e ↦
      rw ((==_iff c b'*').0 e) (run (star_token p) [] refl (only_stars→Matches p (ground arith)))
  | inr e ↦ ground arith
]

Matches→only_stars : (p : Bytes) → Matches p [] → only_stars p ≡ true
unfolding only_stars
Matches→only_stars [] d = refl
Matches→only_stars (c ∷ p) d = elim (Bool-cases (c == b'*')) [
  | inl e ↦
      let rest = Matches→only_stars p (
        later_nil (
          Later-star (star_token p) refl
            ([], [], refl, subst (λ x. Matches (x ∷ p) []) ((==_iff c b'*').0 e) d))) in
      ground arith
  | inr e ↦ absurd (needs_byte (token (c ∷ p)) (token-IsTest c p e) (Matches→Meaning d))
]

-- The loop behind the name decides whether the rest of the pattern matches nothing.
pub only_stars_iff : (p : Bytes) → (only_stars p ≡ true) ↔ Matches p []
only_stars_iff p = (only_stars→Matches p, Matches→only_stars p)
