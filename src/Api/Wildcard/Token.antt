-- ===== src/Api/Wildcard/Token.antt =====
-- How `MatchesWildcard` (source/api/api_blocklist.cpp) reads its pattern. A `const char*` is the
-- list of the bytes from it up to the terminator: reading `'\0'` is meeting the empty list.
use radeon_developer_panel.Common.{
  ℕ, ◌<◌, ◌≡◌, Bool, true, false, not, ◌&&◌, ◌||◌, [], ◌∷◌, Option, none, some, leb, ◌==◌,
  if◌then◌else◌, Bytes, length, arith,
}

abbrev pub backslash : ℕ
backslash = 92

-- A test that one byte of the name has to pass.
pub data Test : Type 0 where
  literal : ℕ → Test
  any_byte : Test
  byte_class : Bool → Bytes → Test

-- What the pattern pointer stands at: the terminator, a star, or a test of one byte, with the
-- pointer behind it.
pub data Token : Type 0 where
  stop : Token
  star : Bytes → Token
  one : Test → Bytes → Token

abbrev prefix : ℕ → Option (Bytes × Bytes) → Option (Bytes × Bytes)
prefix c none = none
prefix c (some (body, rest)) = some (c ∷ body, rest)

-- `while (*class_end != '\0' && *class_end != ']') ++class_end`: the bytes passed over, and those
-- behind the `]`.
pub class_end : Bytes → Option (Bytes × Bytes)
class_end [] = none
class_end (c ∷ p) = let rest = prefix c (class_end p) in if c == b']' then some ([], p) else rest

-- A `]` in the first place is a member of the class.
pub class_span : Bytes → Option (Bytes × Bytes)
class_span [] = none
class_span (c ∷ p) = if c == b']' then prefix c (class_end p) else class_end (c ∷ p)

-- The loop over `q`, from `class_p` up to `class_end`.
pub in_class : Bytes → ℕ → Bool
in_class [] n = false
in_class (q ∷ dash ∷ hi ∷ body) n =
    let range = (leb q n && leb n hi) || in_class body n in
    let single = n == q || in_class (dash ∷ hi ∷ body) n in if dash == b'-' then range else single
in_class (q ∷ body) n = n == q || in_class body n

-- An unclosed `[` stands for itself.
abbrev bracket_token : Bool → Option (Bytes × Bytes) → Bytes → Token
bracket_token negate none p = one (literal b'[') p
bracket_token negate (some (body, rest)) p = one (byte_class negate body) rest

pub bracket : Bytes → Token
bracket [] = bracket_token false (class_span []) []
bracket (c ∷ p) =
    if c == b'!'
    then bracket_token true (class_span p) (c ∷ p)
    else bracket_token false (class_span (c ∷ p)) (c ∷ p)

-- The tests of the loop body past the escape, in their order.
abbrev plain : ℕ → Bytes → Token
plain c p =
    if c == b'['
    then bracket p
    else if c == b'*'
    then star p
    else if c == b'?'
    then one any_byte p
    else one (literal c) p

-- A backslash escapes the byte behind it, and at the end of the pattern stands for itself.
unfoldable pub token : Bytes → Token
unfolding bracket class_span class_end
token [] = stop
token (c ∷ []) = plain c []
token (c ∷ x ∷ p) = if c == backslash then one (literal x) p else plain c (x ∷ p)

unfoldable pub accepts : Test → ℕ → Bool
unfolding in_class
accepts (literal x) n = x == n
accepts any_byte n = true
accepts (byte_class negate body) n = if negate then not (in_class body n) else in_class body n

-- The pattern pointer of a token that is read past.
abbrev pub Shrinks : Bytes → Token → Type 0
Shrinks p stop = Unit
Shrinks p (star rest) = length rest < length p
Shrinks p (one t rest) = length rest < length p

abbrev SpanShrinks : Bytes → Option (Bytes × Bytes) → Type 0
SpanShrinks p none = Unit
SpanShrinks p (some (body, rest)) = length rest < length p

class_end-SpanShrinks : (p : Bytes) → SpanShrinks p (class_end p)
unfolding class_end
class_end-SpanShrinks [] = tt
class_end-SpanShrinks (c ∷ p) = ground (arith, class_end-SpanShrinks p)

class_span-SpanShrinks : (p : Bytes) → SpanShrinks p (class_span p)
unfolding class_span
class_span-SpanShrinks [] = tt
class_span-SpanShrinks (c ∷ p) =
    ground (arith, class_end-SpanShrinks p, class_end-SpanShrinks (c ∷ p))

bracket-Shrinks : (c : ℕ) (p : Bytes) → Shrinks (c ∷ p) (bracket p)
unfolding bracket
bracket-Shrinks c [] = ground (arith, class_span-SpanShrinks [])
bracket-Shrinks c (x ∷ p) = ground (arith, class_span-SpanShrinks p, class_span-SpanShrinks (x ∷ p))

plain-Shrinks : (c : ℕ) (p : Bytes) → Shrinks (c ∷ p) (plain c p)
plain-Shrinks c p = ground (arith, bracket-Shrinks c p)

-- Reading a token moves the pattern pointer forward.
pub token-Shrinks : (p : Bytes) → Shrinks p (token p)
unfolding token
token-Shrinks [] = tt
token-Shrinks (c ∷ []) = plain-Shrinks c []
token-Shrinks (c ∷ x ∷ p) = ground (arith, plain-Shrinks c (x ∷ p))

abbrev pub IsTest : Token → Type 0
IsTest stop = ⊥
IsTest (star rest) = ⊥
IsTest (one t rest) = Unit

bracket_token-IsTest :
    (b : Bool) (o : Option (Bytes × Bytes)) (p : Bytes) → IsTest (bracket_token b o p)
bracket_token-IsTest b none p = tt
bracket_token-IsTest b (some (body, rest)) p = tt

bracket-IsTest : (p : Bytes) → IsTest (bracket p)
unfolding bracket
bracket-IsTest [] = bracket_token-IsTest false (class_span []) []
bracket-IsTest (c ∷ p) = ground (
  arith,
  bracket_token-IsTest true (class_span p) (c ∷ p),
  bracket_token-IsTest false (class_span (c ∷ p)) (c ∷ p),
)

plain-IsTest : (c : ℕ) (p : Bytes) → (c == b'*') ≡ false → IsTest (plain c p)
plain-IsTest c p h = ground (arith, bracket-IsTest p)

-- Every byte but a star begins a test.
pub token-IsTest : (c : ℕ) (p : Bytes) → (c == b'*') ≡ false → IsTest (token (c ∷ p))
unfolding token
token-IsTest c [] h = plain-IsTest c [] h
token-IsTest c (x ∷ p) h = ground (arith, plain-IsTest c (x ∷ p) h)
