-- ===== src/Trace/Counters/Formula.antt =====
-- `CalculateComponentValue` of source/trace/src/counters/rgp_spm_database_parse.cpp, which evaluates the
-- formula of a counter's component: indices of values and `+` in postfix, with commas between them.
use radeon_developer_panel.Common.{
  ℕ, ◌+◌, ◌-◌, ◌*◌, ◌%◌, ◌^◌, Bool, ◌&&◌, ◌||◌, List, [], ◌∷◌, Option, none, some, ◌>>=◌, Bytes,
  codes, same_bytes, ltb, leb, ◌==◌, if◌then◌else◌, get_elem?,
}

abbrev pub push_char : ℕ → List Bytes → List Bytes
push_char c [] = (c ∷ []) ∷ []
push_char c (t ∷ ts) = (c ∷ t) ∷ ts

-- `std::getline(ss, cur_token, ',')`: a last token with no bytes is not delivered.
unfoldable pub formula_tokens : Bytes → List Bytes
formula_tokens [] = []
formula_tokens (c ∷ s) =
    let rest = formula_tokens s in if c == b',' then [] ∷ rest else push_char c rest

-- `isspace`
abbrev is_space : ℕ → Bool
is_space c = c == 32 || (leb 9 c && leb c 13)

abbrev is_digit : ℕ → Bool
is_digit c = leb b'0' c && leb c b'9'

abbrev skip_spaces : Bytes → Bytes
skip_spaces [] = []
skip_spaces (c ∷ s) = let rest = skip_spaces s in if is_space c then rest else c ∷ s

-- The number that the digits in front make after those before.
abbrev digits : Bytes → ℕ → ℕ
digits [] n = n
digits (c ∷ s) n = let next = digits s (n * 10 + (c - b'0')) in if is_digit c then next else n

-- Without a digit in front, or with too large a number, `std::stoull` throws.
abbrev digits_value : Bytes → Option ℕ
digits_value [] = none
digits_value (c ∷ s) =
    let n = digits (c ∷ s) 0 in if is_digit c && ltb n (2 ^ 64) then some n else none

abbrev negate : ℕ → ℕ
negate n = (2 ^ 64 - n) % 2 ^ 64

abbrev signed_value : Bytes → Option ℕ
signed_value [] = none
signed_value (c ∷ s) =
    if c == b'-'
    then (digits_value s >>= λ n. some (negate n))
    else if c == b'+'
    then digits_value s
    else digits_value (c ∷ s)

-- `std::stoull`
unfoldable pub stoull : Bytes → Option ℕ
stoull s = signed_value (skip_spaces s)

abbrev pub plus : Bytes
plus = codes "+"

module _ {D : Type 0} (add : D → D → D) (values : List D) where
  abbrev pub add_top : List D → Option (List D)
  add_top (arg1 ∷ arg2 ∷ rest) = some (add arg1 arg2 ∷ rest)
  add_top _ = none

  -- An index that is no value's is not tested, and the read faults.
  abbrev push_value : List D → Option ℕ → Option (Option (List D))
  push_value stack none = some none
  push_value stack (some i) = get_elem? values i >>= λ v. some (some (v ∷ stack))

  -- One token: it faults, or the formula is not right, or it leaves a stack with its top in front.
  unfoldable pub formula_step : Bytes → List D → Option (Option (List D))
  formula_step token stack =
      if same_bytes token plus then some (add_top stack) else push_value stack (stoull token)

  abbrev while_ok : (List D → Option (Option (List D))) → Option (List D) → Option (Option (List D))
  while_ok next none = some none
  while_ok next (some stack) = next stack

  unfoldable pub evaluate : List Bytes → List D → Option (Option (List D))
  evaluate [] stack = some (some stack)
  evaluate (token ∷ tokens) stack = formula_step token stack >>= while_ok (evaluate tokens)

module _ {D : Type 0} (zero_value : D) where
  -- A formula that is not right gives zero: the assertion there is on a string, which is always true. That
  -- one value is left is asserted too, and the assertion fails where it is not so.
  abbrev component_value : Option (List D) → Option D
  component_value none = some zero_value
  component_value (some (v ∷ [])) = some v
  component_value (some _) = none

module _ {D : Type 0} (add : D → D → D) (zero_value : D) where
  unfoldable pub calculate_component_value : Bytes → List D → Option D
  unfolding evaluate
  calculate_component_value [] values = some zero_value
  calculate_component_value (c ∷ s) values =
      evaluate add values (formula_tokens (c ∷ s)) [] >>= component_value zero_value
