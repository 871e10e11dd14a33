-- ===== src/Infra/Masking/Pattern.antt =====
-- The two regular expressions of app/infra/masking/pii.py, as Python's `re` tries them. A pattern maps
-- a text to what may be left behind a match at its start, the preferred match first.
use report_insight.Base.{
  ℕ, zero, suc, Bool, ◌||◌, ◌==◌, List, [], ◌∷◌, ◌++◌, Text, any, if◌then◌else◌,
}

-- What `\w` and `\d` match.
pub record Unicode : Type 0 where
  pub is_word : ℕ → Bool
  pub is_digit : ℕ → Bool

abbrev pub Pattern : Type 0
Pattern = Text → List Text

-- The second pattern behind each match of the first.
abbrev pub each_rest : Pattern → List Text → List Text
each_rest q [] = []
each_rest q (t ∷ ts) = q t ++ each_rest q ts

-- The patterns one behind the other.
unfoldable pub sequence : List Pattern → Pattern
sequence [] t = t ∷ []
sequence (p ∷ ps) t = each_rest (sequence ps) (p t)

-- `[…]`
abbrev pub one : (ℕ → Bool) → Pattern
one p [] = []
one p (c ∷ t) = if p c then t ∷ [] else []

-- `[…]{n}`
unfoldable pub times : ℕ → (ℕ → Bool) → Pattern
times zero p t = t ∷ []
times (suc n) p [] = []
times (suc n) p (c ∷ t) = if p c then times n p t else []

-- `[…]{0,n}`, greedy
unfoldable pub up_to : ℕ → (ℕ → Bool) → Pattern
up_to zero p t = t ∷ []
up_to (suc n) p [] = [] ∷ []
up_to (suc n) p (c ∷ t) = if p c then up_to n p t ++ (c ∷ t) ∷ [] else (c ∷ t) ∷ []

-- `[…]+`, greedy
unfoldable pub plus : (ℕ → Bool) → Pattern
plus p [] = []
plus p (c ∷ t) = if p c then plus p t ++ t ∷ [] else []

module _ (u : Unicode) where
  abbrev pub local_char : ℕ → Bool
  local_char c = u.is_word c || any (◌==◌ c) (b'.' ∷ b'+' ∷ b'-' ∷ [])

  abbrev pub host_char : ℕ → Bool
  host_char c = u.is_word c || c == b'-'

  abbrev pub domain_char : ℕ → Bool
  domain_char c = u.is_word c || any (◌==◌ c) (b'.' ∷ b'-' ∷ [])

  abbrev pub email_parts : List Pattern
  email_parts =
      plus local_char
      ∷ one (λ c. c == b'@')
      ∷ plus host_char
      ∷ one (λ c. c == b'.')
      ∷ plus domain_char
      ∷ []

  -- `_EMAIL_RE`
  unfoldable pub email : Pattern
  unfolding plus sequence
  email = sequence email_parts

  -- `{1,4}` is one digit and up to three, `{3,4}` three and up to one.
  abbrev pub phone_parts : List Pattern
  phone_parts =
      one (λ c. c == b'0')
      ∷ times 1 u.is_digit
      ∷ up_to 3 u.is_digit
      ∷ up_to 1 (λ c. c == b'-')
      ∷ times 1 u.is_digit
      ∷ up_to 3 u.is_digit
      ∷ up_to 1 (λ c. c == b'-')
      ∷ times 3 u.is_digit
      ∷ up_to 1 u.is_digit
      ∷ []

  -- `_PHONE_RE`
  unfoldable pub phone : Pattern
  unfolding times up_to sequence
  phone = sequence phone_parts
