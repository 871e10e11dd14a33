-- ===== src/Infra/Masking/Addresses.antt =====
-- No `@`, no e-mail address.
use report_insight.Base.{
  ℕ, zero, suc, ◌+◌, ◌/◌, ◌%◌, ◌<◌, ◌≡◌, refl, Bool, false, List, [], ◌∷◌, Text, All, All-append,
  Bool-cases, inl, inr, ◌==◌, ltb, arith,
}
use report_insight.Base.Str.{decimal, decimal_from}
use report_insight.Infra.Masking.Pattern.{
  Unicode, Pattern, one, plus, each_rest, sequence, email_parts, email, local_char, host_char,
  domain_char,
}
use report_insight.Infra.Masking.Stops.{Stops, one-Stops, plus-Stops, sequence-Stops}
use report_insight.Infra.Masking.Sub.{Clean, opened}

module _ (u : Unicode) (b : ℕ) where
  pub email-Stops :
      local_char u b ≡ false
      → (b == b'@') ≡ false
      → host_char u b ≡ false
      → (b == b'.') ≡ false
      → domain_char u b ≡ false
      → Stops b (email u)
  unfolding email
  email-Stops local at host dot domain = sequence-Stops b (email_parts u) (
    plus-Stops b (local_char u) local,
    (
      one-Stops b (λ c. c == b'@') at,
      (
        plus-Stops b (host_char u) host,
        (one-Stops b (λ c. c == b'.') dot, (plus-Stops b (domain_char u) domain, tt)),
      ),
    ),
  )

-- The characters of a decimal number.
pub decimal_from-All :
    (P : ℕ → Type 0) (fuel n : ℕ) → ((d : ℕ) → d < 10 → P (48 + d)) → All P (decimal_from fuel n)
unfolding decimal_from
decimal_from-All P zero n h = tt
decimal_from-All P (suc fuel) n h = elim (Bool-cases (ltb n 10)) [
  | inl e ↦ rw e (h n (ground arith), tt)
  | inr e ↦ rw e (
      All-append P (decimal_from fuel (n / 10)) ((48 + n % 10) ∷ [])
        (decimal_from-All P fuel (n / 10) h) (h (n % 10) (omega arith), tt))
]

-- No character is an `@`.
abbrev pub NoAt : Text → Type 0
NoAt = All (λ c. (c == b'@') ≡ false)

plus-NoAt : (p : ℕ → Bool) (t : Text) → NoAt t → All NoAt (plus p t)
unfolding plus
plus-NoAt p [] h = tt
plus-NoAt p (c ∷ t) h = elim (Bool-cases (p c)) [
  | inl e ↦ rw e (All-append NoAt (plus p t) (t ∷ []) (plus-NoAt p t h.1) (h.1, tt))
  | inr e ↦ rw e tt
]

at-NoAt :
    (ps : List Pattern) (ts : List Text)
    → All NoAt ts
    → each_rest (sequence (one (λ c. c == b'@') ∷ ps)) ts ≡ []
unfolding sequence
at-NoAt ps [] h = refl
at-NoAt ps ([] ∷ ts) h = at-NoAt ps ts h.1
at-NoAt ps ((c ∷ t) ∷ ts) h = rw h.0.0 (at-NoAt ps ts h.1)

email-NoAt : (u : Unicode) (t : Text) → NoAt t → email u t ≡ []
unfolding email sequence
email-NoAt u t h =
    at-NoAt (plus (host_char u) ∷ one (λ c. c == b'.') ∷ plus (domain_char u) ∷ [])
      (plus (local_char u) t) (plus-NoAt (local_char u) t h)

pub email-Clean : (u : Unicode) (t : Text) → NoAt t → Clean (email u) t
email-Clean u [] h = email-NoAt u [] h
email-Clean u (c ∷ t) h = (email-NoAt u (c ∷ t) h, email-Clean u t h.1)

pub opened-NoAt : (kind : Text) (n : ℕ) → NoAt kind → NoAt (opened kind n)
unfolding decimal
opened-NoAt kind n h = (
  refl,
  All-append (λ c. (c == b'@') ≡ false) kind (95 ∷ decimal n) h
      (refl, decimal_from-All (λ c. (c == b'@') ≡ false) (n + 1) n (λ d below. ground arith)),
)
