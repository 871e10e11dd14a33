-- ===== src/Infra/Masking/Numbers.antt =====
-- No six characters, no telephone number.
use report_insight.Base.{
  ℕ, zero, suc, ◌+◌, ◌*◌, ◌/◌, ◌%◌, ◌≤◌, ◌<◌, ◌≡◌, refl, Bool, false, List, [], ◌∷◌, Text, codes,
  length, length-append, All, All-append, All-imp, Bool-cases, inl, inr, ◌==◌, ltb, arith,
}
use report_insight.Base.Str.{decimal, decimal_from}
use report_insight.Infra.Masking.Pattern.{
  Unicode, Pattern, one, times, up_to, plus, each_rest, sequence, email_parts, phone_parts, email,
  phone, local_char, host_char, domain_char,
}
use report_insight.Infra.Masking.Stops.{Stops, one-Stops, times-Stops, up_to-Stops, sequence-Stops}
use report_insight.Infra.Masking.Sub.{Clean, opened}

module _ (u : Unicode) (b : ℕ) where
  pub phone-Stops :
      u.is_digit b ≡ false → (b == b'0') ≡ false → (b == b'-') ≡ false → Stops b (phone u)
  unfolding phone
  phone-Stops digit null dash =
      let some_digits = up_to-Stops b u.is_digit digit in
      let digits = times-Stops b u.is_digit digit in
      let hyphen = up_to-Stops b (λ c. c == b'-') dash 1 in
      sequence-Stops b (phone_parts u) (
        one-Stops b (λ c. c == b'0') null,
        (
          digits 1,
          (
            some_digits 3,
            (hyphen, (digits 1, (some_digits 3, (hyphen, (digits 3, (some_digits 1, tt)))))),
          ),
        ),
      )

-- A pattern takes so many characters at least.
abbrev pub Takes : ℕ → Pattern → Type 0
Takes k p = (t : Text) → All (λ r. length r + k ≤ length t) (p t)

each_rest-Takes :
    (j k m : ℕ) (q : Pattern) (ts : List Text)
    → Takes k q
    → All (λ r. length r + j ≤ m) ts
    → All (λ r. length r + (j + k) ≤ m) (each_rest q ts)
each_rest-Takes j k m q [] takes h = tt
each_rest-Takes j k m q (t ∷ ts) takes h =
    All-append (λ r. length r + (j + k) ≤ m) (q t) (each_rest q ts)
      (All-imp (λ r. length r + k ≤ length t) (λ r. length r + (j + k) ≤ m) (q t)
        (λ r below. omega arith) (takes t))
      (each_rest-Takes j k m q ts takes h.1)

abbrev pub TakesEach : List ℕ → List Pattern → Type 0
TakesEach (k ∷ ks) (p ∷ ps) = Takes k p × TakesEach ks ps
TakesEach [] [] = Unit
TakesEach _ _ = ⊥

abbrev pub total : List ℕ → ℕ
total [] = 0
total (k ∷ ks) = k + total ks

pub sequence-Takes :
    (ks : List ℕ) (ps : List Pattern) → TakesEach ks ps → Takes (total ks) (sequence ps)
unfolding sequence
sequence-Takes [] [] h t = (omega arith, tt)
sequence-Takes [] (p ∷ ps) h t = absurd h
sequence-Takes (k ∷ ks) [] h t = absurd h
sequence-Takes (k ∷ ks) (p ∷ ps) h t =
    each_rest-Takes k (total ks) (length t) (sequence ps) (p t) (sequence-Takes ks ps h.1) (h.0 t)

pub one-Takes : (p : ℕ → Bool) → Takes 1 (one p)
one-Takes p [] = tt
one-Takes p (c ∷ t) = elim (Bool-cases (p c)) [ inl e ↦ rw e (omega arith, tt) | inr e ↦ rw e tt ]

times-Takes : (n : ℕ) (p : ℕ → Bool) → Takes n (times n p)
unfolding times
times-Takes zero p t = (omega arith, tt)
times-Takes (suc n) p [] = tt
times-Takes (suc n) p (c ∷ t) = elim (Bool-cases (p c)) [
  | inl e ↦ rw e (
      All-imp (λ r. length r + n ≤ length t) (λ r. length r + suc n ≤ suc (length t)) (times n p t)
        (λ r h. omega arith) (times-Takes n p t))
  | inr e ↦ rw e tt
]

plus-Takes : (p : ℕ → Bool) → Takes 1 (plus p)
unfolding plus
plus-Takes p [] = tt
plus-Takes p (c ∷ t) = elim (Bool-cases (p c)) [
  | inl e ↦ rw e (
      All-append (λ r. length r + 1 ≤ suc (length t)) (plus p t) (t ∷ [])
        (All-imp (λ r. length r + 1 ≤ length t) (λ r. length r + 1 ≤ suc (length t)) (plus p t)
          (λ r h. omega arith) (plus-Takes p t))
        (omega arith, tt))
  | inr e ↦ rw e tt
]

pub email-Takes : (u : Unicode) → Takes 5 (email u)
unfolding email
email-Takes u = sequence-Takes (1 ∷ 1 ∷ 1 ∷ 1 ∷ 1 ∷ []) (email_parts u) (
  plus-Takes (local_char u),
  (
    one-Takes (λ c. c == b'@'),
    (plus-Takes (host_char u), (one-Takes (λ c. c == b'.'), (plus-Takes (domain_char u), tt))),
  ),
)

up_to-Takes : (n : ℕ) (p : ℕ → Bool) → Takes 0 (up_to n p)
unfolding up_to
up_to-Takes zero p t = (omega arith, tt)
up_to-Takes (suc n) p [] = (omega arith, tt)
up_to-Takes (suc n) p (c ∷ t) = elim (Bool-cases (p c)) [
  | inl e ↦ rw e (
      All-append (λ r. length r + 0 ≤ suc (length t)) (up_to n p t) ((c ∷ t) ∷ [])
        (All-imp (λ r. length r + 0 ≤ length t) (λ r. length r + 0 ≤ suc (length t)) (up_to n p t)
          (λ r h. omega arith) (up_to-Takes n p t))
        (omega arith, tt))
  | inr e ↦ rw e (omega arith, tt)
]

pub phone-Takes : (u : Unicode) → Takes 6 (phone u)
unfolding phone
phone-Takes u =
    let d = u.is_digit in
    let hyphen = up_to-Takes 1 (λ c. c == b'-') in
    sequence-Takes (1 ∷ 1 ∷ 0 ∷ 0 ∷ 1 ∷ 0 ∷ 0 ∷ 3 ∷ 0 ∷ []) (phone_parts u) (
      one-Takes (λ c. c == b'0'),
      (
        times-Takes 1 d,
        (
          up_to-Takes 3 d,
          (
            hyphen,
            (
              times-Takes 1 d,
              (up_to-Takes 3 d, (hyphen, (times-Takes 3 d, (up_to-Takes 1 d, tt)))),
            ),
          ),
        ),
      ),
    )

too_short : (k m : ℕ) (rs : List Text) → m < k → All (λ r. length r + k ≤ m) rs → rs ≡ []
too_short k m [] short h = refl
too_short k m (r ∷ rs) short h = absurd (omega arith)

pub phone-Clean : (u : Unicode) (t : Text) → length t < 6 → Clean (phone u) t
phone-Clean u [] short = too_short 6 0 (phone u []) short (phone-Takes u [])
phone-Clean u (c ∷ t) short = (
  too_short 6 (length (c ∷ t)) (phone u (c ∷ t)) short (phone-Takes u (c ∷ t)),
  phone-Clean u t (omega arith),
)

abbrev power_of_ten : ℕ → ℕ
power_of_ten zero = 1
power_of_ten (suc d) = 10 * power_of_ten d

-- A number below 10 ^ d has at most d digits, if d is not 0.
length-decimal_from-le :
    (d fuel n : ℕ) → n < power_of_ten (suc d) → length (decimal_from fuel n) ≤ suc d
unfolding decimal_from
length-decimal_from-le d zero n h = omega arith
length-decimal_from-le zero (suc fuel) n h = elim (Bool-cases (ltb n 10)) [
  | inl e ↦ rw e (omega arith)
  | inr e ↦ absurd (ground arith)
]
length-decimal_from-le (suc d) (suc fuel) n h = elim (Bool-cases (ltb n 10)) [
  | inl e ↦ rw e (omega arith)
  | inr e ↦ rw e (
      omega (
        arith,
        length-append (decimal_from fuel (n / 10)) ((48 + n % 10) ∷ []),
        length-decimal_from-le d fuel (n / 10),
      ))
]

-- A placeholder behind fewer than 100000 others holds no telephone number.
pub opened-phone-Clean :
    (u : Unicode) (n : ℕ) → n < 100000 → Clean (phone u) (opened (codes "PHONE") n)
unfolding phone decimal
opened-phone-Clean u n small =
    let short : length (decimal n) < 6 = omega (arith, length-decimal_from-le 4 (n + 1) n) in
    (refl, (refl, (refl, (refl, (refl, (refl, (refl, phone-Clean u (decimal n) short)))))))
