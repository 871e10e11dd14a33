-- ===== src/Infra/Masking/Restore.antt =====
-- What masking keeps and what it hides, in order, are the text.
use report_insight.Base.{
  ℕ, zero, suc, ◌+◌, ◌-◌, ◌≤◌, ◌≡◌, refl, ap, ◌∙◌, Bool-cases, inl, inr, List, [], ◌∷◌, ◌++◌, Text,
  length, take, drop, take-append-drop, All, All-imp, arith,
}
use report_insight.Infra.Masking.Pattern.{Unicode, Pattern, email, phone}
use report_insight.Infra.Masking.Masker.{
  Token, Piece, kept, hidden, keep, is_person, person_pieces, sub_pieces, persons, emails, phones,
  without_persons, without_emails,
}
use report_insight.Infra.Masking.Sub.{rests-cases, sub_pieces-none, sub_pieces-some}
use report_insight.Infra.Masking.Numbers.{Takes, email-Takes, phone-Takes}

-- What the pieces keep and what they hide.
abbrev pub restore : List Piece → Text
restore [] = []
restore (kept c ∷ ps) = c ∷ restore ps
restore (hidden n t ∷ ps) = t ++ restore ps

-- The surfaces of the tokens, one behind the other.
abbrev pub surfaces : List Token → Text
surfaces [] = []
surfaces (t ∷ ts) = t.surface ++ surfaces ts

restore-keep : (t : Text) (ps : List Piece) → restore (keep t ps) ≡ t ++ restore ps
restore-keep [] ps = refl
restore-keep (c ∷ t) ps = ap (◌∷◌ c) (restore-keep t ps)

restore-person_pieces : (n : ℕ) (ts : List Token) → restore (person_pieces n ts) ≡ surfaces ts
unfolding person_pieces
restore-person_pieces n [] = refl
restore-person_pieces n (t ∷ ts) = elim (Bool-cases (is_person t.part_of_speech)) [
  | inl e ↦ rw e (ap (λ s. t.surface ++ s) (restore-person_pieces (n + 1) ts))
  | inr e ↦ rw e (
      restore-keep t.surface (person_pieces n ts)
      ∙ ap (λ s. t.surface ++ s) (restore-person_pieces n ts))
]

restore-sub_pieces :
    (p : Pattern) (takes : Takes 1 p) (n k : ℕ) (t : Text) → restore (sub_pieces p n k t) ≡ drop k t
restore-sub_pieces p takes n zero [] = unfold sub_pieces in refl
restore-sub_pieces p takes n (suc k) [] = unfold sub_pieces in refl
restore-sub_pieces p takes n (suc k) (c ∷ t) = skip (restore-sub_pieces p takes n k t)
  where
    skip :
        restore (sub_pieces p n k t) ≡ drop k t
        → restore (sub_pieces p n (suc k) (c ∷ t)) ≡ drop k t
    skip h = unfold sub_pieces in h
restore-sub_pieces p takes n zero (c ∷ t) = elim (rests-cases (p (c ∷ t))) [
  | inl e ↦ rw (sub_pieces-none p n c t e) (ap (◌∷◌ c) (restore-sub_pieces p takes n 0 t))
  | inr (r, more, e) ↦
      let shorter : length r ≤ length t = first_shorter r more e (takes (c ∷ t)) in
      let count : length (c ∷ t) - length r ≡ suc (length t - length r) = omega arith in
      rw (sub_pieces-some p n c t r more e) (
        rw count (
          ap (λ s. c ∷ take (length t - length r) t ++ s)
            (restore-sub_pieces p takes (n + 1) (length t - length r) t)
          ∙ ap (◌∷◌ c) (take-append-drop (length t - length r) t)))
]
  where
    first_shorter :
        (r : Text) (more : List Text)
        → p (c ∷ t) ≡ r ∷ more
        → All (λ s. length s + 1 ≤ length (c ∷ t)) (p (c ∷ t))
        → length r ≤ length t
    first_shorter r more e h = first (rw e at h)
      where
        first : All (λ s. length s + 1 ≤ length (c ∷ t)) (r ∷ more) → length r ≤ length t
        first h = omega (arith, h.0)

less : (k : ℕ) (p : Pattern) → Takes (suc k) p → Takes 1 p
less k p takes t =
    All-imp (λ r. length r + suc k ≤ length t) (λ r. length r + 1 ≤ length t) (p t)
      (λ r h. omega arith) (takes t)

-- At each of the three stages, what is kept and what is hidden, in order, are the text before the stage,
-- the surfaces of the tokens at first.
pub mask_restores :
    (u : Unicode) (tokenize : Text → List Token) (t : Text)
    → (restore (persons u tokenize t) ≡ surfaces (tokenize t))
      × (restore (emails u tokenize t) ≡ without_persons u tokenize t)
      × (restore (phones u tokenize t) ≡ without_emails u tokenize t)
mask_restores u tokenize t = (
  restore-person_pieces 0 (tokenize t),
  restore-sub_pieces (email u) (less 4 (email u) (email-Takes u)) 0 0
      (without_persons u tokenize t),
  restore-sub_pieces (phone u) (less 5 (phone u) (phone-Takes u)) 0 0 (without_emails u tokenize t),
)
