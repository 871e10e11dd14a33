-- ===== src/Infra/Masking/Clean.antt =====
-- What is left of e-mail addresses and telephone numbers in a masked text.
use report_insight.Base.{
  ◌<◌, ◌≡◌, refl, false, List, [], ◌++◌, Text, codes, length, length-append, arith,
}
use report_insight.Infra.Masking.Pattern.{Unicode, email, phone}
use report_insight.Infra.Masking.Masker.{
  Token, mask_sync, persons, emails, phones, without_persons, without_emails, entries,
}
use report_insight.Infra.Masking.Stops.{Stops}
use report_insight.Infra.Masking.Sub.{Clean, Clean-Covers, self-Covers, opened, sub-Clean}
use report_insight.Infra.Masking.Addresses.{email-Stops, email-Clean, opened-NoAt}
use report_insight.Infra.Masking.Numbers.{phone-Stops, phone-Clean, opened-phone-Clean}

-- A bracket is neither a letter nor a digit.
pub record IsUnicode (u : Unicode) : Type 0 where
  pub word_open : u.is_word 91 ≡ false
  pub word_close : u.is_word 93 ≡ false
  pub digit_open : u.is_digit 91 ≡ false
  pub digit_close : u.is_digit 93 ≡ false

module _ (u : Unicode) (laws : IsUnicode u) where
  email-open : Stops 91 (email u)
  email-open =
      email-Stops u 91 (rw laws.word_open refl) refl (rw laws.word_open refl) refl
        (rw laws.word_open refl)

  email-close : Stops 93 (email u)
  email-close =
      email-Stops u 93 (rw laws.word_close refl) refl (rw laws.word_close refl) refl
        (rw laws.word_close refl)

  phone-open : Stops 91 (phone u)
  phone-open = phone-Stops u 91 laws.digit_open refl refl

  phone-close : Stops 93 (phone u)
  phone-close = phone-Stops u 93 laws.digit_close refl refl

  module _ (tokenize : Text → List Token) where
    without_emails-Clean : (t : Text) → Clean (email u) (without_emails u tokenize t)
    without_emails-Clean t =
        sub-Clean (email u) (email u) email-open email-close (codes "EMAIL")
          (length (entries (codes "EMAIL") (emails u tokenize t)))
          (λ i _.
            email-Clean u (opened (codes "EMAIL") i) (opened-NoAt (codes "EMAIL") i (ground arith)))
          0 0 (without_persons u tokenize t)
          (self-Covers (email u) (without_persons u tokenize t) (email-Clean u [] tt)) (omega arith)

    -- After masking, no e-mail address and no telephone number is left, wherever in the text one
    -- looks for it, if brackets are neither letters nor digits and fewer than 100000 things were
    -- hidden.
    pub mask_sync-Clean :
        (t : Text)
        → length (mask_sync u tokenize t).mapping < 100000
        → Clean (email u) (mask_sync u tokenize t).masked_text
          × Clean (phone u) (mask_sync u tokenize t).masked_text
    unfolding mask_sync
    mask_sync-Clean t few =
        let found = length (entries (codes "PHONE") (phones u tokenize t)) in
        let below : found < 100000 = omega (
          arith,
          length-append (entries (codes "PERSON") (persons u tokenize t)) (
              entries (codes "EMAIL") (emails u tokenize t)
              ++ entries (codes "PHONE") (phones u tokenize t)),
          length-append (entries (codes "EMAIL") (emails u tokenize t))
              (entries (codes "PHONE") (phones u tokenize t)),
        ) in
        (
          sub-Clean (phone u) (email u) email-open email-close (codes "PHONE") found
              (λ i _.
                email-Clean u (opened (codes "PHONE") i)
                  (opened-NoAt (codes "PHONE") i (ground arith)))
              0 0 (without_emails u tokenize t)
              (Clean-Covers (phone u) (email u) (without_emails u tokenize t)
                (without_emails-Clean t))
              (omega arith),
          sub-Clean (phone u) (phone u) phone-open phone-close (codes "PHONE") found
              (λ i h. opened-phone-Clean u i (omega arith)) 0 0 (without_emails u tokenize t)
              (self-Covers (phone u) (without_emails u tokenize t) (phone-Clean u [] (omega arith)))
              (omega arith),
        )
