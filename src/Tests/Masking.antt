-- ===== src/Tests/Masking.antt =====
-- The masker on concrete texts. The tokenizer of the tests finds one name.
use report_insight.Base.{
  ◌&&◌, ◌||◌, ◌≡◌, ◌<◌, ◌⊎◌, refl, List, [], ◌∷◌, Text, codes, length, leb, arith, drop, take,
}
use report_insight.Base.Str.{decimal}
use report_insight.Domain.{ok}
use report_insight.Ingest.Service.{Ports, ingest_from_key}
use report_insight.Ingest.Privacy.{classified}
use report_insight.Ingest.Contacts.{UsesMasker, NoContacts, ingest_sends-NoContacts}
use report_insight.Infra.Masking.Pattern.{Unicode, email, phone}
use report_insight.Infra.Masking.Masker.{Token, mask_sync}
use report_insight.Infra.Masking.Sub.{Clean}
use report_insight.Infra.Masking.Clean.{IsUnicode, mask_sync-Clean}
use report_insight.Tests.{world, ports}

abbrev ascii : Unicode
ascii = record {
  is_digit = λ c. leb 48 c && leb c 57;
  is_word = λ c. leb 48 c && leb c 57 || leb 65 c && leb c 90 || leb 97 c && leb c 122;
}

ascii-IsUnicode : IsUnicode ascii
ascii-IsUnicode = record {
  word_open = refl;
  word_close = refl;
  digit_open = refl;
  digit_close = refl;
}

-- The first three characters are a name.
abbrev one_name : Text → List Token
one_name t =
    record { surface = take 3 t; part_of_speech = "名詞" ∷ "固有名詞" ∷ "人名" ∷ [] }
    ∷ record { surface = drop 3 t; part_of_speech = "助詞" ∷ [] }
    ∷ []

abbrev contact : Text
contact = codes "Bob: 03-1234-5678 or a.b@c.example, 00"

masks : mask_sync ascii one_name contact ≡ record {
  masked_text = codes "[PERSON_1]: [PHONE_1] or [EMAIL_1], 00";
  mapping =
      (codes "[PERSON_1]", codes "Bob")
      ∷ (codes "[EMAIL_1]", codes "a.b@c.example")
      ∷ (codes "[PHONE_1]", codes "03-1234-5678")
      ∷ [];
}
unfolding mask_sync decimal
masks = refl

few : length (mask_sync ascii one_name contact).mapping < 100000
few = rw masks (omega arith)

mask_sync-Clean_example :
    Clean (email ascii) (mask_sync ascii one_name contact).masked_text
    × Clean (phone ascii) (mask_sync ascii one_name contact).masked_text
mask_sync-Clean_example = mask_sync-Clean ascii ascii-IsUnicode one_name contact few

abbrev masking_ports : Ports
masking_ports = record ports { mask = λ t. ok (mask_sync ascii one_name t) }

masking_ports-UsesMasker : UsesMasker ascii one_name masking_ports
masking_ports-UsesMasker = record { masks = λ t. refl; normalizes = λ t. refl }

ingest_sends-NoContacts_example :
    (classified (ingest_from_key masking_ports "k" world).1.effects ≡ [])
    ⊎ ((sent : Text) × (classified (ingest_from_key masking_ports "k" world).1.effects ≡ sent ∷ [])
        × NoContacts ascii one_name sent)
ingest_sends-NoContacts_example =
    ingest_sends-NoContacts ascii one_name masking_ports "k" world ascii-IsUnicode
      masking_ports-UsesMasker
