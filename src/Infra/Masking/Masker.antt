-- ===== src/Infra/Masking/Masker.antt =====
-- `PIIMasker._mask_sync` of app/infra/masking/pii.py. The tokenizer is a library's, and a parameter.
use report_insight.Base.{
  ℕ, zero, suc, ◌+◌, ◌-◌, String, str_eq, Bool, false, ◌&&◌, List, [], ◌∷◌, ◌++◌, Text, codes,
  length, take, if◌then◌else◌,
}
use report_insight.Base.Str.{decimal}
use report_insight.Domain.{MaskingResult}
use report_insight.Infra.Masking.Pattern.{Unicode, Pattern, email, phone}

pub record Token : Type 0 where
  pub surface : Text
  pub part_of_speech : List String

-- A part of a masked text: a character that stays, or the n-th placeholder and what it stands for.
pub data Piece : Type 0 where
  kept : ℕ → Piece
  hidden : ℕ → Text → Piece

-- `f"[{kind}_{counters[kind]}]"`
unfoldable pub placeholder : Text → ℕ → Text
placeholder kind n = 91 ∷ (kind ++ 95 ∷ (decimal n ++ 93 ∷ []))

unfoldable pub render : Text → List Piece → Text
render kind [] = []
render kind (kept c ∷ ps) = c ∷ render kind ps
render kind (hidden n t ∷ ps) = placeholder kind n ++ render kind ps

-- The entries that `_placeholder` adds to the mapping.
unfoldable pub entries : Text → List Piece → List (Text × Text)
entries kind [] = []
entries kind (kept c ∷ ps) = entries kind ps
entries kind (hidden n t ∷ ps) = (placeholder kind n, t) ∷ entries kind ps

-- `len(pos) >= 3 and pos[1] == "固有名詞" and pos[2] == "人名"`
abbrev pub is_person : List String → Bool
is_person (_ ∷ p ∷ q ∷ _) = str_eq p "固有名詞" && str_eq q "人名"
is_person _ = false

abbrev pub keep : Text → List Piece → List Piece
keep [] ps = ps
keep (c ∷ t) ps = kept c ∷ keep t ps

-- The loop over the tokens, behind n placeholders.
unfoldable pub person_pieces : ℕ → List Token → List Piece
person_pieces n [] = []
person_pieces n (t ∷ ts) =
    let masked = hidden (n + 1) t.surface ∷ person_pieces (n + 1) ts in
    let plain = keep t.surface (person_pieces n ts) in
    if is_person t.part_of_speech then masked else plain

-- `pattern.sub`, behind n placeholders, and with characters left of a match. A match that is found
-- takes its characters: the first is taken here, the others are skipped.
unfoldable pub sub_pieces : Pattern → ℕ → ℕ → Text → List Piece
sub_pieces p n k [] = []
sub_pieces p n (suc k) (c ∷ t) = sub_pieces p n k t
sub_pieces p n zero (c ∷ t) = elim (p (c ∷ t)) [
  | [] ↦ kept c ∷ sub_pieces p n zero t
  | rest ∷ _ ↦
      hidden (n + 1) (take (length (c ∷ t) - length rest) (c ∷ t))
      ∷ sub_pieces p (n + 1) (length t - length rest) t
]

module _ (u : Unicode) (tokenize : Text → List Token) where
  abbrev pub persons : Text → List Piece
  persons t = person_pieces 0 (tokenize t)

  abbrev pub without_persons : Text → Text
  without_persons t = render (codes "PERSON") (persons t)

  abbrev pub emails : Text → List Piece
  emails t = sub_pieces (email u) 0 0 (without_persons t)

  abbrev pub without_emails : Text → Text
  without_emails t = render (codes "EMAIL") (emails t)

  abbrev pub phones : Text → List Piece
  phones t = sub_pieces (phone u) 0 0 (without_emails t)

  -- The keys of the mapping are distinct, so that it is a list.
  unfoldable pub mask_sync : Text → MaskingResult
  unfolding render entries person_pieces sub_pieces email phone placeholder
  mask_sync t = record {
    masked_text = render (codes "PHONE") (phones t);
    mapping =
        entries (codes "PERSON") (persons t)
        ++ (entries (codes "EMAIL") (emails t) ++ entries (codes "PHONE") (phones t));
  }
