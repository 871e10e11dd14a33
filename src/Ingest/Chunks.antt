-- ===== src/Ingest/Chunks.antt =====
-- `_build_chunks` of app/services/ingest.py, and the properties of the chunks.
use report_insight.Base.{
  ◌≡◌, ◌<◌, ◌⊎◌, refl, false, List, [], ◌∷◌, ◌++◌, is_empty, Text, length, leb, All, arith,
  if◌then◌else◌, Bool-cases, inl, inr,
}
use report_insight.Base.Str.{strip, split_blank_lines}
use report_insight.Domain.{long_text_chars}

-- `[p.strip() for p in raw_text.split("\n\n") if p.strip()]`
unfoldable pub nonblank : List Text → List Text
unfolding strip
nonblank [] = []
nonblank (p ∷ ps) = if is_empty (strip p) then nonblank ps else strip p ∷ nonblank ps

unfoldable pub paragraphs : Text → List Text
unfolding nonblank split_blank_lines
paragraphs raw_text = nonblank (split_blank_lines raw_text)

-- The summary, a blank line and the text.
abbrev pub headed : Text → Text → Text
headed summary t = summary ++ 10 ∷ 10 ∷ t

-- The chunks of a long text, from its paragraphs.
abbrev pub from_paragraphs : Text → Text → List Text → List Text
from_paragraphs summary raw_text [] = headed summary raw_text ∷ []
from_paragraphs summary raw_text (p ∷ ps) = headed summary p ∷ ps

unfoldable pub build_chunks : Text → Text → List Text
unfolding paragraphs
build_chunks summary raw_text =
    if leb (length raw_text) long_text_chars
    then headed summary raw_text ∷ []
    else from_paragraphs summary raw_text (paragraphs raw_text)

-- A chunk that is a paragraph of its own: stripped, and not empty.
abbrev pub Paragraph : Text → Type 0
Paragraph t = (p : Text) × (t ≡ strip p) × (is_empty t ≡ false)

All-nonblank : (ps : List Text) → All Paragraph (nonblank ps)
unfolding nonblank
All-nonblank [] = tt
All-nonblank (p ∷ ps) = elim (Bool-cases (is_empty (strip p))) [
  | inl blank ↦ rw blank (All-nonblank ps)
  | inr text ↦ rw text ((p, refl, text), All-nonblank ps)
]

-- The chunks of a long text.
from_paragraphs_shape :
    (summary raw_text : Text) (ps : List Text)
    → All Paragraph ps
    → (first : Text) × (rest : List Text) × (from_paragraphs summary raw_text ps
        ≡ headed summary first ∷ rest)
      × All Paragraph rest
from_paragraphs_shape summary raw_text [] h = (raw_text, [], refl, tt)
from_paragraphs_shape summary raw_text (p ∷ ps) h = (p, ps, refl, h.1)

-- A report has at least one chunk. The first holds the summary, a blank line and a part of the
-- report; unless the text has more than 1500 characters there is no other chunk, and that one holds
-- the whole text; and every later chunk is a stripped paragraph that is not empty.
pub build_chunks_shape :
    (summary raw_text : Text)
    → (first : Text) × (rest : List Text) × (build_chunks summary raw_text
        ≡ headed summary first ∷ rest)
      × All Paragraph rest
      × (((first ≡ raw_text) × (rest ≡ [])) ⊎ (long_text_chars < length raw_text))
unfolding build_chunks
build_chunks_shape summary raw_text = elim (Bool-cases (leb (length raw_text) long_text_chars)) [
  | inl short ↦ (raw_text, [], rw short, tt, inl (refl, refl))
  | inr long ↦
      let (first, rest, e, all) =
        from_paragraphs_shape summary raw_text (paragraphs raw_text)
          (unfold paragraphs in All-nonblank (split_blank_lines raw_text)) in
      (first, rest, rw long e, all, inr (ground arith))
]
