-- ===== src/Infra/Masking/Sub.antt =====
-- What `pattern.sub` leaves: no match of the pattern, and no new match of another.
use report_insight.Base.{
  ℕ, zero, suc, ◌+◌, ◌-◌, ◌≤◌, ◌≡◌, refl, sym, ap, ◌∙◌, ◌⊎◌, inl, inr, List, [], ◌∷◌, ◌++◌, Text,
  length, take, arith, append-nil, append_assoc,
}
use report_insight.Base.Str.{decimal}
use report_insight.Infra.Masking.Pattern.{Pattern}
use report_insight.Infra.Masking.Masker.{
  Piece, kept, hidden, placeholder, render, entries, sub_pieces,
}
use report_insight.Infra.Masking.Stops.{Stops, Stops-none}

-- The pattern matches at no place of the text.
abbrev pub Clean : Pattern → Text → Type 0
Clean p [] = p [] ≡ []
Clean p (c ∷ t) = (p (c ∷ t) ≡ []) × Clean p t

-- Where the first does not match, the second does not.
abbrev pub Covers : Pattern → Pattern → Text → Type 0
Covers p q [] = q [] ≡ []
Covers p q (c ∷ t) = (p (c ∷ t) ≡ [] → q (c ∷ t) ≡ []) × Covers p q t

pub Clean-Covers : (p q : Pattern) (t : Text) → Clean q t → Covers p q t
Clean-Covers p q [] h = h
Clean-Covers p q (c ∷ t) h = (λ _. h.0, Clean-Covers p q t h.1)

pub self-Covers : (p : Pattern) (t : Text) → p [] ≡ [] → Covers p p t
self-Covers p [] h = h
self-Covers p (c ∷ t) h = (λ e. e, self-Covers p t h)

Clean-nil : (q : Pattern) (t : Text) → Clean q t → q [] ≡ []
Clean-nil q [] h = h
Clean-nil q (c ∷ t) h = Clean-nil q t h.1

Covers-nil : (p q : Pattern) (t : Text) → Covers p q t → q [] ≡ []
Covers-nil p q [] h = h
Covers-nil p q (c ∷ t) h = Covers-nil p q t h.1

pub rests-cases : (rs : List Text) → (rs ≡ []) ⊎ ((r : Text) × (more : List Text) × (rs ≡ r ∷ more))
rests-cases [] = inl refl
rests-cases (r ∷ more) = inr (r, more, refl)

-- A placeholder without its closing bracket.
abbrev pub opened : Text → ℕ → Text
opened kind n = 91 ∷ (kind ++ 95 ∷ decimal n)

placeholder-eq :
    (kind : Text) (n : ℕ) (r : Text) → placeholder kind n ++ r ≡ opened kind n ++ 93 ∷ r
unfolding placeholder
placeholder-eq kind n r = simp append_assoc

module _ (p : Pattern) where
  pub sub_pieces-none :
      (n c : ℕ) (t : Text) → p (c ∷ t) ≡ [] → sub_pieces p n 0 (c ∷ t) ≡ kept c ∷ sub_pieces p n 0 t
  unfolding sub_pieces
  sub_pieces-none n c t e = rw (e, sub_pieces)

  pub sub_pieces-some :
      (n c : ℕ) (t r : Text) (more : List Text)
      → p (c ∷ t) ≡ r ∷ more
      → sub_pieces p n 0 (c ∷ t)
        ≡ hidden (n + 1) (take (length (c ∷ t) - length r) (c ∷ t))
          ∷ sub_pieces p (n + 1) (length t - length r) t
  unfolding sub_pieces
  sub_pieces-some n c t r more e = rw (e, sub_pieces)

  -- The text, or a part of it in front of a bracket.
  abbrev Cut : Text → Text → Type 0
  Cut t out =
      (out ≡ t) ⊎ ((u : Text) × (x : Text) × (y : Text) × (out ≡ u ++ 91 ∷ x) × (t ≡ u ++ y))

  render-Cut : (kind : Text) (n : ℕ) (t : Text) → Cut t (render kind (sub_pieces p n 0 t))
  unfolding render
  render-Cut kind n [] = inl (unfold sub_pieces in refl)
  render-Cut kind n (c ∷ t) = elim (rests-cases (p (c ∷ t))) [
    | inl e ↦ rw (sub_pieces-none n c t e) (grow (render-Cut kind n t))
    | inr (r, more, e) ↦ rw (sub_pieces-some n c t r more e) (
        inr (
          [],
          (kind ++ 95 ∷ (decimal (n + 1) ++ 93 ∷ []))
              ++ render kind (sub_pieces p (n + 1) (length t - length r) t),
          c ∷ t,
          unfold placeholder in refl,
          refl,
        ))
  ]
    where
      grow :
          Cut t (render kind (sub_pieces p n 0 t))
          → Cut (c ∷ t) (c ∷ render kind (sub_pieces p n 0 t))
      grow (inl e) = inl (ap (◌∷◌ c) e)
      grow (inr (u, x, y, e, e')) = inr (c ∷ u, x, y, ap (◌∷◌ c) e, ap (◌∷◌ c) e')

  module _ (q : Pattern) (opens : Stops 91 q) (closes : Stops 93 q) where
    Cut-none : (c : ℕ) (t out : Text) → Cut t out → q (c ∷ t) ≡ [] → q (c ∷ out) ≡ []
    Cut-none c t out (inl e) h = ap (λ (s : Text). q (c ∷ s)) e ∙ h
    Cut-none c t out (inr (u, x, y, e, e')) h =
        ap (λ (s : Text). q (c ∷ s)) e
        ∙ Stops-none 91 q (c ∷ u) x y opens (ap (λ (s : Text). q (c ∷ s)) (sym e') ∙ h)

    -- A clean text stays clean in front of a bracket and another clean text.
    Clean-close : (w r : Text) → Clean q w → Clean q r → Clean q (w ++ 93 ∷ r)
    Clean-close [] r hw hr = (Stops-none 93 q [] r [] closes hw, hr)
    Clean-close (c ∷ w) r hw hr =
        (Stops-none 93 q (c ∷ w) r [] closes (rw append-nil hw.0), Clean-close w r hw.1 hr)

    render-kept :
        (kind : Text) (c : ℕ) (ps : List Piece) → render kind (kept c ∷ ps) ≡ c ∷ render kind ps
    unfolding render
    render-kept kind c ps = refl

    render-hidden :
        (kind : Text) (n : ℕ) (t : Text) (ps : List Piece)
        → render kind (hidden n t ∷ ps) ≡ placeholder kind n ++ render kind ps
    unfolding render
    render-hidden kind n t ps = refl

    -- With the placeholders up to a bound clean, so is the result.
    pub sub-Clean :
        (kind : Text) (bound : ℕ)
        → ((i : ℕ) → i ≤ bound → Clean q (opened kind i))
        → (n k : ℕ) (t : Text) → Covers p q t
        → n + length (entries kind (sub_pieces p n k t)) ≤ bound
        → Clean q (render kind (sub_pieces p n k t))
    unfolding sub_pieces
    sub-Clean kind bound holes n k [] covers few = unfold render sub_pieces in covers
    sub-Clean kind bound holes n (suc k) (c ∷ t) covers few =
        sub-Clean kind bound holes n k t covers.1 few
    sub-Clean kind bound holes n zero (c ∷ t) covers few = elim (rests-cases (p (c ∷ t))) [
      | inl e ↦
          let same = sub_pieces-none n c t e in
          let few' : n + length (entries kind (sub_pieces p n 0 t)) ≤ bound =
            unfold entries in (rw same at few) in
          rw same (
            rw render-kept (
              Cut-none c t (render kind (sub_pieces p n 0 t)) (render-Cut kind n t) (covers.0 e),
              sub-Clean kind bound holes n 0 t covers.1 few',
            ))
      | inr (r, more, e) ↦
          let same = sub_pieces-some n c t r more e in
          let k' = length t - length r in
          let few' : n + suc (length (entries kind (sub_pieces p (n + 1) k' t))) ≤ bound =
            unfold entries in (rw same at few) in
          rw same (
            rw render-hidden (
              rw placeholder-eq (
                Clean-close (opened kind (n + 1)) (render kind (sub_pieces p (n + 1) k' t))
                  (holes (n + 1) (omega arith))
                  (sub-Clean kind bound holes (n + 1) k' t covers.1 (omega arith)))))
    ]
