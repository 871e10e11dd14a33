-- ===== src/Infra/Masking/Stops.antt =====
-- A character that a pattern never takes ends every match: what matches before the character matches
-- whatever follows.
use report_insight.Base.{
  ℕ, zero, suc, ◌≡◌, refl, sym, ap, ◌∙◌, subst, inl, inr, Bool, false, List, [], ◌∷◌, ◌++◌, map,
  Text, All, All-append, All-imp, Any, Bool-cases,
}
use report_insight.Infra.Masking.Pattern.{Pattern, one, times, up_to, plus, each_rest, sequence}

abbrev pub Mem : Text → List Text → Type 0
Mem t = Any (λ s. s ≡ t)

Mem-append_left : (t : Text) (xs ys : List Text) → Mem t xs → Mem t (xs ++ ys)
Mem-append_left t [] ys m = absurd m
Mem-append_left t (x ∷ xs) ys (inl e) = inl e
Mem-append_left t (x ∷ xs) ys (inr m) = inr (Mem-append_left t xs ys m)

Mem-append_right : (t : Text) (xs ys : List Text) → Mem t ys → Mem t (xs ++ ys)
Mem-append_right t [] ys m = m
Mem-append_right t (x ∷ xs) ys m = inr (Mem-append_right t xs ys m)

Mem-each_rest :
    (q : Pattern) (s t : Text) (ts : List Text) → Mem s ts → Mem t (q s) → Mem t (each_rest q ts)
Mem-each_rest q s t [] m n = absurd m
Mem-each_rest q s t (r ∷ ts) (inl e) n =
    Mem-append_left t (q r) (each_rest q ts) (subst (λ (x : Text). Mem t (q x)) (sym e) n)
Mem-each_rest q s t (r ∷ ts) (inr m) n =
    Mem-append_right t (q r) (each_rest q ts) (Mem-each_rest q s t ts m n)

-- The rests of one text, each with `b ∷ x` behind it; with `y` instead they are rests of another.
abbrev Before : ℕ → Text → Text → List Text → List Text → Type 0
Before b x y rs ss =
    (us : List Text) × (rs ≡ map (λ (v : Text). v ++ b ∷ x) us)
    × All (λ (v : Text). Mem (v ++ y) ss) us

abbrev pub Stops : ℕ → Pattern → Type 0
Stops b p = (u x y : Text) → Before b x y (p (u ++ b ∷ x)) (p (u ++ y))

map-append_texts : (f : Text → Text) (xs ys : List Text) → map f (xs ++ ys) ≡ map f xs ++ map f ys
map-append_texts f [] ys = refl
map-append_texts f (x ∷ xs) ys = ap (◌∷◌ (f x)) (map-append_texts f xs ys)

Before-append :
    (b : ℕ) (x y : Text) (rs rs' ss ss' : List Text)
    → Before b x y rs ss
    → Before b x y rs' ss'
    → Before b x y (rs ++ rs') (ss ++ ss')
Before-append b x y rs rs' ss ss' (us, e, m) (us', e', m') = (
  us ++ us',
  cc (e, e', map-append_texts (λ (v : Text). v ++ b ∷ x) us us'),
  All-append (λ (v : Text). Mem (v ++ y) (ss ++ ss')) us us'
      (All-imp (λ (v : Text). Mem (v ++ y) ss) (λ (v : Text). Mem (v ++ y) (ss ++ ss')) us
        (λ v. Mem-append_left (v ++ y) ss ss') m)
      (All-imp (λ (v : Text). Mem (v ++ y) ss') (λ (v : Text). Mem (v ++ y) (ss ++ ss')) us'
        (λ v. Mem-append_right (v ++ y) ss ss') m'),
)

module _ (b : ℕ) where
  each_rest-Before :
      (q : Pattern) (x y : Text) (us ss : List Text)
      → Stops b q
      → All (λ (v : Text). Mem (v ++ y) ss) us
      → Before b x y (each_rest q (map (λ (v : Text). v ++ b ∷ x) us)) (each_rest q ss)
  each_rest-Before q x y [] ss stops m = ([], refl, tt)
  each_rest-Before q x y (u ∷ us) ss stops m =
      let (vs, e, n) = stops u x y in
      let (ws, e', n') = each_rest-Before q x y us ss stops m.1 in
      (
        vs ++ ws,
        cc (e, e', map-append_texts (λ (v : Text). v ++ b ∷ x) vs ws),
        All-append (λ (v : Text). Mem (v ++ y) (each_rest q ss)) vs ws
            (All-imp (λ (v : Text). Mem (v ++ y) (q (u ++ y)))
              (λ (v : Text). Mem (v ++ y) (each_rest q ss)) vs
              (λ v. Mem-each_rest q (u ++ y) (v ++ y) ss m.0) n)
            n',
      )

  pub sequence-Stops : (ps : List Pattern) → All (Stops b) ps → Stops b (sequence ps)
  unfolding sequence
  sequence-Stops [] h u x y = (u ∷ [], refl, (inl refl, tt))
  sequence-Stops (p ∷ ps) h u x y =
      let (us, e, m) = h.0 u x y in
      let (ws, e', n) =
        each_rest-Before (sequence ps) x y us (p (u ++ y)) (sequence-Stops ps h.1) m in
      (ws, ap (each_rest (sequence ps)) e ∙ e', n)

  module _ (p : ℕ → Bool) (refused : p b ≡ false) where
    pub one-Stops : Stops b (one p)
    one-Stops [] x y = ([], rw refused refl, tt)
    one-Stops (c ∷ u) x y = elim (Bool-cases (p c)) [
      | inl e ↦ rw e (u ∷ [], refl, (inl refl, tt))
      | inr e ↦ rw e ([], refl, tt)
    ]

    pub times-Stops : (n : ℕ) → Stops b (times n p)
    unfolding times
    times-Stops zero u x y = (u ∷ [], refl, (inl refl, tt))
    times-Stops (suc n) [] x y = ([], rw refused refl, tt)
    times-Stops (suc n) (c ∷ u) x y = elim (Bool-cases (p c)) [
      | inl e ↦ rw e (times-Stops n u x y)
      | inr e ↦ rw e ([], refl, tt)
    ]

    up_to_self : (n : ℕ) (t : Text) → Mem t (up_to n p t)
    unfolding up_to
    up_to_self zero t = inl refl
    up_to_self (suc n) [] = inl refl
    up_to_self (suc n) (c ∷ t) = elim (Bool-cases (p c)) [
      | inl e ↦ rw e (Mem-append_right (c ∷ t) (up_to n p t) ((c ∷ t) ∷ []) (inl refl))
      | inr e ↦ rw e (inl refl)
    ]

    pub up_to-Stops : (n : ℕ) → Stops b (up_to n p)
    unfolding up_to
    up_to-Stops zero u x y = (u ∷ [], refl, (inl refl, tt))
    up_to-Stops (suc n) [] x y = ([] ∷ [], rw refused refl, (up_to_self (suc n) y, tt))
    up_to-Stops (suc n) (c ∷ u) x y = elim (Bool-cases (p c)) [
      | inl e ↦ rw e (
          Before-append b x y (up_to n p (u ++ b ∷ x)) ((c ∷ u ++ b ∷ x) ∷ []) (up_to n p (u ++ y))
            ((c ∷ u ++ y) ∷ []) (up_to-Stops n u x y) ((c ∷ u) ∷ [], refl, (inl refl, tt)))
      | inr e ↦ rw e ((c ∷ u) ∷ [], refl, (inl refl, tt))
    ]

    pub plus-Stops : Stops b (plus p)
    unfolding plus
    plus-Stops [] x y = ([], rw refused refl, tt)
    plus-Stops (c ∷ u) x y = elim (Bool-cases (p c)) [
      | inl e ↦ rw e (
          Before-append b x y (plus p (u ++ b ∷ x)) ((u ++ b ∷ x) ∷ []) (plus p (u ++ y))
            ((u ++ y) ∷ []) (plus-Stops u x y) (u ∷ [], refl, (inl refl, tt)))
      | inr e ↦ rw e ([], refl, tt)
    ]

-- A text that does not match does not begin to match when `b` comes earlier.
pub Stops-none :
    (b : ℕ) (p : Pattern) (u x y : Text) → Stops b p → p (u ++ y) ≡ [] → p (u ++ b ∷ x) ≡ []
Stops-none b p u x y stops none = go (stops u x y)
  where
    go : Before b x y (p (u ++ b ∷ x)) (p (u ++ y)) → p (u ++ b ∷ x) ≡ []
    go ([], e, m) = e
    go (v ∷ vs, e, m) = absurd (subst (Mem (v ++ y)) none m.0)
