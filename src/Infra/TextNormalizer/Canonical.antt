-- ===== src/Infra/TextNormalizer/Canonical.antt =====
-- What the dictionary does to a text that is one of its variants.
use report_insight.Base.{
  ℕ, suc, zero, ◌≤◌, ltb, ◌≡◌, ap, sym, subst, ◌∙◌, refl, false, Bool-cases, ◌⊎◌, inl, inr, List,
  [], ◌∷◌, Text, length, map, All, All-imp, Any, arith,
}
use report_insight.Base.Find.{contains, contains-whole, replace-absent, replace-whole}
use report_insight.Infra.TextNormalizer.{
  Correction, pair_of, insert_longest, longest_first, text_normalizer, correct, normalize_by,
  normalize,
}

-- An empty variant is skipped, and no other occurs in the text.
abbrev pub Leaves : Text → Text → Type 0
Leaves t variant = (variant ≡ []) ⊎ (contains variant t ≡ false)

-- No variant is longer than one before it.
abbrev Descends : List (Text × Text) → Type 0
Descends [] = Unit
Descends (p ∷ ps) = All (λ (q : Text × Text). length q.0 ≤ length p.0) ps × Descends ps

module _ (P : Text × Text → Type 0) where
  All-insert_longest :
      (p : Text × Text) (qs : List (Text × Text)) → P p → All P qs → All P (insert_longest p qs)
  unfolding insert_longest
  All-insert_longest p [] h hs = (h, tt)
  All-insert_longest p (q ∷ qs) h hs = elim (Bool-cases (ltb (length p.0) (length q.0))) [
    | inl e ↦ rw e (hs.0, All-insert_longest p qs h hs.1)
    | inr e ↦ rw e (h, hs)
  ]

  All-longest_first :
      (f : Correction → Text × Text) (cs : List Correction)
      → All (λ c. P (f c)) cs
      → All P (longest_first (map f cs))
  unfolding longest_first
  All-longest_first f [] h = tt
  All-longest_first f (c ∷ cs) h =
      All-insert_longest (f c) (longest_first (map f cs)) h.0 (All-longest_first f cs h.1)

  Any-insert_longest :
      (p : Text × Text) (qs : List (Text × Text)) → P p ⊎ Any P qs → Any P (insert_longest p qs)
  unfolding insert_longest
  Any-insert_longest p [] h = h
  Any-insert_longest p (q ∷ qs) h = elim (Bool-cases (ltb (length p.0) (length q.0))) [
    | inl e ↦ rw e (later (Any-insert_longest p qs) h)
    | inr e ↦ rw e h
  ]
    where
      later :
          (P p ⊎ Any P qs → Any P (insert_longest p qs))
          → P p ⊎ (P q ⊎ Any P qs)
          → P q ⊎ Any P (insert_longest p qs)
      later put (inl h) = inr (put (inl h))
      later put (inr (inl h)) = inl h
      later put (inr (inr h)) = inr (put (inr h))

  Any-longest_first :
      (f : Correction → Text × Text) (cs : List Correction)
      → Any (λ c. P (f c)) cs
      → Any P (longest_first (map f cs))
  unfolding longest_first
  Any-longest_first f [] h = absurd h
  Any-longest_first f (c ∷ cs) (inl h) = Any-insert_longest (f c) (longest_first (map f cs)) (inl h)
  Any-longest_first f (c ∷ cs) (inr h) =
      Any-insert_longest (f c) (longest_first (map f cs)) (inr (Any-longest_first f cs h))

Descends-insert_longest :
    (p : Text × Text) (qs : List (Text × Text)) → Descends qs → Descends (insert_longest p qs)
unfolding insert_longest
Descends-insert_longest p [] h = (tt, tt)
Descends-insert_longest p (q ∷ qs) h = elim (Bool-cases (ltb (length p.0) (length q.0))) [
  | inl e ↦
      let below : length p.0 ≤ length q.0 = ground (arith, e) in
      rw e (
        All-insert_longest (λ (r : Text × Text). length r.0 ≤ length q.0) p qs below h.0,
        Descends-insert_longest p qs h.1,
      )
  | inr e ↦
      let above : length q.0 ≤ length p.0 = ground (arith, e) in
      rw e (
        (
          above,
          All-imp (λ (r : Text × Text). length r.0 ≤ length q.0)
              (λ (r : Text × Text). length r.0 ≤ length p.0) qs (λ r k. omega (arith, k, above))
              h.0,
        ),
        h,
      )
]

Descends-longest_first : (ps : List (Text × Text)) → Descends (longest_first ps)
unfolding longest_first
Descends-longest_first [] = tt
Descends-longest_first (p ∷ ps) =
    Descends-insert_longest p (longest_first ps) (Descends-longest_first ps)

correct-Leaves : (p : Text × Text) (t : Text) → Leaves t p.0 → correct p t ≡ t
unfolding correct
correct-Leaves ([], canonical) t h = refl
correct-Leaves (c ∷ cs, canonical) t (inl e) = absurd (ground (arith, e))
correct-Leaves (c ∷ cs, canonical) t (inr e) = replace-absent (c ∷ cs) canonical t e

normalize_by-Leaves :
    (ps : List (Text × Text)) (t : Text)
    → All (λ (p : Text × Text). Leaves t p.0) ps
    → normalize_by ps t ≡ t
unfolding normalize_by
normalize_by-Leaves [] t h = refl
normalize_by-Leaves (p ∷ ps) t h =
    ap (normalize_by ps) (correct-Leaves p t h.0) ∙ normalize_by-Leaves ps t h.1

correct-whole : (p : Text × Text) → suc zero ≤ length p.0 → correct p p.0 ≡ p.1
unfolding correct
correct-whole ([], canonical) h = absurd (omega (arith, h))
correct-whole (c ∷ cs, canonical) h = replace-whole (c ∷ cs) canonical h

module _ (v canonical : Text) (some_text : suc zero ≤ length v) where
  abbrev Is : Text × Text → Type 0
  Is p = p.0 ≡ v

  abbrev Agrees : Text × Text → Type 0
  Agrees p = p.0 ≡ v → p.1 ≡ canonical

  at_variant :
      (p : Text × Text) (ps : List (Text × Text))
      → Is p
      → Agrees p
      → All (λ (p : Text × Text). Leaves canonical p.0) ps
      → normalize_by (p ∷ ps) v ≡ canonical
  unfolding normalize_by
  at_variant p ps same agrees leaves =
      ap (λ t. normalize_by ps (correct p t)) (sym same)
      ∙ (ap (normalize_by ps) (correct-whole p (rw (sym same) at some_text) ∙ agrees same)
          ∙ normalize_by-Leaves ps canonical leaves)

  long_enough :
      (n : ℕ) (ps : List (Text × Text))
      → All (λ (q : Text × Text). length q.0 ≤ n) ps
      → Any Is ps
      → length v ≤ n
  long_enough n [] h m = absurd m
  long_enough n (q ∷ qs) h (inl e) = subst (λ z. length z ≤ n) e h.0
  long_enough n (q ∷ qs) h (inr m) = long_enough n qs h.1 m

  in_order :
      (ps : List (Text × Text))
      → Descends ps
      → Any Is ps
      → All Agrees ps
      → All (λ (p : Text × Text). Leaves canonical p.0) ps
      → normalize_by ps v ≡ canonical
  unfolding normalize_by
  in_order [] d m a l = absurd m
  in_order (p ∷ ps) d (inl e) a l = at_variant p ps e a.0 l.1
  in_order (p ∷ ps) d (inr m) a l = elim (Bool-cases (contains p.0 v)) [
    | inl e ↦
        at_variant p ps (sym (contains-whole p.0 v e (long_enough (length p.0) ps d.0 m))) a.0 l.1
    | inr e ↦ ap (normalize_by ps) (correct-Leaves p v (inr e)) ∙ in_order ps d.1 m a.1 l.1
  ]

-- A text that is a variant of the dictionary becomes its canonical form, whatever other variants are
-- parts of it, if no correction gives this variant another canonical form, and no variant occurs in
-- the canonical form.
pub normalize-canonical :
    (corrections : List Correction) (variant canonical : Text)
    → suc zero ≤ length variant
    → Any (λ (c : Correction). c.variant ≡ variant) corrections
    → All (λ (c : Correction). c.variant ≡ variant → c.canonical ≡ canonical) corrections
    → All (λ (c : Correction). Leaves canonical c.variant) corrections
    → normalize (text_normalizer corrections) variant ≡ canonical
unfolding normalize text_normalizer
normalize-canonical corrections variant canonical h listed agrees leaves =
    in_order variant canonical h (longest_first (map pair_of corrections))
      (Descends-longest_first (map pair_of corrections))
      (Any-longest_first (Is variant canonical h) pair_of corrections listed)
      (All-longest_first (Agrees variant canonical h) pair_of corrections agrees)
      (All-longest_first (λ (p : Text × Text). Leaves canonical p.0) pair_of corrections leaves)
