-- ===== src/Scripts/SeedDemo/Statements.antt =====
-- The insertions of the rows of one statement, one after the other.
use report_insight.Base.{◌≡◌, refl, subst, ap, ◌∙◌, sym, List, [], ◌∷◌, All, inl, inr, arith}
use report_insight.Domain.{Error, Result, Result-cases, ok, err}
use report_insight.Db.{World, Exec}
use report_insight.Scripts.SeedDemo.{for_each}

module _ {A : Type 0} (f : A → Exec (Unit {0})) (P : A → World → Type 0) where
  pub for_each-ok :
      (r : A) (rows : List A) (w : World) (u : Unit {0})
      → (f r w).0 ≡ ok u
      → for_each f (r ∷ rows) w ≡ for_each f rows (f r w).1
  unfolding for_each
  for_each-ok r rows w u e = ground arith

  pub for_each-err :
      (r : A) (rows : List A) (w : World) (x : Error)
      → (f r w).0 ≡ err x
      → for_each f (r ∷ rows) w ≡ (err x, (f r w).1)
  unfolding for_each
  for_each-err r rows w x e = ground arith

  pub for_each-kept :
      (Q : World → Type 0)
      → ((r : A) (w : World) → Q w → Q (f r w).1)
      → (rows : List A) (w : World) → Q w
      → Q (for_each f rows w).1
  unfolding for_each
  for_each-kept Q keeps [] w h = h
  for_each-kept Q keeps (r ∷ rows) w h = elim (Result-cases (f r w).0) [
    | inl (u, e) ↦
        rw (for_each-ok r rows w u e) (for_each-kept Q keeps rows (f r w).1 (keeps r w h))
    | inr (x, e) ↦ rw (for_each-err r rows w x e) (keeps r w h)
  ]

  pub for_each-All :
      ((r : A) (w : World) → (f r w).0 ≡ ok tt → P r (f r w).1)
      → ((s r : A) (w : World) → P s w → P s (f r w).1)
      → (rows : List A) (w : World) → (for_each f rows w).0 ≡ ok tt
      → All (λ r. P r (for_each f rows w).1) rows
  unfolding for_each
  for_each-All done keeps [] w h = tt
  for_each-All done keeps (r ∷ rows) w h = elim (Result-cases (f r w).0) [
    | inl (u, e) ↦
        let step = for_each-ok r rows w u e in
        let rest = ap (λ (x : Result (Unit {0}) × World). x.0) (sym step) ∙ h in
        subst (λ (x : Result (Unit {0}) × World). All (λ s. P s x.1) (r ∷ rows)) (sym step)
          (
            for_each-kept (P r) (λ s v p. keeps r s v p) rows (f r w).1 (done r w (ground arith)),
            for_each-All done keeps rows (f r w).1 rest,
          )
    | inr (x, e) ↦ absurd (cc (for_each-err r rows w x e))
  ]

  pub for_each-again :
      ((r : A) (w : World) → P r w → f r w ≡ (ok tt, w))
      → (rows : List A) (w : World) → All (λ r. P r w) rows
      → for_each f rows w ≡ (ok tt, w)
  unfolding for_each
  for_each-again again [] w h = refl
  for_each-again again (r ∷ rows) w h =
      ground (arith, again r w h.0, for_each-again again rows w h.1)
