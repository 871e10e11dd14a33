-- ===== src/Scripts/SeedDemo/Wait.antt =====
-- How long the demonstration waits.
use report_insight.Base.{
  ℕ, zero, suc, ◌+◌, ◌-◌, ◌*◌, ◌≤◌, ◌<◌, ◌≡◌, refl, subst, ◌==◌, ◌⊎◌, inl, inr, some, leb,
  Bool-cases, ==_eq, arith, ltb,
}
use report_insight.Scripts.SeedDemo.{wait}

-- The last look has found the target, or the time is over and no look from the n-th on has found it.
abbrev pub Ends : (ℕ → ℕ) → ℕ → ℕ → ℕ → ℕ → Type 0
Ends count target timeout n looks =
    (target ≤ count (looks - 1))
    ⊎ ((timeout ≤ 2 * looks) × ((m : ℕ) → n ≤ m → m < looks → count m < target))

last : (n : ℕ) → n ≡ n + 1 - 1
last n = omega arith

-- A look that was too early changes nothing.
Ends-earlier :
    (count : ℕ → ℕ) (target timeout n looks : ℕ)
    → count n < target
    → Ends count target timeout (n + 1) looks
    → Ends count target timeout n looks
Ends-earlier count target timeout n looks short (inl reached) = inl reached
Ends-earlier count target timeout n looks short (inr (over, none_found)) = inr (
  over,
  λ m after before. elim (Bool-cases (n == m)) [
    | inl e ↦ subst (λ k. count k < target) (==_eq n m e) short
    | inr e ↦ none_found m (ground arith) before
  ],
)

-- The wait that has slept n times and goes on with as much fuel as is left of its time.
wait_from :
    (count : ℕ → ℕ) (target timeout fuel elapsed n : ℕ)
    → timeout + 2 ≤ fuel + elapsed
    → elapsed ≡ 2 * n
    → elapsed ≤ timeout + 1
    → (looks : ℕ) × (wait count target timeout fuel elapsed n ≡ some looks)
      × (2 * looks ≤ timeout + 2)
      × Ends count target timeout n looks
unfolding wait
wait_from count target timeout zero elapsed n h e b = absurd (ground arith)
wait_from count target timeout (suc fuel) elapsed n h e b =
    elim (Bool-cases (ltb elapsed timeout)) [
      | inr over ↦ (
        n,
        rw over refl,
        ground arith,
        inr (ground arith, λ m after before. absurd (ground arith)),
      )
      | inl time ↦ elim (Bool-cases (leb target (count n))) [
        | inl reached ↦ (
          n + 1,
          rw (time, reached) refl,
          ground arith,
          inl (subst (λ m. target ≤ count m) (last n) (ground arith)),
        )
        | inr short ↦
            let (looks, ran, bound, ends) =
              wait_from count target timeout fuel (elapsed + 2) (n + 1) (ground arith)
                (ground arith) (ground arith) in
            (
              looks,
              rw (time, short) ran,
              bound,
              Ends-earlier count target timeout n looks (ground arith) ends,
            )
      ]
    ]

-- The wait ends: with a unit of fuel for each second of the time, and two, it looks at most once for every
-- two seconds begun and once more; and its last look has found the target, or the time is over and no look
-- has.
pub wait-Ends :
    (count : ℕ → ℕ) (target timeout : ℕ)
    → (looks : ℕ) × (wait count target timeout (timeout + 2) 0 0 ≡ some looks)
      × (2 * looks ≤ timeout + 2)
      × Ends count target timeout 0 looks
wait-Ends count target timeout =
    wait_from count target timeout (timeout + 2) 0 0 (ground arith) (ground arith) (ground arith)
