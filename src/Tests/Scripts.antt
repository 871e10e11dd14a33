-- ===== src/Tests/Scripts.antt =====
-- The demonstration's scripts and the migration at concrete inputs.
use report_insight.Base.{
  ℕ, ◌≤◌, ◌*◌, ◌+◌, ◌≡◌, refl, some, List, [], ◌∷◌, ◌++◌, length, All, arith, String,
}
use report_insight.Domain.{Fields, Datetime}
use report_insight.Scripts.Templates.Shape.{Sample}
use report_insight.Scripts.Synth.{Random, NoiseConfig}
use report_insight.Scripts.Synth.Generate.{generate}
use report_insight.Scripts.Synth.Total.{generate-IsRecovered, InRange, AllFrom, IsRecovered}
use report_insight.Scripts.SeedDemo.{wait}
use report_insight.Scripts.SeedDemo.Wait.{wait-Ends, Ends}
use report_insight.Infra.Schema.{Table, table, required, run, extensions}
use report_insight.Infra.Schema
use report_insight.Infra.Schema.Initial.{upgrade, downgrade}
use report_insight.Infra.Schema.RoundTrip.{upgrade-downgrade, Apart}

-- The first of everything; every text drifts, and none is cut.
abbrev rng : Random ℕ
rng = record {
  seeded = λ seed. seed;
  randrange = λ start stop s. (start, s + 1);
  choice = λ xs s. (8, s + 1);
  random = λ s. (s, s + 1);
}

abbrev noise : NoiseConfig
noise = record { notation = 5000; missing = 0; seed = 1234 }

in_range : InRange rng
in_range n s = ground arith

abbrev midnight : Datetime → String
midnight t = "2026-06-01T00:00:00+00:00"

generate-IsRecovered_example :
    (out : List (Fields × Sample)) × (generate rng midnight 3 42 (some noise) ≡ some out)
    × (length out ≡ 3)
    × AllFrom IsRecovered 0 out
generate-IsRecovered_example = generate-IsRecovered rng midnight noise in_range refl 3 42

-- Two reports arrive between two looks.
wait-Ends_example :
    (looks : ℕ) × (wait (λ n. 2 * n) 6 180 182 0 0 ≡ some looks)
    × (2 * looks ≤ 182)
    × Ends (λ n. 2 * n) 6 180 0 looks
wait-Ends_example = wait-Ends (λ n. 2 * n) 6 180

-- The table of alembic's own.
abbrev others : List Table
others = table "alembic_version" (required "version_num" (Schema.string 32) ∷ []) [] ∷ []

Apart-upgrade : All (Apart others) upgrade
unfolding upgrade Schema.has Schema.taken
Apart-upgrade = (
  tt,
  (
    (refl, refl, refl),
    (
      (refl, refl, refl),
      (
        (refl, refl, refl),
        (
          (refl, refl),
          (
            (refl, refl, refl),
            (
              (refl, refl),
              (
                (refl, refl),
                (
                  (refl, refl, refl),
                  (
                    (refl, refl),
                    (
                      (refl, refl),
                      (
                        (refl, refl),
                        (
                          (refl, refl, refl),
                          (
                            (refl, refl),
                            (
                              (refl, refl),
                              (
                                (refl, refl, refl),
                                ((refl, refl), ((refl, refl, refl), ((refl, refl), tt))),
                              ),
                            ),
                          ),
                        ),
                      ),
                    ),
                  ),
                ),
              ),
            ),
          ),
        ),
      ),
    ),
  ),
)

Apart-downgrade : All (Apart others) downgrade
unfolding downgrade Schema.has Schema.referred Schema.unindex
Apart-downgrade = (
  (refl, refl),
  (
    (refl, refl),
    (
      refl,
      (
        (refl, refl),
        ((refl, refl), ((refl, refl), ((refl, refl), ((refl, refl), ((refl, refl), tt))))),
      ),
    ),
  ),
)

upgrade-downgrade_example :
    (t : List Table) × (run upgrade [] ≡ some t)
    × (run upgrade others ≡ some (t ++ others))
    × (run downgrade (t ++ others) ≡ some others)
    × (extensions upgrade [] ≡ "vector" ∷ [])
    × (extensions downgrade (extensions upgrade []) ≡ extensions upgrade [])
upgrade-downgrade_example = upgrade-downgrade others [] Apart-upgrade Apart-downgrade
