-- ===== src/Examples/Engines.antt =====
-- An engine with one validator that is live and one that has withdrawn.
use hayabusa_e2e.Prelude.{ℕ, suc, ◌+◌, ◌/◌, ◌≤◌, some, [], ◌∷◌}
use hayabusa_e2e.Prelude.Dict.{Dict}
use hayabusa_e2e.Lifecycle.{type_validator, type_delegator, pending, active, withdrawn}
use hayabusa_e2e.Engine.Cycles.{Member, Maker, count_live, larger, generate_validator_cycles}
use hayabusa_e2e.Engine.Population.{generate_validator_cycles-bounded}
use hayabusa_e2e.Examples.Generators.{zeros}

abbrev left : Member
left = record { kind = type_validator; status = withdrawn }

abbrev held : Dict Member
held = (1, record { kind = type_validator; status = active }) ∷ (2, left) ∷ []

abbrev pub maker : Maker ℕ
maker = record {
  create_validator = λ block w. (some (record { kind = type_validator; status = pending }), w);
  create_delegator = λ block w. (some (record { kind = type_delegator; status = pending }), w);
  random_hash = λ w. (w, suc w);
}

generate_validator_cycles_example :
    count_live (generate_validator_cycles zeros maker 5 16 held 10).0
    ≤ larger (count_live held) (16 + larger (16 / 8) 3)
generate_validator_cycles_example =
    generate_validator_cycles-bounded zeros (λ n w h. h) maker 5 16 held 10
