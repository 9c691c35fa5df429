-- ===== src/Examples/Networks.antt =====
-- A round of the contract service.
use hayabusa_e2e.Prelude.{ℕ, refl, none, some, [], ◌∷◌}
use hayabusa_e2e.Prelude.Go.{ok, new_error, err}
use hayabusa_e2e.Prelude.Dict.{Dict}
use hayabusa_e2e.Contracts.Service.{Validator, Staker, Service, lookup_address, poll_round}
use hayabusa_e2e.Contracts.Lookups.{Told, poll_round-Told}

-- A staker contract that is not reached.
abbrev staker : Staker
staker = record {
  World = ℕ;
  status_active = 2;
  status_queued = 1;
  get_validation = λ id w. (err (new_error "EOF"), w);
  get_validation_period_details = λ id w. (err (new_error "EOF"), w);
  get_withdrawable = λ id w. (ok 0, w);
}

abbrev validator : Validator
validator = record {
  endorser = 1;
  period = 10;
  complete_iterations = 3;
  status = 2;
  start_block = 60;
  exit_block = none;
  offline_block = none;
  locked_vet = 25;
  queued_vet = 0;
  withdrawable_vet = 0;
  weight = 50;
}

abbrev service : Service
service = record {
  active = (1, validator) ∷ (2, validator) ∷ [];
  queued = [];
  exiting = [];
  id_lookup = (1, some validator) ∷ (2, some validator) ∷ [];
  exited = [];
}

abbrev round : Dict Validator
round = (1, validator) ∷ []

poll_round-Told_example :
    Told staker 2 none
      (lookup_address 2 service)
      (lookup_address 2 (poll_round staker round service 0).0)
poll_round-Told_example = poll_round-Told staker 2 round service 0 (refl, tt) refl
