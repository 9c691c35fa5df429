-- ===== src/Contracts/Service.antt =====
-- contract_service.go: one round of the polling loop, the check of a validator that has left, and
-- the two questions that lifecycles ask. The round is of the validators that the helper contract
-- returned for the block; a map's entries are taken in the order of the association list.
use hayabusa_e2e.Prelude.{
  ℕ, ◌/◌, ◌%◌, ◌^◌, Bool, false, not, ◌&&◌, ◌||◌, Option, none, some, [], ◌∷◌, ◌==◌, if◌then◌else◌,
  max_u32, is_some, length, u32,
}
use hayabusa_e2e.Prelude.Go.{Reply, ok, err}
use hayabusa_e2e.Prelude.Dict.{Dict, lookup, insert}

-- `validation.Validation`, without the two amounts that the service leaves at zero.
pub record Validator : Type 0 where
  pub endorser : ℕ
  pub period : ℕ
  pub complete_iterations : ℕ
  pub status : ℕ
  pub start_block : ℕ
  pub exit_block : Option ℕ
  pub offline_block : Option ℕ
  pub locked_vet : ℕ
  pub queued_vet : ℕ
  pub withdrawable_vet : ℕ
  pub weight : ℕ

-- `builtin.Validation` and the period details, as the staker contract returns them.
pub record Stake : Type 0 where
  pub endorser : ℕ
  pub stake : ℕ
  pub weight : ℕ
  pub queued_stake : ℕ
  pub status : ℕ
  pub offline_block : ℕ

pub record Period : Type 0 where
  pub period : ℕ
  pub start_block : ℕ
  pub exit_block : ℕ
  pub completed_periods : ℕ

-- The staker contract, behind the thor client.
pub record Staker : Type 1 where
  pub World : Type 0
  pub status_active : ℕ
  pub status_queued : ℕ
  pub get_validation : ℕ → World → Reply Stake × World
  pub get_validation_period_details : ℕ → World → Reply Period × World
  pub get_withdrawable : ℕ → World → Reply ℕ × World

-- An entry of `idLookup` may be nil. `exited` is read and never written.
pub record Service : Type 0 where
  pub active : Dict Validator
  pub queued : Dict Validator
  pub exiting : Dict Validator
  pub id_lookup : Dict (Option Validator)
  pub exited : Dict Bool

-- `NewState`.
unfoldable pub new_state : Service
new_state = record { active = []; queued = []; exiting = []; id_lookup = []; exited = [] }

unfoldable pub lookup_address : ℕ → Service → Option (Option Validator)
lookup_address id s = lookup id s.id_lookup

unfoldable pub get_active_count : Service → ℕ
get_active_count s = u32 (length s.active)

unfoldable pub wei_to_vet : ℕ → ℕ
wei_to_vet wei = wei / 10 ^ 18 % 2 ^ 64

-- The largest uint32 stands for no block.
unfoldable pub block_or_nil : ℕ → Option ℕ
block_or_nil b = if b == max_u32 then none else some b

module _ (e : Staker) where
  unfoldable pub with_withdrawable : Stake → Period → Reply ℕ → Reply Validator
  unfolding wei_to_vet block_or_nil
  with_withdrawable v p (err x) = err x
  with_withdrawable v p (ok withdrawable) = ok (record {
    endorser = v.endorser;
    period = p.period;
    complete_iterations = p.completed_periods;
    status = v.status;
    start_block = p.start_block;
    exit_block = block_or_nil p.exit_block;
    offline_block = block_or_nil v.offline_block;
    locked_vet = wei_to_vet v.stake;
    queued_vet = wei_to_vet v.queued_stake;
    withdrawable_vet = wei_to_vet withdrawable;
    weight = wei_to_vet v.weight;
  })

  unfoldable pub with_period : ℕ → Stake → Reply Period → e.World → Reply Validator × e.World
  unfolding with_withdrawable
  with_period id v (err x) w = (err x, w)
  with_period id v (ok p) w = let (r, w') = e.get_withdrawable id w in (with_withdrawable v p r, w')

  unfoldable pub with_validation : ℕ → Reply Stake → e.World → Reply Validator × e.World
  unfolding with_period
  with_validation id (err x) w = (err x, w)
  with_validation id (ok v) w =
      let (r, w') = e.get_validation_period_details id w in with_period id v r w'

  unfoldable pub check_exited : ℕ → e.World → Reply Validator × e.World
  unfolding with_validation
  check_exited id w = let (r, w') = e.get_validation id w in with_validation id r w'

  unfoldable pub is_active : Validator → Bool
  is_active v = v.status == e.status_active && not (is_some v.exit_block)

  unfoldable pub is_exiting : Validator → Bool
  is_exiting v = v.status == e.status_active && is_some v.exit_block

  unfoldable pub is_queued : Validator → Bool
  is_queued v = v.status == e.status_queued

  -- The loop that fills one of the three maps.
  unfoldable pub select : (Validator → Bool) → Dict Validator → Dict Validator
  select p [] = []
  select p ((id, v) ∷ vs) = let rest = select p vs in if p v then (id, v) ∷ rest else rest

  -- An error is logged, and the nil that comes with it is stored.
  unfoldable pub entry_of : Reply Validator → Option Validator
  entry_of (ok v) = some v
  entry_of (err x) = none

  unfoldable pub has_exited : ℕ → Dict Bool → Bool
  has_exited id exited = elim (lookup id exited) [ none ↦ false | some b ↦ b ]

  -- The loop over `idLookup`.
  unfoldable pub recheck :
      Dict Validator
      → Dict Bool
      → Dict (Option Validator)
      → e.World
      → Dict (Option Validator) × e.World
  unfolding entry_of has_exited
  recheck validators exited [] w = ([], w)
  recheck validators exited ((id, old) ∷ rest) w =
      let keep = is_some (lookup id validators) || has_exited id exited in
      let (r, w') = check_exited id w in
      let w'' = if keep then w else w' in
      let (done, last) = recheck validators exited rest w'' in
      ((id, if keep then old else entry_of r) ∷ done, last)

  -- `maps.Copy`
  unfoldable pub copy : Dict (Option Validator) → Dict Validator → Dict (Option Validator)
  copy d [] = d
  copy d ((id, v) ∷ vs) = copy (insert id (some v) d) vs

  unfoldable pub poll_round : Dict Validator → Service → e.World → Service × e.World
  unfolding select is_active is_exiting is_queued recheck copy
  poll_round validators s w =
      let (checked, w') = recheck validators s.exited s.id_lookup w in
      (
        record {
          active = select is_active validators;
          queued = select is_queued validators;
          exiting = select is_exiting validators;
          id_lookup = copy checked validators;
          exited = s.exited;
        },
        w',
      )
