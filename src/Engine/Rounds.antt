-- ===== src/Engine/Rounds.antt =====
-- engine.go: NewEngine, AddLifecycle and the rounds of Run. What a round asks of the chain, of the
-- position manager and of the lifecycles is taken from the world, and the statuses are read again
-- before the lifecycles of the round are generated and before they are swept.
use hayabusa_e2e.Prelude.{ℕ, List, [], ◌∷◌, if◌then◌else◌, Bool}
use hayabusa_e2e.Prelude.Go.{Reply, ok, err}
use hayabusa_e2e.Prelude.Int.{ℤ, pos}
use hayabusa_e2e.Prelude.Dict.{Dict, insert}
use hayabusa_e2e.Lifecycle.{Status}
use hayabusa_e2e.Generator.Strategies.{Source}
use hayabusa_e2e.Workers.Pool.{Pool, Step, new_worker_pool, start, submit}
use hayabusa_e2e.Engine.Cycles.{
  Member, Maker, generate_validator_cycles, generate_delegator_cycles, sweep,
}

pub record Engine : Type 0 where
  pub lifecycles : Dict Member
  pub worker_pool : Pool

-- The ticker's `Wait`, whether `FirstActive` gives an identifier that is not zero, `Available` of
-- the position manager, and `Status` of a lifecycle.
pub record Surroundings (W : Type 0) : Type 0 where
  pub wait : W → Reply ℕ × W
  pub has_active : W → Bool × W
  pub available : W → ℤ × W
  pub status : ℕ → W → Status

unfoldable pub new_engine : Engine
new_engine = record { lifecycles = []; worker_pool = start (new_worker_pool (pos 10)) }

module _ {W : Type 0} (u : Surroundings W) (w : W) where
  abbrev pub observed : Dict Member → Dict Member
  observed [] = []
  observed ((id, m) ∷ d) = (id, record m { status = u.status id w }) ∷ observed d

-- Jobs that are given to a pool one after the other, with steps of the goroutines in between.
pub data Fed : List ℕ → Pool → Pool → Type 0 where
  all_fed : {s : Pool} → Fed [] s s
  feeds : {id : ℕ} {ids : List ℕ} {s t : Pool} → Fed ids (submit id s) t → Fed (id ∷ ids) s t
  waits : {ids : List ℕ} {s t u : Pool} → Step s t → Fed ids t u → Fed ids s u

abbrev pub given_onto : List ℕ → List ℕ → List ℕ
given_onto [] jobs = jobs
given_onto (id ∷ ids) jobs = given_onto ids (id ∷ jobs)

-- `max_block_proposers` is the stack's, and `sqrt` the whole part of a square root.
module _ (e : Source) (maker : Maker e.World) (u : Surroundings e.World) (max_block_proposers : ℕ)
    (sqrt : ℤ → ℕ) where
  unfoldable pub add_lifecycle : Member → Dict Member → e.World → Dict Member × e.World
  add_lifecycle m d w = let (id, w') = maker.random_hash w in (insert id m d, w')

  unfoldable pub generated : ℕ → Dict Member → e.World → Dict Member × e.World
  generated block d w =
      let (active, w₁) = u.has_active w in
      if active
      then (let (d₁, w₂) =
            generate_validator_cycles e maker block max_block_proposers (observed u w₁ d) w₁ in
          let (available, w₃) = u.available w₂ in
          generate_delegator_cycles e maker sqrt block available d₁ w₃)
      else (d, w₁)

  -- The lifecycles to process, and those that the engine keeps.
  unfoldable pub answered : Reply ℕ → Dict Member → e.World → (List ℕ × Dict Member) × e.World
  unfolding generated
  answered (err x) d w = (([], d), w)
  answered (ok block) d w = let (d', w') = generated block d w in (sweep (observed u w' d'), w')

  unfoldable pub round : Dict Member → e.World → (List ℕ × Dict Member) × e.World
  unfolding answered
  round d w = let (best, w') = u.wait w in answered best d w'

  -- The states of an engine, with the jobs that it has given to its pool: lifecycles are added,
  -- rounds of Run go by, the goroutines take steps, and the world may change in any way.
  pub data Reached : List ℕ → Engine → e.World → Type 0 where
    begun : (w : e.World) → Reached [] new_engine w
    joins :
        (m : Member) {jobs : List ℕ} {s : Engine} {w : e.World}
        → Reached jobs s w
        → Reached jobs
            (record s { lifecycles = (add_lifecycle m s.lifecycles w).0 })
            (add_lifecycle m s.lifecycles w).1
    rounds :
        {jobs : List ℕ} {s : Engine} {w : e.World} {t : Pool}
        → Reached jobs s w
        → Fed (round s.lifecycles w).0.0 s.worker_pool t
        → Reached
            (given_onto (round s.lifecycles w).0.0 jobs)
            (record { lifecycles = (round s.lifecycles w).0.1; worker_pool = t })
            (round s.lifecycles w).1
    works :
        {jobs : List ℕ} {s : Engine} {w : e.World} {t : Pool}
        → Reached jobs s w
        → Step s.worker_pool t
        → Reached jobs (record s { worker_pool = t }) w
    passes :
        {jobs : List ℕ} {s : Engine} {w : e.World} (w' : e.World)
        → Reached jobs s w
        → Reached jobs s w'
