-- ===== src/Engine/Cycles.antt =====
-- engine.go: the lifecycles that the engine creates at a block, and the sweep over those that it
-- holds. A lifecycle is known by its type and its status, as the loop reads them; the generator
-- and the random hash are taken from the world, and the whole part of the square root is an
-- argument.
use hayabusa_e2e.Prelude.{
  ℕ, zero, suc, ◌+◌, ◌-◌, ◌/◌, Bool, true, false, Option, none, some, List, [], ◌∷◌, ltb,
  if◌then◌else◌, ◌&&◌,
}
use hayabusa_e2e.Prelude.Int.{ℤ}
use hayabusa_e2e.Prelude.Dict.{Dict, insert, erase}
use hayabusa_e2e.Lifecycle.{
  LifecycleType, type_validator, type_delegator, Status, exit_signalled, withdrawn, rank,
}
use hayabusa_e2e.Generator.Strategies.{Source, random_between}

pub record Member : Type 0 where
  pub kind : LifecycleType
  pub status : Status

-- `Generator`, and `datagen.RandomHash`.
pub record Maker (W : Type 0) : Type 0 where
  pub create_validator : ℕ → W → Option Member × W
  pub create_delegator : ℕ → W → Option Member × W
  pub random_hash : W → ℕ × W

abbrev is_validator : LifecycleType → Bool
is_validator type_validator = true
is_validator type_delegator = false

-- A validator that has not signalled its exit.
abbrev pub is_live : Member → Bool
is_live m = is_validator m.kind && ltb (rank m.status) (rank exit_signalled)

unfoldable pub count_live : Dict Member → ℕ
count_live [] = 0
count_live ((id, m) ∷ d) = let n = count_live d in if is_live m then suc n else n

abbrev pub larger : ℕ → ℕ → ℕ
larger a b = if ltb a b then b else a

abbrev pub smaller : ℕ → ℕ → ℕ
smaller a b = if ltb b a then b else a

module _ (e : Source) (maker : Maker e.World) where
  unfoldable pub added :
      Option Member × e.World
      → Dict Member
      → (Dict Member → e.World → Dict Member × e.World)
      → Dict Member × e.World
  added (none, w) d rest = (d, w)
  added (some m, w) d rest = let (id, w') = maker.random_hash w in rest (insert id m d) w'

  -- The loop that creates so many lifecycles, or as many as there are accounts for.
  unfoldable pub create_all :
      (e.World → Option Member × e.World) → ℕ → Dict Member → e.World → Dict Member × e.World
  unfolding added
  create_all create zero d w = (d, w)
  create_all create (suc n) d w = added (create w) d (create_all create n)

  -- An int that is negative asks for none: there the difference stops at 0.
  unfoldable pub generate_validator_cycles : ℕ → ℕ → Dict Member → e.World → Dict Member × e.World
  unfolding create_all count_live
  generate_validator_cycles block max_block_proposers d w =
      let lifecycles = count_live d in
      let (drawn, w₁) = random_between e 0 (max_block_proposers / 8) w in
      let desired_queued = larger drawn 3 in
      let spaces = (max_block_proposers + desired_queued) - lifecycles in
      let (amount, w₂) = random_between e 0 spaces w₁ in
      create_all (maker.create_validator block) amount d w₂

  unfoldable pub generate_delegator_cycles :
      (ℤ → ℕ) → ℕ → ℤ → Dict Member → e.World → Dict Member × e.World
  unfolding create_all
  generate_delegator_cycles sqrt block available d w =
      let upper_limit = sqrt available in
      let (drawn, w₁) = random_between e (upper_limit / 2) upper_limit w in
      create_all (maker.create_delegator block) (smaller drawn 80) d w₁

abbrev pub is_withdrawn : Status → Bool
is_withdrawn withdrawn = true
is_withdrawn _ = false

-- The loop over the lifecycles of a block: those to process, and those to remove.
unfoldable pub partition : Dict Member → List ℕ × List ℕ
partition [] = ([], [])
partition ((id, m) ∷ d) =
    let (run, remove) = partition d in
    if is_withdrawn m.status then (run, id ∷ remove) else (id ∷ run, remove)

unfoldable pub remove_all : List ℕ → Dict Member → Dict Member
remove_all [] d = d
remove_all (id ∷ ids) d = remove_all ids (erase id d)

-- The lifecycles that are given to the workers, and those that the engine keeps.
unfoldable pub sweep : Dict Member → List ℕ × Dict Member
unfolding partition remove_all
sweep d = let (run, remove) = partition d in (run, remove_all remove d)
