-- ===== src/Engine/Population.antt =====
-- engine.go: how many lifecycles the engine comes to hold, and which.
use hayabusa_e2e.Prelude.{
  ℕ, leb, zero, suc, ◌+◌, ◌-◌, ◌/◌, ◌≡◌, ◌≤◌, refl, false, Bool-cases, inl, inr, Option, none, some,
  List, [], ◌∷◌, if◌then◌else◌, not, elem, length, arith,
}
use hayabusa_e2e.Prelude.Int.{ℤ}
use hayabusa_e2e.Prelude.Dict.{Dict, lookup, insert, erase, lookup-erase}
use hayabusa_e2e.Prelude.Dict.Sum.{Nodup}
use hayabusa_e2e.Generator.Strategies.{Source, random_between}
use hayabusa_e2e.Generator.Reach.{IsBelow, random_between_lem}
use hayabusa_e2e.Engine.Cycles.{
  Member, Maker, count_live, added, create_all, generate_validator_cycles,
  generate_delegator_cycles, larger, smaller, is_withdrawn, partition, remove_all, sweep,
}

count_live-insert :
    (id : ℕ) (m : Member) (d : Dict Member) → count_live (insert id m d) ≤ suc (count_live d)
unfolding count_live
count_live-insert id m [] = ground arith
count_live-insert id m ((j, x) ∷ d) = ground (arith, count_live-insert id m d)

length-insert : (id : ℕ) (m : Member) (d : Dict Member) → length (insert id m d) ≤ suc (length d)
length-insert id m [] = omega arith
length-insert id m ((j, x) ∷ d) = ground (arith, length-insert id m d)

module _ (e : Source) (below : IsBelow e) (maker : Maker e.World) where
  module _ (size : Dict Member → ℕ)
      (grows : (id : ℕ) (m : Member) (d : Dict Member) → size (insert id m d) ≤ suc (size d)) where
    added-size :
        (n : ℕ) (r : Option Member × e.World) (d : Dict Member)
        (rest : Dict Member → e.World → Dict Member × e.World)
        → ((d' : Dict Member) (w : e.World) → size (rest d' w).0 ≤ size d' + n)
        → size (added e maker r d rest).0 ≤ size d + suc n
    unfolding added
    added-size n (none, w) d rest h = omega arith
    added-size n (some m, w) d rest h =
        let (id, w') = maker.random_hash w in omega (arith, h (insert id m d) w', grows id m d)

    create_all-size :
        (create : e.World → Option Member × e.World) (n : ℕ) (d : Dict Member) (w : e.World)
        → size (create_all e maker create n d w).0 ≤ size d + n
    unfolding create_all
    create_all-size create zero d w = omega arith
    create_all-size create (suc n) d w =
        added-size n (create w) d (create_all e maker create n) (create_all-size create n)

  random_between-upper : (lo hi : ℕ) (w : e.World) → lo ≤ hi → (random_between e lo hi w).0 ≤ hi
  unfolding random_between
  random_between-upper lo hi w h = elim (Bool-cases (leb hi lo)) [
    | inl empty ↦ rw empty h
    | inr wide ↦ omega (arith, (random_between_lem e below lo hi w (ground (arith, wide))).1)
  ]

  -- With a random source that stays below its bound, a block's new validators leave no more
  -- validators that have not signalled their exit than there were, or than the block proposers and
  -- the larger of an eighth of them and three.
  pub generate_validator_cycles-bounded :
      (block max_block_proposers : ℕ) (d : Dict Member) (w : e.World)
      → count_live (generate_validator_cycles e maker block max_block_proposers d w).0
        ≤ larger (count_live d) (max_block_proposers + larger (max_block_proposers / 8) 3)
  unfolding generate_validator_cycles
  generate_validator_cycles-bounded block mbp d w =
      let drawn = random_between e 0 (mbp / 8) w in
      let spaces = mbp + larger drawn.0 3 - count_live d in
      let amount = random_between e 0 spaces drawn.1 in
      let few = random_between-upper 0 (mbp / 8) w (omega arith) in
      let fit = random_between-upper 0 spaces drawn.1 (omega arith) in
      let made =
        create_all-size count_live count_live-insert (maker.create_validator block) amount.0 d
          amount.1 in
      ground (arith, few, fit, made)

  -- With a random source that stays below its bound, a block creates at most eighty lifecycles of
  -- delegators.
  pub generate_delegator_cycles-bounded :
      (sqrt : ℤ → ℕ) (block : ℕ) (available : ℤ) (d : Dict Member) (w : e.World)
      → length (generate_delegator_cycles e maker sqrt block available d w).0 ≤ length d + 80
  unfolding generate_delegator_cycles
  generate_delegator_cycles-bounded sqrt block available d w =
      let drawn = random_between e (sqrt available / 2) (sqrt available) w in
      let made =
        create_all-size length length-insert (maker.create_delegator block) (smaller drawn.0 80) d
          drawn.1 in
      ground (arith, made)

lookup-remove_all :
    (id : ℕ) (ids : List ℕ) (d : Dict Member)
    → lookup id (remove_all ids d) ≡ (if elem id ids then none else lookup id d)
unfolding remove_all
lookup-remove_all id [] d = refl
lookup-remove_all id (x ∷ ids) d =
    ground (arith, lookup-remove_all id ids (erase x d), lookup-erase id x d)

partition-missing :
    (id : ℕ) (d : Dict Member)
    → lookup id d ≡ none
    → (elem id (partition d).0 ≡ false) × (elem id (partition d).1 ≡ false)
unfolding partition
partition-missing id [] h = (refl, refl)
partition-missing id ((j, m) ∷ d) h = ground (arith, h, partition-missing id d)

partition-held :
    (id : ℕ) (m : Member) (d : Dict Member)
    → Nodup d
    → lookup id d ≡ some m
    → (elem id (partition d).0 ≡ not (is_withdrawn m.status))
      × (elem id (partition d).1 ≡ is_withdrawn m.status)
unfolding partition
partition-held id m [] u h = cc
partition-held id m ((j, x) ∷ d) u h =
    ground (arith, h, u.0, partition-missing id d, partition-held id m d u.1)

-- Of lifecycles with different hashes, a sweep gives exactly those to the workers that have not
-- withdrawn, keeps these as they are, and removes the others.
pub sweep_lem :
    (d : Dict Member) (id : ℕ) (m : Member)
    → Nodup d
    → lookup id d ≡ some m
    → (elem id (sweep d).0 ≡ not (is_withdrawn m.status))
      × (lookup id (sweep d).1 ≡ (if is_withdrawn m.status then none else some m))
unfolding sweep
sweep_lem d id m u h =
    ground (arith, h, partition-held id m d u h, lookup-remove_all id (partition d).1 d)
