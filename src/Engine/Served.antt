-- ===== src/Engine/Served.antt =====
-- engine.go with worker_pool.go: what becomes of the lifecycles in a round of Run.
use hayabusa_e2e.Prelude.{
  ℕ, zero, suc, ◌+◌, ◌-◌, ◌/◌, ◌≡◌, refl, ap, ◌∙◌, Option, none, some, List, [], ◌∷◌, if◌then◌else◌,
  if-case, arith,
}
use hayabusa_e2e.Prelude.Go.{Reply, ok, err}
use hayabusa_e2e.Prelude.Int.{ℤ, pos}
use hayabusa_e2e.Prelude.Dict.{Dict, lookup, insert, erase}
use hayabusa_e2e.Prelude.Dict.Sum.{Nodup, insert-Nodup, erase-Nodup}
use hayabusa_e2e.Generator.Strategies.{Source, random_between}
use hayabusa_e2e.Workers.Pool.{Pool, Reach, fresh, submitted, begun, stepped, Waited}
use hayabusa_e2e.Workers.Counts.{count}
use hayabusa_e2e.Workers.Order.{Reach-Sound}
use hayabusa_e2e.Workers.Refinement.{all_done_counts}
use hayabusa_e2e.Engine.Cycles.{
  Member, Maker, added, create_all, count_live, generate_validator_cycles,
  generate_delegator_cycles, larger, smaller, is_withdrawn, partition, remove_all, sweep,
}
use hayabusa_e2e.Engine.Population.{sweep_lem}
use hayabusa_e2e.Engine.Rounds.{
  Engine, Surroundings, new_engine, observed, Fed, all_fed, feeds, waits, given_onto, add_lifecycle,
  generated, answered, round, Reached,
}

Fed-Reach :
    (n : ℤ) (ids jobs : List ℕ) (s t : Pool)
    → Fed ids s t
    → Reach n jobs s
    → Reach n (given_onto ids jobs) t
Fed-Reach n ids jobs s t all_fed r = r
Fed-Reach n ids jobs s t (feeds f) r = Fed-Reach n _ _ _ t f (submitted _ r)
Fed-Reach n ids jobs s t (waits x f) r = Fed-Reach n ids jobs _ t f (stepped r x)

count-given_onto :
    (a : ℕ) (ids jobs : List ℕ) → count a (given_onto ids jobs) ≡ count a ids + count a jobs
count-given_onto a [] jobs = omega arith
count-given_onto a (id ∷ ids) jobs = omega (arith, count-given_onto a ids (id ∷ jobs))

-- How often a sweep gives a lifecycle to the workers.
count-missing : (id : ℕ) (d : Dict Member) → lookup id d ≡ none → count id (partition d).0 ≡ 0
unfolding partition
count-missing id [] h = refl
count-missing id ((j, m) ∷ d) h = ground (arith, h, count-missing id d)

count-partition :
    (id : ℕ) (m : Member) (d : Dict Member)
    → Nodup d
    → lookup id d ≡ some m
    → count id (partition d).0 ≡ (if is_withdrawn m.status then 0 else 1)
unfolding partition
count-partition id m [] n h = cc
count-partition id m ((j, x) ∷ d) n h =
    ground (arith, h, n.0, count-missing id d, count-partition id m d n.1)

remove_all-Nodup : (ids : List ℕ) (d : Dict Member) → Nodup d → Nodup (remove_all ids d)
unfolding remove_all
remove_all-Nodup [] d h = h
remove_all-Nodup (id ∷ ids) d h = remove_all-Nodup ids (erase id d) (erase-Nodup id d h)

module _ {W : Type 0} (u : Surroundings W) (w : W) where
  lookup-observed-none :
      (id : ℕ) (d : Dict Member) → lookup id d ≡ none → lookup id (observed u w d) ≡ none
  lookup-observed-none id [] h = refl
  lookup-observed-none id ((j, m) ∷ d) h = ground (arith, h, lookup-observed-none id d)

  lookup-observed :
      (id : ℕ) (m : Member) (d : Dict Member)
      → lookup id d ≡ some m
      → lookup id (observed u w d) ≡ some (record m { status = u.status id w })
  lookup-observed id m [] h = cc
  lookup-observed id m ((j, x) ∷ d) h = ground (arith, h, lookup-observed id m d)

  observed-Nodup : (d : Dict Member) → Nodup d → Nodup (observed u w d)
  observed-Nodup [] h = tt
  observed-Nodup ((j, m) ∷ d) (new, h) = (lookup-observed-none j d new, observed-Nodup d h)

sweep-Nodup : (d : Dict Member) → Nodup d → Nodup (sweep d).1
unfolding sweep
sweep-Nodup d h = remove_all-Nodup (partition d).1 d h

-- A sweep of what is observed, by the statuses that the lifecycles have then.
observed-sweep :
    {W : Type 0} (u : Surroundings W) (w : W) (d : Dict Member) (id : ℕ) (m : Member)
    → Nodup d
    → lookup id d ≡ some m
    → (count id (sweep (observed u w d)).0 ≡ (if is_withdrawn (u.status id w) then 0 else 1))
      × (lookup id (sweep (observed u w d)).1 ≡ (
          if is_withdrawn (u.status id w)
          then none
          else some (record m { status = u.status id w })))
unfolding sweep
observed-sweep u w d id m h held =
    let seen = lookup-observed u w id m d held in
    let one = observed-Nodup u w d h in
    (
      count-partition id (record m { status = u.status id w }) (observed u w d) one seen,
      (sweep_lem (observed u w d) id (record m { status = u.status id w }) one seen).1,
    )

module _ (e : Source) (maker : Maker e.World) where
  added-Nodup :
      (r : Option Member × e.World) (d : Dict Member)
      (rest : Dict Member → e.World → Dict Member × e.World)
      → ((d' : Dict Member) (w : e.World) → Nodup d' → Nodup (rest d' w).0)
      → Nodup d
      → Nodup (added e maker r d rest).0
  unfolding added
  added-Nodup (none, w) d rest k h = h
  added-Nodup (some m, w) d rest k h =
      let (id, w') = maker.random_hash w in k (insert id m d) w' (insert-Nodup id m d h)

  create_all-Nodup :
      (create : e.World → Option Member × e.World) (n : ℕ) (d : Dict Member) (w : e.World)
      → Nodup d
      → Nodup (create_all e maker create n d w).0
  unfolding create_all
  create_all-Nodup create zero d w h = h
  create_all-Nodup create (suc n) d w h =
      added-Nodup (create w) d (create_all e maker create n) (create_all-Nodup create n) h

  generate_validator_cycles-Nodup :
      (block mbp : ℕ) (d : Dict Member) (w : e.World)
      → Nodup d
      → Nodup (generate_validator_cycles e maker block mbp d w).0
  unfolding generate_validator_cycles
  generate_validator_cycles-Nodup block mbp d w h =
      let drawn = random_between e 0 (mbp / 8) w in
      let spaces = mbp + larger drawn.0 3 - count_live d in
      let amount = random_between e 0 spaces drawn.1 in
      create_all-Nodup (maker.create_validator block) amount.0 d amount.1 h

  generate_delegator_cycles-Nodup :
      (sqrt : ℤ → ℕ) (block : ℕ) (available : ℤ) (d : Dict Member) (w : e.World)
      → Nodup d
      → Nodup (generate_delegator_cycles e maker sqrt block available d w).0
  unfolding generate_delegator_cycles
  generate_delegator_cycles-Nodup sqrt block available d w h =
      let drawn = random_between e (sqrt available / 2) (sqrt available) w in
      create_all-Nodup (maker.create_delegator block) (smaller drawn.0 80) d drawn.1 h

  module _ (u : Surroundings e.World) (mbp : ℕ) (sqrt : ℤ → ℕ) where
    generated-Nodup :
        (block : ℕ) (d : Dict Member) (w : e.World)
        → Nodup d
        → Nodup (generated e maker u mbp sqrt block d w).0
    unfolding generated
    generated-Nodup block d w h =
        let (active, w₁) = u.has_active w in
        let made = generate_validator_cycles e maker block mbp (observed u w₁ d) w₁ in
        let (available, w₃) = u.available made.1 in
        if-case (λ r. Nodup r.0) active
          (generate_delegator_cycles e maker sqrt block available made.0 w₃) (d, w₁)
          (λ some_active. generate_delegator_cycles-Nodup sqrt block available made.0 w₃ (
            generate_validator_cycles-Nodup block mbp (observed u w₁ d) w₁
              (observed-Nodup u w₁ d h)))
          (λ none_active. h)

    answered-Nodup :
        (best : Reply ℕ) (d : Dict Member) (w : e.World)
        → Nodup d
        → Nodup (answered e maker u mbp sqrt best d w).0.1
    unfolding answered
    answered-Nodup (err x) d w h = h
    answered-Nodup (ok block) d w h =
        let made = generated e maker u mbp sqrt block d w in
        sweep-Nodup (observed u made.1 made.0)
          (observed-Nodup u made.1 made.0 (generated-Nodup block d w h))

    round-Nodup :
        (d : Dict Member) (w : e.World) → Nodup d → Nodup (round e maker u mbp sqrt d w).0.1
    unfolding round
    round-Nodup d w h = answered-Nodup (u.wait w).0 d (u.wait w).1 h

    -- Whatever happens, the lifecycles keep different hashes, and the pool has been given the jobs.
    Reached-Sound :
        (jobs : List ℕ) (s : Engine) (w : e.World)
        → Reached e maker u mbp sqrt jobs s w
        → Nodup s.lifecycles × Reach (pos 10) jobs s.worker_pool
    unfolding new_engine add_lifecycle
    Reached-Sound jobs s w (Reached.begun v) = (tt, begun fresh)
    Reached-Sound jobs s w (Reached.joins m r) =
        let (one, pool) = Reached-Sound _ _ _ r in (insert-Nodup _ m _ one, pool)
    Reached-Sound jobs s w (Reached.rounds r f) =
        let (one, pool) = Reached-Sound _ _ _ r in
        (round-Nodup _ _ one, Fed-Reach (pos 10) _ _ _ _ f pool)
    Reached-Sound jobs s w (Reached.works r x) =
        let (one, pool) = Reached-Sound _ _ _ r in (one, stepped pool x)
    Reached-Sound jobs s w (Reached.passes v r) = Reached-Sound _ _ _ r

    -- In any state that an engine reaches, when the ticker gives a block, a round of Run gives each
    -- lifecycle that it then holds to the workers exactly once and keeps it, unless it has withdrawn,
    -- and removes it otherwise: once the pool has been waited for, whatever the order in which its
    -- goroutines and the round went on, the lifecycle has been processed as often as the pool was
    -- given it before, and once more unless it has withdrawn.
    pub round_lem :
        (jobs : List ℕ) (s : Engine) (w : e.World) (block : ℕ) (t : Pool) (id : ℕ) (m : Member)
        → Reached e maker u mbp sqrt jobs s w
        → (u.wait w).0 ≡ ok block
        → lookup id (generated e maker u mbp sqrt block s.lifecycles (u.wait w).1).0 ≡ some m
        → Fed (round e maker u mbp sqrt s.lifecycles w).0.0 s.worker_pool t
        → Waited t
        → let now = u.status id (generated e maker u mbp sqrt block s.lifecycles (u.wait w).1).1 in
          (count id t.executed ≡ count id jobs + (if is_withdrawn now then 0 else 1))
          × (lookup id (round e maker u mbp sqrt s.lifecycles w).0.1
              ≡ (if is_withdrawn now then none else some (record m { status = now })))
    unfolding round answered
    round_lem jobs s w block t id m r best held f over =
        let (one, pool) = Reached-Sound jobs s w r in
        let d = s.lifecycles in
        let w₁ = (u.wait w).1 in
        let made = generated e maker u mbp sqrt block d w₁ in
        let swept : round e maker u mbp sqrt d w ≡ (sweep (observed u made.1 made.0), made.1) =
          rw best refl in
        let (times, kept) =
          observed-sweep u made.1 made.0 id m (generated-Nodup block d w₁ one) held in
        let now_pool = Reach-Sound (pos 10) _ t (Fed-Reach (pos 10) _ jobs _ t f pool) in
        let called = all_done_counts _ t now_pool over id in
        let given = count-given_onto id (round e maker u mbp sqrt d w).0.0 jobs in
        (
          omega (arith, called, given, times, ap (λ x. count id x.0.0) swept),
          ap (λ x. lookup id x.0.1) swept ∙ kept,
        )
