-- ===== src/Cleanup/Run.antt =====
-- delegations.go: the search for delegations that are locked or can be withdrawn, in pages of a
-- thousand identifiers, and the transactions for them, in groups of a hundred. Each round of a
-- loop takes one unit of fuel. `previous_cleaned` is the number behind the pointer of that name,
-- which `Add` writes to.
use hayabusa_e2e.Prelude.{
  ℕ, zero, suc, ◌+◌, ◌-◌, Bool, true, false, Option, none, some, List, [], ◌∷◌, ◌++◌, ltb, leb,
  if◌then◌else◌, length, take, drop,
}
use hayabusa_e2e.Prelude.Go.{Reply, ok, err, Outcome, returns, fails, diverges, ◌>>=◌, ◌>>◌}

-- The thor client and the contract service, and the wait for a block, of which the code ignores
-- how it ends.
pub record Chain : Type 1 where
  pub World : Type 0
  -- the identifiers of the last delegation added, if there is one
  pub filter_delegation_added : World → Reply (List ℕ) × World
  pub fetch_locked_delegators : ℕ → ℕ → World → Reply (List ℕ × List ℕ) × World
  pub send_exit : ℕ → World → Reply ℕ × World
  pub send_withdrawal : ℕ → World → Reply ℕ × World
  pub wait : World → World

pub record Cleanup (W : Type 0) : Type 0 where
  pub previous_cleaned : Option ℕ
  pub world : W

abbrev pub search_limit : ℕ
search_limit = 999

abbrev pub group_size : ℕ
group_size = 100

-- Of two lists that the search collects.
pub record Found : Type 0 where
  pub locked : List ℕ
  pub withdrawable : List ℕ

unfoldable pub page_end : ℕ → ℕ → ℕ
page_end current last = if ltb last (current + search_limit) then last else current + search_limit

-- `delegations[i:end]` for each multiple `i` of the group size.
unfoldable pub groups_from : ℕ → ℕ → List ℕ → List (List ℕ)
groups_from zero i ids = []
groups_from (suc fuel) i ids =
    let rest = groups_from fuel (i + group_size) ids in
    let end = if ltb (length ids) (i + group_size) then length ids else i + group_size in
    if ltb i (length ids) then take (end - i) (drop i ids) ∷ rest else []

unfoldable pub groups : List ℕ → List (List ℕ)
unfolding groups_from
groups ids = groups_from (length ids) 0 ids

module _ (e : Chain) where
  abbrev pub Handler : Type 0 → Type 0
  Handler A = Cleanup e.World → Outcome A (Cleanup e.World)

  -- The error of a transaction is logged.
  unfoldable pub send_all : (ℕ → e.World → Reply ℕ × e.World) → List ℕ → e.World → e.World
  send_all send [] w = w
  send_all send (id ∷ ids) w = send_all send ids (send id w).1

  unfoldable pub send_groups : (ℕ → e.World → Reply ℕ × e.World) → List (List ℕ) → e.World → e.World
  unfolding send_all
  send_groups send [] w = w
  send_groups send (ids ∷ rest) w = send_groups send rest (e.wait (send_all send ids w))

  unfoldable pub exit_delegations : (ℕ → e.World → Reply ℕ × e.World) → List ℕ → Handler (Unit {0})
  unfolding send_groups groups
  exit_delegations send ids s =
      returns tt (record s { world = send_groups send (groups ids) s.world })

  unfoldable pub page_fetched :
      Reply (List ℕ × List ℕ) → (Found → Handler Found) → Found → Handler Found
  page_fetched (err x) rest f s = fails x s
  page_fetched (ok (locked, withdrawable)) rest f s =
      rest (record { locked = f.locked ++ locked; withdrawable = f.withdrawable ++ withdrawable }) s

  unfoldable pub search : ℕ → ℕ → ℕ → Found → Handler Found
  unfolding page_fetched page_end
  search zero current last f s = diverges
  search (suc fuel) current last f s =
      let rest = search fuel (page_end current last + 1) last in
      let (r, w) = e.fetch_locked_delegators current (page_end current last) s.world in
      if leb current last then page_fetched r rest f (record s { world = w }) else returns f s

  -- `c.previousCleaned.Add(c.previousCleaned, 1)` writes the sum to `previousCleaned`, too.
  unfoldable pub first_id : Handler ℕ
  first_id s = elim s.previous_cleaned [
    | none ↦ returns 1 s
    | some p ↦ returns (p + 1) (record s { previous_cleaned = some (p + 1) })
  ]

  abbrev is_empty : List ℕ → Bool
  is_empty [] = true
  is_empty (x ∷ xs) = false

  unfoldable pub exit_some : (ℕ → e.World → Reply ℕ × e.World) → List ℕ → Handler (Unit {0})
  unfolding exit_delegations
  exit_some send ids s = if is_empty ids then returns tt s else exit_delegations send ids s

  unfoldable pub events_found : ℕ → Reply (List ℕ) → Handler (Unit {0})
  unfolding search first_id exit_some
  events_found fuel (err x) s = fails x s
  events_found fuel (ok []) s = returns tt s
  events_found fuel (ok (last ∷ more)) s =
      (do
        current ← first_id
        found ← search fuel current last (record { locked = []; withdrawable = [] })
        exit_some e.send_exit found.locked
        exit_some e.send_withdrawal found.withdrawable
        (λ t. returns tt (record t { previous_cleaned = some last })))
        s

  unfoldable pub run : ℕ → Bool → Handler (Unit {0})
  unfolding events_found
  run fuel false s = returns tt s
  run fuel true s =
      let (r, w) = e.filter_delegation_added s.world in events_found fuel r (record s { world = w })
