-- ===== src/Examples/Tickers.antt =====
-- A chain that has a block more after each request, with a timer that fires in every other round.
use hayabusa_e2e.Prelude.{
  ℕ, suc, ◌≡◌, ◌≤◌, ◌<◌, ◌⊎◌, inl, inr, refl, Bool, true, false, Option, none, some, ap, arith,
}
use hayabusa_e2e.Prelude.Go.{ok}
use hayabusa_e2e.Network.Ticker.{ExpandedBlock, best_block, BlockClient, waits, wait_for_block}
use hayabusa_e2e.Network.Ticking.{Timed, Climbs, Ascends, waits-Ascends}
use hayabusa_e2e.Network.Awaited.{Awaits, wait_for_block-Awaits}

abbrev fires_at : ℕ × Bool → Bool × (ℕ × Bool)
fires_at (h, true) = (false, (h, false))
fires_at (h, false) = (true, (h, true))

abbrev client : BlockClient
client = record {
  World = ℕ × Bool;
  expanded_block = λ r w. ((some (record { number = w.0; timestamp = 100 }), none), (suc w.0, w.1));
  fires = fires_at;
  sleep = λ w. w;
  now = λ w. (100, w);
  is_ahead = λ t w. (true, w);
  condition = λ w. (ok true, w);
}

abbrev number_of : Option ExpandedBlock → ℕ
number_of none = 0
number_of (some b) = b.number

abbrev rounds_left : ℕ × Bool → ℕ
rounds_left (h, true) = 1
rounds_left (h, false) = 0

few : (w : ℕ × Bool) → rounds_left w < 2
few (h, true) = omega arith
few (h, false) = omega arith

runs_out : (w : ℕ × Bool) → ((fires_at w).0 ≡ true) ⊎ (rounds_left (fires_at w).1 < rounds_left w)
runs_out (h, true) = inr (omega arith)
runs_out (h, false) = inl refl

as_before : (w : ℕ × Bool) → rounds_left (suc w.0, w.1) ≤ rounds_left w
as_before (h, true) = omega arith
as_before (h, false) = omega arith

not_lower : (w : ℕ × Bool) → w.0 ≤ ((fires_at w).1).0
not_lower (h, true) = omega arith
not_lower (h, false) = omega arith

timed : Timed client rounds_left
timed = record { runs_out = runs_out; by_block = λ r w. as_before w; by_sleep = λ w. omega arith }

same_number :
    (w : ℕ × Bool) (b : ExpandedBlock)
    → ((client.expanded_block best_block w).0) ≡ (some b, none)
    → w.0 ≡ b.number
same_number w b h = ap (λ a. number_of a.0) h

climbs : Climbs client (λ w. w.0)
climbs = record {
  on_fires = not_lower;
  on_block = λ r w. omega arith;
  on_sleep = λ w. omega arith;
  given = λ w b h. (omega (arith, same_number w b h), omega (arith, same_number w b h));
  not_nil = λ w h. cc;
}

waits_example : Ascends client rounds_left timed (λ w. w.0) climbs 5 (waits client 3 2 (5, true))
waits_example = waits-Ascends client rounds_left timed (λ w. w.0) climbs 2 3 (5, true) few

wait_for_block_example :
    Awaits client rounds_left timed 6 (5, true) (wait_for_block client 2 6 (5, true))
wait_for_block_example = wait_for_block-Awaits client rounds_left timed 2 few 6 (5, true)
