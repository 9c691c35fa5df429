-- ===== src/Delegations/Transaction/Polling.antt =====
-- delegator.go: what sending and polling do to a transaction.
use Prim.Native.String.{String}
use hayabusa_e2e.Prelude.{
  ltb, u32, if◌then◌else◌, ℕ, zero, suc, ◌+◌, ◌≡◌, ◌≢◌, Option, none, some, List, true, arith,
}
use hayabusa_e2e.Prelude.Go.{Error, ok, err, Outcome, returns, Returns, ◌>>=◌}
use hayabusa_e2e.Services.{Services, Receipt, Method}
use hayabusa_e2e.Delegations.Transaction.{
  no_transaction, Sending, debug_revert, is_allowed_revert, send_or_poll,
}

module _ (e : Services) (method : Method) (allowed : List String) where
  -- A receipt comes out only of a transaction that was sent, and is the one that the chain gave
  -- for it; if it is of a reverted transaction, the revert is one of those allowed.
  pub send_or_poll_receipt :
      (s t : Sending e.World) {r : Receipt}
      → send_or_poll e method allowed s ≡ returns (some r) t
      → (s.tx.id ≢ 0)
        × ((e.transaction_receipt s.tx.id s.world).0 ≡ ok r)
        × (t.tx ≡ s.tx)
        × (r.reverted ≡ true
            → is_allowed_revert
                (debug_revert (e.execute_call method r (e.transaction_receipt s.tx.id s.world).1).0)
                allowed
              ≡ true)
  unfolding send_or_poll
  send_or_poll_receipt s t h = grind arith

  -- A call of it for each block.
  unfoldable pub poll_rounds : ℕ → Sending e.World → Outcome (Option Receipt) (Sending e.World)
  poll_rounds zero s = returns none s
  poll_rounds (suc n) s = (do r ← send_or_poll e method allowed; poll_rounds n) s

  poll_not_found :
      (s : Sending e.World) (x : Error)
      → s.tx.id ≢ 0
      → (e.transaction_receipt s.tx.id s.world).0 ≡ err x
      → x.is_not_found ≡ true
      → send_or_poll e method allowed s
        ≡ returns none (record {
          tx =
              if ltb 6 s.tx.poll_attempts
              then no_transaction
              else record (s.tx) { poll_attempts = u32 (s.tx.poll_attempts + 1) };
          world = (e.transaction_receipt s.tx.id s.world).1;
        })
  unfolding send_or_poll
  poll_not_found s x i h n = ground arith

  poll_out :
      (n : ℕ) (s : Sending e.World) (x : Error)
      → s.tx.id ≢ 0
      → s.tx.poll_attempts + n ≡ 7
      → ((w : e.World) → (e.transaction_receipt s.tx.id w).0 ≡ err x)
      → x.is_not_found ≡ true
      → Returns (λ t. t.tx ≡ no_transaction) (poll_rounds (suc n) s)
  unfolding poll_rounds
  poll_out zero s x i a h n = ground (arith, poll_not_found s x i (h s.world) n)
  poll_out (suc m) s x i a h n =
      let later = record (s.tx) { poll_attempts = s.tx.poll_attempts + 1 } in
      let next : Sending e.World = record {
        tx = later;
        world = (e.transaction_receipt s.tx.id s.world).1;
      } in
      let rest = poll_out m next x i (omega arith) h n in
      ground (arith, poll_not_found s x i (h s.world) n, rest)

  -- A transaction that was just sent and that the chain never knows is polled eight times, one
  -- more than seven, and is then forgotten, so that the next block sends it anew.
  pub unknown_is_resent :
      (s : Sending e.World) (x : Error)
      → s.tx.id ≢ 0
      → s.tx.poll_attempts ≡ 0
      → ((w : e.World) → (e.transaction_receipt s.tx.id w).0 ≡ err x)
      → x.is_not_found ≡ true
      → Returns (λ t. t.tx ≡ no_transaction) (poll_rounds 8 s)
  unknown_is_resent s x i a h n = poll_out 7 s x i (omega arith) h n
