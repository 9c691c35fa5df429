-- ===== src/Sending/Stack.antt =====
-- stack.go: the transaction stack that all lifecycles send through. The thor client is a parameter;
-- the stack's lock makes `makeTx` and a round of `pollBlocks` atomic.
use hayabusa_e2e.Prelude.{
  ℕ, zero, suc, ◌+◌, ◌*◌, Bool, false, Option, none, some, ltb, ◌==◌, if◌then◌else◌, u32,
}
use hayabusa_e2e.Prelude.Go.{Error, Reply, ok, err, Outcome, returns, fails, ◌>>=◌}
use hayabusa_e2e.Prelude.Dict.{Dict, lookup, insert, erase}
use hayabusa_e2e.Services.{Method, Receipt}
use hayabusa_e2e.Delegations.Transaction.{debug_revert, default_expiration}
use hayabusa_e2e.Generator.Strategies.{StakingPeriods}

-- The fields of `api.JSONCollapsedBlock` that the code reads; the base fee may be nil.
pub record Block : Type 0 where
  pub id : ℕ
  pub number : ℕ
  pub base_fee_per_gas : Option ℕ

-- `bind.TxOptions`.
pub record TxOptions : Type 0 where
  pub max_fee_per_gas : ℕ
  pub max_priority_fee_per_gas : Option ℕ
  pub gas : ℕ
  pub expiration : ℕ

-- `bind.SendBuilder`: a call with its options and its signer.
pub record SendBuilder : Type 0 where
  pub method : Method
  pub options : TxOptions
  pub signer : ℕ

pub record Client : Type 1 where
  pub World : Type 0
  -- `thor.InitialBaseFee`
  pub initial_base_fee : ℕ
  pub best_block : World → Reply Block × World
  pub fees_priority : World → Reply ℕ × World
  pub submit : SendBuilder → World → Reply ℕ × World
  -- within a minute
  pub submit_and_confirm : SendBuilder → World → Reply Receipt × World
  -- the error of `method.Call()` at the receipt's block, if there is one
  pub execute_call : Method → Receipt → World → Option Error × World

-- `Stack`, with the world that it sends to.
pub record Stack (W : Type 0) : Type 0 where
  pub best : Option Block
  pub sent_txs : Dict ℕ
  pub world : W

-- Of `utils.RandomInt(0, 3)`.
unfoldable pub random_staking_period : StakingPeriods → ℕ → ℕ
random_staking_period c zero = c.low
random_staking_period c (suc zero) = c.medium
random_staking_period c (suc (suc n)) = c.high

-- `m[key]`, which is zero where there is none.
abbrev pub sent_count : Option ℕ → ℕ
sent_count none = 0
sent_count (some n) = n

module _ (e : Client) where
  abbrev pub Handler : Type 0 → Type 0
  Handler A = Stack e.World → Outcome A (Stack e.World)

  unfoldable pub fetched : Reply Block → Handler Block
  fetched (err x) s = fails x s
  fetched (ok b) s = returns b (record s { best = some b })

  unfoldable pub best_known : Handler Block
  unfolding fetched
  best_known s = elim s.best [
    | some b ↦ returns b s
    | none ↦ let (r, w) = e.best_block s.world in fetched r (record s { world = w })
  ]

  -- Twice the fee that the client proposes, and none if it cannot tell.
  unfoldable pub priority_fee : Reply ℕ → Option ℕ
  priority_fee (err x) = none
  priority_fee (ok fee) = some (fee * 2)

  abbrev pub base_fee : Block → ℕ
  base_fee b = elim b.base_fee_per_gas [ none ↦ e.initial_base_fee | some fee ↦ fee ]

  unfoldable pub counted : Block → Stack e.World → Stack e.World
  counted b s =
      let next = u32 (b.number + 1) in
      if ltb 3 b.number
      then record s { sent_txs = insert next (sent_count (lookup next s.sent_txs) + 1) s.sent_txs }
      else s

  unfoldable pub options_for : Block → Option ℕ → TxOptions
  options_for b fee = record {
    max_fee_per_gas = base_fee b * 2;
    max_priority_fee_per_gas = fee;
    gas = 1000000;
    expiration = default_expiration;
  }

  unfoldable pub make_tx : Method → ℕ → Handler SendBuilder
  unfolding best_known priority_fee counted options_for
  make_tx m signer s =
      (do
        b ← best_known
        (λ t.
            let (r, w) = e.fees_priority t.world in
            returns
              (record { method = m; options = options_for b (priority_fee r); signer = signer })
              (counted b (record t { world = w }))))
        s

  unfoldable pub submitted : SendBuilder → Handler ℕ
  submitted b s =
      let (r, w) = e.submit b s.world in
      elim r [
        | err x ↦ fails x (record s { world = w })
        | ok tx ↦ returns tx (record s { world = w })
      ]

  unfoldable pub send_transaction : Method → ℕ → Handler ℕ
  unfolding make_tx submitted
  send_transaction m signer s = (make_tx m signer >>= submitted) s

  unfoldable pub confirmed : Method → Reply Receipt → Handler Receipt
  unfolding debug_revert
  confirmed m (err x) s = fails x s
  confirmed m (ok r) s =
      let (o, w) = e.execute_call m r s.world in
      if r.reverted then fails (debug_revert o) (record s { world = w }) else returns r s

  unfoldable pub sent_and_confirmed : Method → SendBuilder → Handler Receipt
  unfolding confirmed
  sent_and_confirmed m b s =
      let (r, w) = e.submit_and_confirm b s.world in confirmed m r (record s { world = w })

  unfoldable pub send_transaction_and_wait : Method → ℕ → Handler Receipt
  unfolding make_tx sent_and_confirmed
  send_transaction_and_wait m signer s = (make_tx m signer >>= sent_and_confirmed m) s

  abbrev is_same : Option Block → Block → Bool
  is_same none b = false
  is_same (some p) b = p.id == b.id

  abbrev forget : Option ℕ → ℕ → Dict ℕ → Dict ℕ
  forget none n d = d
  forget (some count) n d = if ltb 0 count then erase n d else d

  unfoldable pub polled : Reply Block → Stack e.World → Stack e.World
  polled (err x) s = s
  polled (ok b) s = if is_same s.best b then s else record s {
    best = some b;
    sent_txs = forget (lookup b.number s.sent_txs) b.number s.sent_txs;
  }

  -- A tick of `pollBlocks`.
  unfoldable pub poll_blocks : Stack e.World → Stack e.World
  unfolding polled
  poll_blocks s = let (r, w) = e.best_block s.world in polled r (record s { world = w })
