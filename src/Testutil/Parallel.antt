-- ===== src/Testutil/Parallel.antt =====
-- utils/senders.go and cmd/network/add_validators.go: Send and what it is used for.
use hayabusa_e2e.Prelude.{
  ℕ, zero, suc, ◌≡◌, ◌≤◌, ◌<◌, refl, sym, ap, subst, ◌∙◌, true, Option, none, some, List, [], ◌∷◌,
  ◌++◌, length, get_elem?, elem, Distinct, arith, take, length-take, append_assoc, append-nil,
}
use hayabusa_e2e.Prelude.Go.{Error, Reply, ok, err, Outcome, returns, fails, panics, diverges}
use mathlib.Core.Option.{some-injective}
use hayabusa_e2e.Workers.Counts.{length-replicate}
use hayabusa_e2e.Testutil.Senders.{
  Client, Sends, add, present, begin_sends, send_all_in, senders_of, events_of, confirmed_or,
  validators_sent, add_validators,
}
use hayabusa_e2e.Testutil.Confirmed.{get-replicate, get-below, Wrote, Told, finish_in-Told}

-- The senders are those of the first so many accounts.
senders_of-some :
    (n : ℕ) (accounts senders all : List ℕ)
    → senders_of n accounts senders ≡ some all
    → all ≡ senders ++ take n accounts
unfolding senders_of add
senders_of-some zero accounts senders all h =
    sym (some-injective senders all h) ∙ sym (append-nil senders)
senders_of-some (suc n) [] senders all h = cc
senders_of-some (suc n) (account ∷ accounts) senders all h =
    senders_of-some n accounts (senders ++ (account ∷ [])) all h
    ∙ append_assoc senders (account ∷ []) (take n accounts)

senders_of-none :
    (n : ℕ) (accounts senders : List ℕ) → senders_of n accounts senders ≡ none → length accounts < n
unfolding senders_of add
senders_of-none zero accounts senders h = cc
senders_of-none (suc n) [] senders h = omega arith
senders_of-none (suc n) (account ∷ accounts) senders h =
    omega (arith, senders_of-none n accounts (senders ++ (account ∷ [])) h)

senders_of-enough :
    (n : ℕ) (accounts senders all : List ℕ)
    → senders_of n accounts senders ≡ some all
    → n ≤ length accounts
unfolding senders_of add
senders_of-enough zero accounts senders all h = omega arith
senders_of-enough (suc n) [] senders all h = absurd (cc)
senders_of-enough (suc n) (account ∷ accounts) senders all h =
    omega (arith, senders_of-enough n accounts (senders ++ (account ∷ [])) all h)

module _ (e : Client) (order : List ℕ) (one : Distinct order) where
  -- In whatever order the calls of the senders end: once all have, Send has made the call of each
  -- sender, and its three slices hold at the sender's index what the call has answered, a receipt
  -- and a transaction with no error, or an error alone.
  pub send_all_in-Told :
      (senders : List ℕ) (w : e.World) (i sender : ℕ)
      → get_elem? senders i ≡ some sender
      → elem i order ≡ true
      → Told e (length senders) senders refl (send_all_in e order senders w).0 i sender
  unfolding send_all_in begin_sends
  send_all_in-Told senders w i sender there inside =
      let n = length senders in
      let low = get-below i senders there in
      finish_in-Told e n senders refl order i sender (begin_sends e senders w) there
        (length-replicate n none, length-replicate n none, length-replicate n none) one inside
        (get-replicate n i none low, get-replicate n i none low, get-replicate n i none low)

  -- The sender's call has given a receipt and a transaction.
  abbrev pub IsConfirmed : ℕ → Type 0
  IsConfirmed sender = (w : e.World) × (p : ℕ × ℕ) × ((e.submit_and_confirm sender w).0 ≡ ok p)

  abbrev pub AreConfirmed : List ℕ → Type 0
  AreConfirmed [] = Unit
  AreConfirmed (sender ∷ senders) = IsConfirmed sender × AreConfirmed senders

  present-nil :
      (errs : List (Option Error)) (i : ℕ) (x : Error)
      → present errs ≡ []
      → ¬ (get_elem? errs i ≡ some (some x))
  present-nil [] i x h k = cc
  present-nil (none ∷ errs) zero x h k = cc
  present-nil (none ∷ errs) (suc i) x h k = present-nil errs i x h k
  present-nil (some y ∷ errs) i x h k = cc

  Wrote-IsConfirmed :
      (s : Sends e.World) (i sender : ℕ) (w : e.World) (r : Reply (ℕ × ℕ))
      → (e.submit_and_confirm sender w).0 ≡ r
      → present s.errs ≡ []
      → Wrote s i r
      → IsConfirmed sender
  Wrote-IsConfirmed s i sender w (err x) h clean wrote =
      absurd (present-nil s.errs i x clean wrote.2)
  Wrote-IsConfirmed s i sender w (ok p) h clean wrote = (w, p, h)

  get-AreConfirmed :
      (senders : List ℕ)
      → ((i sender : ℕ) → get_elem? senders i ≡ some sender → IsConfirmed sender)
      → AreConfirmed senders
  get-AreConfirmed [] h = tt
  get-AreConfirmed (sender ∷ senders) h =
      (h 0 sender refl, get-AreConfirmed senders (λ i s k. h (suc i) s k))

  -- What `addValidators` answers: where it returns, there were accounts enough, and the transaction
  -- of each validator was confirmed.
  abbrev pub AddsAll : List ℕ → ℕ → Outcome (List ℕ) e.World → Type 0
  AddsAll accounts n (returns events w) = (n ≤ length accounts) × AreConfirmed (take n accounts)
  AddsAll accounts n (fails x w) = Unit
  AddsAll accounts n panics = length accounts < n
  AddsAll accounts n diverges = ⊥

  ended-AddsAll :
      (accounts : List ℕ) (n : ℕ) (w : e.World) (r : Reply (List ℕ))
      → (n ≤ length accounts) × AreConfirmed (take n accounts)
      → AddsAll accounts n (events_of e r w)
  ended-AddsAll accounts n w (err x) h = tt
  ended-AddsAll accounts n w (ok events) h = h

  joined-AddsAll :
      (accounts : List ℕ) (n : ℕ) (w : e.World) (xs : List Error)
      → (xs ≡ [] → (n ≤ length accounts) × AreConfirmed (take n accounts))
      → AddsAll accounts n
          (confirmed_or e (elim xs [ [] ↦ none | x ∷ rest ↦ some (e.join (x ∷ rest)) ]) w)
  joined-AddsAll accounts n w [] h =
      ended-AddsAll accounts n (e.queued_events w).1 (e.queued_events w).0 (h refl)
  joined-AddsAll accounts n w (x ∷ xs) h = tt

  sent-AddsAll :
      (accounts : List ℕ) (n : ℕ) (w : e.World) (o : Option (List ℕ))
      → senders_of n accounts [] ≡ o
      → ((i : ℕ) → i < n → elem i order ≡ true)
      → AddsAll accounts n (validators_sent e order o w)
  unfolding send_all_in
  sent-AddsAll accounts n w none h all_end = senders_of-none n accounts [] h
  sent-AddsAll accounts n w (some senders) h all_end =
      let s = (send_all_in e order senders w).0 in
      let first = senders_of-some n accounts [] senders h in
      let enough = senders_of-enough n accounts [] senders h in
      let as_many : length senders ≤ n = omega (arith, ap length first, length-take n accounts) in
      joined-AddsAll accounts n s.world (present s.errs) (λ clean. (
        enough,
        subst AreConfirmed first (
            get-AreConfirmed senders (λ i sender there.
              let inside = all_end i (omega (arith, as_many, get-below i senders there)) in
              let (v, wrote) = send_all_in-Told senders w i sender there inside in
              Wrote-IsConfirmed s i sender v (e.submit_and_confirm sender v).0 refl clean wrote)),
      ))

  -- In whatever order the calls of Send end, each once: addValidators returns events only if there
  -- are as many accounts as block proposers and the transaction of each of these accounts was
  -- confirmed, and it panics only if there are fewer accounts.
  pub add_validators-AddsAll :
      (accounts : List ℕ) (n : ℕ) (w : e.World)
      → ((i : ℕ) → i < n → elem i order ≡ true)
      → AddsAll accounts n (add_validators e order accounts n w)
  unfolding add_validators
  add_validators-AddsAll accounts n w all_end =
      sent-AddsAll accounts n w (senders_of n accounts []) refl all_end
