-- ===== src/Demo/Bridge/Supply.antt =====
-- What is issued on two parachains that run ismp-demo/src/lib.rs, and what is on its way between
-- them.
use ismp_substrate.Base.{ℕ, ◌+◌, ◌*◌, ◌≤◌, List, [], ◌∷◌}
use ismp_substrate.Pallet.{Runtime}
use ismp_substrate.Demo.Data.{Outer, Chain}
use ismp_substrate.Demo.Bridge.{Issues, Side, left, right, Flight, World}

module _ {Ledger : Type 0} (r : Side → Runtime) (o : Outer Ledger) (issues : Issues o)
    (ids : Side → ℕ) where
  abbrev pub amounts : List Flight → ℕ
  amounts [] = 0
  amounts (f ∷ fs) = f.params.amount + amounts fs

  -- what is issued on the two chains
  abbrev pub issued : (Side → Chain Ledger) → ℕ
  issued chains = issues.total (chains left).ledger + issues.total (chains right).ledger

  -- what is issued and on its way
  abbrev pub supply : World Ledger → ℕ
  supply w = issued w.chains + amounts w.flying

  -- The supply has not risen, and has fallen by so many minimum balances at most.
  abbrev pub Conserves : World Ledger → ℕ → World Ledger → Type 0
  Conserves w n w' = (supply w' ≤ supply w) × (supply w ≤ supply w' + n * o.minimum_balance)
