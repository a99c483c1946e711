-- ===== src/Tests/Bridge.antt =====
-- A transfer between two parachains, from the burn to the mint.
use ismp_substrate.Base.{ℕ, ◌+◌, ◌≤◌, ◌≡◌, ◌≢◌, refl, some, ok, [], ◌∷◌, arith}
use ismp_substrate.StorageMap
use ismp_substrate.Ismp.{bytes_key, StateMachine}
use ismp_substrate.Pallet.{Runtime}
use ismp_substrate.Demo.{destination, transfer}
use ismp_substrate.Demo.Data.{AccountId, Chain}
use ismp_substrate.Demo.Callbacks.{on_accept}
use ismp_substrate.Demo.Transfers.{sent, transfer-on_accept}
use ismp_substrate.Demo.Bridge.{Side, left, right, put, Flight, World}
use ismp_substrate.Mmr.Storage.Invariant.{HoldsPeaks}
use ismp_substrate.Tests.Ranges.{mmr_lib-AppendsLeaf}
use ismp_substrate.Tests.Chain.{runtime, genesis-HoldsPeaks}
use ismp_substrate.Tests.Transfers.{
  Ledger, mint, outer, outer-MovesFunds, alice, bob, payment, here, there, paid, alice_pays,
}

abbrev runtimes : Side → Runtime
runtimes left = runtime
runtimes right = record runtime { state_machine = StateMachine.kusama 2001 }

abbrev ids : Side → ℕ
ids left = 2000
ids right = 2001

abbrev both : Side → Chain Ledger
both left = here
both right = there

abbrev genesis_world : World Ledger
genesis_world = record { chains = both; flying = [] }

-- the transfer of the payment, and its message taken on the other chain
paid_over :
    (d' : Chain Ledger) × (e' : Chain Ledger) × (transfer runtime outer (some alice) payment here
      ≡ some (ok tt, d'))
    × HoldsPeaks d'.state
    × (on_accept outer
          (sent runtime mmr_lib-AppendsLeaf outer outer-MovesFunds alice payment
            (StateMachine.kusama 2001)
            here)
          there
        ≡ (ok tt, e'))
    × (outer.balance e'.ledger bob ≡ outer.balance there.ledger bob + 30)
    × ((k : AccountId) → k ≢ bob → outer.balance e'.ledger k ≡ outer.balance there.ledger k)
    × (outer.balance d'.ledger alice + outer.balance e'.ledger bob
        ≤ outer.balance here.ledger alice + outer.balance there.ledger bob)
    × (outer.balance here.ledger alice + outer.balance there.ledger bob
        ≤ outer.balance d'.ledger alice + outer.balance e'.ledger bob + 5)
unfolding StorageMap.contains_key StorageMap.get destination
paid_over =
    transfer-on_accept runtime mmr_lib-AppendsLeaf outer outer-MovesFunds alice payment
      (StateMachine.kusama 2001) here paid there (mint bob 30 there.ledger).1 genesis-HoldsPeaks
      (omega arith) refl refl alice_pays refl

abbrev flight : Flight
flight = record { from = left; origin = alice; params = payment; nonce = 0 }

abbrev departed : World Ledger
departed = record { chains = put left paid_over.0 both; flying = flight ∷ [] }

abbrev arrived : World Ledger
arrived = record { chains = put right paid_over.1 departed.chains; flying = [] }
