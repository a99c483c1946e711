-- ===== src/Demo.antt =====
-- ismp-demo/src/lib.rs: a module that moves balances between chains, over the dispatcher of
-- pallet-ismp. A call's error leaves what was written before it; FRAME rolls it back.
pub mod Data
pub mod Callbacks
pub mod Transfers
pub mod Payments
pub mod Bridge
use ismp_substrate.Base.{
  ℕ, zero, suc, Bool, Option, none, some, List, [], ◌∷◌, ◌++◌, Result, ok, err,
}
use ismp_substrate.Ismp.{
  Bytes, text, StateMachine, DispatchPost, DispatchGet, DispatchRequest, IsmpError,
}
use ismp_substrate.Primitives.ModuleId.{to_bytes}
use ismp_substrate.Pallet.{State, Runtime, Run}
use ismp_substrate.Handlers.Dispatcher.{dispatch_request}
use Data.{
  AccountId, pallet_id, Payload, GetRequest, TransferParams, EvmParams, DemoEvent, DemoError,
  CallError, Outer, Chain,
}

-- `deposit_event`
unfoldable pub deposit : {Ledger : Type 0} → DemoEvent → Chain Ledger → Chain Ledger
deposit e d = record d { events = d.events ++ e ∷ [] }

-- the destination, on the relay chain of the host
unfoldable pub destination : StateMachine → ℕ → Option StateMachine
destination (StateMachine.kusama _) para_id = some (StateMachine.kusama para_id)
destination (StateMachine.polkadot _) para_id = some (StateMachine.polkadot para_id)
destination _ para_id = none

abbrev pub Outcome : Type 0 → Type 0
Outcome Ledger = Run (Result CallError Unit × Chain Ledger)

module _ {Ledger : Type 0} (r : Runtime) (o : Outer Ledger) where
  -- `map_err(|_| …)` of a dispatch, and what follows it
  unfoldable pub dispatched :
      DemoError
      → (Chain Ledger → Chain Ledger)
      → Chain Ledger
      → Run (Result IsmpError Unit × State)
      → Outcome Ledger
  dispatched e done d none = none
  dispatched e done d (some (err _, s)) =
      some (err (CallError.module_error e), record d { state = s })
  dispatched e done d (some (ok _, s)) = some (ok tt, done (record d { state = s }))

  -- the payload of a transfer, and the request that carries it
  abbrev pub payload_of : AccountId → TransferParams → Payload
  payload_of origin params = record { to = params.to; from = origin; amount = params.amount }

  abbrev pub transfer_post : AccountId → TransferParams → StateMachine → DispatchPost
  transfer_post origin params dest = record {
    dest = dest;
    from = to_bytes pallet_id;
    to = to_bytes pallet_id;
    timeout_timestamp = params.timeout;
    body = o.encode_payload (payload_of origin params);
    gas_limit = 0;
  }

  -- after the burn
  unfoldable pub send :
      AccountId → TransferParams → Option StateMachine → Chain Ledger → Outcome Ledger
  unfolding dispatched deposit
  send origin params none d =
      some (err (CallError.other (text "Pallet only supports parachain hosts")), d)
  send origin params (some dest) d =
      dispatched DemoError.transfer_failed
        (deposit (DemoEvent.balance_transferred origin params.to params.amount dest)) d
        (dispatch_request r (DispatchRequest.post (transfer_post origin params dest)) d.state)

  unfoldable pub after_burn :
      AccountId → TransferParams → Result Bytes Unit × Ledger → Chain Ledger → Outcome Ledger
  unfolding send
  after_burn origin params (err e, l) d = some (err (CallError.currency e), record d { ledger = l })
  after_burn origin params (ok _, l) d =
      send origin params (destination r.state_machine params.para_id) (record d { ledger = l })

  -- `transfer`; the origin is `ensure_signed`'s answer
  unfoldable pub transfer : Option AccountId → TransferParams → Chain Ledger → Outcome Ledger
  unfolding after_burn
  transfer none params d = some (err CallError.bad_origin, d)
  transfer (some origin) params d =
      after_burn origin params (o.burn_from origin params.amount d.ledger) d

  unfoldable pub get_from : GetRequest → Option StateMachine → Chain Ledger → Outcome Ledger
  unfolding dispatched
  get_from params none d =
      some (err (CallError.other (text "Pallet only supports parachain hosts")), d)
  get_from params (some dest) d =
      dispatched DemoError.get_dispatch_failed (λ d'. d') d
        (dispatch_request r
          (DispatchRequest.get (record {
            dest = dest;
            from = to_bytes pallet_id;
            keys = params.keys;
            height = params.height;
            timeout_timestamp = params.timeout;
            gas_limit = 0;
          }))
          d.state)

  -- `get_request`
  unfoldable pub get_request : Option AccountId → GetRequest → Chain Ledger → Outcome Ledger
  unfolding get_from destination
  get_request none params d = some (err CallError.bad_origin, d)
  get_request (some origin) params d =
      get_from params (destination r.state_machine params.para_id) d

  -- the request of `dispatch_to_evm`
  abbrev pub evm_post : EvmParams → DispatchPost
  evm_post params = record {
    dest = StateMachine.ethereum params.destination;
    from = to_bytes pallet_id;
    to = params.module_id;
    timeout_timestamp = params.timeout;
    body = text "Hello from polkadot";
    gas_limit = 10000000;
  }

  -- `for _ in 0..params.count`; the first error ends it.
  unfoldable pub dispatch_times : ℕ → DispatchPost → Chain Ledger → Outcome Ledger
  dispatch_times zero post d = some (ok tt, d)
  dispatch_times (suc n) post d = elim (dispatch_request r (DispatchRequest.post post) d.state) [
    | none ↦ none
    | some (err _, s) ↦
        some (err (CallError.module_error DemoError.transfer_failed), record d { state = s })
    | some (ok _, s) ↦ dispatch_times n post (record d { state = s })
  ]

  -- `dispatch_to_evm`
  unfoldable pub dispatch_to_evm : Option AccountId → EvmParams → Chain Ledger → Outcome Ledger
  unfolding dispatch_times
  dispatch_to_evm none params d = some (err CallError.bad_origin, d)
  dispatch_to_evm (some origin) params d = dispatch_times params.count (evm_post params) d
