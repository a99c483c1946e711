-- ===== src/Pallet/Events.antt =====
-- The pallet's events, and pallet-ismp/src/events.rs: the core protocol events they convert to.
use ismp_substrate.Base.{ℕ, List, Option, none, some, ℕ_discrete}
use ismp_substrate.Ismp.{
  StateMachine, StateMachineId, ConsensusClientId, ConsensusStateId, StateUpdates, Bytes-discrete,
  StateMachine-discrete, StateMachineId-discrete, StateMachineHeight-discrete,
}
use ismp_substrate.Pallet.Errors.{HandlingError}

-- `pallet::Event`
pub data PalletEvent : Type 0 where
  state_machine_updated : StateMachineId → ℕ → PalletEvent
  challenge_period_started : ConsensusClientId → StateUpdates → PalletEvent
  consensus_client_created : ConsensusClientId → PalletEvent
  -- destination, source, nonce of the request
  response : StateMachine → StateMachine → ℕ → PalletEvent
  request : StateMachine → StateMachine → ℕ → PalletEvent
  handling_errors : List HandlingError → PalletEvent

-- `events::Event`
pub data Event : Type 0 where
  state_machine_updated : StateMachineId → ℕ → Event
  challenge_period_started : ConsensusStateId → StateUpdates → Event
  response : StateMachine → StateMachine → ℕ → Event
  request : StateMachine → StateMachine → ℕ → Event

unfoldable pub to_core_protocol_event : PalletEvent → Option Event
to_core_protocol_event (PalletEvent.state_machine_updated id latest_height) =
    some (Event.state_machine_updated id latest_height)
to_core_protocol_event (PalletEvent.response dest source nonce) =
    some (Event.response dest source nonce)
to_core_protocol_event (PalletEvent.request dest source nonce) =
    some (Event.request dest source nonce)
to_core_protocol_event (PalletEvent.challenge_period_started id state_machines) =
    some (Event.challenge_period_started id state_machines)
to_core_protocol_event _ = none

unfoldable pub HandlingError-discrete : Discrete HandlingError
HandlingError-discrete =
    hlevel (Bytes-discrete, ℕ_discrete, StateMachine-discrete, StateMachineHeight-discrete)

unfoldable pub PalletEvent-discrete : Discrete PalletEvent
PalletEvent-discrete = hlevel (
  Bytes-discrete, ℕ_discrete, StateMachine-discrete, StateMachineId-discrete,
  StateMachineHeight-discrete, HandlingError-discrete,
)
