-- ===== src/Host/Reads.antt =====
-- The methods of `IsmpHost for Host<T>` that only read.
use ismp_substrate.Base.{
  ℕ, false, Option, none, some, List, ◌++◌, Result, ok, err, ok_or, leb, if◌then◌else◌,
}
use ismp_substrate.StorageMap
use ismp_substrate.StorageMap.{nat_key}
use ismp_substrate.Ismp.{
  Bytes, H256, text, bytes_key, Duration, from_secs, StateMachine, Request, ConsensusClientId,
  ConsensusStateId, StateMachineId, StateMachineHeight, StateCommitment, state_machine_id_key,
  state_machine_height_key, IsmpError,
}
use ismp_substrate.Pallet.{State, Runtime, Config, Receipt, get_or}

-- `{:?}` of the two types whose values the host puts into a message
pub record Debug : Type 0 where
  pub client_id : ConsensusClientId → Bytes
  pub height : StateMachineHeight → Bytes

abbrev map_secs : Option ℕ → Option Duration
map_secs none = none
map_secs (some n) = some (from_secs n)

module _ (r : Runtime) where
  unfoldable pub host_state_machine : StateMachine
  host_state_machine = r.state_machine

unfoldable pub latest_commitment_height : StateMachineId → State → Result IsmpError ℕ
latest_commitment_height id s = ok (get_or s.latest_state_machine_height id 0)

unfoldable pub state_machine_commitment :
    StateMachineHeight → State → Result IsmpError StateCommitment
state_machine_commitment height s =
    ok_or (StorageMap.get s.state_commitments height) (IsmpError.state_commitment_not_found height)

module _ (debug : Debug) where
  unfoldable pub consensus_update_time : ConsensusClientId → State → Result IsmpError Duration
  consensus_update_time id s =
      ok_or (map_secs (StorageMap.get s.consensus_client_update_time id)) (
        IsmpError.implementation_specific (text "Update time not found for " ++ debug.client_id id))

  unfoldable pub state_machine_update_time : StateMachineHeight → State → Result IsmpError Duration
  state_machine_update_time height s =
      ok_or (map_secs (StorageMap.get s.state_machine_update_time height)) (
        IsmpError.implementation_specific
          (text "Update time not found for " ++ debug.height height))

unfoldable pub consensus_state : ConsensusClientId → State → Result IsmpError Bytes
consensus_state id s =
    ok_or (StorageMap.get s.consensus_states id) (IsmpError.consensus_state_not_found id)

unfoldable pub request_commitment : H256 → State → Result IsmpError Unit
request_commitment commitment s = elim (StorageMap.get s.request_commitments commitment) [
  | none ↦ err (IsmpError.implementation_specific (text "Request commitment not found"))
  | some query ↦ ok tt
]

abbrev found : Option Receipt → Option (Unit {0})
found none = none
found (some receipt) = some tt

module _ (r : Runtime) where
  -- the error that the source builds on the way is dropped by `ok()`
  unfoldable pub request_receipt : Request → State → Option (Unit {0})
  request_receipt req s =
      found (StorageMap.get s.request_receipts (r.ismp.hash_request r.keccak_256 req))

  unfoldable pub response_receipt : Request → State → Option (Unit {0})
  response_receipt res s =
      found (StorageMap.get s.response_receipts (r.ismp.hash_request r.keccak_256 res))

unfoldable pub challenge_period : ConsensusStateId → State → Option Duration
challenge_period id s = map_secs (StorageMap.get s.challenge_period id)

unfoldable pub unbonding_period : ConsensusStateId → State → Option Duration
unbonding_period id s = map_secs (StorageMap.get s.unbonding_period id)

unfoldable pub consensus_client_id : ConsensusStateId → State → Option ConsensusClientId
consensus_client_id id s = StorageMap.get s.consensus_state_client id

unfoldable pub is_state_machine_frozen : StateMachineHeight → State → Result IsmpError Unit
is_state_machine_frozen machine s = elim (StorageMap.get s.frozen_heights machine.id) [
  | none ↦ ok tt
  | some frozen_height ↦
      if leb frozen_height machine.height
      then err (IsmpError.frozen_state_machine machine)
      else ok tt
]

unfoldable pub is_consensus_client_frozen : ConsensusStateId → State → Result IsmpError Unit
is_consensus_client_frozen client s =
    if get_or s.frozen_consensus_clients client false
    then err (IsmpError.frozen_consensus_client client)
    else ok tt

unfoldable pub allowed_proxies : State → List StateMachine
allowed_proxies s = s.allowed_proxies

-- The methods that hand on what the runtime sets.
module _ {Origin Client Router : Type 0} (c : Config Origin Client Router) where
  unfoldable pub timestamp : Duration
  timestamp = c.now

  unfoldable pub consensus_client : ConsensusClientId → Result IsmpError Client
  consensus_client id = c.consensus_client_provider.consensus_client id

  unfoldable pub ismp_router : Router
  ismp_router = c.ismp_router

-- `Keccak256 for Host<T>`
unfoldable pub keccak256 : Runtime → Bytes → H256
keccak256 r bytes = r.keccak_256 bytes
