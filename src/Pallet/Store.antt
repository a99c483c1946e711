-- ===== src/Pallet/Store.antt =====
-- The storage items of pallet-ismp/src/lib.rs, with the parts of the chain that the pallet writes:
-- the deposited events, the digest's logs and the offchain database behind the indexing API.
use ismp_substrate.Base.{ℕ, List, ◌∷◌, ◌++◌, [], Bool, none, some}
use ismp_substrate.StorageMap
use ismp_substrate.StorageMap.{StorageMap, Key}
use ismp_substrate.Ismp.{
  Bytes, H256, StateMachine, ConsensusClientId, ConsensusStateId, StateMachineId,
  StateMachineHeight, StateCommitment, StateUpdates,
}
use ismp_substrate.Primitives.{LeafIndexQuery, WeightUsed}
use ismp_substrate.Primitives.Digest.{DigestItem}
use ismp_substrate.Pallet.Events.{PalletEvent}

-- A receipt for an outgoing or incoming request or response (pallet-ismp/src/dispatcher.rs)
pub data Receipt : Type 0 where
  ok : Receipt

pub record State : Type 0 where
  pub root_hash : H256
  pub number_of_leaves : ℕ
  pub nodes : StorageMap ℕ H256
  pub state_commitments : StorageMap StateMachineHeight StateCommitment
  pub consensus_states : StorageMap ConsensusClientId Bytes
  pub frozen_heights : StorageMap StateMachineId ℕ
  pub latest_messaging_height : StorageMap StateMachineId ℕ
  pub consensus_state_client : StorageMap ConsensusStateId ConsensusClientId
  pub unbonding_period : StorageMap ConsensusStateId ℕ
  pub challenge_period : StorageMap ConsensusStateId ℕ
  pub frozen_consensus_clients : StorageMap ConsensusStateId Bool
  pub latest_state_machine_height : StorageMap StateMachineId ℕ
  pub allowed_proxies : List StateMachine
  pub consensus_client_update_time : StorageMap ConsensusClientId ℕ
  pub state_machine_update_time : StorageMap StateMachineHeight ℕ
  pub request_commitments : StorageMap H256 LeafIndexQuery
  pub response_commitments : StorageMap H256 Receipt
  pub request_receipts : StorageMap H256 Receipt
  pub response_receipts : StorageMap H256 Receipt
  pub consensus_update_results : StorageMap ConsensusClientId StateUpdates
  pub nonce : ℕ
  pub weight_consumed : WeightUsed
  pub events : List PalletEvent
  pub logs : List DigestItem
  pub offchain : StorageMap Bytes Bytes

-- A `ValueQuery` map reads its default where there is no entry.
abbrev pub get_or {ℓ} : {K V : Type ℓ} ⦃key : Key K⦄ → StorageMap K V → K → V → V
get_or m k d = elim (StorageMap.get m k) [ none ↦ d | some v ↦ v ]

-- `deposit_event`
unfoldable pub deposit_event : PalletEvent → State → State
deposit_event e s = record s { events = s.events ++ e ∷ [] }
