-- ===== src/Ismp/Consensus.antt =====
-- `ismp::consensus`: identifiers of clients and state machines, heights and commitments.
use ismp_substrate.Base.{ℕ, Option, ℕ_discrete}
use ismp_substrate.StorageMap.{Key}
use ismp_substrate.Ismp.Data.{Bytes, H256, Bytes-discrete}
use ismp_substrate.Ismp.Router.{StateMachine, StateMachine-discrete}

-- four bytes each
abbrev pub ConsensusStateId : Type 0
ConsensusStateId = Bytes

abbrev pub ConsensusClientId : Type 0
ConsensusClientId = Bytes

pub record StateMachineId : Type 0 where
  pub state_id : StateMachine
  pub consensus_state_id : ConsensusStateId

pub record StateMachineHeight : Type 0 where
  pub id : StateMachineId
  pub height : ℕ

pub record StateCommitment : Type 0 where
  pub timestamp : ℕ
  pub overlay_root : Option H256
  pub state_root : H256

unfoldable pub StateMachineId-discrete : Discrete StateMachineId
StateMachineId-discrete = hlevel (Bytes-discrete, StateMachine-discrete)

unfoldable pub StateMachineHeight-discrete : Discrete StateMachineHeight
StateMachineHeight-discrete = hlevel (ℕ_discrete, StateMachineId-discrete)

instance abbrev pub state_machine_id_key : Key StateMachineId
state_machine_id_key = record { dec = StateMachineId-discrete }

instance abbrev pub state_machine_height_key : Key StateMachineHeight
state_machine_height_key = record { dec = StateMachineHeight-discrete }

pub record StateCommitmentHeight : Type 0 where
  pub commitment : StateCommitment
  pub height : ℕ
