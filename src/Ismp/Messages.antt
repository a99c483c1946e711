-- ===== src/Ismp/Messages.antt =====
-- `ismp::messaging` and the results of `ismp::handlers`.
use ismp_substrate.Base.{ℕ, List}
use ismp_substrate.Ismp.Data.{Bytes}
use ismp_substrate.Ismp.Router.{Post, Request, Response}
use ismp_substrate.Ismp.Consensus.{
  ConsensusStateId, ConsensusClientId, StateMachineId, StateMachineHeight, StateCommitmentHeight,
}

pub record Proof : Type 0 where
  pub height : StateMachineHeight
  pub proof : Bytes

-- The pallet reads the state id alone; `body` is the rest, handed on to the consensus client.
pub record ConsensusMessage : Type 0 where
  pub consensus_state_id : ConsensusStateId
  pub body : Bytes

pub record FraudProofMessage : Type 0 where
  pub consensus_state_id : ConsensusStateId
  pub body : Bytes

pub record RequestMessage : Type 0 where
  pub requests : List Post
  pub proof : Proof

pub data ResponseMessage : Type 0 where
  post : List Response → Proof → ResponseMessage
  get : List Request → Proof → ResponseMessage

pub data TimeoutMessage : Type 0 where
  post : List Request → Proof → TimeoutMessage
  get : List Request → TimeoutMessage

pub data Message : Type 0 where
  consensus : ConsensusMessage → Message
  request : RequestMessage → Message
  response : ResponseMessage → Message
  timeout : TimeoutMessage → Message
  fraud_proof : FraudProofMessage → Message

pub record CreateConsensusState : Type 0 where
  pub consensus_state : Bytes
  pub consensus_client_id : ConsensusClientId
  pub consensus_state_id : ConsensusStateId
  pub unbonding_period : ℕ
  pub challenge_period : ℕ
  pub state_machine_commitments : List (StateMachineId × StateCommitmentHeight)

-- The pairs of previous and latest height that a consensus update brought; a `BTreeSet`.
abbrev pub StateUpdates : Type 0
StateUpdates = List (StateMachineHeight × StateMachineHeight)

pub record ConsensusUpdateResult : Type 0 where
  pub consensus_client_id : ConsensusClientId
  pub consensus_state_id : ConsensusStateId
  pub state_updates : StateUpdates

-- The results of module callbacks go to the debug log alone, so they are no part of these.
pub data MessageResult : Type 0 where
  consensus_message : ConsensusUpdateResult → MessageResult
  request response timeout : MessageResult
  other : MessageResult
