-- ===== src/Ismp/Error.antt =====
-- `ismp::error::Error`, by the exhaustive match of pallet-ismp/src/errors.rs. The payloads that
-- this match leaves out (`{ .. }`) are left out.
use ismp_substrate.Base.{ℕ}
use ismp_substrate.Ismp.Data.{Bytes, Duration}
use ismp_substrate.Ismp.Router.{StateMachine}
use ismp_substrate.Ismp.Consensus.{ConsensusStateId, ConsensusClientId, StateMachineHeight}

pub data IsmpError : Type 0 where
  -- state id, current time, update time
  challenge_period_not_elapsed : ConsensusStateId → Duration → Duration → IsmpError
  consensus_state_not_found : ConsensusStateId → IsmpError
  state_commitment_not_found : StateMachineHeight → IsmpError
  frozen_consensus_client : ConsensusStateId → IsmpError
  frozen_state_machine : StateMachineHeight → IsmpError
  -- nonce, source, dest
  request_commitment_not_found : ℕ → StateMachine → StateMachine → IsmpError
  request_verification_failed : ℕ → StateMachine → StateMachine → IsmpError
  response_verification_failed : ℕ → StateMachine → StateMachine → IsmpError
  consensus_proof_verification_failed : ConsensusClientId → IsmpError
  expired_consensus_client : ConsensusClientId → IsmpError
  cannot_handle_message : IsmpError
  implementation_specific : Bytes → IsmpError
  unbonding_period_elapsed : ConsensusStateId → IsmpError
  membership_proof_verification_failed : Bytes → IsmpError
  non_membership_proof_verification_failed : Bytes → IsmpError
  cannot_create_already_existing_consensus_client : ConsensusClientId → IsmpError
  -- nonce, source, dest, timeout timestamp, time of the state machine
  request_timeout_not_elapsed : ℕ → StateMachine → StateMachine → Duration → Duration → IsmpError
  request_timeout_verification_failed : ℕ → StateMachine → StateMachine → IsmpError
  insufficient_proof_height : IsmpError
  module_not_found : Bytes → IsmpError
  consensus_state_id_not_recognized : IsmpError
  challenge_period_not_configured : IsmpError
  duplicate_consensus_state_id : IsmpError
  unbonding_period_not_configured : IsmpError
