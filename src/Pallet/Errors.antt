-- ===== src/Pallet/Errors.antt =====
-- pallet-ismp/src/errors.rs: the errors that the pallet reports, and their conversion.
use ismp_substrate.Base.{ℕ, Option, none, some}
use ismp_substrate.Ismp.{
  Bytes, as_secs, StateMachine, ConsensusClientId, StateMachineHeight, IsmpError,
}

pub data HandlingError : Type 0 where
  -- update time, current time, delay period, client id
  challenge_period_not_elapsed : ℕ → ℕ → Option ℕ → Option ConsensusClientId → HandlingError
  consensus_state_not_found : ConsensusClientId → HandlingError
  state_commitment_not_found : StateMachineHeight → HandlingError
  frozen_consensus_client : ConsensusClientId → HandlingError
  frozen_state_machine : StateMachineHeight → HandlingError
  -- nonce, source, dest
  request_commitment_not_found : ℕ → StateMachine → StateMachine → HandlingError
  request_verification_failed : ℕ → StateMachine → StateMachine → HandlingError
  response_verification_failed : ℕ → StateMachine → StateMachine → HandlingError
  consensus_proof_verification_failed : ConsensusClientId → HandlingError
  expired_consensus_client : ConsensusClientId → HandlingError
  cannot_handle_message : HandlingError
  implementation_specific : Bytes → HandlingError
  unbonding_period_elapsed : ConsensusClientId → HandlingError
  membership_proof_verification_failed : Bytes → HandlingError
  non_membership_proof_verification_failed : Bytes → HandlingError
  cannot_create_already_existing_consensus_client : ConsensusClientId → HandlingError
  -- nonce, source, dest, timeout timestamp, time of the state machine
  request_timeout_not_elapsed : ℕ → StateMachine → StateMachine → ℕ → ℕ → HandlingError
  request_timeout_verification_failed : ℕ → StateMachine → StateMachine → HandlingError
  insufficient_proof_height : HandlingError
  module_not_found : Bytes → HandlingError

-- `From<ismp_rs::error::Error> for HandlingError`
unfoldable pub from_error : IsmpError → HandlingError
from_error (IsmpError.challenge_period_not_elapsed id current update) =
    HandlingError.challenge_period_not_elapsed (as_secs update) (as_secs current) none (some id)
from_error (IsmpError.consensus_state_not_found id) = HandlingError.consensus_state_not_found id
from_error (IsmpError.state_commitment_not_found h) = HandlingError.state_commitment_not_found h
from_error (IsmpError.frozen_consensus_client id) = HandlingError.frozen_consensus_client id
from_error (IsmpError.frozen_state_machine h) = HandlingError.frozen_state_machine h
from_error (IsmpError.request_commitment_not_found nonce source dest) =
    HandlingError.request_commitment_not_found nonce source dest
from_error (IsmpError.request_verification_failed nonce source dest) =
    HandlingError.response_verification_failed nonce source dest
from_error (IsmpError.response_verification_failed nonce source dest) =
    HandlingError.response_verification_failed nonce source dest
from_error (IsmpError.consensus_proof_verification_failed id) =
    HandlingError.consensus_proof_verification_failed id
from_error (IsmpError.expired_consensus_client id) = HandlingError.expired_consensus_client id
from_error IsmpError.cannot_handle_message = HandlingError.cannot_handle_message
from_error (IsmpError.implementation_specific msg) = HandlingError.implementation_specific msg
from_error (IsmpError.unbonding_period_elapsed id) = HandlingError.unbonding_period_elapsed id
from_error (IsmpError.membership_proof_verification_failed msg) =
    HandlingError.membership_proof_verification_failed msg
from_error (IsmpError.non_membership_proof_verification_failed msg) =
    HandlingError.non_membership_proof_verification_failed msg
from_error (IsmpError.cannot_create_already_existing_consensus_client id) =
    HandlingError.cannot_create_already_existing_consensus_client id
from_error (IsmpError.request_timeout_not_elapsed nonce source dest timeout time) =
    HandlingError.request_timeout_not_elapsed nonce source dest (as_secs timeout) (as_secs time)
from_error (IsmpError.request_timeout_verification_failed nonce source dest) =
    HandlingError.request_timeout_verification_failed nonce source dest
from_error IsmpError.insufficient_proof_height = HandlingError.insufficient_proof_height
from_error (IsmpError.module_not_found id) = HandlingError.module_not_found id
from_error IsmpError.consensus_state_id_not_recognized = HandlingError.insufficient_proof_height
from_error IsmpError.challenge_period_not_configured = HandlingError.insufficient_proof_height
from_error IsmpError.duplicate_consensus_state_id = HandlingError.insufficient_proof_height
from_error IsmpError.unbonding_period_not_configured = HandlingError.insufficient_proof_height
