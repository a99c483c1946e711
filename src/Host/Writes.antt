-- ===== src/Host/Writes.antt =====
-- The methods of `IsmpHost for Host<T>` that write.
use ismp_substrate.Base.{ℕ, ◌+◌, List, true, wrap64}
use ismp_substrate.StorageMap
use ismp_substrate.StorageMap.{nat_key}
use ismp_substrate.Ismp.{
  Bytes, bytes_key, Duration, as_secs, StateMachine, Request, ConsensusClientId, ConsensusStateId,
  StateMachineHeight, StateCommitment, state_machine_id_key, state_machine_height_key,
}
use ismp_substrate.Pallet.{State, Runtime, Receipt}

unfoldable pub store_consensus_state : ConsensusClientId → Bytes → State → State
store_consensus_state id state s = record s {
  consensus_states = StorageMap.insert s.consensus_states id state;
}

-- `as_secs` is a `u64` already, so `saturated_into` changes nothing.
unfoldable pub store_consensus_update_time : ConsensusClientId → Duration → State → State
store_consensus_update_time id timestamp s = record s {
  consensus_client_update_time =
      StorageMap.insert s.consensus_client_update_time id (as_secs timestamp);
}

unfoldable pub store_state_machine_update_time : StateMachineHeight → Duration → State → State
store_state_machine_update_time height timestamp s = record s {
  state_machine_update_time =
      StorageMap.insert s.state_machine_update_time height (as_secs timestamp);
}

unfoldable pub store_state_machine_commitment : StateMachineHeight → StateCommitment → State → State
store_state_machine_commitment height state s = record s {
  state_commitments = StorageMap.insert s.state_commitments height state;
}

unfoldable pub freeze_state_machine : StateMachineHeight → State → State
freeze_state_machine height s = record s {
  frozen_heights = StorageMap.insert s.frozen_heights height.id height.height;
}

unfoldable pub store_latest_commitment_height : StateMachineHeight → State → State
store_latest_commitment_height height s = record s {
  latest_state_machine_height =
      StorageMap.insert s.latest_state_machine_height height.id height.height;
}

module _ (r : Runtime) where
  unfoldable pub delete_request_commitment : Request → State → State
  delete_request_commitment req s = record s {
    request_commitments =
        StorageMap.remove s.request_commitments (r.ismp.hash_request r.keccak_256 req);
  }

  unfoldable pub store_request_receipt : Request → State → State
  store_request_receipt req s = record s {
    request_receipts =
        StorageMap.insert s.request_receipts (r.ismp.hash_request r.keccak_256 req) Receipt.ok;
  }

  unfoldable pub store_response_receipt : Request → State → State
  store_response_receipt req s = record s {
    response_receipts =
        StorageMap.insert s.response_receipts (r.ismp.hash_request r.keccak_256 req) Receipt.ok;
  }

-- the nonce, and the state with the next one
unfoldable pub next_nonce : State → ℕ × State
next_nonce s = (s.nonce, record s { nonce = wrap64 (s.nonce + 1) })

unfoldable pub freeze_consensus_client : ConsensusStateId → State → State
freeze_consensus_client client s = record s {
  frozen_consensus_clients = StorageMap.insert s.frozen_consensus_clients client true;
}

unfoldable pub store_consensus_state_id : ConsensusStateId → ConsensusClientId → State → State
store_consensus_state_id state_id client_id s = record s {
  consensus_state_client = StorageMap.insert s.consensus_state_client state_id client_id;
}

unfoldable pub store_unbonding_period : ConsensusStateId → ℕ → State → State
store_unbonding_period id period s = record s {
  unbonding_period = StorageMap.insert s.unbonding_period id period;
}

unfoldable pub store_challenge_period : ConsensusStateId → ℕ → State → State
store_challenge_period id period s = record s {
  challenge_period = StorageMap.insert s.challenge_period id period;
}

unfoldable pub store_allowed_proxies : List StateMachine → State → State
store_allowed_proxies allowed s = record s { allowed_proxies = allowed }
