-- ===== src/Rpc/Serves.antt =====
-- What a runtime's implementation of pallet-ismp/runtime-api/src/lib.rs is documented to answer:
-- the functions of the pallet on the state of the block.
use ismp_substrate.Base.{ℕ, ◌≡◌, List, ok}
use ismp_substrate.Ismp.{H256, ConsensusClientId, StateMachineId}
use ismp_substrate.Primitives.{LeafIndexQuery}
use ismp_substrate.Pallet.{
  State, Runtime, to_core_protocol_event, get_consensus_state, get_consensus_update_time,
  get_challenge_period, get_latest_state_machine_height,
}
use ismp_substrate.Leaves.{
  filter_map, generate_proof, get_request_leaf_indices, get_response_leaf_indices, get_requests,
  get_responses, pending_get_requests,
}
use ismp_substrate.Hooks.{mmr_leaf_count, mmr_root}
use ismp_substrate.Rpc.{Client}

-- The client answers for a block from the pallet's functions on the state `s` that they see there:
-- the storage of the block, with the offchain database that the RPC registers for its calls, which
-- is the current one whatever the block.
pub record Serves (r : Runtime) (client : Client) (at : H256) (s : State) : Type 0 where
  pub request_indices :
      (q : List LeafIndexQuery)
      → client.api.get_request_leaf_indices at q ≡ ok (get_request_leaf_indices r q s)
  pub response_indices :
      (q : List LeafIndexQuery)
      → client.api.get_response_leaf_indices at q ≡ ok (get_response_leaf_indices r q s)
  pub requests : (i : List ℕ) → client.api.get_requests at i ≡ ok (get_requests r i s)
  pub responses : (i : List ℕ) → client.api.get_responses at i ≡ ok (get_responses r i s)
  pub proofs : (i : List ℕ) → client.api.generate_proof at i ≡ ok (generate_proof r i s)
  pub pending : client.api.pending_get_requests at ≡ ok (pending_get_requests r s)
  pub leaf_count : client.api.mmr_leaf_count at ≡ ok (ok (mmr_leaf_count s))
  pub root : client.api.mmr_root at ≡ ok (ok (mmr_root s))
  pub consensus_states :
      (id : ConsensusClientId) → client.api.consensus_state at id ≡ ok (get_consensus_state id s)
  pub update_times :
      (id : ConsensusClientId)
      → client.api.consensus_update_time at id ≡ ok (get_consensus_update_time id s)
  pub challenge_periods :
      (id : ConsensusClientId) → client.api.challenge_period at id ≡ ok (get_challenge_period id s)
  pub latest_heights :
      (id : StateMachineId)
      → client.api.latest_state_machine_height at id ≡ ok (get_latest_state_machine_height id s)

-- The client also answers with the events of the block, as `to_core_protocol_event` converts them,
-- where the events of the state are the block's own: FRAME drops those of the block before.
pub record ServesBlock (r : Runtime) (client : Client) (at : H256) (s : State) : Type 0 where
  pub answers : Serves r client at s
  pub events : client.api.block_events at ≡ ok (filter_map to_core_protocol_event s.events)
