-- ===== src/Rpc/Queries.antt =====
-- The queries of pallet-ismp/rpc/src/lib.rs that hand on a proof or one value.
use ismp_substrate.Base.{ℕ, Option, none, some, List, Result, ok, err, dec_le}
use mathlib.Core.List.{filter}
use ismp_substrate.Ismp.{Bytes, H256, text, ConsensusClientId, StateMachineId, Get}
use ismp_substrate.Primitives.{LeafIndexQuery, MmrError, Proof as MmrProof}
use ismp_substrate.Primitives.Leaves.{Leaf}
use ismp_substrate.Rpc.{Client, ok_flatten}
use ismp_substrate.Rpc.Api.{Answer, RpcError, failed}

-- Contains a scale encoded Mmr Proof or Trie proof
pub record Proof : Type 0 where
  pub proof : Bytes
  pub leaves : Option Bytes
  pub height : ℕ

-- `.ok().flatten().ok_or_else(..)`
abbrev value_or : {A : Type 0} → Bytes → Answer (Option A) → Result RpcError A
value_or message answer = elim (ok_flatten answer) [ none ↦ failed message | some a ↦ ok a ]

module _ (client : Client) where
  -- `client.block_hash(height)`, or an error
  unfoldable pub block_at : Bytes → ℕ → Result RpcError H256
  block_at message height = value_or message (client.block_hash height)

  -- the answer of `generate_proof`, encoded
  unfoldable pub encoded_proof :
      ℕ → Answer (Result MmrError (List Leaf × MmrProof)) → Result RpcError Proof
  encoded_proof height (err e) = failed (text "Error calling runtime api")
  encoded_proof height (ok (err e)) = failed (text "Error generating mmr proof")
  encoded_proof height (ok (ok (leaves, proof))) = ok (record {
    proof = client.encode_proof proof;
    leaves = some (client.encode_leaves leaves);
    height = height;
  })

  -- `query_requests_mmr_proof`
  unfoldable pub query_requests_mmr_proof : ℕ → List LeafIndexQuery → Result RpcError Proof
  unfolding block_at encoded_proof
  query_requests_mmr_proof height query =
      elim (block_at (text "invalid block height provided") height) [
        | err e ↦ err e
        | ok at ↦ elim (client.api.get_request_leaf_indices at query) [
          | err e ↦ failed (text "Error fetching response leaf indices")
          | ok indices ↦ encoded_proof height (client.api.generate_proof at indices)
        ]
      ]

  -- `query_responses_mmr_proof`
  unfoldable pub query_responses_mmr_proof : ℕ → List LeafIndexQuery → Result RpcError Proof
  unfolding block_at encoded_proof
  query_responses_mmr_proof height query =
      elim (block_at (text "invalid block height provided") height) [
        | err e ↦ err e
        | ok at ↦ elim (client.api.get_response_leaf_indices at query) [
          | err e ↦ failed (text "Error fetching response leaf indices")
          | ok indices ↦ encoded_proof height (client.api.generate_proof at indices)
        ]
      ]

  -- `query_state_proof`
  unfoldable pub query_state_proof : ℕ → List Bytes → Result RpcError Proof
  unfolding block_at
  query_state_proof height keys =
      elim (block_at (text "Could not find valid blockhash for provided height") height) [
        | err e ↦ err e
        | ok at ↦ elim (client.read_proof at keys) [
          | err e ↦ failed (text "Error reading state proof")
          | ok nodes ↦
              ok (record { proof = client.encode_nodes nodes; leaves = none; height = height })
        ]
      ]

  -- the block of an optional height: the best one for no height, and for a height without a block
  unfoldable pub block_or_best : Option ℕ → H256
  block_or_best none = client.best_hash
  block_or_best (some height) = elim (ok_flatten (client.block_hash height)) [
    | none ↦ client.best_hash
    | some at ↦ at
  ]

  -- `query_consensus_state`
  unfoldable pub query_consensus_state : Option ℕ → ConsensusClientId → Result RpcError Bytes
  unfolding block_or_best
  query_consensus_state height client_id =
      value_or (text "Error fetching Consensus state")
        (client.api.consensus_state (block_or_best height) client_id)

  -- `query_consensus_update_time`
  unfoldable pub query_consensus_update_time : ConsensusClientId → Result RpcError ℕ
  query_consensus_update_time client_id =
      value_or (text "Error fetching Consensus update time")
        (client.api.consensus_update_time client.best_hash client_id)

  -- `query_challenge_period`
  unfoldable pub query_challenge_period : ConsensusClientId → Result RpcError ℕ
  query_challenge_period client_id =
      value_or (text "Error fetching Challenge period")
        (client.api.challenge_period client.best_hash client_id)

  -- `query_state_machine_latest_height`
  unfoldable pub query_state_machine_latest_height : StateMachineId → Result RpcError ℕ
  query_state_machine_latest_height id =
      value_or (text "Error fetching latest state machine height")
        (client.api.latest_state_machine_height client.best_hash id)

  -- `query_latest_messaging_height`
  unfoldable pub query_latest_messaging_height : StateMachineId → Result RpcError ℕ
  query_latest_messaging_height id =
      value_or (text "Error fetching latest state machine height")
        (client.api.latest_messaging_height client.best_hash id)

  -- `pending_get_requests`: those whose height is not above the one given
  unfoldable pub pending_get_requests : ℕ → Result RpcError (List Get)
  pending_get_requests height = elim (client.api.pending_get_requests client.best_hash) [
    | err e ↦ failed (text "Error fetching get requests")
    | ok reqs ↦ ok (filter (λ (req : Get). dec_le req.height height) reqs)
  ]
