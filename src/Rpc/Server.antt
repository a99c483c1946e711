-- ===== src/Rpc/Server.antt =====
-- The interface `IsmpApi` of pallet-ismp/rpc/src/lib.rs and its implementation by `IsmpRpcHandler`.
use ismp_substrate.Base.{ℕ, Option, List, Result}
use ismp_substrate.Ismp.{Bytes, ConsensusClientId, StateMachineId, Get, Request, Response}
use ismp_substrate.Primitives.{LeafIndexQuery}
use ismp_substrate.StorageMap.{StorageMap}
use ismp_substrate.Rpc
use ismp_substrate.Rpc.{Client, BlockNumberOrHash, RpcEvent}
use ismp_substrate.Rpc.Api.{RpcError}
use ismp_substrate.Rpc.Queries
use ismp_substrate.Rpc.Queries.{Proof}

-- ISMP RPC methods
pub record IsmpApi : Type 0 where
  pub query_requests : List LeafIndexQuery → Result RpcError (List Request)
  pub query_responses : List LeafIndexQuery → Result RpcError (List Response)
  pub query_requests_mmr_proof : ℕ → List LeafIndexQuery → Result RpcError Proof
  pub query_responses_mmr_proof : ℕ → List LeafIndexQuery → Result RpcError Proof
  pub query_state_proof : ℕ → List Bytes → Result RpcError Proof
  pub query_consensus_state : Option ℕ → ConsensusClientId → Result RpcError Bytes
  pub query_consensus_update_time : ConsensusClientId → Result RpcError ℕ
  pub query_challenge_period : ConsensusClientId → Result RpcError ℕ
  pub query_state_machine_latest_height : StateMachineId → Result RpcError ℕ
  pub query_latest_messaging_height : StateMachineId → Result RpcError ℕ
  pub query_events : List BlockNumberOrHash → Result RpcError (StorageMap Bytes (List RpcEvent))
  pub pending_get_requests : ℕ → Result RpcError (List Get)

-- An implementation of ISMP specific RPC methods. The runtime's calls see the offchain database
-- through an extension, so it shows in what the client's API answers.
pub record IsmpRpcHandler (OffchainDb : Type 0) : Type 0 where
  pub client : Client
  pub offchain_db : OffchainDb

module _ {Storage OffchainDb : Type 0} where
  -- `IsmpRpcHandler::new`, for the library's `OffchainDb::new`
  unfoldable pub new_handler : (Storage → OffchainDb) → Client → Storage → IsmpRpcHandler OffchainDb
  new_handler open_db client offchain_storage = record {
    client = client;
    offchain_db = open_db offchain_storage;
  }

-- `IsmpApiServer for IsmpRpcHandler`
abbrev pub server : {OffchainDb : Type 0} → IsmpRpcHandler OffchainDb → IsmpApi
server handler = record {
  query_requests = Rpc.query_requests handler.client;
  query_responses = Rpc.query_responses handler.client;
  query_requests_mmr_proof = Queries.query_requests_mmr_proof handler.client;
  query_responses_mmr_proof = Queries.query_responses_mmr_proof handler.client;
  query_state_proof = Queries.query_state_proof handler.client;
  query_consensus_state = Queries.query_consensus_state handler.client;
  query_consensus_update_time = Queries.query_consensus_update_time handler.client;
  query_challenge_period = Queries.query_challenge_period handler.client;
  query_state_machine_latest_height = Queries.query_state_machine_latest_height handler.client;
  query_latest_messaging_height = Queries.query_latest_messaging_height handler.client;
  query_events = Rpc.query_events handler.client;
  pending_get_requests = Queries.pending_get_requests handler.client;
}
