-- ===== src/Rpc/Api.antt =====
-- pallet-ismp/runtime-api/src/lib.rs: the runtime API that a client calls at a block, and the error
-- that pallet-ismp/rpc/src/lib.rs makes of a failed call.
use ismp_substrate.Base.{ℕ, Option, some, List, Result, ok, err}
use ismp_substrate.Ismp.{
  Bytes, H256, text, ConsensusClientId, StateMachineId, Get, Request, Response,
}
use ismp_substrate.Primitives.{LeafIndexQuery, Proof, MmrError}
use ismp_substrate.Primitives.Leaves.{Leaf}
use ismp_substrate.Pallet.{Event}

-- What a call answers: it can itself fail, with an error that is shown as text.
abbrev pub Answer : Type 0 → Type 0
Answer A = Result Bytes A

-- ISMP Runtime Apis, each method at the hash of a block
pub record IsmpRuntimeApi : Type 0 where
  pub mmr_leaf_count : H256 → Answer (Result MmrError ℕ)
  pub mmr_root : H256 → Answer (Result MmrError H256)
  pub generate_proof : H256 → List ℕ → Answer (Result MmrError (List Leaf × Proof))
  pub block_events : H256 → Answer (List Event)
  pub consensus_state : H256 → ConsensusClientId → Answer (Option Bytes)
  pub consensus_update_time : H256 → ConsensusClientId → Answer (Option ℕ)
  pub challenge_period : H256 → ConsensusClientId → Answer (Option ℕ)
  pub latest_state_machine_height : H256 → StateMachineId → Answer (Option ℕ)
  pub latest_messaging_height : H256 → StateMachineId → Answer (Option ℕ)
  pub get_request_leaf_indices : H256 → List LeafIndexQuery → Answer (List ℕ)
  pub get_response_leaf_indices : H256 → List LeafIndexQuery → Answer (List ℕ)
  pub get_requests : H256 → List ℕ → Answer (List Request)
  pub pending_get_requests : H256 → Answer (List Get)
  pub get_responses : H256 → List ℕ → Answer (List Response)

-- `RpcError::Call(CallError::Custom(ErrorObject))`
pub record RpcError : Type 0 where
  pub code : ℕ
  pub message : Bytes
  pub data_text : Option Bytes

-- Converts a runtime trap into an RPC error.
abbrev pub runtime_error_into_rpc_error : Bytes → RpcError
runtime_error_into_rpc_error e = record {
  code = 9876;
  message = text "Something wrong";
  data_text = some e;
}

-- an RPC error with a text
abbrev pub failed : {A : Type 0} → Bytes → Result RpcError A
failed e = err (runtime_error_into_rpc_error e)

-- `map_err` of an API's answer, with a message for every error
abbrev pub or_message : {A : Type 0} → Bytes → Answer A → Result RpcError A
or_message message (ok a) = ok a
or_message message (err e) = failed message
