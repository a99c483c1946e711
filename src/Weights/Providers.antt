-- ===== src/Weights/Providers.antt =====
-- The traits of pallet-ismp/src/weight_info.rs as records of their functions, with the trivial
-- implementations for `()`.
use ismp_substrate.Base.{ℕ, Option, none}
use ismp_substrate.Ismp.{
  Post, Request, Response, StateMachineId, ConsensusClientId, ConsensusMessage, FraudProofMessage,
  Proof,
}
use ismp_substrate.Primitives.{Weight}
use ismp_substrate.Primitives.ModuleId.{ModuleId}

pub record ConsensusClientWeight : Type 0 where
  pub verify_consensus : ConsensusMessage → Weight
  pub verify_fraud_proof : FraudProofMessage → Weight
  pub verify_membership : StateMachineId → ℕ → Proof → Weight
  pub verify_state_proof : StateMachineId → ℕ → Proof → Weight

pub record IsmpModuleWeight : Type 0 where
  pub on_accept : Post → Weight
  pub on_timeout : Request → Weight
  pub on_response : Response → Weight

-- `impl ConsensusClientWeight for ()`, for the library's `Weight::zero()`
unfoldable pub unit_consensus_weight : Weight → ConsensusClientWeight
unit_consensus_weight zero = record {
  verify_consensus = λ msg. zero;
  verify_fraud_proof = λ msg. zero;
  verify_membership = λ id items proof. zero;
  verify_state_proof = λ id items proof. zero;
}

-- `impl IsmpModuleWeight for ()`
unfoldable pub unit_module_weight : Weight → IsmpModuleWeight
unit_module_weight zero = record {
  on_accept = λ request. zero;
  on_timeout = λ request. zero;
  on_response = λ response. zero;
}

-- The runtime's `WeightInfo` and `WeightProvider`, over the operations of
-- `frame_support::weights::Weight`, which stand outside the repository.
pub record Weights : Type 0 where
  pub zero : Weight
  pub plus : Weight → Weight → Weight
  pub minus : Weight → Weight → Weight
  -- `WeightProvider`
  pub consensus_client : ConsensusClientId → Option ConsensusClientWeight
  pub module_callback : ModuleId → Option IsmpModuleWeight
  -- `WeightInfo`
  pub on_finalize : ℕ → Weight
  pub create_consensus_client : Weight
  pub set_unbonding_period : Weight
  pub handle_request_message : Weight
  pub handle_response_message : Weight
  pub handle_timeout_message : Weight
  pub dispatch_post_request : Weight
  pub dispatch_get_request : Weight
  pub dispatch_response : Weight

-- `impl WeightProvider for ()`
unfoldable pub no_consensus_client : ConsensusClientId → Option ConsensusClientWeight
no_consensus_client id = none

unfoldable pub no_module_callback : ModuleId → Option IsmpModuleWeight
no_module_callback id = none

-- `impl WeightInfo for ()`, with that provider, over the library's operations on weights
unfoldable pub unit_weights :
    Weight → (Weight → Weight → Weight) → (Weight → Weight → Weight) → Weights
unfolding no_consensus_client no_module_callback
unit_weights zero plus minus = record {
  zero = zero;
  plus = plus;
  minus = minus;
  consensus_client = no_consensus_client;
  module_callback = no_module_callback;
  on_finalize = λ n. zero;
  create_consensus_client = zero;
  set_unbonding_period = zero;
  handle_request_message = zero;
  handle_response_message = zero;
  handle_timeout_message = zero;
  dispatch_post_request = zero;
  dispatch_get_request = zero;
  dispatch_response = zero;
}
