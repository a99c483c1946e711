-- ===== src/Weights.antt =====
-- pallet-ismp/src/weight_info.rs: the weight charged for a batch of messages.
pub mod Providers
pub mod Batches
use ismp_substrate.Base.{ℕ, Option, none, some, List, [], ◌∷◌, length, to_option, Result, ok, err}
use mathlib.Core.List.{foldl}
use ismp_substrate.Ismp.{
  Bytes, Post, Get, Request, Response, PostResponse, GetResponse, StateMachineId, ConsensusClientId,
  Message, Proof, RequestMessage, ResponseMessage, TimeoutMessage, IsmpError,
}
use ismp_substrate.Ismp.Library.{Library}
use ismp_substrate.Primitives.{Weight}
use ismp_substrate.Primitives.ModuleId.{ModuleId, from_bytes}
use Providers.{
  Weights, ConsensusClientWeight, IsmpModuleWeight, unit_consensus_weight, unit_module_weight,
}

-- `get_request().expect("Infallible")` of a request that matched `Request::Get(get)`: the library
-- documents that it returns that `get`, so the panic is out of reach.
abbrev expect_get : Get → Result IsmpError Get → Get
expect_get get (ok g) = g
expect_get get (err e) = get

module _ (w : Weights) (l : Library) where
  -- `consensus_client(id).unwrap_or(Box::new(()))`
  unfoldable pub consensus_handler : ConsensusClientId → ConsensusClientWeight
  unfolding unit_consensus_weight
  consensus_handler id = elim (w.consensus_client id) [
    | none ↦ unit_consensus_weight w.zero
    | some c ↦ c
  ]

  -- the callback weights of the module that some raw bytes name
  unfoldable pub module_handle : Bytes → IsmpModuleWeight
  unfolding unit_module_weight from_bytes
  module_handle bytes = elim (from_bytes bytes) [
    | err e ↦ unit_module_weight w.zero
    | ok id ↦ elim (w.module_callback id) [
      | none ↦ unit_module_weight w.zero
      | some handle ↦ handle
    ]
  ]

  -- The bodies of the five folds over the requests or responses of a message.
  unfoldable pub accept_weight : Weight → Post → Weight
  unfolding module_handle
  accept_weight acc req = w.plus acc ((module_handle req.to).on_accept req)

  unfoldable pub response_weight : Weight → Response → Weight
  unfolding module_handle
  response_weight acc (Response.post post) =
      w.plus acc ((module_handle post.post.from).on_response (Response.post post))
  response_weight acc (Response.get get) = acc

  unfoldable pub get_response_weight : Weight → Request → Weight
  unfolding module_handle
  get_response_weight acc (Request.post post) = acc
  get_response_weight acc (Request.get get) = w.plus acc (
      (module_handle get.from).on_response (
        Response.get
          (record { get = expect_get get (l.get_request (Request.get get)); values = [] })))

  unfoldable pub post_timeout_weight : Weight → Request → Weight
  unfolding module_handle
  post_timeout_weight acc (Request.post post) =
      w.plus acc ((module_handle post.from).on_timeout (Request.post post))
  post_timeout_weight acc (Request.get get) = acc

  unfoldable pub get_timeout_weight : Weight → Request → Weight
  unfolding module_handle
  get_timeout_weight acc (Request.post post) = acc
  get_timeout_weight acc (Request.get get) =
      w.plus acc ((module_handle get.from).on_timeout (Request.get get))

  -- the closure of the outer fold
  unfoldable pub message_weight : Weight → Message → Weight
  unfolding consensus_handler accept_weight response_weight get_response_weight post_timeout_weight
      get_timeout_weight
  message_weight acc (Message.consensus msg) =
      (consensus_handler msg.consensus_state_id).verify_consensus msg
  message_weight acc (Message.request msg) =
      let id = msg.proof.height.id in
      let cb_weight = foldl accept_weight w.zero msg.requests in
      let proof_verification_weight =
        (consensus_handler id.consensus_state_id).verify_membership id (length msg.requests)
          msg.proof in
      w.plus (w.plus (w.plus acc cb_weight) proof_verification_weight) w.handle_request_message
  message_weight acc (Message.response (ResponseMessage.post responses proof)) =
      let id = proof.height.id in
      let cb_weight = foldl response_weight w.zero responses in
      let proof_verification_weight =
        (consensus_handler id.consensus_state_id).verify_membership id (length responses) proof in
      w.plus (w.plus (w.plus acc cb_weight) proof_verification_weight) w.handle_response_message
  message_weight acc (Message.response (ResponseMessage.get requests proof)) =
      let id = proof.height.id in
      let cb_weight = foldl get_response_weight w.zero requests in
      let proof_verification_weight =
        (consensus_handler id.consensus_state_id).verify_state_proof id (length requests) proof in
      w.plus (w.plus (w.plus acc cb_weight) proof_verification_weight) w.handle_response_message
  message_weight acc (Message.timeout (TimeoutMessage.post requests timeout_proof)) =
      let id = timeout_proof.height.id in
      let cb_weight = foldl post_timeout_weight w.zero requests in
      let proof_verification_weight =
        (consensus_handler id.consensus_state_id).verify_state_proof id (length requests)
          timeout_proof in
      w.plus (w.plus (w.plus acc cb_weight) proof_verification_weight) w.handle_response_message
  message_weight acc (Message.timeout (TimeoutMessage.get requests)) =
      let cb_weight = foldl get_timeout_weight w.zero requests in
      w.plus (w.plus acc cb_weight) w.handle_timeout_message
  message_weight acc (Message.fraud_proof msg) =
      (consensus_handler msg.consensus_state_id).verify_fraud_proof msg

  -- `get_weight`: the weight that would be consumed when executing a batch of messages
  unfoldable pub get_weight : List Message → Weight
  get_weight messages = foldl message_weight w.zero messages
