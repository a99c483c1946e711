-- ===== src/Benchmarks/Incoming.antt =====
-- The benchmarks of pallet-ismp/src/benchmarking.rs that call the pallet: what each sets up, runs and
-- asserts. The result is the state in the end; `none` is a panic, a failed call or a failed
-- assertion.
use ismp_substrate.Base.{
  ℕ, ◌*◌, ◌-◌, Bool, true, false, not, Option, none, some, List, [], ◌∷◌, u64_mod,
}
use ismp_substrate.StorageMap
use ismp_substrate.Ismp.{
  Bytes, text, bytes_key, StateMachineHeight, Post, Request, Response, Message,
  CreateConsensusState, ResponseMessage, TimeoutMessage,
}
use ismp_substrate.Primitives.Digest.{zero_hash}
use ismp_substrate.Primitives.ModuleId.{to_bytes}
use ismp_substrate.Pallet.{State, Runtime, PalletEvent, PalletEvent-discrete}
use ismp_substrate.Host.{store_challenge_period}
use ismp_substrate.Handlers.{request_hash}
use ismp_substrate.Weights.Providers.{Weights}
use ismp_substrate.Calls
use ismp_substrate.Calls.{DispatchError}
use ismp_substrate.Benchmarks.Mocks.{
  unwrap, committed, Bench, mock_consensus_state_id, module_id, execution_layer, mock_machine,
  trial_time, setup_mock_client,
}

-- `assert!`
abbrev assert : Bool → State → Option State
assert true s = some s
assert false s = none

abbrev last_is : PalletEvent → List PalletEvent → Bool
last_is e [] = false
last_is e (x ∷ []) = elim (PalletEvent-discrete x e) [ yes same ↦ true | no other ↦ false ]
last_is e (x ∷ y ∷ es) = last_is e (y ∷ es)

-- `assert_last_event`; an empty list of events panics.
unfoldable pub assert_last_event : PalletEvent → State → Option State
assert_last_event generic_event s = assert (last_is generic_event s.events) s

-- the message of the first benchmark
abbrev pub new_client : CreateConsensusState
new_client = record {
  consensus_state = [];
  consensus_client_id = mock_consensus_state_id;
  consensus_state_id = mock_consensus_state_id;
  unbonding_period = u64_mod - 1;
  challenge_period = 0;
  state_machine_commitments =
      (
        mock_machine,
        record {
          commitment = record {
            timestamp = 1651280681;
            overlay_root = none;
            state_root = zero_hash;
          };
          height = 1;
        },
      )
      ∷ [];
}

module _ {Origin : Type 0} (b : Bench Origin) where
  -- `create_consensus_client`, at the time that the chain shows
  unfoldable pub create_consensus_client : ℕ → State → Option State
  unfolding assert_last_event
  create_consensus_client now s =
      elim (unwrap (some (Calls.create_consensus_client (b.at now) b.root new_client s))) [
        | none ↦ none
        | some s' ↦
            assert_last_event (PalletEvent.consensus_client_created mock_consensus_state_id) s'
      ]

  module _ (r : Runtime) (w : Weights) where
    -- the mock client, after its challenge period
    unfoldable pub prepared : State → Option (StateMachineHeight × State)
    unfolding setup_mock_client store_challenge_period
    prepared s = setup_mock_client b (store_challenge_period mock_consensus_state_id (60 * 60) s)

    -- `handle(RawOrigin::Signed(caller), vec![..])`
    unfoldable pub handled : Message → State → Option State
    handled message s = unwrap (Calls.handle (b.at trial_time) b.caller r w (message ∷ []) s)

    -- the incoming request of `handle_request_message`
    abbrev pub incoming_post : Post
    incoming_post = record {
      source = execution_layer;
      dest = r.state_machine;
      nonce = 0;
      from = to_bytes module_id;
      to = to_bytes module_id;
      timeout_timestamp = 5000;
      body = text "handle_request_message";
      gas_limit = 0;
    }

    -- `handle_request_message`
    unfoldable pub handle_request_message : State → Option State
    unfolding prepared handled
    handle_request_message s = elim (prepared s) [
      | none ↦ none
      | some (height, s1) ↦
          elim (handled
            (Message.request (record {
              requests = incoming_post ∷ [];
              proof = record { height = height; proof = [] };
            }))
            s1) [
              | none ↦ none
              | some s2 ↦
                  assert
                    (StorageMap.contains_key s2.request_receipts
                      (request_hash r (Request.post incoming_post)))
                    s2
            ]
    ]

    -- an outgoing request, with its timeout and its data
    abbrev pub outgoing_post : ℕ → Bytes → Post
    outgoing_post timeout body = record {
      source = r.state_machine;
      dest = execution_layer;
      nonce = 0;
      from = to_bytes module_id;
      to = to_bytes module_id;
      timeout_timestamp = timeout;
      body = body;
      gas_limit = 0;
    }

    -- `handle_response_message`
    unfoldable pub handle_response_message : State → Option State
    unfolding prepared handled
    handle_response_message s = elim (prepared s) [
      | none ↦ none
      | some (height, s1) ↦
          let post = outgoing_post 5000 (text "handle_response_message") in
          let response = Response.post (record { post = post; response = [] }) in
          elim (handled
            (Message.response
              (ResponseMessage.post (response ∷ []) (record { height = height; proof = [] })))
            (committed r post s1)) [
              | none ↦ none
              | some s2 ↦
                  assert
                    (StorageMap.contains_key s2.response_receipts
                      (request_hash r (r.ismp.request response)))
                    s2
            ]
    ]

    -- `handle_timeout_message`
    unfoldable pub handle_timeout_message : State → Option State
    unfolding prepared handled
    handle_timeout_message s = elim (prepared s) [
      | none ↦ none
      | some (height, s1) ↦
          let post = outgoing_post 500 (text "handle_timeout_message") in
          elim (handled
            (Message.timeout (
              TimeoutMessage.post (Request.post post ∷ [])
                (record { height = height; proof = [] })))
            (committed r post s1)) [
              | none ↦ none
              | some s2 ↦
                  assert
                    (not (
                      StorageMap.contains_key s2.request_commitments
                        (request_hash r (Request.post post))))
                    s2
            ]
    ]
