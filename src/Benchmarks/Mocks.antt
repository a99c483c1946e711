-- ===== src/Benchmarks/Mocks.antt =====
-- What the benchmarks set up: pallet-ismp/src/mocks/ismp.rs.
use ismp_substrate.Base.{ℕ, Option, none, some, [], ◌∷◌, Result, ok, err}
use ismp_substrate.StorageMap
use ismp_substrate.Ismp.{
  text, from_millis, StateMachine, StateMachineId, StateMachineHeight, ConsensusStateId,
  CreateConsensusState, Post, Request, bytes_key,
}
use ismp_substrate.Primitives.Digest.{zero_hash}
use ismp_substrate.Primitives.ModuleId.{ModuleId}
use ismp_substrate.Pallet.{State, Runtime, Run}
use ismp_substrate.Host.{store_state_machine_update_time}
use ismp_substrate.Handlers.{request_hash}
use ismp_substrate.Calls.{Outside}

-- What a benchmark runs in: the two origins that it calls from, and what the calls take from FRAME
-- and from the `ismp` crate while `pallet_timestamp` shows a number of milliseconds.
pub record Bench (Origin : Type 0) : Type 0 where
  pub root : Origin
  pub caller : Origin
  pub at : ℕ → Outside Origin

-- `MOCK_CONSENSUS_STATE_ID`
abbrev pub mock_consensus_state_id : ConsensusStateId
mock_consensus_state_id = text "mock"

-- `MODULE_ID`
abbrev pub module_id : ModuleId
module_id = ModuleId.pallet (text "__mock__")

-- `StateMachine::Ethereum(Ethereum::ExecutionLayer)`
abbrev pub execution_layer : StateMachine
execution_layer = StateMachine.ethereum 0

abbrev pub mock_machine : StateMachineId
mock_machine = record { state_id = execution_layer; consensus_state_id = mock_consensus_state_id }

-- the client that `setup_mock_client` creates
abbrev pub mock_client : CreateConsensusState
mock_client = record {
  consensus_state = [];
  consensus_client_id = mock_consensus_state_id;
  consensus_state_id = mock_consensus_state_id;
  unbonding_period = 1000000;
  challenge_period = 0;
  state_machine_commitments =
      (
        mock_machine,
        record {
          commitment = record { timestamp = 1000; overlay_root = none; state_root = zero_hash };
          height = 3;
        },
      )
      ∷ [];
}

abbrev pub mock_height : StateMachineHeight
mock_height = record { id = mock_machine; height = 3 }

-- the times that `setup_mock_client` sets, before the creation and in the end
abbrev pub setup_time : ℕ
setup_time = 1000000

abbrev pub trial_time : ℕ
trial_time = 1000000000

module _ {Origin : Type 0} (b : Bench Origin) where
  -- `setup_mock_client`; `none` is the panic of `unwrap`.
  unfoldable pub setup_mock_client : State → Option (StateMachineHeight × State)
  unfolding store_state_machine_update_time
  setup_mock_client s =
      let (result, s') = (b.at setup_time).create_client mock_client s in
      elim result [
        | err e ↦ none
        | ok id ↦
            some
              (mock_height, store_state_machine_update_time mock_height (from_millis setup_time) s')
      ]

-- `unwrap` of a call's or a dispatch's result, and the state after it
abbrev pub unwrap : {E A : Type 0} → Run (Result E A × State) → Option State
unwrap none = none
unwrap (some (err e, s)) = none
unwrap (some (ok a, s)) = some s

-- `RequestCommitments::insert` of a request that was not dispatched
abbrev pub committed : Runtime → Post → State → State
committed r post s = record s {
  request_commitments =
      StorageMap.insert s.request_commitments (request_hash r (Request.post post))
        (record { source_chain = post.source; dest_chain = post.dest; nonce = post.nonce });
}
