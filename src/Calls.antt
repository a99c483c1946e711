-- ===== src/Calls.antt =====
-- The calls of pallet-ismp/src/lib.rs.
pub mod Origins
use ismp_substrate.Base.{ℕ, Bool, true, false, Option, none, some, Result, ok, err, List}
use ismp_substrate.Ismp.{
  Bytes, StateMachine, ConsensusStateId, ConsensusClientId, CreateConsensusState, Message,
  IsmpError,
}
use ismp_substrate.Pallet.{State, Runtime, Run, PalletEvent, deposit_event}
use ismp_substrate.Host.{store_unbonding_period, store_challenge_period, store_allowed_proxies}
use ismp_substrate.Weights.Providers.{Weights}
use ismp_substrate.Messages.{Handler, PostDispatchInfo, handle_messages}

-- `pallet::Error`
pub data PalletError : Type 0 where
  invalid_message consensus_client_creation_failed : PalletError
  unbonding_period_update_failed challenge_period_update_failed : PalletError

-- `sp_runtime::DispatchError`, the variants that the calls return
pub data DispatchError : Type 0 where
  bad_origin : DispatchError
  module_error : PalletError → DispatchError

-- `pallet::UpdateConsensusState`
pub record UpdateConsensusState : Type 0 where
  pub consensus_state_id : ConsensusStateId
  pub unbonding_period : Option ℕ
  pub challenge_period : Option ℕ

-- What the calls take from FRAME and from the `ismp` crate: the two checks of an origin, and the
-- creation of a client, with the client id of its result.
pub record Outside (Origin : Type 0) : Type 0 where
  pub is_signed : Origin → Bool
  pub is_admin : Origin → Bool
  pub create_client : CreateConsensusState → State → Result IsmpError ConsensusClientId × State
  pub handle_incoming_message : Handler

-- `if let Some(period) = … { host.store_…(id, period) }`, whose error never arises
abbrev store_if : (ℕ → State → State) → Option ℕ → State → State
store_if store none s = s
store_if store (some period) s = store period s

module _ {Origin : Type 0} (o : Outside Origin) (origin : Origin) where
  -- `handle`
  unfoldable pub handle :
      Runtime → Weights → List Message → State → Run (Result DispatchError PostDispatchInfo × State)
  handle r w messages s = elim (o.is_signed origin) [
    | false ↦ some (err DispatchError.bad_origin, s)
    | true ↦ elim (handle_messages r o.handle_incoming_message w messages s) [
      | none ↦ none
      | some (info, s') ↦ some (ok info, s')
    ]
  ]

  -- the result of `handlers::create_client`, with its event
  unfoldable pub created :
      Result IsmpError ConsensusClientId → State → Result DispatchError Unit × State
  unfolding deposit_event
  created (err e) s =
      (err (DispatchError.module_error PalletError.consensus_client_creation_failed), s)
  created (ok id) s = (ok tt, deposit_event (PalletEvent.consensus_client_created id) s)

  -- `create_consensus_client`
  unfoldable pub create_consensus_client :
      CreateConsensusState → State → Result DispatchError Unit × State
  unfolding created
  create_consensus_client message s = elim (o.is_admin origin) [
    | false ↦ (err DispatchError.bad_origin, s)
    | true ↦ let (result, s') = o.create_client message s in created result s'
  ]

  -- `update_consensus_state`
  unfoldable pub update_consensus_state :
      UpdateConsensusState → State → Result DispatchError Unit × State
  unfolding store_unbonding_period store_challenge_period
  update_consensus_state message s = elim (o.is_admin origin) [
    | false ↦ (err DispatchError.bad_origin, s)
    | true ↦ (
      ok tt,
      store_if (store_challenge_period message.consensus_state_id) message.challenge_period
          (store_if (store_unbonding_period message.consensus_state_id) message.unbonding_period s),
    )
  ]

  -- `set_config`
  unfoldable pub set_config : List StateMachine → State → Result DispatchError Unit × State
  unfolding store_allowed_proxies
  set_config allowed s = elim (o.is_admin origin) [
    | false ↦ (err DispatchError.bad_origin, s)
    | true ↦ (ok tt, store_allowed_proxies allowed s)
  ]
