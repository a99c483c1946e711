-- ===== src/Messages.antt =====
-- `Pallet::handle_messages` of pallet-ismp/src/lib.rs: a batch of incoming messages, each handed to
-- the `ismp` crate's handler, which reads and writes the pallet's storage through the host.
pub mod Heights
pub mod Reports
pub mod Ranges
pub mod Announced
pub mod Entered
use ismp_substrate.Base.{
  ℕ, Bool, true, false, Option, none, some, List, [], ◌∷◌, ◌++◌, Result, ok, err, ltb, ◌==◌, ◌&&◌,
  if◌then◌else◌,
}
use ismp_substrate.StorageMap
use ismp_substrate.Ismp.{
  bytes_key, Duration, StateMachineHeight, StateUpdates, ConsensusUpdateResult, Message,
  MessageResult, RequestMessage, Proof, IsmpError, state_machine_id_key,
}
use ismp_substrate.Primitives.{Weight, WeightUsed}
use ismp_substrate.Pallet.{
  State, Runtime, Run, PalletEvent, HandlingError, from_error, deposit_event, get_or,
}
use ismp_substrate.Host.{challenge_period}
use ismp_substrate.Weights.{get_weight}
use ismp_substrate.Weights.Providers.{Weights}

-- `PostDispatchInfo`; `Pays::Yes` is the one value used
pub record PostDispatchInfo : Type 0 where
  pub actual_weight : Option Weight
  pub pays_fee : Bool

-- `ismp::handlers::handle_incoming_message`, over the host's storage
abbrev pub Handler : Type 0
Handler = Message → State → Result IsmpError MessageResult × State

-- `for (_, latest_height) in updates { deposit_event(StateMachineUpdated) }`
unfoldable pub deposit_updates : StateUpdates → State → State
unfolding deposit_event
deposit_updates [] s = s
deposit_updates ((previous, latest) ∷ updates) s =
    deposit_updates updates
      (deposit_event (PalletEvent.state_machine_updated latest.id latest.height) s)

-- `== Some(Duration::from_secs(0))`
unfoldable pub is_zero_period : Option Duration → Bool
is_zero_period none = false
is_zero_period (some d) = d.secs == 0 && d.nanos == 0

unfoldable pub on_trusted : ConsensusUpdateResult → State → State
unfolding deposit_updates
on_trusted res s = deposit_updates res.state_updates s

-- the updates that were still in their challenge period, the new period, and its updates
unfoldable pub on_challenged : ConsensusUpdateResult → State → State
unfolding deposit_updates deposit_event
on_challenged res s =
    let pending = get_or s.consensus_update_results res.consensus_client_id [] in
    let s' =
      deposit_event (PalletEvent.challenge_period_started res.consensus_client_id res.state_updates)
        (deposit_updates pending s) in
    record s' {
      consensus_update_results =
          StorageMap.insert s'.consensus_update_results res.consensus_client_id res.state_updates;
    }

unfoldable pub on_consensus : ConsensusUpdateResult → State → State
unfolding is_zero_period on_trusted on_challenged challenge_period
on_consensus res s =
    if is_zero_period (challenge_period res.consensus_state_id s)
    then on_trusted res s
    else on_challenged res s

-- `if LatestMessagingHeight::get(&id) < height { LatestMessagingHeight::insert(id, height) }`
unfoldable pub update_messaging_height : StateMachineHeight → State → State
update_messaging_height h s =
    if ltb (get_or s.latest_messaging_height h.id 0) h.height
    then record s {
      latest_messaging_height = StorageMap.insert s.latest_messaging_height h.id h.height;
    }
    else s

-- The errors collected so far, and the state.
abbrev pub Progress : Type 0
Progress = List HandlingError × State

-- `WeightConsumed::kill()`, written as the default value that is read in its place
abbrev pub cleared : Weights → State → State
cleared w s = record s { weight_consumed = record { weight_used = w.zero; weight_limit = w.zero } }

-- the weight after dispatch, with what the handlers of the modules used
abbrev pub info_of : Weights → Weight → State → PostDispatchInfo
info_of w total_weight s =
    let acc = s.weight_consumed in
    record {
      actual_weight = some (w.plus (w.minus total_weight acc.weight_limit) acc.weight_used);
      pays_fee = true;
    }

module _ (r : Runtime) where
  -- The height of the proof of a response; `unreachable!()` for any other message.
  unfoldable pub response_height : Message → Option StateMachineHeight
  response_height (Message.response response) = some (r.ismp.response_proof response).height
  response_height _ = none

  unfoldable pub request_height : Message → Option StateMachineHeight
  request_height (Message.request request) = some request.proof.height
  request_height _ = none

  -- `none` is the panic of `unreachable!()`
  unfoldable pub advance : Option StateMachineHeight → List HandlingError → State → Run Progress
  unfolding update_messaging_height
  advance none errors s = none
  advance (some h) errors s = some (errors, update_messaging_height h s)

  -- the match on the handler's result
  unfoldable pub on_result :
      Message → Result IsmpError MessageResult → List HandlingError → State → Run Progress
  unfolding on_consensus advance response_height request_height
  on_result message (ok (MessageResult.consensus_message res)) errors s =
      some (errors, on_consensus res s)
  on_result message (ok MessageResult.response) errors s =
      advance (response_height message) errors s
  on_result message (ok MessageResult.request) errors s = advance (request_height message) errors s
  on_result message (ok MessageResult.timeout) errors s = some (errors, s)
  on_result message (ok MessageResult.other) errors s = some (errors, s)
  on_result message (err e) errors s = some (errors ++ from_error e ∷ [], s)

  module _ (handle_incoming_message : Handler) where
    -- the body of the loop
    unfoldable pub handle_message : Message → Progress → Run Progress
    unfolding on_result
    handle_message message (errors, s) =
        let (result, s') = handle_incoming_message message s in on_result message result errors s'

    -- `for message in messages`
    unfoldable pub handle_loop : List Message → Progress → Run Progress
    handle_loop [] p = some p
    handle_loop (message ∷ messages) p = elim (handle_message message p) [
      | none ↦ none
      | some p' ↦ handle_loop messages p'
    ]

    -- `if !errors.is_empty() { deposit_event(HandlingErrors) }`
    unfoldable pub report : Progress → State
    unfolding deposit_event
    report ([], s) = s
    report (e ∷ errors, s) = deposit_event (PalletEvent.handling_errors (e ∷ errors)) s

    unfoldable pub handle_messages : Weights → List Message → State → Run (PostDispatchInfo × State)
    unfolding report
    handle_messages w messages s =
        let total_weight = get_weight w r.ismp messages in
        elim (handle_loop messages ([], cleared w s)) [
          | none ↦ none
          | some p ↦ let s' = report p in some (info_of w total_weight s', s')
        ]
