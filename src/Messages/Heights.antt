-- ===== src/Messages/Heights.antt =====
-- The latest messaging heights, and that a batch always returns.
use ismp_substrate.Base.{ℕ, ◌≤◌, ◌≡◌, ◌∙◌, refl, some, List, [], ◌∷◌, ◌++◌, Result, ok, err, arith}
use ismp_substrate.StorageMap.{get-insert}
use ismp_substrate.Ismp.{
  StateMachineId, StateMachineHeight, ConsensusUpdateResult, StateUpdates, bytes_key, Message,
  MessageResult, IsmpError, state_machine_id_key,
}
use ismp_substrate.Pallet.{
  State, Runtime, PalletEvent, HandlingError, Run, from_error, get_or, deposit_event,
}
use ismp_substrate.Messages.{
  Handler, Progress, deposit_updates, on_trusted, on_challenged, response_height, request_height,
  on_consensus, update_messaging_height, advance, on_result, handle_message, handle_loop, report,
  handle_messages, PostDispatchInfo, cleared, info_of,
}
use ismp_substrate.Weights.{get_weight}
use ismp_substrate.Weights.Providers.{Weights}

-- The latest height at which requests or responses of a state machine were handled.
abbrev pub height_of : State → StateMachineId → ℕ
height_of s id = get_or s.latest_messaging_height id 0

-- The handler's documented answers: a result of the kind of its message.
pub record InKind (f : Handler) : Type 0 where
  pub kind :
      (m : Message) (s : State)
      → ((f m s).0 ≡ ok MessageResult.response → (x : _) × (m ≡ Message.response x))
        × ((f m s).0 ≡ ok MessageResult.request → (x : _) × (m ≡ Message.request x))

-- Beside that, it does not write the latest messaging heights, which no method of the host writes.
pub record Answers (f : Handler) : Type 0 where
  pub in_kind : InKind f
  pub heights :
      (m : Message) (s : State) → (f m s).1.latest_messaging_height ≡ s.latest_messaging_height

-- The update raises the height of its own state machine to the proof's, if that is above, and
-- leaves the others.
pub height_of-update :
    (h : StateMachineHeight) (s : State) (id : StateMachineId)
    → height_of s id ≤ height_of (update_messaging_height h s) id
unfolding update_messaging_height
height_of-update h s id = ground (arith, get-insert s.latest_messaging_height h.id id h.height)

deposit_updates_heights :
    (updates : StateUpdates) (s : State)
    → (deposit_updates updates s).latest_messaging_height ≡ s.latest_messaging_height
unfolding deposit_updates deposit_event
deposit_updates_heights [] s = refl
deposit_updates_heights ((previous, latest) ∷ updates) s =
    deposit_updates_heights updates
      (deposit_event (PalletEvent.state_machine_updated latest.id latest.height) s)

on_trusted_heights :
    (res : ConsensusUpdateResult) (s : State)
    → (on_trusted res s).latest_messaging_height ≡ s.latest_messaging_height
unfolding on_trusted
on_trusted_heights res s = deposit_updates_heights res.state_updates s

on_challenged_heights :
    (res : ConsensusUpdateResult) (s : State)
    → (on_challenged res s).latest_messaging_height ≡ s.latest_messaging_height
unfolding on_challenged deposit_event
on_challenged_heights res s =
    deposit_updates_heights (get_or s.consensus_update_results res.consensus_client_id []) s

on_consensus_heights :
    (res : ConsensusUpdateResult) (s : State)
    → (on_consensus res s).latest_messaging_height ≡ s.latest_messaging_height
unfolding on_consensus
on_consensus_heights res s = ground (arith, on_trusted_heights res s, on_challenged_heights res s)

-- A step returns, and no height falls.
abbrev pub Returns : Run Progress → State → Type 0
Returns run s =
    (p : Progress) × (run ≡ some p) × ((id : StateMachineId) → height_of s id ≤ height_of p.1 id)

module _ (r : Runtime) where
  pub on_result-Returns :
      (m : Message) (res : Result IsmpError MessageResult) (errors : List HandlingError) (s : State)
      → (res ≡ ok MessageResult.response → (x : _) × (m ≡ Message.response x))
      → (res ≡ ok MessageResult.request → (x : _) × (m ≡ Message.request x))
      → Returns (on_result r m res errors s) s
  unfolding on_result advance response_height request_height
  on_result-Returns m (ok (MessageResult.consensus_message res)) errors s _ _ =
      ((errors, on_consensus res s), refl, λ id. ground (arith, on_consensus_heights res s))
  on_result-Returns m (ok MessageResult.response) errors s k _ =
      let (x, e) = k refl in
      rw e (
        (errors, update_messaging_height (r.ismp.response_proof x).height s),
        refl,
        height_of-update (r.ismp.response_proof x).height s,
      )
  on_result-Returns m (ok MessageResult.request) errors s _ k =
      let (x, e) = k refl in
      rw e (
        (errors, update_messaging_height x.proof.height s),
        refl,
        height_of-update x.proof.height s,
      )
  on_result-Returns m (ok MessageResult.timeout) errors s _ _ =
      ((errors, s), refl, λ id. omega arith)
  on_result-Returns m (ok MessageResult.other) errors s _ _ = ((errors, s), refl, λ id. omega arith)
  on_result-Returns m (err e) errors s _ _ =
      ((errors ++ from_error e ∷ [], s), refl, λ id. omega arith)

  module _ (f : Handler) where
    pub handle_messages_step :
        (w : Weights) (ms : List Message) (s : State) (p : Progress)
        → handle_loop r f ms ([], cleared w s) ≡ some p
        → handle_messages r f w ms s
          ≡ some (info_of w (get_weight w r.ismp ms) (report r f p), report r f p)
    unfolding handle_messages
    handle_messages_step w ms s p e = ground arith

    pub handle_loop_step :
        (m : Message) (ms : List Message) (p p' : Progress)
        → handle_message r f m p ≡ some p'
        → handle_loop r f (m ∷ ms) p ≡ handle_loop r f ms p'
    unfolding handle_loop
    handle_loop_step m ms p p' e = ground arith

    -- the body of the loop returns
    pub handle_message_returns :
        (m : Message) (p : Progress)
        → InKind f
        → (p' : Progress) × (handle_message r f m p ≡ some p')
    unfolding handle_message
    handle_message_returns m (errors, s) k =
        let (p', e, _) =
          on_result-Returns m (f m s).0 errors (f m s).1 (k.kind m s).0 (k.kind m s).1 in
        (p', e)

  module _ (f : Handler) (answers : Answers f) where
    handle_message-Returns : (m : Message) (p : Progress) → Returns (handle_message r f m p) p.1
    unfolding handle_message
    handle_message-Returns m (errors, s) =
        let k = answers.in_kind.kind m s in
        let (p, e, up) = on_result-Returns m (f m s).0 errors (f m s).1 k.0 k.1 in
        (p, e, λ id. ground (arith, up id, answers.heights m s))

    handle_loop-Returns : (ms : List Message) (p : Progress) → Returns (handle_loop r f ms p) p.1
    unfolding handle_loop
    handle_loop-Returns [] p = (p, refl, λ id. omega arith)
    handle_loop-Returns (m ∷ ms) p =
        let (p', e, up) = handle_message-Returns m p in
        let (p'', e', up') = handle_loop-Returns ms p' in
        (p'', handle_loop_step f m ms p p' e ∙ e', λ id. omega (arith, up id, up' id))

    report_heights :
        (p : Progress) → (report r f p).latest_messaging_height ≡ p.1.latest_messaging_height
    unfolding report deposit_event
    report_heights ([], s) = refl
    report_heights (e ∷ errors, s) = refl

    -- Over a handler that answers each message in its own kind and writes no latest messaging
    -- height, a batch always returns, whatever messages it holds and whichever of them fail, and
    -- the latest messaging height of no state machine falls.
    pub handle_messages_returns :
        (w : Weights) (ms : List Message) (s : State)
        → (info : PostDispatchInfo) × (s' : State) × (handle_messages r f w ms s ≡ some (info, s'))
          × ((id : StateMachineId) → height_of s id ≤ height_of s' id)
    unfolding handle_messages
    handle_messages_returns w ms s =
        let (p, e, up) = handle_loop-Returns ms ([], cleared w s) in
        (
          info_of w (get_weight w r.ismp ms) (report r f p),
          report r f p,
          handle_messages_step f w ms s p e,
          λ id. ground (arith, up id, report_heights p),
        )
