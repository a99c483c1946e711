-- ===== src/Messages/Ranges.antt =====
-- What `handle_messages` of pallet-ismp/src/lib.rs itself writes is beside the range of leaves, the
-- nonce and the commitments of responses.
use ismp_substrate.Base.{◌≡◌, refl, some, Option, Result, ok, err, List, [], ◌∷◌, arith}
use ismp_substrate.Ismp.{
  Message, MessageResult, IsmpError, StateUpdates, ConsensusUpdateResult, StateMachineHeight,
  bytes_key, state_machine_id_key,
}
use ismp_substrate.Pallet.{State, Runtime, PalletEvent, HandlingError, deposit_event, get_or}
use ismp_substrate.Messages.{
  Handler, Progress, deposit_updates, on_trusted, on_challenged, on_consensus,
  update_messaging_height, advance, response_height, request_height, on_result, report,
}
use ismp_substrate.Chain.Ranges.{SameRange}

module _ (r : Runtime) where
  deposit_updates-SameRange :
      (updates : StateUpdates) (s : State) → SameRange (deposit_updates updates s) s
  unfolding deposit_updates deposit_event
  deposit_updates-SameRange [] s = (refl, refl, refl, refl, refl)
  deposit_updates-SameRange ((previous, latest) ∷ updates) s =
      deposit_updates-SameRange updates
        (deposit_event (PalletEvent.state_machine_updated latest.id latest.height) s)

  on_consensus-SameRange :
      (res : ConsensusUpdateResult) (s : State) → SameRange (on_consensus res s) s
  unfolding on_consensus on_trusted on_challenged deposit_event
  on_consensus-SameRange res s =
      let trusted = deposit_updates-SameRange res.state_updates s in
      let challenged =
        deposit_updates-SameRange (get_or s.consensus_update_results res.consensus_client_id [])
          s in
      (
        ground (arith, trusted, challenged),
        ground (arith, trusted, challenged),
        ground (arith, trusted, challenged),
        ground (arith, trusted, challenged),
        ground (arith, trusted, challenged),
      )

  update_messaging_height-SameRange :
      (h : StateMachineHeight) (s : State) → SameRange (update_messaging_height h s) s
  unfolding update_messaging_height
  update_messaging_height-SameRange h s =
      (ground arith, ground arith, ground arith, ground arith, ground arith)

  -- the state of a result, whatever it is called
  same_progress :
      (p q : Progress) (s : State)
      → ◌≡◌ {A = Option Progress} (some p) (some q)
      → SameRange p.1 s
      → SameRange q.1 s
  same_progress p q s e h = let same : q ≡ p = cc in rw same h

  -- After the handler, only the pallet's own items and events change.
  pub on_result-SameRange :
      (m : Message) (res : Result IsmpError MessageResult) (errors : List HandlingError) (s : State)
      (p : Progress)
      → on_result r m res errors s ≡ some p
      → SameRange p.1 s
  unfolding on_result advance response_height request_height
  on_result-SameRange m (ok (MessageResult.consensus_message res)) errors s p e =
      same_progress _ p s e (on_consensus-SameRange res s)
  on_result-SameRange m (ok MessageResult.timeout) errors s p e =
      same_progress _ p s e (refl, refl, refl, refl, refl)
  on_result-SameRange m (ok MessageResult.other) errors s p e =
      same_progress _ p s e (refl, refl, refl, refl, refl)
  on_result-SameRange m (err x) errors s p e = same_progress _ p s e (refl, refl, refl, refl, refl)
  on_result-SameRange (Message.response x) (ok MessageResult.response) errors s p e =
      same_progress _ p s e (update_messaging_height-SameRange (r.ismp.response_proof x).height s)
  on_result-SameRange (Message.request x) (ok MessageResult.request) errors s p e =
      same_progress _ p s e (update_messaging_height-SameRange x.proof.height s)
  on_result-SameRange m (ok MessageResult.response) errors s p e = (cc, cc, cc, cc, cc)
  on_result-SameRange m (ok MessageResult.request) errors s p e = (cc, cc, cc, cc, cc)

  pub report-SameRange : (f : Handler) (p : Progress) → SameRange (report r f p) p.1
  unfolding report deposit_event
  report-SameRange f ([], s) = (refl, refl, refl, refl, refl)
  report-SameRange f (e ∷ errors, s) = (refl, refl, refl, refl, refl)
