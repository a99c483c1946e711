-- ===== src/Messages/Entered.antt =====
-- The updates that the messages of a batch bring, and what the body of the loop in
-- `handle_messages` of pallet-ismp/src/lib.rs makes of them.
use ismp_substrate.Base.{
  ℕ, ◌+◌, ◌≡◌, refl, ap, none, some, Option, Result, ok, err, List, [], ◌∷◌, ◌++◌, ltb, arith,
}
use ismp_substrate.StorageMap.{IsMap}
use ismp_substrate.Ismp.{
  StateMachineHeight, StateUpdates, Message, MessageResult, IsmpError, bytes_key,
  state_machine_id_key,
}
use ismp_substrate.Pallet.{State, Runtime, PalletEvent, HandlingError, get_or, deposit_event}
use ismp_substrate.Messages.{
  Handler, Progress, handle_message, update_messaging_height, advance, response_height,
  request_height, on_result, report,
}
use ismp_substrate.Messages.Announced.{
  either, announced-append, waiting, copies, announced, Brings, on_consensus-Brings,
}

-- the updates of a handler's answer
abbrev pub updates_of : Result IsmpError MessageResult → StateUpdates
updates_of (ok (MessageResult.consensus_message res)) = res.state_updates
updates_of (ok MessageResult.request) = []
updates_of (ok MessageResult.response) = []
updates_of (ok MessageResult.timeout) = []
updates_of (ok MessageResult.other) = []
updates_of (err e) = []

module _ (r : Runtime) (f : Handler) where
  -- the updates that the messages of a batch bring, in their order
  abbrev pub entered : List Message → Progress → StateUpdates
  entered [] p = []
  entered (m ∷ ms) p =
      updates_of (f m p.1).0
      ++ elim (handle_message r f m p) [ none ↦ [] | some p' ↦ entered ms p' ]

  pub entered_step :
      (m : Message) (ms : List Message) (p p' : Progress)
      → handle_message r f m p ≡ some p'
      → entered (m ∷ ms) p ≡ updates_of (f m p.1).0 ++ entered ms p'
  entered_step m ms p p' e = ground (arith, e)

-- What announces nothing and leaves the results in their challenge period.
abbrev pub SameUpdates : StateMachineHeight → State → State → Type 0
SameUpdates at t s =
    (announced at t.events ≡ announced at s.events)
    × (t.consensus_update_results ≡ s.consensus_update_results)

module _ (at : StateMachineHeight) where
  pub SameUpdates-Brings :
      (s t u : State) (n : ℕ)
      → SameUpdates at t s
      → (IsMap t.consensus_update_results → Brings at t n u)
      → IsMap s.consensus_update_results
      → Brings at s n u
  SameUpdates-Brings s t u n (events, results) next h =
      let (more, h') = next (rw results h) in
      (omega (arith, more, events, ap (waiting at) results), h')

  pub Brings-SameUpdates :
      (s t u : State) (n : ℕ) → Brings at s n t → SameUpdates at u t → Brings at s n u
  Brings-SameUpdates s t u n (more, h) (events, results) =
      (omega (arith, more, events, ap (waiting at) results), rw results h)

  pub copies-append : (us vs : StateUpdates) → copies at (us ++ vs) ≡ copies at us + copies at vs
  copies-append [] vs = omega arith
  copies-append ((previous, latest) ∷ us) vs = omega (arith, copies-append us vs)

  pub Brings-then :
      (s t u : State) (us vs : StateUpdates)
      → Brings at s (copies at us) t
      → Brings at t (copies at vs) u
      → Brings at s (copies at (us ++ vs)) u
  Brings-then s t u us vs (first, _) (rest, h) =
      (omega (arith, first, rest, copies-append us vs), h)

  unchanged : (s : State) → IsMap s.consensus_update_results → Brings at s 0 s
  unchanged s h = (omega arith, h)

  update_messaging_height-Brings :
      (height : StateMachineHeight) (s : State)
      → IsMap s.consensus_update_results
      → Brings at s 0 (update_messaging_height height s)
  unfolding update_messaging_height
  update_messaging_height-Brings height s h =
      either (ltb (get_or s.latest_messaging_height height.id 0) height.height) (Brings at s 0)
        (unchanged s h) (unchanged s h)

module _ (at : StateMachineHeight) (r : Runtime) where
  -- the state of a result, whatever it is called
  same_progress :
      (p q : Progress) (s : State) (n : ℕ)
      → ◌≡◌ {A = Option Progress} (some p) (some q)
      → Brings at s n p.1
      → Brings at s n q.1
  same_progress p q s n e h = let same : q ≡ p = cc in rw same h

  pub on_result-Brings :
      (m : Message) (res : Result IsmpError MessageResult) (errors : List HandlingError) (s : State)
      (p : Progress)
      → on_result r m res errors s ≡ some p
      → IsMap s.consensus_update_results
      → Brings at s (copies at (updates_of res)) p.1
  unfolding on_result advance response_height request_height
  on_result-Brings m (ok (MessageResult.consensus_message res)) errors s p e h =
      same_progress _ p s _ e (on_consensus-Brings at res s h)
  on_result-Brings m (ok MessageResult.timeout) errors s p e h =
      same_progress _ p s 0 e (unchanged at s h)
  on_result-Brings m (ok MessageResult.other) errors s p e h =
      same_progress _ p s 0 e (unchanged at s h)
  on_result-Brings m (err x) errors s p e h = same_progress _ p s 0 e (unchanged at s h)
  on_result-Brings (Message.response x) (ok MessageResult.response) errors s p e h =
      same_progress _ p s 0 e
        (update_messaging_height-Brings at (r.ismp.response_proof x).height s h)
  on_result-Brings (Message.request x) (ok MessageResult.request) errors s p e h =
      same_progress _ p s 0 e (update_messaging_height-Brings at x.proof.height s h)
  on_result-Brings m (ok MessageResult.response) errors s p e h = cc
  on_result-Brings m (ok MessageResult.request) errors s p e h = cc

  -- the event of the errors announces nothing
  pub report-SameUpdates : (f : Handler) (p : Progress) → SameUpdates at (report r f p) p.1
  unfolding report deposit_event
  report-SameUpdates f ([], s) = (refl, refl)
  report-SameUpdates f (e ∷ errors, s) = (
    omega (arith, announced-append at s.events (PalletEvent.handling_errors (e ∷ errors) ∷ [])),
    refl,
  )
