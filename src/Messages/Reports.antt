-- ===== src/Messages/Reports.antt =====
-- What a batch of messages reports, against an independent account of the run.
use ismp_substrate.Base.{
  ◌≡◌, ◌∙◌, refl, ap, sym, Option, none, some, List, [], ◌∷◌, ◌++◌, ok, err, map, arith,
}
use mathlib.Core.List.{append_assoc, append-nil}
use ismp_substrate.Weights.{get_weight}
use ismp_substrate.Ismp.{Message, MessageResult, IsmpError, StateMachineHeight}
use ismp_substrate.Pallet.{State, Runtime, PalletEvent, HandlingError, from_error, deposit_event}
use ismp_substrate.Messages.{
  Handler, on_result, handle_message, handle_loop, report, handle_messages, advance,
  response_height, request_height, info_of, PostDispatchInfo, cleared,
}
use ismp_substrate.Messages.Heights.{handle_messages_step}
use ismp_substrate.Weights.Providers.{Weights}

module _ (r : Runtime) (f : Handler) where
  -- The run of a batch from a state to a state, with the errors of its failing messages in order.
  -- A failing message leaves what its handler wrote, and the run goes on.
  pub data Runs : State → List Message → List IsmpError → State → Type 0 where
    finished : {s : State} → Runs s [] [] s
    failed :
        {s s' t : State} {m : Message} {e : IsmpError} {ms : List Message} {es : List IsmpError}
        → f m s ≡ (err e, s')
        → Runs s' ms es t
        → Runs s (m ∷ ms) (e ∷ es) t
    handled :
        {s s' s'' t : State} {m : Message} {res : MessageResult} {ms : List Message}
        {es : List IsmpError}
        → f m s ≡ (ok res, s')
        → on_result r m (ok res) [] s' ≡ some ([], s'')
        → Runs s'' ms es t
        → Runs s (m ∷ ms) es t

  advance_errors :
      (h : Option StateMachineHeight) (errors : List HandlingError) (s t : State)
      → advance r h [] s ≡ some ([], t)
      → advance r h errors s ≡ some (errors, t)
  unfolding advance
  advance_errors none errors s t e = ground arith
  advance_errors (some h) errors s t e = ground arith

  on_result_errors :
      (m : Message) (res : MessageResult) (errors : List HandlingError) (s t : State)
      → on_result r m (ok res) [] s ≡ some ([], t)
      → on_result r m (ok res) errors s ≡ some (errors, t)
  unfolding on_result
  on_result_errors m (MessageResult.consensus_message res) errors s t e = ground arith
  on_result_errors m MessageResult.response errors s t e =
      advance_errors (response_height r m) errors s t e
  on_result_errors m MessageResult.request errors s t e =
      advance_errors (request_height r m) errors s t e
  on_result_errors m MessageResult.timeout errors s t e = ground arith
  on_result_errors m MessageResult.other errors s t e = ground arith

  loop_failed :
      (m : Message) (ms : List Message) (errors : List HandlingError) (s s' : State) (e : IsmpError)
      → f m s ≡ (err e, s')
      → handle_loop r f (m ∷ ms) (errors, s) ≡ handle_loop r f ms (errors ++ from_error e ∷ [], s')
  unfolding handle_loop handle_message on_result
  loop_failed m ms errors s s' e eq = ground arith

  loop_handled :
      (m : Message) (ms : List Message) (errors : List HandlingError) (s s' t : State)
      (res : MessageResult)
      → f m s ≡ (ok res, s')
      → on_result r m (ok res) errors s' ≡ some (errors, t)
      → handle_loop r f (m ∷ ms) (errors, s) ≡ handle_loop r f ms (errors, t)
  unfolding handle_loop handle_message
  loop_handled m ms errors s s' t res e e' = ground arith

  handle_loop_reports :
      {s t : State} {ms : List Message} {es : List IsmpError} (errors : List HandlingError)
      → Runs s ms es t
      → handle_loop r f ms (errors, s) ≡ some (errors ++ map from_error es, t)
  unfolding handle_loop
  handle_loop_reports errors finished =
      ap (λ (l : List HandlingError). some (l, _)) (sym (append-nil errors))
  handle_loop_reports errors (failed {s} {s'} {t} {m} {e} {ms} {es} eq runs) =
      loop_failed m ms errors s s' e eq
      ∙ handle_loop_reports (errors ++ from_error e ∷ []) runs
      ∙ ap (λ (l : List HandlingError). some (l, t))
          (append_assoc errors (from_error e ∷ []) (map from_error es))
  handle_loop_reports errors (handled {s} {s'} {s''} {t} {m} {res} {ms} e e' runs) =
      loop_handled m ms errors s s' s'' res e (on_result_errors m res errors s' s'' e')
      ∙ handle_loop_reports errors runs

  -- the event of the failing messages of a batch
  abbrev pub reported : List IsmpError → State → State
  reported [] t = t
  reported (e ∷ es) t = record t {
    events = t.events ++ PalletEvent.handling_errors (map from_error (e ∷ es)) ∷ [];
  }

  report-reported :
      (es : List IsmpError) (t : State) → report r f (map from_error es, t) ≡ reported es t
  unfolding report deposit_event
  report-reported [] t = refl
  report-reported (e ∷ es) t = refl

  -- A batch that runs with the errors `es` returns, and deposits one event after all others that
  -- holds the conversion of each error in the order of the messages; without errors it deposits
  -- none.
  pub handle_messages_reports :
      (w : Weights) (ms : List Message) (s t : State) (es : List IsmpError)
      → Runs (cleared w s) ms es t
      → (info : PostDispatchInfo) × (handle_messages r f w ms s ≡ some (info, reported es t))
  handle_messages_reports w ms s t es runs = (
    info_of w (get_weight w r.ismp ms) (reported es t),
    handle_messages_step r f w ms s (map from_error es, t) (handle_loop_reports [] runs)
        ∙ ap (λ (u : State). some (info_of w (get_weight w r.ismp ms) u, u)) (report-reported es t),
  )
