-- ===== src/Tests/Batches.antt =====
-- The theorems on batches of messages, over the concrete runtime.
use ismp_substrate.Base.{
  ℕ, ◌+◌, ◌-◌, ◌≤◌, ◌≡◌, refl, ap₂, none, some, [], ◌∷◌, Result, ok, err, arith,
}
use ismp_substrate.Ismp.{
  text, bytes_key, StateMachine, StateMachineId, StateMachineHeight, Message, MessageResult,
  TimeoutMessage, IsmpError, state_machine_id_key,
}
use ismp_substrate.Primitives.{Weight}
use ismp_substrate.Pallet.{State}
use ismp_substrate.Weights.{get_weight, consensus_handler}
use ismp_substrate.Weights.Providers.{Weights}
use ismp_substrate.Weights.Batches.{Adds, sum_weights, get_weight-sum_weights, get_weight-consensus}
use ismp_substrate.Messages.{Handler, PostDispatchInfo, handle_messages, cleared}
use ismp_substrate.Messages.Heights.{height_of, InKind, Answers, handle_messages_returns}
use ismp_substrate.Messages.Reports.{Runs, reported, handle_messages_reports}
use ismp_substrate.Tests.Scale.{library}
use ismp_substrate.Tests.Chain.{runtime, genesis, ping_request, ping}

abbrev pub weight : ℕ → ℕ → Weight
weight t p = record { ref_time = t; proof_size = p }

abbrev pub weights : Weights
weights = record {
  zero = weight 0 0;
  plus = λ a b. weight (a.ref_time + b.ref_time) (a.proof_size + b.proof_size);
  minus = λ a b. weight (a.ref_time - b.ref_time) (a.proof_size - b.proof_size);
  consensus_client = λ id. some (record {
    verify_consensus = λ msg. weight 50 5;
    verify_fraud_proof = λ msg. weight 60 6;
    verify_membership = λ id items proof. weight items 1;
    verify_state_proof = λ id items proof. weight items 2;
  });
  module_callback = λ id. none;
  on_finalize = λ leaves. weight leaves 0;
  create_consensus_client = weight 1 0;
  set_unbonding_period = weight 1 0;
  handle_request_message = weight 10 0;
  handle_response_message = weight 11 0;
  handle_timeout_message = weight 12 0;
  dispatch_post_request = weight 3 0;
  dispatch_get_request = weight 3 0;
  dispatch_response = weight 3 0;
}

weights-Adds : Adds weights
weights-Adds = record {
  zero_left = λ a. ap₂ weight (omega arith) (omega arith);
  zero_right = λ a. ap₂ weight (omega arith) (omega arith);
  groups = λ a b c. ap₂ weight (omega arith) (omega arith);
}

abbrev pub machine : StateMachineHeight
machine = record {
  id = record { state_id = StateMachine.polkadot 1000; consensus_state_id = text "PARA" };
  height = 7;
}

abbrev pub incoming : Message
incoming =
    Message.request
      (record { requests = ping ∷ []; proof = record { height = machine; proof = text "proof" } })

abbrev pub consensus_update : Message
consensus_update = Message.consensus (record { consensus_state_id = text "PARA"; body = [] })

abbrev pub time_out : Message
time_out = Message.timeout (TimeoutMessage.get (ping_request ∷ []))

two_weights :
    get_weight weights library (incoming ∷ time_out ∷ [])
    ≡ sum_weights weights library (incoming ∷ time_out ∷ [])
two_weights =
    get_weight-sum_weights weights library weights-Adds (incoming ∷ time_out ∷ []) (tt, (tt, tt))

dropped_weight :
    get_weight weights library (incoming ∷ consensus_update ∷ time_out ∷ [])
    ≡ weights.plus (weight 50 5) (sum_weights weights library (time_out ∷ []))
unfolding consensus_handler
dropped_weight =
    get_weight-consensus weights library weights-Adds (incoming ∷ []) (time_out ∷ [])
      (record { consensus_state_id = text "PARA"; body = [] }) (tt, tt)

-- a handler that takes requests, and refuses all else
abbrev pub answer : Message → Result IsmpError MessageResult
answer (Message.request m) = ok MessageResult.request
answer _ = err IsmpError.cannot_handle_message

abbrev pub handler : Handler
handler m s = (answer m, s)

-- any handler that answers so
pub answer-InKind : (after : Message → State → State) → InKind (λ m s. (answer m, after m s))
answer-InKind after = record { kind = answers }
  where
    answers :
        (m : Message) (s : State)
        → (answer m ≡ ok MessageResult.response → (x : _) × (m ≡ Message.response x))
          × (answer m ≡ ok MessageResult.request → (x : _) × (m ≡ Message.request x))
    answers (Message.request x) s = (λ e. cc, λ e. (x, refl))
    answers (Message.response x) s = (λ e. cc, λ e. cc)
    answers (Message.consensus x) s = (λ e. cc, λ e. cc)
    answers (Message.timeout x) s = (λ e. cc, λ e. cc)
    answers (Message.fraud_proof x) s = (λ e. cc, λ e. cc)

handler-Answers : Answers handler
handler-Answers = record { in_kind = answer-InKind (λ m s. s); heights = λ m s. refl }

mixed_batch_returns :
    (info : PostDispatchInfo) × (s' : State) × (handle_messages runtime handler weights
        (time_out ∷ incoming ∷ consensus_update ∷ [])
        genesis
      ≡ some (info, s'))
    × ((id : StateMachineId) → height_of genesis id ≤ height_of s' id)
mixed_batch_returns =
    handle_messages_returns runtime handler handler-Answers weights
      (time_out ∷ incoming ∷ consensus_update ∷ []) genesis

two_failures :
    Runs runtime handler
      (cleared weights genesis)
      (time_out ∷ consensus_update ∷ [])
      (IsmpError.cannot_handle_message ∷ IsmpError.cannot_handle_message ∷ [])
      (cleared weights genesis)
two_failures = Runs.failed refl (Runs.failed refl Runs.finished)

two_failures_reported :
    (info : PostDispatchInfo) × (handle_messages runtime handler weights
        (time_out ∷ consensus_update ∷ [])
        genesis
      ≡ some (
        info,
        reported runtime handler
            (IsmpError.cannot_handle_message ∷ IsmpError.cannot_handle_message ∷ [])
            (cleared weights genesis),
      ))
two_failures_reported =
    handle_messages_reports runtime handler weights (time_out ∷ consensus_update ∷ []) genesis
      (cleared weights genesis)
      (IsmpError.cannot_handle_message ∷ IsmpError.cannot_handle_message ∷ []) two_failures
