-- ===== src/Tests/Updates.antt =====
-- The theorem on the updates of state machines, at two consensus messages and the end of a block.
use ismp_substrate.Base.{ℕ, ◌+◌, ◌≡◌, refl, some, Result, ok, err, List, [], ◌∷◌, length, arith}
use ismp_substrate.Ismp.{
  text, bytes_key, StateMachineHeight, ConsensusMessage, ConsensusUpdateResult, Message,
  MessageResult, IsmpError,
}
use ismp_substrate.Pallet.{State}
use ismp_substrate.Host.{store_consensus_state}
use ismp_substrate.Hooks.{on_finalize}
use ismp_substrate.Messages.{Handler, PostDispatchInfo, handle_message, handle_messages}
use ismp_substrate.Messages.Heights.{InKind}
use ismp_substrate.Messages.Announced.{announced, waiting, copies}
use ismp_substrate.Calls.{Outside}
use ismp_substrate.Chain.{Step}
use ismp_substrate.Chain.Log.{RepresentsMore}
use ismp_substrate.Chain.Incoming.{Effect, HostWrite}
use ismp_substrate.Chain.Batches.{Acts, total, handle_messages-Represents}
use ismp_substrate.Chain.Sessions.{Session, handle_signed, Behaves}
use ismp_substrate.Chain.Announced.{brought, Session-known}
use ismp_substrate.Tests.Scale.{codec-IsScale}
use ismp_substrate.Tests.Ranges.{mmr_lib-AppendsLeaf}
use ismp_substrate.Tests.Chain.{runtime, genesis}
use ismp_substrate.Tests.Batches.{weights, machine}
use ismp_substrate.Tests.Services.{outside}
use ismp_substrate.Tests.Logs.{genesis-Represents}

-- a machine at a height
abbrev machine_at : ℕ → StateMachineHeight
machine_at n = record machine { height = n }

-- a consensus client that takes the length of a message for the new height
abbrev advanced : ConsensusMessage → ConsensusUpdateResult
advanced m = record {
  consensus_client_id = text "PARA";
  consensus_state_id = m.consensus_state_id;
  state_updates = (machine, machine_at (length m.body)) ∷ [];
}

abbrev answer : Message → Result IsmpError MessageResult
answer (Message.consensus m) = ok (MessageResult.consensus_message (advanced m))
answer (Message.request m) = err IsmpError.cannot_handle_message
answer (Message.response m) = err IsmpError.cannot_handle_message
answer (Message.timeout m) = err IsmpError.cannot_handle_message
answer (Message.fraud_proof m) = err IsmpError.cannot_handle_message

abbrev handler : Handler
handler m s = (answer m, store_consensus_state (text "PARA") (text "state") s)

answers :
    (m : Message) (s : State)
    → (answer m ≡ ok MessageResult.response → (x : _) × (m ≡ Message.response x))
      × (answer m ≡ ok MessageResult.request → (x : _) × (m ≡ Message.request x))
answers (Message.request x) s = (λ e. cc, λ e. cc)
answers (Message.response x) s = (λ e. cc, λ e. cc)
answers (Message.consensus x) s = (λ e. cc, λ e. cc)
answers (Message.timeout x) s = (λ e. cc, λ e. cc)
answers (Message.fraud_proof x) s = (λ e. cc, λ e. cc)

handler-InKind : InKind handler
handler-InKind = record { kind = answers }

abbrev limit : Message → ℕ
limit m = 0

handler-Acts : Acts runtime limit handler
handler-Acts = record {
  effect = λ m s. (
    0,
    Effect.write Effect.nothing (HostWrite.consensus_state (text "PARA") (text "state")),
    omega arith,
  );
}

abbrev calls : Outside ℕ
calls = record outside { handle_incoming_message = handler }

calls-Behaves : Behaves runtime calls limit
calls-Behaves = record {
  in_kind = handler-InKind;
  acts = handler-Acts;
  creates = λ m s. Effect.nothing;
}

abbrev headers : List Message
headers =
    Message.consensus (record { consensus_state_id = text "PARA"; body = text "header" })
    ∷ Message.consensus (record { consensus_state_id = text "PARA"; body = text "a header" })
    ∷ []

headers_handled :
    (info : PostDispatchInfo) × (t : State) × (handle_messages runtime handler weights headers
        genesis
      ≡ some (info, t))
    × RepresentsMore runtime t [] (total limit headers)
headers_handled =
    handle_messages-Represents runtime calls mmr_lib-AppendsLeaf codec-IsScale limit handler
      handler-Acts handler-InKind weights headers genesis [] genesis-Represents (omega arith)

abbrev headers_end : State
headers_end = headers_handled.1

abbrev headers_run : Session runtime calls limit genesis 1 (on_finalize runtime headers_end)
headers_run =
    Session.step
      (Session.batch 1 weights headers Session.start (
        handle_signed runtime calls limit 1 weights headers genesis headers_end headers_handled.0
          refl headers_handled.2))
      Step.block_end

both_brought :
    brought runtime calls limit headers_run ≡ (machine, machine_at 6) ∷ (machine, machine_at 8) ∷ []
unfolding handle_message
both_brought = refl

update_known :
    announced (machine_at 6) (on_finalize runtime headers_end).events
      + waiting (machine_at 6) (on_finalize runtime headers_end).consensus_update_results
    ≡ 0 + copies (machine_at 6) (brought runtime calls limit headers_run)
update_known =
    Session-known runtime calls limit (machine_at 6) mmr_lib-AppendsLeaf codec-IsScale calls-Behaves
      [] headers_run genesis-Represents (omega arith) tt
