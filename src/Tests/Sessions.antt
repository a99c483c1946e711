-- ===== src/Tests/Sessions.antt =====
-- The theorems on everything that a chain does, at a run with a batch whose module dispatches.
use ismp_substrate.Base.{
  ℕ, ◌+◌, ◌^◌, ◌≤◌, ◌≡◌, refl, Option, none, some, Result, List, [], ◌∷◌, length, member, arith,
}
use ismp_substrate.StorageMap
use ismp_substrate.StorageMap.{nat_key}
use ismp_substrate.Ismp.{Message, IsmpError}
use ismp_substrate.Primitives.Leaves.{Leaf}
use ismp_substrate.Pallet.{State}
use ismp_substrate.Host.{store_request_receipt}
use ismp_substrate.Handlers.Dispatcher.{dispatch_request, outgoing}
use ismp_substrate.Messages.{Handler, PostDispatchInfo, handle_messages}
use ismp_substrate.Hooks.{on_finalize}
use ismp_substrate.Calls.{Outside}
use ismp_substrate.Leaves.{get_request}
use ismp_substrate.Leaves.Log.{Represents, Represents-same}
use ismp_substrate.Handlers.Log.{after_request-Represents}
use ismp_substrate.Leaves.Serving.{leaf_position}
use ismp_substrate.Chain.{Step}
use ismp_substrate.Chain.Log.{RepresentsMore}
use ismp_substrate.Chain.Incoming.{Effect, HostWrite}
use ismp_substrate.Chain.Batches.{Acts, total, handle_messages-Represents}
use ismp_substrate.Chain.Sessions.{Session, handle_signed, Behaves, Session-Represents}
use ismp_substrate.Chain.Served.{dispatch_request-served}
use ismp_substrate.Chain.Bounds.{Session-nodes_bound}
use ismp_substrate.Tests.Scale.{codec-IsScale}
use ismp_substrate.Tests.Ranges.{mmr_lib-AppendsLeaf}
use ismp_substrate.Tests.Chain.{runtime, genesis, ping_request}
use ismp_substrate.Tests.Batches.{weights, incoming, answer, answer-InKind}
use ismp_substrate.Tests.Services.{outside}
use ismp_substrate.Tests.Steps.{numbered, first_ping, sent_ping, ping_runs}
use ismp_substrate.Tests.Logs.{genesis-Represents}

-- a module that dispatches on each message, after a receipt is stored
abbrev pub received : State → State
received s = store_request_receipt runtime ping_request s

abbrev pub after_module : State → Option (Result IsmpError Unit × State) → State
after_module s none = received s
after_module s (some (result, t)) = t

abbrev pub handler : Handler
handler m s = (answer m, after_module s (dispatch_request runtime first_ping (received s)))

abbrev pub limit : Message → ℕ
limit m = 1

after_module-Effect :
    (s : State) (run : Option (Result IsmpError Unit × State))
    → dispatch_request runtime first_ping (received s) ≡ run
    → (n : ℕ) × Effect runtime s n (after_module s run) × (n ≤ 1)
after_module-Effect s none e =
    (0, Effect.write Effect.nothing (HostWrite.request_receipt ping_request), omega arith)
after_module-Effect s (some (result, t)) e = (
  1,
  Effect.sends first_ping (Effect.write Effect.nothing (HostWrite.request_receipt ping_request)) e,
  omega arith,
)

handler-Acts : Acts runtime limit handler
handler-Acts = record {
  effect = λ m s. after_module-Effect s (dispatch_request runtime first_ping (received s)) refl;
}

-- the calls over that handler
abbrev pub calls : Outside ℕ
calls = record outside { handle_incoming_message = handler }

pub calls-Behaves : Behaves runtime calls limit
calls-Behaves = record {
  in_kind =
      answer-InKind (λ m s. after_module s (dispatch_request runtime first_ping (received s)));
  acts = handler-Acts;
  creates = λ m s. Effect.nothing;
}

numbered-Represents : Represents runtime numbered []
numbered-Represents = Represents-same runtime genesis numbered [] refl refl refl genesis-Represents

pub sent_ping-Represents : Represents runtime sent_ping (Leaf.request ping_request ∷ [])
sent_ping-Represents =
    after_request-Represents runtime mmr_lib-AppendsLeaf codec-IsScale ping_request numbered []
      numbered-Represents (omega arith)

-- a batch after the request
batch_handled :
    (info : PostDispatchInfo) × (t : State) × (handle_messages runtime handler weights
        (incoming ∷ [])
        sent_ping
      ≡ some (info, t))
    × RepresentsMore runtime t (Leaf.request ping_request ∷ []) (total limit (incoming ∷ []))
batch_handled =
    handle_messages-Represents runtime calls mmr_lib-AppendsLeaf codec-IsScale limit handler
      handler-Acts
      (answer-InKind (λ m s. after_module s (dispatch_request runtime first_ping (received s))))
      weights (incoming ∷ []) sent_ping (Leaf.request ping_request ∷ []) sent_ping-Represents
      (omega arith)

abbrev batch_end : State
batch_end = batch_handled.1

-- the batch, and the end of the block
after_ping : Session runtime calls limit sent_ping 2 (on_finalize runtime batch_end)
after_ping =
    Session.step
      (Session.batch 1 weights (incoming ∷ []) Session.start (
        handle_signed runtime calls limit 1 weights (incoming ∷ []) sent_ping batch_end
          batch_handled.0 refl batch_handled.2))
      Step.block_end

-- the request before them
ping_run : Session runtime calls limit genesis 3 (on_finalize runtime batch_end)
ping_run =
    Session.step
      (Session.batch 1 weights (incoming ∷ [])
        (Session.step Session.start (Step.request first_ping ping_runs))
        (handle_signed runtime calls limit 1 weights (incoming ∷ []) sent_ping batch_end
          batch_handled.0 refl batch_handled.2))
      Step.block_end

ping_run-Represents : RepresentsMore runtime (on_finalize runtime batch_end) [] 3
ping_run-Represents =
    Session-Represents runtime calls limit mmr_lib-AppendsLeaf codec-IsScale calls-Behaves ping_run
      [] genesis-Represents (omega arith)

ping_run-nodes_bound :
    (ps : List ℕ) × ((p : ℕ)
      → StorageMap.contains_key (on_finalize runtime batch_end).nodes p ≡ member p ps)
    × (2 ^ length ps ≤ 0 + 3 + 1)
ping_run-nodes_bound =
    Session-nodes_bound runtime calls mmr_lib-AppendsLeaf codec-IsScale limit calls-Behaves []
      ping_run genesis-Represents (omega arith)

ping_served :
    get_request runtime (leaf_position 0) (on_finalize runtime batch_end)
    ≡ some (outgoing runtime first_ping genesis).0
ping_served =
    dispatch_request-served runtime calls mmr_lib-AppendsLeaf codec-IsScale limit calls-Behaves
      first_ping genesis sent_ping (on_finalize runtime batch_end) [] 2 genesis-Represents ping_runs
      after_ping (omega arith)
