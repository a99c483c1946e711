-- ===== src/Tests/Benchmarks.antt =====
-- The benchmarks run to their end over concrete libraries, and the theorems on them at the genesis.
use ismp_substrate.Base.{
  ℕ, ◌≡◌, refl, true, is_some, some, List, [], ◌∷◌, ◌++◌, ok, err, arith, ℕ_discrete,
}
use ismp_substrate.StorageMap
use ismp_substrate.Ismp.{
  bytes_key, Bytes-discrete, Message, MessageResult, IsmpError, Request, Response, Post,
  ResponseMessage, TimeoutMessage,
}
use ismp_substrate.Primitives.Digest.{DigestItem, ismp_id}
use ismp_substrate.Primitives.ModuleId.{to_bytes}
use ismp_substrate.Pallet.{State, PalletEvent-discrete}
use ismp_substrate.Mmr.Root.{log_root}
use ismp_substrate.Host.{store_request_receipt, store_response_receipt, delete_request_commitment}
use ismp_substrate.Messages.{
  Handler, handle_messages, handle_loop, handle_message, on_result, advance, request_height,
  response_height,
}
use ismp_substrate.Hooks
use ismp_substrate.Calls.{Outside, handle, created}
use ismp_substrate.Calls
use ismp_substrate.Leaves.Log.{Represents}
use ismp_substrate.Benchmarks.Mocks.{Bench}
use ismp_substrate.Benchmarks.Incoming.{
  create_consensus_client, assert_last_event, handle_request_message, handle_response_message,
  handle_timeout_message,
}
use ismp_substrate.Benchmarks.Outgoing.{on_finalize}
use ismp_substrate.Benchmarks.Blocks.{fillers, on_finalize-fillers}
use ismp_substrate.Tests.Scale.{codec-IsScale}
use ismp_substrate.Tests.Ranges.{mmr_lib-AppendsLeaf, mmr_lib-BagsPeaks}
use ismp_substrate.Tests.Chain.{runtime, genesis}
use ismp_substrate.Tests.Batches.{weights}
use ismp_substrate.Tests.Services.{outside}
use ismp_substrate.Tests.Logs.{genesis-Represents}

-- a handler that accepts every message and notes it with the host
abbrev note : (Request → State → State) → List Request → State → State
note write [] s = s
note write (req ∷ reqs) s = note write reqs (write req s)

abbrev requests_of : List Post → List Request
requests_of [] = []
requests_of (post ∷ posts) = Request.post post ∷ requests_of posts

abbrev answered : List Response → List Request
answered [] = []
answered (res ∷ responses) = runtime.ismp.request res ∷ answered responses

abbrev accepting : Handler
accepting (Message.request m) s =
    (ok MessageResult.request, note (store_request_receipt runtime) (requests_of m.requests) s)
accepting (Message.response (ResponseMessage.post responses proof)) s =
    (ok MessageResult.response, note (store_response_receipt runtime) (answered responses) s)
accepting (Message.response (ResponseMessage.get requests proof)) s =
    (ok MessageResult.response, note (store_response_receipt runtime) requests s)
accepting (Message.timeout (TimeoutMessage.post requests proof)) s =
    (ok MessageResult.timeout, note (delete_request_commitment runtime) requests s)
accepting (Message.timeout (TimeoutMessage.get requests)) s =
    (ok MessageResult.timeout, note (delete_request_commitment runtime) requests s)
accepting (Message.consensus m) s = (err IsmpError.cannot_handle_message, s)
accepting (Message.fraud_proof m) s = (ok MessageResult.other, s)

abbrev bench : Bench ℕ
bench = record {
  root = 2;
  caller = 1;
  at = λ millis. record outside { handle_incoming_message = accepting };
}

creation_passes : is_some (create_consensus_client bench 0 genesis) ≡ true
unfolding create_consensus_client Calls.create_consensus_client created assert_last_event
    PalletEvent-discrete Bytes-discrete ℕ_discrete
creation_passes = refl

request_passes : is_some (handle_request_message bench runtime weights genesis) ≡ true
unfolding handle_request_message handle handle_messages handle_loop handle_message on_result advance
    request_height StorageMap.contains_key StorageMap.get StorageMap.insert Bytes-discrete
    ℕ_discrete store_request_receipt to_bytes
request_passes = refl

response_passes : is_some (handle_response_message bench runtime weights genesis) ≡ true
unfolding handle_response_message handle handle_messages handle_loop handle_message on_result
    advance response_height StorageMap.contains_key StorageMap.get StorageMap.insert Bytes-discrete
    ℕ_discrete store_response_receipt to_bytes
response_passes = refl

timeout_passes : is_some (handle_timeout_message bench runtime weights genesis) ≡ true
unfolding handle_timeout_message handle handle_messages handle_loop handle_message on_result
    StorageMap.contains_key StorageMap.get StorageMap.insert StorageMap.remove Bytes-discrete
    ℕ_discrete delete_request_commitment to_bytes
timeout_passes = refl

two_fillers :
    (t : State) × (on_finalize runtime 2 genesis ≡ some t)
    × Represents runtime t ([] ++ fillers runtime 2 0)
    × (Hooks.mmr_root t ≡ log_root runtime ([] ++ fillers runtime 2 0))
    × (t.logs
        ≡ []
          ++ DigestItem.consensus ismp_id
              (runtime.codec.encode_hash (log_root runtime ([] ++ fillers runtime 2 0)))
            ∷ [])
two_fillers =
    on_finalize-fillers runtime mmr_lib-AppendsLeaf codec-IsScale mmr_lib-BagsPeaks 2 genesis []
      genesis-Represents (omega arith) (omega arith)
