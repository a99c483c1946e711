-- ===== src/Tests/Responses.antt =====
-- The theorem on the responses of the log, after a request and its response are dispatched.
use ismp_substrate.Base.{
  ℕ, ◌+◌, ◌*◌, ◌<◌, ◌≡◌, refl, true, false, some, List, [], ◌∷◌, ok, err, u64_mod, arith,
  ℕ_discrete,
}
use ismp_substrate.StorageMap
use ismp_substrate.Ismp.{bytes_key, Bytes-discrete, text, IsmpError, PostResponse}
use ismp_substrate.Primitives.Leaves.{Leaf}
use ismp_substrate.Pallet.{State}
use ismp_substrate.Leaves.{store_leaf_index_offchain}
use ismp_substrate.Leaves.Log.{Represents}
use ismp_substrate.Handlers.{
  request_hash, response_hash, record_request, dispatch_response as send_response,
}
use ismp_substrate.Handlers.Dispatcher.{dispatch_response}
use ismp_substrate.Handlers.Outgoing.{after_response, dispatch_response_new}
use ismp_substrate.Handlers.Log.{after_response-Represents}
use ismp_substrate.Chain.{Step}
use ismp_substrate.Chain.Sessions.{Session}
use ismp_substrate.Chain.Answered.{Session-answers_once}
use ismp_substrate.Tests.Scale.{codec-IsScale}
use ismp_substrate.Tests.Ranges.{mmr_lib-AppendsLeaf}
use ismp_substrate.Tests.Chain.{runtime, genesis, ping, ping_request, pong}
use ismp_substrate.Tests.Steps.{sent_ping, first_ping, ping_runs}
use ismp_substrate.Tests.Logs.{genesis-Represents}
use ismp_substrate.Tests.Sessions.{calls, limit, calls-Behaves, sent_ping-Represents}

asked_for :
    StorageMap.contains_key sent_ping.request_commitments
      (request_hash runtime (runtime.ismp.request pong))
    ≡ true
unfolding StorageMap.contains_key StorageMap.get StorageMap.insert record_request
    store_leaf_index_offchain Bytes-discrete ℕ_discrete
asked_for = refl

pong_new :
    StorageMap.contains_key sent_ping.response_commitments (response_hash runtime pong) ≡ false
unfolding StorageMap.contains_key StorageMap.get StorageMap.insert record_request
    store_leaf_index_offchain Bytes-discrete ℕ_discrete
pong_new = refl

pong_small : 2 * (sent_ping.number_of_leaves + 1) < u64_mod
pong_small = omega (arith, sent_ping-Represents.counted)

abbrev sent_pong : State
sent_pong =
    after_response runtime mmr_lib-AppendsLeaf sent_ping sent_ping-Represents.peaks pong_small pong

abbrev answer_of_ping : PostResponse
answer_of_ping = record { post = ping; response = text "pong" }

pong_runs : dispatch_response runtime answer_of_ping sent_ping ≡ some (ok tt, sent_pong)
unfolding dispatch_response
pong_runs =
    dispatch_response_new runtime mmr_lib-AppendsLeaf sent_ping sent_ping-Represents.peaks
      pong_small pong asked_for pong_new

abbrev answered_log : List Leaf
answered_log = Leaf.request ping_request ∷ Leaf.response pong ∷ []

answered_log-Represents : Represents runtime sent_pong answered_log
answered_log-Represents =
    after_response-Represents runtime mmr_lib-AppendsLeaf codec-IsScale pong sent_ping
      (Leaf.request ping_request ∷ []) sent_ping-Represents pong_small

answered_run : Session runtime calls limit genesis 2 sent_pong
answered_run =
    Session.step (Session.step Session.start (Step.request first_ping ping_runs))
      (Step.response answer_of_ping pong_runs)

abbrev pong_place : ℕ
pong_place = 1

pong_once :
    (pong_place ≡ pong_place)
    × (pong ≡ pong)
    × ((e : IsmpError) × (send_response runtime pong sent_pong ≡ some (err e, sent_pong)))
pong_once =
    Session-answers_once runtime calls mmr_lib-AppendsLeaf codec-IsScale limit calls-Behaves
      answered_log pong_place pong_place pong pong answered_run genesis-Represents
      answered_log-Represents refl refl refl (omega arith)
