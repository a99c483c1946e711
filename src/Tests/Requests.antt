-- ===== src/Tests/Requests.antt =====
-- The theorems on the requests of the log, after two dispatches and the end of a block.
use ismp_substrate.Base.{
  ◌+◌, ◌*◌, ◌<◌, ◌≡◌, refl, true, false, some, Result, ok, List, [], ◌∷◌, ◌++◌, u64_mod, arith,
  ℕ_discrete,
}
use ismp_substrate.StorageMap
use ismp_substrate.StorageMap.{nat_key}
use ismp_substrate.Ismp.{text, bytes_key, Bytes-discrete, DispatchRequest, Request, IsmpError}
use ismp_substrate.Primitives.Digest.{zero_hash}
use ismp_substrate.Primitives.Leaves.{Leaf}
use ismp_substrate.Pallet.{State}
use ismp_substrate.Mmr.Utils.{size_of, count_ones, ones}
use ismp_substrate.Mmr.Mountains.{range}
use ismp_substrate.Mmr.Storage.{offchain_get_elem}
use ismp_substrate.Mmr.Operations.{new, merge_nodes}
use ismp_substrate.Leaves.{get_leaf_index, get_request, store_leaf_index_offchain}
use ismp_substrate.Leaves.Log.{Represents, Represents-same}
use ismp_substrate.Leaves.Serving.{leaf_position}
use ismp_substrate.Handlers.{query_of, request_hash, record_request}
use ismp_substrate.Handlers.Dispatcher.{dispatch_request, outgoing}
use ismp_substrate.Handlers.Outgoing.{after_request, dispatch_request_new}
use ismp_substrate.Handlers.Log.{sent, after_request-Represents, dispatch_request-Represents}
use ismp_substrate.Hooks.{on_finalize}
use ismp_substrate.Chain.{Step}
use ismp_substrate.Chain.Ranges.{SameRange-Represents, on_finalize-SameRange}
use ismp_substrate.Chain.Past.{seen_from}
use ismp_substrate.Chain.Sessions.{Session}
use ismp_substrate.Chain.Indexed.{Session-found, Session-nonces}
use ismp_substrate.Rpc.{query_requests}
use ismp_substrate.Rpc.Queries.{query_requests_mmr_proof}
use ismp_substrate.Rpc.Requests.{query_requests-served, query_requests_mmr_proof-log}
use ismp_substrate.Tests.Scale.{codec-IsScale, library-ReadsRequests}
use ismp_substrate.Tests.Ranges.{mmr_lib-AppendsLeaf}
use ismp_substrate.Tests.Chain.{runtime, genesis, ping_request, lookup}
use ismp_substrate.Tests.Steps.{sent_ping, first_ping, ping_runs}
use ismp_substrate.Tests.Logs.{genesis-Represents}
use ismp_substrate.Tests.Sessions.{calls, limit, calls-Behaves, sent_ping-Represents}
use ismp_substrate.Tests.Listing.{serving, serving-Serves}

abbrev first_lookup : DispatchRequest
first_lookup = DispatchRequest.get (record {
  dest = lookup.dest;
  from = lookup.from;
  keys = lookup.keys;
  height = lookup.height;
  timeout_timestamp = lookup.timeout_timestamp;
  gas_limit = lookup.gas_limit;
})

-- the state after the ping, with the second nonce taken
abbrev pinged_twice : State
pinged_twice = record sent_ping { nonce = 2 }

pinged-Represents : Represents runtime pinged_twice (Leaf.request ping_request ∷ [])
pinged-Represents =
    Represents-same runtime sent_ping pinged_twice (Leaf.request ping_request ∷ []) refl refl refl
      sent_ping-Represents

lookup_new :
    StorageMap.contains_key pinged_twice.request_commitments
      (request_hash runtime (Request.get lookup))
    ≡ false
unfolding StorageMap.contains_key StorageMap.get StorageMap.insert record_request
    store_leaf_index_offchain Bytes-discrete ℕ_discrete
lookup_new = refl

lookup_small : 2 * (pinged_twice.number_of_leaves + 1) < u64_mod
lookup_small = omega (arith, pinged-Represents.counted)

abbrev sent_lookup : State
sent_lookup =
    after_request runtime mmr_lib-AppendsLeaf pinged_twice pinged-Represents.peaks lookup_small
      (Request.get lookup)

next_nonce_lem : sent_ping.nonce ≡ 1
unfolding record_request store_leaf_index_offchain
next_nonce_lem = refl

lookup_runs : dispatch_request runtime first_lookup sent_ping ≡ some (ok tt, sent_lookup)
unfolding dispatch_request outgoing record_request store_leaf_index_offchain
lookup_runs =
    dispatch_request_new runtime mmr_lib-AppendsLeaf pinged_twice pinged-Represents.peaks
      lookup_small (Request.get lookup) lookup_new

abbrev two_requests : List Leaf
two_requests = Leaf.request ping_request ∷ Leaf.request (Request.get lookup) ∷ []

abbrev block_over : State
block_over = on_finalize runtime sent_lookup

two_requests-Represents : Represents runtime block_over two_requests
two_requests-Represents = SameRange-Represents runtime (on_finalize-SameRange runtime sent_lookup) (
    after_request-Represents runtime mmr_lib-AppendsLeaf codec-IsScale (Request.get lookup)
      pinged_twice (Leaf.request ping_request ∷ []) pinged-Represents lookup_small)

two_requests_sent : Session runtime calls limit genesis 3 block_over
two_requests_sent =
    Session.step
      (Session.step (Session.step Session.start (Step.request first_ping ping_runs))
        (Step.request first_lookup lookup_runs))
      Step.block_end

lookup_found :
    (get_leaf_index runtime
        (runtime.ismp.source_chain (Request.get lookup))
        (runtime.ismp.dest_chain (Request.get lookup))
        (runtime.ismp.nonce (Request.get lookup))
        true
        block_over
      ≡ some (leaf_position 1))
    × (get_request runtime (leaf_position 1) block_over ≡ some (Request.get lookup))
lookup_found =
    Session-found runtime calls mmr_lib-AppendsLeaf codec-IsScale library-ReadsRequests limit
      calls-Behaves two_requests 1 (Request.get lookup) two_requests_sent genesis-Represents
      two_requests-Represents refl (omega arith) (omega arith)

nonces_rise : runtime.ismp.nonce ping_request < runtime.ismp.nonce (Request.get lookup)
nonces_rise =
    Session-nonces runtime calls mmr_lib-AppendsLeaf codec-IsScale library-ReadsRequests limit
      calls-Behaves two_requests 0 1 ping_request (Request.get lookup) two_requests_sent
      genesis-Represents two_requests-Represents refl refl (omega arith) (omega arith) (omega arith)

-- both requests, the later one first
both_listed :
    query_requests
      (serving block_over)
      (query_of runtime (Request.get lookup) ∷ query_of runtime ping_request ∷ [])
    ≡ ok (Request.get lookup ∷ ping_request ∷ [])
both_listed =
    query_requests-served runtime calls mmr_lib-AppendsLeaf codec-IsScale library-ReadsRequests
      limit calls-Behaves (serving block_over) two_requests (1 ∷ 0 ∷ [])
      (Request.get lookup ∷ ping_request ∷ []) two_requests_sent genesis-Represents
      two_requests-Represents (refl, (refl, tt)) (serving-Serves block_over) (omega arith)
      (omega arith)

-- the block after the ping
abbrev past_block : State
past_block = on_finalize runtime sent_ping

abbrev one_request : List Leaf
one_request = Leaf.request ping_request ∷ []

past_block-Represents : Represents runtime past_block one_request
past_block-Represents =
    SameRange-Represents runtime (on_finalize-SameRange runtime sent_ping) sent_ping-Represents

past_block_sent : Session runtime calls limit genesis 2 past_block
past_block_sent =
    Session.step (Session.step Session.start (Step.request first_ping ping_runs)) Step.block_end

-- the lookup is dispatched in the block after that
later_lookup :
    (result : Result IsmpError Unit) × (s' : State) × (dispatch_request runtime first_lookup
        past_block
      ≡ some (result, s'))
    × Represents runtime s'
        (one_request ++ sent result (Leaf.request (outgoing runtime first_lookup past_block).0))
later_lookup =
    dispatch_request-Represents runtime mmr_lib-AppendsLeaf codec-IsScale first_lookup past_block
      one_request past_block-Represents (omega (arith, past_block-Represents.counted))

abbrev now_block : State
now_block = on_finalize runtime later_lookup.1

now_block_sent : Session runtime calls limit past_block 2 now_block
now_block_sent =
    Session.step (Session.step Session.start (Step.request first_lookup later_lookup.2))
      Step.block_end

-- the one leaf is proved by no further node
one_proof :
    runtime.mmr_lib.gen_proof
      (offchain_get_elem runtime now_block)
      (merge_nodes runtime)
      (new past_block.number_of_leaves).size
      (leaf_position 0 ∷ [])
    ≡ some []
unfolding new size_of count_ones ones range
one_proof = rw past_block-Represents.counted refl

ping_proved :
    query_requests_mmr_proof
      (serving (seen_from now_block past_block))
      7
      (query_of runtime ping_request ∷ [])
    ≡ ok (record { proof = text "proof"; leaves = some (text "leaves"); height = 7 })
ping_proved =
    query_requests_mmr_proof-log runtime calls mmr_lib-AppendsLeaf codec-IsScale
      library-ReadsRequests limit calls-Behaves (serving (seen_from now_block past_block))
      one_request (0 ∷ []) (ping_request ∷ []) zero_hash 7 [] past_block_sent now_block_sent
      genesis-Represents past_block-Represents (refl, tt) refl
      (serving-Serves (seen_from now_block past_block)) one_proof (omega arith) (omega arith)
