-- ===== src/Tests/Listing.antt =====
-- The theorems on the queries for events, over a client that answers from one state.
use ismp_substrate.Base.{List, ◌≡◌, refl, some, [], ◌∷◌, ok, arith}
use ismp_substrate.StorageMap
use ismp_substrate.Ismp.{Get, Request, text, bytes_key, state_machine_id_key}
use ismp_substrate.Primitives.Digest.{zero_hash}
use ismp_substrate.Pallet.{
  State, to_core_protocol_event, get_consensus_state, get_consensus_update_time,
  get_challenge_period, get_latest_state_machine_height,
}
use ismp_substrate.Hooks.{mmr_leaf_count, mmr_root}
use ismp_substrate.Leaves.{
  pending_get, generate_proof, pending_get_requests, filter_map, get_leaf_index,
  get_request_leaf_indices, get_response_leaf_indices, get_requests, get_responses,
}
use ismp_substrate.Handlers.{dispatch_request, dispatch_response, request_hash, query_of}
use ismp_substrate.Handlers.Outgoing.{after_request, after_response}
use ismp_substrate.Rpc.{Client, query_block, request_event}
use ismp_substrate.Rpc.Serves.{Serves, ServesBlock}
use ismp_substrate.Rpc.Listed.{request_listed, response_not_listed}
use ismp_substrate.Leaves.Pending.{pending_get_requests-dispatch_request}
use ismp_substrate.Host.{store_response_receipt}
use ismp_substrate.Tests.Scale.{codec-IsScale, library-ReadsRequests}
use ismp_substrate.Tests.Ranges.{mmr_lib-AppendsLeaf}
use ismp_substrate.Tests.Chain.{
  runtime, genesis, genesis-HoldsPeaks, asked, asked-HoldsPeaks, ping_request, lookup, pong,
}
use ismp_substrate.Tests.Dispatch.{inserted}

-- a client that answers for every block from one state
abbrev pub serving : State → Client
serving s = record {
  block_hash = λ n. ok (some zero_hash);
  best_hash = zero_hash;
  api = record {
    mmr_leaf_count = λ at. ok (ok (mmr_leaf_count s));
    mmr_root = λ at. ok (ok (mmr_root s));
    generate_proof = λ at i. ok (generate_proof runtime i s);
    block_events = λ at. ok (filter_map to_core_protocol_event s.events);
    consensus_state = λ at id. ok (get_consensus_state id s);
    consensus_update_time = λ at id. ok (get_consensus_update_time id s);
    challenge_period = λ at id. ok (get_challenge_period id s);
    latest_state_machine_height = λ at id. ok (get_latest_state_machine_height id s);
    latest_messaging_height = λ at id. ok (StorageMap.get s.latest_messaging_height id);
    get_request_leaf_indices = λ at q. ok (get_request_leaf_indices runtime q s);
    get_response_leaf_indices = λ at q. ok (get_response_leaf_indices runtime q s);
    get_requests = λ at i. ok (get_requests runtime i s);
    pending_get_requests = λ at. ok (pending_get_requests runtime s);
    get_responses = λ at i. ok (get_responses runtime i s);
  };
  read_proof = λ at keys. ok keys;
  debug_hash = λ hash. hash;
  show_number = λ n. n ∷ [];
  encode_proof = λ proof. text "proof";
  encode_leaves = λ leaves. text "leaves";
  encode_nodes = λ nodes. text "nodes";
}

pub serving-Serves : (s : State) → Serves runtime (serving s) zero_hash s
serving-Serves s = record {
  request_indices = λ q. refl;
  response_indices = λ q. refl;
  requests = λ i. refl;
  responses = λ i. refl;
  proofs = λ i. refl;
  pending = refl;
  leaf_count = refl;
  root = refl;
  consensus_states = λ id. refl;
  update_times = λ id. refl;
  challenge_periods = λ id. refl;
  latest_heights = λ id. refl;
}

serving-ServesBlock : (s : State) → ServesBlock runtime (serving s) zero_hash s
serving-ServesBlock s = record { answers = serving-Serves s; events = refl }

abbrev pinged : State
pinged =
    after_request runtime mmr_lib-AppendsLeaf genesis genesis-HoldsPeaks (omega arith) ping_request

abbrev ponged : State
ponged = after_response runtime mmr_lib-AppendsLeaf asked asked-HoldsPeaks (omega arith) pong

ping_listed :
    (dispatch_request runtime ping_request genesis ≡ some (ok tt, pinged))
    × (query_block (serving pinged) zero_hash ≡ ok (request_event ping_request ∷ []))
unfolding StorageMap.contains_key StorageMap.get
ping_listed =
    request_listed runtime mmr_lib-AppendsLeaf codec-IsScale (serving pinged) zero_hash genesis
      genesis-HoldsPeaks (omega arith) ping_request refl refl (serving-ServesBlock pinged)

pong_not_listed :
    (dispatch_response runtime pong asked ≡ some (ok tt, ponged))
    × (query_block (serving ponged) zero_hash ≡ ok [])
unfolding StorageMap.contains_key StorageMap.get get_leaf_index
pong_not_listed =
    response_not_listed runtime mmr_lib-AppendsLeaf codec-IsScale (serving ponged) zero_hash asked
      asked-HoldsPeaks (omega arith) pong
      (inserted (request_hash runtime ping_request) (query_of runtime ping_request)) refl
      (λ e. grind (arith, e)) refl refl (serving-ServesBlock ponged)

lookup_pending :
    (t : State) × (others : List Get) × (dispatch_request runtime (Request.get lookup) genesis
      ≡ some (ok tt, t))
    × (others
        ≡ filter_map (pending_get runtime t) (
            StorageMap.remove genesis.request_commitments
              (request_hash runtime (Request.get lookup))))
    × (pending_get_requests runtime t ≡ lookup ∷ others)
    × (pending_get_requests runtime (store_response_receipt runtime (Request.get lookup) t)
        ≡ others)
unfolding StorageMap.contains_key StorageMap.get
lookup_pending =
    pending_get_requests-dispatch_request runtime mmr_lib-AppendsLeaf codec-IsScale
      library-ReadsRequests genesis genesis-HoldsPeaks (omega arith) lookup refl refl
