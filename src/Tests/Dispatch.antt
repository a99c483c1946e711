-- ===== src/Tests/Dispatch.antt =====
-- The theorems on outgoing messages and on the queries, over the concrete runtime.
use ismp_substrate.Base.{
  ite, ◌+◌, ◌≡◌, refl, true, false, some, List, [], ◌∷◌, ◌++◌, ok, err, arith,
}
use ismp_substrate.StorageMap
use ismp_substrate.StorageMap.{get-insert}
use ismp_substrate.Ismp.{H256, text, bytes_key, StateMachine, DispatchRequest, IsmpError}
use ismp_substrate.Primitives.{LeafIndexQuery}
use ismp_substrate.Primitives.Leaves.{Leaf}
use ismp_substrate.Pallet.{State, Receipt, PalletEvent}
use ismp_substrate.Mmr.Mountains.{range}
use ismp_substrate.Mmr.Storage.Invariant.{HoldsPeaks}
use ismp_substrate.Leaves.{mmr_push, get_leaf_index, get_response}
use ismp_substrate.Leaves.Queries.{response_found}
use ismp_substrate.Handlers.{
  dispatch_request, dispatch_response, request_hash, response_hash, query_of,
}
use ismp_substrate.Handlers.Outgoing.{dispatch_request_once, dispatch_response_once}
use ismp_substrate.Handlers.Nonces.{count_from, dispatch_all, dispatch_all_nonces}
use ismp_substrate.Tests.Scale.{codec-IsScale, library-ReadsRequests}
use ismp_substrate.Tests.Ranges.{mmr_lib-AppendsLeaf}
use ismp_substrate.Tests.Chain.{
  runtime, genesis, genesis-HoldsPeaks, asked, asked-HoldsPeaks, ping_request, pong,
}

ping_dispatched :
    (s' : State) × (dispatch_request runtime ping_request genesis ≡ some (ok tt, s'))
    × HoldsPeaks s'
    × (s'.number_of_leaves ≡ 0 + 1)
    × ((k : H256)
        → StorageMap.get s'.request_commitments k
          ≡ ite
              (bytes_key.dec (request_hash runtime ping_request) k)
              (some (query_of runtime ping_request))
              (StorageMap.get genesis.request_commitments k))
    × (s'.events
        ≡ [] ++ PalletEvent.request (StateMachine.polkadot 1000) (StateMachine.kusama 2000) 0 ∷ [])
    × (s'.nonce ≡ 0)
    × (dispatch_request runtime ping_request s'
        ≡ some (err (IsmpError.implementation_specific (text "Duplicate request")), s'))
unfolding StorageMap.contains_key StorageMap.get
ping_dispatched =
    dispatch_request_once runtime mmr_lib-AppendsLeaf genesis genesis-HoldsPeaks (omega arith)
      ping_request refl

pub inserted :
    (k : H256) (q : LeafIndexQuery) → StorageMap.contains_key (StorageMap.insert [] k q) k ≡ true
unfolding StorageMap.contains_key StorageMap.get
inserted k q = ground (arith, get-insert {K = H256} [] k k q)

pong_dispatched :
    (s' : State) × (dispatch_response runtime pong asked ≡ some (ok tt, s'))
    × HoldsPeaks s'
    × (s'.number_of_leaves ≡ 0 + 1)
    × (StorageMap.get s'.response_commitments (response_hash runtime pong) ≡ some Receipt.ok)
    × (s'.events
        ≡ [] ++ PalletEvent.response (StateMachine.kusama 2000) (StateMachine.polkadot 1000) 0 ∷ [])
    × (dispatch_response runtime pong s'
        ≡ some (err (IsmpError.implementation_specific (text "Duplicate response")), s'))
unfolding StorageMap.contains_key StorageMap.get
pong_dispatched =
    dispatch_response_once runtime mmr_lib-AppendsLeaf asked asked-HoldsPeaks (omega arith) pong
      (inserted (request_hash runtime ping_request) (query_of runtime ping_request)) refl

abbrev two_dispatches : List DispatchRequest
two_dispatches =
    DispatchRequest.post (record {
      dest = StateMachine.polkadot 1000;
      from = text "ismp-dmo";
      to = text "ismp-dmo";
      timeout_timestamp = 60;
      body = text "ping";
      gas_limit = 0;
    })
    ∷ DispatchRequest.get (record {
      dest = StateMachine.ethereum 1;
      from = text "ismp-dmo";
      keys = text "key" ∷ [];
      height = 7;
      timeout_timestamp = 60;
      gas_limit = 0;
    })
    ∷ []

two_nonces :
    (s' : State) × (dispatch_all runtime two_dispatches genesis ≡ some (count_from 0 2, s'))
    × HoldsPeaks s'
    × (s'.nonce ≡ 0 + 2)
two_nonces =
    dispatch_all_nonces runtime mmr_lib-AppendsLeaf library-ReadsRequests two_dispatches genesis
      genesis-HoldsPeaks (omega arith) (omega arith)

pong_found :
    (s' : State) × (mmr_push runtime (Leaf.response pong) asked ≡ some (some (range 0).nodes, s'))
    × (get_leaf_index runtime (StateMachine.kusama 2000) (StateMachine.polkadot 1000) 0 false s'
        ≡ some (range 0).nodes)
    × (get_response runtime (range 0).nodes s' ≡ some pong)
pong_found =
    response_found runtime mmr_lib-AppendsLeaf codec-IsScale asked asked-HoldsPeaks (omega arith)
      pong
