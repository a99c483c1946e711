-- ===== src/Rpc.antt =====
-- pallet-ismp/rpc/src/lib.rs: the queries for requests, responses and events, over the client's
-- runtime API at a block.
pub mod Api
pub mod Queries
pub mod Serves
pub mod Listed
pub mod Pending
pub mod Requests
pub mod Server
pub mod Events
use ismp_substrate.Base.{ℕ, Option, none, some, List, [], ◌∷◌, ◌++◌, map, Result, ok, err}
use ismp_substrate.StorageMap
use ismp_substrate.StorageMap.{StorageMap}
use ismp_substrate.Ismp.{
  Bytes, H256, text, bytes_key, StateMachineId, ConsensusStateId, StateUpdates, Post, Get,
  PostResponse, Request, Response,
}
use ismp_substrate.Primitives.{LeafIndexQuery, Proof}
use ismp_substrate.Primitives.Leaves.{Leaf}
use ismp_substrate.Pallet.{Event}
use ismp_substrate.Leaves.{filter_map}
use Api.{Answer, IsmpRuntimeApi, RpcError, failed, or_message}

-- A type that could be a block number or a block hash
pub data BlockNumberOrHash : Type 0 where
  hash : H256 → BlockNumberOrHash
  number : ℕ → BlockNumberOrHash

-- `ismp::events::Event`, the variants that the source names
pub data RpcEvent : Type 0 where
  state_machine_updated : StateMachineId → ℕ → RpcEvent
  challenge_period_started : ConsensusStateId → StateUpdates → RpcEvent
  post_request : Post → RpcEvent
  get_request : Get → RpcEvent
  post_response : PostResponse → RpcEvent

-- The client: blocks by number, the best block, the runtime API, the nodes of a trie proof for some
-- keys, the texts of a hash and of a number, and SCALE's bytes of what a proof carries.
pub record Client : Type 0 where
  pub block_hash : ℕ → Answer (Option H256)
  pub best_hash : H256
  pub api : IsmpRuntimeApi
  pub read_proof : H256 → List Bytes → Answer (List Bytes)
  pub debug_hash : H256 → Bytes
  pub show_number : ℕ → Bytes
  pub encode_proof : Proof → Bytes
  pub encode_leaves : List Leaf → Bytes
  pub encode_nodes : List Bytes → Bytes

-- `.ok().flatten()`
abbrev pub ok_flatten : {A : Type 0} → Answer (Option A) → Option A
ok_flatten (ok answer) = answer
ok_flatten (err e) = none

-- the three variables of the loop over a block's events
pub record Collected : Type 0 where
  pub temp : List RpcEvent
  pub request_indices : List ℕ
  pub response_indices : List ℕ

unfoldable pub add_requests : Result Bytes (List ℕ) → Collected → Collected
add_requests (ok indices) c = record c { request_indices = c.request_indices ++ indices }
add_requests (err e) c = c

unfoldable pub add_responses : Result Bytes (List ℕ) → Collected → Collected
add_responses (ok indices) c = record c { response_indices = c.response_indices ++ indices }
add_responses (err e) c = c

unfoldable pub request_event : Request → RpcEvent
request_event (Request.post post) = RpcEvent.post_request post
request_event (Request.get get) = RpcEvent.get_request get

unfoldable pub response_event : Response → Option RpcEvent
response_event (Response.post post) = some (RpcEvent.post_response post)
response_event (Response.get get) = none

module _ (client : Client) where
  -- `Display for BlockNumberOrHash`
  unfoldable pub display : BlockNumberOrHash → Bytes
  display (BlockNumberOrHash.hash block_hash) = client.debug_hash block_hash
  display (BlockNumberOrHash.number block_num) = client.show_number block_num

  -- `query_requests`
  unfoldable pub query_requests : List LeafIndexQuery → Result RpcError (List Request)
  query_requests query = elim (client.api.get_request_leaf_indices client.best_hash query) [
    | err e ↦ failed (text "Error fetching request leaf indices, " ++ e)
    | ok indices ↦
        or_message (text "Error fetching requests")
          (client.api.get_requests client.best_hash indices)
  ]

  -- `query_responses`
  unfoldable pub query_responses : List LeafIndexQuery → Result RpcError (List Response)
  query_responses query = elim (client.api.get_response_leaf_indices client.best_hash query) [
    | err e ↦ failed (text "Error fetching response leaf indices")
    | ok indices ↦
        or_message (text "Error fetching responses")
          (client.api.get_responses client.best_hash indices)
  ]

  -- the closure of the first `filter_map`: an event that is kept, or indices to look up
  unfoldable pub collect_event : H256 → Event → Collected → Collected
  unfolding add_requests add_responses
  collect_event at (Event.request dest source nonce) c =
      add_requests
        (client.api.get_request_leaf_indices at
          (record { source_chain = source; dest_chain = dest; nonce = nonce } ∷ []))
        c
  collect_event at (Event.response dest source nonce) c =
      add_responses
        (client.api.get_response_leaf_indices at
          (record { source_chain = source; dest_chain = dest; nonce = nonce } ∷ []))
        c
  collect_event at (Event.challenge_period_started id state_machines) c = record c {
    temp = c.temp ++ RpcEvent.challenge_period_started id state_machines ∷ [];
  }
  collect_event at (Event.state_machine_updated id latest_height) c = record c {
    temp = c.temp ++ RpcEvent.state_machine_updated id latest_height ∷ [];
  }

  unfoldable pub collect_events : H256 → List Event → Collected → Collected
  unfolding collect_event
  collect_events at [] c = c
  collect_events at (e ∷ es) c = collect_events at es (collect_event at e c)

  -- the full requests and responses, after the other events
  unfoldable pub full_events : H256 → Collected → Result RpcError (List RpcEvent)
  unfolding request_event response_event filter_map
  full_events at c = elim (client.api.get_requests at c.request_indices) [
    | err e ↦ failed (text "Error fetching requests")
    | ok requests ↦ elim (client.api.get_responses at c.response_indices) [
      | err e ↦ failed (text "Error fetching response")
      | ok responses ↦
          ok (c.temp ++ map request_event requests ++ filter_map response_event responses)
    ]
  ]

  -- the events of one block
  unfoldable pub query_block : H256 → Result RpcError (List RpcEvent)
  unfolding collect_events full_events
  query_block at = elim (client.api.block_events at) [
    | err e ↦ failed (text "failed to read block events " ++ e)
    | ok events ↦ full_events at (
        collect_events at events
          (record { temp = []; request_indices = []; response_indices = [] }))
  ]

  unfoldable pub find_block : BlockNumberOrHash → Result RpcError H256
  find_block (BlockNumberOrHash.hash block_hash) = ok block_hash
  find_block (BlockNumberOrHash.number n) = elim (ok_flatten (client.block_hash n)) [
    | none ↦ failed (text "Invalid block number provided")
    | some at ↦ ok at
  ]

  abbrev pub Listing : Type 0
  Listing = StorageMap Bytes (List RpcEvent)

  -- `for block_number_or_hash in block_numbers`; the first error ends it.
  unfoldable pub query_loop : List BlockNumberOrHash → Listing → Result RpcError Listing
  unfolding query_block find_block
  query_loop [] events = ok events
  query_loop (block ∷ blocks) events = elim (find_block block) [
    | err e ↦ err e
    | ok at ↦ elim (query_block at) [
      | err e ↦ err e
      | ok temp ↦ query_loop blocks (StorageMap.insert events (display block) temp)
    ]
  ]

  -- `query_events`
  unfoldable pub query_events : List BlockNumberOrHash → Result RpcError Listing
  unfolding query_loop
  query_events blocks = query_loop blocks []
