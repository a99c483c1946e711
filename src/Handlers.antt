-- ===== src/Handlers.antt =====
-- pallet-ismp/src/handlers.rs and dispatcher.rs: outgoing requests and responses.
pub mod Dispatcher
pub mod Outgoing
pub mod Nonces
pub mod Log
pub mod Index
pub mod Quiet
pub mod Answered
use ismp_substrate.Base.{
  ℕ, Bool, true, false, not, Option, none, some, Result, ok, err, if◌then◌else◌,
}
use ismp_substrate.StorageMap
use ismp_substrate.Ismp.{Bytes, H256, text, bytes_key, Request, Response, IsmpError}
use ismp_substrate.Primitives.{LeafIndexQuery}
use ismp_substrate.Primitives.Leaves.{Leaf}
use ismp_substrate.Pallet.{State, Runtime, Run, Receipt, PalletEvent, deposit_event}
use ismp_substrate.Leaves.{mmr_push}

abbrev failure : Bytes → State → Run (Result IsmpError Unit × State)
failure message s = some (err (IsmpError.implementation_specific message), s)

module _ (r : Runtime) where
  -- `hash_request::<Host<T>>`
  abbrev pub request_hash : Request → H256
  request_hash req = r.ismp.hash_request r.keccak_256 req

  abbrev pub response_hash : Response → H256
  response_hash res = r.ismp.hash_response r.keccak_256 res

  -- the query that an outgoing request is stored with
  abbrev pub query_of : Request → LeafIndexQuery
  query_of req = record {
    source_chain = r.ismp.source_chain req;
    dest_chain = r.ismp.dest_chain req;
    nonce = r.ismp.nonce req;
  }

  -- the event and the commitment, after the push
  unfoldable pub record_request : Request → State → State
  unfolding deposit_event
  record_request req s =
      let s' =
        deposit_event
          (PalletEvent.request (r.ismp.dest_chain req) (r.ismp.source_chain req) (r.ismp.nonce req))
          s in
      record s' {
        request_commitments =
            StorageMap.insert s'.request_commitments (request_hash req) (query_of req);
      }

  unfoldable pub record_response : Response → State → State
  unfolding deposit_event
  record_response res s =
      let s' =
        deposit_event
          (PalletEvent.response (r.ismp.response_dest_chain res) (r.ismp.response_source_chain res)
            (r.ismp.response_nonce res))
          s in
      record s' {
        response_commitments =
            StorageMap.insert s'.response_commitments (response_hash res) Receipt.ok;
      }

  -- `Pallet::dispatch_request`: dispatch an outgoing request
  unfoldable pub dispatch_request : Request → State → Run (Result IsmpError Unit × State)
  dispatch_request req s =
      if StorageMap.contains_key s.request_commitments (request_hash req)
      then failure (text "Duplicate request") s
      else elim (mmr_push r (Leaf.request req) s) [
        | none ↦ none
        | some (none, s') ↦ failure (text "Failed to push request into mmr") s'
        | some (some pos, s') ↦ some (ok tt, record_request req s')
      ]

  -- `Pallet::dispatch_response`: dispatch an outgoing response
  unfoldable pub dispatch_response : Response → State → Run (Result IsmpError Unit × State)
  dispatch_response res s =
      if not (StorageMap.contains_key s.request_commitments (request_hash (r.ismp.request res)))
      then failure (text "Unknown request for response") s
      else if StorageMap.contains_key s.response_commitments (response_hash res)
      then failure (text "Duplicate response") s
      else elim (mmr_push r (Leaf.response res) s) [
        | none ↦ none
        | some (none, s') ↦ failure (text "Failed to push response into mmr") s'
        | some (some pos, s') ↦ some (ok tt, record_response res s')
      ]
