-- ===== src/Handlers/Quiet.antt =====
-- The dispatches of pallet-ismp/src/handlers.rs and dispatcher.rs announce no update of a state
-- machine.
use ismp_substrate.Base.{
  ◌+◌, ◌*◌, ◌<◌, ◌≡◌, refl, sym, ◌∙◌, Bool-cases, inl, inr, some, Option, Result, ok, [], ◌∷◌,
  wrap64, u64_mod, arith,
}
use ismp_substrate.StorageMap
use ismp_substrate.Ismp.{
  bytes_key, Request, Response, DispatchRequest, PostResponse, IsmpError, StateMachineHeight,
}
use ismp_substrate.Pallet.{State, Runtime, PalletEvent}
use ismp_substrate.Mmr.Push.{AppendsLeaf}
use ismp_substrate.Mmr.Storage.Invariant.{HoldsPeaks}
use ismp_substrate.Leaves.{store_leaf_index_offchain}
use ismp_substrate.Handlers.{
  request_hash, response_hash, dispatch_request as pallet_dispatch_request,
  dispatch_response as pallet_dispatch_response, record_request, record_response,
}
use ismp_substrate.Handlers.Dispatcher.{outgoing, dispatch_request, dispatch_response}
use ismp_substrate.Handlers.Outgoing.{
  after_request, after_response, dispatch_request_duplicate, dispatch_request_new,
  dispatch_response_unknown, dispatch_response_duplicate, dispatch_response_new,
}
use ismp_substrate.Messages.Announced.{announced-append}
use ismp_substrate.Messages.Entered.{SameUpdates}

module _ (at : StateMachineHeight) (r : Runtime) (lib : AppendsLeaf r.mmr_lib) where
  -- a dispatch that returns, whatever its results are called
  same_dispatch :
      (a b : Result IsmpError Unit) (s t u : State)
      → ◌≡◌ {A = Option (Result IsmpError Unit × State)} (some (a, t)) (some (b, u))
      → SameUpdates at t s
      → SameUpdates at u s
  same_dispatch a b s t u e h = let same : u ≡ t = cc in rw same h

  request-SameUpdates :
      (req : Request) (s t : State) (result : Result IsmpError Unit)
      → HoldsPeaks s
      → 2 * (s.number_of_leaves + 1) < u64_mod
      → pallet_dispatch_request r req s ≡ some (result, t)
      → SameUpdates at t s
  unfolding record_request store_leaf_index_offchain
  request-SameUpdates req s t result h small run =
      elim (Bool-cases (StorageMap.contains_key s.request_commitments (request_hash r req))) [
        | inl known ↦
            same_dispatch _ result s s t (sym (dispatch_request_duplicate r req s known) ∙ run)
              (refl, refl)
        | inr new ↦
            let event =
              PalletEvent.request (r.ismp.dest_chain req) (r.ismp.source_chain req)
                (r.ismp.nonce req) in
            same_dispatch (ok tt) result s (after_request r lib s h small req) t
              (sym (dispatch_request_new r lib s h small req new) ∙ run)
              (omega (arith, announced-append at s.events (event ∷ [])), refl)
      ]

  response-SameUpdates :
      (res : Response) (s t : State) (result : Result IsmpError Unit)
      → HoldsPeaks s
      → 2 * (s.number_of_leaves + 1) < u64_mod
      → pallet_dispatch_response r res s ≡ some (result, t)
      → SameUpdates at t s
  unfolding record_response store_leaf_index_offchain
  response-SameUpdates res s t result h small run =
      elim (Bool-cases
        (StorageMap.contains_key s.request_commitments (request_hash r (r.ismp.request res)))) [
          | inr unknown ↦
              same_dispatch _ result s s t (sym (dispatch_response_unknown r res s unknown) ∙ run)
                (refl, refl)
          | inl known ↦
              elim (Bool-cases
                (StorageMap.contains_key s.response_commitments (response_hash r res))) [
                  | inl twice ↦
                      same_dispatch _ result s s t
                        (sym (dispatch_response_duplicate r res s known twice) ∙ run) (refl, refl)
                  | inr new ↦
                      let event =
                        PalletEvent.response (r.ismp.response_dest_chain res)
                          (r.ismp.response_source_chain res) (r.ismp.response_nonce res) in
                      same_dispatch (ok tt) result s (after_response r lib s h small res) t
                        (sym (dispatch_response_new r lib s h small res known new) ∙ run)
                        (omega (arith, announced-append at s.events (event ∷ [])), refl)
                ]
        ]

  numbered-HoldsPeaks :
      (s : State) → HoldsPeaks s → HoldsPeaks (record s { nonce = wrap64 (s.nonce + 1) })
  numbered-HoldsPeaks s h = record { bounded = h.bounded; held = h.held }

  pub dispatch_request-SameUpdates :
      (d : DispatchRequest) (s t : State) (result : Result IsmpError Unit)
      → HoldsPeaks s
      → 2 * (s.number_of_leaves + 1) < u64_mod
      → dispatch_request r d s ≡ some (result, t)
      → SameUpdates at t s
  unfolding dispatch_request outgoing
  dispatch_request-SameUpdates (DispatchRequest.post p) s t result h small run =
      request-SameUpdates _ (record s { nonce = wrap64 (s.nonce + 1) }) t result
        (numbered-HoldsPeaks s h) small run
  dispatch_request-SameUpdates (DispatchRequest.get g) s t result h small run =
      request-SameUpdates _ (record s { nonce = wrap64 (s.nonce + 1) }) t result
        (numbered-HoldsPeaks s h) small run

  pub dispatch_response-SameUpdates :
      (res : PostResponse) (s t : State) (result : Result IsmpError Unit)
      → HoldsPeaks s
      → 2 * (s.number_of_leaves + 1) < u64_mod
      → dispatch_response r res s ≡ some (result, t)
      → SameUpdates at t s
  unfolding dispatch_response
  dispatch_response-SameUpdates res s t result h small run =
      response-SameUpdates (Response.post res) s t result h small run
