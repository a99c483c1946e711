-- ===== src/Handlers/Log.antt =====
-- What pallet-ismp/src/handlers.rs and dispatcher.rs do to the log of leaves that a state
-- represents.
use ismp_substrate.Base.{
  ◌+◌, ◌*◌, ◌<◌, ◌≡◌, refl, Bool-cases, inl, inr, some, List, [], ◌∷◌, ◌++◌, Result, ok, err,
  wrap64, u64_mod,
}
use mathlib.Core.List.{append-nil}
use ismp_substrate.StorageMap
use ismp_substrate.Ismp.{bytes_key, Request, Response, DispatchRequest, IsmpError}
use ismp_substrate.Primitives.Leaves.{Leaf}
use ismp_substrate.Pallet.{State, Runtime, IsScale}
use ismp_substrate.Mmr.Push.{AppendsLeaf}
use ismp_substrate.Leaves.Log.{Represents, Represents-same, after_push-Represents}
use ismp_substrate.Leaves.Push.{after_push}
use ismp_substrate.Handlers.{
  request_hash, response_hash, dispatch_request as pallet_dispatch_request,
  dispatch_response as pallet_dispatch_response, record_request, record_response,
}
use ismp_substrate.Handlers.Dispatcher.{outgoing, dispatch_request}
use ismp_substrate.Handlers.Outgoing.{
  after_request, after_response, dispatch_request_duplicate, dispatch_request_new,
  dispatch_response_unknown, dispatch_response_duplicate, dispatch_response_new,
}

-- the leaves that a dispatch adds, by its result
abbrev pub sent : Result IsmpError Unit → Leaf → List Leaf
sent (ok _) leaf = leaf ∷ []
sent (err _) leaf = []

module _ (r : Runtime) (lib : AppendsLeaf r.mmr_lib) (scale : IsScale r.codec) where
  unchanged : {s : State} {log : List Leaf} → Represents r s log → Represents r s (log ++ [])
  unchanged {log = log} h = rw (append-nil log) h

  -- the state after a new request or response
  pub after_request-Represents :
      (req : Request) (s : State) (log : List Leaf) (h : Represents r s log)
      (small : 2 * (s.number_of_leaves + 1) < u64_mod)
      → Represents r (after_request r lib s h.peaks small req) (log ++ Leaf.request req ∷ [])
  unfolding record_request
  after_request-Represents req s log h small =
      Represents-same r (after_push r lib (Leaf.request req) s) _ _ refl refl refl
        (after_push-Represents r lib scale (Leaf.request req) s log h small)

  pub after_response-Represents :
      (res : Response) (s : State) (log : List Leaf) (h : Represents r s log)
      (small : 2 * (s.number_of_leaves + 1) < u64_mod)
      → Represents r (after_response r lib s h.peaks small res) (log ++ Leaf.response res ∷ [])
  unfolding record_response
  after_response-Represents res s log h small =
      Represents-same r (after_push r lib (Leaf.response res) s) _ _ refl refl refl
        (after_push-Represents r lib scale (Leaf.response res) s log h small)

  -- the pallet's own functions
  pub request-Represents :
      (req : Request) (s : State) (log : List Leaf)
      → Represents r s log
      → 2 * (s.number_of_leaves + 1) < u64_mod
      → (result : Result IsmpError Unit) × (s' : State) × (pallet_dispatch_request r req s
          ≡ some (result, s'))
        × Represents r s' (log ++ sent result (Leaf.request req))
  unfolding record_request
  request-Represents req s log h small =
      elim (Bool-cases (StorageMap.contains_key s.request_commitments (request_hash r req))) [
        | inl known ↦ (_, s, dispatch_request_duplicate r req s known, unchanged h)
        | inr new ↦ (
          ok tt,
          _,
          dispatch_request_new r lib s h.peaks small req new,
          after_request-Represents req s log h small,
        )
      ]

  -- Over libraries that behave as documented, on a state that represents a log, with twice one more
  -- leaf below 2^64: dispatching a response returns, and the state that it leaves represents the
  -- log with the response at its end where the result is a success, and the log itself where it is
  -- an error.
  pub response-Represents :
      (res : Response) (s : State) (log : List Leaf)
      → Represents r s log
      → 2 * (s.number_of_leaves + 1) < u64_mod
      → (result : Result IsmpError Unit) × (s' : State) × (pallet_dispatch_response r res s
          ≡ some (result, s'))
        × Represents r s' (log ++ sent result (Leaf.response res))
  unfolding record_response
  response-Represents res s log h small =
      elim (Bool-cases
        (StorageMap.contains_key s.request_commitments (request_hash r (r.ismp.request res)))) [
          | inr unknown ↦ (_, s, dispatch_response_unknown r res s unknown, unchanged h)
          | inl known ↦
              elim (Bool-cases
                (StorageMap.contains_key s.response_commitments (response_hash r res))) [
                  | inl twice ↦ (_, s, dispatch_response_duplicate r res s known twice, unchanged h)
                  | inr new ↦ (
                    ok tt,
                    _,
                    dispatch_response_new r lib s h.peaks small res known new,
                    after_response-Represents res s log h small,
                  )
                ]
        ]

  -- Over libraries that behave as documented, on a state that represents a log, with twice one more
  -- leaf below 2^64: a dispatched request returns, and the state that it leaves represents the log
  -- with the request at its end where the result is a success, and the log itself where it is an
  -- error.
  pub dispatch_request-Represents :
      (d : DispatchRequest) (s : State) (log : List Leaf)
      → Represents r s log
      → 2 * (s.number_of_leaves + 1) < u64_mod
      → (result : Result IsmpError Unit) × (s' : State) × (dispatch_request r d s
          ≡ some (result, s'))
        × Represents r s' (log ++ sent result (Leaf.request (outgoing r d s).0))
  unfolding dispatch_request outgoing
  dispatch_request-Represents (DispatchRequest.post p) s log h small =
      request-Represents _ (record s { nonce = wrap64 (s.nonce + 1) }) log
        (Represents-same r s _ log refl refl refl h) small
  dispatch_request-Represents (DispatchRequest.get g) s log h small =
      request-Represents _ (record s { nonce = wrap64 (s.nonce + 1) }) log
        (Represents-same r s _ log refl refl refl h) small
