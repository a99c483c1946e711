-- ===== src/Handlers/Index.antt =====
-- What pallet-ismp/src/handlers.rs and dispatcher.rs do to the index of the requests of a log.
use ismp_substrate.Base.{
  ℕ, ◌+◌, ◌*◌, ◌<◌, ◌≡◌, refl, Bool-cases, inl, inr, some, Result, ok, List, ◌++◌, wrap64, u64_mod,
  arith,
}
use mathlib.Core.List.{append-nil}
use ismp_substrate.StorageMap
use ismp_substrate.Ismp.{bytes_key, Request, Response, DispatchRequest, IsmpError}
use ismp_substrate.Ismp.Library.{ReadsRequests}
use ismp_substrate.Primitives.Leaves.{Leaf}
use ismp_substrate.Pallet.{State, Runtime, IsScale}
use ismp_substrate.Mmr.Push.{AppendsLeaf}
use ismp_substrate.Leaves.{store_leaf_index_offchain}
use ismp_substrate.Leaves.Log.{Represents, Represents-same}
use ismp_substrate.Leaves.Index.{
  RequestAt, Indexed, Indexed-same, Indexed-request, Indexed-response,
}
use ismp_substrate.Handlers.{
  request_hash, response_hash, dispatch_request as pallet_dispatch_request,
  dispatch_response as pallet_dispatch_response, record_request, record_response,
}
use ismp_substrate.Handlers.Dispatcher.{outgoing, dispatch_request}
use ismp_substrate.Handlers.Nonces.{outgoing-nonce}
use ismp_substrate.Handlers.Outgoing.{
  after_request, after_response, dispatch_request_duplicate, dispatch_request_new,
  dispatch_response_unknown, dispatch_response_duplicate, dispatch_response_new,
}
use ismp_substrate.Handlers.Log.{sent, after_request-Represents, after_response-Represents}

module _ (r : Runtime) where
  -- the state represents the log, and every request of it is found
  pub record Tracks (s : State) (log : List Leaf) : Type 0 where
    pub kept : Represents r s log
    pub index : Indexed r s log

module _ (r : Runtime) (lib : AppendsLeaf r.mmr_lib) (scale : IsScale r.codec)
    (reads : ReadsRequests r.ismp) where
  -- the pallet's part of a dispatch, in the state after the nonce is taken
  request-Tracks :
      (req : Request) (u : State) (log : List Leaf)
      → Tracks r u log
      → 2 * (u.number_of_leaves + 1) < u64_mod
      → ((i : ℕ) (old : Request) → RequestAt r log i old → r.ismp.nonce old < r.ismp.nonce req)
      → r.ismp.nonce req < u.nonce
      → (result : Result IsmpError Unit) × (t : State) × (pallet_dispatch_request r req u
          ≡ some (result, t))
        × Tracks r t (log ++ sent result (Leaf.request req))
        × (t.nonce ≡ u.nonce)
  unfolding record_request store_leaf_index_offchain
  request-Tracks req u log h small above next =
      elim (Bool-cases (StorageMap.contains_key u.request_commitments (request_hash r req))) [
        | inl known ↦ (_, u, dispatch_request_duplicate r req u known, rw (append-nil log) h, refl)
        | inr new ↦ (
          ok tt,
          after_request r lib u h.kept.peaks small req,
          dispatch_request_new r lib u h.kept.peaks small req new,
          record {
            kept = after_request-Represents r lib scale req u log h.kept small;
            index =
                Indexed-request r lib scale u log h.kept.peaks h.kept.counted req
                  (after_request r lib u h.kept.peaks small req) small above next refl h.index;
          },
          refl,
        )
      ]

  pub response-Tracks :
      (res : Response) (u : State) (log : List Leaf)
      → Tracks r u log
      → 2 * (u.number_of_leaves + 1) < u64_mod
      → (result : Result IsmpError Unit) × (t : State) × (pallet_dispatch_response r res u
          ≡ some (result, t))
        × Tracks r t (log ++ sent result (Leaf.response res))
        × (t.nonce ≡ u.nonce)
  unfolding record_response store_leaf_index_offchain
  response-Tracks res u log h small =
      elim (Bool-cases
        (StorageMap.contains_key u.request_commitments (request_hash r (r.ismp.request res)))) [
          | inr unknown ↦
              (_, u, dispatch_response_unknown r res u unknown, rw (append-nil log) h, refl)
          | inl known ↦
              elim (Bool-cases
                (StorageMap.contains_key u.response_commitments (response_hash r res))) [
                  | inl twice ↦ (
                    _,
                    u,
                    dispatch_response_duplicate r res u known twice,
                    rw (append-nil log) h,
                    refl,
                  )
                  | inr new ↦ (
                    ok tt,
                    after_response r lib u h.kept.peaks small res,
                    dispatch_response_new r lib u h.kept.peaks small res known new,
                    record {
                      kept = after_response-Represents r lib scale res u log h.kept small;
                      index =
                          Indexed-response r lib scale u log h.kept.peaks h.kept.counted res
                            (after_response r lib u h.kept.peaks small res) refl refl h.index;
                    },
                    refl,
                  )
                ]
        ]

  -- the state after the nonce is taken
  abbrev numbered : State → State
  numbered s = record s { nonce = wrap64 (s.nonce + 1) }

  numbered-Tracks :
      (s : State) (log : List Leaf)
      → Tracks r s log
      → s.nonce + 1 < u64_mod
      → Tracks r (numbered s) log
  numbered-Tracks s log h room = record {
    kept = Represents-same r s (numbered s) log refl refl refl h.kept;
    index = Indexed-same r s (numbered s) log (omega arith) refl h.index;
  }

  -- A module's dispatch takes the next nonce.
  pub dispatch_request-Tracks :
      (d : DispatchRequest) (s : State) (log : List Leaf)
      → Tracks r s log
      → 2 * (s.number_of_leaves + 1) < u64_mod
      → s.nonce + 1 < u64_mod
      → (result : Result IsmpError Unit) × (t : State) × (dispatch_request r d s ≡ some (result, t))
        × Tracks r t (log ++ sent result (Leaf.request (outgoing r d s).0))
        × (t.nonce ≡ wrap64 (s.nonce + 1))
  unfolding dispatch_request outgoing
  dispatch_request-Tracks (DispatchRequest.post p) s log h small room =
      let taken = outgoing-nonce r lib reads (DispatchRequest.post p) s in
      request-Tracks _ (numbered s) log (numbered-Tracks s log h room) small
        (λ i old e. omega (arith, h.index.below i old e, taken)) (omega (arith, taken))
  dispatch_request-Tracks (DispatchRequest.get g) s log h small room =
      let taken = outgoing-nonce r lib reads (DispatchRequest.get g) s in
      request-Tracks _ (numbered s) log (numbered-Tracks s log h room) small
        (λ i old e. omega (arith, h.index.below i old e, taken)) (omega (arith, taken))
