-- ===== src/Handlers/Answered.antt =====
-- What pallet-ismp/src/handlers.rs and dispatcher.rs do to the responses of a log: each has a
-- commitment, and none is in the log twice.
use ismp_substrate.Base.{
  ℕ, ◌+◌, ◌*◌, ◌<◌, ◌≡◌, ◌≢◌, refl, sym, ap, ◌∙◌, Bool-cases, ◌⊎◌, true, false, inl, inr, some,
  Result, ok, List, [], ◌∷◌, ◌++◌, length, get_elem?, get_elem?-append_cases, wrap64, u64_mod,
}
use mathlib.Core.List.{append-nil}
use ismp_substrate.StorageMap
use ismp_substrate.StorageMap.{contains_key-inserted, contains_key-insert}
use ismp_substrate.Ismp.{bytes_key, Request, Response, DispatchRequest, IsmpError}
use ismp_substrate.Primitives.Leaves.{Leaf}
use ismp_substrate.Pallet.{State, Runtime, IsScale, Receipt}
use ismp_substrate.Mmr.Push.{AppendsLeaf}
use ismp_substrate.Leaves.{store_leaf_index_offchain}
use ismp_substrate.Leaves.Log.{Represents, Represents-same}
use ismp_substrate.Handlers.{
  request_hash, response_hash, dispatch_request as pallet_dispatch_request,
  dispatch_response as pallet_dispatch_response, record_request, record_response,
}
use ismp_substrate.Handlers.Dispatcher.{outgoing, dispatch_request}
use ismp_substrate.Handlers.Outgoing.{
  after_request, after_response, dispatch_request_duplicate, dispatch_request_new,
  dispatch_response_unknown, dispatch_response_duplicate, dispatch_response_new,
}
use ismp_substrate.Handlers.Log.{sent, after_request-Represents, after_response-Represents}

response_inj : (a b : Response) → Leaf.response a ≡ Leaf.response b → a ≡ b
response_inj a b e = cc

module _ (r : Runtime) where
  -- the response stands at a place of the log
  abbrev pub ResponseAt : List Leaf → ℕ → Response → Type 0
  ResponseAt log i res = get_elem? log i ≡ some (Leaf.response res)

  -- Each response of the log has its commitment, and two places hold two responses.
  pub record Answered (s : State) (log : List Leaf) : Type 0 where
    pub committed :
        (i : ℕ) (res : Response)
        → ResponseAt log i res
        → StorageMap.contains_key s.response_commitments (response_hash r res) ≡ true
    pub once :
        (i j : ℕ) (a b : Response)
        → ResponseAt log i a
        → ResponseAt log j b
        → response_hash r a ≡ response_hash r b
        → i ≡ j

  pub Answered-empty : (s : State) → Answered s []
  Answered-empty s = record { committed = λ i res e. cc; once = λ i j a b e e' same. cc }

  pub Answered-same :
      (s t : State) (log : List Leaf)
      → t.response_commitments ≡ s.response_commitments
      → Answered s log
      → Answered t log
  Answered-same s t log same h = record {
    committed = λ i res e. rw same (h.committed i res e);
    once = h.once;
  }

  -- a request at the end of the log
  Answered-request :
      (s t : State) (log : List Leaf) (req : Request)
      → t.response_commitments ≡ s.response_commitments
      → Answered s log
      → Answered t (log ++ Leaf.request req ∷ [])
  Answered-request s t log req same h =
      let older : (i : ℕ) (res : Response)
          → ResponseAt (log ++ Leaf.request req ∷ []) i res
          → ResponseAt log i res =
        λ i res e. elim (get_elem?-append_cases log (Leaf.request req) i (Leaf.response res) e) [
          | inl (last, other) ↦ cc
          | inr before ↦ before
        ] in
      record {
        committed = λ i res e. rw same (h.committed i res (older i res e));
        once = λ i j a b e e' eq. h.once i j a b (older i a e) (older j b e') eq;
      }

  -- a response without a commitment at the end of the log
  Answered-response :
      (s t : State) (log : List Leaf) (new : Response)
      → StorageMap.contains_key s.response_commitments (response_hash r new) ≡ false
      → t.response_commitments
        ≡ StorageMap.insert s.response_commitments (response_hash r new) Receipt.ok
      → Answered s log
      → Answered t (log ++ Leaf.response new ∷ [])
  Answered-response s t log new fresh written h =
      let kind : (i : ℕ) (res : Response)
          → ResponseAt (log ++ Leaf.response new ∷ []) i res
          → ((i ≡ length log) × (res ≡ new)) ⊎ ResponseAt log i res =
        λ i res e. elim (get_elem?-append_cases log (Leaf.response new) i (Leaf.response res) e) [
          | inl (last, same) ↦ inl (last, response_inj res new same)
          | inr before ↦ inr before
        ] in
      let apart : (i : ℕ) (res : Response)
          → ResponseAt log i res
          → response_hash r res ≢ response_hash r new =
        λ i res e same. let known = h.committed i res e in cc in
      record {
        committed = λ i res e. elim (kind i res e) [
          | inl (last, same) ↦
              rw (written, same)
                (contains_key-inserted s.response_commitments (response_hash r new) Receipt.ok)
          | inr before ↦ rw written (
              contains_key-insert s.response_commitments (response_hash r new) (response_hash r res)
                Receipt.ok (h.committed i res before))
        ];
        once = λ i j a b e e' eq. elim (kind i a e) [
          | inl (last, same) ↦ elim (kind j b e') [
            | inl (last', same') ↦ last ∙ sym last'
            | inr before' ↦ absurd (apart j b before' (sym eq ∙ ap (response_hash r) same))
          ]
          | inr before ↦ elim (kind j b e') [
            | inl (last', same') ↦ absurd (apart i a before (eq ∙ ap (response_hash r) same'))
            | inr before' ↦ h.once i j a b before before' eq
          ]
        ];
      }

  -- the state represents the log, and its responses are answered once
  pub record Keeps (s : State) (log : List Leaf) : Type 0 where
    pub kept : Represents r s log
    pub answered : Answered s log

module _ (r : Runtime) (lib : AppendsLeaf r.mmr_lib) (scale : IsScale r.codec) where
  request-Keeps :
      (req : Request) (u : State) (log : List Leaf)
      → Keeps r u log
      → 2 * (u.number_of_leaves + 1) < u64_mod
      → (result : Result IsmpError Unit) × (t : State) × (pallet_dispatch_request r req u
          ≡ some (result, t))
        × Keeps r t (log ++ sent result (Leaf.request req))
  unfolding record_request store_leaf_index_offchain
  request-Keeps req u log h small =
      elim (Bool-cases (StorageMap.contains_key u.request_commitments (request_hash r req))) [
        | inl known ↦ (_, u, dispatch_request_duplicate r req u known, rw (append-nil log) h)
        | inr new ↦ (
          ok tt,
          after_request r lib u h.kept.peaks small req,
          dispatch_request_new r lib u h.kept.peaks small req new,
          record {
            kept = after_request-Represents r lib scale req u log h.kept small;
            answered =
                Answered-request r u (after_request r lib u h.kept.peaks small req) log req refl
                  h.answered;
          },
        )
      ]

  pub response-Keeps :
      (res : Response) (u : State) (log : List Leaf)
      → Keeps r u log
      → 2 * (u.number_of_leaves + 1) < u64_mod
      → (result : Result IsmpError Unit) × (t : State) × (pallet_dispatch_response r res u
          ≡ some (result, t))
        × Keeps r t (log ++ sent result (Leaf.response res))
  unfolding record_response store_leaf_index_offchain
  response-Keeps res u log h small =
      elim (Bool-cases
        (StorageMap.contains_key u.request_commitments (request_hash r (r.ismp.request res)))) [
          | inr unknown ↦ (_, u, dispatch_response_unknown r res u unknown, rw (append-nil log) h)
          | inl known ↦
              elim (Bool-cases
                (StorageMap.contains_key u.response_commitments (response_hash r res))) [
                  | inl twice ↦
                      (_, u, dispatch_response_duplicate r res u known twice, rw (append-nil log) h)
                  | inr new ↦ (
                    ok tt,
                    after_response r lib u h.kept.peaks small res,
                    dispatch_response_new r lib u h.kept.peaks small res known new,
                    record {
                      kept = after_response-Represents r lib scale res u log h.kept small;
                      answered =
                          Answered-response r u (after_response r lib u h.kept.peaks small res) log
                            res new refl h.answered;
                    },
                  )
                ]
        ]

  -- the state after the nonce is taken
  numbered-Keeps :
      (s : State) (log : List Leaf)
      → Keeps r s log
      → Keeps r (record s { nonce = wrap64 (s.nonce + 1) }) log
  numbered-Keeps s log h = record {
    kept = Represents-same r s _ log refl refl refl h.kept;
    answered = Answered-same r s _ log refl h.answered;
  }

  pub dispatch_request-Keeps :
      (d : DispatchRequest) (s : State) (log : List Leaf)
      → Keeps r s log
      → 2 * (s.number_of_leaves + 1) < u64_mod
      → (result : Result IsmpError Unit) × (t : State) × (dispatch_request r d s ≡ some (result, t))
        × Keeps r t (log ++ sent result (Leaf.request (outgoing r d s).0))
  unfolding dispatch_request outgoing
  dispatch_request-Keeps (DispatchRequest.post p) s log h small =
      request-Keeps _ (record s { nonce = wrap64 (s.nonce + 1) }) log (numbered-Keeps s log h) small
  dispatch_request-Keeps (DispatchRequest.get g) s log h small =
      request-Keeps _ (record s { nonce = wrap64 (s.nonce + 1) }) log (numbered-Keeps s log h) small
