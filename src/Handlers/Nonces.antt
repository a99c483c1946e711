-- ===== src/Handlers/Nonces.antt =====
-- The nonces of what modules dispatch through pallet-ismp/src/dispatcher.rs.
use ismp_substrate.Base.{
  ℕ, zero, suc, ◌+◌, ◌*◌, ◌<◌, ◌≤◌, ◌≡◌, refl, Bool-cases, inl, inr, none, some, List, [], ◌∷◌,
  Result, ok, err, length, wrap64, u64_mod, arith,
}
use ismp_substrate.StorageMap
use ismp_substrate.Ismp.{text, bytes_key, Request, DispatchRequest, IsmpError}
use ismp_substrate.Ismp.Library.{ReadsRequests}
use ismp_substrate.Pallet.{State, Runtime, Run}
use ismp_substrate.Mmr.Storage.Invariant.{HoldsPeaks}
use ismp_substrate.Mmr.Push.{AppendsLeaf}
use ismp_substrate.Handlers.{request_hash, dispatch_request as pallet_dispatch_request}
use ismp_substrate.Handlers.Dispatcher.{outgoing, dispatch_request}
use ismp_substrate.Handlers.Outgoing.{dispatch_request_duplicate, dispatch_request_once}

-- `n, n + 1, …`, k numbers in all
abbrev pub count_from : ℕ → ℕ → List ℕ
count_from n zero = []
count_from n (suc k) = n ∷ count_from (n + 1) k

module _ (r : Runtime) where
  -- Modules dispatch some requests in turn, whatever becomes of each; the nonces of the requests.
  pub dispatch_all : List DispatchRequest → State → Run (List ℕ × State)
  dispatch_all [] s = some ([], s)
  dispatch_all (d ∷ ds) s = elim (dispatch_request r d s) [
    | none ↦ none
    | some (result, s') ↦ elim (dispatch_all ds s') [
      | none ↦ none
      | some (nonces, s'') ↦ some (r.ismp.nonce (outgoing r d s).0 ∷ nonces, s'')
    ]
  ]

module _ (r : Runtime) (lib : AppendsLeaf r.mmr_lib) (reads : ReadsRequests r.ismp) where
  pub outgoing-nonce : (d : DispatchRequest) (s : State) → r.ismp.nonce (outgoing r d s).0 ≡ s.nonce
  unfolding outgoing
  outgoing-nonce (DispatchRequest.post p) s = reads.nonce_post _
  outgoing-nonce (DispatchRequest.get g) s = reads.nonce_get _

  pub outgoing-state :
      (d : DispatchRequest) (s : State)
      → (outgoing r d s).1 ≡ record s { nonce = wrap64 (s.nonce + 1) }
  unfolding outgoing
  outgoing-state (DispatchRequest.post p) s = refl
  outgoing-state (DispatchRequest.get g) s = refl

  -- the pallet's part, in the state after the nonce is taken
  pallet_part :
      (req : Request) (t : State)
      → HoldsPeaks t
      → 2 * (t.number_of_leaves + 1) < u64_mod
      → (result : Result IsmpError Unit) × (s' : State) × (pallet_dispatch_request r req t
          ≡ some (result, s'))
        × HoldsPeaks s'
        × (s'.number_of_leaves ≤ t.number_of_leaves + 1)
        × (s'.nonce ≡ t.nonce)
  pallet_part req t h small =
      elim (Bool-cases (StorageMap.contains_key t.request_commitments (request_hash r req))) [
        | inl known ↦ (
          err (IsmpError.implementation_specific (text "Duplicate request")),
          t,
          dispatch_request_duplicate r req t known,
          h,
          omega arith,
          refl,
        )
        | inr new ↦
            let (s', run, kept, leaves, _, _, nonce, _) =
              dispatch_request_once r lib t h small req new in
            (ok tt, s', run, kept, omega arith, nonce)
      ]

  -- One dispatch returns, keeps the nodes on chain the peaks, adds one leaf at most, and takes one
  -- nonce, whether it succeeds or not.
  pub dispatch_request_nonce :
      (d : DispatchRequest) (s : State)
      → HoldsPeaks s
      → 2 * (s.number_of_leaves + 1) < u64_mod
      → (result : Result IsmpError Unit) × (s' : State) × (dispatch_request r d s
          ≡ some (result, s'))
        × HoldsPeaks s'
        × (s'.number_of_leaves ≤ s.number_of_leaves + 1)
        × (s'.nonce ≡ wrap64 (s.nonce + 1))
  unfolding dispatch_request
  dispatch_request_nonce (DispatchRequest.post p) s h small =
      pallet_part _ (record s { nonce = wrap64 (s.nonce + 1) })
        (record { bounded = h.bounded; held = h.held }) small
  dispatch_request_nonce (DispatchRequest.get g) s h small =
      pallet_part _ (record s { nonce = wrap64 (s.nonce + 1) })
        (record { bounded = h.bounded; held = h.held }) small

  -- From a chain that holds exactly its peaks, over libraries that behave as documented, any number
  -- of dispatches in turn return, and their requests have consecutive nonces from the chain's own,
  -- so no two are equal, as long as the nonce and the leaves stay in 64 bits; the nodes on chain
  -- are the peaks in the end.
  pub dispatch_all_nonces :
      (ds : List DispatchRequest) (s : State)
      → HoldsPeaks s
      → 2 * (s.number_of_leaves + length ds) < u64_mod
      → s.nonce + length ds < u64_mod
      → (s' : State) × (dispatch_all r ds s ≡ some (count_from s.nonce (length ds), s'))
        × HoldsPeaks s'
        × (s'.nonce ≡ s.nonce + length ds)
  unfolding dispatch_all
  dispatch_all_nonces [] s h small room = (s, refl, h, omega arith)
  dispatch_all_nonces (d ∷ ds) s h small room =
      let (result, s1, run, kept, leaves, nonce) = dispatch_request_nonce d s h (omega arith) in
      let next : s1.nonce ≡ s.nonce + 1 = omega (arith, nonce) in
      let (s2, runs, kept', last_nonce) =
        dispatch_all_nonces ds s1 kept (omega (arith, leaves)) (omega (arith, next)) in
      (
        s2,
        ground (arith, run, runs, outgoing-nonce d s, next),
        kept',
        omega (arith, next, last_nonce),
      )
