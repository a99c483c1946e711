-- ===== src/Chain.antt =====
-- The states that a chain reaches from its genesis: what modules dispatch, the end of each block
-- and the administrator's calls, in any order.
pub mod Ranges
pub mod Log
pub mod Served
pub mod Bounds
pub mod Incoming
pub mod Batches
pub mod Sessions
pub mod Moves
pub mod Indexed
pub mod Past
pub mod Quiet
pub mod Announced
pub mod Answered
use ismp_substrate.Base.{
  ℕ, suc, ◌+◌, ◌*◌, ◌<◌, ◌≤◌, ◌≡◌, ◌∙◌, refl, sym, Bool-cases, inl, inr, Option, some, Result, ok,
  err, List, u64_mod, arith,
}
use ismp_substrate.StorageMap
use ismp_substrate.Ismp.{
  H256, bytes_key, StateMachine, DispatchRequest, PostResponse, Response, IsmpError,
}
use ismp_substrate.Ismp.Library.{ReadsRequests}
use ismp_substrate.Primitives.{MmrError}
use ismp_substrate.Pallet.{State, Runtime}
use ismp_substrate.Mmr.Storage.Invariant.{HoldsPeaks}
use ismp_substrate.Mmr.Operations.{new, finalize}
use ismp_substrate.Mmr.Push.{AppendsLeaf}
use ismp_substrate.Handlers.{request_hash, response_hash, dispatch_response as send_response}
use ismp_substrate.Handlers.Dispatcher.{dispatch_request, dispatch_response}
use ismp_substrate.Handlers.Outgoing.{
  dispatch_response_unknown, dispatch_response_duplicate, dispatch_response_once,
}
use ismp_substrate.Handlers.Nonces.{dispatch_request_nonce}
use ismp_substrate.Host.{store_unbonding_period, store_challenge_period, store_allowed_proxies}
use ismp_substrate.Hooks.{on_finalize, put_root, deposit_root}
use ismp_substrate.Calls.{Outside, UpdateConsensusState, update_consensus_state, set_config}
use Ranges.{
  SameRange, SameRange-HoldsPeaks, on_finalize-SameRange, update_consensus_state-SameRange,
  set_config-SameRange,
}

module _ (r : Runtime) {Origin : Type 0} (o : Outside Origin) where
  pub data Step (s : State) : State → Type 0 where
    request :
        {t : State} {result : Result IsmpError Unit} (d : DispatchRequest)
        → dispatch_request r d s ≡ some (result, t)
        → Step s t
    response :
        {t : State} {result : Result IsmpError Unit} (res : PostResponse)
        → dispatch_response r res s ≡ some (result, t)
        → Step s t
    block_end : Step s (on_finalize r s)
    update :
        (origin : Origin) (m : UpdateConsensusState)
        → Step s (update_consensus_state o origin m s).1
    configure :
        (origin : Origin) (allowed : List StateMachine) → Step s (set_config o origin allowed s).1

  -- the states after a number of steps
  pub data Reach (genesis : State) : ℕ → State → Type 0 where
    start : Reach genesis 0 genesis
    later : {n : ℕ} {s t : State} → Reach genesis n s → Step s t → Reach genesis (suc n) t

  -- what a step keeps
  abbrev pub Kept : State → State → Type 0
  Kept s t = HoldsPeaks t × (t.number_of_leaves ≤ s.number_of_leaves + 1)

  same_range : {s t : State} → SameRange t s → HoldsPeaks s → Kept s t
  same_range {s} same h = (SameRange-HoldsPeaks same h, omega (arith, same.0))

  -- A run has one final state.
  pub returned :
      (a b : Result IsmpError Unit) (t t' : State)
      → ◌≡◌ {A = Option (Result IsmpError Unit × State)} (some (a, t)) (some (b, t'))
      → t' ≡ t
  returned a b t t' e = cc

  module _ (lib : AppendsLeaf r.mmr_lib) (reads : ReadsRequests r.ismp) where
    response-Kept :
        (s t : State) (result : Result IsmpError Unit) (res : Response)
        → HoldsPeaks s
        → 2 * (s.number_of_leaves + 1) < u64_mod
        → send_response r res s ≡ some (result, t)
        → Kept s t
    response-Kept s t result res h small run =
        let key = request_hash r (r.ismp.request res) in
        elim (Bool-cases (StorageMap.contains_key s.request_commitments key)) [
          | inl known ↦
              elim (Bool-cases
                (StorageMap.contains_key s.response_commitments (response_hash r res))) [
                  | inl twice ↦
                      rw
                        (returned _ _ s t
                          (sym (dispatch_response_duplicate r res s known twice) ∙ run))
                        (h, omega arith)
                  | inr fresh ↦
                      let (s', sent, kept, leaves, _, _, _) =
                        dispatch_response_once r lib s h small res known fresh in
                      rw (returned _ _ s' t (sym sent ∙ run)) (kept, omega (arith, leaves))
                ]
          | inr unknown ↦
              rw (returned _ _ s t (sym (dispatch_response_unknown r res s unknown) ∙ run))
                (h, omega arith)
        ]

    request-Kept :
        (s t : State) (result : Result IsmpError Unit) (d : DispatchRequest)
        → HoldsPeaks s
        → 2 * (s.number_of_leaves + 1) < u64_mod
        → dispatch_request r d s ≡ some (result, t)
        → Kept s t
    request-Kept s t result d h small run =
        let (_, s', sent, kept, leaves, _) = dispatch_request_nonce r lib reads d s h small in
        rw (returned _ _ s' t (sym sent ∙ run)) (kept, leaves)

    Step-Kept :
        {s t : State} → Step s t → HoldsPeaks s → 2 * (s.number_of_leaves + 1) < u64_mod → Kept s t
    unfolding dispatch_response
    Step-Kept (request d run) h small = request-Kept _ _ _ d h small run
    Step-Kept (response res run) h small = response-Kept _ _ _ (Response.post res) h small run
    Step-Kept block_end h small = same_range (on_finalize-SameRange r _) h
    Step-Kept (update origin m) h small =
        same_range (update_consensus_state-SameRange o _ origin m) h
    Step-Kept (configure origin allowed) h small =
        same_range (set_config-SameRange o _ origin allowed) h

    -- Over libraries that behave as documented, from a genesis without leaves that holds exactly
    -- its peaks, every state after n steps, in any order, holds exactly its peaks and has n leaves
    -- at most, while twice one more than n is below 2^64.
    pub Reach-HoldsPeaks :
        {genesis s : State} {n : ℕ}
        → Reach genesis n s
        → HoldsPeaks genesis
        → genesis.number_of_leaves ≡ 0
        → 2 * (n + 1) < u64_mod
        → HoldsPeaks s × (s.number_of_leaves ≤ n)
    Reach-HoldsPeaks start h empty small = (h, omega arith)
    Reach-HoldsPeaks (later reached step) h empty small =
        let (held, few) = Reach-HoldsPeaks reached h empty (omega arith) in
        let (held', few') = Step-Kept step held (omega arith) in (held', omega arith)
