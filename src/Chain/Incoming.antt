-- ===== src/Chain/Incoming.antt =====
-- What the `ismp` crate does to the chain while it handles a message: it writes through the host of
-- pallet-ismp/src/host.rs, and the modules that it calls dispatch through
-- pallet-ismp/src/dispatcher.rs.
use ismp_substrate.Base.{
  ℕ, suc, ◌+◌, ◌*◌, ◌<◌, ◌≤◌, ◌≡◌, refl, sym, some, Result, List, [], ◌++◌, length, length-append,
  u64_mod, arith,
}
use mathlib.Core.List.{append-nil, append_assoc}
use ismp_substrate.Ismp.{
  Bytes, Duration, StateMachine, Request, PostResponse, DispatchRequest, IsmpError,
  ConsensusClientId, ConsensusStateId, StateMachineHeight, StateCommitment,
}
use ismp_substrate.Primitives.{WeightUsed}
use ismp_substrate.Primitives.Leaves.{Leaf}
use ismp_substrate.Pallet.{State, Runtime, IsScale}
use ismp_substrate.Mmr.Push.{AppendsLeaf}
use ismp_substrate.Leaves.Log.{Represents}
use ismp_substrate.Handlers.Dispatcher.{dispatch_request, dispatch_response}
use ismp_substrate.Host.{
  store_consensus_state, store_consensus_update_time, store_state_machine_update_time,
  store_state_machine_commitment, freeze_state_machine, store_latest_commitment_height,
  delete_request_commitment, store_request_receipt, store_response_receipt, freeze_consensus_client,
  store_consensus_state_id, store_unbonding_period, store_challenge_period, store_allowed_proxies,
}
use ismp_substrate.Calls.{Outside}
use ismp_substrate.Chain.{Step}
use ismp_substrate.Chain.Ranges.{SameRange, SameRange-Represents}
use ismp_substrate.Chain.Log.{RepresentsMore, Step-Represents}

module _ (r : Runtime) where
  -- one write of the host, or of the weight that a module's callback used
  pub data HostWrite (s : State) : State → Type 0 where
    consensus_state :
        (id : ConsensusClientId) (state : Bytes) → HostWrite s (store_consensus_state id state s)
    consensus_time :
        (id : ConsensusClientId) (time : Duration)
        → HostWrite s (store_consensus_update_time id time s)
    machine_time :
        (height : StateMachineHeight) (time : Duration)
        → HostWrite s (store_state_machine_update_time height time s)
    commitment :
        (height : StateMachineHeight) (state : StateCommitment)
        → HostWrite s (store_state_machine_commitment height state s)
    machine_frozen : (height : StateMachineHeight) → HostWrite s (freeze_state_machine height s)
    latest_height :
        (height : StateMachineHeight) → HostWrite s (store_latest_commitment_height height s)
    commitment_deleted : (req : Request) → HostWrite s (delete_request_commitment r req s)
    request_receipt : (req : Request) → HostWrite s (store_request_receipt r req s)
    response_receipt : (req : Request) → HostWrite s (store_response_receipt r req s)
    client_frozen : (id : ConsensusStateId) → HostWrite s (freeze_consensus_client id s)
    client_of :
        (id : ConsensusStateId) (client : ConsensusClientId)
        → HostWrite s (store_consensus_state_id id client s)
    unbonding :
        (id : ConsensusStateId) (period : ℕ) → HostWrite s (store_unbonding_period id period s)
    challenge :
        (id : ConsensusStateId) (period : ℕ) → HostWrite s (store_challenge_period id period s)
    proxies : (allowed : List StateMachine) → HostWrite s (store_allowed_proxies allowed s)
    weighed : (used : WeightUsed) → HostWrite s (record s { weight_consumed = used })

  -- writes of the host and dispatches of modules in any order, with the number of dispatches
  pub data Effect (s : State) : ℕ → State → Type 0 where
    nothing : Effect s 0 s
    write : {n : ℕ} {t u : State} → Effect s n t → HostWrite t u → Effect s n u
    sends :
        {n : ℕ} {t u : State} {result : Result IsmpError Unit} (d : DispatchRequest)
        → Effect s n t
        → dispatch_request r d t ≡ some (result, u)
        → Effect s (suc n) u
    answers :
        {n : ℕ} {t u : State} {result : Result IsmpError Unit} (res : PostResponse)
        → Effect s n t
        → dispatch_response r res t ≡ some (result, u)
        → Effect s (suc n) u

  pub HostWrite-SameRange : {s t : State} → HostWrite s t → SameRange t s
  unfolding store_consensus_state store_consensus_update_time store_state_machine_update_time
      store_state_machine_commitment freeze_state_machine store_latest_commitment_height
      delete_request_commitment store_request_receipt store_response_receipt freeze_consensus_client
      store_consensus_state_id store_unbonding_period store_challenge_period store_allowed_proxies
  HostWrite-SameRange (HostWrite.consensus_state id state) = (refl, refl, refl, refl, refl)
  HostWrite-SameRange (HostWrite.consensus_time id time) = (refl, refl, refl, refl, refl)
  HostWrite-SameRange (HostWrite.machine_time height time) = (refl, refl, refl, refl, refl)
  HostWrite-SameRange (HostWrite.commitment height state) = (refl, refl, refl, refl, refl)
  HostWrite-SameRange (HostWrite.machine_frozen height) = (refl, refl, refl, refl, refl)
  HostWrite-SameRange (HostWrite.latest_height height) = (refl, refl, refl, refl, refl)
  HostWrite-SameRange (HostWrite.commitment_deleted req) = (refl, refl, refl, refl, refl)
  HostWrite-SameRange (HostWrite.request_receipt req) = (refl, refl, refl, refl, refl)
  HostWrite-SameRange (HostWrite.response_receipt req) = (refl, refl, refl, refl, refl)
  HostWrite-SameRange (HostWrite.client_frozen id) = (refl, refl, refl, refl, refl)
  HostWrite-SameRange (HostWrite.client_of id client) = (refl, refl, refl, refl, refl)
  HostWrite-SameRange (HostWrite.unbonding id period) = (refl, refl, refl, refl, refl)
  HostWrite-SameRange (HostWrite.challenge id period) = (refl, refl, refl, refl, refl)
  HostWrite-SameRange (HostWrite.proxies allowed) = (refl, refl, refl, refl, refl)
  HostWrite-SameRange (HostWrite.weighed used) = (refl, refl, refl, refl, refl)

module _ (r : Runtime) {Origin : Type 0} (o : Outside Origin) (lib : AppendsLeaf r.mmr_lib)
    (scale : IsScale r.codec) where
  -- More leaves, and more after them.
  pub RepresentsMore-then :
      (u : State) (log more : List Leaf) (n k : ℕ)
      → length more ≤ n
      → RepresentsMore r u (log ++ more) k
      → RepresentsMore r u log (n + k)
  RepresentsMore-then u log more n k few (last, h, few') = (
    more ++ last,
    rw (sym (append_assoc log more last)) h,
    omega (arith, length-append {0} more last),
  )

  pub one_more :
      (t u : State) (log : List Leaf) (n : ℕ)
      → RepresentsMore r t log n
      → Step r o t u
      → 2 * (length log + suc n + 1) < u64_mod
      → RepresentsMore r u log (suc n)
  one_more t u log n (more, h, few) step small =
      let next : suc n ≡ n + 1 = omega arith in
      rw next (
        RepresentsMore-then u log more n 1 few (
          Step-Represents r o lib scale (log ++ more) step h
            (omega (arith, h.counted, few, length-append {0} log more))))

  pub Effect-Represents :
      {s t : State} {n : ℕ}
      → Effect r s n t
      → (log : List Leaf) → Represents r s log
      → 2 * (length log + n + 1) < u64_mod
      → RepresentsMore r t log n
  Effect-Represents Effect.nothing log h small = ([], rw (append-nil log) h, omega arith)
  Effect-Represents (Effect.write before w) log h small =
      let (more, h', few) = Effect-Represents before log h small in
      (more, SameRange-Represents r (HostWrite-SameRange r w) h', few)
  Effect-Represents (Effect.sends {n} {t} {u} d before run) log h small =
      one_more t u log n (Effect-Represents before log h (omega arith)) (Step.request d run) small
  Effect-Represents (Effect.answers {n} {t} {u} res before run) log h small =
      one_more t u log n (Effect-Represents before log h (omega arith)) (Step.response res run)
        small
