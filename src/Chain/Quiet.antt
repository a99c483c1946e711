-- ===== src/Chain/Quiet.antt =====
-- What a chain does beside the handling of consensus messages: it announces no update of a state
-- machine, and leaves the updates in their challenge period.
use ismp_substrate.Base.{
  ℕ, suc, ◌+◌, ◌*◌, ◌<◌, refl, ◌∙◌, Result, ok, err, List, [], ◌∷◌, ◌++◌, length, length-append,
  u64_mod, arith,
}
use ismp_substrate.Ismp.{
  StateMachine, StateMachineHeight, IsmpError, ConsensusClientId, H256, bytes_key,
  state_machine_id_key, state_machine_height_key,
}
use ismp_substrate.Primitives.{MmrError}
use ismp_substrate.Primitives.Leaves.{Leaf}
use ismp_substrate.Pallet.{State, Runtime, IsScale, PalletEvent, deposit_event}
use ismp_substrate.Mmr.Push.{AppendsLeaf}
use ismp_substrate.Mmr.Operations.{new, finalize}
use ismp_substrate.Leaves.Log.{Represents}
use ismp_substrate.Handlers.Quiet.{dispatch_request-SameUpdates, dispatch_response-SameUpdates}
use ismp_substrate.Host.{
  store_consensus_state, store_consensus_update_time, store_state_machine_update_time,
  store_state_machine_commitment, freeze_state_machine, store_latest_commitment_height,
  delete_request_commitment, store_request_receipt, store_response_receipt, freeze_consensus_client,
  store_consensus_state_id, store_unbonding_period, store_challenge_period, store_allowed_proxies,
}
use ismp_substrate.Hooks.{on_finalize, put_root, deposit_root}
use ismp_substrate.Calls.{
  Outside, UpdateConsensusState, update_consensus_state, set_config, created,
}
use ismp_substrate.Chain.{Step}
use ismp_substrate.Chain.Incoming.{HostWrite, Effect, Effect-Represents}
use ismp_substrate.Messages.Announced.{announced-append}
use ismp_substrate.Messages.Entered.{SameUpdates}

module _ (at : StateMachineHeight) (r : Runtime) where
  pub SameUpdates-then :
      (s t u : State) → SameUpdates at t s → SameUpdates at u t → SameUpdates at u s
  SameUpdates-then s t u first rest = (rest.0 ∙ first.0, rest.1 ∙ first.1)

  HostWrite-SameUpdates : {s t : State} → HostWrite r s t → SameUpdates at t s
  unfolding store_consensus_state store_consensus_update_time store_state_machine_update_time
      store_state_machine_commitment freeze_state_machine store_latest_commitment_height
      delete_request_commitment store_request_receipt store_response_receipt freeze_consensus_client
      store_consensus_state_id store_unbonding_period store_challenge_period store_allowed_proxies
  HostWrite-SameUpdates (HostWrite.consensus_state id state) = (refl, refl)
  HostWrite-SameUpdates (HostWrite.consensus_time id time) = (refl, refl)
  HostWrite-SameUpdates (HostWrite.machine_time height time) = (refl, refl)
  HostWrite-SameUpdates (HostWrite.commitment height state) = (refl, refl)
  HostWrite-SameUpdates (HostWrite.machine_frozen height) = (refl, refl)
  HostWrite-SameUpdates (HostWrite.latest_height height) = (refl, refl)
  HostWrite-SameUpdates (HostWrite.commitment_deleted req) = (refl, refl)
  HostWrite-SameUpdates (HostWrite.request_receipt req) = (refl, refl)
  HostWrite-SameUpdates (HostWrite.response_receipt req) = (refl, refl)
  HostWrite-SameUpdates (HostWrite.client_frozen id) = (refl, refl)
  HostWrite-SameUpdates (HostWrite.client_of id client) = (refl, refl)
  HostWrite-SameUpdates (HostWrite.unbonding id period) = (refl, refl)
  HostWrite-SameUpdates (HostWrite.challenge id period) = (refl, refl)
  HostWrite-SameUpdates (HostWrite.proxies allowed) = (refl, refl)
  HostWrite-SameUpdates (HostWrite.weighed used) = (refl, refl)

  put_root-SameUpdates :
      (s : State) (result : Result MmrError H256) → SameUpdates at (put_root r result s) s
  unfolding put_root deposit_root
  put_root-SameUpdates s (ok root) = (refl, refl)
  put_root-SameUpdates s (err e) = (refl, refl)

  on_finalize-SameUpdates : (s : State) → SameUpdates at (on_finalize r s) s
  unfolding on_finalize deposit_root
  on_finalize-SameUpdates s =
      let rest = put_root-SameUpdates s (finalize r (new s.number_of_leaves) s) in
      (ground (arith, rest), ground (arith, rest))

  module _ {Origin : Type 0} (o : Outside Origin) where
    update_consensus_state-SameUpdates :
        (s : State) (origin : Origin) (m : UpdateConsensusState)
        → SameUpdates at (update_consensus_state o origin m s).1 s
    unfolding update_consensus_state store_unbonding_period store_challenge_period
    update_consensus_state-SameUpdates s origin m = (ground arith, ground arith)

    set_config-SameUpdates :
        (s : State) (origin : Origin) (allowed : List StateMachine)
        → SameUpdates at (set_config o origin allowed s).1 s
    unfolding set_config store_allowed_proxies
    set_config-SameUpdates s origin allowed = (ground arith, ground arith)

    pub created-SameUpdates :
        (origin : Origin) (result : Result IsmpError ConsensusClientId) (s : State)
        → SameUpdates at (created o origin result s).1 s
    unfolding created deposit_event
    created-SameUpdates origin (ok id) s = (
      omega (arith, announced-append at s.events (PalletEvent.consensus_client_created id ∷ [])),
      refl,
    )
    created-SameUpdates origin (err e) s = (refl, refl)

    module _ (lib : AppendsLeaf r.mmr_lib) (scale : IsScale r.codec) where
      pub Step-SameUpdates :
          {s t : State} (log : List Leaf)
          → Step r o s t
          → Represents r s log
          → 2 * (length log + 1) < u64_mod
          → SameUpdates at t s
      Step-SameUpdates {s} {t} log (Step.request {result = result} d run) h small =
          dispatch_request-SameUpdates at r lib d s t result h.peaks (omega (arith, h.counted)) run
      Step-SameUpdates {s} {t} log (Step.response {result = result} res run) h small =
          dispatch_response-SameUpdates at r lib res s t result h.peaks (omega (arith, h.counted))
            run
      Step-SameUpdates {s} log Step.block_end h small = on_finalize-SameUpdates s
      Step-SameUpdates {s} log (Step.update origin m) h small =
          update_consensus_state-SameUpdates s origin m
      Step-SameUpdates {s} log (Step.configure origin allowed) h small =
          set_config-SameUpdates s origin allowed

      -- one more dispatch of a module
      sent_quietly :
          {s t u : State} (log : List Leaf) (n : ℕ)
          → Effect r s n t
          → Represents r s log
          → 2 * (length log + suc n + 1) < u64_mod
          → SameUpdates at t s
          → Step r o t u
          → SameUpdates at u s
      sent_quietly {s} {t} {u} log n before h small same next =
          let (more, h', few) = Effect-Represents r o lib scale before log h (omega arith) in
          SameUpdates-then s t u same (
            Step-SameUpdates (log ++ more) next h' (omega (arith, few, length-append {0} log more)))

      pub Effect-SameUpdates :
          {s t : State} {n : ℕ} (log : List Leaf)
          → Effect r s n t
          → Represents r s log
          → 2 * (length log + n + 1) < u64_mod
          → SameUpdates at t s
      Effect-SameUpdates log Effect.nothing h small = (refl, refl)
      Effect-SameUpdates {s} log (Effect.write {t = t} {u = u} before w) h small =
          SameUpdates-then s t u (Effect-SameUpdates log before h small) (HostWrite-SameUpdates w)
      Effect-SameUpdates log (Effect.sends {n} d before run) h small =
          sent_quietly log n before h small (Effect-SameUpdates log before h (omega arith))
            (Step.request d run)
      Effect-SameUpdates log (Effect.answers {n} res before run) h small =
          sent_quietly log n before h small (Effect-SameUpdates log before h (omega arith))
            (Step.response res run)
