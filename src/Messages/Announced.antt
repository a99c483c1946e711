-- ===== src/Messages/Announced.antt =====
-- The updates of state machines that consensus messages bring, from their challenge period to the
-- event that announces them: `handle_messages` of pallet-ismp/src/lib.rs.
use ismp_substrate.Base.{
  ℕ, ◌+◌, ◌≡◌, refl, ap, Bool, true, false, if◌then◌else◌, ite, List, [], ◌∷◌, ◌++◌, arith,
}
use ismp_substrate.StorageMap
use ismp_substrate.StorageMap.{StorageMap, IsMap, remove-get_none, insert-IsMap}
use ismp_substrate.Ismp.{
  ConsensusClientId, StateMachineHeight, StateUpdates, ConsensusUpdateResult, bytes_key,
  state_machine_height_key, state_machine_id_key,
}
use ismp_substrate.Pallet.{State, PalletEvent, get_or, deposit_event}
use ismp_substrate.Host.{challenge_period}
use ismp_substrate.Messages.{
  is_zero_period, deposit_updates, on_trusted, on_challenged, on_consensus,
}

-- what holds in both cases holds of a test
pub either : (b : Bool) {x y : State} (P : State → Type 0) → P x → P y → P (if b then x else y)
either true P p q = p
either false P p q = q

module _ (at : StateMachineHeight) where
  -- whether a height is the one that is followed
  abbrev once : StateMachineHeight → ℕ
  once h = ite (state_machine_height_key.dec at h) 1 0

  -- how often updates lead to the height
  abbrev pub copies : StateUpdates → ℕ
  copies [] = 0
  copies ((previous, latest) ∷ updates) = once latest + copies updates

  abbrev announces : PalletEvent → ℕ
  announces (PalletEvent.state_machine_updated id height) =
      once (record { id = id; height = height })
  announces (PalletEvent.challenge_period_started client updates) = 0
  announces (PalletEvent.consensus_client_created client) = 0
  announces (PalletEvent.response dest source nonce) = 0
  announces (PalletEvent.request dest source nonce) = 0
  announces (PalletEvent.handling_errors errors) = 0

  -- how often events announce the height
  abbrev pub announced : List PalletEvent → ℕ
  announced [] = 0
  announced (e ∷ es) = announces e + announced es

  -- how often the height is among the results in their challenge period
  abbrev pub waiting : StorageMap ConsensusClientId StateUpdates → ℕ
  waiting [] = 0
  waiting ((client, updates) ∷ results) = copies updates + waiting results

  -- announced or waiting
  abbrev pub known : State → ℕ
  known s = announced s.events + waiting s.consensus_update_results

  pub announced-append :
      (es fs : List PalletEvent) → announced (es ++ fs) ≡ announced es + announced fs
  announced-append [] fs = omega arith
  announced-append (e ∷ es) fs = omega (arith, announced-append es fs)

  -- What is waiting for one client is what its removal takes out.
  waiting-remove :
      (m : StorageMap ConsensusClientId StateUpdates) (client : ConsensusClientId)
      → IsMap m
      → waiting (StorageMap.remove m client) + copies (get_or m client []) ≡ waiting m
  unfolding StorageMap.remove StorageMap.get
  waiting-remove [] client h = refl
  waiting-remove ((k, v) ∷ m) client (new, h) =
      let rest = waiting-remove m client h in
      elim (bytes_key.dec k client) [
        | yes e ↦ ground (arith, e, remove-get_none m k new)
        | no ne ↦ ground (arith, ne, rest)
      ]

  deposit_updates-announced :
      (updates : StateUpdates) (s : State)
      → announced (deposit_updates updates s).events ≡ announced s.events + copies updates
  unfolding deposit_updates deposit_event
  deposit_updates-announced [] s = omega arith
  deposit_updates-announced ((previous, latest) ∷ updates) s =
      let event = PalletEvent.state_machine_updated latest.id latest.height in
      omega (
        arith,
        deposit_updates-announced updates (deposit_event event s),
        announced-append s.events (event ∷ []),
      )

  deposit_updates-waiting :
      (updates : StateUpdates) (s : State)
      → (deposit_updates updates s).consensus_update_results ≡ s.consensus_update_results
  unfolding deposit_updates deposit_event
  deposit_updates-waiting [] s = refl
  deposit_updates-waiting ((previous, latest) ∷ updates) s =
      deposit_updates-waiting updates
        (deposit_event (PalletEvent.state_machine_updated latest.id latest.height) s)

  -- One state follows another, with so many more copies of the height known.
  abbrev pub Brings : State → ℕ → State → Type 0
  Brings s n t = (known t ≡ known s + n) × IsMap t.consensus_update_results

  on_trusted-Brings :
      (res : ConsensusUpdateResult) (s : State)
      → IsMap s.consensus_update_results
      → Brings s (copies res.state_updates) (on_trusted res s)
  unfolding on_trusted
  on_trusted-Brings res s h =
      let left = deposit_updates-waiting res.state_updates s in
      (omega (arith, deposit_updates-announced res.state_updates s, ap waiting left), rw left h)

  on_challenged-Brings :
      (res : ConsensusUpdateResult) (s : State)
      → IsMap s.consensus_update_results
      → Brings s (copies res.state_updates) (on_challenged res s)
  unfolding on_challenged deposit_event StorageMap.insert
  on_challenged-Brings res s h =
      let client = res.consensus_client_id in
      let pending = get_or s.consensus_update_results client [] in
      let event = PalletEvent.challenge_period_started client res.state_updates in
      let left = deposit_updates-waiting pending s in
      (
        omega (
          arith,
          deposit_updates-announced pending s,
          announced-append (deposit_updates pending s).events (event ∷ []),
          waiting-remove s.consensus_update_results client h,
          ap (λ m. waiting (StorageMap.remove m client)) left,
        ),
        rw left (insert-IsMap s.consensus_update_results client res.state_updates h),
      )

  -- A consensus result that is trusted is announced at once; any other waits, and what waited for
  -- its client until then is announced.
  pub on_consensus-Brings :
      (res : ConsensusUpdateResult) (s : State)
      → IsMap s.consensus_update_results
      → Brings s (copies res.state_updates) (on_consensus res s)
  unfolding on_consensus
  on_consensus-Brings res s h =
      either (is_zero_period (challenge_period res.consensus_state_id s))
        (Brings s (copies res.state_updates)) (on_trusted-Brings res s h)
        (on_challenged-Brings res s h)
