-- ===== src/Calls/Origins.antt =====
-- What the administrator's update sets.
use ismp_substrate.Base.{ℕ, ◌≡◌, ◌∙◌, refl, true, Option, none, some, ok, ite, arith}
use ismp_substrate.StorageMap.{get-insert}
use ismp_substrate.Ismp.{bytes_key, from_secs, Duration, ConsensusStateId}
use ismp_substrate.Pallet.{State}
use ismp_substrate.Host.{
  unbonding_period, challenge_period, store_unbonding_period, store_challenge_period,
}
use ismp_substrate.Calls.{UpdateConsensusState, Outside, update_consensus_state, store_if}

-- the period that a message sets, or the one that was there
abbrev pub set_or : Option ℕ → Option Duration → Option Duration
set_or none before = before
set_or (some period) before = some (from_secs period)

module _ {Origin : Type 0} (o : Outside Origin) (origin : Origin) where
  store_unbonding_if :
      (id k : ConsensusStateId) (period : Option ℕ) (s : State)
      → (unbonding_period k (store_if (store_unbonding_period id) period s)
          ≡ ite (bytes_key.dec id k) (set_or period (unbonding_period k s)) (unbonding_period k s))
        × (challenge_period k (store_if (store_unbonding_period id) period s)
            ≡ challenge_period k s)
  unfolding unbonding_period challenge_period store_unbonding_period
  store_unbonding_if id k none s = ground arith
  store_unbonding_if id k (some period) s =
      ground (arith, get-insert s.unbonding_period id k period)

  store_challenge_if :
      (id k : ConsensusStateId) (period : Option ℕ) (s : State)
      → (challenge_period k (store_if (store_challenge_period id) period s)
          ≡ ite (bytes_key.dec id k) (set_or period (challenge_period k s)) (challenge_period k s))
        × (unbonding_period k (store_if (store_challenge_period id) period s)
            ≡ unbonding_period k s)
  unfolding unbonding_period challenge_period store_challenge_period
  store_challenge_if id k none s = ground arith
  store_challenge_if id k (some period) s =
      ground (arith, get-insert s.challenge_period id k period)

  admin_update :
      o.is_admin origin ≡ true
      → (update : UpdateConsensusState) (s : State)
      → update_consensus_state o origin update s ≡ (
        ok tt,
        store_if
            (store_challenge_period update.consensus_state_id)
            update.challenge_period
            (store_if (store_unbonding_period update.consensus_state_id) update.unbonding_period s),
      )
  unfolding update_consensus_state
  admin_update admin update s = ground arith

  -- The administrator's update succeeds. The host then reads the periods that the message sets for
  -- its consensus state; a period that it leaves out, and every period of another consensus state,
  -- reads as before.
  pub update_consensus_state-read :
      o.is_admin origin ≡ true
      → (update : UpdateConsensusState) (k : ConsensusStateId) (s : State)
      → (update_consensus_state o origin update s).0 ≡ ok tt
        × (unbonding_period k (update_consensus_state o origin update s).1
            ≡ ite
                (bytes_key.dec update.consensus_state_id k)
                (set_or update.unbonding_period (unbonding_period k s))
                (unbonding_period k s))
        × (challenge_period k (update_consensus_state o origin update s).1
            ≡ ite
                (bytes_key.dec update.consensus_state_id k)
                (set_or update.challenge_period (challenge_period k s))
                (challenge_period k s))
  update_consensus_state-read admin update k s =
      let id = update.consensus_state_id in
      let s' = store_if (store_unbonding_period id) update.unbonding_period s in
      let after_unbonding = store_unbonding_if id k update.unbonding_period s in
      let after_challenge = store_challenge_if id k update.challenge_period s' in
      rw (admin_update admin update s) (
        refl,
        after_challenge.1 ∙ after_unbonding.0,
        ground (arith, after_challenge.0, after_unbonding.1),
      )
