-- ===== src/Chain/Ranges.antt =====
-- What leaves the range, the offchain database, the nonce and the commitments of responses alone:
-- the end of a block and the administrator's calls, from pallet-ismp/src/lib.rs.
use ismp_substrate.Base.{◌≡◌, refl, Result, ok, err, List, arith}
use ismp_substrate.Ismp.{H256, StateMachine, IsmpError, ConsensusClientId}
use ismp_substrate.Primitives.{MmrError}
use ismp_substrate.Primitives.Leaves.{Leaf}
use ismp_substrate.Pallet.{State, Runtime, deposit_event}
use ismp_substrate.Mmr.Storage.Invariant.{HoldsPeaks}
use ismp_substrate.Mmr.Operations.{new, finalize}
use ismp_substrate.Leaves.Log.{Represents, Represents-same}
use ismp_substrate.Host.{store_unbonding_period, store_challenge_period, store_allowed_proxies}
use ismp_substrate.Hooks.{on_finalize, put_root, deposit_root}
use ismp_substrate.Calls.{
  Outside, UpdateConsensusState, created, update_consensus_state, set_config,
}

-- The range, the offchain database, the nonce and the commitments of responses are those of
-- another state.
abbrev pub SameRange : State → State → Type 0
SameRange t s =
    (t.number_of_leaves ≡ s.number_of_leaves)
    × (t.nodes ≡ s.nodes)
    × (t.offchain ≡ s.offchain)
    × (t.nonce ≡ s.nonce)
    × (t.response_commitments ≡ s.response_commitments)

pub SameRange-HoldsPeaks : {s t : State} → SameRange t s → HoldsPeaks s → HoldsPeaks t
SameRange-HoldsPeaks same h = record {
  bounded = omega (arith, same.0, h.bounded);
  held = λ p. rw (same.1, same.0) (h.held p);
}

module _ (r : Runtime) where
  pub SameRange-Represents :
      {s t : State} {log : List Leaf} → SameRange t s → Represents r s log → Represents r t log
  SameRange-Represents {s} {t} {log} same h = Represents-same r s t log same.0 same.1 same.2 h

  put_root-SameRange :
      (s : State) (result : Result MmrError H256) → SameRange (put_root r result s) s
  unfolding put_root deposit_root
  put_root-SameRange s (ok root) = (refl, refl, refl, refl, refl)
  put_root-SameRange s (err e) = (refl, refl, refl, refl, refl)

  pub on_finalize-SameRange : (s : State) → SameRange (on_finalize r s) s
  unfolding on_finalize deposit_root
  on_finalize-SameRange s =
      let rest = put_root-SameRange s (finalize r (new s.number_of_leaves) s) in
      (
        ground (arith, rest),
        ground (arith, rest),
        ground (arith, rest),
        ground (arith, rest),
        ground (arith, rest),
      )

module _ {Origin : Type 0} (o : Outside Origin) where
  pub update_consensus_state-SameRange :
      (s : State) (origin : Origin) (m : UpdateConsensusState)
      → SameRange (update_consensus_state o origin m s).1 s
  unfolding update_consensus_state store_unbonding_period store_challenge_period
  update_consensus_state-SameRange s origin m =
      (ground arith, ground arith, ground arith, ground arith, ground arith)

  pub set_config-SameRange :
      (s : State) (origin : Origin) (allowed : List StateMachine)
      → SameRange (set_config o origin allowed s).1 s
  unfolding set_config store_allowed_proxies
  set_config-SameRange s origin allowed =
      (ground arith, ground arith, ground arith, ground arith, ground arith)

  pub created-SameRange :
      (origin : Origin) (result : Result IsmpError ConsensusClientId) (s : State)
      → SameRange (created o origin result s).1 s
  unfolding created deposit_event
  created-SameRange origin (ok id) s = (refl, refl, refl, refl, refl)
  created-SameRange origin (err e) s = (refl, refl, refl, refl, refl)
