-- ===== src/Pallet/Traits.antt =====
-- What a runtime sets for the pallet: `pallet::Config` of pallet-ismp/src/lib.rs, and
-- `ConsensusClientProvider` of pallet-ismp/src/primitives.rs.
use ismp_substrate.Base.{Bool, Result}
use ismp_substrate.Ismp.{Bytes, Duration, StateMachine, ConsensusClientId, IsmpError}
use ismp_substrate.Weights.Providers.{Weights}

-- A provider of consensus clients; what a client is stands outside the repository.
pub record ConsensusClientProvider (Client : Type 0) : Type 0 where
  pub consensus_client : ConsensusClientId → Result IsmpError Client

-- `pallet::Config` as a runtime answers it at one moment, for its origins, its consensus clients
-- and its router
pub record Config (Origin Client Router : Type 0) : Type 0 where
  pub indexing_prefix : Bytes
  -- `AdminOrigin::ensure_origin`
  pub admin_origin : Origin → Bool
  pub state_machine : StateMachine
  -- `TimeProvider::now`
  pub now : Duration
  -- `IsmpRouter::default`
  pub ismp_router : Router
  pub consensus_client_provider : ConsensusClientProvider Client
  -- `WeightInfo` and `WeightProvider`
  pub weights : Weights
