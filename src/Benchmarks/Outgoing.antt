-- ===== src/Benchmarks/Outgoing.antt =====
-- The benchmarks of pallet-ismp/src/benchmarking.rs that push leaves and dispatch. The result is the
-- state in the end; `none` is a panic.
use ismp_substrate.Base.{ℕ, zero, suc, ◌+◌, Option, none, some, replicate}
use ismp_substrate.Ismp.{
  bytes_key, StateMachine, Post, Request, DispatchPost, DispatchGet, DispatchRequest, PostResponse,
}
use ismp_substrate.Primitives.Leaves.{Leaf}
use ismp_substrate.Pallet.{State, Runtime}
use ismp_substrate.Leaves.{mmr_push}
use ismp_substrate.Hooks
use ismp_substrate.Handlers.Dispatcher
use ismp_substrate.Benchmarks.Mocks.{unwrap, committed}

module _ (r : Runtime) where
  -- the requests that `on_finalize` pushes
  abbrev pub filler : ℕ → Post
  filler nonce = record {
    source = StateMachine.kusama 2000;
    dest = StateMachine.kusama 2001;
    nonce = nonce;
    from = replicate 32 0;
    to = replicate 32 1;
    timeout_timestamp = 100;
    body = replicate 64 2;
    gas_limit = 0;
  }

  -- `for nonce in 0..x`, as the rounds left and the nonce of the next one
  unfoldable pub push_fillers : ℕ → ℕ → State → Option State
  push_fillers zero nonce s = some s
  push_fillers (suc k) nonce s = elim (mmr_push r (Leaf.request (Request.post (filler nonce))) s) [
    | none ↦ none
    | some (none, s') ↦ none
    | some (some pos, s') ↦ push_fillers k (nonce + 1) s'
  ]

  -- `on_finalize`
  unfoldable pub on_finalize : ℕ → State → Option State
  unfolding push_fillers
  on_finalize x s = elim (push_fillers x 0 s) [
    | none ↦ none
    | some s' ↦ some (Hooks.on_finalize r s')
  ]

  abbrev pub benched_post : DispatchPost
  benched_post = record {
    dest = StateMachine.kusama 2000;
    from = replicate 32 0;
    to = replicate 32 1;
    timeout_timestamp = 100;
    body = replicate 64 2;
    gas_limit = 0;
  }

  -- `dispatch_post_request`
  unfoldable pub dispatch_post_request : State → Option State
  dispatch_post_request s =
      unwrap (Dispatcher.dispatch_request r (DispatchRequest.post benched_post) s)

  abbrev pub benched_get : DispatchGet
  benched_get = record {
    dest = StateMachine.kusama 2000;
    from = replicate 32 0;
    keys = replicate 32 (replicate 32 1);
    height = 20;
    timeout_timestamp = 100;
    gas_limit = 0;
  }

  -- `dispatch_get_request`
  unfoldable pub dispatch_get_request : State → Option State
  dispatch_get_request s =
      unwrap (Dispatcher.dispatch_request r (DispatchRequest.get benched_get) s)

  -- the response, to a request between two other chains
  abbrev pub benched_response : PostResponse
  benched_response = record { post = filler 0; response = replicate 64 1 }

  -- `dispatch_response`
  unfoldable pub dispatch_response : State → Option State
  dispatch_response s =
      unwrap (Dispatcher.dispatch_response r benched_response (committed r (filler 0) s))
