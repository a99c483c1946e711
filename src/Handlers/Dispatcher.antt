-- ===== src/Handlers/Dispatcher.antt =====
-- `IsmpDispatcher for Dispatcher<T>` of pallet-ismp/src/dispatcher.rs.
use ismp_substrate.Base.{Result}
use ismp_substrate.Ismp.{Request, Response, PostResponse, DispatchRequest, IsmpError}
use ismp_substrate.Pallet.{State, Runtime, Run}
use ismp_substrate.Host.{host_state_machine, next_nonce}
use ismp_substrate.Handlers.{
  dispatch_request as pallet_dispatch_request, dispatch_response as pallet_dispatch_response,
}

module _ (r : Runtime) where
  -- the request that a module's dispatch becomes, and the state after its nonce is taken
  unfoldable pub outgoing : DispatchRequest → State → Request × State
  unfolding host_state_machine next_nonce
  outgoing (DispatchRequest.get dispatch_get) s =
      let (nonce, s') = next_nonce s in
      (
        Request.get (record {
          source = host_state_machine r;
          dest = dispatch_get.dest;
          nonce = nonce;
          from = dispatch_get.from;
          keys = dispatch_get.keys;
          height = dispatch_get.height;
          timeout_timestamp = dispatch_get.timeout_timestamp;
          gas_limit = dispatch_get.gas_limit;
        }),
        s',
      )
  outgoing (DispatchRequest.post dispatch_post) s =
      let (nonce, s') = next_nonce s in
      (
        Request.post (record {
          source = host_state_machine r;
          dest = dispatch_post.dest;
          nonce = nonce;
          from = dispatch_post.from;
          to = dispatch_post.to;
          timeout_timestamp = dispatch_post.timeout_timestamp;
          body = dispatch_post.body;
          gas_limit = dispatch_post.gas_limit;
        }),
        s',
      )

  -- `Dispatcher::dispatch_request`
  unfoldable pub dispatch_request : DispatchRequest → State → Run (Result IsmpError Unit × State)
  unfolding outgoing
  dispatch_request request s =
      let (req, s') = outgoing request s in pallet_dispatch_request r req s'

  -- `Dispatcher::dispatch_response`
  unfoldable pub dispatch_response : PostResponse → State → Run (Result IsmpError Unit × State)
  dispatch_response response s = pallet_dispatch_response r (Response.post response) s
