-- ===== src/Demo/Bridge.antt =====
-- Two parachains that run ismp-demo/src/lib.rs, and the transfers between them in any order.
pub mod Supply
use ismp_substrate.Base.{
  ℕ, ◌+◌, ◌≤◌, ◌≡◌, refl, sym, ap, ◌∙◌, Option, some, ok, List, [], ◌∷◌, ◌++◌, arith,
}
use ismp_substrate.Ismp.{Post, Request, Response, DispatchRequest}
use ismp_substrate.Primitives.ModuleId.{to_bytes}
use ismp_substrate.Pallet.{State, Runtime}
use ismp_substrate.Handlers.Dispatcher.{outgoing}
use ismp_substrate.Demo.Data.{
  AccountId, pallet_id, GetRequest, TransferParams, EvmParams, Outer, MovesFunds, Chain,
}
use ismp_substrate.Demo.{
  destination, payload_of, transfer, get_request, dispatch_to_evm, transfer_post,
}
use ismp_substrate.Demo.Callbacks.{mint_payload, on_accept, on_response, on_timeout}
use ismp_substrate.Demo.Transfers.{accept_from_parachain}
use ismp_substrate.Demo.Payments.{
  transfer_paid, mint_payload_paid, get_request_ledger, dispatch_to_evm_ledger, on_response_ledger,
}

-- What FRAME documents of the total issuance of a currency, for a burn with exact precision and a
-- mint that succeed. A burn may take dust under the minimum balance with it.
pub record Issues {Ledger : Type 0} (o : Outer Ledger) : Type 0 where
  pub total : Ledger → ℕ
  pub burned :
      (who : AccountId) (amount : ℕ) (l l' : Ledger)
      → o.burn_from who amount l ≡ (ok tt, l')
      → (total l' + amount ≤ total l) × (total l ≤ total l' + amount + o.minimum_balance)
  pub minted :
      (who : AccountId) (amount : ℕ) (l l' : Ledger)
      → o.mint_into who amount l ≡ (ok tt, l')
      → total l' ≡ total l + amount

-- the two chains
pub data Side : Type 0 where
  left right : Side

abbrev pub other : Side → Side
other left = right
other right = left

abbrev pub put : {A : Type 0} → Side → A → (Side → A) → Side → A
put left a f left = a
put left a f right = f right
put right a f left = f left
put right a f right = a

-- A transfer on its way, with the nonce of its request.
pub record Flight : Type 0 where
  pub from : Side
  pub origin : AccountId
  pub params : TransferParams
  pub nonce : ℕ

pub record World (Ledger : Type 0) : Type 0 where
  pub chains : Side → Chain Ledger
  pub flying : List Flight

module _ {Ledger : Type 0} (r : Side → Runtime) (o : Outer Ledger) where
  -- the request of a transfer on its way
  abbrev pub post_of : Flight → Post
  post_of f = record {
    source = (r f.from).state_machine;
    dest = (r (other f.from)).state_machine;
    nonce = f.nonce;
    from = to_bytes pallet_id;
    to = to_bytes pallet_id;
    timeout_timestamp = f.params.timeout;
    body = o.encode_payload (payload_of (r f.from) o f.origin f.params);
    gas_limit = 0;
  }

  -- It is what the dispatcher makes of the transfer's dispatch to the other chain.
  pub outgoing-post_of :
      (f : Flight) (s : State)
      → s.nonce ≡ f.nonce
      → (outgoing
          (r f.from)
          (DispatchRequest.post
            (transfer_post (r f.from) o f.origin f.params (r (other f.from)).state_machine))
          s).0
        ≡ Request.post (post_of f)
  unfolding outgoing
  outgoing-post_of f s same = rw same refl

module _ {Ledger : Type 0} (r : Side → Runtime) (o : Outer Ledger) (issues : Issues o)
    (ids : Side → ℕ) where
  -- What happens on the two chains. A request that was sent is taken once, by the chain it goes to
  -- or by the timeout on its own, which is what ISMP is for; `elsewhere` is all that other pallets
  -- do, which keeps the total issuance. The number is that of the transfers that depart.
  pub data Event (w : World Ledger) : ℕ → World Ledger → Type 0 where
    departs :
        (from : Side) (origin : AccountId) (params : TransferParams) {d : Chain Ledger}
        → params.para_id ≡ ids (other from)
        → transfer (r from) o (some origin) params (w.chains from) ≡ some (ok tt, d)
        → Event w 1 (record {
          chains = put from d w.chains;
          flying =
              record {
                from = from;
                origin = origin;
                params = params;
                nonce = (w.chains from).state.nonce;
              }
              ∷ w.flying;
        })
    arrives :
        (before after : List Flight) (f : Flight) {d : Chain Ledger}
        → w.flying ≡ before ++ (f ∷ after)
        → on_accept o (post_of r o f) (w.chains (other f.from)) ≡ (ok tt, d)
        → Event w 0 (record { chains = put (other f.from) d w.chains; flying = before ++ after })
    expires :
        (before after : List Flight) (f : Flight) {d : Chain Ledger}
        → w.flying ≡ before ++ (f ∷ after)
        → on_timeout o (r f.from) (Request.post (post_of r o f)) (w.chains f.from) ≡ (ok tt, d)
        → Event w 0 (record { chains = put f.from d w.chains; flying = before ++ after })
    asks :
        (at : Side) (origin : Option AccountId) (params : GetRequest) {d : Chain Ledger}
        → get_request (r at) o origin params (w.chains at) ≡ some (ok tt, d)
        → Event w 0 (record w { chains = put at d w.chains })
    greets :
        (at : Side) (origin : Option AccountId) (params : EvmParams) {d : Chain Ledger}
        → dispatch_to_evm (r at) o origin params (w.chains at) ≡ some (ok tt, d)
        → Event w 0 (record w { chains = put at d w.chains })
    answered :
        (at : Side) (res : Response) {d : Chain Ledger}
        → on_response o res (w.chains at) ≡ (ok tt, d)
        → Event w 0 (record w { chains = put at d w.chains })
    elsewhere :
        (at : Side) (d : Chain Ledger)
        → issues.total d.ledger ≡ issues.total (w.chains at).ledger
        → Event w 0 (record w { chains = put at d w.chains })

  -- the worlds reached, with the number of transfers that have departed
  pub data Reach (origin : World Ledger) : ℕ → World Ledger → Type 0 where
    start : Reach origin 0 origin
    later :
        {n k : ℕ} {w w' : World Ledger} → Reach origin n w → Event w k w' → Reach origin (n + k) w'
