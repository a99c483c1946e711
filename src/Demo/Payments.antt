-- ===== src/Demo/Payments.antt =====
-- What the calls and callbacks of ismp-demo/src/lib.rs that succeed have burnt, minted or left alone.
use ismp_substrate.Base.{
  ℕ, zero, suc, Option-cases, inl, inr, ◌≡◌, refl, sym, ap, ◌∙◌, Option, none, some, Result, ok,
  err, arith,
}
use ismp_substrate.Ismp.{Bytes, StateMachine, Response, DispatchRequest, DispatchPost, IsmpError}
use ismp_substrate.Pallet.{State, Runtime, Run}
use ismp_substrate.Handlers.Dispatcher.{dispatch_request}
use ismp_substrate.Demo.Data.{
  AccountId, Payload, GetRequest, TransferParams, EvmParams, CallError, DemoError, DemoEvent, Outer,
  Chain,
}
use ismp_substrate.Demo.{
  deposit, destination, dispatched, send, after_burn, transfer, get_request, get_from,
  dispatch_to_evm, dispatch_times, transfer_post, evm_post,
}
use ismp_substrate.Demo.Callbacks.{Answer, received, mint_payload, on_response}

module _ {Ledger : Type 0} (r : Runtime) (o : Outer Ledger) where
  -- what a run of a call that succeeds leaves
  final :
      (d d' : Chain Ledger)
      → ◌≡◌ {A = Option (Result CallError Unit × Chain Ledger)} (some (ok tt, d)) (some (ok tt, d'))
      → d'.ledger ≡ d.ledger
  final d d' e = let same : d' ≡ d = cc in ap (λ (c : Chain Ledger). c.ledger) same

  dispatched_ledger :
      (e : DemoError) (done : Chain Ledger → Chain Ledger) (d d' : Chain Ledger)
      (run : Run (Result IsmpError Unit × State))
      → ((c : Chain Ledger) → (done c).ledger ≡ c.ledger)
      → dispatched r o e done d run ≡ some (ok tt, d')
      → d'.ledger ≡ d.ledger
  unfolding dispatched
  dispatched_ledger e done d d' none same eq = cc
  dispatched_ledger e done d d' (some (err x, s)) same eq = cc
  dispatched_ledger e done d d' (some (ok x, s)) same eq =
      final (done (record d { state = s })) d' eq ∙ same (record d { state = s })

  send_ledger :
      (origin : AccountId) (params : TransferParams) (dest : Option StateMachine)
      (d d' : Chain Ledger)
      → send r o origin params dest d ≡ some (ok tt, d')
      → d'.ledger ≡ d.ledger
  unfolding send deposit
  send_ledger origin params none d d' eq = cc
  send_ledger origin params (some dest) d d' eq =
      dispatched_ledger DemoError.transfer_failed
        (deposit (DemoEvent.balance_transferred origin params.to params.amount dest)) d d'
        (dispatch_request r (DispatchRequest.post (transfer_post r o origin params dest)) d.state)
        (λ c. refl) eq

  -- A transfer that succeeds has burnt its amount.
  after_burn_paid :
      (origin : AccountId) (params : TransferParams) (burnt : Result Bytes Unit × Ledger)
      (d d' : Chain Ledger)
      → after_burn r o origin params burnt d ≡ some (ok tt, d')
      → burnt ≡ (ok tt, d'.ledger)
  unfolding after_burn
  after_burn_paid origin params (err e, l) d d' eq = cc
  after_burn_paid origin params (ok tt, l) d d' eq =
      let same =
        send_ledger origin params (destination r.state_machine params.para_id)
          (record d { ledger = l }) d' eq in
      ap (λ m. (ok tt, m)) (sym same)

  pub transfer_paid :
      (origin : AccountId) (params : TransferParams) (d d' : Chain Ledger)
      → transfer r o (some origin) params d ≡ some (ok tt, d')
      → o.burn_from origin params.amount d.ledger ≡ (ok tt, d'.ledger)
  unfolding transfer
  transfer_paid origin params d d' eq =
      after_burn_paid origin params (o.burn_from origin params.amount d.ledger) d d' eq

  -- A message that is taken has minted what its payload says.
  received_paid :
      (p : Payload) (source : StateMachine) (minted : Result Bytes Unit × Ledger)
      (e e' : Chain Ledger)
      → received o p source minted e ≡ (ok tt, e')
      → minted ≡ (ok tt, e'.ledger)
  unfolding received deposit
  received_paid p source (err x, m) e e' eq = cc
  received_paid p source (ok tt, m) e e' eq =
      let same : e'.ledger ≡ m = ap (λ (a : Answer Ledger). a.1.ledger) (sym eq) in
      ap (λ l. (ok tt, l)) (sym same)

  pub mint_payload_paid :
      (who : Payload → AccountId) (source : StateMachine) (p : Payload) (e e' : Chain Ledger)
      → mint_payload o who source (some p) e ≡ (ok tt, e')
      → o.mint_into (who p) p.amount e.ledger ≡ (ok tt, e'.ledger)
  unfolding mint_payload
  mint_payload_paid who source p e e' eq =
      received_paid p source (o.mint_into (who p) p.amount e.ledger) e e' eq

  get_from_ledger :
      (params : GetRequest) (dest : Option StateMachine) (d d' : Chain Ledger)
      → get_from r o params dest d ≡ some (ok tt, d')
      → d'.ledger ≡ d.ledger
  unfolding get_from
  get_from_ledger params none d d' eq = cc
  get_from_ledger params (some dest) d d' eq =
      dispatched_ledger DemoError.get_dispatch_failed (λ d. d) d d' _ (λ c. refl) eq

  -- The other calls move no funds.
  pub get_request_ledger :
      (origin : Option AccountId) (params : GetRequest) (d d' : Chain Ledger)
      → get_request r o origin params d ≡ some (ok tt, d')
      → d'.ledger ≡ d.ledger
  unfolding get_request
  get_request_ledger none params d d' eq = cc
  get_request_ledger (some origin) params d d' eq =
      get_from_ledger params (destination r.state_machine params.para_id) d d' eq

  dispatch_times_ledger :
      (n : ℕ) (post : DispatchPost) (d d' : Chain Ledger)
      → dispatch_times r o n post d ≡ some (ok tt, d')
      → d'.ledger ≡ d.ledger
  unfolding dispatch_times
  dispatch_times_ledger zero post d d' eq = final d d' eq
  dispatch_times_ledger (suc n) post d d' eq =
      elim (Option-cases (dispatch_request r (DispatchRequest.post post) d.state)) [
        | inl stuck ↦ absurd (ground (arith, stuck, eq))
        | inr ((err e, s), runs) ↦ absurd (ground (arith, runs, eq))
        | inr ((ok u, s), runs) ↦
            dispatch_times_ledger n post (record d { state = s }) d' (ground (arith, runs, eq))
      ]

  pub dispatch_to_evm_ledger :
      (origin : Option AccountId) (params : EvmParams) (d d' : Chain Ledger)
      → dispatch_to_evm r o origin params d ≡ some (ok tt, d')
      → d'.ledger ≡ d.ledger
  unfolding dispatch_to_evm
  dispatch_to_evm_ledger none params d d' eq = cc
  dispatch_to_evm_ledger (some origin) params d d' eq =
      dispatch_times_ledger params.count (evm_post r o params) d d' eq

  pub on_response_ledger :
      (res : Response) (d d' : Chain Ledger)
      → on_response o res d ≡ (ok tt, d')
      → d'.ledger ≡ d.ledger
  unfolding on_response deposit
  on_response_ledger (Response.post res) d d' eq = cc
  on_response_ledger (Response.get res) d d' eq = ap (λ (a : Answer Ledger). a.1.ledger) (sym eq)
