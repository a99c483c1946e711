-- ===== src/Demo/Transfers.antt =====
-- A transfer, from the burn on one chain to the mint on another, or back after a timeout.
use ismp_substrate.Base.{
  ℕ, ◌+◌, ◌*◌, ◌<◌, ◌≤◌, ◌≡◌, ◌≢◌, ◌∙◌, refl, false, some, ok, u64_mod, wrap64, arith,
}
use ismp_substrate.StorageMap
use ismp_substrate.Ismp.{Bytes, bytes_key, StateMachine, Post, Request, DispatchRequest}
use ismp_substrate.Primitives.ModuleId.{to_bytes}
use ismp_substrate.Pallet.{State, Runtime}
use ismp_substrate.Mmr.Storage.Invariant.{HoldsPeaks}
use ismp_substrate.Mmr.Push.{AppendsLeaf}
use ismp_substrate.Handlers.{request_hash}
use ismp_substrate.Handlers.Dispatcher.{outgoing, dispatch_request}
use ismp_substrate.Handlers.Outgoing.{dispatch_request_once}
use ismp_substrate.Demo.Data.{
  AccountId, pallet_id, Payload, TransferParams, DemoEvent, Outer, MovesFunds, Chain,
}
use ismp_substrate.Demo.{
  deposit, destination, dispatched, payload_of, transfer_post, send, after_burn, transfer,
}
use ismp_substrate.Demo.Callbacks.{received, mint_payload, accept_from, on_accept, on_timeout}

module _ {Ledger : Type 0} (o : Outer Ledger) where
  -- A parachain's message is taken for a transfer.
  pub accept_from_parachain :
      (host dest : StateMachine) (para_id : ℕ) (body : Bytes) (e : Chain Ledger)
      → destination host para_id ≡ some dest
      → accept_from o host body e ≡ mint_payload o (λ p. p.to) host (o.decode_payload body) e
  unfolding accept_from destination
  accept_from_parachain (StateMachine.kusama n) dest para_id body e to = refl
  accept_from_parachain (StateMachine.polkadot n) dest para_id body e to = refl
  accept_from_parachain (StateMachine.ethereum n) dest para_id body e to = cc
  accept_from_parachain (StateMachine.other n) dest para_id body e to = cc

  -- the chain after a successful mint
  abbrev pub after_mint : Payload → StateMachine → Ledger → Chain Ledger → Chain Ledger
  after_mint p source m e =
      deposit (DemoEvent.balance_received p.from p.to p.amount source) (record e { ledger = m })

  mint_payload_lem :
      (moves : MovesFunds o) (who : Payload → AccountId) (source : StateMachine) (p : Payload)
      (e : Chain Ledger) (m : Ledger)
      → o.mint_into (who p) p.amount e.ledger ≡ (ok tt, m)
      → mint_payload o who source (o.decode_payload (o.encode_payload p)) e
        ≡ (ok tt, after_mint p source m e)
  unfolding mint_payload received
  mint_payload_lem moves who source p e m minted = ground (arith, moves.payload_back p)

module _ {Ledger : Type 0} (r : Runtime) (lib : AppendsLeaf r.mmr_lib) (o : Outer Ledger)
    (moves : MovesFunds o) (origin : AccountId) (params : TransferParams) (dest : StateMachine)
    (d : Chain Ledger) where
  -- the request of the transfer
  abbrev pub sent : Post
  sent = record {
    source = r.state_machine;
    dest = dest;
    nonce = d.state.nonce;
    from = to_bytes pallet_id;
    to = to_bytes pallet_id;
    timeout_timestamp = params.timeout;
    body = o.encode_payload (payload_of r o origin params);
    gas_limit = 0;
  }

  transfer_dispatches :
      HoldsPeaks d.state
      → 2 * (d.state.number_of_leaves + 1) < u64_mod
      → StorageMap.contains_key d.state.request_commitments (request_hash r (Request.post sent))
        ≡ false
      → (s' : State) × (dispatch_request r
            (DispatchRequest.post (transfer_post r o origin params dest))
            d.state
          ≡ some (ok tt, s'))
        × HoldsPeaks s'
  unfolding dispatch_request outgoing
  transfer_dispatches h small new =
      let (s', run, kept, _, _, _, _, _) =
        dispatch_request_once r lib (record d.state { nonce = wrap64 (d.state.nonce + 1) })
          (record { bounded = h.bounded; held = h.held }) small (Request.post sent) new in
      (s', run, kept)

  -- the chain after the burn and the dispatch
  abbrev pub after_transfer : Ledger → State → Chain Ledger
  after_transfer l s' =
      deposit (DemoEvent.balance_transferred origin params.to params.amount dest)
        (record d { ledger = l; state = s' })

  transfer_sends :
      (l : Ledger) (s' : State)
      → destination r.state_machine params.para_id ≡ some dest
      → o.burn_from origin params.amount d.ledger ≡ (ok tt, l)
      → dispatch_request r (DispatchRequest.post (transfer_post r o origin params dest)) d.state
        ≡ some (ok tt, s')
      → transfer r o (some origin) params d ≡ some (ok tt, after_transfer l s')
  unfolding transfer after_burn send dispatched
  transfer_sends l s' to burnt sends = ground arith

  pub transfer-on_accept :
      (l : Ledger) (e : Chain Ledger) (m : Ledger)
      → HoldsPeaks d.state
      → 2 * (d.state.number_of_leaves + 1) < u64_mod
      → StorageMap.contains_key d.state.request_commitments (request_hash r (Request.post sent))
        ≡ false
      → destination r.state_machine params.para_id ≡ some dest
      → o.burn_from origin params.amount d.ledger ≡ (ok tt, l)
      → o.mint_into params.to params.amount e.ledger ≡ (ok tt, m)
      → (d' : Chain Ledger) × (e' : Chain Ledger) × (transfer r o (some origin) params d
          ≡ some (ok tt, d'))
        × HoldsPeaks d'.state
        × (on_accept o sent e ≡ (ok tt, e'))
        × (o.balance e'.ledger params.to ≡ o.balance e.ledger params.to + params.amount)
        × ((k : AccountId) → k ≢ params.to → o.balance e'.ledger k ≡ o.balance e.ledger k)
        × (o.balance d'.ledger origin + o.balance e'.ledger params.to
            ≤ o.balance d.ledger origin + o.balance e.ledger params.to)
        × (o.balance d.ledger origin + o.balance e.ledger params.to
            ≤ o.balance d'.ledger origin + o.balance e'.ledger params.to + o.minimum_balance)
  unfolding on_accept deposit
  transfer-on_accept l e m h small new to burnt minted =
      let (s', sends, kept) = transfer_dispatches h small new in
      let (least, most) = moves.burned origin params.amount d.ledger l burnt in
      let (paid, others) = moves.minted params.to params.amount e.ledger m minted in
      (
        after_transfer l s',
        after_mint o (payload_of r o origin params) r.state_machine m e,
        transfer_sends l s' to burnt sends,
        record { bounded = kept.bounded; held = kept.held },
        accept_from_parachain o r.state_machine dest params.para_id sent.body e to
            ∙ mint_payload_lem o moves (λ p. p.to) r.state_machine (payload_of r o origin params) e
                m minted,
        paid,
        others,
        omega (arith, least, paid),
        omega (arith, most, paid),
      )

  -- Over libraries and a currency that behave as documented: when the request of a transfer by an
  -- account that can pay, from a parachain that holds exactly its peaks, while twice one more leaf
  -- is below 2^64 and its request is new, times out, and the sender can be paid, the timeout is
  -- taken: the sender gets exactly the amount back, every other account keeps what it had after the
  -- transfer, and the sender has no more than before the transfer, and at most the minimum balance
  -- less.
  pub transfer-on_timeout :
      (l m : Ledger)
      → HoldsPeaks d.state
      → 2 * (d.state.number_of_leaves + 1) < u64_mod
      → StorageMap.contains_key d.state.request_commitments (request_hash r (Request.post sent))
        ≡ false
      → destination r.state_machine params.para_id ≡ some dest
      → o.burn_from origin params.amount d.ledger ≡ (ok tt, l)
      → o.mint_into origin params.amount l ≡ (ok tt, m)
      → (d' : Chain Ledger) × (d'' : Chain Ledger) × (transfer r o (some origin) params d
          ≡ some (ok tt, d'))
        × (on_timeout o r (Request.post sent) d' ≡ (ok tt, d''))
        × (o.balance d''.ledger origin ≡ o.balance d'.ledger origin + params.amount)
        × ((k : AccountId) → k ≢ origin → o.balance d''.ledger k ≡ o.balance d'.ledger k)
        × (o.balance d''.ledger origin ≤ o.balance d.ledger origin)
        × (o.balance d.ledger origin ≤ o.balance d''.ledger origin + o.minimum_balance)
  unfolding on_timeout deposit
  transfer-on_timeout l m h small new to burnt minted =
      let (s', sends, kept) = transfer_dispatches h small new in
      let (least, most) = moves.burned origin params.amount d.ledger l burnt in
      let (paid, others) = moves.minted origin params.amount l m minted in
      (
        after_transfer l s',
        after_mint o (payload_of r o origin params) (r.ismp.source_chain (Request.post sent)) m
            (after_transfer l s'),
        transfer_sends l s' to burnt sends,
        mint_payload_lem o moves (λ p. p.from) (r.ismp.source_chain (Request.post sent))
            (payload_of r o origin params) (after_transfer l s') m minted,
        paid,
        others,
        omega (arith, least, paid),
        omega (arith, most, paid),
      )
