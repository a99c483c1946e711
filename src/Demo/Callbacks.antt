-- ===== src/Demo/Callbacks.antt =====
-- `IsmpModule for IsmpModuleCallback<T>` of ismp-demo/src/lib.rs.
use ismp_substrate.Base.{Option, none, some, ◌++◌, map, Result, ok, err}
use ismp_substrate.Ismp.{Bytes, text, StateMachine, Post, Request, Response, IsmpError}
use ismp_substrate.Pallet.{Runtime}
use ismp_substrate.Demo.{deposit}
use ismp_substrate.Demo.Data.{AccountId, Payload, DemoEvent, Outer, Chain}

abbrev pub Answer : Type 0 → Type 0
Answer Ledger = Result IsmpError Unit × Chain Ledger

abbrev refuse : {Ledger : Type 0} → Bytes → Chain Ledger → Answer Ledger
refuse message d = (err (IsmpError.implementation_specific message), d)

module _ {Ledger : Type 0} (o : Outer Ledger) where
  -- the answer of a mint, and the event
  unfoldable pub received :
      Payload → StateMachine → Result Bytes Unit × Ledger → Chain Ledger → Answer Ledger
  unfolding deposit
  received p source (err _, l) d = refuse (text "Failed to mint funds") (record d { ledger = l })
  received p source (ok _, l) d = (
    ok tt,
    deposit (DemoEvent.balance_received p.from p.to p.amount source) (record d { ledger = l }),
  )

  -- the mint to one of the two accounts of a decoded payload
  unfoldable pub mint_payload :
      (Payload → AccountId) → StateMachine → Option Payload → Chain Ledger → Answer Ledger
  unfolding received
  mint_payload who source none d = refuse (text "Failed to decode request data") d
  mint_payload who source (some p) d = received p source (o.mint_into (who p) p.amount d.ledger) d

  unfoldable pub accept_from : StateMachine → Bytes → Chain Ledger → Answer Ledger
  unfolding deposit mint_payload
  accept_from (StateMachine.ethereum n) body d =
      (ok tt, deposit (DemoEvent.request (StateMachine.ethereum n) body) d)
  accept_from (StateMachine.polkadot n) body d =
      mint_payload (λ p. p.to) (StateMachine.polkadot n) (o.decode_payload body) d
  accept_from (StateMachine.kusama n) body d =
      mint_payload (λ p. p.to) (StateMachine.kusama n) (o.decode_payload body) d
  accept_from (StateMachine.other n) body d =
      refuse (text "Unsupported source " ++ o.debug_chain (StateMachine.other n)) d

  -- `on_accept`
  unfoldable pub on_accept : Post → Chain Ledger → Answer Ledger
  unfolding accept_from
  on_accept request d = accept_from request.source request.body d

  -- `on_response`; the values come in the order of their keys.
  unfoldable pub on_response : Response → Chain Ledger → Answer Ledger
  unfolding deposit
  on_response (Response.post res) d =
      refuse (text "Balance transfer protocol does not accept post responses") d
  on_response (Response.get res) d = (
    ok tt,
    deposit (DemoEvent.get_response (map (λ (entry : Bytes × Option Bytes). entry.1) res.values)) d,
  )

  -- `on_timeout`
  unfoldable pub on_timeout : Runtime → Request → Chain Ledger → Answer Ledger
  unfolding mint_payload
  on_timeout r (Request.post post) d =
      mint_payload (λ p. p.from) (r.ismp.source_chain (Request.post post))
        (o.decode_payload post.body) d
  on_timeout r (Request.get get) d = refuse (text "Only Post requests allowed, found Get") d
