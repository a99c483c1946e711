-- ===== src/Demo/Data.antt =====
-- The data of ismp-demo/src/lib.rs, and what the module takes from the runtime.
use ismp_substrate.Base.{ℕ, ◌+◌, ◌≤◌, ◌≡◌, ◌≢◌, List, Option, some, Result, ok}
use ismp_substrate.Ismp.{Bytes, StateMachine, text}
use ismp_substrate.Pallet.{State}
use ismp_substrate.Primitives.ModuleId.{ModuleId}

abbrev pub AccountId : Type 0
AccountId = Bytes

-- `PALLET_ID`
abbrev pub pallet_id : ModuleId
pallet_id = ModuleId.pallet (text "ismp-ast")

-- Transfer payload, encoded to bytes as the request data
pub record Payload : Type 0 where
  pub to : AccountId
  pub from : AccountId
  pub amount : ℕ

-- The get request payload
pub record GetRequest : Type 0 where
  pub para_id : ℕ
  pub height : ℕ
  pub timeout : ℕ
  pub keys : List Bytes

-- Parameters for initializing a cross chain transfer
pub record TransferParams : Type 0 where
  pub to : AccountId
  pub amount : ℕ
  pub para_id : ℕ
  pub timeout : ℕ

-- Params for evm dispatch; `module` holds the 20 bytes of an `H160`.
pub record EvmParams : Type 0 where
  pub module_id : Bytes
  pub destination : ℕ
  pub timeout : ℕ
  pub count : ℕ

pub data DemoEvent : Type 0 where
  -- from, to, amount, destination chain
  balance_transferred : AccountId → AccountId → ℕ → StateMachine → DemoEvent
  -- from, to, amount, source chain
  balance_received : AccountId → AccountId → ℕ → StateMachine → DemoEvent
  request : StateMachine → Bytes → DemoEvent
  get_response : List (Option Bytes) → DemoEvent

pub data DemoError : Type 0 where
  transfer_failed get_dispatch_failed : DemoError

-- `DispatchError`, with the currency's own errors as their text
pub data CallError : Type 0 where
  bad_origin : CallError
  currency : Bytes → CallError
  other : Bytes → CallError
  module_error : DemoError → CallError

-- `NativeCurrency`, over a ledger of its own, with the SCALE form of a payload and `{:?}` of a
-- chain
pub record Outer (Ledger : Type 0) : Type 0 where
  pub balance : Ledger → AccountId → ℕ
  -- `burn_from`, with `Precision::Exact` and `Fortitude::Force`
  pub burn_from : AccountId → ℕ → Ledger → Result Bytes Unit × Ledger
  pub mint_into : AccountId → ℕ → Ledger → Result Bytes Unit × Ledger
  -- `minimum_balance`: what is left under it is dust.
  pub minimum_balance : ℕ
  pub encode_payload : Payload → Bytes
  pub decode_payload : Bytes → Option Payload
  pub debug_chain : StateMachine → Bytes

-- What FRAME documents of a burn with exact precision and of a mint, where they succeed, and SCALE
-- of a payload. A burn takes at least the amount, and with it what would be left under the minimum
-- balance; where that dust goes is the runtime's choice, so nothing is said of other accounts.
pub record MovesFunds {Ledger : Type 0} (o : Outer Ledger) : Type 0 where
  pub burned :
      (who : AccountId) (amount : ℕ) (l l' : Ledger)
      → o.burn_from who amount l ≡ (ok tt, l')
      → (o.balance l' who + amount ≤ o.balance l who)
        × (o.balance l who ≤ o.balance l' who + amount + o.minimum_balance)
  pub minted :
      (who : AccountId) (amount : ℕ) (l l' : Ledger)
      → o.mint_into who amount l ≡ (ok tt, l')
      → (o.balance l' who ≡ o.balance l who + amount)
        × ((k : AccountId) → k ≢ who → o.balance l' k ≡ o.balance l k)
  pub payload_back : (p : Payload) → o.decode_payload (o.encode_payload p) ≡ some p

-- The chain as the module sees it: the ISMP pallet, the currency, and the module's own events.
pub record Chain (Ledger : Type 0) : Type 0 where
  pub state : State
  pub ledger : Ledger
  pub events : List DemoEvent
