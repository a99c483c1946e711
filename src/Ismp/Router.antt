-- ===== src/Ismp/Router.antt =====
-- `ismp::host` and `ismp::router`: state machines, requests, responses and what a module
-- dispatches.
use ismp_substrate.Base.{ℕ, List, Option, ℕ_discrete}
use ismp_substrate.Ismp.Data.{Bytes}

-- The variants that the source names; `other` stands for every further one.
pub data StateMachine : Type 0 where
  ethereum : ℕ → StateMachine
  polkadot : ℕ → StateMachine
  kusama : ℕ → StateMachine
  other : ℕ → StateMachine

unfoldable pub StateMachine-discrete : Discrete StateMachine
StateMachine-discrete = hlevel ℕ_discrete

pub record Post : Type 0 where
  pub source : StateMachine
  pub dest : StateMachine
  pub nonce : ℕ
  pub from : Bytes
  pub to : Bytes
  pub timeout_timestamp : ℕ
  pub body : Bytes
  pub gas_limit : ℕ

pub record Get : Type 0 where
  pub source : StateMachine
  pub dest : StateMachine
  pub nonce : ℕ
  pub from : Bytes
  pub keys : List Bytes
  pub height : ℕ
  pub timeout_timestamp : ℕ
  pub gas_limit : ℕ

pub data Request : Type 0 where
  post : Post → Request
  get : Get → Request

-- the request answered and the response to it
pub record PostResponse : Type 0 where
  pub post : Post
  pub response : Bytes

pub record GetResponse : Type 0 where
  pub get : Get
  pub values : List (Bytes × Option Bytes)

pub data Response : Type 0 where
  post : PostResponse → Response
  get : GetResponse → Response

pub record DispatchPost : Type 0 where
  pub dest : StateMachine
  pub from : Bytes
  pub to : Bytes
  pub timeout_timestamp : ℕ
  pub body : Bytes
  pub gas_limit : ℕ

pub record DispatchGet : Type 0 where
  pub dest : StateMachine
  pub from : Bytes
  pub keys : List Bytes
  pub height : ℕ
  pub timeout_timestamp : ℕ
  pub gas_limit : ℕ

pub data DispatchRequest : Type 0 where
  post : DispatchPost → DispatchRequest
  get : DispatchGet → DispatchRequest
