-- ===== src/Ismp/Library.antt =====
-- The functions of the `ismp` crate that the pallet calls and that stand outside the repository.
use ismp_substrate.Base.{ℕ, ◌≡◌, Bool, true, false, Result, ok}
use ismp_substrate.Ismp.Data.{Bytes, H256}
use ismp_substrate.Ismp.Router.{StateMachine, Post, Get, Request, Response}
use ismp_substrate.Ismp.Messages.{Proof, ResponseMessage}
use ismp_substrate.Ismp.Error.{IsmpError}

pub record Library : Type 0 where
  -- methods of `Request`
  pub source_chain : Request → StateMachine
  pub dest_chain : Request → StateMachine
  pub nonce : Request → ℕ
  pub is_type_get : Request → Bool
  pub get_request : Request → Result IsmpError Get
  -- methods of `Response`
  pub response_source_chain : Response → StateMachine
  pub response_dest_chain : Response → StateMachine
  pub response_nonce : Response → ℕ
  pub request : Response → Request
  -- `ResponseMessage::proof`
  pub response_proof : ResponseMessage → Proof
  -- `util::hash_request` and `util::hash_response`, for a `Keccak256` implementation
  pub hash_request : (Bytes → H256) → Request → H256
  pub hash_response : (Bytes → H256) → Response → H256

-- What the accessors of a request are documented to read.
pub record ReadsRequests (l : Library) : Type 0 where
  pub source_post : (p : Post) → l.source_chain (Request.post p) ≡ p.source
  pub source_get : (g : Get) → l.source_chain (Request.get g) ≡ g.source
  pub dest_post : (p : Post) → l.dest_chain (Request.post p) ≡ p.dest
  pub dest_get : (g : Get) → l.dest_chain (Request.get g) ≡ g.dest
  pub nonce_post : (p : Post) → l.nonce (Request.post p) ≡ p.nonce
  pub nonce_get : (g : Get) → l.nonce (Request.get g) ≡ g.nonce
  pub type_post : (p : Post) → l.is_type_get (Request.post p) ≡ false
  pub type_get : (g : Get) → l.is_type_get (Request.get g) ≡ true
  pub request_get : (g : Get) → l.get_request (Request.get g) ≡ ok g
