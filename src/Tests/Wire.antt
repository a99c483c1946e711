-- ===== src/Tests/Wire.antt =====
-- The wire formats of the messages, and a `Codec` that decodes what it encodes.
use ismp_substrate.Base.{ℕ, zero, suc, ◌≡◌, refl, Option, none, some, List, ◌⊎◌, inl, inr}
use ismp_substrate.Ismp.{Bytes, H256, StateMachine, Post, Get, Request, Response}
use ismp_substrate.Primitives.Leaves.{Leaf, DataOrHash}
use ismp_substrate.Tests.Serial.{
  Serial, serial_nat, serial_pair, serial_sum, serial_list, serial_iso, serial_bytes,
}

abbrev pub to_chain : ℕ × ℕ → StateMachine
to_chain (zero, n) = StateMachine.ethereum n
to_chain (suc zero, n) = StateMachine.polkadot n
to_chain (suc (suc zero), n) = StateMachine.kusama n
to_chain (suc (suc (suc tag)), n) = StateMachine.other n

abbrev pub from_chain : StateMachine → ℕ × ℕ
from_chain (StateMachine.ethereum n) = (0, n)
from_chain (StateMachine.polkadot n) = (1, n)
from_chain (StateMachine.kusama n) = (2, n)
from_chain (StateMachine.other n) = (3, n)

pub to_chain-from_chain : (s : StateMachine) → to_chain (from_chain s) ≡ s
to_chain-from_chain (StateMachine.ethereum n) = refl
to_chain-from_chain (StateMachine.polkadot n) = refl
to_chain-from_chain (StateMachine.kusama n) = refl
to_chain-from_chain (StateMachine.other n) = refl

abbrev pub serial_chain : Serial StateMachine
serial_chain =
    serial_iso (serial_pair serial_nat serial_nat) to_chain from_chain to_chain-from_chain

-- source, dest, nonce and sender, which every request has first
abbrev pub Head : Type 0
Head = StateMachine × (StateMachine × (ℕ × Bytes))

abbrev pub serial_head : Serial Head
serial_head =
    serial_pair serial_chain (serial_pair serial_chain (serial_pair serial_nat serial_bytes))

abbrev pub PostParts : Type 0
PostParts = Head × (Bytes × (ℕ × (Bytes × ℕ)))

abbrev pub serial_post : Serial Post
serial_post =
    serial_iso {A = PostParts}
      (serial_pair serial_head
        (serial_pair serial_bytes (serial_pair serial_nat (serial_pair serial_bytes serial_nat))))
      (λ ((source, (dest, (nonce, from))), (to, (timeout_timestamp, (body, gas_limit)))). record {
        source = source;
        dest = dest;
        nonce = nonce;
        from = from;
        to = to;
        timeout_timestamp = timeout_timestamp;
        body = body;
        gas_limit = gas_limit;
      })
      (λ p. (
        (p.source, (p.dest, (p.nonce, p.from))),
        (p.to, (p.timeout_timestamp, (p.body, p.gas_limit))),
      ))
      (λ p. refl)

abbrev pub GetParts : Type 0
GetParts = Head × (List Bytes × (ℕ × (ℕ × ℕ)))

abbrev pub serial_get : Serial Get
serial_get =
    serial_iso {A = GetParts}
      (serial_pair serial_head (
        serial_pair (serial_list serial_bytes)
          (serial_pair serial_nat (serial_pair serial_nat serial_nat))))
      (λ ((source, (dest, (nonce, from))), (keys, (height, (timeout_timestamp, gas_limit)))).
        record {
          source = source;
          dest = dest;
          nonce = nonce;
          from = from;
          keys = keys;
          height = height;
          timeout_timestamp = timeout_timestamp;
          gas_limit = gas_limit;
        })
      (λ g. (
        (g.source, (g.dest, (g.nonce, g.from))),
        (g.keys, (g.height, (g.timeout_timestamp, g.gas_limit))),
      ))
      (λ g. refl)

abbrev pub to_request : Post ⊎ Get → Request
to_request (inl p) = Request.post p
to_request (inr g) = Request.get g

abbrev pub from_request : Request → Post ⊎ Get
from_request (Request.post p) = inl p
from_request (Request.get g) = inr g

pub to_request-from_request : (q : Request) → to_request (from_request q) ≡ q
to_request-from_request (Request.post p) = refl
to_request-from_request (Request.get g) = refl

abbrev pub serial_request : Serial Request
serial_request =
    serial_iso (serial_sum serial_post serial_get) to_request from_request to_request-from_request

abbrev pub to_bytes_option : ℕ ⊎ Bytes → Option Bytes
to_bytes_option (inl n) = none
to_bytes_option (inr b) = some b

abbrev pub from_bytes_option : Option Bytes → ℕ ⊎ Bytes
from_bytes_option none = inl 0
from_bytes_option (some b) = inr b

pub to_bytes_option-from : (o : Option Bytes) → to_bytes_option (from_bytes_option o) ≡ o
to_bytes_option-from none = refl
to_bytes_option-from (some b) = refl

abbrev pub serial_value : Serial (Bytes × Option Bytes)
serial_value = serial_pair serial_bytes (
    serial_iso (serial_sum serial_nat serial_bytes) to_bytes_option from_bytes_option
      to_bytes_option-from)

abbrev pub ResponseParts : Type 0
ResponseParts = (Post × Bytes) ⊎ (Get × List (Bytes × Option Bytes))

abbrev pub to_response : ResponseParts → Response
to_response (inl (p, body)) = Response.post (record { post = p; response = body })
to_response (inr (g, values)) = Response.get (record { get = g; values = values })

abbrev pub from_response : Response → ResponseParts
from_response (Response.post res) = inl (res.post, res.response)
from_response (Response.get res) = inr (res.get, res.values)

pub to_response-from_response : (res : Response) → to_response (from_response res) ≡ res
to_response-from_response (Response.post res) = refl
to_response-from_response (Response.get res) = refl

abbrev pub serial_response : Serial Response
serial_response =
    serial_iso
      (serial_sum (serial_pair serial_post serial_bytes)
        (serial_pair serial_get (serial_list serial_value)))
      to_response from_response to_response-from_response

abbrev pub NodeParts : Type 0
NodeParts = Request ⊎ (Response ⊎ H256)

abbrev pub to_node : NodeParts → DataOrHash
to_node (inl q) = DataOrHash.data_of (Leaf.request q)
to_node (inr (inl res)) = DataOrHash.data_of (Leaf.response res)
to_node (inr (inr h)) = DataOrHash.hash_of h

abbrev pub from_node : DataOrHash → NodeParts
from_node (DataOrHash.data_of (Leaf.request q)) = inl q
from_node (DataOrHash.data_of (Leaf.response res)) = inr (inl res)
from_node (DataOrHash.hash_of h) = inr (inr h)

pub to_node-from_node : (x : DataOrHash) → to_node (from_node x) ≡ x
to_node-from_node (DataOrHash.data_of (Leaf.request q)) = refl
to_node-from_node (DataOrHash.data_of (Leaf.response res)) = refl
to_node-from_node (DataOrHash.hash_of h) = refl

abbrev pub serial_node : Serial DataOrHash
serial_node =
    serial_iso (serial_sum serial_request (serial_sum serial_response serial_bytes)) to_node
      from_node to_node-from_node
