-- ===== src/Tests/Scale.antt =====
-- A `Codec` that decodes what it encodes, and a `Library` that reads requests as documented.
use ismp_substrate.Base.{
  ℕ, ◌≡◌, refl, ap, sym, ◌∙◌, Bool, true, false, Option, none, some, [], ◌∷◌, Result, ok, err,
  arith,
}
use ismp_substrate.Ismp.{
  Bytes, StateMachine, Get, Request, Response, IsmpError, ResponseMessage, Proof,
}
use ismp_substrate.Ismp.Library.{Library, ReadsRequests}
use ismp_substrate.Pallet.{Codec, IsScale}
use ismp_substrate.Tests.Serial.{Serial, serial_nat, serial_pair, serial_bytes}
use ismp_substrate.Tests.Wire.{serial_chain, serial_request, serial_response, serial_node}

-- what is read first, without the rest
abbrev pub decode_with : {A : Type 0} → Serial A → Bytes → Option A
decode_with a bytes = elim (a.take bytes) [ none ↦ none | some (x, rest) ↦ some x ]

pub decode_with-put : {A : Type 0} (a : Serial A) (x : A) → decode_with a (a.put x []) ≡ some x
decode_with-put a x = ground (arith, a.back x [])

put-injective :
    {A : Type 0} (a : Serial A) (x y : A) (u v : Bytes) → a.put x u ≡ a.put y v → (x ≡ y) × (u ≡ v)
put-injective a x y u v e = let same = sym (a.back x u) ∙ ap a.take e ∙ a.back y v in (cc, cc)

abbrev pub put_label : Bytes → Bytes → Bytes → Bytes
put_label p l rest = serial_bytes.put p (serial_bytes.put l rest)

abbrev pub Index : Type 0
Index = StateMachine × (StateMachine × ℕ)

abbrev pub serial_index : Serial Index
serial_index = serial_pair serial_chain (serial_pair serial_chain serial_nat)

abbrev pub codec : Codec
codec = record {
  encode_node_key = λ p l n. put_label p l (n ∷ []);
  encode_index_key =
      λ p l source dest nonce. put_label p l (serial_index.put (source, (dest, nonce)) []);
  encode_leaf_index = λ n. n ∷ [];
  decode_leaf_index = decode_with serial_nat;
  encode_node = λ x. serial_node.put x [];
  decode_node = decode_with serial_node;
  encode_hash = λ h. h;
}

label-injective :
    (p l l' : Bytes) (u v : Bytes) → put_label p l u ≡ put_label p l' v → (l ≡ l') × (u ≡ v)
label-injective p l l' u v e =
    put-injective serial_bytes l l' u v
      (put-injective serial_bytes p p (serial_bytes.put l u) (serial_bytes.put l' v) e).1

pub codec-IsScale : IsScale codec
codec-IsScale = record {
  leaf_index_back = λ n small. refl;
  node_back = decode_with-put serial_node;
  node_key_injective = λ p l n m e.
      (put-injective serial_nat n m [] [] (label-injective p l l (n ∷ []) (m ∷ []) e).1).0;
  index_key_injective = λ p l l' s d s' d' n n' e.
      let (label, body) = label-injective p l l' _ _ e in
      let same = (put-injective serial_index (s, (d, n)) (s', (d', n')) [] [] body).0 in
      (
        label,
        ap (λ (i : Index). i.0) same,
        ap (λ (i : Index). i.1.0) same,
        ap (λ (i : Index). i.1.1) same,
      );
  keys_apart = λ p l l' s d n m differ e. differ (label-injective p l l' _ _ e).0;
  hash_raw = λ h. refl;
}

abbrev pub source_of : Request → StateMachine
source_of (Request.post p) = p.source
source_of (Request.get g) = g.source

abbrev pub dest_of : Request → StateMachine
dest_of (Request.post p) = p.dest
dest_of (Request.get g) = g.dest

abbrev pub nonce_of : Request → ℕ
nonce_of (Request.post p) = p.nonce
nonce_of (Request.get g) = g.nonce

abbrev pub is_get : Request → Bool
is_get (Request.post p) = false
is_get (Request.get g) = true

abbrev pub as_get : Request → Result IsmpError Get
as_get (Request.post p) = err IsmpError.cannot_handle_message
as_get (Request.get g) = ok g

abbrev pub request_of : Response → Request
request_of (Response.post res) = Request.post res.post
request_of (Response.get res) = Request.get res.get

abbrev pub proof_of : ResponseMessage → Proof
proof_of (ResponseMessage.post responses proof) = proof
proof_of (ResponseMessage.get requests proof) = proof

abbrev pub library : Library
library = record {
  source_chain = source_of;
  dest_chain = dest_of;
  nonce = nonce_of;
  is_type_get = is_get;
  get_request = as_get;
  response_source_chain = λ res. dest_of (request_of res);
  response_dest_chain = λ res. source_of (request_of res);
  response_nonce = λ res. nonce_of (request_of res);
  request = request_of;
  response_proof = proof_of;
  hash_request = λ keccak q. keccak (serial_request.put q []);
  hash_response = λ keccak res. keccak (serial_response.put res []);
}

pub library-ReadsRequests : ReadsRequests library
library-ReadsRequests = record {
  source_post = λ p. refl;
  source_get = λ g. refl;
  dest_post = λ p. refl;
  dest_get = λ g. refl;
  nonce_post = λ p. refl;
  nonce_get = λ g. refl;
  type_post = λ p. refl;
  type_get = λ g. refl;
  request_get = λ g. refl;
}
