-- ===== src/Tests/Chain.antt =====
-- A runtime over the concrete libraries, its genesis, and messages.
use ismp_substrate.Base.{refl, [], ◌∷◌, length, replicate, arith}
use ismp_substrate.StorageMap
use ismp_substrate.Ismp.{text, bytes_key, StateMachine, Post, Get, Request, Response}
use ismp_substrate.Primitives.Digest.{zero_hash}
use ismp_substrate.Pallet.{State, Runtime}
use ismp_substrate.Mmr.Mountains.{range}
use ismp_substrate.Mmr.Storage.Invariant.{HoldsPeaks}
use ismp_substrate.Handlers.{request_hash, query_of}
use ismp_substrate.Tests.Scale.{codec, library}
use ismp_substrate.Tests.Ranges.{mmr_lib}

abbrev pub runtime : Runtime
runtime = record {
  indexing_prefix = text "ISMP";
  state_machine = StateMachine.kusama 2000;
  keccak_256 = λ bytes. replicate 32 (length bytes);
  ismp = library;
  codec = codec;
  mmr_lib = mmr_lib;
}

abbrev pub genesis : State
genesis = record {
  root_hash = zero_hash;
  number_of_leaves = 0;
  nodes = [];
  state_commitments = [];
  consensus_states = [];
  frozen_heights = [];
  latest_messaging_height = [];
  consensus_state_client = [];
  unbonding_period = [];
  challenge_period = [];
  frozen_consensus_clients = [];
  latest_state_machine_height = [];
  allowed_proxies = [];
  consensus_client_update_time = [];
  state_machine_update_time = [];
  request_commitments = [];
  response_commitments = [];
  request_receipts = [];
  response_receipts = [];
  consensus_update_results = [];
  nonce = 0;
  weight_consumed = record {
    weight_used = record { ref_time = 0; proof_size = 0 };
    weight_limit = record { ref_time = 0; proof_size = 0 };
  };
  events = [];
  logs = [];
  offchain = [];
}

pub genesis-HoldsPeaks : HoldsPeaks genesis
unfolding StorageMap.contains_key range StorageMap.get
genesis-HoldsPeaks = record { bounded = omega arith; held = λ p. refl }

abbrev pub ping : Post
ping = record {
  source = StateMachine.kusama 2000;
  dest = StateMachine.polkadot 1000;
  nonce = 0;
  from = text "ismp-dmo";
  to = text "ismp-dmo";
  timeout_timestamp = 60;
  body = text "ping";
  gas_limit = 0;
}

abbrev pub ping_request : Request
ping_request = Request.post ping

abbrev pub lookup : Get
lookup = record {
  source = StateMachine.kusama 2000;
  dest = StateMachine.ethereum 1;
  nonce = 1;
  from = text "ismp-dmo";
  keys = text "key" ∷ [];
  height = 7;
  timeout_timestamp = 60;
  gas_limit = 0;
}

abbrev pub pong : Response
pong = Response.post (record { post = ping; response = text "pong" })

-- the genesis with the commitment of the request that `pong` answers
abbrev pub asked : State
asked = record genesis {
  request_commitments =
      StorageMap.insert [] (request_hash runtime ping_request) (query_of runtime ping_request);
}

pub asked-HoldsPeaks : HoldsPeaks asked
unfolding StorageMap.contains_key range StorageMap.get
asked-HoldsPeaks = record { bounded = omega arith; held = λ p. refl }
