-- ===== src/Tests/Steps.antt =====
-- The reachable states at a short run.
use ismp_substrate.Base.{◌≡◌, refl, some, ok, arith}
use ismp_substrate.Pallet.{State}
use ismp_substrate.Mmr.Storage.Invariant.{HoldsPeaks}
use ismp_substrate.StorageMap
use ismp_substrate.StorageMap.{nat_key}
use ismp_substrate.Ismp.{DispatchRequest}
use ismp_substrate.Handlers.Dispatcher.{dispatch_request, outgoing}
use ismp_substrate.Handlers.Outgoing.{after_request, dispatch_request_new}
use ismp_substrate.Tests.Ranges.{mmr_lib-AppendsLeaf}
use ismp_substrate.Tests.Chain.{runtime, genesis, genesis-HoldsPeaks, ping, ping_request}

-- the genesis after the first nonce is taken
abbrev pub numbered : State
numbered = record genesis { nonce = 1 }

pub numbered-HoldsPeaks : HoldsPeaks numbered
numbered-HoldsPeaks = record {
  bounded = genesis-HoldsPeaks.bounded;
  held = genesis-HoldsPeaks.held;
}

abbrev pub first_ping : DispatchRequest
first_ping = DispatchRequest.post (record {
  dest = ping.dest;
  from = ping.from;
  to = ping.to;
  timeout_timestamp = ping.timeout_timestamp;
  body = ping.body;
  gas_limit = ping.gas_limit;
})

abbrev pub sent_ping : State
sent_ping =
    after_request runtime mmr_lib-AppendsLeaf numbered numbered-HoldsPeaks (omega arith)
      ping_request

pub ping_runs : dispatch_request runtime first_ping genesis ≡ some (ok tt, sent_ping)
unfolding dispatch_request outgoing StorageMap.contains_key StorageMap.get
ping_runs =
    dispatch_request_new runtime mmr_lib-AppendsLeaf numbered numbered-HoldsPeaks (omega arith)
      ping_request refl
