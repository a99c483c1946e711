-- ===== src/Tests/Logs.antt =====
-- The theorems on the log of leaves, at the log of one request.
use ismp_substrate.Base.{
  ok, ◌≡◌, ◌⊎◌, refl, sym, ◌∙◌, some, if◌then◌else◌, ◌==◌, [], ◌∷◌, ◌++◌, map, length, arith,
}
use ismp_substrate.Ismp.{text, bytes_key, Request}
use ismp_substrate.Primitives.Leaves.{Leaf, hash, leaf_hash}
use ismp_substrate.Primitives.Digest.{
  DigestItem, ismp_id, zero_hash, fetch_overlay_root_and_timestamp,
}
use ismp_substrate.Pallet.{State}
use ismp_substrate.Mmr.Mountains.{range}
use ismp_substrate.Mmr.Trees.{HoldsTrees}
use ismp_substrate.Mmr.Root.{log_root}
use ismp_substrate.Mmr.Inputs.{HashedFor, Collision}
use ismp_substrate.Mmr.Binding.{Has32Bytes, hash_of_leaf}
use ismp_substrate.Leaves.{mmr_push}
use ismp_substrate.Leaves.Log.{Represents, Represents-same, mmr_push-Represents}
use ismp_substrate.Handlers.Log.{after_request-Represents}
use ismp_substrate.Handlers.Outgoing.{after_request}
use ismp_substrate.Hooks.{on_finalize, mmr_root}
use ismp_substrate.Hooks.Log.{on_finalize-log_root}
use ismp_substrate.Hooks.Binding.{on_finalize-binding}
use ismp_substrate.Hooks.Fetched.{fetch_overlay_root_and_timestamp-log_root}
use ismp_substrate.Tests.Services.{aura, grown, aura_read}
use ismp_substrate.Tests.Scale.{codec-IsScale}
use ismp_substrate.Tests.Ranges.{mmr_lib-AppendsLeaf, mmr_lib-BagsPeaks}
use ismp_substrate.Tests.Chain.{runtime, genesis, genesis-HoldsPeaks, ping, ping_request}

pub genesis-Represents : Represents runtime genesis []
unfolding range
genesis-Represents = record {
  peaks = genesis-HoldsPeaks;
  counted = refl;
  trees = HoldsTrees.nothing;
  archive = tt;
}

ping_pushed :
    (s : State) × (mmr_push runtime (Leaf.request ping_request) genesis
      ≡ some (some (range 0).nodes, s))
    × Represents runtime s (Leaf.request ping_request ∷ [])
ping_pushed =
    mmr_push-Represents runtime mmr_lib-AppendsLeaf codec-IsScale (Leaf.request ping_request)
      genesis [] genesis-Represents (omega arith)

-- the state after a request
abbrev pinged : State
pinged =
    after_request runtime mmr_lib-AppendsLeaf genesis genesis-HoldsPeaks (omega arith) ping_request

pinged-Represents : Represents runtime pinged (Leaf.request ping_request ∷ [])
pinged-Represents =
    after_request-Represents runtime mmr_lib-AppendsLeaf codec-IsScale ping_request genesis []
      genesis-Represents (omega arith)

ping_root :
    ((on_finalize runtime pinged).logs
      ≡ pinged.logs
        ++ DigestItem.consensus ismp_id
            (runtime.codec.encode_hash (log_root runtime (Leaf.request ping_request ∷ [])))
          ∷ [])
    × (mmr_root (on_finalize runtime pinged)
        ≡ (if 1 == 0 then mmr_root pinged else log_root runtime (Leaf.request ping_request ∷ [])))
ping_root =
    on_finalize-log_root runtime mmr_lib-BagsPeaks pinged (Leaf.request ping_request ∷ [])
      pinged-Represents

length-hash_of_leaf : (leaf : Leaf) → length (hash_of_leaf runtime leaf) ≡ 32
unfolding hash leaf_hash
length-hash_of_leaf (Leaf.request req) = refl
length-hash_of_leaf (Leaf.response res) = refl

runtime-Has32Bytes : Has32Bytes runtime
runtime-Has32Bytes = record { of_keccak = λ x. refl; of_leaf = length-hash_of_leaf }

-- in a block with a slot in its digest
abbrev pinged_in_slot : State
pinged_in_slot = record pinged { logs = grown.logs }

pinged_in_slot-Represents : Represents runtime pinged_in_slot (Leaf.request ping_request ∷ [])
pinged_in_slot-Represents =
    Represents-same runtime pinged pinged_in_slot (Leaf.request ping_request ∷ []) refl refl refl
      pinged-Represents

ping_root_read :
    fetch_overlay_root_and_timestamp aura 12000 (on_finalize runtime pinged_in_slot).logs
    ≡ ok (60, log_root runtime (Leaf.request ping_request ∷ []))
ping_root_read =
    fetch_overlay_root_and_timestamp-log_root runtime codec-IsScale mmr_lib-BagsPeaks
      runtime-Has32Bytes aura 12000 pinged_in_slot (Leaf.request ping_request ∷ []) 60 zero_hash
      pinged_in_slot-Represents aura_read

-- a request whose encoding has the length of the other's
abbrev other_ping : Request
other_ping = Request.post (record ping { body = text "pang" })

-- the state after the other request
abbrev other_pinged : State
other_pinged =
    after_request runtime mmr_lib-AppendsLeaf genesis genesis-HoldsPeaks (omega arith) other_ping

other_pinged-Represents : Represents runtime other_pinged (Leaf.request other_ping ∷ [])
other_pinged-Represents =
    after_request-Represents runtime mmr_lib-AppendsLeaf codec-IsScale other_ping genesis []
      genesis-Represents (omega arith)

-- Both roots are the hash of one leaf.
stored_same : mmr_root (on_finalize runtime pinged) ≡ mmr_root (on_finalize runtime other_pinged)
unfolding hash leaf_hash
stored_same =
    (on_finalize-log_root runtime mmr_lib-BagsPeaks pinged (Leaf.request ping_request ∷ [])
      pinged-Represents).1
    ∙ sym (
        (on_finalize-log_root runtime mmr_lib-BagsPeaks other_pinged (Leaf.request other_ping ∷ [])
          other_pinged-Represents).1)

pings_bound :
    (map (hash_of_leaf runtime) (Leaf.request ping_request ∷ [])
      ≡ map (hash_of_leaf runtime) (Leaf.request other_ping ∷ []))
    ⊎ Collision runtime
        (HashedFor runtime (Leaf.request ping_request ∷ []))
        (HashedFor runtime (Leaf.request other_ping ∷ []))
pings_bound =
    on_finalize-binding runtime mmr_lib-BagsPeaks pinged other_pinged
      (Leaf.request ping_request ∷ []) (Leaf.request other_ping ∷ []) runtime-Has32Bytes
      pinged-Represents other_pinged-Represents (omega arith) refl stored_same
