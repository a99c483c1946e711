-- ===== src/Tests/Services.antt =====
-- The theorems on the host, the hooks, the calls and the identifiers, over the concrete runtime.
use ismp_substrate.Base.{
  ℕ, ◌≡◌, ◌≢◌, refl, none, some, [], ◌∷◌, ok, length, replicate, ite, leb, arith, ℕ_discrete,
}
use ismp_substrate.StorageMap
use ismp_substrate.Ismp.{
  Bytes-discrete, text, bytes_key, StateMachine, IsmpError, state_machine_id_key,
}
use ismp_substrate.Primitives.Digest.{
  Aura, zero_hash, fetch_overlay_root_and_timestamp, DigestItem, fetch_loop, read_slot,
}
use ismp_substrate.Primitives.ModuleId.{
  ModuleId, to_bytes, from_bytes, IsWellSized, from_bytes-to_bytes, to_bytes-from_bytes,
}
use ismp_substrate.Pallet.{State, from_error, HandlingError}
use ismp_substrate.Pallet.Conversions.{from_error_never_request}
use ismp_substrate.Primitives.Leaves.{hash}
use ismp_substrate.Mmr.Mountains.{range}
use ismp_substrate.Mmr.Sizes.{size_of-range}
use ismp_substrate.Mmr.Storage.{runtime_get_elem, get_node}
use ismp_substrate.Mmr.Operations.{new, finalize}
use ismp_substrate.Host.{unbonding_period, challenge_period}
use ismp_substrate.Calls.{Outside, UpdateConsensusState, update_consensus_state}
use ismp_substrate.Calls.Origins.{set_or, update_consensus_state-read}
use ismp_substrate.Tests.Chain.{runtime, genesis}
use ismp_substrate.Tests.Batches.{handler}

abbrev evm_module : ModuleId
evm_module = ModuleId.evm (replicate 20 9)

evm_back : from_bytes (to_bytes evm_module) ≡ ok evm_module
evm_back = from_bytes-to_bytes evm_module refl

evm_bytes : (to_bytes evm_module ≡ replicate 20 9) × IsWellSized evm_module
unfolding from_bytes
evm_bytes = to_bytes-from_bytes (replicate 20 9) evm_module refl

never_request :
    from_error (
      IsmpError.request_verification_failed 3
        (StateMachine.kusama 2000)
        (StateMachine.polkadot 1000))
    ≢ HandlingError.request_verification_failed 3
        (StateMachine.kusama 2000)
        (StateMachine.polkadot 1000)
never_request =
    from_error_never_request
      (IsmpError.request_verification_failed 3 (StateMachine.kusama 2000)
        (StateMachine.polkadot 1000))
      3 (StateMachine.kusama 2000) (StateMachine.polkadot 1000)

abbrev pub aura : Aura
aura = record { aura_engine_id = text "aura"; decode_slot = λ bytes. ok (length bytes) }

-- a chain of one leaf, with the hash of its node
abbrev pub grown : State
grown = record genesis {
  number_of_leaves = 1;
  nodes = (0, replicate 32 7) ∷ [];
  logs = DigestItem.pre_runtime (text "aura") (replicate 5 0) ∷ [];
}

one_root : finalize runtime (new 1) grown ≡ ok (replicate 32 7)
unfolding finalize new runtime_get_elem get_node StorageMap.get range hash ℕ_discrete
one_root = rw (size_of-range 1 (omega arith)) refl

pub aura_read : fetch_overlay_root_and_timestamp aura 12000 grown.logs ≡ ok (60, zero_hash)
unfolding fetch_overlay_root_and_timestamp fetch_loop read_slot Bytes-discrete ℕ_discrete
aura_read = refl

-- origins: 0 is unsigned, 1 is signed, and 2 is the administrator
abbrev pub outside : Outside ℕ
outside = record {
  is_signed = λ n. leb 1 n;
  is_admin = λ n. leb 2 n;
  create_client = λ message s. (ok message.consensus_client_id, s);
  handle_incoming_message = handler;
}

abbrev pub periods : UpdateConsensusState
periods = record {
  consensus_state_id = text "PARA";
  unbonding_period = some 200;
  challenge_period = none;
}

periods_read :
    (update_consensus_state outside 2 periods genesis).0 ≡ ok tt
    × (unbonding_period (text "PARA") (update_consensus_state outside 2 periods genesis).1
        ≡ ite
            (bytes_key.dec (text "PARA") (text "PARA"))
            (set_or (some 200) (unbonding_period (text "PARA") genesis))
            (unbonding_period (text "PARA") genesis))
    × (challenge_period (text "PARA") (update_consensus_state outside 2 periods genesis).1
        ≡ ite
            (bytes_key.dec (text "PARA") (text "PARA"))
            (set_or none (challenge_period (text "PARA") genesis))
            (challenge_period (text "PARA") genesis))
periods_read = update_consensus_state-read outside 2 refl periods (text "PARA") genesis
