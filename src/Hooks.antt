-- ===== src/Hooks.antt =====
-- The hooks of pallet-ismp/src/lib.rs: the root of the range goes into storage and into the digest
-- of every block.
pub mod Root
pub mod Log
pub mod Binding
pub mod Fetched
use ismp_substrate.Base.{ℕ, ◌%◌, ◌^◌, Result, ok, err, List, [], ◌∷◌, ◌++◌, if◌then◌else◌, ◌==◌}
use ismp_substrate.Ismp.{H256}
use ismp_substrate.Primitives.{Weight, MmrError}
use ismp_substrate.Primitives.Digest.{DigestItem, ismp_id, zero_hash}
use ismp_substrate.Pallet.{State, Runtime}
use ismp_substrate.Mmr.Operations.{new, finalize}
use ismp_substrate.Weights.Providers.{Weights}

-- `on_initialize`: the weight of the finalization; the number of leaves is cut to 32 bits.
unfoldable pub on_initialize : Weights → State → Weight
on_initialize w s = w.on_finalize (s.number_of_leaves % 2 ^ 32)

module _ (r : Runtime) where
  -- `deposit_log`
  unfoldable pub deposit_root : H256 → State → State
  deposit_root root s = record s {
    logs = s.logs ++ DigestItem.consensus ismp_id (r.codec.encode_hash root) ∷ [];
  }

  -- after `mmr.finalize()`: an error is logged and ends the hook
  unfoldable pub put_root : Result MmrError H256 → State → State
  unfolding deposit_root
  put_root (ok root) s = deposit_root root (record s { root_hash = root })
  put_root (err e) s = s

  unfoldable pub on_finalize : State → State
  unfolding put_root
  on_finalize s =
      if s.number_of_leaves == 0
      then deposit_root zero_hash s
      else put_root (finalize r (new s.number_of_leaves) s) s

-- `mmr_root`
unfoldable pub mmr_root : State → H256
mmr_root s = s.root_hash

-- `mmr_leaf_count`
unfoldable pub mmr_leaf_count : State → ℕ
mmr_leaf_count s = s.number_of_leaves
