-- ===== src/Hooks/Binding.antt =====
-- What two chains with one root in storage have in common after `on_finalize` of
-- pallet-ismp/src/lib.rs.
use ismp_substrate.Base.{◌<◌, ◌≡◌, ◌∙◌, sym, ◌⊎◌, List, map, length, arith}
use ismp_substrate.Primitives.Leaves.{Leaf}
use ismp_substrate.Pallet.{State, Runtime}
use ismp_substrate.Mmr.Root.{BagsPeaks, log_root}
use ismp_substrate.Mmr.Inputs.{HashedFor, Collision}
use ismp_substrate.Mmr.Binding.{Has32Bytes, hash_of_leaf, log_root-binding}
use ismp_substrate.Leaves.Log.{Represents}
use ismp_substrate.Hooks.{on_finalize, mmr_root}
use ismp_substrate.Hooks.Log.{on_finalize-log_root}

module _ (r : Runtime) (bags : BagsPeaks r.mmr_lib) where
  stored_root :
      (s : State) (log : List Leaf)
      → Represents r s log
      → 0 < length log
      → mmr_root (on_finalize r s) ≡ log_root r log
  stored_root s log h some_leaf = ground (arith, (on_finalize-log_root r bags s log h).1)

  -- Where the library bags peaks as documented and all hashes have 32 bytes: if two states
  -- represent logs of one length above 0, and the ends of their blocks store one root, the leaves
  -- of the two logs have the same hashes in the same order, or an input hashed for the one root and
  -- another hashed for the other collide.
  pub on_finalize-binding :
      (s s' : State) (log log' : List Leaf)
      → Has32Bytes r
      → Represents r s log
      → Represents r s' log'
      → 0 < length log
      → length log ≡ length log'
      → mmr_root (on_finalize r s) ≡ mmr_root (on_finalize r s')
      → (map (hash_of_leaf r) log ≡ map (hash_of_leaf r) log')
        ⊎ Collision r (HashedFor r log) (HashedFor r log')
  on_finalize-binding s s' log log' sizes h h' some_leaf same_length e =
      log_root-binding r sizes log log' same_length (
        sym (stored_root s log h some_leaf)
        ∙ e
        ∙ stored_root s' log' h' (omega (arith, same_length)))
