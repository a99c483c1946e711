-- ===== src/Hooks/Log.antt =====
-- The root that `on_finalize` of pallet-ismp/src/lib.rs puts in storage and in the digest.
use ismp_substrate.Base.{◌≡◌, List, [], ◌∷◌, ◌++◌, length, ◌==◌, if◌then◌else◌, arith}
use ismp_substrate.Primitives.Leaves.{Leaf}
use ismp_substrate.Primitives.Digest.{DigestItem, ismp_id}
use ismp_substrate.Pallet.{State, Runtime}
use ismp_substrate.Mmr.Root.{BagsPeaks, log_root, finalize_lem}
use ismp_substrate.Leaves.Log.{Represents}
use ismp_substrate.Hooks.{deposit_root, put_root, on_finalize, mmr_root}

module _ (r : Runtime) (bags : BagsPeaks r.mmr_lib) where
  -- Over a library that bags peaks as documented, at the end of a block on a state that represents
  -- a log: the digest gets the root of the log, a function of its leaves alone and the zero hash
  -- for none, and the root in storage is the same where there are leaves, and stays as it was where
  -- there is none.
  pub on_finalize-log_root :
      (s : State) (log : List Leaf)
      → Represents r s log
      → ((on_finalize r s).logs
          ≡ s.logs ++ DigestItem.consensus ismp_id (r.codec.encode_hash (log_root r log)) ∷ [])
        × (mmr_root (on_finalize r s) ≡ (if length log == 0 then mmr_root s else log_root r log))
  unfolding on_finalize put_root deposit_root mmr_root
  on_finalize-log_root s [] h = ground (arith, h.counted)
  on_finalize-log_root s (leaf ∷ log) h = ground (
    arith,
    h.counted,
    finalize_lem r bags s (leaf ∷ log) h.trees h.counted (omega arith)
        (omega (arith, h.peaks.bounded, h.counted)),
  )
