-- ===== src/Hooks/Fetched.antt =====
-- What other chains read of the range: the root that `on_finalize` of pallet-ismp/src/lib.rs puts
-- into the digest, as `fetch_overlay_root_and_timestamp` of pallet-ismp/primitives/src/lib.rs finds
-- it.
use ismp_substrate.Base.{ℕ, ◌≡◌, ok, List, [], ◌∷◌, arith}
use ismp_substrate.Ismp.{H256}
use ismp_substrate.Primitives.Leaves.{Leaf}
use ismp_substrate.Primitives.Digest.{Aura, fetch_overlay_root_and_timestamp}
use ismp_substrate.Pallet.{State, Runtime, IsScale}
use ismp_substrate.Mmr.Root.{BagsPeaks, log_root, finalize_lem}
use ismp_substrate.Mmr.Binding.{Has32Bytes, length-log_root}
use ismp_substrate.Leaves.Log.{Represents}
use ismp_substrate.Hooks.{on_finalize}
use ismp_substrate.Hooks.Root.{
  fetch_overlay_root_and_timestamp-on_finalize, fetch_overlay_root_and_timestamp-on_finalize_empty,
}

module _ (r : Runtime) (scale : IsScale r.codec) (bags : BagsPeaks r.mmr_lib) (sizes : Has32Bytes r)
    (aura : Aura) (slot_duration : ℕ) where
  -- Over libraries that behave as documented and hashes of 32 bytes, on a state that represents a
  -- log: where the logs of the block so far can be read, `fetch_overlay_root_and_timestamp` reads
  -- from the digest after `on_finalize` the root of the log, which is the zero hash for a log
  -- without leaves, with the timestamp that it read before.
  pub fetch_overlay_root_and_timestamp-log_root :
      (s : State) (log : List Leaf) (t : ℕ) (before : H256)
      → Represents r s log
      → fetch_overlay_root_and_timestamp aura slot_duration s.logs ≡ ok (t, before)
      → fetch_overlay_root_and_timestamp aura slot_duration (on_finalize r s).logs
        ≡ ok (t, log_root r log)
  fetch_overlay_root_and_timestamp-log_root s [] t before h e =
      fetch_overlay_root_and_timestamp-on_finalize_empty r scale aura slot_duration s t before
        h.counted e
  fetch_overlay_root_and_timestamp-log_root s (leaf ∷ log) t before h e =
      (fetch_overlay_root_and_timestamp-on_finalize r scale aura slot_duration s t before
        (log_root r (leaf ∷ log)) (omega (arith, h.counted))
        (finalize_lem r bags s (leaf ∷ log) h.trees h.counted (omega arith)
          (omega (arith, h.peaks.bounded, h.counted)))
        (length-log_root r sizes (leaf ∷ log)) e).0
