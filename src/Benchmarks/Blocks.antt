-- ===== src/Benchmarks/Blocks.antt =====
-- What the benchmarks of outgoing messages in pallet-ismp/src/benchmarking.rs do to the log of
-- leaves: each measures a state that it really reaches.
use ismp_substrate.Base.{
  ℕ, zero, suc, ◌+◌, ◌*◌, ◌<◌, ◌≡◌, refl, sym, ap, ◌∙◌, some, List, [], ◌∷◌, ◌++◌, length,
  length-append, u64_mod, arith,
}
use mathlib.Core.List.{append-nil, append_assoc}
use ismp_substrate.Ismp.{bytes_key, Request}
use ismp_substrate.Primitives.Leaves.{Leaf}
use ismp_substrate.Primitives.Digest.{DigestItem, ismp_id}
use ismp_substrate.Pallet.{State, Runtime, IsScale}
use ismp_substrate.Mmr.Push.{AppendsLeaf}
use ismp_substrate.Mmr.Root.{BagsPeaks, log_root}
use ismp_substrate.Leaves.{store_leaf_index_offchain}
use ismp_substrate.Leaves.Log.{Represents, after_push-Represents}
use ismp_substrate.Leaves.Push.{after_push, mmr_push_lem}
use ismp_substrate.Hooks
use ismp_substrate.Hooks.Log.{on_finalize-log_root}
use ismp_substrate.Chain.Ranges.{SameRange-Represents, on_finalize-SameRange}
use ismp_substrate.Benchmarks.Outgoing.{filler, push_fillers, on_finalize}

module _ (r : Runtime) where
  -- the leaves that `on_finalize` pushes
  abbrev pub fillers : ℕ → ℕ → List Leaf
  fillers zero nonce = []
  fillers (suc k) nonce = Leaf.request (Request.post (filler r nonce)) ∷ fillers k (nonce + 1)

  pub length-fillers : (k nonce : ℕ) → length (fillers k nonce) ≡ k
  length-fillers zero nonce = refl
  length-fillers (suc k) nonce = omega (arith, length-fillers k (nonce + 1))

module _ (r : Runtime) (lib : AppendsLeaf r.mmr_lib) (scale : IsScale r.codec) where
  push_fillers-Represents :
      (k nonce : ℕ) (s : State) (log : List Leaf)
      → Represents r s log
      → 2 * (length log + k) < u64_mod
      → (t : State) × (push_fillers r k nonce s ≡ some t)
        × Represents r t (log ++ fillers r k nonce)
        × (t.logs ≡ s.logs)
  unfolding push_fillers store_leaf_index_offchain
  push_fillers-Represents zero nonce s log h small = (s, refl, rw (append-nil log) h, refl)
  push_fillers-Represents (suc k) nonce s log h small =
      let leaf = Leaf.request (Request.post (filler r nonce)) in
      let room : 2 * (s.number_of_leaves + 1) < u64_mod = omega (arith, h.counted) in
      let pushed = mmr_push_lem r lib leaf s h.peaks room in
      let (t, runs, kept, logs) =
        push_fillers-Represents k (nonce + 1) (after_push r lib leaf s) (log ++ leaf ∷ [])
          (after_push-Represents r lib scale leaf s log h room)
          (omega (arith, length-append {0} log (leaf ∷ []))) in
      (
        t,
        ground (arith, pushed, runs),
        rw (sym (append_assoc log (leaf ∷ []) (fillers r k (nonce + 1)))) kept,
        logs,
      )

  -- Over libraries that behave as documented and a library that bags peaks as documented, on a
  -- state that represents a log, with twice the leaves and x more below 2^64 and x above 0: the
  -- benchmark `on_finalize` with x returns, the state represents the log with the x requests at its
  -- end, and the root of that log stands in storage and is the one digest item more.
  pub on_finalize-fillers :
      (bags : BagsPeaks r.mmr_lib) (x : ℕ) (s : State) (log : List Leaf)
      → Represents r s log
      → 0 < x
      → 2 * (length log + x) < u64_mod
      → (t : State) × (on_finalize r x s ≡ some t)
        × Represents r t (log ++ fillers r x 0)
        × (Hooks.mmr_root t ≡ log_root r (log ++ fillers r x 0))
        × (t.logs
            ≡ s.logs
              ++ DigestItem.consensus ismp_id
                  (r.codec.encode_hash (log_root r (log ++ fillers r x 0)))
                ∷ [])
  unfolding on_finalize
  on_finalize-fillers bags x s log h positive small =
      let (u, runs, kept, logs) = push_fillers-Represents x 0 s log h small in
      let (item, root) = on_finalize-log_root r bags u (log ++ fillers r x 0) kept in
      let count : length (log ++ fillers r x 0) ≡ length log + x =
        length-append {0} log (fillers r x 0) ∙ ap (λ n. length log + n) (length-fillers r x 0) in
      (
        Hooks.on_finalize r u,
        ground (arith, runs),
        SameRange-Represents r (on_finalize-SameRange r u) kept,
        ground (arith, root, count, positive),
        item ∙ rw logs refl,
      )
