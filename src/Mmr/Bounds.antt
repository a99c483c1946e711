-- ===== src/Mmr/Bounds.antt =====
-- How many nodes the chain keeps.
use ismp_substrate.Base.{
  ℕ, suc, ◌+◌, ◌^◌, ◌≤◌, ◌≡◌, none, some, [], ◌∷◌, List, length, length-append, member, arith,
}
use ismp_substrate.StorageMap
use ismp_substrate.StorageMap.{nat_key}
use ismp_substrate.Pallet.{State}
use ismp_substrate.Mmr.Mountains.{Mountains, range, peaks, leaves, leaves-range}
use ismp_substrate.Mmr.Storage.Invariant.{HoldsPeaks}

-- Mountains with k peaks have at least 2 ^ k - 1 leaves.
peaks_bound : (ms : Mountains) → 2 ^ length (peaks ms) ≤ leaves ms + 1
peaks_bound [] = omega arith
peaks_bound (none ∷ ms) = omega (arith, peaks_bound ms)
peaks_bound (some q ∷ ms) =
    let more : length (peaks (some q ∷ ms)) ≡ suc (length (peaks ms)) =
      omega (arith, length-append {0} (peaks ms) (q ∷ [])) in
    rw more (omega (arith, peaks_bound ms))

-- The nodes on chain stand at some positions, 2 to whose number is no more than one above the
-- number of leaves.
pub nodes_bound :
    (s : State)
    → HoldsPeaks s
    → (ps : List ℕ) × ((p : ℕ) → StorageMap.contains_key s.nodes p ≡ member p ps)
      × (2 ^ length ps ≤ s.number_of_leaves + 1)
nodes_bound s h = (
  peaks (range s.number_of_leaves).mountains,
  h.held,
  omega (arith, peaks_bound (range s.number_of_leaves).mountains, leaves-range s.number_of_leaves),
)
