-- ===== src/Tests/Mountains.antt =====
-- The theorems on the range at concrete sizes.
use ismp_substrate.Base.{
  refl, none, ◌+◌, ◌≡◌, some, length, List, [], ◌∷◌, ℕ, ◌++◌, arith, false, none,
}
use ismp_substrate.Primitives.Leaves.{Leaf}
use ismp_substrate.Pallet.{State}
use ismp_substrate.Mmr.Utils.{new, number_of_peaks, size}
use ismp_substrate.Mmr.Mountains.{range, peaks, joined}
use ismp_substrate.Mmr.Sizes.{number_of_peaks-range, size-range}
use ismp_substrate.Mmr.Storage.Peaks.{
  peaks_before, peaks_to_prune_and_store, peeks_eq, skip_common, peaks_to_prune_and_store_returns,
  peaks_to_prune_and_store_loops,
}
use ismp_substrate.Mmr.Storage.Append.{new_peak, peaks_to_prune_and_store-push}
use ismp_substrate.Mmr.Storage.Invariant.{HoldsPeaks}
use ismp_substrate.Mmr.Operations.{push, new as new_range}
use ismp_substrate.Mmr.Push.{push-HoldsPeaks}
use ismp_substrate.Tests.Ranges.{mmr_lib, mmr_lib-FindsPeaks, mmr_lib-AppendsLeaf}
use ismp_substrate.Tests.Chain.{runtime, asked, asked-HoldsPeaks, ping_request}

eleven_peaks : number_of_peaks (new 11) ≡ length (peaks (range 11).mountains)
eleven_peaks = number_of_peaks-range 11 (omega arith)

eleven_size : size (new 11) ≡ (range 11).nodes
eleven_size = size-range 11 (omega arith)

-- from five leaves to six
sixth_leaf :
    peaks_to_prune_and_store mmr_lib.get_peaks (range 5).nodes (range 6).nodes
    ≡ some (joined (range 5).mountains, new_peak 5 ∷ [])
sixth_leaf = peaks_to_prune_and_store-push mmr_lib 5 mmr_lib-FindsPeaks (omega arith)

first_push :
    (s' : State) × (push runtime (new_range 0) (Leaf.request ping_request) asked
      ≡ some (some (range 0).nodes, s'))
    × (s'.number_of_leaves ≡ 0 + 1)
    × HoldsPeaks s'
first_push =
    push-HoldsPeaks runtime mmr_lib-AppendsLeaf (Leaf.request ping_request) asked asked-HoldsPeaks
      (omega arith)

-- seven nodes hold four leaves, and eight hold five
fifth_leaf :
    (xs bs cs : List ℕ) × (peaks_to_prune_and_store mmr_lib.get_peaks 7 8 ≡ some (bs, cs))
    × (peaks_before mmr_lib.get_peaks 7 ≡ xs ++ bs)
    × (mmr_lib.get_peaks 8 ≡ xs ++ cs)
    × (peeks_eq bs cs ≡ false)
unfolding range peaks_before
fifth_leaf = peaks_to_prune_and_store_returns mmr_lib.get_peaks 7 8 (λ e. grind (arith, e))

-- no range has two nodes, and this library finds no peaks there
no_range_loops : skip_common 9 (peaks_before mmr_lib.get_peaks 0) (mmr_lib.get_peaks 2) ≡ none
unfolding range peaks_before
no_range_loops = peaks_to_prune_and_store_loops mmr_lib.get_peaks 0 2 refl 9
