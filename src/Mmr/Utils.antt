-- ===== src/Mmr/Utils.antt =====
-- `NodesUtils` of pallet-ismp/src/mmr/utils.rs.
use ismp_substrate.Base.{ℕ, zero, suc, ◌+◌, ◌-◌, ◌*◌, ◌/◌, ◌%◌, wrap64, u64_mod}

-- The ones among the lowest binary digits of a number.
unfoldable pub ones : ℕ → ℕ → ℕ
ones zero n = 0
ones (suc digits) n = n % 2 + ones digits (n / 2)

-- `u64::count_ones`
unfoldable pub count_ones : ℕ → ℕ
count_ones n = ones 64 n

pub record NodesUtils : Type 0 where
  pub no_of_leaves : ℕ

-- `NodesUtils::new`
unfoldable pub new : ℕ → NodesUtils
new no_of_leaves = record { no_of_leaves = no_of_leaves }

unfoldable pub number_of_leaves : NodesUtils → ℕ
number_of_leaves u = u.no_of_leaves

unfoldable pub number_of_peaks : NodesUtils → ℕ
unfolding number_of_leaves
number_of_peaks u = count_ones (number_of_leaves u)

-- Calculate the total size of MMR (number of nodes), in wrapping `u64` arithmetic.
unfoldable pub size : NodesUtils → ℕ
unfolding number_of_peaks
size u = wrap64 (wrap64 (2 * u.no_of_leaves) + u64_mod - number_of_peaks u)

-- `NodesUtils::new(leaves).size()`
unfoldable pub size_of : ℕ → ℕ
unfolding new size
size_of leaves = size (new leaves)
