-- ===== src/Mmr/Sizes.antt =====
-- `NodesUtils` computes the number of peaks and of nodes of a range, for every number of leaves
-- whose double fits in 64 bits.
use ismp_substrate.Base.{
  ℕ, zero, suc, ◌+◌, ◌*◌, ◌/◌, ◌^◌, ◌<◌, ◌≡◌, refl, sym, none, some, [], ◌∷◌, length, length-append,
  arith, u64_mod,
}
use native.Mathlib.Nat.{pow-suc}
use ismp_substrate.Mmr.Utils.{ones, count_ones, new, number_of_peaks, size, size_of}
use ismp_substrate.Mmr.Mountains.{Mountains, peaks, leaves, range, leaves-range, nodes-range}

ones-zero : (digits : ℕ) → ones digits 0 ≡ 0
unfolding ones
ones-zero zero = refl
ones-zero (suc digits) = omega (arith, ones-zero digits)

no_peaks : (ms : Mountains) → leaves ms ≡ 0 → length (peaks ms) ≡ 0
no_peaks [] h = refl
no_peaks (none ∷ ms) h = no_peaks ms (omega arith)
no_peaks (some q ∷ ms) h = absurd (omega arith)

half_bound : (digits n : ℕ) → 2 * n < 2 ^ suc digits → n < 2 ^ digits
half_bound digits n h = omega (arith, pow-suc 2 digits)

half_bound_one : (digits n : ℕ) → 2 * n + 1 < 2 ^ suc digits → n < 2 ^ digits
half_bound_one digits n h = omega (arith, pow-suc 2 digits)

half_double : (n : ℕ) → 2 * n / 2 ≡ n
half_double n = omega arith

half_double_one : (n : ℕ) → (2 * n + 1) / 2 ≡ n
half_double_one n = omega arith

-- A mountain for each one among the binary digits of the number of leaves.
ones-leaves :
    (digits : ℕ) (ms : Mountains)
    → leaves ms < 2 ^ digits
    → ones digits (leaves ms) ≡ length (peaks ms)
unfolding ones
ones-leaves zero ms h = sym (no_peaks ms (omega arith))
ones-leaves (suc digits) [] h = ones-zero (suc digits)
ones-leaves (suc digits) (none ∷ ms) h =
    rw (half_double (leaves ms))
      (omega (arith, ones-leaves digits ms (half_bound digits (leaves ms) h)))
ones-leaves (suc digits) (some q ∷ ms) h = rw (half_double_one (leaves ms)) (
    omega (
      arith,
      length-append (peaks ms) (q ∷ []),
      ones-leaves digits ms (half_bound_one digits (leaves ms) h),
    ))

-- The peaks that the code counts are those of the range, for every `u64` number of leaves.
pub number_of_peaks-range :
    (n : ℕ) → n < u64_mod → number_of_peaks (new n) ≡ length (peaks (range n).mountains)
unfolding number_of_peaks count_ones new
number_of_peaks-range n h =
    rw leaves-range at (ones-leaves 64 (range n).mountains (rw leaves-range h))

-- The size that the code computes is the number of nodes of the range, as long as twice the number
-- of leaves fits in 64 bits.
pub size-range : (n : ℕ) → 2 * n < u64_mod → size (new n) ≡ (range n).nodes
unfolding size new
size-range n h = omega (arith, number_of_peaks-range n (omega arith), nodes-range n)

-- The form in which the callers write it.
pub size_of-range : (n : ℕ) → 2 * n < u64_mod → size_of n ≡ (range n).nodes
unfolding size_of
size_of-range n h = size-range n h
