-- ===== src/Mmr/Mountains.antt =====
-- Merkle mountain ranges as they are defined, with no arithmetic on sizes: a range is built by
-- pushing leaves one at a time, and two mountains of one height are joined under a new peak. The
-- code of pallet-ismp/src/mmr is compared with these.
use ismp_substrate.Base.{
  ℕ, zero, suc, ◌+◌, ◌*◌, ◌<◌, ◌≤◌, ◌≡◌, refl, Option, none, some, List, [], ◌∷◌, ◌++◌, length,
  length-append, member, member-append, true, false, arith, ℕ_discrete,
}
use mathlib.Core.List.{append-nil, append_assoc}

-- The mountain of each height, the lowest first: `some` holds the position of its peak.
abbrev pub Mountains : Type 0
Mountains = List (Option ℕ)

-- A new mountain with the peak `p` among those of its height and above. Where there is one already,
-- the two are joined under the next position.
abbrev pub add_peak : ℕ → Mountains → Mountains
add_peak p [] = some p ∷ []
add_peak p (none ∷ ms) = some p ∷ ms
add_peak p (some q ∷ ms) = none ∷ add_peak (p + 1) ms

-- How many joins that takes.
abbrev pub joins : Mountains → ℕ
joins [] = 0
joins (none ∷ ms) = 0
joins (some q ∷ ms) = suc (joins ms)

-- The positions of the peaks from left to right.
abbrev pub peaks : Mountains → List ℕ
peaks [] = []
peaks (none ∷ ms) = peaks ms
peaks (some q ∷ ms) = peaks ms ++ q ∷ []

-- The number of leaves: a mountain of height h has 2 ^ h.
abbrev pub leaves : Mountains → ℕ
leaves [] = 0
leaves (none ∷ ms) = 2 * leaves ms
leaves (some q ∷ ms) = 2 * leaves ms + 1

pub record Range : Type 0 where
  pub nodes : ℕ
  pub mountains : Mountains

-- A leaf takes the next position, and each join the one after.
abbrev pub push_leaf : Range → Range
push_leaf r = record {
  nodes = r.nodes + 1 + joins r.mountains;
  mountains = add_peak r.nodes r.mountains;
}

-- The range of n leaves.
unfoldable pub range : ℕ → Range
range zero = record { nodes = 0; mountains = [] }
range (suc n) = push_leaf (range n)

-- What a push leaves alone, and the peaks that it joins.
abbrev pub kept : Mountains → Mountains
kept [] = []
kept (none ∷ ms) = ms
kept (some q ∷ ms) = kept ms

abbrev pub joined : Mountains → List ℕ
joined [] = []
joined (none ∷ ms) = []
joined (some q ∷ ms) = joined ms ++ q ∷ []

pub peaks-split : (ms : Mountains) → peaks ms ≡ peaks (kept ms) ++ joined ms
peaks-split [] = refl
peaks-split (none ∷ ms) = simp append-nil
peaks-split (some q ∷ ms) =
    rw (peaks-split ms) (append_assoc (peaks (kept ms)) (joined ms) (q ∷ []))

pub peaks-add_peak :
    (p : ℕ) (ms : Mountains) → peaks (add_peak p ms) ≡ peaks (kept ms) ++ (p + joins ms) ∷ []
peaks-add_peak p [] = ground arith
peaks-add_peak p (none ∷ ms) = ground arith
peaks-add_peak p (some q ∷ ms) = ground (arith, peaks-add_peak (p + 1) ms)

pub leaves-add_peak : (p : ℕ) (ms : Mountains) → leaves (add_peak p ms) ≡ leaves ms + 1
leaves-add_peak p [] = omega arith
leaves-add_peak p (none ∷ ms) = omega arith
leaves-add_peak p (some q ∷ ms) = omega (arith, leaves-add_peak (p + 1) ms)

pub length-peaks-add_peak :
    (p : ℕ) (ms : Mountains) → length (peaks (add_peak p ms)) + joins ms ≡ length (peaks ms) + 1
length-peaks-add_peak p [] = omega arith
length-peaks-add_peak p (none ∷ ms) = omega (arith, length-append {0})
length-peaks-add_peak p (some q ∷ ms) =
    omega (arith, length-append {0}, length-peaks-add_peak (p + 1) ms)

-- The range of n leaves has n leaves.
pub leaves-range : (n : ℕ) → leaves (range n).mountains ≡ n
unfolding range
leaves-range zero = refl
leaves-range (suc n) =
    omega (arith, leaves-add_peak (range n).nodes (range n).mountains, leaves-range n)

pub nodes-range : (n : ℕ) → (range n).nodes + length (peaks (range n).mountains) ≡ 2 * n
unfolding range
nodes-range zero = omega arith
nodes-range (suc n) =
    omega (arith, length-peaks-add_peak (range n).nodes (range n).mountains, nodes-range n)

-- Higher mountains stand further left, all below a bound.
abbrev pub IsDescending : ℕ → Mountains → Type 0
IsDescending b [] = Unit
IsDescending b (none ∷ ms) = IsDescending b ms
IsDescending b (some q ∷ ms) = (q < b) × IsDescending q ms

pub IsDescending-mono : (b c : ℕ) (ms : Mountains) → b ≤ c → IsDescending b ms → IsDescending c ms
IsDescending-mono b c [] h d = tt
IsDescending-mono b c (none ∷ ms) h d = IsDescending-mono b c ms h d
IsDescending-mono b c (some q ∷ ms) h d = (omega arith, d.1)

add_peak-IsDescending :
    (p : ℕ) (ms : Mountains) → IsDescending p ms → IsDescending (p + 1 + joins ms) (add_peak p ms)
add_peak-IsDescending p [] d = (omega arith, tt)
add_peak-IsDescending p (none ∷ ms) d = (omega arith, d)
add_peak-IsDescending p (some q ∷ ms) d =
    IsDescending-mono (p + 1 + 1 + joins ms) _ (add_peak (p + 1) ms) (omega arith)
      (add_peak-IsDescending (p + 1) ms (IsDescending-mono q (p + 1) ms (omega arith) d.1))

pub range-IsDescending : (n : ℕ) → IsDescending (range n).nodes (range n).mountains
unfolding range
range-IsDescending zero = tt
range-IsDescending (suc n) =
    add_peak-IsDescending (range n).nodes (range n).mountains (range-IsDescending n)

pub kept-IsDescending : (b : ℕ) (ms : Mountains) → IsDescending b ms → IsDescending b (kept ms)
kept-IsDescending b [] d = tt
kept-IsDescending b (none ∷ ms) d = d
kept-IsDescending b (some q ∷ ms) d =
    IsDescending-mono q b (kept ms) (omega arith) (kept-IsDescending q ms d.1)

-- The peaks lie below the bound.
pub member-peaks-lt :
    (b p : ℕ) (ms : Mountains) → IsDescending b ms → member p (peaks ms) ≡ true → p < b
member-peaks-lt b p [] d h = cc
member-peaks-lt b p (none ∷ ms) d h = member-peaks-lt b p ms d h
member-peaks-lt b p (some q ∷ ms) d h =
    ground (arith, member-append p (peaks ms) (q ∷ []), member-peaks-lt q p ms d.1)

-- A peak that is joined is no peak of the mountains that are kept.
pub member-joined-kept :
    (b p : ℕ) (ms : Mountains)
    → IsDescending b ms
    → member p (joined ms) ≡ true
    → (member p (peaks (kept ms)) ≡ false) × (p < b)
member-joined-kept b p [] d h = cc
member-joined-kept b p (none ∷ ms) d h = cc
member-joined-kept b p (some q ∷ ms) d h = ground (
  arith,
  member-append p (joined ms) (q ∷ []),
  member-joined-kept q p ms d.1,
  member-peaks-lt q p (kept ms) (kept-IsDescending q ms d.1),
)

-- The peaks after one more leaf: those that are kept, and a new one at the last position.
pub peaks-range-suc :
    (n : ℕ)
    → peaks (range (suc n)).mountains
      ≡ peaks (kept (range n).mountains) ++ ((range n).nodes + joins (range n).mountains) ∷ []
unfolding range
peaks-range-suc n = peaks-add_peak (range n).nodes (range n).mountains

pub nodes-range-suc :
    (n : ℕ) → (range (suc n)).nodes ≡ (range n).nodes + 1 + joins (range n).mountains
unfolding range
nodes-range-suc n = refl

-- More leaves have more nodes.
pub grows : (n k : ℕ) → n ≤ k → (range n).nodes + k ≤ (range k).nodes + n
grows n zero h = let e : n ≡ 0 = omega arith in rw e (omega arith)
grows n (suc k) h = elim (ℕ_discrete n (suc k)) [
  | yes e ↦ rw e (omega arith)
  | no less ↦ omega (arith, grows n k (omega (arith, less)), nodes-range-suc k)
]
