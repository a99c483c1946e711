-- ===== src/Tests/Ranges.antt =====
-- A library of Merkle mountain ranges that behaves as documented.
use ismp_substrate.Base.{
  ℕ, zero, suc, ◌≤◌, ◌≡◌, refl, ◌∙◌, ap, sym, true, false, Option, none, some, List, [], ◌∷◌,
  Result, ok, err, ◌==◌, ◌||◌, ◌&&◌, member, if◌then◌else◌, arith, ℕ_discrete,
}
use ismp_substrate.Ismp.{H256}
use ismp_substrate.Primitives.Leaves.{DataOrHash}
use ismp_substrate.Pallet.{State, MmrLib, Elements, Append, Batch, Run, StoreError}
use ismp_substrate.Mmr.Mountains.{grows, range, peaks}
use ismp_substrate.Mmr.Storage.Append.{FindsPeaks}
use ismp_substrate.Mmr.Storage.Invariant.{new_nodes}
use ismp_substrate.Mmr.Root.{Reads, bag, BagsPeaks}
use ismp_substrate.Mmr.Push.{AppendsLeaf, join_hashes}

-- The greatest number of leaves up to a bound whose range has the given number of nodes.
abbrev pub leaves_of : ℕ → ℕ → ℕ
leaves_of zero size = 0
leaves_of (suc n) size =
    let below = leaves_of n size in if (range (suc n)).nodes == size then suc n else below

leaves_of-range : (k n : ℕ) → n ≤ k → leaves_of k (range n).nodes ≡ n
leaves_of-range zero n h = omega arith
leaves_of-range (suc k) n h = elim (ℕ_discrete n (suc k)) [
  | yes e ↦
      let found : ((range (suc k)).nodes == (range n).nodes) ≡ true = ground (arith, e) in
      rw found (sym e)
  | no less ↦
      let larger : ((range (suc k)).nodes == (range n).nodes) ≡ false =
        ground (arith, grows n (suc k) h, less) in
      rw larger (leaves_of-range k n (omega (arith, less)))
]

abbrev pub count : ℕ → ℕ
count size = leaves_of size size

count-range : (n : ℕ) → count (range n).nodes ≡ n
count-range n = leaves_of-range (range n).nodes n (omega (arith, grows 0 n (omega arith)))

-- what a merge of hashes makes
abbrev pub hash_part : DataOrHash → H256
hash_part (DataOrHash.hash_of h) = h
hash_part (DataOrHash.data_of leaf) = []

abbrev pub push_leaf :
    Elements → (DataOrHash → DataOrHash → DataOrHash) → ℕ → DataOrHash → Option (ℕ × Batch)
push_leaf elems merge size (DataOrHash.hash_of h) = none
push_leaf elems merge size (DataOrHash.data_of leaf) = some (
  size,
  (
    size,
    new_nodes leaf (
        join_hashes elems (λ a b. hash_part (merge a b)) (DataOrHash.data_of leaf)
          (range (count size)).mountains),
  )
      ∷ [],
)

abbrev pub commit_all : Append → Batch → State → Run (Result StoreError Unit × State)
commit_all f [] s = some (ok tt, s)
commit_all f ((pos, elems) ∷ batch) s = elim (f pos elems s) [
  | none ↦ none
  | some (err e, s') ↦ some (err e, s')
  | some (ok _, s') ↦ commit_all f batch s'
]

-- the elements at some positions, if the store has all of them
abbrev pub read_all : Elements → List ℕ → Option (List DataOrHash)
read_all elems [] = some []
read_all elems (p ∷ ps) = elim (elems p) [
  | none ↦ none
  | some e ↦ elim (read_all elems ps) [ none ↦ none | some es ↦ some (e ∷ es) ]
]

abbrev pub bagged : Elements → (DataOrHash → DataOrHash → DataOrHash) → List ℕ → Option DataOrHash
bagged elems merge ps = elim (read_all elems ps) [ none ↦ none | some es ↦ bag merge es ]

abbrev pub mmr_lib : MmrLib
mmr_lib = record {
  get_peaks = λ size. peaks (range (count size)).mountains;
  push = push_leaf;
  commit = commit_all;
  get_root = λ elems merge size. bagged elems merge (peaks (range (count size)).mountains);
  -- only all leaves of the ranges of one and of two leaves, whose proof has no node
  gen_proof = λ elems merge size positions.
      if size == 1 || size == 3 && member 0 positions && member 1 positions then some [] else none;
}

commit_all-run :
    (f : Append) (pos : ℕ) (elems : List DataOrHash) (s : State)
    → commit_all f ((pos, elems) ∷ []) s ≡ f pos elems s
commit_all-run f pos elems s = ground arith

pub mmr_lib-FindsPeaks : FindsPeaks mmr_lib
mmr_lib-FindsPeaks = record {
  at = λ n positive small. ap (λ k. peaks (range k).mountains) (count-range n);
}

pub mmr_lib-AppendsLeaf : AppendsLeaf mmr_lib
mmr_lib-AppendsLeaf = record {
  finds = mmr_lib-FindsPeaks;
  push_run = λ elems combine n leaf small held.
      ap
        (λ k. some (
          (range n).nodes,
          (
            (range n).nodes,
            new_nodes leaf
                (join_hashes elems combine (DataOrHash.data_of leaf) (range k).mountains),
          )
              ∷ [],
        ))
        (count-range n);
  commit_run = commit_all-run;
}

read_all-Reads :
    (elems : Elements) (ps : List ℕ) (es : List DataOrHash)
    → Reads elems ps es
    → read_all elems ps ≡ some es
read_all-Reads elems [] [] h = refl
read_all-Reads elems [] (e ∷ es) h = elim h [ ]
read_all-Reads elems (p ∷ ps) [] h = elim h [ ]
read_all-Reads elems (p ∷ ps) (e ∷ es) h = ground (arith, h.0, read_all-Reads elems ps es h.1)

bag_read :
    (elems : Elements) (merge_two : DataOrHash → DataOrHash → DataOrHash) (ps : List ℕ)
    (es : List DataOrHash)
    → Reads elems ps es
    → bagged elems merge_two ps ≡ bag merge_two es
bag_read elems merge_two ps es h = ground (arith, read_all-Reads elems ps es h)

pub mmr_lib-BagsPeaks : BagsPeaks mmr_lib
mmr_lib-BagsPeaks = record {
  bag_root = λ elems merge_two n es some_leaf small h.
      ap (λ k. bagged elems merge_two (peaks (range k).mountains)) (count-range n)
      ∙ bag_read elems merge_two (peaks (range n).mountains) es h;
}
