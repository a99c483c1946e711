-- ===== src/Mmr/Storage/Peaks.antt =====
-- `peaks_to_prune_and_store` of pallet-ismp/src/mmr/storage.rs, and when its loop ends.
use ismp_substrate.Base.{
  ℕ, zero, suc, ◌<◌, ◌≡◌, ◌≢◌, refl, Bool, true, false, Option, none, some, List, [], ◌∷◌, ◌++◌,
  length, length-append, if◌then◌else◌, ◌==◌, ==_iff, Bool-cases, ap, sym, inl, inr, arith,
}
use mathlib.Core.Path.{ap₂}

-- `Peekable::peek` of both iterators, compared as `Option<&u64>`
abbrev pub peeks_eq : List ℕ → List ℕ → Bool
peeks_eq [] [] = true
peeks_eq (x ∷ xs) (y ∷ ys) = x == y
peeks_eq _ _ = false

-- `Iterator::next`, for what remains
abbrev pub rest : List ℕ → List ℕ
rest [] = []
rest (x ∷ xs) = xs

-- `while peaks_before.peek() == peaks_after.peek()`; `none` when the rounds are used up. The test
-- also succeeds once both iterators are exhausted.
unfoldable pub skip_common : ℕ → List ℕ → List ℕ → Option (List ℕ × List ℕ)
skip_common zero before after = none
skip_common (suc rounds) before after =
    let more = skip_common rounds (rest before) (rest after) in
    if peeks_eq before after then more else some (before, after)

-- `if old_size == 0 { vec![] } else { helper::get_peaks(old_size) }`
unfoldable pub peaks_before : (ℕ → List ℕ) → ℕ → List ℕ
peaks_before get_peaks old_size = if old_size == 0 then [] else get_peaks old_size

-- One more round than there are old peaks decides whether the loop ends.
unfoldable pub peaks_to_prune_and_store : (ℕ → List ℕ) → ℕ → ℕ → Option (List ℕ × List ℕ)
peaks_to_prune_and_store get_peaks old_size new_size =
    let before = peaks_before get_peaks old_size in
    skip_common (suc (length before)) before (get_peaks new_size)

-- On two equal sequences the loop never ends.
pub skip_common-eq : (rounds : ℕ) (before : List ℕ) → skip_common rounds before before ≡ none
unfolding skip_common
skip_common-eq zero before = refl
skip_common-eq (suc rounds) [] = skip_common-eq rounds []
skip_common-eq (suc rounds) (x ∷ xs) = ground (arith, skip_common-eq rounds xs)

-- On two sequences that differ it ends, after a common part, with the two rests.
pub skip_common_ends :
    (rounds : ℕ) (before after : List ℕ)
    → length before < rounds
    → before ≢ after
    → (xs bs cs : List ℕ) × (skip_common rounds before after ≡ some (bs, cs))
      × (before ≡ xs ++ bs)
      × (after ≡ xs ++ cs)
      × (peeks_eq bs cs ≡ false)
unfolding skip_common
skip_common_ends zero before after h ne = absurd (omega arith)
skip_common_ends (suc rounds) [] [] h ne = absurd (ne refl)
skip_common_ends (suc rounds) [] (y ∷ ys) h ne = ([], [], y ∷ ys, refl, refl, refl, refl)
skip_common_ends (suc rounds) (x ∷ xs) [] h ne = ([], x ∷ xs, [], refl, refl, refl, refl)
skip_common_ends (suc rounds) (x ∷ xs) (y ∷ ys) h ne = elim (Bool-cases (x == y)) [
  | inl same ↦
      let e : x ≡ y = (==_iff x y).0 same in
      let (common, bs, cs, run, old, new, part) =
        skip_common_ends rounds xs ys (omega arith) (λ p. ne (ap₂ ◌∷◌ e p)) in
      (x ∷ common, bs, cs, rw same run, ap (◌∷◌ x) old, ap₂ ◌∷◌ (sym e) new, part)
  | inr other ↦ ([], x ∷ xs, y ∷ ys, rw other, refl, refl, other)
]

-- After a common part it stops where the sequences part.
pub skip_common-append :
    (rounds : ℕ) (xs bs cs : List ℕ)
    → length xs < rounds
    → peeks_eq bs cs ≡ false
    → skip_common rounds (xs ++ bs) (xs ++ cs) ≡ some (bs, cs)
unfolding skip_common
skip_common-append zero xs bs cs h ne = absurd (omega arith)
skip_common-append (suc rounds) [] bs cs h ne = ground arith
skip_common-append (suc rounds) (x ∷ xs) bs cs h ne =
    ground (arith, skip_common-append rounds xs bs cs)

module _ (get_peaks : ℕ → List ℕ) (old_size new_size : ℕ) where
  -- Where the peaks before and after share a part and then differ, the two rests are returned.
  pub peaks_to_prune_and_store_split :
      (xs bs cs : List ℕ)
      → peaks_before get_peaks old_size ≡ xs ++ bs
      → get_peaks new_size ≡ xs ++ cs
      → peeks_eq bs cs ≡ false
      → peaks_to_prune_and_store get_peaks old_size new_size ≡ some (bs, cs)
  unfolding peaks_to_prune_and_store
  peaks_to_prune_and_store_split xs bs cs old new part =
      rw (old, new)
        (skip_common-append (suc (length (xs ++ bs))) xs bs cs (omega (arith, length-append xs bs))
          part)

  -- Where the peaks before and after differ, the function returns, having split a common part off
  -- both sequences, up to the first place where they differ.
  pub peaks_to_prune_and_store_returns :
      peaks_before get_peaks old_size ≢ get_peaks new_size
      → (xs bs cs : List ℕ) × (peaks_to_prune_and_store get_peaks old_size new_size ≡ some (bs, cs))
        × (peaks_before get_peaks old_size ≡ xs ++ bs)
        × (get_peaks new_size ≡ xs ++ cs)
        × (peeks_eq bs cs ≡ false)
  unfolding peaks_to_prune_and_store
  peaks_to_prune_and_store_returns =
      skip_common_ends (suc (length (peaks_before get_peaks old_size)))
        (peaks_before get_peaks old_size) (get_peaks new_size) (omega arith)

  -- Where the peaks before and after are equal, the loop has not ended after any number of rounds.
  pub peaks_to_prune_and_store_loops :
      peaks_before get_peaks old_size ≡ get_peaks new_size
      → (rounds : ℕ)
      → skip_common rounds (peaks_before get_peaks old_size) (get_peaks new_size) ≡ none
  peaks_to_prune_and_store_loops same rounds =
      rw (← same) (skip_common-eq rounds (peaks_before get_peaks old_size))
