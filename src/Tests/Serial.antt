-- ===== src/Tests/Serial.antt =====
-- A serializer for the types that the pallet encodes: numbers stand for themselves, a list has its
-- length in front, and a sum its tag.
use ismp_substrate.Base.{
  ℕ, zero, suc, ◌≡◌, refl, ap, ◌∙◌, Option, none, some, List, [], ◌∷◌, length, ◌⊎◌, inl, inr,
}
use ismp_substrate.Ismp.{Bytes}

pub record Serial (A : Type 0) : Type 0 where
  pub put : A → Bytes → Bytes
  pub take : Bytes → Option (A × Bytes)
  pub back : (a : A) (rest : Bytes) → take (put a rest) ≡ some (a, rest)

abbrev pub take_nat : Bytes → Option (ℕ × Bytes)
take_nat [] = none
take_nat (n ∷ rest) = some (n, rest)

abbrev pub serial_nat : Serial ℕ
serial_nat = record { put = λ n rest. n ∷ rest; take = take_nat; back = λ n rest. refl }

module _ {A B : Type 0} (a : Serial A) (b : Serial B) where
  abbrev pub put_pair : A × B → Bytes → Bytes
  put_pair (x, y) rest = a.put x (b.put y rest)

  abbrev pub take_second : A → Option (B × Bytes) → Option ((A × B) × Bytes)
  take_second x none = none
  take_second x (some (y, rest)) = some ((x, y), rest)

  abbrev pub take_first : Option (A × Bytes) → Option ((A × B) × Bytes)
  take_first none = none
  take_first (some (x, rest)) = take_second x (b.take rest)

  pub back_pair :
      (p : A × B) (rest : Bytes) → take_first (a.take (put_pair p rest)) ≡ some (p, rest)
  back_pair (x, y) rest =
      ap take_first (a.back x (b.put y rest)) ∙ ap (take_second x) (b.back y rest)

  abbrev pub serial_pair : Serial (A × B)
  serial_pair = record {
    put = put_pair;
    take = λ bytes. take_first (a.take bytes);
    back = back_pair;
  }

  abbrev pub put_sum : A ⊎ B → Bytes → Bytes
  put_sum (inl x) rest = 0 ∷ a.put x rest
  put_sum (inr y) rest = 1 ∷ b.put y rest

  abbrev pub left : Option (A × Bytes) → Option ((A ⊎ B) × Bytes)
  left none = none
  left (some (x, rest)) = some (inl x, rest)

  abbrev pub right : Option (B × Bytes) → Option ((A ⊎ B) × Bytes)
  right none = none
  right (some (y, rest)) = some (inr y, rest)

  abbrev pub take_sum : Bytes → Option ((A ⊎ B) × Bytes)
  take_sum [] = none
  take_sum (zero ∷ rest) = left (a.take rest)
  take_sum (suc tag ∷ rest) = right (b.take rest)

  pub back_sum : (s : A ⊎ B) (rest : Bytes) → take_sum (put_sum s rest) ≡ some (s, rest)
  back_sum (inl x) rest = ap left (a.back x rest)
  back_sum (inr y) rest = ap right (b.back y rest)

  abbrev pub serial_sum : Serial (A ⊎ B)
  serial_sum = record { put = put_sum; take = take_sum; back = back_sum }

module _ {A : Type 0} (a : Serial A) where
  abbrev pub put_all : List A → Bytes → Bytes
  put_all [] rest = rest
  put_all (x ∷ xs) rest = a.put x (put_all xs rest)

  abbrev pub cons : A → Option (List A × Bytes) → Option (List A × Bytes)
  cons x none = none
  cons x (some (xs, rest)) = some (x ∷ xs, rest)

  abbrev pub take_all : ℕ → Bytes → Option (List A × Bytes)
  take_all zero bytes = some ([], bytes)
  take_all (suc n) bytes = elim (a.take bytes) [
    | none ↦ none
    | some (x, rest) ↦ cons x (take_all n rest)
  ]

  pub back_all :
      (xs : List A) (rest : Bytes) → take_all (length xs) (put_all xs rest) ≡ some (xs, rest)
  back_all [] rest = refl
  back_all (x ∷ xs) rest = rw (a.back x (put_all xs rest)) (ap (cons x) (back_all xs rest))

  abbrev pub take_list : Bytes → Option (List A × Bytes)
  take_list [] = none
  take_list (n ∷ rest) = take_all n rest

  abbrev pub serial_list : Serial (List A)
  serial_list = record {
    put = λ xs rest. length xs ∷ put_all xs rest;
    take = take_list;
    back = back_all;
  }

  module _ {B : Type 0} (to : A → B) (from : B → A) (to_from : (b : B) → to (from b) ≡ b) where
    abbrev pub rename : Option (A × Bytes) → Option (B × Bytes)
    rename none = none
    rename (some (x, rest)) = some (to x, rest)

    pub back_iso : (b : B) (rest : Bytes) → rename (a.take (a.put (from b) rest)) ≡ some (b, rest)
    back_iso b rest = ap rename (a.back (from b) rest) ∙ ap (λ (c : B). some (c, rest)) (to_from b)

    abbrev pub serial_iso : Serial B
    serial_iso = record {
      put = λ b. a.put (from b);
      take = λ bytes. rename (a.take bytes);
      back = back_iso;
    }

abbrev pub serial_bytes : Serial Bytes
serial_bytes = serial_list serial_nat
