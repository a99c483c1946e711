-- ===== src/Leaves/Index.antt =====
-- The index of the requests of a log: `get_leaf_index` of pallet-ismp/src/lib.rs finds each of them
-- by its chains and nonce, where every request took a nonce of its own.
use ismp_substrate.Base.{
  ℕ, ◌+◌, ◌*◌, ◌<◌, ◌≤◌, ◌≡◌, ◌≢◌, refl, sym, ◌∙◌, ◌⊎◌, true, Option, some, inl, inr, List, [], ◌∷◌,
  ◌++◌, length, get_elem?, get_elem?-append_cases, get_elem?-lt, u64_mod, arith,
}
use ismp_substrate.Ismp.{bytes_key, Request, Response}
use ismp_substrate.Primitives.Leaves.{Leaf}
use ismp_substrate.Pallet.{State, Runtime, IsScale}
use ismp_substrate.Mmr.Storage.Invariant.{HoldsPeaks}
use ismp_substrate.Mmr.Push.{AppendsLeaf}
use ismp_substrate.Leaves.{get_leaf_index, index_key}
use ismp_substrate.Leaves.Keys.{
  request_leaf_index_offchain_key, response_leaf_index_offchain_key, requests_label,
  responses_label,
}
use ismp_substrate.Leaves.Push.{after_push, index-after_push_other, index_key_apart_lem}
use ismp_substrate.Leaves.Queries.{found_after_push}
use ismp_substrate.Leaves.Serving.{leaf_position}

request_inj : (a b : Request) → Leaf.request a ≡ Leaf.request b → a ≡ b
request_inj a b e = cc

request-ne-response : (a : Request) (b : Response) → Leaf.request a ≢ Leaf.response b
request-ne-response a b e = cc

module _ (r : Runtime) where
  -- the request stands at a place of the log
  abbrev pub RequestAt : List Leaf → ℕ → Request → Type 0
  RequestAt log i req = get_elem? log i ≡ some (Leaf.request req)

  -- the index of a request, as a module or a client asks for it
  abbrev pub index_of : Request → State → Option ℕ
  index_of req s =
      get_leaf_index r (r.ismp.source_chain req) (r.ismp.dest_chain req) (r.ismp.nonce req) true s

  -- The nonces of the log's requests rise and are below the chain's, and each is found.
  pub record Indexed (s : State) (log : List Leaf) : Type 0 where
    pub below : (i : ℕ) (req : Request) → RequestAt log i req → r.ismp.nonce req < s.nonce
    pub found :
        (i : ℕ) (req : Request) → RequestAt log i req → index_of req s ≡ some (leaf_position i)
    pub rising :
        (i j : ℕ) (req later : Request)
        → RequestAt log i req
        → RequestAt log j later
        → i < j
        → r.ismp.nonce req < r.ismp.nonce later

  pub Indexed-empty : (s : State) → Indexed s []
  Indexed-empty s = record {
    below = λ i req e. cc;
    found = λ i req e. cc;
    rising = λ i j req later e e' less. cc;
  }

  pub index_of-same :
      (s t : State) (req : Request) → t.offchain ≡ s.offchain → index_of req t ≡ index_of req s
  unfolding get_leaf_index
  index_of-same s t req same = rw same refl

  -- The index lies in the offchain database; the chain's nonce may rise.
  pub Indexed-same :
      (s t : State) (log : List Leaf)
      → s.nonce ≤ t.nonce
      → t.offchain ≡ s.offchain
      → Indexed s log
      → Indexed t log
  Indexed-same s t log grows same h = record {
    below = λ i req e. omega (arith, h.below i req e);
    found = λ i req e. index_of-same s t req same ∙ h.found i req e;
    rising = h.rising;
  }

  -- A request of a log with one more leaf is that leaf, or stood there before.
  pub RequestAt-cases :
      (log : List Leaf) (leaf : Leaf) (i : ℕ) (req : Request)
      → RequestAt (log ++ leaf ∷ []) i req
      → ((i ≡ length log) × (Leaf.request req ≡ leaf)) ⊎ RequestAt log i req
  RequestAt-cases log leaf i req e = get_elem?-append_cases log leaf i (Leaf.request req) e

  pub RequestAt-before :
      (log : List Leaf) (leaf : Leaf) (i : ℕ) (req : Request)
      → i < length log
      → RequestAt (log ++ leaf ∷ []) i req
      → RequestAt log i req
  RequestAt-before log leaf i req less e = elim (RequestAt-cases log leaf i req e) [
    | inl (last, this) ↦ absurd (omega (arith, last, less))
    | inr before ↦ before
  ]

  -- Requests with different nonces have different keys.
  requests_apart :
      (scale : IsScale r.codec) (old req : Request)
      → r.ismp.nonce old < r.ismp.nonce req
      → index_key r (Leaf.request req) ≢ index_key r (Leaf.request old)
  unfolding index_key request_leaf_index_offchain_key
  requests_apart scale old req less same = absurd (
      omega (
        arith,
        (scale.index_key_injective r.indexing_prefix requests_label requests_label
            (r.ismp.source_chain req) (r.ismp.dest_chain req) (r.ismp.source_chain old)
            (r.ismp.dest_chain old) (r.ismp.nonce req) (r.ismp.nonce old) same).3,
      ))

  response_apart :
      (scale : IsScale r.codec) (old : Request) (res : Response)
      → index_key r (Leaf.response res) ≢ index_key r (Leaf.request old)
  unfolding index_key request_leaf_index_offchain_key response_leaf_index_offchain_key
  response_apart scale old res same =
      let labels =
        (scale.index_key_injective r.indexing_prefix responses_label requests_label
          (r.ismp.response_dest_chain res) (r.ismp.response_source_chain res)
          (r.ismp.source_chain old) (r.ismp.dest_chain old) (r.ismp.response_nonce res)
          (r.ismp.nonce old) same).0 in
      grind (arith, labels)

module _ (r : Runtime) (lib : AppendsLeaf r.mmr_lib) (scale : IsScale r.codec) (s : State)
    (log : List Leaf) (h : HoldsPeaks s) (counted : s.number_of_leaves ≡ length log) where
  -- A push keeps the index of every request with another key.
  index_of-kept :
      (leaf : Leaf) (old : Request)
      → index_key r leaf ≢ index_key r (Leaf.request old)
      → index_of r old (after_push r lib leaf s) ≡ index_of r old s
  unfolding get_leaf_index index_key
  index_of-kept leaf old apart = ground (
    arith,
    index-after_push_other r lib leaf s scale (index_key r (Leaf.request old))
        (index_key_apart_lem r scale (Leaf.request old)) apart,
  )

  -- The invariant after a response, which took no nonce.
  pub Indexed-response :
      (res : Response) (t : State)
      → t.nonce ≡ s.nonce
      → t.offchain ≡ (after_push r lib (Leaf.response res) s).offchain
      → Indexed r s log
      → Indexed r t (log ++ Leaf.response res ∷ [])
  Indexed-response res t nonce same old =
      let before : (i : ℕ) (req : Request)
          → RequestAt r (log ++ Leaf.response res ∷ []) i req
          → RequestAt r log i req =
        λ i req e. elim (RequestAt-cases r log (Leaf.response res) i req e) [
          | inl (last, this) ↦ absurd (request-ne-response req res this)
          | inr e' ↦ e'
        ] in
      record {
        below = λ i req e. omega (arith, nonce, old.below i req (before i req e));
        found = λ i req e.
            index_of-same r (after_push r lib (Leaf.response res) s) t req same
            ∙ index_of-kept (Leaf.response res) req (response_apart r scale req res)
            ∙ old.found i req (before i req e);
        rising =
            λ i j req later e e'. old.rising i j req later (before i req e) (before j later e');
      }

  -- The invariant after a request that took a nonce above all those before it.
  pub Indexed-request :
      (req : Request) (t : State)
      → 2 * (s.number_of_leaves + 1) < u64_mod
      → ((i : ℕ) (req' : Request) → RequestAt r log i req' → r.ismp.nonce req' < r.ismp.nonce req)
      → r.ismp.nonce req < t.nonce
      → t.offchain ≡ (after_push r lib (Leaf.request req) s).offchain
      → Indexed r s log
      → Indexed r t (log ++ Leaf.request req ∷ [])
  Indexed-request req t small above next same old = record {
    below = λ i req' e. elim (RequestAt-cases r log (Leaf.request req) i req' e) [
      | inl (last, this) ↦ rw (request_inj req' req this) next
      | inr e' ↦ omega (arith, above i req' e', next)
    ];
    found = λ i req' e. elim (RequestAt-cases r log (Leaf.request req) i req' e) [
      | inl (last, this) ↦
          rw (request_inj req' req this, last, sym counted)
            (index_of-same r (after_push r lib (Leaf.request req) s) t req same
              ∙ (found_after_push r lib scale s h small req).0)
      | inr e' ↦
          index_of-same r (after_push r lib (Leaf.request req) s) t req' same
          ∙ index_of-kept (Leaf.request req) req'
              (requests_apart r scale req' req (above i req' e'))
          ∙ old.found i req' e'
    ];
    rising = λ i j req' later e e' less.
        elim (RequestAt-cases r log (Leaf.request req) j later e') [
          | inl (last, this) ↦ rw (request_inj later req this) (
              above i req'
                (RequestAt-before r log (Leaf.request req) i req' (omega (arith, last, less)) e))
          | inr before ↦
              old.rising i j req' later
                (RequestAt-before r log (Leaf.request req) i req'
                  (omega (arith, less, get_elem?-lt log j (Leaf.request later) before)) e)
                before less
        ];
  }
