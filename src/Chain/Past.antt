-- ===== src/Chain/Past.antt =====
-- A past block, read with the offchain database of a later state, as pallet-ismp/rpc/src/lib.rs
-- reads it: the database only grows, so it still serves the block's own log.
use ismp_substrate.Base.{
  ℕ, suc, ◌+◌, ◌*◌, ◌<◌, refl, ◌∙◌, List, [], ◌∷◌, ◌++◌, get_elem?-append, u64_mod, arith,
}
use ismp_substrate.Ismp.{Message}
use ismp_substrate.Ismp.Library.{ReadsRequests}
use ismp_substrate.Primitives.Leaves.{Leaf}
use ismp_substrate.Pallet.{State, Runtime, IsScale}
use ismp_substrate.Mmr.Push.{AppendsLeaf}
use ismp_substrate.Leaves.{read_leaf}
use ismp_substrate.Leaves.Log.{Archived, Represents}
use ismp_substrate.Leaves.Index.{Indexed-empty, index_of-same}
use ismp_substrate.Leaves.Serving.{Represents-unique}
use ismp_substrate.Handlers.Index.{Tracks}
use ismp_substrate.Calls.{Outside}
use ismp_substrate.Chain.Sessions.{Session, Behaves}
use ismp_substrate.Chain.Moves.{Session-Moves}
use ismp_substrate.Chain.Indexed.{Moves-Tracks}

-- the storage of one state with the offchain database of another
abbrev pub seen_from : State → State → State
seen_from now past = record past { offchain = now.offchain }

module _ (r : Runtime) where
  Archived-prefix :
      (now past : State) (i : ℕ) (log more : List Leaf)
      → Archived r now i (log ++ more)
      → Archived r (seen_from now past) i log
  unfolding read_leaf
  Archived-prefix now past i [] more h = tt
  Archived-prefix now past i (leaf ∷ log) more h =
      (h.0, Archived-prefix now past (suc i) log more h.1)

  -- Storage with the database of a state whose log goes on.
  seen_from-Tracks :
      (now past : State) (log more : List Leaf)
      → Tracks r past log
      → Tracks r now (log ++ more)
      → Tracks r (seen_from now past) log
  seen_from-Tracks now past log more before after = record {
    kept = record {
      peaks = record { bounded = before.kept.peaks.bounded; held = before.kept.peaks.held };
      counted = before.kept.counted;
      trees = before.kept.trees;
      archive = Archived-prefix now past 0 log more after.kept.archive;
    };
    index = record {
      below = before.index.below;
      found = λ i req e.
          index_of-same r now (seen_from now past) req refl
          ∙ after.index.found i req (get_elem?-append log more i (Leaf.request req) e);
      rising = before.index.rising;
    };
  }

module _ (r : Runtime) {Origin : Type 0} (o : Outside Origin) (lib : AppendsLeaf r.mmr_lib)
    (scale : IsScale r.codec) (reads : ReadsRequests r.ismp) (limit : Message → ℕ)
    (behaves : Behaves r o limit) where
  -- A state of a chain, read with the offchain database of any later state of that chain.
  pub Session-seen_from :
      {genesis past now : State} {n k : ℕ} (log : List Leaf)
      → Session r o limit genesis n past
      → Session r o limit past k now
      → Represents r genesis []
      → Represents r past log
      → 2 * (n + k + 1) < u64_mod
      → genesis.nonce + n + k < u64_mod
      → Tracks r (seen_from now past) log
  Session-seen_from {genesis} {past} {now} log first rest empty kept small room =
      let (log', h, few, nonces) =
        Moves-Tracks r o lib scale reads (Session-Moves r o limit behaves first) []
          (record { kept = empty; index = Indexed-empty r genesis }) (omega arith) (omega arith) in
      let (more, h', _, _) =
        Moves-Tracks r o lib scale reads (Session-Moves r o limit behaves rest) log' h
          (omega (arith, few)) (omega (arith, nonces)) in
      rw (Represents-unique r past log log' kept h.kept)
        (seen_from-Tracks r now past log' more h h')
