-- ===== src/Chain/Bounds.antt =====
-- How much a chain keeps of the range, however long it runs.
use ismp_substrate.Base.{
  ℕ, ◌+◌, ◌*◌, ◌^◌, ◌<◌, ◌≤◌, ◌≡◌, List, length, length-append, member, u64_mod, arith,
}
use ismp_substrate.StorageMap
use ismp_substrate.StorageMap.{nat_key}
use ismp_substrate.Ismp.{Message}
use ismp_substrate.Primitives.Leaves.{Leaf}
use ismp_substrate.Pallet.{State, Runtime, IsScale}
use ismp_substrate.Mmr.Bounds.{nodes_bound}
use ismp_substrate.Mmr.Push.{AppendsLeaf}
use ismp_substrate.Leaves.Log.{Represents}
use ismp_substrate.Calls.{Outside}
use ismp_substrate.Chain.Sessions.{Session, Behaves, Session-Represents}

module _ (r : Runtime) {Origin : Type 0} (o : Outside Origin) (lib : AppendsLeaf r.mmr_lib)
    (scale : IsScale r.codec) (limit : Message → ℕ) (behaves : Behaves r o limit) where
  -- Over libraries that behave as documented, with a limit on what a module dispatches for each
  -- incoming message: from a state that represents a log, with twice the leaves and one more than n
  -- below 2^64, after everything that a chain does with at most n steps and dispatches for messages
  -- together, the chain holds nodes at k positions, with 2^k no more than the leaves at the start
  -- and one more than n.
  pub Session-nodes_bound :
      {s t : State} {n : ℕ} (log : List Leaf)
      → Session r o limit s n t
      → Represents r s log
      → 2 * (length log + n + 1) < u64_mod
      → (ps : List ℕ) × ((p : ℕ) → StorageMap.contains_key t.nodes p ≡ member p ps)
        × (2 ^ length ps ≤ length log + n + 1)
  Session-nodes_bound {t} log session h small =
      let (more, h', few) = Session-Represents r o limit lib scale behaves session log h small in
      let (ps, positions, bound) = nodes_bound t h'.peaks in
      (ps, positions, omega (arith, bound, few, h'.counted, length-append {0} log more))
