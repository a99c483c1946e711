-- ===== src/Rpc/Pending.antt =====
-- What `pending_get_requests` of pallet-ismp/rpc/src/lib.rs lists.
use ismp_substrate.Base.{ℕ, ◌≤◌, ◌≡◌, ◌↔◌, List, ok, arith, dec_le}
use mathlib.Core.List.{Mem, filter, mem-filter}
use ismp_substrate.Ismp.{Get}
use ismp_substrate.Pallet.{State, Runtime}
use ismp_substrate.Leaves.{pending_get_requests as pallet_pending_get_requests}
use ismp_substrate.Rpc.{Client}
use ismp_substrate.Rpc.Serves.{Serves}
use ismp_substrate.Rpc.Queries.{pending_get_requests}

module _ (r : Runtime) (client : Client) (s : State) where
  -- Where the client answers for the best block from a state: the query answers, and lists exactly
  -- those Get requests pending in the state whose height is not above the one asked for.
  pub pending_get_requests-served :
      (height : ℕ)
      → Serves r client client.best_hash s
      → (reqs : List Get) × (pending_get_requests client height ≡ ok reqs)
        × ((g : Get) → Mem g reqs ↔ (Mem g (pallet_pending_get_requests r s) × (g.height ≤ height)))
  unfolding pending_get_requests
  pending_get_requests-served height serves = (
    filter (λ (g : Get). dec_le g.height height) (pallet_pending_get_requests r s),
    ground (arith, serves.pending),
    λ g. mem-filter {p = λ (g : Get). g.height ≤ height} (λ g. dec_le g.height height),
  )
