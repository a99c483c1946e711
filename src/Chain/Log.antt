-- ===== src/Chain/Log.antt =====
-- The log of leaves only grows, whatever the chain does.
use ismp_substrate.Base.{
  ℕ, ◌+◌, ◌*◌, ◌<◌, ◌≤◌, sym, ◌∙◌, ok, err, Result, List, [], ◌++◌, length, u64_mod, arith,
}
use mathlib.Core.List.{append-nil}
use ismp_substrate.Ismp.{Response, IsmpError}
use ismp_substrate.Primitives.Leaves.{Leaf}
use ismp_substrate.Pallet.{State, Runtime, IsScale}
use ismp_substrate.Mmr.Push.{AppendsLeaf}
use ismp_substrate.Leaves.Log.{Represents}
use ismp_substrate.Handlers.Dispatcher.{outgoing, dispatch_response}
use ismp_substrate.Handlers.Log.{sent, dispatch_request-Represents, response-Represents}
use ismp_substrate.Calls.{Outside}
use ismp_substrate.Chain.{Step, returned}
use ismp_substrate.Chain.Ranges.{
  SameRange-Represents, on_finalize-SameRange, update_consensus_state-SameRange,
  set_config-SameRange,
}

module _ (r : Runtime) where
  -- A state represents a log with some leaves at its end.
  abbrev pub RepresentsMore : State → List Leaf → ℕ → Type 0
  RepresentsMore t log n = (more : List Leaf) × Represents r t (log ++ more) × (length more ≤ n)

  pub length-sent : (result : Result IsmpError Unit) (leaf : Leaf) → length (sent result leaf) ≤ 1
  length-sent (ok _) leaf = omega arith
  length-sent (err _) leaf = omega arith

  no_more : {t : State} {log : List Leaf} → Represents r t log → RepresentsMore t log 1
  no_more {log = log} h = ([], rw (append-nil log) h, omega arith)

module _ (r : Runtime) {Origin : Type 0} (o : Outside Origin) (lib : AppendsLeaf r.mmr_lib)
    (scale : IsScale r.codec) where
  pub Step-Represents :
      {s t : State} (log : List Leaf)
      → Step r o s t
      → Represents r s log
      → 2 * (s.number_of_leaves + 1) < u64_mod
      → RepresentsMore r t log 1
  unfolding dispatch_response
  Step-Represents {s} log (Step.request {t} {result} d run) h small =
      let (result', s', run', h') = dispatch_request-Represents r lib scale d _ log h small in
      (
        sent result' (Leaf.request (outgoing r d s).0),
        rw (returned r o result' result s' t (sym run' ∙ run)) h',
        length-sent r result' _,
      )
  Step-Represents {s} log (Step.response {t} {result} res run) h small =
      let (result', s', run', h') =
        response-Represents r lib scale (Response.post res) _ log h small in
      (
        sent result' (Leaf.response (Response.post res)),
        rw (returned r o result' result s' t (sym run' ∙ run)) h',
        length-sent r result' _,
      )
  Step-Represents {s} log Step.block_end h small =
      no_more r (SameRange-Represents r (on_finalize-SameRange r s) h)
  Step-Represents {s} log (Step.update origin m) h small =
      no_more r (SameRange-Represents r (update_consensus_state-SameRange o s origin m) h)
  Step-Represents {s} log (Step.configure origin allowed) h small =
      no_more r (SameRange-Represents r (set_config-SameRange o s origin allowed) h)
