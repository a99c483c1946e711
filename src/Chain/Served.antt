-- ===== src/Chain/Served.antt =====
-- What a module dispatched is served for as long as the chain runs.
use ismp_substrate.Base.{
  ℕ, ◌+◌, ◌*◌, ◌<◌, ◌≡◌, sym, ap, ◌∙◌, some, Option, Result, ok, List, [], ◌∷◌, ◌++◌, length,
  length-append, get_elem?, get_elem?-end, u64_mod, arith,
}
use mathlib.Core.List.{append_assoc}
use ismp_substrate.Ismp.{DispatchRequest, IsmpError, Message}
use ismp_substrate.Primitives.Leaves.{Leaf}
use ismp_substrate.Pallet.{State, Runtime, IsScale}
use ismp_substrate.Mmr.Push.{AppendsLeaf}
use ismp_substrate.Leaves.{get_request}
use ismp_substrate.Leaves.Log.{Represents}
use ismp_substrate.Leaves.Serving.{leaf_position, read_leaf-Represents}
use ismp_substrate.Handlers.Dispatcher.{outgoing, dispatch_request}
use ismp_substrate.Handlers.Log.{sent, dispatch_request-Represents}
use ismp_substrate.Calls.{Outside}
use ismp_substrate.Chain.Sessions.{Session, Behaves, Session-Represents}

module _ (r : Runtime) {Origin : Type 0} (o : Outside Origin) (lib : AppendsLeaf r.mmr_lib)
    (scale : IsScale r.codec) (limit : Message → ℕ) (behaves : Behaves r o limit) where
  -- what one run leaves, whatever it is called
  same_run :
      (a b : Result IsmpError Unit) (t t' : State) (log : List Leaf) (leaf : Leaf)
      → ◌≡◌ {A = Option (Result IsmpError Unit × State)} (some (a, t)) (some (b, t'))
      → Represents r t (log ++ sent a leaf)
      → Represents r t' (log ++ sent b leaf)
  same_run a b t t' log leaf e h =
      let same_result : b ≡ a = cc in let same_state : t' ≡ t = cc in rw (same_result, same_state) h

  sent-Represents :
      (d : DispatchRequest) (s s' : State) (log : List Leaf)
      → Represents r s log
      → 2 * (length log + 1) < u64_mod
      → dispatch_request r d s ≡ some (ok tt, s')
      → Represents r s' (log ++ Leaf.request (outgoing r d s).0 ∷ [])
  sent-Represents d s s' log h small run =
      let (result, s1, run1, h1) =
        dispatch_request-Represents r lib scale d s log h (omega (arith, h.counted)) in
      same_run result (ok tt) s1 s' log (Leaf.request (outgoing r d s).0) (sym run1 ∙ run) h1

  -- Over libraries that behave as documented, with a limit on what a module dispatches for each
  -- incoming message, on a state that represents a log: after a request that a module dispatched
  -- with success, and everything that the chain does then, with at most n steps and dispatches for
  -- messages together, with twice the leaves and two more than n below 2^64, the full request is
  -- read from the position it was given.
  pub dispatch_request-served :
      (d : DispatchRequest) (s s' t : State) (log : List Leaf) (n : ℕ)
      → Represents r s log
      → dispatch_request r d s ≡ some (ok tt, s')
      → Session r o limit s' n t
      → 2 * (length log + n + 2) < u64_mod
      → get_request r (leaf_position (length log)) t ≡ some (outgoing r d s).0
  unfolding get_request
  dispatch_request-served d s s' t log n h run reached small =
      let req = (outgoing r d s).0 in
      let h' = sent-Represents d s s' log h (omega arith) run in
      let (more, kept, few) =
        Session-Represents r o limit lib scale behaves reached (log ++ Leaf.request req ∷ []) h'
          (omega (arith, length-append {0} log (Leaf.request req ∷ []))) in
      let there =
        ap (λ ls. get_elem? ls (length log)) (append_assoc log (Leaf.request req ∷ []) more)
        ∙ get_elem?-end log (Leaf.request req) more in
      ground (arith, read_leaf-Represents r t _ (length log) (Leaf.request req) kept there)
