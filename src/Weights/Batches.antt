-- ===== src/Weights/Batches.antt =====
-- The weight of a batch, by the kinds of its messages.
use ismp_substrate.Base.{◌≡◌, sym, ap, ◌∙◌, List, [], ◌∷◌, ◌++◌, All}
use mathlib.Core.List.{foldl, foldl-append}
use ismp_substrate.Ismp.{
  Message, ConsensusMessage, FraudProofMessage, ResponseMessage, TimeoutMessage,
}
use ismp_substrate.Ismp.Library.{Library}
use ismp_substrate.Primitives.{Weight}
use ismp_substrate.Weights.{get_weight, message_weight, consensus_handler}
use ismp_substrate.Weights.Providers.{Weights}

-- What the library documents of `Weight::add`: it has `Weight::zero()` on its left, and groups.
pub record Adds (w : Weights) : Type 0 where
  pub zero_left : (a : Weight) → w.plus w.zero a ≡ a
  pub zero_right : (a : Weight) → w.plus a w.zero ≡ a
  pub groups : (a b c : Weight) → w.plus (w.plus a b) c ≡ w.plus a (w.plus b c)

-- The messages whose weight is added to that of the messages before.
abbrev pub IsAdded : Message → Type 0
IsAdded (Message.consensus m) = ⊥
IsAdded (Message.fraud_proof m) = ⊥
IsAdded _ = Unit

module _ (w : Weights) (l : Library) where
  -- The weight of one message by itself.
  abbrev pub own_weight : Message → Weight
  own_weight m = message_weight w l w.zero m

  abbrev pub sum_weights : List Message → Weight
  sum_weights [] = w.zero
  sum_weights (m ∷ ms) = w.plus (own_weight m) (sum_weights ms)

  -- A consensus message discards what the batch before it weighs: whatever stands in front, the
  -- batch is charged the verification of the consensus message, and of what follows it.
  pub get_weight_drops :
      (before after : List Message) (m : ConsensusMessage)
      → get_weight w l (before ++ Message.consensus m ∷ after)
        ≡ get_weight w l (Message.consensus m ∷ after)
  unfolding get_weight message_weight
  get_weight_drops before after m = rw foldl-append

  -- the same for a fraud proof, at the end of the batch
  pub get_weight-fraud_proof :
      (before : List Message) (m : FraudProofMessage)
      → get_weight w l (before ++ Message.fraud_proof m ∷ [])
        ≡ (consensus_handler w l m.consensus_state_id).verify_fraud_proof m
  unfolding get_weight message_weight
  get_weight-fraud_proof before m = rw foldl-append

  module _ (adds : Adds w) where
    -- the accumulator comes out in front
    message_weight-acc :
        (acc : Weight) (m : Message)
        → IsAdded m
        → message_weight w l acc m ≡ w.plus acc (own_weight m)
    unfolding message_weight
    message_weight-acc acc (Message.consensus m) h = absurd h
    message_weight-acc acc (Message.fraud_proof m) h = absurd h
    message_weight-acc acc (Message.request m) h = simp (adds.zero_left, adds.groups)
    message_weight-acc acc (Message.response (ResponseMessage.post rs p)) h =
        simp (adds.zero_left, adds.groups)
    message_weight-acc acc (Message.response (ResponseMessage.get rs p)) h =
        simp (adds.zero_left, adds.groups)
    message_weight-acc acc (Message.timeout (TimeoutMessage.post rs p)) h =
        simp (adds.zero_left, adds.groups)
    message_weight-acc acc (Message.timeout (TimeoutMessage.get rs)) h =
        simp (adds.zero_left, adds.groups)

    foldl-weights :
        (acc : Weight) (ms : List Message)
        → All IsAdded ms
        → foldl (message_weight w l) acc ms ≡ w.plus acc (sum_weights ms)
    foldl-weights acc [] h = sym (adds.zero_right acc)
    foldl-weights acc (m ∷ ms) h =
        foldl-weights (message_weight w l acc m) ms h.1
        ∙ ap (λ a. w.plus a (sum_weights ms)) (message_weight-acc acc m h.0)
        ∙ adds.groups acc (own_weight m) (sum_weights ms)

    -- With the documented laws of addition, a batch with no consensus message and no fraud proof is
    -- charged the sum of what its messages are charged one by one.
    pub get_weight-sum_weights :
        (ms : List Message) → All IsAdded ms → get_weight w l ms ≡ sum_weights ms
    unfolding get_weight
    get_weight-sum_weights ms h = foldl-weights w.zero ms h ∙ adds.zero_left (sum_weights ms)

    -- With these laws, a batch whose last consensus message is followed by messages of other kinds,
    -- none of them a fraud proof, is charged the verification of that consensus message and what
    -- the messages after it are charged: whatever stands before it weighs nothing.
    pub get_weight-consensus :
        (before after : List Message) (m : ConsensusMessage)
        → All IsAdded after
        → get_weight w l (before ++ Message.consensus m ∷ after)
          ≡ w.plus
              ((consensus_handler w l m.consensus_state_id).verify_consensus m)
              (sum_weights after)
    unfolding get_weight message_weight
    get_weight-consensus before after m h =
        get_weight_drops before after m
        ∙ foldl-weights ((consensus_handler w l m.consensus_state_id).verify_consensus m) after h
