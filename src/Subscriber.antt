-- ===== src/Subscriber.antt =====
-- NatsSubscriber (internal/messaging/subscriber.go): what becomes of one message that the consumer
-- delivers. Parameters: the broker, the handlers, and backoffDelay, which computes with floating-point
-- and random numbers.
pub mod Settlement
use sbombastic.Common.{
  ℕ, String, Option, none, some, List, [], ◌∷◌, if◌then◌else◌, leb, GoMap, lookup, Error, Result,
  ok, err,
}
use sbombastic.Effects.{Run, Eff, pure, fail, call, read, branch, ◌>>=◌, ◌>>◌}

pub record Delivery (M : Type 0) : Type 0 where
  pub subject : String
  pub message : M

-- What the subscriber makes happen: a handler or the failure handler returned without an error, or
-- the broker took the acknowledgement, the rejection, or the rejection with a delay.
pub data Outcome : Type 0 where
  handled failure_handled acked naked : Outcome
  naked_with_delay : ℕ → Outcome

-- The handlers by subject, the failure handler, and jetstream.Msg; `metadata` gives NumDelivered.
pub record SubscriberServices (W M : Type 0) : Type 0 where
  pub handlers : GoMap (M → W → Result (Unit {0}) × W)
  pub failure_handler : M → Error → W → Result (Unit {0}) × W
  pub metadata : Delivery M → W → Result ℕ × W
  pub ack : Delivery M → W → Result (Unit {0}) × W
  pub nak : Delivery M → W → Result (Unit {0}) × W
  pub nak_with_delay : Delivery M → ℕ → W → Result (Unit {0}) × W

abbrev pub max_deliver : ℕ
max_deliver = 5

module _ {W M : Type 0} (services : SubscriberServices W M) (backoff_delay : ℕ → ℕ) where
  -- A call whose error is only logged.
  unfoldable pub logged : Eff W Outcome (Unit {0}) → Eff W Outcome (Unit {0})
  logged m = branch m (λ e. pure tt) (λ _. pure tt)

  -- The handler that was found for the subject, if one was.
  unfoldable pub run_handler : Option (M → W → Result (Unit {0}) × W) → M → Eff W Outcome (Unit {0})
  run_handler none message = fail Error.other
  run_handler (some handler) message = call (handler message) (λ _. handled ∷ [])

  unfoldable pub handle_message : Delivery M → Eff W Outcome (Unit {0})
  handle_message msg = run_handler (lookup services.handlers msg.subject) msg.message

  unfoldable pub handle_failure : Delivery M → ℕ → Error → Eff W Outcome (Unit {0})
  handle_failure msg num_delivered processing_error =
      if leb max_deliver num_delivered
      then (logged (
            call (services.failure_handler msg.message processing_error)
              (λ _. failure_handled ∷ []))
          >> logged (call (services.ack msg) (λ _. acked ∷ [])))
      else logged (
          call (services.nak_with_delay msg (backoff_delay num_delivered))
            (λ _. naked_with_delay (backoff_delay num_delivered) ∷ []))

  unfoldable pub process : Delivery M → ℕ → Eff W Outcome (Unit {0})
  process msg num_delivered =
      branch (handle_message msg) (handle_failure msg num_delivered)
        (λ _. logged (call (services.ack msg) (λ _. acked ∷ [])))

  -- The function that Run passes to Consume.
  unfoldable pub consume : Delivery M → Eff W Outcome (Unit {0})
  consume msg =
      branch (read (services.metadata msg))
        (λ e. logged (call (services.nak msg) (λ _. naked ∷ []))) (process msg)
