-- ===== src/Subscriber/Settlement.antt =====
-- When a message is acknowledged, and that it is settled at most once.
use sbombastic.Common.{
  ℕ, ◌≡◌, refl, sym, ap, true, false, ◌⊎◌, inl, inr, Option, none, some, List, [], ◌∷◌, leb, lookup,
  Error, Result, ok,
}
use sbombastic.Effects.{fail, call, branch}
use mathlib.Core.Path.{subst}
use sbombastic.Effects.Triples.{
  Triple, Triple-pure, Triple-fail, Triple-if, Triple-call, Triple-branch, Triple-send,
}
use sbombastic.Subscriber.{
  Delivery, Outcome, handled, failure_handled, acked, naked_with_delay, SubscriberServices,
  max_deliver, logged, run_handler, handle_message, handle_failure, process, consume,
}

-- What one delivery may leave, latest first, by its number: a handled message is acknowledged; a
-- failed one is sent back with the delay of its number, or from the fifth delivery on given to the
-- failure handler and acknowledged; every step but the handler may fail and then leaves nothing.
pub data Settled (backoff_delay : ℕ → ℕ) (n : ℕ) : List Outcome → Type 0 where
  unread : Settled backoff_delay n []
  done : Settled backoff_delay n (acked ∷ handled ∷ [])
  done_unacknowledged : Settled backoff_delay n (handled ∷ [])
  delayed :
      leb max_deliver n ≡ false → Settled backoff_delay n (naked_with_delay (backoff_delay n) ∷ [])
  given_up : leb max_deliver n ≡ true → Settled backoff_delay n (acked ∷ failure_handled ∷ [])
  given_up_unhandled : leb max_deliver n ≡ true → Settled backoff_delay n (acked ∷ [])
  given_up_unacknowledged :
      leb max_deliver n ≡ true → Settled backoff_delay n (failure_handled ∷ [])

module _ {W M : Type 0} (services : SubscriberServices W M) (backoff_delay : ℕ → ℕ) where
  -- The event happened or not.
  abbrev Maybe : {A : Type 0} → Outcome → List Outcome → Result A → List Outcome → Type 0
  Maybe e t r u = (u ≡ t) ⊎ (u ≡ e ∷ t)

  logged-Maybe :
      (op : W → Result (Unit {0}) × W) (e : Outcome) (t : List Outcome)
      → Triple (λ u. u ≡ t) (logged services backoff_delay (call op (λ _. e ∷ []))) (Maybe e t)
  unfolding logged
  logged-Maybe op e t =
      Triple-branch _ _ _ (Triple-send op (e ∷ []) t) (λ f. Triple-pure tt (λ u p. inl p))
        (λ a. Triple-pure tt (λ u p. inr p)) (λ u p. inl p)

  -- The same, with what it says of the trace turned into the claim.
  logged-Settled :
      (n : ℕ) (op : W → Result (Unit {0}) × W) (e : Outcome) (t : List Outcome)
      → Settled backoff_delay n t
      → Settled backoff_delay n (e ∷ t)
      → Triple
          (λ u. u ≡ t)
          (logged services backoff_delay (call op (λ _. e ∷ [])))
          (λ r u. Settled backoff_delay n u)
  logged-Settled n op e t before with_event = record {
    after = λ s p. elim ((logged-Maybe op e t).after s p) [
      | inl same ↦ subst (Settled backoff_delay n) (sym same) before
      | inr more ↦ subst (Settled backoff_delay n) (sym more) with_event
    ];
  }

  give_up :
      (msg : Delivery M) (n : ℕ) (e : Error)
      → leb max_deliver n ≡ true
      → Triple
          (λ u. u ≡ [])
          (branch
            (logged services backoff_delay
              (call (services.failure_handler msg.message e) (λ _. failure_handled ∷ [])))
            fail
            (λ _. logged services backoff_delay (call (services.ack msg) (λ _. acked ∷ []))))
          (λ r u. Settled backoff_delay n u)
  give_up msg n e last =
      Triple-branch _ _ _ (logged-Maybe (services.failure_handler msg.message e) failure_handled [])
        (λ f. Triple-fail f (λ u p. unhandled_or p))
        (λ a. record {
          after = λ s p. elim p [
            | inl none_yet ↦
                (logged-Settled n (services.ack msg) acked [] unread
                    (given_up_unhandled last)).after
                  s none_yet
            | inr told ↦
                (logged-Settled n (services.ack msg) acked (failure_handled ∷ [])
                    (given_up_unacknowledged last) (given_up last)).after
                  s told
          ];
        })
        (λ u p. unhandled_or p)
    where
      unhandled_or :
          {u : List Outcome} → ((u ≡ []) ⊎ (u ≡ failure_handled ∷ [])) → Settled backoff_delay n u
      unhandled_or (inl p) = subst (Settled backoff_delay n) (sym p) unread
      unhandled_or (inr p) = subst (Settled backoff_delay n) (sym p) (given_up_unacknowledged last)

  failure-Settled :
      (msg : Delivery M) (n : ℕ) (e : Error)
      → Triple
          (λ u. u ≡ [])
          (handle_failure services backoff_delay msg n e)
          (λ r u. Settled backoff_delay n u)
  unfolding handle_failure
  failure-Settled msg n e = Triple-if (leb max_deliver n) _ _ (give_up msg n e) (λ again.
      logged-Settled n (services.nak_with_delay msg (backoff_delay n)) _ [] unread (delayed again))

  -- What a handler leaves: its event where it returned no error.
  abbrev Ran : Result (Unit {0}) → List Outcome → Type 0
  Ran (ok a) u = u ≡ handled ∷ []
  Ran _ u = u ≡ []

  run_handler-Ran :
      (found : Option (M → W → Result (Unit {0}) × W)) (message : M)
      → Triple (λ u. u ≡ []) (run_handler services backoff_delay found message) Ran
  unfolding run_handler
  run_handler-Ran none message = Triple-fail Error.other (λ u p. p)
  run_handler-Ran (some handler) message =
      Triple-call (handler message) (λ _. handled ∷ []) (λ a u p. ap (λ v. handled ∷ v) p)
        (λ f u p. p) (λ u p. p)

  message-Ran :
      (msg : Delivery M) → Triple (λ u. u ≡ []) (handle_message services backoff_delay msg) Ran
  unfolding handle_message
  message-Ran msg = run_handler-Ran (lookup services.handlers msg.subject) msg.message

  process-Settled :
      (msg : Delivery M) (n : ℕ)
      → Triple
          (λ u. u ≡ [])
          (process services backoff_delay msg n)
          (λ r u. Settled backoff_delay n u)
  unfolding process
  process-Settled msg n =
      Triple-branch _ _ _ (message-Ran msg) (failure-Settled msg n)
        (λ a. logged-Settled n (services.ack msg) acked (handled ∷ []) done_unacknowledged done)
        (λ u p. subst (Settled backoff_delay n) (sym p) unread)

-- A delivered message whose delivery number can be read leaves one of the ends that Settled lists:
-- it is never acknowledged after an error before its fifth delivery, never sent back from the fifth
-- on, and never settled twice.
pub consume-Settled :
    {W M : Type 0} (services : SubscriberServices W M) (backoff_delay : ℕ → ℕ) (msg : Delivery M)
    (w w' : W) (n : ℕ)
    → services.metadata msg w ≡ (ok n, w')
    → Settled backoff_delay n
        (consume services backoff_delay msg (record { world = w; trace = [] })).1.trace
unfolding consume
consume-Settled services backoff_delay msg w w' n e =
    rw e (
      (process-Settled services backoff_delay msg n).after (record { world = w'; trace = [] }) refl)
