-- ===== src/Nats.antt =====
-- internal/nats/client.go: the client of NATS, over what the calls of the library return. The messages
-- that the connection took are a list, the latest first.
use updater_service.Base.{
  String, List, ◌∷◌, ◌≡◌, refl, Result, ok, err, Outcome, served, refused, lost, Act, call,
  on_result, ◌>>=◌, ◌>>◌,
}

-- nats.Connect, and the methods of the connection: what they return.
pub record Connection : Type 0 where
  pub connect : Result (Unit {0})
  pub subscribe : String → Result (Unit {0})

unfoldable pub new_client : Connection → Result (Unit {0})
new_client c = on_result c.connect err ok

-- The subjects that are subscribed to, the latest first.
abbrev pub Subscriptions : Type 0
Subscriptions = List String

unfoldable pub subscribe : Connection → String → Act Subscriptions Unit
subscribe c subject subjects =
    on_result (c.subscribe subject) (λ e. (err e, subjects)) (λ _. (ok tt, subject ∷ subjects))

-- The outcome that other modules give a publication.
abbrev pub outcome_of : Result (Unit {0}) → Result (Unit {0}) → Outcome
outcome_of (err e) flushing = refused e
outcome_of (ok _) (err e) = lost e
outcome_of (ok _) (ok _) = served

module _ {A : Type 0} where
  unfoldable pub publish : Result (Unit {0}) → A → Act (List A) Unit
  publish answer message sent = on_result answer (λ e. (err e, sent)) (λ _. (ok tt, message ∷ sent))

  unfoldable pub flush : Result (Unit {0}) → Act (List A) Unit
  flush answer sent = on_result answer (λ e. (err e, sent)) (λ _. (ok tt, sent))

  unfoldable pub publish_and_flush : Result (Unit {0}) → Result (Unit {0}) → A → Act (List A) Unit
  publish_and_flush publishing flushing message = do publish publishing message; flush flushing

  -- A publication is a call with an outcome: an error of the flush leaves the message sent.
  pub publish_and_flush-call :
      (publishing flushing : Result (Unit {0})) (message : A) (sent : List A)
      → publish_and_flush publishing flushing message sent
        ≡ call (outcome_of publishing flushing) (λ l. (tt, message ∷ l)) sent
  unfolding publish_and_flush publish flush ◌>>=◌
  publish_and_flush-call (err e) flushing message sent = refl
  publish_and_flush-call (ok _) (err e) message sent = refl
  publish_and_flush-call (ok _) (ok _) message sent = refl
