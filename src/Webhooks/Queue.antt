-- ===== src/Webhooks/Queue.antt =====
-- `WebhookQueue` of crates/tiletopia-server/src/webhooks.rs. The subscriptions that an event goes to
-- and the answer to a POST are parameters; ids, events and times are numbers.
use tiletopia.Prelude.{
  ℕ, ◌+◌, ◌-◌, ◌*◌, ◌^◌, String, Bool, ◌&&◌, Option, none, some, List, [], ◌∷◌, ◌++◌, ltb, leb,
  ◌==◌, if◌then◌else◌, length, drop, take,
}
use tiletopia.Prelude.Res.{Res, ok, err}

abbrev pub max_attempts : ℕ
max_attempts = 4

abbrev pub history_limit : ℕ
history_limit = 200

abbrev pub max_pending : ℕ
max_pending = 10000

pub data DeliveryStatus : Type 0 where
  delivered failed : DeliveryStatus

pub record PendingDelivery : Type 0 where
  pub id : ℕ
  pub subscription_id : ℕ
  pub event : ℕ
  pub url : String
  pub secret : String
  pub body : List ℕ
  pub attempts : ℕ
  pub next_attempt_at : ℕ
  pub queued_at : ℕ

pub record WebhookDelivery : Type 0 where
  pub id : ℕ
  pub subscription_id : ℕ
  pub event : ℕ
  pub url : String
  pub status : DeliveryStatus
  pub attempts : ℕ
  pub response_status : Option ℕ
  pub error : Option String
  pub queued_at : ℕ
  pub finished_at : ℕ

pub record WebhookQueue : Type 0 where
  pub pending : List PendingDelivery
  pub history : List WebhookDelivery

-- A subscription that an event goes to.
pub record Recipient : Type 0 where
  pub id : ℕ
  pub url : String
  pub secret : String

unfoldable pub retry_delay : ℕ → ℕ → Option ℕ
retry_delay attempts base =
    if leb max_attempts attempts then none else some (base * 2 ^ (attempts - 1))

abbrev pub new_delivery : ℕ → ℕ → List ℕ → ℕ → Recipient → PendingDelivery
new_delivery id event body queued_at recipient = record {
  id = id;
  subscription_id = recipient.id;
  event = event;
  url = recipient.url;
  secret = recipient.secret;
  body = body;
  attempts = 0;
  next_attempt_at = queued_at;
  queued_at = queued_at;
}

-- The end of `emit`; the deliveries take ids from `id` on.
unfoldable pub emit : ℕ → ℕ → List ℕ → ℕ → List Recipient → WebhookQueue → WebhookQueue
emit id event body queued_at [] q = q
emit id event body queued_at (recipient ∷ recipients) q =
    let rest = emit (id + 1) event body queued_at recipients (record {
      pending = q.pending ++ (new_delivery id event body queued_at recipient ∷ []);
      history = q.history;
    }) in
    if leb max_pending (length q.pending) then q else rest

unfoldable pub finish :
    PendingDelivery → DeliveryStatus → Option ℕ → Option String → ℕ → WebhookQueue → WebhookQueue
finish delivery status response_status error now q = record {
  pending = q.pending;
  history =
      (if length q.history == history_limit then drop 1 q.history else q.history)
      ++ (record {
        id = delivery.id;
        subscription_id = delivery.subscription_id;
        event = delivery.event;
        url = delivery.url;
        status = status;
        attempts = delivery.attempts;
        response_status = response_status;
        error = error;
        queued_at = delivery.queued_at;
        finished_at = now;
      }
          ∷ []);
}

abbrev pub attempted : PendingDelivery → PendingDelivery
attempted delivery = record {
  id = delivery.id;
  subscription_id = delivery.subscription_id;
  event = delivery.event;
  url = delivery.url;
  secret = delivery.secret;
  body = delivery.body;
  attempts = delivery.attempts + 1;
  next_attempt_at = delivery.next_attempt_at;
  queued_at = delivery.queued_at;
}

abbrev pub retried : PendingDelivery → ℕ → PendingDelivery
retried delivery next_attempt_at = record {
  id = delivery.id;
  subscription_id = delivery.subscription_id;
  event = delivery.event;
  url = delivery.url;
  secret = delivery.secret;
  body = delivery.body;
  attempts = delivery.attempts;
  next_attempt_at = next_attempt_at;
  queued_at = delivery.queued_at;
}

abbrev pub is_success : ℕ → Bool
is_success status = leb 200 status && ltb status 300

-- A failed attempt waits for the next, or was the last.
abbrev pub after_failure :
    Option ℕ → PendingDelivery → Option ℕ → String → ℕ → WebhookQueue → WebhookQueue
after_failure (some delay) delivery response_status error now q = record {
  pending = q.pending ++ (retried delivery (now + delay) ∷ []);
  history = q.history;
}
after_failure none delivery response_status error now q =
    finish delivery failed response_status (some error) now q

-- What `deliver_due` takes out of the queue and what it leaves.
abbrev pub due : ℕ → List PendingDelivery → List PendingDelivery
due now [] = []
due now (delivery ∷ pending) =
    let rest = due now pending in if leb delivery.next_attempt_at now then delivery ∷ rest else rest

abbrev pub later : ℕ → List PendingDelivery → List PendingDelivery
later now [] = []
later now (delivery ∷ pending) =
    let rest = later now pending in
    if leb delivery.next_attempt_at now then rest else delivery ∷ rest

module _ (post : PendingDelivery → Res String ℕ) (answered : ℕ → String) (retry_base : ℕ) where
  -- `attempt` with what the POST answered
  abbrev pub take_answer : PendingDelivery → Res String ℕ → ℕ → WebhookQueue → WebhookQueue
  take_answer delivery (ok status) now q =
      if is_success status
      then finish delivery delivered (some status) none now q
      else after_failure (retry_delay delivery.attempts retry_base) delivery (some status)
          (answered status) now q
  take_answer delivery (err error) now q =
      after_failure (retry_delay delivery.attempts retry_base) delivery none error now q

  unfoldable pub attempt : PendingDelivery → ℕ → WebhookQueue → WebhookQueue
  attempt delivery now q = take_answer (attempted delivery) (post delivery) now q

  unfoldable pub attempt_all : List PendingDelivery → ℕ → WebhookQueue → WebhookQueue
  attempt_all [] now q = q
  attempt_all (delivery ∷ due) now q = attempt_all due now (attempt delivery now q)

  -- `now` is when the worker looks, `retried_at` when an attempt has failed.
  unfoldable pub deliver_due : ℕ → ℕ → WebhookQueue → WebhookQueue
  deliver_due now retried_at q =
      attempt_all (due now q.pending) retried_at
        (record { pending = later now q.pending; history = q.history })

abbrev pub reverse : List WebhookDelivery → List WebhookDelivery
reverse [] = []
reverse (d ∷ history) = reverse history ++ (d ∷ [])

abbrev pub recent_deliveries : ℕ → WebhookQueue → List WebhookDelivery
recent_deliveries limit q = take limit (reverse q.history)
