-- ===== src/Webhooks/Rounds.antt =====
-- That the retries of crates/tiletopia-server/src/webhooks.rs come to an end.
use tiletopia.Prelude.{
  ℕ, zero, suc, ◌+◌, ◌≤◌, ◌<◌, String, ◌≡◌, refl, sym, ap, subst, inl, inr, true, Option, none,
  some, List, [], ◌∷◌, ◌++◌, arith, leb, ◌==◌, Bool-cases, length, drop, All, length-append,
  length-drop, All-append, All-map,
}
use tiletopia.Prelude.Res.{Res, ok, err}
use tiletopia.Webhooks.Queue.{
  DeliveryStatus, delivered, failed, PendingDelivery, WebhookDelivery, WebhookQueue, retry_delay,
  finish, attempted, is_success, after_failure, take_answer, attempt, attempt_all, due, later,
  deliver_due,
}

-- A delivery that was attempted at least so often, and fewer than four times.
abbrev Tried : ℕ → PendingDelivery → Type 0
Tried r delivery = (r ≤ delivery.attempts) × (delivery.attempts < 4)

-- Every delivery is due.
abbrev pub AllDue : ℕ → List PendingDelivery → Type 0
AllDue now pending = All (λ d. d.next_attempt_at ≤ now) pending

-- Looks at the queue, each at a time when all that waits is due, with whatever answers.
pub data Looks (retry_base : ℕ) : ℕ → WebhookQueue → WebhookQueue → Type 0 where
  no_round : {q : WebhookQueue} → Looks retry_base 0 q q
  one_round :
      {n : ℕ} {q after : WebhookQueue} (post : PendingDelivery → Res String ℕ)
      (answered : ℕ → String) (now retried_at : ℕ)
      → AllDue now q.pending
      → Looks retry_base n (deliver_due post answered retry_base now retried_at q) after
      → Looks retry_base (suc n) q after

push_few :
    (history : List WebhookDelivery) (d : WebhookDelivery)
    → length history ≤ 199
    → length (history ++ (d ∷ [])) ≤ 200
push_few history d h = omega (arith, length-append history (d ∷ []))

all_due :
    (now : ℕ) (pending : List PendingDelivery)
    → AllDue now pending
    → (due now pending ≡ pending) × (later now pending ≡ [])
all_due now [] h = (refl, refl)
all_due now (d ∷ pending) h =
    let e : leb d.next_attempt_at now ≡ true = ground arith in
    let (rest, none_left) = all_due now pending h.1 in rw e (ap (λ l. d ∷ l) rest, none_left)

module _ (post : PendingDelivery → Res String ℕ) (answered : ℕ → String) (retry_base : ℕ) where
  -- What a queue holds, and that its history is not too long.
  abbrev Holds : ℕ → WebhookQueue → Type 0
  Holds r q = All (Tried r) q.pending × (length q.history ≤ 200)

  finish-Holds :
      (r : ℕ) (delivery : PendingDelivery) (status : DeliveryStatus) (response_status : Option ℕ)
      (error : Option String) (now : ℕ) (q : WebhookQueue)
      → Holds r q
      → Holds r (finish delivery status response_status error now q)
  unfolding finish
  finish-Holds r delivery status response_status error now q (tried, short) = (
    tried,
    elim (Bool-cases (length q.history == 200)) [
      | inl e ↦ rw e (push_few (drop 1 q.history) _ (omega (arith, length-drop 1 q.history)))
      | inr e ↦ rw e (push_few q.history _ (ground arith))
    ],
  )

  after_failure-Holds :
      (r : ℕ) (delivery : PendingDelivery) (response_status : Option ℕ) (error : String) (now : ℕ)
      (q : WebhookQueue)
      → r ≤ delivery.attempts
      → Holds r q
      → Holds r (
          after_failure
            (retry_delay delivery.attempts retry_base)
            delivery
            response_status
            error
            now
            q)
  unfolding retry_delay
  after_failure-Holds r delivery response_status error now q low h =
      elim (Bool-cases (leb 4 delivery.attempts)) [
        | inl e ↦ rw e (finish-Holds r delivery failed response_status (some error) now q h)
        | inr e ↦ rw e (All-append (Tried r) q.pending _ h.0 ((low, ground arith), tt), h.1)
      ]

  attempt-Holds :
      (r : ℕ) (delivery : PendingDelivery) (now : ℕ) (q : WebhookQueue)
      → Tried r delivery
      → Holds (suc r) q
      → Holds (suc r) (attempt post answered retry_base delivery now q)
  unfolding attempt
  attempt-Holds r delivery now q tried h = go (post delivery)
    where
      go :
          (result : Res String ℕ)
          → Holds (suc r) (take_answer post answered retry_base (attempted delivery) result now q)
      go (ok status) = elim (Bool-cases (is_success status)) [
        | inl e ↦
            rw e (finish-Holds (suc r) (attempted delivery) delivered (some status) none now q h)
        | inr e ↦ rw e (
            after_failure-Holds (suc r) (attempted delivery) (some status) (answered status) now q
              (omega arith) h)
      ]
      go (err error) =
          after_failure-Holds (suc r) (attempted delivery) none error now q (omega arith) h

  attempt_all-Holds :
      (r : ℕ) (waiting : List PendingDelivery) (now : ℕ) (q : WebhookQueue)
      → All (Tried r) waiting
      → Holds (suc r) q
      → Holds (suc r) (attempt_all post answered retry_base waiting now q)
  unfolding attempt_all
  attempt_all-Holds r [] now q tried h = h
  attempt_all-Holds r (delivery ∷ waiting) now q tried h =
      attempt_all-Holds r waiting now (attempt post answered retry_base delivery now q) tried.1
        (attempt-Holds r delivery now q tried.0 h)

  deliver_due-Holds :
      (r now retried_at : ℕ) (q : WebhookQueue)
      → AllDue now q.pending
      → Holds r q
      → Holds (suc r) (deliver_due post answered retry_base now retried_at q)
  unfolding deliver_due
  deliver_due-Holds r now retried_at q waits (tried, short) =
      let (everything, none_left) = all_due now q.pending waits in
      rw (everything, none_left) (attempt_all-Holds r q.pending retried_at _ tried (tt, short))

rounds-Holds :
    (retry_base r n : ℕ) (q after : WebhookQueue)
    → All (Tried r) q.pending
    → length q.history ≤ 200
    → Looks retry_base n q after
    → All (Tried (n + r)) after.pending × (length after.history ≤ 200)
rounds-Holds retry_base r zero q after tried short no_round =
    let same : 0 + r ≡ r = omega arith in
    (subst (λ n. All (Tried n) q.pending) (sym same) tried, short)
rounds-Holds retry_base r (suc n) q after tried short
      (one_round post answered now retried_at waits rounds) =
    let (tried1, short1) =
      deliver_due-Holds post answered retry_base r now retried_at q waits (tried, short) in
    let (tried2, short2) =
      rounds-Holds retry_base (suc r) n (deliver_due post answered retry_base now retried_at q)
        after tried1 short1 rounds in
    let same : n + suc r ≡ suc n + r = omega arith in
    (subst (λ n. All (Tried n) after.pending) same tried2, short2)

-- A delivery that is waiting has been attempted fewer than four times.
abbrev pub IsWaiting : PendingDelivery → Type 0
IsWaiting delivery = delivery.attempts < 4

-- Where every delivery that waits was attempted fewer than four times, and the worker looks four
-- times, each time when all that waits is due, then whatever the receivers answer no delivery is
-- left waiting, and the history, if it held at most 200, still does.
pub four_rounds :
    (retry_base : ℕ) (q after : WebhookQueue)
    → All IsWaiting q.pending
    → length q.history ≤ 200
    → Looks retry_base 4 q after
    → (after.pending ≡ []) × (length after.history ≤ 200)
four_rounds retry_base q after waiting short rounds =
    let tried : All (Tried 0) q.pending =
      All-map IsWaiting (Tried 0) (λ d h. (omega arith, h)) q.pending waiting in
    let (worn, still) = rounds-Holds retry_base 0 4 q after tried short rounds in
    (no_more after.pending worn, still)
  where
    no_more : (pending : List PendingDelivery) → All (Tried 4) pending → pending ≡ []
    no_more [] h = refl
    no_more (d ∷ pending) h = absurd (omega (arith, h.0.0, h.0.1))
