-- ===== src/Webhooks/Tests.antt =====
-- A delivery to a receiver that is down.
use tiletopia.Prelude.{ℕ, suc, ◌≤◌, String, ◌≡◌, refl, sym, subst, [], ◌∷◌, arith, length, All}
use tiletopia.Prelude.Res.{Res, err}
use tiletopia.Webhooks.Queue.{
  PendingDelivery, WebhookQueue, emit, retry_delay, attempt, attempt_all, deliver_due,
}
use tiletopia.Webhooks.Rounds.{Looks, no_round, one_round, four_rounds}

abbrev down : PendingDelivery → Res String ℕ
down delivery = err "connection refused"

abbrev answered : ℕ → String
answered status = "receiver answered an error"

abbrev nothing : WebhookQueue
nothing = record { pending = []; history = [] }

-- One event for one receiver, queued at time 100.
abbrev queued : WebhookQueue
queued = emit 1 7 [] 100 (record { id = 3; url = "https://a"; secret = "whsec_x" } ∷ []) nothing

abbrev look : ℕ → WebhookQueue → WebhookQueue
look now q = deliver_due down answered 30 now now q

-- The first attempt fails, and the next is due after 30 seconds.
abbrev waits : ℕ → ℕ → PendingDelivery
waits attempts next_attempt_at = record {
  id = 1;
  subscription_id = 3;
  event = 7;
  url = "https://a";
  secret = "whsec_x";
  body = [];
  attempts = attempts;
  next_attempt_at = next_attempt_at;
  queued_at = 100;
}

abbrev waiting : ℕ → ℕ → WebhookQueue
waiting attempts next_attempt_at = record {
  pending = waits attempts next_attempt_at ∷ [];
  history = [];
}

emits : queued ≡ waiting 0 100
unfolding emit
emits = refl

first : look 100 (waiting 0 100) ≡ waiting 1 130
unfolding deliver_due attempt_all attempt retry_delay
first = refl

second : look 130 (waiting 1 130) ≡ waiting 2 190
unfolding deliver_due attempt_all attempt retry_delay
second = refl

third : look 190 (waiting 2 190) ≡ waiting 3 310
unfolding deliver_due attempt_all attempt retry_delay
third = refl

look_first :
    {n : ℕ} {q middle after : WebhookQueue} (now : ℕ)
    → All (λ d. d.next_attempt_at ≤ now) q.pending
    → look now q ≡ middle
    → Looks 30 n middle after
    → Looks 30 (suc n) q after
look_first {n = n} {after = after} now h e rounds =
    one_round down answered now now h (subst (λ m. Looks 30 n m after) (sym e) rounds)

four_times : Looks 30 4 (waiting 0 100) (look 310 (waiting 3 310))
four_times =
    look_first 100 (omega arith, tt) first
      (look_first 130 (omega arith, tt) second
        (look_first 190 (omega arith, tt) third (look_first 310 (omega arith, tt) refl no_round)))

four_rounds_example :
    ((look 310 (waiting 3 310)).pending ≡ []) × (length (look 310 (waiting 3 310)).history ≤ 200)
four_rounds_example =
    four_rounds 30 (waiting 0 100) (look 310 (waiting 3 310)) (omega arith, tt) (omega arith)
      four_times
