-- ===== src/Login.antt =====
-- The counting of logins: `login` and `client_address` of crates/tiletopia-server/src/users.rs, with
-- the statements of db.rs that count the attempts. Times are whole seconds. A query that fails ends
-- a login with an internal error and is left out; so is the upgrade of an old password hash.
use tiletopia.Prelude.{
  ℕ, zero, suc, ◌+◌, ◌-◌, String, Bool, true, false, not, ◌&&◌, Option, none, some, List, [], ◌∷◌,
  leb, ◌==◌, if◌then◌else◌, is_some, length, get_elem?,
}
use tiletopia.Prelude.Res.{Res, ok, err, guard, is_ok}
use text.Mathlib.Text
pub mod Guesses
pub mod Tests

-- The columns of a row of `users` that the lockout uses.
pub record Account : Type 0 where
  pub id : ℕ
  pub failed_logins : ℕ
  pub login_locked_until : Option ℕ

-- A row of `login_failures`.
pub record LoginFailures : Type 0 where
  pub user_id : ℕ
  pub client : String
  pub failures : ℕ
  pub updated_at : ℕ
  pub locked_until : Option ℕ

-- `locked_until IS NULL OR locked_until <= now`
unfoldable pub is_unlocked : Option ℕ → ℕ → Bool
is_unlocked none now = true
is_unlocked (some until) now = leb until now

-- What the UPDATE of `claim_login_attempt` sets.
unfoldable pub count_attempt : ℕ → ℕ → ℕ → Account → Account
count_attempt now failures_to_lock lockout account =
    let locks = leb failures_to_lock (account.failed_logins + 1) in
    record {
      id = account.id;
      failed_logins = if locks then 0 else account.failed_logins + 1;
      login_locked_until = if locks then some (now + lockout) else account.login_locked_until;
    }

-- `claim_login_attempt`: whether a row was updated, and the rows; `id` is the primary key
unfoldable pub claim_login_attempt : ℕ → ℕ → ℕ → ℕ → List Account → Bool × List Account
unfolding is_unlocked count_attempt
claim_login_attempt id now failures_to_lock lockout [] = (false, [])
claim_login_attempt id now failures_to_lock lockout (account ∷ accounts) =
    let rest = claim_login_attempt id now failures_to_lock lockout accounts in
    if account.id == id
    then if is_unlocked account.login_locked_until now
      then (true, count_attempt now failures_to_lock lockout account ∷ accounts)
      else (false, account ∷ accounts)
    else (rest.0, account ∷ rest.1)

-- `clear_failed_logins`
unfoldable pub clear_failed_logins : ℕ → List Account → List Account
clear_failed_logins id [] = []
clear_failed_logins id (account ∷ accounts) =
    let rest = clear_failed_logins id accounts in
    if account.id == id
    then record { id = account.id; failed_logins = 0; login_locked_until = none } ∷ rest
    else account ∷ rest

-- The row of a user and an address.
abbrev same_client : ℕ → String → LoginFailures → Bool
same_client id client row = row.user_id == id && Text.◌==◌ row.client client

-- The DELETE of idle rows.
unfoldable pub drop_idle : ℕ → ℕ → List LoginFailures → List LoginFailures
unfolding is_unlocked
drop_idle now lockout [] = []
drop_idle now lockout (row ∷ rows) =
    let rest = drop_idle now lockout rows in
    if leb (row.updated_at + lockout) now && is_unlocked row.locked_until now
    then rest
    else row ∷ rest

-- The INSERT of a fresh row, unless there is one.
unfoldable pub insert_client : ℕ → String → ℕ → List LoginFailures → List LoginFailures
insert_client id client now [] =
    record { user_id = id; client = client; failures = 0; updated_at = now; locked_until = none }
    ∷ []
insert_client id client now (row ∷ rows) =
    let rest = insert_client id client now rows in
    if same_client id client row then row ∷ rows else row ∷ rest

-- The UPDATE that counts the attempt.
unfoldable pub count_client :
    ℕ → String → ℕ → ℕ → ℕ → List LoginFailures → Bool × List LoginFailures
unfolding is_unlocked
count_client id client now failures_to_lock lockout [] = (false, [])
count_client id client now failures_to_lock lockout (row ∷ rows) =
    let rest = count_client id client now failures_to_lock lockout rows in
    let locks = leb failures_to_lock (row.failures + 1) in
    if same_client id client row
    then if is_unlocked row.locked_until now
      then (
        true,
        record {
          user_id = row.user_id;
          client = row.client;
          failures = if locks then 0 else row.failures + 1;
          updated_at = now;
          locked_until = if locks then some (now + lockout) else row.locked_until;
        }
            ∷ rows,
      )
      else (false, row ∷ rows)
    else (rest.0, row ∷ rest.1)

unfoldable pub claim_address_login_attempt :
    ℕ → String → ℕ → ℕ → ℕ → List LoginFailures → Bool × List LoginFailures
unfolding drop_idle insert_client count_client
claim_address_login_attempt id client now failures_to_lock lockout rows =
    count_client id client now failures_to_lock lockout
      (insert_client id client now (drop_idle now lockout rows))

unfoldable pub clear_address_failed_logins : ℕ → String → List LoginFailures → List LoginFailures
clear_address_failed_logins id client [] = []
clear_address_failed_logins id client (row ∷ rows) =
    let rest = clear_address_failed_logins id client rows in
    if same_client id client row then rest else row ∷ rest

pub record AccountLimits : Type 0 where
  pub login_lockout_failures : Option ℕ
  pub account_lockout_failures : Option ℕ
  pub login_lockout : ℕ

pub record Attempts : Type 0 where
  pub accounts : List Account
  pub clients : List LoginFailures

pub data LoginError : Type 0 where
  unauthorized : LoginError
  -- the message names the limit
  locked_out : ℕ → LoginError

-- The claim for the address, where there is a limit.
unfoldable pub claim_client :
    AccountLimits → ℕ → String → ℕ → Attempts → Res LoginError (Unit {0}) × Attempts
unfolding claim_address_login_attempt
claim_client limits id client now attempts = elim limits.login_lockout_failures [
  | none ↦ (ok tt, attempts)
  | some failures ↦
      let (claimed, rows) =
        claim_address_login_attempt id client now failures limits.login_lockout attempts.clients in
      (guard claimed (locked_out failures), record { accounts = attempts.accounts; clients = rows })
]

-- The claim for the account.
unfoldable pub claim_account :
    AccountLimits → ℕ → ℕ → Attempts → Res LoginError (Unit {0}) × Attempts
unfolding claim_login_attempt
claim_account limits id now attempts = elim limits.account_lockout_failures [
  | none ↦ (ok tt, attempts)
  | some failures ↦
      let (claimed, rows) =
        claim_login_attempt id now failures limits.login_lockout attempts.accounts in
      (guard claimed (locked_out failures), record { accounts = rows; clients = attempts.clients })
]

-- What a right password clears.
unfoldable pub clear_attempts : AccountLimits → ℕ → String → Attempts → Attempts
unfolding clear_failed_logins clear_address_failed_logins
clear_attempts limits id client attempts = record {
  accounts =
      if is_some limits.account_lockout_failures
      then clear_failed_logins id attempts.accounts
      else attempts.accounts;
  clients =
      if is_some limits.login_lockout_failures
      then clear_address_failed_logins id client attempts.clients
      else attempts.clients;
}

-- `login` of a known user, with the answer of the password check
unfoldable pub check_password :
    AccountLimits → ℕ → String → Bool → Attempts → Res LoginError (Unit {0}) × Attempts
unfolding clear_attempts
check_password limits id client true attempts = (ok tt, clear_attempts limits id client attempts)
check_password limits id client false attempts = (err unauthorized, attempts)

unfoldable pub login :
    AccountLimits → ℕ → String → ℕ → Bool → Attempts → Res LoginError (Unit {0}) × Attempts
unfolding claim_client claim_account check_password
login limits id client now right attempts =
    let (first, after_client) = claim_client limits id client now attempts in
    let (second, after_account) = claim_account limits id now after_client in
    if not (is_ok first)
    then (first, after_client)
    else if not (is_ok second)
    then (second, after_account)
    else check_password limits id client right after_account

-- `client_address`: the entries of the forwarding headers, from left to right, the address of the
-- peer, and the number of trusted proxies. The parameter `parse` reads an address.
abbrev or_peer : Option String → Option String → String
or_peer (some address) peer = address
or_peer none (some address) = address
or_peer none none = "unknown"

unfoldable pub appended_by_trusted_proxy :
    (String → Option String) → List String → ℕ → Option String
appended_by_trusted_proxy parse forwarded zero = none
appended_by_trusted_proxy parse forwarded (suc from_right) =
    if leb (from_right + 1) (length forwarded)
    then elim (get_elem? forwarded (length forwarded - (from_right + 1))) [
      | none ↦ none
      | some entry ↦ parse entry
    ]
    else none

unfoldable pub client_address : (String → Option String) → List String → Option String → ℕ → String
unfolding appended_by_trusted_proxy
client_address parse forwarded peer hops =
    or_peer (appended_by_trusted_proxy parse forwarded hops) peer
