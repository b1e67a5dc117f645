-- ===== src/Login/Guesses.antt =====
-- How many guesses of a password the lockout of crates/tiletopia-server/src/db.rs lets through, and
-- which entries of the forwarding headers a client can choose in vain (users.rs).
use tiletopia.Prelude.{
  ℕ, zero, suc, ◌+◌, ◌-◌, ◌≤◌, ◌<◌, String, ◌≡◌, refl, sym, ap, subst, ◌∙◌, ◌⊎◌, inl, inr, Bool,
  true, false, Option, none, some, List, [], ◌∷◌, ◌++◌, arith, leb, ◌==◌, if◌then◌else◌, Bool-cases,
  Option-cases, length, get_elem?, All, length-append,
}
use tiletopia.Prelude.Res.{Res, ok, err}
use mathlib.Core.Option.{some-injective}
use tiletopia.Login.{
  LoginError, unauthorized, locked_out, AccountLimits, Attempts, claim_client, claim_account,
  check_password, login, claim_address_login_attempt, Account, is_unlocked, count_attempt,
  claim_login_attempt, appended_by_trusted_proxy, client_address,
}

unfoldable pub find_account : ℕ → List Account → Option Account
find_account id [] = none
find_account id (account ∷ accounts) =
    let rest = find_account id accounts in if account.id == id then some account else rest

-- How many of the attempts at these times are let through to the password, when none succeeds.
unfoldable pub guesses : ℕ → ℕ → ℕ → List ℕ → List Account → ℕ
unfolding claim_login_attempt
guesses id failures_to_lock lockout [] accounts = 0
guesses id failures_to_lock lockout (now ∷ times) accounts =
    let (claimed, after) = claim_login_attempt id now failures_to_lock lockout accounts in
    (if claimed then 1 else 0) + guesses id failures_to_lock lockout times after

module _ (id failures_to_lock lockout : ℕ) where
  claim-find :
      (now : ℕ) (accounts : List Account) {account : Account}
      → find_account id accounts ≡ some account
      → let after = claim_login_attempt id now failures_to_lock lockout accounts in
        (after.0 ≡ is_unlocked account.login_locked_until now)
        × (find_account id after.1
            ≡ some (
                if is_unlocked account.login_locked_until now
                then count_attempt now failures_to_lock lockout account
                else account))
  unfolding find_account claim_login_attempt count_attempt
  claim-find now [] h = cc
  claim-find now (other ∷ accounts) h = elim (Bool-cases (other.id == id)) [
    | inl e ↦
        let same = some-injective _ _ (rw e at h) in
        subst
          (λ a.
            let after = claim_login_attempt id now failures_to_lock lockout (other ∷ accounts) in
            (after.0 ≡ is_unlocked a.login_locked_until now)
            × (find_account id after.1
                ≡ some (
                    if is_unlocked a.login_locked_until now
                    then count_attempt now failures_to_lock lockout a
                    else a)))
          same
          (elim (Bool-cases (is_unlocked other.login_locked_until now)) [
            | inl u ↦ rw (e, u) (refl, rw e refl)
            | inr u ↦ rw (e, u) (refl, rw e refl)
          ])
    | inr e ↦ rw (e, e) (claim-find now accounts (rw e at h))
  ]

  -- The times lie within one lockout from a start.
  abbrev pub Within : ℕ → List ℕ → Type 0
  Within start times = All (λ t. (start ≤ t) × (t < start + lockout)) times

  guesses_locked :
      (start until : ℕ) (times : List ℕ) (accounts : List Account) {account : Account}
      → find_account id accounts ≡ some account
      → account.login_locked_until ≡ some until
      → start + lockout ≤ until
      → Within start times
      → guesses id failures_to_lock lockout times accounts ≡ 0
  unfolding guesses is_unlocked
  guesses_locked start until [] accounts found locked late h = refl
  guesses_locked start until (now ∷ times) accounts {account} found locked late h =
      let (claimed, after) = claim-find now accounts found in
      let closed : is_unlocked account.login_locked_until now ≡ false = rw locked (ground arith) in
      let rest =
        guesses_locked start until times
          (claim_login_attempt id now failures_to_lock lockout accounts).1 {account = account}
          (rw closed at after) locked late h.1 in
      let refused = claimed ∙ closed in ground arith

  count_attempt-locks :
      (now : ℕ) (account : Account)
      → leb failures_to_lock (account.failed_logins + 1) ≡ true
      → (count_attempt now failures_to_lock lockout account).login_locked_until
        ≡ some (now + lockout)
  unfolding count_attempt
  count_attempt-locks now account l = rw l refl

  count_attempt-counts :
      (now : ℕ) (account : Account)
      → leb failures_to_lock (account.failed_logins + 1) ≡ false
      → (count_attempt now failures_to_lock lockout account).failed_logins
        ≡ account.failed_logins + 1
  unfolding count_attempt
  count_attempt-counts now account l = rw l refl

  guesses_bound :
      (start : ℕ) (times : List ℕ) (accounts : List Account) (account : Account)
      → find_account id accounts ≡ some account
      → account.failed_logins < failures_to_lock
      → Within start times
      → guesses id failures_to_lock lockout times accounts + account.failed_logins
        ≤ failures_to_lock
  unfolding guesses
  guesses_bound start [] accounts account found few h = omega arith
  guesses_bound start (now ∷ times) accounts account found few h =
      let (claimed, after) = claim-find now accounts found in
      let rows = (claim_login_attempt id now failures_to_lock lockout accounts).1 in
      let counted = count_attempt now failures_to_lock lockout account in
      elim (Bool-cases (is_unlocked account.login_locked_until now)) [
        | inr u ↦
            let rest = guesses_bound start times rows account (rw u at after) few h.1 in
            let refused = claimed ∙ u in ground arith
        | inl u ↦ elim (Bool-cases (leb failures_to_lock (account.failed_logins + 1))) [
          | inl l ↦
              let rest =
                guesses_locked start (now + lockout) times rows {account = counted} (rw u at after)
                  (count_attempt-locks now account l) (omega arith) h.1 in
              let granted = claimed ∙ u in ground arith
          | inr l ↦
              let rest =
                guesses_bound start times rows counted (rw u at after)
                  (subst (λ n. n < failures_to_lock) (sym (count_attempt-counts now account l))
                    (ground arith))
                  h.1 in
              let granted = claimed ∙ u in
              let one = count_attempt-counts now account l in ground arith
        ]
      ]

-- Whether a login got as far as the password, which was wrong.
unfoldable pub was_wrong : Res LoginError (Unit {0}) → Bool
was_wrong (ok done) = false
was_wrong (err unauthorized) = true
was_wrong (err (locked_out failures)) = false

-- How many of these logins, each with an address, a time and a wrong password, reach the password.
unfoldable pub wrong_logins : AccountLimits → ℕ → List (String × ℕ) → Attempts → ℕ
unfolding login was_wrong
wrong_logins limits id [] attempts = 0
wrong_logins limits id ((client, now) ∷ rest) attempts =
    let (result, after) = login limits id client now false attempts in
    (if was_wrong result then 1 else 0) + wrong_logins limits id rest after

module _ (limits : AccountLimits) (id failures : ℕ) where
  -- What a login with a wrong password does to the account: nothing, or one claim.
  abbrev Stepped : ℕ → Attempts → Res LoginError (Unit {0}) × Attempts → Type 0
  Stepped now attempts (result, after) =
      let claim = claim_login_attempt id now failures limits.login_lockout attempts.accounts in
      ((was_wrong result ≡ false) × (after.accounts ≡ attempts.accounts))
      ⊎ ((was_wrong result ≡ claim.0) × (after.accounts ≡ claim.1))

  login-Stepped :
      (client : String) (now : ℕ) (attempts : Attempts)
      → limits.account_lockout_failures ≡ some failures
      → Stepped now attempts (login limits id client now false attempts)
  unfolding login claim_client claim_account check_password was_wrong
  login-Stepped client now attempts limited =
      elim (Bool-cases
        (claim_login_attempt id now failures limits.login_lockout attempts.accounts).0) [
          | inl c ↦ elim (Option-cases limits.login_lockout_failures) [
            | inl n ↦ rw (limited, n, c) (inr (refl, refl))
            | inr (f, n) ↦
                elim (Bool-cases
                  (claim_address_login_attempt id client now f limits.login_lockout
                    attempts.clients).0) [
                      | inl d ↦ rw (limited, n, c, d) (inr (refl, refl))
                      | inr d ↦ rw (limited, n, c, d) (inl (refl, refl))
                    ]
          ]
          | inr c ↦ elim (Option-cases limits.login_lockout_failures) [
            | inl n ↦ rw (limited, n, c) (inr (refl, refl))
            | inr (f, n) ↦
                elim (Bool-cases
                  (claim_address_login_attempt id client now f limits.login_lockout
                    attempts.clients).0) [
                      | inl d ↦ rw (limited, n, c, d) (inr (refl, refl))
                      | inr d ↦ rw (limited, n, c, d) (inl (refl, refl))
                    ]
          ]
        ]

  -- The logins reach the password as often as some of their times do.
  wrong_logins-guesses :
      (start : ℕ) (logins : List (String × ℕ)) (attempts : Attempts)
      → limits.account_lockout_failures ≡ some failures
      → All (λ l. (start ≤ l.1) × (l.1 < start + limits.login_lockout)) logins
      → (times : List ℕ) × Within id failures limits.login_lockout start times
        × (wrong_logins limits id logins attempts
            ≡ guesses id failures limits.login_lockout times attempts.accounts)
  unfolding wrong_logins guesses
  wrong_logins-guesses start [] attempts limited h = ([], tt, refl)
  wrong_logins-guesses start ((client, now) ∷ logins) attempts limited h =
      let after = (login limits id client now false attempts).1 in
      let (times, within, same) = wrong_logins-guesses start logins after limited h.1 in
      elim (login-Stepped client now attempts limited) [
        | inl (none_wrong, kept) ↦ (
          times,
          within,
          (let k = ap (guesses id failures limits.login_lockout times) kept in
              rw none_wrong (omega arith)),
        )
        | inr (counted, claimed) ↦ (
          now ∷ times,
          (h.0, within),
          (let k = ap (guesses id failures limits.login_lockout times) claimed in
              rw counted (omega arith)),
        )
      ]

  -- Where an account with a limit has fewer failures counted than the limit, of any logins within
  -- the time of one lockout, from whatever addresses, all with a wrong password, at most as many
  -- reach the password check as the limit leaves after those failures.
  pub wrong_logins_bound :
      (start : ℕ) (logins : List (String × ℕ)) (attempts : Attempts) (account : Account)
      → limits.account_lockout_failures ≡ some failures
      → find_account id attempts.accounts ≡ some account
      → account.failed_logins < failures
      → All (λ l. (start ≤ l.1) × (l.1 < start + limits.login_lockout)) logins
      → wrong_logins limits id logins attempts + account.failed_logins ≤ failures
  wrong_logins_bound start logins attempts account limited found few h =
      let (times, within, same) = wrong_logins-guesses start logins attempts limited h in
      let bound =
        guesses_bound id failures limits.login_lockout start times attempts.accounts account found
          few within in
      omega arith

get_elem?-append :
    {A : Type 0} (xs ys : List A) (k : ℕ) → get_elem? (xs ++ ys) (length xs + k) ≡ get_elem? ys k
get_elem?-append [] ys k = ap (get_elem? ys) (omega arith)
get_elem?-append (x ∷ xs) ys k =
    let next : length (x ∷ xs) + k ≡ suc (length xs + k) = omega arith in
    ap (get_elem? ((x ∷ xs) ++ ys)) next ∙ get_elem?-append xs ys k

-- What a client puts before the entries of the trusted proxies does not change the address that it
-- is counted under; without trusted proxies no entry does.
pub client_address_lem :
    (parse : String → Option String) (forged trusted : List String) (peer : Option String)
    (hops : ℕ)
    → hops ≤ length trusted
    → client_address parse (forged ++ trusted) peer hops ≡ client_address parse trusted peer hops
unfolding client_address appended_by_trusted_proxy
client_address_lem parse forged trusted peer zero h = refl
client_address_lem parse forged trusted peer (suc from_right) h =
    let counted = length-append forged trusted in
    let place : length (forged ++ trusted) - (from_right + 1)
        ≡ length forged + (length trusted - (from_right + 1)) =
      omega arith in
    let long : leb (from_right + 1) (length (forged ++ trusted)) ≡ true = ground arith in
    let enough : leb (from_right + 1) (length trusted) ≡ true = ground arith in
    rw (long, enough, place, get_elem?-append forged trusted (length trusted - (from_right + 1)))
      refl
