-- ===== src/Login/Tests.antt =====
-- Runs of the login counters and of the client address.
use tiletopia.Prelude.{
  ℕ, ◌+◌, ◌≤◌, String, ◌≡◌, refl, Option, none, some, List, [], ◌∷◌, ◌++◌, arith,
}
use tiletopia.Login.{Account, AccountLimits, Attempts, client_address}
use tiletopia.Login.Guesses.{find_account, wrong_logins, wrong_logins_bound, client_address_lem}

abbrev ann : Account
ann = record { id = 4; failed_logins = 1; login_locked_until = none }

abbrev three_wrong : AccountLimits
three_wrong = record {
  login_lockout_failures = some 2;
  account_lockout_failures = some 3;
  login_lockout = 60;
}

abbrev start_state : Attempts
start_state = record { accounts = ann ∷ []; clients = [] }

abbrev tries : List (String × ℕ)
tries = ("a", 100) ∷ ("b", 101) ∷ ("c", 102) ∷ ("d", 103) ∷ []

two_reach : wrong_logins three_wrong 4 tries start_state ≡ 2
unfolding wrong_logins
two_reach = refl

there : find_account 4 start_state.accounts ≡ some ann
unfolding find_account
there = refl

wrong_logins_bound_example : wrong_logins three_wrong 4 tries start_state + 1 ≤ 3
wrong_logins_bound_example =
    wrong_logins_bound three_wrong 4 3 100 tries start_state ann refl there (omega arith) (
      (omega arith, omega arith),
      ((omega arith, omega arith), ((omega arith, omega arith), ((omega arith, omega arith), tt))),
    )

abbrev reads_all : String → Option String
reads_all text = some text

client_address_lem_example :
    client_address reads_all (("1.1.1.1" ∷ []) ++ ("2.2.2.2" ∷ [])) (some "3.3.3.3") 1
    ≡ client_address reads_all ("2.2.2.2" ∷ []) (some "3.3.3.3") 1
client_address_lem_example =
    client_address_lem reads_all ("1.1.1.1" ∷ []) ("2.2.2.2" ∷ []) (some "3.3.3.3") 1 (omega arith)
