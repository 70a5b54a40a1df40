-- ===== src/Tests/Users.antt =====
-- The operator's account, set in a file that is missing, and deleted from one that is there.
use school_bells.Prelude.{
  ◌≡◌, ◌≢◌, refl, String, true, List, [], ◌∷◌, none, some, str_eq, if◌then◌else◌,
}
use school_bells.Prelude.Results.{Result, ok}
use school_bells.Dates.{◌&◌}
use school_bells.Accounts.{
  Entry, account, Stored, missing, database, verify, verify_among, set_password, delete_user,
  new_account,
}
use school_bells.Accounts.Views.{Sets, set_password-Maps}
use school_bells.Accounts.Logins.{set_password-verify, delete_user-verify, entries}

abbrev joining : String → String → String
joining password salt = password & salt

abbrev as_given : String → String
as_given name = name

abbrev operator_set : Stored × Result (Unit {0})
operator_set = set_password joining "operator" "operator" "correct horse battery" "s1" missing

operator_is_set : operator_set.1 ≡ ok tt
unfolding set_password
operator_is_set = refl

set_password-Maps_example :
    Sets joining "operator" "operator" "correct horse battery" "s1" missing operator_set.0
      operator_set.1
set_password-Maps_example =
    set_password-Maps joining "operator" "operator" "correct horse battery" "s1" missing

set_password-verify_example :
    (◌≡◌ {A = String} "operator" "operator"
      → verify joining as_given "changeme" "operator" "guess" operator_set.0 ≡ (
          if str_eq (joining "guess" "s1") (joining "correct horse battery" "s1")
          then ok (some (record { username = "operator"; role = "operator" }))
          else ok none))
    × (◌≢◌ {A = String} "operator" "operator"
        → verify joining as_given "changeme" "operator" "guess" operator_set.0
          ≡ verify_among joining "operator" "guess" (entries missing))
set_password-verify_example =
    set_password-verify joining as_given "changeme" "operator" "operator" "correct horse battery"
      "s1" "operator" "guess" missing operator_is_set

abbrev both : List Entry
both =
    account (new_account joining "admin" "admin" "another long password" "s0")
    ∷ account (new_account joining "operator" "operator" "correct horse battery" "s1")
    ∷ []

operator_deleted : (delete_user "operator" (database 4 both)).1 ≡ ok true
unfolding delete_user new_account
operator_deleted = refl

delete_user-verify_example :
    (◌≢◌ {A = String} "operator" "admin")
    × (◌≡◌ {A = String} "admin" "operator"
        → verify joining as_given "changeme" "admin" "guess"
            (delete_user "operator" (database 4 both)).0
          ≡ ok none)
    × (◌≢◌ {A = String} "admin" "operator"
        → verify joining as_given "changeme" "admin" "guess"
            (delete_user "operator" (database 4 both)).0
          ≡ verify joining as_given "changeme" "admin" "guess" (database 4 both))
delete_user-verify_example =
    delete_user-verify joining as_given "changeme" "operator" "admin" "guess" 4 both true
      operator_deleted
