-- ===== src/Accounts.antt =====
-- AuthStore of bell/auth.py: the accounts of the console, as the file holds them. The file is read and
-- replaced as a whole, so an operation is a function on its content. The password hash is an
-- argument, and so is the normal form of a user name (`strip().lower()`), and the random salt.
pub mod Views
pub mod Logins
use school_bells.Prelude.{
  ℕ, ◌+◌, String, Bool, true, false, ◌&&◌, ◌||◌, not, List, [], ◌∷◌, ◌++◌, Option, none, some, leb,
  ltb, ◌==◌, if◌then◌else◌, str_eq, length, select, codes, all,
}
use school_bells.Prelude.Results.{Result, ok, err}

pub record Account : Type 0 where
  pub username : String
  pub role : String
  pub enabled : Bool
  pub salt : String
  pub password_hash : String

-- An entry of the list: an account, one whose salt or hash is missing or no hexadecimal numeral, or
-- something that is no dictionary.
pub data Entry : Type 0 where
  account : Account → Entry
  damaged : (username : String) → (enabled : Bool) → Entry
  no_entry : Entry

-- The file: missing, refused by `_load` with a message, or a database.
pub data Stored : Type 0 where
  missing : Stored
  refused : String → Stored
  database : (revision : ℕ) → (users : List Entry) → Stored

pub record AuthenticatedUser : Type 0 where
  pub username : String
  pub role : String

unfoldable pub is_of : String → Entry → Bool
is_of name (account a) = str_eq a.username name
is_of name (damaged username enabled) = str_eq username name
is_of name no_entry = false

unfoldable pub is_dictionary : Entry → Bool
is_dictionary (account a) = true
is_dictionary (damaged username enabled) = true
is_dictionary no_entry = false

-- `isinstance(item, dict) and item.get("username") != username`
unfoldable pub is_other : String → Entry → Bool
unfolding is_of is_dictionary
is_other name e = is_dictionary e && not (is_of name e)

unfoldable pub revision : Stored → Result ℕ
revision missing = ok 0
revision (refused message) = err message
revision (database n users) = ok n

unfoldable pub short_password : String → Bool
short_password password = ltb (length (codes password)) 12

-- `secrets.compare_digest` raises a TypeError for a text that is not ASCII.
unfoldable pub is_ascii : String → Bool
is_ascii s = all (λ c. ltb c 128) (codes s)

module _ (hash : String → String → String) where
  -- The loop of `verify` over the entries.
  unfoldable pub verify_among : String → String → List Entry → Result (Option AuthenticatedUser)
  verify_among name password [] = ok none
  verify_among name password (no_entry ∷ es) = verify_among name password es
  verify_among name password (damaged username enabled ∷ es) =
      let rest = verify_among name password es in
      if str_eq username name && enabled then err "Stored account record is invalid" else rest
  verify_among name password (account a ∷ es) =
      let rest = verify_among name password es in
      if str_eq a.username name && a.enabled && str_eq (hash password a.salt) a.password_hash
      then ok (some (record { username = name; role = a.role }))
      else rest

  module _ (normalize : String → String) (bootstrap_password : String) where
    unfoldable pub verify : String → String → Stored → Result (Option AuthenticatedUser)
    unfolding verify_among is_ascii
    verify username password missing =
        if not (str_eq (normalize username) "admin")
        then ok none
        else if not (is_ascii password && is_ascii bootstrap_password)
        then err "comparing strings with non-ASCII characters is not supported"
        else if str_eq password bootstrap_password
        then ok (some (record { username = "admin"; role = "admin" }))
        else ok none
    verify username password (refused message) = err message
    verify username password (database n users) = verify_among (normalize username) password users

  unfoldable pub new_account : String → String → String → String → Account
  new_account username role password salt = record {
    username = username;
    role = role;
    enabled = true;
    salt = salt;
    password_hash = hash password salt;
  }

  with_account : ℕ → List Entry → String → String → String → String → Stored
  unfolding is_other new_account
  with_account n users username role password salt =
      database (n + 1)
        (select (is_other username) users ++ account (new_account username role password salt) ∷ [])

  -- `set_password`: the file that it leaves, and how it ends.
  unfoldable pub set_password :
      String → String → String → String → Stored → Stored × Result (Unit {0})
  unfolding with_account short_password
  set_password username role password salt (refused message) = (refused message, err message)
  set_password username role password salt missing =
      if short_password password
      then (missing, err "Passwords must contain at least 12 characters")
      else (with_account 0 [] username role password salt, ok tt)
  set_password username role password salt (database n users) =
      if short_password password
      then (database n users, err "Passwords must contain at least 12 characters")
      else (with_account n users username role password salt, ok tt)

delete_among : String → ℕ → List Entry → Stored × Result Bool
unfolding is_other
delete_among username n users =
    if length (select (is_other username) users) == length users
    then (database n users, ok false)
    else (database (n + 1) (select (is_other username) users), ok true)

unfoldable pub delete_user : String → Stored → Stored × Result Bool
unfolding delete_among
delete_user username missing =
    if str_eq username "admin"
    then (missing, err "The administrator account cannot be deleted")
    else (missing, ok false)
delete_user username (refused message) =
    if str_eq username "admin"
    then (refused message, err "The administrator account cannot be deleted")
    else (refused message, err message)
delete_user username (database n users) =
    if str_eq username "admin"
    then (database n users, err "The administrator account cannot be deleted")
    else delete_among username n users
