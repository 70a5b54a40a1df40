-- ===== src/Accounts/Logins.antt =====
-- Who can log in after an account of bell/auth.py was set or deleted.
use school_bells.Prelude.{
  ℕ, ◌+◌, ◌≡◌, ◌≢◌, ◌∙◌, refl, sym, ap, String, Bool, true, false, List, [], ◌∷◌, Option, none,
  some, if◌then◌else◌, str_eq, eq_iff, eq_refl, select, Bool-cases, inl, inr, arith, length,
  length-select-le, ◌==◌,
}
use mathlib.Core.Path.{subst}
use school_bells.Prelude.Results.{Result, ok, not-ok-err}
use school_bells.Accounts.{
  Entry, account, Stored, missing, refused, database, AuthenticatedUser, is_other, verify_among,
  new_account, set_password, delete_user, delete_among, verify,
}
use school_bells.Accounts.Views.{
  view, AccountMap, map_or_new, put_account, Maps, verify_among-view, set_password-Maps,
  view_removed, view_others,
}

abbrev pub entries : Stored → List Entry
entries missing = []
entries (refused message) = []
entries (database n es) = es

select-all :
    (p : Entry → Bool) (es : List Entry) → length (select p es) ≡ length es → select p es ≡ es
select-all p [] = λ h. refl
select-all p (e ∷ es) = elim (Bool-cases (p e)) [
  | inl keep ↦ rw (keep, select) (λ h. ap (λ l. e ∷ l) (select-all p es (omega (arith, h))))
  | inr drop ↦ rw (drop, select) (λ h. absurd (omega (arith, h, length-select-le p es)))
]

differ : (b : Bool) → ¬ (b ≡ true) → b ≡ false
differ b h = ground arith

module _ (hash : String → String → String) (normalize : String → String) (bootstrap : String) where
  -- A login reads the map.
  verify-Maps :
      (name password : String) (s : Stored) (m : AccountMap)
      → Maps s m
      → verify hash normalize bootstrap name password s
        ≡ verify_among hash (normalize name) password (m.entries_of (normalize name))
  unfolding verify
  verify-Maps name password missing m k = absurd k
  verify-Maps name password (refused message) m k = absurd k
  verify-Maps name password (database n es) m k =
      verify_among-view hash (normalize name) password es
      ∙ ap (verify_among hash (normalize name) password) (k.1 (normalize name))

  own_login :
      (username role p salt q : String)
      → verify_among hash username q (account (new_account hash username role p salt) ∷ []) ≡ (
          if str_eq (hash q salt) (hash p salt)
          then ok (some (record { username = username; role = role }))
          else ok none)
  unfolding verify_among new_account
  own_login username role p salt q = rw (eq_refl username) refl

  or_new-view :
      (s : Stored) (name : String) → (map_or_new s).entries_of name ≡ view name (entries s)
  or_new-view missing name = refl
  or_new-view (refused message) name = refl
  or_new-view (database n es) name = refl

  -- After `set_password` returned: whoever logs in under a name whose normal form is the account's is
  -- let in, with its role, exactly if the hash of the password given is that of the new one; logins
  -- under other names go by the entries that the file had.
  pub set_password-verify :
      (username role password salt name given : String) (s : Stored)
      → (set_password hash username role password salt s).1 ≡ ok tt
      → (normalize name ≡ username
          → verify hash normalize bootstrap name given
              (set_password hash username role password salt s).0
            ≡ (if str_eq (hash given salt) (hash password salt)
                then ok (some (record { username = username; role = role }))
                else ok none))
        × (normalize name ≢ username
            → verify hash normalize bootstrap name given
                (set_password hash username role password salt s).0
              ≡ verify_among hash (normalize name) given (entries s))
  unfolding new_account
  set_password-verify username role password salt name given s done =
      let a = new_account hash username role password salt in
      let maps = (set_password-Maps hash username role password salt s).maps done in
      let login =
        verify-Maps name given (set_password hash username role password salt s).0
          (put_account a (map_or_new s)) maps in
      (
        (λ same.
            let hit = (eq_iff (normalize name) username).1 same in
            login
            ∙ (rw (hit) (
                subst (λ n. verify_among hash n given (account a ∷ []) ≡ answer) (sym same)
                  (own_login username role password salt given)))),
        (λ other.
            let miss =
              differ (str_eq (normalize name) username)
                (λ e. other ((eq_iff (normalize name) username).0 e)) in
            login
            ∙ (rw (miss) (
                ap (verify_among hash (normalize name) given) (or_new-view s (normalize name))
                ∙ sym (verify_among-view hash (normalize name) given (entries s))))),
      )
    where
      answer : Result (Option AuthenticatedUser)
      answer =
          if str_eq (hash given salt) (hash password salt)
          then ok (some (record { username = username; role = role }))
          else ok none

  nobody : (name given : String) → verify_among hash name given [] ≡ ok none
  unfolding verify_among
  nobody name given = refl

  deleted :
      (username : String) (n : ℕ) (es : List Entry) (b : Bool)
      → (delete_among username n es).1 ≡ ok b
      → entries (delete_among username n es).0 ≡ select (is_other username) es
  unfolding delete_among
  deleted username n es b =
      elim (Bool-cases (length (select (is_other username) es) == length es)) [
        | inl none_left ↦
            rw (none_left, delete_among)
              (λ h. sym (select-all (is_other username) es (equal _ _ none_left)))
        | inr some_left ↦ rw (some_left, delete_among) (λ h. refl)
      ]
    where
      equal : (a b : ℕ) → (a == b) ≡ true → a ≡ b
      equal a b h = ground arith

  verify-entries :
      (name given : String) (s : Stored) (n : ℕ) (es : List Entry)
      → s ≡ database n es
      → verify hash normalize bootstrap name given s ≡ verify_among hash (normalize name) given es
  unfolding verify
  verify-entries name given s n es e = ap (verify hash normalize bootstrap name given) e

  left_database :
      (username : String) (n : ℕ) (es : List Entry)
      → (m : ℕ) × ((delete_among username n es).0
          ≡ database m (entries (delete_among username n es).0))
  unfolding delete_among
  left_database username n es =
      elim (Bool-cases (length (select (is_other username) es) == length es)) [
        | inl none_left ↦ rw (none_left, delete_among) (n, refl)
        | inr some_left ↦ rw (some_left, delete_among) (n + 1, refl)
      ]

  -- After `delete_user` returned for a database, whether it found the account or not, nobody logs in
  -- under a name whose normal form is the deleted one, whatever the password; other logins go as
  -- before, and the administrator's account is never deleted.
  pub delete_user-verify :
      (username name given : String) (n : ℕ) (es : List Entry) (b : Bool)
      → (delete_user username (database n es)).1 ≡ ok b
      → (username ≢ "admin")
        × (normalize name ≡ username
            → verify hash normalize bootstrap name given (delete_user username (database n es)).0
              ≡ ok none)
        × (normalize name ≢ username
            → verify hash normalize bootstrap name given (delete_user username (database n es)).0
              ≡ verify hash normalize bootstrap name given (database n es))
  unfolding delete_user
  delete_user-verify username name given n es b = elim (Bool-cases (str_eq username "admin")) [
    | inl admin ↦ rw (admin, delete_user) (λ h. absurd (not-ok-err (sym h)))
    | inr other_name ↦
        rw (other_name, delete_user)
          (λ h.
            let (m, left) = left_database username n es in
            let login = verify-entries name given (delete_among username n es).0 m _ left in
            let removed = deleted username n es b h in
            (
              (λ e. absurd (cc (other_name, (eq_iff username "admin").1 e))),
              (λ same.
                  login
                  ∙ ap (verify_among hash (normalize name) given) removed
                  ∙ verify_among-view hash (normalize name) given (select (is_other username) es)
                  ∙ ap (verify_among hash (normalize name) given) (
                      subst (λ u. view u (select (is_other username) es) ≡ []) (sym same)
                        (view_removed username es))
                  ∙ nobody (normalize name) given),
              (λ other.
                  login
                  ∙ ap (verify_among hash (normalize name) given) removed
                  ∙ verify_among-view hash (normalize name) given (select (is_other username) es)
                  ∙ ap (verify_among hash (normalize name) given) (
                      view_others (normalize name) username es (
                        differ (str_eq (normalize name) username)
                          (λ e. other ((eq_iff (normalize name) username).0 e))))
                  ∙ sym (verify_among-view hash (normalize name) given es)
                  ∙ sym (verify-entries name given (database n es) n es refl)),
            ))
  ]
