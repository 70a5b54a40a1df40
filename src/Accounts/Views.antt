-- ===== src/Accounts/Views.antt =====
-- The accounts of bell/auth.py as a map from user names to entries, which is all that a login sees.
use school_bells.Prelude.{
  length, codes, ◌≤◌, ◌<◌, ◌≢◌, ℕ, ◌+◌, ◌≡◌, ◌∙◌, refl, sym, ap, String, Bool, true, false, ◌&&◌,
  not, List, [], ◌∷◌, ◌++◌, Option, none, some, if◌then◌else◌, str_eq, eq_iff, select, Bool-cases,
  inl, inr, arith,
}
use mathlib.Core.Path.{subst}
use school_bells.Prelude.Results.{Result, ok, err, not-ok-err}
use school_bells.Accounts.{
  Account, Entry, account, damaged, no_entry, Stored, missing, refused, database, is_of,
  is_dictionary, is_other, verify_among, new_account, with_account, set_password, short_password,
}

-- The entries of a name.
abbrev pub view : String → List Entry → List Entry
view name es = select (is_of name) es

of_other : (v u : String) (e : Entry) → str_eq v u ≡ false → is_of v e ≡ true → is_other u e ≡ true
unfolding is_other is_of is_dictionary
of_other v u (account a) other = λ h. differs a.username v u ((eq_iff a.username v).0 h) other
  where
    differs : (w v u : String) → w ≡ v → str_eq v u ≡ false → not (str_eq w u) ≡ true
    differs w v u same other = rw (same, other) refl
of_other v u (damaged name enabled) other = λ h. rw ((eq_iff name v).0 h, other) refl
of_other v u no_entry other = λ h. absurd cc

of_same : (u : String) (e : Entry) → is_of u e ≡ true → is_other u e ≡ false
unfolding is_other
of_same u e h = rw (h) (and_false (is_dictionary e))
  where
    and_false : (a : Bool) → (a && false) ≡ false
    and_false a = ground arith

-- Removing the entries of one name leaves those of the others.
pub view_others :
    (v u : String) (es : List Entry)
    → str_eq v u ≡ false
    → view v (select (is_other u) es) ≡ view v es
view_others v u [] other = refl
view_others v u (e ∷ es) other = elim (Bool-cases (is_of v e)) [
  | inl hit ↦
      rw (hit, of_other v u e other hit, select, hit) (ap (λ l. e ∷ l) (view_others v u es other))
  | inr miss ↦ elim (Bool-cases (is_other u e)) [
    | inl keep ↦ rw (miss, keep, select, miss) (view_others v u es other)
    | inr drop ↦ rw (miss, drop, select) (view_others v u es other)
  ]
]

pub view_removed : (u : String) (es : List Entry) → view u (select (is_other u) es) ≡ []
view_removed u [] = refl
view_removed u (e ∷ es) = elim (Bool-cases (is_of u e)) [
  | inl hit ↦ rw (of_same u e hit, select) (view_removed u es)
  | inr miss ↦ elim (Bool-cases (is_other u e)) [
    | inl keep ↦ rw (keep, select, miss) (view_removed u es)
    | inr drop ↦ rw (drop, select) (view_removed u es)
  ]
]

select-append :
    (p : Entry → Bool) (xs ys : List Entry) → select p (xs ++ ys) ≡ select p xs ++ select p ys
select-append p [] ys = refl
select-append p (x ∷ xs) ys = elim (Bool-cases (p x)) [
  | inl keep ↦ rw (keep, select) (ap (λ l. x ∷ l) (select-append p xs ys))
  | inr drop ↦ rw (drop, select) (select-append p xs ys)
]

module _ (hash : String → String → String) where
  -- A login looks at the entries of its name alone.
  pub verify_among-view :
      (name password : String) (es : List Entry)
      → verify_among hash name password es ≡ verify_among hash name password (view name es)
  unfolding verify_among is_of
  verify_among-view name password [] = refl
  verify_among-view name password (no_entry ∷ es) = verify_among-view name password es
  verify_among-view name password (damaged username enabled ∷ es) =
      elim (Bool-cases (str_eq username name)) [
        | inl hit ↦
            rw (hit, select, verify_among, hit)
              (ap (λ r. if enabled then err "Stored account record is invalid" else r)
                (verify_among-view name password es))
        | inr miss ↦ rw (miss, select, verify_among) (verify_among-view name password es)
      ]
  verify_among-view name password (account a ∷ es) = elim (Bool-cases (str_eq a.username name)) [
    | inl hit ↦
        rw (hit, select, verify_among, hit)
          (ap
            (λ r.
              if a.enabled && str_eq (hash password a.salt) a.password_hash
              then ok (some (record { username = name; role = a.role }))
              else r)
            (verify_among-view name password es))
    | inr miss ↦ rw (miss, select, verify_among) (verify_among-view name password es)
  ]

-- The contents of the file, seen as a map: the number of its revision, and the entries of each name.
pub record AccountMap : Type 0 where
  pub revision : ℕ
  pub entries_of : String → List Entry

abbrev pub map_of : ℕ → List Entry → AccountMap
map_of n es = record { revision = n; entries_of = λ name. view name es }

-- What the two updates mean for the map.
abbrev pub put_account : Account → AccountMap → AccountMap
put_account a m = record {
  revision = m.revision + 1;
  entries_of = λ name. if str_eq name a.username then account a ∷ [] else m.entries_of name;
}

abbrev pub remove_account : String → AccountMap → AccountMap
remove_account username m = record {
  revision = m.revision + 1;
  entries_of = λ name. if str_eq name username then [] else m.entries_of name;
}

abbrev pub Same : AccountMap → AccountMap → Type 0
Same m k = (m.revision ≡ k.revision) × ((name : String) → m.entries_of name ≡ k.entries_of name)

str_eq-sym : (v u : String) → str_eq v u ≡ false → str_eq u v ≡ false
str_eq-sym v u h = elim (Bool-cases (str_eq u v)) [
  | inr differ ↦ differ
  | inl same ↦ absurd (cc (h, (eq_iff v u).1 (sym ((eq_iff u v).0 same))))
]

append_nil : (es : List Entry) → es ++ [] ≡ es
append_nil [] = refl
append_nil (e ∷ es) = ap (λ l. e ∷ l) (append_nil es)

pub view-put :
    (a : Account) (u name : String) (es : List Entry)
    → a.username ≡ u
    → view name (select (is_other u) es ++ account a ∷ [])
      ≡ (if str_eq name u then account a ∷ [] else view name es)
unfolding is_of
view-put a u name es named =
    select-append (is_of name) (select (is_other u) es) (account a ∷ [])
    ∙ (elim (Bool-cases (str_eq name u)) [
      | inl hit ↦
          let e = (eq_iff name u).0 hit in
          let own : str_eq a.username name ≡ true = (eq_iff a.username name).1 (named ∙ sym e) in
          let gone : view name (select (is_other u) es) ≡ [] =
            subst (λ w. view name (select (is_other w) es) ≡ []) e (view_removed name es) in
          rw (hit, own, gone) refl
      | inr miss ↦
          let other : str_eq a.username name ≡ false =
            ap (λ w. str_eq w name) named ∙ str_eq-sym name u miss in
          rw (miss, other, view_others name u es miss) (append_nil (view name es))
    ])

pub view-remove :
    (u name : String) (es : List Entry)
    → view name (select (is_other u) es) ≡ (if str_eq name u then [] else view name es)
view-remove u name es = elim (Bool-cases (str_eq name u)) [
  | inl hit ↦ rw (hit) (
      subst (λ w. view name (select (is_other w) es) ≡ []) ((eq_iff name u).0 hit)
        (view_removed name es))
  | inr miss ↦ rw (miss) (view_others name u es miss)
]

-- The map that a file holds, none where it is missing or refused.
abbrev pub map_in : Stored → Option AccountMap
map_in missing = none
map_in (refused message) = none
map_in (database n es) = some (map_of n es)

-- The map that `set_password` starts from.
abbrev pub map_or_new : Stored → AccountMap
map_or_new missing = map_of 0 []
map_or_new (refused message) = map_of 0 []
map_or_new (database n es) = map_of n es

abbrev pub Maps : Stored → AccountMap → Type 0
Maps (database n es) m = Same (map_of n es) m
Maps missing m = ⊥
Maps (refused message) m = ⊥

-- How `set_password` ends: the file it leaves and its result.
pub record Sets (hash : String → String → String) (username role password salt : String)
    (s after : Stored) (result : Result (Unit {0})) : Type 0 where
  pub succeeds : 12 ≤ length (codes password) → ((m : String) → s ≢ refused m) → result ≡ ok tt
  pub maps :
      result ≡ ok tt
      → Maps after (put_account (new_account hash username role password salt) (map_or_new s))
  pub short : length (codes password) < 12 → (after ≡ s) × (result ≢ ok tt)
  pub unread : (m : String) → s ≡ refused m → (after ≡ s) × (result ≡ err m)

short_iff :
    (password : String)
    → (short_password password ≡ true → length (codes password) < 12)
      × (short_password password ≡ false → 12 ≤ length (codes password))
unfolding short_password
short_iff password = ((λ h. ground (arith, h)), (λ h. ground (arith, h)))

message_of : Stored → String
message_of missing = ""
message_of (refused message) = message
message_of (database n es) = ""

is_refused : Stored → Bool
is_refused missing = false
is_refused (refused message) = true
is_refused (database n es) = false

-- A password that is too short, with a file that was read.
too_short :
    (hash : String → String → String) (username role password salt e : String) (s : Stored)
    → is_refused s ≡ false
    → short_password password ≡ true
    → Sets hash username role password salt s s (err e)
unfolding is_refused
too_short hash username role password salt e s readable short =
    let few = (short_iff password).0 short in
    record {
      succeeds = λ many _. absurd (omega (arith, few, many));
      maps = λ h. absurd (not-ok-err (sym h));
      short = λ _. (refl, λ h. not-ok-err (sym h));
      unread = λ m h. absurd (cc (ap is_refused h, readable));
    }

-- A password that is long enough, with a file that was read.
long_enough :
    (hash : String → String → String) (username role password salt : String) (s after : Stored)
    → is_refused s ≡ false
    → short_password password ≡ false
    → Maps after (put_account (new_account hash username role password salt) (map_or_new s))
    → Sets hash username role password salt s after (ok tt)
unfolding is_refused
long_enough hash username role password salt s after readable long maps =
    let many = (short_iff password).1 long in
    record {
      succeeds = λ _ _. refl;
      maps = λ _. maps;
      short = λ few. absurd (omega (arith, few, many));
      unread = λ m h. absurd (cc (ap is_refused h, readable));
    }

-- `set_password` refines the update of a map. It returns where the password has 12 characters and
-- the file, if there is one, could be read; then the file holds the map with the new account as the
-- only entry of its name, the other names' entries as they were, and the revision one higher. With
-- fewer characters it fails and leaves the file as it was, and so it does with a file that is
-- refused, whose error it passes on.
pub set_password-Maps :
    (hash : String → String → String) (username role password salt : String) (s : Stored)
    → Sets hash username role password salt s
        (set_password hash username role password salt s).0
        (set_password hash username role password salt s).1
unfolding set_password with_account new_account is_refused message_of
set_password-Maps hash username role password salt (refused message) = record {
  succeeds = λ _ read. absurd (read message refl);
  maps = λ h. absurd (not-ok-err (sym h));
  short = λ _. (refl, λ h. not-ok-err (sym h));
  unread = λ m h. (refl, ap (λ t. err (message_of t)) h);
}
set_password-Maps hash username role password salt missing =
    elim (Bool-cases (short_password password)) [
      | inl short ↦
          rw (short, set_password) (too_short hash username role password salt _ missing refl short)
      | inr long ↦
          rw (long, set_password)
            (long_enough hash username role password salt missing _ refl long (
              refl,
              (λ name.
                  view-put (new_account hash username role password salt) username name [] refl),
            ))
    ]
set_password-Maps hash username role password salt (database n es) =
    elim (Bool-cases (short_password password)) [
      | inl short ↦
          rw (short, set_password)
            (too_short hash username role password salt _ (database n es) refl short)
      | inr long ↦
          rw (long, set_password)
            (long_enough hash username role password salt (database n es) _ refl long (
              refl,
              (λ name.
                  view-put (new_account hash username role password salt) username name es refl),
            ))
    ]
