-- ===== src/Alerts/Outbox.antt =====
-- What putting a notification into the outbox of bell/alerts.py does to the others.
use school_bells.Prelude.{
  ℕ, ◌+◌, ◌≤◌, ◌<◌, ◌≡◌, ◌≢◌, ◌∙◌, ◌⊎◌, refl, ap, Bool, true, false, ◌&&◌, ◌||◌, List, [], ◌∷◌,
  ◌++◌, Option, none, some, leb, ltb, length, select, is_some, Bool-cases, Option-cases, inl, inr,
  arith, leb→le, length-append, str_eq, eq_iff,
}
use Prim.Native.String.{String}
use school_bells.Dates.{◌&◌}
use school_bells.Alerts.{
  Notification, Table, NewAlert, is_pending, is_sent, trim, keeps, pending_count, pending_limit,
  new_row, alert_key, prior, insert_alert, unless_prior, enqueue_row,
}

select-select {ℓ} :
    {A : Type ℓ} (p q : A → Bool) (xs : List A)
    → ((x : A) → p x ≡ true → q x ≡ true)
    → select p (select q xs) ≡ select p xs
select-select p q [] h = refl
select-select p q (x ∷ xs) h = elim (Bool-cases (q x)) [
  | inl kept ↦ elim (Bool-cases (p x)) [
    | inl yes_p ↦ rw (kept, select, yes_p) (ap (λ l. x ∷ l) (select-select p q xs h))
    | inr not_p ↦ rw (kept, select, not_p) (select-select p q xs h)
  ]
  | inr gone ↦ elim (Bool-cases (p x)) [
    | inl yes_p ↦ absurd (cc (h x yes_p))
    | inr not_p ↦ rw (gone, select, not_p) (select-select p q xs h)
  ]
]

select-append {ℓ} :
    {A : Type ℓ} (p : A → Bool) (xs ys : List A) → select p (xs ++ ys) ≡ select p xs ++ select p ys
select-append p [] ys = refl
select-append p (x ∷ xs) ys = elim (Bool-cases (p x)) [
  | inl y ↦ rw (y, select) (ap (λ l. x ∷ l) (select-append p xs ys))
  | inr n ↦ rw (n, select) (select-append p xs ys)
]

-- Trimming the history drops no pending notification.
pub select-trim : (t : Table) → select is_pending (trim t) ≡ select is_pending t
unfolding trim keeps
select-trim t = select-select is_pending _ t (λ n h. rw (h) refl)

-- What an insertion does to the pending rows.
pub record Kept (t u : Table) (url : String) (secret_env : Option String) (now : ℕ) (a : NewAlert)
    (identity : Option String) : Type 0 where
  pub queued :
      is_some identity ≡ true
      → (select is_pending u ≡ select is_pending t ++ new_row url secret_env now a ∷ [])
        × (pending_count u ≤ pending_limit)
  pub refused : is_some identity ≡ false → select is_pending u ≡ select is_pending t

queued-trim :
    (t : Table) (row : Notification)
    → is_pending row ≡ true
    → leb pending_limit (pending_count (trim t)) ≡ false
    → (select is_pending (trim t ++ row ∷ []) ≡ select is_pending t ++ row ∷ [])
      × (pending_count (trim t ++ row ∷ []) ≤ pending_limit)
unfolding pending_count
queued-trim t row p room =
    let all_pending : select is_pending (trim t ++ row ∷ [])
        ≡ select is_pending (trim t) ++ row ∷ [] =
      select-append is_pending (trim t) (row ∷ [])
      ∙ ap (λ l. select is_pending (trim t) ++ l) (rw (p, select) refl) in
    (
      all_pending ∙ ap (λ l. l ++ row ∷ []) (select-trim t),
      rw (all_pending) (
          omega (
            arith,
            below (length (select is_pending (trim t))) room,
            length-append (select is_pending (trim t)) (row ∷ []),
          )),
    )
  where
    below : (n : ℕ) → leb 500 n ≡ false → n < 500
    below n h = ground arith

insert-Kept :
    (url : String) (secret_env : Option String) (now : ℕ) (a : NewAlert) (t : Table)
    → Kept t
        (insert_alert url secret_env now a t).0
        url
        secret_env
        now
        a
        (insert_alert url secret_env now a t).1
unfolding insert_alert
insert-Kept url secret_env now a t =
    elim (Bool-cases (leb pending_limit (pending_count (trim t)))) [
      | inl full ↦
          rw (full, insert_alert)
            (record { queued = λ h. absurd (cc); refused = λ _. select-trim t })
      | inr room ↦
          rw (room, insert_alert)
            (record {
              queued = λ _. queued-trim t (new_row url secret_env now a) refl room;
              refused = λ h. absurd (cc);
            })
    ]

same-Kept :
    (url : String) (secret_env : Option String) (now : ℕ) (a : NewAlert) (t : Table)
    → Kept t t url secret_env now a none
same-Kept url secret_env now a t = record { queued = λ h. absurd (cc); refused = λ _. refl }

unless_prior-Kept :
    (o : Option Notification) (force : Bool) (url : String) (secret_env : Option String) (now : ℕ)
    (a : NewAlert) (t : Table)
    → Kept t
        (unless_prior o force url secret_env now a t).0
        url
        secret_env
        now
        a
        (unless_prior o force url secret_env now a t).1
unfolding unless_prior
unless_prior-Kept none force url secret_env now a t = insert-Kept url secret_env now a t
unless_prior-Kept (some n) true url secret_env now a t = insert-Kept url secret_env now a t
unless_prior-Kept (some n) false url secret_env now a t = same-Kept url secret_env now a t

-- `_enqueue` never drops a pending notification, whatever it does: one that is queued joins them as
-- the last, and then at most 500 are pending; where it queues none they stay as they were.
pub enqueue_row-Kept :
    (url : String) (secret_env : Option String) (window now : ℕ) (a : NewAlert) (t : Table)
    → Kept t
        (enqueue_row (some url) secret_env window now a t).0
        url
        secret_env
        now
        a
        (enqueue_row (some url) secret_env window now a t).1
unfolding enqueue_row
enqueue_row-Kept String.[] secret_env window now a t = same-Kept String.[] secret_env now a t
enqueue_row-Kept (String.◌∷◌ c s) secret_env window now a t =
    unless_prior-Kept (prior (alert_key a) now window t) a.force (String.◌∷◌ c s) secret_env now a t

prior-append :
    (key : String) (now window : ℕ) (t : Table) (row : Notification)
    → row.dedupe_key ≡ key
    → is_pending row ≡ true
    → is_some (prior key now window (t ++ row ∷ [])) ≡ true
unfolding prior
prior-append key now window [] row e p = rw ((eq_iff row.dedupe_key key).1 e, p, prior) refl
prior-append key now window (n ∷ ns) row e p =
    elim (Bool-cases
      (str_eq n.dedupe_key key && (is_pending n || (is_sent n && ltb now (n.updated + window))))) [
        | inl hit ↦ rw (hit, prior) refl
        | inr miss ↦ rw (miss, prior) (prior-append key now window ns row e p)
      ]

insert-prior :
    (url : String) (secret_env : Option String) (now later window : ℕ) (a : NewAlert) (t : Table)
    → is_some (insert_alert url secret_env now a t).1 ≡ true
    → is_some (prior (alert_key a) later window (insert_alert url secret_env now a t).0) ≡ true
unfolding insert_alert
insert-prior url secret_env now later window a t =
    elim (Bool-cases (leb pending_limit (pending_count (trim t)))) [
      | inl full ↦ rw (full, insert_alert) (λ h. absurd (cc))
      | inr room ↦
          rw (room, insert_alert)
            (λ _.
              prior-append (alert_key a) later window (trim t) (new_row url secret_env now a) refl
                refl)
    ]

unless_prior-prior :
    (o : Option Notification) (force : Bool) (url : String) (secret_env : Option String)
    (now later window : ℕ) (a : NewAlert) (t : Table)
    → is_some (unless_prior o force url secret_env now a t).1 ≡ true
    → is_some (prior (alert_key a) later window (unless_prior o force url secret_env now a t).0)
      ≡ true
unfolding unless_prior
unless_prior-prior none force url secret_env now later window a t h =
    insert-prior url secret_env now later window a t h
unless_prior-prior (some n) true url secret_env now later window a t h =
    insert-prior url secret_env now later window a t h
unless_prior-prior (some n) false url secret_env now later window a t h = absurd (cc)

unless_prior-some :
    (o : Option Notification) (force : Bool) (url : String) (secret_env : Option String) (now : ℕ)
    (a : NewAlert) (t : Table)
    → is_some o ≡ true
    → force ≡ false
    → ((unless_prior o force url secret_env now a t).0 ≡ t)
      × ((unless_prior o force url secret_env now a t).1 ≡ none)
unfolding unless_prior
unless_prior-some none force url secret_env now a t h f = absurd (cc)
unless_prior-some (some n) false url secret_env now a t h f = (refl, refl)
unless_prior-some (some n) true url secret_env now a t h f = absurd (cc)

-- While a notification waits in the outbox, the same message is not queued again unless that is
-- forced, whatever the time: the call that follows one that queued it changes nothing.
pub enqueue_once :
    (url : String) (secret_env : Option String) (window now later : ℕ) (a b : NewAlert) (t : Table)
    → b.kind ≡ a.kind
    → b.message ≡ a.message
    → b.force ≡ false
    → is_some (enqueue_row (some url) secret_env window now a t).1 ≡ true
    → ((enqueue_row
          (some url)
          secret_env
          window
          later
          b
          (enqueue_row (some url) secret_env window now a t).0).0
        ≡ (enqueue_row (some url) secret_env window now a t).0)
      × ((enqueue_row
            (some url)
            secret_env
            window
            later
            b
            (enqueue_row (some url) secret_env window now a t).0).1
          ≡ none)
unfolding enqueue_row alert_key
enqueue_once String.[] secret_env window now later a b t k m f h = absurd (cc)
enqueue_once (String.◌∷◌ c s) secret_env window now later a b t k m f h =
    unless_prior-some (prior (alert_key b) later window _) b.force (String.◌∷◌ c s) secret_env later
      b _
      (ap (λ key. is_some (prior key later window u)) same
        ∙ unless_prior-prior (prior (alert_key a) now window t) a.force (String.◌∷◌ c s) secret_env
            now later window a t h)
      f
  where
    u : Table
    u = (enqueue_row (some (String.◌∷◌ c s)) secret_env window now a t).0

    same : alert_key b ≡ alert_key a
    same = ap (λ kind. kind & "|" & b.message) k ∙ ap (λ text. a.kind & "|" & text) m

-- The message of a call of `_enqueue` is in the outbox, or the outbox is full.
abbrev pub Holds : String → ℕ → ℕ → Table → Type 0
Holds key now window t =
    (is_some (prior key now window t) ≡ true) ⊎ (pending_limit ≤ pending_count t)

unless_prior-Holds :
    (url : String) (secret_env : Option String) (now window : ℕ) (a : NewAlert) (t : Table)
    → a.force ≡ false
    → Holds
        (alert_key a)
        now
        window
        (unless_prior (prior (alert_key a) now window t) a.force url secret_env now a t).0
unfolding unless_prior insert_alert
unless_prior-Holds url secret_env now window a t f =
    elim (Option-cases (prior (alert_key a) now window t)) [
      | inr (n, found) ↦ rw (f, found, unless_prior) (inl (ap is_some found))
      | inl new ↦
          rw (new, unless_prior)
            (inserted (Bool-cases (leb pending_limit (pending_count (trim t)))))
    ]
  where
    inserted :
        ((leb pending_limit (pending_count (trim t)) ≡ true)
          ⊎ (leb pending_limit (pending_count (trim t)) ≡ false))
        → Holds (alert_key a) now window (insert_alert url secret_env now a t).0
    inserted (inl full) = rw (full, insert_alert) (inr (leb→le _ _ full))
    inserted (inr room) =
        rw (room, insert_alert)
          (inl (
            prior-append (alert_key a) now window (trim t) (new_row url secret_env now a) refl
              refl))

pub enqueue_row-Holds :
    (url : String) (secret_env : Option String) (window now : ℕ) (a : NewAlert) (t : Table)
    → url ≢ ""
    → a.force ≡ false
    → Holds (alert_key a) now window (enqueue_row (some url) secret_env window now a t).0
unfolding enqueue_row
enqueue_row-Holds String.[] secret_env window now a t some_url f = absurd (some_url refl)
enqueue_row-Holds (String.◌∷◌ c s) secret_env window now a t some_url f =
    unless_prior-Holds (String.◌∷◌ c s) secret_env now window a t f
