-- ===== src/Scheduler/Fire/Once.antt =====
-- Any number of calls of `fire`, in threads and processes that share the database, step by step.
use school_bells.Prelude.{
  ℕ, ◌+◌, ◌≤◌, ◌<◌, ◌≡◌, ◌≢◌, refl, ap, String, Bool, true, false, List, [], ◌∷◌, ◌++◌, Option,
  none, arith, ◌==◌, ==_iff, if◌then◌else◌, All, All-imp, inl, inr,
}
use school_bells.Dates.{Moment}
use school_bells.Safety.{SafetyDecision, evaluate_fire}
use school_bells.Fires.{
  PlannedEvent, Tables, has_attempt, attempt_count, record_once, update_result, reached,
}
use school_bells.Fires.Claims.{
  has_row-append, count_day-append, record_once-cases, record_once_effect, record_once_iff,
  count_day-update_rows, has_row-update_rows,
}
use school_bells.Scheduler.Fire.{
  FireRequest, Transmission, completed, raised, day_of, key_of_request, prepare, claim, conclude,
  config_changed, is_late, fire_check,
}

-- The keys claimed for a transmission, the latest first.
abbrev pub Sent : Type 0
Sent = List (ℕ × String)

pub record System : Type 0 where
  pub tables : Tables
  pub ready : List FireRequest
  pub sending : List FireRequest
  pub sent : Sent

-- `most` bounds the caps of the configurations in force.
pub data Step (most : ℕ) : System → System → Type 0 where
  check :
      (s : System) (r : FireRequest)
      → (prepare r s.tables).1 ≡ none
      → Step most s (record s { tables = (prepare r s.tables).0; ready = r ∷ s.ready })
  refused :
      (s : System) (r : FireRequest) → Step most s (record s { tables = (prepare r s.tables).0 })
  won :
      (s : System) (before rest : List FireRequest) (r : FireRequest)
      → s.ready ≡ before ++ r ∷ rest
      → r.safety.max_events_per_day ≤ most
      → (claim r s.tables).1 ≡ true
      → Step most s (record {
        tables = (claim r s.tables).0;
        ready = before ++ rest;
        sending = r ∷ s.sending;
        sent = (day_of r, key_of_request r) ∷ s.sent;
      })
  lost :
      (s : System) (before rest : List FireRequest) (r : FireRequest)
      → s.ready ≡ before ++ r ∷ rest
      → (claim r s.tables).1 ≡ false
      → Step most s (record s { tables = (claim r s.tables).0; ready = before ++ rest })
  ended :
      (s : System) (before rest : List FireRequest) (r : FireRequest) (outcome : Transmission)
      → s.sending ≡ before ++ r ∷ rest
      → Step most s
          (record s { tables = (conclude r outcome s.tables).0; sending = before ++ rest })
  -- A process dies; the database keeps what was written.
  crashed : (s : System) → Step most s (record s { ready = []; sending = [] })

pub data Run (most : ℕ) (t : Tables) : System → Type 0 where
  start : Run most t (record { tables = t; ready = []; sending = []; sent = [] })
  step : {s u : System} → Run most t s → Step most s u → Run most t u

-- No attempt is forgotten.
record Grows (t u : Tables) : Type 0 where
  keeps : (d : ℕ) (k : String) → has_attempt d k t ≡ true → has_attempt d k u ≡ true
  counts : (d : ℕ) → attempt_count d t ≤ attempt_count d u

Grows-refl : (t : Tables) → Grows t t
Grows-refl t = record { keeps = λ d k h. h; counts = λ d. omega arith }

Grows-record :
    (day : ℕ) (k result detail : String) (now : Moment) (planned : Option PlannedEvent)
    (most : Option ℕ) (t : Tables)
    → Grows t (record_once day k result detail now planned most t).0
unfolding has_attempt attempt_count
Grows-record day k result detail now planned most t =
    elim (record_once-cases day k result detail now planned most t) [
      | inl e ↦ rw e (Grows-refl t)
      | inr (e, fresh, room) ↦ rw e (record {
        keeps = λ d j h. rw (has_row-append d j t.fire_attempts, h) refl;
        counts = λ d. omega (arith, count_day-append d t.fire_attempts);
      })
    ]

Grows-update :
    (day : ℕ) (k result detail : String) (t : Tables)
    → Grows t (update_result day k result detail t)
unfolding has_attempt attempt_count update_result
Grows-update day k result detail t = record {
  keeps = λ d j h. rw (has_row-update_rows day k result detail d j t.fire_attempts) h;
  counts = λ d. omega (arith, count_day-update_rows day k result detail d t.fire_attempts);
}

Grows-if :
    (b : Bool) (t : Tables) (x y : Tables × Option SafetyDecision)
    → Grows t x.0
    → Grows t y.0
    → Grows t (if◌then◌else◌ {A = Tables × Option SafetyDecision} b x y).0
Grows-if true t x y hx hy = hx
Grows-if false t x y hx hy = hy

Grows-prepare : (r : FireRequest) (t : Tables) → Grows t (prepare r t).0
unfolding prepare
Grows-prepare r t = Grows-if r.restore_marker t _ _ (Grows-refl t) (
    Grows-if (config_changed r.expected_config_hash r.config_hash) t _ _ (Grows-refl t) (
      Grows-if (is_late r) t _ _ (Grows-record _ _ _ _ _ _ _ t) (
        Grows-if (has_attempt (day_of r) (key_of_request r) t) t _ _ (Grows-refl t) (
          Grows-if (evaluate_fire (fire_check r t)).allowed t _ _ (Grows-refl t)
            (Grows-record _ _ _ _ _ _ _ t)))))

Grows-conclude : (r : FireRequest) (o : Transmission) (t : Tables) → Grows t (conclude r o t).0
unfolding conclude
Grows-conclude r completed t = Grows-update _ _ _ _ t
Grows-conclude r (raised e) t = Grows-update _ _ _ _ t

abbrev pub sent_on : ℕ → Sent → ℕ
sent_on d [] = 0
sent_on d ((e, k) ∷ l) = (if e == d then 1 else 0) + sent_on d l

-- No key stands twice in the list.
abbrev pub Distinct : Sent → Type 0
Distinct [] = Unit
Distinct (e ∷ l) = All (λ (f : ℕ × String). f ≢ e) l × Distinct l

record Inv (most : ℕ) (s : System) : Type 0 where
  recorded : All (λ (e : ℕ × String). has_attempt e.0 e.1 s.tables ≡ true) s.sent
  distinct : Distinct s.sent
  counted : (d : ℕ) → sent_on d s.sent ≤ attempt_count d s.tables
  bounded : (d : ℕ) → sent_on d s.sent ≤ most

-- A step that only lets the tables grow, and sends nothing, keeps the invariant.
Inv-grow :
    {most : ℕ} (s u : System) → Grows s.tables u.tables → u.sent ≡ s.sent → Inv most s → Inv most u
Inv-grow s u g e i = record {
  recorded = rw e (All-imp _ _ s.sent (λ (f : ℕ × String) h. g.keeps f.0 f.1 h) i.recorded);
  distinct = rw e i.distinct;
  counted = λ d. rw e (omega (arith, i.counted d, g.counts d));
  bounded = λ d. rw e (i.bounded d);
}

module _ (r : FireRequest) (t : Tables) (got : (claim r t).1 ≡ true) where
  claim-attempted : has_attempt (day_of r) (key_of_request r) (claim r t).0 ≡ true
  unfolding claim
  claim-attempted = ((record_once_effect _ _ _ _ _ _ _ t).0 got).0

  claim-count :
      (d : ℕ) → attempt_count d (claim r t).0 ≡ attempt_count d t + (if day_of r == d then 1 else 0)
  unfolding claim
  claim-count d = ((record_once_effect _ _ _ _ _ _ _ t).0 got).1 d

  claim-fresh : has_attempt (day_of r) (key_of_request r) t ≡ false
  unfolding claim
  claim-fresh = ((record_once_iff _ _ _ _ _ _ _ t).0 got).0

  claim-room : attempt_count (day_of r) t < r.safety.max_events_per_day
  unfolding claim reached
  claim-room = ground (arith, ((record_once_iff _ _ _ _ _ _ _ t).0 got).1)

  Grows-claim : Grows t (claim r t).0
  unfolding claim
  Grows-claim = Grows-record _ _ _ _ _ _ _ t

  not_sent : (f : ℕ × String) → has_attempt f.0 f.1 t ≡ true → f ≢ (day_of r, key_of_request r)
  not_sent f h same = cc (ap (λ (g : ℕ × String). has_attempt g.0 g.1 t) same, h, claim-fresh)

Grows-lost : (r : FireRequest) (t : Tables) → Grows t (claim r t).0
unfolding claim
Grows-lost r t = Grows-record _ _ _ _ _ _ _ t

Inv-won :
    (most : ℕ) (s : System) (r : FireRequest) (ready : List FireRequest)
    → r.safety.max_events_per_day ≤ most
    → (claim r s.tables).1 ≡ true
    → Inv most s
    → Inv most (record {
      tables = (claim r s.tables).0;
      ready = ready;
      sending = r ∷ s.sending;
      sent = (day_of r, key_of_request r) ∷ s.sent;
    })
Inv-won most s r ready le got i = record {
  recorded = (
    claim-attempted r s.tables got,
    All-imp _ _ s.sent (λ (f : ℕ × String) h. (Grows-claim r s.tables got).keeps f.0 f.1 h)
        i.recorded,
  );
  distinct = (All-imp _ _ s.sent (not_sent r s.tables got) i.recorded, i.distinct);
  counted = λ d. omega (arith, i.counted d, claim-count r s.tables got d);
  bounded = λ d. below d (day_of r == d) refl;
}
  where
    below :
        (d : ℕ) (b : Bool) → (day_of r == d) ≡ b → (if b then 1 else 0) + sent_on d s.sent ≤ most
    below d true e =
        let same = (==_iff (day_of r) d).0 e in
        omega
          (arith, claim-room r s.tables got, i.counted d, ap (λ x. attempt_count x s.tables) same)
    below d false e = omega (arith, i.bounded d)

Step-Inv : {most : ℕ} {s u : System} → Step most s u → Inv most s → Inv most u
Step-Inv (check s r h) i = Inv-grow s _ (Grows-prepare r s.tables) refl i
Step-Inv (refused s r) i = Inv-grow s _ (Grows-prepare r s.tables) refl i
Step-Inv {most} (won s before rest r e le h) i = Inv-won most s r (before ++ rest) le h i
Step-Inv (lost s before rest r e h) i = Inv-grow s _ (Grows-lost r s.tables) refl i
Step-Inv (ended s before rest r o e) i = Inv-grow s _ (Grows-conclude r o s.tables) refl i
Step-Inv (crashed s) i = Inv-grow s _ (Grows-refl s.tables) refl i

Run-Inv : {most : ℕ} {t : Tables} {s : System} → Run most t s → Inv most s
Run-Inv start = record {
  recorded = tt;
  distinct = tt;
  counted = λ d. omega arith;
  bounded = λ d. omega arith;
}
Run-Inv (step run st) = Step-Inv st (Run-Inv run)

-- However many calls of `fire` run at once, in whatever order their checks, claims and ends reach
-- the database, and whatever processes die on the way: no key of a day is claimed for a second
-- transmission, and no day has more transmissions than the largest daily cap in force.
pub at_most_once :
    {most : ℕ} {t : Tables} {s : System}
    → Run most t s
    → Distinct s.sent × ((d : ℕ) → sent_on d s.sent ≤ most)
at_most_once run = ((Run-Inv run).distinct, (Run-Inv run).bounded)
