-- ===== src/Service/Watch.antt =====
-- The loop of `main` in bell/service.py: the watchdog's heartbeat, the retries of alerts and the
-- alerts on readiness. Times are microseconds.
use school_bells.Prelude.{
  ℕ, ◌-◌, ◌*◌, ◌≡◌, ◌≢◌, ◌∙◌, ◌↔◌, refl, sym, ap, Bool, true, false, not, List, [], ◌∷◌, ◌++◌,
  Option, none, some, leb, if◌then◌else◌, any, Bool-cases, inl, inr, arith,
}
use mathlib.Core.Path.{subst}
use mathlib.Core.Option.{some-injective}
use school_bells.Dates.{second}

-- What one turn reads: whether scheduler, monitor and both server threads are alive, the clock at
-- its readings, whether maintenance is going on, and what `health_data` says.
pub record Turn : Type 0 where
  pub alive : Bool
  pub beat_clock : ℕ
  pub beat_done : ℕ
  pub maintenance : Bool
  pub check_clock : ℕ
  pub check_done : ℕ
  pub ready : Bool

pub record Supervisor : Type 0 where
  pub last_heartbeat : ℕ
  pub last_check : ℕ
  pub last_ready : Option Bool
  pub component_failed : Bool

pub data Act : Type 0 where
  stopped : Act
  heartbeat : Act
  retry : Act
  readiness_alert : Bool → Act

abbrev pub starting : Supervisor
starting = record {
  last_heartbeat = 0;
  last_check = 0;
  last_ready = none;
  component_failed = false;
}

-- `ready != last_ready`
unfoldable pub changed : Option Bool → Bool → Bool
changed none ready = true
changed (some true) ready = not ready
changed (some false) ready = ready

unfoldable pub check_health : Turn → Supervisor → Supervisor × List Act
unfolding changed
check_health t s =
    if leb (15 * second) (t.check_clock - s.last_check)
    then (
      record s { last_check = t.check_done; last_ready = some t.ready },
      if changed s.last_ready t.ready then readiness_alert t.ready ∷ [] else [],
    )
    else (s, [])

unfoldable pub beat : ℕ → Turn → Supervisor → Supervisor × List Act
beat interval t s =
    if leb interval (t.beat_clock - s.last_heartbeat)
    then (record s { last_heartbeat = t.beat_done }, heartbeat ∷ [])
    else (s, [])

alive_turn : Turn → Supervisor × List Act → Supervisor × List Act
unfolding check_health
alive_turn t (s, acts) =
    if t.maintenance
    then (s, acts)
    else (let (u, more) = check_health t s in (u, acts ++ retry ∷ more))

-- The loop, until a component fails or the turns end, which is when the service is told to stop.
unfoldable pub supervise : ℕ → List Turn → Supervisor → Supervisor × List Act
unfolding beat alive_turn
supervise interval [] s = (s, [])
supervise interval (t ∷ ts) s =
    let (u, acts) = alive_turn t (beat interval t s) in
    let (v, more) = supervise interval ts u in
    if t.alive then (v, acts ++ more) else (record s { component_failed = true }, stopped ∷ [])

unfoldable pub exit_code : Supervisor → ℕ
exit_code s = if s.component_failed then 1 else 0

-- The readiness that the alerts among some acts tell.
abbrev pub told : List Act → List Bool
told [] = []
told (stopped ∷ acts) = told acts
told (heartbeat ∷ acts) = told acts
told (retry ∷ acts) = told acts
told (readiness_alert b ∷ acts) = b ∷ told acts

-- Each alert tells another readiness than the one in front of it, and the last one tells the last.
abbrev pub Alternates : Option Bool → List Bool → Option Bool → Type 0
Alternates before [] after = before ≡ after
Alternates before (b ∷ bs) after = (before ≢ some b) × Alternates (some b) bs after

told-append : (xs ys : List Act) → told (xs ++ ys) ≡ told xs ++ told ys
told-append [] ys = refl
told-append (stopped ∷ xs) ys = told-append xs ys
told-append (heartbeat ∷ xs) ys = told-append xs ys
told-append (retry ∷ xs) ys = told-append xs ys
told-append (readiness_alert b ∷ xs) ys = ap (λ l. b ∷ l) (told-append xs ys)

Alternates-append :
    (a b c : Option Bool) (xs ys : List Bool)
    → Alternates a xs b
    → Alternates b ys c
    → Alternates a (xs ++ ys) c
Alternates-append a b c [] ys h k = subst (λ o. Alternates o ys c) (sym h) k
Alternates-append a b c (x ∷ xs) ys h k = (h.0, Alternates-append (some x) b c xs ys h.1 k)

changed_iff :
    (o : Option Bool) (b : Bool)
    → (changed o b ≡ true → o ≢ some b) × (changed o b ≡ false → o ≡ some b)
unfolding changed
changed_iff none b = ((λ h e. cc (e)), (λ h. absurd cc))
changed_iff (some true) true = ((λ h. absurd cc), (λ h. refl))
changed_iff (some true) false = ((λ h e. cc (some-injective true false e)), (λ h. absurd cc))
changed_iff (some false) true = ((λ h e. cc (some-injective false true e)), (λ h. absurd cc))
changed_iff (some false) false = ((λ h. absurd cc), (λ h. refl))

check_health-Alternates :
    (t : Turn) (s : Supervisor)
    → Alternates s.last_ready (told (check_health t s).1) (check_health t s).0.last_ready
unfolding check_health
check_health-Alternates t s = elim (Bool-cases (leb (15 * second) (t.check_clock - s.last_check))) [
  | inr early ↦ rw (early, check_health) refl
  | inl due ↦ elim (Bool-cases (changed s.last_ready t.ready)) [
    | inl differs ↦
        rw (due, differs, check_health) ((changed_iff s.last_ready t.ready).0 differs, refl)
    | inr same ↦ rw (due, same, check_health) ((changed_iff s.last_ready t.ready).1 same)
  ]
]

beat-quiet :
    (interval : ℕ) (t : Turn) (s : Supervisor)
    → (told (beat interval t s).1 ≡ [])
      × ((beat interval t s).0.last_ready ≡ s.last_ready)
      × ((beat interval t s).0.component_failed ≡ s.component_failed)
unfolding beat
beat-quiet interval t s = elim (Bool-cases (leb interval (t.beat_clock - s.last_heartbeat))) [
  | inl due ↦ rw (due, beat) (refl, refl, refl)
  | inr early ↦ rw (early, beat) (refl, refl, refl)
]

check_health-failed :
    (t : Turn) (s : Supervisor) → (check_health t s).0.component_failed ≡ s.component_failed
unfolding check_health
check_health-failed t s = elim (Bool-cases (leb (15 * second) (t.check_clock - s.last_check))) [
  | inl due ↦ rw (due, check_health) refl
  | inr early ↦ rw (early, check_health) refl
]

-- A turn of the loop in which all components are alive.
alive_turn-Alternates :
    (interval : ℕ) (t : Turn) (s : Supervisor)
    → Alternates s.last_ready
        (told (alive_turn t (beat interval t s)).1)
        (alive_turn t (beat interval t s)).0.last_ready
      × ((alive_turn t (beat interval t s)).0.component_failed ≡ s.component_failed)
unfolding alive_turn beat
alive_turn-Alternates interval t s =
    let (quiet, same, alive) = beat-quiet interval t s in
    let b = beat interval t s in
    elim (Bool-cases t.maintenance) [
      | inl stop ↦ rw (stop, quiet) (sym same, alive)
      | inr on ↦
          rw (on, told-append b.1 (retry ∷ (check_health t b.0).1), quiet)
            (
              subst
                  (λ o.
                    Alternates o (told (check_health t b.0).1) (check_health t b.0).0.last_ready)
                  same (check_health-Alternates t b.0),
              check_health-failed t b.0 ∙ alive,
            )
    ]

from_state :
    (interval : ℕ) (ts : List Turn) (s : Supervisor)
    → s.component_failed ≡ false
    → Alternates s.last_ready
        (told (supervise interval ts s).1)
        (supervise interval ts s).0.last_ready
      × ((supervise interval ts s).0.component_failed ≡ any (λ (t : Turn). not t.alive) ts)
unfolding supervise
from_state interval [] s well = (refl, well)
from_state interval (t ∷ ts) s well = elim (Bool-cases t.alive) [
  | inr dead ↦ rw (dead, supervise) (refl, refl)
  | inl alive ↦
      let (first, still) = alive_turn-Alternates interval t s in
      let a = alive_turn t (beat interval t s) in
      let (rest, failed) = from_state interval ts a.0 (still ∙ well) in
      rw (alive, supervise, told-append a.1 (supervise interval ts a.0).1)
        (
          Alternates-append s.last_ready a.0.last_ready _ (told a.1)
              (told (supervise interval ts a.0).1) first rest,
          failed,
        )
]

-- The alerts on readiness that the service's loop sends alternate, each telling another readiness
-- than the last one told, and its state remembers the last one told; the process then exits with 1
-- exactly if one of the turns found that the scheduler, the monitor or a server had stopped.
pub supervise-Alternates :
    (interval : ℕ) (ts : List Turn)
    → Alternates none
        (told (supervise interval ts starting).1)
        (supervise interval ts starting).0.last_ready
      × ((exit_code (supervise interval ts starting).0 ≡ 1)
          ↔ (any (λ (t : Turn). not t.alive) ts ≡ true))
unfolding exit_code
supervise-Alternates interval ts =
    let (alternate, failed) = from_state interval ts starting refl in
    (alternate, ((λ h. sym failed ∙ one _ h), (λ h. ap (λ b. if b then 1 else 0) (failed ∙ h))))
  where
    one : (b : Bool) → Path ℕ (if b then 1 else 0) 1 → b ≡ true
    one b h = ground arith
