-- ===== src/Safety/Rules.antt =====
-- What `evaluate_fire` of bell/safety.py lets through.
use school_bells.Prelude.{
  ℕ, ◌≤◌, ◌<◌, ◌≡◌, ◌↔◌, ◌⊎◌, inl, inr, refl, String, Bool, true, false, Option, none, some, arith,
  leb, leb→le, le→leb, sym, if◌then◌else◌,
}
use mathlib.Core.Option.{some-injective}
use mathlib.Core.Path.{subst}
use school_bells.Dates.{Moment, instant}
use school_bells.Safety.{
  Safety, allow, refuse, FireCheck, SoundFile, missing, unreadable, readable, within_allowed_hours,
  check_allowed_hours, check_kill_switch, check_pause, pause_at, check_daily_cap, check_sound,
  evaluate_fire,
}

-- The window on the clock face: from `start` forwards to `end`, past midnight where `end` comes
-- before `start`.
abbrev pub InWindow : ℕ → ℕ → ℕ → Type 0
InWindow value start end =
    ((start ≤ end) × (start ≤ value) × (value ≤ end))
    ⊎ ((end < start) × ((start ≤ value) ⊎ (value ≤ end)))

abbrev pub KillSwitchOff : ℕ → Safety → Type 0
KillSwitchOff date s =
    (s.kill_switch_enabled ≡ false)
    ⊎ ((until : ℕ) × (s.kill_switch_until ≡ some until) × (until < date))

abbrev pub NotPaused : Moment → Safety → Type 0
NotPaused now s =
    (s.pause_until ≡ none)
    ⊎ ((until : Moment) × (s.pause_until ≡ some until) × (instant until ≤ instant now))

-- The conditions under which a bell may ring.
pub record MayFire (c : FireCheck) : Type 0 where
  pub not_upgrading : c.maintenance_marker ≡ false
  pub switch_off : KillSwitchOff c.now.date c.safety
  pub not_paused : NotPaused c.now c.safety
  pub in_hours :
      InWindow c.now.time c.safety.allowed_hours_start c.safety.allowed_hours_end
      ⊎ ((c.manual ≡ true) × (c.override_hours ≡ true))
  pub below_cap : c.attempt_count < c.safety.max_events_per_day
  pub has_sound : c.sound_file ≡ readable

within_iff : (v s e : ℕ) → (within_allowed_hours v s e ≡ true) ↔ InWindow v s e
unfolding within_allowed_hours
within_iff v s e = ground arith

hours_iff :
    (now : Moment) (s : Safety) (manual override : Bool)
    → ((check_allowed_hours now s manual override).allowed ≡ true) ↔ (
        InWindow now.time s.allowed_hours_start s.allowed_hours_end
        ⊎ ((manual ≡ true) × (override ≡ true)))
unfolding check_allowed_hours
hours_iff now s manual override =
    ground (arith, within_iff now.time s.allowed_hours_start s.allowed_hours_end)

switch_iff :
    (date : ℕ) (s : Safety) → ((check_kill_switch date s).allowed ≡ true) ↔ KillSwitchOff date s
unfolding check_kill_switch
switch_iff date s = ground arith

allowed_iff :
    (b : Bool) (x y : String) → ((if b then allow x else refuse y).allowed ≡ true) ↔ (b ≡ true)
allowed_iff b x y = ground arith

le_of_pause :
    (now u : Moment)
    → (◌≡◌ {A = Option Moment} (some u) none)
      ⊎ ((v : Moment) × (some u ≡ some v) × (instant v ≤ instant now))
    → instant u ≤ instant now
le_of_pause now u (inl e) = cc
le_of_pause now u (inr (v, e, h)) =
    subst (λ (m : Moment). instant m ≤ instant now) (sym (some-injective u v e)) h

pause_at_iff :
    (now : Moment) (o : Option Moment) (reason : Option String)
    → ((pause_at now o reason).allowed ≡ true)
      ↔ ((o ≡ none) ⊎ ((until : Moment) × (o ≡ some until) × (instant until ≤ instant now)))
unfolding pause_at
pause_at_iff now none reason = (λ h. inl refl, λ h. refl)
pause_at_iff now (some u) reason = (
  λ h. inr (u, refl, leb→le _ _ ((allowed_iff (leb (instant u) (instant now)) _ _).0 h)),
  λ h. (allowed_iff (leb (instant u) (instant now)) _ _).1 (le→leb _ _ (le_of_pause now u h)),
)

pause_iff : (now : Moment) (s : Safety) → ((check_pause now s).allowed ≡ true) ↔ NotPaused now s
unfolding check_pause
pause_iff now s = pause_at_iff now s.pause_until s.pause_reason

cap_iff : (n : ℕ) (s : Safety) → ((check_daily_cap n s).allowed ≡ true) ↔ (n < s.max_events_per_day)
unfolding check_daily_cap
cap_iff n s = ground arith

sound_iff : (p : String) (f : SoundFile) → ((check_sound p f).allowed ≡ true) ↔ (f ≡ readable)
unfolding check_sound
sound_iff p missing = ground arith
sound_iff p readable = ground arith
sound_iff p (unreadable e) = ground arith

-- `evaluate_fire` allows a fire exactly when every condition of `MayFire` holds: no upgrade marker,
-- the kill switch off or past its last day, no pause that still runs, the time of day in the window
-- (which may wrap past midnight) or a manual page that overrides it, fewer attempts today than the
-- cap, and a readable sound.
pub evaluate_fire_iff : (c : FireCheck) → ((evaluate_fire c).allowed ≡ true) ↔ MayFire c
unfolding evaluate_fire
evaluate_fire_iff c = (forth, back)
  where
    forth : (evaluate_fire c).allowed ≡ true → MayFire c
    forth h = record {
      not_upgrading = ground arith;
      switch_off = (switch_iff c.now.date c.safety).0 (ground arith);
      not_paused = (pause_iff c.now c.safety).0 (ground arith);
      in_hours = (hours_iff c.now c.safety c.manual c.override_hours).0 (ground arith);
      below_cap = (cap_iff c.attempt_count c.safety).0 (ground arith);
      has_sound = (sound_iff c.sound c.sound_file).0 (ground arith);
    }

    back : MayFire c → (evaluate_fire c).allowed ≡ true
    back m = ground (
      arith,
      m.not_upgrading,
      (switch_iff c.now.date c.safety).1 m.switch_off,
      (pause_iff c.now c.safety).1 m.not_paused,
      (hours_iff c.now c.safety c.manual c.override_hours).1 m.in_hours,
      (cap_iff c.attempt_count c.safety).1 m.below_cap,
      (sound_iff c.sound c.sound_file).1 m.has_sound,
    )
