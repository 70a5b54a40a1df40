-- ===== src/Service/Startup/Scope.antt =====
-- What the checks of `validate_startup` of bell/service.py range over: the variables that are set, the
-- sounds of the events, and the codecs of the destinations.
use school_bells.Prelude.{
  if◌then◌else◌, ℕ, ◌≤◌, ◌≡◌, ◌≢◌, ◌∙◌, ◌⊎◌, refl, sym, ap, String, Bool, true, false, ◌&&◌, ◌||◌,
  List, [], ◌∷◌, ◌++◌, Option, none, some, ltb, All, any, Bool-cases, inl, inr, arith, is_some,
  length, codes, select, not, str_eq, eq_iff,
}
use mathlib.Core.Path.{subst}
use school_bells.Config.{
  Destination, BellEvent, BellSchedule, StandingItem, CodecName, pcmu, pcma, g722, multicast, sip,
  http,
}
use school_bells.Service.{truthy}
use school_bells.Service.Page.{truthy-some}
use school_bells.Service.Startup.{
  StartupConfig, too_short, same_text, unpaired, sounds, event_sounds, events_sounds,
  schedules_sounds, enabled_items, plays, has_codec, is_g722, is_pcma, other_codecs, secret_env,
}

-- The text is there and not empty.
abbrev pub Given : Option String → String → Type 0
Given o v = (o ≡ some v) × (v ≢ "")

pub Given-truthy : (o : Option String) (v : String) → Given o v → truthy o ≡ some v
Given-truthy o v (there, filled) = ap truthy there ∙ truthy-some v filled

pub truthy-Given : (o : Option String) (v : String) → truthy o ≡ some v → Given o v
unfolding truthy
truthy-Given none v h = absurd (cc (h))
truthy-Given (some String.[]) v h = absurd (cc (h))
truthy-Given (some (String.◌∷◌ c s)) v h = (h, λ e. absurd (blank v h e))
  where
    same : (a b : String) → some a ≡ some b → a ≡ b
    same a b e = cc (e)

    blank : (v : String) → some (String.◌∷◌ c s) ≡ some v → v ≡ "" → ⊥
    blank v h e = cc (same (String.◌∷◌ c s) v h ∙ e)

pub is_given : (o : Option String) → is_some (truthy o) ≡ true → (v : String) × Given o v
is_given o = on (truthy o) refl
  where
    on : (t : Option String) → truthy o ≡ t → is_some t ≡ true → (v : String) × Given o v
    on none e h = absurd (cc (h))
    on (some v) e h = (v, truthy-Given o v e)

pub long_secret :
    (minimum : ℕ) (o : Option String) (v : String)
    → too_short minimum o ≡ false
    → Given o v
    → minimum ≤ length (codes v)
unfolding too_short
long_secret minimum o v h given =
    let e : ltb (length (codes v)) minimum ≡ too_short minimum o =
      rw (Given-truthy o v given, too_short) refl in
    fits (e ∙ h)
  where
    fits : ltb (length (codes v)) minimum ≡ false → minimum ≤ length (codes v)
    fits h = ground arith

pub different :
    (a b : Option String) (v w : String)
    → same_text (truthy a) (truthy b) ≡ false
    → Given a v
    → Given b w
    → v ≢ w
unfolding same_text
different a b v w h first second =
    let e : same_text (truthy a) (truthy b) ≡ str_eq v w =
      rw (Given-truthy a v first, Given-truthy b w second) refl in
    λ same. absurd (cc (h, e, (eq_iff v w).1 same))

pub together :
    (a b : Option String)
    → unpaired a b ≡ false
    → (is_some (truthy a) ≡ true → is_some (truthy b) ≡ true)
      × (is_some (truthy b) ≡ true → is_some (truthy a) ≡ true)
unfolding unpaired
together a b h = both (is_some (truthy a)) (is_some (truthy b)) h
  where
    both :
        (p q : Bool)
        → ((p && not q) || (not p && q)) ≡ false
        → (p ≡ true → q ≡ true) × (q ≡ true → p ≡ true)
    both true true h = (λ _. refl, λ _. refl)
    both false false h = (λ k. k, λ k. k)
    both true false h = absurd (cc (h))
    both false true h = absurd (cc (h))

-- What holds of the sound of an event, and of its pre-tone if it has one.
abbrev pub Sounds : (String → Type 0) → BellEvent → Type 0
Sounds P e = P e.sound × ((tone : String) → Given e.pre_tone tone → P tone)

All-split {ℓ} :
    {A : Type ℓ} (P : A → Type 0) (xs ys : List A) → All P (xs ++ ys) → All P xs × All P ys
All-split P [] ys h = (tt, h)
All-split P (x ∷ xs) ys h = let (a, b) = All-split P xs ys h.1 in ((h.0, a), b)

event-Sounds : (P : String → Type 0) (e : BellEvent) → All P (event_sounds e) → Sounds P e
unfolding event_sounds
event-Sounds P e = on (truthy e.pre_tone) refl
  where
    same : (a b : String) → some a ≡ some b → a ≡ b
    same a b h = cc (h)

    on :
        (t : Option String)
        → truthy e.pre_tone ≡ t
        → All P (elim t [ none ↦ e.sound ∷ [] | some tone ↦ e.sound ∷ tone ∷ [] ])
        → Sounds P e
    on none toneless h =
        (h.0, λ tone given. absurd (cc (toneless, Given-truthy e.pre_tone tone given)))
    on (some t) toned h = (
      h.0,
      λ tone given. subst P (same t tone (sym toned ∙ Given-truthy e.pre_tone tone given)) h.1.0,
    )

events-Sounds :
    (P : String → Type 0) (es : List BellEvent) → All P (events_sounds es) → All (Sounds P) es
unfolding events_sounds
events-Sounds P [] h = tt
events-Sounds P (e ∷ es) h =
    let (own, rest) = All-split P (event_sounds e) (events_sounds es) h in
    (event-Sounds P e own, events-Sounds P es rest)

schedules-Sounds :
    (P : String → Type 0) (ss : List BellSchedule)
    → All P (schedules_sounds ss)
    → All (λ (s : BellSchedule). All (Sounds P) s.events) ss
unfolding schedules_sounds
schedules-Sounds P [] h = tt
schedules-Sounds P (s ∷ ss) h =
    let (own, rest) = All-split P (events_sounds s.events) (schedules_sounds ss) h in
    (events-Sounds P s.events own, schedules-Sounds P ss rest)

enabled-Sounds :
    (P : BellEvent → Type 0) (items : List StandingItem)
    → All P (enabled_items items)
    → All (λ (i : StandingItem). i.enabled ≡ true → P i.event) items
unfolding enabled_items
enabled-Sounds P [] = λ _. tt
enabled-Sounds P (i ∷ is) = elim (Bool-cases i.enabled) [
  | inl on ↦ rw (on, select) (λ h. (λ _. h.0, enabled-Sounds P is h.1))
  | inr off ↦ rw (off, select) (λ h. (λ on. absurd (cc (on)), enabled-Sounds P is h))
]

pub sounds-Sounds :
    (P : String → Type 0) (c : StartupConfig)
    → All P (sounds c)
    → All (λ (s : BellSchedule). All (Sounds P) s.events) c.schedules
      × All (λ (i : StandingItem). i.enabled ≡ true → Sounds P i.event) c.standing_items
unfolding sounds
sounds-Sounds P c h =
    let (own, rest) =
      All-split P (schedules_sounds c.schedules) (events_sounds (enabled_items c.standing_items))
        h in
    (
      schedules-Sounds P c.schedules own,
      enabled-Sounds (Sounds P) c.standing_items
          (events-Sounds P (enabled_items c.standing_items) rest),
    )

-- What holds of each codec but PCMU of the enabled multicast and SIP destinations.
abbrev pub Codecs : (CodecName → Type 0) → Destination → Type 0
Codecs P d =
    d.enabled ≡ true
    → (d.protocol ≡ multicast) ⊎ (d.protocol ≡ sip)
    → All (λ c. c ≢ pcmu → P c) d.codecs

plays-true :
    (d : Destination)
    → d.enabled ≡ true
    → (d.protocol ≡ multicast) ⊎ (d.protocol ≡ sip)
    → plays d ≡ true
unfolding plays
plays-true d on (inl e) = rw (on, e) refl
plays-true d on (inr e) = rw (on, e) refl

-- What holds of a codec if it is among the destinations'.
Where : (CodecName → Type 0) → Bool → CodecName → Type 0
Where P b c = b ≡ true → P c

chosen :
    (P : CodecName → Type 0) (ds : List Destination)
    → All P (other_codecs ds)
    → Where P (has_codec is_g722 ds) g722 × Where P (has_codec is_pcma ds) pcma
unfolding other_codecs Where
chosen P ds = on (has_codec is_g722 ds) (has_codec is_pcma ds)
  where
    on :
        (a b : Bool)
        → All P ((if a then g722 ∷ [] else []) ++ (if b then pcma ∷ [] else []))
        → Where P a g722 × Where P b pcma
    on true true h = (λ _. h.0, λ _. h.1.0)
    on true false h = (λ _. h.0, λ k. absurd (cc (k)))
    on false true h = (λ k. absurd (cc (k)), λ _. h.0)
    on false false h = (λ k. absurd (cc (k)), λ k. absurd (cc (k)))

own_codecs :
    (P : CodecName → Type 0) (cs : List CodecName)
    → (any is_g722 cs ≡ true → P g722)
    → (any is_pcma cs ≡ true → P pcma)
    → All (λ c. c ≢ pcmu → P c) cs
unfolding is_g722 is_pcma
own_codecs P [] wide a_law = tt
own_codecs P (pcmu ∷ cs) wide a_law = (λ other. absurd (other refl), own_codecs P cs wide a_law)
own_codecs P (g722 ∷ cs) wide a_law = (λ _. wide refl, own_codecs P cs (λ _. wide refl) a_law)
own_codecs P (pcma ∷ cs) wide a_law = (λ _. a_law refl, own_codecs P cs wide (λ _. a_law refl))

each_codec :
    (P : CodecName → Type 0) (ds : List Destination)
    → Where P (has_codec is_g722 ds) g722
    → Where P (has_codec is_pcma ds) pcma
    → All (Codecs P) ds
unfolding has_codec Where
each_codec P [] wide a_law = tt
each_codec P (d ∷ ds) wide a_law = (
  λ on kind.
      own_codecs P d.codecs (λ k. wide (here _ _ _ (plays-true d on kind) k))
        (λ k. a_law (here _ _ _ (plays-true d on kind) k)),
  each_codec P ds (λ k. wide (later _ _ k)) (λ k. a_law (later _ _ k)),
)
  where
    here : (a b c : Bool) → a ≡ true → b ≡ true → (a && b || c) ≡ true
    here a b c h k = ground arith

    later : (a b : Bool) → b ≡ true → (a || b) ≡ true
    later a b h = ground arith

pub other_codecs-Codecs :
    (P : CodecName → Type 0) (ds : List Destination) → All P (other_codecs ds) → All (Codecs P) ds
other_codecs-Codecs P ds h = let (wide, a_law) = chosen P ds h in each_codec P ds wide a_law

-- The environment variable of a destination's secret: of the password of SIP, of the key of a webhook.
abbrev pub Secret : Destination → String → Type 0
Secret d name =
    ((d.protocol ≡ sip) × Given d.sip_password_env name)
    ⊎ ((d.protocol ≡ http) × Given d.webhook_secret_env name)

pub Secret-truthy :
    (d : Destination) (name : String) → Secret d name → truthy (secret_env d) ≡ some name
unfolding secret_env
Secret-truthy d name (inl (kind, given)) = rw (kind) (Given-truthy d.sip_password_env name given)
Secret-truthy d name (inr (kind, given)) = rw (kind) (Given-truthy d.webhook_secret_env name given)
