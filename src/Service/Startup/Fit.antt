-- ===== src/Service/Startup/Fit.antt =====
-- What a machine has on which bell/service.py starts.
use school_bells.Prelude.{
  ◌≢◌, ◌*◌, length, codes, ℕ, ◌≤◌, ◌≡◌, ◌⊎◌, refl, sym, ap, String, Bool, true, false, ◌&&◌, not,
  List, [], ◌∷◌, Option, none, some, ltb, if◌then◌else◌, All, All-imp, Bool-cases, inl, inr, arith,
  is_some, str_eq, eq_iff,
}
use mathlib.Core.Path.{subst}
use school_bells.Prelude.Results.{ok, Result-cases}
use school_bells.Config.{Destination, BellSchedule, StandingItem, CodecName, multicast}
use school_bells.Delivery.{is_empty}
use school_bells.Service.{truthy, playing_time}
use school_bells.Service.Health.{is_synchronized}
use school_bells.Service.Health.Rules.{is_empty-append, is_empty-reason, one_reason}
use school_bells.Service.Startup.Scope.{
  Given, Given-truthy, is_given, long_secret, different, together, Sounds, sounds-Sounds, Codecs,
  other_codecs-Codecs, Secret, Secret-truthy,
}
use school_bells.Service.Startup.{
  Machine, StartupConfig, secret_errors, secret_lengths, same_keys, file_errors, sounds,
  insert_text, before, sorted_set, other_codecs, transcode_error, sound_errors, each, audio_errors,
  multicast_errors, is_multicast, socket_error, destination_errors, validate_startup,
}

each-All {ℓ} :
    {A : Type ℓ} (f : A → List String) (xs : List A)
    → is_empty (each f xs) ≡ true
    → All (λ x. is_empty (f x) ≡ true) xs
unfolding each
each-All f [] h = tt
each-All f (x ∷ xs) h = let (a, b) = (is_empty-append (f x) (each f xs)).0 h in (a, each-All f xs b)

insert_text-All :
    (P : String → Type 0) (x : String) (ys : List String)
    → All P (insert_text x ys)
    → P x × All P ys
unfolding insert_text
insert_text-All P x [] = λ h. (h.0, tt)
insert_text-All P x (y ∷ ys) = elim (Bool-cases (str_eq x y)) [
  | inl same ↦ rw (same, insert_text) (λ h. (subst P (sym ((eq_iff x y).0 same)) h.0, h))
  | inr other ↦ elim (Bool-cases (before x y)) [
    | inl smaller ↦ rw (other, smaller, insert_text) (λ h. (h.0, h.1))
    | inr greater ↦
        rw (other, greater, insert_text)
          (λ h. let (a, b) = insert_text-All P x ys h.1 in (a, (h.0, b)))
  ]
]

sorted_set-All : (P : String → Type 0) (xs : List String) → All P (sorted_set xs) → All P xs
unfolding sorted_set
sorted_set-All P [] h = tt
sorted_set-All P (x ∷ xs) h =
    let (a, b) = insert_text-All P x (sorted_set xs) h in (a, sorted_set-All P xs b)

-- A sound that can be played by PCMU and by the codecs given; a byte of it is 125 microseconds.
pub record Playable (m : Machine) (longest : ℕ) (others : List CodecName) (sound : String)
    : Type 0 where
  pub size : ℕ
  pub pcmu : m.size_of sound ≡ ok size
  pub within : size * 125 ≤ longest
  pub codecs : All (λ (c : CodecName). (n : ℕ) × (m.transcodes sound c ≡ ok n)) others

transcode_error-All :
    (m : Machine) (sound : String) (cs : List CodecName)
    → is_empty (transcode_error m sound cs) ≡ true
    → All (λ (c : CodecName). (n : ℕ) × (m.transcodes sound c ≡ ok n)) cs
unfolding transcode_error
transcode_error-All m sound [] = λ h. tt
transcode_error-All m sound (c ∷ cs) = elim (Result-cases (m.transcodes sound c)) [
  | inl (e, fails) ↦ rw (fails, transcode_error) (λ h. absurd cc)
  | inr (n, works) ↦
      rw (works, transcode_error) (λ h. ((n, refl), transcode_error-All m sound cs h))
]

sound_errors-Playable :
    (m : Machine) (two_decimals : ℕ → String) (longest : ℕ) (others : List CodecName)
    (sound : String)
    → is_empty (sound_errors m two_decimals longest others sound) ≡ true
    → Playable m longest others sound
unfolding sound_errors playing_time
sound_errors-Playable m two_decimals longest others sound = elim (Result-cases (m.size_of sound)) [
  | inl (e, fails) ↦ rw (fails, sound_errors) (λ h. absurd cc)
  | inr (n, works) ↦
      rw (works, sound_errors)
        (λ h.
          let (short, rest) = (one_reason _ _ _).0 h in
          record {
            size = n;
            pcmu = works;
            within = fits longest (playing_time n) short;
            codecs = transcode_error-All m sound others rest;
          })
]
  where
    fits : (longest n : ℕ) → ltb longest n ≡ false → n ≤ longest
    fits longest n h = ground arith

-- The file that a variable names, where it names one, is there.
abbrev pub HasFile : Machine → String → Type 0
HasFile m variable = (path : String) → Given (m.environ variable) path → m.is_file path ≡ true

-- A sound that can be played for every destination.
pub record Plays (m : Machine) (c : StartupConfig) (sound : String) : Type 0 where
  pub size : ℕ
  pub pcmu : m.size_of sound ≡ ok size
  pub within : size * 125 ≤ c.max_audio
  pub codecs :
      All (Codecs (λ (k : CodecName). (n : ℕ) × (m.transcodes sound k ≡ ok n))) c.destinations

Playable-Plays :
    (m : Machine) (c : StartupConfig) (sound : String)
    → Playable m c.max_audio (other_codecs c.destinations) sound
    → Plays m c sound
Playable-Plays m c sound p = record {
  size = p.size;
  pcmu = p.pcmu;
  within = p.within;
  codecs = other_codecs-Codecs _ c.destinations p.codecs;
}

-- What the checks stand for.
pub record Fit (m : Machine) (c : StartupConfig) : Type 0 where
  pub secrets :
      All
        (λ (s : String × ℕ). (v : String) → Given (m.environ s.0) v → s.1 ≤ length (codes v))
        (("BELL_UI_PASSWORD", 12)
          ∷ ("BELL_UI_SESSION_SECRET", 32)
          ∷ ("BELL_API_KEY", 24)
          ∷ ("BELL_EMERGENCY_API_KEY", 24)
          ∷ [])
  pub keys :
      (v w : String)
      → Given (m.environ "BELL_API_KEY") v
      → Given (m.environ "BELL_EMERGENCY_API_KEY") w
      → v ≢ w
  pub certified :
      (v : String)
      → Given (m.environ "BELL_TLS_CERTFILE") v
      → (w : String) × Given (m.environ "BELL_TLS_KEYFILE") w
  pub keyed :
      (v : String)
      → Given (m.environ "BELL_TLS_KEYFILE") v
      → (w : String) × Given (m.environ "BELL_TLS_CERTFILE") w
  pub certificate : HasFile m "BELL_TLS_CERTFILE"
  pub key_file : HasFile m "BELL_TLS_KEYFILE"
  pub schedules : All (λ (s : BellSchedule). All (Sounds (Plays m c)) s.events) c.schedules
  pub standing :
      All (λ (i : StandingItem). i.enabled ≡ true → Sounds (Plays m c) i.event) c.standing_items
  pub tools : m.tools ≡ true
  pub interface : m.interface_present ≡ true
  pub groups :
      All
        (λ (d : Destination).
          d.enabled ≡ true → d.protocol ≡ multicast → m.multicast_error d ≡ none)
        c.destinations
  pub credentials :
      All
        (λ (d : Destination).
          (name : String)
          → Secret d name
          → d.enabled ≡ true
          → d.required ≡ true
          → (v : String) × Given (m.environ name) v)
        c.destinations
  pub clock : (c.clock_sync_required ≡ false) ⊎ (m.synchronized ≡ some true)

secret_errors-All :
    (m : Machine) (lengths : List (String × ℕ))
    → is_empty (secret_errors m lengths) ≡ true
    → All
        (λ (s : String × ℕ). (v : String) → Given (m.environ s.0) v → s.1 ≤ length (codes v))
        lengths
unfolding secret_errors
secret_errors-All m [] h = tt
secret_errors-All m ((name, minimum) ∷ rest) h =
    let (a, b) = (one_reason _ _ _).0 h in
    (λ v. long_secret minimum (m.environ name) v a, secret_errors-All m rest b)

negated : (b : Bool) → not b ≡ false → b ≡ true
negated b h = ground arith

file_errors-HasFile :
    (m : Machine) (label variable : String)
    → is_empty (file_errors m label (m.environ variable)) ≡ true
    → HasFile m variable
unfolding file_errors
file_errors-HasFile m label variable =
    λ h path named. there path (Given-truthy (m.environ variable) path named) h
  where
    there :
        (path : String)
        → truthy (m.environ variable) ≡ some path
        → is_empty (file_errors m label (m.environ variable)) ≡ true
        → m.is_file path ≡ true
    there path named = rw (named, file_errors) (λ h. negated _ ((is_empty-reason _ _).0 h))

no_socket_error :
    (d : Destination) (b : Bool) (o : Option String)
    → is_empty (if b then socket_error d o else []) ≡ true
    → b ≡ true
    → o ≡ none
unfolding socket_error
no_socket_error d true none h e = refl
no_socket_error d true (some x) h e = absurd (cc (h))
no_socket_error d false o h e = absurd (cc (e))

multicast_errors-none :
    (m : Machine) (d : Destination)
    → is_empty (multicast_errors m d) ≡ true
    → d.enabled ≡ true
    → d.protocol ≡ multicast
    → m.multicast_error d ≡ none
unfolding multicast_errors is_multicast
multicast_errors-none m d h on group =
    no_socket_error d (d.enabled && is_multicast d.protocol) (m.multicast_error d) h
      (both d.enabled (is_multicast d.protocol) on (ap is_multicast group))
  where
    both : (a b : Bool) → a ≡ true → b ≡ true → (a && b) ≡ true
    both a b h k = ground arith

destination_errors-set :
    (m : Machine) (d : Destination)
    → is_empty (destination_errors m d) ≡ true
    → (name : String) → Secret d name
    → d.enabled ≡ true
    → d.required ≡ true
    → (v : String) × Given (m.environ name) v
unfolding destination_errors
destination_errors-set m d h name secret on needed = is_given (m.environ name) (there h)
  where
    set : (a b c : Bool) → (a && (not b && c)) ≡ false → a ≡ true → c ≡ true → b ≡ true
    set a b c h k l = ground arith

    there : is_empty (destination_errors m d) ≡ true → is_some (truthy (m.environ name)) ≡ true
    there =
        rw (Secret-truthy d name secret, destination_errors)
          (λ k.
            set d.enabled (is_some (truthy (m.environ name))) d.required ((is_empty-reason _ _).0 k)
              on needed)

audio_errors-Playable :
    (m : Machine) (two_decimals : ℕ → String) (c : StartupConfig)
    → is_empty (audio_errors m two_decimals c) ≡ true
    → (m.tools ≡ true) × All (Playable m c.max_audio (other_codecs c.destinations)) (sounds c)
unfolding audio_errors
audio_errors-Playable m two_decimals c = present m.tools
  where
    present :
        (tools : Bool)
        → is_empty (
            if tools
            then each
                (sound_errors m two_decimals c.max_audio (other_codecs c.destinations))
                (sorted_set (sounds c))
            else "ffmpeg/ffprobe missing; install with: sudo apt install ffmpeg" ∷ [])
          ≡ true
        → (tools ≡ true) × All (Playable m c.max_audio (other_codecs c.destinations)) (sounds c)
    present false h = absurd (cc (h))
    present true h = (
      refl,
      sorted_set-All (Playable m c.max_audio (other_codecs c.destinations)) (sounds c) (
          All-imp _ (Playable m c.max_audio (other_codecs c.destinations)) (sorted_set (sounds c))
            (sound_errors-Playable m two_decimals c.max_audio (other_codecs c.destinations))
            (each-All (sound_errors m two_decimals c.max_audio (other_codecs c.destinations))
              (sorted_set (sounds c)) h)),
    )

interface_errors :
    (m : Machine) (ds : List Destination) (b : Bool)
    → is_empty (if b then each (multicast_errors m) ds else m.interface_detail ∷ []) ≡ true
    → (b ≡ true)
      × All
          (λ (d : Destination).
            d.enabled ≡ true → d.protocol ≡ multicast → m.multicast_error d ≡ none)
          ds
interface_errors m ds false h = absurd (cc (h))
interface_errors m ds true h =
    (refl, All-imp _ _ ds (multicast_errors-none m) (each-All (multicast_errors m) ds h))

clock_errors :
    (synchronized required : Bool)
    → (not synchronized && required) ≡ false
    → (required ≡ false) ⊎ (synchronized ≡ true)
clock_errors true required h = inr refl
clock_errors false required h = inl (ground arith)

synchronized-true : (o : Option Bool) → is_synchronized o ≡ true → o ≡ some true
unfolding is_synchronized
synchronized-true none h = absurd (cc (h))
synchronized-true (some true) h = refl
synchronized-true (some false) h = absurd (cc (h))

known :
    (required : Bool) (o : Option Bool)
    → (required ≡ false) ⊎ (is_synchronized o ≡ true)
    → (required ≡ false) ⊎ (o ≡ some true)
known required o (inl free) = inl free
known required o (inr h) = inr (synchronized-true o h)

given_some : (o : Option String) (v : String) → Given o v → is_some (truthy o) ≡ true
given_some o v given = rw (Given-truthy o v given) refl

-- A service that `validate_startup` has nothing to say against starts on a machine where: every secret
-- that is set is long enough; the two API keys, if both are set, differ; the TLS files are both named
-- or neither, and exist; ffmpeg is there, and every sound and pre-tone of a schedule or of an enabled
-- standing item transcodes, within the limit, to PCMU and to every other codec of an enabled multicast
-- or SIP destination; the interface is present and takes every enabled multicast destination's
-- socket; every enabled and required destination that names a secret has it set; and the clock is
-- known to be synchronized where that is required.
pub validate_startup-Fit :
    (m : Machine) (two_decimals : ℕ → String) (c : StartupConfig)
    → validate_startup m two_decimals c ≡ []
    → Fit m c
unfolding validate_startup same_keys
validate_startup-Fit m two_decimals c h =
    let (secrets, r1) = (is_empty-append (secret_errors m secret_lengths) _).0 (ap is_empty h) in
    let (keys, r2) = (one_reason _ _ _).0 r1 in
    let (paired, r3) = (one_reason _ _ _).0 r2 in
    let (certificate, r4) =
      (is_empty-append (file_errors m "TLS certificate" (m.environ "BELL_TLS_CERTFILE")) _).0 r3 in
    let (key_file, r5) =
      (is_empty-append (file_errors m "TLS private key" (m.environ "BELL_TLS_KEYFILE")) _).0 r4 in
    let (audio, r6) = (is_empty-append (audio_errors m two_decimals c) _).0 r5 in
    let (interface, r7) =
      (is_empty-append
          (if m.interface_present
            then each (multicast_errors m) c.destinations
            else m.interface_detail ∷ [])
          _).0
        r6 in
    let (set, clock) = (is_empty-append (each (destination_errors m) c.destinations) _).0 r7 in
    let (tools, playable) = audio_errors-Playable m two_decimals c audio in
    let (present, groups) = interface_errors m c.destinations m.interface_present interface in
    let (forth, back) =
      together (m.environ "BELL_TLS_CERTFILE") (m.environ "BELL_TLS_KEYFILE") paired in
    let (schedules, standing) =
      sounds-Sounds (Plays m c) c
        (All-imp _ (Plays m c) (sounds c) (Playable-Plays m c) playable) in
    record {
      secrets = secret_errors-All m secret_lengths secrets;
      keys =
          λ v w. different (m.environ "BELL_API_KEY") (m.environ "BELL_EMERGENCY_API_KEY") v w keys;
      certified = λ v given. is_given (m.environ "BELL_TLS_KEYFILE") (forth (given_some _ v given));
      keyed = λ v given. is_given (m.environ "BELL_TLS_CERTFILE") (back (given_some _ v given));
      certificate = file_errors-HasFile m "TLS certificate" "BELL_TLS_CERTFILE" certificate;
      key_file = file_errors-HasFile m "TLS private key" "BELL_TLS_KEYFILE" key_file;
      schedules = schedules;
      standing = standing;
      tools = tools;
      interface = present;
      groups = groups;
      credentials =
          All-imp _ _ c.destinations (destination_errors-set m)
            (each-All (destination_errors m) c.destinations set);
      clock = known c.clock_sync_required m.synchronized (
          clock_errors (is_synchronized m.synchronized) c.clock_sync_required
            ((is_empty-reason _ _).0 clock));
    }
