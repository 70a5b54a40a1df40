-- ===== src/Service/Startup.antt =====
-- What bell/service.py checks before it starts: `validate_startup`. The environment, the files, the
-- tools and the network are arguments; a sound's file size is what its transcoding to PCMU gives.
pub mod Scope
pub mod Fit
use Prim.Native.String.{compare}
use Prim.Native.Nat.{Ordering}
use school_bells.Prelude.{
  ℕ, ◌+◌, ◌*◌, ◌≤◌, ◌<◌, ◌≡◌, ◌≢◌, ◌∙◌, ◌⊎◌, ◌↔◌, refl, sym, ap, String, Bool, true, false, ◌&&◌,
  ◌||◌, not, List, [], ◌∷◌, ◌++◌, Option, none, some, leb, ltb, if◌then◌else◌, any, All, All-imp,
  Bool-cases, inl, inr, arith, leb→le, is_some, select, map, str_eq, eq_iff, eq_refl, length, codes,
  show,
}
use school_bells.Prelude.Results.{Result, ok, err, Result-cases}
use school_bells.Dates.{◌&◌}
use school_bells.Config.{
  Destination, BellEvent, BellSchedule, StandingItem, CodecName, pcmu, pcma, g722, Protocol,
  multicast, sip, http,
}
use school_bells.Delivery.{is_empty}
use school_bells.Service.{truthy, playing_time}
use school_bells.Service.Health.{reason, is_synchronized}
use school_bells.Service.Health.Rules.{is_empty-append, is_empty-reason, one_reason}

pub record Machine : Type 0 where
  pub environ : String → Option String
  pub is_file : String → Bool
  pub tools : Bool
  pub size_of : String → Result ℕ
  pub transcodes : String → CodecName → Result ℕ
  pub interface_present : Bool
  pub interface_detail : String
  pub multicast_error : Destination → Option String
  pub synchronized : Option Bool
  pub sync_detail : String

pub record StartupConfig : Type 0 where
  pub schedules : List BellSchedule
  pub standing_items : List StandingItem
  pub destinations : List Destination
  pub max_audio : ℕ
  pub clock_sync_required : Bool

unfoldable pub too_short : ℕ → Option String → Bool
unfolding truthy
too_short minimum value = elim (truthy value) [
  | none ↦ false
  | some v ↦ ltb (length (codes v)) minimum
]

unfoldable pub secret_errors : Machine → List (String × ℕ) → List String
unfolding reason too_short
secret_errors m [] = []
secret_errors m ((name, minimum) ∷ rest) =
    reason (too_short minimum (m.environ name))
      (name & " must contain at least " & show minimum & " characters")
    ++ secret_errors m rest

abbrev pub secret_lengths : List (String × ℕ)
secret_lengths =
    ("BELL_UI_PASSWORD", 12)
    ∷ ("BELL_UI_SESSION_SECRET", 32)
    ∷ ("BELL_API_KEY", 24)
    ∷ ("BELL_EMERGENCY_API_KEY", 24)
    ∷ []

unfoldable pub same_text : Option String → Option String → Bool
same_text none other = false
same_text (some a) none = false
same_text (some a) (some b) = str_eq a b

unfoldable pub same_keys : Machine → Bool
unfolding same_text truthy
same_keys m =
    same_text (truthy (m.environ "BELL_API_KEY")) (truthy (m.environ "BELL_EMERGENCY_API_KEY"))

unfoldable pub unpaired : Option String → Option String → Bool
unfolding truthy
unpaired a b =
    (is_some (truthy a) && not (is_some (truthy b)))
    || (not (is_some (truthy a)) && is_some (truthy b))

unfoldable pub file_errors : Machine → String → Option String → List String
unfolding truthy reason
file_errors m label value = elim (truthy value) [
  | none ↦ []
  | some path ↦ reason (not (m.is_file path)) (label & " file does not exist: " & path)
]

event_sounds : BellEvent → List String
unfolding truthy
event_sounds e = elim (truthy e.pre_tone) [ none ↦ e.sound ∷ [] | some tone ↦ e.sound ∷ tone ∷ [] ]

events_sounds : List BellEvent → List String
unfolding event_sounds
events_sounds [] = []
events_sounds (e ∷ es) = event_sounds e ++ events_sounds es

schedules_sounds : List BellSchedule → List String
unfolding events_sounds
schedules_sounds [] = []
schedules_sounds (s ∷ ss) = events_sounds s.events ++ schedules_sounds ss

enabled_items : List StandingItem → List BellEvent
enabled_items items =
    map (λ (i : StandingItem). i.event) (select (λ (i : StandingItem). i.enabled) items)

unfoldable pub sounds : StartupConfig → List String
unfolding schedules_sounds events_sounds enabled_items
sounds c = schedules_sounds c.schedules ++ events_sounds (enabled_items c.standing_items)

unfoldable pub before : String → String → Bool
before a b = elim (compare a b) [ Ordering.lt ↦ true | _ ↦ false ]

-- `sorted` of a set: each text goes in once, in front of the first that is greater.
unfoldable pub insert_text : String → List String → List String
unfolding before
insert_text x [] = x ∷ []
insert_text x (y ∷ ys) =
    let rest = insert_text x ys in
    if str_eq x y then y ∷ ys else if before x y then x ∷ y ∷ ys else y ∷ rest

unfoldable pub sorted_set : List String → List String
unfolding insert_text
sorted_set [] = []
sorted_set (x ∷ xs) = insert_text x (sorted_set xs)

plays : Destination → Bool
plays d = d.enabled && elim d.protocol [ multicast ↦ true | sip ↦ true | http ↦ false ]

has_codec : (CodecName → Bool) → List Destination → Bool
unfolding plays
has_codec is ds = any (λ (d : Destination). plays d && any is d.codecs) ds

is_g722 : CodecName → Bool
is_g722 g722 = true
is_g722 pcma = false
is_g722 pcmu = false

is_pcma : CodecName → Bool
is_pcma pcma = true
is_pcma g722 = false
is_pcma pcmu = false

-- `sorted(codecs - {"pcmu"})`
unfoldable pub other_codecs : List Destination → List CodecName
unfolding has_codec is_g722 is_pcma
other_codecs ds =
    (if has_codec is_g722 ds then g722 ∷ [] else [])
    ++ (if has_codec is_pcma ds then pcma ∷ [] else [])

-- The first failure among the transcodings.
unfoldable pub transcode_error : Machine → String → List CodecName → List String
transcode_error m sound [] = []
transcode_error m sound (c ∷ cs) = elim (m.transcodes sound c) [
  | err e ↦ ("cannot transcode " & sound & ": " & e) ∷ []
  | ok size ↦ transcode_error m sound cs
]

unfoldable pub sound_errors : Machine → (ℕ → String) → ℕ → List CodecName → String → List String
unfolding transcode_error reason playing_time
sound_errors m two_decimals longest others sound = elim (m.size_of sound) [
  | err e ↦ ("cannot transcode " & sound & ": " & e) ∷ []
  | ok size ↦
      reason (ltb longest (playing_time size)) (
        "sound "
        & sound
        & " is "
        & two_decimals (playing_time size)
        & "s; maximum is "
        & two_decimals longest
        & "s")
      ++ transcode_error m sound others
]

unfoldable pub each {ℓ} : {A : Type ℓ} → (A → List String) → List A → List String
each f [] = []
each f (x ∷ xs) = f x ++ each f xs

unfoldable pub audio_errors : Machine → (ℕ → String) → StartupConfig → List String
unfolding each sound_errors sorted_set sounds other_codecs
audio_errors m two_decimals c =
    if m.tools
    then each (sound_errors m two_decimals c.max_audio (other_codecs c.destinations))
        (sorted_set (sounds c))
    else "ffmpeg/ffprobe missing; install with: sudo apt install ffmpeg" ∷ []

unfoldable pub is_multicast : Protocol → Bool
is_multicast multicast = true
is_multicast sip = false
is_multicast http = false

unfoldable pub socket_error : Destination → Option String → List String
socket_error d none = []
socket_error d (some e) = ("cannot create multicast socket for " & d.name & ": " & e) ∷ []

unfoldable pub multicast_errors : Machine → Destination → List String
unfolding is_multicast socket_error
multicast_errors m d =
    if d.enabled && is_multicast d.protocol then socket_error d (m.multicast_error d) else []

unfoldable pub secret_env : Destination → Option String
secret_env d = elim d.protocol [
  | sip ↦ d.sip_password_env
  | http ↦ d.webhook_secret_env
  | multicast ↦ none
]

unfoldable pub destination_errors : Machine → Destination → List String
unfolding secret_env truthy reason
destination_errors m d = elim (truthy (secret_env d)) [
  | none ↦ []
  | some name ↦
      reason (d.enabled && (not (is_some (truthy (m.environ name))) && d.required))
        ("required destination " & d.name & ": environment variable " & name & " is not set")
]

unfoldable pub validate_startup : Machine → (ℕ → String) → StartupConfig → List String
unfolding secret_errors same_keys unpaired file_errors audio_errors multicast_errors
    destination_errors each reason is_synchronized
validate_startup m two_decimals c =
    secret_errors m secret_lengths
    ++ (reason (same_keys m) "BELL_API_KEY and BELL_EMERGENCY_API_KEY must be different"
        ++ (reason (unpaired (m.environ "BELL_TLS_CERTFILE") (m.environ "BELL_TLS_KEYFILE"))
              "BELL_TLS_CERTFILE and BELL_TLS_KEYFILE must be configured together"
            ++ (file_errors m "TLS certificate" (m.environ "BELL_TLS_CERTFILE")
                ++ (file_errors m "TLS private key" (m.environ "BELL_TLS_KEYFILE")
                    ++ (audio_errors m two_decimals c
                        ++ ((if m.interface_present
                              then each (multicast_errors m) c.destinations
                              else m.interface_detail ∷ [])
                            ++ (each (destination_errors m) c.destinations
                                ++ reason
                                    (not (is_synchronized m.synchronized) && c.clock_sync_required)
                                    ("system clock is not synchronized: " & m.sync_detail))))))))
