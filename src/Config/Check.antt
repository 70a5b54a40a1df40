-- ===== src/Config/Check.antt =====
-- The last part of `load_config` of bell/config.py: the checks across the parts of a configuration,
-- whose errors it collects. What the file system holds is the argument `readable`; of an error's
-- text the part that is fixed is kept, with the name that it is about.
use school_bells.Prelude.{
  ℕ, String, Bool, true, false, ◌&&◌, ◌||◌, not, List, [], ◌∷◌, ◌++◌, Option, none, some,
  if◌then◌else◌, select, any, map, str_eq, leb, ltb, is_some,
}
use school_bells.Config.{
  Destination, Protocol, multicast, sip, http, WireName, plain_rtp, poly_group_page, CodecName,
  pcmu, pcma, g722, Zone, BellEvent, BellSchedule, StandingItem, CalendarRule, DateRangeRule,
  by_name,
}

-- What a configuration names.
pub record Loaded : Type 0 where
  pub destinations : List Destination
  pub zones : List Zone
  pub schedules : List BellSchedule
  pub standing_items : List StandingItem
  pub calendar : CalendarRule
  pub wire_format : WireName
  pub max_repeats : ℕ
  pub hours_start : ℕ
  pub hours_end : ℕ

pub data ConfigError : Type 0 where
  duplicate_destination duplicate_zone duplicate_schedule : String → ConfigError
  no_destinations no_enabled_destinations : String → ConfigError
  unknown_destination : String → String → ConfigError
  poly_with_pcma : String → ConfigError
  unknown_zone missing_sound missing_pre_tone too_many_repeats outside_window : String → ConfigError
  unknown_schedule : String → ConfigError

-- The names that come twice, each once; the source sorts them.
unfoldable pub duplicates : List String → List String
duplicates [] = []
duplicates (n ∷ ns) =
    let rest = duplicates ns in
    if any (str_eq n) ns && not (any (str_eq n) rest) then n ∷ rest else rest

unfoldable pub when : Bool → ConfigError → List ConfigError
when true e = e ∷ []
when false e = []

unfoldable pub known_destinations : List Destination → List String → List Destination
known_destinations ds [] = []
known_destinations ds (n ∷ ns) =
    let rest = known_destinations ds ns in
    elim (by_name (λ (d : Destination). d.name) n ds) [ none ↦ rest | some d ↦ d ∷ rest ]

unfoldable pub is_known : List Destination → String → Bool
is_known ds n = is_some (by_name (λ (d : Destination). d.name) n ds)

abbrev empty {ℓ} : {A : Type ℓ} → List A → Bool
empty [] = true
empty (x ∷ xs) = false

unfoldable pub unknown_in : Zone → List Destination → List String → List ConfigError
unfolding is_known when
unknown_in zone ds [] = []
unknown_in zone ds (n ∷ ns) =
    when (not (is_known ds n)) (unknown_destination zone.name n) ++ unknown_in zone ds ns

unfoldable pub zone_errors : List Destination → List Zone → List ConfigError
unfolding unknown_in known_destinations when
zone_errors ds [] = []
zone_errors ds (zone ∷ zones) =
    when (empty zone.destinations) (no_destinations zone.name)
    ++ unknown_in zone ds zone.destinations
    ++ when
        (not (empty (known_destinations ds zone.destinations))
          && not (any (λ (d : Destination). d.enabled) (known_destinations ds zone.destinations)))
        (no_enabled_destinations zone.name)
    ++ zone_errors ds zones

unfoldable pub uses_poly : WireName → Option WireName → Bool
uses_poly plain_rtp none = false
uses_poly poly_group_page none = true
uses_poly default (some plain_rtp) = false
uses_poly default (some poly_group_page) = true

unfoldable pub is_multicast : Protocol → Bool
is_multicast multicast = true
is_multicast sip = false
is_multicast http = false

unfoldable pub only_pcma : List CodecName → Bool
only_pcma [] = false
only_pcma (pcmu ∷ cs) = false
only_pcma (g722 ∷ cs) = false
only_pcma (pcma ∷ []) = true
only_pcma (pcma ∷ c ∷ cs) = false

unfoldable pub wire_errors : WireName → List Destination → List ConfigError
unfolding uses_poly is_multicast only_pcma when
wire_errors default [] = []
wire_errors default (d ∷ ds) =
    when (is_multicast d.protocol && uses_poly default d.wire_format && only_pcma d.codecs)
      (poly_with_pcma d.name)
    ++ wire_errors default ds

-- The events of all schedules, then the enabled standing items.
unfoldable pub all_events : List BellSchedule → List StandingItem → List BellEvent
all_events [] items =
    map (λ (i : StandingItem). i.event) (select (λ (i : StandingItem). i.enabled) items)
all_events (s ∷ ss) items = s.events ++ all_events ss items

unfoldable pub within_window : ℕ → ℕ → ℕ → Bool
within_window value start end =
    if leb start end then leb start value && leb value end else leb start value || leb value end

unfoldable pub pre_tone_missing : (readable : String → Bool) → Option String → Bool
pre_tone_missing readable none = false
pre_tone_missing readable (some String.[]) = false
pre_tone_missing readable (some pre_tone) = not (readable pre_tone)

unfoldable pub event_errors :
    (readable : String → Bool) → Loaded → List BellEvent → List ConfigError
unfolding pre_tone_missing when
event_errors readable c [] = []
event_errors readable c (e ∷ es) =
    when (not (is_some (by_name (λ (z : Zone). z.name) e.zone c.zones))) (unknown_zone e.label)
    ++ when (not (readable e.sound)) (missing_sound e.label)
    ++ when (pre_tone_missing readable e.pre_tone) (missing_pre_tone e.label)
    ++ when (ltb c.max_repeats e.repeat_count) (too_many_repeats e.label)
    ++ when (not (within_window e.time c.hours_start c.hours_end)) (outside_window e.label)
    ++ event_errors readable c es

unfoldable pub weekday_names : List (String × Option String) → List String
weekday_names [] = []
weekday_names ((day, none) ∷ rest) = weekday_names rest
weekday_names ((day, some String.[]) ∷ rest) = weekday_names rest
weekday_names ((day, some name) ∷ rest) = name ∷ weekday_names rest

unfoldable pub referenced : CalendarRule → List String
unfolding weekday_names
referenced c =
    weekday_names c.weekday_defaults
    ++ map (λ (o : ℕ × String). o.1) c.overrides
    ++ map (λ (r : DateRangeRule). r.schedule) c.date_ranges

unfoldable pub calendar_errors : List BellSchedule → List String → List ConfigError
unfolding when
calendar_errors schedules [] = []
calendar_errors schedules (n ∷ ns) =
    when (not (is_some (by_name (λ (s : BellSchedule). s.name) n schedules))) (unknown_schedule n)
    ++ calendar_errors schedules ns

unfoldable pub config_errors : (readable : String → Bool) → Loaded → List ConfigError
unfolding duplicates all_events referenced zone_errors wire_errors event_errors calendar_errors
config_errors readable c =
    map duplicate_destination (duplicates (map (λ (d : Destination). d.name) c.destinations))
    ++ map duplicate_zone (duplicates (map (λ (z : Zone). z.name) c.zones))
    ++ map duplicate_schedule (duplicates (map (λ (s : BellSchedule). s.name) c.schedules))
    ++ zone_errors c.destinations c.zones
    ++ wire_errors c.wire_format c.destinations
    ++ event_errors readable c (all_events c.schedules c.standing_items)
    ++ calendar_errors c.schedules (referenced c.calendar)
