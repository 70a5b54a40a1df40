-- ===== src/Sip/Sdp.antt =====
-- `parse_sdp` of bell/protocols/sip.py, line by line. A text whose numeral or part is missing, which
-- the source meets with a ValueError or an IndexError, is an error too.
pub mod Answer
use Prim.Native.Char.{code}
use school_bells.Prelude.{
  ℕ, zero, suc, ◌+◌, ◌-◌, ◌*◌, String, Bool, true, false, ◌&&◌, ◌||◌, not, List, [], ◌∷◌, ◌++◌,
  Option, none, some, leb, ltb, ◌==◌, if◌then◌else◌, any, str_eq, select, map, drop,
}
use school_bells.Prelude.Results.{Result, ok, err, ensure, ◌>>=◌, ◌>>◌}
use school_bells.Dates.{◌&◌}
use school_bells.Config.{CodecName, pcmu, pcma, g722}
use school_bells.Sip.{is_space, is_text, joined}
use school_bells.Sip.Call.{SdpAnswer}

extend_piece : String → List String → List String
extend_piece s [] = s ∷ []
extend_piece s (t ∷ ts) = (s & t) ∷ ts

unfoldable pub split_at : (ℕ → Bool) → String → List String
unfolding extend_piece
split_at cuts String.[] = "" ∷ []
split_at cuts (String.◌∷◌ c s) =
    let rest = split_at cuts s in
    if cuts (code c) then "" ∷ rest else extend_piece (String.◌∷◌ c "") rest

-- `text.split()`
unfoldable pub words : String → List String
unfolding split_at is_space is_text
words s = select is_text (split_at is_space s)

-- `body.replace("\r", "").split("\n")`
without_returns : String → String
without_returns String.[] = ""
without_returns (String.◌∷◌ c s) =
    let rest = without_returns s in if code c == 13 then rest else String.◌∷◌ c rest

unfoldable pub lines_of : String → List String
unfolding without_returns split_at
lines_of body = split_at (λ c. c == 10) (without_returns body)

unfoldable pub fold_lower : ℕ → ℕ
fold_lower c = if leb 65 c && leb c 90 then c + 32 else c

-- Whether a text starts with another, up to what `fold` makes equal, and what follows it.
unfoldable pub after_prefix : (ℕ → ℕ) → String → String → Option String
after_prefix fold String.[] s = some s
after_prefix fold (String.◌∷◌ p ps) String.[] = none
after_prefix fold (String.◌∷◌ p ps) (String.◌∷◌ c s) =
    let rest = after_prefix fold ps s in if fold (code c) == fold (code p) then rest else none

is_digit : ℕ → Bool
is_digit c = leb 48 c && leb c 57

-- The value of digits, which single underscores may part; the flag tells whether a digit came last.
digits_value : Bool → ℕ → String → Option ℕ
unfolding is_digit
digits_value true n String.[] = some n
digits_value false n String.[] = none
digits_value last n (String.◌∷◌ c s) =
    let next = digits_value true (n * 10 + (code c - 48)) s in
    let parted = digits_value false n s in
    if is_digit (code c) then next else if code c == 95 && last then parted else none

-- `int(text)` where it is not negative; a negative one is refused as well, by the test on the port.
unfoldable pub int_of : String → Option ℕ
unfolding digits_value
int_of String.[] = none
int_of (String.◌∷◌ c s) =
    let signed = digits_value false 0 s in
    let plain = digits_value false 0 (String.◌∷◌ c s) in if code c == 43 then signed else plain

all_digits : String → Bool
unfolding is_digit
all_digits String.[] = true
all_digits (String.◌∷◌ c s) = is_digit (code c) && all_digits s

-- `tuple(int(item) for item in parts[3:] if item.isdigit())`
unfoldable pub payload_numbers : List String → List ℕ
unfolding all_digits int_of is_text
payload_numbers [] = []
payload_numbers (item ∷ items) =
    let rest = payload_numbers items in
    if is_text item && all_digits item
    then (elim (int_of item) [ none ↦ rest | some n ↦ n ∷ rest ])
    else rest

pub record SdpState : Type 0 where
  pub address : Option String
  pub media_address : Option String
  pub port : Option ℕ
  pub payload_types : List ℕ
  pub rtpmap : List (ℕ × String)
  pub inactive : Bool
  pub in_audio : Bool
  pub audio_seen : Bool

unfoldable pub is_avp : String → Bool
unfolding after_prefix fold_lower is_text
is_avp s = elim (after_prefix fold_lower "RTP/AVP" s) [
  | none ↦ false
  | some rest ↦ not (is_text rest)
]

unfoldable pub check_port : Option ℕ → Result ℕ
check_port none = err "invalid literal for int()"
check_port (some port) = do
  ensure (leb 1 port && leb port 65535) "SDP answer has an invalid audio port"
  ok port

unfoldable pub with_audio : List ℕ → SdpState → ℕ → SdpState
with_audio types s number = record s {
  port = some number;
  payload_types = types;
  in_audio = true;
  audio_seen = true;
}

-- The first line `m=audio`, by its parts.
unfoldable pub audio_line : List String → SdpState → Result SdpState
unfolding is_avp check_port payload_numbers int_of with_audio
audio_line (m ∷ port ∷ profile ∷ item ∷ items) s = do
  ensure (is_avp profile) ("unsupported SDP audio profile " & profile & "; SRTP is not configured")
  number ← check_port (int_of port)
  ok (with_audio (payload_numbers (item ∷ items)) s number)
audio_line (m ∷ port ∷ profile ∷ []) s = err "malformed SDP audio media line"
audio_line (m ∷ port ∷ []) s = err "malformed SDP audio media line"
audio_line (m ∷ []) s = err "malformed SDP audio media line"
audio_line [] s = err "malformed SDP audio media line"

unfoldable pub first_piece : List String → String
first_piece [] = ""
first_piece (p ∷ ps) = p

unfoldable pub with_connection :
    (in_audio : Bool) → (address : Option String) → String → SdpState → SdpState
with_connection true address candidate s = record s { media_address = some candidate }
with_connection false none candidate s = record s { address = some candidate }
with_connection false (some a) candidate s = s

unfoldable pub connection_line : List String → SdpState → Result SdpState
unfolding first_piece split_at with_connection
connection_line (c ∷ ip ∷ host ∷ rest) s =
    let candidate = first_piece (split_at (λ c. c == 47) host) in
    ok (with_connection s.in_audio s.address candidate s)
connection_line (c ∷ ip ∷ []) s = err "list index out of range"
connection_line (c ∷ []) s = err "list index out of range"
connection_line [] s = err "list index out of range"

taken : (ℕ → Bool) → String → String
taken p String.[] = ""
taken p (String.◌∷◌ c s) = let rest = taken p s in if p (code c) then String.◌∷◌ c rest else ""

dropped : (ℕ → Bool) → String → String
dropped p String.[] = ""
dropped p (String.◌∷◌ c s) = let rest = dropped p s in if p (code c) then rest else String.◌∷◌ c s

-- `(\d+)\s+([^/\s]+)`; the name is kept as it is written, and compared without regard to case.
unfoldable pub rtpmap_entry : String → Option (ℕ × String)
unfolding taken dropped is_digit is_space is_text int_of
rtpmap_entry s =
    let after = dropped is_digit s in
    let name = taken (λ c. not (c == 47 || is_space c)) (dropped is_space after) in
    elim (int_of (taken is_digit s)) [
      | none ↦ none
      | some n ↦ if is_text (taken is_space after) && is_text name then some (n, name) else none
    ]

unfoldable pub with_entry : Option (ℕ × String) → SdpState → SdpState
with_entry none s = s
with_entry (some entry) s = record s { rtpmap = entry ∷ s.rtpmap }

unfoldable pub same_case : ℕ → ℕ
same_case c = c

unfoldable pub is_whole : Option String → Bool
unfolding is_text
is_whole none = false
is_whole (some rest) = not (is_text rest)

-- An attribute line: within the audio part `a=inactive`, or a mapping of a payload type.
unfoldable pub attribute_line :
    (in_audio : Bool) → (inactive : Bool) → Option String → SdpState → SdpState
unfolding rtpmap_entry with_entry
attribute_line false inactive mapping s = s
attribute_line true true mapping s = record s { inactive = true }
attribute_line true false none s = s
attribute_line true false (some text) s = with_entry (rtpmap_entry text) s

-- A line that starts no audio part, by what follows `m=` and `c=IN IP4 ` if it starts so.
unfoldable pub other_line : Option String → Option String → String → SdpState → Result SdpState
unfolding connection_line attribute_line words after_prefix fold_lower is_whole
other_line (some media) connection line s = ok (record s { in_audio = false })
other_line none (some address) line s = connection_line (words line) s
other_line none none line s = ok (
    attribute_line s.in_audio (is_whole (after_prefix fold_lower "a=inactive" line))
      (after_prefix fold_lower "a=rtpmap:" line) s)

unfoldable pub started_line :
    Option String → (audio_seen : Bool) → String → SdpState → Result SdpState
unfolding other_line audio_line words after_prefix same_case
started_line (some audio) true line s = ok (record s { in_audio = false })
started_line (some audio) false line s = audio_line (words line) s
started_line none audio_seen line s =
    other_line (after_prefix same_case "m=" line) (after_prefix same_case "c=IN IP4 " line) line s

-- One turn of the loop over the lines.
unfoldable pub sdp_line : String → SdpState → Result SdpState
unfolding started_line after_prefix same_case
sdp_line line s = started_line (after_prefix same_case "m=audio " line) s.audio_seen line s

unfoldable pub sdp_lines : List String → SdpState → Result SdpState
unfolding sdp_line
sdp_lines [] s = ok s
sdp_lines (line ∷ lines) s = do t ← sdp_line line s; sdp_lines lines t

abbrev pub no_media : SdpState
no_media = record {
  address = none;
  media_address = none;
  port = none;
  payload_types = [];
  rtpmap = [];
  inactive = false;
  in_audio = false;
  audio_seen = false;
}

-- `codec_spec(codec).payload_type`
unfoldable pub payload_type_of : CodecName → ℕ
payload_type_of pcmu = 0
payload_type_of pcma = 8
payload_type_of g722 = 9

encoding_name : CodecName → String
encoding_name pcmu = "pcmu"
encoding_name pcma = "pcma"
encoding_name g722 = "g722"

-- `rtpmap.get(...)`: of two entries the later one, which stands first here.
mapped_as : ℕ → List (ℕ × String) → Option String
mapped_as n [] = none
mapped_as n ((k, name) ∷ rest) = if k == n then some name else mapped_as n rest

-- Whether the answer takes a codec under its static payload type.
unfoldable pub takes : SdpState → CodecName → Bool
unfolding payload_type_of mapped_as encoding_name after_prefix fold_lower is_whole
takes s codec =
    any (λ n. n == payload_type_of codec) s.payload_types
    && (elim (mapped_as (payload_type_of codec) s.rtpmap) [
      | none ↦ true
      | some name ↦ is_whole (after_prefix fold_lower (encoding_name codec) name)
    ])

unfoldable pub first_taken : SdpState → List CodecName → Option CodecName
unfolding takes
first_taken s [] = none
first_taken s (codec ∷ codecs) = if takes s codec then some codec else first_taken s codecs

unfoldable pub chosen_address : SdpState → Option String
unfolding is_text
chosen_address s = elim s.media_address [
  | none ↦ s.address
  | some a ↦ if is_text a then some a else s.address
]

-- What follows the loop: by the address, the port, whether the peer is inactive, and the first
-- offered codec that it takes.
unfoldable pub answer_of :
    Option String
    → Option ℕ
    → (inactive : Bool) → Option CodecName
    → List CodecName
    → Result SdpAnswer
unfolding is_text payload_type_of encoding_name joined
answer_of none port inactive codec offered = err "SDP answer has no usable IPv4 audio destination"
answer_of (some address) none inactive codec offered =
    err "SDP answer has no usable IPv4 audio destination"
answer_of (some address) (some port) inactive none offered = do
  ensure (is_text address) "SDP answer has no usable IPv4 audio destination"
  ensure (not inactive) "SIP peer marked the audio stream inactive"
  err (
      "SIP peer did not accept an offered audio codec (" & joined (map encoding_name offered) & ")")
answer_of (some address) (some port) inactive (some codec) offered = do
  ensure (is_text address) "SDP answer has no usable IPv4 audio destination"
  ensure (not inactive) "SIP peer marked the audio stream inactive"
  ok (record {
    address = address;
    port = port;
    codec = codec;
    payload_type = payload_type_of codec;
  })

unfoldable pub sdp_answer : List CodecName → SdpState → Result SdpAnswer
unfolding chosen_address first_taken answer_of
sdp_answer offered s =
    answer_of (chosen_address s) s.port s.inactive (first_taken s offered) offered

unfoldable pub parse_sdp : List CodecName → String → Result SdpAnswer
unfolding sdp_lines lines_of sdp_answer
parse_sdp offered body = do s ← sdp_lines (lines_of body) no_media; sdp_answer offered s
