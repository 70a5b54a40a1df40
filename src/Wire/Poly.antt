-- ===== src/Wire/Poly.antt =====
-- Poly Group Page packets: bell/wire/poly_group_page.py.
pub mod Layout
pub mod Maker
use school_bells.Prelude.{
  ℕ, zero, suc, ◌+◌, ◌-◌, ◌%◌, ◌^◌, Bool, true, false, ◌&&◌, ◌||◌, not, List, [], ◌∷◌, ◌++◌, Option,
  none, some, leb, ltb, ◌==◌, if◌then◌else◌, length, all, replicate, is_some,
}
use school_bells.Prelude.Results.{Result, ok, err, ensure, ◌>>=◌, ◌>>◌}
use school_bells.Wire.Bytes.{be32}

abbrev pub poly_alert : ℕ
poly_alert = 0x0F

abbrev pub poly_transmit : ℕ
poly_transmit = 0x10

abbrev pub poly_end : ℕ
poly_end = 0xFF

abbrev pub caller_id_bytes : ℕ
caller_id_bytes = 13

abbrev pub control_header_bytes : ℕ
control_header_bytes = 20

abbrev pub audio_header_bytes : ℕ
audio_header_bytes = 6

-- The keys of POLY_CODEC_TYPES.
unfoldable pub is_poly_codec : ℕ → Bool
is_poly_codec payload_type = payload_type == 0 || payload_type == 9

pub record PolySpec : Type 0 where
  pub channel_bias : ℕ
  pub control_header : ℕ
  pub audio_header : ℕ

unfoldable pub poly_spec : ℕ → ℕ → ℕ → Result PolySpec
poly_spec channel_bias control_header audio_header = do
  ensure (channel_bias == 25) "Poly Page groups must use the verified +25 channel bias"
  ensure (control_header == control_header_bytes) "unsupported Poly control-header size"
  ensure (audio_header == audio_header_bytes) "unsupported Poly audio-header size"
  ok (record {
    channel_bias = channel_bias;
    control_header = control_header;
    audio_header = audio_header;
  })

-- `encoded.ljust(13, b"\0")` of the caller ID's code points, if they are ASCII.
unfoldable pub caller_id_field : List ℕ → Result (List ℕ)
caller_id_field caller_id = do
  ensure (all (λ c. ltb c 128) caller_id) "Poly caller ID must contain ASCII characters only"
  ensure (ltb 0 (length caller_id) && leb (length caller_id) caller_id_bytes)
      "Poly caller ID must contain 1 to 13 ASCII bytes"
  ok (caller_id ++ replicate (caller_id_bytes - length caller_id) 0)

pub record PolyGroupPage : Type 0 where
  pub spec : Option PolySpec
  pub payload_type : ℕ
  pub caller_id : List ℕ

abbrev pub alert_count : ℕ
alert_count = 31

abbrev pub end_count : ℕ
end_count = 12

-- The module's `SPEC`, the default, is `None`.
unfoldable pub poly_group_page : Option PolySpec → ℕ → List ℕ → Result PolyGroupPage
poly_group_page spec payload_type caller_id = do
  ensure (is_poly_codec payload_type) "Poly Group Page supports only PCMU (0) or G722 (9)"
  field ← caller_id_field caller_id
  ok (record { spec = spec; payload_type = payload_type; caller_id = field })

unfoldable pub calibrated : PolyGroupPage → Bool
calibrated w = is_some w.spec

header_with : Option PolySpec → List ℕ → ℕ → ℕ → ℕ → Result (List ℕ)
header_with none caller_id opcode channel host_serial =
    err "Poly wire format not yet verified by capture — see docs/CAPTURE.md"
header_with (some spec) caller_id opcode channel host_serial = do
  ensure (leb 1 channel && leb channel 25) "Poly Group Page channel must be between 1 and 25"
  ensure (leb (channel + spec.channel_bias) 0xFF) "calibrated Poly channel mapping exceeds one byte"
  ok (
      opcode ∷ (channel + spec.channel_bias) ∷ be32 (host_serial % 2 ^ 32)
      ++ caller_id_bytes ∷ caller_id)

unfoldable pub identity_header : PolyGroupPage → ℕ → ℕ → ℕ → Result (List ℕ)
unfolding header_with
identity_header w opcode channel host_serial =
    header_with w.spec w.caller_id opcode channel host_serial

unfoldable pub build_control_packet : PolyGroupPage → ℕ → ℕ → ℕ → Result (List ℕ)
build_control_packet w opcode channel host_serial = do
  ensure (opcode == poly_alert || opcode == poly_end) "Poly control opcode must be alert or end"
  identity_header w opcode channel host_serial

-- The previous frame, sent again in front of the current one.
abbrev pub redundant : Option (List ℕ) → List ℕ
redundant none = []
redundant (some frame) = frame

unfoldable pub fits_current : Option (List ℕ) → List ℕ → Bool
fits_current none current = true
fits_current (some frame) current = length frame == length current

unfoldable pub build_packet : PolyGroupPage → List ℕ → ℕ → ℕ → ℕ → Option (List ℕ) → Result (List ℕ)
unfolding fits_current
build_packet w payload timestamp ssrc channel previous = do
  ensure (length payload == 160) "Poly Group Page requires 160-byte/20 ms codec frames"
  ensure (fits_current previous payload) "Poly redundant frame must match the current frame size"
  header ← identity_header w poly_transmit channel ssrc
  ok (header ++ (w.payload_type ∷ 0 ∷ be32 (timestamp % 2 ^ 32)) ++ redundant previous ++ payload)
