-- ===== src/Calibration.antt =====
-- bell/calibration.py: reading captured Poly packets, and deriving the channel mapping from them.
-- Of an error's message the fixed text is kept. SHA-256 (`hashlib`) is the argument `sha256`, over the bytes that the source hashes.
pub mod Packets
use school_bells.Prelude.{
  ℕ, zero, suc, ◌+◌, ◌-◌, ◌*◌, ◌%◌, ◌^◌, ◌/◌, String, Bool, true, false, ◌&&◌, ◌||◌, not, List, [],
  ◌∷◌, ◌++◌, Option, none, some, leb, ltb, ◌==◌, if◌then◌else◌, length, take, drop, all, any, map,
  replicate,
}
use school_bells.Prelude.Results.{Result, ok, err, ensure, ◌>>=◌, ◌>>◌, reraise}
use school_bells.Dates.Order.{sort_by}
use school_bells.Wire.Bytes.{be32, byte_at, read32}
use school_bells.Wire.Poly.{
  PolySpec, poly_spec, PolyGroupPage, poly_group_page, build_packet, is_poly_codec, poly_transmit,
  caller_id_bytes, control_header_bytes, audio_header_bytes,
}

abbrev pub min_channel_captures : ℕ
min_channel_captures = 3

abbrev pub min_packets_per_channel : ℕ
min_packets_per_channel = 8

pub record PolyPacket : Type 0 where
  pub opcode : ℕ
  pub encoded_channel : ℕ
  pub host_serial : ℕ
  pub caller_id_length : ℕ
  pub caller_id : List ℕ
  pub codec_type : ℕ
  pub flags : ℕ
  pub sample_count : ℕ
  pub audio : List ℕ

abbrev pub minimum : ℕ
minimum = control_header_bytes + audio_header_bytes

-- Without audio, or with one or two frames of 160 bytes.
unfoldable pub audio_fits : List ℕ → Bool
audio_fits [] = true
audio_fits audio = length audio == 160 || length audio == 320

unfoldable pub parse_poly_transmit : List ℕ → ℕ → Result PolyPacket
unfolding audio_fits
parse_poly_transmit packet expected = do
  ensure (is_poly_codec expected) "Poly Group Page does not support payload type"
  ensure (leb minimum (length packet)) "capture is shorter than the 26-byte Poly audio header"
  ensure (byte_at 0 packet == poly_transmit) "capture is not a Poly transmit packet"
  ensure (leb 26 (byte_at 1 packet) && leb (byte_at 1 packet) 50)
      "capture does not use a Poly paging channel from 26 through 50"
  ensure (byte_at 6 packet == caller_id_bytes)
      "capture does not use the fixed 13-byte Poly caller ID"
  ensure (byte_at 20 packet == expected) "capture is not configured Poly codec type"
  ensure (byte_at 21 packet == 0) "capture uses unsupported Poly audio flags"
  ensure (audio_fits (drop minimum packet))
      "Poly audio payload must contain one or two 160-byte/20 ms frames"
  ok (record {
    opcode = byte_at 0 packet;
    encoded_channel = byte_at 1 packet;
    host_serial = read32 2 packet;
    caller_id_length = byte_at 6 packet;
    caller_id = take 13 (drop 7 packet);
    codec_type = byte_at 20 packet;
    flags = byte_at 21 packet;
    sample_count = read32 22 packet;
    audio = drop minimum packet;
  })

abbrev pub has_audio : List ℕ → Bool
has_audio [] = false
has_audio (_ ∷ _) = true

unfoldable pub header_only : List ℕ → ℕ → Result (List ℕ)
header_only packet expected = do
  parsed ← parse_poly_transmit packet expected
  ensure (has_audio parsed.audio) "capture contains a header without live audio evidence"
  ok (take minimum packet)

unfoldable pub valid_header_or_none : List ℕ → ℕ → Option (List ℕ)
valid_header_or_none packet expected = elim (header_only packet expected) [
  | ok header ↦ some header
  | err e ↦ none
]

-- What the loop of `sanitize_capture` appends for a packet; `none` where it is rejected.
header_of : List ℕ → ℕ → Result (List ℕ)
header_of packet expected = do
  parsed ← parse_poly_transmit packet expected
  if has_audio parsed.audio then header_only packet expected else ok (take minimum packet)

headers_of : ℕ → List (List ℕ) → List (List ℕ)
unfolding header_of
headers_of expected [] = []
headers_of expected (packet ∷ packets) =
    let rest = headers_of expected packets in
    elim (header_of packet expected) [ ok header ↦ header ∷ rest | err e ↦ rest ]

unfoldable pub sanitize_capture : List (List ℕ) → ℕ → Result (List (List ℕ))
unfolding headers_of
sanitize_capture packets expected = do
  ensure (is_poly_codec expected) "Poly Group Page does not support payload type"
  ensure (leb min_packets_per_channel (length packets)) "capture needs at least 8 packets"
  ensure (leb min_packets_per_channel (length (headers_of expected packets)))
      "capture needs at least 8 valid Poly transmit packets"
  ok (headers_of expected packets)

pub record CaptureEvidence : Type 0 where
  pub channel : ℕ
  pub packet_count : ℕ
  pub header_sha256 : String

pub record DerivedCalibration : Type 0 where
  pub spec : PolySpec
  pub evidence : List CaptureEvidence

pub record Capture : Type 0 where
  pub channel : ℕ
  pub packets : List (List ℕ)

-- A channel after the first loop of `derive_poly_calibration`.
pub record Parsed : Type 0 where
  pub channel : ℕ
  pub encoded : ℕ
  pub headers : List (List ℕ)
  pub packets : List PolyPacket

-- `[parse_poly_transmit(packet, ...) for packet in headers]`
parse_all : ℕ → List (List ℕ) → Result (List PolyPacket)
parse_all expected [] = ok []
parse_all expected (h ∷ hs) = do
  p ← parse_poly_transmit h expected
  ps ← parse_all expected hs
  ok (p ∷ ps)

-- The one encoded channel of a capture, if there is but one.
one_channel : List PolyPacket → Result ℕ
one_channel [] = err "capture contains mixed Poly channels"
one_channel (p ∷ ps) = do
  ensure (all (λ (q : PolyPacket). q.encoded_channel == p.encoded_channel) ps)
      "capture contains mixed Poly channels"
  ok p.encoded_channel

parse_capture : ℕ → Capture → Result Parsed
unfolding parse_all one_channel
parse_capture expected c = do
  headers ← sanitize_capture c.packets expected
  packets ← parse_all expected headers
  encoded ← one_channel packets
  ok (record { channel = c.channel; encoded = encoded; headers = headers; packets = packets })

parse_captures : ℕ → List Capture → Result (List Parsed)
unfolding parse_capture
parse_captures expected [] = ok []
parse_captures expected (c ∷ cs) = do
  p ← parse_capture expected c
  ps ← parse_captures expected cs
  ok (p ∷ ps)

-- `encoded_channel - channel`, one and the same for all: both are compared with the first one's, so
-- that no difference goes below zero.
same_bias : Parsed → Parsed → Bool
same_bias p q = p.encoded + q.channel == q.encoded + p.channel

one_bias : List Parsed → Result ℕ
unfolding same_bias
one_bias [] = err "known captures do not prove one consistent Poly paging-channel mapping"
one_bias (p ∷ ps) = do
  ensure (all (same_bias p) ps)
      "known captures do not prove one consistent Poly paging-channel mapping"
  ensure (leb p.channel p.encoded)
      "captures do not confirm the required Poly Page group-to-channel +25 mapping"
  ok (p.encoded - p.channel)

-- `caller_id.rstrip(b"\0")`
strip_zeros : List ℕ → List ℕ
strip_zeros [] = []
strip_zeros (b ∷ bs) = elim (strip_zeros bs) [
  | [] ↦ if b == 0 then [] else b ∷ []
  | c ∷ cs ↦ b ∷ c ∷ cs
]

expected_header : PolyPacket → List ℕ
expected_header p =
    p.opcode ∷ p.encoded_channel ∷ be32 p.host_serial
    ++ p.caller_id_length ∷ p.caller_id
    ++ p.codec_type ∷ p.flags ∷ be32 p.sample_count

-- Equality of two byte strings.
pub same_bytes : List ℕ → List ℕ → Bool
same_bytes [] [] = true
same_bytes [] (_ ∷ _) = false
same_bytes (_ ∷ _) [] = false
same_bytes (a ∷ as') (b ∷ bs) = a == b && same_bytes as' bs

rebuilt_header : PolySpec → ℕ → PolyPacket → Result (List ℕ)
unfolding strip_zeros
rebuilt_header spec channel p = do
  wire ← poly_group_page (some spec) p.codec_type (strip_zeros p.caller_id)
  packet ← build_packet wire (replicate 160 0) p.sample_count p.host_serial channel none
  ok (take minimum packet)

check_packet : PolySpec → ℕ → PolyPacket → Result (Unit {0})
unfolding rebuilt_header expected_header same_bytes
check_packet spec channel p = do
  rebuilt ←
      reraise "captured Poly caller ID must contain 1 to 13 ASCII bytes"
        (rebuilt_header spec channel p)
  ensure (same_bytes rebuilt (expected_header p))
      "derived Poly builder does not reproduce captured headers"

check_packets : PolySpec → ℕ → List PolyPacket → Result (Unit {0})
unfolding check_packet
check_packets spec channel [] = ok tt
check_packets spec channel (p ∷ ps) = do check_packet spec channel p; check_packets spec channel ps

check_channels : PolySpec → List Parsed → Result (Unit {0})
unfolding check_packets
check_channels spec [] = ok tt
check_channels spec (p ∷ ps) = do check_packets spec p.channel p.packets; check_channels spec ps

-- `digest.update(len(header).to_bytes(4, "big")); digest.update(header)`
hashed_bytes : List (List ℕ) → List ℕ
hashed_bytes [] = []
hashed_bytes (h ∷ hs) = be32 (length h) ++ h ++ hashed_bytes hs

evidence_of : (List ℕ → String) → Parsed → CaptureEvidence
unfolding hashed_bytes
evidence_of sha256 p = record {
  channel = p.channel;
  packet_count = length p.headers;
  header_sha256 = sha256 (hashed_bytes p.headers);
}

unfoldable pub derive_poly_calibration :
    (List ℕ → String) → List Capture → ℕ → Result DerivedCalibration
unfolding parse_captures one_bias check_channels evidence_of
derive_poly_calibration sha256 captures expected = do
  ensure (leb min_channel_captures (length captures))
      "capture at least 3 distinct known Poly channels"
  ensure (all (λ (c : Capture). leb 1 c.channel && leb c.channel 25) captures)
      "known Poly channels must be between 1 and 25"
  parsed ← parse_captures expected (sort_by (λ (c : Capture). c.channel) captures)
  bias ← one_bias parsed
  spec ←
      reraise "captures do not confirm the required Poly Page group-to-channel +25 mapping"
        (poly_spec bias control_header_bytes audio_header_bytes)
  check_channels spec parsed
  ok (record { spec = spec; evidence = map (evidence_of sha256) parsed })
