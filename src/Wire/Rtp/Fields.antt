-- ===== src/Wire/Rtp/Fields.antt =====
-- Where the fields of a packet of PlainRTP (bell/wire/plain_rtp.py) stand, as RFC 3550 lays them out.
use Prim.Native.Nat.{bit_or}
use school_bells.Prelude.{
  ℕ, ◌+◌, ◌*◌, ◌%◌, ◌^◌, ◌<◌, ◌≡◌, ◌∙◌, refl, Bool, true, false, List, ◌++◌, arith, if◌then◌else◌,
  length, drop, ◌==◌, ==_iff,
}
use mathlib.Core.Path.{subst}
use school_bells.Prelude.Results.{ok, ok-injective, ensure-then}
use school_bells.Wire.{Stamp}
use school_bells.Wire.Bytes.{byte_at, read32, bit_or-128, bit_or-0}
use school_bells.Wire.Rtp.{PlainRtp, plain_rtp, rtp_header, build_packet}

marker_byte :
    (marker : Bool) (p : ℕ)
    → p < 128
    → bit_or (if marker then 128 else 0) p ≡ (if marker then 128 else 0) + p
marker_byte true p h = bit_or-128 p h
marker_byte false p h = bit_or-0 p h ∙ omega arith

-- The layout of RFC 3550: version 2 with no padding, extension or sources; marker and payload type;
-- sequence number, time stamp and source, reduced to their widths; then the payload.
pub record IsRtp (w : PlainRtp) (stamp : Stamp) (marker : Bool) (payload packet : List ℕ)
    : Type 0 where
  pub size : length packet ≡ 12 + length payload
  pub first : byte_at 0 packet ≡ 128
  pub second : byte_at 1 packet ≡ (if marker then 128 else 0) + w.payload_type
  pub seq : byte_at 2 packet * 256 + byte_at 3 packet ≡ stamp.seq % 2 ^ 16
  pub timestamp : read32 4 packet ≡ stamp.timestamp % 2 ^ 32
  pub ssrc : read32 8 packet ≡ stamp.ssrc % 2 ^ 32
  pub rest : drop 12 packet ≡ payload

header-IsRtp :
    (w : PlainRtp) (stamp : Stamp) (marker : Bool) (payload : List ℕ)
    → w.payload_type < 128
    → IsRtp w stamp marker payload (rtp_header w stamp marker ++ payload)
unfolding rtp_header
header-IsRtp w stamp marker payload h = record {
  size = omega arith;
  first = refl;
  second = marker_byte marker w.payload_type h;
  seq = omega arith;
  timestamp = omega arith;
  ssrc = omega arith;
  rest = refl;
}

plain_rtp-lt : (p : ℕ) (w : PlainRtp) → plain_rtp p ≡ ok w → w.payload_type < 128
unfolding plain_rtp
plain_rtp-lt p w h = ground arith

channel_or_error :
    (w : PlainRtp) (payload : List ℕ) (stamp : Stamp) (marker : Bool) (channel : ℕ)
    (packet : List ℕ)
    → build_packet w payload stamp marker channel ≡ ok packet
    → (channel ≡ 0) × (rtp_header w stamp marker ++ payload ≡ packet)
unfolding build_packet
channel_or_error w payload stamp marker channel packet h =
    let (zero_channel, e) = ensure-then (channel == 0) _ _ h in
    ((==_iff channel 0).0 zero_channel, ok-injective e)

-- A packet that `build_packet` returns for a payload type that `PlainRTP` accepts has exactly the
-- fields of RFC 3550, and is returned for channel 0 only.
pub build_packet-IsRtp :
    (p : ℕ) (w : PlainRtp) (payload : List ℕ) (stamp : Stamp) (marker : Bool) (channel : ℕ)
    (packet : List ℕ)
    → plain_rtp p ≡ ok w
    → build_packet w payload stamp marker channel ≡ ok packet
    → (channel ≡ 0) × IsRtp w stamp marker payload packet
build_packet-IsRtp p w payload stamp marker channel packet made built = (
  (channel_or_error w payload stamp marker channel packet built).0,
  subst (IsRtp w stamp marker payload)
      (channel_or_error w payload stamp marker channel packet built).1
      (header-IsRtp w stamp marker payload (plain_rtp-lt p w made)),
)
