-- ===== src/Tests/Packets.antt =====
-- Packets of bell/wire/ and their readers, on small payloads.
use school_bells.Prelude.{◌↔◌, ℕ, ◌≡◌, refl, true, List, [], ◌∷◌, ◌++◌, replicate, none, some}
use school_bells.Prelude.Results.{ok}
use school_bells.Wire.{Stamp}
use school_bells.Wire.Rtp.{PlainRtp, plain_rtp, build_packet}
use school_bells.Wire.Rtp.Fields.{IsRtp, build_packet-IsRtp}
use school_bells.Wire.Rtp.Listen.{pcmu_payload, pcmu_payload-build_packet}
use school_bells.Wire.Poly.{
  PolySpec, poly_spec, PolyGroupPage, poly_group_page, identity_header, build_control_packet,
  caller_id_field, build_packet as build_poly, is_poly_codec,
}
use school_bells.Wire.Poly.Layout.{IsPage, header_bytes}
use school_bells.Wire.Poly.Maker.{Makes, poly_group_page-Makes}
use school_bells.Calibration.{parse_poly_transmit}
use school_bells.Calibration.Packets.{parse-build_packet}

abbrev pcmu_wire : PlainRtp
pcmu_wire = record { payload_type = 0 }

abbrev stamp : Stamp
stamp = record { seq = 7; timestamp = 160; ssrc = 9 }

abbrev rtp_bytes : List ℕ
rtp_bytes = 128 ∷ 128 ∷ 0 ∷ 7 ∷ 0 ∷ 0 ∷ 0 ∷ 160 ∷ 0 ∷ 0 ∷ 0 ∷ 9 ∷ 255 ∷ 254 ∷ []

built : build_packet pcmu_wire (255 ∷ 254 ∷ []) stamp true 0 ≡ ok rtp_bytes
unfolding build_packet
built = refl

plain : plain_rtp 0 ≡ ok pcmu_wire
unfolding plain_rtp
plain = refl

build_packet-IsRtp_example :
    (◌≡◌ {A = ℕ} 0 0) × IsRtp pcmu_wire stamp true (255 ∷ 254 ∷ []) rtp_bytes
build_packet-IsRtp_example =
    build_packet-IsRtp 0 pcmu_wire (255 ∷ 254 ∷ []) stamp true 0 rtp_bytes plain built

pcmu_payload-build_packet_example : pcmu_payload rtp_bytes ≡ some (255 ∷ 254 ∷ [])
pcmu_payload-build_packet_example = pcmu_payload-build_packet (255 ∷ 254 ∷ []) stamp true built

abbrev spec : PolySpec
spec = record { channel_bias = 25; control_header = 20; audio_header = 6 }

abbrev page : PolyGroupPage
page = record { spec = some spec; payload_type = 0; caller_id = 66 ∷ 69 ∷ 76 ∷ 76 ∷ replicate 9 0 }

spec_made : poly_spec 25 20 6 ≡ ok spec
unfolding poly_spec
spec_made = refl

page_made : poly_group_page (some spec) 0 (66 ∷ 69 ∷ 76 ∷ 76 ∷ []) ≡ ok page
unfolding poly_group_page caller_id_field is_poly_codec
page_made = refl

made : IsPage page
unfolding is_poly_codec
made = record { spec = spec; is_spec = refl; bias = refl; codec = refl; caller = refl }

poly_group_page-Makes_example :
    ((made_spec : PolySpec) × (poly_spec 25 20 6 ≡ ok made_spec)
      × (poly_group_page (some made_spec) 0 (66 ∷ 69 ∷ 76 ∷ 76 ∷ []) ≡ ok page))
    ↔ Makes 25 20 6 0 (66 ∷ 69 ∷ 76 ∷ 76 ∷ []) page
poly_group_page-Makes_example = poly_group_page-Makes 25 20 6 0 (66 ∷ 69 ∷ 76 ∷ 76 ∷ []) page

abbrev alert_bytes : List ℕ
alert_bytes = header_bytes page 0x0F 3 77

alert_built : build_control_packet page 0x0F 3 77 ≡ ok alert_bytes
unfolding build_control_packet identity_header
alert_built = refl

abbrev frame : List ℕ
frame = replicate 160 255

abbrev audio : List ℕ
audio = header_bytes page 0x10 3 77 ++ (0 ∷ 0 ∷ 0 ∷ 0 ∷ 0 ∷ 160 ∷ []) ++ frame

audio_built : build_poly page frame 160 77 3 none ≡ ok audio
unfolding build_poly identity_header
audio_built = refl

parse-build_packet_example :
    parse_poly_transmit audio 0
    ≡ ok (record {
      opcode = 0x10;
      encoded_channel = 28;
      host_serial = 77;
      caller_id_length = 13;
      caller_id = 66 ∷ 69 ∷ 76 ∷ 76 ∷ replicate 9 0;
      codec_type = 0;
      flags = 0;
      sample_count = 160;
      audio = frame;
    })
parse-build_packet_example = parse-build_packet page frame 160 77 3 none audio made audio_built
