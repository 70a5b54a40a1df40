-- ===== src/Wire/Poly/Layout.antt =====
-- The bytes of the packets that bell/wire/poly_group_page.py builds, as Engineering Advisory 70568
-- lays them out.
use school_bells.Prelude.{
  ℕ, ◌+◌, ◌%◌, ◌^◌, ◌≤◌, ◌≡◌, ◌∙◌, ap, sym, true, ◌&&◌, ◌||◌, ◌⊎◌, List, ◌∷◌, ◌++◌, Option, none,
  some, arith, leb, ◌==◌, ==_iff, length,
}
use mathlib.Core.Option.{some-injective}
use school_bells.Prelude.Results.{ok, ok-injective, ensure-then, >>=-eq-ok}
use school_bells.Wire.Bytes.{be32}
use school_bells.Wire.Poly.{
  PolySpec, PolyGroupPage, build_packet, build_control_packet, identity_header, header_with,
  is_poly_codec, redundant, fits_current,
}

-- A sender as the constructors make it: with the +25 mapping, a Poly codec and 13 bytes of caller ID.
pub record IsPage (w : PolyGroupPage) : Type 0 where
  pub spec : PolySpec
  pub is_spec : w.spec ≡ some spec
  pub bias : spec.channel_bias ≡ 25
  pub codec : is_poly_codec w.payload_type ≡ true
  pub caller : length w.caller_id ≡ 13

-- The 20-byte header that all packets share.
abbrev pub header_bytes : PolyGroupPage → ℕ → ℕ → ℕ → List ℕ
header_bytes w opcode channel host_serial =
    opcode ∷ (channel + 25) ∷ be32 (host_serial % 2 ^ 32) ++ 13 ∷ w.caller_id

header_with-eq-ok :
    (o : Option PolySpec) (spec : PolySpec) (caller : List ℕ) (opcode channel serial : ℕ)
    (header : List ℕ)
    → o ≡ some spec
    → spec.channel_bias ≡ 25
    → header_with o caller opcode channel serial ≡ ok header
    → (1 ≤ channel)
      × (channel ≤ 25)
      × (opcode ∷ (channel + 25) ∷ be32 (serial % 2 ^ 32) ++ 13 ∷ caller ≡ header)
unfolding header_with
header_with-eq-ok none spec caller opcode channel serial header e b h = cc
header_with-eq-ok (some s) spec caller opcode channel serial header e b h =
    let (in_range, rest) = ensure-then (leb 1 channel && leb channel 25) _ _ h in
    let (one_byte, rest2) = ensure-then (leb (channel + s.channel_bias) 255) _ _ rest in
    (ground arith, ground arith, rw (← bias) (ok-injective rest2))
  where
    bias : s.channel_bias ≡ 25
    bias = ap (λ (x : PolySpec). x.channel_bias) (some-injective s spec e) ∙ b

-- What a packet that `build_packet` returns is made of, and what it took.
pub record IsAudio (w : PolyGroupPage) (payload : List ℕ) (timestamp ssrc channel : ℕ)
    (previous : Option (List ℕ)) (packet : List ℕ) : Type 0 where
  pub channel_low : 1 ≤ channel
  pub channel_high : channel ≤ 25
  pub frame : length payload ≡ 160
  pub again : fits_current previous payload ≡ true
  pub bytes :
      packet
      ≡ header_bytes w 0x10 channel ssrc
        ++ (w.payload_type ∷ 0 ∷ be32 (timestamp % 2 ^ 32))
        ++ redundant previous
        ++ payload

-- An audio packet that a sender made by the constructors builds is the shared header with opcode
-- 0x10 and the channel's code, the codec, a zero, the time stamp, the previous frame if there is one,
-- and the frame; the page group lies in 1 to 25, the frame has 160 bytes, and so has a previous one.
pub build_packet-IsAudio :
    (w : PolyGroupPage) (payload : List ℕ) (timestamp ssrc channel : ℕ) (previous : Option (List ℕ))
    (packet : List ℕ)
    → IsPage w
    → build_packet w payload timestamp ssrc channel previous ≡ ok packet
    → IsAudio w payload timestamp ssrc channel previous packet
unfolding build_packet identity_header
build_packet-IsAudio w payload timestamp ssrc channel previous packet page h =
    let (frame, rest) = ensure-then (length payload == 160) _ _ h in
    let (again, rest2) = ensure-then (fits_current previous payload) _ _ rest in
    let (header, is_header, built) =
      >>=-eq-ok (header_with w.spec w.caller_id 0x10 channel ssrc) _ rest2 in
    let (low, high, bytes) =
      header_with-eq-ok w.spec page.spec w.caller_id 0x10 channel ssrc header page.is_spec page.bias
        is_header in
    record {
      channel_low = low;
      channel_high = high;
      frame = (==_iff (length payload) 160).0 frame;
      again = again;
      bytes =
          sym (ok-injective built)
          ∙ ap
              (λ start.
                start
                ++ (w.payload_type ∷ 0 ∷ be32 (timestamp % 2 ^ 32))
                ++ redundant previous
                ++ payload)
              (sym bytes);
    }

-- A control packet is the header alone, for an alert or an end, with the channel's code 25 above
-- the page group's number; it is 20 bytes long.
pub build_control_packet_layout :
    (w : PolyGroupPage) (opcode channel serial : ℕ) (packet : List ℕ)
    → IsPage w
    → build_control_packet w opcode channel serial ≡ ok packet
    → ((opcode ≡ 0x0F) ⊎ (opcode ≡ 0xFF))
      × (1 ≤ channel)
      × (channel ≤ 25)
      × (packet ≡ header_bytes w opcode channel serial)
      × (length packet ≡ 20)
unfolding build_control_packet identity_header
build_control_packet_layout w opcode channel serial packet page h =
    let (is_control, rest) = ensure-then (opcode == 0x0F || opcode == 0xFF) _ _ h in
    let (low, high, bytes) =
      header_with-eq-ok w.spec page.spec w.caller_id opcode channel serial packet page.is_spec
        page.bias rest in
    (ground arith, low, high, sym bytes, rw (← bytes) (omega (arith, page.caller)))
