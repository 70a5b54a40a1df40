-- ===== src/Calibration/Packets.antt =====
-- A packet of the sender (bell/wire/poly_group_page.py) read by `parse_poly_transmit` of
-- bell/calibration.py.
use school_bells.Prelude.{
  ℕ, zero, suc, ◌+◌, ◌*◌, ◌%◌, ◌^◌, ◌≤◌, ◌≡◌, ◌⊎◌, ◌∙◌, refl, ap, sym, true, ◌&&◌, List, [], ◌∷◌,
  ◌++◌, Option, none, some, arith, leb, leb→le, le→leb, ◌==◌, ==_iff, length, take, drop,
  length-append, inl, inr,
}
use school_bells.Prelude.Results.{ok, ok-injective, ensure-then}
use school_bells.Wire.Bytes.{be32, byte_at, read32, read-be32}
use school_bells.Wire.Poly.{PolyGroupPage, build_packet, is_poly_codec, redundant, fits_current}
use school_bells.Wire.Poly.Layout.{IsPage, header_bytes, build_packet-IsAudio}
use school_bells.Calibration.{PolyPacket, audio_fits, parse_poly_transmit}

byte_at-append :
    (k : ℕ) (xs ys : List ℕ) (i : ℕ) → k ≡ length xs + i → byte_at k (xs ++ ys) ≡ byte_at i ys
byte_at-append k [] ys i e = ap (λ n. byte_at n ys) (e ∙ omega arith)
byte_at-append zero (x ∷ xs) ys i e = absurd (omega arith)
byte_at-append (suc k) (x ∷ xs) ys i e = byte_at-append k xs ys i (omega arith)

drop-append : (k : ℕ) (xs ys : List ℕ) (i : ℕ) → k ≡ length xs + i → drop k (xs ++ ys) ≡ drop i ys
drop-append k [] ys i e = ap (λ n. drop n ys) (e ∙ omega arith)
drop-append zero (x ∷ xs) ys i e = absurd (omega arith)
drop-append (suc k) (x ∷ xs) ys i e = drop-append k xs ys i (omega arith)

take-append : (k : ℕ) (xs ys : List ℕ) → k ≡ length xs → take k (xs ++ ys) ≡ xs
take-append zero [] ys e = refl
take-append (suc k) [] ys e = absurd (omega arith)
take-append zero (x ∷ xs) ys e = absurd (omega arith)
take-append (suc k) (x ∷ xs) ys e = ap (λ t. x ∷ t) (take-append k xs ys (omega arith))

-- What the tests of `parse_poly_transmit` let through.
pub record Reads (packet : List ℕ) (expected : ℕ) : Type 0 where
  pub codec : is_poly_codec expected ≡ true
  pub long : 26 ≤ length packet
  pub opcode : byte_at 0 packet ≡ 0x10
  pub low : 26 ≤ byte_at 1 packet
  pub high : byte_at 1 packet ≤ 50
  pub caller : byte_at 6 packet ≡ 13
  pub codec_type : byte_at 20 packet ≡ expected
  pub flags : byte_at 21 packet ≡ 0
  pub audio : audio_fits (drop 26 packet) ≡ true

abbrev pub fields : List ℕ → PolyPacket
fields packet = record {
  opcode = byte_at 0 packet;
  encoded_channel = byte_at 1 packet;
  host_serial = read32 2 packet;
  caller_id_length = byte_at 6 packet;
  caller_id = take 13 (drop 7 packet);
  codec_type = byte_at 20 packet;
  flags = byte_at 21 packet;
  sample_count = read32 22 packet;
  audio = drop 26 packet;
}

between : (a b x : ℕ) → a ≤ x → x ≤ b → (leb a x && leb x b) ≡ true
between a b x h k = ground arith

pub parse-Reads :
    (packet : List ℕ) (expected : ℕ)
    → Reads packet expected
    → parse_poly_transmit packet expected ≡ ok (fields packet)
unfolding parse_poly_transmit
parse-Reads packet expected r = simp (
  r.codec,
  le→leb 26 (length packet) r.long,
  (==_iff (byte_at 0 packet) 0x10).1 r.opcode,
  between 26 50 (byte_at 1 packet) r.low r.high,
  (==_iff (byte_at 6 packet) 13).1 r.caller,
  (==_iff (byte_at 20 packet) expected).1 r.codec_type,
  (==_iff (byte_at 21 packet) 0).1 r.flags,
  r.audio,
)

pub Reads-parse :
    (packet : List ℕ) (expected : ℕ) (p : PolyPacket)
    → parse_poly_transmit packet expected ≡ ok p
    → Reads packet expected × (fields packet ≡ p)
unfolding parse_poly_transmit
Reads-parse packet expected p h0 =
    let (codec, h1) = ensure-then (is_poly_codec expected) _ _ h0 in
    let (long, h2) = ensure-then (leb 26 (length packet)) _ _ h1 in
    let (opcode, h3) = ensure-then (byte_at 0 packet == 0x10) _ _ h2 in
    let (range, h4) = ensure-then (leb 26 (byte_at 1 packet) && leb (byte_at 1 packet) 50) _ _ h3 in
    let (caller, h5) = ensure-then (byte_at 6 packet == 13) _ _ h4 in
    let (codec_type, h6) = ensure-then (byte_at 20 packet == expected) _ _ h5 in
    let (flags, h7) = ensure-then (byte_at 21 packet == 0) _ _ h6 in
    let (audio, h8) = ensure-then (audio_fits (drop 26 packet)) _ _ h7 in
    (
      record {
        codec = codec;
        long = leb→le _ _ long;
        opcode = (==_iff _ _).0 opcode;
        low = (in_range (byte_at 1 packet) range).0;
        high = (in_range (byte_at 1 packet) range).1;
        caller = (==_iff _ _).0 caller;
        codec_type = (==_iff _ _).0 codec_type;
        flags = (==_iff _ _).0 flags;
        audio = audio;
      },
      ok-injective h8,
    )
  where
    in_range : (x : ℕ) → (leb 26 x && leb x 50) ≡ true → (26 ≤ x) × (x ≤ 50)
    in_range x h = ground arith

module _ (channel ssrc codec timestamp : ℕ) (caller audio : List ℕ)
    (thirteen : length caller ≡ 13) where
  start : List ℕ
  start = 16 ∷ (channel + 25) ∷ be32 (ssrc % 2 ^ 32) ++ 13 ∷ caller

  abbrev rest : List ℕ
  rest = (codec ∷ 0 ∷ be32 (timestamp % 2 ^ 32)) ++ audio

  twenty : length start ≡ 20
  unfolding start
  twenty = omega (arith, thirteen)

  codec_at : byte_at 20 (start ++ rest) ≡ codec
  codec_at = byte_at-append 20 start rest 0 (omega (arith, twenty))

  flags_at : byte_at 21 (start ++ rest) ≡ 0
  flags_at = byte_at-append 21 start rest 1 (omega (arith, twenty))

  audio_at : drop 26 (start ++ rest) ≡ audio
  audio_at = drop-append 26 start rest 6 (omega (arith, twenty))

  caller_at : take 13 (drop 7 (start ++ rest)) ≡ caller
  unfolding start
  caller_at = take-append 13 caller rest (sym thirteen)

  serial_at : read32 2 (start ++ rest) ≡ ssrc % 2 ^ 32
  unfolding start
  serial_at = omega arith

  sum4 :
      (a b c d a1 b1 c1 d1 : ℕ)
      → a ≡ a1
      → b ≡ b1
      → c ≡ c1
      → d ≡ d1
      → a * 16777216 + b * 65536 + c * 256 + d ≡ a1 * 16777216 + b1 * 65536 + c1 * 256 + d1
  sum4 a b c d a1 b1 c1 d1 e f g h = omega arith

  timestamp_at : read32 22 (start ++ rest) ≡ timestamp % 2 ^ 32
  timestamp_at =
      sum4 _ _ _ _ _ _ _ _ (byte_at-append 22 start rest 2 (omega (arith, twenty)))
        (byte_at-append 23 start rest 3 (omega (arith, twenty)))
        (byte_at-append 24 start rest 4 (omega (arith, twenty)))
        (byte_at-append 25 start rest 5 (omega (arith, twenty)))
      ∙ read-be32 (timestamp % 2 ^ 32) (omega arith)

  long_enough : 26 ≤ length (start ++ rest)
  long_enough = omega (arith, length-append start rest, twenty)

  packet-Reads :
      1 ≤ channel
      → channel ≤ 25
      → is_poly_codec codec ≡ true
      → audio_fits audio ≡ true
      → Reads (start ++ rest) codec
  unfolding start
  packet-Reads low high poly fits = record {
    codec = poly;
    long = long_enough;
    opcode = refl;
    low = omega arith;
    high = omega arith;
    caller = refl;
    codec_type = codec_at;
    flags = flags_at;
    audio = ap audio_fits audio_at ∙ fits;
  }

sized : (xs : List ℕ) → (length xs ≡ 160) ⊎ (length xs ≡ 320) → audio_fits xs ≡ true
unfolding audio_fits
sized [] h = refl
sized (x ∷ xs) h = ground arith

audio_fits-redundant :
    (previous : Option (List ℕ)) (payload : List ℕ)
    → length payload ≡ 160
    → fits_current previous payload ≡ true
    → audio_fits (redundant previous ++ payload) ≡ true
unfolding fits_current
audio_fits-redundant none payload h e = sized payload (inl h)
audio_fits-redundant (some frame) payload h e = sized (frame ++ payload) (
    inr
      (omega (arith, length-append frame payload, h, (==_iff (length frame) (length payload)).0 e)))

append_assoc : (xs ys zs : List ℕ) → (xs ++ ys) ++ zs ≡ xs ++ (ys ++ zs)
append_assoc [] ys zs = refl
append_assoc (x ∷ xs) ys zs = ap (λ t. x ∷ t) (append_assoc xs ys zs)

abbrev read_as :
    (code serial : ℕ) (caller : List ℕ) (codec flags count : ℕ) (audio : List ℕ) → PolyPacket
read_as code serial caller codec flags count audio = record {
  opcode = 16;
  encoded_channel = code;
  host_serial = serial;
  caller_id_length = 13;
  caller_id = caller;
  codec_type = codec;
  flags = flags;
  sample_count = count;
  audio = audio;
}

read_as-eq :
    (code s s1 : ℕ) (c c1 : List ℕ) (k k1 f f1 t t1 : ℕ) (a a1 : List ℕ)
    → s ≡ s1
    → c ≡ c1
    → k ≡ k1
    → f ≡ f1
    → t ≡ t1
    → a ≡ a1
    → read_as code s c k f t a ≡ read_as code s1 c1 k1 f1 t1 a1
read_as-eq code s s1 c c1 k k1 f f1 t t1 a a1 es ec ek ef et ea = rw (es, ec, ek, ef, et, ea) refl

fields-packet :
    (channel ssrc codec timestamp : ℕ) (caller audio : List ℕ) (n : length caller ≡ 13)
    → fields (
        start channel ssrc codec timestamp caller audio n
        ++ rest channel ssrc codec timestamp caller audio n)
      ≡ read_as (channel + 25) (ssrc % 2 ^ 32) caller codec 0 (timestamp % 2 ^ 32) audio
unfolding start
fields-packet channel ssrc codec timestamp caller audio n =
    read_as-eq (channel + 25) _ _ _ _ _ _ _ _ _ _ _ _
      (serial_at channel ssrc codec timestamp caller audio n)
      (caller_at channel ssrc codec timestamp caller audio n)
      (codec_at channel ssrc codec timestamp caller audio n)
      (flags_at channel ssrc codec timestamp caller audio n)
      (timestamp_at channel ssrc codec timestamp caller audio n)
      (audio_at channel ssrc codec timestamp caller audio n)

-- An audio packet that a sender made by the constructors builds is read back, by the parser of
-- captures for that sender's codec: its channel code is 25 above the page group, and its serial
-- number, caller ID, sample count and audio, the previous frame first, are those it was built from.
pub parse-build_packet :
    (w : PolyGroupPage) (payload : List ℕ) (timestamp ssrc channel : ℕ) (previous : Option (List ℕ))
    (packet : List ℕ)
    → IsPage w
    → build_packet w payload timestamp ssrc channel previous ≡ ok packet
    → parse_poly_transmit packet w.payload_type
      ≡ ok (record {
        opcode = 0x10;
        encoded_channel = channel + 25;
        host_serial = ssrc % 2 ^ 32;
        caller_id_length = 13;
        caller_id = w.caller_id;
        codec_type = w.payload_type;
        flags = 0;
        sample_count = timestamp % 2 ^ 32;
        audio = redundant previous ++ payload;
      })
unfolding start
parse-build_packet w payload timestamp ssrc channel previous packet page h =
    let a = build_packet-IsAudio w payload timestamp ssrc channel previous packet page h in
    let audio = redundant previous ++ payload in
    let head = header_bytes w 0x10 channel ssrc in
    let middle = w.payload_type ∷ 0 ∷ be32 (timestamp % 2 ^ 32) in
    ap (λ p. parse_poly_transmit p w.payload_type)
      (a.bytes
        ∙ append_assoc (head ++ middle) (redundant previous) payload
        ∙ append_assoc head middle (redundant previous ++ payload))
    ∙ parse-Reads _ w.payload_type (
        packet-Reads channel ssrc w.payload_type timestamp w.caller_id audio page.caller
          a.channel_low a.channel_high page.codec
          (audio_fits-redundant previous payload a.frame a.again))
    ∙ ap ok (fields-packet channel ssrc w.payload_type timestamp w.caller_id audio page.caller)
