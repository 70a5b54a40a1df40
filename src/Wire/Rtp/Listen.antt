-- ===== src/Wire/Rtp/Listen.antt =====
-- The receiver of bell/listen.py: the payload of a PCMU packet, and its decoding to linear samples.
use school_bells.Prelude.{
  ℕ, zero, suc, ◌+◌, ◌-◌, ◌*◌, ◌/◌, ◌%◌, ◌^◌, ◌≤◌, ◌<◌, ◌≡◌, refl, ap, Bool, true, false, not, ◌&&◌,
  ◌||◌, List, [], ◌∷◌, Option, none, some, arith, ltb, leb, leb→le, ◌==◌, ==_iff, if◌then◌else◌,
  length, take, drop,
}
use Prim.Native.Nat.{bit_or}
use mathlib.Core.Path.{subst}
use school_bells.Prelude.Results.{ok, ok-injective}
use school_bells.Wire.{Stamp}
use school_bells.Wire.Bytes.{byte_at, all_below, all_below_sound}
use school_bells.Wire.Rtp.{rtp_header, build_packet}

-- `packet[offset:end]`
slice : ℕ → ℕ → List ℕ → List ℕ
slice offset end packet = take (end - offset) (drop offset packet)

-- The padding count stands in the last byte.
unpad : ℕ → List ℕ → Option (List ℕ)
unfolding slice
unpad offset packet =
    let size = length packet in
    if byte_at 0 packet / 32 % 2 == 1
    then (let padding = byte_at (size - 1) packet in
        if padding == 0 || ltb (size - offset) padding
        then none
        else some (slice offset (size - padding) packet))
    else some (slice offset size packet)

within : ℕ → List ℕ → Option (List ℕ)
within offset packet = if ltb (length packet) offset then none else unpad offset packet

-- A header extension gives its own length, in words of four bytes.
extension : ℕ → List ℕ → Option (List ℕ)
extension offset packet =
    if byte_at 0 packet / 16 % 2 == 1
    then (if ltb (length packet) (offset + 4)
        then none
        else within
            (offset + 4 + (byte_at (offset + 2) packet * 256 + byte_at (offset + 3) packet) * 4)
            packet)
    else within offset packet

unfoldable pub pcmu_payload : List ℕ → Option (List ℕ)
unfolding extension within unpad
pcmu_payload packet =
    let offset = 12 + byte_at 0 packet % 16 * 4 in
    if ltb (length packet) 12
    then none
    else if not (byte_at 0 packet / 64 == 2) || not (byte_at 1 packet % 128 == 0)
    then none
    else if ltb (length packet) offset
    then none
    else extension offset packet

-- The magnitude of a G.711 mu-law sample, and its sign bit.
unfoldable pub ulaw_magnitude : ℕ → ℕ
ulaw_magnitude encoded =
    let value = (255 - encoded) % 256 in (value % 16 * 8 + 132) * 2 ^ (value / 16 % 8) - 132

unfoldable pub ulaw_negative : ℕ → Bool
ulaw_negative encoded = (255 - encoded) / 128 % 2 == 1

-- The 16-bit word that `struct.pack("<h", ...)` writes.
unfoldable pub ulaw_word : ℕ → ℕ
unfolding ulaw_magnitude ulaw_negative
ulaw_word encoded =
    let m = ulaw_magnitude encoded in if ulaw_negative encoded then (65536 - m) % 65536 else m

unfoldable pub ulaw_to_pcm16 : List ℕ → List ℕ
unfolding ulaw_word
ulaw_to_pcm16 [] = []
ulaw_to_pcm16 (e ∷ es) = ulaw_word e % 256 ∷ ulaw_word e / 256 % 256 ∷ ulaw_to_pcm16 es

length-ulaw : (bytes : List ℕ) → length (ulaw_to_pcm16 bytes) ≡ 2 * length bytes
unfolding ulaw_to_pcm16
length-ulaw [] = refl
length-ulaw (e ∷ es) = omega (arith, length-ulaw es)

take_all {ℓ} : {A : Type ℓ} (xs : List A) (n : ℕ) → n ≡ length xs → take n xs ≡ xs
take_all [] zero h = refl
take_all [] (suc n) h = refl
take_all (x ∷ xs) zero h = absurd (omega arith)
take_all (x ∷ xs) (suc n) h = ap (λ t. x ∷ t) (take_all xs n (omega arith))

abbrev twelve_more : ℕ → ℕ
twelve_more n = suc (suc (suc (suc (suc (suc (suc (suc (suc (suc (suc (suc n)))))))))))

-- A version-2 packet with no padding, extension or sources.
payload-plain :
    (s a b c d e f g h i j : ℕ) (payload : List ℕ)
    → s % 128 ≡ 0
    → pcmu_payload (128 ∷ s ∷ a ∷ b ∷ c ∷ d ∷ e ∷ f ∷ g ∷ h ∷ i ∷ j ∷ payload) ≡ some payload
unfolding pcmu_payload slice
payload-plain s a b c d e f g h i j payload z =
    rw (long, pcmu) (ap some (take_all payload _ (omega arith)))
  where
    long : ltb (twelve_more (length payload)) 12 ≡ false
    long = ground arith

    pcmu : (s % 128 == 0) ≡ true
    pcmu = rw z refl

marker_free : (marker : Bool) → bit_or (if marker then 128 else 0) 0 % 128 ≡ 0
marker_free true = refl
marker_free false = refl

-- Whatever the marker and the counters, the receiver gets from a PCMU packet of the sender exactly
-- the payload that was sent.
pub pcmu_payload-build_packet :
    (payload : List ℕ) (stamp : Stamp) (marker : Bool) {packet : List ℕ}
    → build_packet (record { payload_type = 0 }) payload stamp marker 0 ≡ ok packet
    → pcmu_payload packet ≡ some payload
unfolding build_packet rtp_header
pcmu_payload-build_packet payload stamp marker h =
    subst (λ p. pcmu_payload p ≡ some payload) (ok-injective h)
      (payload-plain (bit_or (if marker then 128 else 0) 0) _ _ _ _ _ _ _ _ _ _ payload
        (marker_free marker))

abbrev ulaw_ok : ℕ → Bool
ulaw_ok e =
    leb (ulaw_magnitude e) 32124
    && (ulaw_magnitude (e % 128) == ulaw_magnitude e)
    && ((ulaw_word e + ulaw_word ((e + 128) % 256)) % 65536 == 0)

ulaw_table : all_below 256 ulaw_ok ≡ true
unfolding all_below ulaw_word
ulaw_table = refl

and_true : (a b : Bool) → (a && b) ≡ true → (a ≡ true) × (b ≡ true)
and_true a b h = ground arith

-- Every mu-law byte decodes to a sample that fits `struct.pack("<h", ...)`, at most 32124 in size;
-- the top bit is the sign alone: bytes that differ in it decode to samples that add up to zero.
pub ulaw_samples :
    (e : ℕ)
    → e < 256
    → (ulaw_magnitude e ≤ 32124)
      × (ulaw_magnitude (e % 128) ≡ ulaw_magnitude e)
      × ((ulaw_word e + ulaw_word ((e + 128) % 256)) % 65536 ≡ 0)
ulaw_samples e h = (
  leb→le _ _ (and_true _ _ small).0,
  (==_iff _ _).0 (and_true _ _ small).1,
  (==_iff _ _).0 (and_true _ _ all).1,
)
  where
    all : ulaw_ok e ≡ true
    all = all_below_sound 256 ulaw_ok e ulaw_table h

    small : (leb (ulaw_magnitude e) 32124 && (ulaw_magnitude (e % 128) == ulaw_magnitude e)) ≡ true
    small = (and_true _ _ all).0
