-- ===== src/Wire/Poly/Maker.antt =====
-- What the constructors of bell/wire/poly_group_page.py, PolySpec and PolyGroupPage, accept and make.
use school_bells.Prelude.{
  ℕ, ◌-◌, ◌≤◌, ◌<◌, ◌≡◌, ◌∙◌, ◌⊎◌, ◌↔◌, refl, ap, sym, Bool, true, ◌&&◌, List, [], ◌∷◌, ◌++◌, some,
  arith, leb, ltb, ◌==◌, ==_iff, length, replicate, All, all,
}
use school_bells.Prelude.Results.{ok, ok-injective, ensure-then, >>=-eq-ok}
use school_bells.Wire.Poly.{
  PolySpec, poly_spec, PolyGroupPage, poly_group_page, is_poly_codec, caller_id_field,
}

-- What the constructors take, and the sender that they make of it.
pub record Makes (bias control audio payload_type : ℕ) (caller : List ℕ) (w : PolyGroupPage)
    : Type 0 where
  pub bias_is : bias ≡ 25
  pub control_is : control ≡ 20
  pub audio_is : audio ≡ 6
  pub codec : (payload_type ≡ 0) ⊎ (payload_type ≡ 9)
  pub ascii : All (λ c. c < 128) caller
  pub given : 1 ≤ length caller
  pub short : length caller ≤ 13
  pub sender : w ≡ record {
    spec = some (record { channel_bias = 25; control_header = 20; audio_header = 6 });
    payload_type = payload_type;
    caller_id = caller ++ replicate (13 - length caller) 0;
  }

all-All : (cs : List ℕ) → all (λ c. ltb c 128) cs ≡ true → All (λ c. c < 128) cs
all-All [] h = tt
all-All (c ∷ cs) h =
    let (a, b) = both (ltb c 128) (all (λ c. ltb c 128) cs) h in (small c a, all-All cs b)
  where
    both : (a b : Bool) → (a && b) ≡ true → (a ≡ true) × (b ≡ true)
    both a b h = ground arith

    small : (c : ℕ) → ltb c 128 ≡ true → c < 128
    small c h = ground (arith, h)

All-all : (cs : List ℕ) → All (λ c. c < 128) cs → all (λ c. ltb c 128) cs ≡ true
All-all [] h = refl
All-all (c ∷ cs) h = both (small c h.0) (All-all cs h.1)
  where
    both : {a b : Bool} → a ≡ true → b ≡ true → (a && b) ≡ true
    both {a} {b} h k = ground arith

    small : (c : ℕ) → c < 128 → ltb c 128 ≡ true
    small c h = ground (arith, h)

codec_iff : (p : ℕ) → (is_poly_codec p ≡ true) ↔ ((p ≡ 0) ⊎ (p ≡ 9))
unfolding is_poly_codec
codec_iff p = ground (arith, ==_iff p 0, ==_iff p 9)

length_iff : (n : ℕ) → ((ltb 0 n && leb n 13) ≡ true) ↔ ((1 ≤ n) × (n ≤ 13))
length_iff n = ground arith

made_so :
    (b c a p : ℕ) (caller : List ℕ) (w : PolyGroupPage) (spec : PolySpec)
    → poly_spec b c a ≡ ok spec
    → poly_group_page (some spec) p caller ≡ ok w
    → Makes b c a p caller w
unfolding poly_spec poly_group_page caller_id_field
made_so b c a p caller w spec made h =
    let (is_25, rest) = ensure-then (b == 25) _ _ made in
    let (is_20, rest2) = ensure-then (c == 20) _ _ rest in
    let (is_6, rest3) = ensure-then (a == 6) _ _ rest2 in
    let (codec, more) = ensure-then (is_poly_codec p) _ _ h in
    let (field, is_field, built) = >>=-eq-ok (caller_id_field caller) _ more in
    let (ascii, more2) = ensure-then (all (λ c. ltb c 128) caller) _ _ is_field in
    let (short, more3) = ensure-then (ltb 0 (length caller) && leb (length caller) 13) _ _ more2 in
    let (low, high) = (length_iff (length caller)).0 short in
    let b_is = (==_iff b 25).0 is_25 in
    let c_is = (==_iff c 20).0 is_20 in
    let a_is = (==_iff a 6).0 is_6 in
    record {
      bias_is = b_is;
      control_is = c_is;
      audio_is = a_is;
      codec = (codec_iff p).0 codec;
      ascii = all-All caller ascii;
      given = low;
      short = high;
      sender =
          sym (ok-injective built)
          ∙ ap (λ (s : PolySpec). record { spec = some s; payload_type = p; caller_id = field })
              (sym (ok-injective rest3) ∙ spec_is b c a b_is c_is a_is)
          ∙ ap
              (λ (f : List ℕ). record {
                spec = some (record { channel_bias = 25; control_header = 20; audio_header = 6 });
                payload_type = p;
                caller_id = f;
              })
              (sym (ok-injective more3));
    }
  where
    spec_is :
        (b c a : ℕ)
        → b ≡ 25
        → c ≡ 20
        → a ≡ 6
        → ◌≡◌ {A = PolySpec}
            (record { channel_bias = b; control_header = c; audio_header = a })
            (record { channel_bias = 25; control_header = 20; audio_header = 6 })
    spec_is b c a e f g = rw (e, f, g) refl

gives :
    (b c a p : ℕ) (caller : List ℕ) (w : PolyGroupPage)
    → Makes b c a p caller w
    → (spec : PolySpec) × (poly_spec b c a ≡ ok spec)
      × (poly_group_page (some spec) p caller ≡ ok w)
unfolding poly_spec poly_group_page caller_id_field
gives b c a p caller w m = (
  record { channel_bias = 25; control_header = 20; audio_header = 6 },
  spec_of b c a m.bias_is m.control_is m.audio_is,
  rw
      (
        (codec_iff p).1 m.codec,
        All-all caller m.ascii,
        (length_iff (length caller)).1 (m.given, m.short),
      )
      (ap ok (sym m.sender)),
)
  where
    spec_of :
        (b c a : ℕ)
        → b ≡ 25
        → c ≡ 20
        → a ≡ 6
        → poly_spec b c a ≡ ok (record { channel_bias = 25; control_header = 20; audio_header = 6 })
    spec_of b c a e f g = rw (e, f, g) refl

-- The constructors of a verified specification and of a sender return exactly for a channel bias of
-- 25, a control header of 20 and an audio header of 6 bytes, the codec PCMU or G.722, and a caller ID
-- of 1 to 13 characters that are all ASCII; the sender then has this codec, and the caller ID filled
-- up with zeros to 13 bytes.
pub poly_group_page-Makes :
    (bias control audio payload_type : ℕ) (caller : List ℕ) (w : PolyGroupPage)
    → ((spec : PolySpec) × (poly_spec bias control audio ≡ ok spec)
        × (poly_group_page (some spec) payload_type caller ≡ ok w))
      ↔ Makes bias control audio payload_type caller w
poly_group_page-Makes bias control audio payload_type caller w = (
  λ (spec, made, built). made_so bias control audio payload_type caller w spec made built,
  gives bias control audio payload_type caller w,
)
