-- ===== src/Sip/Sdp/Answer.antt =====
-- What an answer has that `parse_sdp` of bell/protocols/sip.py accepts.
use school_bells.Prelude.{
  ◌==◌, ==_iff, any, drop, is_some, ◌≢◌, ℕ, ◌≤◌, ◌≡◌, ◌⊎◌, ◌∙◌, refl, sym, ap, String, Bool, true,
  false, ◌&&◌, not, List, [], ◌∷◌, Option, none, some, leb, Bool-cases, inl, inr, arith,
}
use mathlib.Core.Path.{subst}
use mathlib.Core.Option.{some-injective}
use school_bells.Prelude.Results.{ok, ensure-then, ok-injective, not-ok-err, >>=-eq-ok, ◌>>=◌}
use school_bells.Config.{CodecName, pcmu, pcma, g722}
use school_bells.Sip.{is_text}
use school_bells.Sip.Call.{SdpAnswer}
use school_bells.Sip.Sdp.{
  same_case, after_prefix, SdpState, no_media, check_port, is_avp, int_of, payload_numbers,
  with_audio, with_connection, rtpmap_entry, audio_line, connection_line, with_entry,
  attribute_line, other_line, started_line, sdp_line, sdp_lines, lines_of, words, takes,
  first_taken, sdp_answer, answer_of, parse_sdp, payload_type_of, chosen_address,
}

abbrev InRange : Option ℕ → Type 0
InRange o = (p : ℕ) → o ≡ some p → (1 ≤ p) × (p ≤ 65535)

abbrev pub Member : CodecName → List CodecName → Type 0
Member codec [] = ⊥
Member codec (c ∷ cs) = (codec ≡ c) ⊎ Member codec cs

abbrev pub In : String → List String → Type 0
In line [] = ⊥
In line (l ∷ ls) = (l ≡ line) ⊎ In line ls

abbrev pub Has : ℕ → List ℕ → Type 0
Has n [] = ⊥
Has n (m ∷ ns) = (m ≡ n) ⊎ Has n ns

check_port-range : (o : Option ℕ) (n : ℕ) → check_port o ≡ ok n → (1 ≤ n) × (n ≤ 65535)
unfolding check_port
check_port-range none n h = absurd (not-ok-err (sym h))
check_port-range (some p) n h =
    let (fine, same) = ensure-then (leb 1 p && leb p 65535) _ _ h in
    subst (λ q. (1 ≤ q) × (q ≤ 65535)) (ok-injective same) (range p fine)
  where
    range : (p : ℕ) → (leb 1 p && leb p 65535) ≡ true → (1 ≤ p) × (p ≤ 65535)
    range p h = ground arith

audio_line-InRange :
    (parts : List String) (s t : SdpState)
    → audio_line parts s ≡ ok t
    → InRange s.port
    → InRange t.port
unfolding audio_line with_audio
audio_line-InRange [] s t h v = absurd (not-ok-err (sym h))
audio_line-InRange (m ∷ []) s t h v = absurd (not-ok-err (sym h))
audio_line-InRange (m ∷ port ∷ []) s t h v = absurd (not-ok-err (sym h))
audio_line-InRange (m ∷ port ∷ profile ∷ []) s t h v = absurd (not-ok-err (sym h))
audio_line-InRange (m ∷ port ∷ profile ∷ item ∷ items) s t h v =
    let types = payload_numbers (item ∷ items) in
    let (_, more) =
      ensure-then (is_avp profile) _ (check_port (int_of port) >>= λ n. ok (with_audio types s n))
        h in
    let (n, checked, made) =
      >>=-eq-ok (check_port (int_of port)) (λ n. ok (with_audio types s n)) more in
    subst (λ (u : SdpState). InRange u.port) (ok-injective made) (set types n checked)
  where
    set :
        (types : List ℕ) (n : ℕ)
        → check_port (int_of port) ≡ ok n
        → InRange (with_audio types s n).port
    set types n checked p e =
        subst (λ q. (1 ≤ q) × (q ≤ 65535)) (some-injective n p e)
          (check_port-range (int_of port) n checked)

with_connection-same :
    (in_audio : Bool) (address : Option String) (candidate : String) (s : SdpState)
    → (with_connection in_audio address candidate s).port ≡ s.port
unfolding with_connection
with_connection-same true address candidate s = refl
with_connection-same false none candidate s = refl
with_connection-same false (some a) candidate s = refl

connection_line-same :
    (parts : List String) (s t : SdpState) → connection_line parts s ≡ ok t → t.port ≡ s.port
unfolding connection_line
connection_line-same [] s t h = absurd (not-ok-err (sym h))
connection_line-same (c ∷ []) s t h = absurd (not-ok-err (sym h))
connection_line-same (c ∷ ip ∷ []) s t h = absurd (not-ok-err (sym h))
connection_line-same (c ∷ ip ∷ host ∷ rest) s t h =
    ap (λ (u : SdpState). u.port) (sym (ok-injective h))
    ∙ with_connection-same s.in_audio s.address _ s

attribute_line-same :
    (in_audio inactive : Bool) (mapping : Option String) (s : SdpState)
    → (attribute_line in_audio inactive mapping s).port ≡ s.port
unfolding attribute_line
attribute_line-same false inactive mapping s = refl
attribute_line-same true true mapping s = refl
attribute_line-same true false none s = refl
attribute_line-same true false (some text) s = entry (rtpmap_entry text)
  where
    entry : (e : Option (ℕ × String)) → (with_entry e s).port ≡ s.port
    entry none = refl
    entry (some x) = refl

other_line-same :
    (media connection : Option String) (line : String) (s t : SdpState)
    → other_line media connection line s ≡ ok t
    → t.port ≡ s.port
unfolding other_line
other_line-same (some m) connection line s t h =
    ap (λ (u : SdpState). u.port) (sym (ok-injective h))
other_line-same none (some c) line s t h = connection_line-same (words line) s t h
other_line-same none none line s t h =
    ap (λ (u : SdpState). u.port) (sym (ok-injective h)) ∙ attribute_line-same s.in_audio _ _ s

sdp_line-InRange :
    (audio : Option String) (seen : Bool) (line : String) (s t : SdpState)
    → started_line audio seen line s ≡ ok t
    → InRange s.port
    → InRange t.port
unfolding started_line
sdp_line-InRange (some a) true line s t h v =
    subst InRange (ap (λ (u : SdpState). u.port) (ok-injective h)) v
sdp_line-InRange (some a) false line s t h v = audio_line-InRange (words line) s t h v
sdp_line-InRange none seen line s t h v = subst InRange (sym (other_line-same _ _ line s t h)) v

sdp_lines-InRange :
    (lines : List String) (s t : SdpState)
    → sdp_lines lines s ≡ ok t
    → InRange s.port
    → InRange t.port
unfolding sdp_lines sdp_line
sdp_lines-InRange [] s t h v = subst InRange (ap (λ (u : SdpState). u.port) (ok-injective h)) v
sdp_lines-InRange (line ∷ lines) s t h v =
    let (u, first, more) = >>=-eq-ok (sdp_line line s) (λ u. sdp_lines lines u) h in
    sdp_lines-InRange lines u t more (sdp_line-InRange _ s.audio_seen line s u first v)

-- The payload types are the numbers behind the third word of a line that starts an audio part.
Listed : List String → List ℕ → Type 0
Listed lines types =
    (line : String) × In line lines
    × (is_some (after_prefix same_case "m=audio " line) ≡ true)
    × (types ≡ payload_numbers (drop 3 (words line)))

with_connection-types :
    (in_audio : Bool) (address : Option String) (candidate : String) (s : SdpState)
    → (with_connection in_audio address candidate s).payload_types ≡ s.payload_types
unfolding with_connection
with_connection-types true address candidate s = refl
with_connection-types false none candidate s = refl
with_connection-types false (some a) candidate s = refl

connection_line-types :
    (parts : List String) (s t : SdpState)
    → connection_line parts s ≡ ok t
    → t.payload_types ≡ s.payload_types
unfolding connection_line
connection_line-types [] s t h = absurd (not-ok-err (sym h))
connection_line-types (c ∷ []) s t h = absurd (not-ok-err (sym h))
connection_line-types (c ∷ ip ∷ []) s t h = absurd (not-ok-err (sym h))
connection_line-types (c ∷ ip ∷ host ∷ rest) s t h =
    ap (λ (u : SdpState). u.payload_types) (sym (ok-injective h))
    ∙ with_connection-types s.in_audio s.address _ s

attribute_line-types :
    (in_audio inactive : Bool) (mapping : Option String) (s : SdpState)
    → (attribute_line in_audio inactive mapping s).payload_types ≡ s.payload_types
unfolding attribute_line
attribute_line-types false inactive mapping s = refl
attribute_line-types true true mapping s = refl
attribute_line-types true false none s = refl
attribute_line-types true false (some text) s = entry (rtpmap_entry text)
  where
    entry : (e : Option (ℕ × String)) → (with_entry e s).payload_types ≡ s.payload_types
    entry none = refl
    entry (some x) = refl

other_line-types :
    (media connection : Option String) (line : String) (s t : SdpState)
    → other_line media connection line s ≡ ok t
    → t.payload_types ≡ s.payload_types
unfolding other_line
other_line-types (some m) connection line s t h =
    ap (λ (u : SdpState). u.payload_types) (sym (ok-injective h))
other_line-types none (some c) line s t h = connection_line-types (words line) s t h
other_line-types none none line s t h =
    ap (λ (u : SdpState). u.payload_types) (sym (ok-injective h))
    ∙ attribute_line-types s.in_audio _ _ s

audio_line-types :
    (parts : List String) (s t : SdpState)
    → audio_line parts s ≡ ok t
    → t.payload_types ≡ payload_numbers (drop 3 parts)
unfolding audio_line with_audio
audio_line-types [] s t h = absurd (not-ok-err (sym h))
audio_line-types (m ∷ []) s t h = absurd (not-ok-err (sym h))
audio_line-types (m ∷ port ∷ []) s t h = absurd (not-ok-err (sym h))
audio_line-types (m ∷ port ∷ profile ∷ []) s t h = absurd (not-ok-err (sym h))
audio_line-types (m ∷ port ∷ profile ∷ item ∷ items) s t h =
    let types = payload_numbers (item ∷ items) in
    let (_, more) =
      ensure-then (is_avp profile) _ (check_port (int_of port) >>= λ n. ok (with_audio types s n))
        h in
    let (n, checked, made) =
      >>=-eq-ok (check_port (int_of port)) (λ n. ok (with_audio types s n)) more in
    ap (λ (u : SdpState). u.payload_types) (sym (ok-injective made))

started_line-types :
    (audio : Option String) (seen : Bool) (line : String) (s t : SdpState)
    → started_line audio seen line s ≡ ok t
    → (t.payload_types ≡ s.payload_types)
      ⊎ ((is_some audio ≡ true) × (t.payload_types ≡ payload_numbers (drop 3 (words line))))
unfolding started_line
started_line-types (some a) true line s t h =
    inl (ap (λ (u : SdpState). u.payload_types) (sym (ok-injective h)))
started_line-types (some a) false line s t h = inr (refl, audio_line-types (words line) s t h)
started_line-types none seen line s t h = inl (other_line-types _ _ line s t h)

-- What the lines after some leave.
sdp_lines-types :
    (lines : List String) (s t : SdpState)
    → sdp_lines lines s ≡ ok t
    → (t.payload_types ≡ s.payload_types) ⊎ Listed lines t.payload_types
unfolding sdp_lines sdp_line Listed
sdp_lines-types [] s t h = inl (ap (λ (u : SdpState). u.payload_types) (sym (ok-injective h)))
sdp_lines-types (line ∷ lines) s t h =
    let (u, first, more) = >>=-eq-ok (sdp_line line s) (λ u. sdp_lines lines u) h in
    elim (sdp_lines-types lines u t more) [
      | inr (l, within, audio, types) ↦ inr (l, inr within, audio, types)
      | inl same ↦
          elim (started_line-types (after_prefix same_case "m=audio " line) s.audio_seen line s u
            first) [
              | inl kept ↦ inl (same ∙ kept)
              | inr (audio, types) ↦ inr (line, inl refl, audio, same ∙ types)
            ]
    ]

any-Has : (n : ℕ) (ns : List ℕ) → any (λ m. m == n) ns ≡ true → Has n ns
any-Has n [] = λ h. absurd (cc (h))
any-Has n (m ∷ ns) = elim (Bool-cases (m == n)) [
  | inl hit ↦ λ _. inl ((==_iff m n).0 hit)
  | inr miss ↦ rw (miss) (λ h. inr (any-Has n ns h))
]

takes-Has :
    (s : SdpState) (codec : CodecName)
    → takes s codec ≡ true
    → Has (payload_type_of codec) s.payload_types
unfolding takes
takes-Has s codec h = any-Has (payload_type_of codec) s.payload_types (first _ _ h)
  where
    first : (a b : Bool) → (a && b) ≡ true → a ≡ true
    first a b h = ground arith

first_taken-takes :
    (s : SdpState) (offered : List CodecName) (codec : CodecName)
    → first_taken s offered ≡ some codec
    → (takes s codec ≡ true) × Member codec offered
unfolding first_taken
first_taken-takes s [] codec = λ h. absurd (cc (h))
first_taken-takes s (c ∷ cs) codec = elim (Bool-cases (takes s c)) [
  | inl yes_c ↦
      rw (yes_c, first_taken)
        (λ h.
          let e = some-injective c codec h in (subst (λ x. takes s x ≡ true) e yes_c, inl (sym e)))
  | inr not_c ↦
      rw (not_c, first_taken) (λ h. let (t, m) = first_taken-takes s cs codec h in (t, inr m))
]

-- The payload type that a codec has for good.
abbrev pub static_type : CodecName → ℕ
static_type pcmu = 0
static_type pcma = 8
static_type g722 = 9

-- An answer that media can be sent to.
pub record Usable (offered : List CodecName) (body : String) (a : SdpAnswer) : Type 0 where
  pub low : 1 ≤ a.port
  pub high : a.port ≤ 65535
  pub address : a.address ≢ ""
  pub codec : Member a.codec offered
  pub payload_type : a.payload_type ≡ static_type a.codec
  pub line : String
  pub within : In line (lines_of body)
  pub audio : is_some (after_prefix same_case "m=audio " line) ≡ true
  pub listed : Has a.payload_type (payload_numbers (drop 3 (words line)))

payload_type_of_lem : (codec : CodecName) → payload_type_of codec ≡ static_type codec
unfolding payload_type_of
payload_type_of_lem pcmu = refl
payload_type_of_lem pcma = refl
payload_type_of_lem g722 = refl

is_text-filled : (t : String) → is_text t ≡ true → t ≢ ""
unfolding is_text
is_text-filled String.[] h e = cc (h)
is_text-filled (String.◌∷◌ c t) h e = cc (e)

answer_of-ok :
    (address : Option String) (port : Option ℕ) (inactive : Bool) (codec : Option CodecName)
    (offered : List CodecName) (a : SdpAnswer)
    → answer_of address port inactive codec offered ≡ ok a
    → (address ≡ some a.address)
      × (port ≡ some a.port)
      × (inactive ≡ false)
      × (codec ≡ some a.codec)
      × (is_text a.address ≡ true)
      × (a.payload_type ≡ payload_type_of a.codec)
unfolding answer_of
answer_of-ok none port inactive codec offered a h = absurd (not-ok-err (sym h))
answer_of-ok (some address) none inactive codec offered a h = absurd (not-ok-err (sym h))
answer_of-ok (some address) (some port) inactive none offered a h =
    let (_, more) = ensure-then (is_text address) _ _ h in
    let (_, refused) = ensure-then (not inactive) _ _ more in absurd (not-ok-err (sym refused))
answer_of-ok (some address) (some port) inactive (some codec) offered a h =
    let (given, more) = ensure-then (is_text address) _ _ h in
    let (active, made) = ensure-then (not inactive) _ _ more in
    let same = ok-injective made in
    (
      ap (λ (b : SdpAnswer). some b.address) same,
      ap (λ (b : SdpAnswer). some b.port) same,
      negated inactive active,
      ap (λ (b : SdpAnswer). some b.codec) same,
      ap (λ (b : SdpAnswer). is_text b.address) (sym same) ∙ given,
      subst (λ (b : SdpAnswer). b.payload_type ≡ payload_type_of b.codec) same refl,
    )
  where
    negated : (b : Bool) → not b ≡ true → b ≡ false
    negated b h = ground arith

audio_types :
    (lines : List String) (s : SdpState) (n : ℕ)
    → (s.payload_types ≡ []) ⊎ Listed lines s.payload_types
    → Has n s.payload_types
    → (line : String) × In line lines
      × (is_some (after_prefix same_case "m=audio " line) ≡ true)
      × (s.payload_types ≡ payload_numbers (drop 3 (words line)))
unfolding Listed
audio_types lines s n (inl none_listed) has = absurd (subst (Has n) none_listed has)
audio_types lines s n (inr found) has = found

-- A session description that `parse_sdp` accepts, however it is written, gives a port from 1 to 65535,
-- an address that is not empty, and a codec that was offered, under its static payload type (0 for
-- PCMU, 8 for PCMA, 9 for G.722), which stands behind the third word of a line of the description
-- that starts with `m=audio `.
pub parse_sdp-Usable :
    (offered : List CodecName) (body : String) (a : SdpAnswer)
    → parse_sdp offered body ≡ ok a
    → Usable offered body a
unfolding parse_sdp sdp_answer
parse_sdp-Usable offered body a h =
    let (s, read, answered) =
      >>=-eq-ok (sdp_lines (lines_of body) no_media) (λ s. sdp_answer offered s) h in
    let (address, port, active, codec, given, static) =
      answer_of-ok (chosen_address s) s.port s.inactive (first_taken s offered) offered a
        answered in
    let (low, high) =
      sdp_lines-InRange (lines_of body) no_media s read (λ p e. absurd (cc (e))) a.port port in
    let (taken, member) = first_taken-takes s offered a.codec codec in
    let has = subst (λ n. Has n s.payload_types) (sym static) (takes-Has s a.codec taken) in
    let (line, within, audio, types) =
      audio_types (lines_of body) s a.payload_type (sdp_lines-types (lines_of body) no_media s read)
        has in
    record {
      line = line;
      within = within;
      audio = audio;
      listed = subst (Has a.payload_type) types has;
      low = low;
      high = high;
      address = is_text-filled a.address given;
      codec = member;
      payload_type = static ∙ payload_type_of_lem a.codec;
    }
