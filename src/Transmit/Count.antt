-- ===== src/Transmit/Count.antt =====
-- How many frames the loop of bell/transmit.py sends.
use school_bells.Prelude.{
  if◌then◌else◌, is_some, zero, suc, refl, sym, ◌∙◌, String, Option, none, some, ℕ, ◌+◌, ◌≤◌, ◌≡◌,
  ap, Bool, true, false, ◌||◌, List, [], ◌∷◌, length, Bool-cases, inl, inr, arith, ◌==◌,
}
use mathlib.Core.Path.{subst}
use school_bells.Wire.{next}
use school_bells.Wire.Poly.{PolyGroupPage, build_control_packet, poly_alert, poly_end}
use school_bells.Prelude.Results.{Result, ok, ok-injective, >>=-eq-ok}
use school_bells.Transmit.{
  add_bytes, plain, poly, Counts, answer, answered, send_packet, control_round, send_poly_controls,
  frame_to, build, DestinationEndpoint, Target, WireFormat, Cancel, Sending, TransmitResult, send,
  send_frames, alert, finish, frame_round,
}

-- So many frames of the list went out, and all of them unless the page was cancelled.
pub record Sent (frames : List (List ℕ)) (first count : ℕ) (cancelled : Bool) : Type 0 where
  pub low : first ≤ count
  pub high : count ≤ first + length frames
  pub complete : cancelled ≡ false → count ≡ first + length frames

-- The target got so many more packets, if it has a socket and has not failed.
abbrev Got : ℕ → Target → Target → Type 0
Got n t u =
    (u.has_socket ≡ t.has_socket)
    × (u.error ≡ none
        → (t.error ≡ none) × (t.has_socket ≡ true → length u.given ≡ length t.given + n))

abbrev pub Grew : ℕ → List Target → List Target → Type 0
Grew n [] [] = Unit
Grew n [] (u ∷ us) = ⊥
Grew n (t ∷ ts) [] = ⊥
Grew n (t ∷ ts) (u ∷ us) = Got n t u × Grew n ts us

-- The control packets of a page: the alerts and ends of the Poly protocol.
abbrev pub controls : WireFormat → ℕ
controls (plain w) = 0
controls (poly w) = 31 + 12

Got-trans : (n m : ℕ) (t u v : Target) → Got n t u → Got m u v → Got (n + m) t v
Got-trans n m t u v (same1, g1) (same2, g2) = (
  same2 ∙ same1,
  λ fine.
      let (fine1, more2) = g2 fine in
      let (fine2, more1) = g1 fine1 in
      (fine2, λ socket. omega (arith, more1 socket, more2 (same1 ∙ socket))),
)

Grew-trans : (n m : ℕ) (ts us vs : List Target) → Grew n ts us → Grew m us vs → Grew (n + m) ts vs
Grew-trans n m [] [] [] g h = tt
Grew-trans n m [] [] (v ∷ vs) g h = absurd h
Grew-trans n m [] (u ∷ us) vs g h = absurd g
Grew-trans n m (t ∷ ts) [] vs g h = absurd g
Grew-trans n m (t ∷ ts) (u ∷ us) [] g h = absurd h
Grew-trans n m (t ∷ ts) (u ∷ us) (v ∷ vs) g h =
    (Got-trans n m t u v g.0 h.0, Grew-trans n m ts us vs g.1 h.1)

Grew-none : (ts : List Target) → Grew 0 ts ts
Grew-none [] = tt
Grew-none (t ∷ ts) = ((refl, λ fine. (fine, λ _. omega arith)), Grew-none ts)

still :
    (index count : ℕ) (s s1 : Sending)
    → s ≡ s1
    → index ≡ count
    → (n : ℕ) × (index + n ≡ count) × Grew n s.targets s1.targets
still index count s s1 same at = (
  0,
  omega (arith, at),
  subst (λ (x : Sending). Grew 0 s.targets x.targets) same (Grew-none s.targets),
)

module _ (sendto : DestinationEndpoint → List (List ℕ) → List ℕ → Result ℕ) where
  answered-Got :
      (o : Option String) (t : Target) (packet : List ℕ) (counts : Counts)
      → t.error ≡ none
      → Got 1 t (answered sendto o t packet counts).0
  unfolding answered
  answered-Got none t packet counts fine = (refl, λ _. (fine, λ _. omega arith))
  answered-Got (some e) t packet counts fine = (refl, λ h. absurd (cc (h)))

  send_packet-Got :
      (t : Target) (packet : List ℕ) (counts : Counts)
      → Got 1 t (send_packet sendto t packet counts).0
  unfolding send_packet
  send_packet-Got t packet counts = on t.error t.has_socket refl refl
    where
      on :
          (o : Option String) (socket : Bool)
          → t.error ≡ o
          → t.has_socket ≡ socket
          → Got 1 t
              (if is_some o
                then (t, counts)
                else if socket
                then answered sendto (answer sendto t packet) t packet counts
                else (t, add_bytes t.endpoint.name (length packet) counts)).0
      on (some e) socket failed s = (refl, λ h. absurd (cc (h, failed)))
      on none true fine s = answered-Got (answer sendto t packet) t packet counts fine
      on none false fine dry = (refl, λ _. (fine, λ socket. absurd (cc (dry, socket))))

  send_frames-Sent :
      (wire : WireFormat) (channel : ℕ) (cancel : Cancel) (frames : List (List ℕ)) (index : ℕ)
      (cancelled : Bool) (s s1 : Sending) (count : ℕ) (stopped : Bool)
      → send_frames sendto wire channel cancel frames index cancelled s ≡ ok (s1, count, stopped)
      → Sent frames index count stopped
  unfolding send_frames
  send_frames-Sent wire channel cancel [] index cancelled s s1 count stopped = λ h.
      let at : index ≡ count = ap (λ p. p.1) (ok-injective h) in
      record {
        low = omega (arith, at);
        high = omega (arith, at);
        complete = λ _. omega (arith, at);
      }
  send_frames-Sent wire channel cancel (frame ∷ frames) index cancelled s s1 count stopped =
      elim (Bool-cases (cancelled || cancel.at_head index || cancel.in_wait index)) [
        | inl stop ↦
            rw (stop, send_frames)
              (λ h.
                let at : index ≡ count = ap (λ p. p.1) (ok-injective h) in
                let is_stopped : true ≡ stopped = ap (λ p. p.2) (ok-injective h) in
                record {
                  low = omega (arith, at);
                  high = omega (arith, at);
                  complete = λ f. absurd cc;
                })
        | inr go ↦
            rw (go, send_frames)
              (λ h.
                let (s2, _, rest) =
                  >>=-eq-ok (frame_round sendto wire frame (index == 0) channel s.targets s.counts)
                    _ h in
                let sent =
                  send_frames-Sent wire channel cancel frames (index + 1) false s2 s1 count stopped
                    rest in
                record {
                  low = omega (arith, sent.low);
                  high = omega (arith, sent.high);
                  complete = λ f. omega (arith, sent.complete f);
                })
      ]

  control_round-Grew :
      (wire : PolyGroupPage) (opcode channel : ℕ) (ts : List Target) (counts : Counts) (s : Sending)
      → control_round sendto wire opcode channel ts counts ≡ ok s
      → Grew 1 ts s.targets
  unfolding control_round
  control_round-Grew wire opcode channel [] counts s h =
      subst (λ (s : Sending). Grew 1 [] s.targets) (ok-injective h) tt
  control_round-Grew wire opcode channel (t ∷ ts) counts s h =
      let (packet, _, h1) = >>=-eq-ok (build_control_packet wire opcode channel t.state.ssrc) _ h in
      let p = send_packet sendto t packet counts in
      let (rest, more, h2) = >>=-eq-ok (control_round sendto wire opcode channel ts p.1) _ h1 in
      subst (λ (s : Sending). Grew 1 (t ∷ ts) s.targets) (ok-injective h2)
        (send_packet-Got t packet counts, control_round-Grew wire opcode channel ts p.1 rest more)

  send_poly_controls-Grew :
      (wire : PolyGroupPage) (opcode channel count : ℕ) (s u : Sending)
      → send_poly_controls sendto wire opcode channel count s ≡ ok u
      → Grew count s.targets u.targets
  unfolding send_poly_controls
  send_poly_controls-Grew wire opcode channel zero s u h =
      subst (λ (u : Sending). Grew 0 s.targets u.targets) (ok-injective h) (Grew-none s.targets)
  send_poly_controls-Grew wire opcode channel (suc count) s u h =
      let (s1, first, more) =
        >>=-eq-ok (control_round sendto wire opcode channel s.targets s.counts) _ h in
      subst (λ k. Grew k s.targets u.targets) (omega arith)
        (Grew-trans 1 count s.targets s1.targets u.targets
          (control_round-Grew wire opcode channel s.targets s.counts s1 first)
          (send_poly_controls-Grew wire opcode channel count s1 u more))

  unless_failed :
      (o : Option String) (t : Target) (counts : Counts) (more : Result (Target × Counts))
      (p : Target × Counts)
      → t.error ≡ o
      → (more ≡ ok p → Got 1 t p.0)
      → (if is_some o then ok (t, counts) else more) ≡ ok p
      → Got 1 t p.0
  unless_failed none t counts more p fine f h = f h
  unless_failed (some e) t counts more p failed f h =
      subst (λ (p : Target × Counts). Got 1 t p.0) (ok-injective h)
        (refl, λ fine. absurd (cc (failed, fine)))

  frame_to-Got :
      (wire : WireFormat) (frame : List ℕ) (first : Bool) (channel : ℕ) (t : Target)
      (counts : Counts) (p : Target × Counts)
      → frame_to sendto wire frame first channel t counts ≡ ok p
      → Got 1 t p.0
  unfolding frame_to
  frame_to-Got wire frame first channel t counts p h =
      unless_failed t.error t counts _ p refl
        (λ body.
          let (packet, _, built) =
            >>=-eq-ok (build wire frame (next t.state).0 first channel t.previous_payload) _ body in
          subst (λ (p : Target × Counts). Got 1 t p.0) (ok-injective built)
            (send_packet-Got (record t { state = (next t.state).1 }) packet counts))
        h

  frame_round-Grew :
      (wire : WireFormat) (frame : List ℕ) (first : Bool) (channel : ℕ) (ts : List Target)
      (counts : Counts) (s : Sending)
      → frame_round sendto wire frame first channel ts counts ≡ ok s
      → Grew 1 ts s.targets
  unfolding frame_round
  frame_round-Grew wire frame first channel [] counts s h =
      subst (λ (s : Sending). Grew 1 [] s.targets) (ok-injective h) tt
  frame_round-Grew wire frame first channel (t ∷ ts) counts s h =
      let (p, one, h1) = >>=-eq-ok (frame_to sendto wire frame first channel t counts) _ h in
      let (rest, more, h2) = >>=-eq-ok (frame_round sendto wire frame first channel ts p.1) _ h1 in
      subst (λ (s : Sending). Grew 1 (t ∷ ts) s.targets) (ok-injective h2)
        (
          frame_to-Got wire frame first channel t counts p one,
          frame_round-Grew wire frame first channel ts p.1 rest more,
        )

  send_frames-Grew :
      (wire : WireFormat) (channel : ℕ) (cancel : Cancel) (frames : List (List ℕ)) (index : ℕ)
      (cancelled : Bool) (s s1 : Sending) (count : ℕ) (stopped : Bool)
      → send_frames sendto wire channel cancel frames index cancelled s ≡ ok (s1, count, stopped)
      → (n : ℕ) × (index + n ≡ count) × Grew n s.targets s1.targets
  unfolding send_frames
  send_frames-Grew wire channel cancel [] index cancelled s s1 count stopped =
      λ h. still index count s s1 (ap (λ p. p.0) (ok-injective h)) (ap (λ p. p.1) (ok-injective h))
  send_frames-Grew wire channel cancel (frame ∷ frames) index cancelled s s1 count stopped =
      elim (Bool-cases (cancelled || cancel.at_head index || cancel.in_wait index)) [
        | inl stop ↦
            rw (stop, send_frames)
              (λ h.
                still index count s s1 (ap (λ p. p.0) (ok-injective h))
                  (ap (λ p. p.1) (ok-injective h)))
        | inr go ↦
            rw (go, send_frames)
              (λ h.
                let (s2, one, rest) =
                  >>=-eq-ok (frame_round sendto wire frame (index == 0) channel s.targets s.counts)
                    _ h in
                let (n, up, grown) =
                  send_frames-Grew wire channel cancel frames (index + 1) false s2 s1 count stopped
                    rest in
                (
                  1 + n,
                  omega (arith, up),
                  Grew-trans 1 n s.targets s2.targets s1.targets
                      (frame_round-Grew wire frame (index == 0) channel s.targets s.counts s2 one)
                      grown,
                ))
      ]

  alert-Grew :
      (wire : WireFormat) (channel : ℕ) (s0 s s1 s2 : Sending) (n total : ℕ)
      → alert sendto wire channel s0 ≡ ok s
      → finish sendto wire channel s1 ≡ ok s2
      → Grew n s.targets s1.targets
      → n ≡ total
      → Grew (controls wire + total) s0.targets s2.targets
  unfolding alert finish
  alert-Grew (plain w) channel s0 s s1 s2 n total a f g e =
      subst (λ (x : Sending). Grew (controls (plain w) + total) x.targets s2.targets)
        (sym (ok-injective a))
        (subst (λ (x : Sending). Grew (controls (plain w) + total) s.targets x.targets)
          (ok-injective f) (subst (λ k. Grew k s.targets s1.targets) (omega (arith, e)) g))
  alert-Grew (poly w) channel s0 s s1 s2 n total a f g e =
      subst (λ k. Grew k s0.targets s2.targets) (omega (arith, e))
        (Grew-trans 31 (n + 12) s0.targets s.targets s2.targets
          (send_poly_controls-Grew w poly_alert channel 31 s0 s a)
          (Grew-trans n 12 s.targets s1.targets s2.targets g
            (send_poly_controls-Grew w poly_end channel 12 s1 s2 f)))

  -- A page that `send` finishes has sent at most one packet for each frame, and one for each frame
  -- exactly unless it was cancelled, by the number that its result says. Every target that has a
  -- socket and has not failed by the end has been given that many packets, beside the 31 alerts and
  -- the 12 ends where the wire format is Poly's.
  pub send-Sent :
      (wire : WireFormat) (targets left : List Target) (frames : List (List ℕ)) (channel : ℕ)
      (cancel : Cancel) (r : TransmitResult)
      → send sendto wire targets frames channel cancel ≡ ok (r, left)
      → Sent frames 0 r.packet_count r.cancelled
        × Grew (controls wire + r.packet_count) targets left
  unfolding send
  send-Sent wire targets left frames channel cancel r h =
      let (s, alerted, h1) = >>=-eq-ok (alert sendto wire channel _) _ h in
      let ((s1, count, stopped), sent, h2) =
        >>=-eq-ok (send_frames sendto wire channel cancel frames 0 _ s) _ h1 in
      let (s2, ended, h3) = >>=-eq-ok (finish sendto wire channel s1) _ h2 in
      let is_count : count ≡ r.packet_count = ap (λ p. p.0.packet_count) (ok-injective h3) in
      let is_stopped : stopped ≡ r.cancelled = ap (λ p. p.0.cancelled) (ok-injective h3) in
      let is_left : s2.targets ≡ left = ap (λ p. p.1) (ok-injective h3) in
      let (n, up, grown) =
        send_frames-Grew wire channel cancel frames 0 _ s s1 count stopped sent in
      (
        rw (← is_count, ← is_stopped)
            (send_frames-Sent wire channel cancel frames 0 _ s s1 count stopped sent),
        subst (λ l. Grew (controls wire + r.packet_count) targets l) is_left
            (alert-Grew wire channel _ s s1 s2 n r.packet_count alerted ended grown
              (omega (arith, up, is_count))),
      )
