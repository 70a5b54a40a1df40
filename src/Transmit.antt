-- ===== src/Transmit.antt =====
-- bell/transmit.py: the multicast sender. What the network answers to a datagram is the argument
-- `sendto`, given the packets sent to that endpoint before; when the cancel event is set is `Cancel`.
-- Pacing (the sleeps, and the statistics of drift and duration) is left out.
pub mod Count
use school_bells.Prelude.{
  ℕ, zero, suc, ◌+◌, ◌/◌, String, Bool, true, false, ◌&&◌, ◌||◌, not, List, [], ◌∷◌, Option, none,
  some, ◌==◌, if◌then◌else◌, length, map, str_eq, show, is_some,
}
use school_bells.Prelude.Results.{Result, ok, err, ◌>>=◌}
use school_bells.Dates.{◌&◌}
use school_bells.Wire.{StreamState, Stamp, next}
use school_bells.Wire.Rtp.{PlainRtp, build_packet as build_rtp}
use school_bells.Wire.Poly.{
  PolyGroupPage, build_packet as build_poly, build_control_packet, poly_alert, poly_end,
  alert_count, end_count,
}

pub record DestinationEndpoint : Type 0 where
  pub name : String
  pub group : String
  pub port : ℕ
  pub ttl : ℕ

-- The wire formats of bell/wire/, which `WireFormat` stands for.
pub data WireFormat : Type 0 where
  plain : PlainRtp → WireFormat
  poly : PolyGroupPage → WireFormat

-- A target, with the packets given to its socket, the latest first; in a dry run it has none.
pub record Target : Type 0 where
  pub endpoint : DestinationEndpoint
  pub has_socket : Bool
  pub state : StreamState
  pub previous_payload : Option (List ℕ)
  pub error : Option String
  pub given : List (List ℕ)

-- Whether the event is set: after the alert, at the head of the loop, and in the wait of a frame.
pub record Cancel : Type 0 where
  pub after_alert : Bool
  pub at_head : ℕ → Bool
  pub in_wait : ℕ → Bool

unfoldable pub is_poly : WireFormat → Bool
is_poly (plain w) = false
is_poly (poly w) = true

pub record TransmitResult : Type 0 where
  pub packet_count : ℕ
  pub destination_bytes : List (String × ℕ)
  pub destination_errors : List (String × String)
  pub cancelled : Bool

-- `byte_counts`
abbrev pub Counts : Type 0
Counts = List (String × ℕ)

unfoldable pub add_bytes : String → ℕ → Counts → Counts
add_bytes name n [] = []
add_bytes name n ((key, total) ∷ rest) =
    if str_eq key name then (key, total + n) ∷ rest else (key, total) ∷ add_bytes name n rest

pub record Sending : Type 0 where
  pub targets : List Target
  pub counts : Counts

unfoldable pub build : WireFormat → List ℕ → Stamp → Bool → ℕ → Option (List ℕ) → Result (List ℕ)
build (plain w) frame stamp first channel previous = build_rtp w frame stamp first channel
build (poly w) frame stamp first channel previous =
    build_poly w frame stamp.timestamp stamp.ssrc channel previous

-- `{target.endpoint.name: 0 for target in self._targets}`, with the names distinct
unfoldable pub zero_counts : List Target → Counts
zero_counts targets = map (λ (t : Target). (t.endpoint.name, 0)) targets

unfoldable pub errors_of : List Target → List (String × String)
errors_of [] = []
errors_of (t ∷ ts) = elim t.error [
  | none ↦ errors_of ts
  | some e ↦ (t.endpoint.name, e) ∷ errors_of ts
]

module _ (sendto : DestinationEndpoint → List (List ℕ) → List ℕ → Result ℕ) where
  -- The socket's answer, with a short send made an error.
  unfoldable pub answer : Target → List ℕ → Option String
  answer t packet = elim (sendto t.endpoint t.given packet) [
    | ok sent ↦
        if sent == length packet
        then none
        else some ("short UDP send: " & show sent & " of " & show (length packet) & " bytes")
    | err e ↦ some e
  ]

  -- The target and its number of bytes, given the socket's answer.
  unfoldable pub answered : Option String → Target → List ℕ → Counts → Target × Counts
  unfolding add_bytes
  answered none t packet counts =
      (record t { given = packet ∷ t.given }, add_bytes t.endpoint.name (length packet) counts)
  answered (some e) t packet counts =
      (record t { given = packet ∷ t.given; error = some e }, counts)

  unfoldable pub send_packet : Target → List ℕ → Counts → Target × Counts
  unfolding answer answered add_bytes
  send_packet t packet counts =
      if is_some t.error
      then (t, counts)
      else if t.has_socket
      then answered (answer t packet) t packet counts
      else (t, add_bytes t.endpoint.name (length packet) counts)

  -- One control packet for each target.
  unfoldable pub control_round : PolyGroupPage → ℕ → ℕ → List Target → Counts → Result Sending
  unfolding send_packet
  control_round wire opcode channel [] counts = ok (record { targets = []; counts = counts })
  control_round wire opcode channel (t ∷ ts) counts = do
    packet ← build_control_packet wire opcode channel t.state.ssrc
    let (t1, counts1) = send_packet t packet counts
    rest ← control_round wire opcode channel ts counts1
    ok (record rest { targets = t1 ∷ rest.targets })

  unfoldable pub send_poly_controls : PolyGroupPage → ℕ → ℕ → ℕ → Sending → Result Sending
  unfolding control_round
  send_poly_controls wire opcode channel zero s = ok s
  send_poly_controls wire opcode channel (suc count) s = do
    s1 ← control_round wire opcode channel s.targets s.counts
    send_poly_controls wire opcode channel count s1

  -- A frame for one target: its stamp is drawn before the packet is built.
  unfoldable pub frame_to :
      WireFormat → List ℕ → Bool → ℕ → Target → Counts → Result (Target × Counts)
  unfolding send_packet build
  frame_to wire frame first channel t counts = if is_some t.error then ok (t, counts) else do
    let (stamp, state) = next t.state
    packet ← build wire frame stamp first channel t.previous_payload
    let (t1, counts1) = send_packet (record t { state = state }) packet counts
    ok (record t1 { previous_payload = some frame }, counts1)

  unfoldable pub frame_round :
      WireFormat → List ℕ → Bool → ℕ → List Target → Counts → Result Sending
  unfolding frame_to
  frame_round wire frame first channel [] counts = ok (record { targets = []; counts = counts })
  frame_round wire frame first channel (t ∷ ts) counts = do
    (t1, counts1) ← frame_to wire frame first channel t counts
    rest ← frame_round wire frame first channel ts counts1
    ok (record rest { targets = t1 ∷ rest.targets })

  -- The loop over the frames from the frame of this index: what it sent, how many packets, and
  -- whether it was cancelled.
  unfoldable pub send_frames :
      WireFormat → ℕ → Cancel → List (List ℕ) → ℕ → Bool → Sending → Result (Sending × ℕ × Bool)
  unfolding frame_round
  send_frames wire channel cancel [] index cancelled s = ok (s, index, cancelled)
  send_frames wire channel cancel (frame ∷ frames) index cancelled s =
      if cancelled || cancel.at_head index || cancel.in_wait index then ok (s, index, true) else do
        s1 ← frame_round wire frame (index == 0) channel s.targets s.counts
        send_frames wire channel cancel frames (index + 1) false s1

  -- What `send` does before the frames, and after them.
  unfoldable pub alert : WireFormat → ℕ → Sending → Result Sending
  unfolding send_poly_controls
  alert (plain w) channel s = ok s
  alert (poly w) channel s = send_poly_controls w poly_alert channel alert_count s

  unfoldable pub finish : WireFormat → ℕ → Sending → Result Sending
  unfolding send_poly_controls
  finish (plain w) channel s = ok s
  finish (poly w) channel s = send_poly_controls w poly_end channel end_count s

  -- `send`: the result, and the targets that it leaves.
  unfoldable pub send :
      WireFormat → List Target → List (List ℕ) → ℕ → Cancel → Result (TransmitResult × List Target)
  unfolding alert send_frames finish is_poly errors_of zero_counts
  send wire targets frames channel cancel = do
    s ← alert wire channel (record { targets = targets; counts = zero_counts targets })
    (s1, packet_count, cancelled) ←
        send_frames wire channel cancel frames 0 (is_poly wire && cancel.after_alert) s
    s2 ← finish wire channel s1
    ok (
      record {
        packet_count = packet_count;
        destination_bytes = s2.counts;
        destination_errors = errors_of s2.targets;
        cancelled = cancelled;
      },
      s2.targets,
    )
