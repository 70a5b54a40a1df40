-- ===== src/Sip/HangUp.antt =====
-- When a call of bell/protocols/sip.py is hung up.
use school_bells.Prelude.{ℕ, ◌≡◌, ◌∙◌, refl, sym, String, true, [], Option}
use school_bells.Prelude.Results.{Result, ok}
use mathlib.Core.Path.{subst}
use school_bells.Config.{Destination}
use school_bells.Sip.{SipRequest, SipResponse, CallTokens}
use school_bells.Sip.Call.{
  Talk, talked, caught, escaped, answers, Parsed, SdpAnswer, Streamed, Wire, Answered, is_success,
  send, negotiate, bye, hang_up, after_ack, ack_for, converse, concluded, call_on, page,
}
use school_bells.Sip.Transcript.{Ended}
use school_bells.Sip.Offer.{Leaves, negotiate-Leaves}
use school_bells.Sip.Ends.{Acked, ack_for-Acked, hang_up-Ended}

module _ {S : Type 0} (exchange : SipRequest → S → S × Result SipResponse)
    (emit : SipRequest → S → S × Result (Unit {0})) (stream : SdpAnswer → S → S × Streamed)
    (environ : String → Option String) (branch : ℕ → String)
    (authorize : String → String → String → ℕ → Result String) (parse_sdp : String → Parsed)
    (d : Destination) (c : CallTokens) where
  with_codec-sent :
      (a : Answered) (w u : Wire S) (sdp : SdpAnswer)
      → is_success a.response ≡ true
      → parse_sdp a.response.body ≡ answers sdp
      → send exchange emit stream environ branch authorize parse_sdp d c
          (ack_for exchange emit stream environ branch authorize parse_sdp d c a)
          w
        ≡ (u, ok tt)
      → (converse exchange emit stream environ branch authorize parse_sdp d c a w).0.sent
        ≡ (hang_up exchange emit stream environ branch authorize parse_sdp d c a
            (stream sdp u.state).1
            (record u { state = (stream sdp u.state).0 })).0.sent
  unfolding converse after_ack
  with_codec-sent a w u sdp answered usable acked = rw (answered, usable, acked, converse) refl

  moved :
      {a : Answered} (u v : Wire S)
      → Acked exchange emit stream environ branch authorize parse_sdp d c a u
      → v.sent ≡ u.sent
      → Acked exchange emit stream environ branch authorize parse_sdp d c a v
  moved u v k same = record {
    opening = k.opening;
    opened = k.opened;
    plain = k.plain;
    ack = k.ack;
    acknowledged = k.acknowledged;
    so_far = same ∙ k.so_far;
  }

  concluded-sent :
      (attempts duration : ℕ) (w : Wire S) (r : Talk)
      → (concluded exchange emit stream environ branch authorize parse_sdp d c attempts duration
          (w, r)).0.sent
        ≡ w.sent
  unfolding concluded
  concluded-sent attempts duration w (caught e) = refl
  concluded-sent attempts duration w (escaped e) = refl
  concluded-sent attempts duration w (talked codec packets cancelled) = refl

  -- A call whose INVITE was accepted with a usable session description, whose ACK went out, and
  -- whose BYE can be made (where the INVITE was challenged, it is authorized as that was), is hung
  -- up by a BYE, be the media played out, cancelled or broken by an error, and whatever the answer
  -- to the BYE.
  pub page_hangs_up :
      (body : String) (duration : ℕ) (s : S) (a : Answered) (w u : Wire S) (sdp : SdpAnswer)
      (message : SipRequest)
      → negotiate exchange emit stream environ branch authorize parse_sdp d c body
          (record { state = s; sent = [] })
        ≡ (w, ok a)
      → is_success a.response ≡ true
      → parse_sdp a.response.body ≡ answers sdp
      → send exchange emit stream environ branch authorize parse_sdp d c
          (ack_for exchange emit stream environ branch authorize parse_sdp d c a)
          w
        ≡ (u, ok tt)
      → bye exchange emit stream environ branch authorize parse_sdp d c a ≡ ok message
      → Ended c
          (page exchange emit stream environ branch authorize parse_sdp d c body duration s).0.sent
  unfolding page call_on
  page_hangs_up body duration s a w u sdp message negotiated answered usable acked made =
      let n =
        subst (λ r. Leaves exchange emit stream environ branch authorize parse_sdp d c r) negotiated
          (negotiate-Leaves exchange emit stream environ branch authorize parse_sdp d c body s) in
      let k =
        subst (λ r. Acked exchange emit stream environ branch authorize parse_sdp d c a r.0) acked
          (ack_for-Acked exchange emit stream environ branch authorize parse_sdp d c a w n) in
      let v = record u { state = (stream sdp u.state).0 } in
      let ended =
        hang_up-Ended exchange emit stream environ branch authorize parse_sdp d c a
          (stream sdp u.state).1 v message (moved u v k refl) made in
      rw (negotiated, page)
        (subst (Ended c)
          (sym (
            concluded-sent a.attempts duration
              (converse exchange emit stream environ branch authorize parse_sdp d c a w).0
              (converse exchange emit stream environ branch authorize parse_sdp d c a w).1
            ∙ with_codec-sent a w u sdp answered usable acked))
          ended)
