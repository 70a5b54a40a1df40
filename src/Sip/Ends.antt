-- ===== src/Sip/Ends.antt =====
-- How a page of bell/protocols/sip.py ends.
use school_bells.Prelude.{
  ap, ◌⊎◌, ℕ, ◌+◌, ◌-◌, ◌*◌, ◌≡◌, ◌∙◌, refl, sym, ap, String, Bool, true, List, [], ◌∷◌, ◌++◌,
  Option, none, some, Bool-cases, inl, inr,
}
use school_bells.Prelude.Results.{
  ok-injective, Result, ok, err, ok-injective, not-ok-err, Result-cases,
}
use mathlib.Core.Path.{subst}
use school_bells.Config.{Destination, CodecName}
use school_bells.Sip.{SipRequest, SipResponse, CallTokens, put_header, dialog_headers}
use school_bells.Endpoints.{DeliveryOutcome}
use school_bells.Sip.Call.{
  Talk, talked, caught, escaped, answers, sip_error, other_error, Parsed, SdpAnswer, Streamed,
  streamed, broke, Wire, Answered, is_success, request, send, invite_headers, negotiate, bye,
  bye_uri, bye_with, authorized_bye, media_end, hang_up, after_ack, ack_for, converse, concluded,
  call_on, page, failed_call, with_codec,
}
use school_bells.Sip.Transcript.{
  Is, Opening, Ended, Transcript, refused, cut_off, complete, header-put_header, base_headers-Is,
  dialog_headers-same, ack_request-Is,
}
use school_bells.Sip.Offer.{Plain, Negotiated, negotiate-Leaves}

append_assoc : (xs ys zs : List SipRequest) → (xs ++ ys) ++ zs ≡ xs ++ (ys ++ zs)
append_assoc [] ys zs = refl
append_assoc (x ∷ xs) ys zs = ap (λ l. x ∷ l) (append_assoc xs ys zs)

module _ {S : Type 0} (exchange : SipRequest → S → S × Result SipResponse)
    (emit : SipRequest → S → S × Result (Unit {0})) (stream : SdpAnswer → S → S × Streamed)
    (environ : String → Option String) (branch : ℕ → String)
    (authorize : String → String → String → ℕ → Result String) (parse_sdp : String → Parsed)
    (d : Destination) (c : CallTokens) where
  -- The BYE of a call, with the number that it is given.
  authorized_bye-Is :
      (response : SipResponse) (cseq : ℕ) (challenge : Option (String × String))
      (message : SipRequest)
      → Plain exchange emit stream environ branch authorize parse_sdp d c challenge
      → authorized_bye exchange emit stream environ branch authorize parse_sdp d c response
          (dialog_headers d c "BYE" response cseq (branch 4))
          challenge
        ≡ ok message
      → Is c "BYE" cseq message
  unfolding authorized_bye bye_with
  authorized_bye-Is response cseq none message plain = λ h.
      subst (Is c "BYE" cseq) (ok-injective h) (
        base_headers-Is d c "BYE" cseq (branch 4)
          (dialog_headers d c "BYE" response cseq (branch 4))
          (dialog_headers-same d c "CSeq" "BYE" response cseq (branch 4) refl refl)
          (dialog_headers-same d c "Call-ID" "BYE" response cseq (branch 4) refl refl) _ "")
  authorized_bye-Is response cseq (some (name, value)) message plain =
      elim (Result-cases (
        authorize value "BYE"
          (bye_uri exchange emit stream environ branch authorize parse_sdp d c response) 2)) [
            | inl (e, raised) ↦ rw (raised, authorized_bye) (λ h. absurd (not-ok-err (sym h)))
            | inr (authorization, granted) ↦
                let headers = dialog_headers d c "BYE" response cseq (branch 4) in
                rw (granted, authorized_bye)
                  (λ h. subst (Is c "BYE" cseq) (ok-injective h) (
                    base_headers-Is d c "BYE" cseq (branch 4)
                      (put_header name authorization headers)
                      (header-put_header "CSeq" name authorization headers plain.0
                        ∙ dialog_headers-same d c "CSeq" "BYE" response cseq (branch 4) refl refl)
                      (header-put_header "Call-ID" name authorization headers plain.1
                        ∙ dialog_headers-same d c "Call-ID" "BYE" response cseq (branch 4) refl
                            refl)
                      _ ""))
          ]

  -- What a call leaves on the wire, and that it is complete if it succeeds.
  abbrev Concludes {ℓ} : {A : Type ℓ} → List SipRequest → Result A → Type ℓ
  Concludes {A = A} sent r = Transcript c sent × ((v : A) → r ≡ ok v → Ended c sent)

  media_end-Ended :
      (media : Streamed) (w : Wire S) (answer : Result SipResponse)
      → Ended c w.sent
      → Ended c
          (media_end exchange emit stream environ branch authorize parse_sdp d c media
            (w, answer)).0.sent
  unfolding media_end
  media_end-Ended media w (err e) h = h
  media_end-Ended (streamed packets cancelled) w (ok answer) h = h
  media_end-Ended (broke e) w (ok answer) h = h

  -- The INVITE was answered with the number of `a`, and acknowledged.
  pub record Acked (a : Answered) (w : Wire S) : Type 0 where
    pub opening : List SipRequest
    pub opened : Opening c a.cseq opening
    pub plain : Plain exchange emit stream environ branch authorize parse_sdp d c a.challenge
    pub ack : SipRequest
    pub acknowledged : Is c "ACK" a.cseq ack
    pub so_far : w.sent ≡ opening ++ ack ∷ []

  Acked-cut_off : (a : Answered) (w : Wire S) → Acked a w → Transcript c w.sent
  Acked-cut_off a w k = subst (Transcript c) (sym k.so_far) (cut_off k.opened k.ack k.acknowledged)

  pub hang_up-Ended :
      (a : Answered) (media : Streamed) (w : Wire S) (message : SipRequest)
      → Acked a w
      → bye exchange emit stream environ branch authorize parse_sdp d c a ≡ ok message
      → Ended c
          (hang_up exchange emit stream environ branch authorize parse_sdp d c a media w).0.sent
  unfolding hang_up request bye
  hang_up-Ended a media w message k made =
      let r = request exchange emit stream environ branch authorize parse_sdp d c message w in
      rw (made, hang_up)
        (media_end-Ended media r.0 r.1 (record {
          cseq = a.cseq;
          opening = k.opening;
          opened = k.opened;
          ack = k.ack;
          acknowledged = k.acknowledged;
          bye = message;
          hung_up = authorized_bye-Is a.response (a.cseq + 1) a.challenge message k.plain made;
          all =
              ap (λ l. l ++ message ∷ []) k.so_far
              ∙ append_assoc k.opening (k.ack ∷ []) (message ∷ []);
        }))

  hang_up-Concludes :
      (a : Answered) (media : Streamed) (w : Wire S)
      → Acked a w
      → Concludes
          (hang_up exchange emit stream environ branch authorize parse_sdp d c a media w).0.sent
          (hang_up exchange emit stream environ branch authorize parse_sdp d c a media w).1
  unfolding hang_up
  hang_up-Concludes a media w k =
      elim (Result-cases (bye exchange emit stream environ branch authorize parse_sdp d c a)) [
        | inl (e, raised) ↦
            rw (raised, hang_up) (Acked-cut_off a w k, (λ v h. absurd (not-ok-err (sym h))))
        | inr (message, made) ↦
            let ended = hang_up-Ended a media w message k made in (complete ended, (λ v h. ended))
      ]

  after_ack-Concludes :
      (a : Answered) (sdp : SdpAnswer) (w : Wire S) (done : Result (Unit {0}))
      → Acked a w
      → Concludes
          (after_ack exchange emit stream environ branch authorize parse_sdp d c a sdp
            (w, done)).0.sent
          (after_ack exchange emit stream environ branch authorize parse_sdp d c a sdp (w, done)).1
  unfolding after_ack
  after_ack-Concludes a sdp w (err e) k =
      (Acked-cut_off a w k, (λ v h. absurd (not-ok-err (sym h))))
  after_ack-Concludes a sdp w (ok _) k =
      hang_up-Concludes a (stream sdp w.state).1 (record w { state = (stream sdp w.state).0 })
        (moved k)
    where
      moved : Acked a w → Acked a (record w { state = (stream sdp w.state).0 })
      moved k = record {
        opening = k.opening;
        opened = k.opened;
        plain = k.plain;
        ack = k.ack;
        acknowledged = k.acknowledged;
        so_far = k.so_far;
      }

  -- A conversation that goes to its end is hung up.
  Talks : List SipRequest → Talk → Type 0
  Talks sent t =
      Transcript c sent
      × ((codec : CodecName) (packets : ℕ) (cancelled : Bool)
          → t ≡ talked codec packets cancelled
          → Ended c sent)

  with_codec-Talks :
      (codec : CodecName) (sent : List SipRequest) (r : Result (ℕ × Bool))
      → Concludes sent r
      → Talks sent (with_codec codec r)
  unfolding with_codec Talks
  with_codec-Talks codec sent (err e) k = (k.0, (λ x p b h. absurd (cc (h))))
  with_codec-Talks codec sent (ok (packets, cancelled)) k =
      (k.0, (λ x p b h. k.1 (packets, cancelled) refl))

  pub ack_for-Acked :
      (a : Answered) (w : Wire S)
      → Negotiated exchange emit stream environ branch authorize parse_sdp d c w.sent (ok a)
      → Acked a
          (send exchange emit stream environ branch authorize parse_sdp d c
            (ack_for exchange emit stream environ branch authorize parse_sdp d c a)
            w).0
  unfolding send ack_for
  ack_for-Acked a w (opened, plain) =
      let token = branch (a.cseq * 2 - 2) in
      record {
        opening = w.sent;
        opened = opened;
        plain = plain;
        ack = ack_for exchange emit stream environ branch authorize parse_sdp d c a;
        acknowledged =
            ack_request-Is d c a.response
              (invite_headers exchange emit stream environ branch authorize parse_sdp d c a.cseq
                token)
              a.cseq (branch 3);
        so_far = refl;
      }

  Parsed-cases :
      (p : Parsed)
      → ((e : String) × (p ≡ sip_error e))
        ⊎ ((e : String) × (p ≡ other_error e))
        ⊎ ((sdp : SdpAnswer) × (p ≡ answers sdp))
  Parsed-cases (sip_error e) = inl (e, refl)
  Parsed-cases (other_error e) = inr (inl (e, refl))
  Parsed-cases (answers sdp) = inr (inr (sdp, refl))

  converse-Talks :
      (a : Answered) (w : Wire S)
      → Negotiated exchange emit stream environ branch authorize parse_sdp d c w.sent (ok a)
      → Talks
          (converse exchange emit stream environ branch authorize parse_sdp d c a w).0.sent
          (converse exchange emit stream environ branch authorize parse_sdp d c a w).1
  unfolding converse Talks
  converse-Talks a w n = elim (Bool-cases (is_success a.response)) [
    | inr declined ↦ rw (declined, converse) (refused n.0, (λ x p b h. absurd (cc (h))))
    | inl answered ↦ elim (Parsed-cases (parse_sdp a.response.body)) [
      | inl (e, unusable) ↦
          rw (answered, unusable, converse) (refused n.0, (λ x p b h. absurd (cc (h))))
      | inr (inl (e, malformed)) ↦
          rw (answered, malformed, converse) (refused n.0, (λ x p b h. absurd (cc (h))))
      | inr (inr (sdp, usable)) ↦
          let r =
            send exchange emit stream environ branch authorize parse_sdp d c
              (ack_for exchange emit stream environ branch authorize parse_sdp d c a) w in
          rw (answered, usable, converse)
            (unfold Talks in
              with_codec-Talks sdp.codec _ _
                (after_ack-Concludes a sdp r.0 r.1 (ack_for-Acked a w n)))
    ]
  ]

  concluded-Ended :
      (attempts duration : ℕ) (w : Wire S) (r : Talk)
      → Talks w.sent r
      → Transcript c
          (concluded exchange emit stream environ branch authorize parse_sdp d c attempts duration
            (w, r)).0.sent
        × ((outcome : DeliveryOutcome)
            → (concluded exchange emit stream environ branch authorize parse_sdp d c attempts
                duration
                (w, r)).1
              ≡ ok outcome
            → outcome.success ≡ true
            → Ended c
                (concluded exchange emit stream environ branch authorize parse_sdp d c attempts
                  duration
                  (w, r)).0.sent)
  unfolding concluded failed_call Talks
  concluded-Ended attempts duration w (caught e) k =
      (k.0, (λ o h fine. absurd (failure o (ok-injective h) fine)))
    where
      failure : (o : DeliveryOutcome) → failed_call d attempts duration e ≡ o → o.success ≡ true → ⊥
      failure o h fine = cc (ap (λ (o : DeliveryOutcome). o.success) h, fine)
  concluded-Ended attempts duration w (escaped e) k =
      (k.0, (λ o h fine. absurd (not-ok-err (sym h))))
  concluded-Ended attempts duration w (talked codec packets cancelled) k =
      (k.0, (λ o h fine. k.1 codec packets cancelled refl))

  call_on-Ended :
      (duration : ℕ) (w : Wire S) (r : Result Answered)
      → Negotiated exchange emit stream environ branch authorize parse_sdp d c w.sent r
      → Transcript c
          (call_on exchange emit stream environ branch authorize parse_sdp d c duration
            (w, r)).0.sent
        × ((outcome : DeliveryOutcome)
            → (call_on exchange emit stream environ branch authorize parse_sdp d c duration
                (w, r)).1
              ≡ ok outcome
            → outcome.success ≡ true
            → Ended c
                (call_on exchange emit stream environ branch authorize parse_sdp d c duration
                  (w, r)).0.sent)
  unfolding call_on failed_call
  call_on-Ended duration w (err e) n = (n, (λ o h fine. absurd (failure o (ok-injective h) fine)))
    where
      failure : (o : DeliveryOutcome) → failed_call d 1 duration e ≡ o → o.success ≡ true → ⊥
      failure o h fine = cc (ap (λ (o : DeliveryOutcome). o.success) h, fine)
  call_on-Ended duration w (ok a) n =
      concluded-Ended a.attempts duration
        (converse exchange emit stream environ branch authorize parse_sdp d c a w).0
        (converse exchange emit stream environ branch authorize parse_sdp d c a w).1
        (converse-Talks a w n)

  -- Whatever the network answers, a page puts nothing else on the wire than the INVITE, with its ACK
  -- and a second INVITE if it was challenged, and then an ACK and a BYE of the next number, each under
  -- the call's own Call-ID, ended early or not; and a page that is reported as delivered was
  -- acknowledged and hung up.
  pub page-Transcript :
      (body : String) (duration : ℕ) (s : S)
      → Transcript c
          (page exchange emit stream environ branch authorize parse_sdp d c body duration s).0.sent
        × ((outcome : DeliveryOutcome)
            → (page exchange emit stream environ branch authorize parse_sdp d c body duration s).1
              ≡ ok outcome
            → outcome.success ≡ true
            → Ended c
                (page exchange emit stream environ branch authorize parse_sdp d c body duration
                  s).0.sent)
  unfolding page
  page-Transcript body duration s =
      let r =
        negotiate exchange emit stream environ branch authorize parse_sdp d c body
          (record { state = s; sent = [] }) in
      call_on-Ended duration r.0 r.1
        (negotiate-Leaves exchange emit stream environ branch authorize parse_sdp d c body s)
