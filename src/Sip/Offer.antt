-- ===== src/Sip/Offer.antt =====
-- How the INVITE of a page of bell/protocols/sip.py is answered.
use school_bells.Prelude.{
  ℕ, ◌≡◌, refl, sym, ap, String, false, List, [], ◌∷◌, ◌++◌, Option, none, some, ◌==◌, Bool-cases,
  inl, inr, str_eq,
}
use school_bells.Prelude.Results.{Result, ok, err, Result-cases}
use mathlib.Core.Path.{subst}
use school_bells.Config.{Destination}
use school_bells.Sip.{
  SipRequest, SipResponse, CallTokens, header, put_header, base_headers, ack_request, or_empty,
}
use school_bells.Sip.Call.{
  Parsed, SdpAnswer, Streamed, Wire, Answered, is_challenge, authorization_name, request, send,
  invite, invite_headers, second_answer, reinvite, challenged, first_answer, negotiate, credentials,
}
use school_bells.Sip.Transcript.{
  Is, Opening, at_once, authorized, Transcript, refused, given_up, header-put_header,
  base_headers-Is, ack_request-Is,
}

module _ {S : Type 0} (exchange : SipRequest → S → S × Result SipResponse)
    (emit : SipRequest → S → S × Result (Unit {0})) (stream : SdpAnswer → S → S × Streamed)
    (environ : String → Option String) (branch : ℕ → String)
    (authorize : String → String → String → ℕ → Result String) (parse_sdp : String → Parsed)
    (d : Destination) (c : CallTokens) where
  -- The header of an authorization is neither of those that tell a request.
  abbrev pub Plain : Option (String × String) → Type 0
  Plain none = Unit
  Plain (some (name, value)) = (str_eq name "CSeq" ≡ false) × (str_eq name "Call-ID" ≡ false)

  pub authorization-Plain :
      (response : SipResponse)
      → (str_eq (authorization_name response) "CSeq" ≡ false)
        × (str_eq (authorization_name response) "Call-ID" ≡ false)
  unfolding authorization_name
  authorization-Plain response = elim (Bool-cases (response.status == 401)) [
    | inl by_server ↦ rw (by_server) (refl, refl)
    | inr by_proxy ↦ rw (by_proxy) (refl, refl)
  ]

  invite-Is :
      (body token : String) (cseq : ℕ)
      → Is c "INVITE" cseq (
          invite exchange emit stream environ branch authorize parse_sdp d c body
            (invite_headers exchange emit stream environ branch authorize parse_sdp d c cseq token))
  unfolding invite invite_headers header
  invite-Is body token cseq =
      base_headers-Is d c "INVITE" cseq token
        (put_header "Content-Type" "application/sdp" (base_headers d c "INVITE" cseq token)) refl
        refl _ body

  authorized-Is :
      (body token authorization : String) (cseq : ℕ) (response : SipResponse)
      → Is c "INVITE" cseq (
          invite exchange emit stream environ branch authorize parse_sdp d c body (
            put_header (authorization_name response) authorization (
              invite_headers exchange emit stream environ branch authorize parse_sdp d c cseq
                token)))
  unfolding invite invite_headers header
  authorized-Is body token authorization cseq response =
      let (a, b) = authorization-Plain response in
      let headers =
        put_header "Content-Type" "application/sdp" (base_headers d c "INVITE" cseq token) in
      base_headers-Is d c "INVITE" cseq token
        (put_header (authorization_name response) authorization headers)
        (header-put_header "CSeq" (authorization_name response) authorization headers a)
        (header-put_header "Call-ID" (authorization_name response) authorization headers b) _ body

  -- What the negotiation leaves on the wire.
  abbrev pub Negotiated : List SipRequest → Result Answered → Type 0
  Negotiated sent (err e) = Transcript c sent
  Negotiated sent (ok a) = Opening c a.cseq sent × Plain a.challenge

  abbrev pub Leaves : Wire S × Result Answered → Type 0
  Leaves r = Negotiated r.0.sent r.1

  second_answer-Leaves :
      (response : SipResponse) (value : String) (i k j : SipRequest) (w : Wire S)
      (answer : Result SipResponse)
      → w.sent ≡ i ∷ k ∷ j ∷ []
      → Is c "INVITE" 1 i
      → Is c "ACK" 1 k
      → Is c "INVITE" 2 j
      → Leaves (
          second_answer exchange emit stream environ branch authorize parse_sdp d c response value
            (w, answer))
  unfolding second_answer
  second_answer-Leaves response value i k j w (err e) sent hi hk hj =
      subst (Transcript c) (sym sent) (refused (authorized i k j hi hk hj))
  second_answer-Leaves response value i k j w (ok answer) sent hi hk hj =
      (subst (Opening c 2) (sym sent) (authorized i k j hi hk hj), authorization-Plain response)

  reinvite-Leaves :
      (body : String) (response : SipResponse) (value : String) (i k : SipRequest) (w : Wire S)
      (done : Result (Unit {0}))
      → w.sent ≡ i ∷ k ∷ []
      → Is c "INVITE" 1 i
      → Is c "ACK" 1 k
      → Leaves (
          reinvite exchange emit stream environ branch authorize parse_sdp d c body response value
            (w, done))
  unfolding reinvite request
  reinvite-Leaves body response value i k w (err e) sent hi hk =
      subst (Transcript c) (sym sent) (given_up i k hi hk)
  reinvite-Leaves body response value i k w (ok _) sent hi hk =
      elim (Result-cases (authorize value "INVITE" (or_empty d.sip_uri) 1)) [
        | inl (e, raised) ↦
            rw (raised, reinvite) (subst (Transcript c) (sym sent) (given_up i k hi hk))
        | inr (authorization, granted) ↦
            let j = invite exchange emit stream environ branch authorize parse_sdp d c body (
              put_header (authorization_name response) authorization (
                invite_headers exchange emit stream environ branch authorize parse_sdp d c 2
                  (branch 2))) in
            rw (granted, reinvite)
              (second_answer-Leaves response value i k j _ _ (ap (λ l. l ++ j ∷ []) sent) hi hk
                (authorized-Is body (branch 2) authorization 2 response))
      ]

  challenged-Leaves :
      (body : String) (response : SipResponse) (i : SipRequest) (w : Wire S)
      → w.sent ≡ i ∷ []
      → Is c "INVITE" 1 i
      → Leaves
          (challenged exchange emit stream environ branch authorize parse_sdp d c body response w)
  unfolding challenged send
  challenged-Leaves body response i w sent hi =
      elim (Result-cases (
        credentials environ "SIP authentication required but credentials are not configured" d
          response)) [
            | inl (e, missing) ↦
                rw (missing, challenged) (subst (Transcript c) (sym sent) (refused (at_once i hi)))
            | inr (value, found) ↦
                let k =
                  ack_request d c response
                    (invite_headers exchange emit stream environ branch authorize parse_sdp d c 1
                      (branch 0))
                    1 (branch 1) in
                rw (found, challenged)
                  (reinvite-Leaves body response value i k _ _ (ap (λ l. l ++ k ∷ []) sent) hi (
                    ack_request-Is d c response
                      (invite_headers exchange emit stream environ branch authorize parse_sdp d c 1
                        (branch 0))
                      1 (branch 1)))
          ]

  first_answer-Leaves :
      (body : String) (i : SipRequest) (w : Wire S) (answer : Result SipResponse)
      → w.sent ≡ i ∷ []
      → Is c "INVITE" 1 i
      → Leaves (
          first_answer exchange emit stream environ branch authorize parse_sdp d c body (w, answer))
  unfolding first_answer
  first_answer-Leaves body i w (err e) sent hi =
      subst (Transcript c) (sym sent) (refused (at_once i hi))
  first_answer-Leaves body i w (ok response) sent hi = elim (Bool-cases (is_challenge response)) [
    | inl asks ↦ rw (asks, first_answer) (challenged-Leaves body response i w sent hi)
    | inr fine ↦ rw (fine, first_answer) (subst (Opening c 1) (sym sent) (at_once i hi), tt)
  ]

  pub negotiate-Leaves :
      (body : String) (s : S)
      → Leaves (
          negotiate exchange emit stream environ branch authorize parse_sdp d c body
            (record { state = s; sent = [] }))
  unfolding negotiate request
  negotiate-Leaves body s =
      let i =
        invite exchange emit stream environ branch authorize parse_sdp d c body (
          invite_headers exchange emit stream environ branch authorize parse_sdp d c 1
            (branch 0)) in
      let r =
        request exchange emit stream environ branch authorize parse_sdp d c i
          (record { state = s; sent = [] }) in
      first_answer-Leaves body i r.0 r.1 refl (invite-Is body (branch 0) 1)
