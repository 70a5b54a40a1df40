-- ===== src/Sip/Call.antt =====
-- `SIPClient.page` and `options` of bell/protocols/sip.py: the sequence of requests, with what every
-- early end leaves. What was put on the wire is recorded, the latest request last.
use school_bells.Prelude.{
  ℕ, ◌+◌, ◌-◌, ◌*◌, String, Bool, false, ◌&&◌, ◌||◌, not, List, [], ◌∷◌, ◌++◌, Option, none, some,
  leb, ltb, ◌==◌, if◌then◌else◌, show,
}
use school_bells.Prelude.Results.{Result, ok, err}
use school_bells.Dates.{◌&◌}
use school_bells.Config.{Destination, sip, CodecName, pcmu, pcma, g722}
use school_bells.Endpoints.{DeliveryOutcome}
use school_bells.Sip.{
  SipRequest, SipResponse, CallTokens, header, put_header, base_headers, dialog_headers,
  ack_request, contact_uri, or_empty, or_else,
}

pub record SdpAnswer : Type 0 where
  pub address : String
  pub port : ℕ
  pub codec : CodecName
  pub payload_type : ℕ

-- How `parse_sdp` ends: with the answer, with a SIPError, or with another exception (a ValueError or an
-- IndexError), which `page` does not catch.
pub data Parsed : Type 0 where
  answers : SdpAnswer → Parsed
  sip_error : String → Parsed
  other_error : String → Parsed

-- How a conversation ends: with its codec, the packets and whether it was cancelled; with an
-- exception that `page` catches, or with one that leaves it.
pub data Talk : Type 0 where
  talked : CodecName → ℕ → Bool → Talk
  caught : String → Talk
  escaped : String → Talk

-- How `_stream_media` ends: with its count and whether it was cancelled, or in an OSError.
pub data Streamed : Type 0 where
  streamed : ℕ → Bool → Streamed
  broke : String → Streamed

-- The state of the network and of the cancel event, and the requests sent so far.
pub record Wire (S : Type 0) : Type 0 where
  pub state : S
  pub sent : List SipRequest

-- An answered INVITE: the answer, the number of its CSeq, the attempts, and the credentials that were
-- used, if it took them.
pub record Answered : Type 0 where
  pub response : SipResponse
  pub cseq : ℕ
  pub attempts : ℕ
  pub challenge : Option (String × String)

unfoldable pub is_success : SipResponse → Bool
is_success r = leb 200 r.status && ltb r.status 300

unfoldable pub is_challenge : SipResponse → Bool
is_challenge r = r.status == 401 || r.status == 407

unfoldable pub challenge_name : SipResponse → String
challenge_name r = if r.status == 401 then "www-authenticate" else "proxy-authenticate"

unfoldable pub authorization_name : SipResponse → String
authorization_name r = if r.status == 401 then "Authorization" else "Proxy-Authorization"

text_of : Option String → Option String
text_of none = none
text_of (some String.[]) = none
text_of (some (String.◌∷◌ c s)) = some (String.◌∷◌ c s)

with_password : String → Option String → String → Result String
with_password name none value = err ("environment variable " & name & " is not set")
with_password name (some password) value = ok value

-- The challenge, if there is one and the destination has a user and a password that is set.
unfoldable pub credentials :
    (String → Option String) → String → Destination → SipResponse → Result String
unfolding text_of header challenge_name with_password
credentials environ missing d response =
    elim (text_of (header (challenge_name response) response.headers)) [
      | none ↦ err missing
      | some value ↦ elim (text_of d.sip_username) [
        | none ↦ err missing
        | some _ ↦ elim (text_of d.sip_password_env) [
          | none ↦ err missing
          | some name ↦ with_password name (environ name) value
        ]
      ]
    ]

codec_upper : CodecName → String
codec_upper pcmu = "PCMU"
codec_upper pcma = "PCMA"
codec_upper g722 = "G722"

unfoldable pub failed_call : Destination → ℕ → ℕ → String → DeliveryOutcome
failed_call d attempts duration e = record {
  destination = d.name;
  protocol = sip;
  success = false;
  status = "failed";
  detail = e;
  attempts = attempts;
  duration = duration;
}

unfoldable pub finished_call : Destination → ℕ → ℕ → CodecName → ℕ × Bool → DeliveryOutcome
unfolding codec_upper
finished_call d attempts duration codec (packets, cancelled) = record {
  destination = d.name;
  protocol = sip;
  success = not cancelled;
  status = if cancelled then "cancelled" else "200";
  detail = "streamed " & show packets & " " & codec_upper codec & " packets";
  attempts = attempts;
  duration = duration;
}

unfoldable pub with_codec : CodecName → Result (ℕ × Bool) → Talk
with_codec codec (err e) = caught e
with_codec codec (ok (packets, cancelled)) = talked codec packets cancelled

-- `exchange` and `emit` are the transport's `request` and `send`, `stream` is `_stream_media`;
-- `branch` gives the branch tokens by their number, `authorize` the value of an authorization for a
-- challenge, a method, an address and a nonce count, `parse_sdp` the answer in a body.
module _ {S : Type 0} (exchange : SipRequest → S → S × Result SipResponse)
    (emit : SipRequest → S → S × Result (Unit {0})) (stream : SdpAnswer → S → S × Streamed)
    (environ : String → Option String) (branch : ℕ → String)
    (authorize : String → String → String → ℕ → Result String) (parse_sdp : String → Parsed)
    (d : Destination) (c : CallTokens) where
  unfoldable pub request : SipRequest → Wire S → Wire S × Result SipResponse
  request r w =
      let (s, answer) = exchange r w.state in
      (record { state = s; sent = w.sent ++ r ∷ [] }, answer)

  unfoldable pub send : SipRequest → Wire S → Wire S × Result (Unit {0})
  send r w = let (s, done) = emit r w.state in (record { state = s; sent = w.sent ++ r ∷ [] }, done)

  unfoldable pub invite_headers : ℕ → String → List (String × String)
  unfolding base_headers put_header
  invite_headers cseq token =
      put_header "Content-Type" "application/sdp" (base_headers d c "INVITE" cseq token)

  unfoldable pub invite : String → List (String × String) → SipRequest
  unfolding or_empty
  invite body headers = record {
    method = "INVITE";
    uri = or_empty d.sip_uri;
    headers = headers;
    body = body;
  }

  -- The answer to the INVITE that carries the authorization.
  unfoldable pub second_answer :
      SipResponse → String → Wire S × Result SipResponse → Wire S × Result Answered
  unfolding authorization_name
  second_answer response value (w, err e) = (w, err e)
  second_answer response value (w, ok answer) = (
    w,
    ok (record {
      response = answer;
      cseq = 2;
      attempts = 2;
      challenge = some (authorization_name response, value);
    }),
  )

  unfoldable pub reinvite :
      String → SipResponse → String → Wire S × Result (Unit {0}) → Wire S × Result Answered
  unfolding second_answer request invite invite_headers authorization_name put_header or_empty
  reinvite body response value (w, err e) = (w, err e)
  reinvite body response value (w, ok _) = elim (authorize value "INVITE" (or_empty d.sip_uri) 1) [
    | err e ↦ (w, err e)
    | ok authorization ↦ second_answer response value (
        request
          (invite body
            (put_header (authorization_name response) authorization (invite_headers 2 (branch 2))))
          w)
  ]

  unfoldable pub challenged : String → SipResponse → Wire S → Wire S × Result Answered
  unfolding reinvite send credentials invite_headers ack_request
  challenged body response w =
      elim (credentials environ "SIP authentication required but credentials are not configured" d
        response) [
          | err e ↦ (w, err e)
          | ok value ↦
              reinvite body response value
                (send (ack_request d c response (invite_headers 1 (branch 0)) 1 (branch 1)) w)
        ]

  unfoldable pub first_answer : String → Wire S × Result SipResponse → Wire S × Result Answered
  unfolding challenged is_challenge
  first_answer body (w, err e) = (w, err e)
  first_answer body (w, ok response) =
      if is_challenge response
      then challenged body response w
      else (w, ok (record { response = response; cseq = 1; attempts = 1; challenge = none }))

  -- The INVITE, and once more where it is challenged.
  unfoldable pub negotiate : String → Wire S → Wire S × Result Answered
  unfolding first_answer request invite invite_headers
  negotiate body w = first_answer body (request (invite body (invite_headers 1 (branch 0))) w)

  unfoldable pub bye_uri : SipResponse → String
  unfolding header contact_uri or_else or_empty
  bye_uri response = or_else (contact_uri (header "contact" response.headers)) (or_empty d.sip_uri)

  unfoldable pub bye_with : SipResponse → List (String × String) → SipRequest
  unfolding bye_uri
  bye_with response headers = record {
    method = "BYE";
    uri = bye_uri response;
    headers = headers;
    body = "";
  }

  unfoldable pub authorized_bye :
      SipResponse → List (String × String) → Option (String × String) → Result SipRequest
  unfolding bye_with bye_uri put_header
  authorized_bye response headers none = ok (bye_with response headers)
  authorized_bye response headers (some (name, value)) =
      elim (authorize value "BYE" (bye_uri response) 2) [
        | err e ↦ err e
        | ok authorization ↦ ok (bye_with response (put_header name authorization headers))
      ]

  -- The BYE, with the number after the INVITE's.
  unfoldable pub bye : Answered → Result SipRequest
  unfolding authorized_bye dialog_headers
  bye a =
      authorized_bye a.response (dialog_headers d c "BYE" a.response (a.cseq + 1) (branch 4))
        a.challenge

  unfoldable pub media_end : Streamed → Wire S × Result SipResponse → Wire S × Result (ℕ × Bool)
  media_end media (w, err e) = (w, err e)
  media_end (streamed packets cancelled) (w, ok answer) = (w, ok (packets, cancelled))
  media_end (broke e) (w, ok answer) = (w, err e)

  -- The `finally` that hangs up, whatever came of the media.
  unfoldable pub hang_up : Answered → Streamed → Wire S → Wire S × Result (ℕ × Bool)
  unfolding bye media_end request
  hang_up a media w = elim (bye a) [
    | err e ↦ (w, err e)
    | ok message ↦ media_end media (request message w)
  ]

  unfoldable pub after_ack :
      Answered → SdpAnswer → Wire S × Result (Unit {0}) → Wire S × Result (ℕ × Bool)
  unfolding hang_up
  after_ack a sdp (w, err e) = (w, err e)
  after_ack a sdp (w, ok _) =
      let (s, media) = stream sdp w.state in hang_up a media (record w { state = s })

  unfoldable pub ack_for : Answered → SipRequest
  unfolding ack_request invite_headers
  ack_for a =
      ack_request d c a.response (invite_headers a.cseq (branch (a.cseq * 2 - 2))) a.cseq (branch 3)

  -- What follows the final answer to the INVITE: the codec of the media, and how they ended.
  unfoldable pub converse : Answered → Wire S → Wire S × Talk
  unfolding after_ack ack_for send is_success with_codec
  converse a w =
      if is_success a.response
      then (elim (parse_sdp a.response.body) [
        | sip_error e ↦ (w, caught e)
        | other_error e ↦ (w, escaped e)
        | answers sdp ↦
            (let (u, ended) = after_ack a sdp (send (ack_for a) w) in
              (u, with_codec sdp.codec ended))
      ])
      else (w, caught ("INVITE failed with " & show a.response.status & " " & a.response.reason))

  unfoldable pub concluded : ℕ → ℕ → Wire S × Talk → Wire S × Result DeliveryOutcome
  unfolding failed_call finished_call
  concluded attempts duration (w, caught e) = (w, ok (failed_call d attempts duration e))
  concluded attempts duration (w, escaped e) = (w, err e)
  concluded attempts duration (w, talked codec packets cancelled) =
      (w, ok (finished_call d attempts duration codec (packets, cancelled)))

  unfoldable pub call_on : ℕ → Wire S × Result Answered → Wire S × Result DeliveryOutcome
  unfolding concluded converse failed_call
  call_on duration (w, err e) = (w, ok (failed_call d 1 duration e))
  call_on duration (w, ok a) = concluded a.attempts duration (converse a w)

  -- `page`, with the session description that offers the codecs; an error is an exception that
  -- leaves it.
  unfoldable pub page : String → ℕ → S → Wire S × Result DeliveryOutcome
  unfolding call_on negotiate
  page body duration s = call_on duration (negotiate body (record { state = s; sent = [] }))
