-- ===== src/Tests/Calls.antt =====
-- Two calls of a SIP phone, one with an answer that cannot be used; an exchange over UDP.
use school_bells.Prelude.{ℕ, ◌+◌, ◌≤◌, ◌≡◌, refl, String, true, List, [], ◌∷◌, Option, none, some}
use school_bells.Prelude.Results.{Result, ok, err}
use school_bells.Config.{Destination, sip, pcmu}
use school_bells.Sip.{SipRequest, SipResponse, CallTokens}
use school_bells.Endpoints.{DeliveryOutcome}
use school_bells.Sip.Call.{
  Parsed, answers, SdpAnswer, Streamed, broke, Wire, Answered, page, negotiate, send, ack_for, bye,
  is_success,
}
use school_bells.Sip.Transcript.{Transcript, Ended}
use school_bells.Sip.Ends.{page-Transcript}
use school_bells.Sip.HangUp.{page_hangs_up}
use school_bells.Sip.Udp.{Arrival, Answers, udp_request, udp_request-Answers}
use school_bells.Sip.Sdp.{parse_sdp}
use school_bells.Sip.Sdp.Answer.{Usable, parse_sdp-Usable}
use school_bells.Tests.{strobe}

abbrev phone : Destination
phone = record strobe { name = "phone"; protocol = sip; sip_uri = some "sip:100@phone.example" }

abbrev tokens : CallTokens
tokens = record { local_ip = "10.0.0.2"; call_id = "c1@10.0.0.2"; from_tag = "f1" }

abbrev accepted : SipResponse
accepted = record {
  status = 200;
  reason = "OK";
  headers = ("to", "<sip:100@phone.example>;tag=t1") ∷ [];
  body = "v=0";
}

abbrev accepts : SipRequest → Unit {0} → Unit {0} × Result SipResponse
accepts r s = (s, ok accepted)

abbrev emits : SipRequest → Unit {0} → Unit {0} × Result (Unit {0})
emits r s = (s, ok tt)

-- The network goes away while the media play.
abbrev breaks : SdpAnswer → Unit {0} → Unit {0} × Streamed
breaks answer s = (s, broke "Network is unreachable")

abbrev no_environment : String → Option String
no_environment name = none

abbrev branches : ℕ → String
branches n = "b"

abbrev no_authorization : String → String → String → ℕ → Result String
no_authorization challenge method uri count = err "no supported SIP Digest challenge was offered"

abbrev media : SdpAnswer
media = record { address = "10.0.0.9"; port = 4000; codec = pcmu; payload_type = 0 }

abbrev reads : String → Parsed
reads body = answers media

abbrev answer : Answered
answer = record { response = accepted; cseq = 1; attempts = 1; challenge = none }

abbrev invited : (String → Parsed) → Wire (Unit {0})
invited parse =
    (negotiate accepts emits breaks no_environment branches no_authorization parse phone tokens
      "v=0" (record { state = tt; sent = [] })).0

negotiated :
    (parse : String → Parsed)
    → negotiate accepts emits breaks no_environment branches no_authorization parse phone tokens
        "v=0"
        (record { state = tt; sent = [] })
      ≡ (invited parse, ok answer)
unfolding negotiate
negotiated parse = refl

page-Transcript_example :
    Transcript tokens
      (page accepts emits breaks no_environment branches no_authorization reads phone tokens "v=0" 9
        tt).0.sent
    × ((outcome : DeliveryOutcome)
        → (page accepts emits breaks no_environment branches no_authorization reads phone tokens
            "v=0" 9 tt).1
          ≡ ok outcome
        → outcome.success ≡ true
        → Ended tokens
            (page accepts emits breaks no_environment branches no_authorization reads phone tokens
              "v=0" 9 tt).0.sent)
page-Transcript_example =
    page-Transcript accepts emits breaks no_environment branches no_authorization reads phone tokens
      "v=0" 9 tt

abbrev acked : Wire (Unit {0})
acked =
    (send accepts emits breaks no_environment branches no_authorization reads phone tokens
      (ack_for accepts emits breaks no_environment branches no_authorization reads phone tokens
        answer)
      (invited reads)).0

ack_goes_out :
    send accepts emits breaks no_environment branches no_authorization reads phone tokens
      (ack_for accepts emits breaks no_environment branches no_authorization reads phone tokens
        answer)
      (invited reads)
    ≡ (acked, ok tt)
unfolding send
ack_goes_out = refl

is_accepted : is_success accepted ≡ true
unfolding is_success
is_accepted = refl

-- The BYE, if there is one.
abbrev from_ok : Result SipRequest → SipRequest
from_ok (ok r) = r
from_ok (err e) = record { method = ""; uri = ""; headers = []; body = "" }

bye_made :
    bye accepts emits breaks no_environment branches no_authorization reads phone tokens answer
    ≡ ok (
        from_ok (
          bye accepts emits breaks no_environment branches no_authorization reads phone tokens
            answer))
unfolding bye
bye_made = refl

page_hangs_up_example :
    Ended tokens
      (page accepts emits breaks no_environment branches no_authorization reads phone tokens "v=0" 9
        tt).0.sent
page_hangs_up_example =
    page_hangs_up accepts emits breaks no_environment branches no_authorization reads phone tokens
      "v=0" 9 tt answer (invited reads) acked media
      (from_ok (
        bye accepts emits breaks no_environment branches no_authorization reads phone tokens
          answer))
      (negotiated reads) is_accepted refl ack_goes_out bye_made

abbrev description : String
description =
    "v=0\r\no=- 1 1 IN IP4 10.0.0.9\r\nc=IN IP4 10.0.0.9\r\nm=audio 4000 RTP/AVP 8 0\r\na=rtpmap:0 PCMU/8000\r\n"

description_reads : parse_sdp (pcmu ∷ []) description ≡ ok media
unfolding parse_sdp
description_reads = refl

parse_sdp-Usable_example : Usable (pcmu ∷ []) description media
parse_sdp-Usable_example = parse_sdp-Usable (pcmu ∷ []) description media description_reads

abbrev options : SipRequest
options = record {
  method = "OPTIONS";
  uri = "sip:100@phone.example";
  headers = ("Call-ID", "c1") ∷ ("CSeq", "1 OPTIONS") ∷ [];
  body = "";
}

abbrev pong : SipResponse
pong = record {
  status = 200;
  reason = "OK";
  headers = ("call-id", "c1") ∷ ("cseq", "1 OPTIONS") ∷ [];
  body = "";
}

-- Nothing at first, then the answer.
abbrev arrivals : List Arrival
arrivals =
    record { clock = 10; datagram = none; timed_out = 500010; resent = 500020 }
    ∷ record { clock = 600000; datagram = some (ok pong); timed_out = 0; resent = 0 }
    ∷ []

udp_request-Answers_example :
    ((udp_request options 2 4000000 0 5 arrivals).0 ≤ 2 + 1)
    × ((response : SipResponse)
        → (udp_request options 2 4000000 0 5 arrivals).1 ≡ ok response
        → Answers options response)
udp_request-Answers_example = udp_request-Answers options 2 4000000 0 5 arrivals
