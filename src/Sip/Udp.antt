-- ===== src/Sip/Udp.antt =====
-- SIPTransport of bell/protocols/sip.py: the exchange over UDP with its repeated sends, and the tries
-- of `request` over the targets. Times are microseconds; every reading of the clock is an argument.
use school_bells.Prelude.{
  ℕ, zero, suc, ◌+◌, ◌*◌, ◌≤◌, ◌≡◌, ◌∙◌, sym, ap, eq_iff, String, Bool, true, false, ◌&&◌, List, [],
  ◌∷◌, ◌++◌, Option, none, some, leb, ltb, if◌then◌else◌, Bool-cases, Option-cases, inl, inr, arith,
  str_eq, leb→le,
}
use Prim.Native.Nat.{min}
use mathlib.Core.Path.{subst}
use school_bells.Prelude.Results.{Result, ok, err, ok-injective, not-ok-err, Result-cases}
use school_bells.Dates.{◌&◌, second}
use school_bells.Sip.{SipRequest, SipResponse, header}

expected : Option String → Option String → Bool
expected none found = true
expected (some value) none = false
expected (some value) (some found) = str_eq found value

-- `_matches_transaction`
unfoldable pub matches_transaction : SipResponse → SipRequest → Bool
unfolding header expected
matches_transaction response message =
    expected (header "Call-ID" message.headers) (header "call-id" response.headers)
    && expected (header "CSeq" message.headers) (header "cseq" response.headers)

-- One turn of the loop: the clock at its head, what `recvfrom` brings (a datagram, as
-- `parse_sip_response` reads it, or none after the timeout), and the clock at the later readings.
pub record Arrival : Type 0 where
  pub clock : ℕ
  pub datagram : Option (Result SipResponse)
  pub timed_out : ℕ
  pub resent : ℕ

-- `sends`, `interval` and `next_send`.
pub record Resend : Type 0 where
  pub sends : ℕ
  pub interval : ℕ
  pub next_send : ℕ

unfoldable pub next_time :
    (max_sends : ℕ) → (deadline : ℕ) → (sends : ℕ) → (now : ℕ) → (interval : ℕ) → ℕ
next_time max_sends deadline sends now interval =
    if ltb sends max_sends then now + interval else deadline

-- After a timeout of `recvfrom`.
unfoldable pub resend : ℕ → ℕ → Arrival → Resend → Resend
unfolding next_time
resend max_sends deadline a r =
    if leb r.next_send a.timed_out && ltb r.sends max_sends
    then record {
      sends = r.sends + 1;
      interval = min (r.interval * 2) (4 * second);
      next_send =
          next_time max_sends deadline (r.sends + 1) a.resent (min (r.interval * 2) (4 * second));
    }
    else r

-- The loop, with the sends that it made; it goes on for as long as the deadline lets it, and the
-- turns are those of its run.
unfoldable pub receive : SipRequest → ℕ → ℕ → List Arrival → Resend → ℕ × Result SipResponse
unfolding resend matches_transaction
receive message max_sends deadline [] r = (r.sends, err "SIP UDP transaction timed out")
receive message max_sends deadline (a ∷ later) r =
    if leb deadline a.clock
    then (r.sends, err "SIP UDP transaction timed out")
    else (elim a.datagram [
      | none ↦ receive message max_sends deadline later (resend max_sends deadline a r)
      | some read ↦ elim read [
        | err e ↦ (r.sends, err e)
        | ok response ↦ elim (matches_transaction response message && leb 200 response.status) [
          | true ↦ (r.sends, ok response)
          | false ↦ receive message max_sends deadline later r
        ]
      ]
    ])

-- `_udp_request`, that starts at `now` and reads the clock again after the first send.
unfoldable pub udp_request :
    SipRequest → (retries timeout now sent : ℕ) → List Arrival → ℕ × Result SipResponse
unfolding receive next_time
udp_request message retries timeout now sent arrivals =
    receive message (retries + 1) (now + timeout) arrivals (record {
      sends = 1;
      interval = 500000;
      next_send = next_time (retries + 1) (now + timeout) 1 sent 500000;
    })

-- The tries of `request` over the targets: one for each over UDP, and later many later there are retries
-- and one more over a stream, each later it turned out.
unfoldable pub try_target :
    ℕ → List (Result SipResponse) → List String → Option SipResponse × List String
try_target zero outcomes errors = (none, errors)
try_target (suc n) [] errors = (none, errors)
try_target (suc n) (ok response ∷ outcomes) errors = (some response, errors)
try_target (suc n) (err e ∷ outcomes) errors = try_target n outcomes (errors ++ e ∷ [])

unfoldable pub joined_errors : List String → String
joined_errors [] = ""
joined_errors (e ∷ []) = e
joined_errors (e ∷ f ∷ es) = e & "; " & joined_errors (f ∷ es)

unfoldable pub try_targets : ℕ → List (List (Result SipResponse)) → List String → Result SipResponse
unfolding try_target joined_errors
try_targets attempts [] errors = err ("all SIP targets failed: " & joined_errors errors)
try_targets attempts (target ∷ targets) errors =
    let (answer, more) = try_target attempts target errors in
    elim answer [ some response ↦ ok response | none ↦ try_targets attempts targets more ]

unfoldable pub request_targets :
    (is_udp : Bool) → (retries : ℕ) → List (List (Result SipResponse)) → Result SipResponse
unfolding try_targets
request_targets is_udp retries targets = try_targets (if is_udp then 1 else retries + 1) targets []

both : (a b : Bool) → (a && b) ≡ true → (a ≡ true) × (b ≡ true)
both a b h = ground arith

-- The answer to a message: a final response that carries the Call-ID and the CSeq of the message,
-- where the message has them.
pub record Answers (message : SipRequest) (response : SipResponse) : Type 0 where
  pub final : 200 ≤ response.status
  pub call :
      (value : String)
      → header "Call-ID" message.headers ≡ some value
      → header "call-id" response.headers ≡ some value
  pub sequence :
      (value : String)
      → header "CSeq" message.headers ≡ some value
      → header "cseq" response.headers ≡ some value

expected-same :
    (wanted found : Option String) (value : String)
    → expected wanted found ≡ true
    → wanted ≡ some value
    → found ≡ some value
unfolding expected
expected-same none found value h same = absurd cc
expected-same (some wanted) none value h same = absurd cc
expected-same (some wanted) (some found) value h same = ap some ((eq_iff found wanted).0 h) ∙ same

matches-Answers :
    (message : SipRequest) (response : SipResponse)
    → matches_transaction response message ≡ true
    → 200 ≤ response.status
    → Answers message response
unfolding matches_transaction
matches-Answers message response h final =
    let (call, sequence) = both _ _ h in
    record {
      final = final;
      call = λ value. expected-same _ _ value call;
      sequence = λ value. expected-same _ _ value sequence;
    }

resend-few :
    (max_sends deadline : ℕ) (a : Arrival) (r : Resend)
    → r.sends ≤ max_sends
    → (resend max_sends deadline a r).sends ≤ max_sends
unfolding resend
resend-few max_sends deadline a r few =
    elim (Bool-cases (leb r.next_send a.timed_out && ltb r.sends max_sends)) [
      | inl due ↦ rw (due, resend) (ground arith)
      | inr early ↦ rw (early, resend) few
    ]

receive-Answers :
    (message : SipRequest) (max_sends deadline : ℕ) (later : List Arrival) (r : Resend)
    → r.sends ≤ max_sends
    → ((receive message max_sends deadline later r).0 ≤ max_sends)
      × ((response : SipResponse)
          → (receive message max_sends deadline later r).1 ≡ ok response
          → Answers message response)
unfolding receive
receive-Answers message max_sends deadline [] r few =
    (few, (λ response h. absurd (not-ok-err (sym h))))
receive-Answers message max_sends deadline (a ∷ later) r few =
    elim (Bool-cases (leb deadline a.clock)) [
      | inl late ↦ rw (late, receive) (few, (λ response h. absurd (not-ok-err (sym h))))
      | inr early ↦ elim (Option-cases a.datagram) [
        | inl nothing ↦
            rw (early, nothing, receive)
              (receive-Answers message max_sends deadline later (resend max_sends deadline a r)
                (resend-few max_sends deadline a r few))
        | inr (read, got) ↦ elim (Result-cases read) [
          | inl (e, malformed) ↦
              rw (early, got, malformed, receive) (few, (λ response h. absurd (not-ok-err (sym h))))
          | inr (response, parsed) ↦
              elim (Bool-cases (matches_transaction response message && leb 200 response.status)) [
                | inr other ↦
                    rw (early, got, parsed, other, receive)
                      (receive-Answers message max_sends deadline later r few)
                | inl answers ↦
                    let (matched, final) =
                      both (matches_transaction response message) (leb 200 response.status)
                        answers in
                    rw (early, got, parsed, answers, receive)
                      (
                        few,
                        (λ found h.
                            subst (Answers message) (ok-injective h)
                              (matches-Answers message response matched (leb→le _ _ final))),
                      )
              ]
        ]
      ]
    ]

-- Over UDP a message is sent as often as there are retries and one more at most, whatever arrives
-- and whenever; what the exchange returns is a final response (a status of 200 or more) that has
-- the Call-ID and the CSeq of the message, each where the message has it.
pub udp_request-Answers :
    (message : SipRequest) (retries timeout now sent : ℕ) (arrivals : List Arrival)
    → ((udp_request message retries timeout now sent arrivals).0 ≤ retries + 1)
      × ((response : SipResponse)
          → (udp_request message retries timeout now sent arrivals).1 ≡ ok response
          → Answers message response)
unfolding udp_request
udp_request-Answers message retries timeout now sent arrivals =
    receive-Answers message (retries + 1) (now + timeout) arrivals _ (omega arith)
