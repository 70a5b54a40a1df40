-- ===== src/Sip/Transcript.antt =====
-- What a page of bell/protocols/sip.py puts on the wire, however it ends.
use school_bells.Prelude.{
  ℕ, ◌+◌, ◌≡◌, ◌∙◌, refl, ap, String, false, List, [], ◌∷◌, ◌++◌, some, if◌then◌else◌, show, leb,
  Bool-cases, inl, inr, str_eq, eq_iff,
}
use school_bells.Dates.{◌&◌}
use school_bells.Config.{Destination}
use school_bells.Sip.{
  SipRequest, SipResponse, CallTokens, header, put_header, base_headers, dialog_headers,
  ack_request, or_empty, route_set, with_route, with_default,
}

pub header-put_header :
    (key name value : String) (hs : List (String × String))
    → str_eq name key ≡ false
    → header key (put_header name value hs) ≡ header key hs
unfolding header put_header
header-put_header key name value [] other = rw (other) refl
header-put_header key name value ((k, old) ∷ rest) other = elim (Bool-cases (str_eq k name)) [
  | inl hit ↦ rw (hit, put_header, other) (rw ((eq_iff k name).0 hit, other) refl)
  | inr miss ↦
      rw (miss, put_header)
        (ap (λ o. if str_eq k key then some old else o)
          (header-put_header key name value rest other))
]

-- A request of this call, by its method and number.
pub record Is (c : CallTokens) (method : String) (cseq : ℕ) (r : SipRequest) : Type 0 where
  pub method_is : r.method ≡ method
  pub number : header "CSeq" r.headers ≡ some (show cseq & " " & method)
  pub call : header "Call-ID" r.headers ≡ some c.call_id

-- The INVITE, or the INVITE that was challenged, its ACK and the one with the authorization.
pub data Opening (c : CallTokens) : ℕ → List SipRequest → Type 0 where
  at_once : (i : SipRequest) → Is c "INVITE" 1 i → Opening c 1 (i ∷ [])
  authorized :
      (i k j : SipRequest)
      → Is c "INVITE" 1 i
      → Is c "ACK" 1 k
      → Is c "INVITE" 2 j
      → Opening c 2 (i ∷ k ∷ j ∷ [])

-- A call that was answered and acknowledged, and that was hung up.
pub record Ended (c : CallTokens) (sent : List SipRequest) : Type 0 where
  pub cseq : ℕ
  pub opening : List SipRequest
  pub opened : Opening c cseq opening
  pub ack : SipRequest
  pub acknowledged : Is c "ACK" cseq ack
  pub bye : SipRequest
  pub hung_up : Is c "BYE" (cseq + 1) bye
  pub all : sent ≡ opening ++ (ack ∷ bye ∷ [])

pub data Transcript (c : CallTokens) : List SipRequest → Type 0 where
  refused : {n : ℕ} {l : List SipRequest} → Opening c n l → Transcript c l
  given_up : (i k : SipRequest) → Is c "INVITE" 1 i → Is c "ACK" 1 k → Transcript c (i ∷ k ∷ [])
  cut_off :
      {n : ℕ} {l : List SipRequest}
      → Opening c n l
      → (k : SipRequest) → Is c "ACK" n k
      → Transcript c (l ++ k ∷ [])
  complete : {l : List SipRequest} → Ended c l → Transcript c l

module _ (d : Destination) (c : CallTokens) where
  pub base_headers-Is :
      (method : String) (cseq : ℕ) (token : String) (headers : List (String × String))
      → header "CSeq" headers ≡ header "CSeq" (base_headers d c method cseq token)
      → header "Call-ID" headers ≡ header "Call-ID" (base_headers d c method cseq token)
      → (uri body : String)
      → Is c method cseq (record { method = method; uri = uri; headers = headers; body = body })
  unfolding base_headers header
  base_headers-Is method cseq token headers number call uri body = record {
    method_is = refl;
    number = number;
    call = call;
  }

  with_route-header :
      (key : String) (rs : List String) (hs : List (String × String))
      → str_eq "Route" key ≡ false
      → header key (with_route rs hs) ≡ header key hs
  unfolding with_route
  with_route-header key [] hs other = refl
  with_route-header key (r ∷ rs) hs other = header-put_header key "Route" _ hs other

  pub dialog_headers-same :
      (key method : String) (response : SipResponse) (cseq : ℕ) (token : String)
      → str_eq "Route" key ≡ false
      → str_eq "To" key ≡ false
      → header key (dialog_headers d c method response cseq token)
        ≡ header key (base_headers d c method cseq token)
  unfolding dialog_headers
  dialog_headers-same key method response cseq token not_route not_to =
      let to = with_default (header "to" response.headers) ("<" & or_empty d.sip_uri & ">") in
      let base = base_headers d c method cseq token in
      with_route-header key (route_set (header "record-route" response.headers))
        (put_header "To" to base) not_route
      ∙ header-put_header key "To" to base not_to

  pub ack_request-Is :
      (response : SipResponse) (invited : List (String × String)) (cseq : ℕ) (token : String)
      → Is c "ACK" cseq (ack_request d c response invited cseq token)
  unfolding ack_request
  ack_request-Is response invited cseq token =
      base_headers-Is "ACK" cseq token _ (same "CSeq" refl refl refl)
        (same "Call-ID" refl refl refl) _ _
    where
      same :
          (key : String)
          → str_eq "Route" key ≡ false
          → str_eq "To" key ≡ false
          → str_eq "Via" key ≡ false
          → header key (ack_request d c response invited cseq token).headers
            ≡ header key (base_headers d c "ACK" cseq token)
      same key not_route not_to not_via = elim (Bool-cases (leb 300 response.status)) [
        | inl refusal ↦ rw (refusal) (
            header-put_header key "Via" (with_default (header "Via" invited) "")
              (dialog_headers d c "ACK" response cseq token) not_via
            ∙ dialog_headers-same key "ACK" response cseq token not_route not_to)
        | inr final ↦
            rw (final) (dialog_headers-same key "ACK" response cseq token not_route not_to)
      ]
