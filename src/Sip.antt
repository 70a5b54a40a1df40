-- ===== src/Sip.antt =====
-- SIPClient of bell/protocols/sip.py: the requests of a page and of a health check. A header
-- dictionary is the list of its entries; the tokens, the environment and the answers are arguments.
pub mod Call
pub mod Transcript
pub mod Offer
pub mod Ends
pub mod HangUp
pub mod Udp
pub mod Sdp
use Prim.Native.Char.{code}
use school_bells.Prelude.{
  ℕ, zero, suc, ◌+◌, ◌-◌, String, Bool, true, false, ◌&&◌, ◌||◌, not, List, [], ◌∷◌, ◌++◌, Option,
  none, some, leb, ltb, ◌==◌, if◌then◌else◌, any, is_some, show, str_eq, select, map, codes,
}
use school_bells.Prelude.Results.{Result, ok, err, ensure, ◌>>=◌, ◌>>◌}
use school_bells.Dates.{◌&◌}
use school_bells.Config.{Destination, SipTransport, udp, tcp, tls, CodecName}

pub record SipRequest : Type 0 where
  pub method : String
  pub uri : String
  pub headers : List (String × String)
  pub body : String

-- The names of a response's headers are in small letters.
pub record SipResponse : Type 0 where
  pub status : ℕ
  pub reason : String
  pub headers : List (String × String)
  pub body : String

-- `headers.get(name)`
unfoldable pub header : String → List (String × String) → Option String
header name [] = none
header name ((key, value) ∷ rest) = if str_eq key name then some value else header name rest

-- `headers[name] = value`
unfoldable pub put_header : String → String → List (String × String) → List (String × String)
put_header name value [] = (name, value) ∷ []
put_header name value ((key, old) ∷ rest) =
    if str_eq key name then (name, value) ∷ rest else (key, old) ∷ put_header name value rest

unfoldable pub is_space : ℕ → Bool
is_space c = (leb 9 c && leb c 13) || (leb 28 c && leb c 32) || c == 133 || c == 160

strip_left : String → String
unfolding is_space
strip_left String.[] = ""
strip_left (String.◌∷◌ c s) =
    let rest = strip_left s in if is_space (code c) then rest else String.◌∷◌ c s

unfoldable pub is_text : String → Bool
is_text String.[] = false
is_text (String.◌∷◌ c s) = true

strip_right : String → String
unfolding is_space is_text
strip_right String.[] = ""
strip_right (String.◌∷◌ c s) =
    let rest = strip_right s in
    if is_space (code c) && not (is_text rest) then "" else String.◌∷◌ c rest

first_and_rest : String → List String → List String
first_and_rest s [] = s ∷ []
first_and_rest s (t ∷ ts) = s ∷ t ∷ ts

extend_first : String → List String → List String
extend_first s [] = s ∷ []
extend_first s (t ∷ ts) = (s & t) ∷ ts

-- The pieces between commas and line ends, as `splitlines` and `split(",")` leave them.
pieces : String → List String
unfolding extend_first
pieces String.[] = "" ∷ []
pieces (String.◌∷◌ c s) =
    let rest = pieces s in
    if code c == 44 || (leb 10 (code c) && leb (code c) 13)
    then "" ∷ rest
    else extend_first (String.◌∷◌ c "") rest

reverse_onto : List String → List String → List String
reverse_onto [] acc = acc
reverse_onto (x ∷ xs) acc = reverse_onto xs (x ∷ acc)

-- `_route_set`
unfoldable pub route_set : Option String → List String
unfolding pieces strip_left strip_right is_text reverse_onto
route_set none = []
route_set (some value) =
    reverse_onto (select is_text (map (λ item. strip_left (strip_right item)) (pieces value))) []

unfoldable pub joined : List String → String
joined [] = ""
joined (r ∷ []) = r
joined (r ∷ s ∷ rs) = r & ", " & joined (s ∷ rs)

unfoldable pub fold_case : ℕ → ℕ
fold_case c = if leb 65 c && leb c 90 then c + 32 else c

-- A text without a prefix in small letters, whose case does not matter.
without : List ℕ → String → Option String
unfolding fold_case
without [] s = some s
without (p ∷ ps) String.[] = none
without (p ∷ ps) (String.◌∷◌ c s) =
    let rest = without ps s in if fold_case (code c) == p then rest else none

-- `[^>;\s]*`
uri_part : String → String
unfolding is_space
uri_part String.[] = ""
uri_part (String.◌∷◌ c s) =
    let rest = uri_part s in
    if code c == 62 || code c == 59 || is_space (code c) then "" else String.◌∷◌ c rest

starts_uri : Option String → Bool
unfolding uri_part is_text
starts_uri none = false
starts_uri (some s) = is_text (uri_part s)

-- `_contact_uri`: the first part that reads as a SIP or SIPS address, which no `;`, `>` or space ends early.
unfoldable pub search_uri : String → Option String
unfolding without starts_uri uri_part
search_uri String.[] = none
search_uri (String.◌∷◌ c s) =
    let rest = search_uri s in
    if starts_uri (without (codes "sip:") (String.◌∷◌ c s))
      || starts_uri (without (codes "sips:") (String.◌∷◌ c s))
    then some (uri_part (String.◌∷◌ c s))
    else rest

unfoldable pub contact_uri : Option String → Option String
unfolding search_uri
contact_uri none = none
contact_uri (some value) = search_uri value

unfoldable pub or_empty : Option String → String
or_empty none = ""
or_empty (some s) = s

-- `a or b` for a text that may be missing or empty
unfoldable pub or_else : Option String → String → String
or_else none b = b
or_else (some String.[]) b = b
or_else (some (String.◌∷◌ c s)) b = String.◌∷◌ c s

transport_upper : SipTransport → String
transport_upper udp = "UDP"
transport_upper tcp = "TCP"
transport_upper tls = "TLS"

transport_name : SipTransport → String
transport_name udp = "udp"
transport_name tcp = "tcp"
transport_name tls = "tls"

-- What stays the same during a call.
pub record CallTokens : Type 0 where
  pub local_ip : String
  pub call_id : String
  pub from_tag : String

unfoldable pub base_headers :
    Destination → CallTokens → String → ℕ → String → List (String × String)
unfolding or_empty or_else transport_upper transport_name
base_headers d c method cseq branch =
    let identity = or_else d.sip_username "bell" in
    (
      "Via",
      "SIP/2.0/"
          & transport_upper d.sip_transport
          & " "
          & c.local_ip
          & ";branch=z9hG4bK"
          & branch
          & ";rport",
    )
    ∷ ("Max-Forwards", "70")
    ∷ ("From", "<sip:" & identity & "@" & c.local_ip & ">;tag=" & c.from_tag)
    ∷ ("To", "<" & or_empty d.sip_uri & ">")
    ∷ ("Call-ID", c.call_id)
    ∷ ("CSeq", show cseq & " " & method)
    ∷ (
      "Contact",
      "<sip:" & identity & "@" & c.local_ip & ";transport=" & transport_name d.sip_transport & ">",
    )
    ∷ ("User-Agent", "bell-system/0.1")
    ∷ ("Allow", "INVITE, ACK, BYE, OPTIONS")
    ∷ []

with_default : Option String → String → String
with_default none value = value
with_default (some found) value = found

with_route : List String → List (String × String) → List (String × String)
unfolding put_header joined
with_route [] headers = headers
with_route (r ∷ rs) headers = put_header "Route" (joined (r ∷ rs)) headers

unfoldable pub dialog_headers :
    Destination → CallTokens → String → SipResponse → ℕ → String → List (String × String)
unfolding base_headers header put_header with_default with_route route_set or_empty
dialog_headers d c method response cseq branch =
    with_route (route_set (header "record-route" response.headers)) (
      put_header "To" (with_default (header "to" response.headers) ("<" & or_empty d.sip_uri & ">"))
        (base_headers d c method cseq branch))

-- `_ack`; a refusal is acknowledged in the transaction of its INVITE, on the same branch.
unfoldable pub ack_request :
    Destination → CallTokens → SipResponse → List (String × String) → ℕ → String → SipRequest
unfolding dialog_headers contact_uri or_else or_empty put_header header with_default
ack_request d c response invite_headers cseq branch =
    let headers = dialog_headers d c "ACK" response cseq branch in
    record {
      method = "ACK";
      uri = or_else (contact_uri (header "contact" response.headers)) (or_empty d.sip_uri);
      headers =
          if leb 300 response.status
          then put_header "Via" (with_default (header "Via" invite_headers) "") headers
          else headers;
      body = "";
    }
