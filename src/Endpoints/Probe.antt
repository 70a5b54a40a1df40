-- ===== src/Endpoints/Probe.antt =====
-- EndpointMonitor of bell/monitor.py: the probes of the configured destinations. What a SIP or a
-- webhook probe returns, and what binding a socket to the sender's interface raises, are arguments.
use school_bells.Prelude.{
  ℕ, String, Bool, true, false, ◌&&◌, not, List, [], ◌∷◌, Option, none, some, if◌then◌else◌, select,
  map,
}
use school_bells.Prelude.Results.{Result, ok, err}
use school_bells.Config.{
  Protocol, multicast, sip, http, WireName, plain_rtp, poly_group_page, CodecName, pcmu, pcma, g722,
  Destination,
}
use school_bells.Endpoints.{DeliveryOutcome, EndpointRegistry, record_outcome}

-- What the probe reads of the configuration; `captured` is the codec of the stored calibration.
pub record ProbeSettings : Type 0 where
  pub wire_format : WireName
  pub calibrated : Bool
  pub captured : Option CodecName

probe_outcome : Destination → Protocol → Bool → String → String → ℕ → DeliveryOutcome
probe_outcome d protocol success status detail duration = record {
  destination = d.name;
  protocol = protocol;
  success = success;
  status = status;
  detail = detail;
  attempts = 1;
  duration = duration;
}

wire_of : ProbeSettings → Option WireName → WireName
wire_of s none = s.wire_format
wire_of s (some w) = w

is_poly_page : WireName → Bool
is_poly_page plain_rtp = false
is_poly_page poly_group_page = true

codec_is : CodecName → CodecName → Bool
codec_is pcmu pcmu = true
codec_is pcmu pcma = false
codec_is pcmu g722 = false
codec_is pcma pcmu = false
codec_is pcma pcma = true
codec_is pcma g722 = false
codec_is g722 pcmu = false
codec_is g722 pcma = false
codec_is g722 g722 = true

-- Whether a calibration is stored and is for another codec than the destination's first.
mismatched : Option CodecName → List CodecName → Bool
unfolding codec_is
mismatched none codecs = false
mismatched (some captured) [] = false
mismatched (some captured) (codec ∷ codecs) = not (codec_is codec captured)

bound : Destination → ℕ → Option String → DeliveryOutcome
unfolding probe_outcome
bound d duration none =
    probe_outcome d multicast true "configured"
      "sender interface is multicast-capable; receiver health is not observable" duration
bound d duration (some e) = probe_outcome d multicast false "unreachable" e duration

unfoldable pub check_multicast : ProbeSettings → Destination → ℕ → Option String → DeliveryOutcome
unfolding wire_of is_poly_page mismatched bound
check_multicast s d duration socket_error =
    let page = is_poly_page (wire_of s d.wire_format) in
    if page && not s.calibrated
    then probe_outcome d multicast false "not_calibrated"
        "Poly Group Page is not calibrated - follow docs/CAPTURE.md" duration
    else if page && mismatched s.captured d.codecs
    then probe_outcome d multicast false "calibration_mismatch"
        "Poly destination codec changed after capture; clear and recapture" duration
    else bound d duration socket_error

-- A probe that raises is an outcome too.
caught : Destination → ℕ → Result DeliveryOutcome → DeliveryOutcome
unfolding probe_outcome
caught d duration (ok outcome) = outcome
caught d duration (err e) = probe_outcome d d.protocol false "probe_error" e duration

module _ (s : ProbeSettings) (socket_error : Destination → Option String)
    (options : Destination → Result DeliveryOutcome)
    (webhook : Destination → Result DeliveryOutcome) where
  unfoldable pub probe : ℕ → Destination → DeliveryOutcome
  unfolding caught
  probe duration d = elim d.protocol [
    | multicast ↦ check_multicast s d duration (socket_error d)
    | sip ↦ caught d duration (options d)
    | http ↦ caught d duration (webhook d)
  ]

  recorded : String → ℕ → List DeliveryOutcome → EndpointRegistry → EndpointRegistry
  recorded now clock [] r = r
  recorded now clock (o ∷ os) r = recorded now clock os (record_outcome now clock o r)

  -- `check_once`: the outcomes, in the order of the destinations, and the registry.
  unfoldable pub check_once :
      String → ℕ → ℕ → List Destination → EndpointRegistry → List DeliveryOutcome × EndpointRegistry
  unfolding probe recorded
  check_once now clock duration destinations r =
      let outcomes = map (probe duration) (select (λ (d : Destination). d.enabled) destinations) in
      (outcomes, recorded now clock outcomes r)
