-- ===== src/Wire/Rtp.antt =====
-- PlainRTP of bell/wire/plain_rtp.py, and the receiver's reading of such packets in bell/listen.py.
pub mod Fields
pub mod Listen
use Prim.Native.Nat.{bit_or}
use school_bells.Prelude.{
  ℕ, ◌+◌, ◌%◌, ◌^◌, Bool, true, false, List, [], ◌∷◌, ◌++◌, leb, ◌==◌, if◌then◌else◌,
}
use school_bells.Prelude.Results.{Result, ok, err, ensure, ◌>>=◌, ◌>>◌}
use school_bells.Wire.{Stamp}
use school_bells.Wire.Bytes.{be16, be32}

pub record PlainRtp : Type 0 where
  pub payload_type : ℕ

unfoldable pub plain_rtp : ℕ → Result PlainRtp
plain_rtp payload_type = do
  ensure (leb payload_type 127) "RTP payload type must be between 0 and 127"
  ok (record { payload_type = payload_type })

rtp_header : PlainRtp → Stamp → Bool → List ℕ
rtp_header w stamp marker =
    128 ∷ bit_or (if marker then 128 else 0) w.payload_type ∷ be16 (stamp.seq % 2 ^ 16)
    ++ be32 (stamp.timestamp % 2 ^ 32)
    ++ be32 (stamp.ssrc % 2 ^ 32)

unfoldable pub build_packet : PlainRtp → List ℕ → Stamp → Bool → ℕ → Result (List ℕ)
unfolding rtp_header
build_packet w payload stamp marker channel = do
  ensure (channel == 0) "plain RTP cannot express a paging channel; channel must be 0"
  ok (rtp_header w stamp marker ++ payload)
