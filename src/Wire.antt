-- ===== src/Wire.antt =====
-- bell/wire/: the packets. Bytes are numbers, a packet is the list of its bytes; `struct.pack` in
-- network order is `be16` and `be32`, and a mask of w ones is the remainder by 2 ^ w.
pub mod Bytes
pub mod Rtp
pub mod Poly
use school_bells.Prelude.{ℕ, suc, ◌+◌, ◌%◌, ◌^◌, zero}

-- StreamState of bell/wire/base.py.
pub record StreamState : Type 0 where
  pub seq : ℕ
  pub timestamp : ℕ
  pub ssrc : ℕ
  pub timestamp_step : ℕ

-- `__post_init__`
unfoldable pub stream_state : ℕ → ℕ → ℕ → ℕ → StreamState
stream_state seq timestamp ssrc step = record {
  seq = seq % 2 ^ 16;
  timestamp = timestamp % 2 ^ 32;
  ssrc = ssrc % 2 ^ 32;
  timestamp_step = step;
}

pub record Stamp : Type 0 where
  pub seq : ℕ
  pub timestamp : ℕ
  pub ssrc : ℕ

-- `next`: the current values, and the state that follows.
unfoldable pub next : StreamState → Stamp × StreamState
next s = (
  record { seq = s.seq; timestamp = s.timestamp; ssrc = s.ssrc },
  record s { seq = (s.seq + 1) % 2 ^ 16; timestamp = (s.timestamp + s.timestamp_step) % 2 ^ 32 },
)
