-- ===== src/Transport/Connection/Congestion.antt =====
-- crates/xfer-transport/src/utp_connection.rs: the round-trip estimate with its timeout, the delay
-- base line and the LEDBAT window.
use xfer_rust.Common.{
  ℕ, ◌+◌, ◌-◌, ◌*◌, ◌/◌, ◌%◌, ◌^◌, min, max, Bool, true, false, ◌||◌, Option, none, some, ltb, leb,
  ◌==◌, if◌then◌else◌,
}
use xfer_rust.Common.Int.{ℤ, pos, ◌+ℤ◌, ltb_ℤ, pos_part}
use xfer_rust.Transport.Connection.State.{
  UtpConnection, rto_min, rto_max, base_delay_window, cc_target_us,
}

-- `mean + (sample - mean) / n` in i64, whose division rounds towards zero.
unfoldable pub ewma : ℕ → ℕ → ℕ → ℕ
ewma mean sample n =
    if leb mean sample then mean + (sample - mean) / n else mean - (mean - sample) / n

unfoldable pub abs_diff : ℕ → ℕ → ℕ
abs_diff a b = if leb a b then b - a else a - b

-- The new `rtt` and `rtt_var`.
unfoldable pub rtt_estimate : ℕ → ℕ → ℕ → ℕ × ℕ
unfolding ewma abs_diff
rtt_estimate rtt rtt_var packet_rtt =
    if rtt == 0
    then (packet_rtt, packet_rtt / 2)
    else (ewma rtt packet_rtt 8, ewma rtt_var (abs_diff rtt packet_rtt) 4)

unfoldable pub update_rtt : ℕ → UtpConnection → UtpConnection
unfolding rtt_estimate
update_rtt packet_rtt c =
    if packet_rtt == 0 || ltb rto_max packet_rtt
    then c
    else let (rtt, rtt_var) = rtt_estimate c.rtt c.rtt_var packet_rtt in
      record c {
        rtt = rtt;
        rtt_var = rtt_var;
        timeout = min (max (rtt + rtt_var * 4) rto_min) rto_max;
      }

abbrev pub is_below : ℕ → Option ℕ → Bool
is_below sample none = true
is_below sample (some base) = ltb sample base

abbrev pub is_stale : ℕ → Option ℕ → Bool
is_stale now none = false
is_stale now (some set) = ltb base_delay_window (now - set)

unfoldable pub update_delay : ℕ → ℕ → UtpConnection → UtpConnection
update_delay sample_us now c =
    let sample = sample_us * 1000 in
    if is_below sample c.base_delay || is_stale now c.base_delay_set
    then record c {
      last_delay_sample = sample;
      base_delay = some sample;
      base_delay_set = some now;
    }
    else record c { last_delay_sample = sample }

-- The f64 operations of `update_window`: conversion, product, quotient, and the cast to i64.
pub record Floats : Type 1 where
  pub F64 : Type 0
  pub from_u32 : ℕ → F64
  pub mul : F64 → F64 → F64
  pub div : F64 → F64 → F64
  pub to_i64 : F64 → ℤ

unfoldable pub our_delay : UtpConnection → ℕ
our_delay c = elim c.base_delay [
  | none ↦ 0
  | some base ↦ if ltb base c.last_delay_sample then c.last_delay_sample - base else 0
]

module _ (f : Floats) where
  open f use {from_u32, mul, div, to_i64}

  unfoldable pub window_delta : UtpConnection → ℕ → ℤ
  window_delta c newly_acked =
      let off_target = cc_target_us - our_delay c / 1000 % 2 ^ 32 in
      let delay_factor = div (from_u32 off_target) (from_u32 cc_target_us) in
      let cwnd = from_u32 (max c.max_window c.packet_size) in
      to_i64 (
        div
          (mul (mul (mul (from_u32 1) delay_factor) (from_u32 c.packet_size))
            (from_u32 newly_acked))
          cwnd)

  -- With no base line yet the window grows by a packet more.
  unfoldable pub update_window : ℕ → UtpConnection → UtpConnection
  update_window newly_acked c =
      let delta = window_delta c newly_acked in
      let delta' : ℤ = elim c.base_delay [
        | none ↦ delta +ℤ pos c.packet_size
        | some base ↦ delta
      ] in
      let new_window = pos c.max_window +ℤ delta' in
      record c {
        max_window =
            pos_part
              (if ltb_ℤ new_window (pos c.packet_size) then pos c.packet_size else new_window)
            % 2 ^ 32;
      }

unfoldable pub can_send_data : UtpConnection → Bool
can_send_data c = leb ((c.cur_window + c.packet_size) % 2 ^ 32) (min c.max_window c.peer_wnd)
