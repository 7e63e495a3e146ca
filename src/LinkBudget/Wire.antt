-- ===== src/LinkBudget/Wire.antt =====
-- The byte model of onboard/src/link_budget.cpp: what a payload takes on the wire.
use coatheal_flight_software.Prelude.{
  ℕ, ◌+◌, ◌-◌, ◌*◌, ◌/◌, ◌%◌, ◌^◌, ◌≤◌, ◌<◌, max, ◌≡◌, arith, ◌==◌, if◌then◌else◌,
}

abbrev pub frame_overhead : ℕ
frame_overhead = 24

abbrev pub tcp_headers : ℕ
tcp_headers = 66

abbrev pub udp_headers : ℕ
udp_headers = 42

abbrev pub min_frame : ℕ
min_frame = 60

abbrev pub link_mtu : ℕ
link_mtu = 576

abbrev pub mss : ℕ
mss = link_mtu - 52

-- `std::size_t` has 64 bits, and the result 32.
pub tcp_segment_count : ℕ → ℕ
tcp_segment_count payload = if payload == 0 then 1 else (payload + mss - 1) % 2 ^ 64 / mss % 2 ^ 32

pub tcp_bytes : ℕ → ℕ
unfolding tcp_segment_count
tcp_bytes payload =
    (tcp_segment_count payload * (tcp_headers + frame_overhead) + payload % 2 ^ 32) % 2 ^ 32

pub udp_bytes : ℕ → ℕ
udp_bytes payload =
    (max min_frame ((udp_headers + payload % 2 ^ 32) % 2 ^ 32) + frame_overhead) % 2 ^ 32

-- `TcpSegmentCount` is the least number of segments that carry the payload, and at least one; with it
-- `TcpBytes` is the payload and 90 bytes for each segment, without a wrap-around of its 32 bits, for
-- any payload below 3 GB.
pub tcp_segment_count_least :
    (payload : ℕ)
    → payload < 3_000_000_000
    → (1 ≤ tcp_segment_count payload)
      × (payload ≤ tcp_segment_count payload * mss)
      × (1 < tcp_segment_count payload → (tcp_segment_count payload - 1) * mss < payload)
      × (tcp_bytes payload ≡ tcp_segment_count payload * 90 + payload)
unfolding tcp_segment_count tcp_bytes
tcp_segment_count_least payload h = ground arith

-- Up to 18 bytes of payload a UDP frame takes the least frame of 84 bytes, and beyond it 66 bytes more
-- than the payload.
pub udp_bytes_lem :
    (payload : ℕ)
    → payload < 2 ^ 31
    → (payload ≤ 18 → udp_bytes payload ≡ 84) × (18 ≤ payload → udp_bytes payload ≡ payload + 66)
unfolding udp_bytes
udp_bytes_lem payload h = ground arith
