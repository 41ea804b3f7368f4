-- ===== src/Stream/Tests.antt =====
-- The stream at a concrete input.
use mikrotik_openvpn_gui.Common.{ℕ, ◌-◌, true, false, Option, some, List, [], ◌∷◌, arith}
use mikrotik_openvpn_gui.Gateway.Frame.{Frame}
use mikrotik_openvpn_gui.Gateway.Queue.{new_gateway}
use mikrotik_openvpn_gui.Broker.Samples.{test_floats, test_conversions, eve_record, two_seats}
use mikrotik_openvpn_gui.Broker.Run.{BrokerCall, stream_reply, snapshot_records}
use mikrotik_openvpn_gui.Stream.{Runtime, run_stream}
use mikrotik_openvpn_gui.Stream.Ascending.{IsAscending, run_stream-IsAscending}
use mikrotik_openvpn_gui.Freshness.State.{Clock, new_state}

abbrev hundred_bytes : Frame ℕ → Option ℕ
hundred_bytes frame = some 100

abbrev seconds : Clock
seconds = record { Time = ℕ; whole = λ t. t; exact = λ t. t; elapsed = λ t s. t - s }

abbrev eve_stream : List (BrokerCall ℕ × ℕ × ℕ)
eve_stream =
    (stream_reply (record { is_record = true; dead = false; attributes = eve_record }) 5, 50, 5)
    ∷ (snapshot_records (eve_record ∷ []) 6, 60, 6)
    ∷ (snapshot_records [] 7, 70, 7)
    ∷ []

abbrev runtime : Runtime test_floats test_conversions hundred_bytes seconds
runtime = record {
  broker = two_seats;
  gateway = new_gateway 2 16 1000 500;
  state = new_state seconds "binary" "binary" true 30;
}

run_stream-IsAscending_example :
    IsAscending test_floats test_conversions hundred_bytes seconds 0
      (run_stream test_floats test_conversions hundred_bytes seconds eve_stream runtime)
unfolding new_gateway
run_stream-IsAscending_example =
    run_stream-IsAscending test_floats test_conversions hundred_bytes seconds eve_stream 0 runtime
      (omega arith)
