-- ===== src/Stream/Ascending.antt =====
-- The numbers of the frames in the replay buffer.
use mikrotik_openvpn_gui.Common.{
  ℕ, ◌+◌, ◌-◌, ◌<◌, ◌≤◌, ◌≡◌, inl, inr, Option, List, [], ◌∷◌, ◌++◌, arith, length, Bool-cases, leb,
  ltb, ◌||◌,
}
use mikrotik_openvpn_gui.Gateway.Value.{Floats}
use mikrotik_openvpn_gui.Gateway.Error.{Outcome-cases}
use mikrotik_openvpn_gui.Gateway.Frame.{TelemetryEvent, Frame}
use mikrotik_openvpn_gui.Gateway.Queue.Budget.{bounded_frame-sequence}
use mikrotik_openvpn_gui.Gateway.Queue.{
  Gateway, Entry, evict, append_entry, bounded_frame, publish_loop, publish,
}
use mikrotik_openvpn_gui.Broker.Text.{Conversions}
use mikrotik_openvpn_gui.Broker.Numbered.{Numbered, Numbered-le}
use mikrotik_openvpn_gui.Broker.Run.{BrokerCall, handle, handle-Continues}
use mikrotik_openvpn_gui.Stream.{stamped, Runtime, publish_events, session_events, run_stream}
use mikrotik_openvpn_gui.Freshness.State.{Clock}

module _ {F : Type 0} where
  -- The numbers of the frames go up, from above `low` to `high` at most.
  abbrev pub Ascends : ℕ → List (Entry F) → ℕ → Type 0
  Ascends low [] high = low ≤ high
  Ascends low (e ∷ entries) high = (low < e.frame.sequence) × Ascends e.frame.sequence entries high

  Ascends-weaken :
      (low lower : ℕ) (entries : List (Entry F)) (high higher : ℕ)
      → lower ≤ low
      → high ≤ higher
      → Ascends low entries high
      → Ascends lower entries higher
  Ascends-weaken low lower [] high higher h k a = omega (arith, h, k, a)
  Ascends-weaken low lower (e ∷ entries) high higher h k a = (
    omega (arith, h, a.0),
    Ascends-weaken e.frame.sequence e.frame.sequence entries high higher (omega arith) k a.1,
  )

  Ascends-snoc :
      (low : ℕ) (entries : List (Entry F)) (e : Entry F) (high : ℕ)
      → Ascends low entries high
      → e.frame.sequence ≡ high + 1
      → Ascends low (entries ++ e ∷ []) (high + 1)
  Ascends-snoc low [] e high a h = (omega (arith, a, h), omega (arith, h))
  Ascends-snoc low (x ∷ entries) e high a h =
      (a.0, Ascends-snoc x.frame.sequence entries e high a.1 h)

  evict-Ascends :
      (max_replay max_bytes size : ℕ) (events : List (Entry F)) (retained low high : ℕ)
      → Ascends low events high
      → Ascends low (evict max_replay max_bytes size events retained).0 high
  unfolding evict
  evict-Ascends max_replay max_bytes size [] retained low high a = a
  evict-Ascends max_replay max_bytes size (e ∷ events) retained low high a =
      elim (Bool-cases (leb max_replay (length (e ∷ events)) || ltb max_bytes (retained + size))) [
        | inr room ↦ rw room a
        | inl full ↦ rw full (
            evict-Ascends max_replay max_bytes size events (retained - e.size) low high (
              Ascends-weaken e.frame.sequence low events high high (omega (arith, a.0))
                (omega arith) a.1))
      ]

module _ (floats : Floats) (frame_size : Frame floats.Float → Option ℕ) where
  open floats use {Float}

  publish_loop-Ascends :
      (events : List (TelemetryEvent Float)) (now count low first final : ℕ) (g : Gateway Float)
      → Numbered first events final
      → Ascends low g.events first
      → Ascends low (publish_loop floats frame_size (stamped now events) count g).1.events final
  unfolding publish_loop append_entry
  publish_loop-Ascends [] now count low first final g n a = rw n at a
  publish_loop-Ascends (event ∷ events) now count low first final g n a =
      let stays =
        Ascends-weaken low low g.events first final (omega arith)
          (Numbered-le first final (event ∷ events) n) a in
      elim (Outcome-cases (bounded_frame floats frame_size g.frame_byte_limit event)) [
        | inr (x, e) ↦ rw (e, publish_loop) stays
        | inl ((frame, size), e) ↦ elim (Bool-cases (ltb g.max_replay_bytes size)) [
          | inl large ↦ rw (e, publish_loop, large) stays
          | inr fits ↦
              let entry : Entry Float = record { frame = frame; published_at = now; size = size } in
              rw (e, publish_loop, fits)
                (publish_loop-Ascends events now (count + 1) low (first + 1) final
                  (append_entry entry g) n.1
                  (Ascends-snoc low _ entry first
                    (evict-Ascends g.max_replay g.max_replay_bytes size g.events
                      g.retained_frame_bytes low first a)
                    (bounded_frame-sequence floats frame_size g.frame_byte_limit (first + 1) event
                      frame size n.0 e)))
        ]
      ]

  publish-Ascends :
      (events : List (TelemetryEvent Float)) (now low first final : ℕ) (g : Gateway Float)
      → Numbered first events final
      → Ascends low g.events first
      → Ascends low (publish floats frame_size (stamped now events) g).1.events final
  unfolding publish
  publish-Ascends events now low first final g n a =
      publish_loop-Ascends events now 0 low first final g n a

module _ (floats : Floats) (conversions : Conversions floats.Float)
    (frame_size : Frame floats.Float → Option ℕ) (clock : Clock) where
  open floats use {Float}

  -- The frames of the replay buffer have ascending numbers above `low`, none above the broker's.
  abbrev pub IsAscending : ℕ → Runtime floats conversions frame_size clock → Type 0
  IsAscending low r = Ascends low r.gateway.events r.broker.sequence

  publish_events-IsAscending :
      (events : List (TelemetryEvent Float)) (now : ℕ) (at : clock.Time) (low : ℕ)
      (r : Runtime floats conversions frame_size clock)
      → IsAscending low r
      → Ascends low
          (publish floats frame_size (stamped now events) r.gateway).1.events
          r.broker.sequence
      → IsAscending low (publish_events floats conversions frame_size clock events now at r).1
  unfolding publish_events
  publish_events-IsAscending [] now at low r same a = same
  publish_events-IsAscending (e ∷ events) now at low r same a =
      let result = publish floats frame_size (stamped now (e ∷ events)) r.gateway in
      elim (Outcome-cases result.0) [
        | inr (x, d) ↦ rw (d, publish_events) a
        | inl (n, d) ↦ elim (Bool-cases (ltb 0 (session_events (e ∷ events)))) [
          | inl some_events ↦ rw (d, publish_events, some_events) a
          | inr none_there ↦ rw (d, publish_events, none_there) a
        ]
      ]

  -- Over every run of replies and snapshots, batches that the gateway refuses half-way included, the
  -- frames of the replay buffer carry numbers that go up without a repeat, none above the broker's.
  pub run_stream-IsAscending :
      (calls : List (BrokerCall Float × ℕ × clock.Time)) (low : ℕ)
      (r : Runtime floats conversions frame_size clock)
      → IsAscending low r
      → IsAscending low (run_stream floats conversions frame_size clock calls r)
  unfolding run_stream
  run_stream-IsAscending [] low r a = a
  run_stream-IsAscending ((call, now, at) ∷ calls) low r a =
      let (events, b) = handle floats conversions call r.broker in
      let next : Runtime floats conversions frame_size clock = record r { broker = b } in
      let numbered = (handle-Continues floats conversions call r.broker).0 in
      run_stream-IsAscending calls low
        (publish_events floats conversions frame_size clock events now at next).1
        (publish_events-IsAscending events now at low next
          (Ascends-weaken low low r.gateway.events r.broker.sequence b.sequence (omega arith)
            (Numbered-le r.broker.sequence b.sequence events numbered) a)
          (publish-Ascends floats frame_size events now low r.broker.sequence b.sequence r.gateway
            numbered a))
