-- ===== src/Gateway/Poll/Complete.antt =====
-- A poll brings its subscriber up to the broker's state, with no event left out.
use text.Mathlib.TextPositions.{eq_refl}
use mikrotik_openvpn_gui.Common.{
  ℕ, ◌+◌, ◌<◌, ◌≤◌, ◌≡◌, ◌≢◌, ◌⊎◌, ◌↔◌, inl, inr, refl, sym, ◌∙◌, String, true, not, ◌&&◌, ◌||◌,
  Option, some, List, [], ◌∷◌, arith, length, ltb, Bool-cases,
}
use mikrotik_openvpn_gui.Common.Int.{pos}
use mikrotik_openvpn_gui.Common.Dict.{lookup, insert, lookup-insert}
use mikrotik_openvpn_gui.Gateway.Value.{Floats, dict, list, field, end}
use mikrotik_openvpn_gui.Gateway.Error.{Outcome, ok, err, Outcome-cases}
use mikrotik_openvpn_gui.Gateway.Frame.{TelemetryEvent, Frame}
use mikrotik_openvpn_gui.Gateway.Queue.Budget.{bounded_frame-sequence}
use mikrotik_openvpn_gui.Gateway.Queue.{Gateway, Entry, Subscription, bounded_frame}
use mikrotik_openvpn_gui.Gateway.Poll.{
  BrokerView, poll, poll_subscription, recover, deliver, snapshot_entry, sequences, sequence_of,
  after_cursor, sort_entries, sorted_distinct, is_complete, before_queue, is_given, maximum,
}
use mikrotik_openvpn_gui.Gateway.Poll.Sequences.{
  has, Ascending, has_complete, has-sorted_distinct, has-sort_entries, sort_entries-Ascending,
  maximum-reply, cursor-reply, Holds, Holds-reply,
}

module _ (floats : Floats) (frame_size : Frame floats.Float → Option ℕ) where
  open floats use {Float}

  -- The event of a snapshot of the broker's sessions and interfaces.
  abbrev pub snapshot_event : ℕ → BrokerView Float → TelemetryEvent Float
  snapshot_event wall broker = record {
    name = "telemetry.snapshot";
    sequence = pos broker.sequence;
    router_timestamp = pos wall;
    payload =
        dict (
          field "sessions" (list broker.sessions)
            (field "interfaces" (list broker.interfaces) end));
  }

  -- A snapshot of the broker's state, alone: the frame of its sessions and its interfaces, with its
  -- number, as the frames of events are made.
  abbrev pub IsSnapshot : ℕ → ℕ → BrokerView Float → Gateway Float → List (Entry Float) → Type 0
  IsSnapshot wall now broker g (entry ∷ []) =
      (bounded_frame floats frame_size g.frame_byte_limit (snapshot_event wall broker)
        ≡ ok (entry.frame, entry.size))
      × (entry.published_at ≡ now)
      × (sequence_of entry ≡ broker.sequence)
  IsSnapshot wall now broker g _ = ⊥

  -- The kept frames behind the cursor, which have every event number behind it, in order.
  abbrev pub IsReplay : ℕ → BrokerView Float → Gateway Float → List (Entry Float) → Type 0
  IsReplay cursor broker g result =
      ((e : Entry Float) → Holds e result ↔ (Holds e g.events × (cursor < sequence_of e)))
      × ((c : ℕ) → cursor < c → c ≤ broker.sequence → has c (sequences result) ≡ true)
      × Ascending 0 (sequences result)

  abbrev pub CatchesUp :
      String
      → ℕ
      → ℕ
      → ℕ
      → BrokerView Float
      → Gateway Float
      → Outcome (List (Entry Float)) × Gateway Float
      → Type 0
  CatchesUp identifier cursor wall now broker before (ok result, g) =
      (IsSnapshot wall now broker before result ⊎ IsReplay cursor broker before result)
      × ((s : Subscription) × (lookup identifier g.clients ≡ some s)
          × (s.last_seen_sequence ≡ broker.sequence))
  CatchesUp identifier cursor wall now broker before (err e, g) =
      (snapshot_entry floats frame_size wall now broker before ≡ err e) × (g ≡ before)

  snapshot_entry-IsSnapshot :
      (wall now : ℕ) (broker : BrokerView Float) (g : Gateway Float) (entry : Entry Float)
      → snapshot_entry floats frame_size wall now broker g ≡ ok entry
      → IsSnapshot wall now broker g (entry ∷ [])
  unfolding snapshot_entry
  snapshot_entry-IsSnapshot wall now broker g entry h =
      let event : TelemetryEvent Float = snapshot_event wall broker in
      elim (Outcome-cases (bounded_frame floats frame_size g.frame_byte_limit event)) [
        | inr (x, e) ↦ absurd (ground (arith, e))
        | inl ((frame, size), e) ↦
            let same : entry ≡ record { frame = frame; published_at = now; size = size } =
              ground (arith, e) in
            rw same (
              e,
              refl,
              bounded_frame-sequence floats frame_size g.frame_byte_limit broker.sequence event
                  frame size refl e,
            )
      ]

  -- The subscription that is written is read back.
  delivered :
      (identifier : String) (s : Subscription) (g : Gateway Float) {n : ℕ}
      → s.last_seen_sequence ≡ n
      → (s' : Subscription) × (lookup identifier (insert identifier s g.clients) ≡ some s')
        × (s'.last_seen_sequence ≡ n)
  delivered identifier s g e = (s, simp (lookup-insert, eq_refl), e)

  -- What `poll` sends is what the subscriber's cursor stands behind.
  deliver-CatchesUp :
      (identifier : String) (s : Subscription) (now : ℕ) (given : Option ℕ)
      (result : List (Entry Float)) (g : Gateway Float) (cursor wall clock : ℕ)
      (broker : BrokerView Float) (before : Gateway Float)
      → IsSnapshot wall clock broker before result ⊎ IsReplay cursor broker before result
      → (result ≡ [] → s.last_seen_sequence ≡ broker.sequence)
      → (result ≢ [] → maximum (sequences result) ≡ broker.sequence)
      → CatchesUp identifier cursor wall clock broker before
          (deliver floats frame_size identifier s now given result g)
  unfolding deliver
  deliver-CatchesUp identifier s now given [] g cursor wall clock broker before content empty
        newest =
      (content, delivered identifier _ g (empty refl))
  deliver-CatchesUp identifier s now given (e ∷ rest) g cursor wall clock broker before content
        empty newest =
      (content, delivered identifier _ g (newest (λ p. cc)))

  recover-CatchesUp :
      (identifier : String) (s : Subscription) (wall now : ℕ) (given : Option ℕ)
      (broker : BrokerView Float) (g : Gateway Float) (cursor : ℕ)
      → CatchesUp identifier cursor wall now broker g
          (recover floats frame_size identifier s wall now given broker g)
  unfolding recover
  recover-CatchesUp identifier s wall now given broker g cursor =
      elim (Outcome-cases (snapshot_entry floats frame_size wall now broker g)) [
        | inr (x, e) ↦ rw (e, recover) (e, refl)
        | inl (entry, e) ↦
            let newest = snapshot_entry-IsSnapshot wall now broker g entry e in
            rw (e, recover)
              (deliver-CatchesUp identifier s now given (entry ∷ [])
                (record g { snapshot_recoveries = g.snapshot_recoveries + 1 }) cursor wall now
                broker g (inl newest) (λ p. cc) (λ p. omega (arith, newest.2)))
      ]

  poll_subscription-CatchesUp :
      (identifier : String) (s : Subscription) (wall now : ℕ) (given : Option ℕ)
      (broker : BrokerView Float) (g : Gateway Float)
      → CatchesUp identifier s.last_seen_sequence wall now broker g
          (poll_subscription floats frame_size identifier s wall now given broker g)
  unfolding poll_subscription
  poll_subscription-CatchesUp identifier s wall now given broker g =
      let cursor = s.last_seen_sequence in
      let result = after_cursor cursor g.events in
      let recovered = recover-CatchesUp identifier s wall now given broker g cursor in
      elim (Bool-cases (
        (is_given given && not s.client_cursor_seen)
        || (ltb broker.sequence cursor || before_queue cursor (sequences g.events)))) [
          | inl stale ↦ rw stale recovered
          | inr current ↦
              let le : cursor ≤ broker.sequence = ground arith in
              elim (Bool-cases
                (is_complete cursor broker.sequence (sorted_distinct (sequences result)))) [
                  | inr gap ↦ rw (current, gap) recovered
                  | inl whole ↦
                      rw (current, whole)
                        (deliver-CatchesUp identifier s now given (sort_entries result)
                          (record g { replayed_events = g.replayed_events + length result }) cursor
                          wall now broker g
                          (inr (
                            Holds-reply cursor g.events,
                            λ c low high.
                                has-sort_entries c result
                                ∙ sym (has-sorted_distinct c (sequences result))
                                ∙ has_complete c cursor broker.sequence
                                    (sorted_distinct (sequences result)) whole low high,
                            sort_entries-Ascending result,
                          ))
                          (cursor-reply cursor broker.sequence result le whole)
                          (maximum-reply cursor broker.sequence result le whole))
                ]
        ]

  -- A poll of an active subscription sends either the frame of a snapshot of the broker's sessions and
  -- interfaces, or exactly the kept frames behind the subscription's cursor, which have every event
  -- number behind it, in ascending order; the cursor is then at the broker's newest event. It raises
  -- only the error of a snapshot, and then changes nothing.
  pub poll-CatchesUp :
      (identifier : String) (wall now : ℕ) (given : Option ℕ) (broker : BrokerView Float)
      (g : Gateway Float) (s : Subscription)
      → lookup identifier g.clients ≡ some s
      → CatchesUp identifier s.last_seen_sequence wall now broker g
          (poll floats frame_size identifier wall now given broker g)
  unfolding poll
  poll-CatchesUp identifier wall now given broker g s active =
      rw (active, poll) (poll_subscription-CatchesUp identifier s wall now given broker g)
