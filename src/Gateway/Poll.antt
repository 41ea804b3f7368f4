-- ===== src/Gateway/Poll.antt =====
-- `poll` of telemetry_gateway.py. The broker is what `recovery_snapshot` shows of it: its sequence,
-- its sessions and its interfaces.
pub mod Sequences
pub mod Complete
use mikrotik_openvpn_gui.Common.{
  ℕ, zero, suc, ◌+◌, ◌-◌, String, Bool, true, false, not, ◌&&◌, ◌||◌, Option, none, some, List, [],
  ◌∷◌, ◌++◌, ltb, leb, ◌==◌, if◌then◌else◌, length, drop, max, min,
}
use mikrotik_openvpn_gui.Common.Int.{pos}
use mikrotik_openvpn_gui.Common.Dict.{lookup, insert}
use mikrotik_openvpn_gui.Gateway.Value.{Floats, Values, dict, list, end, field}
use mikrotik_openvpn_gui.Gateway.Error.{Outcome, ok, err, not_active}
use mikrotik_openvpn_gui.Gateway.Frame.{TelemetryEvent, Frame}
use mikrotik_openvpn_gui.Gateway.Queue.{Gateway, Entry, Subscription, bounded_frame}

pub record BrokerView (F : Type 0) : Type 0 where
  pub sequence : ℕ
  pub sessions : Values F
  pub interfaces : Values F

module _ {F : Type 0} where
  abbrev pub sequence_of : Entry F → ℕ
  sequence_of e = e.frame.sequence

  -- `[item for item in frames if item[0]["sequence"] > cursor]`
  abbrev pub after_cursor : ℕ → List (Entry F) → List (Entry F)
  after_cursor cursor [] = []
  after_cursor cursor (e ∷ events) =
      if ltb cursor (sequence_of e)
      then e ∷ after_cursor cursor events
      else after_cursor cursor events

  abbrev pub sequences : List (Entry F) → List ℕ
  sequences [] = []
  sequences (e ∷ events) = sequence_of e ∷ sequences events

  -- A stable sort by sequence.
  abbrev pub insert_entry : Entry F → List (Entry F) → List (Entry F)
  insert_entry e [] = e ∷ []
  insert_entry e (x ∷ xs) =
      if leb (sequence_of e) (sequence_of x) then e ∷ x ∷ xs else x ∷ insert_entry e xs

  abbrev pub sort_entries : List (Entry F) → List (Entry F)
  sort_entries [] = []
  sort_entries (e ∷ events) = insert_entry e (sort_entries events)

-- `sorted({…})`: the distinct numbers in ascending order
abbrev pub insert_distinct : ℕ → List ℕ → List ℕ
insert_distinct n [] = n ∷ []
insert_distinct n (m ∷ ms) =
    if ltb n m then n ∷ m ∷ ms else if n == m then m ∷ ms else m ∷ insert_distinct n ms

abbrev pub sorted_distinct : List ℕ → List ℕ
sorted_distinct [] = []
sorted_distinct (n ∷ ns) = insert_distinct n (sorted_distinct ns)

-- `min(…)` and `max(…)` of a list that is not empty
abbrev pub minimum : ℕ → List ℕ → ℕ
minimum n [] = n
minimum n (m ∷ ms) = min n (minimum m ms)

abbrev pub maximum : List ℕ → ℕ
maximum [] = 0
maximum (n ∷ ns) = max n (maximum ns)

abbrev pub last_or : ℕ → List ℕ → ℕ
last_or d [] = d
last_or d (n ∷ ns) = last_or n ns

-- `all(following == previous + 1 for previous, following in zip(available, available[1:]))`
abbrev pub consecutive : List ℕ → Bool
consecutive [] = true
consecutive (n ∷ []) = true
consecutive (n ∷ m ∷ ms) = m == n + 1 && consecutive (m ∷ ms)

abbrev pub is_complete : ℕ → ℕ → List ℕ → Bool
is_complete cursor newest [] = newest - cursor == 0
is_complete cursor newest (n ∷ ns) =
    length (n ∷ ns) == newest - cursor
    && (n == cursor + 1 && (last_or n ns == newest && consecutive (n ∷ ns)))

-- `queued_frames and cursor < min(…) - 1`, over the integers
abbrev pub before_queue : ℕ → List ℕ → Bool
before_queue cursor [] = false
before_queue cursor (n ∷ ns) = ltb (cursor + 1) (minimum n ns)

abbrev pub is_given : Option ℕ → Bool
is_given none = false
is_given (some _) = true

-- `deque(maxlen=512)`
abbrev pub kept_ages : ℕ
kept_ages = 512

abbrev pub keep_last : List ℕ → List ℕ
keep_last ages = drop (length ages - kept_ages) ages

module _ (floats : Floats) (frame_size : Frame floats.Float → Option ℕ) where
  open floats use {Float}

  -- `_snapshot_frame_entry`
  pub snapshot_entry : ℕ → ℕ → BrokerView Float → Gateway Float → Outcome (Entry Float)
  snapshot_entry wall now broker g =
      elim (bounded_frame floats frame_size g.frame_byte_limit (record {
        name = "telemetry.snapshot";
        sequence = pos broker.sequence;
        router_timestamp = pos wall;
        payload = dict (
            field "sessions" (list broker.sessions)
              (field "interfaces" (list broker.interfaces) end));
      })) [
        | err e ↦ err e
        | ok (frame, size) ↦ ok (record { frame = frame; published_at = now; size = size })
      ]

  ages_of : ℕ → List (Entry Float) → List ℕ
  ages_of now [] = []
  ages_of now (e ∷ events) = (now - e.published_at) ∷ ages_of now events

  -- What `poll` does with its result.
  pub deliver :
      String
      → Subscription
      → ℕ
      → Option ℕ
      → List (Entry Float)
      → Gateway Float
      → Outcome (List (Entry Float)) × Gateway Float
  unfolding ages_of
  deliver identifier s now given result g =
      let cursor : ℕ = elim result [
        | [] ↦ s.last_seen_sequence
        | e ∷ rest ↦ maximum (sequences (e ∷ rest))
      ] in
      let s' : Subscription = record s {
        last_seen_sequence = cursor;
        client_cursor_seen = s.client_cursor_seen || is_given given;
      } in
      (
        ok result,
        record g {
          clients = insert identifier s' g.clients;
          delivery_queue_ages = keep_last (g.delivery_queue_ages ++ ages_of now result);
        },
      )

  pub recover :
      String
      → Subscription
      → ℕ
      → ℕ
      → Option ℕ
      → BrokerView Float
      → Gateway Float
      → Outcome (List (Entry Float)) × Gateway Float
  unfolding snapshot_entry deliver
  recover identifier s wall now given broker g = elim (snapshot_entry wall now broker g) [
    | err e ↦ (err e, g)
    | ok entry ↦
        deliver identifier s now given (entry ∷ [])
          (record g { snapshot_recoveries = g.snapshot_recoveries + 1 })
  ]

  poll_subscription :
      String
      → Subscription
      → ℕ
      → ℕ
      → Option ℕ
      → BrokerView Float
      → Gateway Float
      → Outcome (List (Entry Float)) × Gateway Float
  unfolding recover
  poll_subscription identifier s wall now given broker g =
      let cursor = s.last_seen_sequence in
      let result = after_cursor cursor g.events in
      if (is_given given && not s.client_cursor_seen)
        || (ltb broker.sequence cursor || before_queue cursor (sequences g.events))
      then recover identifier s wall now given broker g
      else if not (is_complete cursor broker.sequence (sorted_distinct (sequences result)))
      then recover identifier s wall now given broker g
      else deliver identifier s now given (sort_entries result)
          (record g { replayed_events = g.replayed_events + length result })

  -- `wall` and `now` are the clocks at the call.
  unfoldable pub poll :
      String
      → ℕ
      → ℕ
      → Option ℕ
      → BrokerView Float
      → Gateway Float
      → Outcome (List (Entry Float)) × Gateway Float
  unfolding poll_subscription
  poll identifier wall now given broker g = elim (lookup identifier g.clients) [
    | none ↦ (err not_active, g)
    | some s ↦ poll_subscription identifier s wall now given broker g
  ]
