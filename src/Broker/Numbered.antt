-- ===== src/Broker/Numbered.antt =====
-- The broker numbers its events without a gap.
use mikrotik_openvpn_gui.Common.{
  ℕ, ◌+◌, ◌≤◌, ◌≡◌, arith, inl, inr, refl, Option, none, some, List, [], ◌∷◌, ◌++◌, Bool-cases,
  Option-cases,
}
use mikrotik_openvpn_gui.Common.Int.{pos}
use mikrotik_openvpn_gui.Gateway.Value.{Floats, Fields, Values, nil, cons}
use mikrotik_openvpn_gui.Gateway.Frame.{TelemetryEvent}
use mikrotik_openvpn_gui.Broker.Text.{Conversions}
use mikrotik_openvpn_gui.Broker.Cache.{Cache, find, put}
use mikrotik_openvpn_gui.Broker.Session.{Session, normalize_session, preserve_unobserved}
use mikrotik_openvpn_gui.Broker.Sessions.{
  TelemetryBroker, Reply, send, reset_event, counter_reset_event, announce, apply_dead,
  apply_session, apply, bounded_cache, reset_names,
}
use mikrotik_openvpn_gui.Broker.Reconcile.{departures, arrivals, reconcile_sessions}

module _ {F : Type 0} where
  -- The events' numbers are those behind `first`, one by one, up to `final`.
  abbrev pub Numbered : ℕ → List (TelemetryEvent F) → ℕ → Type 0
  Numbered first [] final = first ≡ final
  Numbered first (e ∷ events) final =
      (e.sequence ≡ pos (first + 1)) × Numbered (first + 1) events final

  -- What an operation sends takes the broker's number on.
  abbrev pub Continues : TelemetryBroker → List (TelemetryEvent F) × TelemetryBroker → Type 0
  Continues b (events, after) = Numbered b.sequence events after.sequence

  pub Numbered-append :
      (a b c : ℕ) (xs ys : List (TelemetryEvent F))
      → Numbered a xs b
      → Numbered b ys c
      → Numbered a (xs ++ ys) c
  Numbered-append a b c [] ys h k = rw h k
  Numbered-append a b c (x ∷ xs) ys h k = (h.0, Numbered-append (a + 1) b c xs ys h.1 k)

  pub Numbered-le :
      (first final : ℕ) (events : List (TelemetryEvent F))
      → Numbered first events final
      → first ≤ final
  Numbered-le first final [] n = omega (arith, n)
  Numbered-le first final (e ∷ events) n = omega (arith, Numbered-le (first + 1) final events n.1)

  reset_event-Continues :
      (names : Values F) (s : Session) (now : ℕ) (b : TelemetryBroker)
      → Continues b (reset_event names s now b)
  unfolding reset_event send
  reset_event-Continues nil s now b = refl
  reset_event-Continues (cons v vs) s now b = (refl, refl)

module _ (F : Type 0) where
  counter_reset_event-Continues :
      (before : Option Session) (s : Session) (now : ℕ) (b : TelemetryBroker)
      → Continues b (counter_reset_event {F = F} before s now b)
  unfolding counter_reset_event
  counter_reset_event-Continues none s now b = refl
  counter_reset_event-Continues (some before) s now b =
      reset_event-Continues (reset_names before s) s now b

  announce-Continues :
      (before : Option Session) (s : Session) (now : ℕ) (b : TelemetryBroker)
      → Continues b (announce {F = F} before s now b)
  unfolding announce send
  announce-Continues before s now b =
      let (resets, b1) = counter_reset_event {F = F} before s now b in
      Numbered-append b.sequence b1.sequence (b1.sequence + 1) resets _
        (counter_reset_event-Continues before s now b) (refl, refl)

  departures-Continues :
      (cached sessions : Cache Session) (now : ℕ) (b : TelemetryBroker)
      → Continues b (departures {F = F} cached sessions now b)
  unfolding departures send
  departures-Continues [] sessions now b = refl
  departures-Continues ((k, before) ∷ cached) sessions now b =
      elim (Option-cases (find k sessions)) [
        | inr (s, e) ↦ rw (e, departures) (departures-Continues cached sessions now b)
        | inl e ↦
            rw (e, departures)
              (
                refl,
                departures-Continues cached sessions now (record b { sequence = b.sequence + 1 }),
              )
      ]

  arrivals-Continues :
      (cached sessions : Cache Session) (now : ℕ) (b : TelemetryBroker)
      → Continues b (arrivals {F = F} cached sessions now b)
  unfolding arrivals
  arrivals-Continues cached [] now b = refl
  arrivals-Continues cached ((k, s) ∷ sessions) now b =
      let (events, b1) = announce {F = F} (find k cached) s now b in
      let (others, b2) = arrivals {F = F} cached sessions now b1 in
      Numbered-append b.sequence b1.sequence b2.sequence events others
        (announce-Continues (find k cached) s now b) (arrivals-Continues cached sessions now b1)

  -- The events of a reconciliation, its snapshot last, take the broker's number on without a gap.
  pub reconcile_sessions-Continues :
      (sessions : Cache Session) (now : ℕ) (b : TelemetryBroker)
      → Continues b (reconcile_sessions {F = F} sessions now b)
  unfolding reconcile_sessions send
  reconcile_sessions-Continues sessions now b =
      let (gone, b1) = departures {F = F} b.sessions sessions now b in
      let (here, b2) = arrivals {F = F} b.sessions sessions now b1 in
      Numbered-append b.sequence b1.sequence (b2.sequence + 1) gone _
        (departures-Continues b.sessions sessions now b)
        (Numbered-append b1.sequence b2.sequence (b2.sequence + 1) here _
          (arrivals-Continues b.sessions sessions now b1) (refl, refl))

module _ (floats : Floats) (conversions : Conversions floats.Float) where
  open floats use {Float}

  apply_dead-Continues :
      (id : List ℕ) (now : ℕ) (b : TelemetryBroker)
      → Continues b (apply_dead floats conversions id now b)
  unfolding apply_dead send
  apply_dead-Continues [] now b = refl
  apply_dead-Continues (c ∷ cs) now b = elim (Option-cases (find (c ∷ cs) b.sessions)) [
    | inl e ↦ rw (e, apply_dead) refl
    | inr (s, e) ↦ rw (e, apply_dead) (refl, refl)
  ]

  apply_session-Continues :
      (attributes : Fields Float) (now : ℕ) (raw : Session) (b : TelemetryBroker)
      → Continues b (apply_session floats conversions attributes now raw b)
  unfolding apply_session
  apply_session-Continues attributes now raw b =
      let before = find raw.id b.sessions in
      let s = preserve_unobserved floats conversions attributes before raw in
      announce-Continues Float before s now
        (record b { sessions = bounded_cache b.max_sessions (put s.id s b.sessions) })

  -- The events of one reply take the broker's number on without a gap.
  pub apply-Continues :
      (reply : Reply Float) (now : ℕ) (b : TelemetryBroker)
      → Continues b (apply floats conversions reply now b)
  unfolding apply
  apply-Continues reply now b = elim (Bool-cases reply.is_record) [
    | inr e ↦ rw e refl
    | inl e ↦ elim (Bool-cases reply.dead) [
      | inl d ↦ rw (e, d) (apply_dead-Continues _ now b)
      | inr d ↦ elim (Option-cases (normalize_session floats conversions now reply.attributes)) [
        | inl n ↦ rw (e, d, n) refl
        | inr (raw, n) ↦ rw (e, d, n) (apply_session-Continues reply.attributes now raw b)
      ]
    ]
  ]
