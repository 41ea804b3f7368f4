-- ===== src/Broker/Bounded.antt =====
-- The cache of sessions stays within its limit.
use mikrotik_openvpn_gui.Common.{
  ℕ, suc, ◌+◌, ◌-◌, ◌≤◌, ◌≡◌, inl, inr, refl, ◌∙◌, true, Option, none, some, List, [], ◌∷◌, arith,
  length, length-drop, Bool-cases, Option-cases,
}
use mikrotik_openvpn_gui.Gateway.Value.{Floats, Fields, Values, nil, cons}
use mikrotik_openvpn_gui.Broker.Text.{Conversions}
use mikrotik_openvpn_gui.Broker.Cache.{
  Cache, holds, find, put, length-put, length-remove, length-remove_held, same_codes_refl,
}
use mikrotik_openvpn_gui.Broker.Session.{Session, normalize_session, preserve_unobserved}
use mikrotik_openvpn_gui.Broker.Sessions.{
  TelemetryBroker, Reply, send, reset_event, counter_reset_event, announce, apply_dead,
  apply_session, apply, reset_names, oldest, drop_oldest, bounded_cache,
}
use mikrotik_openvpn_gui.Broker.Reconcile.{departures, arrivals, reconcile_sessions}

abbrev pub IsRoomy : TelemetryBroker → Type 0
IsRoomy b = length b.sessions ≤ b.max_sessions

-- What sending events leaves alone.
abbrev pub SameCache : TelemetryBroker → TelemetryBroker → Type 0
SameCache b after =
    (after.sessions ≡ b.sessions)
    × (after.max_sessions ≡ b.max_sessions)
    × (after.interfaces ≡ b.interfaces)

SameCache-trans : (a b c : TelemetryBroker) → SameCache a b → SameCache b c → SameCache a c
SameCache-trans a b c h k = (k.0 ∙ h.0, k.1 ∙ h.1, k.2 ∙ h.2)

-- The oldest session is one of the cache.
oldest-holds :
    (k : List ℕ) (at : ℕ) (s : Session) (d : Cache Session)
    → holds (oldest k at d) ((k, s) ∷ d) ≡ true
oldest-holds k at s [] = ground (arith, same_codes_refl k)
oldest-holds k at s ((j, r) ∷ d) =
    ground (arith, oldest-holds j r.observed_at r d, oldest-holds k at s d)

drop_oldest_lem : (d : Cache Session) → length (drop_oldest d) ≤ length d - 1
drop_oldest_lem [] = omega arith
drop_oldest_lem ((k, s) ∷ d) =
    let held =
      length-remove_held (oldest k s.observed_at d) ((k, s) ∷ d)
        (oldest-holds k s.observed_at s d) in
    ground (arith, held)

bounded_cache_lem :
    (limit : ℕ) (d : Cache Session) → length d ≤ suc limit → length (bounded_cache limit d) ≤ limit
unfolding bounded_cache
bounded_cache_lem limit d h = ground (arith, drop_oldest_lem d)

module _ (F : Type 0) where
  reset_event-SameCache :
      (names : Values F) (s : Session) (now : ℕ) (b : TelemetryBroker)
      → SameCache b (reset_event names s now b).1
  unfolding reset_event send
  reset_event-SameCache nil s now b = (refl, refl, refl)
  reset_event-SameCache (cons v vs) s now b = (refl, refl, refl)

  announce-SameCache :
      (before : Option Session) (s : Session) (now : ℕ) (b : TelemetryBroker)
      → SameCache b (announce {F = F} before s now b).1
  unfolding announce counter_reset_event send
  announce-SameCache none s now b = (refl, refl, refl)
  announce-SameCache (some before) s now b = reset_event-SameCache (reset_names before s) s now b

  departures-SameCache :
      (cached sessions : Cache Session) (now : ℕ) (b : TelemetryBroker)
      → SameCache b (departures {F = F} cached sessions now b).1
  unfolding departures send
  departures-SameCache [] sessions now b = (refl, refl, refl)
  departures-SameCache ((k, before) ∷ cached) sessions now b =
      elim (Option-cases (find k sessions)) [
        | inr (s, e) ↦ rw (e, departures) (departures-SameCache cached sessions now b)
        | inl e ↦
            rw (e, departures)
              (departures-SameCache cached sessions now (record b { sequence = b.sequence + 1 }))
      ]

  arrivals-SameCache :
      (cached sessions : Cache Session) (now : ℕ) (b : TelemetryBroker)
      → SameCache b (arrivals {F = F} cached sessions now b).1
  unfolding arrivals
  arrivals-SameCache cached [] now b = (refl, refl, refl)
  arrivals-SameCache cached ((k, s) ∷ sessions) now b =
      let b1 = (announce {F = F} (find k cached) s now b).1 in
      SameCache-trans b b1 (arrivals {F = F} cached sessions now b1).1
        (announce-SameCache (find k cached) s now b) (arrivals-SameCache cached sessions now b1)

  pub reconcile_sessions-IsRoomy :
      (sessions : Cache Session) (now : ℕ) (b : TelemetryBroker)
      → IsRoomy b
      → IsRoomy (reconcile_sessions {F = F} sessions now b).1
  unfolding reconcile_sessions send
  reconcile_sessions-IsRoomy sessions now b roomy =
      let b1 = (departures {F = F} b.sessions sessions now b).1 in
      let b2 = (arrivals {F = F} b.sessions sessions now b1).1 in
      let same =
        SameCache-trans b b1 b2 (departures-SameCache b.sessions sessions now b)
          (arrivals-SameCache b.sessions sessions now b1) in
      rw (same.1) (omega (arith, length-drop (length sessions - b.max_sessions) sessions))

module _ (floats : Floats) (conversions : Conversions floats.Float) where
  open floats use {Float}

  apply_dead-IsRoomy :
      (id : List ℕ) (now : ℕ) (b : TelemetryBroker)
      → IsRoomy b
      → IsRoomy (apply_dead floats conversions id now b).1
  unfolding apply_dead send
  apply_dead-IsRoomy [] now b roomy = roomy
  apply_dead-IsRoomy (c ∷ cs) now b roomy = ground (arith, length-remove (c ∷ cs) b.sessions)

  apply_session-IsRoomy :
      (attributes : Fields Float) (now : ℕ) (raw : Session) (b : TelemetryBroker)
      → IsRoomy b
      → IsRoomy (apply_session floats conversions attributes now raw b).1
  unfolding apply_session
  apply_session-IsRoomy attributes now raw b roomy =
      let before = find raw.id b.sessions in
      let s = preserve_unobserved floats conversions attributes before raw in
      let next = record b { sessions = bounded_cache b.max_sessions (put s.id s b.sessions) } in
      let same = announce-SameCache Float before s now next in
      rw (same.0, same.1)
        (bounded_cache_lem b.max_sessions (put s.id s b.sessions)
          (omega (arith, length-put s.id s b.sessions)))

  pub apply-IsRoomy :
      (reply : Reply Float) (now : ℕ) (b : TelemetryBroker)
      → IsRoomy b
      → IsRoomy (apply floats conversions reply now b).1
  unfolding apply
  apply-IsRoomy reply now b roomy = elim (Bool-cases reply.is_record) [
    | inr e ↦ rw e roomy
    | inl e ↦ elim (Bool-cases reply.dead) [
      | inl d ↦ rw (e, d) (apply_dead-IsRoomy _ now b roomy)
      | inr d ↦ elim (Option-cases (normalize_session floats conversions now reply.attributes)) [
        | inl n ↦ rw (e, d, n) roomy
        | inr (raw, n) ↦ rw (e, d, n) (apply_session-IsRoomy reply.attributes now raw b roomy)
      ]
    ]
  ]
