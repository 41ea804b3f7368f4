-- ===== src/Supervisor/Attempt/Induction.antt =====
-- What every publication of an attempt and every change of its counters keeps, the attempt keeps.
use mikrotik_openvpn_gui.Common.{
  ℕ, ◌+◌, inl, inr, true, false, not, Option, none, some, List, [], ◌∷◌, ltb, if◌then◌else◌,
  Bool-cases, Option-cases,
}
use mikrotik_openvpn_gui.Gateway.Value.{Floats, Fields}
use mikrotik_openvpn_gui.Broker.Text.{Conversions}
use mikrotik_openvpn_gui.Broker.Sessions.{Reply, apply}
use mikrotik_openvpn_gui.Broker.Reconcile.{reconcile}
use mikrotik_openvpn_gui.Supervisor.Attempt.{
  Supervisor, Answers, Item, item, not_a_reply, stop_requested, returned, raised, Failure, Status,
  publish_batch, listen_loop, read_snapshot, run_connected, run_attempt, has_snapshot,
  was_connected, connecting, healthy, disabled,
}
use mikrotik_openvpn_gui.Supervisor.Attempt.Cases.{Ended-cases, either}

module _ (floats : Floats) (conversions : Conversions floats.Float) where
  open floats use {Float}

  module _ (a : Answers Float) (P : Supervisor Float → Type 0)
      (noted : (status : Status) (attempts reconnects : ℕ) (connected : Option ℕ)
          (code : Option Failure) (s : Supervisor Float)
        → P s
        → P (record s {
          status = status;
          attempts = attempts;
          reconnects = reconnects;
          last_connected_at = connected;
          last_error_code = code;
        }))
      (settled : (s : Supervisor Float)
        → P s
        → P (record s { status = healthy; backoff_seconds = s.config.initial_backoff }))
      (snapshot_published : (records : List (Fields Float)) (s : Supervisor Float)
        → P s
        → P
            (publish_batch
              (a.granted 0)
              (a.on_events 0)
              (a.after_dispatch 0)
              true
              a.now
              (reconcile floats conversions records a.now s.broker)
              s).1)
      (reply_published : (i : ℕ) (reply : Reply Float) (s : Supervisor Float)
        → P s
        → P
            (publish_batch
              (a.granted (i + 1))
              (a.on_events (i + 1))
              (a.after_dispatch (i + 1))
              false
              a.now
              (some (apply floats conversions reply a.now s.broker))
              s).1) where
    listen_loop_induction :
        (i : ℕ) (items : List (Item Float)) (s : Supervisor Float)
        → P s
        → P (listen_loop floats conversions a i items s).1
    unfolding listen_loop
    listen_loop_induction i [] s p = elim (Option-cases a.stream_failure) [
      | inl e ↦ rw (e, listen_loop) p
      | inr (failure, e) ↦ rw (e, listen_loop) p
    ]
    listen_loop_induction i (stop_requested ∷ items) s p = p
    listen_loop_induction i (not_a_reply ∷ items) s p = elim (Bool-cases (a.allowed (i + 3))) [
      | inl e ↦ rw (e, listen_loop) p
      | inr e ↦ rw (e, listen_loop) p
    ]
    listen_loop_induction i (item reply ∷ items) s p =
        let published =
          publish_batch (a.granted (i + 1)) (a.on_events (i + 1)) (a.after_dispatch (i + 1)) false
            a.now (some (apply floats conversions reply a.now s.broker)) s in
        let next = reply_published i reply s p in
        elim (Bool-cases (a.allowed (i + 3))) [
          | inr e ↦ rw (e, listen_loop) p
          | inl e ↦ elim (Ended-cases published.0) [
            | inl d ↦ rw (e, listen_loop, d) (listen_loop_induction (i + 1) items published.1 next)
            | inr (failure, d) ↦ rw (e, listen_loop, d) next
          ]
        ]

    read_snapshot_induction :
        (s : Supervisor Float) → P s → P (read_snapshot floats conversions a s).1
    unfolding read_snapshot
    read_snapshot_induction s p = elim (Option-cases a.snapshot) [
      | inl e ↦ rw (e, read_snapshot) p
      | inr ((records, elapsed), e) ↦ elim (Bool-cases (a.allowed 1)) [
        | inr d ↦ rw (e, read_snapshot, d) p
        | inl d ↦ elim (Option-cases a.snapshot_failure) [
          | inr (failure, f) ↦ rw (e, read_snapshot, d, f) p
          | inl f ↦ elim (Bool-cases (a.allowed 2)) [
            | inr g ↦ rw (e, read_snapshot, d, f, g) p
            | inl g ↦ elim (Bool-cases (ltb s.config.snapshot_limit elapsed)) [
              | inl late ↦ rw (e, read_snapshot, d, f, g, late) p
              | inr early ↦ rw (e, read_snapshot, d, f, g, early) (snapshot_published records s p)
            ]
          ]
        ]
      ]
    ]

    run_connected_induction :
        (s : Supervisor Float) → P s → P (run_connected floats conversions a s).1
    unfolding run_connected
    run_connected_induction s p =
        let connected : Supervisor Float = record s {
          status = if has_snapshot a then connecting else healthy;
          reconnects = s.reconnects + was_connected s;
          last_connected_at = some a.now;
        } in
        let read = read_snapshot floats conversions a connected in
        let q = read_snapshot_induction connected (
          noted (if has_snapshot a then connecting else healthy) s.attempts
            (s.reconnects + was_connected s) (some a.now) s.last_error_code s p) in
        elim (Bool-cases (a.allowed 0)) [
          | inr e ↦ rw (e, run_connected) p
          | inl e ↦ elim (Ended-cases read.0) [
            | inr (failure, d) ↦ rw (e, run_connected, d) q
            | inl d ↦
                rw (e, run_connected, d)
                  (listen_loop_induction 0 a.items
                    (record (read.1) {
                      status = healthy;
                      backoff_seconds = read.1.config.initial_backoff;
                    })
                    (settled read.1 q))
          ]
        ]

    pub run_attempt_induction :
        (s : Supervisor Float) → P s → P (run_attempt floats conversions a s).1
    unfolding run_attempt
    run_attempt_induction s p =
        let started : Supervisor Float = record s {
          attempts = s.attempts + 1;
          status = connecting;
          last_error_code = none;
        } in
        let q = noted connecting (s.attempts + 1) s.reconnects s.last_connected_at none s p in
        either (λ tried. P tried.1) (not s.config.enabled)
          (returned, record s { status = disabled })
          (if a.stopped_before then (returned, s) else elim a.connection [
            | some failure ↦ (raised failure, started)
            | none ↦ run_connected floats conversions a started
          ])
          (noted disabled s.attempts s.reconnects s.last_connected_at s.last_error_code s p)
          (elim (Bool-cases a.stopped_before) [
            | inl d ↦ rw d p
            | inr d ↦ elim (Option-cases a.connection) [
              | inr (failure, f) ↦ rw (d, f) q
              | inl f ↦ rw (d, f) (run_connected_induction started q)
            ]
          ])
