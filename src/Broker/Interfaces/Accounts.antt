-- ===== src/Broker/Interfaces/Accounts.antt =====
-- The events of an interface snapshot, counted and numbered, and the cache that it leaves.
use mikrotik_openvpn_gui.Common.{
  ℕ, ◌+◌, ◌-◌, ◌<◌, ◌≤◌, ◌≡◌, inl, inr, refl, ◌∙◌, Option, none, some, List, [], ◌∷◌, arith, length,
  length-append, length-drop, Bool-cases, ltb,
}
use mikrotik_openvpn_gui.Gateway.Value.{Floats, Fields, Values, nil, cons}
use mikrotik_openvpn_gui.Gateway.Frame.{TelemetryEvent}
use mikrotik_openvpn_gui.Broker.Text.{Conversions}
use mikrotik_openvpn_gui.Broker.Cache.{Cache, find}
use mikrotik_openvpn_gui.Broker.Sessions.{Interface, TelemetryBroker, send}
use mikrotik_openvpn_gui.Broker.Numbered.{Continues, Numbered-append}
use mikrotik_openvpn_gui.Broker.Interfaces.{
  Rates, Sample, interface_reset_names, interface_reset, interface_reset_event, sample_interface,
  sample_interfaces, keep_interfaces, incoming_interfaces, reconcile_interfaces,
  max_interface_snapshot_records,
}

-- The events are numbered behind the broker's number; there is one for each of `n` interfaces and one
-- for each reset that is counted; sessions and limits stay.
pub record Accounts {F : Type 0} (n : ℕ) (b : TelemetryBroker)
    (result : List (TelemetryEvent F) × TelemetryBroker) : Type 0 where
  pub numbered : Continues b result
  pub counted : length result.0 + b.interface_counter_resets ≡ n + result.1.interface_counter_resets
  pub same_sessions : result.1.sessions ≡ b.sessions
  pub same_limit : result.1.max_interfaces ≡ b.max_interfaces

module _ {F : Type 0} where
  interface_reset-Accounts :
      (names : Values F) (i : Interface) (now : ℕ) (b : TelemetryBroker)
      → Accounts 0 b (interface_reset names i now b)
  unfolding interface_reset send
  interface_reset-Accounts nil i now b = record {
    numbered = refl;
    counted = omega arith;
    same_sessions = refl;
    same_limit = refl;
  }
  interface_reset-Accounts (cons v vs) i now b = record {
    numbered = (refl, refl);
    counted = omega arith;
    same_sessions = refl;
    same_limit = refl;
  }

  interface_reset_event-Accounts :
      (before : Option Interface) (i : Interface) (now : ℕ) (b : TelemetryBroker)
      → Accounts {F = F} 0 b (interface_reset_event before i now b)
  unfolding interface_reset_event
  interface_reset_event-Accounts none i now b = record {
    numbered = refl;
    counted = omega arith;
    same_sessions = refl;
    same_limit = refl;
  }
  interface_reset_event-Accounts (some before) i now b =
      interface_reset-Accounts (interface_reset_names before i) i now b

  sample_interface-Accounts :
      (rates : Rates F) (sample : Sample) (key : List ℕ) (i : Interface) (now : ℕ)
      (b : TelemetryBroker)
      → Accounts 1 b (sample_interface rates sample key i now b)
  unfolding sample_interface send
  sample_interface-Accounts rates sample key i now b =
      let (resets, b1) = interface_reset_event {F = F} (find key b.interfaces) i now b in
      let a = interface_reset_event-Accounts (find key b.interfaces) i now b in
      record {
        numbered =
            Numbered-append b.sequence b1.sequence (b1.sequence + 1) resets _ a.numbered
              (refl, refl);
        counted = omega (arith, a.counted, length-append resets (_ ∷ []));
        same_sessions = a.same_sessions;
        same_limit = a.same_limit;
      }

  sample_interfaces-Accounts :
      (rates : Rates F) (sample : Sample) (incoming : Cache Interface) (now : ℕ)
      (b : TelemetryBroker)
      → Accounts (length incoming) b (sample_interfaces rates sample incoming now b)
  unfolding sample_interfaces
  sample_interfaces-Accounts rates sample [] now b = record {
    numbered = refl;
    counted = omega arith;
    same_sessions = refl;
    same_limit = refl;
  }
  sample_interfaces-Accounts rates sample ((key, i) ∷ incoming) now b =
      let (events, b1) = sample_interface rates sample key i now b in
      let (others, b2) = sample_interfaces rates sample incoming now b1 in
      let first = sample_interface-Accounts rates sample key i now b in
      let rest = sample_interfaces-Accounts rates sample incoming now b1 in
      record {
        numbered =
            Numbered-append b.sequence b1.sequence b2.sequence events others first.numbered
              rest.numbered;
        counted = omega (arith, first.counted, rest.counted, length-append events others);
        same_sessions = rest.same_sessions ∙ first.same_sessions;
        same_limit = rest.same_limit ∙ first.same_limit;
      }

  pub keep_interfaces-Accounts :
      (rates : Rates F) (sample : Sample) (incoming : Cache Interface) (now : ℕ)
      (b : TelemetryBroker)
      → let result = keep_interfaces rates sample incoming now b in
        Accounts (length incoming) b result × (length result.1.interfaces ≤ b.max_interfaces)
  unfolding keep_interfaces
  keep_interfaces-Accounts rates sample incoming now b =
      let b1 = (sample_interfaces rates sample incoming now b).1 in
      let a = sample_interfaces-Accounts rates sample incoming now b in
      (
        record {
          numbered = a.numbered;
          counted = a.counted;
          same_sessions = a.same_sessions;
          same_limit = a.same_limit;
        },
        omega (arith, a.same_limit, length-drop (length incoming - b1.max_interfaces) incoming),
      )

module _ (floats : Floats) (conversions : Conversions floats.Float)
    (rates : Rates floats.Float) where
  open floats use {Float}

  -- What becomes of a snapshot of `size` records, `n` interfaces of which differ in their ids.
  abbrev pub Settles :
      ℕ → ℕ → TelemetryBroker → Option (List (TelemetryEvent Float) × TelemetryBroker) → Type 0
  Settles size n b none = max_interface_snapshot_records < size
  Settles size n b (some result) =
      (size ≤ max_interface_snapshot_records)
      × Accounts n b result
      × (length result.1.interfaces ≤ b.max_interfaces)

  -- A snapshot is refused exactly when it has more records than the limit. Otherwise one event for each
  -- of its interfaces and one for each counted reset is sent, numbered behind the broker's number
  -- without a gap; the cache of interfaces ends within its limit and that of sessions as it was.
  pub reconcile_interfaces-Settles :
      (records : List (Fields Float)) (sample : Sample) (now : ℕ) (b : TelemetryBroker)
      → Settles
          (length records)
          (length (incoming_interfaces floats conversions rates sample records []))
          b
          (reconcile_interfaces floats conversions rates records sample now b)
  unfolding reconcile_interfaces
  reconcile_interfaces-Settles records sample now b =
      elim (Bool-cases (ltb max_interface_snapshot_records (length records))) [
        | inl many ↦ rw (many, reconcile_interfaces) ground (arith, many)
        | inr few ↦
            let kept =
              keep_interfaces-Accounts rates sample
                (incoming_interfaces floats conversions rates sample records []) now b in
            rw (few, reconcile_interfaces) (ground (arith, few), kept.0, kept.1)
      ]
