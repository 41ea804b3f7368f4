-- ===== src/Supervisor/Sampler/Checked.antt =====
-- What a sample of the interfaces does to the broker.
use mikrotik_openvpn_gui.Common.{
  ℕ, zero, suc, ◌<◌, ◌≤◌, ◌⊎◌, arith, ◌≡◌, inl, inr, refl, Bool, true, false, Option, none, some,
  List, [], ◌∷◌, ◌++◌, if◌then◌else◌, length, Bool-cases, Option-cases,
}
use mikrotik_openvpn_gui.Gateway.Value.{Floats}
use mikrotik_openvpn_gui.Gateway.Frame.{TelemetryEvent}
use mikrotik_openvpn_gui.Broker.Text.{Conversions}
use mikrotik_openvpn_gui.Broker.Sessions.{TelemetryBroker}
use mikrotik_openvpn_gui.Broker.Numbered.{Numbered, Numbered-append, Numbered-le}
use mikrotik_openvpn_gui.Broker.Interfaces.{
  Rates, reconcile_interfaces, incoming_interfaces, max_interface_snapshot_records,
}
use mikrotik_openvpn_gui.Broker.Interfaces.Accounts.{
  Accounts, Settles, reconcile_interfaces-Settles,
}
use mikrotik_openvpn_gui.Supervisor.Attempt.{
  Failure, Ended, returned, raised, credentials_unavailable, other_error,
}
use mikrotik_openvpn_gui.Supervisor.Sampler.{
  SampleAnswers, Sampled, dispatch_sample, sample_once, run_samples,
}

module _ (floats : Floats) (conversions : Conversions floats.Float)
    (rates : Rates floats.Float) where
  open floats use {Float}

  -- The connection, the reading and every check of the authorization succeed.
  abbrev pub PassesAll : SampleAnswers Float → Type 0
  PassesAll a =
      (a.connection ≡ none)
      × (a.allowed_before ≡ true)
      × (a.reading ≡ none)
      × (a.allowed_after ≡ true)
      × (a.granted ≡ true)

  -- A check that fails, or too many records.
  abbrev pub Fails : SampleAnswers Float → Type 0
  Fails a = ¬ PassesAll a ⊎ (max_interface_snapshot_records < length a.records)

  -- How a sample ends whose dispatch came to `batch`, and what it hands on: the first handler that raises
  -- ends it, and `on_sample` comes before `on_events`.
  abbrev pub Ends :
      Option Failure
      → Option Failure
      → List (TelemetryEvent Float)
      → Ended
      → List (TelemetryEvent Float)
      → Type 0
  Ends (some failure) on_events batch ended events = (ended ≡ raised failure) × (events ≡ [])
  Ends none (some failure) batch ended events = (ended ≡ raised failure) × (events ≡ batch)
  Ends none none batch ended events = (ended ≡ returned) × (events ≡ batch)

  -- Either a check fails or there are too many records, the sample raises, nothing is handed on and the
  -- broker is as it was; or every check passed, the broker accounts for a batch, and the handlers say how
  -- the sample ends.
  abbrev pub IsChecked : SampleAnswers Float → TelemetryBroker → Sampled Float → Type 0
  IsChecked a b (ended, events, after) =
      (Fails a × ((failure : Failure) × (ended ≡ raised failure)) × (events ≡ []) × (after ≡ b))
      ⊎ (PassesAll a
          × (length a.records ≤ max_interface_snapshot_records)
          × ((batch : List (TelemetryEvent Float)) × Accounts
                (length (incoming_interfaces floats conversions rates a.sample a.records [])) b
                (batch, after)
              × Ends a.on_sample a.on_events batch ended events)
          × (length after.interfaces ≤ b.max_interfaces))

  settled :
      (a : SampleAnswers Float) (b : TelemetryBroker)
      → PassesAll a
      → (result : Option (List (TelemetryEvent Float) × TelemetryBroker))
      → Settles floats conversions rates
          (length a.records)
          (length (incoming_interfaces floats conversions rates a.sample a.records []))
          b
          result
      → IsChecked a b (dispatch_sample true a.on_sample a.on_events result b)
  unfolding dispatch_sample
  settled a b passed none h = inl (inr h, (other_error, refl), refl, refl)
  settled a b passed (some (events, after)) h = elim (Option-cases a.on_sample) [
    | inr (failure, e) ↦ rw e (inr (passed, h.0, (events, h.1, (refl, refl)), h.2))
    | inl e ↦ elim (Option-cases a.on_events) [
      | inr (failure, d) ↦ rw (e, d) (inr (passed, h.0, (events, h.1, (refl, refl)), h.2))
      | inl d ↦ rw (e, d) (inr (passed, h.0, (events, h.1, (refl, refl)), h.2))
    ]
  ]

  -- What fails leaves all as it was.
  failed :
      (a : SampleAnswers Float) (b : TelemetryBroker) (failure : Failure)
      → ¬ PassesAll a
      → sample_once floats conversions rates a b ≡ (raised failure, [], b)
      → IsChecked a b (sample_once floats conversions rates a b)
  failed a b failure h p = rw p (inl (inl h, (failure, refl), refl, refl))

  -- A sample in which a check fails, whichever, or that reads too many records raises, leaves the broker
  -- as it was and hands nothing on. One in which all succeed numbers one event for each interface and
  -- each counted reset and keeps the cache of interfaces within its limit; the broker is then changed
  -- also where a handler raises: `on_sample` before, `on_events` after the batch is handed on.
  pub sample_once-IsChecked :
      (a : SampleAnswers Float) (b : TelemetryBroker)
      → IsChecked a b (sample_once floats conversions rates a b)
  unfolding sample_once dispatch_sample
  sample_once-IsChecked a b = elim (Option-cases a.connection) [
    | inr (failure, e) ↦ failed a b failure (λ p. ground (arith, e, p.0)) (rw (e, sample_once) refl)
    | inl e ↦ elim (Bool-cases a.allowed_before) [
      | inr d ↦
          failed a b credentials_unavailable (λ p. ground (arith, d, p.1))
            (rw (e, sample_once, d) refl)
      | inl d ↦ elim (Option-cases a.reading) [
        | inr (failure, f) ↦
            failed a b failure (λ p. ground (arith, f, p.2)) (rw (e, sample_once, d, f) refl)
        | inl f ↦ elim (Bool-cases a.allowed_after) [
          | inr g ↦
              failed a b credentials_unavailable (λ p. ground (arith, g, p.3))
                (rw (e, sample_once, d, f, g) refl)
          | inl g ↦ elim (Bool-cases a.granted) [
            | inr h ↦
                failed a b credentials_unavailable (λ p. ground (arith, h, p.4))
                  (rw (e, sample_once, d, f, g, h) refl)
            | inl h ↦
                let result =
                  reconcile_interfaces floats conversions rates a.records a.sample a.now b in
                let same : sample_once floats conversions rates a b
                    ≡ dispatch_sample true a.on_sample a.on_events result b =
                  rw (e, sample_once, d, f, g, h) refl in
                rw same (
                  settled a b (e, d, f, g, h) result
                    (reconcile_interfaces-Settles floats conversions rates a.records a.sample a.now
                      b))
          ]
        ]
      ]
    ]
  ]

  -- The batches handed on go on from the broker's number without a gap, to a number that the broker has
  -- reached, and to the broker's own where the run returns.
  abbrev pub Follows : TelemetryBroker → Sampled Float → Type 0
  Follows b sampled =
      (m : ℕ) × Numbered {F = Float} b.sequence sampled.1 m
      × (m ≤ sampled.2.sequence)
      × (sampled.0 ≡ returned → m ≡ sampled.2.sequence)

  Ends-Follows :
      (on_sample on_events : Option Failure) (b after : TelemetryBroker)
      (batch events : List (TelemetryEvent Float)) (ended : Ended)
      → Numbered b.sequence batch after.sequence
      → Ends on_sample on_events batch ended events
      → Follows b (ended, events, after)
  Ends-Follows (some failure) on b after batch events ended n e =
      rw (e.0, e.1) (b.sequence, refl, Numbered-le b.sequence after.sequence batch n, λ p. cc)
  Ends-Follows none (some failure) b after batch events ended n e =
      rw (e.0, e.1) (after.sequence, n, omega arith, λ p. refl)
  Ends-Follows none none b after batch events ended n e =
      rw (e.0, e.1) (after.sequence, n, omega arith, λ p. refl)

  sample_once-Follows :
      (a : SampleAnswers Float) (b : TelemetryBroker)
      → Follows b (sample_once floats conversions rates a b)
  sample_once-Follows a b =
      let s = sample_once floats conversions rates a b in
      elim (sample_once-IsChecked a b) [
        | inl (bad, (failure, e), nothing, same) ↦
            rw (e, nothing, same) (b.sequence, refl, omega arith, λ p. cc)
        | inr (passed, few, (batch, accounts, ends), low) ↦
            Ends-Follows a.on_sample a.on_events b s.2 batch s.1 s.0 accounts.numbered ends
      ]

  stays : (b : TelemetryBroker) → Follows b (returned, [], b)
  stays b = (b.sequence, refl, omega arith, λ p. refl)

  run_step :
      (b : TelemetryBroker) (stopped : Bool) (sampled rest : Sampled Float)
      → Follows b sampled
      → Follows sampled.2 rest
      → Follows b (
          if stopped then (returned, [], b) else elim sampled.0 [
            | raised failure ↦ (raised failure, sampled.1, sampled.2)
            | returned ↦ (rest.0, sampled.1 ++ rest.1, rest.2)
          ])
  run_step b true sampled rest h k = stays b
  run_step b false (raised failure, events, after) rest h k = h
  run_step b false (returned, events, after) rest (m, n, le, all) (l, k, lel, last) = (
    l,
    Numbered-append b.sequence after.sequence l events rest.1 (rw (all refl) at n) k,
    lel,
    last,
  )

  -- Over every run of samples, whatever fails, the exceptions of the handlers included, the batches that
  -- `on_events` was called with carry the numbers of the broker one by one from its first number on, none
  -- above the number that it ends at, and all of them where the run returns.
  pub run_samples-Follows :
      (rounds : List (Bool × SampleAnswers Float)) (left : Option ℕ) (b : TelemetryBroker)
      → Follows b (run_samples floats conversions rates rounds left b)
  unfolding run_samples
  run_samples-Follows [] left b = stays b
  run_samples-Follows ((stopped, a) ∷ rounds) (some zero) b = stays b
  run_samples-Follows ((stopped, a) ∷ rounds) none b =
      let sampled = sample_once floats conversions rates a b in
      run_step b stopped sampled (run_samples floats conversions rates rounds none sampled.2)
        (sample_once-Follows a b) (run_samples-Follows rounds none sampled.2)
  run_samples-Follows ((stopped, a) ∷ rounds) (some (suc left)) b =
      let sampled = sample_once floats conversions rates a b in
      run_step b stopped sampled (run_samples floats conversions rates rounds (some left) sampled.2)
        (sample_once-Follows a b) (run_samples-Follows rounds (some left) sampled.2)
