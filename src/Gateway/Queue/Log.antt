-- ===== src/Gateway/Queue/Log.antt =====
-- The replay buffer against an unbounded log of all frames that were ever published.
use mikrotik_openvpn_gui.Common.{
  ℕ, ◌+◌, ◌-◌, ◌<◌, ◌≤◌, ◌≡◌, ◌⊎◌, inl, inr, refl, ap, ◌∙◌, true, Option, List, [], ◌∷◌, ◌++◌,
  arith, length, length-append, append_assoc, append-nil, Bool-cases, leb, ltb, ◌||◌,
}
use mikrotik_openvpn_gui.Gateway.Value.{Floats}
use mikrotik_openvpn_gui.Gateway.Error.{
  GatewayError, Outcome, ok, err, Outcome-cases, replay_budget,
}
use mikrotik_openvpn_gui.Gateway.Frame.{TelemetryEvent, Frame}
use mikrotik_openvpn_gui.Gateway.Queue.{
  Gateway, Entry, new_gateway, evict, append_entry, bounded_frame, publish_loop, publish,
}
use mikrotik_openvpn_gui.Gateway.Queue.Budget.{
  IsWithin, total_size, total_size-append, append_entry-IsWithin, new_gateway-IsWithin,
}

module _ {F : Type 0} where
  -- Frames that one of the limits does not allow.
  abbrev pub Exceeds : ℕ → ℕ → List (Entry F) → Type 0
  Exceeds max_replay max_bytes entries =
      (max_replay < length entries) ⊎ (max_bytes < total_size entries)

  -- With the newest of the `older` frames, the kept ones exceed a limit.
  abbrev pub Cut : ℕ → ℕ → List (Entry F) → List (Entry F) → Type 0
  Cut max_replay max_bytes [] kept = Unit
  Cut max_replay max_bytes (e ∷ []) kept = Exceeds max_replay max_bytes (e ∷ kept)
  Cut max_replay max_bytes (e ∷ next ∷ older) kept = Cut max_replay max_bytes (next ∷ older) kept

  -- The buffer is the longest end of the log that its limits allow.
  abbrev pub Represents : List (Entry F) → Gateway F → Type 0
  Represents log g =
      IsWithin g
      × ((older : List (Entry F)) × (older ++ g.events ≡ log)
          × Cut g.max_replay g.max_replay_bytes older g.events)

  Cut-grow :
      (max_replay max_bytes : ℕ) (older kept : List (Entry F)) (entry : Entry F)
      → Cut max_replay max_bytes older kept
      → Cut max_replay max_bytes older (kept ++ entry ∷ [])
  Cut-grow max_replay max_bytes [] kept entry c = tt
  Cut-grow max_replay max_bytes (e ∷ []) kept entry (inl many) =
      inl (omega (arith, many, length-append kept (entry ∷ [])))
  Cut-grow max_replay max_bytes (e ∷ []) kept entry (inr large) =
      inr (omega (arith, large, total_size-append kept (entry ∷ [])))
  Cut-grow max_replay max_bytes (e ∷ next ∷ older) kept entry c =
      Cut-grow max_replay max_bytes (next ∷ older) kept entry c

  Cut-append :
      (max_replay max_bytes : ℕ) (before : List (Entry F)) (e : Entry F)
      (older kept : List (Entry F))
      → Cut max_replay max_bytes (e ∷ older) kept
      → Cut max_replay max_bytes (before ++ e ∷ older) kept
  Cut-append max_replay max_bytes [] e older kept c = c
  Cut-append max_replay max_bytes (b ∷ []) e older kept c = c
  Cut-append max_replay max_bytes (b ∷ next ∷ before) e older kept c =
      Cut-append max_replay max_bytes (next ∷ before) e older kept c

  -- What `evict` drops of `events`, given what it keeps.
  abbrev Drops : ℕ → ℕ → Entry F → List (Entry F) → List (Entry F) → Type 0
  Drops max_replay max_bytes entry events kept =
      (older : List (Entry F)) × (older ++ kept ≡ events)
      × Cut max_replay max_bytes older (kept ++ entry ∷ [])

  drop_one :
      (max_replay max_bytes : ℕ) (entry e : Entry F) (events kept : List (Entry F))
      → (leb max_replay (length (e ∷ events))
          || ltb max_bytes (total_size (e ∷ events) + entry.size))
        ≡ true
      → Drops max_replay max_bytes entry events kept
      → Drops max_replay max_bytes entry (e ∷ events) kept
  drop_one max_replay max_bytes entry e events kept full ([], whole, c) = (
    e ∷ [],
    ap (λ l. e ∷ l) whole,
    rw whole (
        ground
          (arith, full, length-append events (entry ∷ []), total_size-append events (entry ∷ []))),
  )
  drop_one max_replay max_bytes entry e events kept full (f ∷ older, whole, c) =
      (e ∷ f ∷ older, ap (λ l. e ∷ l) whole, c)

  evict-Drops :
      (max_replay max_bytes : ℕ) (entry : Entry F) (events : List (Entry F)) (retained : ℕ)
      → retained ≡ total_size events
      → Drops max_replay max_bytes entry events
          (evict max_replay max_bytes entry.size events retained).0
  unfolding evict
  evict-Drops max_replay max_bytes entry [] retained h = ([], refl, tt)
  evict-Drops max_replay max_bytes entry (e ∷ events) retained h =
      elim (Bool-cases
        (leb max_replay (length (e ∷ events)) || ltb max_bytes (retained + entry.size))) [
          | inr room ↦ rw room ([], refl, tt)
          | inl full ↦ rw full (
              drop_one max_replay max_bytes entry e events _ (rw h at full)
                (evict-Drops max_replay max_bytes entry events (retained - e.size) (omega arith)))
        ]

  -- The newest frame takes its place at the end of the log.
  append_entry-Represents :
      (log : List (Entry F)) (entry : Entry F) (g : Gateway F)
      → Represents log g
      → entry.size ≤ g.max_replay_bytes
      → Represents (log ++ entry ∷ []) (append_entry entry g)
  unfolding append_entry
  append_entry-Represents log entry g (w, (before, whole, c)) fits = (
    append_entry-IsWithin entry g w fits,
    join (
        evict-Drops g.max_replay g.max_replay_bytes entry g.events g.retained_frame_bytes
          w.counted),
  )
    where
      kept : List (Entry F)
      kept = (evict g.max_replay g.max_replay_bytes entry.size g.events g.retained_frame_bytes).0

      join :
          Drops g.max_replay g.max_replay_bytes entry g.events kept
          → (older : List (Entry F)) × (older ++ (kept ++ entry ∷ []) ≡ log ++ entry ∷ [])
            × Cut g.max_replay g.max_replay_bytes older (kept ++ entry ∷ [])
      join ([], same, d) = (
        before,
        (simp append_assoc)
            ∙ ap (λ l. (before ++ l) ++ entry ∷ []) same
            ∙ ap (λ l. l ++ entry ∷ []) whole,
        Cut-grow g.max_replay g.max_replay_bytes before kept entry (rw same c),
      )
      join (e ∷ older, same, d) = (
        before ++ e ∷ older,
        (simp append_assoc)
            ∙ ap (λ l. (before ++ l) ++ entry ∷ []) same
            ∙ ap (λ l. l ++ entry ∷ []) whole,
        Cut-append g.max_replay g.max_replay_bytes before e older (kept ++ entry ∷ []) d,
      )

module _ {F : Type 0} where
  recounted :
      (log : List (Entry F)) (count : ℕ) (g : Gateway F)
      → Represents log g
      → Represents log (record g { published_events = count })
  recounted log count g (w, rest) = (
    record {
      counted = w.counted;
      few_frames = w.few_frames;
      few_bytes = w.few_bytes;
      some_replay = w.some_replay;
      few_clients = w.few_clients;
    },
    rest,
  )

  pub new_gateway-Represents : (a b c d : ℕ) → Represents {F = F} [] (new_gateway a b c d)
  unfolding new_gateway
  new_gateway-Represents a b c d = (new_gateway-IsWithin a b c d, ([], refl, tt))

module _ (floats : Floats) (frame_size : Frame floats.Float → Option ℕ) where
  open floats use {Float}

  module _ (limit max_bytes total : ℕ) where
    -- What a batch of events adds to the log, and the answer, `total` where none is refused: a frame
    -- for each event up to the first that is refused.
    pub data Logged
        : List (TelemetryEvent Float × ℕ) → List (Entry Float) → Outcome ℕ → Type 0 where
      all_logged : Logged [] [] (ok total)
      one_logged :
          (event : TelemetryEvent Float) (now : ℕ) (frame : Frame Float) (size : ℕ)
          (events : List (TelemetryEvent Float × ℕ)) (entries : List (Entry Float))
          (answer : Outcome ℕ)
          → bounded_frame floats frame_size limit event ≡ ok (frame, size)
          → size ≤ max_bytes
          → Logged events entries answer
          → Logged
              ((event, now) ∷ events)
              (record { frame = frame; published_at = now; size = size } ∷ entries)
              answer
      refused :
          (event : TelemetryEvent Float) (now : ℕ) (events : List (TelemetryEvent Float × ℕ))
          (error : GatewayError)
          → bounded_frame floats frame_size limit event ≡ err error
          → Logged ((event, now) ∷ events) [] (err error)
      too_large :
          (event : TelemetryEvent Float) (now : ℕ) (events : List (TelemetryEvent Float × ℕ))
          (frame : Frame Float) (size : ℕ)
          → bounded_frame floats frame_size limit event ≡ ok (frame, size)
          → max_bytes < size
          → Logged ((event, now) ∷ events) [] (err replay_budget)

  -- The log behind a batch, with the answer.
  abbrev pub Publishes :
      ℕ
      → List (Entry Float)
      → List (TelemetryEvent Float × ℕ)
      → Gateway Float
      → Outcome ℕ × Gateway Float
      → Type 0
  Publishes total log events g (answer, after) =
      (entries : List (Entry Float)) × Logged g.frame_byte_limit g.max_replay_bytes total events
        entries answer
      × Represents (log ++ entries) after

  publish_loop-Publishes :
      (events : List (TelemetryEvent Float × ℕ)) (count total : ℕ) (log : List (Entry Float))
      (g : Gateway Float)
      → count + length events ≡ total
      → Represents log g
      → Publishes total log events g (publish_loop floats frame_size events count g)
  unfolding publish_loop append_entry
  publish_loop-Publishes [] count total log g h r =
      let same : count ≡ total = omega (arith, h) in
      rw same ([], all_logged, rw (append-nil log) (recounted log (g.published_events + total) g r))
  publish_loop-Publishes ((event, now) ∷ events) count total log g h r =
      elim (Outcome-cases (bounded_frame floats frame_size g.frame_byte_limit event)) [
        | inr (x, e) ↦
            rw (e, publish_loop) ([], refused event now events x e, rw (append-nil log) r)
        | inl ((frame, size), e) ↦ elim (Bool-cases (ltb g.max_replay_bytes size)) [
          | inl large ↦
              rw (e, publish_loop, large)
                (
                  [],
                  too_large event now events frame size e (ground (arith, large)),
                  rw (append-nil log) r,
                )
          | inr fits ↦
              let entry : Entry Float = record { frame = frame; published_at = now; size = size } in
              let small : size ≤ g.max_replay_bytes = ground (arith, fits) in
              let (entries, logged, after) =
                publish_loop-Publishes events (count + 1) total (log ++ entry ∷ [])
                  (append_entry entry g) (omega (arith, h))
                  (append_entry-Represents log entry g r small) in
              rw (e, publish_loop, fits)
                (
                  entry ∷ entries,
                  one_logged event now frame size events entries _ e small logged,
                  rw (append_assoc log (entry ∷ []) entries) at after,
                )
        ]
      ]

  -- `publish` refines an unbounded log. It adds to the log a frame for each event up to the first
  -- that is refused, in order, answers their number or the first refusal, and leaves in the buffer the
  -- longest end of the log that the limits on frames and bytes allow.
  pub publish-Publishes :
      (events : List (TelemetryEvent Float × ℕ)) (log : List (Entry Float)) (g : Gateway Float)
      → Represents log g
      → Publishes (length events) log events g (publish floats frame_size events g)
  unfolding publish
  publish-Publishes events log g r =
      publish_loop-Publishes events 0 (length events) log g (omega arith) r
