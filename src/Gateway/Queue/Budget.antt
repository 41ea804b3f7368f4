-- ===== src/Gateway/Queue/Budget.antt =====
-- The replay buffer stays within its counts, and keeps the newest frames.
use mikrotik_openvpn_gui.Common.{
  ℕ, ◌+◌, ◌-◌, ◌<◌, ◌≤◌, ◌≡◌, ◌⊎◌, inl, inr, refl, sym, ap, String, false, Option, List, [], ◌∷◌,
  ◌++◌, arith, length, length-append, Bool-cases, leb, ltb, ◌||◌,
}
use mikrotik_openvpn_gui.Common.Dict.{length-insert, length-erase}
use mikrotik_openvpn_gui.Gateway.Value.{Floats}
use mikrotik_openvpn_gui.Gateway.Error.{Outcome-cases}
use mikrotik_openvpn_gui.Gateway.Principal.{TelemetryPrincipal}
use mikrotik_openvpn_gui.Gateway.Frame.{TelemetryEvent, Frame, build_frame}
use mikrotik_openvpn_gui.Gateway.Frame.Boundary.{build_frame-sequence}
use mikrotik_openvpn_gui.Gateway.Error.{ok}
use mikrotik_openvpn_gui.Common.Int.{pos}
use mikrotik_openvpn_gui.Gateway.Queue.{
  Gateway, Entry, new_gateway, open_subscription, close_subscription, evict, append_entry,
  bounded_frame,
}

module _ {F : Type 0} where
  abbrev pub total_size : List (Entry F) → ℕ
  total_size [] = 0
  total_size (e ∷ events) = e.size + total_size events

  -- The counter of retained bytes is right, and the limits on frames, bytes and clients hold.
  pub record IsWithin (g : Gateway F) : Type 0 where
    pub counted : g.retained_frame_bytes ≡ total_size g.events
    pub few_frames : length g.events ≤ g.max_replay
    pub few_bytes : g.retained_frame_bytes ≤ g.max_replay_bytes
    pub some_replay : 0 < g.max_replay
    pub few_clients : length g.clients ≤ g.max_clients

  -- `newest` is the end of `events`.
  abbrev pub IsEnd : List (Entry F) → List (Entry F) → Type 0
  IsEnd newest events = (older : List (Entry F)) × (older ++ newest ≡ events)

  pub total_size-append :
      (xs ys : List (Entry F)) → total_size (xs ++ ys) ≡ total_size xs + total_size ys
  total_size-append [] ys = omega arith
  total_size-append (x ∷ xs) ys = omega (arith, total_size-append xs ys)

  pub new_gateway-IsWithin : (a b c d : ℕ) → IsWithin (new_gateway a b c d)
  unfolding new_gateway
  new_gateway-IsWithin a b c d = record {
    counted = refl;
    few_frames = omega arith;
    few_bytes = omega arith;
    some_replay = omega arith;
    few_clients = omega arith;
  }

  evict_lem :
      (max_replay max_bytes size : ℕ) (events : List (Entry F)) (retained : ℕ)
      → retained ≡ total_size events
      → let (kept, left) = evict max_replay max_bytes size events retained in
        (left ≡ total_size kept)
        × ((kept ≡ []) ⊎ ((length kept < max_replay) × (left + size ≤ max_bytes)))
  unfolding evict
  evict_lem max_replay max_bytes size [] retained h = (h, inl refl)
  evict_lem max_replay max_bytes size (e ∷ events) retained h =
      ground (arith, evict_lem max_replay max_bytes size events (retained - e.size))

  pub evict-IsEnd :
      (max_replay max_bytes size : ℕ) (events : List (Entry F)) (retained : ℕ)
      → IsEnd (evict max_replay max_bytes size events retained).0 events
  unfolding evict
  evict-IsEnd max_replay max_bytes size [] retained = ([], refl)
  evict-IsEnd max_replay max_bytes size (e ∷ events) retained =
      elim (Bool-cases (leb max_replay (length (e ∷ events)) || ltb max_bytes (retained + size))) [
        | inl full ↦
            let (older, whole) = evict-IsEnd max_replay max_bytes size events (retained - e.size) in
            (e ∷ older, rw full (ap (λ l. e ∷ l) whole))
        | inr room ↦ ([], rw room)
      ]

  pub append_entry-IsWithin :
      (entry : Entry F) (g : Gateway F)
      → IsWithin g
      → entry.size ≤ g.max_replay_bytes
      → IsWithin (append_entry entry g)
  unfolding append_entry
  append_entry-IsWithin entry g w fits =
      let kept = evict g.max_replay g.max_replay_bytes entry.size g.events g.retained_frame_bytes in
      let found =
        evict_lem g.max_replay g.max_replay_bytes entry.size g.events g.retained_frame_bytes
          w.counted in
      ground (arith, length-append kept.0 (entry ∷ []), total_size-append kept.0 (entry ∷ []))

  -- `open` keeps the limits, whoever calls it: also at the last place, or when it refuses.
  pub open_subscription-IsWithin :
      (identifier : String) (now : ℕ) (principal : TelemetryPrincipal) (g : Gateway F)
      → IsWithin g
      → IsWithin (open_subscription identifier now principal g).1
  unfolding open_subscription
  open_subscription-IsWithin identifier now principal g w = ground (
    arith,
    length-insert identifier
        (record { created_at = now; last_seen_sequence = 0; client_cursor_seen = false }) g.clients,
  )

  pub close_subscription-IsWithin :
      (identifier : String) (g : Gateway F)
      → IsWithin g
      → IsWithin (close_subscription identifier g).1
  unfolding close_subscription
  close_subscription-IsWithin identifier g w = ground (arith, length-erase identifier g.clients)

module _ (floats : Floats) (frame_size : Frame floats.Float → Option ℕ) where
  open floats use {Float}

  -- A frame within the limit keeps its event's number.
  pub bounded_frame-sequence :
      (limit n : ℕ) (event : TelemetryEvent Float) (frame : Frame Float) (size : ℕ)
      → event.sequence ≡ pos n
      → bounded_frame floats frame_size limit event ≡ ok (frame, size)
      → frame.sequence ≡ n
  unfolding bounded_frame
  bounded_frame-sequence limit n event frame size h e =
      elim (Outcome-cases (build_frame floats frame_size event)) [
        | inr (x, d) ↦ absurd (ground (arith, d))
        | inl ((built, k), d) ↦
            let same : built ≡ frame = ground (arith, d) in
            rw (sym same) (build_frame-sequence floats frame_size event built k n h d)
      ]
