-- ===== src/Broker/Accepted.antt =====
-- The gateway takes the broker's sessions as they are.
use mathlib.Core.Path.{subst}
use mikrotik_openvpn_gui.Common.{
  ℕ, ◌≤◌, ◌≡◌, ◌≢◌, inl, inr, refl, sym, String, Option, none, some, List, [], ◌∷◌, arith, length,
  Option-cases,
}
use mikrotik_openvpn_gui.Common.Int.{pos}
use mikrotik_openvpn_gui.Gateway.Value.{
  Floats, Value, Fields, integer, float, str, boolean, null, dict, list, get_field, utf8_length,
}
use mikrotik_openvpn_gui.Gateway.Limits.{max_text_bytes, max_counter_value}
use mikrotik_openvpn_gui.Gateway.Error.{ok}
use mikrotik_openvpn_gui.Gateway.Bounded.{
  bounded_text, bounded_counter, bounded_flag, session_field, project, redact_session,
}
use mikrotik_openvpn_gui.Broker.Text.{Conversions, fitting, text_of, text, counter}
use mikrotik_openvpn_gui.Broker.Session.{
  Session, named_session, normalize_session, session_id_of, kept, preserve_unobserved,
  session_payload, rx_byte_names, tx_byte_names, rx_packet_names, tx_packet_names,
}

abbrev pub FitsText : List ℕ → Type 0
FitsText cs =
    (length cs ≤ max_text_bytes) × ((n : ℕ) × (utf8_length cs ≡ some n) × (n ≤ max_text_bytes))

pub record IsPublic (s : Session) : Type 0 where
  pub fits_id : FitsText s.id
  pub fits_name : FitsText s.name
  pub fits_vpn : FitsText s.vpn_address
  pub fits_source : FitsText s.source_address
  pub fits_uptime : FitsText s.uptime
  pub fits_encoding : FitsText s.encoding
  pub fits_service : FitsText s.service
  pub rx_bytes_le : s.rx_bytes ≤ max_counter_value
  pub tx_bytes_le : s.tx_bytes ≤ max_counter_value
  pub rx_packets_le : s.rx_packets ≤ max_counter_value
  pub tx_packets_le : s.tx_packets ≤ max_counter_value

abbrev pub OptionIsPublic : Option Session → Type 0
OptionIsPublic none = Unit
OptionIsPublic (some s) = IsPublic s

fitting-FitsText : (cs ds : List ℕ) → fitting cs ≡ some ds → FitsText ds
unfolding fitting
fitting-FitsText cs ds h = elim (Option-cases (utf8_length cs)) [
  | inl e ↦ absurd (ground (arith, e))
  | inr (n, e) ↦
      let same : cs ≡ ds = ground (arith, e) in
      rw (sym same) (ground (arith, e), (n, e, ground (arith, e)))
]

module _ (floats : Floats) (conversions : Conversions floats.Float) where
  open floats use {Float}

  text_of-FitsText :
      (v : Value Float) (cs : List ℕ) → text_of floats conversions v ≡ some cs → FitsText cs
  unfolding text_of
  text_of-FitsText (str ds) cs h = ground (arith, fitting-FitsText (conversions.strip ds) cs)
  text_of-FitsText (integer z) cs h =
      ground (arith, fitting-FitsText (conversions.show_integer z) cs)
  text_of-FitsText (float x) cs h = ground (arith, fitting-FitsText (conversions.show_float x) cs)
  text_of-FitsText null cs h = cc
  text_of-FitsText (boolean b) cs h = cc
  text_of-FitsText (list vs) cs h = cc
  text_of-FitsText (dict fs) cs h = cc

  text-FitsText :
      (names : List String) (fields : Fields Float)
      → FitsText (text floats conversions names fields)
  unfolding text
  text-FitsText [] fields = (omega arith, (0, refl, omega arith))
  text-FitsText (key ∷ names) fields = elim (Option-cases (get_field key fields)) [
    | inl e ↦ rw (e, text) (text-FitsText names fields)
    | inr (v, e) ↦ elim (Option-cases (text_of floats conversions v)) [
      | inl d ↦ rw (e, text, d) (text-FitsText names fields)
      | inr (cs, d) ↦ rw (e, text, d) (text_of-FitsText v cs d)
    ]
  ]

  counter-bound :
      (names : List String) (fields : Fields Float)
      → counter floats conversions names fields ≤ max_counter_value
  unfolding counter
  counter-bound names fields = ground arith

  -- What a session without an id would be called plays no part in one that has its own.
  own_id :
      (given username vpn source : List ℕ)
      → given ≢ []
      → session_id_of given username vpn source ≡ given
  own_id [] username vpn source h = absurd (h refl)
  own_id (c ∷ cs) username vpn source h = refl

  named_session-IsPublic :
      (now : ℕ) (fields : Fields Float) (username : List ℕ)
      → text floats conversions (".id" ∷ "id" ∷ []) fields ≢ []
      → FitsText username
      → OptionIsPublic (named_session floats conversions now fields username)
  unfolding named_session
  named_session-IsPublic now fields [] own fits = tt
  named_session-IsPublic now fields (c ∷ cs) own fits = record {
    fits_id =
        rw (own_id (text floats conversions (".id" ∷ "id" ∷ []) fields) (c ∷ cs) _ _ own)
          (text-FitsText _ fields);
    fits_name = fits;
    fits_vpn = text-FitsText _ fields;
    fits_source = text-FitsText _ fields;
    fits_uptime = text-FitsText _ fields;
    fits_encoding = text-FitsText _ fields;
    fits_service = text-FitsText _ fields;
    rx_bytes_le = counter-bound _ fields;
    tx_bytes_le = counter-bound _ fields;
    rx_packets_le = counter-bound _ fields;
    tx_packets_le = counter-bound _ fields;
  }

  normalize_session-IsPublic :
      (now : ℕ) (fields : Fields Float) (s : Session)
      → text floats conversions (".id" ∷ "id" ∷ []) fields ≢ []
      → normalize_session floats conversions now fields ≡ some s
      → IsPublic s
  unfolding normalize_session
  normalize_session-IsPublic now fields s own h =
      subst OptionIsPublic h (named_session-IsPublic now fields _ own (text-FitsText _ fields))

  kept-bound :
      (names : List String) (fields : Fields Float) (before now : ℕ)
      → before ≤ max_counter_value
      → now ≤ max_counter_value
      → kept floats conversions names fields before now ≤ max_counter_value
  unfolding kept
  kept-bound names fields before now h k = ground arith

  preserve_unobserved-IsPublic :
      (fields : Fields Float) (before : Option Session) (s : Session)
      → OptionIsPublic before
      → IsPublic s
      → IsPublic (preserve_unobserved floats conversions fields before s)
  unfolding preserve_unobserved
  preserve_unobserved-IsPublic fields none s q p = p
  preserve_unobserved-IsPublic fields (some b) s q p = record {
    fits_id = p.fits_id;
    fits_name = p.fits_name;
    fits_vpn = p.fits_vpn;
    fits_source = p.fits_source;
    fits_uptime = p.fits_uptime;
    fits_encoding = p.fits_encoding;
    fits_service = p.fits_service;
    rx_bytes_le = kept-bound rx_byte_names fields _ _ q.rx_bytes_le p.rx_bytes_le;
    tx_bytes_le = kept-bound tx_byte_names fields _ _ q.tx_bytes_le p.tx_bytes_le;
    rx_packets_le = kept-bound rx_packet_names fields _ _ q.rx_packets_le p.rx_packets_le;
    tx_packets_le = kept-bound tx_packet_names fields _ _ q.tx_packets_le p.tx_packets_le;
  }

  bounded_text-FitsText : (cs : List ℕ) → FitsText cs → bounded_text floats (str cs) ≡ ok (str cs)
  unfolding bounded_text
  bounded_text-FitsText cs (short, (n, e, small)) = ground (arith, e)

  bounded_counter_le :
      (n : ℕ)
      → n ≤ max_counter_value
      → bounded_counter floats (integer (pos n)) ≡ ok (integer (pos n))
  unfolding bounded_counter
  bounded_counter_le n h = ground arith

  redact_session-payload :
      (s : Session)
      → IsPublic s
      → redact_session floats (dict (session_payload s)) ≡ ok (session_payload s)
  unfolding redact_session project session_field bounded_flag
  redact_session-payload s p =
      rw
        (
          bounded_text-FitsText s.id p.fits_id,
          bounded_text-FitsText s.name p.fits_name,
          bounded_text-FitsText s.vpn_address p.fits_vpn,
          bounded_text-FitsText s.source_address p.fits_source,
          bounded_text-FitsText s.uptime p.fits_uptime,
          bounded_text-FitsText s.encoding p.fits_encoding,
          bounded_text-FitsText s.service p.fits_service,
          bounded_counter_le s.rx_bytes p.rx_bytes_le,
          bounded_counter_le s.tx_bytes p.tx_bytes_le,
          bounded_counter_le s.rx_packets p.rx_packets_le,
          bounded_counter_le s.tx_packets p.tx_packets_le,
        )
        refl

  -- What the broker makes of a record that names its session and gives its id, the counters of the
  -- session before it kept, is a payload that the gateway's redaction returns unchanged: no text is
  -- too long or badly encoded, no counter out of range, and no field dropped.
  pub redact_session-normalize_session :
      (now : ℕ) (fields : Fields Float) (before : Option Session) (s : Session)
      → text floats conversions (".id" ∷ "id" ∷ []) fields ≢ []
      → OptionIsPublic before
      → normalize_session floats conversions now fields ≡ some s
      → let sent = session_payload (preserve_unobserved floats conversions fields before s) in
        (redact_session floats (dict sent) ≡ ok sent)
        × IsPublic (preserve_unobserved floats conversions fields before s)
  redact_session-normalize_session now fields before s own q h =
      let p =
        preserve_unobserved-IsPublic fields before s q
          (normalize_session-IsPublic now fields s own h) in
      (redact_session-payload (preserve_unobserved floats conversions fields before s) p, p)
