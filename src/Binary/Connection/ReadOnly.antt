-- ===== src/Binary/Connection/ReadOnly.antt =====
-- All that a connection ever sends.
use mikrotik_openvpn_gui.Common.{
  ℕ, ◌==◌, ◌≡◌, inl, inr, Option, some, List, [], ◌∷◌, ◌++◌, arith, Bool-cases, Option-cases,
  String,
}
use mikrotik_openvpn_gui.Gateway.Value.{codes, same_codes}
use mikrotik_openvpn_gui.Broker.Cache.{same_codes_eq}
use mikrotik_openvpn_gui.Binary.Error.{ok}
use mikrotik_openvpn_gui.Binary.Query.{
  Query, approved, print_fields, listen_fields, active_session_fields, interface_print_fields,
}
use mikrotik_openvpn_gui.Binary.Query.Approved.{IsNarrow, validated_query-IsNarrow}

-- The sentences, without their tag, that change nothing on the router.
pub data IsReadOnly : List (List ℕ) → Type 0 where
  login :
      (username password : List ℕ)
      → IsReadOnly
          (codes "/login" ∷ (codes "=name=" ++ username) ∷ (codes "=password=" ++ password) ∷ [])
  print_interfaces :
      (query : List (List ℕ))
      → IsNarrow interface_print_fields query
      → IsReadOnly (codes "/interface/print" ∷ query)
  print_sessions :
      (query : List (List ℕ))
      → IsNarrow active_session_fields query
      → IsReadOnly (codes "/ppp/active/print" ∷ query)
  listen_sessions :
      (query : List (List ℕ))
      → IsNarrow active_session_fields query
      → IsReadOnly (codes "/ppp/active/listen" ∷ query)

approved-some :
    (table : List ℕ → Option (List String)) (path : List ℕ) (query : Query) (texts : List (List ℕ))
    → approved table path query ≡ ok texts
    → (allowed : List String) × (table path ≡ some allowed) × IsNarrow allowed texts
unfolding approved
approved-some table [] query texts h = cc
approved-some table (c ∷ path) query texts h = elim (Bool-cases (c == 47)) [
  | inr d ↦ absurd (ground (arith, d))
  | inl d ↦ elim (Option-cases (table (c ∷ path))) [
    | inl e ↦ absurd (ground (arith, d, e))
    | inr (allowed, e) ↦
        (allowed, e, validated_query-IsNarrow allowed query texts (ground (arith, d, e)))
  ]
]

pub execute-IsReadOnly :
    (path : List ℕ) (query : Query) (texts : List (List ℕ))
    → approved print_fields path query ≡ ok texts
    → IsReadOnly (path ∷ texts)
execute-IsReadOnly path query texts h =
    let (allowed, e, narrow) = approved-some print_fields path query texts h in
    elim (Bool-cases (same_codes path (codes "/interface/print"))) [
      | inl d ↦
          let same : interface_print_fields ≡ allowed = ground (arith, d, e) in
          rw (same_codes_eq path (codes "/interface/print") d)
            (print_interfaces texts (rw same narrow))
      | inr d ↦ elim (Bool-cases (same_codes path (codes "/ppp/active/print"))) [
        | inl f ↦
            let same : active_session_fields ≡ allowed = ground (arith, d, e, f) in
            rw (same_codes_eq path (codes "/ppp/active/print") f)
              (print_sessions texts (rw same narrow))
        | inr f ↦ absurd (ground (arith, d, e, f))
      ]
    ]

pub listen-IsReadOnly :
    (path : List ℕ) (query : Query) (texts : List (List ℕ))
    → approved listen_fields path query ≡ ok texts
    → IsReadOnly ((path ++ codes "/listen") ∷ texts)
listen-IsReadOnly path query texts h =
    let (allowed, e, narrow) = approved-some listen_fields path query texts h in
    elim (Bool-cases (same_codes path (codes "/ppp/active"))) [
      | inl d ↦
          let same : active_session_fields ≡ allowed = ground (arith, d, e) in
          rw (same_codes_eq path (codes "/ppp/active") d) (listen_sessions texts (rw same narrow))
      | inr d ↦ absurd (ground (arith, d, e))
    ]
