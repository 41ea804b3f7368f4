-- ===== src/SessionStore/Roles/Below.antt =====
-- A session never gains a capability while it lives.
use text.Mathlib.TextEquality.{eq_iff}
use mikrotik_openvpn_gui.Common.{
  ◌≡◌, ◌⊎◌, inl, inr, refl, sym, ap, ◌∙◌, String, true, not, ◌&&◌, ◌||◌, none, some, List, [], ◌∷◌,
  arith, if◌then◌else◌, Bool-cases,
}
use mikrotik_openvpn_gui.Gateway.Limits.{among}
use mikrotik_openvpn_gui.Gateway.Principal.{
  normalize_role, role_capabilities, has_capability, capability_table, alias_of,
}
use mikrotik_openvpn_gui.Common.Dict.{contains, lookup}
use mikrotik_openvpn_gui.SessionStore.Roles.{is_subset, role_is_subset, settled_role}

-- Whoever has the role `lower` may do nothing that `upper` may not.
abbrev pub Below : String → String → Type 0
Below lower upper =
    (capability : String)
    → has_capability lower capability ≡ true
    → has_capability upper capability ≡ true

among-is_subset :
    (k : String) (left right : List String)
    → is_subset left right ≡ true
    → among k left ≡ true
    → among k right ≡ true
among-is_subset k [] right h m = cc
among-is_subset k (x ∷ left) right h m = ground (arith, eq_iff x k, among-is_subset k left right)

among_below :
    (k : String) (lower upper : List String)
    → (among "*" upper || (not (among "*" lower) && is_subset lower upper)) ≡ true
    → (among "*" lower || among k lower) ≡ true
    → (among "*" upper || among k upper) ≡ true
among_below k lower upper h m = ground (arith, among-is_subset k lower upper)

role_is_subset-Below :
    (lower upper : String) → role_is_subset lower upper ≡ true → Below lower upper
unfolding role_is_subset has_capability
role_is_subset-Below lower upper h capability m =
    among_below capability (role_capabilities lower) (role_capabilities upper) h m

abbrev IsRole : String → Type 0
IsRole r =
    (r ≡ "owner")
    ⊎ ((r ≡ "security_operator") ⊎ ((r ≡ "administrator") ⊎ ((r ≡ "auditor") ⊎ (r ≡ "read_only"))))

known-IsRole : (r : String) → contains r capability_table ≡ true → IsRole r
known-IsRole r h = ground (
  arith,
  eq_iff "owner" r,
  eq_iff "security_operator" r,
  eq_iff "administrator" r,
  eq_iff "auditor" r,
  eq_iff "read_only" r,
)

known_or_read_only : (r : String) → IsRole (if contains r capability_table then r else "read_only")
known_or_read_only r = elim (Bool-cases (contains r capability_table)) [
  | inl e ↦ rw e (known-IsRole r e)
  | inr e ↦ rw e (inr (inr (inr (inr refl))))
]

normalize_role-IsRole : (r : String) → IsRole (normalize_role r)
unfolding normalize_role
normalize_role-IsRole r = known_or_read_only (alias_of r)

-- A role that is normalized stays as it is.
normalize_role_fixed : (r : String) → IsRole r → normalize_role r ≡ r
unfolding normalize_role
normalize_role_fixed r (inl e) = rw e refl
normalize_role_fixed r (inr (inl e)) = rw e refl
normalize_role_fixed r (inr (inr (inl e))) = rw e refl
normalize_role_fixed r (inr (inr (inr (inl e)))) = rw e refl
normalize_role_fixed r (inr (inr (inr (inr e)))) = rw e refl

normalize_role_idem : (r : String) → normalize_role (normalize_role r) ≡ normalize_role r
normalize_role_idem r = normalize_role_fixed (normalize_role r) (normalize_role-IsRole r)

-- A role and its normal form allow the same.
has_capability-normalize_role :
    (r capability : String)
    → has_capability (normalize_role r) capability ≡ has_capability r capability
unfolding has_capability role_capabilities
has_capability-normalize_role r capability =
    ap
      (λ role.
        let names = elim (lookup role capability_table) as (λ x. List String) [
          | none ↦ []
          | some names ↦ names
        ] in
        among "*" names || among capability names)
      (normalize_role_idem r)

-- What the router says of an account never gives a live session more than it had.
pub settled_role-Below :
    (current found role : String) → settled_role current found ≡ some role → Below role current
unfolding settled_role
settled_role-Below current found role h =
    let now = normalize_role current in
    let next = normalize_role found in
    elim (Bool-cases (role_is_subset next now)) [
      | inl lower ↦
          let same : next ≡ role = ground (arith, lower) in
          λ capability m.
            sym (has_capability-normalize_role current capability)
            ∙ role_is_subset-Below next now lower capability
                (ap (λ r. has_capability r capability) same ∙ m)
      | inr e ↦ elim (Bool-cases (role_is_subset now next)) [
        | inl higher ↦
            let same : current ≡ role = ground (arith, e, higher) in
            λ capability m. ap (λ r. has_capability r capability) same ∙ m
        | inr neither ↦ absurd (ground (arith, e, neither))
      ]
    ]
