-- ===== src/Limiter/Attempts.antt =====
-- `reserve` and `finish`: the attempts of each identity.
pub mod Bound
use text.Mathlib.Text.{◌==◌ as str_eq}
use mikrotik_openvpn_gui.Common.{
  ℕ, suc, ◌+◌, ◌-◌, String, Bool, true, false, not, ◌&&◌, Option, none, some, List, [], ◌∷◌, ◌++◌,
  ltb, leb, if◌then◌else◌, length,
}
use mikrotik_openvpn_gui.Common.Dict.{Dict, lookup, insert, erase, values, keys}

pub record Limiter : Type 0 where
  pub limit : ℕ
  pub window_seconds : ℕ
  pub max_tracked_identities : ℕ
  pub max_in_flight : ℕ
  pub attempts : Dict (List ℕ)
  pub reservations : Dict String

-- `[stamp for stamp in history if stamp > current - window_seconds]`
abbrev pub recent : ℕ → ℕ → List ℕ → List ℕ
recent window current [] = []
recent window current (stamp ∷ history) =
    if ltb current (stamp + window)
    then stamp ∷ recent window current history
    else recent window current history

-- The loop that keeps each identity's recent failures and drops identities that have none.
unfoldable pub prune : ℕ → ℕ → Dict (List ℕ) → Dict (List ℕ)
prune window current [] = []
prune window current ((identity, history) ∷ rest) = elim (recent window current history) [
  | [] ↦ prune window current rest
  | stamp ∷ stamps ↦ (identity, stamp ∷ stamps) ∷ prune window current rest
]

-- Python's `set`: `x in s` and `set(xs)`.
abbrev pub member : String → List String → Bool
member x [] = false
member x (y ∷ ys) = if str_eq y x then true else member x ys

abbrev pub as_set : List String → List String
as_set [] = []
as_set (x ∷ xs) = if member x xs then as_set xs else x ∷ as_set xs

-- `sum(owner == identity for owner in self._reservations.values())`
abbrev pub in_flight : String → List String → ℕ
in_flight identity [] = 0
in_flight identity (owner ∷ owners) =
    if str_eq owner identity then suc (in_flight identity owners) else in_flight identity owners

abbrev pub history_of : String → Dict (List ℕ) → List ℕ
history_of identity attempts = elim (lookup identity attempts) [ none ↦ [] | some h ↦ h ]

-- The guards behind the pruning, and the reservation.
admit : String → String → ℕ → Limiter → Limiter × Option String
admit token identity current l =
    let tracked = as_set (values l.reservations ++ keys l.attempts) in
    let attempts = recent l.window_seconds current (history_of identity l.attempts) in
    if leb l.max_in_flight (length l.reservations)
    then (l, none)
    else if not (member identity tracked) && leb l.max_tracked_identities (length tracked)
    then (l, none)
    else if leb l.limit (length attempts + in_flight identity (values l.reservations))
    then (l, none)
    else (record l { reservations = insert token identity l.reservations }, some token)

unfoldable pub reserve : String → String → ℕ → Limiter → Limiter × Option String
unfolding admit prune
reserve token identity current l =
    admit token identity current (record l { attempts = prune l.window_seconds current l.attempts })

-- What `finish` does with the history; `none` for an attempt that could not be verified.
settle : String → Option Bool → ℕ → Dict (List ℕ) → Dict (List ℕ)
settle identity none current attempts = attempts
settle identity (some true) current attempts =
    insert identity (history_of identity attempts ++ current ∷ []) attempts
settle identity (some false) current attempts = erase identity attempts

unfoldable pub finish : String → Option Bool → ℕ → Limiter → Limiter
unfolding settle
finish reservation failed current l = elim (lookup reservation l.reservations) [
  | none ↦ l
  | some identity ↦ record l {
    reservations = erase reservation l.reservations;
    attempts = settle identity failed current l.attempts;
  }
]
