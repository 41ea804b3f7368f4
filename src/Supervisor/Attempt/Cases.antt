-- ===== src/Supervisor/Attempt/Cases.antt =====
-- How an attempt of the supervisor can end, and both branches of a test.
use mikrotik_openvpn_gui.Common.{◌≡◌, ◌⊎◌, inl, inr, refl, Bool, true, false, if◌then◌else◌}
use mikrotik_openvpn_gui.Supervisor.Attempt.{Ended, returned, raised, Failure}

pub Ended-cases : (e : Ended) → (e ≡ returned) ⊎ ((f : Failure) × (e ≡ raised f))
Ended-cases returned = inl refl
Ended-cases (raised f) = inr (f, refl)

pub either : {A : Type 0} (P : A → Type 0) (b : Bool) (x y : A) → P x → P y → P (if b then x else y)
either P true x y p q = p
either P false x y p q = q
