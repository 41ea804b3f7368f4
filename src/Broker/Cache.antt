-- ===== src/Broker/Cache.antt =====
-- A Python dict whose keys are texts, given by their code points: its items in insertion order.
use mikrotik_openvpn_gui.Common.{
  ℕ, suc, ◌≤◌, ◌≡◌, refl, ap, Bool, true, false, Option, none, some, List, [], ◌∷◌, arith, length,
  if◌then◌else◌,
}
use mikrotik_openvpn_gui.Gateway.Value.{same_codes}

abbrev pub Cache {ℓ} : Type ℓ → Type ℓ
Cache V = List (List ℕ × V)

module _ {ℓ} {V : Type ℓ} where
  -- `cache.get(key)`
  abbrev pub find : List ℕ → Cache V → Option V
  find k [] = none
  find k ((j, v) ∷ d) = if same_codes j k then some v else find k d

  -- `cache[key] = value`
  abbrev pub put : List ℕ → V → Cache V → Cache V
  put k v [] = (k, v) ∷ []
  put k v ((j, w) ∷ d) = if same_codes j k then (k, v) ∷ d else (j, w) ∷ put k v d

  -- `cache.pop(key, None)`
  abbrev pub remove : List ℕ → Cache V → Cache V
  remove k [] = []
  remove k ((j, w) ∷ d) = if same_codes j k then remove k d else (j, w) ∷ remove k d

  -- `key in cache`
  abbrev pub holds : List ℕ → Cache V → Bool
  holds k [] = false
  holds k ((j, v) ∷ d) = if same_codes j k then true else holds k d

pub same_codes_refl : (a : List ℕ) → same_codes a a ≡ true
same_codes_refl [] = refl
same_codes_refl (x ∷ a) = ground (arith, same_codes_refl a)

pub same_codes_eq : (a b : List ℕ) → same_codes a b ≡ true → a ≡ b
same_codes_eq [] [] h = refl
same_codes_eq [] (y ∷ b) h = cc
same_codes_eq (x ∷ a) [] h = cc
same_codes_eq (x ∷ a) (y ∷ b) h = ground (arith, same_codes_eq a b)

-- Tests of one text against two that are the same.
pub same_codes_cc : (a b c : List ℕ) → same_codes a b ≡ true → same_codes a c ≡ same_codes b c
same_codes_cc a b c h = ap (λ t. same_codes t c) (same_codes_eq a b h)

pub same_codes_at : (a b c : List ℕ) → same_codes b c ≡ true → same_codes a b ≡ same_codes a c
same_codes_at a b c h = ap (λ t. same_codes a t) (same_codes_eq b c h)

module _ {ℓ} {V : Type ℓ} where
  pub find-put :
      (k j : List ℕ) (v : V) (d : Cache V)
      → find j (put k v d) ≡ (if same_codes k j then some v else find j d)
  find-put k j v [] = refl
  find-put k j v ((i, w) ∷ d) =
      ground (arith, same_codes_cc i k j, same_codes_at i k j, find-put k j v d)

  pub find-remove :
      (k j : List ℕ) (d : Cache V)
      → find j (remove k d) ≡ (if same_codes k j then none else find j d)
  find-remove k j [] = ground arith
  find-remove k j ((i, w) ∷ d) =
      ground (arith, same_codes_cc i k j, same_codes_at i k j, find-remove k j d)

  pub length-put : (k : List ℕ) (v : V) (d : Cache V) → length (put k v d) ≤ suc (length d)
  length-put k v [] = omega arith
  length-put k v ((i, w) ∷ d) = ground (arith, length-put k v d)

  pub length-remove : (k : List ℕ) (d : Cache V) → length (remove k d) ≤ length d
  length-remove k [] = omega arith
  length-remove k ((i, w) ∷ d) = ground (arith, length-remove k d)

  -- A key that is there is removed.
  pub length-remove_held :
      (k : List ℕ) (d : Cache V) → holds k d ≡ true → suc (length (remove k d)) ≤ length d
  length-remove_held k [] h = cc
  length-remove_held k ((i, w) ∷ d) h = ground (arith, length-remove k d, length-remove_held k d)
