-- ===== src/Gateway/Value.antt =====
-- The Python values that a telemetry payload is made of. A text is its code points. Floats are a
-- parameter of the model: a type with the tests that the gateway makes.
use mikrotik_openvpn_gui.Common.{
  ℕ, suc, ◌+◌, String, Bool, true, false, ◌&&◌, Option, none, some, List, [], ◌∷◌, ltb, leb, ◌==◌,
  if◌then◌else◌,
}
use mikrotik_openvpn_gui.Common.Int.{ℤ}
use Prim.Native.Char.{code}
use text.Mathlib.Text.{◌==◌ as str_eq}

-- `value < 0`, `value > maximum` and `math.isfinite(value)`.
pub record Floats : Type 1 where
  pub Float : Type 0
  pub is_negative : Float → Bool
  pub exceeds : Float → ℕ → Bool
  pub is_finite : Float → Bool

mutual
  pub data Value (F : Type 0) : Type 0 where
    null : Value F
    boolean : Bool → Value F
    integer : ℤ → Value F
    float : F → Value F
    str : List ℕ → Value F
    list : Values F → Value F
    dict : Fields F → Value F

  pub data Values (F : Type 0) : Type 0 where
    nil : Values F
    cons : Value F → Values F → Values F

  pub data Fields (F : Type 0) : Type 0 where
    end : Fields F
    field : String → Value F → Fields F → Fields F

module _ {F : Type 0} where
  -- `value.get(key)`, and `key in value`
  abbrev pub get_field : String → Fields F → Option (Value F)
  get_field k end = none
  get_field k (field j v fs) = if str_eq j k then some v else get_field k fs

  abbrev pub count_values : Values F → ℕ
  count_values nil = 0
  count_values (cons v vs) = suc (count_values vs)

-- The code points of a literal.
abbrev pub codes : String → List ℕ
codes String.[] = []
codes (String.◌∷◌ c s) = code c ∷ codes s

-- The number of UTF-8 bytes of a text; `none` where `encode` raises, at a surrogate.
abbrev pub utf8_length : List ℕ → Option ℕ
utf8_length [] = some 0
utf8_length (c ∷ cs) =
    let rest = utf8_length cs in
    elim rest [
      | none ↦ none
      | some n ↦
          if ltb c 0x80
          then some (n + 1)
          else if ltb c 0x800
          then some (n + 2)
          else if leb 0xD800 c && leb c 0xDFFF
          then none
          else if ltb c 0x10000
          then some (n + 3)
          else some (n + 4)
    ]

-- Texts by their code points.
abbrev pub same_codes : List ℕ → List ℕ → Bool
same_codes [] [] = true
same_codes (a ∷ as') (b ∷ bs) = a == b && same_codes as' bs
same_codes _ _ = false
