-- ===== src/Binary/Query/Approved.antt =====
-- What `_validated_query` lets through.
use mikrotik_openvpn_gui.Common.{
  ℕ, ◌≤◌, ◌≡◌, inl, inr, refl, ap, ◌∙◌, sym, true, ◌&&◌, some, List, [], ◌∷◌, ◌++◌, ltb, ◌==◌,
  length, String, arith, All, Bool-cases, Option-cases,
}
use mikrotik_openvpn_gui.Gateway.Value.{codes, utf8_length}
use mikrotik_openvpn_gui.Gateway.Limits.{text_among}
use mikrotik_openvpn_gui.Binary.Error.{ok}
use mikrotik_openvpn_gui.Binary.Query.{
  Query, word, not_text, bare_text, not_iterable, words, behind, split_commas, all_allowed,
  all_distinct, validated_word, validated_query, max_query_word_bytes,
}

-- `",".join(fields)`
abbrev pub join_commas : List (List ℕ) → List ℕ
join_commas [] = []
join_commas (field ∷ []) = field
join_commas (field ∷ next ∷ fields) = field ++ 44 ∷ join_commas (next ∷ fields)

-- A list of properties: allowed fields, none twice.
abbrev pub IsProplist : List String → List ℕ → Type 0
IsProplist allowed cs =
    (fields : List (List ℕ)) × (cs ≡ codes ".proplist=" ++ join_commas fields)
    × All (λ field. text_among field allowed ≡ true) fields
    × (all_distinct fields ≡ true)

-- No word, or one short list of properties.
abbrev pub IsNarrow : List String → List (List ℕ) → Type 0
IsNarrow allowed [] = Unit
IsNarrow allowed (cs ∷ []) = IsProplist allowed cs × (length cs ≤ max_query_word_bytes)
IsNarrow allowed (cs ∷ next ∷ more) = ⊥

split_commas-some :
    (cs : List ℕ) → (part : List ℕ) × (parts : List (List ℕ)) × (split_commas cs ≡ part ∷ parts)
split_commas-some [] = ([], [], refl)
split_commas-some (c ∷ cs) =
    let (part, parts, e) = split_commas-some cs in
    elim (Bool-cases (c == 44)) [
      | inl d ↦ ([], part ∷ parts, rw (e, d) refl)
      | inr d ↦ (c ∷ part, parts, rw (e, d) refl)
    ]

join_commas-cons :
    (c : ℕ) (part : List ℕ) (parts : List (List ℕ))
    → join_commas ((c ∷ part) ∷ parts) ≡ c ∷ join_commas (part ∷ parts)
join_commas-cons c part [] = refl
join_commas-cons c part (next ∷ parts) = refl

join_commas-split_commas : (cs : List ℕ) → join_commas (split_commas cs) ≡ cs
join_commas-split_commas [] = refl
join_commas-split_commas (c ∷ cs) =
    let (part, parts, e) = split_commas-some cs in
    let whole : join_commas (part ∷ parts) ≡ cs = rw e at (join_commas-split_commas cs) in
    elim (Bool-cases (c == 44)) [
      | inl d ↦
          let comma : 44 ≡ c = ground (arith, d) in
          rw (e, d) (ap (λ (t : ℕ). t ∷ join_commas (part ∷ parts)) comma ∙ ap (λ t. c ∷ t) whole)
      | inr d ↦ rw (e, d) (join_commas-cons c part parts ∙ ap (λ t. c ∷ t) whole)
    ]

behind-append : (prefix cs rest : List ℕ) → behind prefix cs ≡ some rest → cs ≡ prefix ++ rest
behind-append [] cs rest h = cc
behind-append (p ∷ prefix) [] rest h = cc
behind-append (p ∷ prefix) (c ∷ cs) rest h = ground (arith, behind-append prefix cs rest)

all_allowed-All :
    (allowed : List String) (fields : List (List ℕ))
    → all_allowed allowed fields ≡ true
    → All (λ field. text_among field allowed ≡ true) fields
all_allowed-All allowed [] h = tt
all_allowed-All allowed (field ∷ fields) h =
    (ground (arith, h), all_allowed-All allowed fields (ground (arith, h)))

validated_word-IsNarrow :
    (allowed : List String) (cs : List ℕ) (texts : List (List ℕ))
    → validated_word allowed cs ≡ ok texts
    → IsNarrow allowed texts
unfolding validated_word
validated_word-IsNarrow allowed cs texts h =
    elim (Bool-cases (ltb max_query_word_bytes (length cs))) [
      | inl long ↦ absurd (ground (arith, long))
      | inr short ↦ elim (Option-cases (utf8_length cs)) [
        | inl e ↦ absurd (ground (arith, short, e))
        | inr (size, e) ↦ elim (Option-cases (behind (codes ".proplist=") cs)) [
          | inl d ↦ absurd (ground (arith, short, e, d))
          | inr (rest, d) ↦
              let fields = split_commas rest in
              let tests : (all_allowed allowed fields && all_distinct fields) ≡ true =
                ground (arith, short, e, d) in
              let given : cs ∷ [] ≡ texts = ground (arith, short, e, d) in
              let prefixed = behind-append (codes ".proplist=") cs rest d in
              rw (sym given) (
                (
                  fields,
                  rw (join_commas-split_commas rest) prefixed,
                  all_allowed-All allowed fields (ground (arith, tests)),
                  ground (arith, tests),
                ),
                ground (arith, short),
              )
        ]
      ]
    ]

-- Whatever the argument is, `_validated_query` gives no word or one short list of allowed properties.
pub validated_query-IsNarrow :
    (allowed : List String) (query : Query) (texts : List (List ℕ))
    → validated_query allowed query ≡ ok texts
    → IsNarrow allowed texts
unfolding validated_query
validated_query-IsNarrow allowed bare_text texts h = cc
validated_query-IsNarrow allowed not_iterable texts h = cc
validated_query-IsNarrow allowed (words []) [] h = tt
validated_query-IsNarrow allowed (words []) (cs ∷ texts) h = cc
validated_query-IsNarrow allowed (words (not_text ∷ [])) texts h = cc
validated_query-IsNarrow allowed (words (word cs ∷ [])) texts h =
    validated_word-IsNarrow allowed cs texts h
validated_query-IsNarrow allowed (words (first ∷ second ∷ more)) texts h = cc
