-- ===== src/Gateway/Poll/Sequences.antt =====
-- The sequence numbers of a reply: sorting keeps them, and a complete reply has every one.
use mikrotik_openvpn_gui.Common.{
  ℕ, ◌+◌, ◌<◌, ◌≤◌, ◌≡◌, ◌≢◌, ◌⊎◌, ◌↔◌, inl, inr, leb, Bool-cases, refl, sym, ap, ◌∙◌, Bool, ltb,
  true, false, List, [], ◌∷◌, arith, length, ◌==◌, if◌then◌else◌, max,
}
use mikrotik_openvpn_gui.Gateway.Queue.{Entry}
use mikrotik_openvpn_gui.Gateway.Poll.{
  sequences, after_cursor, sequence_of, insert_entry, sort_entries, insert_distinct,
  sorted_distinct, maximum, consecutive, is_complete,
}

maximum-insert_distinct :
    (n : ℕ) (ns : List ℕ) → maximum (insert_distinct n ns) ≡ max n (maximum ns)
maximum-insert_distinct n [] = omega arith
maximum-insert_distinct n (m ∷ ms) = ground (arith, maximum-insert_distinct n ms)

maximum-sorted_distinct : (ns : List ℕ) → maximum (sorted_distinct ns) ≡ maximum ns
maximum-sorted_distinct [] = refl
maximum-sorted_distinct (n ∷ ns) =
    omega (arith, maximum-insert_distinct n (sorted_distinct ns), maximum-sorted_distinct ns)

-- Numbers that go up by one end at the first plus the count.
maximum-consecutive :
    (n : ℕ) (ns : List ℕ) → consecutive (n ∷ ns) ≡ true → maximum (n ∷ ns) ≡ n + length ns
maximum-consecutive n [] h = omega arith
maximum-consecutive n (m ∷ ms) h = ground (arith, maximum-consecutive m ms)

maximum_complete :
    (cursor newest : ℕ) (n : ℕ) (ns : List ℕ)
    → cursor ≤ newest
    → is_complete cursor newest (n ∷ ns) ≡ true
    → maximum (n ∷ ns) ≡ newest
maximum_complete cursor newest n ns le h = ground (arith, maximum-consecutive n ns)

module _ {F : Type 0} where
  maximum-insert_entry :
      (e : Entry F) (events : List (Entry F))
      → maximum (sequences (insert_entry e events))
        ≡ max (sequence_of e) (maximum (sequences events))
  maximum-insert_entry e [] = omega arith
  maximum-insert_entry e (x ∷ xs) = ground (arith, maximum-insert_entry e xs)

  maximum-sort_entries :
      (events : List (Entry F))
      → maximum (sequences (sort_entries events)) ≡ maximum (sequences events)
  maximum-sort_entries [] = refl
  maximum-sort_entries (e ∷ events) =
      omega (arith, maximum-insert_entry e (sort_entries events), maximum-sort_entries events)

-- `c in ns`
abbrev pub has : ℕ → List ℕ → Bool
has c [] = false
has c (n ∷ ns) = if n == c then true else has c ns

has-insert_distinct :
    (c n : ℕ) (ns : List ℕ) → has c (insert_distinct n ns) ≡ (if n == c then true else has c ns)
has-insert_distinct c n [] = refl
has-insert_distinct c n (m ∷ ms) = ground (arith, has-insert_distinct c n ms)

pub has-sorted_distinct : (c : ℕ) (ns : List ℕ) → has c (sorted_distinct ns) ≡ has c ns
has-sorted_distinct c [] = refl
has-sorted_distinct c (n ∷ ns) =
    ground (arith, has-insert_distinct c n (sorted_distinct ns), has-sorted_distinct c ns)

has-consecutive :
    (c n : ℕ) (ns : List ℕ)
    → consecutive (n ∷ ns) ≡ true
    → n ≤ c
    → c ≤ n + length ns
    → has c (n ∷ ns) ≡ true
has-consecutive c n [] h low high = ground arith
has-consecutive c n (m ∷ ms) h low high = ground (arith, has-consecutive c m ms)

pub has_complete :
    (c cursor newest : ℕ) (ns : List ℕ)
    → is_complete cursor newest ns ≡ true
    → cursor < c
    → c ≤ newest
    → has c ns ≡ true
has_complete c cursor newest [] h low high = ground arith
has_complete c cursor newest (n ∷ ns) h low high = ground (arith, has-consecutive c n ns)

-- Sequence numbers that do not go down.
abbrev pub Ascending : ℕ → List ℕ → Type 0
Ascending low [] = Unit
Ascending low (n ∷ ns) = (low ≤ n) × Ascending n ns

insert_distinct-ne-nil : (n : ℕ) (ns : List ℕ) → insert_distinct n ns ≢ []
insert_distinct-ne-nil n [] = λ e. cc
insert_distinct-ne-nil n (m ∷ ms) = ground arith

maximum_complete_list :
    (cursor newest : ℕ) (ns : List ℕ)
    → cursor ≤ newest
    → is_complete cursor newest ns ≡ true
    → ns ≢ []
    → maximum ns ≡ newest
maximum_complete_list cursor newest [] le h ne = absurd (ne refl)
maximum_complete_list cursor newest (n ∷ ns) le h ne = maximum_complete cursor newest n ns le h

module _ {F : Type 0} where
  insert_entry-ne-nil : (e : Entry F) (events : List (Entry F)) → insert_entry e events ≢ []
  insert_entry-ne-nil e [] = λ p. cc
  insert_entry-ne-nil e (x ∷ xs) = ground arith

  -- Where a reply is complete and has frames, its newest frame is the broker's newest event.
  pub maximum-reply :
      (cursor newest : ℕ) (events : List (Entry F))
      → cursor ≤ newest
      → is_complete cursor newest (sorted_distinct (sequences events)) ≡ true
      → sort_entries events ≢ []
      → maximum (sequences (sort_entries events)) ≡ newest
  maximum-reply cursor newest [] le h ne = absurd (ne refl)
  maximum-reply cursor newest (e ∷ events) le h ne =
      maximum-sort_entries (e ∷ events)
      ∙ sym (maximum-sorted_distinct (sequences (e ∷ events)))
      ∙ maximum_complete_list cursor newest (sorted_distinct (sequences (e ∷ events))) le h
          (insert_distinct-ne-nil (sequence_of e) (sorted_distinct (sequences events)))

  -- Where it is complete and has none, the cursor is at the newest event.
  pub cursor-reply :
      (cursor newest : ℕ) (events : List (Entry F))
      → cursor ≤ newest
      → is_complete cursor newest (sorted_distinct (sequences events)) ≡ true
      → sort_entries events ≡ []
      → cursor ≡ newest
  cursor-reply cursor newest [] le h e = ground arith
  cursor-reply cursor newest (x ∷ events) le h e =
      absurd (insert_entry-ne-nil x (sort_entries events) e)

module _ {F : Type 0} where
  has-insert_entry :
      (c : ℕ) (e : Entry F) (events : List (Entry F))
      → has c (sequences (insert_entry e events))
        ≡ (if sequence_of e == c then true else has c (sequences events))
  has-insert_entry c e [] = refl
  has-insert_entry c e (x ∷ xs) = ground (arith, has-insert_entry c e xs)

  pub has-sort_entries :
      (c : ℕ) (events : List (Entry F))
      → has c (sequences (sort_entries events)) ≡ has c (sequences events)
  has-sort_entries c [] = refl
  has-sort_entries c (e ∷ events) =
      ground (arith, has-insert_entry c e (sort_entries events), has-sort_entries c events)

  insert_entry-Ascending :
      (low : ℕ) (e : Entry F) (events : List (Entry F))
      → low ≤ sequence_of e
      → Ascending low (sequences events)
      → Ascending low (sequences (insert_entry e events))
  insert_entry-Ascending low e [] h a = (h, tt)
  insert_entry-Ascending low e (x ∷ xs) h a =
      ground (arith, insert_entry-Ascending (sequence_of x) e xs)

  pub sort_entries-Ascending :
      (events : List (Entry F)) → Ascending 0 (sequences (sort_entries events))
  sort_entries-Ascending [] = tt
  sort_entries-Ascending (e ∷ events) =
      insert_entry-Ascending 0 e (sort_entries events) (omega arith) (sort_entries-Ascending events)

module _ {F : Type 0} where
  -- `e` is one of the entries.
  abbrev pub Holds : Entry F → List (Entry F) → Type 0
  Holds e [] = ⊥
  Holds e (x ∷ entries) = (e ≡ x) ⊎ Holds e entries

  Holds-insert_entry :
      (e x : Entry F) (entries : List (Entry F))
      → Holds e (insert_entry x entries) ↔ ((e ≡ x) ⊎ Holds e entries)
  Holds-insert_entry e x [] = (λ h. h, λ h. h)
  Holds-insert_entry e x (y ∷ entries) =
      let rest = Holds-insert_entry e x entries in
      elim (Bool-cases (leb (sequence_of x) (sequence_of y))) [
        | inl low ↦ rw low (λ h. h, λ h. h)
        | inr high ↦ rw high (
          λ h. elim h [
            | inl s ↦ inr (inl s)
            | inr k ↦ elim (rest.0 k) [ inl s ↦ inl s | inr l ↦ inr (inr l) ]
          ],
          λ h. elim h [
            | inl s ↦ inr (rest.1 (inl s))
            | inr k ↦ elim k [ inl s ↦ inl s | inr l ↦ inr (rest.1 (inr l)) ]
          ],
        )
      ]

  Holds-sort_entries :
      (e : Entry F) (entries : List (Entry F)) → Holds e (sort_entries entries) ↔ Holds e entries
  Holds-sort_entries e [] = (λ h. h, λ h. h)
  Holds-sort_entries e (x ∷ entries) =
      let there = Holds-insert_entry e x (sort_entries entries) in
      let rest = Holds-sort_entries e entries in
      (
        λ h. elim (there.0 h) [ inl s ↦ inl s | inr k ↦ inr (rest.0 k) ],
        λ h. there.1 (elim h [ inl s ↦ inl s | inr k ↦ inr (rest.1 k) ]),
      )

  Holds-after_cursor :
      (cursor : ℕ) (e : Entry F) (entries : List (Entry F))
      → Holds e (after_cursor cursor entries) ↔ (Holds e entries × (cursor < sequence_of e))
  Holds-after_cursor cursor e [] = (λ h. absurd h, λ h. h.0)
  Holds-after_cursor cursor e (x ∷ entries) =
      let rest = Holds-after_cursor cursor e entries in
      elim (Bool-cases (ltb cursor (sequence_of x))) [
        | inl behind ↦ rw behind (
          λ h. elim h [
            | inl s ↦ (inl s, ground (arith, behind, ap sequence_of s))
            | inr k ↦ (inr (rest.0 k).0, (rest.0 k).1)
          ],
          λ h. elim h.0 [ inl s ↦ inl s | inr k ↦ inr (rest.1 (k, h.1)) ],
        )
        | inr seen ↦ rw seen (
          λ h. (inr (rest.0 h).0, (rest.0 h).1),
          λ h. elim h.0 [
            | inl s ↦ absurd ground (arith, seen, h.1, ap sequence_of s)
            | inr k ↦ rest.1 (k, h.1)
          ],
        )
      ]

  -- What is sent is what is kept behind the cursor.
  pub Holds-reply :
      (cursor : ℕ) (entries : List (Entry F)) (e : Entry F)
      → Holds e (sort_entries (after_cursor cursor entries))
        ↔ (Holds e entries × (cursor < sequence_of e))
  Holds-reply cursor entries e =
      let sorted = Holds-sort_entries e (after_cursor cursor entries) in
      let kept = Holds-after_cursor cursor e entries in
      (λ h. kept.0 (sorted.0 h), λ h. sorted.1 (kept.1 h))
