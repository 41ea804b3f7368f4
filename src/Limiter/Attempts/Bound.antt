-- ===== src/Limiter/Attempts/Bound.antt =====
-- The limit holds over every run.
use text.Mathlib.Text.{◌==◌ as str_eq}
use text.Mathlib.TextEquality.{eq_iff}
use mikrotik_openvpn_gui.Common.{
  ℕ, ◌+◌, ◌≤◌, ◌≡◌, refl, String, Bool, Option, none, some, List, [], ◌∷◌, ◌++◌, arith,
  if◌then◌else◌, length, Option-cases, inl, inr,
}
use mikrotik_openvpn_gui.Common.Dict.{
  Dict, lookup, insert, erase, values, keys, lookup-insert, lookup-erase, length-insert,
  length-erase, Unique, insert-Unique, erase-Unique,
}
use mikrotik_openvpn_gui.Limiter.Attempts.{
  Limiter, recent, prune, in_flight, history_of, reserve, finish, as_set,
}

-- The failures of an identity that still count, and the attempts that it has in flight.
abbrev pub load : String → ℕ → Limiter → ℕ
load identity current l =
    length (recent l.window_seconds current (history_of identity l.attempts))
    + in_flight identity (values l.reservations)

-- The identities that `reserve` finds in use.
abbrev pub tracked : ℕ → Limiter → List String
tracked now l = as_set (values l.reservations ++ keys (prune l.window_seconds now l.attempts))

-- A later clock counts fewer failures.
recent_later :
    (window : ℕ) {now later : ℕ} (history : List ℕ)
    → now ≤ later
    → length (recent window later history) ≤ length (recent window now history)
recent_later window [] h = omega arith
recent_later window (stamp ∷ history) h = ground (arith, recent_later window history h)

-- Pruning drops nothing that counts.
recent-recent :
    (window now : ℕ) (history : List ℕ)
    → recent window now (recent window now history) ≡ recent window now history
recent-recent window now [] = refl
recent-recent window now (stamp ∷ history) = ground (arith, recent-recent window now history)

in_flight-insert :
    (token owner identity : String) (d : Dict String)
    → in_flight identity (values (insert token owner d))
      ≤ in_flight identity (values d) + (if str_eq owner identity then 1 else 0)
in_flight-insert token owner identity [] = ground arith
in_flight-insert token owner identity ((k, v) ∷ d) =
    ground (arith, in_flight-insert token owner identity d)

in_flight-erase :
    (token identity : String) (d : Dict String)
    → in_flight identity (values (erase token d)) ≤ in_flight identity (values d)
in_flight-erase token identity [] = omega arith
in_flight-erase token identity ((k, v) ∷ d) = ground (arith, in_flight-erase token identity d)

-- Giving back a reservation gives back one attempt of its owner.
in_flight-erase_owner :
    (token owner : String) (d : Dict String)
    → lookup token d ≡ some owner
    → in_flight owner (values (erase token d)) + 1 ≤ in_flight owner (values d)
in_flight-erase_owner token owner [] h = cc
in_flight-erase_owner token owner ((k, v) ∷ d) h =
    ground
      (arith, in_flight-erase token owner d, in_flight-erase_owner token owner d, eq_iff v owner)

lookup-prune-none :
    (window now : ℕ) (k : String) (d : Dict (List ℕ))
    → lookup k d ≡ none
    → lookup k (prune window now d) ≡ none
unfolding prune
lookup-prune-none window now k [] h = refl
lookup-prune-none window now k ((i, history) ∷ d) h =
    ground (arith, lookup-prune-none window now k d)

prune-Unique : (window now : ℕ) (d : Dict (List ℕ)) → Unique d → Unique (prune window now d)
unfolding prune
prune-Unique window now [] u = tt
prune-Unique window now ((i, history) ∷ d) u =
    ground (arith, prune-Unique window now d u.1, lookup-prune-none window now i d u.0)

-- What is left of an identity's history is its failures that count.
history_of-prune :
    (window now : ℕ) (k : String) (d : Dict (List ℕ))
    → Unique d
    → history_of k (prune window now d) ≡ recent window now (history_of k d)
unfolding prune
history_of-prune window now k [] u = refl
history_of-prune window now k ((i, history) ∷ d) u =
    ground
      (arith, history_of-prune window now k d u.1, lookup-prune-none window now i d u.0, eq_iff i k)

length-recent_snoc :
    (window now stamp : ℕ) (history : List ℕ)
    → length (recent window now (history ++ stamp ∷ [])) ≤ length (recent window now history) + 1
length-recent_snoc window now stamp [] = ground arith
length-recent_snoc window now stamp (x ∷ history) =
    ground (arith, length-recent_snoc window now stamp history)

-- No identity has more failures that count and attempts in flight than the limit, and no more
-- attempts are in flight than the table has room for.
pub record IsBounded (now : ℕ) (l : Limiter) : Type 0 where
  pub within : (identity : String) → load identity now l ≤ l.limit
  pub room : length l.reservations ≤ l.max_in_flight
  pub unique_attempts : Unique l.attempts
  pub unique_reservations : Unique l.reservations

pub reserve-IsBounded :
    (token identity : String) (now later : ℕ) (l : Limiter)
    → now ≤ later
    → IsBounded now l
    → IsBounded later (reserve token identity later l).0
unfolding reserve
reserve-IsBounded token identity now later l le b = record {
  within = λ k. ground (
    arith,
    b.within k,
    history_of-prune l.window_seconds later k l.attempts b.unique_attempts,
    history_of-prune l.window_seconds later identity l.attempts b.unique_attempts,
    recent-recent l.window_seconds later (history_of k l.attempts),
    recent-recent l.window_seconds later (history_of identity l.attempts),
    recent_later l.window_seconds {now = now} {later = later} (history_of k l.attempts) le,
    in_flight-insert token identity k l.reservations,
    eq_iff identity k,
  );
  room = ground (arith, b.room, length-insert token identity l.reservations);
  unique_attempts =
      ground (arith, prune-Unique l.window_seconds later l.attempts b.unique_attempts);
  unique_reservations = ground (
    arith,
    b.unique_reservations,
    insert-Unique token identity l.reservations b.unique_reservations,
  );
}

pub finish-IsBounded :
    (token : String) (failed : Option Bool) (now later : ℕ) (l : Limiter)
    → now ≤ later
    → IsBounded now l
    → IsBounded later (finish token failed later l)
unfolding finish
finish-IsBounded token failed now later l le b = elim (Option-cases (lookup token l.reservations)) [
  | inl e ↦ record {
    within = λ k.
        rw (e, finish)
          (omega (arith, b.within k, recent_later l.window_seconds (history_of k l.attempts) le));
    room = rw (e, finish) b.room;
    unique_attempts = rw (e, finish) b.unique_attempts;
    unique_reservations = rw (e, finish) b.unique_reservations;
  }
  | inr (owner, e) ↦ record {
    within = λ k. ground (
      arith,
      e,
      b.within k,
      recent_later l.window_seconds {now = now} {later = later} (history_of k l.attempts) le,
      lookup-insert owner k (history_of owner l.attempts ++ later ∷ []) l.attempts,
      lookup-erase owner k l.attempts,
      length-recent_snoc l.window_seconds later later (history_of owner l.attempts),
      in_flight-erase token k l.reservations,
      in_flight-erase_owner token owner l.reservations e,
      eq_iff owner k,
    );
    room = ground (arith, e, b.room, length-erase token l.reservations);
    unique_attempts = ground (
      arith,
      e,
      b.unique_attempts,
      insert-Unique owner (history_of owner l.attempts ++ later ∷ []) l.attempts b.unique_attempts,
      erase-Unique owner l.attempts b.unique_attempts,
    );
    unique_reservations =
        ground (
          arith,
          e,
          b.unique_reservations,
          erase-Unique token l.reservations b.unique_reservations,
        );
  }
]

-- The calls that the login handlers make, with the clock that each one reads.
pub data Call : Type 0 where
  begin_attempt : String → String → ℕ → Call
  end_attempt : String → Option Bool → ℕ → Call

abbrev pub time_of : Call → ℕ
time_of (begin_attempt token identity now) = now
time_of (end_attempt token failed now) = now

unfoldable pub run : List Call → Limiter → Limiter
run [] l = l
run (begin_attempt token identity now ∷ calls) l = run calls (reserve token identity now l).0
run (end_attempt token failed now ∷ calls) l = run calls (finish token failed now l)

-- The clock does not go back.
abbrev pub InOrder : ℕ → List Call → Type 0
InOrder now [] = Unit
InOrder now (call ∷ calls) = (now ≤ time_of call) × InOrder (time_of call) calls

abbrev pub end_time : ℕ → List Call → ℕ
end_time now [] = now
end_time now (call ∷ calls) = end_time (time_of call) calls

-- Whatever the calls and their order, with a clock that does not go back: from a bounded state, no
-- identity ever has more failures within the window and attempts in flight than the limit, and no
-- more attempts are in flight than `max_in_flight`.
pub run-IsBounded :
    (now : ℕ) (calls : List Call) (l : Limiter)
    → InOrder now calls
    → IsBounded now l
    → IsBounded (end_time now calls) (run calls l)
unfolding run
run-IsBounded now [] l order b = b
run-IsBounded now (begin_attempt token identity later ∷ calls) l order b =
    run-IsBounded later calls (reserve token identity later l).0 order.1
      (reserve-IsBounded token identity now later l order.0 b)
run-IsBounded now (end_attempt token failed later ∷ calls) l order b =
    run-IsBounded later calls (finish token failed later l) order.1
      (finish-IsBounded token failed now later l order.0 b)
