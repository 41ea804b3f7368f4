-- ===== src/Binary/Connection/Reads.antt =====
-- Reading a sentence ends, and keeps all of the connection but the reader.
use mikrotik_openvpn_gui.Common.{
  ℕ, zero, suc, ◌+◌, ◌-◌, ◌<◌, ◌≤◌, arith, min, ◌≡◌, inl, inr, refl, Bool, true, false, not, ◌||◌,
  Option, none, some, List, [], ◌∷◌, ltb, ◌==◌, if◌then◌else◌, length, Bool-cases, ◌∙◌,
}
use mikrotik_openvpn_gui.Binary.Error.{
  Result, ok, err, Result-cases, response_limit, receive_failed, closed_meanwhile, closed_by_router,
}
use mikrotik_openvpn_gui.Binary.Reader.{Reader, Fed, feed, limit_of, max_sentence_bytes}
use mikrotik_openvpn_gui.Binary.Reader.Feed.{IsSound, Ends, feed-Ends}
use mikrotik_openvpn_gui.Binary.Reader.Growth.{feed-Grows}
use mikrotik_openvpn_gui.Binary.Connection.{
  Connection, Received, Socket, later, chunk, failed, left_behind, Run, and_then, Read, first_of,
  feed_one, accept, read_loop, read_sentence, sentence_wire_size, recv_size,
}

-- `c'` is `c` with another reader, which is sound.
pub record Follows (c c' : Connection) : Type 0 where
  pub same_open : c'.is_open ≡ c.is_open
  pub same_tag : c'.tag ≡ c.tag
  pub same_sent : c'.sent ≡ c.sent
  pub sound_reader : IsSound c'.reader

pub Follows-trans : (a b c : Connection) → Follows a b → Follows b c → Follows a c
Follows-trans a b c f g = record {
  same_open = g.same_open ∙ f.same_open;
  same_tag = g.same_tag ∙ f.same_tag;
  same_sent = g.same_sent ∙ f.same_sent;
  sound_reader = g.sound_reader;
}

-- A call that ends, with what it returns as `P` says.
abbrev pub Ending : {A : Type 0} → (A → Type 0) → Run A → Type 0
Ending P none = ⊥
Ending P (some (err e)) = Unit
Ending P (some (ok a)) = P a

pub and_then-Ending :
    {A B : Type 0} (P : A → Type 0) (Q : B → Type 0) (run : Run A) (f : A → Run B)
    → Ending P run
    → ((a : A) → P a → Ending Q (f a))
    → Ending Q (and_then run f)
and_then-Ending P Q none f h k = h
and_then-Ending P Q (some (err e)) f h k = tt
and_then-Ending P Q (some (ok a)) f h k = k a h

-- The reader behind a call for one sentence is sound, and where none was found all the bytes are in its
-- buffer, fewer than the limit.
abbrev FedOne : ℕ → List ℕ → Reader → Option (List (List ℕ)) × Reader → Type 0
FedOne limit bytes r (some sentence, r') = IsSound r'
FedOne limit bytes r (none, r') =
    IsSound r' × (length r'.buffer ≡ length r.buffer + length bytes) × (length r'.buffer < limit)

feed_one-Ending :
    (limit : ℕ) (bytes : List ℕ) (r : Reader)
    → IsSound r
    → Ending (FedOne limit bytes r) (feed_one limit bytes r)
unfolding feed_one
feed_one-Ending limit bytes r sound =
    let (a, runs, ends) = feed-Ends bytes (some limit) (some 1) r sound in rw runs (go a runs ends)
  where
    go :
        (a : Result Fed)
        → feed bytes (some limit) (some 1) r ≡ some a
        → Ends r.max_words (limit_of r (some limit)) a
        → Ending (FedOne limit bytes r) (and_then (some a) (λ fed. some (ok (first_of fed))))
    go (err e) runs ends = tt
    go (ok ([], r')) runs ends =
        let grown = feed-Grows bytes limit r r' sound runs in (ends.0, grown.0, grown.1)
    go (ok (sentence ∷ more, r')) runs ends = ends.0

abbrev pub Reads : Connection → Read → Type 0
Reads c read = Follows c read.1

-- The wire size of the sentence that is returned is at most `most`.
abbrev pub Within : Option ℕ → List (List ℕ) → Type 0
Within none sentence = Unit
Within (some most) sentence = (size : ℕ) × (sentence_wire_size sentence ≡ ok size) × (size ≤ most)

abbrev pub ReadsWithin : Option ℕ → Connection → Read → Type 0
ReadsWithin most c read = Reads c read × Within most read.0

accept-Ending :
    (most : Option ℕ) (sentence : List (List ℕ)) (b c : Connection) (arriving : Socket)
    → Follows b c
    → Ending (ReadsWithin most b) (accept most sentence c arriving)
unfolding accept
accept-Ending none sentence b c arriving f = (f, tt)
accept-Ending (some most) sentence b c arriving f =
    elim (Result-cases (sentence_wire_size sentence)) [
      | inr (x, e) ↦ rw (e, accept) tt
      | inl (size, e) ↦ elim (Bool-cases (ltb most size)) [
        | inl d ↦ rw (e, accept, d) tt
        | inr d ↦ rw (e, accept, d) (f, (size, e, ground (arith, d)))
      ]
    ]

pub branch-Ending :
    {A : Type 0} (P : A → Type 0) (b : Bool) (x y : Run A)
    → Ending P x
    → Ending P y
    → Ending P (if b then x else y)
branch-Ending P true x y h k = h
branch-Ending P false x y h k = k

-- The connection with a reader that was just fed.
refed :
    (b c : Connection) (r : Reader) → Follows b c → IsSound r → Follows b (record c { reader = r })
refed b c r f sound = record {
  same_open = f.same_open;
  same_tag = f.same_tag;
  same_sent = f.same_sent;
  sound_reader = sound;
}

read_loop-Ending :
    (fuel : ℕ) (most : Option ℕ) (limit received : ℕ) (b c : Connection) (arriving : Socket)
    → Follows b c
    → limit - length c.reader.buffer < fuel
    → Ending (ReadsWithin most b) (read_loop fuel most limit received c arriving)
unfolding read_loop
read_loop-Ending zero most limit received b c arriving f enough = absurd (omega arith)
read_loop-Ending (suc fuel) most limit received b c arriving f enough =
    branch-Ending (ReadsWithin most b) (not c.is_open) _ _ tt (
      and_then-Ending (FedOne limit [] c.reader) (ReadsWithin most b) (feed_one limit [] c.reader) _
        (feed_one-Ending limit [] c.reader f.sound_reader)
        (go
          (λ bytes r g less.
            read_loop-Ending fuel most limit (received + length bytes) b (record c { reader = r })
              (later arriving) g less)
          (arriving 0)))
  where
    -- The rest of the loop, from the reader that it goes on with.
    Again : Type 0
    Again =
        (bytes : List ℕ) (r : Reader)
        → Follows b (record c { reader = r })
        → limit - length r.buffer < fuel
        → Ending (ReadsWithin most b) (
            read_loop fuel most limit (received + length bytes) (record c { reader = r })
              (later arriving))

    parsed :
        Again
        → (bytes : List ℕ) (r : Reader) → length r.buffer ≡ length c.reader.buffer + 0
        → (length bytes == 0) ≡ false
        → (found : Option (List (List ℕ)) × Reader) → FedOne limit bytes r found
        → Ending (ReadsWithin most b) (elim found.0 [
          | some sentence ↦ accept most sentence (record c { reader = found.1 }) (later arriving)
          | none ↦
              read_loop fuel most limit
                (received + length bytes)
                (record c { reader = found.1 })
                (later arriving)
        ])
    parsed again bytes r same some_bytes (some sentence, r') s =
        accept-Ending most sentence b (record c { reader = r' }) (later arriving) (refed b c r' f s)
    parsed again bytes r same some_bytes (none, r') s =
        again bytes r' (refed b c r' f s.0) ground (arith, enough, same, some_bytes, s.1, s.2)

    go :
        Again
        → (next : Received) (found : Option (List (List ℕ)) × Reader)
        → FedOne limit [] c.reader found
        → Ending (ReadsWithin most b) (elim found.0 [
          | some sentence ↦ accept most sentence (record c { reader = found.1 }) arriving
          | none ↦
              if ltb (recv_size most received) 1 then some (err response_limit) else elim next [
                | failed ↦ some (err receive_failed)
                | left_behind ↦ some (err closed_meanwhile)
                | chunk bytes ↦
                    if length bytes == 0
                    then some (err closed_by_router)
                    else if ltb (recv_size most received) (length bytes)
                    then some (err response_limit)
                    else and_then (feed_one limit bytes found.1) (λ found'. elim found'.0 [
                      | some sentence ↦
                          accept most sentence (record c { reader = found'.1 }) (later arriving)
                      | none ↦
                          read_loop fuel most limit
                            (received + length bytes)
                            (record c { reader = found'.1 })
                            (later arriving)
                    ])
              ]
        ])
    go again next (some sentence, r) s =
        accept-Ending most sentence b (record c { reader = r }) arriving (refed b c r f s)
    go again failed (none, r) s =
        branch-Ending (ReadsWithin most b) (ltb (recv_size most received) 1) _ _ tt tt
    go again left_behind (none, r) s =
        branch-Ending (ReadsWithin most b) (ltb (recv_size most received) 1) _ _ tt tt
    go again (chunk bytes) (none, r) s =
        branch-Ending (ReadsWithin most b) (ltb (recv_size most received) 1) _ _ tt
          (elim (Bool-cases (length bytes == 0)) [
            | inl end ↦ rw end tt
            | inr some_bytes ↦ rw some_bytes (
                branch-Ending (ReadsWithin most b) (ltb (recv_size most received) (length bytes)) _
                  _ tt
                  (and_then-Ending (FedOne limit bytes r) (ReadsWithin most b)
                    (feed_one limit bytes r) _ (feed_one-Ending limit bytes r s.0)
                    (parsed again bytes r s.1 some_bytes)))
          ])

-- Reading a sentence ends, whatever the socket gives and however long it goes on: it returns or raises.
-- When it returns, the wire size of the sentence is at most the limit that was given, only the reader
-- of the connection is another one, and it is sound.
pub read_sentence-Ending :
    (most : Option ℕ) (c : Connection) (arriving : Socket)
    → IsSound c.reader
    → Ending (ReadsWithin most c) (read_sentence most c arriving)
unfolding read_sentence
read_sentence-Ending none c arriving sound =
    read_loop-Ending (max_sentence_bytes + 1) none max_sentence_bytes (length c.reader.buffer) c c
      arriving
      (record { same_open = refl; same_tag = refl; same_sent = refl; sound_reader = sound })
      (omega arith)
read_sentence-Ending (some most) c arriving sound =
    branch-Ending (ReadsWithin (some most) c) (ltb most 1 || ltb most (length c.reader.buffer)) _ _
      tt
      (read_loop-Ending (min max_sentence_bytes most + 1) (some most) (min max_sentence_bytes most)
        (length c.reader.buffer) c c arriving
        (record { same_open = refl; same_tag = refl; same_sent = refl; sound_reader = sound })
        (omega arith))

pub Ending-map :
    {A : Type 0} (P Q : A → Type 0) (run : Run A)
    → ((a : A) → P a → Q a)
    → Ending P run
    → Ending Q run
Ending-map P Q none f h = h
Ending-map P Q (some (err e)) f h = tt
Ending-map P Q (some (ok a)) f h = f a h

pub read_sentence-Reads :
    (most : Option ℕ) (c : Connection) (arriving : Socket)
    → IsSound c.reader
    → Ending (Reads c) (read_sentence most c arriving)
read_sentence-Reads most c arriving sound =
    Ending-map (ReadsWithin most c) (Reads c) (read_sentence most c arriving) (λ read h. h.0)
      (read_sentence-Ending most c arriving sound)
