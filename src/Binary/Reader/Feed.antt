-- ===== src/Binary/Reader/Feed.antt =====
-- `feed` ends on every input, and what it leaves in the reader is bounded.
use mikrotik_openvpn_gui.Common.{
  ℕ, zero, suc, ◌+◌, ◌-◌, ◌*◌, ◌<◌, ◌≤◌, ◌≡◌, inl, inr, refl, ap, ◌∙◌, Option, some, none, List, [],
  ◌∷◌, arith, length, drop, take, min, length-append, length-drop, length-take, All, All-append,
  Bool-cases, ltb,
}
use mikrotik_openvpn_gui.Binary.Error.{Result, ok, err, response_limit, Result-cases}
use mikrotik_openvpn_gui.Binary.Length.{decode_length}
use mikrotik_openvpn_gui.Binary.Length.Suffix.{decode_length_bounds}
use mikrotik_openvpn_gui.Binary.Reader.{
  Reader, Scanned, Step, done, more, scan_step, scan, complete_sentence, feed, Feeding, Fed, emit,
  refill, feed_step, feed_loop, limit_of,
}
use mikrotik_openvpn_gui.Binary.Reader.Scan.{
  Step-cases, Advances, scan_step-Advances, complete_sentence_total,
}

-- What every call keeps: the saved offset is inside the buffer, and the saved words are few enough.
pub record IsSound (r : Reader) : Type 0 where
  pub inside : r.scan_offset ≤ length r.buffer
  pub few_words : length r.words ≤ r.max_words

-- What a scan that does not raise leaves.
pub record Kept (r r' : Reader) : Type 0 where
  pub same_buffer : r'.buffer ≡ r.buffer
  pub same_max : r'.max_words ≡ r.max_words
  pub sound_offset : r'.scan_offset ≤ length r.buffer
  pub sound_words : length r'.words ≤ r.max_words

pub record Complete (limit : ℕ) (r r' : Reader) (words : List (List ℕ)) (size : ℕ) : Type 0 where
  pub kept : Kept r r'
  pub no_words : r'.words ≡ []
  pub from_start : r'.scan_offset ≡ 0
  pub some_bytes : 0 < size
  pub there : size ≤ length r.buffer
  pub within_limit : size ≤ limit
  pub few : length words ≤ r.max_words

abbrev pub Found : ℕ → Reader → Scanned → Type 0
Found limit r (none, r') = Kept r r'
Found limit r (some (words, size), r') = Complete limit r r' words size

step-Found :
    (limit : ℕ) (r : Reader) (s : Scanned)
    → IsSound r
    → scan_step limit r ≡ done (ok s)
    → Found limit r s
unfolding scan_step
step-Found limit r (none, r') sound h = elim (Result-cases (decode_length r.buffer r.scan_offset)) [
  | inl ((size, next), e) ↦ ground (arith, e)
  | inr (x, e) ↦ ground (arith, e)
]
step-Found limit r (some (words, n), r') sound h =
    elim (Result-cases (decode_length r.buffer r.scan_offset)) [
      | inl ((size, next), e) ↦
          let bounds = decode_length_bounds r.buffer r.scan_offset e in ground (arith, e)
      | inr (x, e) ↦ ground (arith, e)
    ]

-- What is found from the state behind a round is found from the state before it.
Found-Advances :
    (limit : ℕ) (r x : Reader) (s : Scanned)
    → Advances limit r x
    → Found limit x s
    → Found limit r s
Found-Advances limit r x (none, r') a f =
    let same = ap length a.same_buffer in
    record {
      same_buffer = f.same_buffer ∙ a.same_buffer;
      same_max = f.same_max ∙ a.same_max;
      sound_offset = omega arith;
      sound_words = omega arith;
    }
Found-Advances limit r x (some (words, n), r') a f =
    let same = ap length a.same_buffer in
    let k = f.kept in
    record {
      kept = record {
        same_buffer = k.same_buffer ∙ a.same_buffer;
        same_max = k.same_max ∙ a.same_max;
        sound_offset = omega arith;
        sound_words = omega arith;
      };
      no_words = f.no_words;
      from_start = f.from_start;
      some_bytes = f.some_bytes;
      there = omega arith;
      within_limit = f.within_limit;
      few = omega arith;
    }

scan-Found :
    (fuel limit : ℕ) (r : Reader) (s : Scanned)
    → IsSound r
    → scan fuel limit r ≡ some (ok s)
    → Found limit r s
unfolding scan
scan-Found zero limit r s sound h = cc
scan-Found (suc fuel) limit r s sound h = elim (Step-cases (scan_step limit r)) [
  | inl (a, e) ↦
      let finished : some a ≡ some (ok s) = rw (e, scan) at h in step-Found limit r s sound (cc)
  | inr (x, e) ↦
      let advances = scan_step-Advances limit r x e in
      let same = ap length advances.same_buffer in
      let later : scan fuel limit x ≡ some (ok s) = rw (e, scan) at h in
      Found-Advances limit r x s advances (scan-Found fuel limit x s (omega arith) later)
]

pub complete_sentence-Found :
    (limit : ℕ) (r : Reader) (s : Scanned)
    → IsSound r
    → complete_sentence limit r ≡ some (ok s)
    → Found limit r s
unfolding complete_sentence
complete_sentence-Found limit r s sound h = scan-Found (length r.buffer + 1) limit r s sound h

-- Sentences of at most `k` words.
abbrev pub Short : ℕ → List (List (List ℕ)) → Type 0
Short k = All (λ words. length words ≤ k)

-- The invariant of the loop, for readers that take at most `k` words.
pub record Loop (k : ℕ) (f : Feeding) : Type 0 where
  pub sound : IsSound f.reader
  pub same_limit : f.reader.max_words ≡ k
  pub short : Short k f.out

abbrev pub measure : Feeding → ℕ
measure f = 2 * length f.view + length f.reader.buffer

-- A round keeps the invariant and lowers the measure, or ends with a reader that is bounded.
abbrev pub Round : ℕ → ℕ → Feeding → Step Fed Feeding → Type 0
Round k limit f (more f') = Loop k f' × (measure f' < measure f)
Round k limit f (done (ok (out, r))) =
    IsSound r × (length r.buffer ≤ limit) × (r.max_words ≡ k) × Short k out
Round k limit f (done (err e)) = Unit

refill-Round : (k limit : ℕ) (f : Feeding) → Loop k f → Round k limit f (refill limit f)
unfolding refill
refill-Round k limit f l =
    let r = f.reader in
    let s = l.sound in
    let room = min (limit - length r.buffer) (length f.view) in
    ground (
      arith,
      length-append r.buffer (take room f.view),
      length-take room f.view,
      length-drop room f.view,
    )

emit-Round :
    (k limit : ℕ) (max_sentences : Option ℕ) (words : List (List ℕ)) (size : ℕ) (f : Feeding)
    → Loop k f
    → f.reader.words ≡ []
    → f.reader.scan_offset ≡ 0
    → 0 < size
    → size ≤ length f.reader.buffer
    → length words ≤ k
    → Round k limit f (emit limit max_sentences words size f)
unfolding emit
emit-Round k limit max_sentences words size f l no_words start positive there few =
    let r = f.reader in
    let out = All-append (λ ws. length ws ≤ k) f.out (words ∷ []) l.short (few, tt) in
    let lw = ap length no_words in
    let s = l.sound in
    ground (arith, length-drop size r.buffer, length-append (drop size r.buffer) f.view)

-- The measure of a round may be taken against any state of the same size.
weaken :
    (k limit : ℕ) (f : Feeding) (s : Step Fed Feeding) (f' : Feeding)
    → measure f' ≤ measure f
    → Round k limit f' s
    → Round k limit f s
weaken k limit f (done (ok x)) f' le round = round
weaken k limit f (done (err x)) f' le round = tt
weaken k limit f (more x) f' le round = (round.0, omega arith)

pub feed_step-Round :
    (k limit : ℕ) (max_sentences : Option ℕ) (f : Feeding)
    → Loop k f
    → (s : Step Fed Feeding) × (feed_step limit max_sentences f ≡ some s) × Round k limit f s
unfolding feed_step
feed_step-Round k limit max_sentences f l =
    let (a, e) = complete_sentence_total limit f.reader l.sound.inside in go a e
  where
    go :
        (a : Result Scanned)
        → complete_sentence limit f.reader ≡ some a
        → (s : Step Fed Feeding) × (feed_step limit max_sentences f ≡ some s) × Round k limit f s
    go (err x) e = (done (err x), rw (e, feed_step), tt)
    go (ok (none, r)) e =
        let kept = complete_sentence-Found limit f.reader (none, r) l.sound e in
        let same = ap length kept.same_buffer in
        let f' : Feeding = record f { reader = r } in
        let l' : Loop k f' = record {
          sound = record { inside = omega arith; few_words = omega arith };
          same_limit = kept.same_max ∙ l.same_limit;
          short = l.short;
        } in
        (
          refill limit f',
          rw (e, feed_step),
          weaken k limit f (refill limit f') f' (omega arith) (refill-Round k limit f' l'),
        )
    go (ok (some (words, size), r)) e =
        let found = complete_sentence-Found limit f.reader (some (words, size), r) l.sound e in
        let kept = found.kept in
        let same = ap length kept.same_buffer in
        let f' : Feeding = record f { reader = r } in
        let l' : Loop k f' = record {
          sound = record { inside = omega arith; few_words = omega arith };
          same_limit = kept.same_max ∙ l.same_limit;
          short = l.short;
        } in
        (
          emit limit max_sentences words size f',
          rw (e, feed_step),
          weaken k limit f (emit limit max_sentences words size f') f' (omega arith) (
              emit-Round k limit max_sentences words size f' l' found.no_words found.from_start
                found.some_bytes (omega arith) (omega arith)),
        )

-- How a run of the loop ends.
abbrev pub Ends : ℕ → ℕ → Result Fed → Type 0
Ends k limit (ok (out, r)) = IsSound r × (length r.buffer ≤ limit) × (r.max_words ≡ k) × Short k out
Ends k limit (err e) = Unit

feed_loop-Ends :
    (fuel k limit : ℕ) (max_sentences : Option ℕ) (f : Feeding)
    → measure f < fuel
    → Loop k f
    → (a : Result Fed) × (feed_loop fuel limit max_sentences f ≡ some a) × Ends k limit a
feed_loop-Ends zero k limit max_sentences f enough l = absurd (omega arith)
feed_loop-Ends (suc fuel) k limit max_sentences f enough l =
    let (s, e, round) = feed_step-Round k limit max_sentences f l in
    go s e round (λ f' smaller l'. feed_loop-Ends fuel k limit max_sentences f' (omega arith) l')
  where
    go :
        (s : Step Fed Feeding)
        → feed_step limit max_sentences f ≡ some s
        → Round k limit f s
        → ((f' : Feeding)
            → measure f' < measure f
            → Loop k f'
            → (a : Result Fed) × (feed_loop fuel limit max_sentences f' ≡ some a) × Ends k limit a)
        → (a : Result Fed) × (feed_loop (suc fuel) limit max_sentences f ≡ some a) × Ends k limit a
    go (done (ok (out, r))) e round next =
        (ok (out, r), unfold feed_loop in rw (e, feed_loop), round)
    go (done (err x)) e round next = (err x, unfold feed_loop in rw (e, feed_loop), tt)
    go (more f') e round next =
        let (a, runs, ends) = next f' round.1 round.0 in
        (a, unfold feed_loop in rw (e, feed_loop) runs, ends)

-- `feed` returns or raises on every input. When it returns, the reader holds at most the byte
-- limit, its saved offset is inside the buffer, its saved words and every sentence it yielded have
-- at most `max_words` words.
pub feed-Ends :
    (bytes : List ℕ) (max_size max_sentences : Option ℕ) (r : Reader)
    → IsSound r
    → (a : Result Fed) × (feed bytes max_size max_sentences r ≡ some a)
      × Ends r.max_words (limit_of r max_size) a
unfolding feed
feed-Ends bytes max_size max_sentences r sound = elim (Bool-cases (ltb (limit_of r max_size) 1)) [
  | inl small ↦ (err response_limit, rw small, tt)
  | inr large ↦
      let (a, runs, ends) =
        feed_loop-Ends (2 * length bytes + length r.buffer + 1) r.max_words (limit_of r max_size)
          max_sentences (record { reader = r; view = bytes; out = [] }) (omega arith)
          (record { sound = sound; same_limit = refl; short = tt }) in
      (a, rw large runs, ends)
]
