-- ===== src/Binary/Reader/Growth.antt =====
-- A call of `feed` for one sentence that finds none has put all its bytes into the buffer.
use mikrotik_openvpn_gui.Common.{
  ℕ, zero, suc, ◌+◌, ◌-◌, ◌*◌, ◌<◌, ◌≡◌, inl, inr, refl, sym, ap, some, none, List, [], arith,
  length, drop, take, min, length-append, length-drop, length-take, leb, ltb, ◌==◌, Bool-cases,
}
use mikrotik_openvpn_gui.Binary.Error.{Result, ok, err, response_limit}
use mikrotik_openvpn_gui.Binary.Reader.{
  Reader, Scanned, Step, done, more, complete_sentence, feed, Feeding, Fed, emit, refill, feed_step,
  feed_loop, limit_of,
}
use mikrotik_openvpn_gui.Binary.Reader.Scan.{complete_sentence_total}
use mikrotik_openvpn_gui.Binary.Reader.Feed.{
  IsSound, Loop, Round, complete_sentence-Found, feed_step-Round,
}

-- The reader that is left without a sentence has `total` bytes, below the limit.
abbrev Grown : ℕ → ℕ → Result Fed → Type 0
Grown total limit (ok ([], r)) = (length r.buffer ≡ total) × (length r.buffer < limit)
Grown total limit _ = Unit

-- A round without a sentence loses no byte.
abbrev Grows : ℕ → ℕ → Step Fed Feeding → Type 0
Grows total limit (more f) = (f.out ≡ []) × (length f.reader.buffer + length f.view ≡ total)
Grows total limit (done result) = Grown total limit result

refill-Grows :
    (limit : ℕ) (f : Feeding)
    → f.out ≡ []
    → Grows (length f.reader.buffer + length f.view) limit (refill limit f)
unfolding refill
refill-Grows limit f e =
    let r = f.reader in
    let room = min (limit - length r.buffer) (length f.view) in
    elim (Bool-cases (leb limit (length r.buffer))) [
      | inl full ↦ rw full tt
      | inr free ↦ elim (Bool-cases (length f.view == 0)) [
        | inl empty ↦ rw (free, empty, e) (ground (arith, empty), ground (arith, free))
        | inr bytes ↦
            rw (free, bytes)
              (
                e,
                omega (
                  arith,
                  length-append r.buffer (take room f.view),
                  length-take room f.view,
                  length-drop room f.view,
                ),
              )
      ]
    ]

emit-Grows :
    (total limit : ℕ) (words : List (List ℕ)) (size : ℕ) (f : Feeding)
    → f.out ≡ []
    → Grows total limit (emit limit (some 1) words size f)
unfolding emit
emit-Grows total limit words size f e =
    let kept = drop size f.reader.buffer in
    rw e (elim (Bool-cases (ltb limit (length kept + length f.view))) [
      | inl large ↦ rw large tt
      | inr fits ↦ rw fits tt
    ])

feed_step-Grows :
    (k limit : ℕ) (f : Feeding) (s : Step Fed Feeding)
    → Loop k f
    → f.out ≡ []
    → feed_step limit (some 1) f ≡ some s
    → Grows (length f.reader.buffer + length f.view) limit s
unfolding feed_step
feed_step-Grows k limit f s l e h =
    let (a, c) = complete_sentence_total limit f.reader l.sound.inside in go a c
  where
    total : ℕ
    total = length f.reader.buffer + length f.view

    go : (a : Result Scanned) → complete_sentence limit f.reader ≡ some a → Grows total limit s
    go (err x) c =
        let ended : some (done (err x)) ≡ some s = rw (c, feed_step) at h in
        let same : done (err x) ≡ s = (cc) in rw (sym same) tt
    go (ok (none, r)) c =
        let kept = complete_sentence-Found limit f.reader (none, r) l.sound c in
        let f' : Feeding = record f { reader = r } in
        let ended : some (refill limit f') ≡ some s = rw (c, feed_step) at h in
        let same : refill limit f' ≡ s = (cc) in
        rw (sym same) (rw (sym (ap length kept.same_buffer)) (refill-Grows limit f' e))
    go (ok (some (words, size), r)) c =
        let f' : Feeding = record f { reader = r } in
        let ended : some (emit limit (some 1) words size f') ≡ some s = rw (c, feed_step) at h in
        let same : emit limit (some 1) words size f' ≡ s = (cc) in
        rw (sym same) (emit-Grows total limit words size f' e)

feed_loop-Grows :
    (fuel k limit : ℕ) (f : Feeding) (a : Result Fed)
    → Loop k f
    → f.out ≡ []
    → feed_loop fuel limit (some 1) f ≡ some a
    → Grown (length f.reader.buffer + length f.view) limit a
unfolding feed_loop
feed_loop-Grows zero k limit f a l e h = cc
feed_loop-Grows (suc fuel) k limit f a l e h =
    let (s, runs, round) = feed_step-Round k limit (some 1) f l in
    go s runs round (feed_step-Grows k limit f s l e runs)
      (λ f' l' e' h'. feed_loop-Grows fuel k limit f' a l' e' h')
  where
    go :
        (s : Step Fed Feeding)
        → feed_step limit (some 1) f ≡ some s
        → Round k limit f s
        → Grows (length f.reader.buffer + length f.view) limit s
        → ((f' : Feeding)
            → Loop k f'
            → f'.out ≡ []
            → feed_loop fuel limit (some 1) f' ≡ some a
            → Grown (length f'.reader.buffer + length f'.view) limit a)
        → Grown (length f.reader.buffer + length f.view) limit a
    go (done b) runs round grows next =
        let ended : some b ≡ some a = unfold feed_loop in rw (runs, feed_loop) at h in
        let same : b ≡ a = (cc) in rw (sym same) grows
    go (more f') runs round grows next =
        let later : feed_loop fuel limit (some 1) f' ≡ some a =
          unfold feed_loop in rw (runs, feed_loop) at h in
        rw (sym grows.1) (next f' round.0 grows.0 later)

-- A call for one sentence that finds none leaves a reader with all the bytes that were there and that
-- came, fewer than the limit.
pub feed-Grows :
    (bytes : List ℕ) (limit : ℕ) (r r' : Reader)
    → IsSound r
    → feed bytes (some limit) (some 1) r ≡ some (ok ([], r'))
    → (length r'.buffer ≡ length r.buffer + length bytes) × (length r'.buffer < limit)
unfolding feed
feed-Grows bytes limit r r' sound h = elim (Bool-cases (ltb (limit_of r (some limit)) 1)) [
  | inl small ↦
      let refused : some (err response_limit) ≡ some (ok ([], r')) = rw small at h in absurd (cc)
  | inr large ↦
      let runs = rw large at h in
      let grown =
        feed_loop-Grows (2 * length bytes + length r.buffer + 1) r.max_words
          (limit_of r (some limit)) (record { reader = r; view = bytes; out = [] }) (ok ([], r'))
          (record { sound = sound; same_limit = refl; short = tt }) refl runs in
      (grown.0, omega (arith, grown.1))
]
