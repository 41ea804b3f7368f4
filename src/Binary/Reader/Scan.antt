-- ===== src/Binary/Reader/Scan.antt =====
-- `_complete_sentence` ends, and from a saved state it finds what a scan from the start would find.
use mikrotik_openvpn_gui.Common.{
  ℕ, zero, suc, ◌+◌, ◌<◌, ◌≤◌, ◌≡◌, ◌≢◌, ◌⊎◌, inl, inr, refl, ap, ◌∙◌, some, none, List, [], ◌∷◌,
  ◌++◌, arith, length, slice, length-append, Option-cases, slice-append_le,
}
use mikrotik_openvpn_gui.Binary.Error.{Result, ok, Result-cases}
use mikrotik_openvpn_gui.Binary.Length.{decode_length}
use mikrotik_openvpn_gui.Binary.Length.Suffix.{decode_length_bounds, decode_length-append}
use mikrotik_openvpn_gui.Binary.Reader.{
  Reader, Scanned, Step, done, more, scan_step, scan, complete_sentence,
}

pub Step-cases :
    {A S : Type 0} (s : Step A S) → ((a : Result A) × (s ≡ done a)) ⊎ ((x : S) × (s ≡ more x))
Step-cases (done a) = inl (a, refl)
Step-cases (more x) = inr (x, refl)

-- What a round that goes on has done.
pub record Advances (limit : ℕ) (r r' : Reader) : Type 0 where
  pub same_buffer : r'.buffer ≡ r.buffer
  pub forward : r.scan_offset < r'.scan_offset
  pub inside : r'.scan_offset ≤ length r.buffer
  pub bounded : r'.scan_offset ≤ limit
  pub one_word : length r'.words ≡ length r.words + 1
  pub few_words : length r'.words ≤ r.max_words
  pub same_max : r'.max_words ≡ r.max_words

pub scan_step-Advances :
    (limit : ℕ) (r r' : Reader) → scan_step limit r ≡ more r' → Advances limit r r'
unfolding scan_step
scan_step-Advances limit r r' h = elim (Result-cases (decode_length r.buffer r.scan_offset)) [
  | inl ((size, next), e) ↦
      let bounds = decode_length_bounds r.buffer r.scan_offset e in
      ground (arith, e, length-append r.words (slice r.buffer next (next + size) ∷ []))
  | inr (x, e) ↦ ground (arith, e)
]

-- With more fuel than bytes that are left the scan ends.
scan_ends :
    (fuel limit : ℕ) (r : Reader)
    → r.scan_offset ≤ length r.buffer
    → length r.buffer < fuel + r.scan_offset
    → scan fuel limit r ≢ none
unfolding scan
scan_ends zero limit r inside enough = absurd (omega arith)
scan_ends (suc fuel) limit r inside enough = elim (Step-cases (scan_step limit r)) [
  | inl (a, e) ↦ ground (arith, e)
  | inr (r', e) ↦
      let advances = scan_step-Advances limit r r' e in
      let h = scan_ends fuel limit r' in
      let same = ap length advances.same_buffer in rw (e, scan) (h (omega arith) (omega arith))
]

-- The result does not depend on the fuel, once there is enough.
scan_fuel :
    (fuel fuel' limit : ℕ) (r : Reader)
    → r.scan_offset ≤ length r.buffer
    → length r.buffer < fuel + r.scan_offset
    → length r.buffer < fuel' + r.scan_offset
    → scan fuel limit r ≡ scan fuel' limit r
unfolding scan
scan_fuel zero fuel' limit r inside enough enough' = absurd (omega arith)
scan_fuel (suc fuel) zero limit r inside enough enough' = absurd (omega arith)
scan_fuel (suc fuel) (suc fuel') limit r inside enough enough' =
    elim (Step-cases (scan_step limit r)) [
      | inl (a, e) ↦ rw (e, scan)
      | inr (r', e) ↦
          let advances = scan_step-Advances limit r r' e in
          let same = ap length advances.same_buffer in
          rw (e, scan) (scan_fuel fuel fuel' limit r' (omega arith) (omega arith) (omega arith))
    ]

-- The reader with more bytes behind those that it holds.
abbrev pub extend : Reader → List ℕ → Reader
extend r bytes = record r { buffer = r.buffer ++ bytes }

-- A round that goes on goes on in the same way with more bytes.
scan_step-extend :
    (limit : ℕ) (r r' : Reader) (bytes : List ℕ)
    → scan_step limit r ≡ more r'
    → scan_step limit (extend r bytes) ≡ more (extend r' bytes)
unfolding scan_step
scan_step-extend limit r r' bytes h = elim (Result-cases (decode_length r.buffer r.scan_offset)) [
  | inl ((size, next), e) ↦
      let bounds = decode_length_bounds r.buffer r.scan_offset e in
      ground (
        arith,
        e,
        decode_length-append r.buffer bytes r.scan_offset e,
        length-append r.buffer bytes,
        slice-append_le r.buffer bytes next (next + size),
      )
  | inr (x, e) ↦ ground (arith, e)
]

-- A round that needs more bytes leaves the reader as it is.
scan_step_incomplete :
    (limit : ℕ) (r r' : Reader) → scan_step limit r ≡ done (ok (none, r')) → r' ≡ r
unfolding scan_step
scan_step_incomplete limit r r' h = elim (Result-cases (decode_length r.buffer r.scan_offset)) [
  | inl ((size, next), e) ↦ ground (arith, e)
  | inr (x, e) ↦ ground (arith, e)
]

-- A scan whose first round goes on is the scan from the state behind that round.
complete_sentence-more :
    (limit : ℕ) (r r' : Reader)
    → r.scan_offset ≤ length r.buffer
    → scan_step limit r ≡ more r'
    → complete_sentence limit r ≡ complete_sentence limit r'
unfolding complete_sentence scan
complete_sentence-more limit r r' inside e =
    let advances = scan_step-Advances limit r r' e in
    let same = ap length advances.same_buffer in
    let one_more : length r.buffer + 1 ≡ suc (length r.buffer) = omega arith in
    let first : scan (suc (length r.buffer)) limit r ≡ scan (length r.buffer) limit r' =
      rw (e, scan) in
    ap (λ (n : ℕ). scan n limit r) one_more
    ∙ first
    ∙ scan_fuel (length r.buffer) (length r'.buffer + 1) limit r' (omega arith) (omega arith)
        (omega arith)

scan_resume_from :
    (fuel limit : ℕ) (r r' : Reader) (bytes : List ℕ)
    → r.scan_offset ≤ length r.buffer
    → length r.buffer < fuel + r.scan_offset
    → scan fuel limit r ≡ some (ok (none, r'))
    → complete_sentence limit (extend r bytes) ≡ complete_sentence limit (extend r' bytes)
unfolding scan
scan_resume_from zero limit r r' bytes inside enough h = absurd (omega arith)
scan_resume_from (suc fuel) limit r r' bytes inside enough h =
    elim (Step-cases (scan_step limit r)) [
      | inl (a, e) ↦
          let finished : some a ≡ some (ok (none, r')) = rw (e, scan) at h in
          let same : r' ≡ r = scan_step_incomplete limit r r' (cc) in rw same
      | inr (x, e) ↦
          let advances = scan_step-Advances limit r x e in
          let same = ap length advances.same_buffer in
          let later : scan fuel limit x ≡ some (ok (none, r')) = rw (e, scan) at h in
          complete_sentence-more limit (extend r bytes) (extend x bytes)
            (omega (arith, length-append r.buffer bytes)) (scan_step-extend limit r x bytes e)
          ∙ scan_resume_from fuel limit x r' bytes (omega arith) (omega arith) later
    ]

-- After an incomplete scan, a scan with more bytes from the saved state returns what a scan of all
-- the bytes from the earlier state returns.
pub complete_sentence_resume :
    (limit : ℕ) (r r' : Reader) (bytes : List ℕ)
    → r.scan_offset ≤ length r.buffer
    → complete_sentence limit r ≡ some (ok (none, r'))
    → complete_sentence limit (extend r bytes) ≡ complete_sentence limit (extend r' bytes)
unfolding complete_sentence
complete_sentence_resume limit r r' bytes inside h =
    scan_resume_from (length r.buffer + 1) limit r r' bytes inside (omega arith) h

-- `_complete_sentence` returns or raises.
pub complete_sentence_total :
    (limit : ℕ) (r : Reader)
    → r.scan_offset ≤ length r.buffer
    → (a : Result Scanned) × (complete_sentence limit r ≡ some a)
unfolding complete_sentence
complete_sentence_total limit r inside = elim (Option-cases (scan (length r.buffer + 1) limit r)) [
  | inl e ↦ absurd (scan_ends (length r.buffer + 1) limit r inside (omega arith) e)
  | inr found ↦ found
]
