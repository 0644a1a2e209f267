-- ===== src/Transport/Frame/Stream.antt =====
-- decodeFrames of pkg/transport/tcp.go over a byte stream that is cut into reads.
use mathlib.Core.List.{append-nil, append_assoc}
use go_simple_protocol_runti.Common.{
  ℕ, zero, suc, ◌≤◌, ◌<◌, ◌≡◌, ◌≢◌, refl, sym, ap, ◌∙◌, List, [], ◌∷◌, ◌++◌, length, arith,
  length-append, ◌⊎◌, inl, inr,
}
use go_simple_protocol_runti.Transport.Frame.{
  Decoded, frames, failed, stuck, prepend, Round, wait, too_long, frame, decode_round, decode_loop,
  decode_frames,
}
use go_simple_protocol_runti.Transport.Frame.Rounds.{
  decode_round-frame, decode_round-append_frame, decode_round-append_too_long,
}

Round-cases :
    (r : Round)
    → (r ≡ wait) ⊎ (r ≡ too_long) ⊎ ((p : List ℕ) × (rest : List ℕ) × (r ≡ frame p rest))
Round-cases wait = inl refl
Round-cases too_long = inr (inl refl)
Round-cases (frame p rest) = inr (inr (p, rest, refl))

prepend_assoc :
    (fs gs : List (List ℕ)) (d : Decoded) → prepend fs (prepend gs d) ≡ prepend (fs ++ gs) d
prepend_assoc fs gs (frames hs rest) =
    ap (λ (xs : List (List ℕ)). frames xs rest) (sym (append_assoc fs gs hs))
prepend_assoc fs gs failed = refl
prepend_assoc fs gs stuck = refl

-- The loop's accumulator is only prepended to its frames.
decode_loop-prepend :
    (f : ℕ) (buf : List ℕ) (out : List (List ℕ))
    → decode_loop f buf out ≡ prepend out (decode_loop f buf [])
unfolding decode_loop
decode_loop-prepend zero buf out = refl
decode_loop-prepend (suc f) buf out = elim (Round-cases (decode_round buf)) [
  | inl e ↦ rw (e, decode_loop) (ap (λ (xs : List (List ℕ)). frames xs buf) (sym (append-nil out)))
  | inr (inl e) ↦ rw (e, decode_loop)
  | inr (inr (p, rest, e)) ↦
      rw (e, decode_loop)
        (decode_loop-prepend f rest (out ++ p ∷ [])
          ∙ sym (prepend_assoc out (p ∷ []) (decode_loop f rest []))
          ∙ ap (prepend out) (sym (decode_loop-prepend f rest (p ∷ []))))
]

decode_loop_step :
    (f : ℕ) (buf rest p : List ℕ) (out : List (List ℕ))
    → decode_round buf ≡ frame p rest
    → decode_loop (suc f) buf out ≡ decode_loop f rest (out ++ p ∷ [])
unfolding decode_loop
decode_loop_step f buf rest p out e = rw (e, decode_loop)

-- More fuel than bytes is enough, and any such fuel gives the same result.
decode_loop-ne-stuck :
    (f : ℕ) (buf : List ℕ) (out : List (List ℕ)) → length buf < f → decode_loop f buf out ≢ stuck
unfolding decode_loop
decode_loop-ne-stuck zero buf out h = absurd (omega arith)
decode_loop-ne-stuck (suc f) buf out h = elim (Round-cases (decode_round buf)) [
  | inl e ↦ rw (e, decode_loop) (λ c. cc)
  | inr (inl e) ↦ rw (e, decode_loop) (λ c. cc)
  | inr (inr (p, rest, e)) ↦
      let (shorter, _) = decode_round-frame buf p rest e in
      rw (e, decode_loop) (decode_loop-ne-stuck f rest (out ++ p ∷ []) (omega arith))
]

decode_loop_fuel :
    (f g : ℕ) (buf : List ℕ) (out : List (List ℕ))
    → length buf < f
    → length buf < g
    → decode_loop f buf out ≡ decode_loop g buf out
unfolding decode_loop
decode_loop_fuel zero g buf out h k = absurd (omega arith)
decode_loop_fuel (suc f) zero buf out h k = absurd (omega arith)
decode_loop_fuel (suc f) (suc g) buf out h k = elim (Round-cases (decode_round buf)) [
  | inl e ↦ rw (e, decode_loop)
  | inr (inl e) ↦ rw (e, decode_loop)
  | inr (inr (p, rest, e)) ↦
      let (shorter, _) = decode_round-frame buf p rest e in
      rw (e, decode_loop) (decode_loop_fuel f g rest (out ++ p ∷ []) (omega arith) (omega arith))
]

-- The bytes left over are no more than those that came in.
decode_loop-rest :
    (f : ℕ) (buf : List ℕ) (out fs : List (List ℕ)) (rest : List ℕ)
    → decode_loop f buf out ≡ frames fs rest
    → length rest ≤ length buf
unfolding decode_loop
decode_loop-rest zero buf out fs rest h = cc
decode_loop-rest (suc f) buf out fs rest h = elim (Round-cases (decode_round buf)) [
  | inl e ↦ ground arith
  | inr (inl e) ↦ ground arith
  | inr (inr (p, r, e)) ↦
      let (shorter, _) = decode_round-frame buf p r e in
      let ih = decode_loop-rest f r (out ++ p ∷ []) fs rest (rw (e, decode_loop) at h) in
      omega arith
]

-- What decodes before more bytes arrive is decoded with them behind it as well.
decode_loop-append :
    (f g : ℕ) (buf more : List ℕ) (out fs : List (List ℕ)) (rest : List ℕ)
    → decode_loop f buf out ≡ frames fs rest
    → length (buf ++ more) < g
    → decode_loop g (buf ++ more) out ≡ decode_loop g (rest ++ more) fs
unfolding decode_loop
decode_loop-append zero g buf more out fs rest h k = cc
decode_loop-append (suc f) zero buf more out fs rest h k = absurd (omega arith)
decode_loop-append (suc f) (suc g) buf more out fs rest h k =
    elim (Round-cases (decode_round buf)) [
      | inl e ↦
          let same : frames out buf ≡ frames fs rest = rw (e, decode_loop) at h in
          let left : buf ≡ rest = ground arith in
          let made : out ≡ fs = ground arith in rw (left, made)
      | inr (inl e) ↦ ground arith
      | inr (inr (p, r, e)) ↦
          let (shorter, _) = decode_round-frame buf p r e in
          let h' : decode_loop f r (out ++ p ∷ []) ≡ frames fs rest = rw (e, decode_loop) at h in
          let kept = decode_loop-rest f r (out ++ p ∷ []) fs rest h' in
          let one = length-append buf more in
          let two = length-append r more in
          let three = length-append rest more in
          decode_loop_step g (buf ++ more) (r ++ more) p out
            (decode_round-append_frame buf more p r e)
          ∙ decode_loop-append f g r more (out ++ p ∷ []) fs rest h' (omega arith)
          ∙ decode_loop_fuel g (suc g) (rest ++ more) fs (omega arith) (omega arith)
    ]

decode_loop-append_failed :
    (f g : ℕ) (buf more : List ℕ) (out : List (List ℕ))
    → decode_loop f buf out ≡ failed
    → length (buf ++ more) < g
    → decode_loop g (buf ++ more) out ≡ failed
unfolding decode_loop
decode_loop-append_failed zero g buf more out h k = cc
decode_loop-append_failed (suc f) zero buf more out h k = absurd (omega arith)
decode_loop-append_failed (suc f) (suc g) buf more out h k = elim (Round-cases (decode_round buf)) [
  | inl e ↦ ground arith
  | inr (inl e) ↦ rw (decode_round-append_too_long buf more e, decode_loop)
  | inr (inr (p, r, e)) ↦
      let (shorter, _) = decode_round-frame buf p r e in
      let h' : decode_loop f r (out ++ p ∷ []) ≡ failed = rw (e, decode_loop) at h in
      let one = length-append buf more in
      let two = length-append r more in
      decode_loop_step g (buf ++ more) (r ++ more) p out (decode_round-append_frame buf more p r e)
      ∙ decode_loop-append_failed f g r more (out ++ p ∷ []) h' (omega arith)
]

-- The loop ends on a buffer that holds no whole frame.
decode_loop-wait :
    (f : ℕ) (buf : List ℕ) (out fs : List (List ℕ)) (rest : List ℕ)
    → decode_loop f buf out ≡ frames fs rest
    → decode_round rest ≡ wait
unfolding decode_loop
decode_loop-wait zero buf out fs rest h = cc
decode_loop-wait (suc f) buf out fs rest h = elim (Round-cases (decode_round buf)) [
  | inl e ↦
      let same : frames out buf ≡ frames fs rest = rw (e, decode_loop) at h in
      let left : buf ≡ rest = ground arith in rw (← left) e
  | inr (inl e) ↦ ground arith
  | inr (inr (p, r, e)) ↦ decode_loop-wait f r (out ++ p ∷ []) fs rest (rw (e, decode_loop) at h)
]

-- `decode_frames` never runs out of fuel.
pub decode_frames-ne-stuck : (buf : List ℕ) → decode_frames buf ≢ stuck
unfolding decode_frames
decode_frames-ne-stuck buf = decode_loop-ne-stuck (suc (length buf)) buf [] (omega arith)

-- The bytes that one call leaves in the buffer are where the next call goes on.
pub decode_frames-append :
    (buf more : List ℕ) (fs : List (List ℕ)) (rest : List ℕ)
    → decode_frames buf ≡ frames fs rest
    → decode_frames (buf ++ more) ≡ prepend fs (decode_frames (rest ++ more))
unfolding decode_frames
decode_frames-append buf more fs rest h =
    let kept = decode_loop-rest (suc (length buf)) buf [] fs rest h in
    let one = length-append buf more in
    let two = length-append rest more in
    let g = suc (length (buf ++ more)) in
    decode_loop-append (suc (length buf)) g buf more [] fs rest h (omega arith)
    ∙ decode_loop_fuel g (suc (length (rest ++ more))) (rest ++ more) fs (omega arith) (omega arith)
    ∙ decode_loop-prepend (suc (length (rest ++ more))) (rest ++ more) fs

pub decode_frames-append_failed :
    (buf more : List ℕ) → decode_frames buf ≡ failed → decode_frames (buf ++ more) ≡ failed
unfolding decode_frames
decode_frames-append_failed buf more h =
    decode_loop-append_failed (suc (length buf)) (suc (length (buf ++ more))) buf more [] h
      (omega arith)

pub decode_frames-wait :
    (buf : List ℕ) (fs : List (List ℕ)) (rest : List ℕ)
    → decode_frames buf ≡ frames fs rest
    → decode_round rest ≡ wait
unfolding decode_frames
decode_frames-wait buf fs rest h = decode_loop-wait (suc (length buf)) buf [] fs rest h

pub decode_frames_waiting :
    (buf : List ℕ) → decode_round buf ≡ wait → decode_frames buf ≡ frames [] buf
unfolding decode_frames decode_loop
decode_frames_waiting buf e = rw (e, decode_loop)

pub decode_frames_frame :
    (buf p rest : List ℕ)
    → decode_round buf ≡ frame p rest
    → decode_frames buf ≡ prepend (p ∷ []) (decode_frames rest)
unfolding decode_frames
decode_frames_frame buf p rest e =
    let (shorter, _) = decode_round-frame buf p rest e in
    decode_loop_step (length buf) buf rest p [] e
    ∙ decode_loop_fuel (length buf) (suc (length rest)) rest (p ∷ []) (omega arith) (omega arith)
    ∙ decode_loop-prepend (suc (length rest)) rest (p ∷ [])

pub decode_frames_too_long :
    (buf : List ℕ) → decode_round buf ≡ too_long → decode_frames buf ≡ failed
unfolding decode_frames decode_loop
decode_frames_too_long buf e = rw (e, decode_loop)
