-- ===== src/Transport/Frame/Reads.antt =====
-- The reads of a connection of pkg/transport/tcp.go, and the frames that they deliver.
use mathlib.Core.List.{append-nil, append_assoc, flatten}
use go_simple_protocol_runti.Common.{
  ℕ, ◌≤◌, ◌<◌, ◌%◌, ◌^◌, ◌≡◌, ◌≢◌, refl, sym, ap, ◌∙◌, List, [], ◌∷◌, ◌++◌, length, arith, All,
  none, some, ◌⊎◌, inl, inr,
}
use go_simple_protocol_runti.Errors.{Result, ok, ◌>>=◌, >>=-eq-ok}
use go_simple_protocol_runti.Transport.Frame.{
  max_frame_size, put_uint32, encode_frame, Decoded, frames, failed, stuck, prepend, wait,
  decode_round, decode_frames, receive,
}
use go_simple_protocol_runti.Transport.Frame.Rounds.{decode_round-encode, decode_round-oversized}
use go_simple_protocol_runti.Transport.Frame.Stream.{
  decode_frames-ne-stuck, decode_frames-append, decode_frames-append_failed, decode_frames-wait,
  decode_frames_waiting, decode_frames_frame, decode_frames_too_long,
}

pub Decoded-cases :
    (d : Decoded)
    → d ≢ stuck
    → ((fs : List (List ℕ)) × (rest : List ℕ) × (d ≡ frames fs rest)) ⊎ (d ≡ failed)
Decoded-cases (frames fs rest) h = inl (fs, rest, refl)
Decoded-cases failed h = inr refl
Decoded-cases stuck h = absurd (h refl)

prepend-eq-frames :
    (gs fs : List (List ℕ)) (d : Decoded) (rest : List ℕ)
    → prepend gs d ≡ frames fs rest
    → (hs : List (List ℕ)) × (d ≡ frames hs rest) × (gs ++ hs ≡ fs)
prepend-eq-frames gs fs (frames hs r) rest e = (hs, ground arith, ground arith)
prepend-eq-frames gs fs failed rest e = cc
prepend-eq-frames gs fs stuck rest e = cc

prepend-eq-failed : (gs : List (List ℕ)) (d : Decoded) → prepend gs d ≡ failed → d ≡ failed
prepend-eq-failed gs (frames hs r) e = cc
prepend-eq-failed gs failed e = refl
prepend-eq-failed gs stuck e = cc

pub nothing_waits : decode_round [] ≡ wait
unfolding decode_round
nothing_waits = refl

low_word : (n : ℕ) → n < 2 ^ 32 → n % 2 ^ 32 ≡ n
low_word n h = omega arith

receive-kept :
    (chunks : List (List ℕ)) (kept : List ℕ) (fs : List (List ℕ)) (rest : List ℕ)
    → decode_round kept ≡ wait
    → decode_frames (kept ++ flatten chunks) ≡ frames fs rest
    → receive kept chunks ≡ (fs, some rest)
unfolding receive flatten
receive-kept [] kept fs rest w e =
    let whole : frames [] kept ≡ frames fs rest =
      sym (decode_frames_waiting kept w) ∙ rw append-nil at e in
    ground arith
receive-kept (c ∷ cs) kept fs rest w e =
    elim (Decoded-cases (decode_frames (kept ++ c)) (decode_frames-ne-stuck (kept ++ c))) [
      | inl (gs, r, d) ↦
          let (hs, later, joined) =
            prepend-eq-frames gs fs (decode_frames (r ++ flatten cs)) rest
              (sym (decode_frames-append (kept ++ c) (flatten cs) gs r d) ∙ whole) in
          let ih = receive-kept cs r hs rest (decode_frames-wait (kept ++ c) gs r d) later in
          rw (d, receive) (ground arith)
      | inr d ↦ cc (decode_frames-append_failed (kept ++ c) (flatten cs) d, whole)
    ]
  where
    whole : decode_frames ((kept ++ c) ++ flatten cs) ≡ frames fs rest
    whole = ap decode_frames (append_assoc kept c (flatten cs)) ∙ e

receive-kept_failed :
    (chunks : List (List ℕ)) (kept : List ℕ)
    → decode_round kept ≡ wait
    → decode_frames (kept ++ flatten chunks) ≡ failed
    → (receive kept chunks).1 ≡ none
unfolding receive flatten
receive-kept_failed [] kept w e =
    let whole : frames [] kept ≡ failed = sym (decode_frames_waiting kept w) ∙ rw append-nil at e in
    ground arith
receive-kept_failed (c ∷ cs) kept w e =
    elim (Decoded-cases (decode_frames (kept ++ c)) (decode_frames-ne-stuck (kept ++ c))) [
      | inl (gs, r, d) ↦
          let later =
            prepend-eq-failed gs (decode_frames (r ++ flatten cs))
              (sym (decode_frames-append (kept ++ c) (flatten cs) gs r d) ∙ whole) in
          rw (d, receive) (receive-kept_failed cs r (decode_frames-wait (kept ++ c) gs r d) later)
      | inr d ↦ rw (d, receive)
    ]
  where
    whole : decode_frames ((kept ++ c) ++ flatten cs) ≡ failed
    whole = ap decode_frames (append_assoc kept c (flatten cs)) ∙ e

-- Whatever the cuts, a connection's reads deliver the frames that the whole stream decodes to and
-- keep the same unfinished bytes, and they end the connection when the whole stream is refused.
pub receive-decode_frames :
    (chunks : List (List ℕ))
    → ((fs : List (List ℕ)) (rest : List ℕ)
        → decode_frames (flatten chunks) ≡ frames fs rest
        → receive [] chunks ≡ (fs, some rest))
      × (decode_frames (flatten chunks) ≡ failed → (receive [] chunks).1 ≡ none)
      × (decode_frames (flatten chunks) ≢ stuck)
receive-decode_frames chunks = (
  λ fs rest. receive-kept chunks [] fs rest nothing_waits,
  receive-kept_failed chunks [] nothing_waits,
  decode_frames-ne-stuck (flatten chunks),
)

-- The bytes that a run of `send` calls writes on one connection.
unfoldable pub encode_all : List (List ℕ) → Result (List ℕ)
encode_all [] = ok []
encode_all (p ∷ ps) = do bytes ← encode_frame p; rest ← encode_all ps; ok (bytes ++ rest)

abbrev pub IsSmall : List ℕ → Type 0
IsSmall p = length p ≤ max_frame_size

pub encode_frame_small : (p : List ℕ) → IsSmall p → encode_frame p ≡ ok (put_uint32 (length p) ++ p)
unfolding encode_frame
encode_frame_small p h = ground (arith, low_word (length p))

decode_frames-encode_all :
    (ps : List (List ℕ)) (stream : List ℕ)
    → All IsSmall ps
    → encode_all ps ≡ ok stream
    → decode_frames stream ≡ frames ps []
unfolding encode_all
decode_frames-encode_all [] stream small e =
    let same : [] ≡ stream = ground arith in rw (← same) (decode_frames_waiting [] nothing_waits)
decode_frames-encode_all (p ∷ ps) stream small e =
    let (bytes, e₁, f₁) = >>=-eq-ok (encode_frame p) _ e in
    let (later, e₂, f₂) = >>=-eq-ok (encode_all ps) _ f₁ in
    let front : bytes ≡ put_uint32 (length p) ++ p = cc (e₁, encode_frame_small p small.0) in
    let same : bytes ++ later ≡ stream = ground arith in
    rw (← same, front, append_assoc (put_uint32 (length p)) p later)
      (decode_frames_frame _ p later (decode_round-encode p later small.0)
        ∙ ap (prepend (p ∷ [])) (decode_frames-encode_all ps later small.1 e₂))

-- The payloads that one side sends, each within the frame limit, are the frames that the other
-- side's reads deliver, in order and with nothing left over, however the network cuts the bytes.
pub receive-encode_all :
    (ps chunks : List (List ℕ)) (stream : List ℕ)
    → All IsSmall ps
    → encode_all ps ≡ ok stream
    → flatten chunks ≡ stream
    → receive [] chunks ≡ (ps, some [])
receive-encode_all ps chunks stream small sent cuts =
    (receive-decode_frames chunks).0 ps []
      (ap decode_frames cuts ∙ decode_frames-encode_all ps stream small sent)

-- A payload above the frame limit whose length still fits in 32 bits is framed without an error; however
-- the network cuts the bytes of its frame and whatever follows them, the reads end the receiving
-- connection.
pub encode_frame_oversized :
    (p more : List ℕ) (chunks : List (List ℕ))
    → max_frame_size < length p
    → length p < 2 ^ 32
    → flatten chunks ≡ put_uint32 (length p) ++ (p ++ more)
    → (encode_frame p ≡ ok (put_uint32 (length p) ++ p)) × ((receive [] chunks).1 ≡ none)
unfolding encode_frame
encode_frame_oversized p more chunks large word cuts = (
  ground (arith, low_word (length p)),
  receive-kept_failed chunks [] nothing_waits (
      ap decode_frames cuts
      ∙ decode_frames_too_long _ (decode_round-oversized (length p) (p ++ more) large word)),
)
