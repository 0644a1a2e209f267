-- ===== src/Transport/Frame/Examples.antt =====
-- A payload one byte above the limit of pkg/transport/tcp.go.
use go_simple_protocol_runti.Common.{
  ℕ, zero, suc, ◌≡◌, refl, ap, List, [], ◌∷◌, ◌++◌, length, arith, none, sym, ◌∙◌,
}
use mathlib.Core.List.{append-nil, flatten}
use go_simple_protocol_runti.Errors.{ok}
use go_simple_protocol_runti.Wire.Words.{le_bytes}
use go_simple_protocol_runti.Transport.Frame.{encode_frame, put_uint32, receive}
use go_simple_protocol_runti.Transport.Frame.Reads.{encode_frame_oversized}

zeros : ℕ → List ℕ
zeros zero = []
zeros (suc n) = 0 ∷ zeros n

length-zeros : (n : ℕ) → length (zeros n) ≡ n
unfolding zeros
length-zeros zero = refl
length-zeros (suc n) = ap suc (length-zeros n)

abbrev payload : List ℕ
payload = zeros 16_777_217

one_cut : (bytes : List ℕ) → flatten ((1 ∷ 0 ∷ []) ∷ bytes ∷ []) ≡ (1 ∷ 0 ∷ []) ++ bytes
unfolding flatten
one_cut bytes = ap (λ (rest : List ℕ). 1 ∷ 0 ∷ rest) (append-nil bytes)

prefix_lem : (bytes : List ℕ) → put_uint32 16_777_217 ++ bytes ≡ 1 ∷ 0 ∷ 0 ∷ 1 ∷ bytes
unfolding put_uint32 le_bytes
prefix_lem bytes = refl

encode_frame_oversized_example :
    (encode_frame payload ≡ ok (put_uint32 (length payload) ++ payload))
    × ((receive [] ((1 ∷ 0 ∷ []) ∷ (0 ∷ 1 ∷ payload) ∷ [])).1 ≡ none)
encode_frame_oversized_example =
    encode_frame_oversized payload [] ((1 ∷ 0 ∷ []) ∷ (0 ∷ 1 ∷ payload) ∷ [])
      (omega (arith, length-zeros 16_777_217)) (omega (arith, length-zeros 16_777_217))
      (one_cut (0 ∷ 1 ∷ payload)
        ∙ sym (
            ap (λ (n : ℕ). put_uint32 n ++ (payload ++ [])) (length-zeros 16_777_217)
            ∙ prefix_lem (payload ++ [])
            ∙ ap (λ (rest : List ℕ). 1 ∷ 0 ∷ 0 ∷ 1 ∷ rest) (append-nil payload)))
