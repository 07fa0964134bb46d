-- ===== src/Examples/Client.antt =====
-- client/ on a COBS frame.
use simpleiot.Prelude.{[], ◌∷◌, arith}
use simpleiot.Client.Cobs.{cobs_decode_inplace}
use simpleiot.Client.Cobs.InPlace.{Agrees, frame, cobs_decode_inplace-Agrees}

cobs_decode_inplace-Agrees_example :
    Agrees []
      (cobs_decode_inplace (0 ∷ 2 ∷ 7 ∷ 1 ∷ 2 ∷ 9 ∷ 0 ∷ []))
      (frame (0 ∷ 2 ∷ 7 ∷ 1 ∷ 2 ∷ 9 ∷ 0 ∷ []))
cobs_decode_inplace-Agrees_example =
    cobs_decode_inplace-Agrees (0 ∷ 2 ∷ 7 ∷ 1 ∷ 2 ∷ 9 ∷ 0 ∷ []) (omega arith)
