-- ===== src/Modbus/Server/Listen.antt =====
-- modbus/server.go: what `Listen` does with one packet that the transport has read, for RTU, and
-- modbus/client.go: `ReadHoldingRegs` over the same transport.
use simpleiot.Prelude.{
  ℕ, ◌+◌, ◌^◌, ◌<◌, ◌≤◌, ◌≡◌, refl, ap, ◌∙◌, Bool, true, false, not, List, [], ◌∷◌, Option, none,
  some, ◌==◌, ==-refl, if◌then◌else◌, length, length-append, take, take_all, arith, All,
}
use simpleiot.Prelude.Options.{◌>>=◌}
use simpleiot.Modbus.{Pdu, put_uint16_array}
use simpleiot.Modbus.Crc.{rtu_crc}
use simpleiot.Modbus.Rtu.{
  encode, decode, Decoded, decoded, crc_error, short_packet, panicked, decode-encode,
}
use simpleiot.Modbus.Server.{RegProvider, Answer, answer, not_enough_data, process_request}
use simpleiot.Modbus.Server.Response.{Reading, resp_read_regs, read_holding_regs, reading}
use simpleiot.Modbus.Server.Reads.{
  Holds, response, process_lem, client_lem, length-put_uint16_array,
}

-- The registers afterwards, whether `changesCallback` and `errorCallback` were called, and the
-- packet that was written, if one was.
pub record Handled (S : Type 0) : Type 0 where
  pub registers : S
  pub changes : Bool
  pub errors : Bool
  pub sent : Option (List ℕ)

module _ {S : Type 0} (regs : RegProvider S) (server_id : ℕ) where
  -- After `ProcessRequest`
  unfoldable pub reply : S × Answer → Handled S
  reply (s, answer changed resp) = record {
    registers = s;
    changes = changed;
    errors = false;
    sent = some (encode server_id resp);
  }
  reply (s, not_enough_data) = record { registers = s; changes = false; errors = true; sent = none }

  -- After `Decode`; a packet for another device is left alone.
  unfoldable pub on_decoded : S → Decoded → Option (Handled S)
  unfolding reply
  on_decoded s panicked = none
  on_decoded s short_packet =
      some (record { registers = s; changes = false; errors = true; sent = none })
  on_decoded s (crc_error e) =
      some (record { registers = s; changes = false; errors = true; sent = none })
  on_decoded s (decoded id req) =
      if not (id == server_id)
      then some (record { registers = s; changes = false; errors = false; sent = none })
      else process_request regs req s >>= λ r. some (reply r)

  -- One round of `Server.Listen` with a packet that is not empty; `none` is a panic.
  unfoldable pub handle_packet : S → List ℕ → Option (Handled S)
  unfolding on_decoded
  handle_packet s packet = on_decoded s (decode packet)

-- What `Client.ReadHoldingRegs` returns
pub data Fetched : Type 0 where
  fetched : Reading ℕ → Fetched
  wrong_code : Fetched
  not_decoded : Fetched

-- `Client.ReadHoldingRegs` after `Decode`; the ID of the reply is not looked at.
unfoldable pub on_reply : Decoded → Option Fetched
on_reply panicked = none
on_reply short_packet = some not_decoded
on_reply (crc_error e) = some not_decoded
on_reply (decoded id resp) =
    if not (resp.function_code == 3)
    then some wrong_code
    else resp_read_regs resp >>= λ r. some (fetched r)

-- `Client.ReadHoldingRegs` from the reply's packet on; both sides read into 200 bytes.
unfoldable pub fetch : List ℕ → Option Fetched
unfolding on_reply
fetch packet = on_reply (decode (take 200 packet))

word_bytes : (vs : List ℕ) → All (λ b. b < 256) (put_uint16_array vs)
unfolding put_uint16_array
word_bytes [] = tt
word_bytes (v ∷ vs) = (omega arith, (omega arith, word_bytes vs))

length-encode :
    (id f : ℕ) (d : List ℕ)
    → length (encode id (record { function_code = f; payload = d })) ≡ length d + 4
unfolding encode put_uint16_array
length-encode id f d = omega (arith, length-append d (put_uint16_array (rtu_crc (id ∷ f ∷ d) ∷ [])))

module _ {S : Type 0} (regs : RegProvider S) (id : ℕ) (s : S) (address : ℕ) (vs : List ℕ) where
  abbrev request : Pdu
  request = read_holding_regs address (length vs)

  -- What the server does with the client's packet, and what the client makes of the reply.
  served :
      id < 256
      → address < 2 ^ 16
      → length vs ≤ 97
      → Holds (regs.provide_reg s) address 0 vs
      → handle_packet regs id s (take 200 (encode id request))
        ≡ some (record {
          registers = s;
          changes = false;
          errors = false;
          sent = some (encode id (response regs s address vs));
        })
  unfolding handle_packet on_decoded reply
  served h a l holds =
      ap (λ ys. on_decoded regs id s (decode ys))
        (take_all 200 (encode id request) (
          omega (
            arith,
            length-encode id 3 request.payload,
            length-put_uint16_array (address ∷ length vs ∷ []),
          )))
      ∙ ap (on_decoded regs id s) (
          decode-encode id 3 request.payload
            (h, (omega arith, word_bytes (address ∷ length vs ∷ []))))
      ∙ rw (==-refl id, process_lem regs s address vs a (omega arith) holds) refl

  got_back :
      id < 256
      → 0 < length vs
      → length vs ≤ 97
      → All (λ v. v < 2 ^ 16) vs
      → fetch (encode id (response regs s address vs)) ≡ some (fetched (reading vs))
  unfolding fetch on_reply
  got_back h n l a =
      ap (λ ys. on_reply (decode ys))
        (take_all 200 (encode id (response regs s address vs)) (
          omega (
            arith,
            length-encode id 3 (response regs s address vs).payload,
            length-put_uint16_array vs,
          )))
      ∙ ap on_reply (
          decode-encode id 3 (response regs s address vs).payload
            (h, (omega arith, (omega arith, word_bytes vs))))
      ∙ rw (client_lem regs s address vs n a) refl

  -- `Client.ReadHoldingRegs` over RTU of 1 to 97 registers that the server with that ID has gives
  -- exactly their values, whatever the provider of registers: the request is encoded, decoded and
  -- processed by the server, its registers and callbacks are left alone, and the reply is decoded
  -- by the client. Both sides read a packet into 200 bytes, which 97 registers fit.
  pub fetch-handle_packet :
      id < 256
      → address < 2 ^ 16
      → 0 < length vs
      → length vs ≤ 97
      → All (λ v. v < 2 ^ 16) vs
      → Holds (regs.provide_reg s) address 0 vs
      → (packet : List ℕ) × (handle_packet regs id s (take 200 (encode id request))
          ≡ some (record { registers = s; changes = false; errors = false; sent = some packet }))
        × (fetch packet ≡ some (fetched (reading vs)))
  fetch-handle_packet h a n l v holds =
      (encode id (response regs s address vs), served h a l holds, got_back h n l v)
