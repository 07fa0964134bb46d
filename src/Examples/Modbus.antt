-- ===== src/Examples/Modbus.antt =====
-- modbus/ on a device with two registers and a few packets.
use simpleiot.Prelude.{
  ◌*◌, ◌++◌, ℕ, ◌+◌, ◌%◌, ◌^◌, ◌≡◌, refl, Bool, false, List, [], ◌∷◌, none, some, arith, take,
  length,
}
use simpleiot.Prelude.Options.{Returns}
use simpleiot.Modbus.{Pdu, got}
use simpleiot.Modbus.Words.{uint32_to_regs}
use simpleiot.Modbus.Rtu
use simpleiot.Modbus.Tcp
use simpleiot.Modbus.Ascii
use simpleiot.Modbus.Ascii.Packet
use simpleiot.Modbus.Ascii.Requests
use simpleiot.Modbus.{put_uint16_array}
use simpleiot.Modbus.Regs.{
  Reg, read_reg, write_reg, write_coil, write_reg_uint32, read_reg_uint32, write_all, after_write,
  allows,
}
use simpleiot.Modbus.Regs.Access.{Wrote, write_reg-Wrote}
use simpleiot.Modbus.Regs.Coils.{CoilWritten, write_coil-CoilWritten}
use simpleiot.Modbus.Regs.Pairs.{read_reg_uint32-write_reg_uint32}
use simpleiot.Modbus.Server.{regs_provider, process_request}
use simpleiot.Modbus.Server.Total.{process_request-Returns, process_request-panics}
use simpleiot.Modbus.Server.Bits.{resp_read_bits-length}
use simpleiot.Modbus.Server.Response.{read_coils, read_holding_regs, resp_read_bits, reading}
use simpleiot.Modbus.Server.Writes.{
  write_multiple_regs, written, put_words, process_request-put_words,
}
use simpleiot.Modbus.Server.Listen.{handle_packet, fetch, fetched, fetch-handle_packet}

-- Registers 4 and 5
abbrev device : List Reg
device =
    record { address = 4; value = 7; validate = none }
    ∷ record { address = 5; value = 600; validate = none }
    ∷ []

decode-encode_example :
    Rtu.decode (Rtu.encode 1 (record { function_code = 3; payload = 0 ∷ 4 ∷ 0 ∷ 2 ∷ [] }))
    ≡ Rtu.decoded 1 (record { function_code = 3; payload = 0 ∷ 4 ∷ 0 ∷ 2 ∷ [] })
decode-encode_example =
    Rtu.decode-encode 1 3 (0 ∷ 4 ∷ 0 ∷ 2 ∷ [])
      (omega arith, (omega arith, (omega arith, (omega arith, (omega arith, (omega arith, tt))))))

abbrev ask : Pdu
ask = record { function_code = 3; payload = 0 ∷ 4 ∷ 0 ∷ 2 ∷ [] }

abbrev reply : Pdu
reply = record { function_code = 3; payload = 2 ∷ 0 ∷ 7 ∷ [] }

decode-encode_exchange_example :
    ((Tcp.decode (Tcp.server 9) ((Tcp.encode (Tcp.client 41) 1 ask).1)).1 ≡ Tcp.decoded 1 ask)
    × (Tcp.decode ((Tcp.encode (Tcp.client 41) 1 ask).0) (
          (Tcp.encode
            ((Tcp.decode (Tcp.server 9) ((Tcp.encode (Tcp.client 41) 1 ask).1)).0)
            1
            reply).1)
        ≡ (Tcp.client ((41 + 1) % 2 ^ 16), Tcp.decoded 1 reply))
decode-encode_exchange_example =
    Tcp.decode-encode_exchange 41 9 1 1 ask reply (omega arith) (omega arith)

write_reg-Wrote_example : Wrote device 4 9 (write_reg device 4 9)
write_reg-Wrote_example = write_reg-Wrote device 4 9

write_coil-CoilWritten_example : CoilWritten device 64 false 65 (write_coil device 64 false)
write_coil-CoilWritten_example =
    write_coil-CoilWritten device 64 false 65 (omega arith) (omega arith)
      (λ e. absurd (omega arith))

pair_written : (write_reg_uint32 device 4 70000).1 ≡ none
unfolding write_reg_uint32 uint32_to_regs write_all after_write write_reg allows
pair_written = refl

read_reg_uint32-write_reg_uint32_example :
    read_reg_uint32 ((write_reg_uint32 device 4 70000).0) 4 ≡ got 70000
read_reg_uint32-write_reg_uint32_example =
    read_reg_uint32-write_reg_uint32 device 4 70000 (omega arith) pair_written

abbrev put_two : Pdu
put_two = record { function_code = 16; payload = 0 ∷ 4 ∷ 0 ∷ 2 ∷ 4 ∷ 0 ∷ 1 ∷ 0 ∷ 2 ∷ [] }

process_request-Returns_example : Returns (process_request regs_provider put_two device)
process_request-Returns_example =
    process_request-Returns regs_provider put_two device
      (λ c e. ((λ h. absurd (omega arith)), (λ h. absurd (omega arith))))

process_request-panics_example : process_request regs_provider (read_coils 64 2040) device ≡ none
process_request-panics_example =
    process_request-panics regs_provider 64 2040 device (omega arith) (omega arith)

resp_read_bits-length_example :
    (bs : List Bool) × (resp_read_bits (record { function_code = 1; payload = 2 ∷ 255 ∷ 255 ∷ [] })
      ≡ some (reading bs))
    × (length bs ≡ 2)
resp_read_bits-length_example = resp_read_bits-length 1 2 (255 ∷ 255 ∷ []) (omega arith) refl refl

fetch-handle_packet_example :
    (packet : List ℕ) × (handle_packet regs_provider 1 device
        (take 200 (Rtu.encode 1 (read_holding_regs 4 2)))
      ≡ some (record { registers = device; changes = false; errors = false; sent = some packet }))
    × (fetch packet ≡ some (fetched (reading (7 ∷ 600 ∷ []))))
unfolding read_reg
fetch-handle_packet_example =
    fetch-handle_packet regs_provider 1 device 4 (7 ∷ 600 ∷ []) (omega arith) (omega arith)
      (omega arith) (omega arith) (omega arith, (omega arith, tt)) (refl, (refl, tt))

-- The device has no register 6: the first two words are written and the third is refused.
process_request-put_words_example :
    process_request regs_provider (write_multiple_regs 4 (1 ∷ 2 ∷ 3 ∷ [])) device
    ≡ some (
        written regs_provider 4
          (1 ∷ 2 ∷ 3 ∷ [])
          (put_words regs_provider device 4 0 (1 ∷ 2 ∷ 3 ∷ [])))
process_request-put_words_example =
    process_request-put_words regs_provider 4 (1 ∷ 2 ∷ 3 ∷ []) device (omega arith) (omega arith)
      (omega arith) (omega arith, (omega arith, (omega arith, tt)))

decode_ascii_pdu-ascii_packet_example :
    Ascii.decode_ascii_pdu (Packet.ascii_packet 1 3 (0 ∷ 4 ∷ 0 ∷ 255 ∷ []))
    ≡ Ascii.parsed (Packet.adu 1 3 (0 ∷ 4 ∷ 0 ∷ 255 ∷ []))
decode_ascii_pdu-ascii_packet_example =
    Packet.decode_ascii_pdu-ascii_packet 1 3 (0 ∷ 4 ∷ 0 ∷ 255 ∷ [])
      (omega arith, (omega arith, (omega arith, (omega arith, (omega arith, (omega arith, tt))))))

decode_function_data-request_example :
    Requests.decode_function_data (Requests.request 4 0 (7 ∷ 600 ∷ []))
    ≡ some (
        Requests.write_request (record {
          starting_address = 4;
          reg_count = 2;
          byte_count = 4;
          reg_values = 7 ∷ 600 ∷ [];
        }))
decode_function_data-request_example =
    Requests.decode_function_data-request 4 0 (7 ∷ 600 ∷ []) (omega arith) (omega arith)
      (omega arith, (omega arith, tt))

decode_function_data-panics_example :
    Requests.decode_function_data (record {
      address = 1;
      function_code = 16;
      payload = put_uint16_array (4 ∷ 32769 ∷ []) ++ ((32769 * 2 % 2 ^ 16) ∷ 0 ∷ 7 ∷ []);
      lrc = 0;
      ending = 13 ∷ 10 ∷ [];
    })
    ≡ none
decode_function_data-panics_example =
    Requests.decode_function_data-panics 4 32769 0 (0 ∷ 7 ∷ []) (13 ∷ 10 ∷ []) (omega arith)
      (omega arith) (omega arith)
