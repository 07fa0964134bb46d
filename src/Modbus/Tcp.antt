-- ===== src/Modbus/Tcp.antt =====
-- modbus/tcp.go: `Encode` and `Decode` of TCP packets, with the transaction ID that a connection
-- keeps.
use simpleiot.Prelude.{
  ℕ, ◌+◌, ◌*◌, ◌/◌, ◌%◌, ◌^◌, ◌<◌, ◌≡◌, refl, ap, ◌∙◌, not, List, ◌∷◌, ltb, ltb-false, ◌==◌,
  ==-refl, if◌then◌else◌, arith, length,
}
use simpleiot.Modbus.{Pdu}

-- `TransportClientServer`
pub data TransportClientServer : Type 0 where
  transport_client : TransportClientServer
  transport_server : TransportClientServer

-- `TCP`, without its socket
pub record Tcp : Type 0 where
  pub tx_id : ℕ
  pub client_server : TransportClientServer

pub data TcpError : Type 0 where
  not_enough_data : TcpError
  wrong_transaction_id : TcpError

-- What `TCP.Decode` returns
pub data Decoded : Type 0 where
  decoded : ℕ → Pdu → Decoded
  refused : TcpError → Decoded
  panicked : Decoded

unfoldable pub next_tx_id : TransportClientServer → ℕ → ℕ
next_tx_id transport_client t = (t + 1) % 2 ^ 16
next_tx_id transport_server t = t

-- `TCP.Encode`
unfoldable pub encode : Tcp → ℕ → Pdu → Tcp × List ℕ
unfolding next_tx_id
encode t id pdu =
    let tx = next_tx_id t.client_server t.tx_id in
    let len = (length pdu.payload + 2) % 2 ^ 16 in
    (
      record t { tx_id = tx },
      (tx / 256 % 256)
          ∷ (tx % 256)
          ∷ 0
          ∷ 0
          ∷ (len / 256 % 256)
          ∷ (len % 256)
          ∷ id
          ∷ pdu.function_code
          ∷ pdu.payload,
    )

-- The switch on the side of the connection
unfoldable pub take_tx_id : TransportClientServer → Tcp → ℕ → Decoded → Tcp × Decoded
take_tx_id transport_client t tx d =
    if not (tx == t.tx_id) then (t, refused wrong_transaction_id) else (t, d)
take_tx_id transport_server t tx d = (record t { tx_id = tx }, d)

unfoldable pub decode_fields : Tcp → List ℕ → Tcp × Decoded
unfolding take_tx_id
decode_fields t (a ∷ b ∷ c ∷ d ∷ e ∷ g ∷ id ∷ f ∷ rest) =
    take_tx_id t.client_server t (a * 256 + b)
      (decoded id (record { function_code = f; payload = rest }))
decode_fields t _ = (t, panicked)

-- `TCP.Decode`
unfoldable pub decode : Tcp → List ℕ → Tcp × Decoded
unfolding decode_fields
decode t packet =
    if ltb (length packet) 9 then (t, refused not_enough_data) else decode_fields t packet

abbrev pub client : ℕ → Tcp
client tx = record { tx_id = tx; client_server = transport_client }

abbrev pub server : ℕ → Tcp
server tx = record { tx_id = tx; client_server = transport_server }

word_split : (n : ℕ) → n < 2 ^ 16 → n / 256 % 256 * 256 + n % 256 ≡ n
word_split n h = omega arith

decode_long :
    (t : Tcp) (packet : List ℕ) → 8 < length packet → decode t packet ≡ decode_fields t packet
unfolding decode
decode_long t packet h = rw (ltb-false (length packet) 9 (omega arith)) refl

server_takes :
    (tx old id : ℕ) (request : Pdu)
    → 0 < length request.payload
    → decode (server old) ((encode (client tx) id request).1)
      ≡ (server ((tx + 1) % 2 ^ 16), decoded id request)
unfolding encode decode_fields take_tx_id next_tx_id
server_takes tx old id request p =
    decode_long (server old) ((encode (client tx) id request).1) (omega arith)
    ∙ (ap (λ t. (server t, decoded id request)) (word_split ((tx + 1) % 2 ^ 16) (omega arith)))

client_takes :
    (tx id : ℕ) (reply : Pdu)
    → tx < 2 ^ 16
    → 0 < length reply.payload
    → decode (client tx) ((encode (server tx) id reply).1) ≡ (client tx, decoded id reply)
unfolding encode decode_fields take_tx_id next_tx_id
client_takes tx id reply h p =
    decode_long (client tx) ((encode (server tx) id reply).1) (omega arith)
    ∙ rw (word_split tx h, ==-refl tx) refl

-- A request that a client sends is decoded by the server, and the server's reply by the client,
-- whatever transaction ID the server had before: the server gives the client's ID back. The client
-- keeps that ID. The data of both PDUs is not empty.
pub decode-encode_exchange :
    (tx old id reply_id : ℕ) (request reply : Pdu)
    → 0 < length request.payload
    → 0 < length reply.payload
    → ((decode (server old) ((encode (client tx) id request).1)).1 ≡ decoded id request)
      × (decode ((encode (client tx) id request).0) (
            (encode ((decode (server old) ((encode (client tx) id request).1)).0) reply_id reply).1)
          ≡ (client ((tx + 1) % 2 ^ 16), decoded reply_id reply))
unfolding encode next_tx_id
decode-encode_exchange tx old id reply_id request reply p q =
    let e = server_takes tx old id request p in
    (
      ap (λ r. r.1) e,
      ap (λ r. decode (client ((tx + 1) % 2 ^ 16)) ((encode (r.0) reply_id reply).1)) e
          ∙ client_takes ((tx + 1) % 2 ^ 16) reply_id reply (omega arith) q,
    )
