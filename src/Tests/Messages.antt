-- ===== src/Tests/Messages.antt =====
-- src/network/protocol.cpp at small inputs.
use blockchain_messaging.Base.{
  ◌≡◌, ◌<◌, refl, true, [], ◌∷◌, bytes, decimal, length, ok, throws, runtime_error, arith,
}
use blockchain_messaging.Base.Integers.{signed_decimal}
use blockchain_messaging.Network.Protocol.{
  transaction_broadcast, type_code, ProtocolMessage, serialize, deserialize, message_digest, verify,
  create_handshake, create_block_request, create_transaction_broadcast,
}
use blockchain_messaging.Network.Protocol.RoundTrip.{deserialize-serialize}
use blockchain_messaging.Network.Protocol.Signatures.{shifted, verify-shifted}
use blockchain_messaging.Tests.World.{toy, sample}
use blockchain_messaging.Tests.Json.{json, json-IsJsonCpp}

abbrev message : ProtocolMessage
message = record {
  type = transaction_broadcast;
  sender = bytes "ann";
  payload = bytes "pay 12";
  timestamp = 34;
  signature = bytes "3annpay 1234";
}

deserialize-serialize_example : deserialize json (serialize json message) ≡ ok message
deserialize-serialize_example =
    deserialize-serialize json json-IsJsonCpp message refl (omega arith) refl refl refl

deserialize_fails :
    deserialize json (9 ∷ []) ≡ throws (runtime_error "Failed to parse protocol message")
unfolding deserialize
deserialize_fails = refl

signed_run : verify toy message ≡ true
unfolding verify message_digest signed_decimal type_code decimal
signed_run = refl

verify-shifted_example :
    (verify toy (shifted message (bytes "pay ") 12) ≡ verify toy message)
    × (length (bytes "pay ") < length message.payload)
    × (message.timestamp < (shifted message (bytes "pay ") 12).timestamp)
unfolding decimal
verify-shifted_example =
    verify-shifted toy message (bytes "pay ") 12 refl (omega arith) (omega arith)

block_request_run : (create_block_request json 50 7).sender ≡ []
unfolding create_block_request
block_request_run = refl

handshake_run :
    (create_handshake json 50
      (record { version = 1; node_id = bytes "n"; timestamp = 50; capabilities = [] })).sender
    ≡ bytes "n"
unfolding create_handshake
handshake_run = refl

broadcast_run :
    (create_transaction_broadcast json 50 (λ t. bytes "data") (sample [] [] [] 0)).timestamp ≡ 50
unfolding create_transaction_broadcast
broadcast_run = refl
