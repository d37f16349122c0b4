-- ===== src/Network/Protocol.antt =====
-- src/network/protocol.hpp and protocol.cpp: ProtocolMessage and NetworkProtocol. JsonCpp is a
-- parameter.
pub mod RoundTrip
pub mod Signatures
use blockchain_messaging.Base.{
  ℕ, zero, suc, ◌+◌, ◌<◌, ◌^◌, ◌≡◌, List, [], ◌∷◌, ◌++◌, Bool, true, false, Option, none, some, Str,
  bytes, decimal, get_elem?, All, Result, ok, throws, ◌>>=◌, runtime_error,
}
use blockchain_messaging.Base.Integers.{ℤ, pos, negsuc, signed_decimal}
use blockchain_messaging.Base.Maps.{Map, lookup, insert}
use blockchain_messaging.Crypto.Encryption.{Libcrypto}
use blockchain_messaging.Core.Transaction.{Transaction}

-- enum class MessageType. Its underlying type is int, so a cast makes a value of any int: `other`
-- is one that no enumerator names.
pub data MessageType : Type 0 where
  handshake block_request block_response transaction_broadcast peer_discovery validation_request
        validation_response contract_deployment contract_execution sync_request sync_response :
      MessageType
  other : ℤ → MessageType

-- `static_cast<int>(type)`.
unfoldable pub type_code : MessageType → ℤ
type_code handshake = pos 0
type_code block_request = pos 1
type_code block_response = pos 2
type_code transaction_broadcast = pos 3
type_code peer_discovery = pos 4
type_code validation_request = pos 5
type_code validation_response = pos 6
type_code contract_deployment = pos 7
type_code contract_execution = pos 8
type_code sync_request = pos 9
type_code sync_response = pos 10
type_code (other i) = i

abbrev enumerators : List MessageType
enumerators =
    handshake ∷ block_request ∷ block_response ∷ transaction_broadcast ∷ peer_discovery
    ∷ validation_request ∷ validation_response ∷ contract_deployment ∷ contract_execution
    ∷ sync_request ∷ sync_response ∷ []

-- `static_cast<MessageType>(i)`.
unfoldable pub type_of_code : ℤ → MessageType
type_of_code (pos n) = elim (get_elem? enumerators n) [ none ↦ other (pos n) | some t ↦ t ]
type_of_code (negsuc n) = other (negsuc n)

pub record ProtocolMessage : Type 0 where
  pub type : MessageType
  pub sender : Str
  pub payload : Str
  pub timestamp : ℕ
  pub signature : Str

-- The values that the code puts into a Json::Value.
pub data Field : Type 0 where
  int_field : ℤ → Field
  uint64_field : ℕ → Field
  text_field : Str → Field
  texts_field : List Str → Field

-- Json::FastWriter on an object, Json::Reader, and `root[key].asInt()` and so on, which throw
-- where the value does not convert.
pub record JsonCpp : Type 1 where
  pub Root : Type 0
  pub write : Map Field → Str
  pub parse : Str → Option Root
  pub int_at : Root → Str → Result ℤ
  pub uint64_at : Root → Str → Result ℕ
  pub text_at : Root → Str → Result Str
  -- Whether a string is UTF-8, as the strings of a document are.
  pub is_utf8 : Str → Bool

module _ (j : JsonCpp) where
  unfoldable pub serialize : ProtocolMessage → Str
  serialize m = j.write (
      insert (bytes "signature") (text_field m.signature) (
        insert (bytes "timestamp") (uint64_field m.timestamp) (
          insert (bytes "payload") (text_field m.payload) (
            insert (bytes "sender") (text_field m.sender)
              (insert (bytes "type") (int_field (type_code m.type)) [])))))

  unfoldable pub read_message : JsonCpp.Root j → Result ProtocolMessage
  read_message root = do
    type ← j.int_at root (bytes "type")
    sender ← j.text_at root (bytes "sender")
    payload ← j.text_at root (bytes "payload")
    timestamp ← j.uint64_at root (bytes "timestamp")
    signature ← j.text_at root (bytes "signature")
    ok (record {
      type = type_of_code type;
      sender = sender;
      payload = payload;
      timestamp = timestamp;
      signature = signature;
    })

  unfoldable pub deserialize : Str → Result ProtocolMessage
  deserialize text = elim (j.parse text) [
    | none ↦ throws (runtime_error "Failed to parse protocol message")
    | some root ↦ read_message root
  ]

-- The text that `verify` writes to its stream.
unfoldable pub message_digest : ProtocolMessage → Str
message_digest m =
    signed_decimal (type_code m.type) ++ (m.sender ++ (m.payload ++ decimal m.timestamp))

unfoldable pub verify : Libcrypto → ProtocolMessage → Bool
verify c m = c.verify (message_digest m) m.signature m.sender

pub record HandshakeData : Type 0 where
  pub version : ℕ
  pub node_id : Str
  pub timestamp : ℕ
  pub capabilities : List Str

-- A message of NetworkProtocol, with the members that its functions do not set: `sender` where
-- there is none, and always `signature`, are empty strings.
abbrev unsigned : MessageType → Str → Str → ℕ → ProtocolMessage
unsigned type sender payload now = record {
  type = type;
  sender = sender;
  payload = payload;
  timestamp = now;
  signature = [];
}

module _ (j : JsonCpp) (now : ℕ) where
  unfoldable pub create_handshake : HandshakeData → ProtocolMessage
  create_handshake d =
      unsigned handshake d.node_id
        (j.write (
          insert (bytes "capabilities") (texts_field d.capabilities) (
            insert (bytes "timestamp") (uint64_field d.timestamp) (
              insert (bytes "nodeId") (text_field d.node_id)
                (insert (bytes "version") (uint64_field d.version) [])))))
        now

  unfoldable pub create_block_request : ℕ → ProtocolMessage
  create_block_request height =
      unsigned block_request [] (j.write (insert (bytes "height") (uint64_field height) [])) now

  -- `tx.serialize()` is a method that class Transaction does not declare: an argument.
  unfoldable pub create_transaction_broadcast :
      {D : Type 0} → (Transaction D → Str) → Transaction D → ProtocolMessage
  create_transaction_broadcast serialize_transaction t =
      unsigned transaction_broadcast []
        (j.write (
          insert (bytes "data") (text_field (serialize_transaction t))
            (insert (bytes "hash") (text_field t.hash) [])))
        now
