-- ===== src/Network/Protocol/RoundTrip.antt =====
-- Serialized messages read back.
use blockchain_messaging.Base.{
  ℕ, ◌<◌, ◌^◌, ◌≡◌, refl, ◌∙◌, ap, [], ◌∷◌, Bool, true, false, some, Str, bytes, All, ok, arith,
}
use blockchain_messaging.Base.Integers.{ℤ, pos, negsuc}
use blockchain_messaging.Base.Maps.{Map, lookup, insert}
use blockchain_messaging.Network.Protocol.{
  MessageType, handshake, other, type_code, type_of_code, ProtocolMessage, Field, int_field,
  uint64_field, text_field, texts_field, JsonCpp, serialize, read_message, deserialize,
}

-- An int holds the number.
abbrev pub IsInt : ℤ → Type 0
IsInt (pos n) = n < 2 ^ 31
IsInt (negsuc n) = n < 2 ^ 31

module _ (j : JsonCpp) where
  abbrev pub IsWritable : Field → Type 0
  IsWritable (int_field i) = IsInt i
  IsWritable (uint64_field n) = n < 2 ^ 64
  IsWritable (text_field s) = j.is_utf8 s ≡ true
  IsWritable (texts_field ss) = All (λ s. j.is_utf8 s ≡ true) ss

  -- JsonCpp, as it documents itself: an object of strings in UTF-8 and of numbers in range is
  -- written as a document that parses, and the members convert to what was written.
  pub record IsJsonCpp : Type 0 where
    pub root_of : Map Field → JsonCpp.Root j
    pub parse-write :
        (m : Map Field) → All (λ p. IsWritable (p.1)) m → j.parse (j.write m) ≡ some (root_of m)
    pub int_at-root :
        (m : Map Field) (k : Str) (i : ℤ)
        → lookup k m ≡ some (int_field i)
        → j.int_at (root_of m) k ≡ ok i
    pub uint64_at-root :
        (m : Map Field) (k : Str) (n : ℕ)
        → lookup k m ≡ some (uint64_field n)
        → j.uint64_at (root_of m) k ≡ ok n
    pub text_at-root :
        (m : Map Field) (k s : Str)
        → lookup k m ≡ some (text_field s)
        → j.text_at (root_of m) k ≡ ok s

-- One of the eleven enumerators.
abbrev pub is_named : MessageType → Bool
is_named (other i) = false
is_named handshake = true
is_named _ = true

type_of_code-type_code : (t : MessageType) → is_named t ≡ true → type_of_code (type_code t) ≡ t
unfolding type_of_code type_code
type_of_code-type_code (other i) h = cc
type_of_code-type_code handshake h = refl
type_of_code-type_code _ h = refl

code-IsInt : (t : MessageType) → is_named t ≡ true → IsInt (type_code t)
unfolding type_code
code-IsInt (other i) h = cc
code-IsInt handshake h = omega arith
code-IsInt _ h = omega arith

module _ (j : JsonCpp) (law : IsJsonCpp j) where
  -- The members that serialize writes.
  abbrev document : ProtocolMessage → Map Field
  document m =
      (bytes "type", int_field (type_code m.type))
      ∷ (bytes "sender", text_field m.sender)
      ∷ (bytes "payload", text_field m.payload)
      ∷ (bytes "timestamp", uint64_field m.timestamp)
      ∷ (bytes "signature", text_field m.signature)
      ∷ []

  serialize-document : (m : ProtocolMessage) → serialize j m ≡ j.write (document m)
  unfolding serialize insert
  serialize-document m = refl

  read_document :
      (m : ProtocolMessage)
      → read_message j (law.root_of (document m))
        ≡ ok (record m { type = type_of_code (type_code m.type) })
  unfolding read_message lookup
  read_document m = ground (
    arith,
    law.int_at-root (document m) (bytes "type") (type_code m.type) refl,
    law.text_at-root (document m) (bytes "sender") m.sender refl,
    law.text_at-root (document m) (bytes "payload") m.payload refl,
    law.uint64_at-root (document m) (bytes "timestamp") m.timestamp refl,
    law.text_at-root (document m) (bytes "signature") m.signature refl,
  )

  -- A message survives the way through its serialized text, for each of the eleven types: the type
  -- is an enumerator, the timestamp fits uint64_t, and sender, payload and signature are UTF-8
  -- (with JsonCpp as it documents itself).
  pub deserialize-serialize :
      (m : ProtocolMessage)
      → is_named m.type ≡ true
      → m.timestamp < 2 ^ 64
      → j.is_utf8 m.sender ≡ true
      → j.is_utf8 m.payload ≡ true
      → j.is_utf8 m.signature ≡ true
      → deserialize j (serialize j m) ≡ ok m
  unfolding deserialize
  deserialize-serialize m named fits sender payload signature =
      let parsed : j.parse (serialize j m) ≡ some (law.root_of (document m)) =
        ap j.parse (serialize-document m)
        ∙ law.parse-write (document m)
            (code-IsInt m.type named, (sender, (payload, (fits, (signature, tt))))) in
      rw (parsed, deserialize)
        (read_document m
          ∙ ap (λ t. ok (record m { type = t })) (type_of_code-type_code m.type named))
