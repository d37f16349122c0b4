-- ===== src/Tests/World.antt =====
-- A small concrete world: checksums for digests, fractions for doubles, plain text for ciphers.
use blockchain_messaging.Base.{
  ℕ, zero, suc, ◌+◌, ◌*◌, ◌%◌, ◌<◌, ◌≡◌, ap, length, some, refl, [], ◌∷◌, Bool, true, false, ◌&&◌,
  Str, str_eq, str_eq_self, ltb, leb, replicate, All, Floats, IsIeee, ok, arith,
}
use blockchain_messaging.Base.Integers.{ℤ, pos, ◌+ℤ◌, ◌-ℤ◌, ltb_ℤ, leb_ℤ}
use blockchain_messaging.Crypto.Hash.{OpenSsl, IsOpenSsl}
use blockchain_messaging.Crypto.Encryption.{Libcrypto}
use blockchain_messaging.Crypto.Encryption.Ciphertexts.{IsStream}
use blockchain_messaging.Core.Transaction.{
  Transaction, TransactionType, TransactionStatus, Externals,
}
use blockchain_messaging.Core.Transaction.Signing.{IsSignatureScheme, IgnoresSignature}

-- A whole number, or a quotient of two counts.
pub data Number : Type 0 where
  whole : ℤ → Number
  ratio : ℕ → ℕ → Number

abbrev pub add_number : Number → Number → Number
add_number (whole a) (whole b) = whole (a +ℤ b)
add_number a b = ratio 0 0

abbrev pub sub_number : Number → Number → Number
sub_number (whole a) (whole b) = whole (a -ℤ b)
sub_number a b = ratio 0 0

abbrev pub mul_number : Number → Number → Number
mul_number (whole (pos a)) (whole (pos b)) = whole (pos (a * b))
mul_number a b = ratio 0 0

abbrev pub div_number : Number → Number → Number
div_number (whole (pos a)) (whole (pos b)) = ratio a b
div_number a b = ratio 0 0

abbrev pub lt_number : Number → Number → Bool
lt_number (whole a) (whole b) = ltb_ℤ a b
lt_number a b = false

abbrev pub le_number : Number → Number → Bool
le_number (whole a) (whole b) = leb_ℤ a b
le_number (whole (pos c)) (ratio a n) = ltb 0 n && leb (c * n) a
le_number a b = false

abbrev pub numbers : Floats
numbers = record {
  Double = Number;
  of_nat = λ n. whole (pos n);
  add = add_number;
  sub = sub_number;
  mul = mul_number;
  div = div_number;
  lt = lt_number;
  le = le_number;
}

abbrev pub value : Number → ℤ
value (whole a) = a
value (ratio a n) = pos 0

pub numbers-IsIeee : IsIeee numbers
numbers-IsIeee = record {
  mul-of_nat = λ a b h. refl;
  le-div = λ c a n h k l m. ground arith;
  le-nan = λ c. refl;
}

abbrev pub checksum : ℕ → Str → ℕ
checksum h [] = h
checksum h (c ∷ s) = checksum ((h * 31 + c) % 256) s

abbrev pub checksums : OpenSsl
checksums = record {
  sha256 = λ m. replicate 32 (checksum 7 m % 256);
  ripemd160 = λ m. replicate 20 (checksum 5 m % 256);
}

All-replicate : (n b : ℕ) → b < 256 → All (λ c. c < 256) (replicate n b)
All-replicate zero b h = tt
All-replicate (suc n) b h = (h, All-replicate n b h)

pub checksums-IsOpenSsl : IsOpenSsl checksums
checksums-IsOpenSsl = record {
  length-sha256 = λ m. refl;
  length-ripemd160 = λ m. refl;
  sha256-IsByte = λ m. All-replicate 32 (checksum 7 m % 256) (omega arith);
  ripemd160-IsByte = λ m. All-replicate 20 (checksum 5 m % 256) (omega arith);
}

-- The bytes 0 and 1, exchanged.
abbrev pub swap : ℕ → ℕ
swap zero = 1
swap (suc zero) = 0
swap (suc (suc n)) = suc (suc n)

abbrev pub swap_all : Str → Str
swap_all [] = []
swap_all (b ∷ s) = swap b ∷ swap_all s

-- A stream cipher with two key streams: an IV whose first byte is 1 exchanges the bytes.
abbrev pub toy_gcm : Str → Str → Str
toy_gcm [] m = m
toy_gcm (zero ∷ iv) m = m
toy_gcm (suc zero ∷ iv) m = swap_all m
toy_gcm (suc (suc n) ∷ iv) m = m

abbrev pub toy : Libcrypto
toy = record {
  aes_256_gcm = λ key iv m. toy_gcm iv m;
  ec_key_created = true;
  private_key_set = λ key. true;
  point_mul = λ key. some key;
  point_to_hex = λ p. p;
  bytes_to_hex = λ m. m;
  decrypt = λ e key. ok e;
  sign = λ m key. ok m;
  verify = λ m s key. str_eq m s;
}

pub toy-IsSignatureScheme : IsSignatureScheme toy
toy-IsSignatureScheme = record { verifies = λ m key s k p q. ground (arith, str_eq_self m) }

swap_twice : (b : ℕ) → swap (swap b) ≡ b
swap_twice zero = refl
swap_twice (suc zero) = refl
swap_twice (suc (suc n)) = refl

swap_all-twice : (s : Str) → swap_all (swap_all s) ≡ s
swap_all-twice [] = refl
swap_all-twice (b ∷ s) = rw (swap_twice b) (ap (◌∷◌ b) (swap_all-twice s))

length-swap_all : (s : Str) → length (swap_all s) ≡ length s
length-swap_all [] = refl
length-swap_all (b ∷ s) = ap suc (length-swap_all s)

length-toy : (iv m : Str) → length (toy_gcm iv m) ≡ length m
length-toy [] m = refl
length-toy (zero ∷ iv) m = refl
length-toy (suc zero ∷ iv) m = length-swap_all m
length-toy (suc (suc n) ∷ iv) m = refl

toy-onto : (iv e : Str) → (m : Str) × (toy_gcm iv m ≡ e)
toy-onto [] e = (e, refl)
toy-onto (zero ∷ iv) e = (e, refl)
toy-onto (suc zero ∷ iv) e = (swap_all e, swap_all-twice e)
toy-onto (suc (suc n) ∷ iv) e = (e, refl)

pub toy-IsStream : IsStream toy
toy-IsStream = record {
  length-gcm = λ key iv m. length-toy iv m;
  gcm-onto = λ key iv e. toy-onto iv e;
}

-- The method name says the type, and the other fields give sender, recipient and amount.
abbrev pub type_of : Str → TransactionType
type_of [] = TransactionType.message
type_of (c ∷ s) = TransactionType.financial

abbrev pub world : Externals
world = record {
  floats = numbers;
  ssl = checksums;
  encryption = toy;
  input_hash = λ i. i.previous_tx_hash;
  input_verify = λ i. true;
  input_amount = λ i. whole (pos 10);
  output_hash = λ o. o.recipient;
  get_type = λ t. type_of t.method_signature;
  get_sender = λ t. t.contract_address;
  get_recipient = λ t. t.message_recipient;
  get_amount = λ t. whole (pos t.lock_time);
  is_valid = λ t. true;
}

pub world-IgnoresSignature : IgnoresSignature world
world-IgnoresSignature i s k = refl

-- A transaction with nothing in it but these parts.
abbrev pub sample : Str → Str → Str → ℕ → Transaction Number
sample method sender recipient amount = record {
  hash = [];
  inputs = [];
  outputs = [];
  lock_time = amount;
  status = TransactionStatus.pending;
  timestamp = 0;
  encrypted_message = [];
  message_recipient = recipient;
  contract_address = sender;
  method_signature = method;
  parameters = [];
}
