-- ===== src/Tests/Json.antt =====
-- A small document format in the place of JsonCpp: members one after the other, strings with every
-- byte raised by one and a zero at the end, and lists of strings as empty lists.
use blockchain_messaging.Base.{
  ℕ, zero, suc, ◌≤◌, ◌<◌, ◌≡◌, refl, ap, [], ◌∷◌, true, Option, none, some, Str, length, Result, ok,
  throws, runtime_error, arith,
}
use blockchain_messaging.Base.Integers.{ℤ, pos, negsuc}
use blockchain_messaging.Base.Maps.{Map, lookup}
use blockchain_messaging.Network.Protocol.{
  Field, int_field, uint64_field, text_field, texts_field, JsonCpp,
}
use blockchain_messaging.Network.Protocol.RoundTrip.{IsJsonCpp}

abbrev encode_text : Str → Str → Str
encode_text [] r = 0 ∷ r
encode_text (c ∷ s) r = suc c ∷ encode_text s r

abbrev encode_field : Field → Str → Str
encode_field (int_field (pos n)) r = 0 ∷ n ∷ r
encode_field (int_field (negsuc n)) r = 1 ∷ n ∷ r
encode_field (uint64_field n) r = 2 ∷ n ∷ r
encode_field (text_field s) r = 3 ∷ encode_text s r
encode_field (texts_field ss) r = 4 ∷ r

abbrev encode : Map Field → Str
encode [] = []
encode ((k, f) ∷ m) = 7 ∷ encode_text k (encode_field f (encode m))

abbrev decode_text : Str → Str × Str
decode_text [] = ([], [])
decode_text (zero ∷ r) = ([], r)
decode_text (suc c ∷ r) = (c ∷ (decode_text r).0, (decode_text r).1)

abbrev decode_field : Str → Option (Field × Str)
decode_field (zero ∷ n ∷ r) = some (int_field (pos n), r)
decode_field (suc zero ∷ n ∷ r) = some (int_field (negsuc n), r)
decode_field (suc (suc zero) ∷ n ∷ r) = some (uint64_field n, r)
decode_field (suc (suc (suc zero)) ∷ r) = some (text_field ((decode_text r).0), (decode_text r).1)
decode_field (suc (suc (suc (suc n))) ∷ r) = some (texts_field [], r)
decode_field _ = none

abbrev decode : ℕ → Str → Option (Map Field)
decode zero s = none
decode (suc fuel) [] = some []
decode (suc fuel) (c ∷ s) =
    let (k, r) = decode_text s in
    elim (decode_field r) [
      | none ↦ none
      | some (f, rest) ↦ elim (decode fuel rest) [ none ↦ none | some m ↦ some ((k, f) ∷ m) ]
    ]

-- What comes back: lists of strings are not kept.
abbrev kept : Field → Field
kept (texts_field ss) = texts_field []
kept f = f

abbrev all_kept : Map Field → Map Field
all_kept [] = []
all_kept ((k, f) ∷ m) = (k, kept f) ∷ all_kept m

decode-encode_text : (s r : Str) → decode_text (encode_text s r) ≡ (s, r)
decode-encode_text [] r = refl
decode-encode_text (c ∷ s) r = ap (λ p. (c ∷ p.0, p.1)) (decode-encode_text s r)

decode-encode_field : (f : Field) (r : Str) → decode_field (encode_field f r) ≡ some (kept f, r)
decode-encode_field (int_field (pos n)) r = refl
decode-encode_field (int_field (negsuc n)) r = refl
decode-encode_field (uint64_field n) r = refl
decode-encode_field (text_field s) r =
    ap (λ p. some (text_field (p.0), p.1)) (decode-encode_text s r)
decode-encode_field (texts_field ss) r = refl

decode-encode :
    (fuel : ℕ) (m : Map Field) → length m < fuel → decode fuel (encode m) ≡ some (all_kept m)
decode-encode zero m h = absurd (omega arith)
decode-encode (suc fuel) [] h = refl
decode-encode (suc fuel) ((k, f) ∷ m) h =
    rw
      (
        decode-encode_text k (encode_field f (encode m)),
        decode-encode_field f (encode m),
        decode-encode fuel m (omega arith),
        decode,
      )
      (ap (λ j. some ((j, kept f) ∷ all_kept m))
        (ap (λ p. p.0) (decode-encode_text k (encode_field f (encode m)))))

length-encode_text : (s r : Str) → length r ≤ length (encode_text s r)
length-encode_text [] r = omega arith
length-encode_text (c ∷ s) r = omega (arith, length-encode_text s r)

length-encode_field : (f : Field) (r : Str) → length r ≤ length (encode_field f r)
length-encode_field (int_field (pos n)) r = omega arith
length-encode_field (int_field (negsuc n)) r = omega arith
length-encode_field (uint64_field n) r = omega arith
length-encode_field (text_field s) r = omega (arith, length-encode_text s r)
length-encode_field (texts_field ss) r = omega arith

length-encode : (m : Map Field) → length m ≤ length (encode m)
length-encode [] = omega arith
length-encode ((k, f) ∷ m) = omega (
  arith,
  length-encode m,
  length-encode_field f (encode m),
  length-encode_text k (encode_field f (encode m)),
)

lookup-all_kept :
    (k : Str) (m : Map Field) (f : Field)
    → lookup k m ≡ some f
    → lookup k (all_kept m) ≡ some (kept f)
unfolding lookup
lookup-all_kept k [] f h = absurd (cc)
lookup-all_kept k ((j, g) ∷ m) f h = ground (arith, lookup-all_kept k m f)

abbrev as_int : Option Field → Result ℤ
as_int (some (int_field i)) = ok i
as_int _ = throws (runtime_error "Value is not convertible to Int.")

abbrev as_uint64 : Option Field → Result ℕ
as_uint64 (some (uint64_field n)) = ok n
as_uint64 _ = throws (runtime_error "Value is not convertible to UInt64.")

abbrev as_text : Option Field → Result Str
as_text (some (text_field s)) = ok s
as_text _ = throws (runtime_error "Type is not convertible to string")

abbrev pub json : JsonCpp
json = record {
  Root = Map Field;
  write = encode;
  parse = λ s. decode (suc (length s)) s;
  int_at = λ root k. as_int (lookup k root);
  uint64_at = λ root k. as_uint64 (lookup k root);
  text_at = λ root k. as_text (lookup k root);
  is_utf8 = λ s. true;
}

pub json-IsJsonCpp : IsJsonCpp json
json-IsJsonCpp = record {
  root_of = all_kept;
  parse-write = λ m h. decode-encode (suc (length (encode m))) m (omega (arith, length-encode m));
  int_at-root = λ m k i h. ap as_int (lookup-all_kept k m (int_field i) h);
  uint64_at-root = λ m k n h. ap as_uint64 (lookup-all_kept k m (uint64_field n) h);
  text_at-root = λ m k s h. ap as_text (lookup-all_kept k m (text_field s) h);
}
