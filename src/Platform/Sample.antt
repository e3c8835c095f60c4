-- ===== src/Platform/Sample.antt =====
-- A platform that runs, for the examples: keys are numbers, the cipher adds the key to every byte,
-- and the signature of a message is one number. It has the laws that the theorems assume.
use Prim.Native.Char.{Char, char, code, IsLt, IsScalar}
use Prim.Native.Nat.{Ordering, compare}
use native.Mathlib.Nat.{mul_comm}
use text.Mathlib.TextEquality.{Char-path}
use shadowchat.Common.{
  ℕ, zero, suc, ◌+◌, ◌-◌, ◌*◌, ◌≡◌, refl, ap, Bool, false, [], ◌∷◌, map, String, arith, ◌==◌,
  length, if◌then◌else◌, ◌∙◌,
}
use shadowchat.Common.Results.{Result, ok, throws, ok-injective}
use shadowchat.Platform.Crypto.{
  WebCrypto, Bytes, Jwk, KeyPair, DecryptsAesGcm, IsSigningPair, IsExchangePair, Agree,
}
use shadowchat.Platform.Encoding.{Codec, RoundTrips}

abbrev BothLt : Ordering → Ordering → Type 0
BothLt Ordering.lt o = IsLt o
BothLt Ordering.eq _ = ⊥
BothLt Ordering.gt _ = ⊥

abbrev Scalar : Ordering → Ordering → Ordering → Type 0
Scalar Ordering.lt _ _ = Unit
Scalar Ordering.eq o p = BothLt o p
Scalar Ordering.gt o p = BothLt o p

is_lt-dec : (o : Ordering) → Dec (IsLt o)
is_lt-dec Ordering.lt = yes tt
is_lt-dec Ordering.eq = no (λ h. h)
is_lt-dec Ordering.gt = no (λ h. h)

BothLt-dec : (o p : Ordering) → Dec (BothLt o p)
BothLt-dec Ordering.lt p = is_lt-dec p
BothLt-dec Ordering.eq _ = no (λ h. h)
BothLt-dec Ordering.gt _ = no (λ h. h)

scalar-dec : (o p q : Ordering) → Dec (Scalar o p q)
unfolding BothLt-dec is_lt-dec
scalar-dec Ordering.lt _ _ = yes tt
scalar-dec Ordering.eq p q = BothLt-dec p q
scalar-dec Ordering.gt p q = BothLt-dec p q

scalar_dec : (n : ℕ) → Dec (IsScalar n)
unfolding scalar-dec
scalar_dec n = scalar-dec (compare n 55296) (compare 57343 n) (compare n 1114112)

-- U+FFFD where a number is no character.
to_char : ℕ → Char
unfolding scalar_dec
to_char n = elim (scalar_dec n) [ yes h ↦ char n h | no h ↦ char 0xfffd tt ]

to_char-code : (c : Char) → to_char (code c) ≡ c
unfolding to_char
to_char-code (char n h) =
    elim (scalar_dec n) as (λ d. elim d [ yes h ↦ char n h | no h ↦ char 0xfffd tt ] ≡ char n h) [
      | yes k ↦ Char-path (char n k) (char n h) refl
      | no k ↦ absurd (k h)
    ]

sample_encode : String → Bytes
sample_encode String.[] = []
sample_encode (String.◌∷◌ c s) = code c ∷ sample_encode s

sample_decode : Bytes → String
unfolding to_char
sample_decode [] = ""
sample_decode (b ∷ bs) = String.◌∷◌ (to_char b) (sample_decode bs)

sample-decode-encode : (s : String) → sample_decode (sample_encode s) ≡ s
unfolding sample_decode sample_encode
sample-decode-encode String.[] = refl
sample-decode-encode (String.◌∷◌ c s) =
    λ i. String.◌∷◌ (to_char-code c i) (sample-decode-encode s i)

-- Base64 in unary: a byte is so many `a`, and a comma.
put_unary : ℕ → String → String
put_unary zero s = String.◌∷◌ (char 44 tt) s
put_unary (suc n) s = String.◌∷◌ (char 97 tt) (put_unary n s)

sample_btoa : Bytes → String
unfolding put_unary
sample_btoa [] = ""
sample_btoa (b ∷ bs) = put_unary b (sample_btoa bs)

read_unary : ℕ → String → Bytes
read_unary n String.[] = []
read_unary n (String.◌∷◌ c s) =
    let next = n ∷ read_unary 0 s in
    let more = read_unary (suc n) s in if code c == 44 then next else more

read-put_unary : (n m : ℕ) (s : String) → read_unary m (put_unary n s) ≡ (m + n) ∷ read_unary 0 s
unfolding read_unary put_unary
read-put_unary zero m s = ap (λ t. t ∷ read_unary 0 s) (omega arith)
read-put_unary (suc n) m s = read-put_unary n (suc m) s ∙ ap (λ t. t ∷ read_unary 0 s) (omega arith)

read_unary-btoa : (b : Bytes) → read_unary 0 (sample_btoa b) ≡ b
unfolding read_unary sample_btoa
read_unary-btoa [] = refl
read_unary-btoa (b ∷ bs) =
    read-put_unary b 0 (sample_btoa bs)
    ∙ (λ i. (let e : 0 + b ≡ b = omega arith in e) i ∷ read_unary-btoa bs i)

unfoldable pub sample_codec : Codec
unfolding sample_encode sample_decode sample_btoa read_unary
sample_codec = record {
  encode = sample_encode;
  decode = sample_decode;
  btoa = sample_btoa;
  atob = λ s. ok (read_unary 0 s);
  stringify_jwk = λ jwk. elim jwk [ [] ↦ "" | field ∷ rest ↦ field.1 ];
}

pub sample_codec-RoundTrips : RoundTrips sample_codec
unfolding sample_codec
sample_codec-RoundTrips = record {
  decode-encode = sample-decode-encode;
  atob-btoa = λ b. ap ok (read_unary-btoa b);
}

first_byte : Bytes → Result ℕ
first_byte [] = throws "no byte"
first_byte (b ∷ bs) = ok b

read_jwk : Jwk → Result ℕ
unfolding first_byte read_unary
read_jwk [] = throws "no field"
read_jwk ((name, value) ∷ rest) = first_byte (read_unary 0 value)

read_jwk-export :
    (k : ℕ) (jwk : Jwk)
    → ◌≡◌ {A = Result Jwk} (ok (("x", sample_btoa (k ∷ [])) ∷ [])) (ok jwk)
    → read_jwk jwk ≡ ok k
unfolding read_jwk
read_jwk-export k jwk e = rw (← ok-injective e) (rw (read_unary-btoa (k ∷ [])) refl)

check_sum : ℕ → Bytes → Bytes → Bool
check_sum key [] message = false
check_sum key (s ∷ rest) message = s == key + length message

unfoldable pub sample_crypto : WebCrypto ℕ
unfolding first_byte read_jwk check_sum sample_btoa
sample_crypto = record {
  encrypt = λ alg key plain. ok (map (λ b. b + key) plain);
  decrypt = λ alg key cipher. ok (map (λ b. b - key) cipher);
  generate_key = λ alg extractable usages seed. first_byte seed;
  generate_key_pair = λ alg extractable usages seed. elim seed [
    | [] ↦ throws "no seed"
    | b ∷ bs ↦ ok (record { public_key = b; private_key = b })
  ];
  export_raw = λ key. ok (key ∷ []);
  import_raw = λ raw alg extractable usages. first_byte raw;
  export_jwk = λ key. ok (("x", sample_btoa (key ∷ [])) ∷ []);
  import_jwk = λ jwk alg extractable usages. read_jwk jwk;
  sign = λ alg key message. ok ((key + length message) ∷ []);
  verify = λ alg key signature message. ok (check_sum key signature message);
  derive_bits = λ public private n. ok (public * private ∷ []);
  derive_key = λ hkdf base alg extractable usages. ok (base + length hkdf.salt);
}

map_back : (key : ℕ) (plain : Bytes) → map (λ b. b - key) (map (λ b. b + key) plain) ≡ plain
map_back key [] = refl
map_back key (b ∷ bs) = λ i. (let e : b + key - key ≡ b = omega arith in e) i ∷ map_back key bs i

pub sample_crypto-DecryptsAesGcm : DecryptsAesGcm sample_crypto
unfolding sample_crypto
sample_crypto-DecryptsAesGcm = record {
  decrypt-encrypt = λ alg k plain cipher e. rw (← ok-injective e) (ap ok (map_back k plain));
}

abbrev pub pair_of : ℕ → KeyPair ℕ
pair_of k = record { public_key = k; private_key = k }

pub pair_of-IsSigningPair : (k : ℕ) → IsSigningPair sample_crypto (pair_of k)
unfolding sample_crypto
pair_of-IsSigningPair k = record {
  signs = λ message signature e. rw (← ok-injective e) (unfold check_sum in ground arith);
  survives = λ jwk e. read_jwk-export k jwk e;
}

pub pair_of-IsExchangePair : (k : ℕ) → IsExchangePair sample_crypto (pair_of k)
unfolding sample_crypto
pair_of-IsExchangePair k = record { survives = λ jwk e. read_jwk-export k jwk e }

pub pair_of-Agree : (j k : ℕ) → Agree sample_crypto (pair_of j) (pair_of k)
unfolding sample_crypto
pair_of-Agree j k n = ap (λ t. ok (t ∷ [])) (mul_comm k j)
