-- ===== src/Examples/Sealing.antt =====
-- Small functions in place of the crates that seal and write keys.
use mathlib.Core.List.{append_assoc}
use passalong.Prelude.{
  ℕ, zero, suc, List, ◌+◌, ◌-◌, ◌*◌, ◌≡◌, refl, sym, ap, ◌∙◌, true, false, ◌&&◌, Option, none, some,
  [], ◌∷◌, ◌++◌, ◌==◌, if◌then◌else◌, length, take, drop, any, Text, text_eq, text_eq_refl,
  text_eq→eq, arith, take-append, drop-append, take-append-drop, Bool-cases, inl, inr,
}
use passalong.Model.Digest.{Bytes}
use passalong.Crypto.Keys.{Primitives, is_upper}
use passalong.Crypto.Keys.Wrapping.{PrimitivesLaws}
use passalong.Encryption.Header.{Serde, HeaderJson}
use passalong.Encryption.Header.RoundTrip.{HeaderLaws}
use passalong.Examples.Parameters.{zeros}

-- A text with its length before it
abbrev framed : Text → Bytes → Bytes
framed t rest = length t ∷ t ++ rest

-- The associated data in front of the message
abbrev sealed : Bytes → Bytes → Bytes
sealed a m = framed a m

abbrev unsealed : Bytes → Bytes → Option Bytes
unsealed a [] = none
unsealed a (n ∷ rest) =
    if n == length a && text_eq (take (length a) rest) a then some (drop (length a) rest) else none

unsealed-sealed : (a m : Bytes) → unsealed a (sealed a m) ≡ some m
unsealed-sealed a m = ground (
  arith,
  take-append a m {n = length a} refl,
  drop-append a m {n = length a} refl,
  text_eq_refl a,
)

unsealed-genuine : (a c m : Bytes) → unsealed a c ≡ some m → sealed a m ≡ c
unsealed-genuine a [] m h = cc
unsealed-genuine a (n ∷ rest) m h = elim (Bool-cases (text_eq (take (length a) rest) a)) [
  | inl e ↦
      let size : n ≡ length a = ground (arith, h, e) in
      let left : drop (length a) rest ≡ m = ground (arith, h, e) in
      λ i.
        sym size i
        ∷ (ap (λ x. x ++ m) (sym (text_eq→eq _ _ e))
              ∙ ap (λ x. take (length a) rest ++ x) (sym left)
              ∙ take-append-drop (length a) rest)
            i
  | inr e ↦ absurd (ground (arith, h, e))
]

sealed_injective : (a a' m m' : Bytes) → sealed a m ≡ sealed a' m' → a ≡ a'
sealed_injective a a' m m' h =
    let size : length a ≡ length a' = ground (arith, h) in
    let rest : a ++ m ≡ a' ++ m' = ground (arith, h) in
    sym (take-append a m {n = length a} refl)
    ∙ ap (take (length a)) rest
    ∙ take-append a' m' {n = length a} (sym size)

-- Two characters for every byte
abbrev hex_encode : Bytes → Text
hex_encode [] = []
hex_encode (b ∷ rest) = b'0' ∷ (b + 100) ∷ hex_encode rest

abbrev hex_decode : Text → Bytes
hex_decode (c ∷ d ∷ rest) = (d - 100) ∷ hex_decode rest
hex_decode _ = []

decode_encode : (b : Bytes) → hex_decode (hex_encode b) ≡ b
decode_encode [] = refl
decode_encode (b ∷ rest) = ground (arith, decode_encode rest)

length_encode : (b : Bytes) → length (hex_encode b) ≡ 2 * length b
length_encode [] = refl
length_encode (b ∷ rest) = omega (arith, length_encode rest)

encode_lower : (b : Bytes) → any is_upper (hex_encode b) ≡ false
unfolding is_upper
encode_lower [] = refl
encode_lower (b ∷ rest) = ground (arith, encode_lower rest)

abbrev pub framing : Primitives
framing = record {
  hkdf = λ key salt info. zeros 32;
  argon2_accepts = λ m t p. true;
  argon2_hash = λ m t p salt words. some (zeros 32);
  encrypt = λ k n a m. some (sealed a m);
  decrypt = λ k n a c. unsealed a c;
  hmac = λ k b. zeros 32;
  hex_encode = hex_encode;
  hex_decode = λ t. some (hex_decode t);
}

pub framing-laws : PrimitivesLaws framing
framing-laws = record {
  decrypt_encrypt =
      λ k n a m c h. ap (unsealed a) {y = sealed a m} (ground (arith, h)) ∙ unsealed-sealed a m;
  decrypt_genuine = λ k n a m c h. ap some (unsealed-genuine a c m h);
  encrypt_binds = λ k n a a' m m' c h h'. sealed_injective a a' m m' (ground (arith, h, h'));
}

abbrev framed_all : List Text → Bytes → Bytes
framed_all [] rest = rest
framed_all (t ∷ ts) rest = framed t (framed_all ts rest)

framed_all-append : (ts : List Text) (rest : Bytes) → framed_all ts [] ++ rest ≡ framed_all ts rest
framed_all-append [] rest = refl
framed_all-append (t ∷ ts) rest =
    ap (λ x. length t ∷ x)
      (append_assoc t (framed_all ts []) rest ∙ ap (λ x. t ++ x) (framed_all-append ts rest))

abbrev first_text : Bytes → Text
first_text [] = []
first_text (n ∷ rest) = take n rest

abbrev after_text : Bytes → Bytes
after_text [] = []
after_text (n ∷ rest) = drop n rest

abbrev read_all : ℕ → Bytes → List Text
read_all zero b = []
read_all (suc n) b = first_text b ∷ read_all n (after_text b)

read_all-framed_all :
    (ts : List Text) (rest : Bytes) → read_all (length ts) (framed_all ts rest) ≡ ts
read_all-framed_all [] rest = refl
read_all-framed_all (t ∷ ts) rest =
    let head : take (length t) (t ++ framed_all ts rest) ≡ t =
      take-append t (framed_all ts rest) {n = length t} refl in
    let tail : drop (length t) (t ++ framed_all ts rest) ≡ framed_all ts rest =
      drop-append t (framed_all ts rest) {n = length t} refl in
    λ i. head i ∷ (ap (read_all (length ts)) tail ∙ read_all-framed_all ts rest) i

-- The numbers and then the texts
abbrev texts : HeaderJson → List Text
texts j = j.key_id ∷ j.alg ∷ j.salt ∷ j.nonce ∷ j.ciphertext ∷ []

abbrev to_bytes : HeaderJson → Bytes
to_bytes j = j.format ∷ j.version ∷ j.m_kib ∷ j.t ∷ j.p ∷ framed_all (texts j) []

abbrev of_texts : ℕ → ℕ → ℕ → ℕ → ℕ → List Text → Option HeaderJson
of_texts format version m_kib t p (key_id ∷ alg ∷ salt ∷ nonce ∷ ciphertext ∷ []) = some (record {
  format = format;
  key_id = key_id;
  alg = alg;
  version = version;
  m_kib = m_kib;
  t = t;
  p = p;
  salt = salt;
  nonce = nonce;
  ciphertext = ciphertext;
})
of_texts format version m_kib t p _ = none

abbrev of_bytes : Bytes → Option HeaderJson
of_bytes (format ∷ version ∷ m_kib ∷ t ∷ p ∷ rest) =
    of_texts format version m_kib t p (read_all 5 rest)
of_bytes _ = none

of_bytes-to_bytes : (j : HeaderJson) (rest : Bytes) → of_bytes (to_bytes j ++ rest) ≡ some j
of_bytes-to_bytes j rest =
    ap (λ b. of_texts j.format j.version j.m_kib j.t j.p (read_all 5 b))
      (framed_all-append (texts j) rest)
    ∙ ap (of_texts j.format j.version j.m_kib j.t j.p) (read_all-framed_all (texts j) rest)

abbrev first : Bytes → Option ℕ
first [] = none
first (b ∷ rest) = some b

abbrev pub in_order : Serde
in_order = record { to_vec_pretty = to_bytes; format_only = first; from_slice = of_bytes }

pub in_order-laws : HeaderLaws framing in_order
in_order-laws = record {
  format_only-to_vec_pretty = λ json. refl;
  from_slice-to_vec_pretty = λ json. of_bytes-to_bytes json (10 ∷ []);
  decode_encode = λ b. ap some (decode_encode b);
  length_encode = length_encode;
  encode_lower = encode_lower;
}
