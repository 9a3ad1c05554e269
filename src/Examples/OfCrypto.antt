-- ===== src/Examples/OfCrypto.antt =====
-- Sealed content, keys and passphrases.
use passalong.Prelude.{
  ◌%◌, any, ℕ, ◌+◌, ◌*◌, ◌≤◌, ◌<◌, ◌≡◌, ◌⊎◌, ◌↔◌, ◌/◌, all, refl, Bool, true, false, Option, none,
  some, List, [], ◌∷◌, ◌++◌, length, if◌then◌else◌, Text, codes, Result, ok, err, arith,
}
use passalong.Model.Digest.{Bytes}
use passalong.Crypto.Stream.{
  chunk_len, record_nonce, sealed_len, new, seal_content, open_content, content_magic,
  content_salt_len,
}
use passalong.Crypto.Stream.Nonces.{record_nonce_injective}
use passalong.Crypto.Stream.RoundTrip.{open_content-seal_content}
use passalong.Crypto.Stream.Genuine.{Records, open_content-genuine}
use passalong.Crypto.Keys.{
  Primitives, KdfParams, WrappedKey, SealedMeta, wrap, unwrap, new_sealer, seal_meta, open_meta,
}
use passalong.Crypto.Keys.Wrapping.{Wraps, unwrap_iff, open_meta-seal_meta}
use passalong.Crypto.Words.{bound, uniform_index, u32_range, generate}
use passalong.Crypto.Words
use passalong.Crypto.Words.Ends.{index, uniform_index-ends}
use passalong.Crypto.Words.Uniform.{uniform_index-even}
use passalong.Crypto.Words.Phrases.{is_word, parse-generate}
use passalong.Encryption.Header
use passalong.Encryption.Header.{to_json}
use passalong.Encryption.Header.RoundTrip.{parse-to_json}
use passalong.Store.Errors.{CryptoError, authentication}
use passalong.Model.Id.{ItemId, id_of}
use passalong.Examples.Sealing.{framing, framing-laws, in_order, in_order-laws}
use passalong.Examples.Parameters.{tagged, tagged-laws, zeros}

abbrev salt : Bytes
salt = zeros 32

open_content-seal_content_example :
    (out : Bytes) × (seal_content tagged 6 (new tagged (7, salt) salt) (codes "hello")
      ≡ some (ok out))
    × (length out ≡ sealed_len 5)
    × (open_content tagged 6 7 (some salt) out ≡ some (ok (codes "hello")))
open_content-seal_content_example =
    open_content-seal_content tagged (tagged-laws chunk_len) 7 salt (codes "hello") 6 true refl
      (omega arith) (omega arith)

-- The stream of one record
abbrev stream : Bytes
stream = content_magic ++ salt ++ codes "hello" ++ zeros 16

opens : open_content tagged 1 7 none stream ≡ some (ok (codes "hello"))
unfolding open_content passalong.Prelude.text_eq passalong.Crypto.Stream.open_record
    passalong.Crypto.Stream.record_len
opens = refl

open_content-genuine_example :
    (s : Bytes) × (out : Bytes) × (stream ≡ content_magic ++ s ++ out)
    × (length s ≡ content_salt_len)
    × ((◌≡◌ {A = Option Bytes} none none) ⊎ (none ≡ some s))
    × Records tagged (tagged-laws chunk_len) (7, s) 0 (codes "hello") out
open_content-genuine_example =
    open_content-genuine tagged (tagged-laws chunk_len) 1 7 none stream (codes "hello") opens

record_nonce_injective_example : (◌≡◌ {A = ℕ} 3 3) × (true ≡ true)
record_nonce_injective_example =
    record_nonce_injective 3 3 true true (omega arith) (omega arith) refl

abbrev kdf : KdfParams
kdf = record { m_kib = 1024; t = 3; p = 1; salt = zeros 16 }

abbrev wrapped : WrappedKey
wrapped = record {
  key_id = zeros 8;
  kdf = kdf;
  nonce = zeros 12;
  ciphertext = 24 ∷ codes "passalong key v1" ++ zeros 8 ++ zeros 32;
}

abbrev phrase : Text
phrase = codes "zoom abacus zoom abacus zoom abacus"

wraps : wrap framing (zeros 32) phrase kdf (ok (zeros 12)) ≡ ok wrapped
unfolding wrap
wraps = refl

unwrap_iff_example :
    (unwrap framing wrapped phrase ≡ ok (zeros 32))
    ↔ Wraps framing framing-laws wrapped phrase (zeros 32)
unwrap_iff_example = unwrap_iff framing framing-laws wrapped phrase (zeros 32)

abbrev item : ItemId
item = id_of (codes "2cf24dba5fb0") 16

abbrev other : ItemId
other = id_of (codes "2cf24dba5fb0") 17

abbrev sealed : SealedMeta
sealed = record {
  nonce = zeros 12;
  ciphertext = 38 ∷ codes "passalong meta v1" ++ item.repr ++ codes "meta";
}

seals :
    seal_meta framing (new_sealer framing (zeros 32)) item (codes "meta") (ok (zeros 12))
    ≡ ok sealed
unfolding seal_meta passalong.Model.Hex.hex_fixed
seals = refl

open_meta-seal_meta_example :
    open_meta framing (new_sealer framing (zeros 32)) other sealed ≡ err authentication
unfolding passalong.Prelude.text_eq passalong.Model.Hex.hex_fixed
open_meta-seal_meta_example =
    open_meta-seal_meta framing framing-laws (new_sealer framing (zeros 32)) item other
      (codes "meta") (ok (zeros 12)) sealed seals

uniform_index-even_example :
    (uniform_index 6 (ok 8 ∷ []) ≡ some (ok 2, []))
    ↔ ((k : ℕ) × (k < u32_range / 6) × (8 ≡ 2 + k * 6))
uniform_index-even_example = uniform_index-even 6 2 (omega arith) 8

-- The first draw is the last number of all, in a round that is cut off.
uniform_index-ends_example :
    (uniform_index 10 (ok 4294967295 ∷ ok 17 ∷ ok 3 ∷ []) ≡ some (ok 7, ok 3 ∷ []))
    × (2 * (u32_range % 10) < u32_range)
uniform_index-ends_example =
    uniform_index-ends 10 (ok 4294967295 ∷ []) (ok 17) (ok 7) (ok 3 ∷ []) (omega arith)
      (omega arith) (omega arith, tt) (index 17 (omega arith))

abbrev words : List Text
words = codes "abacus" ∷ codes "zoom" ∷ []

words_only : all is_word words ≡ true
unfolding is_word passalong.Crypto.Keys.is_upper
words_only = refl

abbrev draws : List (Result CryptoError ℕ)
draws = ok 1 ∷ ok 7776 ∷ ok 4294967295 ∷ ok 7777 ∷ ok 0 ∷ ok 1 ∷ ok 0 ∷ []

generated : generate words draws ≡ some (ok phrase)
unfolding generate
generated = refl

parse-generate_example : Words.parse (λ t. t) words phrase ≡ ok phrase
parse-generate_example =
    parse-generate words words_only (λ t. t) (λ t h. refl) draws phrase generated

parse-to_json_example :
    Header.parse framing in_order (to_json framing in_order wrapped) ≡ ok wrapped
parse-to_json_example =
    parse-to_json framing in_order in_order-laws wrapped
      (record { key_id = refl; salt = refl; nonce = refl })
