-- ===== src/Examples/Parameters.antt =====
-- Small functions in place of the crates that the program uses.
use mathlib.Core.List.{append-nil, append_assoc}
use passalong.Prelude.{
  ℕ, zero, suc, ◌-◌, ◌*◌, ◌%◌, ◌≡◌, refl, sym, ◌∙◌, Bool, true, false, Option, none, some, [], ◌∷◌,
  ◌++◌, ltb, if◌then◌else◌, length, take, drop, all, Text, text_eq, text_eq_refl, text_eq→eq, arith,
  ℤ, pos, negsuc, ok, err, take-append, drop-append, take-append-drop, length-append, Bool-cases,
  inl, inr, all-append,
}
use passalong.Model.Hex.{is_lower_hex, is_hex_digit, hex_fixed, hex_fixed-all, length-hex_fixed}
use passalong.Model.Time.{Chrono, ChronoLaws}
use passalong.Model.Digest.{Bytes, Crates, CratesLaws, digest_of, content_key}
use passalong.Crypto.Aead.{Aead, AeadLaws}
use passalong.Store.Format.{Format, MetaError, CopyError}
use passalong.Store.Errors.{StoreError}
use passalong.Store.FsStore.{FsStore}

abbrev pub zeros : ℕ → Bytes
zeros zero = []
zeros (suc n) = 0 ∷ zeros n

length-zeros : (n : ℕ) → length (zeros n) ≡ n
length-zeros zero = refl
length-zeros (suc n) = omega (arith, length-zeros n)

abbrev secs_before : ℤ → ℤ → Bool
secs_before (pos a) (pos b) = ltb a b
secs_before (pos a) (negsuc b) = false
secs_before (negsuc a) (pos b) = true
secs_before (negsuc a) (negsuc b) = ltb b a

abbrev secs_back : ℤ → ℕ → Option ℤ
secs_back (pos a) n = if ltb a n then none else some (pos (a - n))
secs_back (negsuc a) n = none

-- Instants are whole seconds.
abbrev pub whole_secs : Chrono
whole_secs = record {
  DateTime = ℤ;
  timestamp = λ t. t;
  from_timestamp = pos;
  before = secs_before;
  checked_sub = secs_back;
  min_utc = negsuc 8334601228800;
}

pub whole_secs-laws : ChronoLaws whole_secs
whole_secs-laws = record { timestamp-from_timestamp = λ n h. refl }

abbrev hex_bytes : Bytes → Text
hex_bytes [] = []
hex_bytes (b ∷ rest) = hex_fixed 2 b ++ hex_bytes rest

-- The digest of a content is its length.
abbrev pub by_length : Crates
by_length = record {
  Sha256 = Bytes;
  sha_new = [];
  sha_update = λ s b. s ++ b;
  sha_finalize = λ s. length s % 256 ∷ zeros 31;
  hex_encode = hex_bytes;
}

length-hex_bytes : (b : Bytes) → length (hex_bytes b) ≡ 2 * length b
length-hex_bytes [] = refl
length-hex_bytes (b ∷ rest) = omega (
  arith,
  length-append (hex_fixed 2 b) (hex_bytes rest),
  length-hex_fixed 2 b,
  length-hex_bytes rest,
)

hex_bytes-all : (b : Bytes) → all is_hex_digit (hex_bytes b) ≡ true
hex_bytes-all [] = refl
hex_bytes-all (b ∷ rest) = ground (
  arith,
  all-append is_hex_digit (hex_fixed 2 b) (hex_bytes rest),
  hex_fixed-all 2 b,
  hex_bytes-all rest,
)

hex_bytes-is_lower_hex : (b : Bytes) → is_lower_hex (hex_bytes b) (2 * length b) ≡ true
unfolding is_lower_hex
hex_bytes-is_lower_hex b = ground (arith, length-hex_bytes b, hex_bytes-all b)

pub by_length-laws : CratesLaws by_length
by_length-laws = record {
  update_append = λ s a b. append_assoc s a b;
  update_nil = λ s. append-nil s;
  digest_length = λ s. refl;
  hex_encode-is_lower_hex = hex_bytes-is_lower_hex;
}

abbrev tag : Bytes
tag = zeros 16

abbrev unsealed : Bytes → Option Bytes
unsealed s = let n = length s - 16 in if text_eq (drop n s) tag then some (take n s) else none

-- A tag of zeros and no secrecy.
abbrev pub tagged : Aead
tagged = record {
  Key = ℕ;
  Cipher = ℕ × Bytes;
  content_cipher = λ key salt. (key, salt);
  encrypt = λ c n p. some (p ++ tag);
  decrypt = λ c n s. unsealed s;
}

unsealed-sealed : (p : Bytes) → unsealed (p ++ tag) ≡ some p
unsealed-sealed p =
    let size : length p ≡ length (p ++ tag) - 16 = omega (arith, length-append p tag) in
    ground (arith, take-append p tag size, drop-append p tag size, text_eq_refl tag)

unsealed-genuine : (s p : Bytes) → unsealed s ≡ some p → s ≡ p ++ tag
unsealed-genuine s p h =
    let n = length s - 16 in
    elim (Bool-cases (text_eq (drop n s) tag)) [
      | inl e ↦ sym (take-append-drop n s) ∙ ground (arith, e, h, text_eq→eq (drop n s) tag e)
      | inr e ↦ ground (arith, e, h)
    ]

pub tagged-laws : (limit : ℕ) → AeadLaws tagged limit
tagged-laws limit = record {
  sealed = λ c n p. p ++ tag;
  encrypt_total = λ c n p h. refl;
  sealed_length = λ c n p. length-append p tag;
  decrypt_sealed = λ c n p. unsealed-sealed p;
  decrypt_genuine = λ c n s p h. unsealed-genuine s p h;
}

-- Metadata is its id alone, and content is plaintext.
abbrev pub plain_format : Format ℤ
plain_format = record {
  is_sealed = false;
  key_id = [];
  content_key = content_key by_length;
  write_content = λ c. (
    c.bytes,
    elim c.failure [
      | none ↦
          ok
            (record { digest = digest_of by_length c.bytes; head = take 4096 c.bytes; salt = none })
      | some e ↦ err (CopyError.read e)
    ],
  );
  utf8_prefix = λ b. b;
  encode_meta = λ meta salt. ok meta.id.repr;
  decode_meta = λ id bytes. err (MetaError.corrupt []);
}

abbrev pub plain_store : FsStore ℤ
plain_store = record {
  format = plain_format;
  now = pos 1000;
  guard = false;
  plain_guard = true;
  parse_header = λ b. err (StoreError.not_found []);
}
