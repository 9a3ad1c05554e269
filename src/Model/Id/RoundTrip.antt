-- ===== src/Model/Id/RoundTrip.antt =====
-- Printing and parsing ids.
use passalong.Prelude.{
  ℕ, ◌<◌, ◌≡◌, refl, sym, ap, ◌∙◌, true, false, ◌&&◌, some, [], ◌∷◌, ◌++◌, arith, ◌==◌, all, Text,
  ok, ℤ, pos, negsuc, Bool-cases, Option-cases, inl, inr, &&_true,
}
use passalong.Model.Hex.{
  is_hex_digit, is_lower_hex, hex_fixed, u32_mod, hex_fixed-all, hex_fixed-is_lower_hex,
  from_hex-hex_fixed, from_hex_canonical,
}
use passalong.Model.Time.{Chrono, ChronoLaws}
use passalong.Model.Id.{
  ItemId, ContentKey, key_hex_len, id_of, u32_try_from, new, parse, parse_parts, split_once,
  timestamp,
}

-- An id as every constructor of the program makes it.
pub record IsValidId (id : ItemId) : Type 0 where
  pub secs_fits : id.secs < u32_mod
  pub key_hex : is_lower_hex id.key key_hex_len ≡ true
  pub printed : id.repr ≡ hex_fixed 8 id.secs ++ b'-' ∷ id.key

not_dash : (b : ℕ) → is_hex_digit b ≡ true → (b == b'-') ≡ false
unfolding is_hex_digit
not_dash b h = ground arith

pub split_once-append :
    (ts key : Text)
    → all is_hex_digit ts ≡ true
    → split_once b'-' (ts ++ b'-' ∷ key) ≡ some (ts, key)
unfolding split_once
split_once-append [] key h = refl
split_once-append (b ∷ ts) key h =
    let digit = (&&_true (is_hex_digit b) (all is_hex_digit ts) h).0 in
    let others = (&&_true (is_hex_digit b) (all is_hex_digit ts) h).1 in
    rw (not_dash b digit, split_once-append ts key others)

-- What `split_once` returns is the text before and after a separator.
pub split_once_sound :
    (c : ℕ) (text : Text) (p : Text × Text) → split_once c text ≡ some p → text ≡ p.0 ++ c ∷ p.1
unfolding split_once
split_once_sound c [] p h = cc
split_once_sound c (b ∷ rest) p h = elim (Option-cases (split_once c rest)) [
  | inl e ↦ ground (arith, e)
  | inr f ↦ ground (arith, f.1, split_once_sound c rest f.0 f.1)
]

pub parse-id_of :
    (secs : ℕ) (key : ContentKey)
    → secs < u32_mod
    → is_lower_hex key key_hex_len ≡ true
    → parse (id_of key secs).repr ≡ ok (id_of key secs)
unfolding parse
parse-id_of secs key h k =
    rw (split_once-append (hex_fixed 8 secs) key (hex_fixed-all 8 secs))
      (rw (hex_fixed-is_lower_hex 8 secs, k, from_hex-hex_fixed secs h))

-- Reading an id: it is valid, and its text is what was read.
parse_parts-IsValidId :
    (text ts key : Text) (id : ItemId)
    → text ≡ ts ++ b'-' ∷ key
    → parse_parts text ts key ≡ ok id
    → IsValidId id × (id.repr ≡ text)
unfolding parse_parts
parse_parts-IsValidId text ts key id split h =
    elim (Bool-cases (is_lower_hex ts 8 && is_lower_hex key key_hex_len)) [
      | inl e ↦
          let hex = &&_true (is_lower_hex ts 8) (is_lower_hex key key_hex_len) e in
          let (n, read, fits, shown) = from_hex_canonical ts hex.0 in
          ground (arith, hex.0, hex.1, read, fits, shown)
      | inr e ↦ cc (rw e at h)
    ]

-- A text that parses as an id is the text of that id, which is valid: eight lowercase hexadecimal
-- digits of its seconds, a dash, and twelve of its content key.
pub parse-IsValidId :
    (text : Text) (id : ItemId) → parse text ≡ ok id → IsValidId id × (id.repr ≡ text)
unfolding parse
parse-IsValidId text id h = elim (Option-cases (split_once b'-' text)) [
  | inl e ↦ cc (rw e at h)
  | inr f ↦
      parse_parts-IsValidId text f.0.0 f.0.1 id (split_once_sound b'-' text f.0 f.1) (rw f.1 at h)
]

-- Valid ids parse back from their text.
pub parse-repr : (id : ItemId) → IsValidId id → parse id.repr ≡ ok id
parse-repr id v =
    let whole : id ≡ id_of id.key id.secs = ground (arith, v.printed) in
    rw v.printed (parse-id_of id.secs id.key v.secs_fits v.key_hex) ∙ ap ok (sym whole)

u32_try_from-some : (z : ℤ) (n : ℕ) → u32_try_from z ≡ some n → (z ≡ pos n) × (n < u32_mod)
unfolding u32_try_from
u32_try_from-some (pos m) n h = ground arith
u32_try_from-some (negsuc m) n h = cc

pub id_of-IsValidId :
    (key : ContentKey) (secs : ℕ)
    → is_lower_hex key key_hex_len ≡ true
    → secs < u32_mod
    → IsValidId (id_of key secs)
id_of-IsValidId key secs k h = record { secs_fits = h; key_hex = k; printed = refl }

-- A time that is refused has no id; every other gives the id of its whole seconds.
pub new-id_of :
    (chrono : Chrono) (created_at : chrono.DateTime) (key : ContentKey) (id : ItemId)
    → new chrono created_at key ≡ ok id
    → (n : ℕ) × (chrono.timestamp created_at ≡ pos n) × (n < u32_mod) × (id ≡ id_of key n)
unfolding new
new-id_of chrono created_at key id h =
    elim (Option-cases (u32_try_from (chrono.timestamp created_at))) [
      | inl e ↦ cc (rw e at h)
      | inr f ↦
          let range = u32_try_from-some (chrono.timestamp created_at) f.0 f.1 in
          (f.0, range.0, range.1, ground (arith, rw f.1 at h))
    ]

-- Whenever an id is made of a time and a content key that is twelve lowercase hexadecimal digits,
-- its text parses back to that id, it is valid, and its time is the given time's whole seconds.
pub parse-new :
    (chrono : Chrono)
    → ChronoLaws chrono
    → (created_at : chrono.DateTime) (key : ContentKey) (id : ItemId)
    → is_lower_hex key key_hex_len ≡ true
    → new chrono created_at key ≡ ok id
    → (parse id.repr ≡ ok id)
      × IsValidId id
      × (id.key ≡ key)
      × (chrono.timestamp (timestamp chrono id) ≡ chrono.timestamp created_at)
unfolding timestamp
parse-new chrono laws created_at key id k h =
    let (n, when, fits, made) = new-id_of chrono created_at key id h in
    let back = laws.timestamp-from_timestamp n fits in
    (
      rw made (parse-id_of n key fits k),
      rw made (id_of-IsValidId key n k fits),
      rw made,
      rw (made, back, when),
    )
