-- ===== src/Model/Id/Order.antt =====
-- The order of ids.
use native.Mathlib.Nat.{pow-suc}
use passalong.Prelude.{
  ℕ, zero, suc, ◌/◌, ◌%◌, ◌^◌, ◌<◌, ◌≡◌, sym, ◌∙◌, true, false, ◌&&◌, ◌||◌, [], ◌∷◌, arith, ltb,
  ◌==◌, length, text_eq, text_ltb, text_ltb_irrefl, text_ltb_asym, text_ltb_cotrans,
  text_eq-not_ltb, text_ltb-append, text_eq-append,
}
use passalong.Model.Hex.{hex_digit, hex_fixed, length-hex_fixed}
use passalong.Model.Id.{ItemId, id_ltb}
use passalong.Model.Id.RoundTrip.{IsValidId}

digit_order :
    (a b : ℕ)
    → a < 16
    → b < 16
    → (ltb (hex_digit a) (hex_digit b) ≡ ltb a b) × ((hex_digit a == hex_digit b) ≡ (a == b))
unfolding hex_digit
digit_order a b h k = ground arith

same_length : (w n m : ℕ) → length (hex_fixed w n) ≡ length (hex_fixed w m)
same_length w n m = length-hex_fixed w n ∙ sym (length-hex_fixed w m)

split_ltb :
    (n m : ℕ) → (ltb (n / 16) (m / 16) || ((n / 16) == (m / 16) && ltb (n % 16) (m % 16))) ≡ ltb n m
split_ltb n m = ground arith

split_eq : (n m : ℕ) → ((n / 16) == (m / 16) && (n % 16) == (m % 16)) ≡ (n == m)
split_eq n m = ground arith

-- Texts of one width are ordered as the numbers that they print.
hex_fixed_order :
    (w n m : ℕ)
    → n < 16 ^ w
    → m < 16 ^ w
    → (text_ltb (hex_fixed w n) (hex_fixed w m) ≡ ltb n m)
      × (text_eq (hex_fixed w n) (hex_fixed w m) ≡ (n == m))
unfolding hex_fixed
hex_fixed_order zero n m h k = unfold text_ltb text_eq in ground arith
hex_fixed_order (suc w) n m h k =
    let fits : n / 16 < 16 ^ w = omega (arith, rw pow-suc at h) in
    let fits' : m / 16 < 16 ^ w = omega (arith, rw pow-suc at k) in
    let high = hex_fixed_order w (n / 16) (m / 16) fits fits' in
    let low = digit_order (n % 16) (m % 16) (omega arith) (omega arith) in
    (
      rw
          (
            text_ltb-append (hex_fixed w (n / 16)) (hex_fixed w (m / 16)) (hex_digit (n % 16) ∷ [])
                (hex_digit (m % 16) ∷ []) (same_length w (n / 16) (m / 16)),
            high.0,
            high.1,
          )
          (unfold text_ltb text_eq in ground (arith, low.0, low.1, split_ltb n m)),
      rw
          (
            text_eq-append (hex_fixed w (n / 16)) (hex_fixed w (m / 16)) (hex_digit (n % 16) ∷ [])
                (hex_digit (m % 16) ∷ []) (same_length w (n / 16) (m / 16)),
            high.1,
          )
          (unfold text_ltb text_eq in ground (arith, low.1, split_eq n m)),
    )

-- A valid id comes before another exactly when its second is earlier, or the seconds are equal and
-- its content key comes first.
pub id_ltb_chronological :
    (a b : ItemId)
    → IsValidId a
    → IsValidId b
    → id_ltb a b ≡ (ltb a.secs b.secs || (a.secs == b.secs && text_ltb a.key b.key))
unfolding id_ltb text_ltb text_eq
id_ltb_chronological a b v w =
    let secs = hex_fixed_order 8 a.secs b.secs v.secs_fits w.secs_fits in
    let same = same_length 8 a.secs b.secs in
    let before =
      text_ltb-append (hex_fixed 8 a.secs) (hex_fixed 8 b.secs) (b'-' ∷ a.key) (b'-' ∷ b.key)
        same in
    let equal =
      text_eq-append (hex_fixed 8 a.secs) (hex_fixed 8 b.secs) (b'-' ∷ a.key) (b'-' ∷ b.key) same in
    rw (v.printed, w.printed, before, equal, secs.0, secs.1) (ground arith)

pub id_ltb_irrefl : (a : ItemId) → id_ltb a a ≡ false
unfolding id_ltb
id_ltb_irrefl a = ground (arith, text_ltb_irrefl a.repr, text_ltb_irrefl a.key)

pub id_ltb_asym : (a b : ItemId) → id_ltb a b ≡ true → id_ltb b a ≡ false
unfolding id_ltb
id_ltb_asym a b h = ground (
  arith,
  text_ltb_asym a.repr b.repr,
  text_eq-not_ltb a.repr b.repr,
  text_eq-not_ltb b.repr a.repr,
  text_ltb_asym a.key b.key,
)

-- What lies between two ids in order is after the first or before the second.
pub id_ltb_cotrans : (a b c : ItemId) → id_ltb a b ≡ false → id_ltb b c ≡ false → id_ltb a c ≡ false
unfolding id_ltb
id_ltb_cotrans a b c h k = ground (
  arith,
  text_eq-not_ltb a.repr b.repr,
  text_eq-not_ltb b.repr c.repr,
  text_eq-not_ltb a.repr c.repr,
  text_ltb_cotrans a.repr b.repr c.repr,
  text_ltb_cotrans b.repr c.repr a.repr,
  text_ltb_cotrans c.repr a.repr b.repr,
  text_ltb_cotrans a.key b.key c.key,
)
