-- ===== src/Item/Hex.antt =====
-- `hex.EncodeToString` on bytes: two lower-case digits for each.
use raft_capnp.Prelude.{
  refl, ℕ, ◌+◌, ◌-◌, ◌/◌, ◌%◌, ◌<◌, ◌≡◌, [], ◌∷◌, ltb, if◌then◌else◌, All, arith,
}
use raft_capnp.Data.{Bytes}

pub hex_digit : ℕ → ℕ
hex_digit d = if ltb d 10 then d + b'0' else d - 10 + b'a'

unfoldable pub hex_encode : Bytes → Bytes
hex_encode [] = []
hex_encode (b ∷ bs) = hex_digit (b / 16) ∷ hex_digit (b % 16) ∷ hex_encode bs

hex_digit-injective : (a b : ℕ) → a < 16 → b < 16 → hex_digit a ≡ hex_digit b → a ≡ b
unfolding hex_digit
hex_digit-injective a b ha hb h = ground arith

-- Two lists of bytes with the same hexadecimal text are the same.
pub hex_encode-injective :
    (xs ys : Bytes)
    → All (λ b. b < 256) xs
    → All (λ b. b < 256) ys
    → hex_encode xs ≡ hex_encode ys
    → xs ≡ ys
unfolding hex_encode
hex_encode-injective [] [] hx hy h = refl
hex_encode-injective [] (y ∷ ys) hx hy h = cc
hex_encode-injective (x ∷ xs) [] hx hy h = cc
hex_encode-injective (x ∷ xs) (y ∷ ys) hx hy h =
    let high =
      hex_digit-injective (x / 16) (y / 16) (omega (arith, hx.0)) (omega (arith, hy.0)) (cc) in
    let low = hex_digit-injective (x % 16) (y % 16) (omega arith) (omega arith) (cc) in
    let tails = hex_encode-injective xs ys hx.1 hy.1 (cc) in
    let heads : x ≡ y = omega (arith, high, low) in rw (heads, tails)
