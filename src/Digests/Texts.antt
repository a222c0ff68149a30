-- ===== src/Digests/Texts.antt =====
-- Digests and guids as texts: their length, and what they tell of the digest.
use chroot_cbccd.Base.{
  ℕ, ◌*◌, ◌/◌, ◌%◌, ◌<◌, ◌≡◌, ◌↔◌, refl, ap₂, true, some, List, [], ◌∷◌, arith, length, Text,
}
use chroot_cbccd.Digests.{OpenSsl, hex_digit, hex_text, get_md5sum_of_buffer}

abbrev pub AllBytes : List ℕ → Type 0
AllBytes [] = Unit {0}
AllBytes (b ∷ bs) = (b < 256) × AllBytes bs

-- What OpenSSL documents of MD5: a digest has 16 bytes.
pub record IsMd5 (ssl : OpenSsl) : Type 0 where
  pub sized : (t : List ℕ) → length (ssl.md5 t) ≡ 16
  pub bytes : (t : List ℕ) → AllBytes (ssl.md5 t)

hex_digit-injective : (a b : ℕ) → a < 16 → b < 16 → hex_digit a ≡ hex_digit b → a ≡ b
hex_digit-injective a b h k e = ground arith

byte-injective :
    (a b : ℕ)
    → a < 256
    → b < 256
    → hex_digit (a / 16) ≡ hex_digit (b / 16)
    → hex_digit (a % 16) ≡ hex_digit (b % 16)
    → a ≡ b
byte-injective a b h k e f =
    let high = hex_digit-injective (a / 16) (b / 16) (omega arith) (omega arith) e in
    let low = hex_digit-injective (a % 16) (b % 16) (omega arith) (omega arith) f in
    omega (arith, high, low)

hex_text-injective :
    (xs ys : List ℕ) → AllBytes xs → AllBytes ys → hex_text xs ≡ hex_text ys → xs ≡ ys
unfolding hex_text
hex_text-injective [] [] h k e = refl
hex_text-injective [] (b ∷ bs) h k e = cc
hex_text-injective (a ∷ xs) [] h k e = cc
hex_text-injective (a ∷ xs) (b ∷ bs) h k e =
    let high : hex_digit (a / 16) ≡ hex_digit (b / 16) = cc in
    let low : hex_digit (a % 16) ≡ hex_digit (b % 16) = cc in
    let rest : hex_text xs ≡ hex_text bs = cc in
    ap₂ ◌∷◌ (byte-injective a b h.0 k.0 high low) (hex_text-injective xs bs h.1 k.1 rest)

length-hex_text : (bs : List ℕ) → length (hex_text bs) ≡ 2 * length bs
unfolding hex_text
length-hex_text [] = refl
length-hex_text (b ∷ bs) = omega (arith, length-hex_text bs)

-- Where OpenSSL can be used, get_md5sum_of_buffer gives each text 32 characters, which fill the
-- array up to its last byte, and two texts the same ones just if MD5 gives them the same digest.
get_md5sum_of_buffer_lem :
    (ssl : OpenSsl) (a b : Text)
    → IsMd5 ssl
    → ssl.md5_init ≡ true
    → (s : Text) × (get_md5sum_of_buffer ssl a ≡ some s)
      × (length s ≡ 32)
      × ((get_md5sum_of_buffer ssl b ≡ some s) ↔ (ssl.md5 a ≡ ssl.md5 b))
unfolding get_md5sum_of_buffer
get_md5sum_of_buffer_lem ssl a b m i = (
  hex_text (ssl.md5 a),
  rw i refl,
  omega (arith, length-hex_text (ssl.md5 a), m.sized a),
  rw i (
    (λ e. hex_text-injective (ssl.md5 a) (ssl.md5 b) (m.bytes a) (m.bytes b) (cc e)),
    λ e. rw e refl,
  ),
)
