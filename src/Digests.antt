-- ===== src/Digests.antt =====
-- cbcc-util/cbcc_util.c: digests as texts, guids, and files in base64. OpenSSL and the file system
-- are parameters: `files` gives the bytes of a regular file that can be read.
pub mod Texts
use chroot_cbccd.Base.{
  ℕ, zero, suc, ◌+◌, ◌-◌, ◌/◌, ◌%◌, ◌^◌, Bool, true, false, ◌||◌, Option, none, some, List, [], ◌∷◌,
  ◌++◌, ◌>>=◌, ◌==◌, ltb, if◌then◌else◌, length, take, Text, snprintf,
}

-- Whether MD5_Init succeeds, the bytes of MD5_Final, and what a base64 BIO makes of the bytes
-- written to it and of the bytes read through it.
pub record OpenSsl : Type 0 where
  pub md5_init : Bool
  pub md5 : List ℕ → List ℕ
  pub encode : List ℕ → List ℕ
  pub decode : List ℕ → List ℕ

abbrev pub hex_digit : ℕ → ℕ
hex_digit d = if ltb d 10 then 48 + d else 87 + d

-- "%02x" of a byte, into three bytes.
abbrev pub hex_byte : ℕ → Text
hex_byte b = hex_digit (b / 16) ∷ hex_digit (b % 16) ∷ []

-- The loop that appends the bytes of a digest to an array that was cleared.
unfoldable pub hex_text : List ℕ → Text
hex_text [] = []
hex_text (b ∷ bs) = hex_byte b ++ hex_text bs

-- `get_md5sum_of_buffer`; `none` is -1, with the array as it was.
unfoldable pub get_md5sum_of_buffer : OpenSsl → Text → Option Text
get_md5sum_of_buffer ssl buffer = if ssl.md5_init then some (hex_text (ssl.md5 buffer)) else none

abbrev not_empty : List ℕ → Option (List ℕ)
not_empty [] = none
not_empty (b ∷ bs) = some (b ∷ bs)

-- `get_file_size`, opening and reading.
unfoldable pub read_file : (Text → Option (List ℕ)) → Text → Option (List ℕ)
read_file files path = files path >>= not_empty

unfoldable pub get_md5sum_of_file : OpenSsl → (Text → Option (List ℕ)) → Text → Option Text
get_md5sum_of_file ssl files path = read_file files path >>= get_md5sum_of_buffer ssl

-- "%lu" of a number below 10 ^ k.
unfoldable pub decimal : ℕ → ℕ → Text
decimal zero n = []
decimal (suc k) n =
    let rest = decimal k (n / 10) in
    if ltb n 10 then (48 + n) ∷ [] else rest ++ ((48 + n % 10) ∷ [])

-- The key of `create_random_guid`: an unsigned long has at most 20 digits.
unfoldable pub guid_key : ℕ → ℕ → Text
guid_key now random = snprintf 32 (decimal 20 ((now + random) % 2 ^ 64))

abbrev pub dash : ℕ
dash = 45

abbrev dashed : ℕ → Bool
dashed i = i == 4 || i == 6 || i == 8 || i == 10

-- The loop of `create_random_guid` from index `i`.
unfoldable pub guid_text : ℕ → List ℕ → Text
guid_text i [] = []
guid_text i (b ∷ bs) =
    let rest = hex_byte b ++ guid_text (i + 1) bs in if dashed i then dash ∷ rest else rest

unfoldable pub create_random_guid : OpenSsl → ℕ → ℕ → Option Text
create_random_guid ssl now random =
    if ssl.md5_init then some (guid_text 0 (ssl.md5 (guid_key now random))) else none

-- `base64_encode`: the last byte, a line feed, is written over.
unfoldable pub base64_encode : OpenSsl → List ℕ → Text
base64_encode ssl src = take (length (ssl.encode src) - 1) (ssl.encode src)

unfoldable pub get_base64_encoded_from_file :
    OpenSsl → (Text → Option (List ℕ)) → Text → Option Text
get_base64_encoded_from_file ssl files path = do
  bytes ← read_file files path
  some (base64_encode ssl bytes)

-- `decode_base64_to_file`: the bytes that are written, if both streams can be opened.
unfoldable pub decode_base64_to_file : OpenSsl → Bool → Bool → Text → Option (List ℕ)
decode_base64_to_file ssl opens_in opens_out encoded =
    if opens_in then if opens_out then some (ssl.decode encoded) else none else none
