-- ===== src/Totp.antt =====
-- backend/auth/auth.go, `TOTPService`: the codes of six digits that change every thirty seconds.
-- Base32 decoding and HMAC-SHA-1 are parameters. A list of bytes is a list of numbers below 256; an
-- index that is out of range, where Go panics, reads `none`.
pub mod Counter
pub mod Codes
mod Tests
use human_guard.Base.{
  ◌/◌, ◌%◌, Char, lower_text, upper_text, byte_len, codes, has_prefix, Pairwise, All-weaken,
  All-keep, ℕ, zero, suc, ◌+◌, ◌-◌, ◌*◌, ◌≤◌, ◌<◌, String, ◌≡◌, refl, sym, ap, ◌∙◌, ◌≢◌, ◌↔◌, ◌⊎◌,
  inl, inr, Bool, true, false, not, ◌&&◌, ◌||◌, Option, none, some, List, [], ◌∷◌, ◌++◌, map, arith,
  ◌==◌, eq_iff, eq_refl, ltb, leb, eqb, if◌then◌else◌, Bool-cases, Option-cases, length, keep,
  count_if, any_of, All, Dict, lookup, insert, delete, adjust,
}
use human_guard.Clock.{Time, unix}
use human_guard.Http.{trim_space}

pub record TotpOps : Type 0 where
  pub upper : Char → Char
  pub decode_base32 : String → Option (List ℕ)
  pub hmac_sha1 : List ℕ → List ℕ → List ℕ

-- The loop over `msg[i] = byte(counter)` from the last byte to the first.
unfoldable pub big_endian : ℕ → ℕ → List ℕ → List ℕ
big_endian zero counter msg = msg
big_endian (suc i) counter msg = big_endian i (counter / 256) (counter % 256 ∷ msg)

abbrev pub counter_message : ℕ → List ℕ
counter_message counter = big_endian 8 counter []

abbrev pub get_elem? {ℓ} : {A : Type ℓ} → List A → ℕ → Option A
get_elem? [] n = none
get_elem? (x ∷ xs) zero = some x
get_elem? (x ∷ xs) (suc n) = get_elem? xs n

infixl 5 ◌>>=◌
abbrev pub ◌>>=◌ {ℓ κ} : {A : Type ℓ} {B : Type κ} → Option A → (A → Option B) → Option B
none >>= f = none
some a >>= f = f a

-- The four bytes from `offset` on, without the first bit. They fill bits of their own, so `|` is `+`.
unfoldable pub truncate : List ℕ → ℕ → Option ℕ
truncate hash offset = do
  a ← get_elem? hash offset
  b ← get_elem? hash (offset + 1)
  c ← get_elem? hash (offset + 2)
  d ← get_elem? hash (offset + 3)
  some (a % 128 * 16_777_216 + b * 65_536 + c * 256 + d)

-- `fmt.Sprintf("%06d", n)` below a million: the digits, the first one the most significant.
abbrev pub digits : List Char
digits = "0" ∷ "1" ∷ "2" ∷ "3" ∷ "4" ∷ "5" ∷ "6" ∷ "7" ∷ "8" ∷ "9" ∷ []

abbrev pub digit_char : ℕ → Char
digit_char n = elim (get_elem? digits n) [ none ↦ "0" | some c ↦ c ]

unfoldable pub padded : ℕ → ℕ → String → String
padded zero n text = text
padded (suc width) n text = padded width (n / 10) (String.◌∷◌ (digit_char (n % 10)) text)

-- `hash[len(hash)-1] & 0x0f`, and the code of the hash.
unfoldable pub code_of_hash : List ℕ → Option String
code_of_hash hash = do
  last ← get_elem? hash (length hash - 1)
  binary ← truncate hash (last % 16)
  some (padded 6 (binary % 1_000_000) "")

abbrev pub code_with : TotpOps → ℕ → Option (List ℕ) → Option String
code_with ops counter none = some ""
code_with ops counter (some key) = code_of_hash (ops.hmac_sha1 key (counter_message counter))

-- A secret that does not decode has the empty code. `none` is a panic.
unfoldable pub generate_code : TotpOps → Time → String → Option String
generate_code ops now secret =
    code_with ops (unix now / 30) (ops.decode_base32 (upper_text ops.upper (trim_space secret)))

unfoldable pub validate_code : TotpOps → Time → String → String → Option Bool
validate_code ops now secret code = do
  server_code ← generate_code ops now secret
  some (server_code == code)
