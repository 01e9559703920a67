-- ===== src/Totp/Codes.antt =====
-- backend/auth/auth.go, `GenerateCode` and `ValidateCode`: which codes there are.
use human_guard.Http.{trim_space}
use human_guard.Clock.{unix, Time}
use mathlib.Core.Path.{subst}
use Prim.Native.Char.{code}
use human_guard.Base.{
  ◌/◌, ◌%◌, codes, ℕ, zero, suc, ◌+◌, ◌*◌, ◌≤◌, ◌<◌, String, ◌≡◌, refl, some, List, [], ◌∷◌, arith,
  length, All, Char, upper_text, ◌-◌, sym, ap, ◌∙◌, ◌↔◌, ◌⊎◌, inl, inr, true, eq_iff, Option-cases,
}
use human_guard.Totp.{
  code_with, counter_message, validate_code, padded, TotpOps, code_of_hash, digit_char, digits,
  generate_code, get_elem?, truncate,
}

-- What SHA-1 gives: twenty bytes.
abbrev pub IsDigest : List ℕ → Type 0
IsDigest hash = (length hash ≡ 20) × All (λ b. b < 256) hash

abbrev pub IsSixDigits : String → Type 0
IsSixDigits s = (length (codes s) ≡ 6) × All (λ c. (b'0' ≤ c) × (c ≤ b'9')) (codes s)

elem_there :
    (n : ℕ) (l : List ℕ)
    → n < length l
    → All (λ b. b < 256) l
    → (b : ℕ) × (get_elem? l n ≡ some b) × (b < 256)
elem_there n [] h a = ground arith
elem_there zero (x ∷ l) h a = (x, refl, a.0)
elem_there (suc n) (x ∷ l) h a = elem_there n l (omega arith) a.1

-- The offset is at most 15, so the four bytes are within a digest, and their number has 31 bits.
pub truncate_lem :
    (hash : List ℕ) (offset : ℕ)
    → IsDigest hash
    → offset < 16
    → (n : ℕ) × (truncate hash offset ≡ some n) × (n < 2_147_483_648)
unfolding truncate
truncate_lem hash offset d o =
    let (a, ea, la) = elem_there offset hash (omega (arith, d.0)) d.1 in
    let (b, eb, lb) = elem_there (offset + 1) hash (omega (arith, d.0)) d.1 in
    let (c, ec, lc) = elem_there (offset + 2) hash (omega (arith, d.0)) d.1 in
    let (e, ee, le) = elem_there (offset + 3) hash (omega (arith, d.0)) d.1 in
    (a % 128 * 16_777_216 + b * 65_536 + c * 256 + e, rw (ea, eb, ec, ee) refl, omega arith)

abbrev IsDigit : Char → Type 0
IsDigit c = (b'0' ≤ code c) × (code c ≤ b'9')

get_elem-All :
    (P : Char → Type 0) (l : List Char) (n : ℕ) (c : Char) → All P l → get_elem? l n ≡ some c → P c
get_elem-All P [] n c h found = ground arith
get_elem-All P (x ∷ l) zero c h found = let same : x ≡ c = ground arith in subst P same h.0
get_elem-All P (x ∷ l) (suc n) c h found = get_elem-All P l n c h.1 found

digit_char-IsDigit : (n : ℕ) → IsDigit (digit_char n)
digit_char-IsDigit n = elim (Option-cases (get_elem? digits n)) [
  | inl past ↦ rw past (omega arith)
  | inr (c, there) ↦ rw there (get_elem-All IsDigit digits n c (ground arith) there)
]

padded-length :
    (width n : ℕ) (text : String)
    → length (codes (padded width n text)) ≡ width + length (codes text)
unfolding padded
padded-length zero n text = omega arith
padded-length (suc width) n text =
    padded-length width (n / 10) (String.◌∷◌ (digit_char (n % 10)) text) ∙ omega arith

padded_IsDigits :
    (width n : ℕ) (text : String)
    → All (λ c. (b'0' ≤ c) × (c ≤ b'9')) (codes text)
    → All (λ c. (b'0' ≤ c) × (c ≤ b'9')) (codes (padded width n text))
unfolding padded
padded_IsDigits zero n text h = h
padded_IsDigits (suc width) n text h =
    padded_IsDigits width (n / 10) (String.◌∷◌ (digit_char (n % 10)) text)
      (digit_char-IsDigit (n % 10), h)

last_elem : (hash : List ℕ) → IsDigest hash → (b : ℕ) × (get_elem? hash (length hash - 1) ≡ some b)
last_elem hash d =
    let (b, there, small) = elem_there (length hash - 1) hash (omega (arith, d.0)) d.1 in (b, there)

code_of_hash-IsSixDigits :
    (hash : List ℕ) → IsDigest hash → (s : String) × (code_of_hash hash ≡ some s) × IsSixDigits s
unfolding code_of_hash
code_of_hash-IsSixDigits hash d =
    let (b, there) = last_elem hash d in
    let (n, cut, small) = truncate_lem hash (b % 16) d (omega arith) in
    (
      padded 6 (n % 1_000_000) "",
      rw (there, cut) refl,
      (padded-length 6 (n % 1_000_000) "", padded_IsDigits 6 (n % 1_000_000) "" tt),
    )

-- With the digests of SHA-1 the code never panics: it is empty for a secret that does not decode,
-- and has six digits otherwise.
pub generate_code-IsSixDigits :
    (ops : TotpOps) (now : Time) (secret : String)
    → ((key msg : List ℕ) → IsDigest (ops.hmac_sha1 key msg))
    → (s : String) × (generate_code ops now secret ≡ some s) × ((s ≡ "") ⊎ IsSixDigits s)
unfolding generate_code code_of_hash
generate_code-IsSixDigits ops now secret sha1 =
    elim (Option-cases (ops.decode_base32 (upper_text ops.upper (trim_space secret)))) [
      | inl bad ↦ ("", rw bad refl, inl refl)
      | inr (key, good) ↦
          let (s, made, six) =
            code_of_hash-IsSixDigits (ops.hmac_sha1 key (counter_message (unix now / 30)))
              (sha1 key (counter_message (unix now / 30))) in
          (s, rw good made, inr six)
    ]

-- A code is accepted exactly when it is the secret's code of the same span of thirty seconds: the code
-- that was made at one instant is accepted at every other of the span, and no other code is.
pub validate_code-generate_code :
    (ops : TotpOps) (then_at now : Time) (secret code s : String)
    → unix then_at / 30 ≡ unix now / 30
    → generate_code ops then_at secret ≡ some s
    → (validate_code ops now secret code ≡ some true) ↔ (code ≡ s)
unfolding generate_code validate_code
validate_code-generate_code ops then_at now secret code s span made =
    let again : generate_code ops now secret ≡ some s =
      ap (λ c. code_with ops c (ops.decode_base32 (upper_text ops.upper (trim_space secret))))
        (sym span)
      ∙ made in
    rw again (ground (arith, eq_iff s code))
