-- ===== src/Jwt/Samples.antt =====
-- A service that signs one set of claims, those of the user of the samples at noon in 1970.
use human_guard.Base.{
  lt→ltb, ◌+◌, ◌*◌, ◌<◌, String, ◌≡◌, inl, inr, Bool, true, false, ◌&&◌, Option, none, some, arith,
  ◌==◌, eq_iff, ltb, eqb, if◌then◌else◌, Bool-cases,
}
use human_guard.Clock.{hour, unix}
use human_guard.Samples.{in_1970}
use human_guard.Jwt.{MapClaims, JwtOps, ReadsBack}

abbrev signed : MapClaims
signed = record {
  user_id = some "u1";
  role = some "admin";
  sid = some "s1";
  exp = unix (in_1970 + 24 * hour);
  iat = unix in_1970;
}

abbrev is_text : Option String → String → Bool
is_text none text = false
is_text (some s) text = s == text

abbrev is_signed : MapClaims → Bool
is_signed c =
    is_text c.user_id "u1"
    && is_text c.role "admin"
    && is_text c.sid "s1"
    && eqb c.exp signed.exp
    && eqb c.iat signed.iat

abbrev pub ops : JwtOps
ops = record {
  sign = λ c. if is_signed c then some "token" else none;
  parse = λ now t. if t == "token" && ltb (unix now) signed.exp then some signed else none;
}

is_text-some : (o : Option String) (text : String) → is_text o text ≡ true → o ≡ some text
is_text-some none text h = ground arith
is_text-some (some s) text h = ground (arith, eq_iff s text)

is_signed-signed : (c : MapClaims) → is_signed c ≡ true → c ≡ signed
is_signed-signed c h =
    let u = is_text-some c.user_id "u1" (ground arith) in
    let r = is_text-some c.role "admin" (ground arith) in
    let s = is_text-some c.sid "s1" (ground arith) in
    let e : c.exp ≡ signed.exp = ground arith in
    let i : c.iat ≡ signed.iat = ground arith in
    λ k. record { user_id = u k; role = r k; sid = s k; exp = e k; iat = i k }

pub reads_back : ReadsBack ops
reads_back c token now made early = elim (Bool-cases (is_signed c)) [
  | inl same ↦
      let it = is_signed-signed c same in
      let text : "token" ≡ token = ground arith in
      let soon : unix now < signed.exp = ground arith in
      ground (arith, eq_iff token "token", lt→ltb (unix now) signed.exp soon)
  | inr other ↦ ground arith
]
