-- ===== src/Accounts/Credentials.antt =====
-- backend/handlers/user.go: who is let in by `Login`, and who may set a password.
use human_guard.Base.{
  byte_len, codes, ℕ, String, ◌≡◌, refl, ◌⊎◌, inl, inr, true, false, ◌||◌, Option, none, some, List,
  arith, ◌==◌, Bool-cases,
}
use human_guard.Errors.{Result-cases, ok}
use human_guard.Http.{Body, unreadable, empty, malformed, parsed, Request}
use human_guard.Users.{User, get_user_by_email}
use human_guard.Totp.{TotpOps, validate_code}
use human_guard.Totp.Codes.{IsDigest, generate_code-IsSixDigits}
use human_guard.Accounts.{Portal, PortalEnv}
use human_guard.Accounts.Login.{
  LoginBody, login, login_error, totp_passes, check_credentials, admit,
}

-- HMAC-SHA-1 gives twenty bytes.
abbrev pub GivesDigests : TotpOps → Type 0
GivesDigests ops = (key msg : List ℕ) → IsDigest (ops.hmac_sha1 key msg)

-- The body names a user by email, with the password and, where the user has a secret, its code.
pub record Knows (env : PortalEnv) (p : Portal) (b : LoginBody) (user : User) : Type 0 where
  pub email_given : (b.email == "") ≡ false
  pub password_given : (b.password == "") ≡ false
  pub named : get_user_by_email env.table env.faults b.email p.db ≡ ok user
  pub password : env.matches user.password_hash b.password ≡ true
  pub code : totp_passes env user.totp_secret b.totp_code ≡ some true

pub login-Knows :
    (env : PortalEnv) (r : Request) (b : LoginBody) (p : Portal) (user : User)
    → Knows env p b user
    → login env r (parsed b) p ≡ admit env r user p
unfolding login check_credentials
login-Knows env r b p user k =
    rw (k.email_given, k.password_given, k.named, check_credentials, k.password, k.code) refl

totp_passes-cases :
    (env : PortalEnv) (secret : Option String) (code : String)
    → GivesDigests env.totp
    → (totp_passes env secret code ≡ some true) ⊎ (totp_passes env secret code ≡ some false)
unfolding validate_code
totp_passes-cases env none code sha1 = inl refl
totp_passes-cases env (some secret) code sha1 =
    let (s, made, shape) = generate_code-IsSixDigits env.totp env.now secret sha1 in
    rw (made, validate_code) (ground arith)

-- A login, whatever its body, either is refused with the one answer of `writeLoginError` and changes
-- nothing, or gave the email, the password and, where one is set up, the TOTP code of a stored user,
-- and is admitted as that user.
pub login_refused_alike :
    (env : PortalEnv) (r : Request) (body : Body LoginBody) (p : Portal)
    → GivesDigests env.totp
    → (login env r body p ≡ login_error p)
      ⊎ ((b : LoginBody) × (user : User) × (body ≡ parsed b)
          × Knows env p b user
          × (login env r body p ≡ admit env r user p))
unfolding login check_credentials
login_refused_alike env r unreadable p sha1 = inl refl
login_refused_alike env r empty p sha1 = inl refl
login_refused_alike env r malformed p sha1 = inl refl
login_refused_alike env r (parsed b) p sha1 =
    elim (Bool-cases (b.email == "" || b.password == "")) [
      | inl lacking ↦ inl (rw lacking refl)
      | inr given ↦ elim (Result-cases (get_user_by_email env.table env.faults b.email p.db)) [
        | inl (e, unknown) ↦ inl (rw (given, unknown) refl)
        | inr (user, named) ↦ elim (Bool-cases (env.matches user.password_hash b.password)) [
          | inr wrong ↦ inl (rw (given, named, check_credentials, wrong) refl)
          | inl right ↦ elim (totp_passes-cases env user.totp_secret b.totp_code sha1) [
            | inr late ↦ inl (rw (given, named, check_credentials, right, late) refl)
            | inl code ↦
                let knows : Knows env p b user = record {
                  email_given = ground arith;
                  password_given = ground arith;
                  named = named;
                  password = right;
                  code = code;
                } in
                inr (b, user, refl, knows, login-Knows env r b p user knows)
          ]
        ]
      ]
    ]

-- Bytes of a text.
abbrev size : String → ℕ
size s = byte_len (codes s)
