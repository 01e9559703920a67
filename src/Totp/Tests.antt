-- ===== src/Totp/Tests.antt =====
-- TOTP codes with a fixed digest.
use human_guard.Base.{◌%◌, ◌<◌, String, ◌≡◌, ◌⊎◌, some, length, All}
use human_guard.Totp.{counter_message, generate_code}
use human_guard.Totp.Counter.{spelled, spelled-counter_message}
use human_guard.Totp.Codes.{IsSixDigits, generate_code-IsSixDigits}
use human_guard.Samples.{in_1970, totp_ops, totp-GivesDigests}

spelled-counter_message_example :
    (length (counter_message 1_000) ≡ 8)
    × All (λ b. b < 256) (counter_message 1_000)
    × (spelled 0 (counter_message 1_000) ≡ 1_000 % 18_446_744_073_709_551_616)
spelled-counter_message_example = spelled-counter_message 1_000

generate_code-IsSixDigits_example :
    (s : String) × (generate_code totp_ops in_1970 "SECRET" ≡ some s) × ((s ≡ "") ⊎ IsSixDigits s)
generate_code-IsSixDigits_example =
    generate_code-IsSixDigits totp_ops in_1970 "SECRET" totp-GivesDigests
