-- ===== src/Totp/Counter.antt =====
-- backend/auth/auth.go, `GenerateCode`: the eight bytes of the counter.
use human_guard.Base.{◌%◌, ℕ, ◌+◌, ◌*◌, ◌<◌, ◌≡◌, refl, List, [], ◌∷◌, arith, length, All}
use human_guard.Totp.{big_endian, counter_message}

-- The number that bytes spell, the most significant one first.
abbrev pub spelled : ℕ → List ℕ → ℕ
spelled acc [] = acc
spelled acc (b ∷ bs) = spelled (acc * 256 + b) bs

-- The loop writes eight bytes, and they spell the counter, reduced to 64 bits.
pub spelled-counter_message :
    (counter : ℕ)
    → (length (counter_message counter) ≡ 8)
      × All (λ b. b < 256) (counter_message counter)
      × (spelled 0 (counter_message counter) ≡ counter % 18_446_744_073_709_551_616)
unfolding big_endian
spelled-counter_message counter = (refl, ground arith, omega arith)
