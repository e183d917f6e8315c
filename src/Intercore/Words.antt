-- ===== src/Intercore/Words.antt =====
-- 32-bit words in memory, low byte first.
use modbus_sphere_library.Base.{ℕ, ◌+◌, ◌*◌, ◌/◌, ◌%◌, ◌^◌, ◌<◌, ◌≡◌, List, [], ◌∷◌, arith}

unfoldable pub word_bytes : ℕ → List ℕ
word_bytes w = (w % 2 ^ 8) ∷ (w / 2 ^ 8 % 2 ^ 8) ∷ (w / 2 ^ 16 % 2 ^ 8) ∷ (w / 2 ^ 24 % 2 ^ 8) ∷ []

unfoldable pub word_value : List ℕ → ℕ
word_value (a ∷ b ∷ c ∷ d ∷ []) = a + b * 2 ^ 8 + c * 2 ^ 16 + d * 2 ^ 24
word_value _ = 0

pub word_value-word_bytes : (w : ℕ) → w < 2 ^ 32 → word_value (word_bytes w) ≡ w
unfolding word_value word_bytes
word_value-word_bytes w h = omega arith
