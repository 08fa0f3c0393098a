-- ===== src/Base/Bits.antt =====
-- The masks that the wire format uses, as arithmetic: tables over a byte, checked by evaluation.
use for_mqtt_client.Base.Tests.{◌==◌}
use mathlib.Core.Bool.{Bool, true, ◌&&◌}
use mathlib.Core.Path.{◌≡◌, refl}
use native.Mathlib.Omega.{arith}
use Prim.Native.Nat.{bit_and, bit_or, ◌<◌, ◌+◌, ◌*◌, ◌/◌, ◌%◌, ℕ, suc, zero}

-- Whether two functions have the same values below a bound.
agree : ℕ → (ℕ → ℕ) → (ℕ → ℕ) → Bool
agree zero f g = true
agree (suc k) f g = agree k f g && (f k == g k)

agree-eq : (f g : ℕ → ℕ) (k b : ℕ) → b < k → agree k f g ≡ true → f b ≡ g b
unfolding agree
agree-eq f g zero b below e = absurd (omega arith)
agree-eq f g (suc k) b below e = ground (arith, agree-eq f g k b)

masks_low : agree 256 (λ b. bit_and b 0x7f) (λ b. b % 128) ≡ true
unfolding agree
masks_low = refl

masks_top : agree 256 (λ b. bit_and b 0x80) (λ b. b / 128 * 128) ≡ true
unfolding agree
masks_top = refl

sets_top : agree 128 (λ b. bit_or b 128) (λ b. b + 128) ≡ true
unfolding agree
sets_top = refl

pub low_bits : (b : ℕ) → b < 256 → bit_and b 0x7f ≡ b % 128
low_bits b h = agree-eq (λ n. bit_and n 0x7f) (λ n. n % 128) 256 b h masks_low

pub top_bit : (b : ℕ) → b < 256 → bit_and b 0x80 ≡ b / 128 * 128
top_bit b h = agree-eq (λ n. bit_and n 0x80) (λ n. n / 128 * 128) 256 b h masks_top

pub set_top_bit : (b : ℕ) → b < 128 → bit_or b 128 ≡ b + 128
set_top_bit b h = agree-eq (λ n. bit_or n 128) (λ n. n + 128) 128 b h sets_top
