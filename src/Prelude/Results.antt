-- ===== src/Prelude/Results.antt =====
-- `Result` of the Rust library, and the two directions of case conversion of `u8`.
use mathlib.Core.Path.{◌≡◌}
use mathlib.Core.Bool.{◌&&◌}
use Prim.Native.Nat.{ℕ, ◌+◌, ◌-◌}
use native.Mathlib.Omega.{arith}
use rtsp_rs.Prelude.Tests.{leb, if◌then◌else◌}

pub data Result {ℓ κ} (A : Type ℓ) (E : Type κ) : Type (ℓ ⊔ κ) where
  ok : A → Result A E
  err : E → Result A E

infixl 5 ◌>>=◌
abbrev pub ◌>>=◌ {ℓ κ μ} :
    {A : Type ℓ} {B : Type κ} {E : Type μ} → Result A E → (A → Result B E) → Result B E
ok a >>= f = f a
err e >>= f = err e

-- `u8::to_ascii_uppercase` and `u8::to_ascii_lowercase`.
unfoldable pub to_ascii_uppercase : ℕ → ℕ
to_ascii_uppercase c = if leb b'a' c && leb c b'z' then c - 32 else c

unfoldable pub to_ascii_lowercase : ℕ → ℕ
to_ascii_lowercase c = if leb b'A' c && leb c b'Z' then c + 32 else c

pub to_ascii_uppercase_idem :
    (c : ℕ) → to_ascii_uppercase (to_ascii_uppercase c) ≡ to_ascii_uppercase c
unfolding to_ascii_uppercase
to_ascii_uppercase_idem c = ground arith

pub to_ascii_lowercase-to_ascii_uppercase :
    (c : ℕ) → to_ascii_lowercase (to_ascii_uppercase c) ≡ to_ascii_lowercase c
unfolding to_ascii_uppercase to_ascii_lowercase
to_ascii_lowercase-to_ascii_uppercase c = ground arith

pub to_ascii_lowercase_idem :
    (c : ℕ) → to_ascii_lowercase (to_ascii_lowercase c) ≡ to_ascii_lowercase c
unfolding to_ascii_lowercase
to_ascii_lowercase_idem c = ground arith
