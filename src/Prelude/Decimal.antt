-- ===== src/Prelude/Decimal.antt =====
-- `%d` of a number that is not negative, and how wide it is.
use Prim.Native.Nat.{ℕ, zero, suc, ◌+◌, ◌*◌, ◌/◌, ◌%◌, ◌≤◌, ◌<◌}
use mathlib.Core.Path.{◌≡◌}
use mathlib.Core.List.{[], ◌∷◌}
use native.Mathlib.Omega.{arith}
use agentmemory.Prelude.Tests.{ltb, if◌then◌else◌}
use agentmemory.Prelude.Lists.{length}
use agentmemory.Prelude.Strings.{Bytes}

-- The digits of `n` in front of `out`, with fuel for one round per digit.
decimal_from : ℕ → ℕ → Bytes → Bytes
decimal_from zero n out = out
decimal_from (suc f) n out =
    let rest = decimal_from f (n / 10) ((b'0' + n % 10) ∷ out) in
    if ltb n 10 then (b'0' + n % 10) ∷ out else rest

-- `n + 1` rounds are enough: a number has no more digits than that.
unfoldable pub decimal : ℕ → Bytes
unfolding decimal_from
decimal n = decimal_from (suc n) n []

width_from : ℕ → ℕ → ℕ
width_from zero n = 0
width_from (suc f) n = let rest = width_from f (n / 10) in if ltb n 10 then 1 else 1 + rest

-- The number of digits.
unfoldable pub width : ℕ → ℕ
unfolding width_from
width n = width_from (suc n) n

length-decimal_from :
    (f n : ℕ) (out : Bytes) → length (decimal_from f n out) ≡ width_from f n + length out
unfolding decimal_from width_from
length-decimal_from zero n out = omega arith
length-decimal_from (suc f) n out =
    ground (arith, length-decimal_from f (n / 10) ((b'0' + n % 10) ∷ out))

pub length-decimal : (n : ℕ) → length (decimal n) ≡ width n
unfolding decimal width
length-decimal n = omega (arith, length-decimal_from (suc n) n [])

width_from_mono : (f g n m : ℕ) → n < f → m < g → n ≤ m → width_from f n ≤ width_from g m
unfolding width_from
width_from_mono zero g n m hf hg h = absurd (omega arith)
width_from_mono (suc f) zero n m hf hg h = absurd (omega arith)
width_from_mono (suc f) (suc g) n m hf hg h = ground (arith, width_from_mono f g (n / 10) (m / 10))

pub width_mono : (n m : ℕ) → n ≤ m → width n ≤ width m
unfolding width
width_mono n m h = width_from_mono (suc n) (suc m) n m (omega arith) (omega arith) h

width_from_pos : (n : ℕ) → 0 < width_from (suc n) n
unfolding width_from
width_from_pos n = ground arith

pub width_pos : (n : ℕ) → 0 < width n
unfolding width
width_pos n = width_from_pos n

-- A digit more covers ten times as much.
pub width_tenth : (n m : ℕ) → n ≤ 10 * m → width n ≤ width m + 1
unfolding width width_from
width_tenth n m h = ground (arith, width_from_mono n (suc m) (n / 10) m, width_from_pos m)

width_from_le : (f n : ℕ) → width_from f n ≤ n + 1
unfolding width_from
width_from_le zero n = omega arith
width_from_le (suc f) n = ground (arith, width_from_le f (n / 10))

pub width-le : (n : ℕ) → width n ≤ n + 1
unfolding width
width-le n = width_from_le (suc n) n
