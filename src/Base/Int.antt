-- ===== src/Base/Int.antt =====
-- Signed integers over the native numbers, and the division and remainder of C++ on them, which
-- round towards zero. The program's `int` values are far from the ends of their type.
use Prim.Native.Nat.{ℕ, suc, ◌+◌, ◌-◌, ◌*◌, ◌/◌, ◌%◌, ◌≤◌, ◌<◌, ◌^◌}
use mathlib.Core.Path.{◌≡◌}
use mathlib.Core.Bool.{Bool, true}
use mathlib.Core.Logic.{◌↔◌}
use levilamina_rust_loader.Base.Keys.{Key}
use native.Mathlib.Omega.{arith}
use levilamina_rust_loader.Base.Tests.{ltb, leb, nat_beq, if◌then◌else◌}

-- `negsuc n` is -(n + 1).
pub data ℤ : Type 0 where
  pos : ℕ → ℤ
  negsuc : ℕ → ℤ

abbrev pub pos_part : ℤ → ℕ
pos_part (pos n) = n
pos_part (negsuc n) = 0

abbrev pub neg_part : ℤ → ℕ
neg_part (pos n) = 0
neg_part (negsuc n) = suc n

-- a - b, as an integer.
abbrev pub sub_ℕ : ℕ → ℕ → ℤ
sub_ℕ a b = if leb b a then pos (a - b) else negsuc (b - a - 1)

infixl 65 ◌+ℤ◌ ◌-ℤ◌
infixl 70 ◌*ℤ◌ ◌/ℤ◌ ◌%ℤ◌
infix 50 ◌≤ℤ◌ ◌<ℤ◌
unfoldable pub ◌+ℤ◌ : ℤ → ℤ → ℤ
a +ℤ b = sub_ℕ (pos_part a + pos_part b) (neg_part a + neg_part b)

unfoldable pub ◌-ℤ◌ : ℤ → ℤ → ℤ
a -ℤ b = sub_ℕ (pos_part a + neg_part b) (neg_part a + pos_part b)

unfoldable pub ◌*ℤ◌ : ℤ → ℤ → ℤ
a *ℤ b =
    sub_ℕ (pos_part a * pos_part b + neg_part a * neg_part b)
      (pos_part a * neg_part b + neg_part a * pos_part b)

abbrev pub ◌≤ℤ◌ : ℤ → ℤ → Type 0
a ≤ℤ b = pos_part a + neg_part b ≤ pos_part b + neg_part a

abbrev pub ◌<ℤ◌ : ℤ → ℤ → Type 0
a <ℤ b = pos_part a + neg_part b < pos_part b + neg_part a

abbrev pub ltb_ℤ : ℤ → ℤ → Bool
ltb_ℤ a b = ltb (pos_part a + neg_part b) (pos_part b + neg_part a)

abbrev pub leb_ℤ : ℤ → ℤ → Bool
leb_ℤ a b = leb (pos_part a + neg_part b) (pos_part b + neg_part a)

abbrev pub eqb_ℤ : ℤ → ℤ → Bool
eqb_ℤ a b = nat_beq (pos_part a + neg_part b) (pos_part b + neg_part a)

-- C++ `a / b` and `a % b` at a divisor above 0: the remainder has the sign of the dividend.
unfoldable pub ◌/ℤ◌ : ℤ → ℕ → ℤ
pos n /ℤ d = pos (n / d)
negsuc n /ℤ d = sub_ℕ 0 (suc n / d)

unfoldable pub ◌%ℤ◌ : ℤ → ℕ → ℤ
pos n %ℤ d = pos (n % d)
negsuc n %ℤ d = sub_ℕ 0 (suc n % d)

-- One lemma for each operation lets `omega` work with the operations shut.
pub +ℤ_parts :
    (a b : ℤ)
    → pos_part (a +ℤ b) + neg_part a + neg_part b ≡ neg_part (a +ℤ b) + pos_part a + pos_part b
unfolding ◌+ℤ◌
+ℤ_parts a b = ground arith

pub -ℤ_parts :
    (a b : ℤ)
    → pos_part (a -ℤ b) + neg_part a + pos_part b ≡ neg_part (a -ℤ b) + pos_part a + neg_part b
unfolding ◌-ℤ◌
-ℤ_parts a b = ground arith

pub eq_of_parts : (a b : ℤ) → pos_part a + neg_part b ≡ pos_part b + neg_part a → a ≡ b
eq_of_parts a b h = ground arith

pub parts_disjoint : (a : ℤ) → pos_part a * neg_part a ≡ 0
parts_disjoint a = ground arith

pub ruleset int_laws = (arith, +ℤ_parts, -ℤ_parts, eq_of_parts)

pub eqb_ℤ_iff : (a b : ℤ) → (eqb_ℤ a b ≡ true) ↔ (a ≡ b)
eqb_ℤ_iff (pos a) (pos b) = ground arith
eqb_ℤ_iff (pos a) (negsuc b) = ground arith
eqb_ℤ_iff (negsuc a) (pos b) = ground arith
eqb_ℤ_iff (negsuc a) (negsuc b) = ground arith

instance abbrev pub int_eq : Key ℤ
int_eq = record { same = eqb_ℤ; same_iff = eqb_ℤ_iff }

-- What an int32_t holds.
abbrev pub IsInt32 : ℤ → Type 0
IsInt32 a = (pos_part a < 2 ^ 31) × (neg_part a ≤ 2 ^ 31)

-- `static_cast<uint32_t>`
abbrev pub word32 : ℤ → ℕ
word32 (pos n) = n % 2 ^ 32
word32 (negsuc n) = 2 ^ 32 - 1 - n % 2 ^ 32

-- `(static_cast<uint64_t>(static_cast<uint32_t>(a)) << 32) | static_cast<uint32_t>(b)`, whose two
-- halves share no bit.
unfoldable pub pack : ℤ → ℤ → ℕ
pack a b = word32 a * 2 ^ 32 + word32 b

pub word32_injective : (a b : ℤ) → IsInt32 a → IsInt32 b → word32 a ≡ word32 b → a ≡ b
word32_injective (pos a) (pos b) h k e = ground arith
word32_injective (pos a) (negsuc b) h k e = absurd (omega arith)
word32_injective (negsuc a) (pos b) h k e = absurd (omega arith)
word32_injective (negsuc a) (negsuc b) h k e = ground arith

word32-lt : (a : ℤ) → word32 a < 2 ^ 32
word32-lt (pos n) = omega arith
word32-lt (negsuc n) = omega arith

-- Two pairs of ints have one key only if they are the same.
pub pack_injective :
    (a b c d : ℤ)
    → IsInt32 a
    → IsInt32 b
    → IsInt32 c
    → IsInt32 d
    → pack a b ≡ pack c d
    → (a ≡ c) × (b ≡ d)
unfolding pack
pack_injective a b c d ha hb hc hd e = (
  word32_injective a c ha hc (omega (arith, word32-lt a, word32-lt b, word32-lt c, word32-lt d)),
  word32_injective b d hb hd (omega (arith, word32-lt a, word32-lt b, word32-lt c, word32-lt d)),
)

-- A word as the int32_t it is cast to.
abbrev pub wrap_word : ℕ → ℤ
wrap_word n = if ltb n (2 ^ 31) then pos n else negsuc (2 ^ 32 - 1 - n)

pub wrap_word-IsInt32 : (n : ℕ) → IsInt32 (wrap_word (n % 2 ^ 32))
wrap_word-IsInt32 n = (ground arith, ground arith)

pub wrap_word-word32 : (a : ℤ) → IsInt32 a → wrap_word (word32 a) ≡ a
wrap_word-word32 (pos n) h = ground arith
wrap_word-word32 (negsuc n) h = ground arith

pub pack_parts :
    (a b : ℤ) → (pack a b / 2 ^ 32 % 2 ^ 32 ≡ word32 a) × (pack a b % 2 ^ 32 ≡ word32 b)
unfolding pack
pack_parts a b = (omega (arith, word32-lt a, word32-lt b), omega (arith, word32-lt a, word32-lt b))
