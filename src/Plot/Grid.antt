-- ===== src/Plot/Grid.antt =====
-- The remainder and the division of the plot grid, which round down: `positiveMod` of
-- src/more_dimensions/include/plot/PlotLayout.h, and `positiveModLocal` and `floorDivLocal` of
-- src/more_dimensions/plot/PlotConfine.cpp. The divisor is above 0 wherever they are called.
use levilamina_rust_loader.Base.{
  ℕ, suc, ◌-◌, ◌*◌, ◌/◌, ◌%◌, ◌<◌, ◌≡◌, refl, ap, not, ◌&&◌, arith, if◌then◌else◌,
}
use native.Mathlib.Nat.{
  suc-mod, mod_self, mod-eq_of_lt, mod-lt, mod-add-div', div-eq_of_eq-mul_left, div-eq_of_lt-le,
}
use native.Mathlib.Numerals.{add-one}
use levilamina_rust_loader.Base.Int.{ℤ, pos, negsuc, ◌+ℤ◌, ◌-ℤ◌, ◌*ℤ◌, ◌/ℤ◌, ◌%ℤ◌, ltb_ℤ, eqb_ℤ}

unfoldable pub positive_mod : ℤ → ℕ → ℤ
unfolding ◌%ℤ◌ ◌+ℤ◌
positive_mod value modulus =
    let r = value %ℤ modulus in if ltb_ℤ r (pos 0) then r +ℤ pos modulus else r

-- `positiveModLocal`, a second copy of the same function.
unfoldable pub positive_mod_local : ℤ → ℕ → ℤ
unfolding ◌%ℤ◌ ◌+ℤ◌
positive_mod_local value modulus =
    let r = value %ℤ modulus in if ltb_ℤ r (pos 0) then r +ℤ pos modulus else r

pub positive_mod_local-eq : (v : ℤ) (d : ℕ) → positive_mod_local v d ≡ positive_mod v d
unfolding positive_mod_local positive_mod
positive_mod_local-eq v d = refl

-- `if ((value % divisor != 0) && ((value < 0) != (divisor < 0))) --q;` at a divisor above 0.
unfoldable pub floor_div : ℤ → ℕ → ℤ
unfolding ◌/ℤ◌ ◌%ℤ◌ ◌-ℤ◌
floor_div value divisor =
    let q = value /ℤ divisor in
    if not (eqb_ℤ (value %ℤ divisor) (pos 0)) && ltb_ℤ value (pos 0) then q -ℤ pos 1 else q

-- The remainder as a number.
pub floor_mod : ℤ → ℕ → ℕ
floor_mod (pos n) d = n % d
floor_mod (negsuc n) d = (d - 1) - n % d

pub floor_mod-lt : (v : ℤ) (d : ℕ) → 0 < d → floor_mod v d < d
unfolding floor_mod
floor_mod-lt (pos n) d h = omega arith
floor_mod-lt (negsuc n) d h = omega arith

suc_wraps : (n d : ℕ) → suc (n % d) ≡ d → suc n % d ≡ 0
suc_wraps n d h = omega (arith, suc-mod n d, ap (λ (t : ℕ). t % d) h, mod_self d)

suc_stays : (n d : ℕ) → suc (n % d) < d → suc n % d ≡ suc (n % d)
suc_stays n d h = omega (arith, suc-mod n d, mod-eq_of_lt h)

div_wraps : (n d : ℕ) → 0 < d → suc (n % d) ≡ d → suc n / d ≡ suc (n / d)
div_wraps n d h e =
    div-eq_of_eq-mul_left h
      (omega (arith, e, mod-add-div' n d, ap (λ (t : ℕ). t * d) (add-one (n / d))))

div_stays : (n d : ℕ) → suc (n % d) < d → suc n / d ≡ n / d
div_stays n d h =
    div-eq_of_lt-le d (omega (arith, mod-add-div' n d)) (grind (arith, mod-add-div' n d))

pub positive_mod-eq : (v : ℤ) (d : ℕ) → 0 < d → positive_mod v d ≡ pos (floor_mod v d)
unfolding positive_mod floor_mod
positive_mod-eq (pos n) d h = ground arith
positive_mod-eq (negsuc n) d h = ground (arith, mod-lt n h, suc_wraps n d, suc_stays n d)

-- The quotient rounded down.
pub floor_quot : ℤ → ℕ → ℤ
floor_quot (pos n) d = pos (n / d)
floor_quot (negsuc n) d = negsuc (n / d)

pub floor_div-eq : (v : ℤ) (d : ℕ) → 0 < d → floor_div v d ≡ floor_quot v d
unfolding floor_div floor_quot
floor_div-eq (pos n) d h = ground arith
floor_div-eq (negsuc n) d h =
    ground (arith, mod-lt n h, suc_wraps n d, suc_stays n d, div_wraps n d h, div_stays n d)

-- For a divisor above 0, every integer is its quotient times d plus a remainder from 0 to d - 1,
-- both rounded down.
pub floor_parts :
    (v : ℤ) (d : ℕ)
    → 0 < d
    → (floor_div v d *ℤ pos d +ℤ positive_mod v d ≡ v)
      × (floor_mod v d < d)
      × (positive_mod v d ≡ pos (floor_mod v d))
floor_parts (pos n) d h =
    rw (floor_div-eq (pos n) d h, positive_mod-eq (pos n) d h)
      (
        unfold floor_quot floor_mod ◌*ℤ◌ ◌+ℤ◌ in ground (arith, mod-add-div' n d),
        floor_mod-lt (pos n) d h,
        refl,
      )
floor_parts (negsuc n) d h =
    rw (floor_div-eq (negsuc n) d h, positive_mod-eq (negsuc n) d h)
      (
        unfold floor_quot floor_mod ◌*ℤ◌ ◌+ℤ◌ in
            ground (arith, mod-add-div' n d, mod-lt n h, ap (λ (t : ℕ). t * d) (add-one (n / d))),
        floor_mod-lt (negsuc n) d h,
        refl,
      )
