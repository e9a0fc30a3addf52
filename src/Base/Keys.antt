-- ===== src/Base/Keys.antt =====
-- Keys of the tables: what a Boolean test tells apart.
use Prim.Native.Nat.{ℕ}
use Prim.Native.String.{String}
use mathlib.Core.Path.{◌≡◌, refl}
use mathlib.Core.Logic.{◌↔◌}
use mathlib.Core.Bool.{Bool, true}
use text.Mathlib.Text.{◌==◌ as same_text}
use text.Mathlib.TextEquality.{eq_iff}
use levilamina_rust_loader.Base.Tests.{nat_beq, nat_beq_iff}

pub record Key {κ} (K : Type κ) : Type κ where
  pub same : K → K → Bool
  pub same_iff : (k j : K) → (same k j ≡ true) ↔ (k ≡ j)

-- The keys of the tables: tickets and addresses, and names.
instance abbrev pub string_eq : Key String
string_eq = record { same = same_text; same_iff = eq_iff }

instance abbrev pub nat_eq : Key ℕ
nat_eq = record { same = nat_beq; same_iff = nat_beq_iff }

module _ {κ} {K : Type κ} ⦃key : Key K⦄ where
  infix 50 ◌==◌
  abbrev pub ◌==◌ : K → K → Bool
  k == j = key.same k j

  pub eq_self : (k : K) → (k == k) ≡ true
  eq_self k = (key.same_iff k k).1 refl
