-- ===== src/Rules/Counted.antt =====
-- src/more_dimensions/dim/DimensionRules.cpp: what the table answers, and that its counts miss no rule.
use levilamina_rust_loader.Base.{
  ℕ, zero, suc, ◌+◌, ◌<◌, ◌≤◌, ◌≡◌, refl, Bool, true, false, ◌&&◌, Option, none, some, List,
  if◌then◌else◌, ◌==◌, nat_eq, arith, Bool-cases, Option-cases, inl, inr, ◌⊎◌, eq_self,
}
use levilamina_rust_loader.Base.Int.{
  ℤ, pos, int_eq, eqb_ℤ_iff, leb_ℤ, ltb_ℤ, pack_injective, IsInt32,
}
use levilamina_rust_loader.Base.Assoc.{find, find-put, find-erase, erase}
use levilamina_rust_loader.Rules.Table.{
  Rules, DimRule, rule_number, dim_rule_count, key, count_or_zero, any_rule_for, set_dimension_rule,
  get_dimension_rule, erase_rules, clear_dimension_rules,
}

pub rule_number-lt : (r : DimRule) → rule_number r < dim_rule_count
unfolding rule_number
rule_number-lt r = ground arith

pub key_beq :
    (d e : ℤ) (r s : ℤ)
    → IsInt32 d
    → IsInt32 e
    → IsInt32 r
    → IsInt32 s
    → (key d r == key e s) ≡ ((d == e) && (r == s))
unfolding key
key_beq d e r s hd he hr hs = ground (arith, pack_injective d r e s hd hr he hs)

same : (a b : ℤ) → (a ≡ b) ⊎ ((a == b) ≡ false)
same a b = elim (Bool-cases (a == b)) [ inl h ↦ inl ((eqb_ℤ_iff a b).0 h) | inr h ↦ inr h ]

rule_int : (r : DimRule) → IsInt32 (pos (rule_number r))
rule_int r = (omega (arith, rule_number-lt r), omega arith)

find-erase_rules :
    (d e : ℤ) (n r : ℕ) (s : ℤ) (m : List (ℕ × Bool))
    → IsInt32 d
    → IsInt32 e
    → IsInt32 s
    → r + n ≤ dim_rule_count
    → find (key e s) (erase_rules d n r m)
      ≡ (if (d == e) && leb_ℤ (pos r) s && ltb_ℤ s (pos (r + n)) then none else find (key e s) m)
unfolding erase_rules
find-erase_rules d e zero r s m hd he hs h = ground arith
find-erase_rules d e (suc n) r s m hd he hs h =
    rw
      (
        find-erase_rules d e n (r + 1) s (erase (key d (pos r)) m) hd he hs (omega arith),
        find-erase (key d (pos r)) (key e s) m,
        key_beq d e (pos r) s hd he (omega arith, omega arith) hs,
      )
      (ground arith)

get-set :
    (d e r s : ℤ) (allow : Bool) (t : Rules)
    → IsInt32 d
    → IsInt32 e
    → IsInt32 r
    → IsInt32 s
    → get_dimension_rule e s (set_dimension_rule d r allow t)
      ≡ (if (d == e) && (r == s) then some allow else get_dimension_rule e s t)
unfolding get_dimension_rule set_dimension_rule
get-set d e r s allow t hd he hr hs =
    ground (arith, find-put (key d r) (key e s) allow t.table, key_beq d e r s hd he hr hs)

get-clear :
    (d e s : ℤ) (t : Rules)
    → IsInt32 d
    → IsInt32 e
    → IsInt32 s
    → get_dimension_rule e s (clear_dimension_rules d t) ≡ (
        if (d == e) && leb_ℤ (pos 0) s && ltb_ℤ s (pos dim_rule_count)
        then none
        else get_dimension_rule e s t)
unfolding get_dimension_rule clear_dimension_rules
get-clear d e s t hd he hs = find-erase_rules d e dim_rule_count 0 s t.table hd he hs (omega arith)

-- For dimensions and rules of 32 bits: after a rule of a dimension is set, it reads as it was set, and
-- every other rule and dimension as before; after a dimension is cleared, its rules 0 to 12 are not
-- set, and every other one is as before.
pub get_after :
    (d e r s : ℤ) (allow : Bool) (t : Rules)
    → IsInt32 d
    → IsInt32 e
    → IsInt32 r
    → IsInt32 s
    → (get_dimension_rule e s (set_dimension_rule d r allow t)
        ≡ (if (d == e) && (r == s) then some allow else get_dimension_rule e s t))
      × (get_dimension_rule e s (clear_dimension_rules d t) ≡ (
          if (d == e) && leb_ℤ (pos 0) s && ltb_ℤ s (pos dim_rule_count)
          then none
          else get_dimension_rule e s t))
get_after d e r s allow t hd he hr hs =
    (get-set d e r s allow t hd he hr hs, get-clear d e s t hd he hs)

abbrev pub is_none : Option Bool → Bool
is_none none = true
is_none (some _) = false

pub any-set :
    (d e r : ℤ) (allow : Bool) (t : Rules)
    → any_rule_for e (set_dimension_rule d r allow t)
      ≡ (if is_none (get_dimension_rule d r t) && (d == e) then true else any_rule_for e t)
unfolding get_dimension_rule any_rule_for set_dimension_rule
any-set d e r allow t =
    ground (arith, find-put d e (count_or_zero (find d t.dim_counts) + 1) t.dim_counts)

pub any-clear :
    (d e : ℤ) (t : Rules)
    → any_rule_for e (clear_dimension_rules d t) ≡ (if d == e then false else any_rule_for e t)
unfolding any_rule_for clear_dimension_rules
any-clear d e t = ground (arith, find-erase d e t.dim_counts)

-- A dimension that is counted at 0 has no rule of the thirteen.
abbrev pub Counted : Rules → Type 0
Counted t =
    (d : ℤ) (r : DimRule) (allow : Bool)
    → IsInt32 d
    → get_dimension_rule d (pos (rule_number r)) t ≡ some allow
    → any_rule_for d t ≡ true

module _ (d : ℤ) (hd : IsInt32 d) where
  pub set-Counted :
      (r : ℤ) (allow : Bool) (t : Rules)
      → IsInt32 r
      → Counted t
      → Counted (set_dimension_rule d r allow t)
  set-Counted r allow t hr h e s b he g =
      elim (Option-cases (get_dimension_rule e (pos (rule_number s)) t)) [
        | inl o ↦ elim (same d e) [
          | inl i ↦ elim (same r (pos (rule_number s))) [
            | inl j ↦ rw (any-set d e r allow t, i, j, o, eq_self e) refl
            | inr j ↦
                let q = get-set d e r (pos (rule_number s)) allow t hd he hr (rule_int s) in
                absurd (ground (arith, q, j, g, o))
          ]
          | inr i ↦
              let q = get-set d e r (pos (rule_number s)) allow t hd he hr (rule_int s) in
              absurd (ground (arith, q, i, g, o))
        ]
        | inr (old, o) ↦ ground (arith, any-set d e r allow t, h e s old he o)
      ]

  pub clear-Counted : (t : Rules) → Counted t → Counted (clear_dimension_rules d t)
  clear-Counted t h e s b he g = ground (
    arith,
    any-clear d e t,
    get-clear d e (pos (rule_number s)) t hd he (rule_int s),
    rule_number-lt s,
    h e s b he,
  )
