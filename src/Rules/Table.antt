-- ===== src/Rules/Table.antt =====
-- src/more_dimensions/dim/DimensionRules.cpp: the rules of each dimension, and the count by which the
-- hooks tell that a dimension has none.
use levilamina_rust_loader.Base.{
  ℕ, zero, suc, ◌+◌, Bool, true, Option, none, some, List, [], ltb, nat_eq,
}
use levilamina_rust_loader.Base.Int.{ℤ, pos, negsuc, int_eq, pack}
use levilamina_rust_loader.Base.Assoc.{find, put, erase}

-- DimRule
pub data DimRule : Type 0 where
  spawn_monster spawn_animal spawn_spawner explode_blocks fire_spread mob_griefing projectile
        piston_push liquid_flow farmland_decay ride piston_cross_plot entity_cross_plot :
      DimRule

unfoldable pub rule_number : DimRule → ℕ
rule_number spawn_monster = 0
rule_number spawn_animal = 1
rule_number spawn_spawner = 2
rule_number explode_blocks = 3
rule_number fire_spread = 4
rule_number mob_griefing = 5
rule_number projectile = 6
rule_number piston_push = 7
rule_number liquid_flow = 8
rule_number farmland_decay = 9
rule_number ride = 10
rule_number piston_cross_plot = 11
rule_number entity_cross_plot = 12

abbrev pub dim_rule_count : ℕ
dim_rule_count = 13

-- `rules()` and `dimCounts()`.
pub record Rules : Type 0 where
  pub table : List (ℕ × Bool)
  pub dim_counts : List (ℤ × ℕ)

unfoldable pub no_rules : Rules
no_rules = record { table = []; dim_counts = [] }

-- `key`
unfoldable pub key : ℤ → ℤ → ℕ
key dimension rule = pack dimension rule

-- What `dimCounts()[d]` reads: a key that is missing has 0.
abbrev pub count_or_zero : Option ℕ → ℕ
count_or_zero none = 0
count_or_zero (some n) = n

-- `anyRuleFor`
unfoldable pub any_rule_for : ℤ → Rules → Bool
any_rule_for dimension t = ltb 0 (count_or_zero (find dimension t.dim_counts))

-- `setDimensionRule`: a rule is counted when it is inserted, and not when it is assigned again.
unfoldable pub set_dimension_rule : ℤ → ℤ → Bool → Rules → Rules
set_dimension_rule dimension rule allow t =
    let k = key dimension rule in
    let table = put k allow t.table in
    elim (find k t.table) [
      | none ↦
          let n = count_or_zero (find dimension t.dim_counts) in
          record { table = table; dim_counts = put dimension (n + 1) t.dim_counts }
      | some _ ↦ record { table = table; dim_counts = t.dim_counts }
    ]

-- `getDimensionRule`
unfoldable pub get_dimension_rule : ℤ → ℤ → Rules → Option Bool
get_dimension_rule dimension rule t = find (key dimension rule) t.table

-- `for (int r = 0; r < kDimRuleCount; ++r)`, n rounds from r.
unfoldable pub erase_rules : ℤ → ℕ → ℕ → List (ℕ × Bool) → List (ℕ × Bool)
erase_rules dimension zero r m = m
erase_rules dimension (suc n) r m =
    erase_rules dimension n (r + 1) (erase (key dimension (pos r)) m)

-- `clearDimensionRules`
unfoldable pub clear_dimension_rules : ℤ → Rules → Rules
clear_dimension_rules dimension t = record {
  table = erase_rules dimension dim_rule_count 0 t.table;
  dim_counts = erase dimension t.dim_counts;
}

-- `allowed`, with its default of true.
unfoldable pub allowed : ℤ → DimRule → Rules → Bool
allowed dimension rule t = elim (get_dimension_rule dimension (pos (rule_number rule)) t) [
  | none ↦ true
  | some allow ↦ allow
]

-- `dimOf`, on the region's dimension or on nothing where reading it threw.
abbrev pub dim_of : Option ℤ → ℤ
dim_of none = negsuc 0
dim_of (some d) = d
