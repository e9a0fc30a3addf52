-- ===== src/ModControl/Graph.antt =====
-- src/core/ModControl.cpp: `dependentsOf`, the closure under reverse dependencies and its order.
use levilamina_rust_loader.Base.{
  ℕ, zero, suc, String, not, Option, none, some, List, [], ◌∷◌, ◌++◌, if◌then◌else◌, ◌==◌,
  string_eq, length,
}
use levilamina_rust_loader.Base.Int.{ℤ, pos, ◌+ℤ◌, ◌-ℤ◌, eqb_ℤ}
use levilamina_rust_loader.Base.Assoc.{find, put, keys_where}
use levilamina_rust_loader.ModControl.Names.{has, sort_names, reversed}

-- The loaded mods, each with the names that its manifest lists as dependencies.
abbrev pub Deps : Type 0
Deps = List (String × List String)

-- `deps[m]`, empty where there is no entry.
unfoldable pub list_of : String → Deps → List String
list_of m deps = elim (find m deps) [ none ↦ [] | some l ↦ l ]

-- `dependedBy[d].push_back(mod)` for each dependency of one mod.
unfoldable pub add_edges : String → List String → Deps → Deps
add_edges m [] by = by
add_edges m (d ∷ ds) by = add_edges m ds (put d (list_of d by ++ m ∷ []) by)

-- The reverse edges: from a dependency to those that depend on it.
unfoldable pub reverse_edges : Deps → Deps → Deps
reverse_edges [] by = by
reverse_edges ((m, ds) ∷ rest) by = reverse_edges rest (add_edges m ds by)

pub record Search : Type 0 where
  pub affected : List String
  pub queue : List String

-- The loop over those that depend on the name at hand.
unfoldable pub visit : String → List String → Search → Search
visit target [] s = s
visit target (dep ∷ deps) s = visit target deps (
    if dep == target
    then s
    else if has dep s.affected
    then s
    else record { affected = dep ∷ s.affected; queue = s.queue ++ dep ∷ [] })

-- `while (!queue.empty())`, with fuel for the rounds; none where it runs out.
unfoldable pub close : Deps → String → ℕ → Search → Option (List String)
close by target zero s = elim s.queue [ [] ↦ some s.affected | cur ∷ rest ↦ none ]
close by target (suc fuel) s = elim s.queue [
  | [] ↦ some s.affected
  | cur ∷ rest ↦ close by target fuel (visit target (list_of cur by) (record s { queue = rest }))
]

-- How many affected mods depend on a name, an int; 0 where there is no entry.
abbrev pub Counts : Type 0
Counts = List (String × ℤ)

unfoldable pub get_count : String → Counts → ℤ
get_count d m = elim (find d m) [ none ↦ pos 0 | some n ↦ n ]

-- `for (m : affected) indeg[m] = 0;`
unfoldable pub zero_counts : List String → Counts
zero_counts [] = []
zero_counts (m ∷ ms) = put m (pos 0) (zero_counts ms)

unfoldable pub count_edges : List String → List String → Counts → Counts
count_edges affected [] m = m
count_edges affected (d ∷ ds) m =
    count_edges affected ds (if has d affected then put d (get_count d m +ℤ pos 1) m else m)

-- `for (m : affected) for (d : deps[m]) if (affected.count(d)) indeg[d]++;`
unfoldable pub count_all : Deps → List String → List String → Counts → Counts
count_all deps affected [] c = c
count_all deps affected (m ∷ ms) c =
    count_all deps affected ms (count_edges affected (list_of m deps) c)

-- `ready` is a stack, its top first; `emitted` is `ordered`, the latest first.
pub record Kahn : Type 0 where
  pub indeg : Counts
  pub ready : List String
  pub emitted : List String

-- The names without a dependent; the vector is sorted, and taken from its end.
unfoldable pub start_kahn : Deps → List String → Kahn
start_kahn deps affected =
    let indeg = count_all deps affected affected (zero_counts affected) in
    record {
      indeg = indeg;
      ready = reversed (sort_names (keys_where (λ n. eqb_ℤ n (pos 0)) indeg));
      emitted = [];
    }

-- The loop over the dependencies of a name that was emitted.
unfoldable pub release : List String → List String → Kahn → Kahn
release affected [] s = s
release affected (d ∷ ds) s = release affected ds (
    if not (has d affected)
    then s
    else (let n = get_count d s.indeg -ℤ pos 1 in
        let t = record s { indeg = put d n s.indeg } in
        if eqb_ℤ n (pos 0) then record t { ready = d ∷ t.ready } else t))

unfoldable pub emit : Deps → List String → String → List String → Kahn → Kahn
emit deps affected cur rest s =
    release affected (list_of cur deps) (record s { ready = rest; emitted = cur ∷ s.emitted })

-- `while (!ready.empty())`, with fuel for the rounds; none where it runs out.
unfoldable pub order_loop : Deps → List String → ℕ → Kahn → Option (List String)
order_loop deps affected zero s = elim s.ready [ [] ↦ some s.emitted | cur ∷ rest ↦ none ]
order_loop deps affected (suc fuel) s = elim s.ready [
  | [] ↦ some s.emitted
  | cur ∷ rest ↦ order_loop deps affected fuel (emit deps affected cur rest s)
]

-- What a cycle left over is appended.
unfoldable pub append_missing : List String → List String → List String
append_missing [] ordered = ordered
append_missing (m ∷ ms) ordered =
    append_missing ms (if has m ordered then ordered else ordered ++ m ∷ [])

unfoldable pub order_of : Deps → List String → Option (List String)
order_of deps affected =
    elim (order_loop deps affected (length affected) (start_kahn deps affected)) [
      | none ↦ none
      | some emitted ↦ some (append_missing affected (reversed emitted))
    ]

unfoldable pub affected_by : Deps → String → Option (List String)
affected_by deps target =
    close (reverse_edges deps []) target (suc (length deps))
      (record { affected = []; queue = target ∷ [] })

-- `dependentsOf`, on what `loadedDependencyMap` answers.
unfoldable pub dependents_of : Deps → String → Option (List String)
dependents_of deps name = elim (affected_by deps name) [
  | none ↦ none
  | some affected ↦ order_of deps affected
]
