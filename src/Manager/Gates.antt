-- ===== src/Manager/Gates.antt =====
-- src/core/RustModManager.cpp: which mods are let in, and what is left of one that is not.
use levilamina_rust_loader.Base.{
  ℕ, ◌≤◌, ◌≡◌, refl, String, true, false, Option, none, some, List, [], ◌∷◌, arith, Bool-cases, inl,
  inr, nat_eq,
}
use levilamina_rust_loader.Manager.Mods.{
  ModVtable, Loader, Dylib, LoadResult, loaded, cannot_open, no_main, main_failed, wrong_target,
  too_new, too_old, not_enabled, gate, target_of, abi_of, without, among, is_mapped, free, add_mod,
  admit, after_main, load,
}

gate_lem :
    (tagged : ℕ)
    → gate tagged ≡ loaded
    → (target_of tagged ≡ 0) × (1 ≤ abi_of tagged) × (abi_of tagged ≤ 5)
unfolding gate
gate_lem tagged h = ground arith

pub among-without : (a : ℕ) (xs : List ℕ) → among a (without a xs) ≡ false
among-without a [] = refl
among-without a (b ∷ xs) = ground (arith, among-without a xs)

-- A mod that was let in: its library opens and exports the entry, the entry answered a table whose
-- version has the server's target and lies from 1 to 5, and the mod is entered under its name.
pub record Admitted (dylib : ℕ → Dylib) (address : ℕ) (name : String) (s t : Loader) : Type 0 where
  pub opened : (dylib address).opens ≡ true
  pub exported : (dylib address).exports_main ≡ true
  pub vtable : ModVtable
  pub filled : Loader
  pub answered :
      (dylib address).main (record s { mapped = address ∷ s.mapped }) ≡ (some vtable, filled)
  pub for_server : target_of vtable.abi_version ≡ 0
  pub new_enough : 1 ≤ abi_of vtable.abi_version
  pub old_enough : abi_of vtable.abi_version ≤ 5
  pub entered : t ≡ add_mod name address vtable filled

-- Any other answer leaves the library unmapped, where it was not mapped before.
abbrev pub LoadOutcome : (ℕ → Dylib) → ℕ → String → Loader → LoadResult × Loader → Type 0
LoadOutcome dylib address name s (loaded, t) = Admitted dylib address name s t
LoadOutcome dylib address name s (_, t) = is_mapped address t ≡ false

free_unmaps : (address : ℕ) (s : Loader) → is_mapped address (free true address s) ≡ false
unfolding free
free_unmaps address s = among-without address s.mapped

module _ (dylib : ℕ → Dylib) (address : ℕ) (name : String) (s : Loader)
    (closes : (dylib address).closes ≡ true) (opens : (dylib address).opens ≡ true)
    (exports : (dylib address).exports_main ≡ true) where
  abbrev prepared : Loader
  prepared = record s { mapped = address ∷ s.mapped }

  admit-outcome :
      (vtable : ModVtable) (filled : Loader)
      → (dylib address).main prepared ≡ (some vtable, filled)
      → (r : LoadResult) → gate vtable.abi_version ≡ r
      → LoadOutcome dylib address name s (admit (dylib address).closes name address vtable r filled)
  unfolding admit
  admit-outcome vtable filled m loaded g =
      let (target, low, high) = gate_lem vtable.abi_version g in
      record {
        opened = opens;
        exported = exports;
        vtable = vtable;
        filled = filled;
        answered = m;
        for_server = target;
        new_enough = low;
        old_enough = high;
        entered = refl;
      }
  admit-outcome vtable filled m cannot_open g = rw closes (free_unmaps address filled)
  admit-outcome vtable filled m no_main g = rw closes (free_unmaps address filled)
  admit-outcome vtable filled m main_failed g = rw closes (free_unmaps address filled)
  admit-outcome vtable filled m wrong_target g = rw closes (free_unmaps address filled)
  admit-outcome vtable filled m too_new g = rw closes (free_unmaps address filled)
  admit-outcome vtable filled m too_old g = rw closes (free_unmaps address filled)
  admit-outcome vtable filled m not_enabled g = rw closes (free_unmaps address filled)

  main-outcome :
      (o : Option ModVtable × Loader)
      → (dylib address).main prepared ≡ o
      → LoadOutcome dylib address name s (after_main (dylib address).closes name address o)
  unfolding after_main
  main-outcome (none, filled) m = rw closes (free_unmaps address filled)
  main-outcome (some vtable, filled) m =
      admit-outcome vtable filled m (gate vtable.abi_version) refl

-- Loading a library that can be freed and that was not mapped before: a mod is let in only with a
-- library that opens and exports the entry, whose table has the server's target and a version from 1
-- to 5, and then it stands under its name; any other answer leaves the library unmapped.
pub load-outcome :
    (dylib : ℕ → Dylib) (address : ℕ) (name : String) (s : Loader)
    → (dylib address).closes ≡ true
    → is_mapped address s ≡ false
    → LoadOutcome dylib address name s (load dylib address name s)
unfolding load
load-outcome dylib address name s closes fresh = elim (Bool-cases (dylib address).opens) [
  | inr e ↦ rw e fresh
  | inl e ↦ elim (Bool-cases (dylib address).exports_main) [
    | inr f ↦ rw (e, f, closes) (free_unmaps address (record s { mapped = address ∷ s.mapped }))
    | inl f ↦
        rw (e, f)
          (main-outcome dylib address name s closes e f
            ((dylib address).main (record s { mapped = address ∷ s.mapped })) refl)
  ]
]
