-- ===== src/ModControl/Unload.antt =====
-- src/core/ModControl.cpp: `/llr unload`, and the part of it that a reload shares.
use levilamina_rust_loader.Base.{
  String, Bool, true, false, not, ◌&&◌, Option, none, some, List, [], ◌∷◌, ◌++◌, if◌then◌else◌,
  nat_eq, string_eq,
}
use levilamina_rust_loader.Base.Assoc.{put}
use levilamina_rust_loader.Manager.Mods.{UnloadResult, unloaded}
use levilamina_rust_loader.Manager.Control.{control_unload}
use levilamina_rust_loader.ModControl.Graph.{dependents_of}
use levilamina_rust_loader.ModControl.Console.{
  not_loaded, done_unload, hint_swap, has_dependents, foreign_dependents, unload_failed,
  partly_unloaded, Host, Console, say, has_mod, is_rust_mod, loaded_dependency_map, module_base,
}

-- The dependents that are not ours.
unfoldable pub foreign_of : Console → List String → List String
foreign_of c [] = []
foreign_of c (d ∷ ds) = let rest = foreign_of c ds in if is_rust_mod d c then rest else d ∷ rest

abbrev pub is_nil : List String → Bool
is_nil [] = true
is_nil (x ∷ xs) = false

module _ (host : Host) where
  -- The answer of `doUnload`, with the names that it took out, in their order; none where the fuel of
  -- the dependency search runs out.
  abbrev pub Unloading : Type 0
  Unloading = (Bool × List String) × Console

  -- One mod of the loop: its base address is remembered, and it is unloaded.
  unfoldable pub unload_one : String → Console → UnloadResult × Console
  unload_one m c =
      let (r, s) = control_unload host.dylib host.enable host.disable m c.loader in
      (r, record c { loader = s; last_base = put m (module_base host m c) c.last_base })

  -- The loop of `doUnload`: it stops at the first mod that cannot be unloaded.
  abbrev pub after_one : Unloading → String → List String → UnloadResult → Console → Unloading
  after_one went_on m out unloaded c = went_on
  after_one went_on m out bad c = ((false, out), say partly_unloaded (say (unload_failed m bad) c))

  unfoldable pub unload_all : List String → List String → Console → Unloading
  unload_all [] out c = ((true, out), c)
  unload_all (m ∷ ms) out c =
      let (r, d) = unload_one m c in
      let skipped = unload_all ms out c in
      let went_on = unload_all ms (out ++ m ∷ []) (say (done_unload m) d) in
      if not (has_mod m c.loader) then skipped else after_one went_on m out r d

  -- `doUnload` from where the dependents are known.
  unfoldable pub unload_with : String → Bool → List String → Console → Unloading
  unfolding unload_all foreign_of
  unload_with name cascade dependents c =
      if not (is_nil dependents) && not cascade
      then ((false, []), say (has_dependents name dependents) c)
      else if not (is_nil (foreign_of c dependents))
      then ((false, []), say (foreign_dependents (foreign_of c dependents)) c)
      else unload_all (dependents ++ name ∷ []) [] c

  -- `doUnload`
  unfoldable pub do_unload : String → Bool → Console → Option Unloading
  unfolding unload_with loaded_dependency_map
  do_unload name cascade c =
      if not (is_rust_mod name c)
      then some ((false, []), say (not_loaded name) c)
      else elim (dependents_of (loaded_dependency_map host c) name) [
        | none ↦ none
        | some dependents ↦ some (unload_with name cascade dependents c)
      ]

  abbrev pub hint_after : String → Unloading → Console
  hint_after name ((true, out), c) = say (hint_swap name) c
  hint_after name ((false, out), c) = c

  -- `cmdUnload`
  unfoldable pub cmd_unload : String → Bool → Console → Option Console
  unfolding do_unload
  cmd_unload name cascade c = elim (do_unload name cascade c) [
    | none ↦ none
    | some u ↦ some (hint_after name u)
  ]
