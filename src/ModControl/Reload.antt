-- ===== src/ModControl/Reload.antt =====
-- src/core/ModControl.cpp: `/llr reload`: down in one order, up in the reverse.
use levilamina_rust_loader.Base.{
  String, Bool, true, false, not, Option, none, some, List, [], ◌∷◌, if◌then◌else◌, nat_eq,
  string_eq,
}
use levilamina_rust_loader.Base.Assoc.{erase}
use levilamina_rust_loader.Manager.Mods.{LoadResult, loaded}
use levilamina_rust_loader.ModControl.Names.{reversed}
use levilamina_rust_loader.ModControl.Graph.{dependents_of}
use levilamina_rust_loader.ModControl.Manifest.{
  Candidate, Read, candidate, missing, refused, read_candidate,
}
use levilamina_rust_loader.ModControl.Console.{
  not_loaded, done_reload, no_manifest, not_reload_safe, reload_rules, bad_manifest, undeserialized,
  reload_failed, cascade_not_safe, left_unloaded, reloaded_all, Host, Console, say, is_rust_mod,
  loaded_dependency_map, read_manifest, load_manifest,
}
use levilamina_rust_loader.ModControl.Unload.{Unloading, do_unload}

module _ (host : Host) where
  -- Whether a mod's manifest declares that it may be reloaded.
  abbrev pub is_reload_safe : String → Bool
  is_reload_safe name = elim (read_candidate (host.disk name) name) [
    | candidate cand ↦ cand.reload_safe
    | _ ↦ false
  ]

  -- The first of our dependents that may not be reloaded.
  unfoldable pub first_unsafe : Console → List String → Option String
  first_unsafe c [] = none
  first_unsafe c (dep ∷ deps) =
      let rest = first_unsafe c deps in
      if not (is_rust_mod dep c) then rest else if is_reload_safe dep then rest else some dep

  -- The loop that brings the mods up again; it stops at the first that does not load.
  abbrev pub after_reload : Bool × Console → String → LoadResult → Console → Bool × Console
  after_reload went_on m loaded c = went_on
  after_reload went_on m bad c = (false, say (left_unloaded m) (say (reload_failed m bad) c))

  unfoldable pub reload_all : List String → Console → Bool × Console
  reload_all [] c = (true, c)
  reload_all (m ∷ ms) c = elim (read_manifest host m) [
    | none ↦ (false, say (undeserialized m) c)
    | some manifest ↦
        let (r, d) = load_manifest host manifest c in
        after_reload
          (reload_all ms (say (done_reload m) (record d { last_base = erase m d.last_base }))) m r d
  ]

  abbrev pub say_reloaded : String → Bool × Console → Console
  say_reloaded name (true, c) = say (reloaded_all name) c
  say_reloaded name (false, c) = c

  unfoldable pub bring_back : String → Unloading host → Console
  unfolding reload_all
  bring_back name ((false, out), c) = c
  bring_back name ((true, out), c) = say_reloaded name (reload_all (reversed out) c)

  unfoldable pub reload_unloaded : String → Bool → Console → Option Console
  unfolding bring_back
  reload_unloaded name cascade c = elim (do_unload host name cascade c) [
    | none ↦ none
    | some u ↦ some (bring_back name u)
  ]

  -- The check of the dependents, which a cascade reloads too.
  unfoldable pub check_cascade : String → Console → Option (Option String)
  unfolding first_unsafe
  check_cascade name c = elim (dependents_of (loaded_dependency_map host c) name) [
    | none ↦ none
    | some dependents ↦ some (first_unsafe c dependents)
  ]

  unfoldable pub reload_candidate : String → Bool → Candidate → Console → Option Console
  reload_candidate name cascade cand c =
      if not cand.reload_safe
      then some (say (reload_rules name) (say (not_reload_safe name) c))
      else if not cascade
      then reload_unloaded name cascade c
      else elim (check_cascade name c) [
        | none ↦ none
        | some (some dep) ↦ some (say (cascade_not_safe dep) c)
        | some none ↦ reload_unloaded name cascade c
      ]

  unfoldable pub reload_read : String → Bool → Read → Console → Option Console
  unfolding reload_candidate
  reload_read name cascade (candidate cand) c = reload_candidate name cascade cand c
  reload_read name cascade missing c = some (say (no_manifest name) c)
  reload_read name cascade (refused p) c = some (say (bad_manifest p) c)

  -- `cmdReload`
  unfoldable pub cmd_reload : String → Bool → Console → Option Console
  unfolding reload_read
  cmd_reload name cascade c =
      if not (is_rust_mod name c)
      then some (say (not_loaded name) c)
      else reload_read name cascade (read_candidate (host.disk name) name) c
