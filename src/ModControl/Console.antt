-- ===== src/ModControl/Console.antt =====
-- src/core/ModControl.cpp: the state that the commands work on, what they say, and the questions they
-- ask of the host and the loader.
use levilamina_rust_loader.Base.{
  ℕ, String, Bool, true, false, not, ◌&&◌, ◌||◌, Option, none, some, List, [], ◌∷◌, ◌++◌,
  if◌then◌else◌, ◌==◌, nat_eq, string_eq,
}
use levilamina_rust_loader.Base.Assoc.{find, put}
use levilamina_rust_loader.Manager.Mods.{RustMod, Loader, Act, Dylib, LoadResult, UnloadResult}
use levilamina_rust_loader.Manager.Control.{control_load}
use levilamina_rust_loader.ModControl.Graph.{Deps, list_of}
use levilamina_rust_loader.ModControl.Manifest.{Json, Reading, parsed, Problem}

-- A line that a command says; a list of names is told in its order.
pub data Line : Type 0 where
  no_manager : Line
  already_loaded owned_elsewhere not_loaded done_load done_unload done_reload : String → Line
  no_manifest not_reload_safe reload_rules same_image hint_cold hint_swap : String → Line
  bad_manifest : Problem → Line
  needs_first : String → List String → Line
  undeserialized : String → Line
  load_failed reload_failed : String → LoadResult → Line
  has_dependents : String → List String → Line
  foreign_dependents : List String → Line
  unload_failed : String → UnloadResult → Line
  partly_unloaded : Line
  cascade_not_safe left_unloaded : String → Line
  reloaded_all : String → Line
  list_header list_empty usage : Line
  list_entry : String → String → Bool → Bool → Bool → Problem → Line
  list_total : ℕ → ℕ → Line
  unknown_flag unknown_command needs_name : String → Line

-- What the host and the mods' libraries are: the libraries by their mod's address, enable and
-- disable of the host's ModManager, the address of the next mod object, the handle of a mod's
-- library, the dependencies in the manifest of a mod object, the mods of all managers with their
-- dependencies, the directories of mods/ as they are listed, the manifests on disk, and the
-- deserializer, which tells a manifest's name.
pub record Host : Type 0 where
  pub dylib : ℕ → Dylib
  pub enable : String → Act
  pub disable : String → Act
  pub next_mod : Loader → ℕ
  pub handle : RustMod → Loader → ℕ
  pub manifest_deps : RustMod → List String
  pub registry : Loader → Deps
  pub dirs : List String
  pub disk : String → Reading
  pub deserialize : Json → Option String

-- `ready` is whether there is a manager; `last_base` is gLastUnloadBase; `said` has the latest first.
pub record Console : Type 0 where
  pub loader : Loader
  pub ready : Bool
  pub last_base : List (String × ℕ)
  pub said : List Line

abbrev pub say : Line → Console → Console
say line c = record c { said = line ∷ c.said }

-- `mgr->hasMod(name)`, of a manager that is there.
abbrev pub has_mod : String → Loader → Bool
has_mod name s = elim (find name s.mods) [ none ↦ false | some m ↦ true ]

-- `isRustMod`
abbrev pub is_rust_mod : String → Console → Bool
is_rust_mod name c = c.ready && has_mod name c.loader

-- `ModManagerRegistry::hasMod`
abbrev pub in_registry : String → Deps → Bool
in_registry name deps = elim (find name deps) [ none ↦ false | some l ↦ true ]

-- `absorb`: the entry of a mod that is seen twice gets its dependencies twice.
unfoldable pub absorb : Deps → Deps → Deps
absorb [] out = out
absorb ((name, deps) ∷ rest) out = absorb rest (put name (list_of name out ++ deps) out)

module _ (host : Host) where
  -- `mgr->mods()`, with what their manifests say.
  unfoldable pub own_deps : List (String × RustMod) → Deps
  own_deps [] = []
  own_deps ((name, m) ∷ rest) = (name, host.manifest_deps m) ∷ own_deps rest

  -- `loadedDependencyMap`
  unfoldable pub loaded_dependency_map : Console → Deps
  unfolding own_deps
  loaded_dependency_map c =
      let all = absorb (host.registry c.loader) [] in
      if c.ready then absorb (own_deps c.loader.mods) all else all

  -- `isLoadedAnywhere`
  unfoldable pub is_loaded_anywhere : String → Console → Bool
  is_loaded_anywhere name c = is_rust_mod name c || in_registry name (host.registry c.loader)

  -- `RustModManager::moduleBase`, null where there is no such mod.
  unfoldable pub module_base : String → Console → ℕ
  module_base name c = elim (find name c.loader.mods) [ none ↦ 0 | some m ↦ host.handle m c.loader ]

  -- `checkImageSwapped`
  unfoldable pub check_image_swapped : String → ℕ → Console → Console
  unfolding module_base
  check_image_swapped name before c =
      let after = module_base name c in
      if not c.ready || before == 0
      then c
      else if not (after == 0) && after == before
      then say (same_image name) c
      else c

  -- `readManifest`: the manifest's name, or none.
  unfoldable pub read_manifest : String → Option String
  read_manifest name = elim (host.disk name) [ parsed j ↦ host.deserialize j | _ ↦ none ]

  -- `mgr->controlLoad(manifest)`
  unfoldable pub load_manifest : String → Console → LoadResult × Console
  load_manifest name c =
      let (r, s) =
        control_load host.dylib host.enable host.disable (host.next_mod c.loader) name c.loader in
      (r, record c { loader = s })

  -- The dependencies that are not loaded, in their order.
  unfoldable pub missing_deps : Console → List String → List String
  missing_deps c [] = []
  missing_deps c (d ∷ ds) =
      let rest = missing_deps c ds in if is_loaded_anywhere d c then rest else d ∷ rest
