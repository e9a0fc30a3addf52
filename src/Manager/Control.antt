-- ===== src/Manager/Control.antt =====
-- src/core/RustModManager.cpp: `controlLoad` and `controlUnload`, and the callbacks that the loader
-- gives the host's ModManager, whose `enable` and `disable` by name are parameters.
use levilamina_rust_loader.Base.{
  ℕ, String, Bool, true, false, not, none, some, if◌then◌else◌, ◌==◌, nat_eq, string_eq,
}
use levilamina_rust_loader.Base.Assoc.{find, put}
use levilamina_rust_loader.Manager.Mods.{
  RustMod, Loader, Act, Dylib, LoadResult, loaded, not_enabled, UnloadResult, not_found,
  not_disabled, load, unload,
}

-- `commandsMuted` of a mod that is in the table.
unfoldable pub set_muted : Bool → String → Loader → Loader
set_muted muted name s = elim (find name s.mods) [
  | none ↦ s
  | some m ↦ record s { mods = put name (record m { commands_muted = muted }) s.mods }
]

-- The callback of `mod->onEnable`: commands are unmuted before the mod's own function runs.
unfoldable pub on_enable_callback : Dylib → String → RustMod → Act
on_enable_callback d name m s =
    let t = set_muted false name s in
    if m.vtable.on_enable == 0 then (true, t) else d.run m.vtable.on_enable t

-- The callback of `mod->onDisable`: commands are muted after it, whatever it answers.
unfoldable pub on_disable_callback : Dylib → String → RustMod → Act
on_disable_callback d name m s =
    let (ok, t) = if m.vtable.on_disable == 0 then (true, s) else d.run m.vtable.on_disable s in
    (ok, set_muted true name t)

module _ (dylib : ℕ → Dylib) (enable disable : String → Act) where
  -- The rest of `controlLoad`: a mod that cannot be enabled is taken out again.
  unfoldable pub then_enable : String → LoadResult → Loader → LoadResult × Loader
  then_enable name loaded s =
      let (ok, t) = enable name s in
      if not ok then (not_enabled, (unload dylib name t).1) else (loaded, t)
  then_enable name r s = (r, s)

  -- `controlLoad`
  unfoldable pub control_load : ℕ → String → Loader → LoadResult × Loader
  control_load address name s = let (r, t) = load dylib address name s in then_enable name r t

  -- `controlUnload`: an enabled mod is disabled first.
  unfoldable pub control_unload : String → Loader → UnloadResult × Loader
  control_unload name s = elim (find name s.mods) [
    | none ↦ (not_found, s)
    | some m ↦
        if m.enabled
        then (let (ok, t) = disable name s in
            if not ok then (not_disabled, t) else unload dylib name t)
        else unload dylib name s
  ]
