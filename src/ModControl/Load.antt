-- ===== src/ModControl/Load.antt =====
-- src/core/ModControl.cpp: `/llr load`.
use levilamina_rust_loader.Base.{String, not, none, some, [], ◌∷◌, if◌then◌else◌, nat_eq, string_eq}
use levilamina_rust_loader.Base.Assoc.{find, erase}
use levilamina_rust_loader.Manager.Mods.{LoadResult, loaded}
use levilamina_rust_loader.ModControl.Manifest.{
  Candidate, Read, candidate, missing, refused, read_candidate,
}
use levilamina_rust_loader.ModControl.Console.{
  no_manager, already_loaded, owned_elsewhere, done_load, no_manifest, hint_cold, bad_manifest,
  needs_first, undeserialized, load_failed, Host, Console, say, has_mod, is_loaded_anywhere,
  check_image_swapped, read_manifest, load_manifest, missing_deps,
}

module _ (host : Host) where
  -- After a load that worked: the base address that was remembered is compared and forgotten.
  unfoldable pub after_load : String → Candidate → Console → Console
  unfolding check_image_swapped
  after_load name cand c =
      let d : Console = elim (find name c.last_base) [
        | none ↦ c
        | some before ↦
            let e = check_image_swapped host name before c in
            record e { last_base = erase name e.last_base }
      ] in
      if cand.reload_safe then d else say (hint_cold name) d

  unfoldable pub report_load : String → Candidate → LoadResult × Console → Console
  report_load name cand (loaded, c) = after_load name cand (say (done_load name) c)
  report_load name cand (r, c) = say (load_failed name r) c

  -- `cmdLoad` from where the candidate is read.
  unfoldable pub load_candidate : String → Candidate → Console → Console
  unfolding report_load load_manifest read_manifest missing_deps
  load_candidate name cand c = elim (missing_deps host c cand.dependencies) [
    | d ∷ ds ↦ say (needs_first name (d ∷ ds)) c
    | [] ↦ elim (read_manifest host name) [
      | none ↦ say (undeserialized name) c
      | some manifest ↦ report_load name cand (load_manifest host manifest c)
    ]
  ]

  unfoldable pub load_read : String → Read → Console → Console
  unfolding load_candidate
  load_read name (candidate cand) c = load_candidate name cand c
  load_read name missing c = say (no_manifest name) c
  load_read name (refused p) c = say (bad_manifest p) c

  -- `cmdLoad`
  unfoldable pub cmd_load : String → Console → Console
  unfolding load_read
  cmd_load name c =
      if not c.ready
      then say no_manager c
      else if has_mod name c.loader
      then say (already_loaded name) c
      else if is_loaded_anywhere host name c
      then say (owned_elsewhere name) c
      else load_read name (read_candidate (host.disk name) name) c
