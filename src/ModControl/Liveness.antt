-- ===== src/ModControl/Liveness.antt =====
-- src/core/ModControl.cpp: every command line ends and is answered.
use levilamina_rust_loader.Base.{
  ◌≤◌, ◌<◌, String, Bool, true, false, not, Option, some, List, [], ◌∷◌, if◌then◌else◌, ◌==◌,
  string_eq, arith, Option-cases, Bool-cases, List-cases, inl, inr,
}
use levilamina_rust_loader.ModControl.Dependents.{dependents_of_total}
use levilamina_rust_loader.ModControl.Manifest.{
  Candidate, Read, candidate, missing, refused, read_candidate,
}
use levilamina_rust_loader.ModControl.Args.{ParsedArgs, is_empty, parse_args}
use levilamina_rust_loader.ModControl.Console.{
  Host, Console, say, list_header, list_entry, is_rust_mod, loaded_dependency_map,
}
use levilamina_rust_loader.ModControl.Load.{cmd_load}
use levilamina_rust_loader.ModControl.Unload.{Unloading, hint_after, cmd_unload}
use levilamina_rust_loader.ModControl.Reload.{
  first_unsafe, reload_unloaded, reload_candidate, reload_read, cmd_reload,
}
use levilamina_rust_loader.ModControl.Dispatch.{
  is_enabled_mod, rescan, list_lines, cmd_list, with_name, run_args, run_command,
}
use levilamina_rust_loader.ModControl.Guarded.{loaded_dependency_map-IsMap}
use levilamina_rust_loader.ModControl.Reloaded.{checks}
use levilamina_rust_loader.ModControl.Answers.{
  lines, Answered, Tells, lines-cmd_load, do_unload_says, lines-bring_back,
}

module _ (host : Host) where
  lines-hint :
      (name : String) (c : Console) (u : Unloading host)
      → Tells c u.0.0 u.1
      → lines c < lines (hint_after host name u)
  lines-hint name c ((true, out), d) h = omega arith
  lines-hint name c ((false, out), d) h = omega arith

  cmd_unload_told :
      (name : String) (cascade : Bool) (c : Console) → Answered c (cmd_unload host name cascade c)
  unfolding cmd_unload
  cmd_unload_told name cascade c =
      let (u, e, told) = do_unload_says host name cascade c in
      rw (cmd_unload, e) (lines-hint name c u told)

  reload_unloaded_told :
      (name : String) (cascade : Bool) (c : Console)
      → Answered c (reload_unloaded host name cascade c)
  unfolding reload_unloaded
  reload_unloaded_told name cascade c =
      let (u, e, told) = do_unload_says host name cascade c in
      rw (reload_unloaded, e) (lines-bring_back host name c u told)

  reload_candidate_told :
      (name : String) (cascade : Bool) (cand : Candidate) (c : Console)
      → Answered c (reload_candidate host name cascade cand c)
  unfolding reload_candidate
  reload_candidate_told name cascade cand c =
      let (order, found, exact, once) =
        dependents_of_total (loaded_dependency_map host c) name
          (loaded_dependency_map-IsMap host c) in
      elim (Bool-cases cand.reload_safe) [
        | inr f ↦ rw (f, reload_candidate) (omega arith)
        | inl f ↦ elim (Bool-cases (not cascade)) [
          | inl g ↦ rw (f, g, reload_candidate) (reload_unloaded_told name cascade c)
          | inr g ↦ elim (Option-cases (first_unsafe host c order)) [
            | inl k ↦
                rw (f, g, checks host name order c found, k, reload_candidate)
                  (reload_unloaded_told name cascade c)
            | inr (dep, k) ↦
                rw (f, g, checks host name order c found, k, reload_candidate) (omega arith)
          ]
        ]
      ]

  reload_read_told :
      (name : String) (cascade : Bool) (r : Read) (c : Console)
      → Answered c (reload_read host name cascade r c)
  unfolding reload_read
  reload_read_told name cascade (candidate cand) c = reload_candidate_told name cascade cand c
  reload_read_told name cascade missing c = omega arith
  reload_read_told name cascade (refused p) c = omega arith

  cmd_reload_told :
      (name : String) (cascade : Bool) (c : Console) → Answered c (cmd_reload host name cascade c)
  unfolding cmd_reload
  cmd_reload_told name cascade c = elim (Bool-cases (is_rust_mod name c)) [
    | inr f ↦ rw (f, cmd_reload) (omega arith)
    | inl f ↦
        rw (f, cmd_reload) (reload_read_told name cascade (read_candidate (host.disk name) name) c)
  ]

  lines-list : (cands : List Candidate) (c : Console) → lines c ≤ lines (list_lines host cands c)
  unfolding list_lines
  lines-list [] c = omega arith
  lines-list (cand ∷ cands) c =
      let line =
        list_entry cand.name cand.version (is_rust_mod cand.name c)
          (is_enabled_mod cand.name c.loader) cand.reload_safe cand.problem in
      omega (arith, lines-list cands (say line c))

  lines-cmd_list : (c : Console) → lines c < lines (cmd_list host c)
  unfolding cmd_list
  lines-cmd_list c = elim (List-cases (rescan host host.dirs)) [
    | inl e ↦ rw (cmd_list, e) (omega arith)
    | inr (cand, cands, e) ↦
        rw (cmd_list, e) (omega (arith, lines-list (cand ∷ cands) (say list_header c)))
  ]

  with_name_told :
      (verb : String) (a : ParsedArgs) (c : Console) (run : Option Console)
      → Answered c run
      → Answered c (with_name host verb a c run)
  with_name_told verb a c run h = elim (Bool-cases (is_empty a.name)) [
    | inl e ↦ rw (with_name, e) (omega arith)
    | inr e ↦ rw (with_name, e) h
  ]

  either_told :
      (c : Console) (b : Bool) (x y : Option Console)
      → Answered c x
      → Answered c y
      → Answered c (if b then x else y)
  either_told c true x y h k = h
  either_told c false x y h k = k

  run_args_told : (a : ParsedArgs) (c : Console) → Answered c (run_args host a c)
  unfolding run_args
  run_args_told a c = either_told c a.unknown_flag _ _ (omega arith) (
      either_told c (is_empty a.sub) _ _ (omega (arith, lines-cmd_list c)) (
        either_told c (a.sub == "list") _ _ (lines-cmd_list c) (
          either_told c (a.sub == "load") _ _
            (with_name_told "load" a c (some (cmd_load host a.name c))
              (lines-cmd_load host a.name c))
            (either_told c (a.sub == "unload") _ _
              (with_name_told "unload" a c (cmd_unload host a.name a.cascade c)
                (cmd_unload_told a.name a.cascade c))
              (either_told c (a.sub == "reload") _ _
                (with_name_told "reload" a c (cmd_reload host a.name a.cascade c)
                  (cmd_reload_told a.name a.cascade c))
                (omega arith))))))

  -- Every command line ends, whatever depends on what and whatever the mods do when they are loaded
  -- and unloaded, and says at least one line.
  pub run_command_answers : (raw : String) (c : Console) → Answered c (run_command host raw c)
  unfolding run_command
  run_command_answers raw c = run_args_told (parse_args raw) c
