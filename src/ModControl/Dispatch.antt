-- ===== src/ModControl/Dispatch.antt =====
-- src/core/ModControl.cpp: `/llr list`, and the command line as a whole.
use levilamina_rust_loader.Base.{
  ℕ, ◌+◌, String, Bool, true, false, not, Option, none, some, List, [], ◌∷◌, if◌then◌else◌, ◌==◌,
  string_eq, length,
}
use levilamina_rust_loader.Base.Assoc.{find}
use levilamina_rust_loader.Manager.Mods.{Loader}
use levilamina_rust_loader.ModControl.Names.{less}
use levilamina_rust_loader.ModControl.Manifest.{
  Problem, not_rust, Candidate, parse_candidate, is_file,
}
use levilamina_rust_loader.ModControl.Args.{ParsedArgs, is_empty, parse_args}
use levilamina_rust_loader.ModControl.Console.{
  list_header, list_empty, list_entry, list_total, usage, unknown_flag, unknown_command, needs_name,
  Host, Console, say, is_rust_mod,
}
use levilamina_rust_loader.ModControl.Load.{cmd_load}
use levilamina_rust_loader.ModControl.Unload.{cmd_unload}
use levilamina_rust_loader.ModControl.Reload.{cmd_reload}

unfoldable pub insert_candidate : Candidate → List Candidate → List Candidate
insert_candidate c [] = c ∷ []
insert_candidate c (d ∷ ds) =
    let rest = insert_candidate c ds in if less d.name c.name then d ∷ rest else c ∷ d ∷ ds

abbrev pub is_other_kind : Problem → Bool
is_other_kind not_rust = true
is_other_kind p = false

-- Whether the manager's mod of this name is enabled.
abbrev pub is_enabled_mod : String → Loader → Bool
is_enabled_mod name s = elim (find name s.mods) [ none ↦ false | some m ↦ m.enabled ]

module _ (host : Host) where
  -- `rescan`: the directories with a manifest of a rust mod, sorted by the mods' names.
  unfoldable pub rescan : List String → List Candidate
  unfolding insert_candidate
  rescan [] = []
  rescan (dir ∷ dirs) =
      let rest = rescan dirs in
      let c = parse_candidate (host.disk dir) dir in
      if not (is_file (host.disk dir))
      then rest
      else if is_other_kind c.problem
      then rest
      else insert_candidate c rest

  unfoldable pub list_lines : List Candidate → Console → Console
  list_lines [] c = c
  list_lines (cand ∷ cands) c = list_lines cands (
      say
        (list_entry cand.name cand.version (is_rust_mod cand.name c)
          (is_enabled_mod cand.name c.loader) cand.reload_safe cand.problem)
        c)

  unfoldable pub count_loaded : List Candidate → Console → ℕ
  count_loaded [] c = 0
  count_loaded (cand ∷ cands) c = (if is_rust_mod cand.name c then 1 else 0) + count_loaded cands c

  -- `cmdList`
  unfoldable pub cmd_list : Console → Console
  unfolding rescan list_lines count_loaded
  cmd_list c =
      let d = say list_header c in
      elim (rescan host.dirs) [
        | [] ↦ say list_empty d
        | cand ∷ cands ↦
            say (list_total (length (cand ∷ cands)) (count_loaded (cand ∷ cands) c))
              (list_lines (cand ∷ cands) d)
      ]

  abbrev pub with_name : String → ParsedArgs → Console → Option Console → Option Console
  with_name verb a c run = if is_empty a.name then some (say (needs_name verb) c) else run

  unfoldable pub run_args : ParsedArgs → Console → Option Console
  run_args a c =
      if a.unknown_flag
      then some (say (unknown_flag a.unknown_flag_text) c)
      else if is_empty a.sub
      then some (say usage (cmd_list c))
      else if a.sub == "list"
      then some (cmd_list c)
      else if a.sub == "load"
      then with_name "load" a c (some (cmd_load host a.name c))
      else if a.sub == "unload"
      then with_name "unload" a c (cmd_unload host a.name a.cascade c)
      else if a.sub == "reload"
      then with_name "reload" a c (cmd_reload host a.name a.cascade c)
      else some (say (unknown_command a.sub) c)

  -- The command `/llr` on the text after it.
  unfoldable pub run_command : String → Console → Option Console
  unfolding run_args
  run_command raw c = run_args (parse_args raw) c
