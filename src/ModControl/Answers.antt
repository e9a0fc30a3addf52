-- ===== src/ModControl/Answers.antt =====
-- src/core/ModControl.cpp: the command always answers.
use levilamina_rust_loader.Base.{
  ℕ, ◌+◌, ◌≤◌, ◌<◌, String, Bool, true, false, not, Option, none, some, List, [], ◌∷◌, ◌++◌,
  if◌then◌else◌, string_eq, ◌≡◌, refl, arith, Option-cases, Bool-cases, List-cases, inl, inr,
  length,
}
use levilamina_rust_loader.Base.Assoc.{erase}
use levilamina_rust_loader.Manager.Mods.{LoadResult, loaded, UnloadResult, unloaded}
use levilamina_rust_loader.ModControl.Names.{reversed}
use levilamina_rust_loader.ModControl.Dependents.{dependents_of_total}
use levilamina_rust_loader.ModControl.Manifest.{
  Candidate, Read, candidate, missing, refused, read_candidate,
}
use levilamina_rust_loader.ModControl.Console.{
  Host, Console, say, done_load, done_unload, done_reload, has_mod, is_rust_mod,
  loaded_dependency_map, read_manifest, load_manifest, missing_deps, check_image_swapped,
}
use levilamina_rust_loader.ModControl.Load.{
  after_load, report_load, load_candidate, load_read, cmd_load,
}
use levilamina_rust_loader.ModControl.Unload.{
  Unloading, unload_one, after_one, unload_all, unload_with, do_unload,
}
use levilamina_rust_loader.ModControl.Reload.{after_reload, reload_all, bring_back}
use levilamina_rust_loader.ModControl.Guarded.{loaded_dependency_map-IsMap}

abbrev pub lines : Console → ℕ
lines c = length c.said

-- The command ended and said something.
abbrev pub Answered : Console → Option Console → Type 0
Answered c none = ⊥
Answered c (some d) = lines c < lines d

-- A step that says something where it does not succeed.
abbrev pub Tells : Console → Bool → Console → Type 0
Tells c ok d = lines c + (if ok then 0 else 1) ≤ lines d

module _ (host : Host) where
  lines-after_load :
      (name : String) (cand : Candidate) (c : Console)
      → lines c ≤ lines (after_load host name cand c)
  unfolding after_load check_image_swapped
  lines-after_load name cand c = ground arith

  lines-report :
      (name : String) (cand : Candidate) (r : LoadResult) (c : Console)
      → lines c < lines (report_load host name cand (r, c))
  unfolding report_load
  lines-report name cand loaded c =
      omega (arith, lines-after_load name cand (say (done_load name) c))
  lines-report name cand r c = omega arith

  lines-load_candidate :
      (name : String) (cand : Candidate) (c : Console)
      → lines c < lines (load_candidate host name cand c)
  unfolding load_candidate load_manifest
  lines-load_candidate name cand c = elim (List-cases (missing_deps host c cand.dependencies)) [
    | inr (d, ds, f) ↦ rw (f, load_candidate) (omega arith)
    | inl f ↦ elim (Option-cases (read_manifest host name)) [
      | inl g ↦ rw (f, g, load_candidate) (omega arith)
      | inr (manifest, g) ↦
          let (r, t) = load_manifest host manifest c in
          rw (f, g, load_candidate) (lines-report name cand r t)
    ]
  ]

  lines-load_read :
      (name : String) (r : Read) (c : Console) → lines c < lines (load_read host name r c)
  unfolding load_read
  lines-load_read name (candidate cand) c = lines-load_candidate name cand c
  lines-load_read name missing c = omega arith
  lines-load_read name (refused p) c = omega arith

  pub lines-cmd_load : (name : String) (c : Console) → lines c < lines (cmd_load host name c)
  unfolding cmd_load
  lines-cmd_load name c =
      ground (arith, lines-load_read name (read_candidate (host.disk name) name) c)

  lines-unload_one : (m : String) (c : Console) → lines (unload_one host m c).1 ≡ lines c
  unfolding unload_one
  lines-unload_one m c = refl

  lines-after_one :
      (went_on : Unloading host) (m : String) (out : List String) (r : UnloadResult) (c d : Console)
      → lines c ≤ lines d
      → Tells c went_on.0.0 went_on.1
      → Tells c (after_one host went_on m out r d).0.0 (after_one host went_on m out r d).1
  lines-after_one went_on m out unloaded c d h t = t
  lines-after_one went_on m out r c d h t = omega arith

  more_said : (c d e : Console) (ok : Bool) → lines c ≤ lines d → Tells d ok e → Tells c ok e
  more_said c d e ok h t = omega arith

  lines-unload_all :
      (ms out : List String) (c : Console)
      → Tells c (unload_all host ms out c).0.0 (unload_all host ms out c).1
  unfolding unload_all
  lines-unload_all [] out c = omega arith
  lines-unload_all (m ∷ ms) out c =
      let d = (unload_one host m c).1 in
      let went_on = unload_all host ms (out ++ m ∷ []) (say (done_unload m) d) in
      let same = lines-unload_one m c in
      let later =
        more_said c (say (done_unload m) d) went_on.1 went_on.0.0 (omega (arith, same))
          (lines-unload_all ms (out ++ m ∷ []) (say (done_unload m) d)) in
      elim (Bool-cases (not (has_mod m c.loader))) [
        | inl f ↦ rw (f, unload_all) (lines-unload_all ms out c)
        | inr f ↦
            rw (f, unload_all)
              (lines-after_one went_on m out (unload_one host m c).0 c d (omega (arith, same))
                later)
      ]

  lines-unload_with :
      (name : String) (cascade : Bool) (ds : List String) (c : Console)
      → Tells c (unload_with host name cascade ds c).0.0 (unload_with host name cascade ds c).1
  unfolding unload_with
  lines-unload_with name cascade ds c = ground (arith, lines-unload_all (ds ++ name ∷ []) [] c)

  pub do_unload_says :
      (name : String) (cascade : Bool) (c : Console)
      → (u : Unloading host) × (do_unload host name cascade c ≡ some u) × Tells c u.0.0 u.1
  unfolding do_unload
  do_unload_says name cascade c = elim (Bool-cases (is_rust_mod name c)) [
    | inr f ↦ rw (f, do_unload) (_, refl, omega arith)
    | inl f ↦
        let (order, e, exact, once) =
          dependents_of_total (loaded_dependency_map host c) name
            (loaded_dependency_map-IsMap host c) in
        rw (f, e, do_unload)
          (unload_with host name cascade order c, refl, lines-unload_with name cascade order c)
  ]

  lines-load_manifest : (m : String) (c : Console) → lines (load_manifest host m c).1 ≡ lines c
  unfolding load_manifest
  lines-load_manifest m c = refl

  lines-after_reload :
      (went_on : Bool × Console) (m : String) (r : LoadResult) (c d : Console)
      → lines c ≤ lines d
      → Tells c went_on.0 went_on.1
      → Tells c (after_reload host went_on m r d).0 (after_reload host went_on m r d).1
  lines-after_reload went_on m loaded c d h t = t
  lines-after_reload went_on m r c d h t = omega arith

  lines-reload_all :
      (ms : List String) (c : Console) → Tells c (reload_all host ms c).0 (reload_all host ms c).1
  unfolding reload_all
  lines-reload_all [] c = omega arith
  lines-reload_all (m ∷ ms) c = elim (Option-cases (read_manifest host m)) [
    | inl e ↦ rw (e, reload_all) (omega arith)
    | inr (manifest, e) ↦
        let (r, d) = load_manifest host manifest c in
        let next = say (done_reload m) (record d { last_base = erase m d.last_base }) in
        let went_on = reload_all host ms next in
        let same = lines-load_manifest manifest c in
        rw (e, reload_all)
          (lines-after_reload went_on m r c d (omega (arith, same))
            (more_said c next went_on.1 went_on.0 (omega (arith, same)) (lines-reload_all ms next)))
  ]

  pub lines-bring_back :
      (name : String) (c : Console) (u : Unloading host)
      → Tells c u.0.0 u.1
      → lines c < lines (bring_back host name u)
  unfolding bring_back
  lines-bring_back name c ((false, out), d) h = omega arith
  lines-bring_back name c ((true, out), d) h = ground (arith, lines-reload_all (reversed out) d)
