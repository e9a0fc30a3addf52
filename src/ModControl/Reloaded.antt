-- ===== src/ModControl/Reloaded.antt =====
-- src/core/ModControl.cpp: what has to hold before a reload touches anything.
use levilamina_rust_loader.Base.{
  String, Bool, true, false, not, none, some, List, [], ◌∷◌, string_eq, ◌≡◌, ◌≢◌, ◌⊎◌, refl, arith,
  Option-cases, Bool-cases, inl, inr,
}
use mathlib.Core.Path.{subst}
use text.Mathlib.TextEquality.{eq_iff}
use levilamina_rust_loader.ModControl.Names.{has}
use levilamina_rust_loader.ModControl.Graph.{dependents_of}
use levilamina_rust_loader.ModControl.Closure.{Needs}
use levilamina_rust_loader.ModControl.Dependents.{dependents_of_total}
use levilamina_rust_loader.ModControl.Manifest.{
  Candidate, Read, candidate, missing, refused, read_candidate,
}
use levilamina_rust_loader.ModControl.Console.{Host, Console, is_rust_mod, loaded_dependency_map}
use levilamina_rust_loader.ModControl.Unload.{Unloading, do_unload}
use levilamina_rust_loader.ModControl.Reload.{
  is_reload_safe, first_unsafe, bring_back, reload_unloaded, check_cascade, reload_candidate,
  reload_read, cmd_reload,
}
use levilamina_rust_loader.ModControl.Guarded.{
  Untouched, GoesOn, loaded_dependency_map-IsMap, do_unload-GoesOn,
}

module _ (host : Host) where
  -- A reload that went on: the mod is ours and may be reloaded, and so does every mod that needs it,
  -- which there is only where the command cascades.
  pub record MayReload (name : String) (cascade : Bool) (c : Console) : Type 0 where
    pub ours : is_rust_mod name c ≡ true
    pub safe : is_reload_safe host name ≡ true
    pub dependents_safe :
        (m : String)
        → m ≢ name
        → Needs (loaded_dependency_map host c) name m
        → (is_rust_mod m c ≡ true) × (is_reload_safe host m ≡ true) × (cascade ≡ true)

  none_unsafe :
      (c : Console) (ds : List String) (m : String)
      → first_unsafe host c ds ≡ none
      → has m ds ≡ true
      → is_rust_mod m c ≡ true
      → is_reload_safe host m ≡ true
  unfolding first_unsafe
  none_unsafe c [] m e h r = cc
  none_unsafe c (x ∷ ds) m e h r = ground (arith, none_unsafe c ds m, eq_iff x m)

  nothing_back :
      (name : String) (c : Console) (u : Unloading host)
      → u.0.0 ≡ false
      → Untouched c u.1
      → Untouched c (bring_back host name u)
  unfolding bring_back
  nothing_back name c ((true, out), d) h t = cc
  nothing_back name c ((false, out), d) h t = t

  unloaded-cases :
      (name : String) (cascade : Bool) (c d : Console)
      → reload_unloaded host name cascade c ≡ some d
      → Untouched c d ⊎ ((u : Unloading host) × GoesOn host name cascade c u)
  unfolding reload_unloaded
  unloaded-cases name cascade c d h = elim (Option-cases (do_unload host name cascade c)) [
    | inl e ↦ absurd (cc (rw (e, reload_unloaded) at h))
    | inr (u, e) ↦
        let same : bring_back host name u ≡ d = ground (arith, rw (e, reload_unloaded) at h) in
        elim (do_unload-GoesOn host name cascade c u e) [
          | inl (f, t) ↦ inl (subst (Untouched c) same (nothing_back name c u f t))
          | inr g ↦ inr (u, g)
        ]
  ]

  -- The dependents of a mod that is safe, and none of whose dependents of ours is not.
  GoesOn-MayReload :
      (name : String) (cascade : Bool) (order : List String) (c : Console) (u : Unloading host)
      → is_reload_safe host name ≡ true
      → dependents_of (loaded_dependency_map host c) name ≡ some order
      → (cascade ≡ true → first_unsafe host c order ≡ none)
      → GoesOn host name cascade c u
      → MayReload name cascade c
  GoesOn-MayReload name cascade order c u safe e fine g = record {
    ours = g.ours;
    safe = safe;
    dependents_safe = λ m ne n.
        let (ours, cascades) = g.dependents_ours m ne n in
        let (order', e', exact, once) =
          dependents_of_total (loaded_dependency_map host c) name
            (loaded_dependency_map-IsMap host c) in
        let same : order' ≡ order = ground (arith, e, e') in
        let listed : has m order ≡ true = rw (← same) ((exact m).1 (ne, n)) in
        (ours, none_unsafe c order m (fine cascades) listed ours, cascades);
  }

  reload_unloaded-cases :
      (name : String) (cascade : Bool) (order : List String) (c d : Console)
      → is_reload_safe host name ≡ true
      → dependents_of (loaded_dependency_map host c) name ≡ some order
      → (cascade ≡ true → first_unsafe host c order ≡ none)
      → reload_unloaded host name cascade c ≡ some d
      → Untouched c d ⊎ MayReload name cascade c
  reload_unloaded-cases name cascade order c d safe e fine h =
      elim (unloaded-cases name cascade c d h) [
        | inl t ↦ inl t
        | inr (u, g) ↦ inr (GoesOn-MayReload name cascade order c u safe e fine g)
      ]

  pub checks :
      (name : String) (order : List String) (c : Console)
      → dependents_of (loaded_dependency_map host c) name ≡ some order
      → check_cascade host name c ≡ some (first_unsafe host c order)
  unfolding check_cascade
  checks name order c e = rw (e, check_cascade) refl

  reload_candidate-cases :
      (name : String) (cascade : Bool) (cand : Candidate) (order : List String) (c d : Console)
      → read_candidate (host.disk name) name ≡ candidate cand
      → dependents_of (loaded_dependency_map host c) name ≡ some order
      → reload_candidate host name cascade cand c ≡ some d
      → Untouched c d ⊎ MayReload name cascade c
  unfolding reload_candidate
  reload_candidate-cases name cascade cand order c d e found h =
      elim (Bool-cases cand.reload_safe) [
        | inr f ↦ let said = rw (f, reload_candidate) at h in inl (ground arith, ground arith)
        | inl f ↦
            let safe : is_reload_safe host name ≡ true = rw (is_reload_safe, e) f in
            elim (Bool-cases (not cascade)) [
              | inl g ↦
                  reload_unloaded-cases name cascade order c d safe found
                    (λ k. absurd (ground arith)) (rw (f, g, reload_candidate) at h)
              | inr g ↦ elim (Option-cases (first_unsafe host c order)) [
                | inl k ↦
                    reload_unloaded-cases name cascade order c d safe found (λ _. k)
                      (rw (f, g, checks name order c found, k, reload_candidate) at h)
                | inr (dep, k) ↦
                    let said = rw (f, g, checks name order c found, k, reload_candidate) at h in
                    inl (ground arith, ground arith)
              ]
            ]
      ]

  reload_read-cases :
      (name : String) (cascade : Bool) (r : Read) (c d : Console)
      → read_candidate (host.disk name) name ≡ r
      → reload_read host name cascade r c ≡ some d
      → Untouched c d ⊎ MayReload name cascade c
  unfolding reload_read
  reload_read-cases name cascade (candidate cand) c d e h =
      let (order, found, exact, once) =
        dependents_of_total (loaded_dependency_map host c) name
          (loaded_dependency_map-IsMap host c) in
      reload_candidate-cases name cascade cand order c d e found h
  reload_read-cases name cascade missing c d e h = inl (ground arith, ground arith)
  reload_read-cases name cascade (refused p) c d e h = inl (ground arith, ground arith)

  -- A reload either changes nothing but what it says, or the mod is ours and declares itself safe to
  -- reload, and so does every mod that needs it, directly or through others, all of them ours; there
  -- are none of these unless the command says to cascade.
  pub cmd_reload-MayReload :
      (name : String) (cascade : Bool) (c d : Console)
      → cmd_reload host name cascade c ≡ some d
      → Untouched c d ⊎ MayReload name cascade c
  unfolding cmd_reload
  cmd_reload-MayReload name cascade c d h = elim (Bool-cases (is_rust_mod name c)) [
    | inr f ↦ let said = rw (f, cmd_reload) at h in inl (ground arith, ground arith)
    | inl f ↦
        reload_read-cases name cascade (read_candidate (host.disk name) name) c d refl
          (rw (f, cmd_reload) at h)
  ]
