-- ===== src/ModControl/Gated.antt =====
-- src/core/ModControl.cpp: what has to hold before a load or a reload touches anything.
use levilamina_rust_loader.Base.{
  String, true, false, not, some, List, [], ◌∷◌, string_eq, ◌≡◌, ◌⊎◌, refl, arith, Option-cases,
  Bool-cases, List-cases, inl, inr, ◌∙◌,
}
use text.Mathlib.TextEquality.{eq_iff}
use levilamina_rust_loader.Manager.Mods.{LoadResult, loaded}
use levilamina_rust_loader.Manager.Control.{control_load}
use levilamina_rust_loader.ModControl.Names.{has}
use levilamina_rust_loader.ModControl.Manifest.{
  Candidate, Read, candidate, missing, refused, read_candidate,
}
use levilamina_rust_loader.ModControl.Console.{
  Host, Console, has_mod, is_loaded_anywhere, read_manifest, load_manifest, missing_deps,
  check_image_swapped, say, done_load,
}
use levilamina_rust_loader.ModControl.Load.{
  after_load, report_load, load_candidate, load_read, cmd_load,
}
use levilamina_rust_loader.ModControl.Guarded.{Untouched}

module _ (host : Host) where
  -- A load that was tried: nobody has the mod loaded, its manifest is in order, all that it depends
  -- on is loaded, and the loader is as `controlLoad` leaves it.
  pub record Tried (name : String) (c d : Console) : Type 0 where
    pub fresh : is_loaded_anywhere host name c ≡ false
    pub cand : Candidate
    pub in_order : read_candidate (host.disk name) name ≡ candidate cand
    pub ready_deps :
        (dep : String) → has dep cand.dependencies ≡ true → is_loaded_anywhere host dep c ≡ true
    pub manifest : String
    pub manifest_read : read_manifest host name ≡ some manifest
    pub loaded_by :
        d.loader
        ≡ (control_load host.dylib host.enable host.disable
            (host.next_mod c.loader)
            manifest
            c.loader).1

  loader-after_load :
      (name : String) (cand : Candidate) (c : Console)
      → (after_load host name cand c).loader ≡ c.loader
  unfolding after_load check_image_swapped
  loader-after_load name cand c = ground arith

  loader-report :
      (name : String) (cand : Candidate) (r : LoadResult) (c : Console)
      → (report_load host name cand (r, c)).loader ≡ c.loader
  unfolding report_load
  loader-report name cand loaded c = loader-after_load name cand (say (done_load name) c)
  loader-report name cand r c = refl

  nothing_missing :
      (c : Console) (ds : List String) (d : String)
      → missing_deps host c ds ≡ []
      → has d ds ≡ true
      → is_loaded_anywhere host d c ≡ true
  unfolding missing_deps
  nothing_missing c [] d e h = cc
  nothing_missing c (x ∷ ds) d e h = ground (arith, nothing_missing c ds d, eq_iff x d)

  load_candidate-cases :
      (name : String) (cand : Candidate) (c : Console)
      → is_loaded_anywhere host name c ≡ false
      → read_candidate (host.disk name) name ≡ candidate cand
      → Untouched c (load_candidate host name cand c)
        ⊎ Tried name c (load_candidate host name cand c)
  unfolding load_candidate
  load_candidate-cases name cand c fresh e =
      elim (List-cases (missing_deps host c cand.dependencies)) [
        | inr (d, ds, f) ↦ rw (f, load_candidate) (inl (refl, refl))
        | inl f ↦ elim (Option-cases (read_manifest host name)) [
          | inl g ↦ rw (f, g, load_candidate) (inl (refl, refl))
          | inr (manifest, g) ↦
              let (r, t) = load_manifest host manifest c in
              rw (f, g, load_candidate)
                (inr (record {
                  fresh = fresh;
                  cand = cand;
                  in_order = e;
                  ready_deps = λ dep h. nothing_missing c cand.dependencies dep f h;
                  manifest = manifest;
                  manifest_read = g;
                  loaded_by = loader-report name cand r t ∙ (unfold load_manifest in refl);
                }))
        ]
      ]

  load_read-cases :
      (name : String) (r : Read) (c : Console)
      → is_loaded_anywhere host name c ≡ false
      → read_candidate (host.disk name) name ≡ r
      → Untouched c (load_read host name r c) ⊎ Tried name c (load_read host name r c)
  unfolding load_read
  load_read-cases name (candidate cand) c f e = load_candidate-cases name cand c f e
  load_read-cases name missing c f e = inl (refl, refl)
  load_read-cases name (refused p) c f e = inl (refl, refl)

  -- A load either changes nothing but what it says, or no manager has the mod loaded, its manifest is
  -- in order, and everything that it depends on is loaded; then the loader is as `controlLoad` leaves
  -- it.
  pub cmd_load-Tried :
      (name : String) (c : Console)
      → Untouched c (cmd_load host name c) ⊎ Tried name c (cmd_load host name c)
  unfolding cmd_load
  cmd_load-Tried name c = elim (Bool-cases (not c.ready)) [
    | inl a ↦ rw (a, cmd_load) (inl (refl, refl))
    | inr a ↦ elim (Bool-cases (has_mod name c.loader)) [
      | inl b ↦ rw (a, b, cmd_load) (inl (refl, refl))
      | inr b ↦ elim (Bool-cases (is_loaded_anywhere host name c)) [
        | inl f ↦ rw (a, b, f, cmd_load) (inl (refl, refl))
        | inr f ↦
            rw (a, b, f, cmd_load)
              (load_read-cases name (read_candidate (host.disk name) name) c f refl)
      ]
    ]
  ]
