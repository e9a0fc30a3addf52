-- ===== src/ModControl/Guarded.antt =====
-- src/core/ModControl.cpp: an unload that may not be done changes nothing.
use levilamina_rust_loader.Base.{
  String, Bool, true, false, not, ◌&&◌, some, List, [], ◌∷◌, ◌++◌, string_eq, ◌≡◌, ◌≢◌, ◌⊎◌, refl,
  sym, ◌∙◌, arith, Bool-cases, inl, inr,
}
use mathlib.Core.Path.{subst}
use mathlib.Core.List.{append-nil, append_assoc}
use text.Mathlib.TextEquality.{eq_iff}
use levilamina_rust_loader.Base.Assoc.{put, put-IsMap, IsMap}
use levilamina_rust_loader.Manager.Mods.{
  UnloadResult, unloaded, not_found, lane_busy, refused, cannot_close, not_disabled,
}
use levilamina_rust_loader.ModControl.Names.{has}
use levilamina_rust_loader.ModControl.Graph.{Deps, list_of, dependents_of}
use levilamina_rust_loader.ModControl.Closure.{Needs}
use levilamina_rust_loader.ModControl.Dependents.{dependents_of_total}
use levilamina_rust_loader.ModControl.Console.{
  done_unload, unload_failed, partly_unloaded, say, has_mod, Host, Console, is_rust_mod, absorb,
  own_deps, loaded_dependency_map,
}
use levilamina_rust_loader.ModControl.Unload.{
  Unloading, unload_one, unload_all, after_one, foreign_of, is_nil, unload_with, do_unload,
}

absorb-IsMap : (l out : Deps) → IsMap out → IsMap (absorb l out)
unfolding absorb
absorb-IsMap [] out u = u
absorb-IsMap ((name, deps) ∷ rest) out u =
    absorb-IsMap rest (put name (list_of name out ++ deps) out)
      (put-IsMap name (list_of name out ++ deps) out u)

-- Commands that change nothing but what they say.
abbrev pub Untouched : Console → Console → Type 0
Untouched c d = (d.loader ≡ c.loader) × (d.last_base ≡ c.last_base)

foreign_none :
    (c : Console) (ds : List String) (d : String)
    → is_nil (foreign_of c ds) ≡ true
    → has d ds ≡ true
    → is_rust_mod d c ≡ true
unfolding foreign_of
foreign_none c [] d e h = cc
foreign_none c (x ∷ ds) d e h = ground (arith, foreign_none c ds d, eq_iff x d)

nobody : (ds : List String) (d : String) → is_nil ds ≡ true → has d ds ≡ false
nobody [] d h = refl
nobody (x ∷ ds) d h = cc

module _ (host : Host) where
  pub loaded_dependency_map-IsMap : (c : Console) → IsMap (loaded_dependency_map host c)
  unfolding loaded_dependency_map
  loaded_dependency_map-IsMap c =
      let all = absorb-IsMap (host.registry c.loader) [] tt in
      elim (Bool-cases c.ready) [
        | inl e ↦
            rw (e, loaded_dependency_map)
              (absorb-IsMap (own_deps host c.loader.mods) (absorb (host.registry c.loader) []) all)
        | inr e ↦ rw (e, loaded_dependency_map) all
      ]

  -- Mods that are unloaded one by one, from a state: whether all went well, the names that were taken
  -- out, and the state it ends in. A mod that is not there at its turn is passed over; the first that
  -- cannot be unloaded ends it.
  pub data Taken : List String → Console → Bool → List String → Console → Type 0 where
    done_all : (c : Console) → Taken [] c true [] c
    passed_over :
        (m : String) (ms : List String) (c : Console) (b : Bool) (out : List String) (d : Console)
        → has_mod m c.loader ≡ false
        → Taken ms c b out d
        → Taken (m ∷ ms) c b out d
    went :
        (m : String) (ms : List String) (c : Console) (b : Bool) (out : List String) (d : Console)
        → has_mod m c.loader ≡ true
        → (unload_one host m c).0 ≡ unloaded
        → Taken ms (say (done_unload m) (unload_one host m c).1) b out d
        → Taken (m ∷ ms) c b (m ∷ out) d
    stopped :
        (m : String) (ms : List String) (c : Console)
        → has_mod m c.loader ≡ true
        → (unload_one host m c).0 ≢ unloaded
        → Taken (m ∷ ms) c false [] (
            say partly_unloaded
              (say (unload_failed m (unload_one host m c).0) (unload_one host m c).1))

  -- What an unload goes on to do: the mods that need it are all ours, there are none without a
  -- cascade, and they are taken out in the order of the dependents, before the mod itself.
  pub record GoesOn (name : String) (cascade : Bool) (c : Console) (u : Unloading host)
      : Type 0 where
    pub ours : is_rust_mod name c ≡ true
    pub order : List String
    pub ordered : dependents_of (loaded_dependency_map host c) name ≡ some order
    pub dependents_ours :
        (m : String)
        → m ≢ name
        → Needs (loaded_dependency_map host c) name m
        → (is_rust_mod m c ≡ true) × (cascade ≡ true)
    pub taken_out : Taken (order ++ name ∷ []) c u.0.0 u.0.1 u.1

  -- What the loop made of the mods that are left, after it took some out.
  abbrev Went : List String → List String → Console → Unloading host → Type 0
  Went ms out c u = (new : List String) × (u.0.1 ≡ out ++ new) × Taken ms c u.0.0 new u.1

  stops :
      (m : String) (ms out : List String) (c : Console) (r : UnloadResult)
      → has_mod m c.loader ≡ true
      → (unload_one host m c).0 ≡ r
      → r ≢ unloaded
      → Went
          (m ∷ ms)
          out
          c
          ((false, out), say partly_unloaded (say (unload_failed m r) (unload_one host m c).1))
  stops m ms out c r f e bad = (
    [],
    sym (append-nil out),
    subst
        (λ (x : UnloadResult).
          Taken (m ∷ ms) c false []
            (say partly_unloaded (say (unload_failed m x) (unload_one host m c).1)))
        e (stopped m ms c f (λ k. bad (sym e ∙ k))),
  )

  unload_all-Taken : (ms out : List String) (c : Console) → Went ms out c (unload_all host ms out c)
  unfolding unload_all
  unload_all-Taken [] out c = ([], sym (append-nil out), done_all c)
  unload_all-Taken (m ∷ ms) out c =
      let d : Console = say (done_unload m) (unload_one host m c).1 in
      elim (Bool-cases (has_mod m c.loader)) [
        | inr f ↦
            let (new, e, t) = unload_all-Taken ms out c in
            rw (f, unload_all)
              (
                new,
                e,
                passed_over m ms c (unload_all host ms out c).0.0 new (unload_all host ms out c).1 f
                    t,
              )
        | inl f ↦
            rw (f, unload_all)
              (go (unload_one host m c).0 f refl (unload_all-Taken ms (out ++ m ∷ []) d))
      ]
    where
      go :
          (r : UnloadResult)
          → has_mod m c.loader ≡ true
          → (unload_one host m c).0 ≡ r
          → let u =
              unload_all host ms (out ++ m ∷ []) (say (done_unload m) (unload_one host m c).1) in
            Went ms (out ++ m ∷ []) (say (done_unload m) (unload_one host m c).1) u
            → Went (m ∷ ms) out c (after_one host u m out r (unload_one host m c).1)
      go unloaded f e (new, k, t) = (
        m ∷ new,
        k ∙ append_assoc out (m ∷ []) new,
        went m ms c
            (unload_all host ms (out ++ m ∷ []) (say (done_unload m) (unload_one host m c).1)).0.0
            new (unload_all host ms (out ++ m ∷ []) (say (done_unload m) (unload_one host m c).1)).1
            f e t,
      )
      go not_found f e w = stops m ms out c not_found f e (λ k. cc)
      go lane_busy f e w = stops m ms out c lane_busy f e (λ k. cc)
      go refused f e w = stops m ms out c refused f e (λ k. cc)
      go cannot_close f e w = stops m ms out c cannot_close f e (λ k. cc)
      go not_disabled f e w = stops m ms out c not_disabled f e (λ k. cc)

  all_taken :
      (order : List String) (name : String) (c : Console)
      → let u = unload_all host (order ++ name ∷ []) [] c in
        Taken (order ++ name ∷ []) c u.0.0 u.0.1 u.1
  all_taken order name c =
      let (new, e, t) = unload_all-Taken (order ++ name ∷ []) [] c in
      let u = unload_all host (order ++ name ∷ []) [] c in
      subst (λ (out : List String). Taken (order ++ name ∷ []) c u.0.0 out u.1) (sym e) t

  unload_with-GoesOn :
      (name : String) (cascade : Bool) (order : List String) (c : Console)
      → is_rust_mod name c ≡ true
      → dependents_of (loaded_dependency_map host c) name ≡ some order
      → (((unload_with host name cascade order c).0.0 ≡ false)
          × Untouched c (unload_with host name cascade order c).1)
        ⊎ GoesOn name cascade c (unload_with host name cascade order c)
  unfolding unload_with
  unload_with-GoesOn name cascade order c ours e =
      elim (Bool-cases (not (is_nil order) && not cascade)) [
        | inl f ↦ rw (f, unload_with) (inl (refl, (refl, refl)))
        | inr f ↦ elim (Bool-cases (is_nil (foreign_of c order))) [
          | inr g ↦ rw (f, g, unload_with) (inl (refl, (refl, refl)))
          | inl g ↦
              let (order', e', exact, once) =
                dependents_of_total (loaded_dependency_map host c) name
                  (loaded_dependency_map-IsMap c) in
              let same : order' ≡ order = ground (arith, e, e') in
              rw (f, g, unload_with)
                (inr (record {
                  ours = ours;
                  order = order;
                  ordered = e;
                  dependents_ours = λ m ne n.
                      let listed : has m order ≡ true = rw (← same) ((exact m).1 (ne, n)) in
                      (foreign_none c order m g listed, ground (arith, nobody order m, listed, f));
                  taken_out = all_taken order name c;
                }))
        ]
      ]

  -- An unload either answers false and changes nothing but what it says, or the mod is ours, so are
  -- all mods that need it, directly or through others, and there are none of these unless the
  -- command says to cascade. Then the dependents are unloaded one by one in their order, and the mod
  -- itself last, where a mod that is not there at its turn is passed over; the first that cannot be
  -- unloaded ends it, with the answer false. The answer is true only if it came to the end, and the
  -- names that it gives are those that were taken out, in this order.
  pub do_unload-GoesOn :
      (name : String) (cascade : Bool) (c : Console) (u : Unloading host)
      → do_unload host name cascade c ≡ some u
      → ((u.0.0 ≡ false) × Untouched c u.1) ⊎ GoesOn name cascade c u
  unfolding do_unload
  do_unload-GoesOn name cascade c u h = elim (Bool-cases (is_rust_mod name c)) [
    | inr f ↦ let said = rw (f, do_unload) at h in ground arith
    | inl f ↦
        let (order, e, exact, once) =
          dependents_of_total (loaded_dependency_map host c) name (loaded_dependency_map-IsMap c) in
        let same : unload_with host name cascade order c ≡ u =
          ground (arith, rw (f, e, do_unload) at h) in
        subst (λ v. ((v.0.0 ≡ false) × Untouched c v.1) ⊎ GoesOn name cascade c v) same
          (unload_with-GoesOn name cascade order c f e)
  ]
