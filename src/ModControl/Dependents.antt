-- ===== src/ModControl/Dependents.antt =====
-- src/core/ModControl.cpp: `dependentsOf` answers exactly the dependents, each before what it needs.
use levilamina_rust_loader.Base.{
  ℕ, zero, suc, ◌≤◌, ◌<◌, ◌≡◌, ◌≢◌, ◌↔◌, String, true, false, some, List, [], ◌∷◌, ◌++◌, string_eq,
  arith, Bool-cases, inl, inr, eq_self,
}
use text.Mathlib.TextEquality.{eq_iff}
use mathlib.Core.Path.{subst}
use levilamina_rust_loader.Base.Assoc.{IsMap}
use levilamina_rust_loader.ModControl.Names.{has, times, has-times, has-append, reversed}
use levilamina_rust_loader.ModControl.Graph.{
  Deps, list_of, Kahn, append_missing, order_of, dependents_of,
}
use levilamina_rust_loader.ModControl.Closure.{Needs, affected_by_finds}
use levilamina_rust_loader.ModControl.Counts.{load_some}
use levilamina_rust_loader.ModControl.Kahn.{On, DependentsFirst}
use levilamina_rust_loader.ModControl.Order.{
  has-reversed, Emitted, emitted, append_nothing, order_answers,
}

module _ (deps : Deps) where
  -- No later name needs an earlier one.
  abbrev pub InUnloadOrder : List String → Type 0
  InUnloadOrder [] = Unit
  InUnloadOrder (m ∷ later) =
      ((x : String) → has x later ≡ true → has m (list_of x deps) ≡ false) × InUnloadOrder later

module _ (deps : Deps) (affected : List String) (once : (x : String) → times x affected ≤ 1) where
  InUnloadOrder-append :
      (l : List String) (m : String)
      → ((y : String) → has y l ≡ true → has y (list_of m deps) ≡ false)
      → InUnloadOrder deps l
      → InUnloadOrder deps (l ++ m ∷ [])
  InUnloadOrder-append [] m h o = (λ x k. absurd (cc), tt)
  InUnloadOrder-append (y ∷ l) m h o = (
    λ x k. ground (arith, has-append x l (m ∷ []), h y, eq_self y, o.0 x, eq_iff m x),
    InUnloadOrder-append l m (λ z k. h z (ground arith)) o.1,
  )

  emitted_before :
      (l : List String) (y x : String)
      → DependentsFirst deps affected l
      → has y l ≡ true
      → has x affected ≡ true
      → has y (list_of x deps) ≡ true
      → has x l ≡ true
  emitted_before [] y x f h a n = cc
  emitted_before (m ∷ l) y x f h a n = ground (arith, emitted_before l y x f.1, f.0 x a, eq_iff m y)

  reversed-InUnloadOrder :
      (l : List String)
      → DependentsFirst deps affected l
      → ((x : String) → times x l ≤ 1)
      → ((x : String) → has x l ≡ true → has x affected ≡ true)
      → InUnloadOrder deps (reversed l)
  reversed-InUnloadOrder [] f o k = tt
  reversed-InUnloadOrder (m ∷ l) f o k =
      let fresh : has m l ≡ false = ground (arith, o m, has-times m l, eq_self m) in
      InUnloadOrder-append (reversed l) m
        (λ y h.
          ground
            (arith, has-reversed deps affected once y l, emitted_before l y m f.1, k m, eq_self m))
        (reversed-InUnloadOrder l f.1 (λ x. ground (arith, o x)) (λ x h. k x (ground arith)))

  module _ (rank : String → ℕ)
      (falls : (x m : String) → has m (list_of x deps) ≡ true → rank x < rank m) where
    all_emitted :
        (t : Kahn)
        → On deps affected [] t
        → t.ready ≡ []
        → (n : ℕ) (m : String) → rank m < n
        → has m affected ≡ true
        → has m t.emitted ≡ true
    all_emitted t on done zero m r a = absurd (omega arith)
    all_emitted t on done (suc n) m r a = elim (Bool-cases (has m t.emitted)) [
      | inl e ↦ e
      | inr e ↦
          let (x, known, late, needs) =
            load_some deps t.emitted m affected
              (ground (arith, on.placed m a, on.counted m a, done)) in
          absurd (ground (arith, all_emitted t on done n x (omega (arith, falls x m needs)) known))
    ]

    order_of-InUnloadOrder :
        (order : List String) → order_of deps affected ≡ some order → InUnloadOrder deps order
    unfolding order_of Emitted
    order_of-InUnloadOrder order h =
        let (t, ends, on, done) = emitted deps affected once in
        let all : append_missing affected (reversed t.emitted) ≡ reversed t.emitted =
          append_nothing deps affected once affected (reversed t.emitted) (λ x a. ground (
            arith,
            has-reversed deps affected once x t.emitted,
            all_emitted t on done (suc (rank x)) x (omega arith) a,
          )) in
        let same : reversed t.emitted ≡ order = ground (arith, all, rw (ends, order_of) at h) in
        subst (InUnloadOrder deps) same (
          reversed-InUnloadOrder t.emitted on.first (λ x. ground (arith, on.apart x))
            (λ x k. on.known x (ground arith)))

module _ (deps : Deps) (name : String) (map : IsMap deps) where
  -- Where no mod is listed twice: `dependentsOf` always answers, also where dependencies run in
  -- circles. It lists each mod once, and exactly the mods other than the target that need it,
  -- directly or through others.
  pub dependents_of_total :
      (order : List String) × (dependents_of deps name ≡ some order)
      × ((m : String) → (has m order ≡ true) ↔ ((m ≢ name) × Needs deps name m))
      × ((m : String) → times m order ≤ 1)
  unfolding dependents_of
  dependents_of_total =
      let (affected, found, (exact, once)) = affected_by_finds deps name map in
      let (order, answers, (same, single)) = order_answers deps affected once in
      (
        order,
        rw (found, dependents_of) answers,
        λ m.
            (λ h. (exact m).0 (ground (arith, same m)), λ n. ground (arith, same m, (exact m).1 n)),
        single,
      )

  -- Where no mod is listed twice and the dependencies have no cycle, which a rank shows that falls
  -- from a mod to those that need it: in what `dependentsOf` answers no mod needs an earlier one, so
  -- each is taken out before anything that it depends on.
  pub dependents_of-InUnloadOrder :
      (rank : String → ℕ) (order : List String)
      → ((x m : String) → has m (list_of x deps) ≡ true → rank x < rank m)
      → dependents_of deps name ≡ some order
      → InUnloadOrder deps order
  unfolding dependents_of
  dependents_of-InUnloadOrder rank order falls h =
      let (affected, found, (exact, once)) = affected_by_finds deps name map in
      order_of-InUnloadOrder deps affected once rank falls order (rw (found, dependents_of) at h)
