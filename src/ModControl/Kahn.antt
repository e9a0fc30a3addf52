-- ===== src/ModControl/Kahn.antt =====
-- src/core/ModControl.cpp: the loop of the ordering emits each affected mod once, dependents first.
use levilamina_rust_loader.Base.{
  ℕ, zero, suc, ◌+◌, ◌≤◌, ◌<◌, ◌≡◌, refl, ap, String, true, false, ◌||◌, some, List, [], ◌∷◌,
  if◌then◌else◌, string_eq, arith, Bool-cases, inl, inr, length, eq_self, List-cases,
}
use text.Mathlib.TextEquality.{eq_iff}
use levilamina_rust_loader.Base.Int.{pos, ◌-ℤ◌, eqb_ℤ}
use levilamina_rust_loader.Base.Assoc.{put}
use levilamina_rust_loader.ModControl.Names.{
  has, times, has-times, outside, outside-lt, outside-move,
}
use levilamina_rust_loader.ModControl.Graph.{
  Deps, list_of, get_count, Kahn, release, emit, order_loop,
}
use levilamina_rust_loader.ModControl.Counts.{load, load-emit, load_zero, one_less, get_count-put}

module _ (deps : Deps) (affected : List String) where
  -- Latest first: whatever depends on an emitted name was emitted before it.
  abbrev pub DependentsFirst : List String → Type 0
  DependentsFirst [] = Unit
  DependentsFirst (m ∷ before) =
      ((x : String) → has x affected ≡ true → has m (list_of x deps) ≡ true → has x before ≡ true)
      × DependentsFirst before

  -- The state of the ordering, where the dependencies of the last name are still to be released.
  pub record On (rest : List String) (s : Kahn) : Type 0 where
    pub counted :
        (d : String)
        → has d affected ≡ true
        → get_count d s.indeg ≡ pos (load deps s.emitted d affected + times d rest)
    pub known : (d : String) → (has d s.emitted || has d s.ready) ≡ true → has d affected ≡ true
    pub placed :
        (d : String)
        → has d affected ≡ true
        → (has d s.emitted || has d s.ready) ≡ eqb_ℤ (get_count d s.indeg) (pos 0)
    pub apart : (d : String) → times d s.ready + times d s.emitted ≤ 1
    pub first : DependentsFirst s.emitted

  abbrev pub work : Kahn → ℕ
  work s = outside s.emitted s.ready affected + length s.ready

  -- The body of `release`, of a dependency that is affected.
  abbrev lowered : String → Kahn → Kahn
  lowered d s =
      let n = get_count d s.indeg -ℤ pos 1 in
      let t = record s { indeg = put d n s.indeg } in
      if eqb_ℤ n (pos 0) then record t { ready = d ∷ t.ready } else t

  lowered-On :
      (d : String) (ds : List String) (s : Kahn)
      → has d affected ≡ true
      → On (d ∷ ds) s
      → On ds (lowered d s)
  lowered-On d ds s a o =
      let k = load deps s.emitted d affected + times d ds in
      let before : get_count d s.indeg ≡ pos (k + 1) = ground (arith, o.counted d a, eq_self d) in
      let n : get_count d s.indeg -ℤ pos 1 ≡ pos k = rw before (one_less k) in
      let out : (has d s.emitted || has d s.ready) ≡ false = ground (arith, o.placed d a, before) in
      let get = λ (x : String). get_count-put d x s.indeg k in
      elim (Bool-cases (eqb_ℤ (pos k) (pos 0))) [
        | inl z ↦
            rw (n, z)
              (record {
                counted = λ x h. ground (arith, get x, o.counted x, eq_iff d x);
                known = λ x h. ground (arith, o.known x, eq_iff d x);
                placed = λ x h. ground (arith, get x, o.placed x, eq_iff d x);
                apart = λ x.
                    ground
                      (arith, o.apart x, eq_iff d x, has-times d s.ready, has-times d s.emitted);
                first = o.first;
              })
        | inr z ↦
            rw (n, z)
              (record {
                counted = λ x h. ground (arith, get x, o.counted x, eq_iff d x);
                known = o.known;
                placed = λ x h. ground (arith, get x, o.placed x, eq_iff d x);
                apart = o.apart;
                first = o.first;
              })
      ]

  lowered-work :
      (d : String) (ds : List String) (s : Kahn)
      → has d affected ≡ true
      → On (d ∷ ds) s
      → work (lowered d s) ≤ work s
  lowered-work d ds s a o =
      let k = load deps s.emitted d affected + times d ds in
      let before : get_count d s.indeg ≡ pos (k + 1) = ground (arith, o.counted d a, eq_self d) in
      let out : (has d s.emitted || has d s.ready) ≡ false = ground (arith, o.placed d a, before) in
      ground (arith, outside-lt d s.emitted s.ready affected)

  skipped-On :
      (d : String) (ds : List String) (s : Kahn) → has d affected ≡ false → On (d ∷ ds) s → On ds s
  skipped-On d ds s a o = record {
    counted = λ x h. ground (arith, o.counted x, eq_iff d x);
    known = o.known;
    placed = o.placed;
    apart = o.apart;
    first = o.first;
  }

  release-On :
      (ds : List String) (s : Kahn)
      → On ds s
      → On [] (release affected ds s) × (work (release affected ds s) ≤ work s)
  unfolding release
  release-On [] s o = (o, omega arith)
  release-On (d ∷ ds) s o = elim (Bool-cases (has d affected)) [
    | inr f ↦ rw (f, release) (release-On ds s (skipped-On d ds s f o))
    | inl f ↦
        rw (f, release)
          (let (on, le) = release-On ds (lowered d s) (lowered-On d ds s f o) in
            (on, omega (arith, lowered-work d ds s f o)))
  ]

  module _ (once : (x : String) → times x affected ≤ 1) where
    popped-On :
        (cur : String) (rest : List String) (s : Kahn)
        → s.ready ≡ cur ∷ rest
        → On [] s
        → On (list_of cur deps) (record s { ready = rest; emitted = cur ∷ s.emitted })
    popped-On cur rest s e o =
        let here : has cur s.ready ≡ true = rw e (ground (arith, eq_self cur)) in
        let a : has cur affected ≡ true = o.known cur (ground arith) in
        let new : has cur s.emitted ≡ false =
          ground (arith, o.apart cur, has-times cur s.ready, has-times cur s.emitted) in
        let free : load deps s.emitted cur affected ≡ 0 =
          ground (arith, o.placed cur a, o.counted cur a) in
        record {
          counted = λ d h.
              ground (arith, o.counted d, load-emit deps s.emitted cur d affected (once cur) a new);
          known = λ d h. ground (arith, o.known d, e);
          placed = λ d h. ground (arith, o.placed d, e);
          apart = λ d. ground (arith, o.apart d, e);
          first = (λ x h n. load_zero deps s.emitted cur x affected free h n, o.first);
        }

    emit-On :
        (cur : String) (rest : List String) (s : Kahn)
        → s.ready ≡ cur ∷ rest
        → On [] s
        → On [] (emit deps affected cur rest s) × (work (emit deps affected cur rest s) < work s)
    unfolding emit
    emit-On cur rest s e o =
        let (on, le) =
          release-On (list_of cur deps) (record s { ready = rest; emitted = cur ∷ s.emitted })
            (popped-On cur rest s e o) in
        (on, rw e (omega (arith, outside-move cur s.emitted rest affected)))

    pub order_loop_ends :
        (fuel : ℕ) (s : Kahn)
        → On [] s
        → work s ≤ fuel
        → (t : Kahn) × (order_loop deps affected fuel s ≡ some t.emitted) × On [] t × (t.ready ≡ [])
    unfolding order_loop
    order_loop_ends zero s o h = elim (List-cases s.ready) [
      | inl e ↦ (s, rw (e, order_loop) refl, o, e)
      | inr (cur, rest, e) ↦ absurd (omega (arith, ap length e))
    ]
    order_loop_ends (suc fuel) s o h = elim (List-cases s.ready) [
      | inl e ↦ (s, rw (e, order_loop) refl, o, e)
      | inr (cur, rest, e) ↦
          rw (e, order_loop)
            (let (on, lt) = emit-On cur rest s e o in
              order_loop_ends fuel (emit deps affected cur rest s) on (omega arith))
    ]
