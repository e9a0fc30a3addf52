-- ===== src/ModControl/Order.antt =====
-- src/core/ModControl.cpp: the ordering ends and lists each affected mod once.
use levilamina_rust_loader.Base.{
  ◌+◌, ◌≤◌, ◌≡◌, refl, String, true, false, not, ◌||◌, some, List, [], ◌∷◌, ◌++◌, if◌then◌else◌,
  ◌==◌, string_eq, arith, Bool-cases, inl, inr, length, eq_self, count-le-length, count-append,
}
use text.Mathlib.TextEquality.{eq_iff}
use levilamina_rust_loader.Base.Int.{pos, eqb_ℤ}
use levilamina_rust_loader.Base.Assoc.{keys_where}
use levilamina_rust_loader.ModControl.Names.{
  has, times, has-times, has-append, outside, outside-lt, sort_names, reversed, times-reversed,
  times-sort, times-keys_where,
}
use levilamina_rust_loader.ModControl.Graph.{
  Deps, Counts, get_count, count_all, zero_counts, Kahn, start_kahn, order_loop, append_missing,
  order_of,
}
use levilamina_rust_loader.ModControl.Counts.{load, start_counts, start-IsMap}
use levilamina_rust_loader.ModControl.Kahn.{On, work, order_loop_ends}

-- Names of a list, each once, are at most as many.
outside-room :
    (all r : List String)
    → ((x : String) → times x r ≤ 1)
    → ((x : String) → has x r ≡ true → has x all ≡ true)
    → outside [] r all + length r ≤ length all
outside-room all [] o h = omega (arith, count-le-length (λ x. not (has x [] || has x [])) all)
outside-room all (d ∷ r) o h =
    let later = outside-room all r (λ x. ground (arith, o x)) (λ x k. h x (ground arith)) in
    let new : has d r ≡ false = ground (arith, o d, has-times d r, eq_self d) in
    omega (arith, later, outside-lt d [] r all (h d (ground (arith, eq_self d))) refl new)

module _ (deps : Deps) (affected : List String) (once : (x : String) → times x affected ≤ 1) where
  abbrev counts : Counts
  counts = count_all deps affected affected (zero_counts affected)

  abbrev ready_names : List String
  ready_names = reversed (sort_names (keys_where (λ n. eqb_ℤ n (pos 0)) counts))

  times-ready :
      (d : String)
      → times d ready_names ≡ (
          if has d affected
          then (if eqb_ℤ (pos (load deps [] d affected)) (pos 0) then 1 else 0)
          else 0)
  times-ready d =
      rw
        (
          times-reversed d (sort_names (keys_where (λ n. eqb_ℤ n (pos 0)) counts)),
          times-sort d (keys_where (λ n. eqb_ℤ n (pos 0)) counts),
          times-keys_where (λ n. eqb_ℤ n (pos 0)) d counts (start-IsMap deps affected),
          start_counts deps affected d,
        )
        (ground arith)

  start-On : On deps affected [] (start_kahn deps affected)
  unfolding start_kahn get_count
  start-On = record {
    counted = λ d h. ground (arith, start_counts deps affected d);
    known = λ d h. ground (arith, times-ready d, has-times d ready_names);
    placed =
        λ d h. ground (arith, times-ready d, has-times d ready_names, start_counts deps affected d);
    apart = λ d. ground (arith, times-ready d);
    first = tt;
  }

  start_work : work deps affected (start_kahn deps affected) ≤ length affected
  unfolding start_kahn
  start_work =
      outside-room affected ready_names (λ x. ground (arith, times-ready x))
        (λ x h. ground (arith, times-ready x, has-times x ready_names))

  has-append_missing :
      (x : String) (ms ordered : List String)
      → has x (append_missing ms ordered) ≡ (has x ordered || has x ms)
  unfolding append_missing
  has-append_missing x [] ordered = ground arith
  has-append_missing x (m ∷ ms) ordered = ground (
    arith,
    has-append_missing x ms ordered,
    has-append_missing x ms (ordered ++ m ∷ []),
    has-append x ordered (m ∷ []),
    eq_iff m x,
  )

  pub append_nothing :
      (ms ordered : List String)
      → ((x : String) → has x ms ≡ true → has x ordered ≡ true)
      → append_missing ms ordered ≡ ordered
  unfolding append_missing
  append_nothing [] ordered h = refl
  append_nothing (m ∷ ms) ordered h =
      rw (h m (ground (arith, eq_self m)), append_missing)
        (append_nothing ms ordered (λ x k. h x (ground arith)))

  times-append_missing :
      (ms ordered : List String)
      → ((x : String) → times x ordered ≤ 1)
      → (x : String) → times x (append_missing ms ordered) ≤ 1
  unfolding append_missing
  times-append_missing [] ordered h x = h x
  times-append_missing (m ∷ ms) ordered h x = elim (Bool-cases (has m ordered)) [
    | inl e ↦ rw (e, append_missing) (times-append_missing ms ordered h x)
    | inr e ↦
        rw (e, append_missing)
          (times-append_missing ms (ordered ++ m ∷ [])
            (λ y. ground (
              arith,
              h y,
              count-append (λ z. z == y) ordered (m ∷ []),
              has-times m ordered,
              eq_iff m y,
            ))
            x)
  ]

  pub has-reversed : (x : String) (l : List String) → has x (reversed l) ≡ has x l
  has-reversed x l = ground (arith, has-times x l, has-times x (reversed l), times-reversed x l)

  -- What the loop leaves.
  unfoldable pub Emitted : Type 0
  Emitted =
      (t : Kahn) × (order_loop deps affected (length affected) (start_kahn deps affected)
        ≡ some t.emitted)
      × On deps affected [] t
      × (t.ready ≡ [])

  pub emitted : Emitted
  unfolding Emitted
  emitted =
      order_loop_ends deps affected once (length affected) (start_kahn deps affected) start-On
        start_work

  -- Each affected name comes once, whether or not the dependencies run in circles.
  abbrev pub Listed : List String → Type 0
  Listed order = ((x : String) → has x order ≡ has x affected) × ((x : String) → times x order ≤ 1)

  pub order_answers : (order : List String) × (order_of deps affected ≡ some order) × Listed order
  unfolding order_of Emitted
  order_answers =
      let (t, ends, on, done) = emitted in
      (
        append_missing affected (reversed t.emitted),
        rw (ends, order_of) refl,
        (
          λ x. ground (
            arith,
            has-append_missing x affected (reversed t.emitted),
            has-reversed x t.emitted,
            on.known x,
          ),
          times-append_missing affected (reversed t.emitted)
              (λ x. ground (arith, times-reversed x t.emitted, on.apart x)),
        ),
      )
