-- ===== src/ModControl/Counts.antt =====
-- src/core/ModControl.cpp: what the counts of the ordering count.
use levilamina_rust_loader.Base.{
  ℕ, ◌+◌, ◌≤◌, ◌≡◌, ◌≢◌, refl, String, true, false, none, some, List, [], ◌∷◌, if◌then◌else◌, ◌==◌,
  string_eq, arith, Bool-cases, inl, inr, eq_self,
}
use text.Mathlib.TextEquality.{eq_iff}
use levilamina_rust_loader.Base.Int.{pos, ◌+ℤ◌, ◌-ℤ◌}
use levilamina_rust_loader.Base.Assoc.{find, put, find-put, put-IsMap, IsMap}
use levilamina_rust_loader.ModControl.Names.{has, times, has-times}
use levilamina_rust_loader.ModControl.Graph.{
  Deps, list_of, Counts, get_count, zero_counts, count_edges, count_all,
}

pub one_more : (n : ℕ) → pos n +ℤ pos 1 ≡ pos (n + 1)
unfolding ◌+ℤ◌
one_more n = ground arith

pub one_less : (n : ℕ) → pos (n + 1) -ℤ pos 1 ≡ pos n
unfolding ◌-ℤ◌
one_less n = ground arith

pub get_count-put :
    (d n : String) (m : Counts) (k : ℕ)
    → get_count n (put d (pos k) m) ≡ (if d == n then pos k else get_count n m)
unfolding get_count
get_count-put d n m k = ground (arith, find-put d n (pos k) m)

-- How many of the names that were not emitted depend on one, with their repetitions.
abbrev pub load : Deps → List String → String → List String → ℕ
load deps emitted d [] = 0
load deps emitted d (x ∷ xs) =
    (if has x emitted then 0 else times d (list_of x deps)) + load deps emitted d xs

module _ (deps : Deps) where
  load_absent :
      (emitted : List String) (cur d : String) (xs : List String)
      → has cur xs ≡ false
      → load deps (cur ∷ emitted) d xs ≡ load deps emitted d xs
  load_absent emitted cur d [] h = refl
  load_absent emitted cur d (x ∷ xs) h =
      ground (arith, load_absent emitted cur d xs, eq_iff x cur, eq_iff cur x)

  -- Emitting a name takes its own dependencies off the counts.
  pub load-emit :
      (emitted : List String) (cur d : String) (xs : List String)
      → times cur xs ≤ 1
      → has cur xs ≡ true
      → has cur emitted ≡ false
      → load deps (cur ∷ emitted) d xs + times d (list_of cur deps) ≡ load deps emitted d xs
  load-emit emitted cur d [] o h n = cc
  load-emit emitted cur d (x ∷ xs) o h n = elim (Bool-cases (x == cur)) [
    | inl e ↦
        let same : x ≡ cur = (eq_iff x cur).0 e in
        let gone : has cur xs ≡ false = ground (arith, has-times cur xs) in
        ground (arith, load_absent emitted cur d xs gone, eq_iff cur x)
    | inr e ↦ ground (arith, load-emit emitted cur d xs, eq_iff cur x)
  ]

  -- Where nothing is left that depends on a name, all that depend on it were emitted.
  pub load_zero :
      (emitted : List String) (d x : String) (xs : List String)
      → load deps emitted d xs ≡ 0
      → has x xs ≡ true
      → has d (list_of x deps) ≡ true
      → has x emitted ≡ true
  load_zero emitted d x [] z h n = cc
  load_zero emitted d x (y ∷ ys) z h n =
      ground (arith, load_zero emitted d x ys, eq_iff y x, has-times d (list_of x deps))

  pub load_some :
      (emitted : List String) (d : String) (xs : List String)
      → load deps emitted d xs ≢ 0
      → (x : String) × (has x xs ≡ true) × (has x emitted ≡ false) × (has d (list_of x deps) ≡ true)
  load_some emitted d [] h = absurd (h refl)
  load_some emitted d (x ∷ xs) h = elim (Bool-cases (has x emitted)) [
    | inl e ↦
        let (y, a, b, c) = load_some emitted d xs (ground (arith, h)) in (y, ground arith, b, c)
    | inr e ↦ elim (Bool-cases (has d (list_of x deps))) [
      | inl f ↦ (x, ground (arith, eq_self x), e, f)
      | inr f ↦
          let (y, a, b, c) =
            load_some emitted d xs (ground (arith, h, has-times d (list_of x deps))) in
          (y, ground arith, b, c)
    ]
  ]

  module _ (affected : List String) where
    -- A count of an affected name, and no entry for another.
    abbrev pub Counted : Counts → String → ℕ → Type 0
    Counted c d n = find d c ≡ (if has d affected then some (pos n) else none)

    find-zero :
        (d : String) (ms : List String)
        → find d (zero_counts ms) ≡ (if has d ms then some (pos 0) else none)
    unfolding zero_counts find
    find-zero d [] = refl
    find-zero d (m ∷ ms) = ground (arith, find-zero d ms, find-put m d (pos 0) (zero_counts ms))

    bump-Counted :
        (d e : String) (c : Counts) (n : ℕ)
        → has e affected ≡ true
        → Counted c d n
        → Counted (put e (get_count e c +ℤ pos 1) c) d (n + (if e == d then 1 else 0))
    unfolding get_count
    bump-Counted d e c n a h =
        ground (arith, find-put e d (get_count e c +ℤ pos 1) c, one_more n, eq_iff e d, a, h)

    count_edges-Counted :
        (d : String) (ds : List String) (c : Counts) (n : ℕ)
        → Counted c d n
        → Counted (count_edges affected ds c) d (n + times d ds)
    unfolding count_edges
    count_edges-Counted d [] c n h = ground (arith, h)
    count_edges-Counted d (e ∷ ds) c n h = elim (Bool-cases (has e affected)) [
      | inr f ↦ rw (f, count_edges) (ground (arith, count_edges-Counted d ds c n h, eq_iff e d))
      | inl f ↦
          rw (f, count_edges)
            (ground (
              arith,
              count_edges-Counted d ds (put e (get_count e c +ℤ pos 1) c)
                  (n + (if e == d then 1 else 0)) (bump-Counted d e c n f h),
            ))
    ]

    count_all-Counted :
        (d : String) (ms : List String) (c : Counts) (n : ℕ)
        → Counted c d n
        → Counted (count_all deps affected ms c) d (n + load deps [] d ms)
    unfolding count_all
    count_all-Counted d [] c n h = ground (arith, h)
    count_all-Counted d (m ∷ ms) c n h = ground (
      arith,
      count_all-Counted d ms (count_edges affected (list_of m deps) c)
          (n + times d (list_of m deps)) (count_edges-Counted d (list_of m deps) c n h),
    )

    -- The counts that the ordering starts with.
    pub start_counts :
        (d : String)
        → Counted
            (count_all deps affected affected (zero_counts affected))
            d
            (load deps [] d affected)
    start_counts d =
        ground (arith, count_all-Counted d affected (zero_counts affected) 0 (find-zero d affected))

    zero-IsMap : (ms : List String) → IsMap (zero_counts ms)
    unfolding zero_counts
    zero-IsMap [] = tt
    zero-IsMap (m ∷ ms) = put-IsMap m (pos 0) (zero_counts ms) (zero-IsMap ms)

    count_edges-IsMap :
        (ds : List String) (c : Counts) → IsMap c → IsMap (count_edges affected ds c)
    unfolding count_edges
    count_edges-IsMap [] c u = u
    count_edges-IsMap (e ∷ ds) c u = elim (Bool-cases (has e affected)) [
      | inr f ↦ rw (f, count_edges) (count_edges-IsMap ds c u)
      | inl f ↦
          rw (f, count_edges)
            (count_edges-IsMap ds (put e (get_count e c +ℤ pos 1) c)
              (put-IsMap e (get_count e c +ℤ pos 1) c u))
    ]

    count_all-IsMap :
        (ms : List String) (c : Counts) → IsMap c → IsMap (count_all deps affected ms c)
    unfolding count_all
    count_all-IsMap [] c u = u
    count_all-IsMap (m ∷ ms) c u =
        count_all-IsMap ms (count_edges affected (list_of m deps) c)
          (count_edges-IsMap (list_of m deps) c u)

    pub start-IsMap : IsMap (count_all deps affected affected (zero_counts affected))
    start-IsMap = count_all-IsMap affected (zero_counts affected) (zero-IsMap affected)
