-- ===== src/ModControl/Closure.antt =====
-- src/core/ModControl.cpp: the search over reverse dependencies ends and finds exactly the dependents.
use levilamina_rust_loader.Base.{
  ℕ, zero, suc, ◌+◌, ◌≤◌, ◌<◌, ◌≡◌, ◌≢◌, ◌↔◌, refl, String, true, not, ◌&&◌, ◌||◌, some, List, [],
  ◌∷◌, ◌++◌, if◌then◌else◌, ◌==◌, string_eq, arith, Bool-cases, inl, inr, ap, List-cases, length,
  length-append, count-le-length, eq_self,
}
use text.Mathlib.TextEquality.{eq_iff}
use levilamina_rust_loader.Base.Assoc.{find, put, find-put, IsMap}
use levilamina_rust_loader.ModControl.Names.{has, times, has-times, has-append, outside, outside-lt}
use levilamina_rust_loader.ModControl.Graph.{
  Deps, list_of, add_edges, reverse_edges, Search, visit, close, affected_by,
}

-- The mods that need another, directly or through others.
pub data Needs (deps : Deps) (target : String) : String → Type 0 where
  direct : (m : String) → has target (list_of m deps) ≡ true → Needs deps target m
  through :
      (m d : String) → Needs deps target d → has d (list_of m deps) ≡ true → Needs deps target m

abbrev keys : Deps → List String
keys [] = []
keys ((m, ds) ∷ rest) = m ∷ keys rest

length-keys : (deps : Deps) → length (keys deps) ≡ length deps
length-keys [] = refl
length-keys ((m, ds) ∷ rest) = omega (arith, length-keys rest)

has-keys : (deps : Deps) (d m : String) → has d (list_of m deps) ≡ true → has m (keys deps) ≡ true
unfolding list_of find
has-keys [] d m h = cc
has-keys ((k, ds) ∷ rest) d m h = ground (arith, has-keys rest d m)

list_of-put :
    (t n : String) (l : List String) (deps : Deps)
    → list_of n (put t l deps) ≡ (if t == n then l else list_of n deps)
unfolding list_of
list_of-put t n l deps = ground (arith, find-put t n l deps)

has-add_edges :
    (k m d : String) (ds : List String) (by : Deps)
    → has m (list_of d (add_edges k ds by)) ≡ (has m (list_of d by) || (k == m && has d ds))
unfolding add_edges
has-add_edges k m d [] by = ground arith
has-add_edges k m d (e ∷ ds) by = ground (
  arith,
  has-add_edges k m d ds (put e (list_of e by ++ k ∷ []) by),
  list_of-put e d (list_of e by ++ k ∷ []) by,
  has-append m (list_of e by) (k ∷ []),
  eq_iff e d,
)

-- The reverse edges are the edges, turned round.
has-reverse_edges :
    (m d : String) (l by : Deps)
    → IsMap l
    → has m (list_of d (reverse_edges l by)) ≡ (has m (list_of d by) || has d (list_of m l))
unfolding reverse_edges list_of find
has-reverse_edges m d [] by u = ground arith
has-reverse_edges m d ((k, ds) ∷ rest) by u = ground (
  arith,
  has-reverse_edges m d rest (add_edges k ds by) u.1,
  has-add_edges k m d ds by,
  eq_iff k m,
  u.0,
)

module _ (target : String) where
  affected-visit :
      (x : String) (deps : List String) (s : Search)
      → has x (visit target deps s).affected
        ≡ (has x s.affected || (has x deps && not (x == target)))
  unfolding visit
  affected-visit x [] s = ground arith
  affected-visit x (dep ∷ deps) s = ground (
    arith,
    affected-visit x deps s,
    affected-visit x deps (record { affected = dep ∷ s.affected; queue = s.queue ++ dep ∷ [] }),
    eq_iff dep x,
    eq_iff dep target,
    eq_iff x target,
  )

  queue-visit :
      (x : String) (deps : List String) (s : Search)
      → has x (visit target deps s).queue
        ≡ (has x s.queue || (has x deps && not (x == target) && not (has x s.affected)))
  unfolding visit
  queue-visit x [] s = ground arith
  queue-visit x (dep ∷ deps) s = ground (
    arith,
    queue-visit x deps s,
    queue-visit x deps (record { affected = dep ∷ s.affected; queue = s.queue ++ dep ∷ [] }),
    has-append x s.queue (dep ∷ []),
    eq_iff dep x,
    eq_iff dep target,
    eq_iff x target,
  )

  once-visit :
      (deps : List String) (s : Search)
      → ((x : String) → times x s.affected ≤ 1)
      → (x : String) → times x (visit target deps s).affected ≤ 1
  unfolding visit
  once-visit [] s h x = h x
  once-visit (dep ∷ deps) s h x = elim (Bool-cases (dep == target)) [
    | inl e ↦ rw (e, visit) (once-visit deps s h x)
    | inr e ↦ elim (Bool-cases (has dep s.affected)) [
      | inl f ↦ rw (e, f, visit) (once-visit deps s h x)
      | inr f ↦
          rw (e, f, visit)
            (once-visit deps (record { affected = dep ∷ s.affected; queue = s.queue ++ dep ∷ [] })
              (λ y. ground (arith, h y, eq_iff dep y, has-times dep s.affected)) x)
    ]
  ]

  work-visit :
      (all deps : List String) (s : Search)
      → ((x : String) → has x deps ≡ true → has x all ≡ true)
      → outside [] (visit target deps s).affected all + length (visit target deps s).queue
        ≤ outside [] s.affected all + length s.queue
  unfolding visit
  work-visit all [] s h = omega arith
  work-visit all (dep ∷ deps) s h =
      let next : Search = record { affected = dep ∷ s.affected; queue = s.queue ++ dep ∷ [] } in
      let later = work-visit all deps next (λ x p. ground (arith, h x)) in
      let same = work-visit all deps s (λ x p. ground (arith, h x)) in
      ground (
        arith,
        later,
        same,
        outside-lt dep [] s.affected all,
        h dep,
        eq_self dep,
        length-append s.queue (dep ∷ []),
      )

module _ (deps : Deps) (target : String) (map : IsMap deps) where
  abbrev by : Deps
  by = reverse_edges deps []

  has-by : (m d : String) → has m (list_of d by) ≡ has d (list_of m deps)
  has-by m d = rw (has-reverse_edges m d deps [] map) (unfold list_of find in refl)

  -- What the search has found is needed, and what it has left behind is closed.
  record Inv (s : Search) : Type 0 where
    sound : (x : String) → has x s.affected ≡ true → (x ≢ target) × Needs deps target x
    queued : (x : String) → has x s.queue ≡ true → (x == target || has x s.affected) ≡ true
    once : (x : String) → times x s.affected ≤ 1
    closed :
        (u x : String)
        → (u == target || has u s.affected) ≡ true
        → has u (list_of x deps) ≡ true
        → (has u s.queue || (x == target || has x s.affected)) ≡ true

  chain_up :
      (s : Search) (cur x : String)
      → Inv s
      → (cur == target || has cur s.affected) ≡ true
      → has cur (list_of x deps) ≡ true
      → Needs deps target x
  chain_up s cur x i c h = elim (Bool-cases (cur == target)) [
    | inl e ↦ direct x (rw ((eq_iff cur target).0 e) at h)
    | inr e ↦ through x cur (i.sound cur (ground arith)).1 h
  ]

  Inv-visit :
      (s : Search) (cur : String) (rest : List String)
      → s.queue ≡ cur ∷ rest
      → Inv s
      → Inv (visit target (list_of cur by) (record s { queue = rest }))
  Inv-visit s cur rest e i =
      let s' : Search = record s { queue = rest } in
      let aff = λ (x : String). affected-visit target x (list_of cur by) s' in
      let que = λ (x : String). queue-visit target x (list_of cur by) s' in
      let cur_in : (cur == target || has cur s.affected) ≡ true =
        i.queued cur (rw e (ground (arith, eq_self cur))) in
      record {
        sound = λ x h. elim (Bool-cases (has x s.affected)) [
          | inl f ↦ i.sound x f
          | inr f ↦
              let new : (has x (list_of cur by) && not (x == target)) ≡ true =
                ground (arith, aff x) in
              (
                ground (arith, eq_iff x target),
                chain_up s cur x i cur_in (ground (arith, has-by x cur)),
              )
        ];
        queued = λ x h. ground (arith, aff x, que x, i.queued x, e);
        once = once-visit target (list_of cur by) s' i.once;
        closed = λ u x h n.
            ground (arith, aff u, que u, aff x, i.closed u x, has-by x u, eq_iff cur u, e);
      }

  abbrev pub Found : List String → Type 0
  Found affected =
      ((x : String) → (has x affected ≡ true) ↔ ((x ≢ target) × Needs deps target x))
      × ((x : String) → times x affected ≤ 1)

  complete :
      (s : Search)
      → Inv s
      → s.queue ≡ []
      → {x : String} → Needs deps target x
      → (x == target || has x s.affected) ≡ true
  complete s i e (direct x h) = ground (arith, i.closed target x, eq_self target, e)
  complete s i e (through x d n h) = ground (arith, complete s i e n, i.closed d x, e)

  Inv-Found : (s : Search) → Inv s → s.queue ≡ [] → Found s.affected
  Inv-Found s i e =
      (λ x. (i.sound x, λ n. ground (arith, complete s i e n.1, eq_iff x target, n.0)), i.once)

  work-round :
      (s : Search) (cur : String) (rest : List String)
      → s.queue ≡ cur ∷ rest
      → let s' = visit target (list_of cur by) (record s { queue = rest }) in
        outside [] s'.affected (keys deps) + length s'.queue
        < outside [] s.affected (keys deps) + length s.queue
  work-round s cur rest e = omega (
    arith,
    ap length e,
    work-visit target (keys deps) (list_of cur by) (record s { queue = rest })
        (λ x h. has-keys deps cur x (rw (has-by x cur) at h)),
  )

  close_finds :
      (fuel : ℕ) (s : Search)
      → Inv s
      → outside [] s.affected (keys deps) + length s.queue ≤ fuel
      → (affected : List String) × (close by target fuel s ≡ some affected) × Found affected
  unfolding close
  close_finds zero s i h = elim (List-cases s.queue) [
    | inl e ↦ (s.affected, rw (e, close) refl, Inv-Found s i e)
    | inr (cur, rest, e) ↦ absurd (omega (arith, ap length e))
  ]
  close_finds (suc fuel) s i h = elim (List-cases s.queue) [
    | inl e ↦ (s.affected, rw (e, close) refl, Inv-Found s i e)
    | inr (cur, rest, e) ↦
        rw (e, close)
          (close_finds fuel (visit target (list_of cur by) (record s { queue = rest }))
            (Inv-visit s cur rest e i) (omega (arith, work-round s cur rest e)))
  ]

  pub affected_by_finds :
      (affected : List String) × (affected_by deps target ≡ some affected) × Found affected
  unfolding affected_by
  affected_by_finds =
      close_finds (suc (length deps)) (record { affected = []; queue = target ∷ [] })
        (record {
          sound = λ x h. absurd (cc);
          queued = λ x h. ground (arith, eq_iff target x, eq_iff x target);
          once = λ x. omega arith;
          closed = λ u x h n. ground (arith, eq_iff target u, eq_iff u target);
        })
        (omega
          (arith, length-keys deps, count-le-length (λ x. not (has x [] || has x [])) (keys deps)))
