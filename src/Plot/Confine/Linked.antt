-- ===== src/Plot/Confine/Linked.antt =====
-- src/more_dimensions/plot/PlotConfine.cpp: two plots that have one root are joined by merged edges.
use levilamina_rust_loader.Base.{
  ℕ, zero, suc, ◌≡◌, refl, Bool, true, false, Option, none, some, List, ◌⊎◌, inl, inr, Bool-cases,
  All, if◌then◌else◌, ◌==◌, nat_eq, length, leb,
}
use levilamina_rust_loader.Base.Int.{
  pos, ◌+ℤ◌, ◌-ℤ◌, int_eq, IsInt32, word32, wrap_word-IsInt32, wrap_word-word32, pack_parts,
}
use mathlib.Core.Path.{subst}
use levilamina_rust_loader.Plot.Confine.Fuel.{
  List-cases, scan_done, scan_next, scan_round, scan_out,
}
use levilamina_rust_loader.Plot.Confine.Graph.{
  PlotXz, pk, unpk, DimGrid, neighbour_of, connected, less_than, Scan, look, look_around, and_then,
  scan, holds,
}

abbrev pub InRange : PlotXz → Type 0
InRange p = IsInt32 p.x × IsInt32 p.z

neighbour_in : (p : PlotXz) (dir : ℕ) → InRange p → InRange (neighbour_of p dir)
unfolding neighbour_of
neighbour_in p dir h = elim (Bool-cases (dir == 0)) [
  | inl a ↦ rw a (h.0, wrap_word-IsInt32 (word32 (p.z -ℤ pos 1)))
  | inr a ↦ elim (Bool-cases (dir == 1)) [
    | inl b ↦ rw (a, b) (wrap_word-IsInt32 (word32 (p.x +ℤ pos 1)), h.1)
    | inr b ↦ elim (Bool-cases (dir == 2)) [
      | inl c ↦ rw (a, b, c) (h.0, wrap_word-IsInt32 (word32 (p.z +ℤ pos 1)))
      | inr c ↦ rw (a, b, c) (wrap_word-IsInt32 (word32 (p.x -ℤ pos 1)), h.1)
    ]
  ]
]

pub unpk-pk : (p : PlotXz) → InRange p → unpk (pk p) ≡ p
unfolding unpk pk
unpk-pk p h =
    rw
      (
        (pack_parts p.x p.z).0,
        (pack_parts p.x p.z).1,
        wrap_word-word32 p.x h.0,
        wrap_word-word32 p.z h.1,
      )
      refl

-- Joined by merged edges, in either direction.
pub data Linked (g : DimGrid) : PlotXz → PlotXz → Type 0 where
  here : (a : PlotXz) → Linked g a a
  edge :
      {a b : PlotXz} (dir : ℕ)
      → Linked g a b
      → connected g b dir ≡ true
      → Linked g a (neighbour_of b dir)
  back : {a b : PlotXz} → Linked g a b → Linked g b a
  through : {a b c : PlotXz} → Linked g a b → Linked g b c → Linked g a c

-- A plot that a scan from `id` may hold, and one whose key it may hold.
abbrev pub Found : DimGrid → PlotXz → PlotXz → Type 0
Found g id p = InRange p × Linked g id p

abbrev pub FoundKey : DimGrid → PlotXz → ℕ → Type 0
FoundKey g id k = (p : PlotXz) × (pk p ≡ k) × Found g id p

pub record IsSound (g : DimGrid) (id : PlotXz) (s : Scan) : Type 0 where
  pub stack_found : All (Found g id) s.stack
  pub members_found : All (FoundKey g id) s.members
  pub best_found : Found g id s.best

abbrev pub Keeps : (Scan → Type 0) → List ℕ ⊎ Scan → Type 0
Keeps P (inl seen) = Unit
Keeps P (inr s) = P s

module _ (g : DimGrid) (id cur : PlotXz) (at : Found g id cur) where
  look-IsSound : (d : ℕ) (s : Scan) → IsSound g id s → Keeps (IsSound g id) (look g cur d s)
  unfolding look
  look-IsSound d s h = elim (Bool-cases (connected g cur d)) [
    | inr c ↦ rw c h
    | inl c ↦ elim (Bool-cases (holds (pk (neighbour_of cur d)) s.seen)) [
      | inl e ↦ rw (c, e) h
      | inr e ↦ elim (Bool-cases (leb 4096 (length s.members))) [
        | inl f ↦ rw (c, e, f) tt
        | inr f ↦
            let found : Found g id (neighbour_of cur d) =
              (neighbour_in cur d at.0, edge d at.1 c) in
            rw (c, e, f)
              (record {
                stack_found = (found, h.stack_found);
                members_found = ((neighbour_of cur d, refl, found), h.members_found);
                best_found = pick (less_than (neighbour_of cur d) s.best) found h.best_found;
              })
      ]
    ]
  ]
    where
      pick :
          {p q : PlotXz} (b : Bool) → Found g id p → Found g id q → Found g id (if b then p else q)
      pick true x y = x
      pick false x y = y

  bind-Keeps :
      (P : Scan → Type 0) (o : List ℕ ⊎ Scan) (next : Scan → List ℕ ⊎ Scan)
      → Keeps P o
      → ((s : Scan) → P s → Keeps P (next s))
      → Keeps P (and_then o next)
  bind-Keeps P (inl seen) next h k = tt
  bind-Keeps P (inr s) next h k = k s h

  look_around-IsSound : (s : Scan) → IsSound g id s → Keeps (IsSound g id) (look_around g cur s)
  unfolding look_around
  look_around-IsSound s h =
      let last = look g cur 3 in
      let third = λ (b : Scan). and_then (look g cur 2 b) last in
      bind-Keeps (IsSound g id) (look g cur 0 s) (λ a. and_then (look g cur 1 a) third)
        (look-IsSound 0 s h)
        (λ a ha. bind-Keeps (IsSound g id) (look g cur 1 a) third (look-IsSound 1 a ha) (λ b hb.
          bind-Keeps (IsSound g id) (look g cur 2 b) last (look-IsSound 2 b hb)
            (λ c hc. look-IsSound 3 c hc)))

-- What a scan ends with is sound, where it does not stop at the limit.
abbrev pub EndsSound : DimGrid → PlotXz → Option (List ℕ ⊎ Scan) → Type 0
EndsSound g id none = Unit
EndsSound g id (some o) = Keeps (IsSound g id) o

next-EndsSound :
    (g : DimGrid) (id : PlotXz) (fuel : ℕ) (o : List ℕ ⊎ Scan)
    → Keeps (IsSound g id) o
    → ((s : Scan) → IsSound g id s → EndsSound g id (scan g fuel s))
    → EndsSound g id (scan_next g fuel o)
next-EndsSound g id fuel (inl seen) h k = tt
next-EndsSound g id fuel (inr s) h k = k s h

pub scan-EndsSound :
    (g : DimGrid) (id : PlotXz) (fuel : ℕ) (s : Scan)
    → IsSound g id s
    → EndsSound g id (scan g fuel s)
scan-EndsSound g id zero s h = elim (List-cases s.stack) [
  | inl o ↦ rw (scan_done g zero s o) h
  | inr (cur, rest, o) ↦ rw (scan_out g s cur rest o) tt
]
scan-EndsSound g id (suc fuel) s h = elim (List-cases s.stack) [
  | inl o ↦ rw (scan_done g (suc fuel) s o) h
  | inr (cur, rest, o) ↦
      let found : Found g id cur × All (Found g id) rest =
        subst (All (Found g id)) o h.stack_found in
      let t : Scan = record s { stack = rest } in
      rw (scan_round g fuel s cur rest o) (
        next-EndsSound g id fuel (look_around g cur t)
          (look_around-IsSound g id cur found.0 t (record {
            stack_found = found.1;
            members_found = h.members_found;
            best_found = h.best_found;
          }))
          (λ u hu. scan-EndsSound g id fuel u hu))
]
