-- ===== src/Plot/Confine/Sound.antt =====
-- src/more_dimensions/plot/PlotConfine.cpp: `sameArea` answers true to two owned columns only within
-- one merged group.
use levilamina_rust_loader.Base.{
  ℕ, ◌≡◌, refl, sym, ap, ◌∙◌, Bool, true, false, Option, none, some, List, [], ◌∷◌, ◌++◌, ◌⊎◌, inl,
  inr, arith, Bool-cases, Option-cases, ◌==◌, nat_eq, eq_self,
}
use mathlib.Core.Path.{subst}
use levilamina_rust_loader.Base.Int.{ℤ, pos, int_eq}
use levilamina_rust_loader.Base.Assoc.{find, put, emplace_fresh, find-put}
use levilamina_rust_loader.Plot.Confine.Graph.{
  PlotXz, same_plot, pk, unpk, DimGrid, Scan, scan, scan_fuel, put_all, scanned, group_root, holds,
  any_edge,
}
use levilamina_rust_loader.Plot.Confine.Owner.{owning_plot_locked}
use levilamina_rust_loader.Plot.Confine.Grids.{
  Grids, against, then_root, same_root, same_owner, remember, same_area,
}
use levilamina_rust_loader.Plot.Confine.Linked.{
  InRange, Found, unpk-pk, Linked, here, back, through, IsSound, Keeps, EndsSound, scan-EndsSound,
}
use levilamina_rust_loader.Plot.Confine.Roots.{
  Linked-same, Joined, Remembers, put-Remembers, put_all-Remembers, same_plot-eq, pk_injective,
}

-- The grid remembers only roots that its plots are linked to.
abbrev pub IsHonest : DimGrid → Type 0
IsHonest g = Remembers g g.roots

-- What a root that is answered for a plot is, beside the grid that is left.
abbrev RootOf : DimGrid → PlotXz → Option (Option PlotXz × DimGrid) → Type 0
RootOf g id none = Unit
RootOf g id (some (none, h)) = (g.merges ≡ h.merges) × IsHonest h
RootOf g id (some (some root, h)) =
    (g.merges ≡ h.merges) × IsHonest h × InRange root × Linked g id root

honest-same :
    (g h : DimGrid) (roots : List (ℕ × ℕ))
    → g.merges ≡ h.merges
    → Remembers g roots
    → Remembers h roots
honest-same g h roots e m k r f =
    let j = m k r f in
    record {
      from = j.from;
      to = j.to;
      from_key = j.from_key;
      to_key = j.to_key;
      from_in = j.from_in;
      to_in = j.to_in;
      link = Linked-same g h j.from j.to e j.link;
    }

scanned-RootOf :
    (g : DimGrid) (id : PlotXz) (o : List ℕ ⊎ Scan)
    → IsHonest g
    → Keeps (IsSound g id) o
    → RootOf g id (some (scanned g o))
scanned-RootOf g id (inl seen) h k =
    (refl, honest-same g (record g { oversized = seen ++ g.oversized }) g.roots refl h)
scanned-RootOf g id (inr s) h k =
    let rooted = record g { roots = put_all s.members (pk s.best) g.roots } in
    (
      refl,
      honest-same g rooted (put_all s.members (pk s.best) g.roots) refl
          (put_all-Remembers g id s.best s.members g.roots k.best_found k.members_found h),
      k.best_found.0,
      k.best_found.1,
    )

remembered :
    (g : DimGrid) (id : PlotXz) (r : ℕ)
    → InRange id
    → Joined g (pk id) r
    → InRange (unpk r) × Linked g id (unpk r)
remembered g id r h j =
    let same_from = pk_injective j.from id j.from_in h j.from_key in
    let root : unpk r ≡ j.to = sym (ap unpk j.to_key) ∙ unpk-pk j.to j.to_in in
    rw root (j.to_in, subst (λ (p : PlotXz). Linked g p j.to) same_from j.link)

group_root-RootOf :
    (g : DimGrid) (id : PlotXz) → InRange id → IsHonest g → RootOf g id (group_root g id)
unfolding group_root
group_root-RootOf g id r h =
    let start : Scan = record {
      seen = pk id ∷ [];
      stack = id ∷ [];
      members = pk id ∷ [];
      best = id;
    } in
    let at : Found g id id = (r, here id) in
    elim (Bool-cases (holds (pk id) g.oversized)) [
      | inl b ↦ rw b (refl, h)
      | inr b ↦ elim (Option-cases (find (pk id) g.roots)) [
        | inr (root, f) ↦
            rw (b, f)
              (
                refl,
                h,
                (remembered g id root r (h (pk id) root f)).0,
                (remembered g id root r (h (pk id) root f)).1,
              )
        | inl f ↦ elim (Bool-cases (any_edge g id)) [
          | inr c ↦
              let own : Joined g (pk id) (pk id) = record {
                from = id;
                to = id;
                from_key = refl;
                to_key = refl;
                from_in = r;
                to_in = r;
                link = here id;
              } in
              rw (b, f, c, emplace_fresh (pk id) (pk id) g.roots f)
                (
                  refl,
                  honest-same g (record g { roots = put (pk id) (pk id) g.roots })
                      (put (pk id) (pk id) g.roots) refl
                      (put-Remembers g (pk id) (pk id) g.roots own h),
                  r,
                  here id,
                )
          | inl c ↦ elim (Option-cases (scan g scan_fuel start)) [
            | inl e ↦ rw (b, f, c, e) tt
            | inr (o, e) ↦
                rw (b, f, c, e)
                  (scanned-RootOf g id o h (
                    subst (EndsSound g id) e (
                      scan-EndsSound g id scan_fuel start (record {
                        stack_found = (at, tt);
                        members_found = ((id, refl, at), tt);
                        best_found = at;
                      }))))
          ]
        ]
      ]
    ]

-- What an answer to two columns with these owners means.
abbrev pub Means : DimGrid → Option PlotXz → Option PlotXz → Bool → Type 0
Means g none none ok = ok ≡ true
Means g none (some b) ok = ok ≡ false
Means g (some a) none ok = ok ≡ false
Means g (some a) (some b) false = Unit
Means g (some a) (some b) true = Linked g a b

abbrev Decided : DimGrid → Option PlotXz → Option PlotXz → Option (Bool × DimGrid) → Type 0
Decided g a b none = Unit
Decided g a b (some (ok, h)) = IsHonest h × Means g a b ok

abbrev pub OwnerIn : Option PlotXz → Type 0
OwnerIn none = Unit
OwnerIn (some p) = InRange p

module _ (g : DimGrid) (a b : PlotXz) where
  against-Decided :
      (h : DimGrid) (ra : PlotXz) (o : Option (Option PlotXz × DimGrid))
      → g.merges ≡ h.merges
      → Linked g a ra
      → RootOf h b o
      → Decided g (some a) (some b) (against ra o)
  against-Decided h ra none e l r = tt
  against-Decided h ra (some (none, i)) e l r = (r.1, tt)
  against-Decided h ra (some (some rb, i)) e l (f, honest, _, m) =
      (honest, same (same_plot ra rb) refl)
    where
      same : (ok : Bool) → same_plot ra rb ≡ ok → Means g (some a) (some b) ok
      same false c = tt
      same true c = through l (
          subst (λ (p : PlotXz). Linked g p b) (sym (same_plot-eq ra rb c))
            (back (Linked-same h g b rb (sym e) m)))

  then_root-Decided :
      InRange b
      → (o : Option (Option PlotXz × DimGrid)) → RootOf g a o
      → Decided g (some a) (some b) (then_root b o)
  then_root-Decided ib none r = tt
  then_root-Decided ib (some (none, h)) r = (r.1, tt)
  then_root-Decided ib (some (some ra, h)) (e, honest, _, l) =
      against-Decided h ra (group_root h b) e l (group_root-RootOf h b ib honest)

same_owner-Decided :
    (g : DimGrid) (a b : Option PlotXz)
    → IsHonest g
    → OwnerIn a
    → OwnerIn b
    → Decided g a b (same_owner g a b)
unfolding same_owner same_root
same_owner-Decided g none none h ia ib = (h, refl)
same_owner-Decided g none (some b) h ia ib = (h, refl)
same_owner-Decided g (some a) none h ia ib = (h, refl)
same_owner-Decided g (some a) (some b) h ia ib = elim (Bool-cases (same_plot a b)) [
  | inl c ↦ rw c (h, subst (Linked g a) (same_plot-eq a b c) (here a))
  | inr c ↦ rw c (then_root-Decided g a b ib (group_root g a) (group_root-RootOf g a ia h))
]

-- Where some grid is registered, the owners of the two columns have 32-bit coordinates, and the
-- dimension's grid remembers only roots that its plots are linked to: `sameArea` answers true to
-- two columns on the road, false to one on the road and one in a plot, and true to two columns of
-- plots only if merged edges lead from the one plot to the other; and what the grid then remembers
-- is again such. (An answer false is also given for a group beyond the limit.)
pub same_area-Means :
    (dimension x1 z1 x2 z2 : ℤ) (s t : Grids) (g : DimGrid) (ok : Bool)
    → (s.grid_count == pos 0) ≡ false
    → find dimension s.grids ≡ some g
    → IsHonest g
    → OwnerIn (owning_plot_locked g x1 z1)
    → OwnerIn (owning_plot_locked g x2 z2)
    → same_area dimension x1 z1 x2 z2 s ≡ some (ok, t)
    → Means g (owning_plot_locked g x1 z1) (owning_plot_locked g x2 z2) ok
      × (h : DimGrid) × (find dimension t.grids ≡ some h)
      × IsHonest h
unfolding same_area
same_area-Means dimension x1 z1 x2 z2 s t g ok c f h ia ib e =
    go (same_owner g (owning_plot_locked g x1 z1) (owning_plot_locked g x2 z2))
      (same_owner-Decided g (owning_plot_locked g x1 z1) (owning_plot_locked g x2 z2) h ia ib)
      (rw (c, f) at e)
  where
    go :
        (o : Option (Bool × DimGrid))
        → Decided g (owning_plot_locked g x1 z1) (owning_plot_locked g x2 z2) o
        → remember dimension s o ≡ some (ok, t)
        → Means g (owning_plot_locked g x1 z1) (owning_plot_locked g x2 z2) ok
          × (i : DimGrid) × (find dimension t.grids ≡ some i)
          × IsHonest i
    go none d q = absurd (cc q)
    go (some (answer, i)) d q = (
      subst (Means g (owning_plot_locked g x1 z1) (owning_plot_locked g x2 z2)) (cc q) d.1,
      i,
      ground (arith, q, find-put dimension dimension i s.grids, eq_self dimension),
      d.0,
    )
