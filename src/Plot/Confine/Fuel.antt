-- ===== src/Plot/Confine/Fuel.antt =====
-- src/more_dimensions/plot/PlotConfine.cpp: the scan of a merged group ends within its limit.
use levilamina_rust_loader.Base.{
  ℕ, zero, suc, ◌+◌, ◌≤◌, ◌≡◌, refl, ap, Bool, true, false, Option, none, some, List, [], ◌∷◌, ◌⊎◌,
  inl, inr, arith, Option-cases, Bool-cases, length, nat_eq, ◌==◌,
}
use levilamina_rust_loader.Base.Int.{ℤ, pos, int_eq}
use levilamina_rust_loader.Base.Assoc.{find, put, emplace}
use levilamina_rust_loader.Plot.Confine.Graph.{
  PlotXz, DimGrid, Scan, look, look_around, scan, group_root, group_scan_limit, scan_fuel, pk,
  holds, and_then, unpk, any_edge, scanned, same_plot,
}
use levilamina_rust_loader.Plot.Confine.Owner.{owning_plot_locked}
use levilamina_rust_loader.Plot.Confine.Grids.{
  Grids, same_root, same_owner, same_area, against, then_root, remember,
}

-- From a scan to the next: as many plots have been pushed as members were added.
abbrev Grew : Scan → Scan → Type 0
Grew s t =
    (length t.members + length s.stack ≡ length s.members + length t.stack)
    × (length s.members ≤ length t.members)
    × (length t.members ≤ group_scan_limit)

abbrev Goes : (Scan → Type 0) → List ℕ ⊎ Scan → Type 0
Goes P (inl seen) = Unit
Goes P (inr s) = P s

bind-Goes :
    (P Q : Scan → Type 0) (o : List ℕ ⊎ Scan) (next : Scan → List ℕ ⊎ Scan)
    → Goes P o
    → ((s : Scan) → P s → Goes Q (next s))
    → Goes Q (and_then o next)
bind-Goes P Q (inl seen) next h k = tt
bind-Goes P Q (inr s) next h k = k s h

after-Grew : (s t : Scan) (o : List ℕ ⊎ Scan) → Grew s t → Goes (Grew t) o → Goes (Grew s) o
after-Grew s t (inl seen) h k = tt
after-Grew s t (inr u) h k = (omega (arith, h.0, k.0), omega (arith, h.1, k.1), k.2)

module _ (g : DimGrid) (cur : PlotXz) where
  look-Grew :
      (d : ℕ) (s : Scan) → length s.members ≤ group_scan_limit → Goes (Grew s) (look g cur d s)
  unfolding look
  look-Grew d s h = ground arith

  look_on : (d : ℕ) (s t : Scan) → Grew s t → Goes (Grew s) (look g cur d t)
  look_on d s t h = after-Grew s t (look g cur d t) h (look-Grew d t h.2)

  look_around-Grew :
      (s : Scan) → length s.members ≤ group_scan_limit → Goes (Grew s) (look_around g cur s)
  unfolding look_around
  look_around-Grew s h =
      bind-Goes (Grew s) (Grew s) (look g cur 0 s)
        (λ a. and_then (look g cur 1 a) (λ b. and_then (look g cur 2 b) (look g cur 3)))
        (look-Grew 0 s h)
        (λ a ha.
          bind-Goes (Grew s) (Grew s) (look g cur 1 a)
            (λ b. and_then (look g cur 2 b) (look g cur 3)) (look_on 1 s a ha)
            (λ b hb.
              bind-Goes (Grew s) (Grew s) (look g cur 2 b) (look g cur 3) (look_on 2 s b hb)
                (λ c hc. look_on 3 s c hc)))

pub List-cases :
    (xs : List PlotXz) → (xs ≡ []) ⊎ ((x : PlotXz) × (ys : List PlotXz) × (xs ≡ x ∷ ys))
List-cases [] = inl refl
List-cases (x ∷ ys) = inr (x, ys, refl)

-- Every round takes a plot off the stack, and pushes as many as it adds members.
module _ (g : DimGrid) where
  pub scan_done : (fuel : ℕ) (s : Scan) → s.stack ≡ [] → scan g fuel s ≡ some (inr s)
  unfolding scan
  scan_done zero s o = rw o refl
  scan_done (suc fuel) s o = rw o refl

  pub scan_out :
      (s : Scan) (cur : PlotXz) (rest : List PlotXz) → s.stack ≡ cur ∷ rest → scan g zero s ≡ none
  unfolding scan
  scan_out s cur rest o = rw o refl

  abbrev pub scan_next : ℕ → List ℕ ⊎ Scan → Option (List ℕ ⊎ Scan)
  scan_next fuel (inl seen) = some (inl seen)
  scan_next fuel (inr t) = scan g fuel t

  pub scan_round :
      (fuel : ℕ) (s : Scan) (cur : PlotXz) (rest : List PlotXz)
      → s.stack ≡ cur ∷ rest
      → scan g (suc fuel) s ≡ scan_next fuel (look_around g cur (record s { stack = rest }))
  unfolding scan
  scan_round fuel s cur rest o = rw o (scan_elim (look_around g cur (record s { stack = rest })))
    where
      scan_elim :
          (o : List ℕ ⊎ Scan)
          → (elim o [ inl seen ↦ some (inl seen) | inr t ↦ scan g fuel t ]) ≡ scan_next fuel o
      scan_elim (inl seen) = refl
      scan_elim (inr t) = refl

  pub scan_ends :
      (fuel : ℕ) (s : Scan)
      → length s.members ≤ group_scan_limit
      → group_scan_limit + length s.stack ≤ fuel + length s.members
      → (o : List ℕ ⊎ Scan) × (scan g fuel s ≡ some o)
  scan_ends zero s h l = elim (List-cases s.stack) [
    | inl o ↦ (inr s, scan_done zero s o)
    | inr (cur, rest, o) ↦ absurd (omega (arith, h, l, ap length o))
  ]
  scan_ends (suc fuel) s h l = elim (List-cases s.stack) [
    | inl o ↦ (inr s, scan_done (suc fuel) s o)
    | inr (cur, rest, o) ↦
        let t : Scan = record s { stack = rest } in
        rw (scan_round fuel s cur rest o) (
          go t (λ u. scan_ends fuel u) (look_around g cur t) (look_around-Grew g cur t h)
            (omega (arith, l, ap length o)))
  ]
    where
      go :
          (t : Scan)
          → ((u : Scan)
              → length u.members ≤ group_scan_limit
              → group_scan_limit + length u.stack ≤ fuel + length u.members
              → (o : List ℕ ⊎ Scan) × (scan g fuel u ≡ some o))
          → (o : List ℕ ⊎ Scan) → Goes (Grew t) o
          → group_scan_limit + length t.stack ≤ fuel + length t.members
          → (r : List ℕ ⊎ Scan) × (scan_next fuel o ≡ some r)
      go t rec (inl seen) k m = (inl seen, refl)
      go t rec (inr u) k m = rec u k.2 (omega (arith, k.0, m))

pub group_root_total :
    (g : DimGrid) (id : PlotXz) → (r : Option PlotXz × DimGrid) × (group_root g id ≡ some r)
unfolding group_root
group_root_total g id =
    let start : Scan = record {
      seen = pk id ∷ [];
      stack = id ∷ [];
      members = pk id ∷ [];
      best = id;
    } in
    let (o, e) = scan_ends g scan_fuel start (omega arith) (omega arith) in
    elim (Bool-cases (holds (pk id) g.oversized)) [
      | inl b ↦ ((none, g), rw b refl)
      | inr b ↦ elim (Option-cases (find (pk id) g.roots)) [
        | inr (root, f) ↦ ((some (unpk root), g), rw (b, f) refl)
        | inl f ↦ elim (Bool-cases (any_edge g id)) [
          | inl c ↦ (scanned g o, rw (b, f, c, e) refl)
          | inr c ↦
              ((some id, record g { roots = emplace (pk id) (pk id) g.roots }), rw (b, f, c) refl)
        ]
      ]
    ]

abbrev Total {ℓ} : {A : Type ℓ} → Option A → Type ℓ
Total {A = A} o = (a : A) × (o ≡ some a)

against-Total :
    (ra : PlotXz) (o : Option (Option PlotXz × DimGrid)) → Total o → Total (against ra o)
against-Total ra none (r, e) = absurd (cc e)
against-Total ra (some (none, i)) p = ((false, i), refl)
against-Total ra (some (some rb, i)) p = ((same_plot ra rb, i), refl)

then_root-Total :
    (b : PlotXz) (o : Option (Option PlotXz × DimGrid)) → Total o → Total (then_root b o)
then_root-Total b none (r, e) = absurd (cc e)
then_root-Total b (some (none, h)) p = ((false, h), refl)
then_root-Total b (some (some ra, h)) p = against-Total ra (group_root h b) (group_root_total h b)

same_owner-Total : (g : DimGrid) (a b : Option PlotXz) → Total (same_owner g a b)
unfolding same_owner same_root
same_owner-Total g none none = ((true, g), refl)
same_owner-Total g none (some b) = ((false, g), refl)
same_owner-Total g (some a) none = ((false, g), refl)
same_owner-Total g (some a) (some b) = elim (Bool-cases (same_plot a b)) [
  | inl c ↦ ((true, g), rw c refl)
  | inr c ↦ rw c (then_root-Total b (group_root g a) (group_root_total g a))
]

remember-Total :
    (dimension : ℤ) (s : Grids) (o : Option (Bool × DimGrid))
    → Total o
    → Total (remember dimension s o)
remember-Total dimension s none (r, e) = absurd (cc e)
remember-Total dimension s (some (ok, h)) p =
    ((ok, record s { grids = put dimension h s.grids }), refl)

-- `sameArea` always decides: the scan ends within the fuel, whatever the merge table holds.
pub same_area_total :
    (dimension x1 z1 x2 z2 : ℤ) (s : Grids)
    → (r : Bool × Grids) × (same_area dimension x1 z1 x2 z2 s ≡ some r)
unfolding same_area
same_area_total dimension x1 z1 x2 z2 s = elim (Bool-cases (s.grid_count == pos 0)) [
  | inl b ↦ ((true, s), rw b refl)
  | inr b ↦ elim (Option-cases (find dimension s.grids)) [
    | inl f ↦ ((true, s), rw (b, f) refl)
    | inr (g, f) ↦
        rw (b, f)
          (remember-Total dimension s
            (same_owner g (owning_plot_locked g x1 z1) (owning_plot_locked g x2 z2))
            (same_owner-Total g (owning_plot_locked g x1 z1) (owning_plot_locked g x2 z2)))
  ]
]
