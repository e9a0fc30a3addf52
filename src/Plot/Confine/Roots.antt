-- ===== src/Plot/Confine/Roots.antt =====
-- src/more_dimensions/plot/PlotConfine.cpp: the roots that are remembered, and what `sameArea` may
-- answer true to.
use levilamina_rust_loader.Base.{
  ℕ, ◌≡◌, refl, sym, ◌∙◌, true, some, List, [], ◌∷◌, inl, inr, arith, All, nat_eq, nat_same, beq_of,
}
use mathlib.Core.Path.{subst}
use levilamina_rust_loader.Base.Int.{int_eq, eqb_ℤ_iff, pack_injective}
use levilamina_rust_loader.Base.Assoc.{find, put, find-put}
use levilamina_rust_loader.Plot.Confine.Graph.{
  PlotXz, same_plot, pk, DimGrid, claims, connected, put_all,
}
use levilamina_rust_loader.Plot.Confine.Linked.{
  InRange, Linked, here, edge, back, through, Found, FoundKey,
}

connected-same :
    (g h : DimGrid) (a : PlotXz) (dir : ℕ)
    → g.merges ≡ h.merges
    → connected g a dir ≡ connected h a dir
unfolding connected claims
connected-same g h a dir e = rw e refl

pub Linked-same : (g h : DimGrid) (a b : PlotXz) → g.merges ≡ h.merges → Linked g a b → Linked h a b
Linked-same g h a _ e (here _) = here a
Linked-same g h a _ e (edge {b = c} dir l o) =
    edge dir (Linked-same g h a c e l) (sym (connected-same g h c dir e) ∙ o)
Linked-same g h a b e (back l) = back (Linked-same g h b a e l)
Linked-same g h a b e (through {b = c} l m) =
    through (Linked-same g h a c e l) (Linked-same g h c b e m)

-- The keys of two plots that are linked.
pub record Joined (g : DimGrid) (k r : ℕ) : Type 0 where
  pub from : PlotXz
  pub to : PlotXz
  pub from_key : pk from ≡ k
  pub to_key : pk to ≡ r
  pub from_in : InRange from
  pub to_in : InRange to
  pub link : Linked g from to

-- Every plot is linked to the root that is remembered for it.
abbrev pub Remembers : DimGrid → List (ℕ × ℕ) → Type 0
Remembers g roots = (k r : ℕ) → find k roots ≡ some r → Joined g k r

pub put-Remembers :
    (g : DimGrid) (k r : ℕ) (m : List (ℕ × ℕ))
    → Joined g k r
    → Remembers g m
    → Remembers g (put k r m)
put-Remembers g k r m j h i s f = elim (nat_same k i) [
  | inl e ↦
      let here_is : r ≡ s = ground (arith, find-put k i r m, beq_of e, f) in
      subst (λ (v : ℕ). Joined g v s) e (subst (Joined g k) here_is j)
  | inr e ↦ h i s (ground (arith, find-put k i r m, e, f))
]

pub put_all-Remembers :
    (g : DimGrid) (id root : PlotXz) (ms : List ℕ) (m : List (ℕ × ℕ))
    → Found g id root
    → All (FoundKey g id) ms
    → Remembers g m
    → Remembers g (put_all ms (pk root) m)
put_all-Remembers g id root [] m b a h = h
put_all-Remembers g id root (k ∷ ms) m b (((p, e, f)), a) h =
    put_all-Remembers g id root ms (put k (pk root) m) b a (
      put-Remembers g k (pk root) m
        (record {
          from = p;
          to = root;
          from_key = e;
          to_key = refl;
          from_in = f.0;
          to_in = b.0;
          link = through (back f.1) b.1;
        })
        h)

pub same_plot-eq : (a b : PlotXz) → same_plot a b ≡ true → a ≡ b
same_plot-eq a b h = ground (arith, eqb_ℤ_iff a.x b.x, eqb_ℤ_iff a.z b.z)

pub pk_injective : (a b : PlotXz) → InRange a → InRange b → pk a ≡ pk b → a ≡ b
unfolding pk
pk_injective a b ha hb e =
    let (x, z) = pack_injective a.x a.z b.x b.z ha.0 ha.1 hb.0 hb.1 e in ground (arith, x, z)
