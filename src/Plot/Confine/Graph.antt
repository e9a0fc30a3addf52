-- ===== src/Plot/Confine/Graph.antt =====
-- src/more_dimensions/plot/PlotConfine.cpp: the merge graph and the root of a merged group.
use levilamina_rust_loader.Base.{
  ℕ, zero, suc, ◌+◌, ◌/◌, ◌%◌, ◌^◌, Bool, false, not, ◌&&◌, ◌||◌, Option, none, some, List, [], ◌∷◌,
  ◌++◌, ◌⊎◌, inl, inr, leb, if◌then◌else◌, ◌==◌, nat_eq, length,
}
use levilamina_rust_loader.Base.Int.{ℤ, pos, ◌+ℤ◌, ◌-ℤ◌, int_eq, ltb_ℤ, pack, word32, wrap_word}
use levilamina_rust_loader.Base.Assoc.{find, put, emplace}

-- PlotXZ
pub record PlotXz : Type 0 where
  pub x : ℤ
  pub z : ℤ

abbrev pub at_plot : ℤ → ℤ → PlotXz
at_plot x z = record { x = x; z = z }

-- `operator==`
abbrev pub same_plot : PlotXz → PlotXz → Bool
same_plot a b = (a.x == b.x) && (a.z == b.z)

-- `pk` and `unpk`
unfoldable pub pk : PlotXz → ℕ
pk p = pack p.x p.z

unfoldable pub unpk : ℕ → PlotXz
unpk k = record { x = wrap_word (k / 2 ^ 32 % 2 ^ 32); z = wrap_word (k % 2 ^ 32) }

-- DimGrid
pub record DimGrid : Type 0 where
  pub plot_size : ℤ
  pub road_width : ℤ
  pub merges : List (ℕ × ℕ)
  pub roots : List (ℕ × ℕ)
  pub oversized : List ℕ

-- `bitOf`, as the place of the bit: kMergeNorth is 1 << 0, and so on to kMergeWest, 1 << 3.
abbrev pub bit_of : ℕ → ℕ
bit_of dir = if dir == 0 then 0 else if dir == 1 then 1 else if dir == 2 then 2 else 3

-- `mask & (1 << i)` is not 0.
abbrev pub has_bit : ℕ → ℕ → Bool
has_bit mask i = mask / 2 ^ i % 2 == 1

-- What an int32_t holds of a coordinate one off its range. (C++ leaves that overflow undefined.)
abbrev pub in_int32 : ℤ → ℤ
in_int32 a = wrap_word (word32 a % 2 ^ 32)

-- `neighbourOf`
unfoldable pub neighbour_of : PlotXz → ℕ → PlotXz
neighbour_of id dir =
    if dir == 0
    then at_plot id.x (in_int32 (id.z -ℤ pos 1))
    else if dir == 1
    then at_plot (in_int32 (id.x +ℤ pos 1)) id.z
    else if dir == 2
    then at_plot id.x (in_int32 (id.z +ℤ pos 1))
    else at_plot (in_int32 (id.x -ℤ pos 1)) id.z

unfoldable pub claims : DimGrid → PlotXz → ℕ → Bool
claims g id dir = elim (find (pk id) g.merges) [
  | none ↦ false
  | some mask ↦ has_bit mask (bit_of dir)
]

unfoldable pub connected : DimGrid → PlotXz → ℕ → Bool
connected g a dir = claims g a dir || claims g (neighbour_of a dir) ((dir + 2) % 4)

-- `lessThan`
abbrev pub less_than : PlotXz → PlotXz → Bool
less_than a b = if not (a.x == b.x) then ltb_ℤ a.x b.x else ltb_ℤ a.z b.z

abbrev pub group_scan_limit : ℕ
group_scan_limit = 4096

abbrev pub holds : ℕ → List ℕ → Bool
holds k [] = false
holds k (j ∷ ks) = (j == k) || holds k ks

-- The local variables of the scan. `members.size()` is kept beside the list, and `seen` has the keys
-- that `insert` took.
pub record Scan : Type 0 where
  pub seen : List ℕ
  pub stack : List PlotXz
  pub members : List ℕ
  pub best : PlotXz

-- One direction of one plot. The scan goes on, or stops at the limit with the keys it has seen, the
-- one that was too many among them.
unfoldable pub look : DimGrid → PlotXz → ℕ → Scan → List ℕ ⊎ Scan
look g cur d s =
    let nb = neighbour_of cur d in
    let nk = pk nb in
    if not (connected g cur d)
    then inr s
    else if holds nk s.seen
    then inr s
    else if leb group_scan_limit (length s.members)
    then inl (nk ∷ s.seen)
    else inr (record {
      seen = nk ∷ s.seen;
      stack = nb ∷ s.stack;
      members = nk ∷ s.members;
      best = if less_than nb s.best then nb else s.best;
    })

abbrev pub and_then : List ℕ ⊎ Scan → (Scan → List ℕ ⊎ Scan) → List ℕ ⊎ Scan
and_then (inl seen) next = inl seen
and_then (inr s) next = next s

-- `for (int d = 0; d < 4; ++d)` at one plot.
unfoldable pub look_around : DimGrid → PlotXz → Scan → List ℕ ⊎ Scan
look_around g cur s =
    and_then (look g cur 0 s)
      (λ a. and_then (look g cur 1 a) (λ b. and_then (look g cur 2 b) (look g cur 3)))

-- `while (!stack.empty())`: none where the fuel was not enough.
unfoldable pub scan : DimGrid → ℕ → Scan → Option (List ℕ ⊎ Scan)
scan g zero s = elim s.stack [ [] ↦ some (inr s) | _ ∷ _ ↦ none ]
scan g (suc fuel) s = elim s.stack [
  | [] ↦ some (inr s)
  | cur ∷ rest ↦ elim (look_around g cur (record s { stack = rest })) [
    | inl seen ↦ some (inl seen)
    | inr t ↦ scan g fuel t
  ]
]

-- `for (uint64_t m : members) g.roots[m] = rootKey;`
abbrev pub put_all : List ℕ → ℕ → List (ℕ × ℕ) → List (ℕ × ℕ)
put_all [] root roots = roots
put_all (m ∷ ms) root roots = put_all ms root (put m root roots)

-- The end of the scan: the group is entered as oversized, or its root is remembered for each member.
abbrev pub scanned : DimGrid → List ℕ ⊎ Scan → Option PlotXz × DimGrid
scanned g (inl seen) = (none, record g { oversized = seen ++ g.oversized })
scanned g (inr s) = (some s.best, record g { roots = put_all s.members (pk s.best) g.roots })

abbrev pub any_edge : DimGrid → PlotXz → Bool
any_edge g id = connected g id 0 || connected g id 1 || connected g id 2 || connected g id 3

-- One round for each member, the first among them, and one for the empty stack.
abbrev pub scan_fuel : ℕ
scan_fuel = 4097

-- `groupRootLocked`: none of the outer option where the fuel was not enough, none of the inner one
-- where the caller must refuse.
unfoldable pub group_root : DimGrid → PlotXz → Option (Option PlotXz × DimGrid)
group_root g id =
    let key = pk id in
    if holds key g.oversized then some (none, g) else elim (find key g.roots) [
      | some root ↦ some (some (unpk root), g)
      | none ↦
          if not (any_edge g id)
          then some (some id, record g { roots = emplace key key g.roots })
          else elim (scan g scan_fuel
              (record { seen = key ∷ []; stack = id ∷ []; members = key ∷ []; best = id })) [
                | none ↦ none
                | some end ↦ some (scanned g end)
              ]
    ]
