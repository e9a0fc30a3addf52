-- ===== src/Base/Mods.antt =====
-- What the tables ask about a loaded mod (RustMod.h over ll::mod::Mod and std::shared_ptr, which are
-- the host's): the table entries hold a pointer as an identity and a weak_ptr to check it by.
use Prim.Native.Nat.{ℕ}
use Prim.Native.String.{String}
use mathlib.Core.Bool.{Bool, false}
use mathlib.Core.Option.{Option, none, some}
use levilamina_rust_loader.Base.Tests.{nat_beq}

-- The host at one moment. A pointer is its address, 0 is the null pointer; a weak_ptr is the number
-- of its control block. `shared_from_this` is none where it throws bad_weak_ptr, `lock` none where
-- the object is gone.
pub record World : Type 0 where
  pub shared_from_this : ℕ → Option ℕ
  pub lock : ℕ → Option ℕ
  pub is_enabled : ℕ → Bool
  pub get_name : ℕ → String

-- `auto mod = weak.lock(); mod && mod.get() == raw`
abbrev pub still_is : World → ℕ → ℕ → Bool
still_is w weak raw = elim (w.lock weak) [ none ↦ false | some p ↦ nat_beq p raw ]

-- The checks that an entry passes before its callback is called: the weak_ptr made from the raw
-- pointer locks to that pointer.
abbrev pub revalidate : World → ℕ → Bool
revalidate w raw = elim (w.shared_from_this raw) [ none ↦ false | some weak ↦ still_is w weak raw ]
