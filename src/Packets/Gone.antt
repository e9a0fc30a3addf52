-- ===== src/Packets/Gone.antt =====
-- src/bridge/net/PacketHooks.cpp: what is left when a mod goes.
use levilamina_rust_loader.Base.{
  ℕ, ◌≡◌, ◌≢◌, refl, ap, List, [], ◌∷◌, ◌==◌, nat_eq, arith, Bool-cases, inl, inr, All,
}
use levilamina_rust_loader.Packets.Tables.{
  Direction, PacketSub, ConnSub, State, watches, snapshot_for, refresh_gates, without_mod,
  without_conns, on_rust_mod_gone,
}
use levilamina_rust_loader.Packets.InSync.{InSync}

without_mod-gone :
    (raw : ℕ) (subs : List PacketSub)
    → All (λ (sub : PacketSub). sub.mod_ptr ≢ raw) (without_mod raw subs)
unfolding without_mod
without_mod-gone raw [] = tt
without_mod-gone raw (sub ∷ subs) = elim (Bool-cases (sub.mod_ptr == raw)) [
  | inl f ↦ rw (without_mod, f) (without_mod-gone raw subs)
  | inr f ↦ rw (without_mod, f) ((λ e. ground (arith, e, f)), without_mod-gone raw subs)
]

without_conns-gone :
    (raw : ℕ) (subs : List ConnSub)
    → All (λ (sub : ConnSub). sub.mod_ptr ≢ raw) (without_conns raw subs)
unfolding without_conns
without_conns-gone raw [] = tt
without_conns-gone raw (sub ∷ subs) = elim (Bool-cases (sub.mod_ptr == raw)) [
  | inl f ↦ rw (without_conns, f) (without_conns-gone raw subs)
  | inr f ↦ rw (without_conns, f) ((λ e. ground (arith, e, f)), without_conns-gone raw subs)
]

snapshot-without :
    (d : Direction) (raw : ℕ) (subs : List PacketSub)
    → snapshot_for d (without_mod raw subs) ≡ without_mod raw (snapshot_for d subs)
unfolding snapshot_for without_mod
snapshot-without d raw [] = refl
snapshot-without d raw (sub ∷ subs) = elim (Bool-cases (watches d sub)) [
  | inl f ↦ elim (Bool-cases (sub.mod_ptr == raw)) [
    | inl g ↦ rw (without_mod, snapshot_for, f, without_mod, g) (snapshot-without d raw subs)
    | inr g ↦
        rw (without_mod, snapshot_for, f, without_mod, g, snapshot_for, f)
          (ap (λ rest. sub ∷ rest) (snapshot-without d raw subs))
  ]
  | inr f ↦ elim (Bool-cases (sub.mod_ptr == raw)) [
    | inl g ↦ rw (without_mod, snapshot_for, f, g) (snapshot-without d raw subs)
    | inr g ↦ rw (without_mod, snapshot_for, f, g, snapshot_for, f) (snapshot-without d raw subs)
  ]
]

-- When a mod goes, no interceptor of it is left, neither on packets nor on connections. In each
-- direction the interceptors that a packet will meet are those that it would have met, less the
-- mod's, in the same order. The gates tell what is left.
pub hooks_gone :
    (raw : ℕ) (s : State)
    → let after = on_rust_mod_gone raw s in
      All (λ (sub : PacketSub). sub.mod_ptr ≢ raw) after.packet_subs
      × All (λ (sub : ConnSub). sub.mod_ptr ≢ raw) after.conn_subs
      × ((d : Direction)
          → snapshot_for d after.packet_subs ≡ without_mod raw (snapshot_for d s.packet_subs))
      × InSync after
unfolding on_rust_mod_gone refresh_gates
hooks_gone raw s = (
  without_mod-gone raw s.packet_subs,
  without_conns-gone raw s.conn_subs,
  λ d. snapshot-without d raw s.packet_subs,
  (refl, refl, refl),
)
