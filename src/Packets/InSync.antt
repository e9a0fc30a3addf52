-- ===== src/Packets/InSync.antt =====
-- src/bridge/net/PacketHooks.cpp: the gates tell what the tables hold, and every operation that runs no
-- callback keeps it so.
use levilamina_rust_loader.Base.{
  ℕ, ◌≡◌, refl, true, false, not, ◌||◌, Option, none, some, List, [], ◌∷◌, ◌++◌, ◌==◌, nat_eq,
  Option-cases, Bool-cases, inl, inr, All,
}
use levilamina_rust_loader.Packets.Tables.{
  inbound, outbound, PacketSub, ConnSub, Call, State, watches, any_watches, is_empty, refresh_gates,
  register, drop_sub, unregister, conn_register, drop_conn, conn_unregister, without_mod,
  without_conns, on_rust_mod_gone,
}

-- An interceptor that has a callback.
abbrev pub IsCallable : PacketSub → Type 0
IsCallable sub = (sub.cb == 0) ≡ false

-- A call outside any other, of an interceptor that has a callback and asked for the direction.
abbrev pub IsFair : Call → Type 0
IsFair call = (call.depth ≡ 1) × IsCallable call.sub × (watches call.direction call.sub ≡ true)

-- The gates say which tables hold somebody.
abbrev pub InSync : State → Type 0
InSync s =
    (s.inbound_live ≡ any_watches inbound s.packet_subs)
    × (s.outbound_live ≡ any_watches outbound s.packet_subs)
    × (s.conn_live ≡ not (is_empty s.conn_subs))

pub record Orderly (s : State) : Type 0 where
  pub in_sync : InSync s
  pub callable : All IsCallable s.packet_subs
  pub fair : All IsFair s.called

abbrev pub At : ℕ → State → Type 0
At d s = (s.depth ≡ d) × Orderly s

abbrev pub Ends : (State → Type 0) → Option State → Type 0
Ends P none = ⊥
Ends P (some t) = P t

-- The same of what comes with an answer.
abbrev pub EndsWith : {A : Type 0} → (State → Type 0) → Option (A × State) → Type 0
EndsWith P none = ⊥
EndsWith P (some (a, t)) = P t

pub refresh-At :
    (d : ℕ) (s : State) (psubs : List PacketSub) (csubs : List ConnSub)
    → At d s
    → All IsCallable psubs
    → At d (refresh_gates (record s { packet_subs = psubs; conn_subs = csubs }))
unfolding refresh_gates
refresh-At d s psubs csubs a h =
    (a.0, record { in_sync = (refl, refl, refl); callable = h; fair = a.1.fair })

append-IsCallable :
    (subs : List PacketSub) (sub : PacketSub)
    → All IsCallable subs
    → IsCallable sub
    → All IsCallable (subs ++ sub ∷ [])
append-IsCallable [] sub h c = (c, tt)
append-IsCallable (x ∷ subs) sub h c = (h.0, append-IsCallable subs sub h.1 c)

abbrev AllLeft : Option (List PacketSub) → Type 0
AllLeft none = Unit
AllLeft (some left) = All IsCallable left

drop_sub-IsCallable :
    (raw target : ℕ) (subs : List PacketSub)
    → All IsCallable subs
    → AllLeft (drop_sub raw target subs)
unfolding drop_sub
drop_sub-IsCallable raw target [] h = tt
drop_sub-IsCallable raw target (sub ∷ subs) h = elim (Bool-cases (not (sub.handle == target))) [
  | inl f ↦ rw f (go (drop_sub raw target subs) (drop_sub-IsCallable raw target subs h.1))
  | inr f ↦ elim (Bool-cases (not (sub.mod_ptr == raw))) [
    | inl g ↦ rw (f, g) tt
    | inr g ↦ rw (f, g) h.1
  ]
]
  where
    go :
        (r : Option (List PacketSub))
        → AllLeft r
        → AllLeft (elim r [ none ↦ none | some left ↦ some (sub ∷ left) ])
    go none e = tt
    go (some left) e = (h.0, e)

without_mod-IsCallable :
    (raw : ℕ) (subs : List PacketSub) → All IsCallable subs → All IsCallable (without_mod raw subs)
unfolding without_mod
without_mod-IsCallable raw [] h = tt
without_mod-IsCallable raw (sub ∷ subs) h = elim (Bool-cases (sub.mod_ptr == raw)) [
  | inl f ↦ rw f (without_mod-IsCallable raw subs h.1)
  | inr f ↦ rw f (h.0, without_mod-IsCallable raw subs h.1)
]

pub register-At :
    (d handle raw dir_mask cb user : ℕ) (s : State)
    → At d s
    → At d (register handle raw dir_mask cb user s).1
unfolding register
register-At d handle raw dir_mask cb user s a =
    let sub : PacketSub = record {
      handle = handle;
      mod_ptr = raw;
      dir_mask = dir_mask;
      cb = cb;
      user = user;
    } in
    elim (Bool-cases (cb == 0)) [
      | inl f ↦ rw f a
      | inr f ↦ elim (Bool-cases (not (watches inbound sub || watches outbound sub))) [
        | inl g ↦ rw (f, g) a
        | inr g ↦
            rw (f, g)
              (refresh-At d s (s.packet_subs ++ sub ∷ []) s.conn_subs a
                (append-IsCallable s.packet_subs sub a.1.callable f))
      ]
    ]

pub unregister-At : (d raw target : ℕ) (s : State) → At d s → At d (unregister raw target s).1
unfolding unregister
unregister-At d raw target s a = elim (Bool-cases (target == 0)) [
  | inl f ↦ rw f a
  | inr f ↦ elim (Option-cases (drop_sub raw target s.packet_subs)) [
    | inl g ↦ rw (f, g) a
    | inr (left, g) ↦
        rw (f, g)
          (refresh-At d s left s.conn_subs a
            (rw g at (drop_sub-IsCallable raw target s.packet_subs a.1.callable)))
  ]
]

pub conn_register-At :
    (d handle raw cb user : ℕ) (s : State) → At d s → At d (conn_register handle raw cb user s).1
unfolding conn_register
conn_register-At d handle raw cb user s a = elim (Bool-cases (cb == 0)) [
  | inl f ↦ rw f a
  | inr f ↦ rw f (
      refresh-At d s s.packet_subs
        (s.conn_subs ++ (record { handle = handle; mod_ptr = raw; cb = cb; user = user }) ∷ []) a
        a.1.callable)
]

pub conn_unregister-At :
    (d raw target : ℕ) (s : State) → At d s → At d (conn_unregister raw target s).1
unfolding conn_unregister
conn_unregister-At d raw target s a = elim (Bool-cases (target == 0)) [
  | inl f ↦ rw f a
  | inr f ↦ elim (Option-cases (drop_conn raw target s.conn_subs)) [
    | inl g ↦ rw (f, g) a
    | inr (left, g) ↦ rw (f, g) (refresh-At d s s.packet_subs left a a.1.callable)
  ]
]

pub gone-At : (d raw : ℕ) (s : State) → At d s → At d (on_rust_mod_gone raw s)
unfolding on_rust_mod_gone
gone-At d raw s a =
    refresh-At d s (without_mod raw s.packet_subs) (without_conns raw s.conn_subs) a
      (without_mod-IsCallable raw s.packet_subs a.1.callable)
