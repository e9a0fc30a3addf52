-- ===== src/Packets/Pump.antt =====
-- src/bridge/net/PacketHooks.cpp: a packet that is refused does not stop the ones behind it.
use levilamina_rust_loader.Base.{
  ℕ, ◌≡◌, refl, sym, ap, ◌∙◌, false, not, Option, none, some, List, [], ◌∷◌, arith, Bool-cases, inl,
  inr, All, map,
}
use mathlib.Core.Path.{subst}
use levilamina_rust_loader.Packets.Tables.{inbound, State, snapshot_for}
use levilamina_rust_loader.Packets.Dispatch.{
  Host, Sender, Verdict, pass, replaced, dropped, dispatch, pump, next_packet, receive,
}
use levilamina_rust_loader.Packets.InSync.{InSync}
use levilamina_rust_loader.Packets.Through.{Replies, Packet, wire, through, Fits, IsPlain}
use levilamina_rust_loader.Packets.Translated.{
  arriving, delivered, address_at, SameBut, dispatch_plain, snapshot_of_nobody,
}

-- The first packet that is not refused, as it was translated, and the packets behind it.
unfoldable pub first_kept : (Packet → Option Packet) → List Packet → Option Packet × List Packet
first_kept f [] = (none, [])
first_kept f (p ∷ ps) = elim (f p) [ none ↦ first_kept f ps | some q ↦ (some q, ps) ]

SameBut-chain :
    (host : Host) (conn : ℕ) (s t u : State)
    → SameBut host conn s t
    → SameBut host conn t u
    → SameBut host conn s u
SameBut-chain host conn s t u a b = (
  ap (λ (x : State). record x { called = s.called; addresses = s.addresses }) b.0 ∙ a.0,
  b.1 ∙ a.1,
)

-- What becomes of an incoming packet, as things stand in a state.
abbrev pub becomes : Host → Replies → ℕ → State → Packet → Option Packet
becomes host replies conn s p =
    through replies inbound conn (address_at host conn s) (snapshot_for inbound s.packet_subs) p

next_of_all :
    (f : Packet → Option Packet) (ps : List Packet)
    → ((p : Packet) → f p ≡ some p)
    → next_packet (map wire ps) ≡ (delivered (first_kept f ps).0, map wire (first_kept f ps).1)
unfolding first_kept
next_of_all f [] h = refl
next_of_all f (p ∷ ps) h = rw (first_kept, h p) refl

module _ (host : Host) (replies : Replies) (plain : IsPlain host replies) (sender : Sender)
    (conn : ℕ) where
  becomes-SameBut :
      (s t : State)
      → SameBut host conn s t
      → becomes host replies conn t ≡ becomes host replies conn s
  becomes-SameBut s t a =
      ap (λ address. through replies inbound conn address (snapshot_for inbound t.packet_subs)) a.1
      ∙ ap
          (λ (x : State).
            through replies inbound conn (address_at host conn s)
              (snapshot_for inbound x.packet_subs))
          a.0

  abbrev Pumped : List Packet → State → Type 0
  Pumped ps s =
      (t : State) × (pump host sender conn (map wire ps) s
        ≡ some (
          (
            delivered (first_kept (becomes host replies conn s) ps).0,
            map wire (first_kept (becomes host replies conn s) ps).1,
          ),
          t,
        ))
      × SameBut host conn s t

  pump_plain :
      (ps : List Packet) (s : State) → All (λ (p : Packet). Fits p.0) ps → s.depth ≡ 0 → Pumped ps s
  unfolding pump first_kept
  pump_plain [] s fits shallow = (s, refl, (refl, refl))
  pump_plain ((edit, body) ∷ ps) s fits shallow =
      let (v, t, ran, same, arrives) =
        dispatch_plain host replies plain sender inbound conn edit body none s fits.0 shallow tt in
      go v t ran same (becomes host replies conn s (edit, body)) refl arrives
        (pump_plain ps t fits.1 (ap (λ (x : State). x.depth) same.0 ∙ shallow))
    where
      go :
          (v : Verdict) (t : State)
          → dispatch host sender inbound conn (wire (edit, body)) none s ≡ some (v, t)
          → SameBut host conn s t
          → (r : Option Packet) → becomes host replies conn s (edit, body) ≡ r
          → arriving (wire (edit, body)) v ≡ delivered r
          → Pumped ps t
          → Pumped ((edit, body) ∷ ps) s
      go dropped t ran same none e a rec =
          let (u, pumped, after) = rec in
          let moved =
            subst
              (λ (f : Packet → Option Packet).
                pump host sender conn (map wire ps) t
                ≡ some ((delivered (first_kept f ps).0, map wire (first_kept f ps).1), u))
              (becomes-SameBut s t same) pumped in
          (u, rw (pump, ran, first_kept, e) moved, SameBut-chain host conn s t u same after)
      go dropped t ran same (some q) e a rec = absurd (ground (arith, a))
      go pass t ran same none e a rec = absurd (ground (arith, a))
      go (replaced rewritten) t ran same none e a rec = absurd (ground (arith, a))
      go pass t ran same (some q) e a rec =
          (t, rw (pump, ran, first_kept, e) (ap (λ x. some ((x, map wire ps), t)) a), same)
      go (replaced rewritten) t ran same (some q) e a rec =
          (t, rw (pump, ran, first_kept, e) (ap (λ x. some ((x, map wire ps), t)) a), same)

-- Callbacks that call nobody, on a server whose gates are in sync, outside any callback, and a peer
-- whose packets all have header fields that fit into a header: the receive hook answers the first of
-- them that no interceptor for incoming packets refuses, as the bytes of what they make of it in the
-- order of their registration, and leaves the peer exactly the packets behind it; the peer runs dry
-- only if all are refused. Only the record of calls and the cache of addresses change.
pub receive_translates :
    (host : Host) (replies : Replies) (sender : Sender) (conn : ℕ) (ps : List Packet) (s : State)
    → IsPlain host replies
    → All (λ (p : Packet). Fits p.0) ps
    → InSync s
    → s.depth ≡ 0
    → let kept = first_kept (becomes host replies conn s) ps in
      (t : State) × (receive host sender conn (map wire ps) s
        ≡ some ((delivered kept.0, map wire kept.1), t))
      × (record t { called = s.called; addresses = s.addresses } ≡ s)
unfolding receive
receive_translates host replies sender conn ps s plain fits sync shallow =
    elim (Bool-cases (not s.inbound_live)) [
      | inl f ↦
          let down : s.inbound_live ≡ false = ground (arith, f) in
          let nobody = snapshot_of_nobody inbound s.packet_subs (sym sync.0 ∙ down) in
          (
            s,
            rw (receive, f)
                (ap (λ x. some (x, s))
                  (next_of_all (becomes host replies conn s) ps
                    (λ p. rw nobody (unfold through in refl)))),
            refl,
          )
      | inr f ↦
          let (t, ran, same) = pump_plain host replies plain sender conn ps s fits shallow in
          (t, rw (receive, f) ran, same.0)
    ]
