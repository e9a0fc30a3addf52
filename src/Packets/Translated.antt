-- ===== src/Packets/Translated.antt =====
-- src/bridge/net/PacketHooks.cpp: the send hook and the receive hook let pass what the chain of
-- functions on packets makes of a packet.
use levilamina_rust_loader.Base.{
  ℕ, suc, ◌+◌, ◌-◌, ◌≡◌, refl, sym, ap, ◌∙◌, String, false, not, Option, none, some, List, [], ◌∷◌,
  ltb, nat_eq, arith, Option-cases, Bool-cases, inl, inr,
}
use mathlib.Core.Path.{subst}
use levilamina_rust_loader.Base.Assoc.{find, put, find-put}
use levilamina_rust_loader.Packets.Codec.{Header, PacketEdit}
use levilamina_rust_loader.Packets.Tables.{
  Sent, Direction, outbound, PacketSub, State, any_watches, snapshot_for, address_of,
}
use levilamina_rust_loader.Packets.Dispatch.{
  Host, Sender, Verdict, pass, replaced, dropped, Current, drop_bytes, is_other, rebuild, run_subs,
  dispatch, hand, forward, send_with, send,
}
use levilamina_rust_loader.Packets.InSync.{InSync}
use levilamina_rust_loader.Packets.Through.{
  Replies, Packet, wire, through, Fits, IsPlain, forget, SameHooks, Left, intercept_plain, edit_of,
  decoded,
}

-- What a verdict lets arrive of a packet's bytes.
abbrev pub arriving : List ℕ → Verdict → Option (List ℕ)
arriving bytes pass = some bytes
arriving bytes (replaced rewritten) = some rewritten
arriving bytes dropped = none

abbrev pub delivered : Option Packet → Option (List ℕ)
delivered none = none
delivered (some p) = some (wire p)

abbrev told : Host → ℕ → String
told host conn = elim (host.get_ip_and_port conn) [ none ↦ "" | some address ↦ address ]

-- The address under which a connection is shown.
abbrev pub address_at : Host → ℕ → State → String
address_at host conn s = elim (find conn s.addresses) [
  | none ↦ told host conn
  | some address ↦ address
]

address_of-address_at :
    (host : Host) (conn : ℕ) (s : State)
    → (address_of conn (host.get_ip_and_port conn) s).0 ≡ address_at host conn s
unfolding address_of
address_of-address_at host conn s = elim (Option-cases (find conn s.addresses)) [
  | inl e ↦ rw (address_of, address_at, e) refl
  | inr (address, e) ↦ rw (address_of, address_at, e) refl
]

-- The states differ in the record of calls and in the cache of addresses only, and the cache answers
-- the same for the connection.
abbrev pub SameBut : Host → ℕ → State → State → Type 0
SameBut host conn s t =
    (record t { called = s.called; addresses = s.addresses } ≡ s)
    × (address_at host conn t ≡ address_at host conn s)

address_of-SameBut :
    (host : Host) (conn : ℕ) (s : State)
    → SameBut host conn s (address_of conn (host.get_ip_and_port conn) s).1
unfolding address_of
address_of-SameBut host conn s = elim (Option-cases (find conn s.addresses)) [
  | inl e ↦
      let hit : find conn (put conn (told host conn) s.addresses) ≡ some (told host conn) =
        find-put conn conn (told host conn) s.addresses ∙ ground arith in
      rw (address_of, e) (refl, rw (address_at, hit, e) refl)
  | inr (address, e) ↦ rw (address_of, e) (refl, refl)
]

module _ (host : Host) (sender : Sender) (d : Direction) (conn : ℕ) where
  rebuild_arrives :
      (c : Current) (r : Option Packet) (x : Option Current)
      → c.changed ≡ false
      → Left c r x
      → arriving (wire (forget c)) (rebuild host sender d conn x) ≡ delivered r
  unfolding rebuild
  rebuild_arrives c r none h l = rw l refl
  rebuild_arrives c r (some e) h l = elim (Bool-cases e.changed) [
    | inl f ↦ rw (rebuild, f, l.0) refl
    | inr f ↦ rw (rebuild, f, l.0) (ap (λ p. some (wire p)) (sym (l.1 f).0))
  ]

-- The packet's number, where it is known, is the one in its header.
abbrev pub Names : Option ℕ → PacketEdit → Type 0
Names none edit = Unit
Names (some n) edit = n ≡ edit.packet_id

named :
    (h : Header) (edit : PacketEdit) (expected : Option ℕ)
    → edit_of h ≡ edit
    → Names expected edit
    → is_other h expected ≡ false
named h edit none e n = refl
named h edit (some n) e m = ground (arith, ap (λ (x : PacketEdit). x.packet_id) e)

module _ (host : Host) (replies : Replies) (plain : IsPlain host replies) (sender : Sender)
    (d : Direction) (conn : ℕ) where
  -- What a dispatch of a packet comes to.
  abbrev pub Dispatched : Packet → List PacketSub → State → Option (Verdict × State) → Type 0
  Dispatched p subs s x =
      (v : Verdict) × (t : State) × (x ≡ some (v, t))
      × SameBut host conn s t
      × (arriving (wire p) v ≡ delivered (through replies d conn (address_at host conn s) subs p))

  same_after :
      (s u t : State)
      → (record u { called = s.called; addresses = s.addresses } ≡ s)
      → address_at host conn u ≡ address_at host conn s
      → SameHooks (record u { depth = u.depth + 1 }) t
      → SameBut host conn s (record t { depth = t.depth - 1 })
  same_after s u t kept answers same =
      let less : u.depth + 1 - 1 ≡ u.depth = omega arith in
      (
        ap
              (λ (x : State). record x {
                depth = x.depth - 1;
                called = s.called;
                addresses = s.addresses;
              })
              same
            ∙ ap (λ n. record u { depth = n; called = s.called; addresses = s.addresses }) less
            ∙ kept,
        ap (λ (x : State). address_at host conn x) same ∙ answers,
      )

  run_subs_plain :
      (h : Header) (edit : PacketEdit) (body : List ℕ) (subs : List PacketSub) (s : State)
      → edit_of h ≡ edit
      → drop_bytes h.size (wire (edit, body)) ≡ body
      → Dispatched (edit, body) subs s (run_subs host sender d conn h (wire (edit, body)) subs s)
  unfolding run_subs
  run_subs_plain h edit body [] s e f = (pass, s, refl, (refl, refl), unfold through in refl)
  run_subs_plain h edit body (sub ∷ subs) s e f =
      let u : State = (address_of conn (host.get_ip_and_port conn) s).1 in
      let inner : State = record u { depth = u.depth + 1 } in
      let start : Current = record {
        edit = edit_of h;
        body = drop_bytes h.size (wire (edit, body));
        changed = false;
      } in
      let same_packet : forget start ≡ (edit, body) = λ i. (e i, f i) in
      let (r, t, ran, same, left) =
        intercept_plain host replies plain sender d conn (address_at host conn s) (sub ∷ subs) start
          inner in
      let (kept, answers) = address_of-SameBut host conn s in
      (
        rebuild host sender d conn r,
        record t { depth = t.depth - 1 },
        rw (run_subs, address_of-address_at host conn s, ran) refl,
        same_after s u t kept answers same,
        subst
            (λ (q : Packet).
              arriving (wire q) (rebuild host sender d conn r)
              ≡ delivered (through replies d conn (address_at host conn s) (sub ∷ subs) q))
            same_packet
            (rebuild_arrives host sender d conn start
              (through replies d conn (address_at host conn s) (sub ∷ subs) (forget start)) r refl
              left),
      )

  pub dispatch_plain :
      (edit : PacketEdit) (body : List ℕ) (expected : Option ℕ) (s : State)
      → Fits edit
      → s.depth ≡ 0
      → Names expected edit
      → Dispatched
          (edit, body)
          (snapshot_for d s.packet_subs)
          s
          (dispatch host sender d conn (wire (edit, body)) expected s)
  unfolding dispatch
  dispatch_plain edit body expected s fits shallow names =
      let (h, reads, same_edit, behind) = decoded edit body fits in
      let known : is_other h expected ≡ false = named h edit expected same_edit names in
      let top : ltb 0 s.depth ≡ false = rw shallow refl in
      rw (dispatch, top, reads, known)
        (run_subs_plain h edit body (snapshot_for d s.packet_subs) s same_edit behind)

pub snapshot_of_nobody :
    (d : Direction) (subs : List PacketSub) → any_watches d subs ≡ false → snapshot_for d subs ≡ []
unfolding snapshot_for
snapshot_of_nobody d [] h = refl
snapshot_of_nobody d (sub ∷ subs) h =
    ground (arith, h, λ (g : any_watches d subs ≡ false). snapshot_of_nobody d subs g)

-- What the server's own send was given, after a packet was translated.
abbrev pub sent : ℕ → Option Packet → List Sent → List Sent
sent conn none before = before
sent conn (some p) before = (conn, wire p) ∷ before

forward-arriving :
    (conn : ℕ) (bytes : List ℕ) (v : Verdict) (r : Option Packet) (t : State)
    → arriving bytes v ≡ delivered r
    → forward conn bytes v t ≡ record t { handed = sent conn r t.handed }
unfolding forward hand
forward-arriving conn bytes dropped none t e = refl
forward-arriving conn bytes dropped (some p) t e = absurd (ground (arith, e))
forward-arriving conn bytes pass none t e = absurd (ground (arith, e))
forward-arriving conn bytes pass (some p) t e = ground (arith, e)
forward-arriving conn bytes (replaced rewritten) none t e = absurd (ground (arith, e))
forward-arriving conn bytes (replaced rewritten) (some p) t e = ground (arith, e)

-- Callbacks that call nobody, on a server whose gates are in sync, outside any callback, for a
-- packet whose header fields fit into a header and whose number, where it is known, is the one in its
-- header: the server's own send is given the bytes of exactly the packet that the interceptors for
-- outgoing packets, in the order of their registration, make of it one after the other, and nothing
-- if one of them refuses it. Else only the record of calls and the cache of addresses change.
pub send_translates :
    (host : Host) (replies : Replies) (fuel conn : ℕ) (edit : PacketEdit) (body : List ℕ)
    (expected : Option ℕ) (s : State)
    → IsPlain host replies
    → Fits edit
    → Names expected edit
    → InSync s
    → s.depth ≡ 0
    → let result =
        through replies outbound conn
          (address_at host conn s)
          (snapshot_for outbound s.packet_subs)
          (edit, body) in
      (t : State) × (send host (suc fuel) conn (wire (edit, body)) expected s ≡ some t)
      × (t.handed ≡ sent conn result s.handed)
      × (record t { handed = s.handed; called = s.called; addresses = s.addresses } ≡ s)
unfolding send send_with through hand
send_translates host replies fuel conn edit body expected s plain fits names sync shallow =
    let asked = snapshot_for outbound s.packet_subs in
    let bytes = wire (edit, body) in
    elim (Bool-cases (not s.outbound_live)) [
      | inl f ↦
          let down : s.outbound_live ≡ false = ground (arith, f) in
          let nobody : asked ≡ [] = snapshot_of_nobody outbound s.packet_subs (sym sync.1 ∙ down) in
          (hand conn bytes s, rw (send_with, f) refl, rw nobody refl, refl)
      | inr f ↦
          let (v, t, ran, same, arrives) =
            dispatch_plain host replies plain (send host fuel) outbound conn edit body expected s
              fits shallow names in
          let result = through replies outbound conn (address_at host conn s) asked (edit, body) in
          let kept : t.handed ≡ s.handed = ap (λ (x : State). x.handed) same.0 in
          (
            record t { handed = sent conn result t.handed },
            rw (send_with, f, ran) (ap some (forward-arriving conn bytes v result t arrives)),
            ap (λ before. sent conn result before) kept,
            ap (λ (x : State). record x { handed = s.handed }) same.0,
          )
    ]
