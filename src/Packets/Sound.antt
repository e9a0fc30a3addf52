-- ===== src/Packets/Sound.antt =====
-- src/bridge/net/PacketHooks.cpp: whatever the callbacks do, every event ends, the gates tell what the
-- tables hold, and no interceptor is called for a packet that an interceptor sends.
use levilamina_rust_loader.Base.{
  ℕ, suc, ◌+◌, ◌-◌, ◌<◌, ◌≡◌, refl, String, true, false, not, Option, none, some, List, [], ◌∷◌,
  ltb, nat_eq, arith, Option-cases, Bool-cases, inl, inr, All,
}
use levilamina_rust_loader.Base.Assoc.{find}
use levilamina_rust_loader.Packets.Codec.{Header, decode_header}
use levilamina_rust_loader.Packets.Tables.{
  Direction, outbound, PacketSub, State, watches, snapshot_for, address_of, forget_address,
  register, unregister, conn_register, conn_unregister, on_rust_mod_gone,
}
use levilamina_rust_loader.Packets.InSync.{
  IsCallable, At, Ends, EndsWith, register-At, unregister-At, conn_register-At, conn_unregister-At,
  gone-At,
}
use levilamina_rust_loader.Packets.Dispatch.{
  Outcome, Program, ends, replaces, sends, registers, unregisters, conn_registers, conn_unregisters,
  unloads, Host, Sender, run_program, Verdict, pass, replaced, dropped, Current, obey, note_call,
  drop_bytes, is_other, event_of, intercept, rebuild, run_subs, dispatch, hand, forward, send_with,
  send,
}

abbrev pub SendsAt : ℕ → Sender → Type 0
SendsAt d sender =
    (conn : ℕ) (bytes : List ℕ) (expected : Option ℕ) (u : State)
    → At d u
    → Ends (At d) (sender conn bytes expected u)

pub forget-At : (d conn : ℕ) (s : State) → At d s → At d (forget_address conn s)
unfolding forget_address
forget-At d conn s a =
    (a.0, record { in_sync = a.1.in_sync; callable = a.1.callable; fair = a.1.fair })

pub address_of-At :
    (d conn : ℕ) (told : Option String) (s : State) → At d s → At d (address_of conn told s).1
unfolding address_of
address_of-At d conn told s a = elim (Option-cases (find conn s.addresses)) [
  | inl e ↦
      rw (e, address_of)
        (a.0, record { in_sync = a.1.in_sync; callable = a.1.callable; fair = a.1.fair })
  | inr (address, e) ↦ rw (e, address_of) a
]

pub run_program-At :
    (d : ℕ) (sender : Sender)
    → SendsAt d sender
    → (p : Program) (buf : Option (List ℕ)) (s : State) → At d s
    → EndsWith (At d) (run_program sender p buf s)
unfolding run_program
run_program-At d sender c (ends o) buf s a = a
run_program-At d sender c (replaces bytes k) buf s a = run_program-At d sender c k (some bytes) s a
run_program-At d sender c (sends conn bytes expected k) buf s a =
    go (sender conn bytes expected s) (c conn bytes expected s a)
      (λ t. run_program-At d sender c k buf t)
  where
    go :
        (r : Option State)
        → Ends (At d) r
        → ((t : State) → At d t → EndsWith (At d) (run_program sender k buf t))
        → EndsWith (At d) (elim r [ none ↦ none | some t ↦ run_program sender k buf t ])
    go none e rec = e
    go (some t) e rec = rec t e
run_program-At d sender c (registers handle raw dir_mask cb user k) buf s a =
    run_program-At d sender c (k (register handle raw dir_mask cb user s).0) buf
      (register handle raw dir_mask cb user s).1 (register-At d handle raw dir_mask cb user s a)
run_program-At d sender c (unregisters raw target k) buf s a =
    run_program-At d sender c (k (unregister raw target s).0) buf (unregister raw target s).1
      (unregister-At d raw target s a)
run_program-At d sender c (conn_registers handle raw cb user k) buf s a =
    run_program-At d sender c (k (conn_register handle raw cb user s).0) buf
      (conn_register handle raw cb user s).1 (conn_register-At d handle raw cb user s a)
run_program-At d sender c (conn_unregisters raw target k) buf s a =
    run_program-At d sender c (k (conn_unregister raw target s).0) buf
      (conn_unregister raw target s).1 (conn_unregister-At d raw target s a)
run_program-At d sender c (unloads raw k) buf s a =
    run_program-At d sender c k buf (on_rust_mod_gone raw s) (gone-At d raw s a)

-- An interceptor of a snapshot.
abbrev IsAsked : Direction → PacketSub → Type 0
IsAsked d sub = IsCallable sub × (watches d sub ≡ true)

snapshot_for-IsAsked :
    (d : Direction) (subs : List PacketSub)
    → All IsCallable subs
    → All (IsAsked d) (snapshot_for d subs)
unfolding snapshot_for
snapshot_for-IsAsked d [] h = tt
snapshot_for-IsAsked d (sub ∷ subs) h = elim (Bool-cases (watches d sub)) [
  | inl f ↦ rw (snapshot_for, f) ((h.0, f), snapshot_for-IsAsked d subs h.1)
  | inr f ↦ rw (snapshot_for, f) (snapshot_for-IsAsked d subs h.1)
]

abbrev first_of : Header → List ℕ → Current
first_of header packet = record {
  edit = record {
    packet_id = header.packet_id;
    sender_sub_id = header.sender_sub_id;
    target_sub_id = header.target_sub_id;
  };
  body = drop_bytes header.size packet;
  changed = false;
}

module _ (host : Host) (sender : Sender) (c : SendsAt 1 sender) (d : Direction) (conn : ℕ) where
  intercept-At :
      (address : String) (subs : List PacketSub) (cur : Current) (s : State)
      → All (IsAsked d) subs
      → At 1 s
      → EndsWith (At 1) (intercept host sender d conn address subs cur s)
  unfolding intercept
  intercept-At address [] cur s h a = a
  intercept-At address (sub ∷ subs) cur s h a =
      go
        (run_program sender
          (host.on_packet sub.cb sub.user (event_of host sender d conn address cur)) none
          (note_call d sub s))
        (run_program-At 1 sender c
          (host.on_packet sub.cb sub.user (event_of host sender d conn address cur)) none
          (note_call d sub s) (unfold note_call in noted))
        (λ next t. intercept-At address subs next t h.1)
    where
      noted :
          At 1
            (record s { called = record { sub = sub; direction = d; depth = s.depth } ∷ s.called })
      noted = (
        a.0,
        record {
          in_sync = a.1.in_sync;
          callable = a.1.callable;
          fair = ((a.0, h.0.0, h.0.1), a.1.fair);
        },
      )

      go :
          (r : Option ((Outcome × Option (List ℕ)) × State))
          → EndsWith (At 1) r
          → ((next : Current) (t : State)
              → At 1 t
              → EndsWith (At 1) (intercept host sender d conn address subs next t))
          → EndsWith {A = Option Current} (At 1) (elim r [
            | none ↦ none
            | some (answer, t) ↦ elim (obey cur answer) [
              | none ↦ some (none, t)
              | some next ↦ intercept host sender d conn address subs next t
            ]
          ])
      go none e rec = e
      go (some (answer, t)) e rec = elim (Option-cases (obey cur answer)) [
        | inl f ↦ rw f e
        | inr (next, f) ↦ rw f (rec next t e)
      ]

  run_subs-At :
      (header : Header) (packet : List ℕ) (subs : List PacketSub) (s : State)
      → All (IsAsked d) subs
      → At 0 s
      → EndsWith (At 0) (run_subs host sender d conn header packet subs s)
  unfolding run_subs
  run_subs-At header packet [] s h a = a
  run_subs-At header packet (sub ∷ subs) s h a =
      let u : State = (address_of conn (host.get_ip_and_port conn) s).1 in
      let b : At 0 u = address_of-At 0 conn (host.get_ip_and_port conn) s a in
      let inner : State = record u { depth = u.depth + 1 } in
      go
        (intercept host sender d conn (address_of conn (host.get_ip_and_port conn) s).0 (sub ∷ subs)
          (first_of header packet) inner)
        (intercept-At (address_of conn (host.get_ip_and_port conn) s).0 (sub ∷ subs)
          (first_of header packet) inner h
          (
            omega (arith, b.0),
            record { in_sync = b.1.in_sync; callable = b.1.callable; fair = b.1.fair },
          ))
    where
      go :
          (r : Option (Option Current × State))
          → EndsWith (At 1) r
          → EndsWith {A = Verdict} (At 0) (elim r [
            | none ↦ none
            | some (cur, t) ↦
                some (rebuild host sender d conn cur, record t { depth = t.depth - 1 })
          ])
      go none e = e
      go (some (cur, t)) e = (
        omega (arith, e.0),
        record { in_sync = e.1.in_sync; callable = e.1.callable; fair = e.1.fair },
      )

  pub dispatch-At :
      (packet : List ℕ) (expected : Option ℕ) (s : State)
      → At 0 s
      → EndsWith (At 0) (dispatch host sender d conn packet expected s)
  unfolding dispatch
  dispatch-At packet expected s a =
      let shallow : ltb 0 s.depth ≡ false = rw a.0 refl in
      elim (Option-cases (decode_header packet)) [
        | inl e ↦ rw (dispatch, shallow, e) a
        | inr (header, e) ↦ elim (Bool-cases (is_other header expected)) [
          | inl f ↦ rw (dispatch, shallow, e, f) a
          | inr f ↦
              rw (dispatch, shallow, e, f)
                (run_subs-At header packet (snapshot_for d s.packet_subs) s
                  (snapshot_for-IsAsked d s.packet_subs a.1.callable) a)
        ]
      ]

hand-At : (d conn : ℕ) (bytes : List ℕ) (s : State) → At d s → At d (hand conn bytes s)
unfolding hand
hand-At d conn bytes s a =
    (a.0, record { in_sync = a.1.in_sync; callable = a.1.callable; fair = a.1.fair })

-- A packet that a callback sends goes out as it is, and nobody is called.
nested_send :
    (host : Host) (fuel conn : ℕ) (bytes : List ℕ) (expected : Option ℕ) (s : State)
    → 0 < s.depth
    → send host (suc fuel) conn bytes expected s ≡ some (hand conn bytes s)
unfolding send send_with dispatch forward
nested_send host fuel conn bytes expected s h = ground arith

pub nested_sends_end : (host : Host) (fuel : ℕ) → SendsAt 1 (send host (suc fuel))
nested_sends_end host fuel conn bytes expected s a =
    rw (nested_send host fuel conn bytes expected s (omega (arith, a.0))) (hand-At 1 conn bytes s a)

forward-At :
    (d conn : ℕ) (bytes : List ℕ) (v : Verdict) (s : State) → At d s → At d (forward conn bytes v s)
unfolding forward
forward-At d conn bytes dropped s a = a
forward-At d conn bytes (replaced rewritten) s a = hand-At d conn rewritten s a
forward-At d conn bytes pass s a = hand-At d conn bytes s a

pub sends_end : (host : Host) → SendsAt 0 (send host 2)
unfolding send send_with
sends_end host conn bytes expected s a = elim (Bool-cases (not s.outbound_live)) [
  | inl f ↦ rw f (hand-At 0 conn bytes s a)
  | inr f ↦ rw f (
      go (dispatch host (send host 1) outbound conn bytes expected s)
        (dispatch-At host (send host 1) (nested_sends_end host 0) outbound conn bytes expected s a))
]
  where
    go :
        (r : Option (Verdict × State))
        → EndsWith (At 0) r
        → Ends (At 0) (elim r [ none ↦ none | some (v, t) ↦ some (forward conn bytes v t) ])
    go none e = e
    go (some (v, t)) e = forward-At 0 conn bytes v t e
