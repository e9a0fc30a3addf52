-- ===== src/Packets/Life.antt =====
-- src/bridge/net/PacketHooks.cpp: whatever happens on the server and whatever the mods do, it ends in
-- order.
use levilamina_rust_loader.Base.{
  ℕ, ◌≡◌, refl, String, Bool, true, false, not, Option, none, some, List, [], ◌∷◌, nat_eq,
  Bool-cases, inl, inr, All,
}
use levilamina_rust_loader.Packets.Tables.{
  inbound, ConnSub, State, init, address_of, forget_address,
}
use levilamina_rust_loader.Packets.InSync.{IsFair, InSync, At, Ends, EndsWith}
use levilamina_rust_loader.Packets.Dispatch.{
  Outcome, Host, Sender, run_program, Verdict, pass, replaced, dropped, dispatch, send, pump,
  receive, notify, notify_all, dispatch_conn, connection_open, connection_close, Event,
  server_sends, receives, opens, closes, mod_acts, only_state, happen, life,
}
use levilamina_rust_loader.Packets.Sound.{
  SendsAt, nested_sends_end, address_of-At, forget-At, run_program-At, sends_end, dispatch-At,
}

module _ (host : Host) (sender : Sender) (conn : ℕ) where
  pump-At :
      SendsAt 1 sender
      → (queue : List (List ℕ)) (s : State) → At 0 s
      → EndsWith (At 0) (pump host sender conn queue s)
  unfolding pump
  pump-At c [] s a = a
  pump-At c (packet ∷ queue) s a =
      go (dispatch host sender inbound conn packet none s)
        (dispatch-At host sender c inbound conn packet none s a) (λ t. pump-At c queue t)
    where
      go :
          (r : Option (Verdict × State))
          → EndsWith (At 0) r
          → ((t : State) → At 0 t → EndsWith (At 0) (pump host sender conn queue t))
          → EndsWith {A = Option (List ℕ) × List (List ℕ)} (At 0) (elim r [
            | none ↦ none
            | some (dropped, t) ↦ pump host sender conn queue t
            | some (replaced rewritten, t) ↦ some ((some rewritten, queue), t)
            | some (pass, t) ↦ some ((some packet, queue), t)
          ])
      go none e rec = e
      go (some (dropped, t)) e rec = rec t e
      go (some (replaced rewritten, t)) e rec = e
      go (some (pass, t)) e rec = e

  receive-At :
      SendsAt 1 sender
      → (queue : List (List ℕ)) (s : State) → At 0 s
      → EndsWith (At 0) (receive host sender conn queue s)
  unfolding receive
  receive-At c queue s a = elim (Bool-cases (not s.inbound_live)) [
    | inl f ↦ rw f a
    | inr f ↦ rw f (pump-At c queue s a)
  ]

  notify-At :
      SendsAt 0 sender
      → (address : String) (opened : Bool) (subs : List ConnSub) (s : State) → At 0 s
      → Ends (At 0) (notify host sender conn address opened subs s)
  unfolding notify
  notify-At c address opened [] s a = a
  notify-At c address opened (sub ∷ subs) s a =
      go (run_program sender (host.on_conn sub.cb sub.user conn address opened) none s)
        (run_program-At 0 sender c (host.on_conn sub.cb sub.user conn address opened) none s a)
        (λ t. notify-At c address opened subs t)
    where
      go :
          (r : Option ((Outcome × Option (List ℕ)) × State))
          → EndsWith (At 0) r
          → ((t : State) → At 0 t → Ends (At 0) (notify host sender conn address opened subs t))
          → Ends (At 0) (elim r [
            | none ↦ none
            | some (answer, t) ↦ notify host sender conn address opened subs t
          ])
      go none e rec = e
      go (some (answer, t)) e rec = rec t e

  notify_all-At :
      SendsAt 0 sender
      → (opened : Bool) (subs : List ConnSub) (s : State) → At 0 s
      → Ends (At 0) (notify_all host sender conn opened subs s)
  unfolding notify_all
  notify_all-At c opened [] s a = a
  notify_all-At c opened (sub ∷ subs) s a =
      notify-At c (address_of conn (host.get_ip_and_port conn) s).0 opened (sub ∷ subs)
        (address_of conn (host.get_ip_and_port conn) s).1
        (address_of-At 0 conn (host.get_ip_and_port conn) s a)

  dispatch_conn-At :
      SendsAt 0 sender
      → (opened : Bool) (s : State) → At 0 s
      → Ends (At 0) (dispatch_conn host sender conn opened s)
  unfolding dispatch_conn
  dispatch_conn-At c opened s a = elim (Bool-cases (not s.conn_live)) [
    | inl f ↦ rw f a
    | inr f ↦ rw f (notify_all-At c opened s.conn_subs s a)
  ]

  connection_close-At :
      SendsAt 0 sender → (s : State) → At 0 s → Ends (At 0) (connection_close host sender conn s)
  unfolding connection_close
  connection_close-At c s a =
      go (dispatch_conn host sender conn false s) (dispatch_conn-At c false s a)
    where
      go :
          (r : Option State)
          → Ends (At 0) r
          → Ends (At 0) (elim r [ none ↦ none | some t ↦ some (forget_address conn t) ])
      go none e = e
      go (some t) e = forget-At 0 conn t e

only_state-Ends :
    {A : Type 0} (r : Option (A × State)) → EndsWith (At 0) r → Ends (At 0) (only_state r)
only_state-Ends none e = e
only_state-Ends (some (a, t)) e = e

happen-At : (host : Host) (e : Event) (s : State) → At 0 s → Ends (At 0) (happen host e s)
unfolding happen connection_open
happen-At host (server_sends conn bytes expected) s a = sends_end host conn bytes expected s a
happen-At host (receives conn queue) s a =
    only_state-Ends (receive host (send host 2) conn queue s)
      (receive-At host (send host 2) conn (nested_sends_end host 1) queue s a)
happen-At host (opens conn true) s a =
    dispatch_conn-At host (send host 2) conn (sends_end host) true s a
happen-At host (opens conn false) s a = a
happen-At host (closes conn) s a = connection_close-At host (send host 2) conn (sends_end host) s a
happen-At host (mod_acts p) s a =
    only_state-Ends (run_program (send host 2) p none s)
      (run_program-At 0 (send host 2) (sends_end host) p none s a)

life-At :
    (host : Host) (events : List Event) (s : State) → At 0 s → Ends (At 0) (life host events s)
unfolding life
life-At host [] s a = a
life-At host (e ∷ events) s a =
    go (happen host e s) (happen-At host e s a) (λ t. life-At host events t)
  where
    go :
        (r : Option State)
        → Ends (At 0) r
        → ((t : State) → At 0 t → Ends (At 0) (life host events t))
        → Ends (At 0) (elim r [ none ↦ none | some t ↦ life host events t ])
    go none h rec = h
    go (some t) h rec = rec t h

-- From the start, whatever the server sends and receives, whichever connections open and close,
-- and whatever mods do in their callbacks and outside: all of it ends, with two levels of sends.
-- Afterwards no dispatch is open, each of the three gates is up exactly if an interceptor that it
-- stands for is registered, and every packet callback that was ever called was a callback, asked for
-- the packet's direction, and was not called from within another one.
pub life-IsOrderly :
    (host : Host) (events : List Event)
    → Ends (λ t. (t.depth ≡ 0) × InSync t × All IsFair t.called) (life host events init)
life-IsOrderly host events = go (life host events init) (
    life-At host events init
      (refl, record { in_sync = (refl, refl, refl); callable = tt; fair = tt }))
  where
    go :
        (r : Option State)
        → Ends (At 0) r
        → Ends (λ t. (t.depth ≡ 0) × InSync t × All IsFair t.called) r
    go none h = h
    go (some t) h = (h.0, h.1.in_sync, h.1.fair)
