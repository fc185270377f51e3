-- ===== src/WebSocket/Server/Isolation.antt =====
-- `handle_client` of module05_signaling/src/websocket_server.cpp keeps to its own connection.
use mathlib.Core.Path.{subst}
use cpp_meet.Common.{
  ℕ, ◌≡◌, ◌≢◌, refl, ap, sym, ◌∙◌, arith, ◌++◌, All-append, List, [], ◌∷◌, Option, none, some,
}
use cpp_meet.Common.Keys.{
  erase, insert, lookup, lookup-erase, lookup-erase_self, lookup-insert_ne, lookup-insert_self,
  nat_eq,
}
use cpp_meet.Wire.{Bytes}
use cpp_meet.WebSocket.{Action, closed, disconnected}
use cpp_meet.WebSocket.Server.Targets.{AreOn, receive-AreOn, target}
use cpp_meet.WebSocket.Server.{
  Conns, Handled, Net, Next, ReadResult, WsConnection, bytes, end_of_file, failed, read_on,
  drop_client, terminated, go_on, handle_client, receive, round,
}

lookup-erase_ne : (k j : ℕ) (conns : Conns) → k ≢ j → lookup j (erase k conns) ≡ lookup j conns
lookup-erase_ne k j conns h = ground (arith, lookup-erase k j conns)

-- What is under the number stays, and everything is done on the descriptor.
abbrev pub KeepsTo : ℕ → ℕ → Conns → Handled → Type 0
KeepsTo fd j conns h = (lookup j h.conns ≡ lookup j conns) × AreOn fd h.actions

-- The later rounds.
abbrev AllKeep : ℕ → ℕ → (Conns → Handled) → Type 0
AllKeep fd j later = (conns : Conns) → KeepsTo fd j conns (later conns)

go_on-KeepsTo :
    (fd j : ℕ) (acts : List Action) (next : Next) (later : Conns → Handled)
    → fd ≢ j
    → AreOn fd acts
    → AllKeep fd j later
    → AllKeep fd j (λ conns. go_on fd acts conns next later)
unfolding go_on
go_on-KeepsTo fd j acts read_on later h a k conns =
    ((k conns).0, All-append (λ x. target x ≡ fd) acts (later conns).actions a (k conns).1)
go_on-KeepsTo fd j acts drop_client later h a k conns = (
  lookup-erase_ne fd j conns h,
  All-append (λ x. target x ≡ fd) acts (closed fd ∷ disconnected fd ∷ []) a (refl, (refl, tt)),
)
go_on-KeepsTo fd j acts terminated later h a k conns = (refl, a)

round-KeepsTo :
    (net : Net) (fd j : ℕ) (chunk : Bytes) (later : Conns → Handled) (o : Option WsConnection)
    → fd ≢ j
    → AllKeep fd j later
    → AllKeep fd j (λ conns. round net fd chunk conns later o)
unfolding round
round-KeepsTo net fd j chunk later none h k conns = (refl, tt)
round-KeepsTo net fd j chunk later (some conn) h k conns =
    let r = receive net fd conn chunk in
    let rest =
      go_on-KeepsTo fd j r.0 r.2 later h (receive-AreOn net fd conn chunk) k
        (insert fd r.1 conns) in
    (rest.0 ∙ lookup-insert_ne fd j r.1 conns h, rest.1)

handle_client-KeepsTo :
    (net : Net) (fd j : ℕ) (reads : List ReadResult) (conns : Conns)
    → fd ≢ j
    → KeepsTo fd j conns (handle_client net fd reads conns)
unfolding handle_client
handle_client-KeepsTo net fd j [] conns h = (refl, tt)
handle_client-KeepsTo net fd j (end_of_file ∷ reads) conns h =
    (lookup-erase_ne fd j conns h, (refl, (refl, tt)))
handle_client-KeepsTo net fd j (failed ∷ reads) conns h =
    (lookup-erase_ne fd j conns h, (refl, (refl, tt)))
handle_client-KeepsTo net fd j (bytes chunk ∷ reads) conns h =
    round-KeepsTo net fd j chunk (handle_client net fd reads) (lookup fd conns) h
      (λ later. handle_client-KeepsTo net fd j reads later h) conns

-- The same actions and the same end, and the same entry under the number.
abbrev pub SameWork : ℕ → Handled → Handled → Type 0
SameWork fd h k =
    (h.actions ≡ k.actions) × ((h.crashed ≡ k.crashed) × (lookup fd h.conns ≡ lookup fd k.conns))

-- The later rounds look at the entry under the number only.
abbrev LooksAt : ℕ → (Conns → Handled) → Type 0
LooksAt fd later = (m n : Conns) → lookup fd m ≡ lookup fd n → SameWork fd (later m) (later n)

go_on-LooksAt :
    (fd : ℕ) (acts : List Action) (next : Next) (later : Conns → Handled)
    → LooksAt fd later
    → LooksAt fd (λ conns. go_on fd acts conns next later)
unfolding go_on
go_on-LooksAt fd acts read_on later k m n e =
    let (a, rest) = k m n e in (ap (λ t. acts ++ t) a, rest)
go_on-LooksAt fd acts drop_client later k m n e =
    (refl, (refl, lookup-erase_self fd m ∙ sym (lookup-erase_self fd n)))
go_on-LooksAt fd acts terminated later k m n e = (refl, (refl, e))

round-LooksAt :
    (net : Net) (fd : ℕ) (chunk : Bytes) (later : Conns → Handled) (o : Option WsConnection)
    → LooksAt fd later
    → LooksAt fd (λ conns. round net fd chunk conns later o)
unfolding round
round-LooksAt net fd chunk later none k m n e = (refl, (refl, e))
round-LooksAt net fd chunk later (some conn) k m n e =
    let r = receive net fd conn chunk in
    go_on-LooksAt fd r.0 r.2 later k (insert fd r.1 m) (insert fd r.1 n)
      (lookup-insert_self fd r.1 m ∙ sym (lookup-insert_self fd r.1 n))

handle_client-LooksAt :
    (net : Net) (fd : ℕ) (reads : List ReadResult) → LooksAt fd (handle_client net fd reads)
unfolding handle_client
handle_client-LooksAt net fd [] m n e = (refl, (refl, e))
handle_client-LooksAt net fd (end_of_file ∷ reads) m n e =
    (refl, (refl, lookup-erase_self fd m ∙ sym (lookup-erase_self fd n)))
handle_client-LooksAt net fd (failed ∷ reads) m n e =
    (refl, (refl, lookup-erase_self fd m ∙ sym (lookup-erase_self fd n)))
handle_client-LooksAt net fd (bytes chunk ∷ reads) m n e =
    subst
      (λ o.
        SameWork fd (round net fd chunk m (handle_client net fd reads) (lookup fd m))
          (round net fd chunk n (handle_client net fd reads) o))
      e
      (round-LooksAt net fd chunk (handle_client net fd reads) (lookup fd m)
        (handle_client-LooksAt net fd reads) m n e)

-- Handling what comes in on one descriptor, with or without a disconnection, leaves the map's entry of every
-- other connection as it is; whatever it writes, closes or calls back, it does on that descriptor; and its
-- actions, its end and its own entry are the same for any other map with the same entry under the descriptor.
pub handle_client-others :
    (net : Net) (j fd : ℕ) (reads : List ReadResult) (conns other : Conns)
    → fd ≢ j
    → lookup fd conns ≡ lookup fd other
    → KeepsTo fd j conns (handle_client net fd reads conns)
      × SameWork fd (handle_client net fd reads conns) (handle_client net fd reads other)
handle_client-others net j fd reads conns other h e =
    (handle_client-KeepsTo net fd j reads conns h, handle_client-LooksAt net fd reads conns other e)
