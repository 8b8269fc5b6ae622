-- ===== src/Socks/Commands/Paths.antt =====
-- Every path of a command answers and closes what it opened.
use outway.Base.{
  ℕ, ◌+◌, ◌≤◌, ◌≡◌, refl, arith, List, [], ◌∷◌, Option, none, some, Bool, true, false, ◌==◌,
  if◌then◌else◌, Bool-cases, inl, inr,
}
use outway.Net.{AddrPort}
use outway.Socks.Commands.{
  Action, reply, open_outbound, close_outbound, open_listener, close_listener, open_inbound,
  close_inbound, tunnel, Buffered, copied, handle_connect, Accepted, connection, accept_failed,
  ended, handle_bind, handle_udp,
}

-- What stays open: connections to targets, listeners and inbound sockets, as opened and closed.
abbrev pub opened : List Action → ℕ
opened [] = 0
opened (open_outbound ∷ acts) = 1 + opened acts
opened (open_listener ∷ acts) = 1 + opened acts
opened (open_inbound ∷ acts) = 1 + opened acts
opened (_ ∷ acts) = opened acts

abbrev pub closed : List Action → ℕ
closed [] = 0
closed (close_outbound ∷ acts) = 1 + closed acts
closed (close_listener ∷ acts) = 1 + closed acts
closed (close_inbound ∷ acts) = 1 + closed acts
closed (_ ∷ acts) = closed acts

abbrev pub replies : List Action → ℕ
replies [] = 0
replies (reply r a ok ∷ acts) = 1 + replies acts
replies (_ ∷ acts) = replies acts

abbrev pub tunnels : List Action → ℕ
tunnels [] = 0
tunnels (tunnel ∷ acts) = 1 + tunnels acts
tunnels (_ ∷ acts) = tunnels acts

-- CONNECT answers once, whatever happens, and a connection to the target that was opened is closed;
-- bytes are relayed exactly where the dial, the reply and the copy of what was buffered succeed.
pub handle_connect-paths :
    (dialled written : Bool) (b : Buffered)
    → let acts = handle_connect dialled written b in
      (replies acts ≡ 1)
      × (opened acts ≡ closed acts)
      × (tunnels acts ≡ (if dialled then if written then if copied b then 1 else 0 else 0 else 0))
unfolding handle_connect
handle_connect-paths false written b = (refl, refl, refl)
handle_connect-paths true false b = (refl, refl, refl)
handle_connect-paths true true b = elim (Bool-cases (b.count == 0)) [
  | inl e ↦ rw e (refl, refl, refl)
  | inr e ↦ elim (Bool-cases b.copies) [
    | inl f ↦ rw (e, f) (refl, refl, refl)
    | inr f ↦ rw (e, f) (refl, refl, refl)
  ]
]

-- BIND answers once or twice, and the listener and a connection that was accepted are closed, also
-- where one arrives as the server shuts down; bytes are relayed only after two replies.
pub handle_bind-paths :
    (ip listening : Option AddrPort) (first : Bool) (accepted : Accepted) (second : Bool)
    (b : Buffered)
    → let acts = handle_bind ip listening first accepted second b in
      (1 ≤ replies acts)
      × (replies acts ≤ 2)
      × (opened acts ≡ closed acts)
      × (tunnels acts + 1 ≤ replies acts)
unfolding handle_bind
handle_bind-paths none listening first accepted second b =
    (omega arith, omega arith, refl, omega arith)
handle_bind-paths (some ip) none first accepted second b =
    (omega arith, omega arith, refl, omega arith)
handle_bind-paths (some ip) (some at) false accepted second b =
    (omega arith, omega arith, refl, omega arith)
handle_bind-paths (some ip) (some at) true (ended true) second b =
    (omega arith, omega arith, refl, omega arith)
handle_bind-paths (some ip) (some at) true (ended false) second b =
    (omega arith, omega arith, refl, omega arith)
handle_bind-paths (some ip) (some at) true accept_failed second b =
    (omega arith, omega arith, refl, omega arith)
handle_bind-paths (some ip) (some at) true (connection remote) false b =
    (omega arith, omega arith, refl, omega arith)
handle_bind-paths (some ip) (some at) true (connection remote) true b =
    elim (Bool-cases (b.count == 0)) [
      | inl e ↦ rw e (omega arith, omega arith, refl, omega arith)
      | inr e ↦ elim (Bool-cases b.copies) [
        | inl f ↦ rw (e, f) (omega arith, omega arith, refl, omega arith)
        | inr f ↦ rw (e, f) (omega arith, omega arith, refl, omega arith)
      ]
    ]

-- UDP ASSOCIATE answers once, and the inbound and outbound sockets that were opened are closed.
pub handle_udp-paths :
    (begun : Bool) (inbound : Option AddrPort) (written : Bool) (outbound : Option Bool)
    → let acts = handle_udp begun inbound written outbound in
      (replies acts ≡ 1) × (opened acts ≡ closed acts)
unfolding handle_udp
handle_udp-paths false inbound written outbound = (refl, refl)
handle_udp-paths true none written outbound = (refl, refl)
handle_udp-paths true (some at) false outbound = (refl, refl)
handle_udp-paths true (some at) true none = (refl, refl)
handle_udp-paths true (some at) true (some true) = (refl, refl)
handle_udp-paths true (some at) true (some false) = (refl, refl)
