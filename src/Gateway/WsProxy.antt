-- ===== src/Gateway/WsProxy.antt =====
-- WsProxy of apiGateway/internal/service/gatewayService.go, and GetMsgServiceConn beside it: two
-- loops that run at once, one for each direction, between the connection of a user and one to the
-- message service.
use simply_chat.Base.{Bool, true, false, ◌≡◌, refl, ap, ◌⊎◌, inl, inr, List, [], ◌∷◌, ◌++◌, arith}

-- One direction: the messages that were read from the one end, those that were written to the other,
-- and whether the loop still runs.
pub record Pump (M : Type 0) : Type 0 where
  pub read : List M
  pub written : List M
  pub running : Bool

abbrev pub fresh_pump : {M : Type 0} → Pump M
fresh_pump = record { read = []; written = []; running = true }

-- One round of a loop.
pub data Round {M : Type 0} (p : Pump M) : Pump M → Type 0 where
  forwards :
      (m : M)
      → p.running ≡ true
      → Round p (record { read = p.read ++ m ∷ []; written = p.written ++ m ∷ []; running = true })
  read_fails : p.running ≡ true → Round p (record p { running = false })
  write_fails :
      (m : M) → p.running ≡ true → Round p (record p { read = p.read ++ m ∷ []; running = false })

-- `up` goes from the user to the message service, `down` the other way.
pub data Proxy (M : Type 0) : Type 0 where
  -- before the message service has been reached
  dialing : Proxy M
  proxying : Pump M → Pump M → Proxy M
  -- both connections are closed, and the messages are what they were
  closed : Pump M → Pump M → Proxy M
  -- the message service was not reached, and the user's connection is closed
  refused : Proxy M

pub data Step {M : Type 0} : Proxy M → Proxy M → Type 0 where
  dial_fails : Step dialing refused
  dials : Step dialing (proxying fresh_pump fresh_pump)
  up_goes : {up up' down : Pump M} → Round up up' → Step (proxying up down) (proxying up' down)
  down_goes :
      {up down down' : Pump M} → Round down down' → Step (proxying up down) (proxying up down')
  -- `wg.Wait` returns, and the deferred closes run
  closes :
      {up down : Pump M}
      → up.running ≡ false
      → down.running ≡ false
      → Step (proxying up down) (closed up down)

pub data Reachable {M : Type 0} : Proxy M → Type 0 where
  start : Reachable dialing
  after : {s t : Proxy M} → Reachable s → Step s t → Reachable t

-- What was written is what was read, but for a last message that a loop failed to write before it
-- stopped.
abbrev pub InOrder : {M : Type 0} → Pump M → Type 0
InOrder {M} p =
    (p.read ≡ p.written) ⊎ ((m : M) × (p.read ≡ p.written ++ m ∷ []) × (p.running ≡ false))

abbrev pub Good : {M : Type 0} → Proxy M → Type 0
Good dialing = Unit
Good (proxying up down) = InOrder up × InOrder down
Good (closed up down) = InOrder up × InOrder down × (up.running ≡ false) × (down.running ≡ false)
Good refused = Unit

module _ {M : Type 0} where
  Round-InOrder : {p q : Pump M} → Round p q → InOrder p → InOrder q
  Round-InOrder (forwards m runs) (inl same) = inl (ap (λ ms. ms ++ m ∷ []) same)
  Round-InOrder (forwards m runs) (inr (n, lost, stopped)) = absurd (ground (arith, runs, stopped))
  Round-InOrder (read_fails runs) (inl same) = inl same
  Round-InOrder (read_fails runs) (inr (n, lost, stopped)) = inr (n, lost, refl)
  Round-InOrder (write_fails m runs) (inl same) = inr (m, ap (λ ms. ms ++ m ∷ []) same, refl)
  Round-InOrder (write_fails m runs) (inr (n, lost, stopped)) =
      absurd (ground (arith, runs, stopped))

  Step-Good : {s t : Proxy M} → Step s t → Good s → Good t
  Step-Good dial_fails good = tt
  Step-Good dials good = (inl refl, inl refl)
  Step-Good (up_goes round) (up, down) = (Round-InOrder round up, down)
  Step-Good (down_goes round) (up, down) = (up, Round-InOrder round down)
  Step-Good (closes up_done down_done) (up, down) = (up, down, up_done, down_done)

  -- However the two loops are interleaved, each side has been sent what was read from the other, in order and
  -- without a gap: only the last message may be missing, where its loop has stopped. The
  -- connections are closed only after both loops have stopped.
  pub Reachable-Good : {s : Proxy M} → Reachable s → Good s
  Reachable-Good start = tt
  Reachable-Good (after reached step) = Step-Good step (Reachable-Good reached)
