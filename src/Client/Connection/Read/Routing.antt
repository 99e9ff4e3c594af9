-- ===== src/Client/Connection/Read/Routing.antt =====
-- `poll_read` refines the router.
use rust_kingbase.Prelude.{
  Bool-cases, Bytes, length, All, ℕ, zero, suc, ◌+◌, ◌≤◌, ◌<◌, ◌≡◌, refl, sym, ap, subst, ◌∙◌, inl,
  inr, List, [], ◌∷◌, ◌++◌, arith,
}
use rust_kingbase.Wire.Crates.{Crates}
use rust_kingbase.Codec.{BackendMessage, normal, async}
use rust_kingbase.Client.DbError.{ClientError, io_failed, connection_closed}
use rust_kingbase.Client.Connection.{
  is_active, Incoming, Connection, no_bytes, end_of_stream, broken, arrived,
}
use rust_kingbase.Client.Connection.Read.{
  poll_response_of, poll_response, read_answer, read_round, read_loop, poll_read, ReadEnd,
  ReadRound, nothing_read, read_message, read_failed, read_panicked, read_done, read_on,
}
use rust_kingbase.Client.Connection.Read.Router.{
  to_route, router, IsRoutable, IsAnswer, MayFollow, IsPendable, Route, Routes, IsOrderly,
  none_routed, one_routed, Router, Waited,
}
use rust_kingbase.Client.Connection.Read.Rounds.{Takes, read_async-Takes, respond-Takes}

-- What `poll_read` may do to a connection: the messages that it took, in order, ran the router; an
-- error has lost one message more at most; and it does not panic.
abbrev pub Reads : Connection → ReadEnd × Connection → Type 0
Reads c (nothing_read, c') =
    (ms : List BackendMessage) × (middle : Router) × (to_route c ≡ ms ++ to_route c')
    × Routes middle (router c) ms
    × Waited middle (router c')
    × IsOrderly c'
Reads c (read_message m, c') =
    (ms : List BackendMessage) × (to_route c ≡ ms ++ to_route c')
    × (1 ≤ length ms)
    × Routes (router c') (router c) ms
    × IsOrderly c'
Reads c (read_failed e, c') =
    (ms : List BackendMessage) × (lost : List BackendMessage) × (to_route c
      ≡ ms ++ (lost ++ to_route c'))
    × (length lost ≤ 1)
    × Routes (router c') (router c) ms
Reads c (read_panicked, c') = ⊥

abbrev size : Connection → ℕ
size c = length c.pending_responses + length c.incoming

-- What a round may do: take a message, or end without one.
data Rounds (c : Connection) : ReadRound → Type 0 where
  taking :
      {r : ReadRound} (m : BackendMessage) (c₁ : Connection)
      → to_route c ≡ m ∷ to_route c₁
      → router c ≡ router c₁
      → size c ≡ suc (size c₁)
      → Takes m c₁ r
      → Rounds c r
  idling :
      (c₁ : Connection)
      → to_route c ≡ to_route c₁
      → router c ≡ router c₁
      → IsOrderly c₁
      → Rounds c (read_done nothing_read c₁)
  failing :
      (c₁ : Connection) (e : ClientError)
      → to_route c ≡ to_route c₁
      → router c ≡ router c₁
      → Rounds c (read_done (read_failed e) c₁)

module _ (crates : Crates) (lossy : Bytes → Bytes) where
  message-Rounds :
      (m : BackendMessage) (c₁ : Connection)
      → IsRoutable m
      → MayFollow m c₁.pending_responses
      → All IsAnswer c₁.incoming
      → Takes m c₁ (read_answer crates lossy (arrived m) c₁)
  unfolding read_answer
  message-Rounds (async m) c₁ h behind_it coming =
      read_async-Takes crates lossy h c₁ behind_it coming
  message-Rounds (normal messages complete) c₁ h behind_it coming =
      respond-Takes crates lossy messages complete c₁.senders c₁.responses c₁ refl refl behind_it
        coming

  AllAsync-MayFollow : (m : BackendMessage) → MayFollow m []
  AllAsync-MayFollow (async m) = tt
  AllAsync-MayFollow (normal messages complete) = refl

  answer-Rounds :
      (ps : List BackendMessage) (answers : List Incoming) (c : Connection)
      → c.pending_responses ≡ ps
      → c.incoming ≡ answers
      → IsPendable ps
      → All IsAnswer answers
      → Rounds c
          (let (answer, c') = poll_response_of ps answers c in read_answer crates lossy answer c')
  unfolding poll_response_of read_answer
  answer-Rounds (m ∷ ms) answers c ep ei (routable, behind_it) coming =
      taking m (record c { pending_responses = ms }) (rw ep refl) refl (rw ep (omega arith))
        (message-Rounds m (record c { pending_responses = ms }) routable behind_it (rw ei coming))
  answer-Rounds [] [] c ep ei pending coming =
      idling c refl refl (record { pending = rw ep tt; coming = rw ei tt })
  answer-Rounds [] (no_bytes ∷ answers) c ep ei pending (h, coming) =
      idling (record c { incoming = answers }) (rw (ep, ei) refl) refl
        (record { pending = rw ep tt; coming = coming })
  answer-Rounds [] (end_of_stream ∷ answers) c ep ei pending (h, coming) =
      failing (record c { incoming = answers }) connection_closed (rw (ep, ei) refl) refl
  answer-Rounds [] (broken e ∷ answers) c ep ei pending (h, coming) =
      failing (record c { incoming = answers }) (io_failed e) (rw (ep, ei) refl) refl
  answer-Rounds [] (arrived m ∷ answers) c ep ei pending (h, coming) =
      taking m (record c { incoming = answers }) (rw (ep, ei) refl) refl (rw (ep, ei) (omega arith))
        (message-Rounds m (record c { incoming = answers }) h (rw ep (AllAsync-MayFollow m)) coming)

-- A message in front of what the rest of the loop reads.
Reads-one :
    (c c₁ c₂ : Connection) (m : BackendMessage) (result : ReadEnd × Connection)
    → to_route c ≡ m ∷ to_route c₁
    → router c ≡ router c₁
    → to_route c₁ ≡ to_route c₂
    → Route (router c₁) (router c₂) m
    → Reads c₂ result
    → Reads c result
Reads-one c c₁ c₂ m (nothing_read, c') e r e₁ route (ms, middle, split, routes, waited, orderly) = (
  m ∷ ms,
  middle,
  e ∙ ap (m ∷◌) (e₁ ∙ split),
  one_routed (router c₂) (subst (λ b. Route b (router c₂) m) (sym r) route) routes,
  waited,
  orderly,
)
Reads-one c c₁ c₂ m (read_message x, c') e r e₁ route (ms, split, some_read, routes, orderly) = (
  m ∷ ms,
  e ∙ ap (m ∷◌) (e₁ ∙ split),
  omega arith,
  one_routed (router c₂) (subst (λ b. Route b (router c₂) m) (sym r) route) routes,
  orderly,
)
Reads-one c c₁ c₂ m (read_failed x, c') e r e₁ route (ms, lost, split, few, routes) = (
  m ∷ ms,
  lost,
  e ∙ ap (m ∷◌) (e₁ ∙ split),
  few,
  one_routed (router c₂) (subst (λ b. Route b (router c₂) m) (sym r) route) routes,
)
Reads-one c c₁ c₂ m (read_panicked, c') e r e₁ route h = h

module _ (crates : Crates) (lossy : Bytes → Bytes) where
  round-Rounds : (c : Connection) → IsOrderly c → Rounds c (read_round crates lossy c)
  unfolding read_round poll_response
  round-Rounds c h =
      answer-Rounds crates lossy c.pending_responses c.incoming c refl refl h.pending h.coming

  loop_step :
      (fuel : ℕ) (c : Connection) (r : ReadRound)
      → ((c' : Connection)
          → IsOrderly c'
          → size c' < fuel
          → Reads c' (read_loop crates lossy fuel c'))
      → size c < suc fuel
      → Rounds c r
      → Reads c (elim r as (λ _. ReadEnd × Connection) [
        | read_done end c' ↦ (end, c')
        | read_on c' ↦ read_loop crates lossy fuel c'
      ])
  loop_step fuel c _ ih h (idling c₁ e r orderly) =
      ([], router c₁, e, none_routed r, (refl, refl, inl refl), orderly)
  loop_step fuel c _ ih h (failing c₁ x e r) = ([], [], e, omega arith, none_routed r)
  loop_step fuel c (read_on c') ih h (taking m c₁ e r s (e₁, route, orderly, l₁, l₂)) =
      Reads-one c c₁ c' m (read_loop crates lossy fuel c') e r e₁ route
        (ih c' orderly (omega arith))
  loop_step fuel c (read_done nothing_read c') ih h (taking m c₁ e r s (e₁, waited, orderly)) =
      ([], router c₁, e ∙ e₁, none_routed r, waited, orderly)
  loop_step fuel c (read_done (read_message x) c') ih h (taking m c₁ e r s (e₁, route, orderly)) = (
    m ∷ [],
    e ∙ ap (m ∷◌) e₁,
    omega arith,
    one_routed (router c') (subst (λ b. Route b (router c') m) (sym r) route) (none_routed refl),
    orderly,
  )
  loop_step fuel c (read_done (read_failed x) c') ih h (taking m c₁ e r s (e₁, r₁)) =
      ([], m ∷ [], e ∙ ap (m ∷◌) e₁, omega arith, none_routed (r ∙ r₁))
  loop_step fuel c (read_done read_panicked c') ih h (taking m c₁ e r s t) = t

  read_loop-Reads :
      (fuel : ℕ) (c : Connection)
      → IsOrderly c
      → size c < fuel
      → Reads c (read_loop crates lossy fuel c)
  unfolding read_loop
  read_loop-Reads zero c o h = absurd (omega arith)
  read_loop-Reads (suc fuel) c o h =
      loop_step fuel c (read_round crates lossy c) (read_loop-Reads fuel) h (round-Rounds c o)

  pub poll_read-Reads : (c : Connection) → IsOrderly c → Reads c (poll_read crates lossy c)
  unfolding poll_read
  poll_read-Reads c o = elim (Bool-cases (is_active c.state)) [
    | inl on ↦ rw on (read_loop-Reads (suc (size c)) c o (omega arith))
    | inr off ↦ rw off ([], router c, refl, none_routed refl, (refl, refl, inl refl), o)
  ]
