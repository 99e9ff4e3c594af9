-- ===== src/Client/Connection/Write/Loop.antt =====
-- `poll_write` moves the output into the stream.
use rust_kingbase.Client.Connection.Write.Polling.{
  WritesRound, write_round-WritesRound, write_round_closing,
}
use rust_kingbase.Prelude.{
  length, ℕ, zero, suc, ◌<◌, ◌≡◌, refl, sym, ap, subst, ◌∙◌, ◌⊎◌, inl, inr, [], ◌∷◌, ◌++◌, arith,
}
use rust_kingbase.Wire.Crates.{Crates}
use rust_kingbase.Client.Connection.{Connection, active, closing}
use rust_kingbase.Client.Connection.Write.{
  write_round, write_loop, poll_write, WriteEnd, WriteRound, want_flush, write_failed,
  write_panicked, write_done, write_on,
}
use rust_kingbase.Client.Connection.Write.Output.{terminate_message, Writes, sent, closed, idle}

abbrev pub WritesEnd : Crates → Connection → WriteEnd × Connection → Type 0
WritesEnd crates c (want_flush b, c') = Writes crates c c'
WritesEnd crates c (write_failed e, c') = Writes crates c c'
WritesEnd crates c (write_panicked, c') = ⊥

module _ (crates : Crates) where
  Writes-trans :
      (c c₁ c' : Connection) → Writes crates c c₁ → Writes crates c₁ c' → Writes crates c c'
  Writes-trans c c₁ c' (idle h e) w = subst (λ x. Writes crates x c') e w
  Writes-trans c c₁ c' w (idle h e) = subst (Writes crates c) (sym e) w
  Writes-trans c c₁ c' (sent a b o r s) (sent a' b' o' r' s') = sent a b' (o' ∙ o) (r' ∙ r) (s' ∙ s)
  Writes-trans c c₁ c' (sent a b o r s) (closed a' r' b' w' f' s') =
      closed a (sym r ∙ r') b' (w' ∙ ap (λ l. l ++ terminate_message crates ∷ []) o) f' (s' ∙ s)
  Writes-trans c c₁ c' (closed a r b w f s) (sent a' b' o' r' s') = cc
  Writes-trans c c₁ c' (closed a r b w f s) (closed a' r' b' w' f' s') = cc

  WritesEnd-trans :
      (c c₁ : Connection) (e : WriteEnd × Connection)
      → Writes crates c c₁
      → WritesEnd crates c₁ e
      → WritesEnd crates c e
  WritesEnd-trans c c₁ (want_flush b, c') w h = Writes-trans c c₁ c' w h
  WritesEnd-trans c c₁ (write_failed e, c') w h = Writes-trans c c₁ c' w h
  WritesEnd-trans c c₁ (write_panicked, c') w h = h

  Writes-state :
      (c c' : Connection)
      → c.state ≡ active
      → Writes crates c c'
      → (c'.state ≡ active) ⊎ (c'.state ≡ closing)
  Writes-state c c' h (sent a b o r s) = inl b
  Writes-state c c' h (closed a r b w f s) = inr b
  Writes-state c c' h (idle e f) = cc

  write_loop_step :
      (fuel : ℕ) (c : Connection) (r : WriteRound)
      → ((c' : Connection)
          → (c'.state ≡ active) ⊎ (c'.state ≡ closing)
          → length c'.sockets < fuel
          → WritesEnd crates c' (write_loop crates fuel c'))
      → length c.sockets < suc fuel
      → c.state ≡ active
      → WritesRound crates c r
      → WritesEnd crates c (elim r as (λ _. WriteEnd × Connection) [
        | write_done end c' ↦ (end, c')
        | write_on c' ↦ write_loop crates fuel c'
      ])
  write_loop_step fuel c (write_done (want_flush b) c') ih l h w = w
  write_loop_step fuel c (write_done (write_failed e) c') ih l h w = w
  write_loop_step fuel c (write_done write_panicked c') ih l h w = w
  write_loop_step fuel c (write_on c') ih l h (w, n) =
      WritesEnd-trans c c' (write_loop crates fuel c') w
        (ih c' (Writes-state c c' h w) (omega arith))

  write_loop-Writes :
      (fuel : ℕ) (c : Connection)
      → (c.state ≡ active) ⊎ (c.state ≡ closing)
      → length c.sockets < fuel
      → WritesEnd crates c (write_loop crates fuel c)
  unfolding write_loop
  write_loop-Writes zero c h l = absurd (omega arith)
  write_loop-Writes (suc fuel) c (inl h) l =
      write_loop_step fuel c (write_round crates c) (write_loop-Writes fuel) l h
        (write_round-WritesRound crates c h)
  write_loop-Writes (suc fuel) c (inr h) l =
      rw (write_loop, write_round_closing crates c h) (idle h refl)

  -- From a connection that is active or closing `poll_write` ends without a panic, whatever the socket
  -- and the channels answer. While it is active, the messages in the stream with those that the
  -- requests are still to send keep their order, none is lost, doubled or put between the messages of a
  -- copy, and the accepted requests wait for their answers in the order in which they came. It
  -- closes only when no request is left to answer, with `Terminate` behind the whole output. Once it is
  -- closing, nothing changes. The read side is left alone.
  pub poll_write-Writes :
      (c : Connection)
      → (c.state ≡ active) ⊎ (c.state ≡ closing)
      → WritesEnd crates c (poll_write crates c)
  unfolding poll_write
  poll_write-Writes c h = write_loop-Writes (suc (length c.sockets)) c h (omega arith)
