-- ===== src/Modbus/Wait/Timing.antt =====
-- The rounds of the loop in `WaitForData` (modbus.c) in which nothing comes.
use modbus_sphere_library.Base.{
  ℕ, zero, suc, ◌+◌, ◌-◌, ◌%◌, ◌^◌, ◌≤◌, ◌<◌, ◌≡◌, ap, ◌∙◌, [], true, false, ◌&&◌, arith, ltb,
  lt→ltb,
}
use modbus_sphere_library.Outcome.{ok}
use modbus_sphere_library.Modbus.Types.{
  idle, waiting_for_response, data_received, Env, World, is_data_received,
}
use modbus_sphere_library.Modbus.Wait.{epoll_events, is_finished, wait_loop, wait_for_data}

-- No events during the first `n` sleeps.
abbrev pub Quiet : Env → World → ℕ → Type 0
Quiet env w n = (k : ℕ) → k < n → env.polls (w.tick + k) ≡ []

unfoldable pub later : World → ℕ → World
later w n = record w { tick = w.tick + n }

stays : (timeout counter : ℕ) → counter ≤ timeout → (ltb 0 timeout && ltb timeout counter) ≡ false
stays timeout counter h = ground arith

module _ (env : Env) (timeout : ℕ) (big : timeout + 2 < 2 ^ 32) where
  quiet_step :
      (fuel counter : ℕ) (w : World)
      → is_finished w.hndl.state ≡ false
      → env.polls w.tick ≡ []
      → counter ≤ timeout
      → wait_loop env (suc fuel) w timeout counter
        ≡ wait_loop env fuel (later w 1) timeout (counter + 1)
  unfolding wait_loop epoll_events later
  quiet_step fuel counter w going silent le =
      let small : (counter + 1) % 2 ^ 32 ≡ counter + 1 = omega arith in
      rw (going, wait_loop, silent, stays timeout counter le, small)

  later-later : (w : World) (n : ℕ) → later (later w 1) n ≡ later w (suc n)
  unfolding later
  later-later w n =
      ap (λ k. record w { tick = k }) (let e : w.tick + 1 + n ≡ w.tick + suc n = omega arith in e)

  later_none : (w : World) → later w 0 ≡ w
  unfolding later
  later_none w = ap (λ k. record w { tick = k }) (let e : w.tick + 0 ≡ w.tick = omega arith in e)

  going_later :
      (w : World) (n : ℕ)
      → is_finished w.hndl.state ≡ false
      → is_finished (later w n).hndl.state ≡ false
  unfolding later
  going_later w n going = going

  Quiet-later : (w : World) (n : ℕ) → Quiet env w (suc n) → Quiet env (later w 1) n
  unfolding later
  Quiet-later w n silent k lt =
      ap env.polls (let e : w.tick + 1 + k ≡ w.tick + suc k = omega arith in e)
      ∙ silent (suc k) (omega arith)

  -- Sleeps without events only advance the counter.
  pub quiet :
      (n fuel counter : ℕ) (w : World)
      → is_finished w.hndl.state ≡ false
      → Quiet env w n
      → counter + n ≤ timeout + 1
      → wait_loop env (n + fuel) w timeout counter
        ≡ wait_loop env fuel (later w n) timeout (counter + n)
  quiet zero fuel counter w going silent le =
      let e : 0 + fuel ≡ fuel = omega arith in
      let e' : counter + 0 ≡ counter = omega arith in rw (e, e', later_none w)
  quiet (suc n) fuel counter w going silent le =
      let e : suc n + fuel ≡ suc (n + fuel) = omega arith in
      let e' : counter + 1 + n ≡ counter + suc n = omega arith in
      let now : env.polls w.tick ≡ [] =
        ap env.polls (let t : w.tick ≡ w.tick + 0 = omega arith in t) ∙ silent 0 (omega arith) in
      ap (λ k. wait_loop env k w timeout counter) e
      ∙ quiet_step (n + fuel) counter w going now (omega arith)
      ∙ quiet n fuel (counter + 1) (later w 1) (going_later w 1 going) (Quiet-later w n silent)
          (omega arith)
      ∙ ap (λ v. wait_loop env fuel v timeout (counter + 1 + n)) (later-later w n)
      ∙ ap (wait_loop env fuel (later w (suc n)) timeout) e'

  -- The round that exceeds the timeout is the last, whether or not something came.
  last_round :
      (fuel counter : ℕ) (w : World)
      → is_finished w.hndl.state ≡ false
      → env.polls w.tick ≡ []
      → 0 < timeout
      → timeout < counter
      → wait_loop env (suc fuel) w timeout counter ≡ ok (later w 1)
  unfolding wait_loop epoll_events later
  last_round fuel counter w going silent pos lt =
      rw (going, wait_loop, silent, lt→ltb 0 timeout pos, lt→ltb timeout counter lt)

  -- Once data has come the loop ends.
  pub finished_round :
      (fuel counter : ℕ) (w : World)
      → w.hndl.state ≡ data_received
      → wait_loop env (suc fuel) w timeout counter ≡ ok w
  unfolding wait_loop is_finished
  finished_round fuel counter w e =
      let done : is_finished w.hndl.state ≡ true = ap is_finished e in rw (done, wait_loop)

  -- With a timeout `t > 0`, `t + 2 < 2 ^ 32`, and fuel for `t + 2` rounds, a device from which
  -- nothing comes during `t + 2` sleeps costs exactly these, and is reported as no data with the
  -- handle idle.
  pub wait_for_data_silent :
      (w : World)
      → w.hndl.state ≡ waiting_for_response
      → 0 < timeout
      → timeout + 2 ≤ env.fuel
      → Quiet env w (timeout + 2)
      → wait_for_data env w timeout
        ≡ ok (
          false,
          record w { hndl = record w.hndl { state = idle }; tick = w.tick + (timeout + 2) },
        )
  unfolding wait_for_data later is_data_received is_finished
  wait_for_data_silent w waits pos enough silent =
      let going : is_finished w.hndl.state ≡ false = ap is_finished waits in
      let split : env.fuel ≡ timeout + 1 + suc (env.fuel - timeout - 2) = omega arith in
      let here : env.polls (w.tick + (timeout + 1)) ≡ [] = silent (timeout + 1) (omega arith) in
      let ticks : w.tick + (timeout + 1) + 1 ≡ w.tick + (timeout + 2) = omega arith in
      let none_came : is_data_received w.hndl.state ≡ false = ap is_data_received waits in
      let ended : wait_loop env env.fuel w timeout 0
          ≡ ok (record w { tick = w.tick + (timeout + 2) }) =
        ap (λ k. wait_loop env k w timeout 0) split
        ∙ quiet (timeout + 1) (suc (env.fuel - timeout - 2)) 0 w going
            (λ k lt. silent k (omega arith)) (omega arith)
        ∙ last_round (env.fuel - timeout - 2) (0 + (timeout + 1)) (later w (timeout + 1)) going here
            pos (omega arith)
        ∙ ap (λ k. ok (record w { tick = k })) ticks in
      rw (ended, none_came)
