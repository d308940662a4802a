-- ===== src/Agent/Running.antt =====
-- internal/agent/agent.go: what a whole run leaves behind.
use veritix.Base.{
  ℕ, zero, suc, ◌+◌, ◌≤◌, ◌≡◌, refl, arith, true, false, not, ◌&&◌, [], ◌∷◌, Str, if◌then◌else◌,
}
use veritix.Base.Int.{ℤ, pos, ltb_ℤ}
use veritix.Agent.Message.{
  user, Message, tool_calls, Response, Stopped, token_budget, step_budget, canceled, provider_error,
  total,
}
use veritix.Agent.Retry.{CallResult, answered, timed_out, rejected, interrupted, gave_up, complete}
use veritix.Agent.Loop.{
  Env, State, Outcome, done, go_on, ends, heard, after_call, turn, loop, run_agent, plain_text,
  default_steps,
}
use veritix.Agent.Dialogue.{
  told, traced, Replies, WellBehaved, complete_from-Replies, Ready, Sound, Holds,
}
use veritix.Agent.Turns.{heard_lem, after_reply_lem, stop_lem}

module _ {W : Type 0} (env : Env W) (token_limit : ℤ) where
  after_call_lem :
      (n : ℕ) (st : State W) (c : CallResult × W)
      → ((res : Response) → c.0 ≡ answered res → Replies res)
      → Ready n st
      → Holds n (after_call env token_limit n st c)
  unfolding after_call
  after_call_lem n st (answered res, w) good g =
      after_reply_lem env token_limit n res (heard env token_limit w res st)
        (tool_calls res.message) (heard_lem env token_limit n w res st g (good res refl)) refl
  after_call_lem n st (timed_out e, w) good g =
      stop_lem env token_limit n st provider_error (env.error_text (timed_out e)) w g
  after_call_lem n st (rejected e, w) good g =
      stop_lem env token_limit n st provider_error (env.error_text (rejected e)) w g
  after_call_lem n st (interrupted, w) good g =
      stop_lem env token_limit n st provider_error (env.error_text interrupted) w g
  after_call_lem n st (gave_up k e, w) good g =
      stop_lem env token_limit n st provider_error (env.error_text (gave_up k e)) w g

  turn_lem :
      (n : ℕ) (st : State W)
      → WellBehaved env.provider
      → Ready n st
      → Holds n (turn env token_limit n st)
  unfolding turn complete
  turn_lem n st good g =
      elim (ltb_ℤ (pos 0) token_limit && not (ltb_ℤ (total st.usage) token_limit))
        as (λ b. Holds n (
          if b
          then done (ends token_budget [] st)
          else after_call env token_limit n st (complete env.provider st.messages st.world))) [
            | true ↦ stop_lem env token_limit n st token_budget [] st.world g
            | false ↦
                after_call_lem n st (complete env.provider st.messages st.world)
                  (λ res. complete_from-Replies env.provider good st.messages 2 1 st.world res) g
          ]

  weaken : (n most : ℕ) (o : Outcome W) → n ≤ most → Sound n o → Sound most o
  weaken n most o h s = record {
    dialogue = s.dialogue;
    audited = s.audited;
    in_budget = omega (arith, h, s.in_budget);
  }

  -- A run that ends before a step.
  halt_lem :
      (n most : ℕ) (st : State W) (stopped : Stopped)
      → Ready n st
      → n ≤ suc most
      → Sound most (ends stopped [] st)
  unfolding ends
  halt_lem n most st stopped g h = record {
    dialogue = g.dialogue;
    audited = g.audited;
    in_budget = omega (arith, h, g.counted);
  }

  loop_lem :
      (left n most : ℕ) (st : State W)
      → WellBehaved env.provider
      → Ready n st
      → n + left ≡ suc most
      → Sound most (loop env token_limit left n st)
  unfolding loop
  loop_lem zero n most st good g h =
      elim (env.provider.ctx_err st.world)
        as (λ b. Sound most (if b then ends canceled [] st else ends step_budget [] st)) [
          | true ↦ halt_lem n most st canceled g (omega (arith, h))
          | false ↦ halt_lem n most st step_budget g (omega (arith, h))
        ]
  loop_lem (suc left) n most st good g h =
      elim (env.provider.ctx_err st.world)
        as (λ b. Sound most (
          if b then ends canceled [] st else elim (turn env token_limit n st) [
            | done o ↦ o
            | go_on st' ↦ loop env token_limit left (suc n) st'
          ])) [
            | true ↦ halt_lem n most st canceled g (omega (arith, h))
            | false ↦
                elim (turn env token_limit n st)
                    as (λ t.
                      Holds n t
                      → Sound most (elim t [
                        | done o ↦ o
                        | go_on st' ↦ loop env token_limit left (suc n) st'
                      ])) [
                        | done o ↦ λ s. weaken n most o (omega (arith, h)) s
                        | go_on st' ↦ λ r. loop_lem left (suc n) most st' good r (omega (arith, h))
                      ]
                  (turn_lem n st good g)
          ]

  -- With a provider whose replies are the assistant's and hold no tool results, a run ends within
  -- its steps, and leaves a conversation in which the roles alternate and each message answers
  -- every call of the one before, in order, under its id, while the trace records exactly the
  -- results that were sent.
  pub run_agent-Sound :
      (max_steps : ℤ) (brief : Str) (w : W)
      → WellBehaved env.provider
      → Sound
          (default_steps env token_limit max_steps)
          (run_agent env token_limit max_steps brief w)
  unfolding run_agent plain_text told traced tool_calls
  run_agent-Sound max_steps brief w good =
      let most = default_steps env token_limit max_steps in
      let first : Message = record { role = user; parts = plain_text brief ∷ [] } in
      loop_lem most 1 most _ good
        (record {
          before = [];
          last = first;
          ends_with = refl;
          users_turn = refl;
          no_calls_left = refl;
          dialogue = tt;
          audited = refl;
          counted = refl;
        })
        (omega arith)
