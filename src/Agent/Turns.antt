-- ===== src/Agent/Turns.antt =====
-- internal/agent/agent.go: every turn of the loop keeps the conversation and the trace in step.
use veritix.Base.{
  ℕ, suc, ◌≡◌, refl, sym, ap, ◌∙◌, subst, arith, Bool, true, false, not, Option, none, some, List,
  [], ◌∷◌, ◌++◌, map, append-nil, Str, keep, if◌then◌else◌, length-append,
}
use veritix.Base.Int.{ℤ}
use veritix.Agent.Message.{
  user, Part, is_tool_use, is_tool_result, tool_calls, message_text, Response, Step, Stopped,
}
use veritix.Agent.Written.{written_call}
use veritix.Agent.Loop.{
  Env, State, go_on, ends, invoke_all, entry_of, heard, send_back, finish, no_calls, with_calls,
  after_reply, plain_text,
}
use veritix.Agent.Dialogue.{
  other, IsDialogue, snoc-IsDialogue, outcome_of, told, traced, told-append, traced-append, Replies,
  invoke_all_lem, Ready, Sound, Holds, Heard,
}

module _ {W : Type 0} (env : Env W) (token_limit : ℤ) where
  pub heard_lem :
      (n : ℕ) (w : W) (res : Response) (st : State W)
      → Ready n st
      → Replies res
      → Heard n res (heard env token_limit w res st)
  unfolding heard told
  heard_lem n w res st g r = record {
    earlier = st.messages;
    ends_with = refl;
    by_assistant = r.by_assistant;
    dialogue =
        subst (λ ms. IsDialogue (ms ++ res.message ∷ [])) (sym g.ends_with)
          (snoc-IsDialogue g.before g.last res.message (subst IsDialogue g.ends_with g.dialogue)
            (record {
              turns = r.by_assistant ∙ ap other (sym g.users_turn);
              answers =
                  ap (map (λ p. p.id)) r.no_results ∙ ap (map (λ p. p.id)) (sym g.no_calls_left);
            }));
    audited =
        told-append st.messages (res.message ∷ [])
        ∙ ap (λ x. told st.messages ++ (map outcome_of x ++ [])) r.no_results
        ∙ append-nil (told st.messages)
        ∙ g.audited;
    counted = g.counted;
  }

  send_back_lem :
      (n : ℕ) (res : Response) (st : State W) (entry : Step) (parts : List Part)
      → Heard n res st
      → map (λ p. p.id) (keep (λ p. is_tool_result p.kind) parts)
        ≡ map (λ p. p.id) (tool_calls res.message)
      → keep (λ p. is_tool_use p.kind) parts ≡ []
      → map outcome_of (keep (λ p. is_tool_result p.kind) parts)
        ≡ map (λ c. (c.result, c.is_error)) entry.calls
      → Ready (suc n) (send_back env token_limit entry parts st)
  unfolding send_back told traced tool_calls
  send_back_lem n res st entry parts h ids none_left same = record {
    before = st.messages;
    last = record { role = user; parts = parts };
    ends_with = refl;
    users_turn = refl;
    no_calls_left = none_left;
    dialogue =
        subst (λ ms. IsDialogue (ms ++ record { role = user; parts = parts } ∷ []))
          (sym h.ends_with)
          (snoc-IsDialogue h.earlier res.message (record { role = user; parts = parts })
            (subst IsDialogue h.ends_with h.dialogue)
            (record { turns = sym (ap other h.by_assistant); answers = ids }));
    audited =
        told-append st.messages (record { role = user; parts = parts } ∷ [])
        ∙ ap (λ x. x ++ (map outcome_of (keep (λ p. is_tool_result p.kind) parts) ++ [])) h.audited
        ∙ ap (λ x. traced st.steps ++ (x ++ [])) same
        ∙ sym (traced-append st.steps (entry ∷ []));
    counted = omega (arith, h.counted, length-append {0} st.steps (entry ∷ []));
  }

  finish_lem :
      (n : ℕ) (res : Response) (st : State W)
      → Heard n res st
      → Holds n (finish env token_limit n res st)
  unfolding finish entry_of ends traced
  finish_lem n res st h = record {
    dialogue = h.dialogue;
    audited =
        h.audited
        ∙ sym (append-nil (traced st.steps))
        ∙ sym (traced-append st.steps (entry_of env token_limit n res [] none ∷ []));
    in_budget = omega (
      arith,
      h.counted,
      length-append {0} st.steps (entry_of env token_limit n res [] none ∷ []),
    );
  }

  -- The world and the note of a correction are not part of it.
  anew_lem :
      (n : ℕ) (res : Response) (st : State W) (w : W) (c : Bool)
      → Heard n res st
      → Heard n res (record st { world = w; corrected = c })
  anew_lem n res st w c h = record {
    earlier = h.earlier;
    ends_with = h.ends_with;
    by_assistant = h.by_assistant;
    dialogue = h.dialogue;
    audited = h.audited;
    counted = h.counted;
  }

  correct_lem :
      (n : ℕ) (res : Response) (st : State W) (tool : Str)
      → Heard n res st
      → tool_calls res.message ≡ []
      → Ready (suc n) (
          send_back env token_limit
            (entry_of env token_limit n res [] (some (env.correction tool)))
            (plain_text (env.correction tool) ∷ [])
            (record st { corrected = true }))
  unfolding plain_text entry_of
  correct_lem n res st tool h e =
      send_back_lem n res (record st { corrected = true })
        (entry_of env token_limit n res [] (some (env.correction tool)))
        (plain_text (env.correction tool) ∷ []) (anew_lem n res st st.world true h)
        (ap (map (λ p. p.id)) (sym e)) refl refl

  no_calls_lem :
      (n : ℕ) (res : Response) (st : State W) (named : Option Str)
      → Heard n res st
      → tool_calls res.message ≡ []
      → Holds n (no_calls env token_limit n res st named)
  unfolding no_calls
  no_calls_lem n res st none h e = finish_lem n res st h
  no_calls_lem n res st (some tool) h e =
      elim st.corrected
        as (λ b. Holds n (
          if not b
          then go_on (
              send_back env token_limit
                (entry_of env token_limit n res [] (some (env.correction tool)))
                (plain_text (env.correction tool) ∷ []) (record st { corrected = true }))
          else finish env token_limit n res st)) [
            | true ↦ finish_lem n res st h
            | false ↦ correct_lem n res st tool h e
          ]

  with_calls_lem :
      (n : ℕ) (res : Response) (st : State W)
      → Heard n res st
      → Holds n (with_calls env token_limit n res st (tool_calls res.message))
  unfolding with_calls entry_of
  with_calls_lem n res st h =
      let r = invoke_all env token_limit st.world (tool_calls res.message) in
      let facts = invoke_all_lem env token_limit st.world (tool_calls res.message) in
      send_back_lem n res (record st { world = r.2 }) (entry_of env token_limit n res r.0 none) r.1
        (anew_lem n res st r.2 st.corrected h) facts.0 facts.1 facts.2

  pub after_reply_lem :
      (n : ℕ) (res : Response) (st : State W) (calls : List Part)
      → Heard n res st
      → tool_calls res.message ≡ calls
      → Holds n (after_reply env token_limit n res st calls)
  unfolding after_reply
  after_reply_lem n res st [] h e =
      no_calls_lem n res st (written_call env.decode (message_text res.message) env.tools) h e
  after_reply_lem n res st (c ∷ cs) h e =
      subst (λ x. Holds n (with_calls env token_limit n res st x)) e (with_calls_lem n res st h)

  -- A run that ends as it stands.
  pub stop_lem :
      (n : ℕ) (st : State W) (stopped : Stopped) (error : Str) (w : W)
      → Ready n st
      → Sound n (ends stopped error (record st { world = w }))
  unfolding ends
  stop_lem n st stopped error w g = record {
    dialogue = g.dialogue;
    audited = g.audited;
    in_budget = omega (arith, g.counted);
  }
