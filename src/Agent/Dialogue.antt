-- ===== src/Agent/Dialogue.antt =====
-- internal/agent/agent.go: the conversation that the loop builds, and the trace beside it.
use veritix.Base.{
  ℕ, zero, suc, ◌^◌, ◌≤◌, ◌≡◌, refl, sym, ap, arith, Bool, List, [], ◌∷◌, ◌++◌, map, append_assoc,
  Str, keep, length,
}
use veritix.Base.Int.{ℤ}
use veritix.Agent.Message.{
  Role, user, assistant, Part, Message, is_tool_use, is_tool_result, tool_calls, Response, Step,
}
use veritix.Agent.Retry.{
  Attempt, reply, call_error, Provider, answered, complete_from, attempt_once, judge, over,
}
use veritix.Agent.Loop.{Env, State, Outcome, Turn, done, go_on, invoke_all, result_part}

abbrev pub other : Role → Role
other user = assistant
other assistant = user

abbrev pub tool_results : Message → List Part
tool_results m = keep (λ p. is_tool_result p.kind) m.parts

-- A message that may stand after another: of the other role, with one result for each call of
-- that one, in order, under the ids of the calls.
pub record Follows (m n : Message) : Type 0 where
  pub turns : n.role ≡ other m.role
  pub answers : map (λ p. p.id) (tool_results n) ≡ map (λ p. p.id) (tool_calls m)

abbrev pub IsDialogue : List Message → Type 0
IsDialogue [] = Unit
IsDialogue (m ∷ []) = Unit
IsDialogue (m ∷ n ∷ ms) = Follows m n × IsDialogue (n ∷ ms)

pub snoc-IsDialogue :
    (ms : List Message) (m n : Message)
    → IsDialogue (ms ++ m ∷ [])
    → Follows m n
    → IsDialogue ((ms ++ m ∷ []) ++ n ∷ [])
snoc-IsDialogue [] m n d f = (f, tt)
snoc-IsDialogue (k ∷ []) m n d f = (d.0, (f, tt))
snoc-IsDialogue (k ∷ l ∷ ms) m n d f = (d.0, snoc-IsDialogue (l ∷ ms) m n d.1 f)

-- The results sent to the model, and those that the trace records.
abbrev pub outcome_of : Part → Str × Bool
outcome_of p = (p.result, p.is_error)

unfoldable pub told : List Message → List (Str × Bool)
told [] = []
told (m ∷ ms) = map outcome_of (tool_results m) ++ told ms

unfoldable pub traced : List Step → List (Str × Bool)
traced [] = []
traced (s ∷ ss) = map (λ c. (c.result, c.is_error)) s.calls ++ traced ss

pub told-append : (ms ns : List Message) → told (ms ++ ns) ≡ told ms ++ told ns
unfolding told
told-append [] ns = refl
told-append (m ∷ ms) ns =
    rw (told-append ms ns)
      (sym (append_assoc (map outcome_of (tool_results m)) (told ms) (told ns)))

pub traced-append : (ms ns : List Step) → traced (ms ++ ns) ≡ traced ms ++ traced ns
unfolding traced
traced-append [] ns = refl
traced-append (m ∷ ms) ns =
    rw (traced-append ms ns)
      (sym (append_assoc (map (λ c. (c.result, c.is_error)) m.calls) (traced ms) (traced ns)))

-- A provider's replies are the assistant's and hold no tool results.
pub record Replies (res : Response) : Type 0 where
  pub by_assistant : res.message.role ≡ assistant
  pub no_results : tool_results res.message ≡ []

module _ {W : Type 0} (provider : Provider W) where
  abbrev pub WellBehaved : Type 0
  WellBehaved =
      (w : W) (ms : List Message) (res : Response)
      → (provider.call w ms).0 ≡ reply res
      → Replies res

  judged_reply :
      (ms : List Message) (a : Attempt) (expired : Bool) (w : W) (res : Response)
      → judge provider ms a expired w ≡ over (answered res)
      → a ≡ reply res
  unfolding judge
  judged_reply ms (reply r) expired w res e = ground arith
  judged_reply ms (call_error t retry) expired w res e = absurd (ground arith)

  verdict-Replies :
      WellBehaved
      → (ms : List Message) (w : W) (res : Response)
      → (attempt_once provider ms w).0 ≡ over (answered res)
      → Replies res
  unfolding attempt_once
  verdict-Replies h ms w res e =
      let c = provider.call w ms in h w ms res (judged_reply ms c.0 c.1 c.2 res e)

  pub complete_from-Replies :
      WellBehaved
      → (ms : List Message) (more attempt : ℕ) (w : W) (res : Response)
      → (complete_from provider ms more attempt w).0 ≡ answered res
      → Replies res
  unfolding complete_from
  complete_from-Replies h ms zero attempt w res e = ground (arith, verdict-Replies h ms w res)
  complete_from-Replies h ms (suc more) attempt w res e =
      let later = (provider.wait (attempt_once provider ms w).1 (2 ^ attempt)).1 in
      ground
        (arith, verdict-Replies h ms w res, complete_from-Replies h ms more (suc attempt) later res)

module _ {W : Type 0} (env : Env W) (token_limit : ℤ) where
  pub invoke_all_lem :
      (w : W) (cs : List Part)
      → let r = invoke_all env token_limit w cs in
        (map (λ p. p.id) (keep (λ p. is_tool_result p.kind) r.1) ≡ map (λ p. p.id) cs)
        × (keep (λ p. is_tool_use p.kind) r.1 ≡ [])
        × (map outcome_of (keep (λ p. is_tool_result p.kind) r.1)
            ≡ map (λ c. (c.result, c.is_error)) r.0)
  unfolding invoke_all result_part
  invoke_all_lem w [] = (refl, refl, refl)
  invoke_all_lem w (c ∷ cs) =
      let rest = invoke_all_lem (env.invoke w c.name c.input).2 cs in
      (
        ap (λ x. c.id ∷ x) rest.0,
        rest.1,
        ap (λ x. ((env.invoke w c.name c.input).0, (env.invoke w c.name c.input).1) ∷ x) rest.2,
      )

-- What holds before each turn: the conversation is a dialogue that ends with a message of the user
-- that has no calls, the trace holds the results that were sent, and its steps are counted.
pub record Ready {W : Type 0} (n : ℕ) (st : State W) : Type 0 where
  pub before : List Message
  pub last : Message
  pub ends_with : st.messages ≡ before ++ last ∷ []
  pub users_turn : last.role ≡ user
  pub no_calls_left : tool_calls last ≡ []
  pub dialogue : IsDialogue st.messages
  pub audited : told st.messages ≡ traced st.steps
  pub counted : suc (length st.steps) ≡ n

-- What holds at the end.
pub record Sound {W : Type 0} (most : ℕ) (o : Outcome W) : Type 0 where
  pub dialogue : IsDialogue o.state.messages
  pub audited : told o.state.messages ≡ traced o.state.steps
  pub in_budget : length o.state.steps ≤ most

abbrev pub Holds : {W : Type 0} → ℕ → Turn W → Type 0
Holds n (done o) = Sound n o
Holds n (go_on st) = Ready (suc n) st

-- A reply heard: the conversation ends with it, and no result is new.
pub record Heard {W : Type 0} (n : ℕ) (res : Response) (st : State W) : Type 0 where
  pub earlier : List Message
  pub ends_with : st.messages ≡ earlier ++ res.message ∷ []
  pub by_assistant : res.message.role ≡ assistant
  pub dialogue : IsDialogue st.messages
  pub audited : told st.messages ≡ traced st.steps
  pub counted : suc (length st.steps) ≡ n
