-- ===== src/Agent/Loop.antt =====
-- internal/agent/agent.go: the loop of `Run`. A world holds the provider, the context and the
-- tools; time, spans and log lines are left out.
use veritix.Base.{
  ℕ, zero, suc, Bool, true, false, not, ◌&&◌, Option, none, some, List, [], ◌∷◌, ◌++◌, Str, codes,
  if◌then◌else◌, str_eq,
}
use veritix.Base.Int.{ℤ, pos, ltb_ℤ}
use veritix.Agent.Message.{
  user, text, tool_result, Part, Message, message_text, tool_calls, message_thinking, Usage, total,
  add_usage, Response, TraceCall, Step, Stopped, finished, step_budget, token_budget,
  provider_error, refused, canceled,
}
use veritix.Agent.Written.{Tool, written_call}
use veritix.Agent.Retry.{Provider, CallResult, answered, complete}

-- What the loop uses: the provider, `registry.Invoke` with its text and whether it is an error,
-- the text of a correction, the decoder of `writtenCall` and the texts of the errors.
pub record Env (W : Type 0) : Type 0 where
  pub provider : Provider W
  pub invoke : W → Str → Str → Str × Bool × W
  pub tools : List Tool
  pub correction : Str → Str
  pub decode : Str → Option (List Str × ℕ)
  pub error_text : CallResult → Str

pub record State (W : Type 0) : Type 0 where
  pub world : W
  pub messages : List Message
  pub steps : List Step
  pub usage : Usage
  pub corrected : Bool

pub record Outcome (W : Type 0) : Type 0 where
  pub stopped : Stopped
  pub error : Str
  pub state : State W

-- What a turn leads to: the end, or another turn.
pub data Turn (W : Type 0) : Type 0 where
  done : Outcome W → Turn W
  go_on : State W → Turn W

unfoldable pub ends : {W : Type 0} → Stopped → Str → State W → Outcome W
ends stopped error st = record { stopped = stopped; error = error; state = st }

unfoldable pub plain_text : Str → Part
plain_text s = record {
  kind = text;
  text = s;
  signature = [];
  opaque_data = [];
  id = [];
  name = [];
  input = [];
  result = [];
  is_error = false;
}

unfoldable pub result_part : Str → Str → Bool → Part
result_part id result is_error = record {
  kind = tool_result;
  text = [];
  signature = [];
  opaque_data = [];
  id = id;
  name = [];
  input = [];
  result = result;
  is_error = is_error;
}

module _ {W : Type 0} (env : Env W) (token_limit : ℤ) where
  -- The calls of a message in order: what the trace records, what goes back, and the world.
  unfoldable pub invoke_all : W → List Part → List TraceCall × List Part × W
  unfolding result_part
  invoke_all w [] = ([], [], w)
  invoke_all w (c ∷ cs) =
      let (out, is_error, w') = env.invoke w c.name c.input in
      let (calls, results, end) = invoke_all w' cs in
      (
        record { tool = c.name; arguments = c.input; result = out; is_error = is_error } ∷ calls,
        result_part c.id out is_error ∷ results,
        end,
      )

  unfoldable pub entry_of : ℕ → Response → List TraceCall → Option Str → Step
  entry_of n res calls correction = record {
    n = n;
    text = message_text res.message;
    thinking = message_thinking res.message;
    calls = calls;
    correction = correction;
    stop_reason = res.stop_reason;
    usage = res.usage;
  }

  -- The reply added to the conversation and its tokens to the usage.
  unfoldable pub heard : W → Response → State W → State W
  heard w res st = record st {
    world = w;
    messages = st.messages ++ res.message ∷ [];
    usage = add_usage st.usage res.usage;
  }

  -- A step recorded, and a user message sent back.
  unfoldable pub send_back : Step → List Part → State W → State W
  send_back entry parts st = record st {
    messages = st.messages ++ record { role = user; parts = parts } ∷ [];
    steps = st.steps ++ entry ∷ [];
  }

  unfoldable pub finish : ℕ → Response → State W → Turn W
  unfolding ends entry_of
  finish n res st = done (
      ends (if str_eq res.stop_reason (codes "refusal") then refused else finished) []
        (record st { steps = st.steps ++ entry_of n res [] none ∷ [] }))

  -- A message without calls: corrected once if a call stands in its text, else the end.
  unfoldable pub no_calls : ℕ → Response → State W → Option Str → Turn W
  unfolding send_back plain_text finish entry_of
  no_calls n res st none = finish n res st
  no_calls n res st (some tool) =
      if not st.corrected
      then go_on (
          send_back (entry_of n res [] (some (env.correction tool)))
            (plain_text (env.correction tool) ∷ []) (record st { corrected = true }))
      else finish n res st

  unfoldable pub with_calls : ℕ → Response → State W → List Part → Turn W
  unfolding send_back entry_of
  with_calls n res st calls =
      let (traced, results, w) = invoke_all st.world calls in
      go_on (send_back (entry_of n res traced none) results (record st { world = w }))

  unfoldable pub after_reply : ℕ → Response → State W → List Part → Turn W
  after_reply n res st [] =
      no_calls n res st (written_call env.decode (message_text res.message) env.tools)
  after_reply n res st (c ∷ cs) = with_calls n res st (c ∷ cs)

  unfoldable pub after_call : ℕ → State W → CallResult × W → Turn W
  unfolding ends heard
  after_call n st (answered res, w) = after_reply n res (heard w res st) (tool_calls res.message)
  after_call n st (failure, w) =
      done (ends provider_error (env.error_text failure) (record st { world = w }))

  unfoldable pub turn : ℕ → State W → Turn W
  unfolding ends
  turn n st =
      if ltb_ℤ (pos 0) token_limit && not (ltb_ℤ (total st.usage) token_limit)
      then done (ends token_budget [] st)
      else after_call n st (complete env.provider st.messages st.world)

  -- With how many steps are left, from `MaxSteps` on.
  unfoldable pub loop : ℕ → ℕ → State W → Outcome W
  unfolding ends
  loop zero n st =
      if env.provider.ctx_err st.world then ends canceled [] st else ends step_budget [] st
  loop (suc left) n st =
      if env.provider.ctx_err st.world
      then ends canceled [] st
      else elim (turn n st) [ done o ↦ o | go_on st' ↦ loop left (suc n) st' ]

  unfoldable pub default_steps : ℤ → ℕ
  default_steps (pos zero) = 40
  default_steps (pos n) = n
  default_steps _ = 40

  -- `Run` from the brief on, with the limit of its options or the default.
  unfoldable pub run_agent : ℤ → Str → W → Outcome W
  unfolding loop default_steps plain_text
  run_agent max_steps brief w = loop (default_steps max_steps) 1 (record {
    world = w;
    messages = record { role = user; parts = plain_text brief ∷ [] } ∷ [];
    steps = [];
    usage = record {
      input = pos 0;
      output = pos 0;
      cache_read = pos 0;
      cache_write = pos 0;
      reasoning = pos 0;
    };
    corrected = false;
  })
