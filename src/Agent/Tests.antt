-- ===== src/Agent/Tests.antt =====
-- internal/agent/agent.go: a scripted model, and the theorems at its run.
use veritix.Base.{
  ℕ, zero, suc, ap, subst, refl, arith, true, false, none, List, [], ◌∷◌, Str, codes,
}
use veritix.Base.Int.{pos}
use veritix.Agent.Message.{assistant, text, tool_use, Part, Usage, Response}
use veritix.Agent.Retry.{Attempt, reply, call_error, Provider}
use veritix.Agent.Loop.{Env, run_agent, default_steps}
use veritix.Agent.Dialogue.{Sound, WellBehaved, Replies}
use veritix.Agent.Running.{run_agent-Sound}

abbrev no_usage : Usage
no_usage = record {
  input = pos 10;
  output = pos 2;
  cache_read = pos 0;
  cache_write = pos 0;
  reasoning = pos 0;
}

abbrev call_part : Str → Part
call_part id = record {
  kind = tool_use;
  text = [];
  signature = [];
  opaque_data = [];
  id = id;
  name = codes "query";
  input = [];
  result = [];
  is_error = false;
}

abbrev text_part : Str → Part
text_part s = record {
  kind = text;
  text = s;
  signature = [];
  opaque_data = [];
  id = [];
  name = [];
  input = [];
  result = [];
  is_error = false;
}

abbrev says : List Part → Response
says parts = record {
  message = record { role = assistant; parts = parts };
  stop_reason = codes "end_turn";
  usage = no_usage;
}

-- The number of calls so far: the first fails once, then two tool calls, then the last word.
abbrev script : ℕ → Attempt
script zero = call_error (codes "overloaded") true
script (suc zero) = reply (says (call_part (codes "1") ∷ call_part (codes "2") ∷ []))
script (suc (suc n)) = reply (says (text_part (codes "done") ∷ []))

abbrev scripted : Provider ℕ
scripted = record {
  ctx_err = λ w. false;
  call = λ w messages. (script w, false, suc w);
  wait = λ w seconds. (false, w);
}

abbrev env : Env ℕ
env = record {
  provider = scripted;
  invoke = λ w name input. (codes "3 rows", false, w);
  tools = [];
  correction = λ tool. codes "call it";
  decode = λ s. none;
  error_text = λ r. codes "failed";
}

-- The response of a reply.
abbrev replied : Attempt → Response
replied (reply r) = r
replied (call_error e retryable) = says []

scripted-WellBehaved : WellBehaved scripted
scripted-WellBehaved zero ms res e = absurd (ground arith)
scripted-WellBehaved (suc zero) ms res e =
    subst Replies (ap replied e) (record { by_assistant = refl; no_results = refl })
scripted-WellBehaved (suc (suc w)) ms res e =
    subst Replies (ap replied e) (record { by_assistant = refl; no_results = refl })

run_agent-Sound_example :
    Sound (default_steps env (pos 0) (pos 5)) (run_agent env (pos 0) (pos 5) (codes "audit") 0)
run_agent-Sound_example = run_agent-Sound env (pos 0) (pos 5) (codes "audit") 0 scripted-WellBehaved
