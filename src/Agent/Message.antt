-- ===== src/Agent/Message.antt =====
-- internal/agent/llm/llm.go: messages and usage; internal/agent/trace.go: what a run records.
use veritix.Base.{
  ℕ, Bool, true, false, List, [], ◌∷◌, ◌++◌, Str, if◌then◌else◌, str_eq, keep, Option,
}
use veritix.Base.Int.{ℤ, ◌+ℤ◌}

pub data Role : Type 0 where
  user assistant : Role

pub data PartKind : Type 0 where
  text thinking redacted_thinking tool_use tool_result : PartKind

pub record Part : Type 0 where
  pub kind : PartKind
  pub text : Str
  pub signature : Str
  pub opaque_data : Str
  pub id : Str
  pub name : Str
  pub input : Str
  pub result : Str
  pub is_error : Bool

pub record Message : Type 0 where
  pub role : Role
  pub parts : List Part

abbrev pub is_text : PartKind → Bool
is_text text = true
is_text _ = false

abbrev pub is_tool_use : PartKind → Bool
is_tool_use tool_use = true
is_tool_use _ = false

abbrev pub is_tool_result : PartKind → Bool
is_tool_result tool_result = true
is_tool_result _ = false

abbrev is_thinking : PartKind → Bool
is_thinking thinking = true
is_thinking _ = false

-- The loop of `Message.Text`.
join_texts : Str → List Part → Str
join_texts out [] = out
join_texts out (p ∷ ps) =
    if is_text p.kind
    then join_texts ((if str_eq out [] then out else out ++ 10 ∷ []) ++ p.text) ps
    else join_texts out ps

unfoldable pub message_text : Message → Str
unfolding join_texts
message_text m = join_texts [] m.parts

unfoldable pub tool_calls : Message → List Part
tool_calls m = keep (λ p. is_tool_use p.kind) m.parts

-- The last thinking part with a text.
last_thinking : Str → List Part → Str
last_thinking found [] = found
last_thinking found (p ∷ ps) =
    last_thinking
      (if is_thinking p.kind then (if str_eq p.text [] then found else p.text) else found) ps

unfoldable pub message_thinking : Message → Str
unfolding last_thinking
message_thinking m = last_thinking [] m.parts

pub record Usage : Type 0 where
  pub input : ℤ
  pub output : ℤ
  pub cache_read : ℤ
  pub cache_write : ℤ
  pub reasoning : ℤ

unfoldable pub total : Usage → ℤ
total u = u.input +ℤ u.output +ℤ u.cache_read +ℤ u.cache_write

unfoldable pub add_usage : Usage → Usage → Usage
add_usage u o = record {
  input = u.input +ℤ o.input;
  output = u.output +ℤ o.output;
  cache_read = u.cache_read +ℤ o.cache_read;
  cache_write = u.cache_write +ℤ o.cache_write;
  reasoning = u.reasoning +ℤ o.reasoning;
}

pub record Response : Type 0 where
  pub message : Message
  pub stop_reason : Str
  pub usage : Usage

-- `TraceCall`, without its duration.
pub record TraceCall : Type 0 where
  pub tool : Str
  pub arguments : Str
  pub result : Str
  pub is_error : Bool

-- `Step`, without its duration.
pub record Step : Type 0 where
  pub n : ℕ
  pub text : Str
  pub thinking : Str
  pub calls : List TraceCall
  pub correction : Option Str
  pub stop_reason : Str
  pub usage : Usage

pub data Stopped : Type 0 where
  finished step_budget token_budget provider_error refused canceled : Stopped

-- `Complete`
unfoldable pub is_complete : Stopped → Bool
is_complete finished = true
is_complete _ = false
