-- ===== src/Agent/Retry.antt =====
-- internal/agent/agent.go: `complete`, one model call with its retries. The provider, the context
-- and the clock are a parameter that takes a state of the world and gives the next one.
use veritix.Base.{
  ℕ, zero, suc, ◌^◌, ◌+◌, ◌≡◌, ◌≤◌, arith, Bool, true, false, not, ◌||◌, List, Str, if◌then◌else◌,
}
use veritix.Agent.Message.{Message, Response}

-- What the provider returns, and whether an error is one it marks as retryable.
pub data Attempt : Type 0 where
  reply : Response → Attempt
  call_error : Str → Bool → Attempt

pub data CallResult : Type 0 where
  answered : Response → CallResult
  timed_out : Str → CallResult
  rejected : Str → CallResult
  interrupted : CallResult
  gave_up : ℕ → Str → CallResult

pub record Provider (W : Type 0) : Type 0 where
  pub ctx_err : W → Bool
  -- A call, and whether the deadline of that call alone has passed.
  pub call : W → List Message → Attempt × Bool × W
  -- Waits a number of seconds; whether the context ended first.
  pub wait : W → ℕ → Bool × W

abbrev pub max_retries : ℕ
max_retries = 3

module _ {W : Type 0} (provider : Provider W) (messages : List Message) where
  -- What an attempt leads to: an end, or another attempt after a wait.
  pub data Verdict : Type 0 where
    over : CallResult → Verdict
    again : Str → Verdict

  unfoldable pub judge : Attempt → Bool → W → Verdict
  judge (reply res) expired w = over (answered res)
  judge (call_error e retryable) expired w =
      if expired
      then over (timed_out e)
      else if not retryable || provider.ctx_err w
      then over (rejected e)
      else again e

  -- One attempt, and the world after it.
  unfoldable pub attempt_once : W → Verdict × W
  unfolding judge
  attempt_once w = let (a, expired, w') = provider.call w messages in (judge a expired w', w')

  -- With how many attempts may follow this one.
  unfoldable pub complete_from : ℕ → ℕ → W → CallResult × W
  unfolding attempt_once
  complete_from zero attempt w =
      let (v, w') = attempt_once w in
      elim v [ over r ↦ (r, w') | again e ↦ (gave_up max_retries e, w') ]
  complete_from (suc more) attempt w =
      let (v, w') = attempt_once w in
      let (ended, later) = provider.wait w' (2 ^ attempt) in
      elim v [
        | over r ↦ (r, w')
        | again e ↦ elim ended [
          | true ↦ (interrupted, later)
          | false ↦ complete_from more (suc attempt) later
        ]
      ]

  unfoldable pub complete : W → CallResult × W
  unfolding complete_from
  complete w = complete_from 2 1 w

module _ {W : Type 0} (provider : Provider W) (messages : List Message) (calls : W → ℕ) where
  -- A count of the calls that a world has seen.
  pub record CountsCalls : Type 0 where
    pub one_more : (w : W) → calls (provider.call w messages).2 ≡ suc (calls w)
    pub same : (w : W) (n : ℕ) → calls (provider.wait w n).1 ≡ calls w

  attempt_counts :
      CountsCalls → (w : W) → calls (attempt_once provider messages w).1 ≡ suc (calls w)
  unfolding attempt_once
  attempt_counts h w = h.one_more w

  complete_from-calls :
      CountsCalls
      → (more attempt : ℕ) (w : W)
      → let after = calls (complete_from provider messages more attempt w).1 in
        (suc (calls w) ≤ after) × (after ≤ suc more + calls w)
  unfolding complete_from
  complete_from-calls h zero attempt w = ground (arith, attempt_counts h w)
  complete_from-calls h (suc more) attempt w =
      let w' = (attempt_once provider messages w).1 in
      let later = (provider.wait w' (2 ^ attempt)).1 in
      ground (
        arith,
        attempt_counts h w,
        h.same w' (2 ^ attempt),
        complete_from-calls h more (suc attempt) later,
      )

  -- By a count of calls that each call raises by one and no wait changes, one model call asks the
  -- provider at least once and at most three times.
  pub complete-calls :
      CountsCalls
      → (w : W)
      → let after = calls (complete provider messages w).1 in
        (suc (calls w) ≤ after) × (after ≤ 3 + calls w)
  unfolding complete
  complete-calls h w = ground (arith, complete_from-calls h 2 1 w)
