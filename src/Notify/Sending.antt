-- ===== src/Notify/Sending.antt =====
-- internal/notify/notify.go: what a delivery promises.
use veritix.Base.{
  ℕ, zero, suc, ◌+◌, ◌≤◌, ◌≡◌, refl, ap, sym, ◌∙◌, arith, Bool, true, false, not, Option, none,
  some, Str, if◌then◌else◌,
}
use veritix.Base.Walk.{is_some}
use veritix.Config.Settings.{Notify}
use veritix.Notify.Sink.{Delivery, sent, interrupted, gave_up, Web, attempt, send}

abbrev pub is_sent : Delivery → Bool
is_sent sent = true
is_sent _ = false

-- All of some posts failed, counted from a first one.
abbrev pub FailedFrom : Web → ℕ → ℕ → Type 0
FailedFrom web n zero = Unit
FailedFrom web n (suc k) = (is_some (web.post n) ≡ true) × FailedFrom web (suc n) k

-- A delivery of `posts` posts from the post `n` on.
pub record Delivered (web : Web) (n bound : ℕ) (o : Delivery × ℕ) : Type 0 where
  pub before_last : ℕ
  pub posts : o.1 ≡ suc before_last
  pub bounded : o.1 ≤ bound
  pub failed_before : FailedFrom web n before_last
  pub last_decides : is_sent o.0 ≡ not (is_some (web.post (n + before_last)))

-- One post is the last.
single :
    (web : Web) (n more : ℕ) (d : Delivery)
    → is_sent d ≡ not (is_some (web.post n))
    → Delivered web n (suc more) (d, 1)
single web n more d h =
    let same : n + 0 ≡ n = omega arith in
    record {
      before_last = 0;
      posts = refl;
      bounded = omega arith;
      failed_before = tt;
      last_decides = h ∙ sym (ap (λ k. not (is_some (web.post k))) same);
    }

-- A post that failed, before the others.
one_more :
    (web : Web) (n more : ℕ) (o : Delivery × ℕ)
    → is_some (web.post n) ≡ true
    → Delivered web (suc n) more o
    → Delivered web n (suc more) (o.0, suc o.1)
one_more web n more o h k =
    let same : n + suc k.before_last ≡ suc n + k.before_last = omega arith in
    record {
      before_last = suc k.before_last;
      posts = ap suc k.posts;
      bounded = omega (arith, k.bounded);
      failed_before = (h, k.failed_before);
      last_decides = k.last_decides ∙ sym (ap (λ i. not (is_some (web.post i))) same);
    }

-- An attempt, by how its post ended and whether the context ended after it.
attempted :
    (web : Web) (n more : ℕ) (o : Delivery × ℕ) (p : Option Str) (stop : Bool)
    → web.post n ≡ p
    → Delivered web (suc n) (suc more) o
    → Delivered web n (suc (suc more)) (elim p as (λ x. Delivery × ℕ) [
      | none ↦ (sent, 1)
      | some e ↦ if stop then (interrupted, 1) else (o.0, suc o.1)
    ])
attempted web n more o none stop h k = single web n (suc more) sent (ground (arith, h))
attempted web n more o (some e) true h k = single web n (suc more) interrupted (ground (arith, h))
attempted web n more o (some e) false h k = one_more web n (suc more) o (ground (arith, h)) k

last_attempt :
    (web : Web) (n : ℕ) (p : Option Str)
    → web.post n ≡ p
    → Delivered web n 1
        (elim p as (λ x. Delivery × ℕ) [ none ↦ (sent, 1) | some e ↦ (gave_up e, 1) ])
last_attempt web n none h = single web n 0 sent (ground (arith, h))
last_attempt web n (some e) h = single web n 0 (gave_up e) (ground (arith, h))

attempt-Delivered : (web : Web) (more n : ℕ) → Delivered web n (suc more) (attempt web more n)
unfolding attempt
attempt-Delivered web zero n = last_attempt web n (web.post n) refl
attempt-Delivered web (suc more) n =
    attempted web n more (attempt web more (suc n)) (web.post n) (web.ended (suc n)) refl
      (attempt-Delivered web more (suc n))

-- A delivery, where there is a sink.
abbrev pub DeliveredBy : Web → Option (Delivery × ℕ) → Type 0
DeliveredBy web none = Unit
DeliveredBy web (some o) = Delivered web 0 3 o

-- Sending posts a message at least once and at most three times; every post but the last failed, and
-- the message counts as sent exactly if the last one did not.
pub send-Delivered : (n : Notify) (web : Web) → DeliveredBy web (send (some n) web)
unfolding send
send-Delivered n web = attempt-Delivered web 2 0
