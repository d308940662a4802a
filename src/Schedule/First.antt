-- ===== src/Schedule/First.antt =====
-- internal/schedule/schedule.go: the first of a row of increasing windows that is after an
-- instant, out of the two that `nextWallClock` tries.
use veritix.Base.{
  ℕ, zero, suc, ◌*◌, ◌⊎◌, ap, ◌+◌, ◌<◌, ◌≡◌, refl, arith, false, inl, inr, Bool-cases,
}
use veritix.Base.Int.{
  ℤ, pos, negsuc, ◌+ℤ◌, ◌≤ℤ◌, ◌<ℤ◌, ltb_ℤ, pos_part, neg_part, eq_of_parts, +ℤ_parts,
}

pub not_before : (a b : ℤ) → ltb_ℤ a b ≡ false → b ≤ℤ a
not_before a b h = ground arith

pub assoc : (a b c : ℤ) → (a +ℤ b) +ℤ c ≡ a +ℤ (b +ℤ c)
assoc a b c =
    eq_of_parts ((a +ℤ b) +ℤ c) (a +ℤ (b +ℤ c))
      (omega (arith, +ℤ_parts a b, +ℤ_parts (a +ℤ b) c, +ℤ_parts b c, +ℤ_parts a (b +ℤ c)))

-- The days of a schedule's windows: a whole number of steps from the first one looked at.
abbrev pub InStep : ℕ → ℤ → ℤ → Type 0
InStep step first n = (q : ℕ) × ((n ≡ first +ℤ pos (step * q)) ⊎ (n +ℤ pos (step * q) ≡ first))

-- An instant is the first window after another.
pub record IsFirstAfter (f : ℤ → ℤ) (step : ℕ) (first t next : ℤ) : Type 0 where
  pub after : t <ℤ next
  pub is_window : (n : ℤ) × InStep step first n × (next ≡ f n)
  pub least : (n : ℤ) → InStep step first n → t <ℤ f n → next ≤ℤ f n

times_suc : (a b : ℕ) → a * suc b ≡ a * b + a
times_suc a b = ground arith

module _ (f : ℤ → ℤ) (t : ℤ) (increasing : (m n : ℤ) → m <ℤ n → f m <ℤ f n)
    (yesterday : f (negsuc 0) ≤ℤ t) (tomorrow : t <ℤ f (pos 1)) where
  rising : (m n : ℤ) → m ≤ℤ n → f m ≤ℤ f n
  rising m n h = elim (Bool-cases (ltb_ℤ m n)) [
    | inl e ↦ omega (arith, increasing m n (ground arith))
    | inr e ↦ rw (eq_of_parts m n (ground arith)) (omega arith)
  ]

  gap_below :
      (step r q : ℕ) (n : ℤ)
      → r < step
      → n +ℤ pos (step * q) ≡ pos r
      → (n ≡ pos r) ⊎ (n ≤ℤ negsuc 0)
  gap_below step r zero n h e = inl (
      eq_of_parts n (pos r)
        (omega (arith, +ℤ_parts n (pos (step * 0)), ap pos_part e, ap neg_part e)))
  gap_below step r (suc q) n h e = inr (
      omega
        (arith, +ℤ_parts n (pos (step * suc q)), ap pos_part e, ap neg_part e, times_suc step q))

  gap_above :
      (step r q : ℕ) (n : ℤ) → n ≡ pos r +ℤ pos (step * q) → (n ≡ pos r) ⊎ (pos (r + step) ≤ℤ n)
  gap_above step r zero n e = inl (
      eq_of_parts n (pos r)
        (omega (arith, +ℤ_parts (pos r) (pos (step * 0)), ap pos_part e, ap neg_part e)))
  gap_above step r (suc q) n e = inr (
      omega (
        arith,
        +ℤ_parts (pos r) (pos (step * suc q)),
        ap pos_part e,
        ap neg_part e,
        times_suc step q,
      ))

  pub first_window :
      (step r : ℕ) → r < step → t <ℤ f (pos r) → IsFirstAfter f step (pos r) t (f (pos r))
  first_window step r h later = record {
    after = later;
    is_window = (
      pos r,
      (
        0,
        inl (
            eq_of_parts (pos r) (pos r +ℤ pos (step * 0))
              (omega (arith, +ℤ_parts (pos r) (pos (step * 0))))),
      ),
      refl,
    );
    least = λ n w b. elim w.1 [
      | inl e ↦ elim (gap_above step r w.0 n e) [
        | inl k ↦ rw k (omega arith)
        | inr k ↦ rising (pos r) n (omega arith)
      ]
      | inr e ↦ elim (gap_below step r w.0 n h e) [
        | inl k ↦ rw k (omega arith)
        | inr k ↦ absurd (omega (arith, rising n (negsuc 0) k, b, yesterday))
      ]
    ];
  }

  pub second_window :
      (step r : ℕ) → r < step → f (pos r) ≤ℤ t → IsFirstAfter f step (pos r) t (f (pos (r + step)))
  second_window step r h early = record {
    after = omega (arith, tomorrow, rising (pos 1) (pos (r + step)) (omega arith));
    is_window = (
      pos (r + step),
      (
        1,
        inl (
            eq_of_parts (pos (r + step)) (pos r +ℤ pos (step * 1))
              (omega (arith, +ℤ_parts (pos r) (pos (step * 1))))),
      ),
      refl,
    );
    least = λ n w b. elim w.1 [
      | inl e ↦ elim (gap_above step r w.0 n e) [
        | inl k ↦
            absurd (omega (arith, b, early, ap (λ m. pos_part (f m)) k, ap (λ m. neg_part (f m)) k))
        | inr k ↦ rising (pos (r + step)) n k
      ]
      | inr e ↦ elim (gap_below step r w.0 n h e) [
        | inl k ↦
            absurd (omega (arith, b, early, ap (λ m. pos_part (f m)) k, ap (λ m. neg_part (f m)) k))
        | inr k ↦ absurd (omega (arith, rising n (negsuc 0) k, b, yesterday))
      ]
    ];
  }
