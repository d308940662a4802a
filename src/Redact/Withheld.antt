-- ===== src/Redact/Withheld.antt =====
-- internal/agent/redact/redact.go: under the default policy the output is a function of the
-- character classes of a value, so two values of one shape cannot be told apart.
use veritix.Base.{
  ℕ, ◌≡◌, ◌⊎◌, refl, sym, ap, ap₂, ◌∙◌, arith, Bool, true, false, List, [], ◌∷◌, map, Str,
}
use veritix.Base.Utf8.{runes, encode}
use veritix.Base.Unicode.{Unicode}
use veritix.Redact.Shape.{Patterns, shape_rune, shape}
use veritix.Redact.Guard.{Guard, AnyValue, shape_text, value, cell, as_text}

module _ (u : Unicode) where
  -- Both are digits, both are letters, both are spaces, or they are one rune.
  abbrev pub Alike : ℕ → ℕ → Type 0
  Alike r q =
      ((u.is_digit r ≡ true) × (u.is_digit q ≡ true))
      ⊎ ((u.is_digit r ≡ false)
          × (u.is_digit q ≡ false)
          × (u.is_letter r ≡ true)
          × (u.is_letter q ≡ true))
      ⊎ ((u.is_digit r ≡ false)
          × (u.is_digit q ≡ false)
          × (u.is_letter r ≡ false)
          × (u.is_letter q ≡ false)
          × (u.is_space r ≡ true)
          × (u.is_space q ≡ true))
      ⊎ (r ≡ q)

  -- Rune by rune.
  abbrev pub AlikeAll : List ℕ → List ℕ → Type 0
  AlikeAll [] [] = Unit
  AlikeAll [] (q ∷ qs) = ⊥
  AlikeAll (r ∷ rs) [] = ⊥
  AlikeAll (r ∷ rs) (q ∷ qs) = Alike r q × AlikeAll rs qs

  -- Two texts of which each rune is of one class with the other's.
  abbrev pub SameClasses : Str → Str → Type 0
  SameClasses s t = AlikeAll (runes s) (runes t)

  shape_rune-Alike : (r q : ℕ) → Alike r q → shape_rune u r ≡ shape_rune u q
  unfolding shape_rune
  shape_rune-Alike r q h = ground arith

  shape_runes-Alike :
      (rs qs : List ℕ) → AlikeAll rs qs → map (shape_rune u) rs ≡ map (shape_rune u) qs
  shape_runes-Alike [] [] h = refl
  shape_runes-Alike [] (q ∷ qs) h = absurd h
  shape_runes-Alike (r ∷ rs) [] h = absurd h
  shape_runes-Alike (r ∷ rs) (q ∷ qs) h =
      ap₂ ◌∷◌ (shape_rune-Alike r q h.0) (shape_runes-Alike rs qs h.1)

  pub shape-SameClasses : (s t : Str) → SameClasses s t → shape u s ≡ shape u t
  unfolding shape
  shape-SameClasses s t h = ap encode (shape_runes-Alike (runes s) (runes t) h)

  pub shape_text-SameClasses :
      (g : Guard) (s t : Str) → SameClasses s t → shape_text u g s ≡ shape_text u g t
  unfolding shape_text
  shape_text-SameClasses g s t h = rw (shape-SameClasses s t h) refl

  -- Two cells that the default policy must not tell apart: what is absent and Booleans are equal,
  -- numbers and times are equal if they are aggregates, and the texts of all else are of the same
  -- kind and the same classes.
  abbrev pub Indistinct : Bool → AnyValue → AnyValue → Type 0
  Indistinct a AnyValue.nil AnyValue.nil = Unit
  Indistinct a (AnyValue.boolean b) (AnyValue.boolean c) = b ≡ c
  Indistinct true (AnyValue.time s) (AnyValue.time t) = s ≡ t
  Indistinct false (AnyValue.time s) (AnyValue.time t) = SameClasses s t
  Indistinct a (AnyValue.text s) (AnyValue.text t) = SameClasses s t
  Indistinct true (AnyValue.number s) (AnyValue.number t) = s ≡ t
  Indistinct false (AnyValue.number s) (AnyValue.number t) = SameClasses s t
  Indistinct a (AnyValue.other s) (AnyValue.other t) = SameClasses s t
  Indistinct a _ _ = ⊥

  module _ (p : Patterns) where
    value_shaped :
        (g : Guard) (v : Str) → g.policy.allow_values ≡ false → value u p g v ≡ shape_text u g v
    unfolding value
    value_shaped g v off = simp off

    -- With values not allowed, two cells of the same kind leave as the same thing, and leave the
    -- same counters, whenever their texts have the same character classes; only an aggregate that
    -- is a number or a time may show more.
    pub cell-Indistinct :
        (g : Guard) (v w : AnyValue) (a : Bool)
        → g.policy.allow_values ≡ false
        → Indistinct a v w
        → cell u p g v a ≡ cell u p g w a
    unfolding cell
    cell-Indistinct g AnyValue.nil AnyValue.nil a off h = refl
    cell-Indistinct g (AnyValue.boolean b) (AnyValue.boolean c) a off h = rw h
    cell-Indistinct g (AnyValue.time s) (AnyValue.time t) true off h = rw h
    cell-Indistinct g (AnyValue.time s) (AnyValue.time t) false off h =
        rw (shape_text-SameClasses g s t h)
    cell-Indistinct g (AnyValue.text s) (AnyValue.text t) a off h =
        ap as_text
          (value_shaped g s off ∙ shape_text-SameClasses g s t h ∙ sym (value_shaped g t off))
    cell-Indistinct g (AnyValue.number s) (AnyValue.number t) true off h = rw h
    cell-Indistinct g (AnyValue.number s) (AnyValue.number t) false off h =
        rw (shape_text-SameClasses g s t h)
    cell-Indistinct g (AnyValue.other s) (AnyValue.other t) a off h =
        rw (shape_text-SameClasses g s t h)
    cell-Indistinct g _ _ true off h = absurd h
    cell-Indistinct g _ _ false off h = absurd h
