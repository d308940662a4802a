-- ===== src/Redact/Scrub.antt =====
-- internal/agent/redact/redact.go: what `EngineError` shows of a message, piece by piece.
use veritix.Base.{
  ℕ, zero, suc, ◌<◌, ◌≡◌, ◌≢◌, ◌⊎◌, inl, inr, refl, ap, ◌∙◌, arith, not, ◌&&◌, none, some, List, [],
  ◌∷◌, ◌++◌, Str, str_eq, if◌then◌else◌, length, length-append, All, Bool-cases, map,
}
use veritix.Base.Unicode.{Unicode}
use veritix.Redact.Shape.{shape, mark}
use veritix.Redact.Guard.{Policy, Guard, cut, shape_text}
use veritix.Redact.Quoted.{
  quote, cut_at_quote, quoted_piece, contains, clear_quoted, scrub_loop, scrub_quoted, engine_error,
}

abbrev pub NoQuote : Str → Type 0
NoQuote = All (λ c. c ≢ quote)

-- A message: pieces of text, each followed by a quoted literal, and what stands after the last.
abbrev pub assemble : List (Str × Str) → Str → Str
assemble [] tail = tail
assemble ((before, quoted) ∷ pieces) tail =
    before ++ quote ∷ (quoted ++ quote ∷ assemble pieces tail)

-- What is shown in the place of a literal.
abbrev pub shown : Unicode → Policy → Str → Str → Str
shown u p sql quoted =
    if not (str_eq sql []) && contains sql (quote ∷ quoted ++ quote ∷ [])
    then quoted
    else mark (cut p.max_shape_len (shape u quoted)).0

-- At most one quote, so that nothing is quoted.
abbrev pub NothingQuoted : Str → Type 0
NothingQuoted tail =
    NoQuote tail ⊎ ((a : Str) × (b : Str) × (tail ≡ a ++ quote ∷ b) × NoQuote a × NoQuote b)

cut_at_quote-append : (a b : Str) → NoQuote a → cut_at_quote (a ++ quote ∷ b) ≡ some (a, b)
unfolding cut_at_quote
cut_at_quote-append [] b h = refl
cut_at_quote-append (c ∷ a) b h = ground (arith, cut_at_quote-append a b h.1, h.0)

cut_at_quote-none : (a : Str) → NoQuote a → cut_at_quote a ≡ none
unfolding cut_at_quote
cut_at_quote-none [] h = refl
cut_at_quote-none (c ∷ a) h = ground (arith, cut_at_quote-none a h.1, h.0)

quoted_piece-append :
    (a q rest : Str)
    → NoQuote a
    → NoQuote q
    → quoted_piece (a ++ quote ∷ (q ++ quote ∷ rest)) ≡ some (a, q, rest)
unfolding quoted_piece
quoted_piece-append a q rest ha hq =
    rw (cut_at_quote-append a (q ++ quote ∷ rest) ha) (rw (cut_at_quote-append q rest hq))

quoted_piece-none : (tail : Str) → NothingQuoted tail → quoted_piece tail ≡ none
unfolding quoted_piece
quoted_piece-none tail (inl h) = rw (cut_at_quote-none tail h)
quoted_piece-none tail (inr (a, b, e, ha, hb)) =
    rw e (rw (cut_at_quote-append a b ha) (rw (cut_at_quote-none b hb)))

module _ (u : Unicode) (sql : Str) where
  clear_quoted_lem :
      (g : Guard) (q : Str)
      → ((clear_quoted u sql g q).0 ≡ shown u g.policy sql q)
        × ((clear_quoted u sql g q).1.policy ≡ g.policy)
  unfolding clear_quoted shape_text
  clear_quoted_lem g q =
      elim (Bool-cases (not (str_eq sql []) && contains sql (quote ∷ q ++ quote ∷ []))) [
        | inl e ↦ rw e (refl, refl)
        | inr e ↦ rw e (refl, refl)
      ]

  scrub_tail :
      (fuel : ℕ) (g : Guard) (tail : Str)
      → NothingQuoted tail
      → (scrub_loop u sql fuel g tail).0 ≡ tail
  unfolding scrub_loop
  scrub_tail zero g tail h = refl
  scrub_tail (suc fuel) g tail h = rw (quoted_piece-none tail h, scrub_loop) refl

  abbrev pub Plain : List (Str × Str) → Type 0
  Plain = All (λ piece. NoQuote piece.0 × NoQuote piece.1)

  abbrev shown_pieces : Policy → List (Str × Str) → List (Str × Str)
  shown_pieces p = map (λ piece. (piece.0, shown u p sql piece.1))

  scrub_pieces :
      (pieces : List (Str × Str)) (tail : Str) (fuel : ℕ) (g : Guard)
      → Plain pieces
      → NothingQuoted tail
      → length (assemble pieces tail) < fuel
      → (scrub_loop u sql fuel g (assemble pieces tail)).0
        ≡ assemble (shown_pieces g.policy pieces) tail
  unfolding scrub_loop
  scrub_pieces [] tail fuel g h t lt = scrub_tail fuel g tail t
  scrub_pieces ((a, q) ∷ pieces) tail zero g h t lt = absurd (omega arith)
  scrub_pieces ((a, q) ∷ pieces) tail (suc fuel) g h t lt =
      let rest = assemble pieces tail in
      let (same, kept) = clear_quoted_lem g q in
      let ih = scrub_pieces pieces tail fuel (clear_quoted u sql g q).1 h.1 t (
        omega (
          arith,
          length-append {0} a (quote ∷ (q ++ quote ∷ rest)),
          length-append {0} q (quote ∷ rest),
        )) in
      rw (quoted_piece-append a q rest h.0.0 h.0.1, scrub_loop)
        (ap
            (λ shows.
              a
              ++ quote
                ∷ (shows ++ quote ∷ (scrub_loop u sql fuel (clear_quoted u sql g q).1 rest).0))
            same
          ∙ ap (λ ends. a ++ quote ∷ (shown u g.policy sql q ++ quote ∷ ends))
              (ih ∙ ap (λ p. assemble (shown_pieces p pieces) tail) kept))

  -- A message made of plain text, quoted literals and an end in which nothing is quoted is shown
  -- with all of its text, each literal of the statement as it is, and every other one as its
  -- delimited shape; the fuel is enough for every message.
  pub engine_error_lem :
      (g : Guard) (pieces : List (Str × Str)) (tail : Str)
      → Plain pieces
      → NothingQuoted tail
      → (engine_error u g (some (assemble pieces tail)) sql).0.s
        ≡ assemble (map (λ piece. (piece.0, shown u g.policy sql piece.1)) pieces) tail
  unfolding engine_error scrub_quoted
  engine_error_lem g pieces tail h t =
      scrub_pieces pieces tail (suc (length (assemble pieces tail))) g h t (omega arith)
