-- ===== src/Finding/Key.antt =====
-- internal/finding/finding.go: what a key tells apart.
use veritix.Base.{
  ℕ, zero, suc, length-take, ◌*◌, ◌≤◌, ◌<◌, ◌≡◌, ◌≢◌, ◌↔◌, refl, ap₂, arith, [], ◌∷◌, ◌++◌, Str,
  All, length, take, leb, ◌&&◌, ◌||◌, true, Bool,
}
use veritix.Base.Decimal.{show_int_inj}
use veritix.Finding.Model.{Finding, key, id, hex_encode}

-- A string with no byte 0.
abbrev pub NoNul : Str → Type 0
NoNul = All (λ c. c ≢ 0)

split_at_nul :
    (a b : Str) {s t : Str} → NoNul a → NoNul b → a ++ 0 ∷ s ≡ b ++ 0 ∷ t → (a ≡ b) × (s ≡ t)
split_at_nul [] [] ha hb e = ground arith
split_at_nul [] (c ∷ b) ha hb e = absurd (ground arith)
split_at_nul (c ∷ a) [] ha hb e = absurd (ground arith)
split_at_nul (c ∷ a) (d ∷ b) {s} {t} ha hb e =
    let tails : a ++ 0 ∷ s ≡ b ++ 0 ∷ t = ground arith in
    let heads : c ≡ d = ground arith in
    let rest = split_at_nul a b ha.1 hb.1 tails in (ap₂ ◌∷◌ heads rest.0, rest.1)

-- The rule, table and column of a finding hold no byte 0.
pub record IsPlain (f : Finding) : Type 0 where
  pub rule_plain : NoNul f.rule
  pub table_plain : NoNul f.location.table
  pub column_plain : NoNul f.location.column

-- What a key stands for.
pub record SameSubject (f g : Finding) : Type 0 where
  pub same_rule : f.rule ≡ g.rule
  pub same_table : f.location.table ≡ g.location.table
  pub same_column : f.location.column ≡ g.location.column
  pub same_line : f.location.line ≡ g.location.line

key→SameSubject : (f g : Finding) → IsPlain f → IsPlain g → key f ≡ key g → SameSubject f g
unfolding key
key→SameSubject f g p q e =
    let a = split_at_nul f.rule g.rule p.rule_plain q.rule_plain e in
    let b = split_at_nul f.location.table g.location.table p.table_plain q.table_plain a.1 in
    let c = split_at_nul f.location.column g.location.column p.column_plain q.column_plain b.1 in
    record {
      same_rule = a.0;
      same_table = b.0;
      same_column = c.0;
      same_line = show_int_inj f.location.line g.location.line c.1;
    }

SameSubject→key : (f g : Finding) → SameSubject f g → key f ≡ key g
unfolding key
SameSubject→key f g s = rw (s.same_rule, s.same_table, s.same_column, s.same_line)

-- Two findings whose rule, table and column hold no byte 0 have the same key exactly when their
-- rule, table, column and line agree.
pub key_iff_SameSubject :
    (f g : Finding) → IsPlain f → IsPlain g → (key f ≡ key g) ↔ SameSubject f g
key_iff_SameSubject f g p q = (key→SameSubject f g p q, SameSubject→key f g)

-- 0-9 or a-f.
abbrev pub is_hex : ℕ → Bool
is_hex c = (leb 48 c && leb c 57) || (leb 97 c && leb c 102)

hex_encode-is_hex : (s : Str) → All (λ b. b < 256) s → All (λ c. is_hex c ≡ true) (hex_encode s)
unfolding hex_encode
hex_encode-is_hex [] h = tt
hex_encode-is_hex (b ∷ s) h = (ground arith, (ground arith, hex_encode-is_hex s h.1))

length-hex_encode : (s : Str) → length (hex_encode s) ≡ 2 * length s
unfolding hex_encode
length-hex_encode [] = refl
length-hex_encode (b ∷ s) = omega (arith, length-hex_encode s)

All-take : (P : ℕ → Type 0) (n : ℕ) (s : Str) → All P s → All P (take n s)
All-take P zero s h = tt
All-take P (suc n) [] h = tt
All-take P (suc n) (c ∷ s) h = (h.0, All-take P n s h.1)

-- The id of a finding is sixteen lowercase hexadecimal digits, whatever names it is about, if the
-- digest is at least eight bytes.
pub id_url_safe :
    (sum256 : Str → Str) (f : Finding)
    → ((s : Str) → 8 ≤ length (sum256 s))
    → ((s : Str) → All (λ b. b < 256) (sum256 s))
    → (length (id sum256 f) ≡ 16) × All (λ c. is_hex c ≡ true) (id sum256 f)
unfolding id
id_url_safe sum256 f long bytes =
    let head = take 8 (sum256 (key f)) in
    (
      omega (arith, length-hex_encode head, length-take 8 (sum256 (key f)), long (key f)),
      hex_encode-is_hex head (All-take (λ b. b < 256) 8 (sum256 (key f)) (bytes (key f))),
    )
