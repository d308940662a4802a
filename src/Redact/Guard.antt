-- ===== src/Redact/Guard.antt =====
-- internal/agent/redact/redact.go: the policy, the counters, and what the guard does with values,
-- cells and documents. A guard is returned with its new counters; the mutex serialises the calls.
use veritix.Base.{
  ℕ, suc, ◌+◌, Bool, true, false, List, [], ◌∷◌, ◌++◌, Str, ltb, leb, if◌then◌else◌, length, take,
}
use veritix.Base.Int.{ℤ, pos, pos_part}
use veritix.Base.Unicode.{Unicode}
use veritix.Redact.Shape.{Patterns, shape, mask, mark}

pub record Policy : Type 0 where
  pub allow_values : Bool
  pub max_value_len : ℤ
  pub max_shape_len : ℤ

-- p <= 0
abbrev not_positive : ℤ → Bool
not_positive n = leb (pos_part n) 0

unfoldable pub with_defaults : Policy → Policy
with_defaults p = record {
  allow_values = p.allow_values;
  max_value_len = if not_positive p.max_value_len then pos 120 else p.max_value_len;
  max_shape_len = if not_positive p.max_shape_len then pos 60 else p.max_shape_len;
}

pub record Stats : Type 0 where
  pub shaped : ℕ
  pub masked : ℕ
  pub passed : ℕ
  pub truncated : ℕ
  pub sealed : ℕ
  pub bytes : ℕ
  pub documents : ℕ
  pub document_bytes : ℕ

pub record Guard : Type 0 where
  pub policy : Policy
  pub stats : Stats

unfoldable pub new : Policy → Guard
unfolding with_defaults
new p = record {
  policy = with_defaults p;
  stats = record {
    shaped = 0;
    masked = 0;
    passed = 0;
    truncated = 0;
    sealed = 0;
    bytes = 0;
    documents = 0;
    document_bytes = 0;
  };
}

-- Cleared text; the only functions that make one are those of the guard.
pub record Text : Type 0 where
  pub s : Str

-- "…" in UTF-8
abbrev pub ellipsis : Str
ellipsis = 226 ∷ 128 ∷ 166 ∷ []

-- `out[:n] + "…"` where `out` is longer than `n` bytes, and whether it was.
unfoldable pub cut : ℤ → Str → Str × Bool
cut n out =
    if ltb (pos_part n) (length out)
    then (take (pos_part n) out ++ ellipsis, true)
    else (out, false)

abbrev add_if : Bool → ℕ → ℕ
add_if b n = if b then suc n else n

unfoldable pub shape_text : Unicode → Guard → Str → Text × Guard
shape_text u g v =
    let (out, truncated) = cut g.policy.max_shape_len (shape u v) in
    (
      record { s = mark out },
      record g {
        stats = record g.stats {
          shaped = suc g.stats.shaped;
          truncated = add_if truncated g.stats.truncated;
        };
      },
    )

unfoldable pub allowed_text : Patterns → Guard → Str → Text × Guard
allowed_text p g v =
    let (out, masked) = mask p v in
    let (cleared, truncated) = cut g.policy.max_value_len out in
    (
      record { s = cleared },
      record g {
        stats = record g.stats {
          masked = add_if masked g.stats.masked;
          passed = if masked then g.stats.passed else suc g.stats.passed;
          truncated = add_if truncated g.stats.truncated;
        };
      },
    )

-- What a cell of a query result may hold. A time carries its RFC 3339 text, a number and anything
-- else the text that `fmt.Sprint` gives.
pub data AnyValue : Type 0 where
  nil : AnyValue
  boolean : Bool → AnyValue
  time : Str → AnyValue
  text : Str → AnyValue
  number : Str → AnyValue
  other : Str → AnyValue

-- What `Cell` returns: nothing, a Boolean, a plain string, a number, or cleared text.
pub data Cleared : Type 0 where
  nil : Cleared
  boolean : Bool → Cleared
  plain : Str → Cleared
  number : Str → Cleared
  text : Text → Cleared

abbrev pub as_text : Text × Guard → Cleared × Guard
as_text (t, g) = (Cleared.text t, g)

module _ (u : Unicode) (p : Patterns) where
  unfoldable pub value : Guard → Str → Text × Guard
  value g v = if g.policy.allow_values then allowed_text p g v else shape_text u g v

  unfoldable pub values : Guard → List Str → List Text × Guard
  values g [] = ([], g)
  values g (v ∷ vs) = let (t, g1) = value g v in let (ts, g2) = values g1 vs in (t ∷ ts, g2)

  unfoldable pub cell : Guard → AnyValue → Bool → Cleared × Guard
  cell g AnyValue.nil aggregate = (Cleared.nil, g)
  cell g (AnyValue.boolean b) aggregate = (Cleared.boolean b, g)
  cell g (AnyValue.time t) true = (Cleared.plain t, g)
  cell g (AnyValue.time t) false = as_text (shape_text u g t)
  cell g (AnyValue.text t) aggregate = as_text (value g t)
  cell g (AnyValue.number n) true =
      (Cleared.number n, record g { stats = record g.stats { passed = suc g.stats.passed } })
  cell g (AnyValue.number n) false = as_text (shape_text u g n)
  cell g (AnyValue.other x) aggregate = as_text (shape_text u g x)

unfoldable pub derived : Guard → Str → Text
derived g v = record { s = mark v }

unfoldable pub sentinel : Guard → Str → Text
sentinel g v = record { s = v }

unfoldable pub document : Guard → Str → Text × Guard
document g v = (
  record { s = v },
  record g {
    stats = record g.stats {
      documents = suc g.stats.documents;
      document_bytes = g.stats.document_bytes + length v;
    };
  },
)
