-- ===== src/Base/Sort/Lex.antt =====
-- `if a.k != b.k { return a.k < b.k }`, then the next field: such a `less` is a strict weak order.
use mathlib.Core.Bool.{Bool, not}
use native.Mathlib.Omega.{arith}
use veritix.Base.Tests.{if◌then◌else◌}
use veritix.Base.Text.{Str, str_eq, str_lt, str_eq_iff, str_lt_asym, str_lt_trans, str_lt_total}
use veritix.Base.Sort.Defs.{IsWeakOrder}

module _ {ℓ} {A : Type ℓ} (P : A → Type 0) where
  -- A string field compared before the rest.
  pub lex-str :
      (f : A → Str) (rest : A → A → Bool)
      → IsWeakOrder P rest
      → IsWeakOrder P (λ a b. if not (str_eq (f a) (f b)) then str_lt (f a) (f b) else rest a b)
  lex-str f rest o = record {
    asym = λ a b pa pb. ground (
      arith,
      str_lt_asym (f a) (f b),
      o.asym a b pa pb,
      str_eq_iff (f a) (f b),
      str_eq_iff (f b) (f a),
    );
    neg_trans = λ a b c pa pb pc. ground (
      arith,
      o.neg_trans a b c pa pb pc,
      str_eq_iff (f a) (f b),
      str_eq_iff (f b) (f c),
      str_eq_iff (f a) (f c),
      str_lt_total (f a) (f b),
      str_lt_total (f b) (f c),
      str_lt_asym (f b) (f a),
      str_lt_asym (f a) (f b),
      str_lt_asym (f c) (f b),
      str_lt_asym (f b) (f c),
      str_lt_trans (f c) (f b) (f a),
      str_lt_trans (f b) (f a) (f c),
      str_lt_trans (f a) (f c) (f b),
    );
  }
