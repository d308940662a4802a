-- ===== src/Redact/Leak.antt =====
-- internal/agent/redact/redact.go: what `Seal` lets through, against a description of what must
-- not leave.
use veritix.Base.{
  ℕ, suc, ◌≡◌, ◌⊎◌, ◌↔◌, inl, inr, refl, sym, Bool, true, false, Option, none, some, [], Str,
  if◌then◌else◌, ◌++◌, codes,
}
use veritix.Base.Decimal.{show_nat}
use veritix.Redact.Guard.{Guard}
use veritix.Redact.Seal.{
  GoValue, invalid, cleared, interface_nil, pointer_nil, opaque, scalar, string, interface, pointer,
  struct, sequence, dictionary, Fields, no_field, field, Items, no_item, item, Entries, no_entry,
  entry, Refusal, or_else, inspect, inspect_fields, inspect_items, inspect_entries, Result, refused,
  marshal_failed, count_sealed, sealed, failed, seal,
}

-- A value carries unclassified content: a string that an interface hides, a slice of bytes, or
-- something that cannot be serialized, reachable without an unexported field. The first argument
-- says whether the strings that are keys of a map count too.
unfoldable mutual
  pub Leaks : Bool → GoValue → Bool → Type 0
  Leaks c invalid b = ⊥
  Leaks c cleared b = ⊥
  Leaks c interface_nil b = ⊥
  Leaks c pointer_nil b = ⊥
  Leaks c GoValue.raw_bytes b = Unit
  Leaks c opaque b = Unit
  Leaks c scalar b = ⊥
  Leaks c (string s) b = b ≡ true
  Leaks c (interface v) b = Leaks c v true
  Leaks c (pointer v) b = Leaks c v b
  Leaks c (struct fs) b = LeaksField c fs b
  Leaks c (sequence vs) b = LeaksItem c vs b
  Leaks c (dictionary strings es) b = LeaksEntry c strings es b

  pub LeaksField : Bool → Fields → Bool → Type 0
  LeaksField c no_field b = ⊥
  LeaksField c (field name exported v fs) b = ((exported ≡ true) × Leaks c v b) ⊎ LeaksField c fs b

  pub LeaksItem : Bool → Items → Bool → Type 0
  LeaksItem c no_item b = ⊥
  LeaksItem c (item v vs) b = Leaks c v b ⊎ LeaksItem c vs b

  pub LeaksEntry : Bool → Bool → Entries → Bool → Type 0
  LeaksEntry c strings no_entry b = ⊥
  LeaksEntry c strings (entry k v es) b =
      ((c ≡ true) × (strings ≡ true) × (b ≡ true)) ⊎ (Leaks c v b ⊎ LeaksEntry c strings es b)

-- An inspection is right about a statement: it refuses exactly if that holds.
abbrev Decides : Option Refusal → Type 0 → Type 0
Decides none P = ¬ P
Decides (some r) P = P

or_else-Decides :
    (P Q : Type 0) (a b : Option Refusal)
    → Decides a P
    → Decides b Q
    → Decides (or_else a b) (P ⊎ Q)
or_else-Decides P Q none none f g = λ s. elim s [ inl p ↦ f p | inr q ↦ g q ]
or_else-Decides P Q none (some r) f q = inr q
or_else-Decides P Q (some r) b p g = inl p

exported-Decides :
    (P : Type 0) (e : Bool) (r : Option Refusal)
    → Decides r P
    → Decides (if e then r else none) ((e ≡ true) × P)
exported-Decides P false r h = λ p. cc p.0
exported-Decides P true none h = λ p. h p.1
exported-Decides P true (some r) h = (refl, h)

-- Where keys do not count, a key adds nothing.
apart_from_key :
    (r : Option Refusal) (strings b : Bool) (P : Type 0)
    → Decides r P
    → Decides r (((false ≡ true) × (strings ≡ true) × (b ≡ true)) ⊎ P)
apart_from_key none strings b P h = λ s. elim s [ inl e ↦ cc e.0 | inr p ↦ h p ]
apart_from_key (some r) strings b P h = inr h

mutual
  unfolding inspect inspect_fields inspect_items inspect_entries Leaks LeaksField LeaksItem
      LeaksEntry

  inspect-Decides :
      (v : GoValue) (b : Bool) (path : Str) → Decides (inspect v b path) (Leaks false v b)
  inspect-Decides invalid b path = λ h. h
  inspect-Decides cleared b path = λ h. h
  inspect-Decides interface_nil b path = λ h. h
  inspect-Decides pointer_nil b path = λ h. h
  inspect-Decides GoValue.raw_bytes b path = tt
  inspect-Decides opaque b path = tt
  inspect-Decides scalar b path = λ h. h
  inspect-Decides (string s) true path = refl
  inspect-Decides (string s) false path = λ h. cc h
  inspect-Decides (interface v) b path = inspect-Decides v true path
  inspect-Decides (pointer v) b path = inspect-Decides v b path
  inspect-Decides (struct fs) b path = inspect_fields-Decides fs b path
  inspect-Decides (sequence vs) b path = inspect_items-Decides vs 0 b path
  inspect-Decides (dictionary strings es) b path = inspect_entries-Decides strings es b path

  inspect_fields-Decides :
      (fs : Fields) (b : Bool) (path : Str)
      → Decides (inspect_fields fs b path) (LeaksField false fs b)
  inspect_fields-Decides no_field b path = λ h. h
  inspect_fields-Decides (field name e v fs) b path =
      let inside = path ++ codes "." ++ name in
      or_else-Decides ((e ≡ true) × Leaks false v b) (LeaksField false fs b)
        (if e then inspect v b inside else none) (inspect_fields fs b path)
        (exported-Decides (Leaks false v b) e (inspect v b inside) (inspect-Decides v b inside))
        (inspect_fields-Decides fs b path)

  inspect_items-Decides :
      (vs : Items) (i : ℕ) (b : Bool) (path : Str)
      → Decides (inspect_items vs i b path) (LeaksItem false vs b)
  inspect_items-Decides no_item i b path = λ h. h
  inspect_items-Decides (item v vs) i b path =
      let inside = path ++ codes "[" ++ show_nat i ++ codes "]" in
      or_else-Decides (Leaks false v b) (LeaksItem false vs b) (inspect v b inside)
        (inspect_items vs (suc i) b path) (inspect-Decides v b inside)
        (inspect_items-Decides vs (suc i) b path)

  inspect_entries-Decides :
      (strings : Bool) (es : Entries) (b : Bool) (path : Str)
      → Decides (inspect_entries es b path) (LeaksEntry false strings es b)
  inspect_entries-Decides strings no_entry b path = λ h. h
  inspect_entries-Decides strings (entry k v es) b path =
      let inside = path ++ codes "[" ++ k ++ codes "]" in
      apart_from_key _ strings b _ (
        or_else-Decides (Leaks false v b) (LeaksEntry false strings es b) (inspect v b inside)
          (inspect_entries es b path) (inspect-Decides v b inside)
          (inspect_entries-Decides strings es b path))

-- What each outcome of `Seal` says of the value, and the guard that it leaves.
abbrev pub Sealing : (GoValue → Option Str) → Guard → GoValue → Result × Guard → Type 0
Sealing marshal g v (sealed b, g') =
    (¬ Leaks false v false) × (marshal v ≡ some b) × (g' ≡ count_sealed g b)
Sealing marshal g v (failed (refused r), g') = Leaks false v false × (g' ≡ g)
Sealing marshal g v (failed marshal_failed, g') =
    (¬ Leaks false v false) × (marshal v ≡ none) × (g' ≡ g)

pub seal_lem :
    (marshal : GoValue → Option Str) (g : Guard) (v : GoValue)
    → Sealing marshal g v (seal marshal g v)
unfolding seal
seal_lem marshal g v = inspected (inspect v false []) (inspect-Decides v false [])
  where
    marshalled :
        (m : Option Str)
        → m ≡ marshal v
        → ¬ Leaks false v false
        → Sealing marshal g v
            (elim m [ none ↦ (failed marshal_failed, g) | some b ↦ (sealed b, count_sealed g b) ])
    marshalled none e h = (h, sym e, refl)
    marshalled (some b) e h = (h, sym e, refl)

    inspected :
        (r : Option Refusal)
        → Decides r (Leaks false v false)
        → Sealing marshal g v (elim r [
          | some r ↦ (failed (refused r), g)
          | none ↦ elim (marshal v) [
            | none ↦ (failed marshal_failed, g)
            | some b ↦ (sealed b, count_sealed g b)
          ]
        ])
    inspected none h = marshalled (marshal v) refl h
    inspected (some r) h = (h, refl)

-- A value that `Seal` refuses, or not.
abbrev pub is_refused : Result → Bool
is_refused (failed (refused r)) = true
is_refused _ = false

refused_iff :
    (marshal : GoValue → Option Str) (g : Guard) (v : GoValue) (o : Result × Guard)
    → Sealing marshal g v o
    → (is_refused o.0 ≡ true) ↔ Leaks false v false
refused_iff marshal g v (sealed b, g') h = (λ e. cc e, λ l. absurd (h.0 l))
refused_iff marshal g v (failed (refused r), g') h = (λ e. h.0, λ l. refl)
refused_iff marshal g v (failed marshal_failed, g') h = (λ e. cc e, λ l. absurd (h.0 l))

-- `Seal` refuses exactly the values with unclassified content apart from keys.
pub is_refused_iff :
    (marshal : GoValue → Option Str) (g : Guard) (v : GoValue)
    → (is_refused (seal marshal g v).0 ≡ true) ↔ Leaks false v false
is_refused_iff marshal g v = refused_iff marshal g v (seal marshal g v) (seal_lem marshal g v)
