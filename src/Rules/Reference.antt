-- ===== src/Rules/Reference.antt =====
-- internal/rules/rules.go: `matchGlob` decides what a pattern with stars means.
use veritix.Base.{
  ℕ, zero, suc, ◌+◌, ◌≡◌, refl, ap, sym, ◌∙◌, arith, Bool, true, false, ◌&&◌, ◌||◌, Option, none,
  some, List, [], ◌∷◌, Str, codes, str_eq, str_eq_iff, str_eq_refl, has_prefix, if◌then◌else◌, ◌==◌,
  length, drop,
}
use veritix.Base.Find.{index_of, contains, has_suffix}
use veritix.Rules.Glob.{split_stars, match_parts, match_first, match_glob}

-- Whether a test holds of a text or of some end of it.
abbrev pub somewhere : (Str → Bool) → Str → Bool
somewhere f [] = f []
somewhere f (c ∷ s) = f (c ∷ s) || somewhere f s

-- What a pattern means: a star stands for any run of bytes, every other byte for itself.
abbrev pub fits : Str → Str → Bool
fits [] s = str_eq s []
fits (c ∷ p) s =
    if c == 42 then somewhere (fits p) s else elim s [ [] ↦ false | d ∷ t ↦ d == c && fits p t ]

-- The same by the parts between the stars.
abbrev fits_rest : List Str → Str → Bool
fits_rest [] s = str_eq s []
fits_rest (q ∷ qs) s = somewhere (λ m. has_prefix m q && fits_rest qs (drop (length q) m)) s

abbrev fits_parts : Str → List Str → Str → Bool
fits_parts q qs s = has_prefix s q && fits_rest qs (drop (length q) s)

somewhere-ext :
    (f g : Str → Bool) → ((m : Str) → f m ≡ g m) → (s : Str) → somewhere f s ≡ somewhere g s
somewhere-ext f g h [] = h []
somewhere-ext f g h (c ∷ s) = ground (arith, h (c ∷ s), somewhere-ext f g h s)

fits-split : (p s : Str) → fits p s ≡ fits_parts (split_stars p).0 (split_stars p).1 s
unfolding split_stars has_prefix
fits-split [] s = ground arith
fits-split (c ∷ p) [] = ground (
  arith,
  fits-split p [],
  somewhere-ext (fits p) (fits_parts (split_stars p).0 (split_stars p).1) (fits-split p) [],
)
fits-split (c ∷ p) (d ∷ s) = ground (
  arith,
  fits-split p s,
  somewhere-ext (fits p) (fits_parts (split_stars p).0 (split_stars p).1) (fits-split p) (d ∷ s),
)

-- A test that goes on holding when the text grows in front.
abbrev Grows : (Str → Bool) → Type 0
Grows f = (c : ℕ) (s : Str) → f s ≡ true → f (c ∷ s) ≡ true

somewhere-Grows : (f : Str → Bool) → Grows (somewhere f)
somewhere-Grows f c s h = ground (arith, h)

somewhere_once : (f : Str → Bool) → Grows f → (s : Str) → somewhere f s ≡ f s
somewhere_once f g [] = refl
somewhere_once f g (c ∷ s) = ground (arith, somewhere_once f g s, g c s)

drop-nil : (k : ℕ) → drop {A = ℕ} k [] ≡ []
drop-nil zero = refl
drop-nil (suc k) = refl

-- Dropping one byte less keeps the test.
drop_less :
    (f : Str → Bool)
    → Grows f
    → (k c : ℕ) (s : Str) → f (drop k s) ≡ true
    → f (drop k (c ∷ s)) ≡ true
drop_less f g zero c s h = g c s h
drop_less f g (suc k) c [] h = ground (arith, h, drop-nil k)
drop_less f g (suc k) c (d ∷ s) h = drop_less f g k d s h

-- A place further on where a part stands serves as well as this one.
later_place :
    (f : Str → Bool)
    → Grows f
    → (q s : Str) → somewhere (λ m. has_prefix m q && f (drop (length q) m)) s ≡ true
    → f (drop (length q) s) ≡ true
later_place f g q [] h = ground (arith, h)
later_place f g q (c ∷ s) h = ground (arith, h, later_place f g q s, drop_less f g (length q) c s)

drop-suc : (i k c : ℕ) (s : Str) → drop (suc i + k) (c ∷ s) ≡ drop (i + k) s
drop-suc i k c s = let e : suc i + k ≡ suc (i + k) = omega arith in ap (λ n. drop n (c ∷ s)) e

-- The end of a name behind the place that was found, seen from one byte before.
one_before :
    (f : Str → Bool) (found : Bool) (o : Option ℕ) (k c : ℕ) (s : Str)
    → (elim (if found
          then some 0
          else elim o as (λ x. Option ℕ) [ none ↦ none | some i ↦ some (suc i) ])
        as (λ x. Bool) [ none ↦ false | some i ↦ f (drop (i + k) (c ∷ s)) ])
      ≡ (if found
          then f (drop k (c ∷ s))
          else elim o [ none ↦ false | some i ↦ f (drop (i + k) s) ])
one_before f true o k c s = let e : 0 + k ≡ k = omega arith in ap (λ n. f (drop n (c ∷ s))) e
one_before f false none k c s = refl
one_before f false (some i) k c s = ap f (drop-suc i k c s)

-- The first place of a part is as good as any.
first_place :
    (f : Str → Bool)
    → Grows f
    → (b : ℕ) (q s : Str)
    → (elim (index_of s (b ∷ q)) as (λ x. Bool) [
      | none ↦ false
      | some i ↦ f (drop (i + length (b ∷ q)) s)
    ])
      ≡ somewhere (λ m. has_prefix m (b ∷ q) && f (drop (length (b ∷ q)) m)) s
unfolding index_of has_prefix
first_place f g b q [] = refl
first_place f g b q (c ∷ s) =
    let k = length (b ∷ q) in
    one_before f (has_prefix (c ∷ s) (b ∷ q)) (index_of s (b ∷ q)) k c s
    ∙ ground (arith, first_place f g b q s, later_place f g (b ∷ q) s, drop_less f g k c s)

whole_part : (q s : Str) → (has_prefix s q && str_eq (drop (length q) s) []) ≡ str_eq s q
unfolding has_prefix str_eq
whole_part [] s = refl
whole_part (b ∷ q) [] = refl
whole_part (b ∷ q) (c ∷ s) = ground (arith, whole_part q s)

is_suffix :
    (q s : Str)
    → has_suffix s q ≡ somewhere (λ m. has_prefix m q && str_eq (drop (length q) m) []) s
unfolding has_suffix
is_suffix q [] = sym (whole_part q [])
is_suffix q (c ∷ s) = ground (arith, whole_part q (c ∷ s), is_suffix q s)

fits_rest-Grows : (q : Str) (qs : List Str) → Grows (fits_rest (q ∷ qs))
fits_rest-Grows q qs = somewhere-Grows (fits_parts q qs)

has_suffix-nil : (s : Str) → has_suffix s [] ≡ true
unfolding has_suffix str_eq
has_suffix-nil [] = refl
has_suffix-nil (c ∷ s) = has_suffix-nil s

behind :
    (f g : Str → Bool)
    → ((m : Str) → f m ≡ g m)
    → (o : Option ℕ) (k : ℕ) (s : Str)
    → (elim o as (λ x. Bool) [ none ↦ false | some i ↦ f (drop (i + k) s) ])
      ≡ (elim o as (λ x. Bool) [ none ↦ false | some i ↦ g (drop (i + k) s) ])
behind f g h none k s = refl
behind f g h (some i) k s = h (drop (i + k) s)

match_parts_lem :
    (q : Str) (qs : List Str) (s : Str) → match_parts (q ∷ qs) s ≡ fits_rest (q ∷ qs) s
unfolding match_parts str_eq has_suffix has_prefix
match_parts_lem [] [] s = sym (has_suffix-nil s) ∙ is_suffix [] s
match_parts_lem (b ∷ q) [] s = is_suffix (b ∷ q) s
match_parts_lem [] (r ∷ rs) s =
    match_parts_lem r rs s ∙ sym (somewhere_once (fits_rest (r ∷ rs)) (fits_rest-Grows r rs) s)
match_parts_lem (b ∷ q) (r ∷ rs) s =
    behind (match_parts (r ∷ rs)) (fits_rest (r ∷ rs)) (match_parts_lem r rs) (index_of s (b ∷ q))
      (length (b ∷ q)) s
    ∙ first_place (fits_rest (r ∷ rs)) (fits_rest-Grows r rs) b q s

-- A pattern with a star has parts after the first; one without means itself.
has_parts : (p : Str) → contains p (codes "*") ≡ true → ¬ ((split_stars p).1 ≡ [])
unfolding contains index_of has_prefix split_stars
has_parts [] h e = absurd (ground arith)
has_parts (c ∷ p) h e = ground (arith, h, e, has_parts p)

plain_lem : (p s : Str) → contains p (codes "*") ≡ false → fits p s ≡ str_eq p s
unfolding contains index_of has_prefix str_eq
plain_lem [] [] h = refl
plain_lem [] (d ∷ s) h = refl
plain_lem (c ∷ p) [] h = ground (arith, h, plain_lem p [])
plain_lem (c ∷ p) (d ∷ s) h = ground (arith, h, plain_lem p s)

here : (f : Str → Bool) (s : Str) → f s ≡ true → somewhere f s ≡ true
here f [] h = h
here f (c ∷ s) h = ground (arith, h)

fits_self : (p : Str) → fits p p ≡ true
fits_self [] = str_eq_refl []
fits_self (c ∷ p) = ground (arith, fits_self p, here (fits p) p)

match_first_lem :
    (q : Str) (r : Str) (rs : List Str) (s : Str)
    → match_first q (r ∷ rs) s ≡ fits_parts q (r ∷ rs) s
unfolding match_first has_prefix str_eq
match_first_lem [] r rs s = match_parts_lem r rs s
match_first_lem (b ∷ q) r rs s = ground (arith, match_parts_lem r rs (drop (length (b ∷ q)) s))

-- With a star in the pattern.
by_parts :
    (p s : Str) (q : Str) (qs : List Str)
    → split_stars p ≡ (q, qs)
    → contains p (codes "*") ≡ true
    → match_first q qs s ≡ fits p s
by_parts p s q [] e h = absurd (has_parts p h (ap (λ x. x.1) e))
by_parts p s q (r ∷ rs) e h =
    match_first_lem q r rs s ∙ sym (fits-split p s ∙ ap (λ x. fits_parts x.0 x.1 s) e)

-- The greedy matching of the parts decides what the pattern means: a star stands for any run of bytes,
-- every other byte for itself, both texts in lower case.
pub match_glob-fits :
    (lower : Str → Str) (pattern name : Str)
    → match_glob lower pattern name ≡ fits (lower pattern) (lower name)
unfolding match_glob
match_glob-fits lower pattern name =
    let p = lower pattern in
    let s = lower name in
    let split = by_parts p s (split_stars p).0 (split_stars p).1 refl in
    ground (arith, split, plain_lem p s, str_eq_iff p s, fits_self p, ap (fits p))
