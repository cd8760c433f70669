-- ===== src/Utils/Version/Print.antt =====
-- Releases that are printed and read back.
use gopher_cron.Base.{
  ℕ, ◌+◌, ◌-◌, ◌*◌, ◌≤◌, subst, Text, List, [], ◌∷◌, ◌++◌, Option, none, some, codes, ◌≡◌, refl,
  arith, ap, ◌∙◌, sym, All, All-append, ◌≢◌,
}
use gopher_cron.Keys.{decimal}
use gopher_cron.Keys.Decimal.{value, value-decimal, IsDigit, decimal-IsDigit, decimal-cons}
use gopher_cron.Base.Split.{trim_prefix, trim_lem, split, Lacks, split-append, split_last}
use gopher_cron.Utils.Version.{
  hyphen, point, first, digits, max_int, in_range, atoi, all_some, atois, parse_version, release,
  Triple, three, parse_triple,
}

digits-value : (n : ℕ) (s : Text) → All IsDigit s → digits n s ≡ some (value n s)
unfolding digits value
digits-value n [] h = refl
digits-value n (c ∷ s) h = ground (arith, digits-value (n * 10 + (c - b'0')) s h.1)

atoi-digits :
    (s : Text) (c : ℕ) → All IsDigit (c ∷ s) → atoi (c ∷ s) ≡ in_range (some (value 0 (c ∷ s)))
unfolding atoi
atoi-digits [] c h = ap in_range (digits-value 0 (c ∷ []) h)
atoi-digits (d ∷ s) c h = let e = digits-value 0 (c ∷ d ∷ s) h in ground arith

atoi-value :
    (s : Text)
    → All IsDigit s
    → (d : ℕ) (r : Text) → s ≡ d ∷ r
    → atoi s ≡ in_range (some (value 0 s))
atoi-value s h d r e =
    subst (λ x. atoi x ≡ in_range (some (value 0 x))) (sym e)
      (atoi-digits r d (subst (All IsDigit) e h))

-- The print of a number that fits an `int` is read back as that number.
atoi-decimal : (n : ℕ) → n ≤ max_int → atoi (decimal n) ≡ some n
unfolding in_range
atoi-decimal n h =
    let (d, r, e) = decimal-cons n in
    atoi-value (decimal n) (decimal-IsDigit n) d r e
    ∙ ap (λ x. in_range (some x)) (value-decimal n)
    ∙ ground arith

digits-Lacks : (sep : ℕ) (s : Text) → ¬ IsDigit sep → All IsDigit s → Lacks sep s
digits-Lacks sep [] n h = tt
digits-Lacks sep (c ∷ s) n h = (λ e. n (subst IsDigit e h.0), digits-Lacks sep s n h.1)

abbrev body : Triple → Text
body t = decimal t.major ++ point ∷ (decimal t.minor ++ point ∷ decimal t.patch)

-- How a release is printed, as in "v2.4.5".
abbrev pub print_version : Triple → Text
print_version t = codes "v" ++ body t

decimal-Lacks : (sep n : ℕ) → ¬ IsDigit sep → Lacks sep (decimal n)
decimal-Lacks sep n h = digits-Lacks sep (decimal n) h (decimal-IsDigit n)

hyphen_no-IsDigit : ¬ IsDigit hyphen
hyphen_no-IsDigit h = omega arith

point_no-IsDigit : ¬ IsDigit point
point_no-IsDigit h = omega arith

body-Lacks : (t : Triple) → Lacks hyphen (body t)
body-Lacks t =
    All-append (λ c. c ≢ hyphen) (decimal t.major)
      (point ∷ (decimal t.minor ++ point ∷ decimal t.patch))
      (decimal-Lacks hyphen t.major hyphen_no-IsDigit)
      (
        omega arith,
        All-append (λ c. c ≢ hyphen) (decimal t.minor) (point ∷ decimal t.patch)
            (decimal-Lacks hyphen t.minor hyphen_no-IsDigit)
            (omega arith, decimal-Lacks hyphen t.patch hyphen_no-IsDigit),
      )

release-print :
    (b suffix : Text)
    → Lacks hyphen b
    → (release (codes "v" ++ b) ≡ b) × (release ((codes "v" ++ b) ++ hyphen ∷ suffix) ≡ b)
unfolding release first
release-print b suffix h =
    let whole : Lacks hyphen (codes "v" ++ b) = (omega arith, h) in
    let trimmed = trim_lem (codes "v" ++ b) (codes "v") b refl in
    (
      ap (λ x. trim_prefix (first x) (codes "v")) (split_last hyphen (codes "v" ++ b) whole)
          ∙ trimmed,
      ap (λ x. trim_prefix (first x) (codes "v"))
            (split-append hyphen (codes "v" ++ b) suffix whole)
          ∙ trimmed,
    )

split-body :
    (t : Triple) → split point (body t) ≡ decimal t.major ∷ decimal t.minor ∷ decimal t.patch ∷ []
split-body t =
    split-append point (decimal t.major) (decimal t.minor ++ point ∷ decimal t.patch)
      (decimal-Lacks point t.major point_no-IsDigit)
    ∙ ap (λ r. decimal t.major ∷ r)
        (split-append point (decimal t.minor) (decimal t.patch)
            (decimal-Lacks point t.minor point_no-IsDigit)
          ∙ ap (λ r. decimal t.minor ∷ r)
              (split_last point (decimal t.patch) (decimal-Lacks point t.patch point_no-IsDigit)))

abbrev pub Fits : Triple → Type 0
Fits t = (t.major ≤ max_int) × (t.minor ≤ max_int) × (t.patch ≤ max_int)

abbrev result_of : Option (List ℕ) → Option Triple
unfolding three
result_of o = elim o [ none ↦ none | some vs ↦ three vs ]

parse-body : (t : Triple) → Fits t → result_of (parse_version (body t)) ≡ some t
unfolding parse_version atois all_some three
parse-body t (a, b, c) =
    ap (λ x. result_of (all_some (atois x))) (split-body t)
    ∙ rw (atoi-decimal t.major a, atoi-decimal t.minor b, atoi-decimal t.patch c) refl

-- What is printed as a release, with any text behind a hyphen or none, is read back as the three
-- numbers, if each fits an `int`.
pub parse_triple-print_version :
    (t : Triple) (suffix : Text)
    → Fits t
    → (parse_triple (print_version t) ≡ some t)
      × (parse_triple (print_version t ++ hyphen ∷ suffix) ≡ some t)
unfolding parse_triple three
parse_triple-print_version t suffix fits =
    let (p, q) = release-print (body t) suffix (body-Lacks t) in
    (
      ap (λ v. result_of (parse_version v)) p ∙ parse-body t fits,
      ap (λ v. result_of (parse_version v)) q ∙ parse-body t fits,
    )
