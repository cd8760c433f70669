-- ===== src/Utils/Version.antt =====
-- utils/utils.go: `CompareVersion`, which center and agent use to compare their releases.
pub mod Print
use gopher_cron.Base.{
  ℕ, ◌+◌, ◌-◌, ◌*◌, ◌<◌, ◌≤◌, subst, Text, List, [], ◌∷◌, ◌++◌, Bool, true, false, ◌&&◌, Option,
  none, some, ltb, leb, ◌==◌, if◌then◌else◌, codes, ◌≡◌, ◌↔◌, ◌⊎◌, inl, inr, refl, arith,
  Option-cases, Bool-cases, ap, ◌∙◌, sym, All, All-append, ◌≢◌,
}
use gopher_cron.Keys.{decimal}
use gopher_cron.Keys.Decimal.{value, value-decimal, IsDigit, decimal-IsDigit, decimal-cons}
use gopher_cron.Base.Split.{trim_prefix, trim_lem, split, Lacks, split-append, split_last}

abbrev pub hyphen : ℕ
hyphen = b'-'

abbrev pub point : ℕ
point = b'.'

-- `strings.Split(v, "-")[0]`
unfoldable pub first : List Text → Text
first [] = []
first (v ∷ vs) = v

-- the digits of `strconv.Atoi`, behind those that are read
unfoldable pub digits : ℕ → Text → Option ℕ
digits n [] = some n
digits n (c ∷ s) =
    let rest = digits (n * 10 + (c - b'0')) s in if leb b'0' c && leb c b'9' then rest else none

-- The largest `int`.
abbrev pub max_int : ℕ
max_int = 9223372036854775807

unfoldable pub in_range : Option ℕ → Option ℕ
in_range none = none
in_range (some n) = if leb n max_int then some n else none

-- `strconv.Atoi` on a text with no hyphen: an optional plus sign, then digits.
unfoldable pub atoi : Text → Option ℕ
unfolding digits in_range
atoi [] = none
atoi (c ∷ []) = in_range (digits 0 (c ∷ []))
atoi (c ∷ d ∷ s) =
    if c == b'+' then in_range (digits 0 (d ∷ s)) else in_range (digits 0 (c ∷ d ∷ s))

unfoldable pub all_some : List (Option ℕ) → Option (List ℕ)
all_some [] = some []
all_some (none ∷ os) = none
all_some (some n ∷ os) = elim (all_some os) [ none ↦ none | some ns ↦ some (n ∷ ns) ]

unfoldable pub atois : List Text → List (Option ℕ)
atois [] = []
atois (v ∷ vs) = atoi v ∷ atois vs

unfoldable pub parse_version : Text → Option (List ℕ)
unfolding all_some atois
parse_version v = all_some (atois (split point v))

-- The part that is compared: up to the first hyphen, without a leading `v`.
unfoldable pub release : Text → Text
unfolding first
release v = trim_prefix (first (split hyphen v)) (codes "v")

pub record Triple : Type 0 where
  pub major : ℕ
  pub minor : ℕ
  pub patch : ℕ

-- the length check
unfoldable pub three : List ℕ → Option Triple
three (a ∷ b ∷ c ∷ []) = some (record { major = a; minor = b; patch = c })
three _ = none

-- The three comparisons.
unfoldable pub less : Triple → Triple → Bool
less o n =
    if ltb n.major o.major
    then false
    else if ltb o.major n.major
    then true
    else if ltb n.minor o.minor
    then false
    else if ltb o.minor n.minor
    then true
    else if leb n.patch o.patch
    then false
    else true

unfoldable pub parse_triple : Text → Option Triple
unfolding parse_version three
parse_triple v = elim (parse_version (release v)) [ none ↦ none | some vs ↦ three vs ]

-- `true` if the second version is larger
unfoldable pub compare_version : Text → Text → Bool
unfolding parse_triple less
compare_version o n = elim (parse_triple n) [
  | none ↦ false
  | some nvs ↦ elim (parse_triple o) [ none ↦ false | some ovs ↦ less ovs nvs ]
]

-- The order of releases, by the first number that differs.
abbrev pub Before : Triple → Triple → Type 0
Before s t =
    (s.major < t.major)
    ⊎ ((s.major ≡ t.major) × ((s.minor < t.minor) ⊎ ((s.minor ≡ t.minor) × (s.patch < t.patch))))

less_iff : (s t : Triple) → (less s t ≡ true) ↔ Before s t
unfolding less
less_iff s t = (λ h. ground arith, λ h. ground arith)

-- The second version is reported as larger exactly if both texts are versions of three numbers
-- and the first comes before the second.
pub compare_version-Before :
    (o n : Text)
    → (compare_version o n ≡ true) ↔ (
        (s : Triple) × (t : Triple) × (parse_triple o ≡ some s)
        × (parse_triple n ≡ some t)
        × Before s t)
unfolding compare_version
compare_version-Before o n = (
  λ h. elim (Option-cases (parse_triple n)) [
    | inl e ↦ ground arith
    | inr (t, e) ↦ elim (Option-cases (parse_triple o)) [
      | inl d ↦ ground arith
      | inr (s, d) ↦ (s, t, d, e, (less_iff s t).0 (ground arith))
    ]
  ],
  λ (s, t, d, e, b). let l = (less_iff s t).1 b in ground arith,
)

compare :
    (o n : Text)
    → compare_version o n ≡ true
    → (s : Triple) × (t : Triple) × (parse_triple o ≡ some s)
      × (parse_triple n ≡ some t)
      × Before s t
compare o n h = (compare_version-Before o n).0 h

not-Before : (s t : Triple) → Option.some s ≡ some t → ¬ Before s t
not-Before s t e b = let same : s ≡ t = cc in ground arith

Before-trans :
    (s t s' t' : Triple) → Option.some t ≡ some s' → Before s t → Before s' t' → Before s t'
Before-trans s t s' t' e b c = let same : t ≡ s' = cc in ground arith

-- The comparison is a strict order: no version is larger than itself, and it is transitive.
pub compare_version-IsStrictOrder :
    ((v : Text) → compare_version v v ≡ false)
    × ((u v w : Text)
        → compare_version u v ≡ true
        → compare_version v w ≡ true
        → compare_version u w ≡ true)
compare_version-IsStrictOrder = (
  λ v. elim (Bool-cases (compare_version v v)) [
    | inl h ↦ let (s, t, d, e, b) = compare v v h in absurd (not-Before s t (sym d ∙ e) b)
    | inr h ↦ h
  ],
  λ u v w h k.
      let (s, t, d, e, b) = compare u v h in
      let (s', t', d', e', b') = compare v w k in
      (compare_version-Before u w).1 (s, t', d, e', Before-trans s t s' t' (sym e ∙ d') b b'),
)
