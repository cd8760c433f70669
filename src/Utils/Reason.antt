-- ===== src/Utils/Reason.antt =====
-- utils/utils.go: `reasonWriter`, which collects the reasons of a failure behind commas. The
-- builder is the text that was written to it.
use gopher_cron.Base.{
  Text, List, [], ◌∷◌, ◌++◌, codes, ◌≡◌, refl, append_assoc, All, All-append, ◌≢◌, ap, sym, ◌∙◌,
}

abbrev comma : Text
comma = codes ","

unfoldable pub write_string : (s w : Text) → Text
write_string s [] = s
write_string s (c ∷ w) = (c ∷ w) ++ (comma ++ s)

unfoldable pub write_string_prefix : (s w : Text) → Text
unfolding write_string
write_string_prefix s [] = s
write_string_prefix s (c ∷ w) = write_string (c ∷ w) s

-- One write of either kind.
pub data Write : Type 0 where
  back front : Text → Write

unfoldable pub write_all : List Write → Text → Text
unfolding write_string write_string_prefix
write_all [] w = w
write_all (back s ∷ ws) w = write_all ws (write_string s w)
write_all (front s ∷ ws) w = write_all ws (write_string_prefix s w)

-- The reasons in the order in which they are to stand.
abbrev pub arrange : List Write → List Text → List Text
arrange [] rs = rs
arrange (back s ∷ ws) rs = arrange ws (rs ++ s ∷ [])
arrange (front s ∷ ws) rs = arrange ws (s ∷ rs)

-- `strings.Join(rs, ",")`
unfoldable pub join : List Text → Text
join [] = []
join (r ∷ []) = r
join (r ∷ q ∷ rs) = let rest = join (q ∷ rs) in r ++ (comma ++ rest)

abbrev pub AreNamed : List Write → Type 0
AreNamed [] = Unit
AreNamed (back s ∷ ws) = (s ≢ []) × AreNamed ws
AreNamed (front s ∷ ws) = (s ≢ []) × AreNamed ws

abbrev Named : List Text → Type 0
Named = All (λ r. r ≢ [])

write_string-named : (s w : Text) → w ≢ [] → write_string s w ≡ w ++ (comma ++ s)
unfolding write_string
write_string-named s [] n = absurd (n refl)
write_string-named s (c ∷ w) n = refl

write_string_prefix-named : (s w : Text) → w ≢ [] → write_string_prefix s w ≡ write_string w s
unfolding write_string_prefix
write_string_prefix-named s [] n = absurd (n refl)
write_string_prefix-named s (c ∷ w) n = refl

append-named : (r t : Text) → r ≢ [] → r ++ t ≢ []
append-named [] t n e = n refl
append-named (c ∷ r) t n e = cc

join-Named : (r : Text) (rs : List Text) → Named (r ∷ rs) → join (r ∷ rs) ≢ []
unfolding join
join-Named r [] h = h.0
join-Named r (q ∷ rs) h = append-named r (comma ++ join (q ∷ rs)) h.0

join-snoc :
    (r : Text) (rs : List Text) (s : Text)
    → join (r ∷ (rs ++ s ∷ [])) ≡ join (r ∷ rs) ++ (comma ++ s)
unfolding join
join-snoc r [] s = refl
join-snoc r (q ∷ rs) s =
    ap (λ x. r ++ (comma ++ x)) (join-snoc q rs s)
    ∙ sym (append_assoc r (comma ++ join (q ∷ rs)) (comma ++ s))

write_string-join :
    (s : Text) (rs : List Text) → Named rs → write_string s (join rs) ≡ join (rs ++ s ∷ [])
unfolding write_string join
write_string-join s [] h = refl
write_string-join s (r ∷ rs) h =
    write_string-named s (join (r ∷ rs)) (join-Named r rs h) ∙ sym (join-snoc r rs s)

write_string_prefix-join :
    (s : Text) (rs : List Text)
    → s ≢ []
    → Named rs
    → write_string_prefix s (join rs) ≡ join (s ∷ rs)
unfolding write_string_prefix join
write_string_prefix-join s [] n h = refl
write_string_prefix-join s (r ∷ rs) n h =
    write_string_prefix-named s (join (r ∷ rs)) (join-Named r rs h)
    ∙ write_string-named (join (r ∷ rs)) s n

write_all-join :
    (ws : List Write) (rs : List Text)
    → AreNamed ws
    → Named rs
    → write_all ws (join rs) ≡ join (arrange ws rs)
unfolding write_all
write_all-join [] rs h k = refl
write_all-join (back s ∷ ws) rs h k =
    ap (write_all ws) (write_string-join s rs k)
    ∙ write_all-join ws (rs ++ s ∷ []) h.1 (All-append (λ r. r ≢ []) rs (s ∷ []) k (h.0, tt))
write_all-join (front s ∷ ws) rs h k =
    ap (write_all ws) (write_string_prefix-join s rs h.0 k)
    ∙ write_all-join ws (s ∷ rs) h.1 (h.0, k)

-- If every reason is non-empty, then the text of any sequence of writes to a new writer is the
-- reasons joined by commas, those written at the back behind and those at the front before what
-- was there.
pub write_all-arrange : (ws : List Write) → AreNamed ws → write_all ws [] ≡ join (arrange ws [])
unfolding join
write_all-arrange ws h = write_all-join ws [] h tt
