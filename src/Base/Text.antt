-- ===== src/Base/Text.antt =====
-- Equality of texts as a Boolean, and what the program uses of Go's `strings`.
use Prim.Native.Nat.{ℕ, ◌+◌}
use Prim.Native.Char.{code}
use Prim.Native.String.{String}
use mathlib.Core.Path.{◌≡◌, refl}
use mathlib.Core.Logic.{◌↔◌, ◌≢◌}
use mathlib.Core.Bool.{Bool, true, false, ◌&&◌, ◌||◌}
use mathlib.Core.List.{List, [], ◌∷◌}
use native.Mathlib.Omega.{arith}
use text.Mathlib.Text.{◌==◌}
use package.pratc.Base.Tests.{leb, ◌==◌ as nat_eq, if◌then◌else◌}
use text.Mathlib.TextEquality.{eq_iff}

abbrev pub str_eq : String → String → Bool
str_eq s t = s == t

pub str_eq_iff : (s t : String) → (str_eq s t ≡ true) ↔ (s ≡ t)
str_eq_iff s t = eq_iff s t

pub str_eq_refl : (s : String) → str_eq s s ≡ true
str_eq_refl s = (eq_iff s s).1 (λ i. s)

pub str_eq-false : (s t : String) → s ≢ t → str_eq s t ≡ false
str_eq-false s t h = ground (arith, eq_iff s t)

-- Whether a text occurs in a list.
unfoldable pub str_elem : String → List String → Bool
str_elem s [] = false
str_elem s (t ∷ ts) = elim (str_eq t s) [ true ↦ true | false ↦ str_elem s ts ]

-- `unicode.IsSpace`.
unfoldable pub is_space : ℕ → Bool
is_space c =
    (leb 9 c && leb c 13)
    || nat_eq c 32
    || nat_eq c 0x85
    || nat_eq c 0xa0
    || nat_eq c 0x1680
    || (leb 0x2000 c && leb c 0x200a)
    || nat_eq c 0x2028
    || nat_eq c 0x2029
    || nat_eq c 0x202f
    || nat_eq c 0x205f
    || nat_eq c 0x3000

unfoldable pub trim_left : String → String
trim_left String.[] = String.[]
trim_left (String.◌∷◌ c s) =
    let rest = trim_left s in if is_space (code c) then rest else String.◌∷◌ c s

abbrev keep_unless_space : Bool → String → String → String
keep_unless_space true String.[] whole = String.[]
keep_unless_space _ rest whole = whole

unfoldable pub trim_right : String → String
trim_right String.[] = String.[]
trim_right (String.◌∷◌ c s) =
    let rest = trim_right s in keep_unless_space (is_space (code c)) rest (String.◌∷◌ c rest)

-- `strings.TrimSpace`.
unfoldable pub trim_space : String → String
unfolding is_space trim_left trim_right
trim_space s = trim_right (trim_left s)

-- The lower case of an ASCII letter.
abbrev lower_ascii : ℕ → ℕ
lower_ascii c = if leb 65 c && leb c 90 then c + 32 else c

-- `unicode.ToLower`, up to letters whose lower case is outside ASCII: it takes the Kelvin sign to k and
-- the dotted capital I to i.
abbrev lower_code : ℕ → ℕ
lower_code c = if nat_eq c 0x212a then 107 else if nat_eq c 0x130 then 105 else lower_ascii c

-- The code points of `strings.ToLower(s)`.
unfoldable pub to_lower : String → List ℕ
to_lower String.[] = []
to_lower (String.◌∷◌ c s) = lower_code (code c) ∷ to_lower s

unfoldable pub codes_eq : List ℕ → List ℕ → Bool
codes_eq [] [] = true
codes_eq (a ∷ as') (b ∷ bs) = nat_eq a b && codes_eq as' bs
codes_eq _ _ = false

-- `strings.ToLower(s) == strings.ToLower(word)`.
unfoldable pub same_lower : String → String → Bool
unfolding to_lower codes_eq
same_lower s word = codes_eq (to_lower s) (to_lower word)

-- `strings.HasPrefix` on code points.
unfoldable pub has_prefix : List ℕ → List ℕ → Bool
has_prefix cs [] = true
has_prefix [] (b ∷ bs) = false
has_prefix (c ∷ cs) (b ∷ bs) = nat_eq c b && has_prefix cs bs

-- `strings.Contains` on code points.
unfoldable pub contains : List ℕ → List ℕ → Bool
unfolding has_prefix
contains [] word = has_prefix [] word
contains (c ∷ cs) word = has_prefix (c ∷ cs) word || contains cs word

trim_space_test : trim_space " a b  " ≡ "a b"
unfolding trim_space
trim_space_test = refl

same_lower_test : same_lower "Open" "open" ≡ true
unfolding same_lower
same_lower_test = refl

contains_test : contains (to_lower "CI Failing: lint") (to_lower "ci fail") ≡ true
unfolding contains to_lower
contains_test = refl

unfoldable pub append_text : String → String → String
append_text String.[] t = t
append_text (String.◌∷◌ c s) t = String.◌∷◌ c (append_text s t)

-- The texts one after another.
unfoldable pub concat_texts : List String → String
unfolding append_text
concat_texts [] = ""
concat_texts (s ∷ ss) = append_text s (concat_texts ss)
