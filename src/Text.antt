-- ===== src/Text.antt =====
-- Text as the sequence of its Unicode code points, and the functions of Go's `strings` package
-- that the control plane calls. A Go string holds UTF-8: on valid text, bytewise comparison is
-- comparison of code points.
mod Trim
mod Parts
mod Literals
pub mod Decimals
use Prim.Native.Char.{code}
use Prim.Native.Nat.{pred}
use frp_cluster.Base.{
  ℕ, zero, suc, ◌+◌, ◌-◌, ◌/◌, ◌%◌, String, ◌≡◌, ◌≢◌, refl, ◌↔◌, Bool, true, false, not, ◌&&◌, ◌||◌,
  List, [], ◌∷◌, ◌++◌, map, ℤ, pos, negsuc, arith, ltb, leb, ◌==◌, if◌then◌else◌,
}
unfoldable pub use Trim.*
unfoldable pub use Parts.*
unfoldable pub use Literals.*

abbrev pub Text : Type 0
Text = List ℕ

-- a literal
unfoldable pub str : String → Text
str String.[] = []
str (String.◌∷◌ c s) = code c ∷ str s

-- `a == b`
unfoldable pub text_eq : Text → Text → Bool
text_eq [] [] = true
text_eq [] (y ∷ ys) = false
text_eq (x ∷ xs) [] = false
text_eq (x ∷ xs) (y ∷ ys) = let rest = text_eq xs ys in if x == y then rest else false

-- `a < b`
unfoldable pub text_lt : Text → Text → Bool
text_lt xs [] = false
text_lt [] (y ∷ ys) = true
text_lt (x ∷ xs) (y ∷ ys) =
    let rest = text_lt xs ys in if ltb x y then true else if ltb y x then false else rest

pub text_eq_refl : (s : Text) → text_eq s s ≡ true
unfolding text_eq
text_eq_refl [] = refl
text_eq_refl (x ∷ xs) = ground (arith, text_eq_refl xs)

text_eq_sound : (s t : Text) → text_eq s t ≡ true → s ≡ t
unfolding text_eq
text_eq_sound [] [] h = refl
text_eq_sound [] (y ∷ ys) h = ground arith
text_eq_sound (x ∷ xs) [] h = ground arith
text_eq_sound (x ∷ xs) (y ∷ ys) h = ground (arith, text_eq_sound xs ys)

pub text_eq_iff : (s t : Text) → (text_eq s t ≡ true) ↔ (s ≡ t)
text_eq_iff s t = (text_eq_sound s t, λ e. rw e (text_eq_refl t))

pub text_differs : (s t : Text) → s ≢ t → text_eq s t ≡ false
text_differs s t h = ground (arith, text_eq_iff s t)

-- `unicode.IsSpace`
unfoldable pub is_space : ℕ → Bool
is_space c =
    (leb 9 c && leb c 13)
    || c == 32
    || c == 0x85
    || c == 0xa0
    || c == 0x1680
    || (leb 0x2000 c && leb c 0x200a)
    || c == 0x2028
    || c == 0x2029
    || c == 0x202f
    || c == 0x205f
    || c == 0x3000

-- `unicode.ToLower` on Latin-1 and on the three other letters whose lower case is in Latin-1.
-- The letters of other scripts are left as they are.
unfoldable pub lower : ℕ → ℕ
lower c =
    if leb b'A' c && leb c b'Z'
    then c + 32
    else if leb 0xc0 c && leb c 0xde && not (c == 0xd7)
    then c + 32
    else if c == 0x130
    then b'i'
    else if c == 0x212a
    then b'k'
    else if c == 0x212b
    then 0xe5
    else c

-- `strings.ToLower`
unfoldable pub to_lower : Text → Text
unfolding lower
to_lower s = map lower s

-- `unicode.ToUpper`, on Latin-1 and on the two other letters whose upper case is in ASCII. The
-- letters of other scripts are left as they are.
unfoldable pub upper : ℕ → ℕ
upper c =
    if leb b'a' c && leb c b'z'
    then c - 32
    else if leb 0xe0 c && leb c 0xfe && not (c == 0xf7)
    then c - 32
    else if c == 0xb5
    then 0x39c
    else if c == 0xff
    then 0x178
    else if c == 0x131
    then b'I'
    else if c == 0x17f
    then b'S'
    else c

-- `strings.ToUpper`
unfoldable pub to_upper : Text → Text
unfolding upper
to_upper s = map upper s

-- `strings.TrimSpace`
unfoldable pub trim_space : Text → Text
trim_space s = trim_by is_space s

-- `strings.TrimRight(s, "/")`
unfoldable pub trim_slashes : Text → Text
trim_slashes s = trim_right_by (λ c. c == b'/') s

-- whether a text is in a list of texts; the `seen` maps of the code are such lists
unfoldable pub text_in : Text → List Text → Bool
text_in x [] = false
text_in x (y ∷ ys) = text_eq y x || text_in x ys

-- `%d` on a number that is not negative
decimal_from : ℕ → ℕ → Text → Text
decimal_from zero n out = out
decimal_from (suc fuel) n out =
    let digit = b'0' + n % 10 in
    let more = decimal_from fuel (n / 10) (digit ∷ out) in if ltb n 10 then digit ∷ out else more

unfoldable pub decimal : ℕ → Text
unfolding decimal_from
decimal n = decimal_from (suc n) n []

-- `%d`, `strconv.Itoa`, `strconv.FormatInt`
unfoldable pub int_text : ℤ → Text
unfolding decimal
int_text (pos n) = decimal n
int_text (negsuc n) = b'-' ∷ decimal (suc n)
