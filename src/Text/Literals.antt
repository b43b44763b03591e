-- ===== src/Text/Literals.antt =====
-- Reading and writing literals: `strconv.Atoi` and the verb `%q` of package fmt.
use frp_cluster.Base.{
  ℕ, ◌+◌, ◌-◌, ◌*◌, ◌/◌, ◌%◌, Bool, ◌&&◌, ◌||◌, Option, none, some, List, [], ◌∷◌, ◌++◌, ℤ, pos,
  sub_ℕ, ltb, leb, ◌==◌, if◌then◌else◌,
}

unfoldable pub is_digit : ℕ → Bool
is_digit c = leb b'0' c && leb c b'9'

-- the number that decimal digits spell behind `n`
unfoldable pub scan : List ℕ → ℕ → Option ℕ
unfolding is_digit
scan [] n = some n
scan (c ∷ cs) n = let rest = scan cs (n * 10 + (c - b'0')) in if is_digit c then rest else none

unfoldable pub digits_value : List ℕ → Option ℕ
unfolding scan
digits_value [] = none
digits_value (c ∷ cs) = scan (c ∷ cs) 0

-- an `int64`
unfoldable pub signed_value : Bool → Option ℕ → Option ℤ
signed_value minus none = none
signed_value minus (some n) =
    if minus
    then if leb n 9_223_372_036_854_775_808 then some (sub_ℕ 0 n) else none
    else if ltb n 9_223_372_036_854_775_808
    then some (pos n)
    else none

-- `strconv.Atoi`: `none` stands for every error
unfoldable pub atoi : List ℕ → Option ℤ
unfolding digits_value signed_value
atoi [] = none
atoi (c ∷ cs) =
    if c == b'-'
    then signed_value Bool.true (digits_value cs)
    else if c == b'+'
    then signed_value Bool.false (digits_value cs)
    else signed_value Bool.false (digits_value (c ∷ cs))

-- a hexadecimal digit
hex_digit : ℕ → ℕ
hex_digit n = if ltb n 10 then b'0' + n else b'a' + (n - 10)

-- two hexadecimal digits of a number below 256
hex_byte : ℕ → List ℕ
unfolding hex_digit
hex_byte n = hex_digit (n / 16) ∷ hex_digit (n % 16) ∷ []

letter_escape : ℕ → Option ℕ
letter_escape c =
    if c == 7
    then some b'a'
    else if c == 8
    then some b'b'
    else if c == 12
    then some b'f'
    else if c == 10
    then some b'n'
    else if c == 13
    then some b'r'
    else if c == 9
    then some b't'
    else if c == 11
    then some b'v'
    else none

escape_other : ℕ → Option ℕ → List ℕ
unfolding hex_byte
escape_other c (some letter) = b'\\' ∷ letter ∷ []
escape_other c none =
    if ltb c 0x20 || c == 0x7f
    then b'\\' ∷ b'x' ∷ hex_byte c
    else if (leb 0x80 c && leb c 0xa0) || c == 0xad
    then b'\\' ∷ b'u' ∷ b'0' ∷ b'0' ∷ hex_byte c
    else c ∷ []

-- One character between the quotes. The characters beyond Latin-1 are taken as printable.
unfoldable pub quote_char : ℕ → List ℕ
unfolding escape_other letter_escape
quote_char c = if c == b'"' || c == b'\\' then b'\\' ∷ c ∷ [] else escape_other c (letter_escape c)

unfoldable pub quote_chars : List ℕ → List ℕ
unfolding quote_char
quote_chars [] = []
quote_chars (c ∷ cs) = quote_char c ++ quote_chars cs

-- `%q`
unfoldable pub quote : List ℕ → List ℕ
unfolding quote_chars
quote s = b'"' ∷ (quote_chars s ++ b'"' ∷ [])
