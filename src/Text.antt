-- ===== src/Text.antt =====
-- The operations of Python's `str` that the program uses, on native strings.

use Prim.Native.Char.{Char, code}
use Prim.Native.String
use Prim.Native.String.{[], ◌∷◌}
use robo_control.Prelude.{
  ℕ, String, Bool, true, false, ◌&&◌, ◌||◌, Option, none, some, List, leb, ◌==◌, ◌+◌, if◌then◌else◌,
  ◌≡◌, refl,
}

-- An f-string or a `+` chain: its pieces put together.
abbrev pub concat : List String → String
concat List.[] = ""
concat (List.◌∷◌ s ss) = String.◌++◌ s (concat ss)

-- `not s`
abbrev pub is_empty : String → Bool
is_empty [] = true
is_empty (_ ∷ _) = false

-- `s or default`, for an optional text.
abbrev pub or_text : Option String → String → String
or_text none default = default
or_text (some s) default = if is_empty s then default else s

-- The white space that `str.strip` removes.
unfoldable pub is_space : Char → Bool
is_space c =
    let n = code c in
    (leb 9 n && leb n 13)
    || (leb 28 n && leb n 32)
    || n == 0x85
    || n == 0xa0
    || n == 0x1680
    || (leb 0x2000 n && leb n 0x200a)
    || n == 0x2028
    || n == 0x2029
    || n == 0x202f
    || n == 0x205f
    || n == 0x3000

unfoldable pub lstrip : String → String
unfolding is_space
lstrip [] = []
lstrip (c ∷ s) = let rest = lstrip s in if is_space c then rest else c ∷ s

unfoldable pub rstrip : String → String
unfolding is_space
rstrip [] = []
rstrip (c ∷ s) = let rest = rstrip s in if is_space c && is_empty rest then [] else c ∷ rest

-- `s.strip()`
unfoldable pub strip : String → String
unfolding lstrip rstrip
strip s = rstrip (lstrip s)

-- `s.startswith(p)`, with the prefix first.
unfoldable pub starts_with : String → String → Bool
starts_with [] s = true
starts_with (c ∷ p) [] = false
starts_with (c ∷ p) (d ∷ s) = code c == code d && starts_with p s

-- `sub in s`
unfoldable pub contains : String → String → Bool
unfolding starts_with
contains sub [] = is_empty sub
contains sub (c ∷ s) = starts_with sub (c ∷ s) || contains sub s

-- `s.split(ch, 1)[0]`: what stands before the first `ch`, the whole text where there is none.
unfoldable pub before : ℕ → String → String
before ch [] = []
before ch (c ∷ s) = let rest = before ch s in if code c == ch then [] else c ∷ rest

-- `s.rstrip("/")`
unfoldable pub rstrip_slash : String → String
rstrip_slash [] = []
rstrip_slash (c ∷ s) =
    let rest = rstrip_slash s in if code c == b'/' && is_empty rest then [] else c ∷ rest

-- `s[:n]`
unfoldable pub take : ℕ → String → String
take ℕ.zero s = []
take (ℕ.suc n) [] = []
take (ℕ.suc n) (c ∷ s) = c ∷ take n s

-- `len(s)`
unfoldable pub text_length : String → ℕ
text_length [] = ℕ.zero
text_length (_ ∷ s) = ℕ.suc (text_length s)

-- The capital of an ASCII letter.
upper_from : ℕ → Char → List (ℕ × Char) → Char
upper_from n c List.[] = c
upper_from n c (List.◌∷◌ (k, capital) rest) = if n == k then capital else upper_from n c rest

abbrev capitals : List (ℕ × Char)
capitals =
    List.◌∷◌ (b'a', "A")
      (List.◌∷◌ (b'b', "B")
        (List.◌∷◌ (b'c', "C")
          (List.◌∷◌ (b'd', "D")
            (List.◌∷◌ (b'e', "E")
              (List.◌∷◌ (b'f', "F")
                (List.◌∷◌ (b'g', "G")
                  (List.◌∷◌ (b'h', "H")
                    (List.◌∷◌ (b'i', "I")
                      (List.◌∷◌ (b'j', "J")
                        (List.◌∷◌ (b'k', "K")
                          (List.◌∷◌ (b'l', "L")
                            (List.◌∷◌ (b'm', "M")
                              (List.◌∷◌ (b'n', "N")
                                (List.◌∷◌ (b'o', "O")
                                  (List.◌∷◌ (b'p', "P")
                                    (List.◌∷◌ (b'q', "Q")
                                      (List.◌∷◌ (b'r', "R")
                                        (List.◌∷◌ (b's', "S")
                                          (List.◌∷◌ (b't', "T")
                                            (List.◌∷◌ (b'u', "U")
                                              (List.◌∷◌ (b'v', "V")
                                                (List.◌∷◌ (b'w', "W")
                                                  (List.◌∷◌ (b'x', "X")
                                                    (List.◌∷◌ (b'y', "Y")
                                                      (List.◌∷◌ (b'z', "Z")
                                                        List.[])))))))))))))))))))))))))

-- `s.upper()`; letters outside ASCII are left as they are.
unfoldable pub upper : String → String
unfolding upper_from
upper [] = []
upper (c ∷ s) = upper_from (code c) c capitals ∷ upper s

upper_post : upper "post" ≡ "POST"
unfolding upper
upper_post = refl

-- `str.isascii`
unfoldable pub is_ascii : String → Bool
is_ascii [] = true
is_ascii (c ∷ s) = let rest = is_ascii s in leb (code c) 127 && rest

-- The bytes of a character and of a text in UTF-8.
char_bytes : Char → ℕ
char_bytes c =
    let n = code c in
    if leb n 0x7f then 1 else if leb n 0x7ff then 2 else if leb n 0xffff then 3 else 4

unfoldable pub byte_length : String → ℕ
unfolding char_bytes
byte_length [] = 0
byte_length (c ∷ s) = char_bytes c + byte_length s
