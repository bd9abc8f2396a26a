-- ===== src/Wql/Chars.antt =====
-- runtime/src/wql/parser.rs: the characters of the input of `tokenize`, as the code walks over them.
use Prim.Native.String.{String, [], ◌∷◌}
use Prim.Native.Char.{Char, code}
use agentic_vision.Prelude.{
  ℕ, suc, ◌≤◌, ◌≡◌, ap, Option, none, some, Bool, true, false, arith, ◌&&◌, leb, ◌==◌, ◌||◌,
  if◌then◌else◌,
}

unfoldable pub chars : String → ℕ
chars [] = 0
chars (c ∷ s) = suc (chars s)

-- `chars[i]` and what is behind it.
abbrev pub uncons : String → Option (Char × String)
uncons [] = none
uncons (c ∷ s) = some (c, s)

abbrev pub one_char : Char → String
one_char c = c ∷ []

abbrev pub push_front : Char → String → String
push_front c s = c ∷ s

-- `while i < chars.len() && p(chars[i])`: what was walked over, and the rest.
unfoldable pub take_while : (Char → Bool) → String → String × String
take_while p [] = ([], [])
take_while p (c ∷ s) =
    let later = take_while p s in if p c then (c ∷ later.0, later.1) else ([], c ∷ s)

abbrev pub is_ascii_digit : Char → Bool
is_ascii_digit c = leb 48 (code c) && leb (code c) 57

abbrev pub starts_with_digit : String → Bool
starts_with_digit [] = false
starts_with_digit (c ∷ s) = is_ascii_digit c

-- `<`, `>`, `!` and `=`.
abbrev pub is_operator : Char → Bool
is_operator c = code c == 60 || (code c == 62 || (code c == 33 || code c == 61))

pub uncons-chars :
    (s : String) (c : Char) (rest : String) → uncons s ≡ some (c, rest) → chars s ≡ suc (chars rest)
unfolding chars
uncons-chars [] c rest h = absurd (cc h)
uncons-chars (d ∷ s) c rest h = ap (λ t. suc (chars t)) (cc h)

pub take_while-le : (p : Char → Bool) (s : String) → chars (take_while p s).1 ≤ chars s
unfolding chars take_while
take_while-le p [] = omega arith
take_while-le p (c ∷ s) = ground (arith, take_while-le p s)

-- A walk that passes its first character leaves less.
pub take_while_first :
    (p : Char → Bool) (c : Char) (s : String)
    → p c ≡ true
    → chars (take_while p (push_front c s)).1 ≤ chars s
unfolding take_while
take_while_first p c s h = rw h (take_while-le p s)
