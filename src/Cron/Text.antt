-- ===== src/Cron/Text.antt =====
-- lib/services/cronPhrase.ts: the texts of numbers and the parts of an expression.
use Prim.Native.Char.{Char, code}
use Prim.Native.String
use pagespeed_auditor.Run.Scope.{is_space}
use pagespeed_auditor.Prelude.{
  ℕ, zero, suc, ◌+◌, ◌-◌, ◌*◌, ◌/◌, ◌%◌, String, Bool, false, ◌&&◌, List, [], ◌∷◌, leb, ltb,
  if◌then◌else◌,
}

-- The character of a text at a place, or the given one behind its end.
unfoldable pub nth : ℕ → String → Char → Char
nth n String.[] d = d
nth zero (String.◌∷◌ c s) d = c
nth (suc n) (String.◌∷◌ c s) d = nth n s d

abbrev pub is_digit : Char → Bool
is_digit c = leb b'0' (code c) && leb (code c) b'9'

abbrev pub digit : ℕ → String
digit d = String.◌∷◌ (nth d "0123456789" "0") String.[]

-- `${n}`, in at most as many steps as the number has digits, which are no more than the fuel.
unfoldable pub spell_within : (fuel : ℕ) → ℕ → String
unfolding nth
spell_within zero n = digit (n % 10)
spell_within (suc fuel) n =
    let higher = spell_within fuel (n / 10) in
    if ltb n 10 then digit n else String.◌++◌ higher (digit (n % 10))

unfoldable pub spell : ℕ → String
unfolding spell_within
spell n = spell_within n n

-- A text of digits only, and at least one.
unfoldable pub is_digits : String → Bool
is_digits String.[] = false
is_digits (String.◌∷◌ c String.[]) = is_digit c
is_digits (String.◌∷◌ c (String.◌∷◌ d s)) = is_digit c && is_digits (String.◌∷◌ d s)

-- The number that a text of digits spells.
unfoldable pub decimal : ℕ → String → ℕ
decimal n String.[] = n
decimal n (String.◌∷◌ c s) = decimal (n * 10 + (code c - b'0')) s

-- `/^[0-6]$/`
abbrev pub is_weekday : String → Bool
is_weekday String.[] = false
is_weekday (String.◌∷◌ c String.[]) = leb b'0' (code c) && leb (code c) b'6'
is_weekday (String.◌∷◌ c (String.◌∷◌ d s)) = false

-- `/^\d{1,2}$/`
unfoldable pub is_monthday : String → Bool
is_monthday String.[] = false
is_monthday (String.◌∷◌ c String.[]) = is_digit c
is_monthday (String.◌∷◌ c (String.◌∷◌ d String.[])) = is_digit c && is_digit d
is_monthday (String.◌∷◌ c (String.◌∷◌ d (String.◌∷◌ e s))) = false

-- White space, as `\s` and `trim` take it.
abbrev pub is_white : Char → Bool
is_white c = is_space (code c)

abbrev pub word_first : String → List String → List String
word_first String.[] ws = ws
word_first (String.◌∷◌ c w) ws = String.◌∷◌ c w ∷ ws

-- The word that a text begins with, and the words behind it.
unfoldable pub split_words : String → String × List String
split_words String.[] = (String.[], [])
split_words (String.◌∷◌ c s) =
    let rest = split_words s in
    if is_white c then (String.[], word_first rest.0 rest.1) else (String.◌∷◌ c rest.0, rest.1)

abbrev no_parts : List String → List String
no_parts [] = "" ∷ []
no_parts (w ∷ ws) = w ∷ ws

-- `expr.trim().split(/\s+/)`: the words between the spaces, or the empty text if there is none.
unfoldable pub parts : String → List String
unfolding split_words
parts s = no_parts (word_first (split_words s).0 (split_words s).1)
