-- ===== src/Text.antt =====
-- The methods of Python's `str` that the platform calls, on texts as lists of code points. Digits and
-- letters are those of ASCII.
pub mod Strip
pub mod Split
use forge_ci_cd_platform.Base.{
  ℕ, ◌+◌, ◌-◌, ◌*◌, ◌/◌, ◌%◌, List, [], ◌∷◌, ◌++◌, Option, none, some, Bool, true, false, not, ◌&&◌,
  ◌||◌, Str, ◌==◌, eqb, ltb, leb, if◌then◌else◌, all, zero, suc, length,
}

-- The code points that `str.isspace` accepts.
abbrev pub is_space : ℕ → Bool
is_space c =
    (leb 9 c && leb c 13)
    || ((leb 28 c && leb c 32)
        || (eqb c 0x85
            || (eqb c 0xa0
                || (eqb c 0x1680
                    || ((leb 0x2000 c && leb c 0x200a)
                        || (eqb c 0x2028
                            || (eqb c 0x2029
                                || (eqb c 0x202f || (eqb c 0x205f || eqb c 0x3000)))))))))

abbrev pub is_nil {ℓ} : {A : Type ℓ} → List A → Bool
is_nil [] = true
is_nil (x ∷ xs) = false

-- `s[n:]`
abbrev pub drop : ℕ → Str → Str
drop zero s = s
drop (suc n) [] = []
drop (suc n) (c ∷ s) = drop n s

pub lstrip : Str → Str
lstrip [] = []
lstrip (c ∷ s) = let rest = lstrip s in if is_space c then rest else c ∷ s

pub rstrip : Str → Str
rstrip [] = []
rstrip (c ∷ s) = let rest = rstrip s in if is_space c && is_nil rest then [] else c ∷ rest

-- `s.strip()`
unfoldable pub strip : Str → Str
unfolding lstrip rstrip
strip s = rstrip (lstrip s)

-- `s.startswith(t)`
abbrev pub starts_with : Str → Str → Bool
starts_with s [] = true
starts_with [] (d ∷ t) = false
starts_with (c ∷ s) (d ∷ t) = eqb c d && starts_with s t

-- `t in s`
abbrev pub has_substring : Str → Str → Bool
has_substring t [] = is_nil t
has_substring t (c ∷ s) = starts_with (c ∷ s) t || has_substring t s

-- `c in s`, for a character
abbrev pub has_char : ℕ → Str → Bool
has_char c [] = false
has_char c (d ∷ s) = eqb d c || has_char c s

-- `s.endswith(t)`
abbrev pub ends_with : Str → Str → Bool
ends_with [] t = is_nil t
ends_with (c ∷ s) t = (c ∷ s) == t || ends_with s t

-- `s[:-n]`, for a positive `n`
abbrev pub drop_last : ℕ → Str → Str
drop_last n [] = []
drop_last n (c ∷ s) = let rest = drop_last n s in if ltb (length s) n then [] else c ∷ rest

-- `s.split(c, 1)`: the part before the first `c`, and the part after it if there is one
unfoldable pub split_once : ℕ → Str → Str × Option Str
split_once c [] = ([], none)
split_once c (d ∷ s) =
    let (before, after) = split_once c s in if eqb d c then ([], some s) else (d ∷ before, after)

abbrev pub cons_head : ℕ → List Str → List Str
cons_head c [] = (c ∷ []) ∷ []
cons_head c (s ∷ ss) = (c ∷ s) ∷ ss

-- `s.split(c)`
unfoldable pub split_on : ℕ → Str → List Str
split_on c [] = [] ∷ []
split_on c (d ∷ s) = let rest = split_on c s in if eqb d c then [] ∷ rest else cons_head d rest

-- The pieces of `s.split()`, with the piece that is being read in front.
words_from : Str → Str → List Str
words_from piece [] = if is_nil piece then [] else piece ∷ []
words_from piece (c ∷ s) =
    let ended = words_from [] s in
    let longer = words_from (piece ++ c ∷ []) s in
    if is_space c then (if is_nil piece then ended else piece ∷ ended) else longer

-- `s.split()`
unfoldable pub split_words : Str → List Str
unfolding words_from
split_words s = words_from [] s

abbrev pub is_digit : ℕ → Bool
is_digit c = leb b'0' c && leb c b'9'

-- `s.isdigit()`
abbrev pub all_digits : Str → Bool
all_digits s = not (is_nil s) && all is_digit s

-- The value of decimal digits; an underscore may stand between two of them.
int_from : ℕ → Bool → Str → Option ℕ
int_from acc after_digit [] = if after_digit then some acc else none
int_from acc after_digit (c ∷ s) = elim (is_digit c) [
  | true ↦ int_from (acc * 10 + (c - b'0')) true s
  | false ↦ elim (eqb c b'_' && after_digit) [ true ↦ int_from acc false s | false ↦ none ]
]

-- `int(s)`, for a text without a sign; `none` is a ValueError
unfoldable pub int : Str → Option ℕ
unfolding strip int_from
int s = int_from 0 false (strip s)

-- `s.replace(t, "")` for a `t` that is not empty, where the first `skip` characters belong to an
-- occurrence already found.
remove_from : ℕ → Str → Str → Str
remove_from skip t [] = []
remove_from (suc skip) t (c ∷ s) = remove_from skip t s
remove_from zero t (c ∷ s) =
    let inside = remove_from (length t - 1) t s in
    let outside = remove_from 0 t s in if starts_with (c ∷ s) t then inside else c ∷ outside

-- `s.replace(t, "")`
unfoldable pub remove : Str → Str → Str
unfolding remove_from
remove t s = remove_from 0 t s

decimal_from : ℕ → ℕ → Str → Str
decimal_from zero n digits = digits
decimal_from (suc fuel) n digits =
    let more = (b'0' + n % 10) ∷ digits in
    let rest = decimal_from fuel (n / 10) more in if ltb n 10 then more else rest

-- `str(n)`: a number has no more digits than its successor counts.
unfoldable pub decimal : ℕ → Str
unfolding decimal_from
decimal n = decimal_from (suc n) n []
