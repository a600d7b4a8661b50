-- ===== src/Nlu/Words.antt =====
-- packages/nlu/src/twinvoice_nlu/slots.py: `parse_asset`, with its tables.
-- The words of a text, `normalise(text).split()`, are a parameter.
use digital_twin.Prelude.{
  String, Bool, false, Option, none, some, List, [], ◌∷◌, ◌||◌, if◌then◌else◌,
}
use Prim.Native.String.{◌++◌ as str_append}
use text.Mathlib.Text.{◌==◌ as str_eq}

-- _ASSET_NOISE
abbrev asset_noise : List String
asset_noise =
    "the" ∷ "a" ∷ "an" ∷ "machine" ∷ "asset" ∷ "ka" ∷ "ki" ∷ "ke" ∷ "wala" ∷ "wali" ∷ "pe" ∷ "par"
    ∷ []

-- NUMBER_WORDS, with the numbers as str gives them
abbrev number_words : List (String × String)
number_words =
    ("zero", "0")
    ∷ ("one", "1")
    ∷ ("two", "2")
    ∷ ("three", "3")
    ∷ ("four", "4")
    ∷ ("five", "5")
    ∷ ("six", "6")
    ∷ ("seven", "7")
    ∷ ("eight", "8")
    ∷ ("nine", "9")
    ∷ ("ten", "10")
    ∷ ("eleven", "11")
    ∷ ("twelve", "12")
    ∷ ("twenty", "20")
    ∷ ("thirty", "30")
    ∷ ("forty", "40")
    ∷ ("fifty", "50")
    ∷ ("sixty", "60")
    ∷ ("seventy", "70")
    ∷ ("eighty", "80")
    ∷ ("ninety", "90")
    ∷ ("ek", "1")
    ∷ ("do", "2")
    ∷ ("teen", "3")
    ∷ ("char", "4")
    ∷ ("chaar", "4")
    ∷ ("paanch", "5")
    ∷ ("panch", "5")
    ∷ ("chhe", "6")
    ∷ ("saat", "7")
    ∷ ("aath", "8")
    ∷ ("nau", "9")
    ∷ ("das", "10")
    ∷ []

unfoldable pub is_in : String → List String → Bool
is_in t [] = false
is_in t (w ∷ ws) = str_eq w t || is_in t ws

-- str(NUMBER_WORDS[t]) if t in NUMBER_WORDS else t
unfoldable pub numeral_or : List (String × String) → String → String
numeral_or [] t = t
numeral_or ((w, n) ∷ table) t = if str_eq w t then n else numeral_or table t

unfoldable pub without_noise : List String → List String
unfolding is_in
without_noise [] = []
without_noise (t ∷ ts) =
    let rest = without_noise ts in if is_in t asset_noise then rest else t ∷ rest

-- " ".join of the words, as numerals
unfoldable pub join_words : String → List String → String
unfolding numeral_or
join_words first [] = numeral_or number_words first
join_words first (t ∷ ts) =
    str_append (numeral_or number_words first) (str_append " " (join_words t ts))

unfoldable pub joined : List String → Option String
unfolding join_words
joined [] = none
joined (t ∷ ts) = some (join_words t ts)

unfoldable pub parse_asset : (String → List String) → String → Option String
unfolding without_noise joined
parse_asset words text = if str_eq text "" then none else joined (without_noise (words text))
