-- ===== src/Base/Text.antt =====
-- What the program uses of Go's package strings: `Fields` and `Join`. A Go string is a `String`.
use Prim.Native.Nat.{ℕ, suc}
use Prim.Native.Char.{Char, code}
use Prim.Native.String.{String, ◌++◌}
use text.Mathlib.TextLemmas.{nil-append, cons-append}
use mathlib.Core.Path.{◌≡◌, refl, sym, ap, ◌∙◌}
use mathlib.Core.Bool.{Bool, true, false, not, ◌&&◌, ◌||◌}
use mathlib.Core.Logic.{inl, inr}
use mathlib.Core.List.{List, [], ◌∷◌}
use native.Mathlib.Omega.{arith}
use legant.Base.Tests.{leb, nat_beq, Bool-cases, if◌then◌else◌}
use legant.Base.Lists.{All}

-- unicode.IsSpace
unfoldable pub is_space : Char → Bool
is_space c =
    let n = code c in
    (leb 9 n && leb n 13)
    || nat_beq n 32
    || nat_beq n 133
    || nat_beq n 160
    || nat_beq n 5760
    || (leb 8192 n && leb n 8202)
    || nat_beq n 8232
    || nat_beq n 8233
    || nat_beq n 8239
    || nat_beq n 8287
    || nat_beq n 12288

abbrev pub cons_to_head : Char → List String → List String
cons_to_head c [] = (String.◌∷◌ c String.[]) ∷ []
cons_to_head c (w ∷ ws) = (String.◌∷◌ c w) ∷ ws

-- `c` stands before `s`, whose words are `ws`.
unfoldable pub add_char : Char → String → List String → List String
add_char c String.[] ws = cons_to_head c []
add_char c (String.◌∷◌ d s) ws =
    if is_space d then (String.◌∷◌ c String.[]) ∷ ws else cons_to_head c ws

unfoldable pub fields : String → List String
unfolding add_char
fields String.[] = []
fields (String.◌∷◌ c s) = let ws = fields s in if is_space c then ws else add_char c s ws

unfoldable pub join : String → List String → String
join sep [] = String.[]
join sep (w ∷ []) = w
join sep (w ∷ v ∷ ws) = w ++ (sep ++ join sep (v ∷ ws))

unfoldable pub no_space : String → Bool
no_space String.[] = true
no_space (String.◌∷◌ c s) = not (is_space c) && no_space s

-- A word is not empty and holds no space.
unfoldable pub is_word : String → Bool
unfolding no_space
is_word String.[] = false
is_word (String.◌∷◌ c s) = not (is_space c) && no_space s

abbrev pub IsWord : String → Type 0
IsWord w = is_word w ≡ true

abbrev blank_char : Char
blank_char = " "

blank-append : (s : String) → " " ++ s ≡ String.◌∷◌ blank_char s
blank-append s = cons-append blank_char String.[] s ∙ ap (String.◌∷◌ blank_char) (nil-append s)

is_space-blank : is_space blank_char ≡ true
unfolding is_space
is_space-blank = refl

-- A word before a blank is the first field.
fields-word_space : (w s : String) → IsWord w → fields (w ++ (" " ++ s)) ≡ w ∷ fields s
unfolding fields is_word
fields-word_space String.[] s h = absurd (ground arith)
fields-word_space (String.◌∷◌ c String.[]) s h =
    rw (cons-append, nil-append, blank-append) (ground (arith, is_space-blank))
fields-word_space (String.◌∷◌ c (String.◌∷◌ d w)) s h =
    let rest : fields (String.◌∷◌ d (w ++ (" " ++ s))) ≡ (String.◌∷◌ d w) ∷ fields s =
      rw cons-append at (fields-word_space (String.◌∷◌ d w) s (ground arith)) in
    rw (cons-append, cons-append) (ground (arith, rest))

fields-word : (w : String) → IsWord w → fields w ≡ w ∷ []
unfolding fields is_word
fields-word String.[] h = absurd (ground arith)
fields-word (String.◌∷◌ c String.[]) h = ground arith
fields-word (String.◌∷◌ c (String.◌∷◌ d w)) h =
    ground (arith, fields-word (String.◌∷◌ d w) (ground arith))

-- Words joined by blanks split into the same words.
pub fields-join : (ws : List String) → All IsWord ws → fields (join " " ws) ≡ ws
unfolding join
fields-join [] h = unfold fields in refl
fields-join (w ∷ []) h = fields-word w h.0
fields-join (w ∷ v ∷ ws) h =
    fields-word_space w (join " " (v ∷ ws)) h.0 ∙ ap (λ l. w ∷ l) (fields-join (v ∷ ws) h.1)

cons_to_head-IsWord :
    (c : Char) (ws : List String)
    → is_space c ≡ false
    → All IsWord ws
    → All IsWord (cons_to_head c ws)
unfolding is_word
cons_to_head-IsWord c [] e h = (ground arith, tt)
cons_to_head-IsWord c (String.[] ∷ ws) e h = absurd (ground arith)
cons_to_head-IsWord c (String.◌∷◌ d w ∷ ws) e h = (ground arith, h.1)

add_char-IsWord :
    (c : Char) (s : String) (ws : List String)
    → is_space c ≡ false
    → All IsWord ws
    → All IsWord (add_char c s ws)
unfolding add_char
add_char-IsWord c String.[] ws e h = cons_to_head-IsWord c [] e tt
add_char-IsWord c (String.◌∷◌ d s) ws e h = elim (Bool-cases (is_space d)) [
  | inl blank ↦ rw blank ((cons_to_head-IsWord c [] e tt).0, h)
  | inr letter ↦ rw letter (cons_to_head-IsWord c ws e h)
]

-- Every field is a word.
pub fields-IsWord : (s : String) → All IsWord (fields s)
unfolding fields
fields-IsWord String.[] = tt
fields-IsWord (String.◌∷◌ c s) = elim (Bool-cases (is_space c)) [
  | inl blank ↦ rw blank (fields-IsWord s)
  | inr letter ↦ rw letter (add_char-IsWord c s (fields s) letter (fields-IsWord s))
]

unfoldable pub text_length : String → ℕ
text_length String.[] = 0
text_length (String.◌∷◌ c s) = suc (text_length s)

tail_eq : (c d : Char) (s t : String) → String.◌∷◌ c s ≡ String.◌∷◌ d t → s ≡ t
tail_eq c d s t h = cc

head_eq :
    (c d : Char) (s t u v : String)
    → String.◌∷◌ c s ≡ String.◌∷◌ d t
    → u ≡ v
    → String.◌∷◌ c u ≡ String.◌∷◌ d v
head_eq c d s t u v h e = cc

-- Texts that go on from prefixes of one length are equal only if the prefixes are.
pub append-injective :
    (s t u v : String) → text_length s ≡ text_length t → (s ++ u) ≡ (t ++ v) → s ≡ t
unfolding text_length
append-injective String.[] String.[] u v h e = refl
append-injective String.[] (String.◌∷◌ d t) u v h e = absurd (omega (arith, h))
append-injective (String.◌∷◌ c s) String.[] u v h e = absurd (omega (arith, h))
append-injective (String.◌∷◌ c s) (String.◌∷◌ d t) u v h e =
    let k = sym (cons-append c s u) ∙ e ∙ cons-append d t v in
    let ih = append-injective s t u v (omega (arith, h)) (tail_eq c d (s ++ u) (t ++ v) k) in
    head_eq c d (s ++ u) (t ++ v) s t k ih
