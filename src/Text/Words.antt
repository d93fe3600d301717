-- ===== src/Text/Words.antt =====
-- `strings.Split` at one character, `strings.TrimSpace`, `strings.HasSuffix`, `strings.HasPrefix`,
-- `strings.Fields` and `strings.ToUpper`.
use kube_combo.Prelude.{ℕ, String, ◌≡◌, refl, inl, inr, Bool, false, ◌&&◌, ◌||◌, List, [], ◌∷◌, map}
use kube_combo.Prelude.{if◌then◌else◌, ◌==◌, Bool-cases, leb, bool_eq, nat_eq, string_eq, option_eq}
use kube_combo.Prelude.{list_eq}
use Prim.Native.Char.{Char, code}

-- `unicode.IsSpace`
unfoldable pub is_space : ℕ → Bool
is_space c =
    (leb 9 c && leb c 13)
    || (c == 32
        || (c == 0x85
            || (c == 0xA0
                || (c == 0x1680
                    || ((leb 0x2000 c && leb c 0x200a)
                        || (c == 0x2028
                            || (c == 0x2029 || (c == 0x202f || (c == 0x205f || c == 0x3000)))))))))

unfoldable pub trim_left : String → String
unfolding is_space
trim_left String.[] = String.[]
trim_left (String.◌∷◌ c s) = if is_space (code c) then trim_left s else String.◌∷◌ c s

-- A character in front of a text that was trimmed on the right.
abbrev before_trimmed : Char → String → String
before_trimmed c String.[] = if is_space (code c) then String.[] else String.◌∷◌ c String.[]
before_trimmed c (String.◌∷◌ d s) = String.◌∷◌ c (String.◌∷◌ d s)

unfoldable pub trim_right : String → String
unfolding is_space
trim_right String.[] = String.[]
trim_right (String.◌∷◌ c s) = before_trimmed c (trim_right s)

unfoldable pub trim_space : String → String
unfolding trim_left trim_right
trim_space s = trim_right (trim_left s)

-- A character in front of the first part.
abbrev before_first : Char → List String → List String
before_first c [] = String.◌∷◌ c String.[] ∷ []
before_first c (part ∷ parts) = String.◌∷◌ c part ∷ parts

unfoldable pub split : ℕ → String → List String
split sep String.[] = String.[] ∷ []
split sep (String.◌∷◌ c s) =
    let rest = split sep s in if code c == sep then String.[] ∷ rest else before_first c rest

-- There is always a first part.
pub split-cons : (sep : ℕ) (s : String) → (x : String) × (xs : List String) × (split sep s ≡ x ∷ xs)
unfolding split
split-cons sep String.[] = (String.[], [], refl)
split-cons sep (String.◌∷◌ c s) =
    let (x, xs, e) = split-cons sep s in
    elim (Bool-cases (code c == sep)) [
      | inl here ↦ (String.[], split sep s, rw here)
      | inr not_here ↦ (String.◌∷◌ c x, xs, rw (not_here, e))
    ]

-- `strings.HasSuffix`
unfoldable pub has_suffix : String → String → Bool
has_suffix String.[] suffix = String.[] == suffix
has_suffix (String.◌∷◌ c s) suffix = String.◌∷◌ c s == suffix || has_suffix s suffix

-- `strings.HasPrefix` at one character
unfoldable pub starts_with : ℕ → String → Bool
starts_with c String.[] = false
starts_with c (String.◌∷◌ d s) = code d == c

-- A word that is not empty, in front of others.
abbrev with_word : String → List String → List String
with_word String.[] words = words
with_word (String.◌∷◌ c w) words = String.◌∷◌ c w ∷ words

-- The word at the start of a text, which may be empty, and the words behind it.
unfoldable pub first_field : String → String × List String
unfolding is_space
first_field String.[] = (String.[], [])
first_field (String.◌∷◌ c s) =
    let rest = first_field s in
    if is_space (code c)
    then (String.[], with_word rest.0 rest.1)
    else (String.◌∷◌ c rest.0, rest.1)

-- `strings.Fields`
unfoldable pub fields : String → List String
unfolding first_field
fields s = let parts = first_field s in with_word parts.0 parts.1

-- The letter of the second alphabet at the place of the letter of the first.
convert : String → String → Char → Char
convert (String.◌∷◌ a as1) (String.◌∷◌ b bs) c = if code c == code a then b else convert as1 bs c
convert _ _ c = c

-- On ASCII texts, which the validated protocols are.
unfoldable pub to_upper : String → String
unfolding convert
to_upper String.[] = String.[]
to_upper (String.◌∷◌ c s) =
    String.◌∷◌ (convert "abcdefghijklmnopqrstuvwxyz" "ABCDEFGHIJKLMNOPQRSTUVWXYZ" c) (to_upper s)

upper_udp : to_upper "udp" ≡ "UDP"
unfolding to_upper nat_eq
upper_udp = refl

split_trimmed : map trim_space (split b':' " node : worker ") ≡ "node" ∷ "worker" ∷ []
unfolding split trim_space nat_eq
split_trimmed = refl

fields_two : fields " -c  3 " ≡ "-c" ∷ "3" ∷ []
unfolding fields first_field is_space nat_eq
fields_two = refl
