-- ===== src/Base/Bytes.antt =====
-- C strings as lists of bytes without the zero at their end, and what libc does with them.
use Prim.Native.Char.{code}
use Prim.Native.String.{String}
use operating_systems_wet.Base.{
  ℕ, ◌+◌, Bool, true, false, ◌&&◌, ◌||◌, leb, ◌==◌, if◌then◌else◌, List, [], ◌∷◌, map, Option, none,
  some,
}

-- The bytes of a literal, which are its characters where it is ASCII.
abbrev pub codes : String → List ℕ
codes String.[] = []
codes (String.◌∷◌ c s) = code c ∷ codes s

-- A buffer as a C string: the bytes before the first zero.
abbrev pub c_string : List ℕ → List ℕ
c_string [] = []
c_string (b ∷ bs) = if b == 0 then [] else b ∷ c_string bs

-- `strcmp(s, t) == 0`.
abbrev pub same_text : List ℕ → List ℕ → Bool
same_text [] [] = true
same_text [] (b ∷ t) = false
same_text (a ∷ s) [] = false
same_text (a ∷ s) (b ∷ t) = a == b && same_text s t

-- `tolower`, in the C locale.
abbrev pub lower : ℕ → ℕ
lower c = if leb b'A' c && leb c b'Z' then c + 32 else c

-- `strcasecmp(s, t) == 0`.
abbrev pub same_letters : List ℕ → List ℕ → Bool
same_letters s t = same_text (map lower s) (map lower t)

abbrev pub starts_with : List ℕ → List ℕ → Bool
starts_with s [] = true
starts_with [] (b ∷ t) = false
starts_with (a ∷ s) (b ∷ t) = a == b && starts_with s t

-- `strstr(s, t) != NULL`.
abbrev pub strstr : List ℕ → List ℕ → Bool
strstr [] t = starts_with [] t
strstr (a ∷ s) t = starts_with (a ∷ s) t || strstr s t

-- `isspace`, in the C locale.
abbrev pub is_space : ℕ → Bool
is_space c = c == b' ' || (leb 9 c && leb c 13)

abbrev pub skip_space : List ℕ → List ℕ
skip_space [] = []
skip_space (c ∷ s) = if is_space c then skip_space s else c ∷ s

-- The bytes up to white space, and from there on.
abbrev pub word : List ℕ → List ℕ
word [] = []
word (c ∷ s) = if is_space c then [] else c ∷ word s

abbrev pub after_word : List ℕ → List ℕ
after_word [] = []
after_word (c ∷ s) = if is_space c then c ∷ s else after_word s

-- `%s` of `sscanf`: white space is skipped, and a word must follow.
abbrev pub scan_word : List ℕ → Option (List ℕ × List ℕ)
scan_word s = elim (word (skip_space s)) [
  | [] ↦ none
  | c ∷ w ↦ some (c ∷ w, after_word (skip_space s))
]
