-- ===== src/Log/Basename.antt =====
-- The file that a log line of src/pwf_log.c names.
use Prim.Native.Char.{Char, code}
use tinypipewire.Common.{◌≡◌, refl, Bool, true, not, ◌&&◌, none, some, String, ◌==◌, arith}
use tinypipewire.Log.{after_slash, basename}

-- No slash stands in the text.
pub is_plain : String → Bool
is_plain String.[] = true
is_plain (String.◌∷◌ c s) = not (code c == 47) && is_plain s

-- A directory, the slash, and a name
abbrev pub in_directory : Char → String → String → String
in_directory slash String.[] name = String.◌∷◌ slash name
in_directory slash (String.◌∷◌ c dir) name = String.◌∷◌ c (in_directory slash dir name)

plain-after_slash : (s : String) → is_plain s ≡ true → after_slash s ≡ none
unfolding is_plain after_slash
plain-after_slash String.[] h = refl
plain-after_slash (String.◌∷◌ c s) h =
    ground (arith, h, λ (p : is_plain s ≡ true). plain-after_slash s p)

after_slash-in_directory :
    (slash : Char) (dir name : String)
    → code slash ≡ 47
    → after_slash name ≡ none
    → after_slash (in_directory slash dir name) ≡ some name
unfolding after_slash
after_slash-in_directory slash String.[] name c p = ground (arith, c, p)
after_slash-in_directory slash (String.◌∷◌ d dir) name c p =
    ground (arith, after_slash-in_directory slash dir name c p)

-- A log line names the file without its directories: of a name without a slash, the name itself, and of any
-- directory, a slash and such a name, the name.
pub basename-in_directory :
    (slash : Char) (dir name : String)
    → code slash ≡ 47
    → is_plain name ≡ true
    → (basename name ≡ name) × (basename (in_directory slash dir name) ≡ name)
unfolding basename
basename-in_directory slash dir name c p =
    let plain = plain-after_slash name p in
    ground (arith, plain, after_slash-in_directory slash dir name c plain)
