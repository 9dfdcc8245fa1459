-- ===== src/Policy/Paths/Glob.antt =====
-- packages/policy/src/paths.ts, the glob engine. `globToRegExp` writes the source of a regular
-- expression; here the source is the list of its parts, and `test` is what the expression of these
-- parts matches from `^` to `$`.
pub mod Lines
use qwen_harness.Prelude.{
  ℕ, zero, suc, Bool, true, false, not, ◌&&◌, ◌||◌, List, [], ◌∷◌, reverse, Text, str, starts_with,
  text_eq, is_empty, if◌then◌else◌, ◌==◌, ◌≡◌, refl,
}

pub data Flavor : Type 0 where
  path text : Flavor

pub data Part : Type 0 where
  -- one escaped character
  lit : ℕ → Part
  -- `[^/]*`
  segment : Part
  -- `[^/]`
  segment_char : Part
  -- `.*`
  dot_star : Part
  -- `.`
  dot : Part
  -- `(?:[^/]*/)*`
  dirs : Part
  -- `(?:/.*)?`
  subtree : Part

-- `source.endsWith('/')`: of the parts only a literal `/` ends so. The parts are kept in reverse.
abbrev ends_with_slash : List Part → Bool
ends_with_slash (lit c ∷ source) = c == b'/'
ends_with_slash _ = false

abbrev star : Flavor → Part
star Flavor.path = segment
star Flavor.text = dot_star

abbrev question : Flavor → Part
question Flavor.path = segment_char
question Flavor.text = dot

abbrev star_star_slash : Flavor → Part
star_star_slash Flavor.path = dirs
star_star_slash Flavor.text = dot_star

abbrev is_path : Flavor → Bool
is_path Flavor.path = true
is_path Flavor.text = false

abbrev drop_last : List Part → List Part
drop_last [] = []
drop_last (p ∷ source) = source

-- What one round of the loop does at a `*` that `rest` follows: the new source, and by how much more
-- than one `i` grows.
at_star : Flavor → List Part → Text → List Part × ℕ
at_star flavor source rest =
    if starts_with rest (str "*")
    then if starts_with rest (str "*/")
      then (star_star_slash flavor ∷ source, 2)
      else if is_path flavor && text_eq rest (str "*") && ends_with_slash source
      then (subtree ∷ drop_last source, 1)
      else (dot_star ∷ source, 1)
    else (star flavor ∷ source, 0)

at_char : Flavor → List Part → ℕ → Text → List Part × ℕ
unfolding at_star
at_char flavor source c rest =
    if c == b'*'
    then at_star flavor source rest
    else if c == b'?'
    then (question flavor ∷ source, 0)
    else (lit c ∷ source, 0)

-- The loop. `skip` characters are still to be passed over.
compile_from : Flavor → List Part → ℕ → Text → List Part
compile_from flavor source skip [] = reverse source
compile_from flavor source (suc skip) (c ∷ rest) = compile_from flavor source skip rest
compile_from flavor source zero (c ∷ rest) =
    let (source', skip) = at_char flavor source c rest in compile_from flavor source' skip rest

unfoldable pub glob_to_reg_exp : Text → Flavor → List Part
unfolding compile_from at_char
glob_to_reg_exp pattern flavor = compile_from flavor [] 0 pattern

-- `.` does not match these.
unfoldable pub is_line_terminator : ℕ → Bool
is_line_terminator c = c == 10 || c == 13 || c == 0x2028 || c == 0x2029

module _ (rest : Text → Bool) where
  -- Zero or more characters of a class, then `rest`.
  run_star : (ℕ → Bool) → Text → Bool
  run_star class [] = rest []
  run_star class (c ∷ s) = rest (c ∷ s) || class c && run_star class s

  -- `rest` after some `/` of the text.
  after_slash : Text → Bool
  after_slash [] = false
  after_slash (c ∷ s) = c == b'/' && rest s || after_slash s

  run_one : (ℕ → Bool) → Text → Bool
  run_one class [] = false
  run_one class (c ∷ s) = class c && rest s

run : Part → (Text → Bool) → Text → Bool
run (lit c) rest s = run_one rest (λ d. d == c) s
run segment rest s = run_star rest (λ d. not (d == b'/')) s
run segment_char rest s = run_one rest (λ d. not (d == b'/')) s
run dot_star rest s = run_star rest (λ d. not (is_line_terminator d)) s
run dot rest s = run_one rest (λ d. not (is_line_terminator d)) s
run dirs rest s = rest s || after_slash rest s
run subtree rest s =
    rest s || run_one (run_star rest (λ d. not (is_line_terminator d))) (λ d. d == b'/') s

-- `new RegExp(`^${source}$`).test(value)`
unfoldable pub test : List Part → Text → Bool
unfolding run run_star run_one after_slash is_line_terminator
test [] s = is_empty s
test (p ∷ parts) s = run p (test parts) s

-- The cache holds the expression that it was given the pattern of, so a lookup is the compilation.
unfoldable pub match_glob : Text → Text → Bool
unfolding glob_to_reg_exp test
match_glob pattern value = test (glob_to_reg_exp pattern path) value

unfoldable pub match_text_glob : Text → Text → Bool
unfolding glob_to_reg_exp test
match_text_glob pattern value = test (glob_to_reg_exp pattern text) value

glob_tests :
    (match_glob (str "/etc/**") (str "/etc") ≡ true)
    × (match_glob (str "/etc/**") (str "/etc/a/b") ≡ true)
    × (match_glob (str "/etc/**") (str "/etcx") ≡ false)
    × (match_glob (str "**/.env.*") (str "/w/x/.env.local") ≡ true)
    × (match_glob (str "**/*.pem") (str "/w/x/key.pem") ≡ true)
    × (match_glob (str "/a/*") (str "/a/b/c") ≡ false)
    × (match_text_glob (str "rm *") (str "rm -rf /") ≡ true)
unfolding match_glob match_text_glob str starts_with text_eq
glob_tests = (refl, refl, refl, refl, refl, refl, refl)
