-- ===== src/Base/Path.antt =====
-- Go's `path/filepath` on Unix: `Clean`, `Join`, `Dir`, `Base` and the test that `Rel` is used for.
use Prim.Native.Char.{Char, code}
use Prim.Native.String.{◌∷◌ as cons, ◌++◌ as concat}
use Prim.Native.String as Str
use Prim.Native.String.{String}
use mathlib.Core.Bool.{Bool, true, false, not}
use mathlib.Core.List.{List, [], ◌∷◌}
use text.Mathlib.Text.{◌==◌}
use tomei.Base.Tests.{eqb, if◌then◌else◌}

abbrev push_char : Char → List String → List String
push_char c [] = cons c Str.[] ∷ []
push_char c (p ∷ ps) = cons c p ∷ ps

-- `strings.Split(s, "/")`
unfoldable pub split_slash : String → List String
split_slash Str.[] = "" ∷ []
split_slash (cons c s) =
    let rest = split_slash s in if eqb (code c) 47 then "" ∷ rest else push_char c rest

-- `strings.Join(elems, "/")`
unfoldable pub join_slash : List String → String
join_slash [] = ""
join_slash (p ∷ []) = p
join_slash (p ∷ q ∷ ps) = concat p (concat "/" (join_slash (q ∷ ps)))

-- A path of which `Clean` has met some elements, the last one first.
abbrev pub up : Bool → List String → List String
up true [] = []
up false [] = ".." ∷ []
up rooted (q ∷ met) = if q == ".." then ".." ∷ q ∷ met else met

abbrev pub clean_step : Bool → List String → String → List String
clean_step rooted met p =
    if p == "" then met else if p == "." then met else if p == ".." then up rooted met else p ∷ met

unfoldable pub clean_parts : Bool → List String → List String → List String
clean_parts rooted met [] = met
clean_parts rooted met (p ∷ ps) = clean_parts rooted (clean_step rooted met p) ps

unfoldable pub is_rooted : String → Bool
is_rooted Str.[] = false
is_rooted (cons c s) = eqb (code c) 47

abbrev pub reverse : List String → List String → List String
reverse [] acc = acc
reverse (x ∷ xs) acc = reverse xs (x ∷ acc)

-- The elements of a cleaned path.
unfoldable pub parts : String → List String
unfolding split_slash clean_parts is_rooted
parts s = reverse (clean_parts (is_rooted s) [] (split_slash s)) []

abbrev pub path_text : Bool → List String → String
path_text true ps = concat "/" (join_slash ps)
path_text false [] = "."
path_text false (p ∷ ps) = join_slash (p ∷ ps)

unfoldable pub clean : String → String
unfolding parts is_rooted join_slash
clean s = path_text (is_rooted s) (parts s)

unfoldable pub join : List String → String
unfolding clean join_slash
join [] = ""
join (p ∷ ps) = if p == "" then join ps else clean (join_slash (p ∷ ps))

-- Up to the last slash, and with it.
unfoldable pub up_to_slash : String → String
up_to_slash Str.[] = ""
up_to_slash (cons c s) =
    let rest = up_to_slash s in
    if rest == "" then (if eqb (code c) 47 then cons c "" else "") else cons c rest

unfoldable pub dir : String → String
unfolding clean up_to_slash
dir s = clean (up_to_slash s)

abbrev last_named : String → List String → String
last_named d [] = d
last_named d (p ∷ ps) = last_named (if p == "" then d else p) ps

unfoldable pub base : String → String
unfolding split_slash
base s = if s == "" then "." else last_named "/" (split_slash s)

-- Whether the elements of a path go on below those of a directory.
unfoldable pub strictly_below : List String → List String → Bool
strictly_below [] [] = false
strictly_below [] (p ∷ ps) = not (p == "..")
strictly_below (d ∷ ds) [] = false
strictly_below (d ∷ ds) (p ∷ ps) = let rest = strictly_below ds ps in if d == p then rest else false

-- `filepath.Rel(dir, path)` is neither an error nor "." nor ".." nor begins with "../".
unfoldable pub is_rel_below : String → String → Bool
unfolding strictly_below parts is_rooted
is_rel_below path directory =
    if is_rooted path
    then (if is_rooted directory then strictly_below (parts directory) (parts path) else false)
    else if is_rooted directory
    then false
    else strictly_below (parts directory) (parts path)
