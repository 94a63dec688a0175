-- ===== src/Install/Expand.antt =====
-- Expansion of `~` (internal/path/path.go) and of version templates in the settings of a runtime
-- (internal/installer/runtime/installer.go). Parsing and running a template that has a marker is the
-- work of `text/template`.
use Prim.Native.Char.{code}
use Prim.Native.String.{◌∷◌ as cons}
use Prim.Native.String as Str
use tomei.Base.{
  String, Bool, false, ◌&&◌, ◌||◌, Option, none, some, [], ◌∷◌, Map, eqb, ◌==◌, if◌then◌else◌,
}
use tomei.Base.Path.{join}
use tomei.Resource.Tool.{is_empty}
use tomei.Execute.Run.{Outcome, ok, failed}

-- `path[2:]` where `path` begins with `~/`.
abbrev below_home : String → Option String
below_home Str.[] = none
below_home (cons c Str.[]) = none
below_home (cons c (cons d s)) = if eqb (code c) b'~' && eqb (code d) b'/' then some s else none

abbrev joined_home : Outcome String → String → Outcome String
joined_home (failed e) rest = failed e
joined_home (ok home) rest = ok (join (home ∷ rest ∷ []))

-- `Expand`, `home` being the answer of `os.UserHomeDir`.
unfoldable pub expand : Outcome String → String → Outcome String
unfolding join
expand home path = if is_empty path then ok "" else elim (below_home path) [
  | some rest ↦ joined_home home rest
  | none ↦ if path == "~" then home else ok path
]

-- `strings.Contains(tmpl, "{{")`
abbrev has_marker : String → Bool
has_marker Str.[] = false
has_marker (cons c Str.[]) = false
has_marker (cons c (cons d s)) = (eqb (code c) b'{' && eqb (code d) b'{') || has_marker (cons d s)

abbrev pub or_same : String → Outcome String → String
or_same s (ok t) = t
or_same s (failed e) = s

module _ (run_template : String → String → Outcome String) where
  -- `expandVersionTemplate`
  unfoldable pub expand_version_template : String → String → Outcome String
  expand_version_template tmpl version =
      if has_marker tmpl then run_template tmpl version else ok tmpl

  -- A value of `expandEnv`: what fails to expand stays as it is.
  unfoldable pub expand_value : Outcome String → String → String → String
  unfolding expand expand_version_template
  expand_value home version value =
      let expanded = or_same value (expand_version_template value version) in
      or_same expanded (expand home expanded)

  -- `expandEnv`
  unfoldable pub expand_env : Outcome String → Map String → String → Map String
  unfolding expand_value
  expand_env home [] version = []
  expand_env home ((k, v) ∷ env) version =
      (k, expand_value home version v) ∷ expand_env home env version
