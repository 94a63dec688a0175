-- ===== src/Install/Names.antt =====
-- Names of binaries (internal/installer/tool/installer.go), checksum values
-- (internal/checksum/checksum.go) and archive types (internal/installer/extract/extractor.go).
use Prim.Native.Char.{Char, code}
use Prim.Native.String.{◌∷◌ as cons, ◌++◌ as concat}
use Prim.Native.String as Str
use tomei.Base.{
  ℕ, zero, suc, ◌-◌, String, Bool, true, false, ◌&&◌, ◌||◌, ltb, leb, eqb, ◌==◌, if◌then◌else◌,
}
use tomei.Base.Path.{base}
use tomei.Resource.Tool.{is_empty}
use tomei.Resource.Package.{split_once}
use tomei.Resource.Parse.{lower, same_codes}
use tomei.Execute.Run.{Outcome, ok, failed}

abbrev between : ℕ → ℕ → ℕ → Bool
between low high n = leb low n && leb n high

-- `[a-zA-Z0-9]`
abbrev is_alphanumeric : Char → Bool
is_alphanumeric c =
    between b'a' b'z' (code c) || (between b'A' b'Z' (code c) || between b'0' b'9' (code c))

-- `[a-zA-Z0-9._-]`
abbrev is_name_char : Char → Bool
is_name_char c =
    is_alphanumeric c || (eqb (code c) b'.' || (eqb (code c) b'_' || eqb (code c) b'-'))

unfoldable pub has_name_chars : String → Bool
has_name_chars Str.[] = true
has_name_chars (cons c s) = is_name_char c && has_name_chars s

-- `binaryNameRegexp`
unfoldable pub is_binary_name : String → Bool
unfolding has_name_chars
is_binary_name Str.[] = false
is_binary_name (cons c s) = is_alphanumeric c && has_name_chars s

unfoldable pub validate_binary_name : String → Outcome (Unit {0})
unfolding is_binary_name
validate_binary_name name =
    if is_binary_name name
    then ok tt
    else failed
        (concat "invalid binaryName \"" (concat name "\": must match ^[a-zA-Z0-9][a-zA-Z0-9._-]*$"))

abbrev contains_colon : String → Bool
contains_colon Str.[] = false
contains_colon (cons c s) = eqb (code c) b':' || contains_colon s

-- `Parse` of a checksum value: its algorithm and its digest.
unfoldable pub parse_checksum : String → Outcome (String × String)
unfolding split_once
parse_checksum value =
    let (algorithm, digest) = split_once value b':' in
    if contains_colon value
    then (if (algorithm == "sha256") || (algorithm == "sha512")
        then ok (algorithm, digest)
        else failed (concat "unsupported hash algorithm: " algorithm))
    else failed
        (concat "invalid checksum format: expected 'algorithm:hash', got \"" (concat value "\""))

abbrev digest_or_empty : Outcome (String × String) → String
digest_or_empty (ok (algorithm, digest)) = digest
digest_or_empty (failed e) = ""

-- `ExtractHash`
unfoldable pub extract_hash : String → String
unfolding parse_checksum
extract_hash value = if is_empty value then "" else digest_or_empty (parse_checksum value)

abbrev text_length : String → ℕ
text_length Str.[] = 0
text_length (cons c s) = suc (text_length s)

-- `s[n:]`
abbrev text_from : ℕ → String → String
text_from n Str.[] = Str.[]
text_from zero (cons c s) = cons c s
text_from (suc n) (cons c s) = text_from n s

-- `hasSuffix`
unfoldable pub has_suffix : String → String → Bool
has_suffix s suffix =
    if ltb (text_length s) (text_length suffix)
    then false
    else text_from (text_length s - text_length suffix) s == suffix

-- `NormalizeArchiveType`
unfoldable pub normalize_archive_type : String → String
unfolding lower same_codes
normalize_archive_type raw =
    if same_codes (lower raw) (lower "tar.gz") || same_codes (lower raw) (lower "tgz")
    then "tar.gz"
    else if same_codes (lower raw) (lower "tar.xz") || same_codes (lower raw) (lower "txz")
    then "tar.xz"
    else if same_codes (lower raw) (lower "zip")
    then "zip"
    else if same_codes (lower raw) (lower "raw")
    then "raw"
    else if same_codes (lower raw) (lower "pkg")
    then "pkg"
    else raw

-- `DetectArchiveType`
unfoldable pub detect_archive_type : String → String
unfolding has_suffix base
detect_archive_type url =
    let name = base url in
    if has_suffix name ".tar.gz" || has_suffix name ".tgz"
    then "tar.gz"
    else if has_suffix name ".tar.xz" || has_suffix name ".txz"
    then "tar.xz"
    else if has_suffix name ".zip"
    then "zip"
    else if has_suffix name ".pkg"
    then "pkg"
    else ""

-- `NewExtractor`, whose extractors are told apart by their archive type.
unfoldable pub new_extractor : String → Outcome String
new_extractor type =
    if (type == "tar.gz")
      || ((type == "tar.xz") || ((type == "zip") || ((type == "raw") || (type == "pkg"))))
    then ok type
    else failed (concat "unsupported archive type: " type)
