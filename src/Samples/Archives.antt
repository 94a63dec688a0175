-- ===== src/Samples/Archives.antt =====
-- Archives that are unpacked on the sample disk.
use tomei.Base.{
  String, ◌≡◌, refl, sym, ap, ◌∙◌, true, false, none, some, List, [], ◌∷◌, lookup, put, lookup-put,
  String-cases, inl, inr, arith,
}
use tomei.Base.Path as GoPath
use tomei.Execute.Run.{failed}
use tomei.Io.{◌>>=◌, raise, lift}
use tomei.Extract.{
  Unpacker, TarEntry, tar_dir, tar_file, ZipFile, is_inside_dir, below, inside_only, extract_header,
  extract_entry, extract_entries, extract_tar, extract_zip,
}
use tomei.Extract.Inside.{KeptInside, extract_inside}
use tomei.Samples.Disk.{Disk}

abbrev disk_unpacker : Unpacker Disk
disk_unpacker = record {
  mkdir_all = λ path mode d. (d, none);
  create = λ path mode d. (put path "" d, none);
  write = λ path content d. (put path content d, none);
  symlink = λ target path d. (put path target d, none);
  link = λ target path d. (put path target d, none);
}

-- A password file that is not touched.
abbrev HasPasswords : Disk → Type 0
HasPasswords d = lookup "/etc/passwd" d ≡ some "root"

outside : is_inside_dir "/tmp/x" "/etc/passwd" ≡ false
unfolding is_inside_dir below GoPath.parts GoPath.is_rooted GoPath.split_slash GoPath.clean_parts
outside = refl

put_inside :
    (path content : String) (d : Disk)
    → is_inside_dir "/tmp/x" path ≡ true
    → HasPasswords d
    → HasPasswords (put path content d)
put_inside path content d i h = elim (String-cases path "/etc/passwd") [
  | inl (p, _) ↦ absurd (ground (arith, sym (ap (is_inside_dir "/tmp/x") p ∙ outside) ∙ i))
  | inr (_, e) ↦ lookup-put path "/etc/passwd" content d ∙ rw e h
]

disk_unpacker-KeptInside : KeptInside disk_unpacker "/tmp/x" HasPasswords
disk_unpacker-KeptInside = record {
  mkdir_all = λ path mode d i h. h;
  mkdir_parent = λ path d i h. h;
  create = λ path mode d i h. put_inside path "" d i h;
  write = λ path content d i h. put_inside path content d i h;
  symlink = λ target path d i h. put_inside path target d i h;
  link = λ target path d i h. put_inside path target d i h;
}

abbrev evil_tar : List TarEntry
evil_tar = tar_file "bin/rg" 493 "binary" ∷ tar_file "../../etc/passwd" 420 "evil" ∷ []

abbrev evil_zip : List ZipFile
evil_zip =
    record {
      name = "../../etc/passwd";
      is_dir = false;
      mode = 420;
      open_error = none;
      content = "evil";
    }
    ∷ []

abbrev password_disk : Disk
password_disk = ("/etc/passwd", "root") ∷ []

extract_inside_example :
    HasPasswords (extract_tar disk_unpacker "/tmp/x" evil_tar password_disk).0
    × HasPasswords (extract_zip disk_unpacker "/tmp/x" evil_zip password_disk).0
extract_inside_example =
    extract_inside disk_unpacker "/tmp/x" HasPasswords evil_tar evil_zip password_disk
      disk_unpacker-KeptInside refl

-- An archive that names its own root is refused.
dot_refused :
    (extract_tar disk_unpacker "/tmp/x" (tar_dir "./" 493 ∷ []) []).1
    ≡ failed "invalid file path: ./"
unfolding extract_tar extract_entries extract_entry extract_header inside_only is_inside_dir below
    ◌>>=◌ raise lift GoPath.join GoPath.clean GoPath.parts GoPath.split_slash GoPath.join_slash
    GoPath.clean_parts GoPath.is_rooted
dot_refused = refl
