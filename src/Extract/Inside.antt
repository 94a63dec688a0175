-- ===== src/Extract/Inside.antt =====
-- What an extraction touches (internal/installer/extract/extractor.go).
use tomei.Base.{ℕ, String, ◌≡◌, refl, true, List, [], ◌∷◌, ◌++◌, Bool-cases, inl, inr}
use tomei.Base.Path.{dir}
use tomei.Execute.Run.{Outcome, ok, failed}
use tomei.Io.{Io, continue, lift, ◌>>=◌}
use tomei.Io.Rules.{
  Returns, Returns-pure, Returns-raise, Returns-after, Returns-bind, Keeps, Keeps-pure, Keeps-raise,
  Keeps-if, Keeps-wrap, Keeps-call, Keeps-bind,
}
use tomei.Extract.{
  Unpacker, TarEntry, unreadable, tar_dir, tar_file, tar_symlink, tar_link, tar_other, ZipFile,
  DeferredLink, is_inside_dir, extract_file, inside_only, extract_header, extract_entry,
  extract_entries, create_link, create_links, extract_tar, extract_zip_file, extract_zip,
}

-- The calls on paths inside a directory, and the creation of their parents, keep `P`.
pub record KeptInside {W : Type 0} (u : Unpacker W) (dest : String) (P : W → Type 0) : Type 0 where
  pub mkdir_all :
      (path : String) (mode : ℕ) (w : W)
      → is_inside_dir dest path ≡ true
      → P w
      → P (u.mkdir_all path mode w).0
  pub mkdir_parent :
      (path : String) (w : W)
      → is_inside_dir dest path ≡ true
      → P w
      → P (u.mkdir_all (dir path) 493 w).0
  pub create :
      (path : String) (mode : ℕ) (w : W)
      → is_inside_dir dest path ≡ true
      → P w
      → P (u.create path mode w).0
  pub write :
      (path content : String) (w : W)
      → is_inside_dir dest path ≡ true
      → P w
      → P (u.write path content w).0
  pub symlink :
      (target path : String) (w : W)
      → is_inside_dir dest path ≡ true
      → P w
      → P (u.symlink target path w).0
  pub link :
      (target path : String) (w : W)
      → is_inside_dir dest path ≡ true
      → P w
      → P (u.link target path w).0

-- The links are made inside a directory.
abbrev AllInside : String → List DeferredLink → Type 0
AllInside dest [] = Unit {0}
AllInside dest (l ∷ links) = (is_inside_dir dest l.new_name ≡ true) × AllInside dest links

append-AllInside :
    (dest : String) (xs ys : List DeferredLink)
    → AllInside dest xs
    → AllInside dest ys
    → AllInside dest (xs ++ ys)
append-AllInside dest [] ys h k = k
append-AllInside dest (x ∷ xs) ys (p, h) k = (p, append-AllInside dest xs ys h k)

module _ {W A : Type 0} (u : Unpacker W) (dest path e : String) (m : Io W A) where
  Keeps-inside_only :
      (P : W → Type 0)
      → (is_inside_dir dest path ≡ true → Keeps P m)
      → Keeps P (inside_only u dest path e m)
  unfolding inside_only
  Keeps-inside_only P h = elim (Bool-cases (is_inside_dir dest path)) [
    | inl b ↦ rw b (h b)
    | inr b ↦ rw b (Keeps-raise e)
  ]

  Returns-inside_only :
      (P : A → Type 0)
      → (is_inside_dir dest path ≡ true → Returns P m)
      → Returns P (inside_only u dest path e m)
  unfolding inside_only
  Returns-inside_only P h = elim (Bool-cases (is_inside_dir dest path)) [
    | inl b ↦ rw b (h b)
    | inr b ↦ rw b (Returns-raise e)
  ]

module _ {W : Type 0} (u : Unpacker W) (dest : String) where
  extract_header-AllInside :
      (target : String) (e : TarEntry)
      → is_inside_dir dest target ≡ true
      → Returns (AllInside dest) (extract_header u dest target e)
  unfolding extract_header
  extract_header-AllInside target (unreadable e) h = Returns-raise _
  extract_header-AllInside target (tar_dir name mode) h = Returns-bind _ _ (λ _. Returns-pure _ tt)
  extract_header-AllInside target (tar_file name mode content) h =
      Returns-bind _ _ (λ _. Returns-pure _ tt)
  extract_header-AllInside target (tar_symlink name linkname) h =
      Returns-inside_only u dest _ _ _ (AllInside dest) (λ _. Returns-pure _ (h, tt))
  extract_header-AllInside target (tar_link name linkname) h =
      Returns-inside_only u dest _ _ _ (AllInside dest) (λ _. Returns-pure _ (h, tt))
  extract_header-AllInside target (tar_other name) h = Returns-pure _ tt

  extract_entries-AllInside :
      (entries : List TarEntry) → Returns (AllInside dest) (extract_entries u dest entries)
  unfolding extract_entries extract_entry
  extract_entries-AllInside [] = Returns-pure _ tt
  extract_entries-AllInside (e ∷ entries) =
      Returns-after (AllInside dest) _ _
        (Returns-bind _ _ (λ name.
          Returns-inside_only u dest _ _ _ (AllInside dest) (extract_header-AllInside _ e)))
        (λ here h.
          Returns-after (AllInside dest) _ _ (extract_entries-AllInside entries)
            (λ later k. Returns-pure _ (append-AllInside dest here later h k)))

module _ {W : Type 0} (u : Unpacker W) (dest : String) (P : W → Type 0)
    (k : KeptInside u dest P) where
  extract_file-Keeps :
      (target : String) (mode : ℕ) (content : String)
      → is_inside_dir dest target ≡ true
      → Keeps P (extract_file u target mode content)
  unfolding extract_file
  extract_file-Keeps target mode content h =
      Keeps-bind _ _ (Keeps-wrap _ _ (Keeps-call _ (λ w. k.mkdir_parent target w h))) (λ _.
        Keeps-bind _ _ (Keeps-wrap _ _ (Keeps-call _ (λ w. k.create target mode w h)))
          (λ _. Keeps-wrap _ _ (Keeps-call _ (λ w. k.write target content w h))))

  extract_header-Keeps :
      (target : String) (e : TarEntry)
      → is_inside_dir dest target ≡ true
      → Keeps P (extract_header u dest target e)
  unfolding extract_header
  extract_header-Keeps target (unreadable e) h = Keeps-raise _
  extract_header-Keeps target (tar_dir name mode) h =
      Keeps-bind _ _ (Keeps-wrap _ _ (Keeps-call _ (λ w. k.mkdir_all target mode w h)))
        (λ _. Keeps-pure _)
  extract_header-Keeps target (tar_file name mode content) h =
      Keeps-bind _ _ (extract_file-Keeps target mode content h) (λ _. Keeps-pure _)
  extract_header-Keeps target (tar_symlink name linkname) h =
      Keeps-inside_only u dest _ _ _ P (λ _. Keeps-pure _)
  extract_header-Keeps target (tar_link name linkname) h =
      Keeps-inside_only u dest _ _ _ P (λ _. Keeps-pure _)
  extract_header-Keeps target (tar_other name) h = Keeps-pure _

  extract_entries-Keeps : (entries : List TarEntry) → Keeps P (extract_entries u dest entries)
  unfolding extract_entries extract_entry lift
  extract_entries-Keeps [] = Keeps-pure _
  extract_entries-Keeps (e ∷ entries) =
      Keeps-bind _ _
        (Keeps-bind _ _ (record { after = λ w h. h })
          (λ name. Keeps-inside_only u dest _ _ _ P (extract_header-Keeps _ e)))
        (λ here. Keeps-bind _ _ (extract_entries-Keeps entries) (λ later. Keeps-pure _))

  create_links-Keeps :
      (links : List DeferredLink) → AllInside dest links → Keeps P (create_links u links)
  unfolding create_links create_link
  create_links-Keeps [] h = Keeps-pure _
  create_links-Keeps (l ∷ links) (h, hs) =
      Keeps-bind _ _
        (Keeps-bind _ _ (Keeps-wrap _ _ (Keeps-call _ (λ w. k.mkdir_parent l.new_name w h))) (λ _.
          Keeps-if _ _ _ (Keeps-wrap _ _ (Keeps-call _ (λ w. k.link l.old_name l.new_name w h)))
            (Keeps-wrap _ _ (Keeps-call _ (λ w. k.symlink l.old_name l.new_name w h)))))
        (λ _. create_links-Keeps links hs)

  extract_tar-Keeps : (entries : List TarEntry) → Keeps P (extract_tar u dest entries)
  unfolding extract_tar ◌>>=◌
  extract_tar-Keeps entries = record {
    after = λ w h.
        go (extract_entries u dest entries w) ((extract_entries-Keeps entries).after w h)
          (λ links e. (extract_entries-AllInside u dest entries).value w links e);
  }
    where
      go :
          (p : W × Outcome (List DeferredLink))
          → P p.0
          → ((links : List DeferredLink) → p.1 ≡ ok links → AllInside dest links)
          → P (continue p (create_links u)).0
      go (w, ok links) h inside = (create_links-Keeps links (inside links refl)).after w h
      go (w, failed e) h inside = h

  extract_zip_file-Keeps : (f : ZipFile) → Keeps P (extract_zip_file u dest f)
  unfolding extract_zip_file
  extract_zip_file-Keeps f = Keeps-if _ _ _ (Keeps-pure _) (
      Keeps-inside_only u dest _ _ _ P (λ h.
        Keeps-if _ _ _ (Keeps-wrap _ _ (Keeps-call _ (λ w. k.mkdir_all _ f.mode w h))) (
          Keeps-bind _ _ (Keeps-wrap _ _ (Keeps-call _ (λ w p. p)))
            (λ _. extract_file-Keeps _ f.mode f.content h))))

  extract_zip-Keeps : (files : List ZipFile) → Keeps P (extract_zip u dest files)
  unfolding extract_zip
  extract_zip-Keeps [] = Keeps-pure _
  extract_zip-Keeps (f ∷ files) =
      Keeps-bind _ _ (extract_zip_file-Keeps f) (λ _. extract_zip-Keeps files)

-- The extraction of a tar or a zip archive, whatever is in it and whether or not it fails, keeps each
-- property of the world that is kept by making a directory, a file or a link at a path that
-- `isInsideDir` accepts for the destination, and by making the parent directory of such a path.
pub extract_inside :
    {W : Type 0} (u : Unpacker W) (dest : String) (P : W → Type 0) (entries : List TarEntry)
    (files : List ZipFile) (w : W)
    → KeptInside u dest P
    → P w
    → P (extract_tar u dest entries w).0 × P (extract_zip u dest files w).0
extract_inside u dest P entries files w k h = (
  (extract_tar-Keeps u dest P k entries).after w h,
  (extract_zip-Keeps u dest P k files).after w h,
)
