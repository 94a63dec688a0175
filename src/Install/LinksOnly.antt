-- ===== src/Install/LinksOnly.antt =====
-- What the removal of a delegated runtime takes away (internal/installer/runtime/installer.go).
use tomei.Base.{String, ◌≡◌, refl, Bool, true, false, Option, none, some, List, [], ◌∷◌, ◌==◌}
use tomei.Base.Path.{join}
use tomei.Resource.Other.{RuntimeState}
use tomei.Execute.Run.{Outcome, ok, failed}
use tomei.Io.{gets, when, ignore, ◌>>=◌}
use tomei.Io.Rules.{Keeps, Keeps-pure, Keeps-if, Keeps-bind, Keeps-when, Keeps-wrap, Keeps-call}
use tomei.Install.RuntimeWorld.{RuntimeServices}
use tomei.Install.Links.{remove_symlink, remove_links, remove_symlinks}
use tomei.Install.Runtime.{version_vars, error_of, remove_delegation, remove_runtime}

module _ {W : Type 0} (s : RuntimeServices W) (P : W → Type 0) where
  -- The removal of a symbolic link keeps `P`.
  abbrev pub LinksGo : Type 0
  LinksGo =
      (path : String) (w : W) → P w → s.lstat path w ≡ some true → P (s.base.os.remove path w).0

  remove_symlink-Keeps : (path : String) → LinksGo → Keeps P (remove_symlink s true path)
  unfolding remove_symlink ◌>>=◌ gets when ignore
  remove_symlink-Keeps path go = record { after = λ w h. linked (s.lstat path w) w h refl }
    where
      linked :
          (l : Option Bool) (w : W)
          → P w
          → s.lstat path w ≡ l
          → P (when (elim l [ none ↦ false | some b ↦ b ]) (ignore (s.base.os.remove path)) w).0
      linked none w h e = h
      linked (some false) w h e = h
      linked (some true) w h e = go path w h e

  remove_links-Keeps :
      (bin_dir : String) (binaries : List String)
      → LinksGo
      → Keeps P (remove_links s bin_dir binaries true)
  unfolding remove_links
  remove_links-Keeps bin_dir [] go = Keeps-pure _
  remove_links-Keeps bin_dir (binary ∷ binaries) go =
      Keeps-bind _ _ (remove_symlink-Keeps (join (bin_dir ∷ binary ∷ [])) go)
        (λ _. remove_links-Keeps bin_dir binaries go)

  remove_delegation-Keeps :
      (st : RuntimeState)
      → LinksGo
      → ((w : W) → P w → P (s.base.commands.execute st.remove_command (version_vars "") st.env w).0)
      → Keeps P (remove_delegation s st)
  unfolding remove_delegation remove_symlinks
  remove_delegation-Keeps st go run =
      Keeps-bind _ _ (Keeps-if _ _ _ (Keeps-pure _) (remove_links-Keeps st.bin_dir st.binaries go))
        (λ _. Keeps-when _ _ (Keeps-wrap _ _ (Keeps-call _ run)))

  error_world : (p : W × Outcome (Unit {0})) → P p.0 → P (error_of s p).0
  error_world (w, ok u) h = h
  error_world (w, failed e) h = h

  -- The removal of a delegated runtime keeps each property of the world that its remove command keeps
  -- and that the removal of any symbolic link keeps: of the binaries only the links are removed.
  pub remove_runtime-LinksGo :
      (st : RuntimeState) (name : String) (w : W)
      → LinksGo
      → ((w' : W)
          → P w'
          → P (s.base.commands.execute st.remove_command (version_vars "") st.env w').0)
      → (st.install_type == "delegation") ≡ true
      → P w
      → P (remove_runtime s (some st) name w).0
  unfolding remove_runtime
  remove_runtime-LinksGo st name w go run d h =
      rw d (error_world (remove_delegation s st w) ((remove_delegation-Keeps st go run).after w h))
