-- ===== src/Samples/Disk.antt =====
-- A disk on which tools are installed.
use tomei.Base.{
  String, true, false, not, Option, none, some, [], ◌∷◌, Map, lookup, put, delete, has,
}
use tomei.Resource.Tool.{Tool, DownloadSource}
use tomei.Execute.Run.{Outcome, ok, failed}
use tomei.Install.World.{visit, Os, Services}
use tomei.Install.Fields.{ToolFields}
use tomei.Samples.Data.{metadata}

-- The files by their paths, each with what its SHA-256 is taken to be.
abbrev pub Disk : Type 0
Disk = Map String

abbrev pub contents : Option String → Outcome String
contents none = failed "no such file"
contents (some c) = ok c

abbrev pub copied : String → Option String → Disk → Disk × Option String
copied dst none d = (d, some "no such file")
copied dst (some c) d = (put dst c d, none)

abbrev pub disk_os : Os Disk
disk_os = record {
  is_missing = λ path d. not (has path d);
  has_entry = λ path d. has path d;
  open_error = λ path d. none;
  mode = λ path d. ok 493;
  sha256 = λ path d. contents (lookup path d);
  read_link = λ path d. failed "not a link";
  walk = λ path d. visit "/tmp/x/extracted/rg" "rg" false ∷ [];
  mkdir_all = λ path d. (d, none);
  mkdir_temp = λ d. (d, ok "/tmp/x");
  create = λ path mode d. (put path "" d, none);
  copy = λ src dst d. copied dst (lookup src d) d;
  symlink = λ target path d. (put path target d, none);
  remove = λ path d. (delete path d, none);
  remove_all = λ path d. (delete path d, none);
  path_variable = λ d. "/usr/bin";
  now = λ d. 7;
}

abbrev pub disk_services : Services Disk
disk_services = record {
  os = disk_os;
  commands = record {
    execute = λ cmds vars env d. (d, none);
    check = λ cmds vars env d. (d, ok true);
  };
  downloader = record {
    download = λ url path d. (put path "archive" d, none);
    verify = λ path c d. (d, none);
  };
  extract = λ type path dir d. (put "/tmp/x/extracted/rg" "binary" d, none);
  version_resolver = none;
  registry = none;
  tools_dir = "/tools";
  bin_dir = "/bin";
}

-- One whose downloads never pass their verification.
abbrev pub corrupt_services : Services Disk
corrupt_services = record disk_services {
  downloader = record {
    download = λ url path d. (put "/tmp/x/rg.tar.gz" "archive" d, none);
    verify = λ path c d. (d, some "checksum mismatch");
  };
}

abbrev pub no_fields : Disk → ToolFields
no_fields d = record { runtimes = []; installers = []; tool_bin_paths = none }

abbrev pub rg_source : DownloadSource
rg_source = record {
  url = "https://example.com/rg.tar.gz";
  checksum =
      some (record { value = "sha256:archive"; url = ""; file_pattern = ""; algorithm = "" });
  archive_type = "";
}

abbrev pub rg : Tool
rg = record {
  metadata = metadata "rg";
  spec = record {
    installer_ref = "";
    repository_ref = "";
    version = "14.1.0";
    enabled = none;
    source = some rg_source;
    package_id = none;
    runtime_ref = "";
    commands = none;
    binary_name = "";
    args = [];
  };
}

abbrev pub placed_disk : Disk
placed_disk = ("/tools/rg/14.1.0/rg", "binary") ∷ []
