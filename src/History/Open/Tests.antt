-- ===== src/History/Open/Tests.antt =====
-- A history in a file that is there.
use tiny_ssh.Base.{ℕ, some, List, [], ◌∷◌, ◌++◌, codes, ok}
use tiny_ssh.History.Memory.{memory}
use tiny_ssh.History.Tests.{rows}
use tiny_ssh.History.Open.{Disk, open_default}
use tiny_ssh.History.Open.Outcome.{DiskLaws, OpenedDefault, open_default-OpenedDefault}

abbrev pub disk : Disk memory
disk = record {
  FilePath = List ℕ;
  data_dir = some (codes "/d");
  join = λ dir name. dir ++ (b'/' ∷ name);
  parent = λ path. some (codes "/d");
  create_dir_all = λ dir. ok tt;
  connect = λ path. ok rows;
  connect_in_memory = ok [];
  pragma_update = λ c name value. ok c;
  execute_batch = λ c statements. ok c;
}

disk-DiskLaws : DiskLaws memory disk
disk-DiskLaws = record {
  stored = λ path. rows;
  connect-table = λ p c h. cc;
  pragma_update-table = λ c c' name value h. cc;
  schema-table = λ c c' h. cc;
}

open_default-OpenedDefault_example :
    OpenedDefault memory disk disk-DiskLaws (open_default memory disk)
open_default-OpenedDefault_example = open_default-OpenedDefault memory disk disk-DiskLaws
