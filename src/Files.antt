-- ===== src/Files.antt =====
-- The files below the state directory, as os.ReadFile, os.WriteFile and os.Remove see them.
use zorin_host_agent.Prelude.{◌≡◌, Bool, true, false, Option, some, ◌++◌, arith, if◌then◌else◌}
use zorin_host_agent.Text.{Text, text, text_eq}
use zorin_host_agent.Dict.{Dict, lookup, insert, delete}
use zorin_host_agent.Dict.Laws.{lookup-insert_self, lookup-insert}

-- The contents by path, and the paths to which the operating system lets the agent write. A file
-- that cannot be read counts as missing.
pub record Files : Type 0 where
  pub contents : Dict Text
  pub writable : Text → Bool

-- filepath.Join, on a clean directory and a name
unfoldable pub join_path : Text → Text → Text
join_path dir name = dir ++ text "/" ++ name

unfoldable pub read_file : Text → Files → Option Text
read_file path fs = lookup path fs.contents

-- The files after the write, and whether it succeeded.
unfoldable pub write_file : Text → Text → Files → Files × Bool
write_file path raw fs =
    if fs.writable path
    then (record fs { contents = insert path raw fs.contents }, true)
    else (fs, false)

unfoldable pub remove_file : Text → Files → Files
remove_file path fs =
    if fs.writable path then record fs { contents = delete path fs.contents } else fs

-- A file that was written holds what was written.
pub read-write :
    (path raw : Text) (fs : Files)
    → (write_file path raw fs).1 ≡ true
    → read_file path (write_file path raw fs).0 ≡ some raw
unfolding read_file write_file
read-write path raw fs h = ground (arith, lookup-insert_self path raw fs.contents)

-- Other files are as they were.
pub write-elsewhere :
    (path other raw : Text) (fs : Files)
    → text_eq path other ≡ false
    → read_file other (write_file path raw fs).0 ≡ read_file other fs
unfolding read_file write_file
write-elsewhere path other raw fs h = ground (arith, lookup-insert path other raw fs.contents)
