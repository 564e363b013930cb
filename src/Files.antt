-- ===== src/Files.antt =====
-- A file system as the program sees it: each path has a text or no file. (The directories, the
-- permissions and the disk's limits are left to the operating system.)
use galileo_terremoti.Base.{Bool, true, false, Option, none, some, Bytes, bytes_eq, if◌then◌else◌}

abbrev pub Files : Type 0
Files = Bytes → Option Bytes

-- The files with a path set to a text, or to no file.
abbrev pub put_file : Files → Bytes → Option Bytes → Files
put_file fs path text p = if bytes_eq path p then text else fs p

-- `access(filename, F_OK) != -1`.
unfoldable pub file_exists : Files → Bytes → Bool
file_exists fs path = elim (fs path) [ none ↦ false | some _ ↦ true ]

-- `unlink`, and `rename` of a file that exists.
unfoldable pub unlink : Files → Bytes → Files
unlink fs path = put_file fs path none

unfoldable pub rename : Files → Bytes → Bytes → Files
rename fs old new = put_file (put_file fs new (fs old)) old none
