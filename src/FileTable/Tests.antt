-- ===== src/FileTable/Tests.antt =====
-- file.c: the theorems at a table with two open files.
use xv6_memory_management_im.Common.{◌≡◌, refl, true, false, arith, if◌then◌else◌, ltb, none}
use xv6_memory_management_im.Kernel.{ok, ◌>>=◌}
use xv6_memory_management_im.FileTable.{fd_inode, Ftable, filedup, fileclose}
use xv6_memory_management_im.FileTable.Refs.{fileclose-filedup}

abbrev two_open : Ftable
two_open = record {
  locked = false;
  file = λ f. record {
    kind = fd_inode;
    ref = if ltb f 2 then 1 else 0;
    readable = true;
    writable = false;
    pipe = 0;
    ip = 0;
    off = 0;
  };
}

fileclose-filedup_example : (filedup 1 two_open >>= fileclose 1) ≡ ok (none, two_open)
fileclose-filedup_example = fileclose-filedup 1 two_open refl (omega arith)
