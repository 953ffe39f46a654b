-- ===== src/Os.antt =====
-- The calls of the C library and the kernel that src/container/cgroup.c makes, on a state `World`
-- of the machine that the sources cannot see.
use nexus_db.Prelude.{ℕ, Bool, Option, Str}

-- `stat`: the value of `errno` where it fails, or whether the path names a directory.
pub data Stat : Type 0 where
  failed : ℕ → Stat
  directory other : Stat

-- <errno.h>
abbrev pub enoent : ℕ
enoent = 2

abbrev pub eexist : ℕ
eexist = 17

-- `mkdir` and `rmdir` give `errno`, or `none` where they succeed. `fprintf` is `true` unless its
-- result is negative, `fclose` and `remove` are `true` for 0. `read` is what a file holds, `none`
-- where it cannot be opened for reading.
pub record Os : Type 1 where
  pub World : Type 0
  pub File : Type 0
  pub fopen_write : Str → World → Option File × World
  pub fprintf : File → Str → World → Bool × World
  pub fclose : File → World → Bool × World
  pub read : Str → World → Option Str
  pub mkdir : Str → World → Option ℕ × World
  pub rmdir : Str → World → Option ℕ × World
  pub remove : Str → World → Bool × World
  pub stat : Str → World → Stat
  pub getenv : Str → World → Option Str
