-- ===== src/Os/Programs.antt =====
-- Package os/exec, as the source uses it: other programs, which come as a parameter.
use Prim.Native.Char.{Char}
use nanok8s.Base.{String, Option, List}
use nanok8s.Os.World.{Error, M}

-- What a run of a program leaves: its two outputs, the two as they come, and the error of cmd.Run.
pub record Output : Type 0 where
  pub stdout : String
  pub stderr : String
  pub combined : String
  pub failure : Option Error

-- exec.Command with its arguments, and exec.LookPath. A time limit on a run is one of the ways in
-- which it fails.
pub record Programs : Type 0 where
  pub exec : String → List String → M Output
  pub look_path : String → M (Unit {0})

-- The rest of the machine: umount2(2) with MNT_DETACH, gethostname(2), and unicode's table of the
-- lower case beyond ASCII.
pub record Host : Type 0 where
  pub programs : Programs
  pub unmount : String → M (Unit {0})
  pub hostname : M String
  pub lower_table : Char → Char
