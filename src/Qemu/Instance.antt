-- ===== src/Qemu/Instance.antt =====
-- `struct Qemu` of src/qemu.rs, with the program and the arguments of its process, and the methods that only read it.
use vmtest.Base.{List, Bool, ◌&&◌, not, Text, text, text_eq, ◌==◌}
use vmtest.Config.{Mount, default_rootfs}
use vmtest.Qemu.Args.{command_output_port_name}
use vmtest.Qemu.Invocation.{Sockets}

pub record Qemu : Type 0 where
  pub program : Text
  pub args : List Text
  pub socks : Sockets
  pub command : Text
  pub host_shared : Text
  pub rootfs : Text
  pub arch : Text
  pub mounts : List (Text × Mount)
  pub image : Bool
  -- whether `new` has asked for a pipe as the child's stdout
  pub stdout_piped : Bool

abbrev pub magic_interactive_command : Text
magic_interactive_command = text "-"

unfoldable pub interactive : Qemu → Bool
interactive q = q.command == magic_interactive_command && not q.image

-- What the command's template is rendered with.
pub record CommandContext : Type 0 where
  pub should_cd : Bool
  pub host_shared : Text
  pub command : Text
  pub command_output_port_name : Text

unfoldable pub command_context : Qemu → CommandContext
command_context q = record {
  should_cd = not q.image && q.rootfs == default_rootfs;
  host_shared = q.host_shared;
  command = q.command;
  command_output_port_name = command_output_port_name;
}
