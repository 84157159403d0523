-- ===== src/Qemu/Invocation/Order.antt =====
-- A valid target has arguments.
use vmtest.Base.{none, Text, ◌≢◌, arith, text_eq}
use vmtest.Config.{Target}
use vmtest.Vmtest.Validate.Laws.{IsValid}
use vmtest.Qemu.Args.{Machine}
use vmtest.Qemu.Invocation.{Sockets, root_args, qemu_args}

pub qemu_args-ne-none :
    (m : Machine) (socks : Sockets) (guest_init host_shared : Text) (t : Target)
    → IsValid t
    → qemu_args m socks guest_init host_shared t ≢ none
unfolding qemu_args root_args
qemu_args-ne-none m socks guest_init host_shared t v = ground arith
