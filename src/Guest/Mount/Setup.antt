-- ===== src/Guest/Mount/Setup.antt =====
-- When `setup_vm` of src/qemu.rs succeeds.
use vmtest.Base.{ℕ, List, [], ◌∷◌, ◌++◌, Bool, false, not, Text, text, ok, ◌≡◌}
use vmtest.Config.{Mount}
use vmtest.Output.{Output, setup_start, setup_end}
use vmtest.Host.{Host, World, Act, ◌>>=◌, send, context}
use vmtest.Qga.Version.{Version}
use vmtest.Qemu.Args.{Machine, shared_9p_fs_mount_path, shared_9p_fs_mount_tag}
use vmtest.Guest.Mount.{guest_mount_name, mount_in_guest, mount_all}
use vmtest.Guest.Mount.Success.{Mounted}

-- A file system that is to be mounted in the guest.
pub record Request : Type 0 where
  pub path : Text
  pub tag : Text
  pub ro : Bool

-- The shared directory, and a mount of the configuration.
abbrev pub shared_request : Request
shared_request = record { path = shared_9p_fs_mount_path; tag = shared_9p_fs_mount_tag; ro = false }

abbrev pub added_request : Machine → Text × Mount → Request
added_request m (guest_path, mount) = record {
  path = guest_path;
  tag = guest_mount_name m mount;
  ro = not mount.writable;
}

abbrev pub added_requests : Machine → List (Text × Mount) → List Request
added_requests m [] = []
added_requests m (entry ∷ rest) = added_request m entry ∷ added_requests m rest

module _ {S : Type 0} where
  abbrev pub with_sent : Output → World S → World S
  with_sent msg w = record w { sent = w.sent ++ msg ∷ [] }

module _ (H : Host) (fuel : ℕ) (version : Version) where
  -- One after the other.
  abbrev pub AllMounted : List Request → World H.State → World H.State → Type 0
  AllMounted [] w end = w ≡ end
  AllMounted (r ∷ rs) w end =
      (w₁ : World H.State) × Mounted H fuel version r.path r.tag r.ro w w₁ × AllMounted rs w₁ end

  abbrev mount_context : Text → Text
  mount_context guest_path = text "Failed to mount " ++ guest_path ++ text " in guest"

  abbrev mount_added : Machine → Text → Mount → Act H.State (Unit {0})
  mount_added m guest_path mount =
      context (mount_context guest_path)
        (mount_in_guest H fuel version guest_path (guest_mount_name m mount) (not mount.writable))

  abbrev shared_context : Text
  shared_context = text "Failed to mount shared directory in guest"

  abbrev mount_shared : Act H.State (Unit {0})
  mount_shared =
      context shared_context
        (mount_in_guest H fuel version shared_9p_fs_mount_path shared_9p_fs_mount_tag false)

  abbrev mount_rest : Machine → List (Text × Mount) → Act H.State (Unit {0})
  mount_rest m mounts = mount_all H fuel version m mounts >>= λ _. send (setup_end (ok tt))

  -- The mounts are made in turn, and `SetupStart` and `SetupEnd` are sent around them.
  abbrev pub SetUp : Machine → List (Text × Mount) → World H.State → World H.State → Type 0
  SetUp m mounts w end =
      (w₁ : World H.State) × AllMounted (shared_request ∷ added_requests m mounts)
        (with_sent setup_start w) w₁
      × (with_sent (setup_end (ok tt)) w₁ ≡ end)
