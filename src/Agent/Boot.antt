-- ===== src/Agent/Boot.antt =====
-- `run`: from the first mounts to the exit code on the wire. The agent is the init process; what
-- it asks of the kernel is a list of acts, each of which may fail.
use hephaestus.Base.{ℕ, Bool, true, false, Option, if◌then◌else◌, List, [], ◌∷◌, ◌++◌}
use hephaestus.Base.Text.{Bytes, codes}
use hephaestus.Base.Checked.{Result, ok, err}
use hephaestus.Agent.{AgentError, step_failed, write_exit_code}
use hephaestus.Agent.Commands.{
  Accepted, waiting, accept_failed, commanded, accept_command_loop, Guest, run_command,
}

pub data Act : Type 0 where
  make_dir : (path : Bytes) → Act
  mount : (source target fstype : Bytes) → Act
  bind_mount : (source target : Bytes) → Act
  change_root change_dir : (path : Bytes) → Act
  redirect_stderr start_shim : Act
  listen : (port : ℕ) → Act
  execute : (command : Bytes) → Act
  reply : Bytes → Act

-- The kernel: which paths are there, which acts succeed, whether the shim is enabled, and the
-- connections that come.
pub record Kernel : Type 0 where
  pub exists : Bytes → Bool
  pub does : Act → Bool
  pub shim : Bool
  pub is_utf8 : Bytes → Bool
  pub connections : List (Option Bytes)

abbrev pub Acted : Type 0 → Type 0
Acted A = List Act × Result AgentError A

infixl 5 ◌>>=◌ ◌>>◌
unfoldable pub ◌>>=◌ : {A B : Type 0} → Acted A → (A → Acted B) → Acted B
(acts, ok a) >>= f = (acts ++ (f a).0, (f a).1)
(acts, err e) >>= f = (acts, err e)

abbrev pub ◌>>◌ : {B : Type 0} → Acted (Unit {0}) → Acted B → Acted B
m >> k = m >>= λ _. k

abbrev pub outcome : Bool → Result AgentError (Unit {0})
outcome true = ok tt
outcome false = err step_failed

-- An act whose failure ends the agent, and one whose failure is ignored.
unfoldable pub must : Kernel → Act → Acted (Unit {0})
must k act = (act ∷ [], outcome (k.does act))

unfoldable pub may : Act → Acted (Unit {0})
may act = (act ∷ [], ok tt)

unfoldable pub mkdir_p : Kernel → Bytes → Acted (Unit {0})
unfolding must
mkdir_p k path = if k.exists path then ([], ok tt) else must k (make_dir path)

unfoldable pub mount_essentials : Kernel → Acted (Unit {0})
mount_essentials k = do
  mkdir_p k (codes "/proc")
  mkdir_p k (codes "/sys")
  mkdir_p k (codes "/dev")
  mkdir_p k (codes "/tmp")
  must k (mount (codes "proc") (codes "/proc") (codes "proc"))
  may (mount (codes "sys") (codes "/sys") (codes "sysfs"))
  may (mount (codes "dev") (codes "/dev") (codes "devtmpfs"))
  may (mount (codes "tmpfs") (codes "/tmp") (codes "tmpfs"))

unfoldable pub mount_rootfs : Kernel → (source target : Bytes) → Acted (Unit {0})
mount_rootfs k source target = do mkdir_p k target; must k (mount source target (codes "ext4"))

unfoldable pub enter_rootfs : Kernel → Bytes → Acted (Unit {0})
enter_rootfs k new_root = do
  mkdir_p k (new_root ++ codes "/proc")
  mkdir_p k (new_root ++ codes "/sys")
  mkdir_p k (new_root ++ codes "/dev")
  mkdir_p k (new_root ++ codes "/tmp")
  may (bind_mount (codes "/proc") (new_root ++ codes "/proc"))
  may (bind_mount (codes "/sys") (new_root ++ codes "/sys"))
  may (bind_mount (codes "/dev") (new_root ++ codes "/dev"))
  may (bind_mount (codes "/tmp") (new_root ++ codes "/tmp"))
  must k (change_root new_root)
  must k (change_dir (codes "/"))

unfoldable pub maybe_start_shim : Bool → Acted (Unit {0})
maybe_start_shim true = may start_shim
maybe_start_shim false = ([], ok tt)

-- The command is executed, and its code sent back. The loop that waits for ever has no result, and
-- neither has one whose `accept` fails.
unfoldable pub answer_command : Kernel → Guest → Accepted → Acted (Unit {0})
answer_command k g waiting = ([], err step_failed)
answer_command k g accept_failed = ([], err step_failed)
answer_command k g (commanded cmd rest) = do
  code ← (execute cmd ∷ [], run_command g cmd)
  must k (reply (write_exit_code code))

abbrev pub new_root : Bytes
new_root = codes "/newroot"

abbrev pub command_port : ℕ
command_port = 1234

-- `vsock_listen` makes, binds and listens on the socket in one act.
unfoldable pub run : Kernel → Guest → Acted (Unit {0})
run k g = do
  mount_essentials k
  mount_rootfs k (codes "/dev/vda") new_root
  enter_rootfs k new_root
  may redirect_stderr
  maybe_start_shim k.shim
  must k (listen command_port)
  answer_command k g (accept_command_loop k.is_utf8 k.connections)
