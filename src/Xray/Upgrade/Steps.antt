-- ===== src/Xray/Upgrade/Steps.antt =====
-- The steps that change the state directory: what they leave where a system call fails or kills the
-- process, given that each state on the way is good enough.
pub use xui_agent.Io.{write_atomic-Triple, remove_and_sync-Triple, load_file-Triple, handle-Triple}
pub use xui_agent.Classified.{must-Triple, fail_with-Triple}
use xui_agent.Prelude.{◌≡◌, refl, Option, none, some}
use xui_agent.Spool.Bytes.{Bytes}
use xui_agent.Xray.Target.{validate_target}
use xui_agent.Xray.Disk.{holds, AppliedState, PendingState, Disk}
use xui_agent.Xray.Validate.{unreadable}
use xui_agent.Xray.Files.{valid_applied, valid_pending, load_applied, load_pending, atomic_symlink}
use xui_agent.Xray.Rollback.{restart_and_wait}
use xui_agent.Xray.Upgrade.{Guarded}
use xui_agent.Io.{Triple, bind-Triple, pure-Triple, check-Triple, syscall-Triple, modify-Triple}

-- The link is renamed into place or is the old one.
pub atomic_symlink-Triple :
    {P Q : Disk → Type 0} (target : Bytes) (put : Disk → Disk)
    → ((s : Disk) → P s → Q (put s))
    → Guarded P (atomic_symlink target put) (λ _. Q) P
unfolding atomic_symlink
atomic_symlink-Triple target put step =
    bind-Triple (check-Triple (validate_target target) unreadable (λ s h. h)) λ _.
      bind-Triple (syscall-Triple unreadable (λ s h. h.1) (λ s h. h.1))
        λ _. modify-Triple put (λ s h. step s h.1)

pub restart_and_wait-Triple :
    {P Z : Disk → Type 0} (target : Bytes)
    → ((s : Disk) → P s → s.current ≡ some target)
    → ((r : Option Bytes) (s : Disk) → P s → P (record s { running = r }))
    → ((s : Disk) → P s → Z s)
    → Guarded P restart_and_wait (λ _ s. P s × (s.running ≡ some target)) Z
unfolding restart_and_wait
restart_and_wait-Triple target linked free safe =
    bind-Triple (modify-Triple _ (λ s h. free none s h)) λ _.
      bind-Triple (syscall-Triple unreadable safe safe)
        λ _. modify-Triple _ (λ s h. (free s.current s h, linked s h))

pub load_applied-Triple :
    (P : Disk → Type 0) (a : AppliedState)
    → ((s : Disk) → P s → s.applied ≡ holds a)
    → Triple P load_applied (λ x s. (x ≡ a) × P s) (λ e s. (e ≡ unreadable) × P s) P
unfolding load_applied
load_applied-Triple P a there = bind-Triple (load_file-Triple P (λ d. d.applied) a there) λ x.
    bind-Triple (check-Triple (valid_applied x) unreadable (λ s h. (refl, h.1)))
      λ _. pure-Triple x (λ s h. h.1)

pub load_pending-Triple :
    (P : Disk → Type 0) (p : PendingState)
    → ((s : Disk) → P s → s.pending ≡ holds p)
    → Triple P load_pending (λ x s. (x ≡ p) × P s) (λ e s. (e ≡ unreadable) × P s) P
unfolding load_pending
load_pending-Triple P p there = bind-Triple (load_file-Triple P (λ d. d.pending) p there) λ x.
    bind-Triple (check-Triple (valid_pending x) unreadable (λ s h. (refl, h.1)))
      λ _. pure-Triple x (λ s h. h.1)
