-- ===== src/Xray/Reading.antt =====
-- Which steps of internal/xrayruntime/manager.go leave the state directory as it is.
pub use xui_agent.Io.{load_file-Reads}
pub use xui_agent.Links.{present-Reads, read_target-Reads, optional-Reads}
use xui_agent.Spool.Bytes.{Bytes}
use xui_agent.Xray.Disk.{AppliedState, Env}
use xui_agent.Xray.Validate.{unreadable}
use xui_agent.Xray.Files.{
  load_applied, load_pending, verify_config_target, verify_applied_target, verify_applied,
}
use xui_agent.Xray.Prune.{protected_targets}
use xui_agent.Io.{
  Reads, bind-Reads, pure-Reads, gets-Reads, check-Reads, syscall-Reads, attempt-Reads,
}

pub load_applied-Reads : Reads load_applied
unfolding load_applied
load_applied-Reads =
    bind-Reads (load_file-Reads (λ d. d.applied))
      (λ a. bind-Reads (check-Reads _ unreadable) (λ _. pure-Reads a))

pub load_pending-Reads : Reads load_pending
unfolding load_pending
load_pending-Reads =
    bind-Reads (load_file-Reads (λ d. d.pending))
      (λ p. bind-Reads (check-Reads _ unreadable) (λ _. pure-Reads p))

module _ (env : Env) where
  pub verify_config_target-Reads :
      (target digest : Bytes) → Reads (verify_config_target env target digest)
  unfolding verify_config_target
  verify_config_target-Reads target digest = bind-Reads (check-Reads _ unreadable) λ _.
      bind-Reads (syscall-Reads unreadable) λ _. bind-Reads (gets-Reads _) λ found.
        bind-Reads (present-Reads found) λ f.
          bind-Reads (syscall-Reads unreadable)
            λ _. bind-Reads (check-Reads _ unreadable) (λ _. check-Reads _ unreadable)

  pub verify_applied_target-Reads : (a : AppliedState) → Reads (verify_applied_target env a)
  unfolding verify_applied_target
  verify_applied_target-Reads a = bind-Reads (check-Reads _ unreadable) λ _.
      bind-Reads (check-Reads _ unreadable)
        (λ _. verify_config_target-Reads a.target a.config_digest)

  pub verify_applied-Reads : (a : AppliedState) → Reads (verify_applied env a)
  unfolding verify_applied
  verify_applied-Reads a =
      bind-Reads (read_target-Reads _)
        λ current. bind-Reads (check-Reads _ unreadable) (λ _. verify_applied_target-Reads a)

pub protected_targets-Reads : Reads protected_targets
unfolding protected_targets
protected_targets-Reads = bind-Reads (attempt-Reads (read_target-Reads _)) λ c.
    bind-Reads (optional-Reads c _) λ _. bind-Reads (attempt-Reads (read_target-Reads _)) λ p.
      bind-Reads (optional-Reads p _) λ _. bind-Reads (attempt-Reads load_applied-Reads) λ a.
        bind-Reads (optional-Reads a _) λ _.
          bind-Reads (attempt-Reads load_pending-Reads)
            λ q. bind-Reads (optional-Reads q _) (λ _. pure-Reads _)
