-- ===== src/System/Part.antt =====
-- The system calls of a process that keeps more than the kernel.
use moduo_write.System.{Sys, SysLaws}

-- The kernel, and what else the process holds.
pub record KernelWith (K A : Type 0) : Type 0 where
  pub kernel : K
  pub rest : A

module _ {K A : Type 0} where
  abbrev pub put : {R : Type 0} → KernelWith K A → R × K → R × KernelWith K A
  put s (r, k) = (r, record s { kernel = k })

  abbrev pub sys_with : Sys K → Sys (KernelWith K A)
  sys_with sys = record {
    readv = λ s fd room. put s (sys.readv s.kernel fd room);
    write = λ s fd bytes. put s (sys.write s.kernel fd bytes);
    so_error = λ s fd. put s (sys.so_error s.kernel fd);
    shutdown = λ s fd. put s (sys.shutdown s.kernel fd);
    epoll_ctl = λ s e op fd v. put s (sys.epoll_ctl s.kernel e op fd v);
    epoll_wait = λ s e room timeout. put s (sys.epoll_wait s.kernel e room timeout);
  }

  -- The calls do what they did.
  abbrev pub laws_with : {sys : Sys K} → SysLaws sys → SysLaws (sys_with sys)
  laws_with laws = record {
    sent = λ s. laws.sent s.kernel;
    shut = λ s. laws.shut s.kernel;
    interest = λ s. laws.interest s.kernel;
    readv_count = λ s. laws.readv_count s.kernel;
    readv_sent = λ s. laws.readv_sent s.kernel;
    readv_interest = λ s. laws.readv_interest s.kernel;
    write_count = λ s. laws.write_count s.kernel;
    write_failed = λ s. laws.write_failed s.kernel;
    write_other = λ s. laws.write_other s.kernel;
    write_interest = λ s. laws.write_interest s.kernel;
    so_error_sent = λ s. laws.so_error_sent s.kernel;
    so_error_interest = λ s. laws.so_error_interest s.kernel;
    write_shut = λ s. laws.write_shut s.kernel;
    ctl_shut = λ s. laws.ctl_shut s.kernel;
    shutdown_sent = λ s. laws.shutdown_sent s.kernel;
    shutdown_shut = λ s. laws.shutdown_shut s.kernel;
    shutdown_interest = λ s. laws.shutdown_interest s.kernel;
    ctl_add_interest = λ s. laws.ctl_add_interest s.kernel;
    ctl_mod_interest = λ s. laws.ctl_mod_interest s.kernel;
    ctl_del_interest = λ s. laws.ctl_del_interest s.kernel;
    ctl_del_registered = λ s. laws.ctl_del_registered s.kernel;
    ctl_failed = λ s. laws.ctl_failed s.kernel;
    ctl_other = λ s. laws.ctl_other s.kernel;
    ctl_sent = λ s. laws.ctl_sent s.kernel;
    wait_count = λ s. laws.wait_count s.kernel;
    wait_registered = λ s. laws.wait_registered s.kernel;
    wait_interest = λ s. laws.wait_interest s.kernel;
  }
