-- ===== src/Image/Laws.antt =====
-- What a fork leaves behind.
use osmium.Prelude.{ℕ, ◌+◌, ◌^◌, ◌≤◌, ◌<◌, ◌≡◌, refl, some}
use osmium.Machine.{ok, usize_max}
use osmium.Machine.Returns
use osmium.Machine.Returns.{Returns, returns}
use osmium.Kalloc.{Kmem}
use osmium.Trap.{TrapFrame}
use osmium.Sched.{Process, Scheduler, kstack_size}
use osmium.Sched.Slots.{At, IsVacant}
use osmium.Sched.Inv.{IsValid}
use osmium.Sched.Keep.{with_current_lem}
use osmium.Sched.Start.{spawn_with-child}
use osmium.Sched.Files.Cursor.{put-same}
use osmium.Sched.Break.{attach_user_space}
use osmium.Vm.Tables.{clone_user_table}
use osmium.Image.{Entries, Parent, forked, fork, fork_name}

-- The child of a fork: a process that was not there, with the registers of its parent but 0 in a0, on
-- its own table, with its parent's heap and open files.
pub record IsChild (saved : TrapFrame) (root : ℕ) (parent : Process) (s s' : Scheduler) (number : ℕ)
    (child : Process) : Type 0 where
  pub slot : (j : ℕ) × IsVacant s.procs j × At s'.procs j child
  pub pid : child.pid ≡ number
  pub frame : child.fork_frame ≡ some (record saved { a0 = 0 })
  pub table : (child.page_table ≡ root) × (child.user_table ≡ some root)
  pub heap : (child.heap_base ≡ parent.heap_base) × (child.heap_brk ≡ parent.heap_brk)
  pub files : child.fds ≡ parent.fds

-- Where the address space of the current process can be cloned, the kernel stack fits and the pids
-- have not run out, fork returns the pid that was next to the
-- parent, and the table then has its child: in a slot that was free, with the registers of the
-- parent but 0 in a0, on the cloned table, with the parent's heap bounds and open files. Every other
-- process, the parent too, is as it was, and the scheduler is sound.
pub fork-IsChild :
    (e : Entries) (kroot kstack : ℕ) (frame : TrapFrame) (s : Scheduler) (k : Kmem) {k' : Kmem}
    {cur : ℕ} {parent : Process} {table : ℕ}
    → IsValid s
    → s.current ≡ some cur
    → At s.procs cur parent
    → clone_user_table kroot parent.page_table k ≡ ok (table, k')
    → kstack + kstack_size ≤ usize_max
    → s.next_pid + 1 < 2 ^ 64
    → Returns
        (λ (pid, (s', k'')).
          (pid ≡ s.next_pid)
          × (k'' ≡ k')
          × IsValid s'
          × ((i : ℕ) (p : Process) → At s.procs i p → At s'.procs i p)
          × (child : Process) × IsChild frame table parent s s' pid child)
        (fork e kroot kstack frame (s, k))
unfolding fork forked attach_user_space
fork-IsChild e kroot kstack frame s k {k'} {cur} {parent} {table} v current at cloned fits room =
    rw
      (
        with_current_lem {T = Parent} (λ p. ((p.page_table, p.heap_base, p.heap_brk, p.fds), p)) s
            current at,
        put-same s cur at,
        cloned,
        fork,
      )
      (Returns.bind
        (spawn_with-child e.thread_entry kroot kstack fork_name e.forkret_body
          (forked table frame parent.heap_base parent.heap_brk parent.fds) fits (λ p. (refl, refl))
          room v)
        λ (pid, s') (is, v', kept, base, context, j, vacant, there, same). returns (
          is,
          refl,
          v',
          kept,
          _,
          record {
            slot = (j, vacant, there);
            pid = same;
            frame = refl;
            table = (refl, refl);
            heap = (refl, refl);
            files = refl;
          },
        ))
