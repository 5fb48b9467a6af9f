-- ===== src/Syscall/Tests.antt =====
-- Runs of the copies and the calls on one process, which has one page and one open file.
use osmium.Prelude.{
  ℕ, ◌+◌, ◌*◌, ◌^◌, ◌≤◌, ◌<◌, ◌≡◌, refl, true, none, some, List, [], ◌∷◌, replicate, arith,
}
use osmium.Machine.{ok, usize_max}
use osmium.Machine.Returns.{Returns}
use osmium.Sched.{Process, Scheduler, FdEntry, running, zeroed, max_fds}
use osmium.Console.{empty_input}
use osmium.Fs.{File}
use osmium.Machine.Bytes.{write_byte}
use osmium.Kalloc.{Kmem}
use osmium.Vm.{translate, walk, walk_level, pte_to_pa, vpn}
use osmium.Syscall.{Kernel, copy_from_user, copy_to_user, check_pages, write_user, access}
use osmium.Syscall.Copy.{CopiedIn, copy_from_user-exact}
use osmium.Syscall.CopyOut.{CopiedOut, AreBytes, copy_to_user-exact, copy_to_user-copy_from_user}
use osmium.Syscall.Calls.{Platform, sys_write, sys_fread}
use osmium.Syscall.Dispatch.{sleep_ms_ticks}
use osmium.Syscall.Sample.{root, memory, tables, memory-IsUserSpace}
use osmium.Syscall.Replies.{IsCaller, SysWrote, sys_write-exact, sleep_ms_ticks-bounds}
use osmium.Syscall.Fread.{IsReading, SysFread, slice, sys_fread-exact}

copy_from_user-exact_example :
    Returns (λ r. CopiedIn root 0x4000_0ff0 32 memory r) (copy_from_user root 0x4000_0ff0 32 memory)
copy_from_user-exact_example = copy_from_user-exact 0x4000_0ff0 32 memory-IsUserSpace

abbrev hello : List ℕ
hello = 104 ∷ 101 ∷ 108 ∷ 108 ∷ 111 ∷ []

hello-AreBytes : AreBytes hello
hello-AreBytes = (omega arith, (omega arith, (omega arith, (omega arith, (omega arith, tt)))))

copy_to_user-exact_example :
    Returns
      (λ r. CopiedOut 0x8020_0000 root tables [] 0x4000_0123 hello memory r)
      (copy_to_user root 0x4000_0123 hello memory)
copy_to_user-exact_example = copy_to_user-exact 0x4000_0123 hello memory-IsUserSpace hello-AreBytes

abbrev greeted : Kmem
greeted = record memory { mem = write_byte (write_byte memory.mem 0x80c0_3123 104) 0x80c0_3124 105 }

greeted_run : copy_to_user root 0x4000_0123 (104 ∷ 105 ∷ []) memory ≡ ok (some 2, greeted)
unfolding copy_to_user check_pages write_user access translate walk walk_level pte_to_pa vpn
    write_byte
greeted_run = refl

copy_to_user-copy_from_user_example :
    copy_from_user root 0x4000_0123 2 greeted ≡ ok (some (104 ∷ 105 ∷ []), greeted)
copy_to_user-copy_from_user_example =
    copy_to_user-copy_from_user 0x4000_0123 (104 ∷ 105 ∷ []) memory-IsUserSpace
      (omega arith, (omega arith, tt)) greeted_run

abbrev greeting : File
greeting = record { name = 103 ∷ []; data_bytes = hello }

abbrev readable_file : FdEntry
readable_file = record { file_idx = 0; offset = 2 }

abbrev process : Process
process = record {
  pid = 1;
  name = [];
  state = running;
  context = zeroed;
  entry = 300;
  kstack_top = 400;
  user_entry = 0x4000_0000;
  user_sp = 0x4100_0000;
  page_table = root;
  user_table = some root;
  heap_base = 0x5000_0000;
  heap_brk = 0x5000_0000;
  fds = some readable_file ∷ replicate 7 none;
  fork_frame = none;
}

abbrev pub one_process : Kernel
one_process = record {
  sched = record { procs = some process ∷ []; current = some 0; next_slot = 1; next_pid = 2 };
  kmem = memory;
  input = empty_input;
  output = [];
  fs = greeting ∷ [];
  ticks = 5;
}

-- Programs that all lie at the same place, and threads that change nothing.
abbrev pub platform : Platform
platform = record {
  from_utf8 = λ bytes. true;
  programs = record {
    user_prog_greeter = (0x8020_0000, 0x8020_0040);
    user_prog_trespasser = (0x8020_0000, 0x8020_0040);
    user_prog_badsys = (0x8020_0000, 0x8020_0040);
    user_prog_uname = (0x8020_0000, 0x8020_0040);
    user_prog_echoline = (0x8020_0000, 0x8020_0040);
    user_prog_catfile = (0x8020_0000, 0x8020_0040);
    user_prog_heapgrow = (0x8020_0000, 0x8020_0040);
    user_prog_forker = (0x8020_0000, 0x8020_0040);
    user_prog_forkexec = (0x8020_0000, 0x8020_0040);
    user_prog_ush = (0x8020_0000, 0x8020_0040);
  };
  entries = record { thread_entry = 100; user_thread_body = 104; forkret_body = 108 };
  kernel_end = 0x8020_0000;
  kroot = 0x80b0_0000;
  input_chan = 50;
  kstack = λ k. 0x8100_0000;
  resume = λ k. ok k;
}

one_process-IsCaller : IsCaller platform one_process root tables []
unfolding osmium.Sched.Break.current_root osmium.Sched.with_current
one_process-IsCaller = record { at_root = refl; space = memory-IsUserSpace }

sys_write-exact_example :
    Returns
      (λ r. SysWrote platform root 0x4000_0010 4 one_process r)
      (sys_write platform 0x4000_0010 4 one_process)
sys_write-exact_example = sys_write-exact platform 0x4000_0010 4 one_process one_process-IsCaller

reading : IsReading one_process 0 process 0 readable_file greeting
reading = record {
  current = refl;
  at = refl;
  entry = refl;
  file = refl;
  bytes = hello-AreBytes;
  fits = omega arith;
}

sys_fread-exact_example :
    Returns
      (λ r.
        SysFread platform root tables [] 0 0x4000_0200
          (slice 16 readable_file greeting)
          0
          process
          readable_file
          one_process
          r)
      (sys_fread platform 0 0x4000_0200 16 one_process)
sys_fread-exact_example =
    sys_fread-exact platform 0 0x4000_0200 16 one_process one_process-IsCaller reading (omega arith)

sleep_ms_ticks-bounds_example :
    (0 < sleep_ms_ticks 25)
    × (sleep_ms_ticks 25 + 2 ^ 63 ≤ usize_max)
    × (25 * 100 ≤ usize_max → 25 ≤ 10 * sleep_ms_ticks 25)
    × (0 < 25 → 10 * sleep_ms_ticks 25 < 25 + 10)
sleep_ms_ticks-bounds_example = sleep_ms_ticks-bounds 25
