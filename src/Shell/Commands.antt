-- ===== src/Shell/Commands.antt =====
-- shell.rs, `run_command`: what each command does to the kernel's state. The commands that only print
-- (help, ls, ps, mem, uptime, and an unknown one) leave the state as it is, except for what `cat` shows.
use osmium.Prelude.{ℕ, if◌then◌else◌, Option, none, some, List, [], ◌∷◌, ◌++◌}
use osmium.Machine.{Outcome, ok, ◌>>=◌}
use osmium.Fs.{eq_bytes}
use osmium.User.{Span, image}
use osmium.Image.{spawn_user}
use osmium.Syscall.{Kernel}
use osmium.Syscall.Calls.{Platform}
use osmium.Syscall.Dispatch.{join}
use osmium.Shell.{split_command, trim, cat}

-- The command that a word names.
pub data Command : Type 0 where
  nothing_cmd : Command
  help_cmd : Command
  ls_cmd : Command
  cat_cmd : Command
  ps_cmd : Command
  mem_cmd : Command
  uptime_cmd : Command
  greet_cmd : Command
  fault_cmd : Command
  echoline_cmd : Command
  uname_cmd : Command
  heapgrow_cmd : Command
  fork_cmd : Command
  ush_cmd : Command
  poweroff_cmd : Command
  reboot_cmd : Command
  unknown_cmd : Command

-- The words, in their bytes.
abbrev help_word : List ℕ
help_word = 104 ∷ 101 ∷ 108 ∷ 112 ∷ []

abbrev ls_word : List ℕ
ls_word = 108 ∷ 115 ∷ []

abbrev cat_word : List ℕ
cat_word = 99 ∷ 97 ∷ 116 ∷ []

abbrev ps_word : List ℕ
ps_word = 112 ∷ 115 ∷ []

abbrev mem_word : List ℕ
mem_word = 109 ∷ 101 ∷ 109 ∷ []

abbrev uptime_word : List ℕ
uptime_word = 117 ∷ 112 ∷ 116 ∷ 105 ∷ 109 ∷ 101 ∷ []

abbrev greet_word : List ℕ
greet_word = 103 ∷ 114 ∷ 101 ∷ 101 ∷ 116 ∷ []

abbrev fault_word : List ℕ
fault_word = 102 ∷ 97 ∷ 117 ∷ 108 ∷ 116 ∷ []

abbrev echoline_word : List ℕ
echoline_word = 101 ∷ 99 ∷ 104 ∷ 111 ∷ 108 ∷ 105 ∷ 110 ∷ 101 ∷ []

abbrev uname_word : List ℕ
uname_word = 117 ∷ 110 ∷ 97 ∷ 109 ∷ 101 ∷ []

abbrev heapgrow_word : List ℕ
heapgrow_word = 104 ∷ 101 ∷ 97 ∷ 112 ∷ 103 ∷ 114 ∷ 111 ∷ 119 ∷ []

abbrev fork_word : List ℕ
fork_word = 102 ∷ 111 ∷ 114 ∷ 107 ∷ []

abbrev ush_word : List ℕ
ush_word = 117 ∷ 115 ∷ 104 ∷ []

abbrev poweroff_word : List ℕ
poweroff_word = 112 ∷ 111 ∷ 119 ∷ 101 ∷ 114 ∷ 111 ∷ 102 ∷ 102 ∷ []

abbrev reboot_word : List ℕ
reboot_word = 114 ∷ 101 ∷ 98 ∷ 111 ∷ 111 ∷ 116 ∷ []

-- The pattern of the `match` that the word has.
pub command_of : List ℕ → Command
command_of [] = nothing_cmd
command_of (b ∷ bs) =
    if eq_bytes (b ∷ bs) help_word
    then help_cmd
    else if eq_bytes (b ∷ bs) ls_word
    then ls_cmd
    else if eq_bytes (b ∷ bs) cat_word
    then cat_cmd
    else if eq_bytes (b ∷ bs) ps_word
    then ps_cmd
    else if eq_bytes (b ∷ bs) mem_word
    then mem_cmd
    else if eq_bytes (b ∷ bs) uptime_word
    then uptime_cmd
    else if eq_bytes (b ∷ bs) greet_word
    then greet_cmd
    else if eq_bytes (b ∷ bs) fault_word
    then fault_cmd
    else if eq_bytes (b ∷ bs) echoline_word
    then echoline_cmd
    else if eq_bytes (b ∷ bs) uname_word
    then uname_cmd
    else if eq_bytes (b ∷ bs) heapgrow_word
    then heapgrow_cmd
    else if eq_bytes (b ∷ bs) fork_word
    then fork_cmd
    else if eq_bytes (b ∷ bs) ush_word
    then ush_cmd
    else if eq_bytes (b ∷ bs) poweroff_word
    then poweroff_cmd
    else if eq_bytes (b ∷ bs) reboot_word
    then reboot_cmd
    else unknown_cmd

abbrev greeter_name : List ℕ
greeter_name = 117 ∷ 45 ∷ 103 ∷ 114 ∷ 101 ∷ 101 ∷ 116 ∷ 101 ∷ 114 ∷ []

abbrev trespasser_name : List ℕ
trespasser_name = 117 ∷ 45 ∷ 116 ∷ 114 ∷ 101 ∷ 115 ∷ 112 ∷ 97 ∷ 115 ∷ 115 ∷ 101 ∷ 114 ∷ []

abbrev echoline_name : List ℕ
echoline_name = 117 ∷ 45 ∷ 101 ∷ 99 ∷ 104 ∷ 111 ∷ 108 ∷ 105 ∷ 110 ∷ 101 ∷ []

abbrev uname_name : List ℕ
uname_name = 117 ∷ 45 ∷ 117 ∷ 110 ∷ 97 ∷ 109 ∷ 101 ∷ []

abbrev heapgrow_name : List ℕ
heapgrow_name = 117 ∷ 45 ∷ 104 ∷ 101 ∷ 97 ∷ 112 ∷ 103 ∷ 114 ∷ 111 ∷ 119 ∷ []

abbrev forker_name : List ℕ
forker_name = 117 ∷ 45 ∷ 102 ∷ 111 ∷ 114 ∷ 107 ∷ 101 ∷ 114 ∷ []

abbrev ush_name : List ℕ
ush_name = 117 ∷ 45 ∷ 117 ∷ 115 ∷ 104 ∷ []

-- `proc::spawn_user`, of one of the programs of the shell.
pub spawn : Platform → (name : List ℕ) → Span → Kernel → Outcome (ℕ × Kernel)
spawn p name span k = do
  prog ← image span
  (pid, system) ← spawn_user p.entries p.kroot (p.kstack k) name prog (k.sched, k.kmem)
  let (sched, kmem) = system
  ok (pid, record k { sched = sched; kmem = kmem })

-- A program that the shell waits for, since both would read the console.
pub spawn_joined : (naps : ℕ) → Platform → (name : List ℕ) → Span → Kernel → Outcome Kernel
spawn_joined naps p name span k = do (pid, k') ← spawn p name span k; join naps p pid k'

-- `cat`, with a round for each chunk of the longest file.
pub show_file : (fuel : ℕ) → Platform → (name : List ℕ) → Kernel → Outcome Kernel
show_file fuel p name k = do
  shown ← cat fuel p.from_utf8 name k.fs
  elim shown [ none ↦ ok k | some bytes ↦ ok (record k { output = k.output ++ bytes }) ]

abbrev pub stays : Outcome Kernel → Outcome (Option Kernel)
stays m = do k ← m; ok (some k)

-- The arms of the `match`; none where the machine is switched off or reset.
pub execute :
    (naps fuel : ℕ) → Platform → Command → (arg : List ℕ) → Kernel → Outcome (Option Kernel)
execute naps fuel p cat_cmd arg k = stays (show_file fuel p arg k)
execute naps fuel p greet_cmd arg k = do
  (pid, k') ← spawn p greeter_name p.programs.user_prog_greeter k
  ok (some k')
execute naps fuel p fault_cmd arg k = do
  (pid, k') ← spawn p trespasser_name p.programs.user_prog_trespasser k
  ok (some k')
execute naps fuel p echoline_cmd arg k =
    stays (spawn_joined naps p echoline_name p.programs.user_prog_echoline k)
execute naps fuel p uname_cmd arg k =
    stays (spawn_joined naps p uname_name p.programs.user_prog_uname k)
execute naps fuel p heapgrow_cmd arg k =
    stays (spawn_joined naps p heapgrow_name p.programs.user_prog_heapgrow k)
execute naps fuel p fork_cmd arg k =
    stays (spawn_joined naps p forker_name p.programs.user_prog_forker k)
execute naps fuel p ush_cmd arg k = stays (spawn_joined naps p ush_name p.programs.user_prog_ush k)
execute naps fuel p poweroff_cmd arg k = ok none
execute naps fuel p reboot_cmd arg k = ok none
execute naps fuel p _ arg k = ok (some k)

-- `run_command`, on the trimmed line.
pub run_command : (naps fuel : ℕ) → Platform → (line : List ℕ) → Kernel → Outcome (Option Kernel)
run_command naps fuel p line k =
    let (cmd, arg) = split_command (trim line) in execute naps fuel p (command_of cmd) arg k
