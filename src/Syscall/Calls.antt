-- ===== src/Syscall/Calls.antt =====
-- The system calls, and their dispatch on the number in a7. What the kernel reports on its console
-- about a process (`println!`) is left out; what a process writes is kept.
use osmium.Prelude.{
  ℕ, zero, suc, ◌-◌, Bool, true, false, ◌||◌, ltb, ◌==◌, if◌then◌else◌, Option, none, some, List,
  [], ◌∷◌, ◌++◌, length, take, replicate, min,
}
use osmium.Machine.{Outcome, ok, spin, ◌>>=◌}
use osmium.Sched.Break.{current_root}
use osmium.Sched.Files.{fd_install, fd_lookup, fd_advance}
use osmium.Console.{Input, getchar, getchar_round}
use osmium.Fs.{Files, read_at}
use osmium.Fs
use osmium.User.{Programs}
use osmium.User
use osmium.Image.{Entries, exec}
use osmium.Syscall.{Kernel, path_max, write_max, err, uname_text, copy_from_user, copy_to_user}

abbrev pub sys_write_no : ℕ
sys_write_no = 1

abbrev pub sys_exit_no : ℕ
sys_exit_no = 2

abbrev pub sys_yield_no : ℕ
sys_yield_no = 3

abbrev pub sys_getpid_no : ℕ
sys_getpid_no = 4

abbrev pub sys_sleep_ms_no : ℕ
sys_sleep_ms_no = 5

abbrev pub sys_read_no : ℕ
sys_read_no = 6

abbrev pub sys_uname_no : ℕ
sys_uname_no = 7

abbrev pub sys_open_no : ℕ
sys_open_no = 8

abbrev pub sys_fread_no : ℕ
sys_fread_no = 9

abbrev pub sys_close_no : ℕ
sys_close_no = 10

abbrev pub sys_sbrk_no : ℕ
sys_sbrk_no = 11

abbrev pub sys_fork_no : ℕ
sys_fork_no = 12

abbrev pub sys_wait_no : ℕ
sys_wait_no = 13

abbrev pub sys_exec_no : ℕ
sys_exec_no = 14

-- What the calls take from elsewhere: `core::str::from_utf8`, the addresses that the linker and the
-- heap give out, and the course of the other threads while the caller is off the hart.
pub record Platform : Type 0 where
  pub from_utf8 : List ℕ → Bool
  pub programs : Programs
  pub entries : Entries
  pub kernel_end : ℕ
  pub kroot : ℕ
  pub input_chan : ℕ
  pub kstack : Kernel → ℕ
  pub resume : Kernel → Outcome Kernel

-- A call that returns a value, or that does not return: the caller has exited or runs a new image.
pub data Reply : Type 0 where
  value : ℕ → Reply
  gone : Reply

abbrev pub Effect : Type 0
Effect = Outcome (ℕ × Kernel)

-- The copies, through the table of the current process.
unfoldable pub fetch : Platform → (ptr len : ℕ) → Kernel → Outcome (Option (List ℕ) × Kernel)
fetch p ptr len k = do
  root ← current_root p.kroot k.sched
  (r, kmem) ← copy_from_user root ptr len k.kmem
  ok (r, record k { kmem = kmem })

unfoldable pub deliver : Platform → (ptr : ℕ) → List ℕ → Kernel → Outcome (Option ℕ × Kernel)
deliver p ptr src k = do
  root ← current_root p.kroot k.sched
  (r, kmem) ← copy_to_user root ptr src k.kmem
  ok (r, record k { kmem = kmem })

abbrev pub or_err : Option ℕ → ℕ
or_err none = err
or_err (some n) = n

unfoldable pub sys_write : Platform → (ptr len : ℕ) → Kernel → Effect
sys_write p ptr len k = elim (ltb write_max len) [
  | true ↦ ok (err, k)
  | false ↦ do
    (r, k') ← fetch p ptr len k
    elim r [
      | none ↦ ok (err, k')
      | some bytes ↦ elim (p.from_utf8 bytes) [
        | true ↦ ok (len, record k' { output = k'.output ++ bytes })
        | false ↦ ok (err, k')
      ]
    ]
]

-- `getchar_blocking`, for at most `naps` sleeps.
unfoldable pub getchar_blocking : (naps : ℕ) → Platform → Kernel → Effect
getchar_blocking zero p k = spin
getchar_blocking (suc naps) p k = do
  (byte, input, sched) ← getchar_round p.input_chan (k.input, k.sched)
  let k1 = record k { input = input; sched = sched }
  elim byte [ some b ↦ ok (b, k1) | none ↦ do k2 ← p.resume k1; getchar_blocking naps p k2 ]

-- The loop of `sys_read` over what is buffered, with room for `n` bytes.
unfoldable pub drain : (n : ℕ) → Input → Outcome (List ℕ × Input)
drain zero input = ok ([], input)
drain (suc n) input = do
  (byte, input') ← getchar input
  elim byte [
    | none ↦ ok ([], input')
    | some b ↦ do (rest, input'') ← drain n input'; ok (b ∷ rest, input'')
  ]

unfoldable pub sys_read : (naps : ℕ) → Platform → (ptr len : ℕ) → Kernel → Effect
sys_read naps p ptr len k = elim (len == 0) [
  | true ↦ ok (0, k)
  | false ↦ do
    let cap = min len write_max
    (first, k1) ← getchar_blocking naps p k
    (rest, input) ← drain (cap - 1) k1.input
    (r, k2) ← deliver p ptr (first ∷ rest) (record k1 { input = input })
    ok (or_err r, k2)
]

pub sys_uname : Platform → (ptr len : ℕ) → Kernel → Effect
sys_uname p ptr len k = do
  (r, k') ← deliver p ptr (take (min (length uname_text) len) uname_text) k
  ok (or_err r, k')

-- The name in the user's memory that open and exec begin with; none is an error.
unfoldable pub fetch_name : Platform → (ptr len : ℕ) → Kernel → Outcome (Option (List ℕ) × Kernel)
fetch_name p ptr len k = elim ((len == 0) || ltb path_max len) [
  | true ↦ ok (none, k)
  | false ↦ do
    (r, k') ← fetch p ptr len k
    elim r [
      | none ↦ ok (none, k')
      | some bytes ↦ ok (if p.from_utf8 bytes then some bytes else none, k')
    ]
]

pub sys_exec : Platform → (ptr len : ℕ) → Kernel → Outcome (Reply × Kernel)
sys_exec p ptr len k = do
  (name, k1) ← fetch_name p ptr len k
  elim name [
    | none ↦ ok (value err, k1)
    | some bytes ↦ do
      found ← User.lookup p.programs bytes
      elim found [
        | none ↦ ok (value err, k1)
        | some prog ↦ do
          (entering, system) ← exec p.kernel_end p.kroot prog (k1.sched, k1.kmem)
          let (sched, kmem) = system
          ok (gone, record k1 { sched = sched; kmem = kmem })
      ]
  ]

unfoldable pub sys_open : Platform → (ptr len : ℕ) → Kernel → Effect
sys_open p ptr len k = do
  (name, k1) ← fetch_name p ptr len k
  elim name [
    | none ↦ ok (err, k1)
    | some bytes ↦ elim (Fs.lookup bytes k1.fs) [
      | none ↦ ok (err, k1)
      | some file_idx ↦ do
        (fd, sched) ← fd_install file_idx k1.sched
        ok (or_err fd, record k1 { sched = sched })
    ]
  ]

-- The rest of `sys_fread`, for an open file.
unfoldable pub read_open : Platform → (fd ptr len : ℕ) → (file_idx offset : ℕ) → Kernel → Effect
read_open p fd ptr len file_idx offset k = elim (min len write_max == 0) [
  | true ↦ ok (0, k)
  | false ↦ do
    let (buf, n) = read_at file_idx offset (replicate (min len write_max) 0) k.fs
    (r, k2) ← deliver p ptr (take n buf) k
    elim r [
      | none ↦ ok (err, k2)
      | some written ↦ do
        sched' ← fd_advance fd written k2.sched
        ok (written, record k2 { sched = sched' })
    ]
]

unfoldable pub sys_fread : Platform → (fd ptr len : ℕ) → Kernel → Effect
sys_fread p fd ptr len k = do
  (entry, sched) ← fd_lookup fd k.sched
  let k1 = record k { sched = sched }
  elim entry [
    | none ↦ ok (err, k1)
    | some (file_idx, offset) ↦ read_open p fd ptr len file_idx offset k1
  ]
