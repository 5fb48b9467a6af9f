-- ===== src/Syscall/Fread.antt =====
-- Reading an open file into the user's memory.
use osmium.Prelude.{
  ℕ, zero, suc, ◌+◌, ◌-◌, ◌≤◌, ◌<◌, ◌≡◌, refl, sym, ap, ◌∙◌, ◌⊎◌, inl, inr, Option, some, List, [],
  ◌∷◌, length, take, drop, replicate, min, get_elem?, arith, ne→==_false, length-take, length-drop,
  length-replicate,
}
use osmium.Machine.{usize_max}
use osmium.Machine.Returns
use osmium.Machine.Returns.{Returns, returns}
use osmium.Sched.{Process, Scheduler, FdEntry, put}
use osmium.Sched.Slots.{At, some-inj, none≢some}
use osmium.Sched.Files.{flatten, fd_advance}
use osmium.Sched.Files.Cursor.{fd_lookup-eq, fd_advance-eq, moved}
use osmium.Vm.Space.{Owner}
use osmium.Fs.{File, read_at}
use osmium.Fs.Laws.{read_at_lem}
use osmium.Syscall.{Kernel, write_max, err, refuses_write}
use osmium.Syscall.Pages.{user_bytes}
use osmium.Syscall.Copy.{Accepted, Rejected}
use osmium.Syscall.CopyOut.{CopiedOut, Written, AreBytes, copy_to_user-exact}
use osmium.Syscall.Calls.{Platform, deliver, sys_fread, read_open}
use osmium.Syscall.Replies.{IsCaller}

-- What `deliver` does.
abbrev pub Delivered :
    (kernel_end root : ℕ)
    → Owner
    → List ℕ
    → (ptr : ℕ) → List ℕ
    → Kernel
    → Option ℕ × Kernel
    → Type 0
Delivered kernel_end root own free ptr src k (r, k') =
    (k' ≡ record k { kmem = k'.kmem })
    × CopiedOut kernel_end root own free ptr src k.kmem (r, k'.kmem)

pub deliver_lem :
    (p : Platform) (ptr : ℕ) (src : List ℕ) (k : Kernel) {root : ℕ} {own : Owner} {free : List ℕ}
    → IsCaller p k root own free
    → AreBytes src
    → Returns (λ r. Delivered p.kernel_end root own free ptr src k r) (deliver p ptr src k)
unfolding deliver
deliver_lem p ptr src k {root} c bytes =
    rw (c.at_root, deliver)
      (Returns.bind (copy_to_user-exact ptr src c.space bytes) λ (r, kmem) out. returns (refl, out))

AreBytes-drop : (n : ℕ) (bs : List ℕ) → AreBytes bs → AreBytes (drop n bs)
AreBytes-drop zero bs a = a
AreBytes-drop (suc n) [] a = tt
AreBytes-drop (suc n) (b ∷ bs) a = AreBytes-drop n bs a.1

AreBytes-take : (n : ℕ) (bs : List ℕ) → AreBytes bs → AreBytes (take n bs)
AreBytes-take zero bs a = tt
AreBytes-take (suc n) [] a = tt
AreBytes-take (suc n) (b ∷ bs) a = (a.0, AreBytes-take n bs a.1)

-- The bytes that a read of at most `len` bytes gives.
abbrev pub slice : (len : ℕ) → FdEntry → File → List ℕ
slice len e f =
    take (min (min len write_max) (length f.data_bytes - e.offset)) (drop e.offset f.data_bytes)

-- The caller, and its open file.
pub record IsReading (k : Kernel) (cur : ℕ) (me : Process) (fd : ℕ) (e : FdEntry) (f : File)
    : Type 0 where
  pub current : k.sched.current ≡ some cur
  pub at : At k.sched.procs cur me
  pub entry : flatten (get_elem? me.fds fd) ≡ some e
  pub file : get_elem? k.fs e.file_idx ≡ some f
  pub bytes : AreBytes f.data_bytes
  pub fits : e.offset + length f.data_bytes ≤ usize_max

-- What the read call returns and does.
abbrev pub SysFread :
    (p : Platform)
    → (root : ℕ) → Owner
    → List ℕ
    → (fd ptr : ℕ) → List ℕ
    → (cur : ℕ) → Process
    → FdEntry
    → Kernel
    → ℕ × Kernel
    → Type 0
SysFread p root own free fd ptr got cur me e k (n, k') =
    ((n ≡ length got)
      × Accepted refuses_write root ptr (length got) k.kmem
      × (user_bytes (length got) root ptr k'.kmem ≡ got)
      × Written p.kernel_end root own k.kmem k'.kmem free ptr (ptr + length got)
      × (k' ≡ record k { kmem = k'.kmem; sched = put cur (moved fd (length got) e me) k.sched }))
    ⊎ ((n ≡ err) × (k' ≡ k) × Rejected refuses_write root ptr (length got) k.kmem)

-- The buffer that the file was read into, cut to what was read.
read_slice :
    (len : ℕ) (k : Kernel) {cur : ℕ} {me : Process} {fd : ℕ} {e : FdEntry} {f : File}
    → IsReading k cur me fd e f
    → let r = read_at e.file_idx e.offset (replicate (min len write_max) 0) k.fs in
      take r.1 r.0 ≡ slice len e f
read_slice len k {e} {f} c =
    elim (read_at_lem e.file_idx e.offset (replicate (min len write_max) 0) k.fs) [
      | inl (missing, _) ↦ absurd (none≢some (sym missing ∙ c.file))
      | inr (f', is, (size, n, same, rest)) ↦
          let g : f' ≡ f = some-inj (sym is ∙ c.file) in
          same
          ∙ ap
              (λ h.
                take (read_at e.file_idx e.offset (replicate (min len write_max) 0) k.fs).1
                  (drop e.offset h.data_bytes))
              g
          ∙ ap (λ m. take m (drop e.offset f.data_bytes))
              (n
                ∙ ap
                    (λ h.
                      min (length (replicate {A = ℕ} (min len write_max) 0))
                        (length h.data_bytes - e.offset))
                    g
                ∙ ap (λ l. min l (length f.data_bytes - e.offset))
                    (length-replicate (min len write_max) 0))
    ]

abbrev with_sched : Scheduler → Kernel → Kernel
with_sched s k = record k { sched = s }

slice-short : (len : ℕ) (e : FdEntry) (f : File) → length (slice len e f) ≤ length f.data_bytes
slice-short len e f = omega (
  arith,
  length-take (min (min len write_max) (length f.data_bytes - e.offset))
      (drop e.offset f.data_bytes),
  length-drop e.offset f.data_bytes,
)

-- On a caller whose table is the root of a sound address space, reading an open file of bytes,
-- with the cursor far from overflow, into a range of at least one byte never panics. If the bytes
-- that are read, at most 1024 from the cursor on, fit the range, and its pages are the user's and
-- writable, they stand there afterwards, their number is returned, and the cursor has moved on by
-- it, with every other part of the state and every other byte of the user as before; otherwise
-- the error value is returned and nothing changes.
pub sys_fread-exact :
    (p : Platform) (fd ptr len : ℕ) (k : Kernel) {root : ℕ} {own : Owner} {free : List ℕ} {cur : ℕ}
    {me : Process} {e : FdEntry} {f : File}
    → IsCaller p k root own free
    → IsReading k cur me fd e f
    → 0 < len
    → Returns
        (λ r. SysFread p root own free fd ptr (slice len e f) cur me e k r)
        (sys_fread p fd ptr len k)
unfolding sys_fread read_open
sys_fread-exact p fd ptr len k {root} {own} {free} {cur} {me} {e} {f} c r pos =
    rw (fd_lookup-eq fd k.sched r.current r.at r.entry, sys_fread)
      (rw (ne→==_false (min len write_max) 0 (λ z. omega arith), read_slice len k r, read_open)
        (Returns.bind (deliver_lem p ptr got k c got-AreBytes) λ (n, k2) (same, out). elim out [
          | inr (is, kept, bad) ↦
              rw is (returns (inr (refl, same ∙ ap (λ m. record k { kmem = m }) kept, bad)))
          | inl (is, fine, written, w) ↦
              let moved_on =
                ap (fd_advance fd (length got)) (ap (λ h. h.sched) same)
                ∙ fd_advance-eq fd (length got) k.sched r.current r.at r.entry
                    (omega (arith, r.fits, slice-short len e f)) in
              rw (is, moved_on)
                (returns (
                  inl (
                    refl,
                    fine,
                    written,
                    w,
                    ap (with_sched (put cur (moved fd (length got) e me) k.sched)) same,
                  )))
        ]))
  where
    got : List ℕ
    got = slice len e f

    got-AreBytes : AreBytes got
    got-AreBytes =
        AreBytes-take _ (drop e.offset f.data_bytes) (AreBytes-drop e.offset f.data_bytes r.bytes)
