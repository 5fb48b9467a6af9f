-- ===== src/User.antt =====
-- user.rs, the table of the user programs. Their code is assembly, and the addresses at which it lies
-- are the linker's, so they are an argument; a name is the bytes of its string.
use osmium.Prelude.{ℕ, if◌then◌else◌, Option, none, some, List, [], ◌∷◌}
use osmium.Machine.{Outcome, ok, ◌>>=◌, sub}
use osmium.Fs.{eq_bytes}

-- The first address of a program's image, and the one behind it.
abbrev pub Span : Type 0
Span = ℕ × ℕ

pub record Programs : Type 0 where
  pub user_prog_greeter : Span
  pub user_prog_trespasser : Span
  pub user_prog_badsys : Span
  pub user_prog_uname : Span
  pub user_prog_echoline : Span
  pub user_prog_catfile : Span
  pub user_prog_heapgrow : Span
  pub user_prog_forker : Span
  pub user_prog_forkexec : Span
  pub user_prog_ush : Span

-- The link address and the length.
abbrev pub Prog : Type 0
Prog = ℕ × ℕ

unfoldable pub image : Span → Outcome Prog
image (s, e) = do len ← sub e s; ok (s, len)

-- The names that the exec system call knows.
abbrev pub greeter_name : List ℕ
greeter_name = 103 ∷ 114 ∷ 101 ∷ 101 ∷ 116 ∷ 101 ∷ 114 ∷ []

abbrev pub uname_name : List ℕ
uname_name = 117 ∷ 110 ∷ 97 ∷ 109 ∷ 101 ∷ []

abbrev pub heapgrow_name : List ℕ
heapgrow_name = 104 ∷ 101 ∷ 97 ∷ 112 ∷ 103 ∷ 114 ∷ 111 ∷ 119 ∷ []

abbrev pub forker_name : List ℕ
forker_name = 102 ∷ 111 ∷ 114 ∷ 107 ∷ 101 ∷ 114 ∷ []

abbrev pub catfile_name : List ℕ
catfile_name = 99 ∷ 97 ∷ 116 ∷ 102 ∷ 105 ∷ 108 ∷ 101 ∷ []

-- The image that `match name` selects.
unfoldable pub span_of : Programs → List ℕ → Option Span
span_of l name =
    if eq_bytes name greeter_name
    then some l.user_prog_greeter
    else if eq_bytes name uname_name
    then some l.user_prog_uname
    else if eq_bytes name heapgrow_name
    then some l.user_prog_heapgrow
    else if eq_bytes name forker_name
    then some l.user_prog_forker
    else if eq_bytes name catfile_name
    then some l.user_prog_catfile
    else none

unfoldable pub lookup : Programs → List ℕ → Outcome (Option Prog)
lookup l name = elim (span_of l name) [
  | none ↦ ok none
  | some span ↦ do prog ← image span; ok (some prog)
]
