-- ===== src/Shell.antt =====
-- shell.rs, the line editor, the choice of a command, and `cat`. A line is a list of bytes: it only
-- ever holds printable ASCII. What goes to the terminal is a list of bytes as well. `keys` are the bytes that
-- successive calls of `getchar_blocking` return.
pub mod Line
pub mod Cat
pub mod Commands
mod Tests
use osmium.Prelude.{
  ℕ, zero, suc, ◌+◌, Bool, true, false, ◌&&◌, ◌||◌, ltb, leb, ◌==◌, if◌then◌else◌, Option, none,
  some, List, [], ◌∷◌, ◌++◌, length, take, replicate,
}
use osmium.Machine.{Outcome, ok, panic, spin, ◌>>=◌, add}
use osmium.Fs.{Files, eq_bytes, read_at}
use osmium.Fs

abbrev pub max_line : ℕ
max_line = 128

-- The line, and what was sent to the terminal.
pub record Editor : Type 0 where
  pub line : List ℕ
  pub echo : List ℕ

-- The list without its last element, as `String::pop` leaves it.
abbrev pub pop : List ℕ → List ℕ
pop [] = []
pop (b ∷ []) = []
pop (b ∷ c ∷ bs) = b ∷ pop (c ∷ bs)

-- A backspace, a blank over the character, and a backspace.
abbrev pub erase : List ℕ
erase = 8 ∷ 32 ∷ 8 ∷ []

pub backspace : Editor → Editor
backspace ed = elim ed.line [
  | [] ↦ ed
  | b ∷ bs ↦ record { line = pop (b ∷ bs); echo = ed.echo ++ erase }
]

pub type_byte : ℕ → Editor → Editor
type_byte b ed = record { line = ed.line ++ b ∷ []; echo = ed.echo ++ b ∷ [] }

-- The `match` of `read_line` on a byte other than the newline.
pub edit : ℕ → Editor → Editor
edit b ed =
    if (b == 0x7f) || (b == 8)
    then backspace ed
    else if leb 0x20 b && leb b 0x7e && ltb (length ed.line) max_line
    then type_byte b ed
    else ed

-- The loop of `read_line`: the editor at the newline and the bytes after it, or none while there is
-- none and the loop waits.
pub edit_line : (keys : List ℕ) → Editor → Option (Editor × List ℕ)
edit_line [] ed = none
edit_line (b ∷ keys) ed = elim (b == 10) [
  | true ↦ some (record ed { echo = ed.echo ++ 10 ∷ [] }, keys)
  | false ↦ edit_line keys (edit b ed)
]

pub read_line : (keys : List ℕ) → Option (Editor × List ℕ)
read_line keys = edit_line keys (record { line = []; echo = [] })

-- `char::is_whitespace`, on ASCII.
abbrev pub is_whitespace : ℕ → Bool
is_whitespace b = (b == 32) || (leb 9 b && leb b 13)

-- `splitn(2, char::is_whitespace)`: the first word, and what follows the space behind it.
pub split_word : List ℕ → List ℕ × List ℕ
split_word [] = ([], [])
split_word (b ∷ line) =
    let (cmd, arg) = split_word line in if is_whitespace b then ([], line) else (b ∷ cmd, arg)

pub trim_start : List ℕ → List ℕ
trim_start [] = []
trim_start (b ∷ line) = let rest = trim_start line in if is_whitespace b then rest else b ∷ line

pub trim_end : List ℕ → List ℕ
trim_end [] = []
trim_end (b ∷ line) = elim (trim_end line) [
  | [] ↦ if is_whitespace b then [] else b ∷ []
  | c ∷ rest ↦ b ∷ c ∷ rest
]

pub trim : List ℕ → List ℕ
trim line = trim_end (trim_start line)

-- The command word and its argument, as `run_command` takes them from a trimmed line.
pub split_command : List ℕ → List ℕ × List ℕ
split_command line = let (cmd, arg) = split_word line in (cmd, trim arg)

-- The loop of `cat`, on the file `idx` from `offset` on, for at most `fuel` chunks of 64 bytes; what is
-- no UTF-8 prints as a question mark.
pub cat_from :
    (fuel : ℕ) → (from_utf8 : List ℕ → Bool) → (idx offset : ℕ) → Files → Outcome (List ℕ)
cat_from zero from_utf8 idx offset fs = spin
cat_from (suc fuel) from_utf8 idx offset fs =
    let (buf, n) = read_at idx offset (replicate 64 0) fs in
    elim (n == 0) [
      | true ↦ ok []
      | false ↦ do
        let shown = if from_utf8 (take n buf) then take n buf else 63 ∷ []
        next ← add offset n
        rest ← cat_from fuel from_utf8 idx next fs
        ok (shown ++ rest)
    ]

-- What `cat` prints, for a name that is there; none is one of its two messages.
pub cat :
    (fuel : ℕ) → (from_utf8 : List ℕ → Bool) → (name : List ℕ) → Files → Outcome (Option (List ℕ))
cat fuel from_utf8 [] fs = ok none
cat fuel from_utf8 (b ∷ bs) fs = elim (Fs.lookup (b ∷ bs) fs) [
  | none ↦ ok none
  | some idx ↦ do shown ← cat_from fuel from_utf8 idx 0 fs; ok (some shown)
]
