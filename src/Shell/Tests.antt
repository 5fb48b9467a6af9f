-- ===== src/Shell/Tests.antt =====
-- A line with an error in it, and a file that is printed in one chunk.
use osmium.Prelude.{ℕ, ◌≡◌, refl, true, some, List, [], ◌∷◌, drop, arith}
use osmium.Machine.{ok}
use osmium.Fs.{motd, motd_data, cpuinfo}
use osmium.Shell.{read_line, cat_from, split_command, split_word, trim, trim_start, trim_end}
use osmium.Shell.Line.{LineRead, read_line-LineRead}
use osmium.Shell.Cat.{cat_from-whole}

-- "lx", a backspace, "s", and a newline.
abbrev typed : List ℕ
typed = 108 ∷ 120 ∷ 8 ∷ 115 ∷ 10 ∷ 113 ∷ []

read_line-LineRead_example : LineRead typed (read_line typed)
read_line-LineRead_example = read_line-LineRead typed

read_line_run :
    read_line typed
    ≡ some
        (record { line = 108 ∷ 115 ∷ []; echo = 108 ∷ 120 ∷ 8 ∷ 32 ∷ 8 ∷ 115 ∷ 10 ∷ [] }, 113 ∷ [])
unfolding read_line osmium.Shell.edit_line osmium.Shell.edit osmium.Shell.backspace
    osmium.Shell.type_byte
read_line_run = refl

-- "cat  motd"
split_command_run :
    split_command (99 ∷ 97 ∷ 116 ∷ 32 ∷ 32 ∷ 109 ∷ 111 ∷ []) ≡ (99 ∷ 97 ∷ 116 ∷ [], 109 ∷ 111 ∷ [])
unfolding split_command split_word trim trim_start trim_end
split_command_run = refl

cat_from-whole_example :
    cat_from 2 (λ bytes. true) 0 0 (motd ∷ cpuinfo ∷ []) ≡ ok (drop 0 motd_data)
cat_from-whole_example =
    cat_from-whole 2 (λ bytes. true) 0 0 (motd ∷ cpuinfo ∷ []) refl (λ offset n. refl) (omega arith)
      (omega arith) (omega arith)
