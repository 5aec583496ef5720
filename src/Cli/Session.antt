-- ===== src/Cli/Session.antt =====
-- The loop of `CLI::run` in include/CLI.hpp: the current directory, and when the loop ends.
use osep.Common.{
  ℕ, zero, suc, ◌≡◌, refl, ap, sym, ◌∙◌, inl, inr, ◌⊎◌, ◌>>=◌, some, List, [], ◌∷◌, ◌++◌, Bool,
  true, false, ◌||◌, arith, Bool-cases, Option-cases,
}
use osep.Common.Bytes.{Buffer}
use osep.Common.Text.{codes, str_eq, words}
use osep.FileSys.Paths.{is_rooted}
use osep.Cli.{Cli, Message}
use osep.Cli.Stays.{dispatch-Rooted, run_format-rooted}
use osep.Cli.Run.{
  dispatch, read_answer, run_format, leaves, goes_on, round_of, round, Outcome, returned, running,
  run,
}

format_step :
    (line : Buffer) (lines lines' : List Buffer) (c c' : Cli) (out : List Message)
    → is_rooted c.cur_path ≡ true
    → (do
      let (answer, rest) = read_answer line lines
      (out', c1) ← run_format answer c
      some (goes_on rest out' c1))
      ≡ some (goes_on lines' out c')
    → is_rooted c'.cur_path ≡ true
format_step line lines lines' c c' out r e =
    let (answer, rest) = read_answer line lines in
    elim (Option-cases (run_format answer c)) [
      | inl e1 ↦ absurd (ground arith)
      | inr ((out', c1), e1) ↦ run_format-rooted answer c c' out r (e1 ∙ ground arith)
    ]

command_step :
    (cmd : Buffer) (args lines lines' : List Buffer) (c c' : Cli) (out : List Message)
    → is_rooted c.cur_path ≡ true
    → (do (out', c1) ← dispatch cmd args c; some (goes_on lines out' c1))
      ≡ some (goes_on lines' out c')
    → is_rooted c'.cur_path ≡ true
command_step cmd args lines lines' c c' out r e = elim (Option-cases (dispatch cmd args c)) [
  | inl e1 ↦ absurd (ground arith)
  | inr ((out', c1), e1) ↦ dispatch-Rooted cmd args c r out c' (e1 ∙ ground arith)
]

round_of-rooted :
    (line : Buffer) (args lines lines' : List Buffer) (c c' : Cli) (out : List Message)
    → is_rooted c.cur_path ≡ true
    → round_of line args lines c ≡ some (goes_on lines' out c')
    → is_rooted c'.cur_path ≡ true
unfolding round_of
round_of-rooted line [] lines lines' c c' out r e = ground arith
round_of-rooted line (cmd ∷ args) lines lines' c c' out r e =
    elim (Bool-cases (str_eq cmd (codes "exit"))) [
      | inl h ↦ absurd (ground arith)
      | inr h ↦ elim (Bool-cases (str_eq cmd (codes "format"))) [
        | inl g ↦ format_step line lines lines' c c' out r (rw g at (rw h at e))
        | inr g ↦ command_step cmd args lines lines' c c' out r (rw g at (rw h at e))
      ]
    ]

round-rooted :
    (lines lines' : List Buffer) (c c' : Cli) (out : List Message)
    → is_rooted c.cur_path ≡ true
    → round lines c ≡ some (goes_on lines' out c')
    → is_rooted c'.cur_path ≡ true
unfolding round
round-rooted [] lines' c c' out r e = round_of-rooted [] [] [] lines' c c' out r e
round-rooted (line ∷ lines) lines' c c' out r e =
    round_of-rooted line (words line) lines lines' c c' out r e

-- The state in which the loop stands.
unfoldable pub state_of : Outcome → Cli
state_of (returned out c) = c
state_of (running lines out c) = c

-- If the current directory is given from the root on, it still is after any number of rounds of
-- the loop over any lines of input that go without a fault.
pub run-is_rooted :
    (n : ℕ) (lines : List Buffer) (out : List Message) (c : Cli) (o : Outcome)
    → is_rooted c.cur_path ≡ true
    → run n lines out c ≡ some o
    → is_rooted (state_of o).cur_path ≡ true
unfolding run state_of
run-is_rooted zero lines out c o r e = ground arith
run-is_rooted (suc n) lines out c o r e = elim (Option-cases (round lines c)) [
  | inl e1 ↦ absurd (ground arith)
  | inr (leaves, e1) ↦ ground arith
  | inr (goes_on lines' out' c', e1) ↦
      run-is_rooted n lines' (out ++ out') c' o (round-rooted lines lines' c c' out' r e1)
        (rw e1 at e)
]

-- The first word of the line is `exit`.
unfoldable pub is_exit : List Buffer → Bool
is_exit [] = false
is_exit (cmd ∷ args) = str_eq cmd (codes "exit")

unfoldable pub has_exit : List Buffer → Bool
unfolding is_exit
has_exit [] = false
has_exit (line ∷ lines) = is_exit (words line) || has_exit lines

pub words_cases :
    (ws : List Buffer) → (ws ≡ []) ⊎ ((w : Buffer) × (rest : List Buffer) × (ws ≡ w ∷ rest))
words_cases [] = inl refl
words_cases (w ∷ rest) = inr (w, rest, refl)

pub read_answer_skips :
    (line next : Buffer) (lines : List Buffer)
    → words next ≡ []
    → read_answer line (next ∷ lines) ≡ read_answer line lines
unfolding read_answer
read_answer_skips line next lines e = rw (e, read_answer) refl

pub read_answer_takes :
    (line next w : Buffer) (rest lines : List Buffer)
    → words next ≡ w ∷ rest
    → read_answer line (next ∷ lines) ≡ (w, lines)
unfolding read_answer
read_answer_takes line next w rest lines e = rw (e, read_answer) refl

read_answer-has_exit :
    (line : Buffer) (lines : List Buffer)
    → has_exit (read_answer line lines).1 ≡ true
    → has_exit (line ∷ lines) ≡ true
unfolding read_answer has_exit
read_answer-has_exit line [] h = ground arith
read_answer-has_exit line (next ∷ lines) h = elim (words_cases (words next)) [
  | inl e ↦
      let below : has_exit (line ∷ lines) ≡ true = read_answer-has_exit line lines (
        ap (λ (p : Buffer × List Buffer). has_exit p.1) (sym (read_answer_skips line next lines e))
        ∙ h) in
      ground arith
  | inr (w, rest, e) ↦
      let below : has_exit lines ≡ true =
        ap (λ (p : Buffer × List Buffer). has_exit p.1)
          (sym (read_answer_takes line next w rest lines e))
        ∙ h in
      ground arith
]

pub format_lines :
    (line : Buffer) (lines lines' : List Buffer) (c c' : Cli) (out : List Message)
    → (do
      let (answer, rest) = read_answer line lines
      (out', c1) ← run_format answer c
      some (goes_on rest out' c1))
      ≡ some (goes_on lines' out c')
    → (read_answer line lines).1 ≡ lines'
format_lines line lines lines' c c' out e =
    let (answer, rest) = read_answer line lines in
    elim (Option-cases (run_format answer c)) [
      | inl e1 ↦ absurd (ground arith)
      | inr ((out', c1), e1) ↦ ground arith
    ]

round_of-has_exit :
    (line : Buffer) (args lines lines' : List Buffer) (c c' : Cli) (out : List Message)
    → round_of line args lines c ≡ some (goes_on lines' out c')
    → has_exit lines' ≡ true
    → has_exit (line ∷ lines) ≡ true
unfolding round_of has_exit
round_of-has_exit line [] lines lines' c c' out e h = ground arith
round_of-has_exit line (cmd ∷ args) lines lines' c c' out e h =
    elim (Bool-cases (str_eq cmd (codes "exit"))) [
      | inl q ↦ absurd (ground arith)
      | inr q ↦ elim (Bool-cases (str_eq cmd (codes "format"))) [
        | inl g ↦
            let same = format_lines line lines lines' c c' out (rw g at (rw q at e)) in
            read_answer-has_exit line lines (ap has_exit same ∙ h)
        | inr g ↦
            let same : lines ≡ lines' = ground arith in
            let below : has_exit lines ≡ true = ap has_exit same ∙ h in ground arith
      ]
    ]

round-has_exit :
    (lines lines' : List Buffer) (c c' : Cli) (out : List Message)
    → round lines c ≡ some (goes_on lines' out c')
    → has_exit lines' ≡ true
    → has_exit lines ≡ true
unfolding round round_of has_exit
round-has_exit [] lines' c c' out e h = ground arith
round-has_exit (line ∷ lines) lines' c c' out e h =
    round_of-has_exit line (words line) lines lines' c c' out e h

round_of-leaves :
    (line : Buffer) (args lines : List Buffer) (c : Cli)
    → round_of line args lines c ≡ some leaves
    → is_exit args ≡ true
unfolding round_of is_exit
round_of-leaves line [] lines c e = absurd (ground arith)
round_of-leaves line (cmd ∷ args) lines c e = ground arith

round-leaves : (lines : List Buffer) (c : Cli) → round lines c ≡ some leaves → has_exit lines ≡ true
unfolding round has_exit is_exit
round-leaves [] c e = absurd (ground (arith, round_of-leaves [] [] [] c e))
round-leaves (line ∷ lines) c e = rw (round_of-leaves line (words line) lines c e) refl

-- If the loop returns within some number of rounds, the first word of one of the lines that it
-- was given is `exit`.
pub run-returned :
    (n : ℕ) (lines : List Buffer) (out out' : List Message) (c c' : Cli)
    → run n lines out c ≡ some (returned out' c')
    → has_exit lines ≡ true
unfolding run
run-returned zero lines out out' c c' e = absurd (ground arith)
run-returned (suc n) lines out out' c c' e = elim (Option-cases (round lines c)) [
  | inl e1 ↦ absurd (ground arith)
  | inr (leaves, e1) ↦ round-leaves lines c e1
  | inr (goes_on lines' out1 c1, e1) ↦
      round-has_exit lines lines' c c1 out1 e1
        (run-returned n lines' (out ++ out1) out' c1 c' (rw e1 at e))
]
