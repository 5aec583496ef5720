-- ===== src/Cli/Idle.antt =====
-- The loop of `CLI::run` in include/CLI.hpp behind the end of the input.
use osep.Common.{
  ℕ, zero, suc, ◌≤◌, ◌<◌, ◌≡◌, refl, ap, sym, ◌∙◌, inl, inr, ◌⊎◌, some, List, [], ◌∷◌, ◌++◌, true,
  arith, Bool-cases, Option-cases, replicate, length,
}
use mathlib.Core.Path.{subst}
use mathlib.Core.List.{append-nil, append_assoc}
use osep.Common.Bytes.{Buffer}
use osep.Common.Text.{codes, str_eq, words}
use osep.Cli.{Cli, Message, format_question}
use osep.Cli.Run.{read_answer, run_format, leaves, goes_on, round_of, round, running, run}
use osep.Cli.Session.{words_cases, read_answer_skips, read_answer_takes, format_lines}

str_eq_lem : (xs ys : Buffer) → str_eq xs ys ≡ true → xs ≡ ys
unfolding str_eq
str_eq_lem [] [] h = refl
str_eq_lem [] (y ∷ ys) h = absurd (ground arith)
str_eq_lem (x ∷ xs) [] h = absurd (ground arith)
str_eq_lem (x ∷ xs) (y ∷ ys) h = ground (arith, str_eq_lem xs ys)

-- How the input looks to the loop when nothing more can come of it: there is no line, or only one
-- whose first word is `format`.
unfoldable pub IsSpent : List Buffer → Type 0
IsSpent lines =
    (lines ≡ [])
    ⊎ ((line : Buffer) × (args : List Buffer) × (lines ≡ line ∷ [])
        × (words line ≡ codes "format" ∷ args))

-- What is printed in so many rounds of a loop whose input is spent.
unfoldable pub questions : ℕ → List Buffer → List Message
questions n [] = []
questions n (line ∷ lines) = replicate n format_question

round-unanswered :
    (line : Buffer) (args : List Buffer) (c : Cli)
    → words line ≡ codes "format" ∷ args
    → round (line ∷ []) c ≡ some (goes_on (line ∷ []) (format_question ∷ []) c)
unfolding round round_of read_answer run_format str_eq
round-unanswered line args c e = rw e refl

run-unanswered :
    (n : ℕ) (line : Buffer) (args : List Buffer) (out : List Message) (c : Cli)
    → words line ≡ codes "format" ∷ args
    → run n (line ∷ []) out c ≡ some (running (line ∷ []) (out ++ replicate n format_question) c)
unfolding run
run-unanswered zero line args out c e =
    ap (λ o. some (running (line ∷ []) o c)) (sym (append-nil out))
run-unanswered (suc n) line args out c e = rw (round-unanswered line args c e) (
    run-unanswered n line args (out ++ format_question ∷ []) c e
    ∙ ap (λ o. some (running (line ∷ []) o c))
        (append_assoc out (format_question ∷ []) (replicate n format_question)))

run-silent : (n : ℕ) (out : List Message) (c : Cli) → run n [] out c ≡ some (running [] out c)
unfolding run round round_of
run-silent zero out c = refl
run-silent (suc n) out c = ap (λ o. run n [] o c) (append-nil out) ∙ run-silent n out c

run-IsSpent :
    (n : ℕ) (lines : List Buffer) (out : List Message) (c : Cli)
    → IsSpent lines
    → run n lines out c ≡ some (running lines (out ++ questions n lines) c)
unfolding IsSpent questions
run-IsSpent n lines out c (inl e) =
    rw e (run-silent n out c ∙ ap (λ o. some (running [] o c)) (sym (append-nil out)))
run-IsSpent n lines out c (inr (line, args, e, w)) = rw e (run-unanswered n line args out c w)

-- The answer takes a line away, or leaves the last line alone.
read_answer-shorter :
    (line : Buffer) (lines : List Buffer)
    → (length (read_answer line lines).1 < length (line ∷ lines))
      ⊎ ((read_answer line lines).1 ≡ line ∷ [])
unfolding read_answer
read_answer-shorter line [] = inr refl
read_answer-shorter line (next ∷ lines) = elim (words_cases (words next)) [
  | inl e ↦ elim (read_answer-shorter line lines) [
    | inl less ↦
        let same =
          ap (λ (p : Buffer × List Buffer). length p.1) (read_answer_skips line next lines e) in
        inl (omega arith)
    | inr last ↦
        inr (ap (λ (p : Buffer × List Buffer). p.1) (read_answer_skips line next lines e) ∙ last)
  ]
  | inr (w, rest, e) ↦
      let same =
        ap (λ (p : Buffer × List Buffer). length p.1)
          (read_answer_takes line next w rest lines e) in
      inl (omega arith)
]

round_of-shorter :
    (line : Buffer) (args lines lines' : List Buffer) (c c' : Cli) (out : List Message)
    → words line ≡ args
    → round_of line args lines c ≡ some (goes_on lines' out c')
    → (length lines' < length (line ∷ lines)) ⊎ IsSpent lines'
unfolding round_of IsSpent
round_of-shorter line [] lines lines' c c' out w e =
    let same : lines ≡ lines' = ground arith in
    let len = ap (λ (l : List Buffer). length l) same in inl (omega arith)
round_of-shorter line (cmd ∷ args) lines lines' c c' out w e =
    elim (Bool-cases (str_eq cmd (codes "exit"))) [
      | inl q ↦ absurd (ground arith)
      | inr q ↦ elim (Bool-cases (str_eq cmd (codes "format"))) [
        | inl g ↦
            let same = format_lines line lines lines' c c' out (rw g at (rw q at e)) in
            elim (read_answer-shorter line lines) [
              | inl less ↦ let len = ap (λ (l : List Buffer). length l) same in inl (omega arith)
              | inr last ↦ inr (
                  inr (
                    line,
                    args,
                    sym same ∙ last,
                    w ∙ ap (λ (x : Buffer). x ∷ args) (str_eq_lem cmd (codes "format") g),
                  ))
            ]
        | inr g ↦
            let same : lines ≡ lines' = ground arith in
            let len = ap (λ (l : List Buffer). length l) same in inl (omega arith)
      ]
    ]

round-shorter :
    (lines lines' : List Buffer) (c c' : Cli) (out : List Message)
    → round lines c ≡ some (goes_on lines' out c')
    → (length lines' < length lines) ⊎ IsSpent lines'
unfolding round round_of IsSpent
round-shorter [] lines' c c' out e = inr (inl (ground arith))
round-shorter (line ∷ lines) lines' c c' out e =
    round_of-shorter line (words line) lines lines' c c' out refl e

run_lines :
    (n : ℕ) (lines lines' : List Buffer) (out out' : List Message) (c c' : Cli)
    → IsSpent lines
    → run n lines out c ≡ some (running lines' out' c')
    → lines ≡ lines'
run_lines n lines lines' out out' c c' h e = let known = run-IsSpent n lines out c h in ground arith

nothing-IsSpent : IsSpent []
unfolding IsSpent
nothing-IsSpent = inl refl

run-spends :
    (n : ℕ) (lines lines' : List Buffer) (out out' : List Message) (c c' : Cli)
    → length lines ≤ n
    → run n lines out c ≡ some (running lines' out' c')
    → IsSpent lines'
unfolding run
run-spends zero [] lines' out out' c c' le e = subst IsSpent (ground arith) nothing-IsSpent
run-spends zero (line ∷ lines) lines' out out' c c' le e = absurd (omega arith)
run-spends (suc n) lines lines' out out' c c' le e = elim (Option-cases (round lines c)) [
  | inl e1 ↦ absurd (ground arith)
  | inr (leaves, e1) ↦ absurd (ground arith)
  | inr (goes_on lines1 out1 c1, e1) ↦
      let rest : run n lines1 (out ++ out1) c1 ≡ some (running lines' out' c') = rw e1 at e in
      elim (round-shorter lines lines1 c c1 out1 e1) [
        | inl less ↦ run-spends n lines1 lines' (out ++ out1) out' c1 c' (omega arith) rest
        | inr h ↦ subst IsSpent (run_lines n lines1 lines' (out ++ out1) out' c1 c' h rest) h
      ]
]

-- If the loop has run without a fault for as many rounds as there were lines at least and has
-- not returned, then no line is left, or only one whose first word is `format`, behind which
-- there was no answer; and for any number of rounds more it goes on with that input and the
-- state unchanged, printing nothing but its prompt in the first case, and the question of
-- `format` once a round in the second.
pub run-idle :
    (n : ℕ) (lines lines' : List Buffer) (out out' : List Message) (c c' : Cli)
    → length lines ≤ n
    → run n lines out c ≡ some (running lines' out' c')
    → IsSpent lines'
      × ((m : ℕ) → run m lines' out' c' ≡ some (running lines' (out' ++ questions m lines') c'))
run-idle n lines lines' out out' c c' le e =
    let spent = run-spends n lines lines' out out' c c' le e in
    (spent, λ m. run-IsSpent m lines' out' c' spent)
