-- ===== src/Guest/Sessions/Plan.antt =====
-- ExecuteCommand of internal/ssh/macos.go against a plan of what it does.
use mac_os_vz_kubelet.Common.{
  ℕ, suc, String, ◌<>◌, ◌≡◌, refl, ◌∙◌, ap, sym, Bool, true, false, Option, none, some, List, [],
  ◌∷◌, ◌++◌, length, if◌then◌else◌, GoError, text, inl, inr, map, ◌==◌, text_comparable,
  Option-cases, Bool-cases,
}
use mac_os_vz_kubelet.Common.Runs.{Run, done, failed, panicked, ◌>>=◌, perform}
use mac_os_vz_kubelet.Resource.VirtualMachine.{EnvVar}
use mac_os_vz_kubelet.Guest.Shell.{
  build_exec_command_string, build_export_env_command, exports, arguments,
}
use mac_os_vz_kubelet.Guest.Sessions.{
  AttachIo, SessionAct, start, shell, write, copy_stdin, close_pipe, wait, execute_command,
  write_lines, write_exports, start_command, finish_command, attempt,
}

-- A step of a plan: a call, and whether its failure ends the plan.
abbrev pub Step : Type 0
Step = Bool × SessionAct

abbrev pub optional : SessionAct → Step
optional act = (false, act)

abbrev pub needed : SessionAct → Step
needed act = (true, act)

abbrev pub lines_plan : ℕ → List String → List Step
lines_plan n [] = []
lines_plan n (c ∷ cmd) = needed (write n (c <> "\n")) ∷ lines_plan (suc n) cmd

abbrev pub finish_plan : AttachIo → List Step
finish_plan attach =
    if attach.tty
    then needed wait ∷ []
    else (if attach.has_stdin then needed copy_stdin ∷ [] else [])
      ++ optional close_pipe ∷ needed wait ∷ []

abbrev pub concat_text : List String → String
concat_text [] = ""
concat_text (t ∷ texts) = t <> concat_text texts

module _ (quote : String → String) (has_newline : String → Bool) where
  -- The line that exports a variable: its value quoted, or as a here document where it has a newline.
  abbrev pub value_text : Bool → String → String
  value_text true value = "$(cat <<'ESCAPE_EOF'\n" <> value <> "\nESCAPE_EOF\n)"
  value_text false value = quote value

  abbrev pub export_text : EnvVar → String
  export_text e = "export " <> e.name <> "=" <> value_text (has_newline e.value) e.value <> "\n"

  -- The text for a command of a shell with -c: the exports, and the arguments after the command each
  -- quoted.
  abbrev pub arguments_text : List String → String
  arguments_text [] = ""
  arguments_text (a ∷ rest) = " " <> quote a <> arguments_text rest

  abbrev pub command_text : List EnvVar → String → String → List String → String
  command_text env shell_name command rest =
      concat_text (map export_text env)
      <> shell_name
      <> " "
      <> "-c"
      <> " $'"
      <> command
      <> "'"
      <> arguments_text rest

  abbrev pub exports_plan : ℕ → List EnvVar → List Step
  exports_plan n [] = []
  exports_plan n (e ∷ env) = optional (write n (export_text e)) ∷ exports_plan (suc n) env

  -- A shell that is given the exports and then the command, a line for each word.
  abbrev pub shell_plan : List EnvVar → List String → List Step
  shell_plan env cmd = needed shell ∷ exports_plan 0 env ++ lines_plan (length env) cmd

  abbrev pub start_plan : List EnvVar → List String → List Step
  start_plan env (shell_name ∷ option ∷ command ∷ rest) =
      if option == "-c"
      then needed (start (command_text env shell_name command rest)) ∷ []
      else shell_plan env (shell_name ∷ option ∷ command ∷ rest)
  start_plan env [] = shell_plan env []
  start_plan env (a ∷ []) = shell_plan env (a ∷ [])
  start_plan env (a ∷ b ∷ []) = shell_plan env (a ∷ b ∷ [])

  export_text_lem : (e : EnvVar) → build_export_env_command quote has_newline e ≡ export_text e
  unfolding build_export_env_command
  export_text_lem e = elim (Bool-cases (has_newline e.value)) [
    | inl h ↦ rw h refl
    | inr h ↦ rw h refl
  ]

  exports_lem :
      (env : List EnvVar) → exports quote has_newline env ≡ concat_text (map export_text env)
  exports_lem [] = refl
  exports_lem (e ∷ env) =
      ap (λ t. t <> exports quote has_newline env) (export_text_lem e)
      ∙ ap (λ t. export_text e <> t) (exports_lem env)

  arguments_lem : (rest : List String) → arguments quote has_newline rest ≡ arguments_text rest
  arguments_lem [] = refl
  arguments_lem (a ∷ rest) = ap (λ t. " " <> quote a <> t) (arguments_lem rest)

  -- A command whose second word is -c has a text, and any other has none.
  build_exec_command_string_lem :
      (shell_name option command : String) (rest : List String) (env : List EnvVar)
      → (option == "-c") ≡ true
      → build_exec_command_string quote has_newline (shell_name ∷ option ∷ command ∷ rest) env
        ≡ inr (command_text env shell_name command rest)
  unfolding build_exec_command_string
  build_exec_command_string_lem shell_name option command rest env h =
      let e = (text_comparable.same_iff option "-c").0 h in
      rw h (ap inr (rw (e, exports_lem env, arguments_lem rest) refl))

  other_command :
      (shell_name option command : String) (rest : List String) (env : List EnvVar)
      → (option == "-c") ≡ false
      → build_exec_command_string quote has_newline (shell_name ∷ option ∷ command ∷ rest) env
        ≡ inl (text "command is not a shell exec command")
  unfolding build_exec_command_string
  other_command shell_name option command rest env h = rw h refl

  abbrev pub plan : AttachIo → List EnvVar → List String → List Step
  plan attach env cmd = start_plan env cmd ++ finish_plan attach

module _ (world : SessionAct → Option GoError) where
  -- The steps in order, up to the first needed one that fails.
  pub carry_out : List Step → Run SessionAct Unit
  carry_out [] = ([], done tt)
  carry_out ((must, act) ∷ steps) =
      let rest = carry_out steps in
      elim (if must then world act else none) [
        | none ↦ (act ∷ rest.0, rest.1)
        | some e ↦ (act ∷ [], failed e)
      ]

  prefix : {A : Type 0} → SessionAct → Run SessionAct A → Run SessionAct A
  prefix act m = (act ∷ m.0, m.1)

  prefix-bind :
      {A B : Type 0} (act : SessionAct) (m : Run SessionAct A) (f : A → Run SessionAct B)
      → prefix act (m >>= f) ≡ (prefix act m >>= f)
  unfolding prefix ◌>>=◌
  prefix-bind act (acts, done a) f = refl
  prefix-bind act (acts, failed e) f = refl
  prefix-bind act (acts, panicked) f = refl

  carry_out-append :
      (xs ys : List Step) → carry_out (xs ++ ys) ≡ (carry_out xs >>= λ _. carry_out ys)
  unfolding carry_out ◌>>=◌ prefix
  carry_out-append [] ys = refl
  carry_out-append ((must, act) ∷ xs) ys = elim (Option-cases (if must then world act else none)) [
    | inl h ↦
        rw (h, carry_out)
          (ap (prefix act) (carry_out-append xs ys)
            ∙ prefix-bind act (carry_out xs) (λ _. carry_out ys))
    | inr (e, h) ↦ rw (h, carry_out) refl
  ]

  needed_first :
      (act : SessionAct) (steps : List Step)
      → (perform world act >>= λ _. carry_out steps) ≡ carry_out (needed act ∷ steps)
  unfolding carry_out ◌>>=◌
  needed_first act steps = elim (Option-cases (world act)) [
    | inl h ↦ rw h refl
    | inr (e, h) ↦ rw h refl
  ]

  optional_first :
      (act : SessionAct) (steps : List Step)
      → (attempt act >>= λ _. carry_out steps) ≡ carry_out (optional act ∷ steps)
  unfolding carry_out ◌>>=◌
  optional_first act steps = refl

  needed_last : (act : SessionAct) → perform world act ≡ carry_out (needed act ∷ [])
  unfolding carry_out
  needed_last act = elim (Option-cases (world act)) [ inl h ↦ rw h refl | inr (e, h) ↦ rw h refl ]

  write_lines_lem :
      (n : ℕ) (cmd : List String) → write_lines world n cmd ≡ carry_out (lines_plan n cmd)
  unfolding write_lines
  write_lines_lem n [] = unfold carry_out in refl
  write_lines_lem n (c ∷ cmd) =
      ap (λ m. perform world (write n (c <> "\n")) >>= λ _. m) (write_lines_lem (suc n) cmd)
      ∙ needed_first (write n (c <> "\n")) (lines_plan (suc n) cmd)

  module _ (quote : String → String) (has_newline : String → Bool) where
    write_exports_lem :
        (n : ℕ) (env : List EnvVar)
        → write_exports world quote has_newline n env
          ≡ carry_out (exports_plan quote has_newline n env)
    unfolding write_exports
    write_exports_lem n [] = unfold carry_out in refl
    write_exports_lem n (e ∷ env) =
        let act = write n (export_text quote has_newline e) in
        ap (λ t. attempt (write n t) >>= λ _. write_exports world quote has_newline (suc n) env)
          (export_text_lem quote has_newline e)
        ∙ ap (λ m. attempt act >>= λ _. m) (write_exports_lem (suc n) env)
        ∙ optional_first act (exports_plan quote has_newline (suc n) env)

    shell_lem :
        (env : List EnvVar) (cmd : List String)
        → (perform world shell >>= λ _.
            write_exports world quote has_newline 0 env >>= λ _. write_lines world (length env) cmd)
          ≡ carry_out (shell_plan quote has_newline env cmd)
    shell_lem env cmd =
        let exports = exports_plan quote has_newline 0 env in
        let lines = lines_plan (length env) cmd in
        ap (λ m. perform world shell >>= λ _. m)
          (ap (λ m. m >>= λ _. write_lines world (length env) cmd) (write_exports_lem 0 env)
            ∙ ap (λ m. carry_out exports >>= λ _. m) (write_lines_lem (length env) cmd)
            ∙ sym (carry_out-append exports lines))
        ∙ needed_first shell (exports ++ lines)

    start_command_lem :
        (env : List EnvVar) (cmd : List String)
        → start_command world quote has_newline env cmd
          ≡ carry_out (start_plan quote has_newline env cmd)
    unfolding build_exec_command_string
    start_command_lem env [] = shell_lem env []
    start_command_lem env (a ∷ []) = shell_lem env (a ∷ [])
    start_command_lem env (a ∷ b ∷ []) = shell_lem env (a ∷ b ∷ [])
    start_command_lem env (a ∷ b ∷ c ∷ rest) = elim (Bool-cases (b == "-c")) [
      | inl h ↦
          rw
            (
              build_exec_command_string_lem quote has_newline a b c rest env h,
              start_command,
              start_plan,
              h,
            )
            (needed_last (start (command_text quote has_newline env a c rest)))
      | inr h ↦
          rw (other_command quote has_newline a b c rest env h, start_command, start_plan, h)
            (shell_lem env (a ∷ b ∷ c ∷ rest))
    ]

    closing_lem :
        (attempt close_pipe >>= λ _. perform world wait)
        ≡ carry_out (optional close_pipe ∷ needed wait ∷ [])
    closing_lem =
        ap (λ m. attempt close_pipe >>= λ _. m) (needed_last wait)
        ∙ optional_first close_pipe (needed wait ∷ [])

    finish_command_lem :
        (attach : AttachIo)
        → finish_command world quote has_newline attach ≡ carry_out (finish_plan attach)
    finish_command_lem attach = elim (Bool-cases attach.tty) [
      | inl t ↦ rw t (needed_last wait)
      | inr f ↦ elim (Bool-cases attach.has_stdin) [
        | inl i ↦
            rw (f, i)
              (ap (λ m. perform world copy_stdin >>= λ _. m) closing_lem
                ∙ needed_first copy_stdin (optional close_pipe ∷ needed wait ∷ []))
        | inr n ↦ rw (f, n) (unfold ◌>>=◌ in closing_lem)
      ]
    ]

    -- ExecuteCommand makes the calls of its plan in order, up to the first needed one that fails, with
    -- whose error it ends. A command whose second word is -c, with a third, is started as one text: the
    -- exports of the environment, the shell with -c and the third word between $' and ', and the rest
    -- quoted. Any other goes line by line to a shell, after the exports of the environment. Without a terminal
    -- the input of the caller, if there is one, is then copied and the pipe closed; the command is
    -- awaited last. Only the failures of the exports and of the closing of the pipe do not matter.
    pub execute_command-eq-carry_out :
        (attach : AttachIo) (env : List EnvVar) (cmd : List String)
        → execute_command world quote has_newline attach env cmd
          ≡ carry_out (plan quote has_newline attach env cmd)
    unfolding execute_command
    execute_command-eq-carry_out attach env cmd =
        ap (λ m. m >>= λ _. finish_command world quote has_newline attach)
          (start_command_lem env cmd)
        ∙ ap (λ m. carry_out (start_plan quote has_newline env cmd) >>= λ _. m)
            (finish_command_lem attach)
        ∙ sym (carry_out-append (start_plan quote has_newline env cmd) (finish_plan attach))
