-- ===== src/Guest/Shell.antt =====
-- internal/utils/cmd.go: the text of a command for the guest's shell.
use mac_os_vz_kubelet.Common.{
  String, ◌<>◌, ◌==◌, text_comparable, Bool, List, [], ◌∷◌, GoError, text, ◌⊎◌, inl, inr,
  if◌then◌else◌,
}
use mac_os_vz_kubelet.Resource.VirtualMachine.{EnvVar}

-- `quote` is strconv.Quote, and `has_newline` whether strings.Count finds a newline.
module _ (quote : String → String) (has_newline : String → Bool) where
  unfoldable pub build_export_env_command : EnvVar → String
  build_export_env_command e =
      let value =
        if has_newline e.value
        then "$(cat <<'ESCAPE_EOF'\n" <> e.value <> "\nESCAPE_EOF\n)"
        else quote e.value in
      "export " <> e.name <> "=" <> value <> "\n"

  abbrev pub exports : List EnvVar → String
  exports [] = ""
  exports (e ∷ env) = build_export_env_command e <> exports env

  abbrev pub arguments : List String → String
  arguments [] = ""
  arguments (a ∷ rest) = " " <> quote a <> arguments rest

  unfoldable pub build_exec_command_string : List String → List EnvVar → GoError ⊎ String
  unfolding build_export_env_command
  build_exec_command_string (shell ∷ option ∷ command ∷ rest) env =
      if option == "-c"
      then inr (exports env <> shell <> " " <> option <> " $'" <> command <> "'" <> arguments rest)
      else inl (text "command is not a shell exec command")
  build_exec_command_string _ env = inl (text "command is not a shell exec command")
