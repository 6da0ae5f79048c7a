-- ===== src/Cli.antt =====
-- chimera/core/__main__.py: how core launches its modules and how it installs itself as a LaunchAgent.
-- Paths are texts. `launchctl` and the files are a state, `Host`; what the process sees of its
-- environment are the fields of `Process`.
pub mod Agents
pub mod Monitor
use macbastion.Prelude.{
  ℕ, ◌+◌, String, Bool, true, false, not, ◌&&◌, Option, none, some, List, [], ◌∷◌, ◌++◌, map,
  str_eq, keep_if, is_some, if◌then◌else◌,
}
use macbastion.Prelude.Text.{concat}
use macbastion.Prelude.Dict
use macbastion.Prelude.Dict.{Dict}
use macbastion.Supervisor.{ModuleSpec, chimera_modules}

-- what the process sees: variables of its environment, whether it is a frozen binary and where it lies,
-- the home directory, which files exist, and which agents `launchctl bootout` fails to unload
pub record Process : Type 0 where
  pub env : String → Option String
  pub is_frozen : Bool
  pub executable : String
  pub frozen_root : String
  pub source_root : String
  pub home : String
  pub has_file : String → Bool
  pub bootout_fails : String → Bool

abbrev pub slash : String → String → String
slash a b = concat a (concat "/" b)

-- the parts of a text, one after the other
abbrev pub text_of_parts : List String → String
text_of_parts [] = ""
text_of_parts (s ∷ parts) = concat s (text_of_parts parts)

abbrev or_else : Option String → String → String
or_else none default = default
or_else (some s) default = if str_eq s "" then default else s

abbrev set_or : Option String → String → String
set_or none default = default
set_or (some s) default = s

-- how a module is launched
pub record Launch : Type 0 where
  pub argv : List String
  pub env : Dict String
  pub cwd : String

-- the LaunchAgents: files by path, the paths of the agents that are loaded, and what was printed
pub record Host : Type 0 where
  pub files : Dict String
  pub loaded : List String
  pub printed : List String

module _ (p : Process) where
  -- `_chimera_root`
  unfoldable pub chimera_root : String
  chimera_root =
      or_else (p.env "CHIMERA_ROOT") (if p.is_frozen then p.frozen_root else p.source_root)

  abbrev venv_python : String
  venv_python = slash chimera_root ".venv/bin/python"

  -- `_module_python`
  unfoldable pub module_python : String
  module_python = or_else (p.env "CHIMERA_PYTHON") (
      if p.is_frozen
      then if p.has_file venv_python then venv_python else "python3"
      else p.executable)

  abbrev pub module_dir : String → String
  module_dir name = slash (slash chimera_root "modules") name

  -- `module_binary`
  unfoldable pub module_binary : String → String
  module_binary name = slash (module_dir name) name

  abbrev pub app_dir : String → String
  app_dir name = slash (slash (module_dir name) (concat name ".app")) "Contents/MacOS"

  -- `module_app_binary`
  unfoldable pub module_app_binary : String → String
  module_app_binary name = slash (app_dir name) name

  -- `_disclaim_launcher`
  unfoldable pub disclaim_launcher : String
  disclaim_launcher = slash chimera_root "tools/tcc-disclaim/tcc-disclaim"

  abbrev pub base_env : String → Dict String
  base_env socket_dir =
      ("CHIMERA_SOCKET_DIR", socket_dir)
      ∷ ("PATH", set_or (p.env "PATH") "/usr/bin:/bin")
      ∷ ("HOME", set_or (p.env "HOME") p.home)
      ∷ []

  abbrev python_path : String → String
  python_path name = concat (module_dir name) (concat ":" chimera_root)

  abbrev native_argv : String → List String
  native_argv name =
      if p.has_file disclaim_launcher
      then disclaim_launcher ∷ module_binary name ∷ []
      else module_binary name ∷ []

  -- `_spawn_argv`
  unfoldable pub spawn_argv : ModuleSpec → String → Launch
  spawn_argv spec socket_dir =
      if spec.python
      then record {
        argv = module_python ∷ "-m" ∷ spec.name ∷ [];
        env = Dict.put (base_env socket_dir) "PYTHONPATH" (python_path spec.name);
        cwd = module_dir spec.name;
      }
      else record {
        argv = native_argv spec.name;
        env = base_env socket_dir;
        cwd = module_dir spec.name;
      }

  abbrev xml_string : String → String
  xml_string s = text_of_parts ("        <string>" ∷ s ∷ "</string>\n" ∷ [])

  abbrev plist_head : String
  plist_head = text_of_parts (
      "<?xml version=\"1.0\" encoding=\"UTF-8\"?>\n"
      ∷ "<!DOCTYPE plist PUBLIC \"-//Apple//DTD PLIST 1.0//EN\" "
      ∷ "\"http://www.apple.com/DTDs/PropertyList-1.0.dtd\">\n" ∷ "<plist version=\"1.0\">\n"
      ∷ "<dict>\n" ∷ "    <key>Label</key>\n" ∷ [])

  abbrev plist_tail : String
  plist_tail =
      "    <key>RunAtLoad</key>\n    <true/>\n    <key>KeepAlive</key>\n    <true/>\n</dict>\n</plist>\n"

  abbrev plist_program : List String → String
  plist_program argv = text_of_parts (
      "    <key>ProgramArguments</key>\n"
      ∷ "    <array>\n"
      ∷ text_of_parts (map xml_string argv)
      ∷ "    </array>\n"
      ∷ "    <key>EnvironmentVariables</key>\n"
      ∷ "    <dict>\n"
      ∷ "        <key>CHIMERA_SOCKET_DIR</key>\n"
      ∷ [])

  abbrev plist_cwd : String → String
  plist_cwd dir = text_of_parts (
      "    </dict>\n" ∷ "    <key>WorkingDirectory</key>\n" ∷ "    <string>" ∷ dir ∷ "</string>\n"
      ∷ plist_tail ∷ [])

  -- `launch_agent_plist`
  unfoldable pub launch_agent_plist : String → String
  launch_agent_plist socket_dir =
      let argv : List String =
        if p.is_frozen
        then p.executable ∷ "up" ∷ []
        else p.executable ∷ "-m" ∷ "core" ∷ "up" ∷ [] in
      text_of_parts (
        plist_head
        ∷ "    <string>com.umbra.chimera</string>\n"
        ∷ plist_program argv
        ∷ xml_string socket_dir
        ∷ plist_cwd chimera_root
        ∷ [])

  -- `external_agent_plist`
  unfoldable pub external_agent_plist : String → String → Bool → String
  external_agent_plist name socket_dir app_bundle = text_of_parts (
      plist_head
      ∷ "    <string>com.umbra.chimera."
      ∷ name
      ∷ "</string>\n"
      ∷ plist_program ((if app_bundle then module_app_binary name else module_binary name) ∷ [])
      ∷ xml_string socket_dir
      ∷ "        <key>HOME</key>\n"
      ∷ xml_string p.home
      ∷ plist_cwd (if app_bundle then app_dir name else module_dir name)
      ∷ [])

  -- `_launch_agent_path`
  unfoldable pub launch_agent_path : String
  launch_agent_path = slash p.home "Library/LaunchAgents/com.umbra.chimera.plist"

  -- `_external_agent_path`
  unfoldable pub external_agent_path : String → String
  external_agent_path name =
      text_of_parts (p.home ∷ "/Library/LaunchAgents/com.umbra.chimera." ∷ name ∷ ".plist" ∷ [])

  -- `plist.write_text`, `plist.unlink(missing_ok=True)`, `print`
  abbrev pub write_text : String → String → Host → Host
  write_text path text h = record h { files = Dict.put h.files path text }

  abbrev pub unlink : String → Host → Host
  unlink path h = record h { files = Dict.remove h.files path }

  abbrev pub say : String → Host → Host
  say line h = record h { printed = h.printed ++ line ∷ [] }

  -- `launchctl bootout`, whose failure is ignored; an agent that is not unloaded stays loaded
  abbrev pub bootout : String → Host → Host
  bootout path h = record h {
    loaded = if p.bootout_fails path then h.loaded else keep_if (λ a. not (str_eq a path)) h.loaded;
  }

  abbrev pub bootstrapped : Option String → String → Host → Host
  bootstrapped none path h = record h { loaded = path ∷ h.loaded }
  bootstrapped (some stderr) path h = h

  -- `stderr_of` tells with which message `launchctl bootstrap` fails, if it does
  module _ (stderr_of : String → Option String) where
    abbrev pub install_external : String → ModuleSpec → Host → Host
    install_external socket_dir spec h =
        let path = external_agent_path spec.name in
        if spec.external
        then say (text_of_parts ("  external agent: " ∷ spec.name ∷ " -> " ∷ path ∷ [])) (
            bootstrapped (stderr_of path) path (
              bootout path
                (write_text path (external_agent_plist spec.name socket_dir spec.app_bundle) h)))
        else h

    abbrev pub install_externals : String → List ModuleSpec → Host → Host
    install_externals socket_dir [] h = h
    install_externals socket_dir (spec ∷ specs) h =
        install_externals socket_dir specs (install_external socket_dir spec h)

    abbrev pub install_end : String → Option String → Host → ℕ × Host
    install_end socket_dir (some stderr) h = (
      1,
      say (concat "  " stderr) (
          say
            (text_of_parts
              ("wrote plist at " ∷ launch_agent_path ∷ ", but `launchctl bootstrap` failed:" ∷ []))
            h),
    )
    install_end socket_dir none h = (
      0,
      say "  remove any time with:  python -m core uninstall" (
          say
            (text_of_parts (
              "CHIMERA installed — runs at login, restarts on crash.\n  plist: " ∷ launch_agent_path
              ∷ []))
            (install_externals socket_dir chimera_modules h)),
    )

    -- `_install`: the exit code
    unfoldable pub install : String → Host → ℕ × Host
    install socket_dir h =
        let path = launch_agent_path in
        install_end socket_dir (stderr_of path) (
          bootstrapped (stderr_of path) path
            (bootout path (write_text path (launch_agent_plist socket_dir) h)))

  abbrev pub uninstall_external : ModuleSpec → Host → Host
  uninstall_external spec h =
      let path = external_agent_path spec.name in
      if spec.external then unlink path (bootout path h) else h

  abbrev pub uninstall_externals : List ModuleSpec → Host → Host
  uninstall_externals [] h = h
  uninstall_externals (spec ∷ specs) h = uninstall_externals specs (uninstall_external spec h)

  -- `_uninstall`: the exit code
  unfoldable pub uninstall : Host → ℕ × Host
  uninstall h =
      let path = launch_agent_path in
      let h' = uninstall_externals chimera_modules (unlink path (bootout path h)) in
      (
        0,
        say
            (if is_some (Dict.get h.files path)
              then text_of_parts
                  ("CHIMERA uninstalled — agent unloaded, plist removed (" ∷ path ∷ ")." ∷ [])
              else "CHIMERA not installed — nothing to remove.")
            h',
      )
